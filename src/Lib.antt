-- ===== src/Lib.antt =====
-- PG-Limiter watches the connections of the users of a VPN panel and punishes a user who stays above
-- the allowed number of devices. A cycle of the service collects the connections of each user, counts
-- the devices behind them (utils/device_count.py), asks the policy for the limit of the user and
-- whether the user may be judged at all (utils/user_policy.py), and reports a user above the limit to
-- the warning system (utils/warning_system). A user seen above the limit in enough consecutive scans is
-- punished by the step that the history of violations selects, and the punishment is then recorded
-- (utils/punishment_system.py, db/crud/violations.py). A disabled user stands in a registry until the
-- ban is over (utils/handel_dis_users.py). The scans of the log source rest on the lines that the nodes
-- send: a line is remembered by its digest, so that it can be refused when it comes again, and a sample carries
-- the streams that it rests on (utils/log_observations.py). The punishment is applied on the panel under a claim of the user and then
-- recorded; a punishment whose record failed is kept as pending, for the next call to record it
-- (utils/panel_api/users.py).
-- Users are watched only while the operator has Topics enabled (telegram_bot/topics.py,
-- utils/monitoring_gate.py).
--
-- Which file models which part:
--   Prelude    shared names, equality as an interface, lists, sets, dicts, and signed integers
--   Text       the text operations of Python that the code calls
--   Value      the untyped values of a configuration, as int() and str() read them
--   Types      utils/types.py: ConnectionInfo, DeviceInfo, UserType
--   DeviceCount  utils/device_count.py: Key has subnet_key and device_key, Tally the sets that
--              count_devices fills and count_devices_from_ips; the other files hold proofs
--   Policy     utils/user_policy.py: Defs has every function of the module
--   Warnings   utils/warning_system: Record is user_warning.py; System and Scan are
--              enhanced_system.py, with add_warning in Scan, split at its branches (gap_of and
--              count_scan are the scan rule, refresh and first_warning write the record); Trace has
--              sequences of events; Expired is cleanup_expired_warnings, with what happens while it
--              waits as a parameter; File writes and reads the file of the warnings
--   Punishment utils/punishment_system.py: Step reads the configured steps, System has the history
--              and the choice of the step, Ledger the record of what was applied, with the rows of
--              db/crud/violations.py; Escalation, Window and Incident hold the theorems
--   Enforcement  utils/enforcement_guard.py and the marks of utils/punishment_facts.py in Guard,
--              disable_user_with_punishment of utils/panel_api/users.py in Flow: apply_selected_punishment
--              is split at its kinds of step, and settle is the end that its branches share. What the
--              panel answers, whether a request without an answer took effect, and where a call is
--              cancelled stand in a script; with_effect and reset_and_disable are parts of apply_revoke
--   Observations  utils/log_observations.py: State has the fields and the faults, Replay the cache of
--              seen lines, Fleet the settings, the fleet and the heartbeats of utils/shared_state.py,
--              Ready the reasons, Evidence the samples; Doubt, Covered, Replayed and Counted follow a line that
--              comes again, Heap and Index the cache, Steps, FleetSteps and Epochs the ends of streams
--   Monitoring telegram_bot/topics.py in Topics, utils/monitoring_gate.py in Gate
--   Registry   utils/handel_dis_users.py over the rows of db/crud/users.py: Store has disable, enable,
--              users_to_enable and remaining_time
--
-- Correspondence. A function keeps the name of the source, without a leading underscore. A method
-- takes the clock and the state of its object and returns the new state; a function that can raise
-- returns an Option or a result type. Times are whole milliseconds, and whole microseconds in
-- Observations, where the source has seconds in floating point. One call reads the clock once. The
-- digest of a line and the database of time zones are parameters. A heap is a sorted list. A set is
-- a list without repetition, a dict an association list in insertion order. Every loop is a
-- recursion over a list, so no definition needs fuel but the decimal text of a number, whose fuel is
-- one more than the number and so enough.
--
-- Not modelled: the HTTP client of the panel, the Telegram bot but its topics, the command line,
-- file and database input and output, log parsing, reports, and the tasks that run the cycle. What
-- the database does in a call of the ledger is a parameter of that call. Interleavings within one
-- call are modelled for the expiry of records alone, elsewhere sequences of whole calls are.
-- Infinite floats are outside the values, and so are non-ASCII digits.
pub mod Prelude
pub mod Text
pub mod Types
pub mod Value
pub mod DeviceCount
pub mod Policy
pub mod Warnings
pub mod Punishment
pub mod Registry
pub mod Observations
pub mod Enforcement
pub mod Monitoring
