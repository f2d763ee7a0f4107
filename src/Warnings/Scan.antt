-- ===== src/Warnings/Scan.antt =====
-- utils/warning_system/enhanced_system.py: `add_warning`, split at its branches: the scan gap rule, the
-- record of a first violation, and the refresh of a record. A scan is one call with its clock.
use Prim.Native.String.{◌++◌ as join}
use pg_limiter.Prelude.{
  ℕ, ◌+◌, ◌*◌, max, String, Bool, true, false, Option, none, some, List, [], ◌∷◌, ◌==◌, nat_eq,
  string_eq, add, ltb, leb, if◌then◌else◌,
}
use pg_limiter.Prelude.Int.{ℤ, pos, leb_ℤ, int_eq}
use pg_limiter.Prelude.Dict.{Dict, lookup, insert}
use pg_limiter.Types.{ConnectionInfo, UserType}
use pg_limiter.DeviceCount.{ipv4_prefix}
use pg_limiter.Warnings.Record.{
  UserLimitWarning, seconds, update_ip_activity, calculate_trust_score, set_at, values_with,
  has_many,
}
use pg_limiter.Warnings.System.{WarningSystem, effective_max_warnings, count_recent_warnings}

-- What the scan gap rule says of a further violation.
pub data Gap : Type 0 where
  unknown_previous clock_back too_late counted too_soon : Gap

abbrev pub min_scan_gap : WarningSystem → ℕ
min_scan_gap s = max 1000 (s.check_interval * 500)

abbrev pub max_scan_gap : WarningSystem → ℕ
max_scan_gap s = seconds s.monitoring_period

unfoldable pub gap_of : WarningSystem → ℕ → ℕ → Gap
gap_of s previous now =
    if leb previous 0
    then unknown_previous
    else if ltb now previous
    then clock_back
    else if ltb (previous + max_scan_gap s) now
    then too_late
    else if leb (previous + min_scan_gap s) now
    then counted
    else too_soon

-- The streak and the time of the scan that the rule writes.
unfoldable pub count_scan : Gap → ℕ → UserLimitWarning → UserLimitWarning
count_scan unknown_previous now w = record w { last_scan_time = now }
count_scan clock_back now w = record w { consecutive_violations = 1; last_scan_time = now }
count_scan too_late now w = record w { consecutive_violations = 1; last_scan_time = now }
count_scan counted now w = record w {
  consecutive_violations = w.consecutive_violations + 1;
  last_scan_time = now;
}
count_scan too_soon now w = w

abbrev connections : Option UserType → List ConnectionInfo
connections none = []
connections (some user) = elim user.device_info [ none ↦ [] | some info ↦ info.connections ]

unfoldable pub extract_from :
    List ConnectionInfo → Dict String (List String) → Dict String (List String)
extract_from [] d = d
extract_from (conn ∷ rest) d =
    extract_from rest (insert conn.ip (add conn.inbound_protocol (set_at conn.ip d)) d)

-- `_extract_ip_to_inbounds`
unfoldable pub extract_ip_to_inbounds : Option UserType → Dict String (List String)
unfolding extract_from
extract_ip_to_inbounds user = extract_from (connections user) []

-- `_extract_subnets`
unfoldable pub extract_subnets : List String → List String → List String
extract_subnets [] found = found
extract_subnets (ip ∷ ips) found =
    extract_subnets ips
      (add (elim (ipv4_prefix ip) [ none ↦ ip | some prefix ↦ join prefix ".x" ]) found)

-- A violation scan: who, when, and what was seen.
pub record Scan : Type 0 where
  pub username : String
  pub now : ℕ
  pub ip_count : ℕ
  pub ips : List String
  pub user_limit : Option ℤ
  pub user_data : Option UserType

abbrev limit_or : Option ℤ → ℤ → ℤ
limit_or none default = default
limit_or (some limit) default = if limit == pos 0 then default else limit

-- `user_limit if user_limit and user_limit >= 1 else 1`
abbrev first_limit : Option ℤ → ℤ
first_limit none = pos 1
first_limit (some limit) = if leb_ℤ (pos 1) limit then limit else pos 1

abbrev inbounds_of : Option UserType → List String → List String
inbounds_of none old = old
inbounds_of (some user) old = elim user.device_info [
  | none ↦ old
  | some info ↦ info.inbound_protocols
]

abbrev has_info : Option UserType → Bool
has_info none = false
has_info (some user) = elim user.device_info [ none ↦ false | some info ↦ true ]

-- What the scan writes into a record whose streak has been settled, the score last.
unfoldable pub refresh : WarningSystem → Scan → UserLimitWarning → UserLimitWarning
refresh s scan w =
    let seen = update_ip_activity scan.ips scan.now (record w {
      ip_count = scan.ip_count;
      ips = scan.ips;
      user_limit = limit_or scan.user_limit w.user_limit;
    }) in
    let extended = record seen {
      monitoring_end_time = scan.now + seconds s.monitoring_period;
      inbound_protocols = inbounds_of scan.user_data seen.inbound_protocols;
      ip_to_inbounds =
          if has_info scan.user_data
          then extract_ip_to_inbounds scan.user_data
          else seen.ip_to_inbounds;
      ip_subnets = extract_subnets scan.ips [];
    } in
    record extended { trust_score = calculate_trust_score extended }

-- The record of a first violation.
unfoldable pub first_warning : WarningSystem → Scan → UserLimitWarning
first_warning s scan =
    let inbounds = extract_ip_to_inbounds scan.user_data in
    let fresh : UserLimitWarning = record {
      owner = s.next_owner;
      username = scan.username;
      ip_count = scan.ip_count;
      ips = scan.ips;
      warning_time = scan.now;
      monitoring_end_time = scan.now + seconds s.monitoring_period;
      warned = true;
      monitoring_history = [];
      ip_first_seen = [];
      ip_last_seen = [];
      ip_seen_count = [];
      trust_score = pos 0;
      inbound_protocols = inbounds_of scan.user_data [];
      ip_subnets = extract_subnets scan.ips [];
      previous_warnings_12h = count_recent_warnings scan.now scan.username 12 s;
      previous_warnings_24h = count_recent_warnings scan.now scan.username 24 s;
      ip_to_inbounds = inbounds;
      same_ip_multiple_inbounds = values_with has_many inbounds;
      connection_details = connections scan.user_data;
      user_limit = first_limit scan.user_limit;
      consecutive_violations = 1;
      last_scan_time = scan.now;
      max_warnings_at_creation = s.max_warnings;
    } in
    update_ip_activity scan.ips scan.now
      (record fresh { trust_score = calculate_trust_score fresh })

pub data Outcome : Type 0 where
  new updated violation_limit_reached : Outcome

-- The branch of a user who is under monitoring already.
unfoldable pub continue_warning : WarningSystem → Scan → UserLimitWarning → Outcome × WarningSystem
continue_warning s scan w =
    let settled = count_scan (gap_of s w.last_scan_time scan.now) scan.now w in
    let required = effective_max_warnings s settled in
    let w' = refresh s scan settled in
    (
      if leb required w'.consecutive_violations then violation_limit_reached else updated,
      record s { warnings = insert scan.username w' s.warnings },
    )

unfoldable pub add_warning : Scan → WarningSystem → Outcome × WarningSystem
add_warning scan s = elim (lookup scan.username s.warnings) [
  | some w ↦ continue_warning s scan w
  | none ↦ (
    new,
    record s {
      warnings = insert scan.username (first_warning s scan) s.warnings;
      next_owner = s.next_owner + 1;
    },
  )
]
