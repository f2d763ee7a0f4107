-- ===== src/Warnings/System.antt =====
-- utils/warning_system/enhanced_system.py: the state of `EnhancedWarningSystem` and its operations
-- but `add_warning`, the expiry of records and the punishing loop. A method takes the clock and the state and returns the new state. The
-- two JSON files are mirrors that `save_warnings` and `save_warning_history` write: they are not
-- part of the state, and no other task is modelled as running while they are written.
use mathlib.Core.List.{◌++◌}
use pg_limiter.Prelude.{
  ℕ, ◌+◌, ◌*◌, max, String, Bool, true, false, ◌&&◌, ◌||◌, Option, none, some, List, [], ◌∷◌, ◌==◌,
  nat_eq, string_eq, keep, length, is_empty, ltb, if◌then◌else◌,
}
use pg_limiter.Prelude.Int.{ℤ, pos_part, int_eq}
use pg_limiter.Prelude.Dict.{Dict, lookup, has_key, insert, erase, keep_items}
use pg_limiter.Warnings.Record.{UserLimitWarning, seconds, is_monitoring_active}

pub record WarningSystem : Type 0 where
  pub warnings : Dict String UserLimitWarning
  pub warning_history : Dict String (List ℕ)
  pub check_interval : ℕ
  pub max_warnings : ℕ
  pub monitoring_period : ℕ
  pub next_owner : ℕ

-- `update_settings`, which the constructor repeats.
unfoldable pub update_settings : ℤ → ℤ → WarningSystem → WarningSystem
update_settings check_interval max_warnings s =
    let interval = max 5 (pos_part check_interval) in
    let warnings_needed = max 1 (pos_part max_warnings) in
    record s {
      check_interval = interval;
      max_warnings = warnings_needed;
      monitoring_period = interval * warnings_needed;
    }

unfoldable pub effective_max_warnings : WarningSystem → UserLimitWarning → ℕ
effective_max_warnings s w =
    if ltb w.max_warnings_at_creation 1
    then s.max_warnings
    else max w.max_warnings_at_creation s.max_warnings

abbrev pub history_of : String → WarningSystem → List ℕ
history_of username s = elim (lookup username s.warning_history) [ none ↦ [] | some ts ↦ ts ]

-- `ts > now - hours`
abbrev pub is_recent : ℕ → ℕ → ℕ → Bool
is_recent now hours ts = ltb now (ts + seconds (hours * 3600))

unfoldable pub count_recent_warnings : ℕ → String → ℕ → WarningSystem → ℕ
count_recent_warnings now username hours s =
    length (keep (is_recent now hours) (history_of username s))

unfoldable pub recent_history : ℕ → Dict String (List ℕ) → Dict String (List ℕ)
recent_history now [] = []
recent_history now ((user, ts) ∷ d) =
    let rest = recent_history now d in
    let kept = keep (is_recent now 24) ts in if is_empty kept then rest else (user, kept) ∷ rest

unfoldable pub cleanup_old_warning_history : ℕ → WarningSystem → WarningSystem
unfolding recent_history
cleanup_old_warning_history now s = record s {
  warning_history = recent_history now s.warning_history;
}

unfoldable pub add_to_warning_history : ℕ → String → WarningSystem → WarningSystem
add_to_warning_history now username s = record s {
  warning_history = insert username (history_of username s ++ now ∷ []) s.warning_history;
}

unfoldable pub record_disable_outcome : ℕ → String → String → WarningSystem → Bool × WarningSystem
unfolding add_to_warning_history
record_disable_outcome now username action s =
    if action == "disabled" || action == "revoked" || action == "applied_unrecorded"
    then (true, add_to_warning_history now username s)
    else (false, s)

-- The number of records and of histories that were there, and the empty system.
unfoldable pub clear_all_trust_data : WarningSystem → ℕ × ℕ × WarningSystem
clear_all_trust_data s =
    (length s.warnings, length s.warning_history, record s { warnings = []; warning_history = [] })

-- `self.warnings.get(username) is warning`
abbrev pub is_owner : String → ℕ → WarningSystem → Bool
is_owner username owner s = elim (lookup username s.warnings) [
  | none ↦ false
  | some w ↦ w.owner == owner
]

-- Whether an automatic clear may consume the record of the user.
abbrev pub may_clear : String → Option ℕ → WarningSystem → Bool
may_clear username expected s = elim expected [
  | none ↦ true
  | some owner ↦ is_owner username owner s
]

unfoldable pub clear_user_warning : String → Option ℕ → WarningSystem → Bool × WarningSystem
clear_user_warning username expected s =
    if may_clear username expected s && has_key username s.warnings
    then (true, record s { warnings = erase username s.warnings })
    else (false, s)

unfoldable pub clear_user_trust_data : String → Option ℕ → WarningSystem → Bool × WarningSystem
clear_user_trust_data username expected s =
    if may_clear username expected s
    then (
      has_key username s.warnings || has_key username s.warning_history,
      record s {
        warnings = erase username s.warnings;
        warning_history = erase username s.warning_history;
      },
    )
    else (false, s)

-- `get_monitoring_users` and `is_user_being_monitored`
unfoldable pub get_monitoring_users : ℕ → WarningSystem → List String
get_monitoring_users now s = names (keep_items (λ user w. is_monitoring_active now w) s.warnings)
  where
    names : Dict String UserLimitWarning → List String
    names [] = []
    names ((user, w) ∷ d) = user ∷ names d

unfoldable pub is_user_being_monitored : ℕ → String → WarningSystem → Bool
is_user_being_monitored now username s = elim (lookup username s.warnings) [
  | none ↦ false
  | some w ↦ is_monitoring_active now w
]
