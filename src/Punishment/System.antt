-- ===== src/Punishment/System.antt =====
-- utils/punishment_system.py: the history of violations and the choice of the next step. Times are
-- milliseconds. `enabled` is the truth value of the configured setting, and a list of steps that is
-- missing or no list is empty here, which the code treats alike.
use pg_limiter.Prelude.{
  ℕ, ◌+◌, ◌-◌, ◌*◌, min, String, Bool, false, not, ◌||◌, Option, none, some, List, [], ◌∷◌, nat_eq,
  string_eq, length, keep, get_elem?, collect, is_empty, ltb, if◌then◌else◌,
}
use pg_limiter.Prelude.Int.{pos}
use pg_limiter.Prelude.Dict.{Dict, lookup}
use pg_limiter.Value.{Value, int}
use pg_limiter.Punishment.Step.{
  PunishmentStep, warning, disable, StepEntry, parse_step, make_step, coerce_window_hours,
}

pub record ViolationRecord : Type 0 where
  pub username : String
  pub timestamp : ℕ
  pub step_applied : ℕ
  pub disable_duration : ℕ

-- An attempt to record: the id of the row, its time, and the record.
abbrev pub Attempt : Type 0
Attempt = ℕ × ℕ × ViolationRecord

pub record PunishmentSystem : Type 0 where
  pub violations : Dict String (List ViolationRecord)
  pub steps : List PunishmentStep
  pub window_hours : ℕ
  pub enabled : Bool
  pub last_cleanup : ℕ
  pub in_flight : List String
  pub applied_unrecorded : Dict String (ℕ × ℕ)
  pub recorded_incidents : List String
  pub unconfirmed_incidents : Dict String Attempt

abbrev pub default_steps : List PunishmentStep
default_steps =
    record { step_type = warning; duration_minutes = 0 }
    ∷ record { step_type = disable; duration_minutes = 10 }
    ∷ record { step_type = disable; duration_minutes = 30 }
    ∷ record { step_type = disable; duration_minutes = 60 }
    ∷ record { step_type = disable; duration_minutes = 0 }
    ∷ []

abbrev pub default_window_hours : ℕ
default_window_hours = 168

-- The `punishment` part of the configuration.
pub record PunishmentConfig : Type 0 where
  pub enabled : Bool
  pub window_hours : Option Value
  pub steps : List StepEntry

abbrev window_value : Option Value → Value
window_value none = int (pos default_window_hours)
window_value (some raw) = raw

unfoldable pub load_config : PunishmentConfig → PunishmentSystem → PunishmentSystem
unfolding coerce_window_hours parse_step
load_config config s =
    let parsed = collect parse_step config.steps in
    record s {
      enabled = config.enabled;
      window_hours = coerce_window_hours (window_value config.window_hours) default_window_hours;
      steps = if is_empty parsed then default_steps else parsed;
    }

-- `v.timestamp > now - hours`
abbrev pub in_window : ℕ → ℕ → ViolationRecord → Bool
in_window now hours v = ltb now (v.timestamp + hours * 3600000)

unfoldable pub recent_violations :
    ℕ → ℕ → Dict String (List ViolationRecord) → Dict String (List ViolationRecord)
recent_violations now hours [] = []
recent_violations now hours ((user, vs) ∷ d) =
    let rest = recent_violations now hours d in
    let kept = keep (in_window now hours) vs in if is_empty kept then rest else (user, kept) ∷ rest

unfoldable pub cleanup_old_violations : ℕ → PunishmentSystem → PunishmentSystem
unfolding recent_violations
cleanup_old_violations now s = record s {
  last_cleanup = now;
  violations = recent_violations now s.window_hours s.violations;
}

-- At most once every five minutes, unless it is forced.
unfoldable pub ensure_cleanup : Bool → ℕ → PunishmentSystem → PunishmentSystem
unfolding cleanup_old_violations
ensure_cleanup force now s =
    if force || ltb (s.last_cleanup + 300000) now then cleanup_old_violations now s else s

abbrev pub violations_of : String → PunishmentSystem → List ViolationRecord
violations_of username s = elim (lookup username s.violations) [ none ↦ [] | some vs ↦ vs ]

-- `get_violation_count`, from the copy in memory.
unfoldable pub get_violation_count : ℕ → String → PunishmentSystem → ℕ × PunishmentSystem
unfolding ensure_cleanup
get_violation_count now username s =
    let s' = ensure_cleanup false now s in (length (violations_of username s'), s')

-- `get_violation_count_async`, where `stored` is the answer of the database, if it gives one.
unfoldable pub get_violation_count_async : ℕ → Option ℕ → ℕ → String → PunishmentSystem → ℕ
get_violation_count_async now stored hours username s = elim stored [
  | some count ↦ count
  | none ↦ length (keep (in_window now hours) (violations_of username s))
]

-- `min(count, len(steps) - 1)`; the list is never empty once a configuration is loaded.
abbrev pub step_index : ℕ → List PunishmentStep → ℕ
step_index count steps = min count (length steps - 1)

unfoldable pub get_next_step_index : ℕ → String → PunishmentSystem → ℕ
unfolding get_violation_count
get_next_step_index now username s =
    let (count, s') = get_violation_count now username s in step_index count s'.steps

-- `None` stands for IndexError.
unfoldable pub get_next_punishment : ℕ → String → PunishmentSystem → Option PunishmentStep
unfolding get_next_step_index
get_next_punishment now username s = get_elem? s.steps (get_next_step_index now username s)

-- `get_punishment_for_user`: the step, its index and the number of violations.
unfoldable pub get_punishment_for_user :
    ℕ
    → Option ℕ
    → String
    → PunishmentConfig
    → PunishmentSystem
    → Option (PunishmentStep × ℕ × ℕ) × PunishmentSystem
unfolding load_config get_violation_count_async
get_punishment_for_user now stored username config s =
    let s' = load_config config s in
    if not s'.enabled
    then (some (make_step disable (int (pos 0)), 0, 0), s')
    else (let count = get_violation_count_async now stored s'.window_hours username s' in
        let index = step_index count s'.steps in
        (
          elim (get_elem? s'.steps index) [ none ↦ none | some step ↦ some (step, index, count) ],
          s',
        ))
