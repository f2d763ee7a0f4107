-- ===== src/Punishment/Step.antt =====
-- utils/punishment_system.py: one step of the escalation, and how a configured one is read.
use pg_limiter.Prelude.{
  ℕ, ◌*◌, String, Bool, true, false, not, ◌&&◌, Option, none, some, ◌==◌, nat_eq, list_eq, nat_beq,
  is_empty, if◌then◌else◌,
}
use pg_limiter.Prelude.Int.{ℤ, pos, negsuc, int_eq}
use pg_limiter.Text.{strip, lower, codes, int_of_text}
use pg_limiter.Value.{
  Value, none_value, bool, int, whole_float, fraction_float, nan, str, container, int_of,
}

pub data StepType : Type 0 where
  warning disable revoke : StepType

abbrev pub is_disable : StepType → Bool
is_disable warning = false
is_disable disable = true
is_disable revoke = false

-- `FALLBACK_DISABLE_MINUTES`
abbrev pub fallback_disable_minutes : ℕ
fallback_disable_minutes = 10

-- The whole number of minutes that a configured duration holds.
unfoldable pub minutes_of : Value → Option ℤ
minutes_of none_value = none
minutes_of (bool b) = none
minutes_of (int n) = some n
minutes_of (whole_float n) = some n
minutes_of (fraction_float n) = none
minutes_of nan = none
minutes_of (str s) = int_of_text s
minutes_of container = none

-- `_coerce_duration_minutes`
unfoldable pub coerce_duration_minutes : Value → StepType → ℕ
unfolding minutes_of
coerce_duration_minutes raw step_type =
    let unusable = if is_disable step_type then fallback_disable_minutes else 0 in
    elim (minutes_of raw) [
      | none ↦ unusable
      | some value ↦ elim value [ pos n ↦ n | negsuc n ↦ unusable ]
    ]

-- `_coerce_window_hours`
unfoldable pub coerce_window_hours : Value → ℕ → ℕ
coerce_window_hours raw default = elim (int_of raw) [
  | none ↦ default
  | some value ↦ elim value [ pos n ↦ if nat_beq n 0 then default else n | negsuc n ↦ default ]
]

pub record PunishmentStep : Type 0 where
  pub step_type : StepType
  pub duration_minutes : ℕ

-- The constructor, which reads the duration.
abbrev pub make_step : StepType → Value → PunishmentStep
make_step step_type raw = record {
  step_type = step_type;
  duration_minutes = coerce_duration_minutes raw step_type;
}

unfoldable pub is_unlimited_disable : PunishmentStep → Bool
is_unlimited_disable step = is_disable step.step_type && nat_beq step.duration_minutes 0

unfoldable pub get_duration_seconds : PunishmentStep → ℕ
get_duration_seconds step = step.duration_minutes * 60

-- An entry of the configured list. An entry that is an object has its `type`, `none` where the key is
-- missing or holds an empty container, and its `duration`, `none` where the key is missing.
pub data StepEntry : Type 0 where
  not_object : StepEntry
  object : Option Value → Option Value → StepEntry

-- `bool(v)`
abbrev is_truthy : Value → Bool
is_truthy none_value = false
is_truthy (bool b) = b
is_truthy (int n) = not (n == pos 0)
is_truthy (whole_float n) = not (n == pos 0)
is_truthy (fraction_float n) = true
is_truthy nan = true
is_truthy (str s) = not (is_empty (codes s))
is_truthy container = true

-- The type that a text names, where an unknown one is a warning.
unfoldable pub named_type : String → StepType
unfolding strip
named_type s =
    let name = lower (strip s) in
    if name == codes "disable" then disable else if name == codes "revoke" then revoke else warning

-- `str(step.get("type") or "disable").strip().lower()`; the text of a value that is no text names no
-- type.
unfoldable pub step_type_of : Option Value → StepType
unfolding named_type
step_type_of none = disable
step_type_of (some raw) =
    if is_truthy raw
    then elim raw [
      | none_value ↦ warning
      | bool b ↦ warning
      | int n ↦ warning
      | whole_float n ↦ warning
      | fraction_float n ↦ warning
      | nan ↦ warning
      | str s ↦ named_type s
      | container ↦ warning
    ]
    else disable

-- `_parse_step`
unfoldable pub parse_step : StepEntry → Option PunishmentStep
unfolding step_type_of coerce_duration_minutes
parse_step not_object = none
parse_step (object kind duration) =
    let step_type = step_type_of kind in
    elim duration [
      | some raw ↦ some (make_step step_type raw)
      | none ↦
          if is_disable step_type
          then some (make_step step_type (int (pos fallback_disable_minutes)))
          else some (make_step step_type (int (pos 0)))
    ]
