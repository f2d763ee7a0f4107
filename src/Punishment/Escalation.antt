-- ===== src/Punishment/Escalation.antt =====
-- The escalation of utils/punishment_system.py: the step at the number of
-- violations, capped at the last, and the durations of the steps that are read from the settings.
use pg_limiter.Prelude.{
  ℕ, zero, suc, ◌-◌, ◌≤◌, ◌<◌, min, String, ◌≡◌, refl, ◌∙◌, Bool, true, false, ◌&&◌, Option, none,
  some, List, [], ◌∷◌, ◌⊎◌, inl, inr, ◌==◌, length, get_elem?, collect, is_empty, if◌then◌else◌,
  Option-cases, Bool-cases, option_eq, any, all, nat_eq, arith,
}
use pg_limiter.Prelude.Int.{pos, int_eq}
use pg_limiter.Value.{Value, int}
use pg_limiter.Punishment.Step.{
  PunishmentStep, StepType, warning, disable, revoke, StepEntry, not_object, object, parse_step,
  make_step, minutes_of, coerce_duration_minutes, is_unlimited_disable, is_disable, step_type_of,
}
use pg_limiter.Punishment.System.{
  PunishmentSystem, PunishmentConfig, load_config, get_punishment_for_user,
  get_violation_count_async,
}

-- The entry asks for a ban without end in so many words.
abbrev pub asks_unlimited : StepEntry → Bool
asks_unlimited not_object = false
asks_unlimited (object kind none) = false
asks_unlimited (object kind (some raw)) =
    is_disable (step_type_of kind) && minutes_of raw == some (pos 0)

abbrev pub is_no_object : StepEntry → Bool
is_no_object not_object = true
is_no_object (object kind duration) = false

some_elem :
    (xs : List PunishmentStep) (i : ℕ)
    → i < length xs
    → (p : PunishmentStep) × (get_elem? xs i ≡ some p)
some_elem [] i h = ground arith
some_elem (x ∷ xs) zero h = (x, refl)
some_elem (x ∷ xs) (suc i) h = some_elem xs i (omega (arith, h))

non_empty : (xs : List PunishmentStep) → is_empty xs ≡ false → 1 ≤ length xs
non_empty [] h = ground arith
non_empty (x ∷ xs) h = omega arith

loaded_enabled :
    (config : PunishmentConfig) (s : PunishmentSystem)
    → (load_config config s).enabled ≡ config.enabled
unfolding load_config
loaded_enabled config s = refl

loaded_steps :
    (config : PunishmentConfig) (s : PunishmentSystem) → 1 ≤ length (load_config config s).steps
unfolding load_config
loaded_steps config s = elim (Bool-cases (is_empty (collect parse_step config.steps))) [
  | inl e ↦ rw e (omega arith)
  | inr e ↦ rw e (non_empty _ e)
]

chosen :
    (now : ℕ) (stored : Option ℕ) (user : String) (config : PunishmentConfig) (s : PunishmentSystem)
    (p : PunishmentStep)
    → (let s' = load_config config s in
        let n = get_violation_count_async now stored s'.window_hours user s' in
        let i = min n (length s'.steps - 1) in
        s'.enabled ≡ true
        → get_elem? s'.steps i ≡ some p
        → get_punishment_for_user now stored user config s ≡ (some (p, i, n), s'))
unfolding get_punishment_for_user
chosen now stored user config s p on e = rw (on, e, get_punishment_for_user) refl

-- With the punishments enabled, a step is chosen whatever the configuration holds and however many
-- violations there are: it is the loaded step at the number of violations, or the last one when there
-- are fewer steps.
pub get_punishment_for_user-step :
    (now : ℕ) (stored : Option ℕ) (user : String) (config : PunishmentConfig) (s : PunishmentSystem)
    → config.enabled ≡ true
    → (let s' = load_config config s in
        let n = get_violation_count_async now stored s'.window_hours user s' in
        let i = min n (length s'.steps - 1) in
        (i < length s'.steps)
        × ((p : PunishmentStep) × (get_elem? s'.steps i ≡ some p)
            × (get_punishment_for_user now stored user config s ≡ (some (p, i, n), s'))))
get_punishment_for_user-step now stored user config s h =
    let s' = load_config config s in
    let n = get_violation_count_async now stored s'.window_hours user s' in
    let i = min n (length s'.steps - 1) in
    let small : i < length s'.steps = omega (arith, loaded_steps config s) in
    let (p, e) = some_elem s'.steps i small in
    let on : s'.enabled ≡ true = loaded_enabled config s ∙ h in
    (small, (p, e, chosen now stored user config s p on e))

coerce_duration_minutes-zero :
    (raw : Value) → coerce_duration_minutes raw disable ≡ 0 → minutes_of raw ≡ some (pos 0)
unfolding coerce_duration_minutes
coerce_duration_minutes-zero raw h = elim (Option-cases (minutes_of raw)) [
  | inl e ↦ ground arith
  | inr (v, e) ↦ ground arith
]

unlimited_make :
    (t : StepType) (raw : Value)
    → is_unlimited_disable (make_step t raw) ≡ true
    → (is_disable t ≡ true) × (minutes_of raw ≡ some (pos 0))
unfolding is_unlimited_disable
unlimited_make warning raw h = ground arith
unlimited_make disable raw h = (refl, coerce_duration_minutes-zero raw (ground arith))
unlimited_make revoke raw h = ground arith

unlimited_of : Option PunishmentStep → Bool
unlimited_of o = elim o [ none ↦ false | some p ↦ is_unlimited_disable p ]

-- A step without a duration is never without end.
no_duration :
    (t : StepType)
    → unlimited_of (
        if is_disable t
        then some (make_step t (int (pos 10)))
        else some (make_step t (int (pos 0))))
      ≡ false
unfolding unlimited_of is_unlimited_disable coerce_duration_minutes minutes_of
no_duration warning = refl
no_duration disable = refl
no_duration revoke = refl

unlimited_entry :
    (entry : StepEntry) → unlimited_of (parse_step entry) ≡ true → asks_unlimited entry ≡ true
unfolding parse_step unlimited_of
unlimited_entry not_object h = ground arith
unlimited_entry (object kind none) h = ground (arith, no_duration (step_type_of kind))
unlimited_entry (object kind (some raw)) h =
    let (d, m) = unlimited_make (step_type_of kind) raw h in rw (d, m) refl

unlimited_among :
    (entries : List StepEntry)
    → any is_unlimited_disable (collect parse_step entries) ≡ true
    → any asks_unlimited entries ≡ true
unfolding unlimited_of
unlimited_among [] h = ground arith
unlimited_among (entry ∷ entries) h = elim (Option-cases (parse_step entry)) [
  | inl e ↦ ground (arith, unlimited_among entries)
  | inr (p, e) ↦
      let here : is_unlimited_disable p ≡ true → asks_unlimited entry ≡ true =
        λ k. unlimited_entry entry (rw (e, unlimited_of) k) in
      ground (arith, unlimited_among entries, here)
]

none_usable :
    (entries : List StepEntry)
    → is_empty (collect parse_step entries) ≡ true
    → all is_no_object entries ≡ true
unfolding parse_step
none_usable [] h = refl
none_usable (not_object ∷ entries) h = none_usable entries h
none_usable (object kind none ∷ entries) h = ground arith
none_usable (object kind (some raw) ∷ entries) h = ground arith

-- A ban without end is among the loaded steps only if some entry is a disable whose duration reads as
-- the number 0, or if no entry is an object at all, when the built-in steps are in force.
pub load_config-unlimited :
    (config : PunishmentConfig) (s : PunishmentSystem)
    → any is_unlimited_disable (load_config config s).steps ≡ true
    → (any asks_unlimited config.steps ≡ true) ⊎ (all is_no_object config.steps ≡ true)
unfolding load_config
load_config-unlimited config s h = elim (Bool-cases (is_empty (collect parse_step config.steps))) [
  | inl e ↦ inr (none_usable config.steps e)
  | inr e ↦ inl (unlimited_among config.steps (ground arith))
]
