-- ===== src/Enforcement/Guard.antt =====
-- utils/enforcement_guard.py, and the marks of an `ActionFact` of utils/punishment_facts.py. A guard is
-- `none` where the caller set none.
use pg_limiter.Prelude.{
  ℕ, String, Bool, true, false, not, ◌&&◌, ◌||◌, Option, none, some, if◌then◌else◌,
}
use pg_limiter.Punishment.{PunishmentSystem, mark_unrecorded}

pub record EnforcementGuard : Type 0 where
  pub started : Bool

-- `revalidate` is the answer of the awaited check, `none` where it raises. The result tells whether the
-- call returns; otherwise it raises EnforcementProtected.
unfoldable pub validate_enforcement : Option Bool → Bool → Option EnforcementGuard → Bool
validate_enforcement revalidate is_current none = true
validate_enforcement revalidate is_current (some guard) =
    let allowed : Bool = elim revalidate [ none ↦ false | some answer ↦ answer ] in
    guard.started || (allowed && is_current)

-- `none` stands for EnforcementProtected.
unfoldable pub start_enforcement_effect :
    Bool → Option EnforcementGuard → Option (Option EnforcementGuard)
start_enforcement_effect is_current none = some none
start_enforcement_effect is_current (some guard) =
    if guard.started || is_current then some (some (record { started = true })) else none

unfoldable pub own_returned_enforcement_effect :
    Bool → Option EnforcementGuard → Option EnforcementGuard
own_returned_enforcement_effect succeeded none = none
own_returned_enforcement_effect succeeded (some guard) =
    some (record { started = guard.started || succeeded })

-- What the flow reads of an `ActionFact`.
pub record ActionFact : Type 0 where
  pub disable_succeeded : Bool
  pub known_not_disabled : Bool
  pub revoke_succeeded : Bool
  pub uuid_reset_succeeded : Bool

abbrev pub new_fact : ActionFact
new_fact = record {
  disable_succeeded = false;
  known_not_disabled = false;
  revoke_succeeded = false;
  uuid_reset_succeeded = false;
}

-- `on_disabled`: a step and a duration to mark as unrecorded, or nothing.
abbrev pub on_disabled : Option (ℕ × ℕ) → String → PunishmentSystem → PunishmentSystem
on_disabled none username s = s
on_disabled (some (step, duration)) username s = mark_unrecorded username step duration s

abbrev pub mark_first :
    Bool → Option (ℕ × ℕ) → String → ActionFact × PunishmentSystem → ActionFact × PunishmentSystem
mark_first true callback username (fact, s) =
    (record fact { disable_succeeded = true }, on_disabled callback username s)
mark_first false callback username (fact, s) = (fact, s)

-- `mark_disabled`: the first confirmed disable of the action.
unfoldable pub mark_disabled :
    Option (ℕ × ℕ) → String → ActionFact × PunishmentSystem → ActionFact × PunishmentSystem
mark_disabled callback username (fact, s) =
    mark_first (not fact.disable_succeeded && not fact.known_not_disabled) callback username
      (fact, s)
