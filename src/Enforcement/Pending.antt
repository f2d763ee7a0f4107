-- ===== src/Enforcement/Pending.antt =====
-- utils/panel_api/users.py: a call while an incident is pending, and what it does to the panel.
use pg_limiter.Prelude.{
  ℕ, String, ◌≡◌, refl, ap, ◌∙◌, Bool, not, some, List, string_eq, either, contains,
}
use pg_limiter.Prelude.Dict.{lookup}
use pg_limiter.Punishment.{
  PunishmentSystem, World, Row, Result, recorded, record_error, cancelled, begin_incident,
  end_incident,
}
use pg_limiter.Enforcement.Flow.{
  Script, Flow, Ended, settle, reconcile, under_claim, disable_user_with_punishment, with_system,
}

-- What a call may not touch.
abbrev SamePanel : Flow → Flow → Type 0
SamePanel f f' = (f'.panel ≡ f.panel) × (f'.guard ≡ f.guard)

settle_same :
    (user : String) (done unwritten : Ended) (tried : Result × World) (f : Flow)
    → SamePanel f (settle user done unwritten tried f).1
unfolding settle
settle_same user done unwritten (recorded, w) f = (refl, refl)
settle_same user done unwritten (record_error, w) f = (refl, refl)
settle_same user done unwritten (cancelled, w) f = (refl, refl)

begin_pending :
    (user : String) (s : PunishmentSystem)
    → (begin_incident user s).1.applied_unrecorded ≡ s.applied_unrecorded
unfolding begin_incident
begin_pending user s =
    either (λ (r : Bool × PunishmentSystem). r.1.applied_unrecorded ≡ s.applied_unrecorded)
      (contains s.in_flight user) refl refl

module _ (new_id : List Row → ℕ) (script : Script) (user : String) (pending : ℕ × ℕ) where
  claim_same :
      (f : Flow)
      → lookup user f.world.system.applied_unrecorded ≡ some pending
      → SamePanel f (under_claim new_id script user f).1
  unfolding under_claim reconcile
  claim_same f h = rw (under_claim, h) (settle_same user _ _ _ f)

  -- A pending incident is reconciled without any request that changes the panel, however the call ends.
  pub disable_user_with_punishment-pending :
      (f : Flow)
      → lookup user f.world.system.applied_unrecorded ≡ some pending
      → let f' = (disable_user_with_punishment new_id script user f).1 in
        (f'.panel ≡ f.panel) × (f'.guard ≡ f.guard)
  unfolding disable_user_with_punishment end_incident
  disable_user_with_punishment-pending f h =
      let P : Ended × Flow → Type 0 = λ r. SamePanel f r.1 in
      let (claimed, s) = begin_incident user f.world.system in
      either P (not script.exists_on_panel) (refl, refl)
        (either P (not claimed) (refl, refl)
          (claim_same (with_system s f)
            (ap (λ d. lookup user d) (begin_pending user f.world.system) ∙ h)))
