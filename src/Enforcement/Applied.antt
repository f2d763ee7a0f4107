-- ===== src/Enforcement/Applied.antt =====
-- utils/panel_api/users.py: the disables on the panel against the recorded violations, over any calls.
use pg_limiter.Prelude.{
  ℕ, ◌+◌, ◌≤◌, String, ◌≡◌, refl, ap, ◌∙◌, Bool, true, false, not, Option, none, some, List, [],
  ◌∷◌, string_eq, nat_eq, if◌then◌else◌, either, arith, All, contains,
}
use pg_limiter.Prelude.Dict.{lookup}
use pg_limiter.Punishment.{
  PunishmentSystem, PunishmentStep, get_punishment_for_user, World, Row, load_config,
  begin_incident, end_incident,
}
use pg_limiter.Punishment.Once.{count_rows, has_id, Pending, settled, untried, doubtful}
use pg_limiter.Punishment.Retry.{in_database, record_violation-Kept}
use pg_limiter.Enforcement.Guard.{new_fact}
use pg_limiter.Enforcement.Flow.{
  Script, Flow, Ended, apply_selected_punishment, apply_punishment_locked, reconcile, under_claim,
  disable_user_with_punishment, with_system, call_was_cancelled, raised,
}
use pg_limiter.Enforcement.Balance.{
  disables, lost, Balanced, Balanced-le, clear, owed, IsFresh, Balanced-same, settle-Balanced,
  apply_selected-Balanced,
}

abbrev pub is_some {ℓ} : {A : Type ℓ} → Option A → Bool
is_some none = false
is_some (some a) = true

module _ (new_id : List Row → ℕ) (fresh : (rows : List Row) → has_id (new_id rows) rows ≡ false)
    (script : Script) (user : String) (before paid base : ℕ)
    (room : before + lost script.disable_answer ≤ paid)
    (stored : in_database script.store ≡ true) where
  -- The choice of the step reads the configuration alone.
  selected-same :
      (s : PunishmentSystem)
      → let s' =
          (get_punishment_for_user script.selected_at script.stored_count user script.config s).1 in
        (s'.applied_unrecorded ≡ s.applied_unrecorded) × (s'.in_flight ≡ s.in_flight)
  unfolding get_punishment_for_user load_config
  selected-same s =
      either
        (λ (r : Option (PunishmentStep × ℕ × ℕ) × PunishmentSystem).
          (r.1.applied_unrecorded ≡ s.applied_unrecorded) × (r.1.in_flight ≡ s.in_flight))
        (not script.config.enabled) (refl, refl) (refl, refl)

  unpunished : (f : Flow) → IsFresh user before base f → Balanced user paid base f
  unpunished f h = clear h.0 (omega (arith, room, h.1))

  after_selection :
      (selection : Option (PunishmentStep × ℕ × ℕ)) (f : Flow)
      → script.config.enabled ≡ true
      → IsFresh user before base f
      → Balanced user paid base
          (elim selection as (λ x. Ended × Flow) [
            | none ↦ (raised, f)
            | some (step, index, count) ↦
                if script.intent_cancelled
                then (call_was_cancelled, f)
                else apply_selected_punishment new_id script user step index count f
          ]).1
  after_selection none f enabled h = unpunished f h
  after_selection (some (step, index, count)) f enabled h =
      either (λ (r : Ended × Flow). Balanced user paid base r.1) script.intent_cancelled
        (unpunished f h)
        (apply_selected-Balanced new_id fresh script user before paid base room stored step index
          count f enabled h)

  apply_punishment_locked-Balanced :
      (f : Flow)
      → script.config.enabled ≡ true
      → lookup user f.world.system.applied_unrecorded ≡ none
      → disables user f.panel + base ≤ before + count_rows user f.world.rows
      → Balanced user paid base (apply_punishment_locked new_id script user f).1
  unfolding apply_punishment_locked
  apply_punishment_locked-Balanced f enabled none_pending le =
      let (selection, s) =
        get_punishment_for_user script.selected_at script.stored_count user script.config
          f.world.system in
      after_selection selection (record (with_system s f) { fact = new_fact }) enabled
        (ap (λ d. lookup user d) (selected-same f.world.system).0 ∙ none_pending, le, refl, refl)

  reconcile-Balanced :
      (step duration rows : ℕ) (f : Flow)
      → Pending user step duration rows f.world
      → disables user f.panel + base ≤ paid + rows + 1
      → Balanced user paid base (reconcile new_id script user (step, duration) f).1
  unfolding reconcile
  reconcile-Balanced step duration rows f h le =
      settle-Balanced new_id user paid base step duration rows _ _ _ f le (
        record_violation-Kept new_id user step duration rows script.recorded_at script.reading
          script.store f.world (fresh f.world.rows) stored h)

  under_claim-Balanced :
      (f : Flow)
      → script.config.enabled ≡ true
      → Balanced user before base f
      → Balanced user paid base (under_claim new_id script user f).1
  unfolding under_claim Pending
  under_claim-Balanced f enabled (clear h le) =
      rw (under_claim, h) (apply_punishment_locked-Balanced f enabled h le)
  under_claim-Balanced f enabled (owed step duration rows (h, status) le) =
      rw (under_claim, h)
        (reconcile-Balanced step duration rows f (h, status) (omega (arith, le, room)))

  begin_same :
      (s : PunishmentSystem)
      → let s' = (begin_incident user s).1 in
        (s'.applied_unrecorded ≡ s.applied_unrecorded)
        × (s'.recorded_incidents ≡ s.recorded_incidents)
        × (s'.unconfirmed_incidents ≡ s.unconfirmed_incidents)
  unfolding begin_incident
  begin_same s =
      either
        (λ (r : Bool × PunishmentSystem).
          (r.1.applied_unrecorded ≡ s.applied_unrecorded)
          × (r.1.recorded_incidents ≡ s.recorded_incidents)
          × (r.1.unconfirmed_incidents ≡ s.unconfirmed_incidents))
        (contains s.in_flight user) (refl, refl, refl) (refl, refl, refl)

  call-Balanced :
      (f : Flow)
      → script.config.enabled ≡ true
      → Balanced user before base f
      → Balanced user paid base (disable_user_with_punishment new_id script user f).1
  unfolding disable_user_with_punishment begin_incident end_incident
  call-Balanced f enabled h =
      let P : Ended × Flow → Type 0 = λ r. Balanced user paid base r.1 in
      let kept : Balanced user paid base f =
        Balanced-le user before paid base f (omega (arith, room)) h in
      let (claimed, s) = begin_incident user f.world.system in
      let (a, b, c) = begin_same f.world.system in
      let f' = (under_claim new_id script user (with_system s f)).1 in
      either P (not script.exists_on_panel) kept (
        either P (not claimed) kept (
          Balanced-same user paid base (end_incident user f'.world.system) f' refl refl refl (
            under_claim-Balanced (with_system s f) enabled
              (Balanced-same user before base s f a b c h))))

-- The calls for a user, one after the other.
abbrev pub calls : (List Row → ℕ) → String → List Script → Flow → Flow
calls new_id user [] f = f
calls new_id user (script ∷ scripts) f =
    calls new_id user scripts (disable_user_with_punishment new_id script user f).1

-- Punishments are enabled and the database is there.
abbrev pub Recording : Script → Type 0
Recording script = (script.config.enabled ≡ true) × (in_database script.store ≡ true)

-- How often the request of a disable can have taken effect while its answer was lost.
abbrev pub lost_answers : List Script → ℕ
lost_answers [] = 0
lost_answers (script ∷ scripts) = lost script.disable_answer + lost_answers scripts

module _ (new_id : List Row → ℕ) (fresh : (rows : List Row) → has_id (new_id rows) rows ≡ false)
    (user : String) where
  calls-Balanced :
      (paid base : ℕ) (scripts : List Script) (f : Flow)
      → All Recording scripts
      → Balanced user paid base f
      → Balanced user (paid + lost_answers scripts) base (calls new_id user scripts f)
  calls-Balanced paid base [] f ok h = Balanced-le user paid (paid + 0) base f (omega arith) h
  calls-Balanced paid base (script ∷ scripts) f ((enabled, stored), ok) h =
      let next = paid + lost script.disable_answer in
      let f' = (disable_user_with_punishment new_id script user f).1 in
      Balanced-le user (next + lost_answers scripts) (paid + lost_answers (script ∷ scripts)) base
        (calls new_id user scripts f') (omega arith)
        (calls-Balanced next base scripts f' ok
          (call-Balanced new_id fresh script user paid next base (omega arith) stored f enabled h))

  owed_rows :
      (step duration rows : ℕ) (w : World)
      → Pending user step duration rows w
      → rows ≤ count_rows user w.rows
  unfolding Pending
  owed_rows step duration rows w (h, settled known count) = omega (arith, count)
  owed_rows step duration rows w (h, untried absent none_noted count) = omega (arith, count)
  owed_rows step duration rows w (h, doubtful id timestamp t absent noted count) =
      ground (arith, count)

  balance :
      (paid base : ℕ) (f : Flow)
      → Balanced user paid base f
      → disables user f.panel + base
        ≤ paid
          + count_rows user f.world.rows
          + (if is_some (lookup user f.world.system.applied_unrecorded) then 1 else 0)
  unfolding Pending
  balance paid base f (clear h le) = rw h (omega (arith, le))
  balance paid base f (owed step duration rows (h, status) le) =
      rw h (omega (arith, le, owed_rows step duration rows f.world (h, status)))

  -- A user is disabled on the panel once for each violation that is recorded, once more only while an
  -- incident is pending, and once more for each call whose request took effect although its answer was
  -- lost: over any calls of disable_user_with_punishment for the user, whatever the panel answers,
  -- wherever a call is cancelled, and whatever becomes of each commit, the disables that were added are at
  -- most the rows that were added, plus one if an incident is pending at the end, plus the calls whose
  -- disable took effect and was never confirmed (the answer was lost, or the call was cancelled before the
  -- answer). Punishments are enabled, the database is there, no incident is pending at first, and the
  -- database gives a row an id that no row has.
  pub calls-disables :
      (scripts : List Script) (f : Flow)
      → All Recording scripts
      → lookup user f.world.system.applied_unrecorded ≡ none
      → let f' = calls new_id user scripts f in
        disables user f'.panel + count_rows user f.world.rows
        ≤ disables user f.panel
          + lost_answers scripts
          + count_rows user f'.world.rows
          + (if is_some (lookup user f'.world.system.applied_unrecorded) then 1 else 0)
  calls-disables scripts f ok h =
      let paid = disables user f.panel in
      balance (paid + lost_answers scripts) (count_rows user f.world.rows)
        (calls new_id user scripts f)
        (calls-Balanced paid (count_rows user f.world.rows) scripts f ok (clear h (omega arith)))
