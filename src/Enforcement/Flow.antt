-- ===== src/Enforcement/Flow.antt =====
-- utils/panel_api/users.py: `disable_user_with_punishment`. What the panel answers to each request, the
-- check of the guard, the database, and where the caller is cancelled, are given in a script. The
-- snapshot of the notification rules and the writes of the fact journal, which are best effort, are left
-- out.
use pg_limiter.Prelude.{
  ℕ, suc, String, Bool, true, false, not, Option, none, some, List, ◌∷◌, if◌then◌else◌,
}
use pg_limiter.Punishment.{
  PunishmentSystem, PunishmentConfig, PunishmentStep, StepType, warning, disable, revoke,
  get_punishment_for_user, is_unlimited_disable, get_duration_seconds, World, Row, Reading, Store,
  Result, recorded, record_error, cancelled, record_violation, mark_unrecorded,
  pop_unrecorded_incident, get_unrecorded_incident, begin_incident, end_incident,
}
use pg_limiter.Enforcement.Guard.{
  EnforcementGuard, validate_enforcement, own_returned_enforcement_effect, ActionFact, new_fact,
  mark_disabled,
}

-- What a request changed on the panel.
pub data Effect : Type 0 where
  subscription_revoked uuid_reset : String → Effect
  user_disabled : String → ℕ → Bool → Effect

-- How `disable_user` goes: the user is gone, the panel refuses (ValueError), the guard stops it, the
-- caller is cancelled before the effect, or after the effect was marked, or it returns. A request can
-- also take effect without being marked: its answer is lost, so that `disable_user` raises the ValueError,
-- or the caller is cancelled before the answer is there. The tries of one `panel_put` are one request; the
-- guard cannot stop a try after one that was sent.
pub data DisableAnswer : Type 0 where
  user_missing panel_refused guard_stopped call_cancelled : DisableAnswer
  answer_lost cancelled_in_flight : DisableAnswer
  disabled_then_cancelled disabled_on_panel : DisableAnswer

-- How a request that answers with a Boolean goes: it answers, the guard stops it, or the caller is
-- cancelled. A request that answers `false`, or whose caller is cancelled, may still have taken effect,
-- which the Boolean of `refused` and of `interrupted_call` tells.
pub data CallAnswer : Type 0 where
  confirmed : CallAnswer
  refused : Bool → CallAnswer
  stopped : CallAnswer
  interrupted_call : Bool → CallAnswer

pub record Script : Type 0 where
  pub exists_on_panel : Bool
  pub config : PunishmentConfig
  pub selected_at : ℕ
  pub stored_count : Option ℕ
  pub intent_cancelled : Bool
  pub revalidate : Option Bool
  pub is_current : Bool
  pub revoke_answer : CallAnswer
  pub reset_answer : CallAnswer
  pub disable_answer : DisableAnswer
  pub recorded_at : ℕ
  pub reading : Reading
  pub store : Store

pub record Flow : Type 0 where
  pub world : World
  pub panel : List Effect
  pub guard : Option EnforcementGuard
  pub fact : ActionFact

pub data Action : Type 0 where
  skipped deduplicated applied_unrecorded reconciled error_action disabled_action : Action
  warning_action revoked_action : Action

-- The fields of the result that the callers read.
pub record Outcome : Type 0 where
  pub action : Action
  pub step_index : ℕ
  pub violation_count : ℕ
  pub duration_minutes : ℕ

-- A call returns, is cancelled, or raises another error.
pub data Ended : Type 0 where
  returned : Outcome → Ended
  call_was_cancelled : Ended
  raised : Ended

abbrev pub outcome : Action → ℕ → ℕ → ℕ → Ended
outcome action step count duration = returned (record {
  action = action;
  step_index = step;
  violation_count = count;
  duration_minutes = duration;
})

abbrev pub with_system : PunishmentSystem → Flow → Flow
with_system s f = record f { world = record (f.world) { system = s } }

-- `current_action().mark_disabled()`
unfoldable pub note_disabled : Option (ℕ × ℕ) → String → Flow → Flow
unfolding mark_disabled
note_disabled callback username f =
    let (fact, s) = mark_disabled callback username (f.fact, f.world.system) in
    record (with_system s f) { fact = fact }

-- A request that took effect on the panel; the client started the guard before it sent it.
unfoldable pub took_place : Effect → Flow → Flow
unfolding own_returned_enforcement_effect
took_place effect f = record f {
  panel = effect ∷ f.panel;
  guard = own_returned_enforcement_effect true f.guard;
}

-- How `disable_user` ends.
pub data Went : Type 0 where
  went_on value_error protected gone : Went

unfoldable pub disable_user :
    Option (ℕ × ℕ) → String → ℕ → Bool → DisableAnswer → Flow → Went × Flow
unfolding note_disabled took_place
disable_user callback username seconds permanent answer f =
    let applied = took_place (user_disabled username seconds permanent) f in
    elim answer [
      | user_missing ↦ (went_on, record f { fact = record (f.fact) { known_not_disabled = true } })
      | panel_refused ↦ (value_error, f)
      | guard_stopped ↦ (protected, f)
      | call_cancelled ↦ (gone, f)
      | answer_lost ↦ (value_error, applied)
      | cancelled_in_flight ↦ (gone, applied)
      | disabled_then_cancelled ↦ (gone, note_disabled callback username applied)
      | disabled_on_panel ↦ (went_on, note_disabled callback username applied)
    ]

-- The record of an applied punishment was written, or failed, or the caller was cancelled meanwhile.
unfoldable pub settle : String → Ended → Ended → Result × World → Flow → Ended × Flow
unfolding pop_unrecorded_incident
settle username done unwritten (recorded, w) f =
    (done, with_system (pop_unrecorded_incident username w.system).1 (record f { world = w }))
settle username done unwritten (record_error, w) f = (unwritten, record f { world = w })
settle username done unwritten (cancelled, w) f = (call_was_cancelled, record f { world = w })

unfoldable pub settle_warning : ℕ → ℕ → Result → Ended
settle_warning step count recorded = outcome warning_action step (suc count) 0
settle_warning step count record_error = outcome error_action step count 0
settle_warning step count cancelled = call_was_cancelled

module _ (new_id : List Row → ℕ) (script : Script) (username : String) where
  -- The record of an applied punishment, and what is answered.
  unfoldable pub record_applied : Action → ℕ → ℕ → ℕ → Flow → Ended × Flow
  unfolding mark_unrecorded record_violation settle
  record_applied action step count duration f =
      let marked = mark_unrecorded username step duration f.world.system in
      let tried =
        record_violation new_id script.recorded_at username step duration script.reading
          script.store (record (f.world) { system = marked }) in
      settle username (outcome action step (suc count) duration)
        (outcome applied_unrecorded step (suc count) duration) tried f

  -- The disable of a step, and its record with `duration`.
  unfoldable pub apply_disable :
      Action → Option (ℕ × ℕ) → ℕ → Bool → ℕ → ℕ → ℕ → Flow → Ended × Flow
  unfolding disable_user note_disabled record_applied
  apply_disable action callback seconds permanent step count duration f =
      let (went, f') = disable_user callback username seconds permanent script.disable_answer f in
      elim went [
        | went_on ↦ record_applied action step count duration (note_disabled callback username f')
        | value_error ↦ (outcome error_action step count 0, f')
        | protected ↦ (outcome skipped step count 0, f')
        | gone ↦ (call_was_cancelled, f')
      ]

  -- What a partial effect does to the panel, confirmed or not.
  unfoldable pub with_effect : Effect → Bool → Flow → Flow
  unfolding took_place
  with_effect effect true f = took_place effect f
  with_effect effect false f = f

  -- The answer of the request that revokes the subscription, and of the one that resets the UUID.
  unfoldable pub note_revoked : Bool → Bool → Flow → Flow
  unfolding with_effect own_returned_enforcement_effect
  note_revoked succeeded took_effect f =
      let g = with_effect (subscription_revoked username) took_effect f in
      record g {
        guard = own_returned_enforcement_effect succeeded g.guard;
        fact = if succeeded then record (g.fact) { revoke_succeeded = true } else g.fact;
      }

  unfoldable pub note_reset : Bool → Bool → Flow → Flow
  unfolding with_effect own_returned_enforcement_effect
  note_reset succeeded took_effect f =
      let g = with_effect (uuid_reset username) took_effect f in
      record g {
        guard = own_returned_enforcement_effect succeeded g.guard;
        fact = if succeeded then record (g.fact) { uuid_reset_succeeded = true } else g.fact;
      }

  unfoldable pub reset_and_disable : Option (ℕ × ℕ) → ℕ → ℕ → Flow → Ended × Flow
  unfolding apply_disable with_effect note_reset
  reset_and_disable callback step count f =
      let disabling = apply_disable revoked_action callback 0 true step count 0 in
      elim script.reset_answer [
        | stopped ↦ (outcome skipped step count 0, f)
        | interrupted_call took_effect ↦
            (call_was_cancelled, with_effect (uuid_reset username) took_effect f)
        | confirmed ↦ disabling (note_reset true true f)
        | refused took_effect ↦ disabling (note_reset false took_effect f)
      ]

  unfoldable pub apply_revoke : Option (ℕ × ℕ) → ℕ → ℕ → Flow → Ended × Flow
  unfolding reset_and_disable with_effect note_revoked
  apply_revoke callback step count f = elim script.revoke_answer [
    | stopped ↦ (outcome skipped step count 0, f)
    | interrupted_call took_effect ↦
        (call_was_cancelled, with_effect (subscription_revoked username) took_effect f)
    | confirmed ↦ reset_and_disable callback step count (note_revoked true true f)
    | refused took_effect ↦ reset_and_disable callback step count (note_revoked false took_effect f)
  ]

  -- A warning has no effect on the panel.
  unfoldable pub apply_warning : ℕ → ℕ → Flow → Ended × Flow
  unfolding record_violation settle_warning
  apply_warning step count f =
      let tried =
        record_violation new_id script.recorded_at username step 0 script.reading script.store
          f.world in
      (settle_warning step count tried.0, record f { world = tried.1 })

  -- Without punishments the user is disabled and nothing is recorded.
  unfoldable pub apply_simple : Flow → Ended × Flow
  unfolding disable_user note_disabled
  apply_simple f =
      let (went, f') = disable_user none username 0 false script.disable_answer f in
      elim went [
        | went_on ↦ (outcome disabled_action 0 0 0, note_disabled none username f')
        | value_error ↦ (outcome error_action 0 0 0, f')
        | protected ↦ (outcome skipped 0 0 0, f')
        | gone ↦ (call_was_cancelled, f')
      ]

  -- What a step does.
  unfoldable pub apply_step : StepType → PunishmentStep → ℕ → ℕ → Flow → Ended × Flow
  unfolding apply_warning apply_revoke apply_disable
  apply_step warning step index count f = apply_warning index count f
  apply_step revoke step index count f =
      apply_revoke (some (index, step.duration_minutes)) index count f
  apply_step disable step index count f =
      apply_disable disabled_action (some (index, step.duration_minutes))
        (get_duration_seconds step) (is_unlimited_disable step) index count step.duration_minutes f

  -- `_apply_selected_punishment`
  unfoldable pub apply_selected_punishment : PunishmentStep → ℕ → ℕ → Flow → Ended × Flow
  unfolding validate_enforcement apply_simple apply_step
  apply_selected_punishment step index count f =
      let enabled = script.config.enabled in
      if not (validate_enforcement script.revalidate script.is_current f.guard)
      then (outcome skipped (if enabled then index else 0) count 0, f)
      else if not enabled
      then apply_simple f
      else apply_step step.step_type step index count f

  -- `_apply_punishment_locked`
  unfoldable pub apply_punishment_locked : Flow → Ended × Flow
  unfolding get_punishment_for_user apply_selected_punishment
  apply_punishment_locked f =
      let (selection, s) =
        get_punishment_for_user script.selected_at script.stored_count username script.config
          f.world.system in
      let selected : Flow = record (with_system s f) { fact = new_fact } in
      elim selection [
        | none ↦ (raised, selected)
        | some (step, index, count) ↦
            if script.intent_cancelled
            then (call_was_cancelled, selected)
            else apply_selected_punishment step index count selected
      ]

  -- A pending incident is recorded, without any request to the panel.
  unfoldable pub reconcile : ℕ × ℕ → Flow → Ended × Flow
  unfolding record_violation settle
  reconcile (step, duration) f =
      let tried =
        record_violation new_id script.recorded_at username step duration script.reading
          script.store f.world in
      settle username (outcome reconciled step 0 duration)
        (outcome applied_unrecorded step 0 duration) tried f

  -- The work under the claim of the user.
  unfoldable pub under_claim : Flow → Ended × Flow
  unfolding reconcile apply_punishment_locked
  under_claim f = elim (get_unrecorded_incident username f.world.system) [
    | some pending ↦ reconcile pending f
    | none ↦ apply_punishment_locked f
  ]

  unfoldable pub disable_user_with_punishment : Flow → Ended × Flow
  unfolding begin_incident end_incident under_claim
  disable_user_with_punishment f =
      let (claimed, s) = begin_incident username f.world.system in
      let (ended, f') = under_claim (with_system s f) in
      if not script.exists_on_panel
      then (outcome skipped 0 0 0, f)
      else if not claimed
      then (outcome deduplicated 0 0 0, f)
      else (ended, with_system (end_incident username f'.world.system) f')
