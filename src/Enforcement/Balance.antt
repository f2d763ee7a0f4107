-- ===== src/Enforcement/Balance.antt =====
-- utils/panel_api/users.py: the disables and the rows of one applied step.
use pg_limiter.Prelude.{
  ℕ, ◌+◌, ◌≤◌, String, ◌≡◌, refl, sym, ap, ◌∙◌, subst, Bool, true, false, not, ◌&&◌, Option, none,
  some, List, ◌==◌, string_eq, nat_eq, either, arith, length, keep, contains,
}
use pg_limiter.Prelude.Dict.{lookup, lookup-erase_self}
use pg_limiter.Punishment.{
  PunishmentSystem, PunishmentStep, StepType, warning, disable, revoke, World, Row, Result,
  recorded, record_error, cancelled, get_duration_seconds, is_unlimited_disable, mark_unrecorded,
  pop_unrecorded_incident,
}
use pg_limiter.Punishment.Once.{count_rows, has_id, Pending, Status, settled, untried, doubtful}
use pg_limiter.Punishment.Retry.{in_database, Kept, record_violation-Kept}
use pg_limiter.Punishment.Quiet.{record_violation-IsQuiet}
use pg_limiter.Punishment.Incident.{mark_unrecorded-Pending}
use pg_limiter.Enforcement.Guard.{mark_first, mark_disabled, ActionFact, validate_enforcement}
use pg_limiter.Enforcement.Flow.{
  took_place, Effect, subscription_revoked, uuid_reset, user_disabled, Script, Flow, Ended, went_on,
  value_error, protected, gone, disable_user, settle, note_disabled, record_applied, apply_disable,
  apply_revoke, apply_warning, apply_step, apply_selected_punishment, with_system, Action,
  DisableAnswer, user_missing, panel_refused, guard_stopped, call_cancelled,
  disabled_then_cancelled, disabled_on_panel, answer_lost, cancelled_in_flight, outcome,
  error_action, skipped, call_was_cancelled, CallAnswer, confirmed, refused, with_effect,
  reset_and_disable, stopped, interrupted_call, note_revoked, note_reset, revoked_action,
  disabled_action,
}

abbrev pub is_disable_of : String → Effect → Bool
is_disable_of user (subscription_revoked name) = false
is_disable_of user (uuid_reset name) = false
is_disable_of user (user_disabled name seconds permanent) = name == user

-- How often the user was disabled on the panel.
abbrev pub disables : String → List Effect → ℕ
disables user panel = length (keep (is_disable_of user) panel)

-- Of `paid` disables of the user at first and `base` rows at first, each further disable has its row, but
-- for the one of a pending incident.
pub data Balanced (user : String) (paid base : ℕ) (f : Flow) : Type 0 where
  clear :
      lookup user f.world.system.applied_unrecorded ≡ none
      → disables user f.panel + base ≤ paid + count_rows user f.world.rows
      → Balanced user paid base f
  owed :
      (step duration rows : ℕ)
      → Pending user step duration rows f.world
      → disables user f.panel + base ≤ paid + rows + 1
      → Balanced user paid base f

-- The claims and the configuration are no part of what is known of an incident.
Status-same :
    (user : String) (step duration base : ℕ) (w : World) (s : PunishmentSystem)
    → s.recorded_incidents ≡ w.system.recorded_incidents
    → s.unconfirmed_incidents ≡ w.system.unconfirmed_incidents
    → Status user step duration base w
    → Status user step duration base (record w { system = s })
Status-same user step duration base w s p q (settled known count) =
    settled (ap (λ c. contains c user) p ∙ known) count
Status-same user step duration base w s p q (untried absent none_noted count) =
    untried (ap (λ c. contains c user) p ∙ absent) (ap (λ d. lookup user d) q ∙ none_noted) count
Status-same user step duration base w s p q (doubtful id timestamp t absent noted count) =
    doubtful id timestamp t (ap (λ c. contains c user) p ∙ absent)
      (ap (λ d. lookup user d) q ∙ noted) count

pub Balanced-same :
    (user : String) (paid base : ℕ) (s : PunishmentSystem) (f : Flow)
    → s.applied_unrecorded ≡ f.world.system.applied_unrecorded
    → s.recorded_incidents ≡ f.world.system.recorded_incidents
    → s.unconfirmed_incidents ≡ f.world.system.unconfirmed_incidents
    → Balanced user paid base f
    → Balanced user paid base (with_system s f)
unfolding Pending
Balanced-same user paid base s f o p q (clear h le) = clear (ap (λ d. lookup user d) o ∙ h) le
Balanced-same user paid base s f o p q (owed step duration rows (h, status) le) =
    owed step duration rows
      (ap (λ d. lookup user d) o ∙ h, Status-same user step duration rows f.world s p q status) le

pop-clear :
    (user : String) (s : PunishmentSystem)
    → lookup user (pop_unrecorded_incident user s).1.applied_unrecorded ≡ none
unfolding pop_unrecorded_incident
pop-clear user s = lookup-erase_self user s.applied_unrecorded

-- The end of a try to record an incident.
pub settle-Balanced :
    (new_id : List Row → ℕ) (user : String) (paid base step duration rows : ℕ)
    (done unwritten : Ended) (tried : Result × World) (f : Flow)
    → disables user f.panel + base ≤ paid + rows + 1
    → Kept new_id user step duration rows tried
    → Balanced user paid base (settle user done unwritten tried f).1
unfolding settle Kept
settle-Balanced new_id user paid base step duration rows done unwritten (recorded, w) f le (h, k) =
    clear (pop-clear user w.system) (omega (arith, k refl))
settle-Balanced new_id user paid base step duration rows done unwritten (record_error, w) f le
      (h, k) =
    owed step duration rows h le
settle-Balanced new_id user paid base step duration rows done unwritten (cancelled, w) f le (h, k) =
    owed step duration rows h le

-- A disable that took effect on the panel and was never marked, as its answer was lost.
abbrev pub lost : DisableAnswer → ℕ
lost answer_lost = 1
lost cancelled_in_flight = 1
lost user_missing = 0
lost panel_refused = 0
lost guard_stopped = 0
lost call_cancelled = 0
lost disabled_then_cancelled = 0
lost disabled_on_panel = 0

pub Balanced-le :
    (user : String) (before paid base : ℕ) (f : Flow)
    → before ≤ paid
    → Balanced user before base f
    → Balanced user paid base f
Balanced-le user before paid base f room (clear h le) = clear h (omega (arith, le, room))
Balanced-le user before paid base f room (owed step duration rows h le) =
    owed step duration rows h (omega (arith, le, room))

-- No incident is pending and no disable of this action is known.
abbrev pub IsFresh : String → ℕ → ℕ → Flow → Type 0
IsFresh user paid base f =
    (lookup user f.world.system.applied_unrecorded ≡ none)
    × (disables user f.panel + base ≤ paid + count_rows user f.world.rows)
    × (f.fact.disable_succeeded ≡ false)
    × (f.fact.known_not_disabled ≡ false)

module _ (new_id : List Row → ℕ) (fresh : (rows : List Row) → has_id (new_id rows) rows ≡ false)
    (script : Script) (user : String) (before paid base : ℕ)
    (room : before + lost script.disable_answer ≤ paid)
    (stored : in_database script.store ≡ true) where
  record_applied-Balanced :
      (action : Action) (step count duration : ℕ) (f : Flow)
      → disables user f.panel + base ≤ paid + count_rows user f.world.rows + 1
      → Balanced user paid base (record_applied new_id script user action step count duration f).1
  unfolding record_applied
  record_applied-Balanced action step count duration f le =
      let marked = mark_unrecorded user step duration f.world.system in
      let w : World = record (f.world) { system = marked } in
      let rows = count_rows user f.world.rows in
      settle-Balanced new_id user paid base step duration rows _ _ _ f le (
        record_violation-Kept new_id user step duration rows script.recorded_at script.reading
          script.store w (fresh f.world.rows) stored
          (mark_unrecorded-Pending user step duration f.world.system f.world.rows))

  -- The disable succeeded, and the callback marked the incident.
  noted-Balanced :
      (step duration : ℕ) (f : Flow)
      → f.fact.disable_succeeded ≡ false
      → f.fact.known_not_disabled ≡ false
      → disables user f.panel + base ≤ paid + count_rows user f.world.rows + 1
      → Balanced user paid base (note_disabled (some (step, duration)) user f)
  unfolding note_disabled mark_disabled
  noted-Balanced step duration f p q le =
      let first : not f.fact.disable_succeeded && not f.fact.known_not_disabled ≡ true =
        ground arith in
      let P : ActionFact × PunishmentSystem → Type 0 =
        λ r. Balanced user paid base (record (with_system r.1 f) { fact = r.0 }) in
      subst (λ b. P (mark_first b (some (step, duration)) user (f.fact, f.world.system)))
        (sym first)
        (owed step duration (count_rows user f.world.rows)
          (mark_unrecorded-Pending user step duration f.world.system f.world.rows) le)

  apply_disable-Balanced :
      (action : Action) (step duration seconds : ℕ) (permanent : Bool)
      (index count recorded_for : ℕ) (f : Flow)
      → IsFresh user before base f
      → Balanced user paid base
          (apply_disable new_id script user action
            (some (step, duration))
            seconds
            permanent
            index
            count
            recorded_for
            f).1
  unfolding apply_disable disable_user note_disabled took_place
  apply_disable-Balanced action step duration seconds permanent index count recorded_for f
        (none_pending, le, p, q) =
      go script.disable_answer room
    where
      callback : Option (ℕ × ℕ)
      callback = some (step, duration)

      applied : Flow
      applied = took_place (user_disabled user seconds permanent) f

      once_more : disables user applied.panel + base ≤ before + count_rows user f.world.rows + 1
      once_more = ground (arith, le)

      marked : disables user applied.panel + base ≤ paid + count_rows user f.world.rows + 1
      marked = omega (arith, once_more, room)

      kept : disables user f.panel + base ≤ paid + count_rows user f.world.rows
      kept = omega (arith, le, room)

      finish : Flow → Ended × Flow
      finish g =
          record_applied new_id script user action index count recorded_for
            (note_disabled callback user g)

      end_of : DisableAnswer → Ended × Flow
      end_of answer =
          let (went, g) = disable_user callback user seconds permanent answer f in
          elim went [
            | went_on ↦ finish g
            | value_error ↦ (outcome error_action index count 0, g)
            | protected ↦ (outcome skipped index count 0, g)
            | gone ↦ (call_was_cancelled, g)
          ]

      go :
          (answer : DisableAnswer)
          → before + lost answer ≤ paid
          → Balanced user paid base (end_of answer).1
      go user_missing room =
          record_applied-Balanced action index count recorded_for _ (omega (arith, kept))
      go panel_refused room = clear none_pending kept
      go guard_stopped room = clear none_pending kept
      go call_cancelled room = clear none_pending kept
      go answer_lost room = clear none_pending (omega (arith, once_more, room))
      go cancelled_in_flight room = clear none_pending (omega (arith, once_more, room))
      go disabled_then_cancelled room = noted-Balanced step duration applied p q marked
      go disabled_on_panel room =
          record_applied-Balanced action index count recorded_for
            (note_disabled callback user (note_disabled callback user applied)) marked

  fresh_clear : (f : Flow) → IsFresh user before base f → Balanced user paid base f
  fresh_clear f (none_pending, le, p, q) = clear none_pending (omega (arith, le, room))

  -- A partial effect is no disable.
  revoked-IsFresh :
      (succeeded took_effect : Bool) (f : Flow)
      → IsFresh user before base f
      → IsFresh user before base (note_revoked new_id script user succeeded took_effect f)
  unfolding note_revoked with_effect took_place
  revoked-IsFresh true true f h = h
  revoked-IsFresh true false f h = h
  revoked-IsFresh false true f h = h
  revoked-IsFresh false false f h = h

  reset-IsFresh :
      (succeeded took_effect : Bool) (f : Flow)
      → IsFresh user before base f
      → IsFresh user before base (note_reset new_id script user succeeded took_effect f)
  unfolding note_reset with_effect took_place
  reset-IsFresh true true f h = h
  reset-IsFresh true false f h = h
  reset-IsFresh false true f h = h
  reset-IsFresh false false f h = h

  effect-Balanced :
      (effect : Effect) (took_effect : Bool) (f : Flow)
      → is_disable_of user effect ≡ false
      → IsFresh user before base f
      → Balanced user paid base (with_effect new_id script user effect took_effect f)
  unfolding with_effect took_place
  effect-Balanced effect true f other (none_pending, le, p, q) =
      clear none_pending (rw other (omega (arith, le, room)))
  effect-Balanced effect false f other h = fresh_clear f h

  reset_and_disable-Balanced :
      (step duration index count : ℕ) (f : Flow)
      → IsFresh user before base f
      → Balanced user paid base
          (reset_and_disable new_id script user (some (step, duration)) index count f).1
  unfolding reset_and_disable
  reset_and_disable-Balanced step duration index count f h = go script.reset_answer
    where
      callback : Option (ℕ × ℕ)
      callback = some (step, duration)

      disabling : Flow → Ended × Flow
      disabling = apply_disable new_id script user revoked_action callback 0 true index count 0

      end_of : CallAnswer → Ended × Flow
      end_of answer = elim answer [
        | stopped ↦ (outcome skipped index count 0, f)
        | interrupted_call b ↦
            (call_was_cancelled, with_effect new_id script user (uuid_reset user) b f)
        | confirmed ↦ disabling (note_reset new_id script user true true f)
        | refused b ↦ disabling (note_reset new_id script user false b f)
      ]

      disabled :
          (a b : Bool) → Balanced user paid base (disabling (note_reset new_id script user a b f)).1
      disabled a b =
          apply_disable-Balanced revoked_action step duration 0 true index count 0
            (note_reset new_id script user a b f) (reset-IsFresh a b f h)

      go : (answer : CallAnswer) → Balanced user paid base (end_of answer).1
      go stopped = fresh_clear f h
      go (interrupted_call b) = effect-Balanced (uuid_reset user) b f refl h
      go confirmed = disabled true true
      go (refused b) = disabled false b

  apply_revoke-Balanced :
      (step duration index count : ℕ) (f : Flow)
      → IsFresh user before base f
      → Balanced user paid base
          (apply_revoke new_id script user (some (step, duration)) index count f).1
  unfolding apply_revoke
  apply_revoke-Balanced step duration index count f h = go script.revoke_answer
    where
      resetting : Flow → Ended × Flow
      resetting = reset_and_disable new_id script user (some (step, duration)) index count

      end_of : CallAnswer → Ended × Flow
      end_of answer = elim answer [
        | stopped ↦ (outcome skipped index count 0, f)
        | interrupted_call b ↦
            (call_was_cancelled, with_effect new_id script user (subscription_revoked user) b f)
        | confirmed ↦ resetting (note_revoked new_id script user true true f)
        | refused b ↦ resetting (note_revoked new_id script user false b f)
      ]

      reset :
          (a b : Bool)
          → Balanced user paid base (resetting (note_revoked new_id script user a b f)).1
      reset a b =
          reset_and_disable-Balanced step duration index count
            (note_revoked new_id script user a b f) (revoked-IsFresh a b f h)

      go : (answer : CallAnswer) → Balanced user paid base (end_of answer).1
      go stopped = fresh_clear f h
      go (interrupted_call b) = effect-Balanced (subscription_revoked user) b f refl h
      go confirmed = reset true true
      go (refused b) = reset false b

  apply_warning-Balanced :
      (index count : ℕ) (f : Flow)
      → IsFresh user before base f
      → Balanced user paid base (apply_warning new_id script user index count f).1
  unfolding apply_warning
  apply_warning-Balanced index count f (none_pending, le, p, q) =
      let quiet =
        record_violation-IsQuiet new_id script.recorded_at user index 0 script.store script.reading
          f.world in
      clear (ap (λ d. lookup user d) quiet.applied_kept ∙ none_pending)
        (omega (arith, le, room, quiet.rows_kept user))

  apply_step-Balanced :
      (step_type : StepType) (step : PunishmentStep) (index count : ℕ) (f : Flow)
      → IsFresh user before base f
      → Balanced user paid base (apply_step new_id script user step_type step index count f).1
  unfolding apply_step
  apply_step-Balanced warning step index count f h = apply_warning-Balanced index count f h
  apply_step-Balanced disable step index count f h =
      apply_disable-Balanced disabled_action index step.duration_minutes (get_duration_seconds step)
        (is_unlimited_disable step) index count step.duration_minutes f h
  apply_step-Balanced revoke step index count f h =
      apply_revoke-Balanced index step.duration_minutes index count f h

  pub apply_selected-Balanced :
      (step : PunishmentStep) (index count : ℕ) (f : Flow)
      → script.config.enabled ≡ true
      → IsFresh user before base f
      → Balanced user paid base (apply_selected_punishment new_id script user step index count f).1
  unfolding apply_selected_punishment
  apply_selected-Balanced step index count f enabled h =
      let P : Ended × Flow → Type 0 = λ r. Balanced user paid base r.1 in
      rw enabled (
        either P (not (validate_enforcement script.revalidate script.is_current f.guard))
          (fresh_clear f h) (apply_step-Balanced step.step_type step index count f h))
