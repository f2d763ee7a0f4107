-- ===== src/Enforcement/Tests.antt =====
-- Runs of disable_user_with_punishment, and the theorems at them.
use pg_limiter.Prelude.{◌+◌, ◌≤◌, ◌≡◌, refl, true, false, none, some, List, [], ◌∷◌, string_eq}
use pg_limiter.Prelude.Dict.{lookup}
use pg_limiter.Punishment.{
  answered, unreadable, committed, raised_after, undisturbed, interrupted, Store, commits,
  mark_unrecorded, minutes_of, coerce_duration_minutes, coerce_window_hours, is_unlimited_disable,
  get_duration_seconds, named_type, step_type_of, parse_step, load_config, recent_violations,
  cleanup_old_violations, ensure_cleanup, get_violation_count, get_violation_count_async,
  get_next_step_index, get_next_punishment, get_punishment_for_user, is_persisted, remember,
  confirm, note_attempt, commit, insert_record, record_violation, mark_unrecorded,
  pop_unrecorded_incident, begin_incident, end_incident,
}
use pg_limiter.Punishment.Once.{count_rows}
use pg_limiter.Punishment.Tests.{new_id, new_id-fresh, system}
use pg_limiter.Enforcement.Guard.{
  new_fact, validate_enforcement, start_enforcement_effect, own_returned_enforcement_effect,
  mark_disabled,
}
use pg_limiter.Enforcement.Flow.{
  Script, Flow, DisableAnswer, confirmed, answer_lost, disabled_then_cancelled, disabled_on_panel,
  user_missing, outcome, disabled_action, note_disabled, took_place, with_effect, note_revoked,
  note_reset, disable_user, settle, settle_warning, record_applied, apply_disable,
  reset_and_disable, apply_revoke, apply_warning, apply_simple, apply_step,
  apply_selected_punishment, apply_punishment_locked, reconcile, under_claim,
  disable_user_with_punishment,
}
use pg_limiter.Enforcement.Applied.{calls, is_some, calls-disables}
use pg_limiter.Enforcement.Balance.{disables}
use pg_limiter.Enforcement.Pending.{disable_user_with_punishment-pending}

program : Unit {0}
unfolding minutes_of coerce_duration_minutes coerce_window_hours is_unlimited_disable
    get_duration_seconds named_type step_type_of parse_step load_config recent_violations
    cleanup_old_violations ensure_cleanup get_violation_count get_violation_count_async
    get_next_step_index get_next_punishment get_punishment_for_user is_persisted remember confirm
    note_attempt commit insert_record record_violation mark_unrecorded pop_unrecorded_incident
    begin_incident end_incident validate_enforcement start_enforcement_effect
    own_returned_enforcement_effect mark_disabled note_disabled took_place with_effect note_revoked
    note_reset disable_user settle settle_warning record_applied apply_disable reset_and_disable
    apply_revoke apply_warning apply_simple apply_step apply_selected_punishment
    apply_punishment_locked reconcile under_claim disable_user_with_punishment
program = tt

-- The default steps; the user has one violation so far, so the step is a disable of ten minutes.
abbrev script : DisableAnswer → Store → Script
script disable_answer store = record {
  exists_on_panel = true;
  config = record { enabled = true; window_hours = none; steps = [] };
  selected_at = 100;
  stored_count = some 1;
  intent_cancelled = false;
  revalidate = some true;
  is_current = true;
  revoke_answer = confirmed;
  reset_answer = confirmed;
  disable_answer = disable_answer;
  recorded_at = 100;
  reading = answered;
  store = store;
}

abbrev idle : Flow
idle = record {
  world = record { system = system; rows = [] };
  panel = [];
  guard = some (record { started = false });
  fact = new_fact;
}

abbrev good : Store
good = commits 101 committed undisturbed

-- The answer of the first request is lost. The next call is cancelled right after the panel disabled the user; the one after it only
-- records; the last disables again.
abbrev four : List Script
four =
    script answer_lost good
    ∷ script disabled_then_cancelled good
    ∷ script disabled_on_panel good
    ∷ script disabled_on_panel (commits 103 (raised_after unreadable) interrupted)
    ∷ []

four_run :
    let f = calls new_id "ann" four idle in
    (disables "ann" f.panel ≡ 3)
    × (count_rows "ann" f.world.rows ≡ 2)
    × (is_some (lookup "ann" f.world.system.applied_unrecorded) ≡ true)
unfolding program
four_run = (refl, refl, refl)

calls-disables_example :
    let f = calls new_id "ann" four idle in
    disables "ann" f.panel + 0 ≤ 0 + 1 + count_rows "ann" f.world.rows + 1
unfolding program
calls-disables_example =
    calls-disables new_id new_id-fresh "ann" four idle
      ((refl, refl), ((refl, refl), ((refl, refl), ((refl, refl), tt)))) refl

-- A user who is gone from the panel when the disable is sent is recorded as disabled.
gone_run :
    let (ended, f) = disable_user_with_punishment new_id (script user_missing good) "ann" idle in
    (ended ≡ outcome disabled_action 1 2 10) × (f.panel ≡ []) × (count_rows "ann" f.world.rows ≡ 1)
unfolding program
gone_run = (refl, refl, refl)

abbrev owing : Flow
owing = record idle { world = record { system = mark_unrecorded "ann" 2 30 system; rows = [] } }

disable_user_with_punishment-pending_example :
    let f = (disable_user_with_punishment new_id (script disabled_on_panel good) "ann" owing).1 in
    (f.panel ≡ []) × (f.guard ≡ some (record { started = false }))
unfolding program
disable_user_with_punishment-pending_example =
    disable_user_with_punishment-pending new_id (script disabled_on_panel good) "ann" (2, 30) owing
      refl
