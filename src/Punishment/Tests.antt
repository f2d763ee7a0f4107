-- ===== src/Punishment/Tests.antt =====
-- Runs of utils/punishment_system.py, and the theorems at them.
use pg_limiter.Prelude.{
  ℕ, suc, ◌-◌, ◌≤◌, ◌<◌, max, ◌≡◌, ◌⊎◌, refl, true, false, none, some, List, [], ◌∷◌, nat_eq,
  string_eq, any, all, arith, All, eq_iff, nat_beq_iff, min, length,
}
use pg_limiter.Prelude.Int.{pos}
use pg_limiter.Value.{int, str, int_of}
use pg_limiter.Punishment.Step.{
  warning, disable, not_object, object, parse_step, minutes_of, coerce_duration_minutes,
  coerce_window_hours, named_type, step_type_of, is_unlimited_disable,
}
use pg_limiter.Punishment.System.{
  PunishmentSystem, PunishmentConfig, ViolationRecord, load_config, get_punishment_for_user,
  default_steps, get_violation_count_async, get_violation_count, ensure_cleanup,
  cleanup_old_violations, recent_violations,
}
use pg_limiter.Punishment.Ledger.{
  Row, World, is_persisted, unreadable, answered, raised_after, interrupted, commits, add_fails,
  recorded, remember, confirm, commit, note_attempt, insert_record, record_violation,
  mark_unrecorded,
}
use pg_limiter.Punishment.Escalation.{
  asks_unlimited, is_no_object, get_punishment_for_user-step, load_config-unlimited,
}
use pg_limiter.Punishment.Once.{count_rows, has_id}
use pg_limiter.Punishment.Incident.{Event, retry, foreign, run, Possible, record_violation-once}
use pg_limiter.Punishment.Window.{get_violation_count-window}

program : Unit {0}
unfolding int_of minutes_of coerce_duration_minutes coerce_window_hours named_type step_type_of
    parse_step is_unlimited_disable load_config get_violation_count_async get_punishment_for_user
    is_persisted remember confirm commit note_attempt insert_record record_violation mark_unrecorded
    run get_violation_count ensure_cleanup cleanup_old_violations recent_violations
program = tt

-- The second step has no readable duration, the third a type that nobody knows.
abbrev config : PunishmentConfig
config = record {
  enabled = true;
  window_hours = some (str "72");
  steps =
      object (some (str " Warning ")) none
      ∷ object (some (str "DISABLE")) (some (str "soon"))
      ∷ object (some (str "ban")) (some (int (pos 0)))
      ∷ not_object
      ∷ object none (some (str " 0 "))
      ∷ [];
}

abbrev pub system : PunishmentSystem
system = record {
  violations = [];
  steps = default_steps;
  window_hours = 168;
  enabled = true;
  last_cleanup = 0;
  in_flight = [];
  applied_unrecorded = [];
  recorded_incidents = [];
  unconfirmed_incidents = [];
}

load_run :
    (load_config config system).steps
    ≡ record { step_type = warning; duration_minutes = 0 }
      ∷ record { step_type = disable; duration_minutes = 10 }
      ∷ record { step_type = warning; duration_minutes = 0 }
      ∷ record { step_type = disable; duration_minutes = 0 }
      ∷ []
unfolding program
load_run = refl

unlimited_run : any is_unlimited_disable (load_config config system).steps ≡ true
unfolding program
unlimited_run = refl

load_config-unlimited_example :
    (any asks_unlimited config.steps ≡ true) ⊎ (all is_no_object config.steps ≡ true)
load_config-unlimited_example = load_config-unlimited config system unlimited_run

seventh_run :
    (get_punishment_for_user 0 (some 7) "ann" config system).0
    ≡ some (record { step_type = disable; duration_minutes = 0 }, 3, 7)
unfolding program
seventh_run = refl

get_punishment_for_user-step_example :
    min
      (get_violation_count_async 0
        (some 7)
        (load_config config system).window_hours
        "ann"
        (load_config config system))
      (length (load_config config system).steps - 1)
    < length (load_config config system).steps
get_punishment_for_user-step_example =
    (get_punishment_for_user-step 0 (some 7) "ann" config system refl).0

-- One more than the largest id.
abbrev pub new_id : List Row → ℕ
new_id [] = 1
new_id (row ∷ rows) = max (suc row.id) (new_id rows)

above : (rows : List Row) (id : ℕ) → new_id rows ≤ id → has_id id rows ≡ false
above [] id h = refl
above (row ∷ rows) id h = ground (arith, above rows id, nat_beq_iff row.id id)

pub new_id-fresh : (rows : List Row) → has_id (new_id rows) rows ≡ false
new_id-fresh rows = above rows (new_id rows) (omega arith)

abbrev bob_row : Row
bob_row = record { id = 1; username = "bob"; timestamp = 5; step_applied = 0; disable_duration = 0 }

-- A flush that fails, then a commit that raises after it took effect and cannot be read back.
abbrev tries : List Event
tries =
    retry 10 answered add_fails
    ∷ foreign bob_row
    ∷ retry 20 answered (commits 21 (raised_after unreadable) interrupted)
    ∷ []

tries-Possible : All (Possible "ann") tries
tries-Possible = (refl, (ground (arith, eq_iff "bob" "ann"), (refl, tt)))

abbrev after : World
after =
    run new_id "ann" 2 30 tries (record { system = mark_unrecorded "ann" 2 30 system; rows = [] })

-- The last try finds the row and adds none.
last_run : (record_violation new_id 30 "ann" 2 30 answered add_fails after).0 ≡ recorded
unfolding program
last_run = refl

record_violation-once_example :
    count_rows "ann" (record_violation new_id 30 "ann" 2 30 answered add_fails after).1.rows ≡ 1
record_violation-once_example =
    (record_violation-once new_id new_id-fresh "ann" 2 30 system [] tries tries-Possible).1 30
      answered add_fails refl last_run

abbrev violation_at : ℕ → ViolationRecord
violation_at t = record { username = "ann"; timestamp = t; step_applied = 0; disable_duration = 0 }

-- The first violation is older than the window of an hour, which the last cleanup, a minute ago, left.
abbrev counting : PunishmentSystem
counting = record system {
  violations = ("ann", violation_at 1000 ∷ violation_at 7000000 ∷ []) ∷ [];
  window_hours = 1;
  last_cleanup = 7200000;
}

stale_run : (get_violation_count 7260000 "ann" counting).0 ≡ 2
unfolding program
stale_run = refl

fresh_run : (get_violation_count 7600000 "ann" counting).0 ≡ 1
unfolding program
fresh_run = refl

get_violation_count-window_example :
    get_violation_count_async 7260000 none 1 "ann" counting
    ≤ (get_violation_count 7260000 "ann" counting).0
get_violation_count-window_example =
    (get_violation_count-window 7260000 "ann" counting (refl, tt)).0
