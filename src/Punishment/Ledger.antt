-- ===== src/Punishment/Ledger.antt =====
-- utils/punishment_system.py and db/crud/violations.py: the record of an applied punishment. The
-- table `violation_history` is a list of rows. What the database and the disk do is given for each
-- call: what becomes of the commit, whether the row can be read back, and whether the caller is
-- cancelled while the commit is under way or closing the session raises; `new_id` is the id that the
-- database gives to a row flushed into a table. No step of another task is modelled between the
-- steps of one call.
use mathlib.Core.List.{◌++◌}
use pg_limiter.Prelude.{
  ℕ, String, Bool, true, false, ◌&&◌, Option, none, some, List, [], ◌∷◌, ◌==◌, nat_eq, string_eq,
  option_eq, pair_eq, contains, add, without, any, if◌then◌else◌,
}
use pg_limiter.Prelude.Dict.{lookup, insert, erase}
use pg_limiter.Punishment.System.{PunishmentSystem, ViolationRecord, Attempt, violations_of}

-- `ViolationHistory`
pub record Row : Type 0 where
  pub id : ℕ
  pub username : String
  pub timestamp : ℕ
  pub step_applied : ℕ
  pub disable_duration : ℕ

abbrev pub row_of : Attempt → Row
row_of (id, timestamp, r) = record {
  id = id;
  username = r.username;
  timestamp = timestamp;
  step_applied = r.step_applied;
  disable_duration = r.disable_duration;
}

abbrev pub row_beq : Row → Row → Bool
row_beq a b =
    a.id == b.id
    && a.username == b.username
    && a.timestamp == b.timestamp
    && a.step_applied == b.step_applied
    && a.disable_duration == b.disable_duration

-- `ViolationHistoryCRUD.is_persisted`
unfoldable pub is_persisted : Attempt → List Row → Bool
is_persisted attempt rows = any (row_beq (row_of attempt)) rows

pub record World : Type 0 where
  pub system : PunishmentSystem
  pub rows : List Row

-- Whether a fresh session can read the table, and whether closing it raises after the answer.
pub data Reading : Type 0 where
  unreadable answered answered_then_raised : Reading

-- A commit ends, or raises after it took effect, or raises without effect.
pub data Commit : Type 0 where
  committed : Commit
  raised_after raised_before : Reading → Commit

-- How a call ends after its commit.
pub data Ending : Type 0 where
  undisturbed interrupted close_raises : Ending

-- What the store does with a call.
pub data Store : Type 0 where
  unavailable : Bool → Store
  add_fails : Store
  commits : ℕ → Commit → Ending → Store

-- How a call ends: it returns, it raises ViolationRecordError, or it is cancelled.
pub data Result : Type 0 where
  recorded record_error cancelled : Result

abbrev end_of : Ending → Bool → Result
end_of undisturbed raised = if raised then record_error else recorded
end_of interrupted raised = cancelled
end_of close_raises raised = record_error

abbrev pub get_unrecorded_incident : String → PunishmentSystem → Option (ℕ × ℕ)
get_unrecorded_incident username s = lookup username s.applied_unrecorded

-- `get_unrecorded_incident(username) == (step, duration)`
abbrev pub is_pending : String → ℕ → ℕ → PunishmentSystem → Bool
is_pending username step duration s = get_unrecorded_incident username s == some (step, duration)

-- `_remember_recorded_violation`
unfoldable pub remember : ViolationRecord → PunishmentSystem → PunishmentSystem
remember r s =
    let s' : PunishmentSystem = record s {
      violations = insert r.username (violations_of r.username s ++ r ∷ []) s.violations;
    } in
    if is_pending r.username r.step_applied r.disable_duration s
    then record s' {
      recorded_incidents = add r.username s'.recorded_incidents;
      unconfirmed_incidents = erase r.username s'.unconfirmed_incidents;
    }
    else s'

-- `_confirm_recorded_violation`: the answer, `none` where it raises, and the state.
unfoldable pub confirm : Attempt → Reading → World → Option Bool × World
unfolding is_persisted remember
confirm (id, timestamp, r) reading w =
    let persisted = is_persisted (id, timestamp, r) w.rows in
    let s = if persisted then remember r w.system else w.system in
    let after : World = record w {
      system = record s { unconfirmed_incidents = erase r.username s.unconfirmed_incidents };
    } in
    elim reading [
      | unreadable ↦ (none, w)
      | answered ↦ (some persisted, after)
      | answered_then_raised ↦ (none, after)
    ]

-- The identity of a flushed row is kept before its commit.
unfoldable pub note_attempt : Attempt → PunishmentSystem → PunishmentSystem
note_attempt (id, timestamp, r) s =
    if is_pending r.username r.step_applied r.disable_duration s
    then record s {
      unconfirmed_incidents = insert r.username (id, timestamp, r) s.unconfirmed_incidents;
    }
    else s

-- `_commit_recorded_violation`: whether the commit raised, and the state.
unfoldable pub commit : Attempt → Commit → World → Bool × World
unfolding confirm remember note_attempt
commit (id, timestamp, r) outcome w =
    let attempt : Attempt = (id, timestamp, r) in
    let s = note_attempt attempt w.system in
    let stored = row_of attempt ∷ w.rows in
    elim outcome [
      | committed ↦ (false, record { system = remember r s; rows = stored })
      | raised_after reading ↦
          (true, (confirm attempt reading (record { system = s; rows = stored })).1)
      | raised_before reading ↦
          (true, (confirm attempt reading (record { system = s; rows = w.rows })).1)
    ]

-- The part of `record_violation` that writes a new record.
unfoldable pub insert_record : (List Row → ℕ) → ℕ → String → ℕ → ℕ → Store → World → Result × World
unfolding commit remember
insert_record new_id now username step duration store w =
    let r : ViolationRecord = record {
      username = username;
      timestamp = now;
      step_applied = step;
      disable_duration = duration;
    } in
    elim store [
      | unavailable saved ↦
          (if saved then recorded else record_error, record w { system = remember r w.system })
      | add_fails ↦ (record_error, w)
      | commits timestamp outcome ending ↦
          let (raised, w') = commit (new_id w.rows, timestamp, r) outcome w in
          (end_of ending raised, w')
    ]

-- `record_violation`; `reading` is for the check of an attempt that was not confirmed.
unfoldable pub record_violation :
    (List Row → ℕ) → ℕ → String → ℕ → ℕ → Reading → Store → World → Result × World
unfolding insert_record confirm
record_violation new_id now username step duration reading store w =
    let pending = is_pending username step duration w.system in
    let fresh : World → Result × World =
      λ v. insert_record new_id now username step duration store v in
    if contains w.system.recorded_incidents username && pending
    then (recorded, w)
    else if pending
    then elim (lookup username w.system.unconfirmed_incidents) [
      | none ↦ fresh w
      | some attempt ↦
          let (answer, w') = confirm attempt reading w in
          elim answer [
            | none ↦ (record_error, w')
            | some persisted ↦ if persisted then (recorded, w') else fresh w'
          ]
    ]
    else fresh w

unfoldable pub mark_unrecorded : String → ℕ → ℕ → PunishmentSystem → PunishmentSystem
mark_unrecorded username step duration s = record s {
  applied_unrecorded = insert username (step, duration) s.applied_unrecorded;
  recorded_incidents = without username s.recorded_incidents;
  unconfirmed_incidents = erase username s.unconfirmed_incidents;
}

unfoldable pub pop_unrecorded_incident :
    String → PunishmentSystem → Option (ℕ × ℕ) × PunishmentSystem
pop_unrecorded_incident username s = (
  get_unrecorded_incident username s,
  record s {
    applied_unrecorded = erase username s.applied_unrecorded;
    recorded_incidents = without username s.recorded_incidents;
    unconfirmed_incidents = erase username s.unconfirmed_incidents;
  },
)

unfoldable pub begin_incident : String → PunishmentSystem → Bool × PunishmentSystem
begin_incident username s =
    if contains s.in_flight username
    then (false, s)
    else (true, record s { in_flight = username ∷ s.in_flight })

unfoldable pub end_incident : String → PunishmentSystem → PunishmentSystem
end_incident username s = record s { in_flight = without username s.in_flight }
