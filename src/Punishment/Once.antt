-- ===== src/Punishment/Once.antt =====
-- The reconciliation of utils/punishment_system.py: the rows of a punishment that was applied,
-- under the tries to write it.
use pg_limiter.Prelude.{
  ℕ, ◌+◌, String, ◌≡◌, refl, sym, ◌∙◌, ap, subst, Bool, true, false, none, some, List, [], ◌∷◌,
  ◌==◌, nat_eq, string_eq, option_eq, option_beq_iff, pair_eq, contains, any, keep, length,
  if◌then◌else◌, arith, eq_iff, nat_beq_iff, contains-add, beq_self,
}
use pg_limiter.Prelude.Dict.{lookup, insert, erase, lookup-insert_self, lookup-erase_self}
use pg_limiter.Punishment.System.{PunishmentSystem, ViolationRecord, Attempt}
use pg_limiter.Punishment.Ledger.{
  Row, World, row_of, row_beq, is_persisted, Reading, unreadable, answered, answered_then_raised,
  Commit, committed, raised_after, raised_before, is_pending, remember, confirm, commit,
  note_attempt,
}

-- The rows of a user.
abbrev pub count_rows : String → List Row → ℕ
count_rows user rows = length (keep (λ (r : Row). r.username == user) rows)

abbrev pub has_id : ℕ → List Row → Bool
has_id id rows = any (λ (r : Row). r.id == id) rows

-- A record of the incident, made at the time t.
abbrev pub incident : String → ℕ → ℕ → ℕ → ViolationRecord
incident user step duration t = record {
  username = user;
  timestamp = t;
  step_applied = step;
  disable_duration = duration;
}

-- What the system knows of the pending incident, beside what the table holds: `base` is the number of
-- rows that the user had before the incident.
pub data Status (user : String) (step duration base : ℕ) (w : World) : Type 0 where
  settled :
      contains w.system.recorded_incidents user ≡ true
      → count_rows user w.rows ≡ base + 1
      → Status user step duration base w
  untried :
      contains w.system.recorded_incidents user ≡ false
      → lookup user w.system.unconfirmed_incidents ≡ none
      → count_rows user w.rows ≡ base
      → Status user step duration base w
  doubtful :
      (id timestamp t : ℕ)
      → contains w.system.recorded_incidents user ≡ false
      → lookup user w.system.unconfirmed_incidents
        ≡ some (id, timestamp, incident user step duration t)
      → count_rows user w.rows
        ≡ base
          + (if is_persisted (id, timestamp, incident user step duration t) w.rows then 1 else 0)
      → Status user step duration base w

-- The incident of the user is pending, with its status.
unfoldable pub Pending : String → ℕ → ℕ → ℕ → World → Type 0
Pending user step duration base w =
    (lookup user w.system.applied_unrecorded ≡ some (step, duration))
    × Status user step duration base w

pub pending_here :
    (user : String) (step duration : ℕ) (s : PunishmentSystem)
    → lookup user s.applied_unrecorded ≡ some (step, duration)
    → is_pending user step duration s ≡ true
pending_here user step duration s h =
    (option_beq_iff (lookup user s.applied_unrecorded) (some (step, duration))).1 h

module _ (user : String) (step duration base : ℕ) where
  remember_pending :
      (t : ℕ) (s : PunishmentSystem)
      → lookup user s.applied_unrecorded ≡ some (step, duration)
      → (contains (remember (incident user step duration t) s).recorded_incidents user ≡ true)
        × ((remember (incident user step duration t) s).applied_unrecorded ≡ s.applied_unrecorded)
  unfolding remember
  remember_pending t s h =
      rw (pending_here user step duration s h, remember)
        (contains-add user user s.recorded_incidents ∙ ground (arith, beq_self user), refl)

  -- Closing a check of an attempt: the row is there, or it is not.
  unfoldable pub closed : Attempt → World → Bool → World
  closed (id, timestamp, r) w persisted =
      let s = if persisted then remember r w.system else w.system in
      record w {
        system = record s { unconfirmed_incidents = erase r.username s.unconfirmed_incidents };
      }

  pub closed-Pending :
      (id timestamp t : ℕ) (w : World) (persisted : Bool)
      → lookup user w.system.applied_unrecorded ≡ some (step, duration)
      → contains w.system.recorded_incidents user ≡ false
      → count_rows user w.rows ≡ base + (if persisted then 1 else 0)
      → Pending user step duration base
          (closed (id, timestamp, incident user step duration t) w persisted)
  unfolding closed Pending
  closed-Pending id timestamp t w true applied absent count =
      let (here, kept) = remember_pending t w.system applied in
      (ap (λ d. lookup user d) kept ∙ applied, settled here count)
  closed-Pending id timestamp t w false applied absent count = (
    applied,
    untried absent (lookup-erase_self user w.system.unconfirmed_incidents) (omega (arith, count)),
  )

  pub confirm-Pending :
      (id timestamp t : ℕ) (reading : Reading) (w : World)
      → lookup user w.system.applied_unrecorded ≡ some (step, duration)
      → contains w.system.recorded_incidents user ≡ false
      → lookup user w.system.unconfirmed_incidents
        ≡ some (id, timestamp, incident user step duration t)
      → count_rows user w.rows
        ≡ base
          + (if is_persisted (id, timestamp, incident user step duration t) w.rows then 1 else 0)
      → Pending user step duration base
          (confirm (id, timestamp, incident user step duration t) reading w).1
  unfolding confirm Pending closed
  confirm-Pending id timestamp t unreadable w applied absent attempt count =
      (applied, doubtful id timestamp t absent attempt count)
  confirm-Pending id timestamp t answered w applied absent attempt count =
      closed-Pending id timestamp t w
        (is_persisted (id, timestamp, incident user step duration t) w.rows) applied absent count
  confirm-Pending id timestamp t answered_then_raised w applied absent attempt count =
      closed-Pending id timestamp t w
        (is_persisted (id, timestamp, incident user step duration t) w.rows) applied absent count

row_beq_self : (r : Row) → row_beq r r ≡ true
row_beq_self r = ground (
  arith,
  beq_self r.id,
  beq_self r.username,
  beq_self r.timestamp,
  beq_self r.step_applied,
  beq_self r.disable_duration,
)

persisted_new :
    (attempt : Attempt) (rows : List Row) → is_persisted attempt (row_of attempt ∷ rows) ≡ true
unfolding is_persisted
persisted_new attempt rows = ground (arith, row_beq_self (row_of attempt))

-- A row with an id that no row has is not there.
persisted_fresh :
    (id timestamp : ℕ) (r : ViolationRecord) (rows : List Row)
    → has_id id rows ≡ false
    → is_persisted (id, timestamp, r) rows ≡ false
unfolding is_persisted
persisted_fresh id timestamp r [] h = refl
persisted_fresh id timestamp r (row ∷ rows) h =
    ground
      (arith, persisted_fresh id timestamp r rows, nat_beq_iff id row.id, nat_beq_iff row.id id)

module _ (user : String) (step duration base : ℕ) where
  noted : Attempt → PunishmentSystem → PunishmentSystem
  noted attempt s = record s { unconfirmed_incidents = insert user attempt s.unconfirmed_incidents }

  note_attempt_eq :
      (id timestamp t : ℕ) (s : PunishmentSystem)
      → lookup user s.applied_unrecorded ≡ some (step, duration)
      → note_attempt (id, timestamp, incident user step duration t) s
        ≡ noted (id, timestamp, incident user step duration t) s
  unfolding note_attempt noted
  note_attempt_eq id timestamp t s applied =
      rw (pending_here user step duration s applied, note_attempt) refl

  count_new :
      (attempt : Attempt) (rows : List Row)
      → (row_of attempt).username ≡ user
      → count_rows user rows ≡ base
      → count_rows user (row_of attempt ∷ rows) ≡ base + 1
  count_new attempt rows same h = ground (arith, eq_iff (row_of attempt).username user)

  pub commit-Pending :
      (id timestamp t : ℕ) (outcome : Commit) (w : World)
      → lookup user w.system.applied_unrecorded ≡ some (step, duration)
      → contains w.system.recorded_incidents user ≡ false
      → count_rows user w.rows ≡ base
      → has_id id w.rows ≡ false
      → Pending user step duration base
          (commit (id, timestamp, incident user step duration t) outcome w).1
  unfolding commit noted Pending
  commit-Pending id timestamp t committed w applied absent count fresh =
      let r = incident user step duration t in
      let attempt : Attempt = (id, timestamp, r) in
      let s = noted attempt w.system in
      let (here, kept) = remember_pending user step duration base t s applied in
      let goal : Pending user step duration base
          (record { system = remember r s; rows = row_of attempt ∷ w.rows }) =
        (
          ap (λ d. lookup user d) kept ∙ applied,
          settled here (count_new attempt w.rows refl count),
        ) in
      subst
        (λ s'.
          Pending user step duration base
            (record { system = remember r s'; rows = row_of attempt ∷ w.rows }))
        (sym (note_attempt_eq id timestamp t w.system applied)) goal
  commit-Pending id timestamp t (raised_after reading) w applied absent count fresh =
      let attempt : Attempt = (id, timestamp, incident user step duration t) in
      let rows = row_of attempt ∷ w.rows in
      subst
        (λ s'.
          Pending user step duration base
            (confirm attempt reading (record { system = s'; rows = rows })).1)
        (sym (note_attempt_eq id timestamp t w.system applied))
        (confirm-Pending user step duration base id timestamp t reading
          (record { system = noted attempt w.system; rows = rows }) applied absent
          (lookup-insert_self user attempt w.system.unconfirmed_incidents)
          (rw (persisted_new attempt w.rows) (count_new attempt w.rows refl count)))
  commit-Pending id timestamp t (raised_before reading) w applied absent count fresh =
      let attempt : Attempt = (id, timestamp, incident user step duration t) in
      subst
        (λ s'.
          Pending user step duration base
            (confirm attempt reading (record { system = s'; rows = w.rows })).1)
        (sym (note_attempt_eq id timestamp t w.system applied))
        (confirm-Pending user step duration base id timestamp t reading
          (record { system = noted attempt w.system; rows = w.rows }) applied absent
          (lookup-insert_self user attempt w.system.unconfirmed_incidents)
          (rw (persisted_fresh id timestamp (incident user step duration t) w.rows fresh)
            (omega (arith, count))))

  -- A commit that does not raise leaves one row more.
  pub commit-count :
      (id timestamp t : ℕ) (outcome : Commit) (w : World)
      → count_rows user w.rows ≡ base
      → (commit (id, timestamp, incident user step duration t) outcome w).0 ≡ false
      → count_rows user (commit (id, timestamp, incident user step duration t) outcome w).1.rows
        ≡ base + 1
  unfolding commit
  commit-count id timestamp t committed w count h =
      count_new (id, timestamp, incident user step duration t) w.rows refl count
  commit-count id timestamp t (raised_after reading) w count h = ground arith
  commit-count id timestamp t (raised_before reading) w count h = ground arith
