-- ===== src/Punishment/Incident.antt =====
-- One applied punishment of utils/punishment_system.py, from the panel action until its record is
-- written: any number of tries, between which rows of other users come in.
use pg_limiter.Prelude.{
  ℕ, ◌+◌, String, ◌≡◌, ◌≢◌, ◌⊎◌, refl, sym, ◌∙◌, ap, true, false, ◌||◌, List, [], ◌∷◌, nat_eq,
  string_eq, if◌then◌else◌, Bool-cases, inl, inr, arith, eq_iff, All, contains-without, beq_self,
}
use pg_limiter.Prelude.Dict.{lookup-insert_self, lookup-erase_self}
use pg_limiter.Punishment.System.{PunishmentSystem, Attempt}
use pg_limiter.Punishment.Ledger.{
  Row, World, row_of, row_beq, is_persisted, Reading, answered, committed, undisturbed, Store,
  commits, recorded, record_violation, mark_unrecorded, insert_record, commit,
}
use pg_limiter.Punishment.Once.{count_rows, has_id, incident, settled, untried, doubtful, Pending}
use pg_limiter.Punishment.Retry.{
  in_database, Kept, record_violation-Kept, record_settled, record_untried, record_doubtful,
  answered_eq, after_answer,
}

-- A try to record the incident, or a row that another user's punishment adds.
pub data Event : Type 0 where
  retry : ℕ → Reading → Store → Event
  foreign : Row → Event

module _ (new_id : List Row → ℕ) (user : String) (step duration : ℕ) where
  unfoldable pub run : List Event → World → World
  run [] w = w
  run (retry now reading store ∷ events) w =
      run events (record_violation new_id now user step duration reading store w).1
  run (foreign row ∷ events) w = run events (record w { rows = row ∷ w.rows })

-- Every try finds the database, and the other rows are of other users.
abbrev pub Possible : String → Event → Type 0
Possible user (retry now reading store) = in_database store ≡ true
Possible user (foreign row) = row.username ≢ user

pub mark_unrecorded-Pending :
    (user : String) (step duration : ℕ) (s : PunishmentSystem) (rows : List Row)
    → Pending user step duration
        (count_rows user rows)
        (record { system = mark_unrecorded user step duration s; rows = rows })
unfolding Pending mark_unrecorded
mark_unrecorded-Pending user step duration s rows = (
  lookup-insert_self user (step, duration) s.applied_unrecorded,
  untried (contains-without user user s.recorded_incidents ∙ ground (arith, beq_self user))
      (lookup-erase_self user s.unconfirmed_incidents) refl,
)

count_foreign :
    (user : String) (row : Row) (rows : List Row)
    → row.username ≢ user
    → count_rows user (row ∷ rows) ≡ count_rows user rows
count_foreign user row rows other = ground (arith, eq_iff row.username user)

mismatch :
    (attempt : Attempt) (row : Row)
    → row.username ≢ (row_of attempt).username
    → row_beq (row_of attempt) row ≡ false
mismatch attempt row other = ground (
  arith,
  eq_iff (row_of attempt).username row.username,
  λ (e : (row_of attempt).username ≡ row.username). other (sym e),
)

persisted_foreign :
    (user : String) (step duration id timestamp t : ℕ) (row : Row) (rows : List Row)
    → row.username ≢ user
    → is_persisted (id, timestamp, incident user step duration t) (row ∷ rows)
      ≡ is_persisted (id, timestamp, incident user step duration t) rows
unfolding is_persisted
persisted_foreign user step duration id timestamp t row rows other =
    let attempt : Attempt = (id, timestamp, incident user step duration t) in
    ap (λ b. b || is_persisted attempt rows) (mismatch attempt row other)

module _ (user : String) (step duration base : ℕ) (row : Row) (w : World)
    (other : row.username ≢ user) where
  foreign-Pending :
      Pending user step duration base w
      → Pending user step duration base (record w { rows = row ∷ w.rows })
  unfolding Pending
  foreign-Pending (applied, settled known count) =
      (applied, settled known (count_foreign user row w.rows other ∙ count))
  foreign-Pending (applied, untried absent none_noted count) =
      (applied, untried absent none_noted (count_foreign user row w.rows other ∙ count))
  foreign-Pending (applied, doubtful id timestamp t absent noted count) = (
    applied,
    doubtful id timestamp t absent noted (
        count_foreign user row w.rows other
        ∙ count
        ∙ ap (λ b. base + (if b then 1 else 0))
            (sym (persisted_foreign user step duration id timestamp t row w.rows other))),
  )

at_most_one :
    (user : String) (step duration base : ℕ) (w : World)
    → Pending user step duration base w
    → (count_rows user w.rows ≡ base) ⊎ (count_rows user w.rows ≡ base + 1)
unfolding Pending
at_most_one user step duration base w (applied, settled known count) = inr count
at_most_one user step duration base w (applied, untried absent none_noted count) = inl count
at_most_one user step duration base w (applied, doubtful id timestamp t absent noted count) =
    elim (Bool-cases (is_persisted (id, timestamp, incident user step duration t) w.rows)) [
      | inl e ↦ inr (count ∙ ap (λ b. base + (if b then 1 else 0)) e)
      | inr e ↦ inl (count ∙ ap (λ b. base + (if b then 1 else 0)) e ∙ omega arith)
    ]

module _ (new_id : List Row → ℕ)
    (new_id-fresh : (rows : List Row) → has_id (new_id rows) rows ≡ false) (user : String)
    (step duration : ℕ) where
  run-Pending :
      (base : ℕ) (events : List Event) (w : World)
      → All (Possible user) events
      → Pending user step duration base w
      → Pending user step duration base (run new_id user step duration events w)
  unfolding run Kept
  run-Pending base [] w ok h = h
  run-Pending base (retry now reading store ∷ events) w (here, ok) h =
      run-Pending base events (record_violation new_id now user step duration reading store w).1 ok
        (record_violation-Kept new_id user step duration base now reading store w
          (new_id-fresh w.rows) here h).0
  run-Pending base (foreign row ∷ events) w (other, ok) h =
      run-Pending base events (record w { rows = row ∷ w.rows }) ok
        (foreign-Pending user step duration base row w other h)

  -- A try whose commit takes effect, and before which the table can be read, returns.
  returns :
      (base now timestamp : ℕ) (w : World)
      → Pending user step duration base w
      → (record_violation new_id now user step duration answered
          (commits timestamp committed undisturbed)
          w).0
        ≡ recorded
  unfolding Pending insert_record commit after_answer
  returns base now timestamp w (applied, settled known count) =
      ap (λ r. r.0)
        (record_settled new_id user step duration base now answered
          (commits timestamp committed undisturbed) w applied known)
  returns base now timestamp w (applied, untried absent none_noted count) =
      ap (λ r. r.0)
        (record_untried new_id user step duration base now answered
          (commits timestamp committed undisturbed) w applied absent none_noted)
  returns base now timestamp w (applied, doubtful id stamp t absent noted count) =
      let attempt : Attempt = (id, stamp, incident user step duration t) in
      let store = commits timestamp committed undisturbed in
      ap (λ r. r.0)
        (record_doubtful new_id user step duration base now answered store w attempt applied absent
          noted)
      ∙ elim (Bool-cases (is_persisted attempt w.rows)) [
        | inl e ↦
            ap (λ r. (after_answer new_id user step duration base now store r).0)
              (answered_eq new_id user step duration base attempt w true e)
        | inr e ↦
            ap (λ r. (after_answer new_id user step duration base now store r).0)
              (answered_eq new_id user step duration base attempt w false e)
      ]

-- Once a punishment was applied and marked as unrecorded, let there be any number of tries to record
-- it that find the database, whose commits take effect, fail or raise after they took effect, whether or not their rows can be
-- read back, cancelled or not, with rows of other users in between; a row id of the database may come
-- again only if no row has it. A further try that returns leaves exactly one row more for that user
-- than before the punishment, and one whose commit takes effect with a readable table does return.
pub record_violation-once :
    (new_id : List Row → ℕ)
    → ((rows : List Row) → has_id (new_id rows) rows ≡ false)
    → (user : String) (step duration : ℕ) (s : PunishmentSystem) (rows : List Row)
      (events : List Event)
    → All (Possible user) events
    → (let base = count_rows user rows in
        let w =
          run new_id user step duration events
            (record { system = mark_unrecorded user step duration s; rows = rows }) in
        ((count_rows user w.rows ≡ base) ⊎ (count_rows user w.rows ≡ base + 1))
        × ((now : ℕ) (reading : Reading) (store : Store)
            → in_database store ≡ true
            → (record_violation new_id now user step duration reading store w).0 ≡ recorded
            → count_rows user
                (record_violation new_id now user step duration reading store w).1.rows
              ≡ base + 1)
        × ((now timestamp : ℕ)
            → (record_violation new_id now user step duration answered
                (commits timestamp committed undisturbed)
                w).0
              ≡ recorded))
unfolding Kept
record_violation-once new_id fresh user step duration s rows events ok =
    let base = count_rows user rows in
    let start = mark_unrecorded-Pending user step duration s rows in
    let h = run-Pending new_id fresh user step duration base events _ ok start in
    (
      at_most_one user step duration base _ h,
      λ now reading store here.
          (record_violation-Kept new_id user step duration base now reading store _ (fresh _) here
            h).1,
      λ now timestamp. returns new_id fresh user step duration base now timestamp _ h,
    )
