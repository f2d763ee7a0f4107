-- ===== src/Punishment/Retry.antt =====
-- Sequences of tries of utils/punishment_system.py to record one applied punishment, while other
-- users' rows come in between.
use pg_limiter.Prelude.{
  ℕ, ◌+◌, String, ◌≡◌, refl, sym, ◌∙◌, ap, subst, Bool, true, false, Option, none, some, List,
  nat_eq, string_eq, contains, if◌then◌else◌, Bool-cases, inl, inr, arith,
}
use pg_limiter.Prelude.Dict.{lookup, lookup-erase_self}
use pg_limiter.Punishment.System.{Attempt}
use pg_limiter.Punishment.Ledger.{
  Row, World, is_persisted, Reading, unreadable, answered, answered_then_raised, undisturbed,
  interrupted, close_raises, Store, unavailable, add_fails, commits, Result, recorded, record_error,
  confirm, insert_record, record_violation,
}
use pg_limiter.Punishment.Once.{
  count_rows, has_id, incident, settled, untried, doubtful, Pending, pending_here, confirm-Pending,
  commit-Pending, commit-count, closed, closed-Pending,
}

-- The call finds the database.
abbrev pub in_database : Store → Bool
in_database (unavailable saved) = false
in_database add_fails = true
in_database (commits timestamp outcome ending) = true

module _ (new_id : List Row → ℕ) (user : String) (step duration base : ℕ) where
  insert_record-Pending :
      (now : ℕ) (store : Store) (w : World)
      → has_id (new_id w.rows) w.rows ≡ false
      → in_database store ≡ true
      → lookup user w.system.applied_unrecorded ≡ some (step, duration)
      → contains w.system.recorded_incidents user ≡ false
      → lookup user w.system.unconfirmed_incidents ≡ none
      → count_rows user w.rows ≡ base
      → Pending user step duration base (insert_record new_id now user step duration store w).1
  unfolding insert_record Pending
  insert_record-Pending now (unavailable saved) w fresh here applied absent none_noted count =
      ground arith
  insert_record-Pending now add_fails w fresh here applied absent none_noted count =
      (applied, untried absent none_noted count)
  insert_record-Pending now (commits timestamp outcome ending) w fresh here applied absent
        none_noted count =
      commit-Pending user step duration base (new_id w.rows) timestamp now outcome w applied absent
        count fresh

  insert_record-count :
      (now : ℕ) (store : Store) (w : World)
      → in_database store ≡ true
      → count_rows user w.rows ≡ base
      → (insert_record new_id now user step duration store w).0 ≡ recorded
      → count_rows user (insert_record new_id now user step duration store w).1.rows ≡ base + 1
  unfolding insert_record
  insert_record-count now (unavailable saved) w here count h = ground arith
  insert_record-count now add_fails w here count h = ground arith
  insert_record-count now (commits timestamp outcome undisturbed) w here count h =
      commit-count user step duration base (new_id w.rows) timestamp now outcome w count
        (ground arith)
  insert_record-count now (commits timestamp outcome interrupted) w here count h = ground arith
  insert_record-count now (commits timestamp outcome close_raises) w here count h = ground arith

  -- The three ways a call for a pending incident goes.
  pub record_settled :
      (now : ℕ) (reading : Reading) (store : Store) (w : World)
      → lookup user w.system.applied_unrecorded ≡ some (step, duration)
      → contains w.system.recorded_incidents user ≡ true
      → record_violation new_id now user step duration reading store w ≡ (recorded, w)
  unfolding record_violation
  record_settled now reading store w applied h =
      rw (h, pending_here user step duration w.system applied, record_violation) refl

  pub record_untried :
      (now : ℕ) (reading : Reading) (store : Store) (w : World)
      → lookup user w.system.applied_unrecorded ≡ some (step, duration)
      → contains w.system.recorded_incidents user ≡ false
      → lookup user w.system.unconfirmed_incidents ≡ none
      → record_violation new_id now user step duration reading store w
        ≡ insert_record new_id now user step duration store w
  unfolding record_violation
  record_untried now reading store w applied h e =
      rw (h, pending_here user step duration w.system applied, e, record_violation) refl

  pub record_doubtful :
      (now : ℕ) (reading : Reading) (store : Store) (w : World) (attempt : Attempt)
      → lookup user w.system.applied_unrecorded ≡ some (step, duration)
      → contains w.system.recorded_incidents user ≡ false
      → lookup user w.system.unconfirmed_incidents ≡ some attempt
      → record_violation new_id now user step duration reading store w ≡ (
          let (answer, w') = confirm attempt reading w in
          elim answer [
            | none ↦ (record_error, w')
            | some persisted ↦
                if persisted
                then (recorded, w')
                else insert_record new_id now user step duration store w'
          ])
  unfolding record_violation
  record_doubtful now reading store w attempt applied h e =
      rw (h, pending_here user step duration w.system applied, e, record_violation) refl

  pub answered_eq :
      (attempt : Attempt) (w : World) (b : Bool)
      → is_persisted attempt w.rows ≡ b
      → confirm attempt answered w ≡ (some b, closed user step duration base attempt w b)
  unfolding confirm closed
  answered_eq (id, timestamp, r) w b e = rw (e, confirm) refl

  -- The answer of a check decides how the call goes on.
  unfoldable pub after_answer : ℕ → Store → Option Bool × World → Result × World
  after_answer now store (answer, w') = elim answer [
    | none ↦ (record_error, w')
    | some persisted ↦
        if persisted then (recorded, w') else insert_record new_id now user step duration store w'
  ]

  unfoldable pub Kept : Result × World → Type 0
  Kept (result, w) =
      Pending user step duration base w × (result ≡ recorded → count_rows user w.rows ≡ base + 1)

  untried-Kept :
      (now : ℕ) (store : Store) (w : World)
      → has_id (new_id w.rows) w.rows ≡ false
      → in_database store ≡ true
      → lookup user w.system.applied_unrecorded ≡ some (step, duration)
      → contains w.system.recorded_incidents user ≡ false
      → lookup user w.system.unconfirmed_incidents ≡ none
      → count_rows user w.rows ≡ base
      → Kept (insert_record new_id now user step duration store w)
  unfolding Kept
  untried-Kept now store w fresh here applied absent none_noted count = (
    insert_record-Pending now store w fresh here applied absent none_noted count,
    λ h. insert_record-count now store w here count h,
  )

  answered-Kept :
      (now id timestamp t : ℕ) (store : Store) (w : World)
      → has_id (new_id w.rows) w.rows ≡ false
      → in_database store ≡ true
      → lookup user w.system.applied_unrecorded ≡ some (step, duration)
      → contains w.system.recorded_incidents user ≡ false
      → count_rows user w.rows
        ≡ base
          + (if is_persisted (id, timestamp, incident user step duration t) w.rows then 1 else 0)
      → Kept (
          after_answer now store
            (confirm (id, timestamp, incident user step duration t) answered w))
  unfolding Kept after_answer closed
  answered-Kept now id timestamp t store w fresh here applied absent count =
      let attempt : Attempt = (id, timestamp, incident user step duration t) in
      elim (Bool-cases (is_persisted attempt w.rows)) [
        | inl e ↦
            let total : count_rows user w.rows ≡ base + 1 =
              count ∙ ap (λ b. base + (if b then 1 else 0)) e in
            subst (λ r. Kept (after_answer now store r)) (sym (answered_eq attempt w true e))
              (
                closed-Pending user step duration base id timestamp t w true applied absent total,
                λ h. total,
              )
        | inr e ↦
            let total : count_rows user w.rows ≡ base =
              count ∙ ap (λ b. base + (if b then 1 else 0)) e ∙ omega arith in
            subst (λ r. Kept (after_answer now store r)) (sym (answered_eq attempt w false e))
              (untried-Kept now store (closed user step duration base attempt w false) fresh here
                applied absent (lookup-erase_self user w.system.unconfirmed_incidents) total)
      ]

  doubtful-Kept :
      (now id timestamp t : ℕ) (reading : Reading) (store : Store) (w : World)
      → has_id (new_id w.rows) w.rows ≡ false
      → in_database store ≡ true
      → lookup user w.system.applied_unrecorded ≡ some (step, duration)
      → contains w.system.recorded_incidents user ≡ false
      → lookup user w.system.unconfirmed_incidents
        ≡ some (id, timestamp, incident user step duration t)
      → count_rows user w.rows
        ≡ base
          + (if is_persisted (id, timestamp, incident user step duration t) w.rows then 1 else 0)
      → Kept (
          after_answer now store (confirm (id, timestamp, incident user step duration t) reading w))
  unfolding Kept after_answer confirm closed
  doubtful-Kept now id timestamp t unreadable store w fresh here applied absent noted count = (
    confirm-Pending user step duration base id timestamp t unreadable w applied absent noted count,
    λ h. ground arith,
  )
  doubtful-Kept now id timestamp t answered_then_raised store w fresh here applied absent noted
        count =
      (
        confirm-Pending user step duration base id timestamp t answered_then_raised w applied absent
            noted count,
        λ h. ground arith,
      )
  doubtful-Kept now id timestamp t answered store w fresh here applied absent noted count =
      answered-Kept now id timestamp t store w fresh here applied absent count

  -- One more call keeps the incident pending with a true status, and writes the row if it returns.
  pub record_violation-Kept :
      (now : ℕ) (reading : Reading) (store : Store) (w : World)
      → has_id (new_id w.rows) w.rows ≡ false
      → in_database store ≡ true
      → Pending user step duration base w
      → Kept (record_violation new_id now user step duration reading store w)
  unfolding Pending Kept confirm after_answer
  record_violation-Kept now reading store w fresh here (applied, settled known count) =
      subst Kept (sym (record_settled now reading store w applied known))
        ((applied, settled known count), λ h. count)
  record_violation-Kept now reading store w fresh here (applied, untried absent none_noted count) =
      subst Kept (sym (record_untried now reading store w applied absent none_noted))
        (untried-Kept now store w fresh here applied absent none_noted count)
  record_violation-Kept now reading store w fresh here
        (applied, doubtful id timestamp t absent noted count) =
      let attempt : Attempt = (id, timestamp, incident user step duration t) in
      subst Kept (sym (record_doubtful now reading store w attempt applied absent noted))
        (doubtful-Kept now id timestamp t reading store w fresh here applied absent noted count)
