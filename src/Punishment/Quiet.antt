-- ===== src/Punishment/Quiet.antt =====
-- utils/punishment_system.py: what a try to record a violation leaves as it is, however it ends.
use pg_limiter.Prelude.{
  ℕ, ◌≤◌, String, ◌≡◌, refl, ◌∙◌, Bool, ◌&&◌, Option, none, some, List, ◌∷◌, string_eq, nat_eq,
  contains, if◌then◌else◌, either, arith,
}
use pg_limiter.Prelude.Dict.{lookup}
use pg_limiter.Punishment.System.{PunishmentSystem, ViolationRecord, Attempt}
use pg_limiter.Punishment.Ledger.{
  Row, World, row_of, is_persisted, Reading, unreadable, answered, answered_then_raised, Commit,
  committed, raised_after, raised_before, Store, unavailable, add_fails, commits, Result, recorded,
  record_error, is_pending, remember, confirm, note_attempt, commit, insert_record,
  record_violation,
}
use pg_limiter.Punishment.Once.{count_rows}

-- The pending incidents and the claims stay, and no row goes.
pub record IsQuiet (w w' : World) : Type 0 where
  pub applied_kept : w'.system.applied_unrecorded ≡ w.system.applied_unrecorded
  pub claims_kept : w'.system.in_flight ≡ w.system.in_flight
  pub rows_kept : (user : String) → count_rows user w.rows ≤ count_rows user w'.rows

IsQuiet-self : (w : World) → IsQuiet w w
IsQuiet-self w = record { applied_kept = refl; claims_kept = refl; rows_kept = λ user. omega arith }

IsQuiet-trans : {u v w : World} → IsQuiet u v → IsQuiet v w → IsQuiet u w
IsQuiet-trans p q = record {
  applied_kept = q.applied_kept ∙ p.applied_kept;
  claims_kept = q.claims_kept ∙ p.claims_kept;
  rows_kept = λ user. omega (arith, p.rows_kept user, q.rows_kept user);
}

-- Changes of the system alone.
abbrev IsQuietSystem : PunishmentSystem → PunishmentSystem → Type 0
IsQuietSystem s s' = (s'.applied_unrecorded ≡ s.applied_unrecorded) × (s'.in_flight ≡ s.in_flight)

system-IsQuiet :
    (w : World) (s : PunishmentSystem)
    → IsQuietSystem w.system s
    → IsQuiet w (record w { system = s })
system-IsQuiet w s (p, q) = record {
  applied_kept = p;
  claims_kept = q;
  rows_kept = λ user. omega arith;
}

remember-IsQuietSystem :
    (r : ViolationRecord) (s : PunishmentSystem) → IsQuietSystem s (remember r s)
unfolding remember
remember-IsQuietSystem r s =
    either (IsQuietSystem s) (is_pending r.username r.step_applied r.disable_duration s)
      (refl, refl) (refl, refl)

note_attempt-IsQuietSystem :
    (a : Attempt) (s : PunishmentSystem) → IsQuietSystem s (note_attempt a s)
unfolding note_attempt
note_attempt-IsQuietSystem (id, timestamp, r) s =
    either (IsQuietSystem s) (is_pending r.username r.step_applied r.disable_duration s)
      (refl, refl) (refl, refl)

pub confirm-IsQuiet :
    (a : Attempt) (reading : Reading) (w : World) → IsQuiet w (confirm a reading w).1
unfolding confirm
confirm-IsQuiet (id, timestamp, r) unreadable w = IsQuiet-self w
confirm-IsQuiet (id, timestamp, r) answered w =
    let (p, q) =
      either (IsQuietSystem w.system) (is_persisted (id, timestamp, r) w.rows)
        (remember-IsQuietSystem r w.system) (refl, refl) in
    record { applied_kept = p; claims_kept = q; rows_kept = λ user. omega arith }
confirm-IsQuiet (id, timestamp, r) answered_then_raised w =
    let (p, q) =
      either (IsQuietSystem w.system) (is_persisted (id, timestamp, r) w.rows)
        (remember-IsQuietSystem r w.system) (refl, refl) in
    record { applied_kept = p; claims_kept = q; rows_kept = λ user. omega arith }

one_more :
    (user : String) (row : Row) (rows : List Row)
    → count_rows user rows ≤ count_rows user (row ∷ rows)
one_more user row rows = ground arith

commit-IsQuiet : (a : Attempt) (outcome : Commit) (w : World) → IsQuiet w (commit a outcome w).1
unfolding commit
commit-IsQuiet (id, timestamp, r) committed w =
    let s = note_attempt (id, timestamp, r) w.system in
    let (p, q) = note_attempt-IsQuietSystem (id, timestamp, r) w.system in
    let (p', q') = remember-IsQuietSystem r s in
    record {
      applied_kept = p' ∙ p;
      claims_kept = q' ∙ q;
      rows_kept = λ user. one_more user (row_of (id, timestamp, r)) w.rows;
    }
commit-IsQuiet (id, timestamp, r) (raised_after reading) w =
    let s = note_attempt (id, timestamp, r) w.system in
    let (p, q) = note_attempt-IsQuietSystem (id, timestamp, r) w.system in
    let noted : World = record { system = s; rows = row_of (id, timestamp, r) ∷ w.rows } in
    let first : IsQuiet w noted = record {
      applied_kept = p;
      claims_kept = q;
      rows_kept = λ user. one_more user (row_of (id, timestamp, r)) w.rows;
    } in
    IsQuiet-trans first (confirm-IsQuiet (id, timestamp, r) reading noted)
commit-IsQuiet (id, timestamp, r) (raised_before reading) w =
    let s = note_attempt (id, timestamp, r) w.system in
    IsQuiet-trans (system-IsQuiet w s (note_attempt-IsQuietSystem (id, timestamp, r) w.system))
      (confirm-IsQuiet (id, timestamp, r) reading (record w { system = s }))

module _ (new_id : List Row → ℕ) (now : ℕ) (username : String) (step duration : ℕ)
    (store : Store) where
  insert_record-IsQuiet :
      (w : World) → IsQuiet w (insert_record new_id now username step duration store w).1
  unfolding insert_record
  insert_record-IsQuiet w = go store
    where
      r : ViolationRecord
      r = record {
        username = username;
        timestamp = now;
        step_applied = step;
        disable_duration = duration;
      }

      go : (st : Store) → IsQuiet w (insert_record new_id now username step duration st w).1
      go (unavailable saved) =
          system-IsQuiet w (remember r w.system) (remember-IsQuietSystem r w.system)
      go add_fails = IsQuiet-self w
      go (commits timestamp outcome ending) = commit-IsQuiet (new_id w.rows, timestamp, r) outcome w

  after_check :
      (w : World) (checked : Option Bool × World)
      → IsQuiet w checked.1
      → IsQuiet w
          (elim checked.0 as (λ x. Result × World) [
            | none ↦ (record_error, checked.1)
            | some persisted ↦
                if persisted
                then (recorded, checked.1)
                else insert_record new_id now username step duration store checked.1
          ]).1
  after_check w (none, v) h = h
  after_check w (some persisted, v) h =
      either (λ (x : Result × World). IsQuiet w x.1) persisted h
        (IsQuiet-trans h (insert_record-IsQuiet v))

  -- However a try ends, it keeps the pending incidents and the claims, and removes no row.
  pub record_violation-IsQuiet :
      (reading : Reading) (w : World)
      → IsQuiet w (record_violation new_id now username step duration reading store w).1
  unfolding record_violation
  record_violation-IsQuiet reading w =
      let pending = is_pending username step duration w.system in
      let P : Result × World → Type 0 = λ x. IsQuiet w x.1 in
      either P (contains w.system.recorded_incidents username && pending) (IsQuiet-self w) (
        either P pending (go (lookup username w.system.unconfirmed_incidents))
          (insert_record-IsQuiet w))
    where
      go :
          (o : Option Attempt)
          → IsQuiet w
              (elim o as (λ x. Result × World) [
                | none ↦ insert_record new_id now username step duration store w
                | some attempt ↦ elim (confirm attempt reading w).0 as (λ x. Result × World) [
                  | none ↦ (record_error, (confirm attempt reading w).1)
                  | some persisted ↦
                      if persisted
                      then (recorded, (confirm attempt reading w).1)
                      else insert_record new_id now username step duration store
                          (confirm attempt reading w).1
                ]
              ]).1
      go none = insert_record-IsQuiet w
      go (some attempt) =
          after_check w (confirm attempt reading w) (confirm-IsQuiet attempt reading w)
