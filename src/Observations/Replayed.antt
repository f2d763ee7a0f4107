-- ===== src/Observations/Replayed.antt =====
-- utils/log_observations.py: `admit` over time, for a record that comes again.
use pg_limiter.Prelude.{
  ℕ, ◌+◌, ◌<◌, either, ap, ◌∙◌, sym, ◌≡◌, Bool, true, Option, some, List, [], ◌∷◌, String, nat_eq,
  option_eq, subst, ltb, arith,
}
use pg_limiter.Observations.State.{LogObservations, mark_uncertain, note_transport_gap}
use pg_limiter.Observations.Replay.{
  SourceTime, at, unusable, admit_valid, admit, validate_source_time,
}
use pg_limiter.Observations.Doubt.{
  doubt, IsFault, refl_fault, mark_uncertain-IsFault, note_transport_gap-IsFault,
}
use pg_limiter.Observations.Covered.{
  IsKnown, IsFault-IsKnown, admit_valid-IsKnown, admit_valid-learns, admit_valid-again,
}

-- What the log readers do, and the passage of time.
pub data Event : Type 0 where
  wait : ℕ → Event
  line_read : ℕ → String → SourceTime → Event
  fault : Option ℕ → Option ℕ → String → Event
  gap : Option ℕ → Event

module _ (sha256 : String → ℕ) where
  abbrev pub after : ℕ → List Event → LogObservations → ℕ × LogObservations
  after now [] s = (now, s)
  after now (wait n ∷ events) s = after (now + n) events s
  after now (line_read node line time ∷ events) s =
      after now events (admit sha256 now node line time s).1
  after now (fault until node reason ∷ events) s =
      after now events (mark_uncertain now until node reason s)
  after now (gap node ∷ events) s = after now events (note_transport_gap now node s)

  pub validate_source_time-IsFault :
      (now node : ℕ) (time : SourceTime) (s : LogObservations)
      → IsFault s (validate_source_time now node time s).1
  unfolding validate_source_time
  validate_source_time-IsFault now node unusable s =
      mark_uncertain-IsFault now (some (now + s.freshness)) (some node) "invalid_timestamp" s
  validate_source_time-IsFault now node (at t) s =
      let g =
        mark_uncertain-IsFault now (some (t + s.freshness)) (some node) "future_timestamp" s in
      either (λ (r : Bool × LogObservations). IsFault s r.1) (ltb now t)
        (record {
          seen_kept = g.seen_kept;
          seen_expiry_kept = g.seen_expiry_kept;
          freshness_kept = g.freshness_kept;
          capacity_kept = g.capacity_kept;
          doubt_kept = g.doubt_kept;
        })
        (refl_fault s)

  admit-IsKnown :
      (now node f t m : ℕ) (line : String) (time : SourceTime) (s : LogObservations)
      → IsKnown now node f t s
      → IsKnown now node f t (admit sha256 now m line time s).1
  unfolding admit
  admit-IsKnown now node f t m line unusable s h =
      IsFault-IsKnown now now node f t (omega arith) (validate_source_time-IsFault now m unusable s)
        h
  admit-IsKnown now node f t m line (at u) s h =
      let check = validate_source_time now m (at u) s in
      either (λ (r : Bool × LogObservations). IsKnown now node f t r.1) check.0
        (admit_valid-IsKnown now node m f t (sha256 line) u s h)
        (IsFault-IsKnown now now node f t (omega arith)
          (validate_source_time-IsFault now m (at u) s) h)

  admit-passes :
      (now node t : ℕ) (line : String) (s : LogObservations)
      → (admit sha256 now node line (at t) s).0 ≡ true
      → admit sha256 now node line (at t) s ≡ admit_valid now node (sha256 line) t s
  unfolding admit
  admit-passes now node t line s h = ground arith

  after-IsKnown :
      (now node f t : ℕ) (events : List Event) (s : LogObservations)
      → IsKnown now node f t s
      → IsKnown (after now events s).0 node f t (after now events s).1
  after-IsKnown now node f t [] s h = h
  after-IsKnown now node f t (wait n ∷ events) s h =
      after-IsKnown (now + n) node f t events s
        (IsFault-IsKnown now (now + n) node f t (omega arith) (refl_fault s) h)
  after-IsKnown now node f t (line_read m line time ∷ events) s h =
      after-IsKnown now node f t events (admit sha256 now m line time s).1
        (admit-IsKnown now node f t m line time s h)
  after-IsKnown now node f t (fault until m reason ∷ events) s h =
      after-IsKnown now node f t events (mark_uncertain now until m reason s) (
        IsFault-IsKnown now now node f t (omega arith) (mark_uncertain-IsFault now until m reason s)
          h)
  after-IsKnown now node f t (gap m ∷ events) s h =
      after-IsKnown now node f t events (note_transport_gap now m s)
        (IsFault-IsKnown now now node f t (omega arith) (note_transport_gap-IsFault now m s) h)

  -- A log line is counted once: a line that was admitted for a node is admitted again with the same
  -- source time, after any lines, faults, gaps and delays, only at a time when the node is in doubt.
  pub admit-again :
      (now node t : ℕ) (line : String) (events : List Event) (s : LogObservations)
      → (admit sha256 now node line (at t) s).0 ≡ true
      → let (later, s') = after now events (admit sha256 now node line (at t) s).1 in
        (admit sha256 later node line (at t) s').0 ≡ true → later < doubt node s'
  admit-again now node t line events s first again =
      let s1 = (admit sha256 now node line (at t) s).1 in
      let (later, s2) = after now events s1 in
      let pass = admit-passes now node t line s first in
      let known : IsKnown now node (sha256 line) t s1 =
        subst (λ r. IsKnown now node (sha256 line) t r.1) (sym pass)
          (admit_valid-learns now node (sha256 line) t s (sym (ap (λ r. r.0) pass) ∙ first)) in
      let pass' = admit-passes later node t line s2 again in
      admit_valid-again later node (sha256 line) t s2
        (after-IsKnown now node (sha256 line) t events s1 known) (sym (ap (λ r. r.0) pass') ∙ again)
