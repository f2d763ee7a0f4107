-- ===== src/Observations/Counted.antt =====
-- utils/log_observations.py: the samples at the second admission of a record.
use pg_limiter.Prelude.{
  ℕ, ◌+◌, ◌≤◌, ◌<◌, String, Bool, ltb, ◌||◌, true, false, not, ◌&&◌, ◌≡◌, refl, List, [], ◌∷◌,
  nat_eq, contains, all, arith, either,
}
use pg_limiter.Prelude.Dict.{Dict, lookup, insert, has_key}
use pg_limiter.Observations.State.{LogObservations}
use pg_limiter.Observations.Fleet.{is_known}
use pg_limiter.Observations.Replay.{
  SourceTime, at, unusable, admit, admit_valid, remember, expire_replay_cache, heap_of, cache_of,
  validate_source_time,
}
use pg_limiter.Observations.Ready.{
  is_ready, global_unavailable_reason, node_unavailable_reason, stream_reason,
}
use pg_limiter.Observations.Evidence.{evidence, eligible_nodes, required_set, or_empty}
use pg_limiter.Observations.Doubt.{doubt, state_until}
use pg_limiter.Observations.Covered.{evict-IsFault}
use pg_limiter.Observations.Replayed.{Event, after, admit-again, validate_source_time-IsFault}
use pg_limiter.Observations.Coverage.{contains-keep}

remember-doubt :
    (now m digest observed n : ℕ) (heap : List (ℕ × ℕ)) (cache : Dict ℕ ℕ) (s : LogObservations)
    → doubt n s ≤ doubt n (remember now m digest observed heap cache s)
unfolding remember
remember-doubt now m digest observed n heap cache s = omega (
  arith,
  (evict-IsFault now m "live_cache_eviction" (insert digest observed cache) s).doubt_kept n,
)

admit_valid-doubt :
    (now m digest t n : ℕ) (s : LogObservations)
    → doubt n s ≤ doubt n (admit_valid now m digest t s).1
unfolding admit_valid
admit_valid-doubt now m digest t n s =
    let P : Bool × LogObservations → Type 0 = λ r. doubt n s ≤ doubt n r.1 in
    let (heap, cache) = expire_replay_cache now s.freshness (heap_of m s) (cache_of m s) in
    either P (ltb t s.floor || not (ltb now (t + s.freshness))) (omega arith)
      (either P (has_key digest cache) (omega arith) (remember-doubt now m digest t n heap cache s))

admit-doubt :
    (sha256 : String → ℕ) (now m n : ℕ) (line : String) (time : SourceTime) (s : LogObservations)
    → doubt n s ≤ doubt n (admit sha256 now m line time s).1
unfolding admit
admit-doubt sha256 now m n line unusable s =
    (validate_source_time-IsFault sha256 now m unusable s).doubt_kept n
admit-doubt sha256 now m n line (at t) s =
    let check = validate_source_time now m (at t) s in
    either (λ (r : Bool × LogObservations). doubt n s ≤ doubt n r.1) check.0
      (admit_valid-doubt now m (sha256 line) t n s)
      ((validate_source_time-IsFault sha256 now m (at t) s).doubt_kept n)

global-doubt :
    (now : ℕ) (s : LogObservations)
    → is_ready (global_unavailable_reason now s) ≡ true
    → s.global_uncertain_until ≤ now
unfolding global_unavailable_reason
global-doubt now s h = ground arith

node-doubt :
    (last_event : Dict ℕ ℕ) (now node : ℕ) (s : LogObservations)
    → is_ready (node_unavailable_reason last_event now node s) ≡ true
    → state_until (lookup node s.node_states) ≤ now
unfolding node_unavailable_reason stream_reason
node-doubt last_event now node s k = ground arith

all-at : (p : ℕ → Bool) (xs : List ℕ) (a : ℕ) → all p xs ≡ true → contains xs a ≡ true → p a ≡ true
all-at p [] a h k = cc
all-at p (x ∷ xs) a h k = ground (arith, all-at p xs a, nat_eq.beq_iff a x)

module _ (last_event : Dict ℕ ℕ) (revision now node : ℕ) (s : LogObservations) where
  -- A node in doubt is in no sample.
  eligible-doubt :
      now < doubt node s → contains (eligible_nodes last_event revision now s) node ≡ false
  unfolding eligible_nodes
  eligible-doubt h =
      let ids = or_empty (required_set s) in
      let p : ℕ → Bool = λ n. is_ready (node_unavailable_reason last_event now n s) in
      ground (arith, contains-keep p ids node, node-doubt last_event now node s, global-doubt now s)

  -- A fleet with a node in doubt has no complete sample.
  complete-doubt :
      now < doubt node s
      → contains (or_empty (required_set s)) node
          && (evidence last_event revision now s).coverage_complete
        ≡ false
  unfolding evidence
  complete-doubt h =
      let ids = or_empty (required_set s) in
      let eligible = eligible_nodes last_event revision now s in
      ground (arith, all-at (contains eligible) ids node, eligible-doubt h)

module _ (sha256 : String → ℕ) (now node t : ℕ) (line : String) (s : LogObservations) where
  -- The clock and the state when the line is read again, and the second answer.
  abbrev pub first_read : Bool × LogObservations
  first_read = admit sha256 now node line (at t) s

  abbrev pub later : List Event → ℕ × LogObservations
  later events = after sha256 now events first_read.1

  abbrev pub second_read : List Event → Bool × LogObservations
  second_read events = admit sha256 (later events).0 node line (at t) (later events).1

  -- A log line counts once: if a line that was admitted for a node is admitted again with the same
  -- source time, after any lines, faults, gaps and delays, then no sample that is taken at that moment
  -- has the node among its eligible ones, and none that needs the node covers the fleet.
  pub evidence-admit :
      (last_event : Dict ℕ ℕ) (revision : ℕ) (events : List Event)
      → first_read.0 ≡ true
      → (second_read events).0 ≡ true
      → let e = evidence last_event revision (later events).0 (second_read events).1 in
        (contains (or_empty e.eligible_node_ids) node ≡ false)
        × (contains (or_empty e.required_node_ids) node && e.coverage_complete ≡ false)
  unfolding evidence
  evidence-admit last_event revision events first again =
      let (time, s') = later events in
      let s'' = (second_read events).1 in
      let doubted : time < doubt node s'' = omega (
        arith,
        admit-again sha256 now node t line events s first again,
        admit-doubt sha256 time node node line (at t) s',
      ) in
      (
        either (λ o. contains (or_empty o) node ≡ false) (is_known (required_set s''))
            (eligible-doubt last_event revision time node s'' doubted) refl,
        complete-doubt last_event revision time node s'' doubted,
      )
