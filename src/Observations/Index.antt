-- ===== src/Observations/Index.antt =====
-- utils/log_observations.py: the replay memory of every node as an index of records.
use pg_limiter.Prelude.{
  ℕ, suc, ◌+◌, ◌*◌, ◌≤◌, Bool, not, ◌&&◌, ◌||◌, ◌≡◌, refl, sym, inl, inr, some, [], ◌∷◌, String,
  ◌==◌, nat_eq, arith, either, Bool-cases, leb, ltb, if◌then◌else◌, length, subst,
}
use pg_limiter.Prelude.Dict.{lookup, has_key, insert, lookup-insert}
use pg_limiter.Observations.State.{Cache, Heap, LogObservations, mark_uncertain}
use pg_limiter.Observations.Replay.{
  SourceTime, at, unusable, admit, admit_valid, remember, evict, expire_replay_cache, heap_of,
  cache_of, validate_source_time, compact_replay_cache, keep_replay, heappush,
}
use pg_limiter.Observations.Fleet.{is_known}
use pg_limiter.Observations.Doubt.{IsFault, mark_uncertain-IsFault}
use pg_limiter.Observations.Covered.{cache_of-keep_replay, evict-IsFault}
use pg_limiter.Observations.Replayed.{validate_source_time-IsFault}
use pg_limiter.Observations.Heap.{
  IsReplay, fresh_time, expire-IsReplay, expire-length, lookup-expire, compact-IsReplay,
  length-compact, insert-IsReplay, tail-IsReplay,
}

-- The memory of one node: sound, within the capacity, and with a heap of at most twice its size.
pub record IsBounded (capacity : ℕ) (cache : Cache) (heap : Heap) : Type 0 where
  pub sound : IsReplay cache heap
  pub cache_bound : length cache ≤ capacity
  pub heap_bound : length heap ≤ 2 * length cache

abbrev pub WellKept : LogObservations → Type 0
WellKept s = (node : ℕ) → IsBounded s.capacity (cache_of node s) (heap_of node s)

fault-WellKept : {s s' : LogObservations} → IsFault s s' → WellKept s → WellKept s'
fault-WellKept {s} {s'} fault h node =
    rw (fault.capacity_kept, fault.seen_kept, fault.seen_expiry_kept) (h node)

compact-IsBounded :
    (capacity : ℕ) (heap : Heap) (cache : Cache)
    → IsReplay cache heap
    → length cache ≤ capacity
    → IsBounded capacity cache (compact_replay_cache heap cache)
compact-IsBounded capacity heap cache h le = record {
  sound = compact-IsReplay heap cache h;
  cache_bound = le;
  heap_bound = length-compact heap cache;
}

heap_of-keep_replay :
    (n node : ℕ) (heap : Heap) (cache : Cache) (s : LogObservations)
    → heap_of n (keep_replay node heap cache s)
      ≡ (if n == node then compact_replay_cache heap cache else heap_of n s)
heap_of-keep_replay n node heap cache s =
    ground (arith, lookup-insert node n (compact_replay_cache heap cache) s.seen_expiry)

keep_replay-WellKept :
    (node : ℕ) (heap : Heap) (cache : Cache) (s : LogObservations)
    → IsReplay cache heap
    → length cache ≤ s.capacity
    → WellKept s
    → WellKept (keep_replay node heap cache s)
keep_replay-WellKept node heap cache s h le kept n =
    let small = compact_replay_cache heap cache in
    elim (Bool-cases (n == node)) [
      | inl e ↦
          rw (cache_of-keep_replay n node heap cache s, heap_of-keep_replay n node heap cache s, e)
            (compact-IsBounded s.capacity heap cache h le)
      | inr e ↦
          rw (cache_of-keep_replay n node heap cache s, heap_of-keep_replay n node heap cache s, e)
            (kept n)
    ]

evict-IsReplay :
    (now node : ℕ) (reason : String) (heap : Heap) (cache : Cache) (s : LogObservations)
    → IsReplay cache heap
    → IsReplay (evict now node reason cache s).0 heap
unfolding evict
evict-IsReplay now node reason heap [] s h = h
evict-IsReplay now node reason heap ((f, t) ∷ cache) s h =
    let lost = t + s.freshness in
    let marked = if ltb now lost then mark_uncertain now (some lost) (some node) reason s else s in
    either (λ (r : Cache × LogObservations). IsReplay r.0 heap)
      (ltb s.capacity (suc (length cache)))
      (evict-IsReplay now node reason heap cache marked (tail-IsReplay f t heap cache h)) h

-- Eviction stops at the capacity.
evict-length :
    (now node : ℕ) (reason : String) (cache : Cache) (s : LogObservations)
    → length (evict now node reason cache s).0 ≤ s.capacity
unfolding evict
evict-length now node reason [] s = omega arith
evict-length now node reason ((f, t) ∷ cache) s =
    let lost = t + s.freshness in
    let marked = if ltb now lost then mark_uncertain now (some lost) (some node) reason s else s in
    let same : marked.capacity ≡ s.capacity =
      either (λ (r : LogObservations). r.capacity ≡ s.capacity) (ltb now lost)
        (mark_uncertain-IsFault now (some lost) (some node) reason s).capacity_kept refl in
    elim (Bool-cases (ltb s.capacity (suc (length cache)))) [
      | inl e ↦ rw e (omega (arith, evict-length now node reason cache marked, same))
      | inr e ↦ rw e (ground arith)
    ]

remember-WellKept :
    (now node digest observed : ℕ) (heap : Heap) (cache : Cache) (s : LogObservations)
    → IsReplay cache heap
    → WellKept s
    → WellKept (remember now node digest observed heap cache s)
unfolding remember
remember-WellKept now node digest observed heap cache s h kept =
    let reason : String = "live_cache_eviction" in
    let cache' = insert digest observed cache in
    let heap' = heappush (observed, digest) heap in
    let fault = evict-IsFault now node reason cache' s in
    keep_replay-WellKept node heap' (evict now node reason cache' s).0
      (evict now node reason cache' s).1
      (evict-IsReplay now node reason heap' cache' s (insert-IsReplay digest observed heap cache h))
      (subst (λ c. length (evict now node reason cache' s).0 ≤ c) (sym fault.capacity_kept)
        (evict-length now node reason cache' s))
      (fault-WellKept fault kept)

admit_valid-WellKept :
    (now node digest observed : ℕ) (s : LogObservations)
    → WellKept s
    → WellKept (admit_valid now node digest observed s).1
unfolding admit_valid
admit_valid-WellKept now node digest observed s kept =
    let heap = heap_of node s in
    let cache = cache_of node s in
    let (heap', cache') = expire_replay_cache now s.freshness heap cache in
    let sound = expire-IsReplay now s.freshness heap cache (kept node).sound in
    let small : length cache' ≤ s.capacity =
      omega (arith, expire-length now s.freshness heap cache, (kept node).cache_bound) in
    let P : Bool × LogObservations → Type 0 = λ r. WellKept r.1 in
    either P (ltb observed s.floor || not (ltb now (observed + s.freshness))) kept (
      either P (has_key digest cache') (keep_replay-WellKept node heap' cache' s sound small kept)
        (remember-WellKept now node digest observed heap' cache' s sound kept))

module _ (sha256 : String → ℕ) (now node : ℕ) (line : String) where
  -- Reading a line keeps the memory of every node sound and bounded: the heap of a node is in order and
  -- has an entry for every record of its cache, the cache has at most `capacity` records, and the heap
  -- at most twice as many entries as the cache.
  pub admit-WellKept :
      (time : SourceTime) (s : LogObservations)
      → WellKept s
      → WellKept (admit sha256 now node line time s).1
  unfolding admit
  admit-WellKept unusable s kept =
      fault-WellKept (validate_source_time-IsFault sha256 now node unusable s) kept
  admit-WellKept (at t) s kept =
      let check = validate_source_time now node (at t) s in
      either (λ (r : Bool × LogObservations). WellKept r.1) check.0
        (admit_valid-WellKept now node (sha256 line) t s kept)
        (fault-WellKept (validate_source_time-IsFault sha256 now node (at t) s) kept)

-- The cache as a set of fresh records: a record that passes the check of its time is admitted exactly if
-- its time is neither before the floor nor too old, and no fresh record of the node has its digest.
pub admit_valid-fresh :
    (now node digest observed : ℕ) (s : LogObservations)
    → WellKept s
    → (admit_valid now node digest observed s).0 ≡ (
        leb s.floor observed
        && ltb now (observed + s.freshness)
        && not (is_known (fresh_time now s.freshness (lookup digest (cache_of node s)))))
unfolding admit_valid
admit_valid-fresh now node digest observed s kept = ground (
  arith,
  lookup-expire now s.freshness digest (heap_of node s) (cache_of node s) (kept node).sound,
)
