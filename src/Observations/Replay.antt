-- ===== src/Observations/Replay.antt =====
-- utils/log_observations.py: the replay cache of a node, and the admission of a record. The heap of
-- `heapq` is kept as a sorted list, whose head is the entry that `heappop` takes.
use pg_limiter.Prelude.{
  ℕ, suc, ◌+◌, ◌*◌, String, Bool, true, false, not, ◌&&◌, ◌||◌, none, some, [], ◌∷◌, ◌==◌, nat_eq,
  option_eq, leb, ltb, if◌then◌else◌, length,
}
use pg_limiter.Prelude.Dict.{lookup, has_key, insert, erase}
use pg_limiter.Observations.State.{
  Cache, Heap, LogObservations, mark_uncertain, record_timestamp_fault,
}

-- The order of the tuples `(observed_at, fingerprint)`.
abbrev pub tuple_lt : ℕ × ℕ → ℕ × ℕ → Bool
tuple_lt (t, f) (u, g) = ltb t u || (t == u && ltb f g)

-- `heapq.heappush`
unfoldable pub heappush : ℕ × ℕ → Heap → Heap
heappush x [] = x ∷ []
heappush x (y ∷ heap) =
    let rest = heappush x heap in if tuple_lt y x then y ∷ rest else x ∷ y ∷ heap

-- `heapq.heapify` of the turned items of a cache.
unfoldable pub heapify_items : Cache → Heap
unfolding heappush
heapify_items [] = []
heapify_items ((f, t) ∷ cache) = heappush (t, f) (heapify_items cache)

-- The loop of `_expire_replay_cache`.
unfoldable pub expire_replay_cache : ℕ → ℕ → Heap → Cache → Heap × Cache
expire_replay_cache now freshness [] cache = ([], cache)
expire_replay_cache now freshness ((t, f) ∷ heap) cache =
    let current = lookup f cache == some t in
    let after = expire_replay_cache now freshness heap (if current then erase f cache else cache) in
    if leb (t + freshness) now then after else ((t, f) ∷ heap, cache)

-- `_compact_replay_cache`
unfoldable pub compact_replay_cache : Heap → Cache → Heap
unfolding heapify_items
compact_replay_cache heap cache =
    if ltb (2 * length cache) (length heap) then heapify_items cache else heap

-- The loop that evicts the oldest entries while the cache is over its capacity.
unfoldable pub evict : ℕ → ℕ → String → Cache → LogObservations → Cache × LogObservations
evict now node reason [] s = ([], s)
evict now node reason ((f, t) ∷ cache) s =
    let lost = t + s.freshness in
    let marked = if ltb now lost then mark_uncertain now (some lost) (some node) reason s else s in
    let after = evict now node reason cache marked in
    if ltb s.capacity (suc (length cache)) then after else ((f, t) ∷ cache, s)

-- A source time that is an int or a float, and finite, or not.
pub data SourceTime : Type 0 where
  at : ℕ → SourceTime
  unusable : SourceTime

unfoldable pub validate_source_time : ℕ → ℕ → SourceTime → LogObservations → Bool × LogObservations
unfolding record_timestamp_fault
validate_source_time now node unusable s =
    (false, mark_uncertain now (some (now + s.freshness)) (some node) "invalid_timestamp" s)
validate_source_time now node (at observed) s =
    let marked =
      mark_uncertain now (some (observed + s.freshness)) (some node) "future_timestamp" s in
    let noted = record marked {
      timestamp_faults = record_timestamp_fault (some node) observed marked.timestamp_faults;
    } in
    if ltb now observed then (false, noted) else (true, s)

abbrev pub cache_of : ℕ → LogObservations → Cache
cache_of node s = elim (lookup node s.seen) [ none ↦ [] | some cache ↦ cache ]

abbrev pub heap_of : ℕ → LogObservations → Heap
heap_of node s = elim (lookup node s.seen_expiry) [ none ↦ [] | some heap ↦ heap ]

abbrev pub keep_replay : ℕ → Heap → Cache → LogObservations → LogObservations
keep_replay node heap cache s = record s {
  seen = insert node cache s.seen;
  seen_expiry = insert node (compact_replay_cache heap cache) s.seen_expiry;
}

-- A record whose digest is not in the cache.
unfoldable pub remember : ℕ → ℕ → ℕ → ℕ → Heap → Cache → LogObservations → LogObservations
unfolding heappush compact_replay_cache evict
remember now node digest observed heap cache s =
    let (left, s') = evict now node "live_cache_eviction" (insert digest observed cache) s in
    keep_replay node (heappush (observed, digest) heap) left s'

-- Past the check of the source time. `digest` is that of the line.
unfoldable pub admit_valid : ℕ → ℕ → ℕ → ℕ → LogObservations → Bool × LogObservations
unfolding expire_replay_cache compact_replay_cache remember
admit_valid now node digest observed s =
    let (heap, cache) = expire_replay_cache now s.freshness (heap_of node s) (cache_of node s) in
    if ltb observed s.floor || not (ltb now (observed + s.freshness))
    then (false, s)
    else if has_key digest cache
    then (false, keep_replay node heap cache s)
    else (true, remember now node digest observed heap cache s)

module _ (sha256 : String → ℕ) where
  unfoldable pub admit : ℕ → ℕ → String → SourceTime → LogObservations → Bool × LogObservations
  unfolding validate_source_time admit_valid
  admit now node line unusable s = validate_source_time now node unusable s
  admit now node line (at observed) s =
      if (validate_source_time now node (at observed) s).0
      then admit_valid now node (sha256 line) observed s
      else validate_source_time now node (at observed) s
