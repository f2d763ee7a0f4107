-- ===== src/Observations/Covered.antt =====
-- utils/log_observations.py: what becomes of a record that was admitted, under each operation.
use pg_limiter.Prelude.{
  ℕ, suc, ◌+◌, ◌≤◌, ◌<◌, max, either, ◌≡◌, ◌⊎◌, inl, inr, Bool, true, false, not, ◌||◌, some, [],
  ◌∷◌, String, ◌==◌, nat_eq, option_eq, subst, leb, ltb, if◌then◌else◌, arith, Bool-cases, beq_self,
  option_beq_iff, length,
}
use pg_limiter.Prelude.Dict.{
  lookup, has_key, insert, erase, lookup-insert, lookup-insert_self, lookup-erase,
}
use pg_limiter.Observations.State.{Cache, Heap, LogObservations, mark_uncertain}
use pg_limiter.Observations.Replay.{
  expire_replay_cache, evict, remember, admit_valid, cache_of, heap_of, heappush, keep_replay,
}
use pg_limiter.Observations.Doubt.{
  doubt, IsFault, IsFault_trans, refl_fault, mark_uncertain-IsFault, mark_uncertain-doubt,
}

-- The digest with its source time is in the cache, or too old, or the node is in doubt as long as the
-- record could still be admitted.
abbrev pub IsCovered : ℕ → ℕ → ℕ → ℕ → Cache → LogObservations → Type 0
IsCovered now node f t cache s =
    (lookup f cache ≡ some t) ⊎ (t + s.freshness ≤ max now (doubt node s))

module _ (now freshness f t : ℕ) where
  still :
      (g u : ℕ) (cache : Cache)
      → lookup f cache ≡ some t
      → (lookup f (if lookup g cache == some u then erase g cache else cache) ≡ some t) ⊎ (u ≡ t)
  still g u cache h = elim (Bool-cases (lookup g cache == some u)) [
    | inl e ↦ rw e (
        ground (
          arith,
          lookup-erase g f cache,
          nat_eq.beq_iff f g,
          option_beq_iff (lookup g cache) (some u),
        ))
    | inr e ↦ rw e (inl h)
  ]

  -- Expiry drops nothing that is still fresh.
  expire-keeps :
      (heap : Heap) (cache : Cache)
      → lookup f cache ≡ some t
      → (lookup f (expire_replay_cache now freshness heap cache).1 ≡ some t) ⊎ (t + freshness ≤ now)
  unfolding expire_replay_cache
  expire-keeps [] cache h = inl h
  expire-keeps ((u, g) ∷ heap) cache h =
      let current = lookup g cache == some u in
      let cache' = if current then erase g cache else cache in
      let kept : (lookup f cache' ≡ some t) ⊎ (u ≡ t) = still g u cache h in
      elim (Bool-cases (leb (u + freshness) now)) [
        | inl e ↦
            rw e (elim kept [ inl k ↦ expire-keeps heap cache' k | inr same ↦ inr (ground arith) ])
        | inr e ↦ rw e (inl h)
      ]

pub evict-IsFault :
    (now node : ℕ) (reason : String) (cache : Cache) (s : LogObservations)
    → IsFault s (evict now node reason cache s).1
unfolding evict
evict-IsFault now node reason [] s = refl_fault s
evict-IsFault now node reason ((g, u) ∷ cache) s =
    let lost = u + s.freshness in
    let marked = if ltb now lost then mark_uncertain now (some lost) (some node) reason s else s in
    let marking : IsFault s marked =
      either (IsFault s) (ltb now lost)
        (mark_uncertain-IsFault now (some lost) (some node) reason s) (refl_fault s) in
    either (λ (r : Cache × LogObservations). IsFault s r.1) (ltb s.capacity (suc (length cache)))
      (IsFault_trans marking (evict-IsFault now node reason cache marked)) (refl_fault s)

-- The oldest record is dropped: if it is the one at hand, the node is now in doubt.
lose :
    (now node : ℕ) (reason : String) (f t g u : ℕ) (cache : Cache) (s : LogObservations)
    → IsCovered now node f t ((g, u) ∷ cache) s
    → let lost = u + s.freshness in
      IsCovered now node f t cache
        (if ltb now lost then mark_uncertain now (some lost) (some node) reason s else s)
lose now node reason f t g u cache s h =
    let lost = u + s.freshness in
    let s' = mark_uncertain now (some lost) (some node) reason s in
    let fault = mark_uncertain-IsFault now (some lost) (some node) reason s in
    elim (Bool-cases (ltb now lost)) [
      | inl e ↦ rw e (
          ground (
            arith,
            fault.freshness_kept,
            fault.doubt_kept node,
            mark_uncertain-doubt now lost node reason s,
            nat_eq.beq_iff f g,
          ))
      | inr e ↦ rw e (ground (arith, nat_eq.beq_iff f g))
    ]

-- Eviction marks the node for every record that it drops while it is fresh.
evict-keeps :
    (now node : ℕ) (reason : String) (f t : ℕ) (cache : Cache) (s : LogObservations)
    → IsCovered now node f t cache s
    → let (cache', s') = evict now node reason cache s in IsCovered now node f t cache' s'
unfolding evict
evict-keeps now node reason f t [] s h = h
evict-keeps now node reason f t ((g, u) ∷ cache) s h =
    let lost = u + s.freshness in
    let marked = if ltb now lost then mark_uncertain now (some lost) (some node) reason s else s in
    either (λ (r : Cache × LogObservations). IsCovered now node f t r.0 r.1)
      (ltb s.capacity (suc (length cache)))
      (evict-keeps now node reason f t cache marked (lose now node reason f t g u cache s h)) h

-- The record is in the node's cache, or too old, or the node is in doubt.
abbrev pub IsKnown : ℕ → ℕ → ℕ → ℕ → LogObservations → Type 0
IsKnown now node f t s = IsCovered now node f t (cache_of node s) s

pub IsFault-IsKnown :
    (now later node f t : ℕ) {s s' : LogObservations}
    → now ≤ later
    → IsFault s s'
    → IsKnown now node f t s
    → IsKnown later node f t s'
IsFault-IsKnown now later node f t le fault h =
    ground (arith, fault.doubt_kept node, fault.freshness_kept, fault.seen_kept)

pub cache_of-keep_replay :
    (node m : ℕ) (heap : Heap) (cache : Cache) (s : LogObservations)
    → cache_of node (keep_replay m heap cache s) ≡ (if node == m then cache else cache_of node s)
cache_of-keep_replay node m heap cache s = ground (arith, lookup-insert m node cache s.seen)

-- Another cache of the same node that still covers the record.
keep_replay-IsKnown :
    (now node m f t : ℕ) (heap : Heap) (cache : Cache) (s : LogObservations)
    → (node ≡ m → IsCovered now node f t cache s)
    → IsKnown now node f t s
    → IsKnown now node f t (keep_replay m heap cache s)
keep_replay-IsKnown now node m f t heap cache s same h = elim (Bool-cases (node == m)) [
  | inl e ↦ rw (cache_of-keep_replay node m heap cache s, e) (same ((nat_eq.beq_iff node m).0 e))
  | inr e ↦ rw (cache_of-keep_replay node m heap cache s, e) h
]

remember-IsKnown :
    (now node m f t digest observed : ℕ) (heap : Heap) (cache : Cache) (s : LogObservations)
    → (node ≡ m → IsCovered now node f t (insert digest observed cache) s)
    → IsKnown now node f t s
    → IsKnown now node f t (remember now m digest observed heap cache s)
unfolding remember
remember-IsKnown now node m f t digest observed heap cache s same h =
    let reason : String = "live_cache_eviction" in
    let cache' = insert digest observed cache in
    let fault = evict-IsFault now m reason cache' s in
    keep_replay-IsKnown now node m f t (heappush (observed, digest) heap)
      (evict now m reason cache' s).0 (evict now m reason cache' s).1
      (λ e.
        subst
          (λ n.
            IsCovered now node f t (evict now n reason cache' s).0 (evict now n reason cache' s).1)
          e (evict-keeps now node reason f t cache' s (same e)))
      (IsFault-IsKnown now now node f t (omega arith) fault h)

-- A record with another digest joins the cache.
insert-IsCovered :
    (now node f t digest observed : ℕ) (cache : Cache) (s : LogObservations)
    → has_key digest cache ≡ false
    → IsCovered now node f t cache s
    → IsCovered now node f t (insert digest observed cache) s
insert-IsCovered now node f t digest observed cache s new (inr old) = inr old
insert-IsCovered now node f t digest observed cache s new (inl k) =
    inl (ground (arith, lookup-insert digest f observed cache, nat_eq.beq_iff f digest))

module _ (now node m f t digest observed : ℕ) (s : LogObservations) where
  abbrev expired : Heap × Cache
  expired = expire_replay_cache now s.freshness (heap_of m s) (cache_of m s)

  expired-IsCovered : IsKnown now node f t s → node ≡ m → IsCovered now node f t expired.1 s
  expired-IsCovered (inr old) e = inr old
  expired-IsCovered (inl k) e =
      elim (expire-keeps now s.freshness f t (heap_of m s) (cache_of m s)
        (subst (λ n. lookup f (cache_of n s) ≡ some t) e k)) [
          | inl kept ↦ inl kept
          | inr old ↦ inr (omega arith)
        ]

  pub admit_valid-IsKnown :
      IsKnown now node f t s → IsKnown now node f t (admit_valid now m digest observed s).1
  unfolding admit_valid
  admit_valid-IsKnown h =
      let P : Bool × LogObservations → Type 0 = λ r. IsKnown now node f t r.1 in
      let refused = ltb observed s.floor || not (ltb now (observed + s.freshness)) in
      let replayed = has_key digest expired.1 in
      either P refused h (elim (Bool-cases replayed) [
        | inl e ↦
            rw e (keep_replay-IsKnown now node m f t expired.0 expired.1 s (expired-IsCovered h) h)
        | inr e ↦ rw e (
            remember-IsKnown now node m f t digest observed expired.0 expired.1 s
              (λ same.
                insert-IsCovered now node f t digest observed expired.1 s e
                  (expired-IsCovered h same))
              h)
      ])

-- The record itself is known once it is admitted.
pub admit_valid-learns :
    (now node f t : ℕ) (s : LogObservations)
    → (admit_valid now node f t s).0 ≡ true
    → IsKnown now node f t (admit_valid now node f t s).1
unfolding admit_valid remember
admit_valid-learns now node f t s =
    let (heap, cache) = expire_replay_cache now s.freshness (heap_of node s) (cache_of node s) in
    let cache' = insert f t cache in
    let reason : String = "live_cache_eviction" in
    let (left, s') = evict now node reason cache' s in
    let refused = ltb t s.floor || not (ltb now (t + s.freshness)) in
    let P : Bool × LogObservations → Type 0 = λ r. r.0 ≡ true → IsKnown now node f t r.1 in
    let covered = evict-keeps now node reason f t cache' s (inl (lookup-insert_self f t cache)) in
    either P refused (λ e. cc)
      (either P (has_key f cache) (λ e. cc)
        (λ e.
          rw (cache_of-keep_replay node node (heappush (t, f) heap) left s', beq_self node)
            covered))

admit_valid-parts :
    (now node f t : ℕ) (s : LogObservations)
    → (admit_valid now node f t s).0 ≡ true
    → (now < t + s.freshness)
      × (has_key f (expire_replay_cache now s.freshness (heap_of node s) (cache_of node s)).1
          ≡ false)
unfolding admit_valid
admit_valid-parts now node f t s again = ground arith

-- A known record is admitted again only while its node is in doubt.
pub admit_valid-again :
    (now node f t : ℕ) (s : LogObservations)
    → IsKnown now node f t s
    → (admit_valid now node f t s).0 ≡ true
    → now < doubt node s
unfolding admit_valid
admit_valid-again now node f t s (inr old) again =
    omega (arith, admit_valid-parts now node f t s again)
admit_valid-again now node f t s (inl k) again =
    let (fresh, new) = admit_valid-parts now node f t s again in
    elim (expire-keeps now s.freshness f t (heap_of node s) (cache_of node s) k) [
      | inl kept ↦ ground arith
      | inr old ↦ omega arith
    ]
