-- ===== src/Observations/Heap.antt =====
-- utils/log_observations.py: a cache with the heap that finds its expired records.
use pg_limiter.Prelude.{
  ℕ, suc, ◌+◌, ◌*◌, ◌≤◌, true, false, ◌||◌, ◌≡◌, refl, ap, ◌∙◌, inl, inr, Option, none, some, [],
  ◌∷◌, ◌==◌, nat_eq, option_eq, pair_eq, contains, Distinct, All, arith, either, Bool-cases, leb,
  ltb, if◌then◌else◌, length, pair_beq_iff, option_beq_iff,
}
use pg_limiter.Prelude.Dict.{
  lookup, insert, erase, keys, lookup-erase, lookup-insert, contains-keys, Distinct-keys-insert,
}
use pg_limiter.Observations.State.{Cache, Heap}
use pg_limiter.Observations.Replay.{
  expire_replay_cache, compact_replay_cache, heappush, heapify_items, tuple_lt,
}

abbrev pub IsLeast : ℕ → Heap → Type 0
IsLeast t heap = All (λ (x : ℕ × ℕ). t ≤ x.0) heap

abbrev pub IsOrdered : Heap → Type 0
IsOrdered [] = Unit
IsOrdered ((t, f) ∷ heap) = IsLeast t heap × IsOrdered heap

abbrev pub IsIndexed : Cache → Heap → Type 0
IsIndexed cache heap = (f t : ℕ) → lookup f cache ≡ some t → contains heap (t, f) ≡ true

-- What `_expire_replay_cache` relies on.
pub record IsReplay (cache : Cache) (heap : Heap) : Type 0 where
  pub distinct : Distinct (keys cache)
  pub ordered : IsOrdered heap
  pub indexed : IsIndexed cache heap

-- A record that is still fresh.
abbrev pub fresh_time : ℕ → ℕ → Option ℕ → Option ℕ
fresh_time now freshness none = none
fresh_time now freshness (some t) = if leb (t + freshness) now then none else some t

IsLeast-contains : (t u f : ℕ) (heap : Heap) → IsLeast t heap → contains heap (u, f) ≡ true → t ≤ u
IsLeast-contains t u f [] h k = cc
IsLeast-contains t u f ((v, g) ∷ heap) h k =
    ground (arith, IsLeast-contains t u f heap, pair_beq_iff (u, f) (v, g))

IsLeast-mono : (t u : ℕ) (heap : Heap) → t ≤ u → IsLeast u heap → IsLeast t heap
IsLeast-mono t u [] h k = tt
IsLeast-mono t u ((v, g) ∷ heap) h k = (omega arith, IsLeast-mono t u heap h k.1)

Distinct-keys-erase :
    (f : ℕ) (cache : Cache) → Distinct (keys cache) → Distinct (keys (erase f cache))
Distinct-keys-erase f [] h = tt
Distinct-keys-erase f ((g, t) ∷ cache) h = ground (
  arith,
  Distinct-keys-erase f cache,
  contains-keys g (erase f cache),
  contains-keys g cache,
  lookup-erase f g cache,
)

length-erase-le : (f : ℕ) (cache : Cache) → length (erase f cache) ≤ length cache
length-erase-le f [] = omega arith
length-erase-le f ((g, t) ∷ cache) = ground (arith, length-erase-le f cache)

-- The head of the heap leaves it, with the record that it stands for.
IsIndexed-pop :
    (u g : ℕ) (heap : Heap) (cache : Cache)
    → IsIndexed cache ((u, g) ∷ heap)
    → IsIndexed (if lookup g cache == some u then erase g cache else cache) heap
IsIndexed-pop u g heap cache h f t k = elim (Bool-cases (lookup g cache == some u)) [
  | inl e ↦ ground (arith, lookup-erase g f cache, h f t, nat_eq.beq_iff f g)
  | inr e ↦
      ground (arith, h f t, option_beq_iff (lookup g cache) (some u), pair_beq_iff (t, f) (u, g))
]

IsReplay-pop :
    (u g : ℕ) (heap : Heap) (cache : Cache)
    → IsReplay cache ((u, g) ∷ heap)
    → IsReplay (if lookup g cache == some u then erase g cache else cache) heap
IsReplay-pop u g heap cache h = record {
  distinct =
      either (λ c. Distinct (keys c)) (lookup g cache == some u)
        (Distinct-keys-erase g cache h.distinct) h.distinct;
  ordered = h.ordered.1;
  indexed = IsIndexed-pop u g heap cache h.indexed;
}

le_trans : {a b c : ℕ} → a ≤ b → b ≤ c → a ≤ c
le_trans p q = omega arith

le_self : (a : ℕ) → a ≤ a
le_self a = omega arith

module _ (now freshness : ℕ) where
  pub expire-IsReplay :
      (heap : Heap) (cache : Cache)
      → IsReplay cache heap
      → let (heap', cache') = expire_replay_cache now freshness heap cache in IsReplay cache' heap'
  unfolding expire_replay_cache
  expire-IsReplay [] cache h = h
  expire-IsReplay ((u, g) ∷ heap) cache h =
      let cache' = if lookup g cache == some u then erase g cache else cache in
      let h' = IsReplay-pop u g heap cache h in
      either (λ (r : Heap × Cache). IsReplay r.1 r.0) (leb (u + freshness) now)
        (expire-IsReplay heap cache' h') h

  pub expire-length :
      (heap : Heap) (cache : Cache)
      → length (expire_replay_cache now freshness heap cache).1 ≤ length cache
  unfolding expire_replay_cache
  expire-length [] cache = omega arith
  expire-length ((u, g) ∷ heap) cache =
      let cache' = if lookup g cache == some u then erase g cache else cache in
      let shrunk : length cache' ≤ length cache =
        either (λ c. length c ≤ length cache) (lookup g cache == some u) {y = cache}
          (length-erase-le g cache) (omega arith) in
      either (λ (r : Heap × Cache). length r.1 ≤ length cache) (leb (u + freshness) now)
        (le_trans (expire-length heap cache') shrunk) (le_self (length cache))

  -- All records of a heap whose least time is fresh are fresh.
  fresh_all :
      (t f : ℕ) (heap : Heap) (cache : Cache) (o : Option ℕ)
      → leb (t + freshness) now ≡ false
      → lookup f cache ≡ o
      → IsIndexed cache heap
      → IsLeast t heap
      → o ≡ fresh_time now freshness o
  fresh_all t f heap cache none e k h least = refl
  fresh_all t f heap cache (some u) e k h least =
      ground (arith, h f u k, IsLeast-contains t u f heap least)

  -- An expired record of the head of the heap is not fresh.
  fresh_pop :
      (u g f : ℕ) (cache : Cache)
      → leb (u + freshness) now ≡ true
      → fresh_time now freshness
          (lookup f (if lookup g cache == some u then erase g cache else cache))
        ≡ fresh_time now freshness (lookup f cache)
  fresh_pop u g f cache e = elim (Bool-cases (lookup g cache == some u)) [
    | inl m ↦ rw m (
        ground (
          arith,
          lookup-erase g f cache,
          option_beq_iff (lookup g cache) (some u),
          nat_eq.beq_iff f g,
        ))
    | inr m ↦ rw m refl
  ]

  unindexed :
      (f : ℕ) (cache : Cache) (o : Option ℕ)
      → lookup f cache ≡ o
      → IsIndexed cache []
      → o ≡ fresh_time now freshness o
  unindexed f cache none k h = refl
  unindexed f cache (some u) k h = cc (h f u k)

  -- Expiry through the heap keeps exactly the fresh records.
  pub lookup-expire :
      (f : ℕ) (heap : Heap) (cache : Cache)
      → IsReplay cache heap
      → lookup f (expire_replay_cache now freshness heap cache).1
        ≡ fresh_time now freshness (lookup f cache)
  unfolding expire_replay_cache
  lookup-expire f [] cache h = unindexed f cache (lookup f cache) refl h.indexed
  lookup-expire f ((u, g) ∷ heap) cache h =
      let cache' = if lookup g cache == some u then erase g cache else cache in
      let h' = IsReplay-pop u g heap cache h in
      elim (Bool-cases (leb (u + freshness) now)) [
        | inl e ↦ rw e (lookup-expire f heap cache' h' ∙ fresh_pop u g f cache e)
        | inr e ↦ rw e (
            fresh_all u f ((u, g) ∷ heap) cache (lookup f cache) e refl h.indexed
              (omega arith, h.ordered.0))
      ]

contains-heappush :
    (x y : ℕ × ℕ) (heap : Heap) → contains (heappush x heap) y ≡ (y == x || contains heap y)
unfolding heappush
contains-heappush x y [] = refl
contains-heappush x y (z ∷ heap) =
    either (λ h. contains h y ≡ (y == x || contains (z ∷ heap) y)) (tuple_lt z x)
      (ground (arith, contains-heappush x y heap)) refl

IsLeast-heappush :
    (t : ℕ) (x : ℕ × ℕ) (heap : Heap) → t ≤ x.0 → IsLeast t heap → IsLeast t (heappush x heap)
unfolding heappush
IsLeast-heappush t x [] h k = (h, tt)
IsLeast-heappush t x (z ∷ heap) h k =
    either (IsLeast t) (tuple_lt z x) (k.0, IsLeast-heappush t x heap h k.1) (h, k)

IsOrdered-heappush : (x : ℕ × ℕ) (heap : Heap) → IsOrdered heap → IsOrdered (heappush x heap)
unfolding heappush
IsOrdered-heappush x [] h = (tt, tt)
IsOrdered-heappush (t, f) ((u, g) ∷ heap) h = elim (Bool-cases (tuple_lt (u, g) (t, f))) [
  | inl e ↦
      rw e (IsLeast-heappush u (t, f) heap (ground arith) h.0, IsOrdered-heappush (t, f) heap h.1)
  | inr e ↦ rw e ((ground arith, IsLeast-mono t u heap (ground arith) h.0), h)
]

-- A rebuilt heap stands for the cache.
heapify-IsReplay : (cache : Cache) → Distinct (keys cache) → IsReplay cache (heapify_items cache)
unfolding heapify_items
heapify-IsReplay cache d = record { distinct = d; ordered = ordered cache; indexed = indexed cache }
  where
    ordered : (cache : Cache) → IsOrdered (heapify_items cache)
    ordered [] = tt
    ordered ((f, t) ∷ cache) = IsOrdered-heappush (t, f) (heapify_items cache) (ordered cache)

    indexed : (cache : Cache) → IsIndexed cache (heapify_items cache)
    indexed [] f t h = cc
    indexed ((g, u) ∷ cache) f t h = ground (
      arith,
      contains-heappush (u, g) (t, f) (heapify_items cache),
      indexed cache f t,
      pair_beq_iff (t, f) (u, g),
      nat_eq.beq_iff f g,
    )

length-heappush : (x : ℕ × ℕ) (heap : Heap) → length (heappush x heap) ≡ suc (length heap)
unfolding heappush
length-heappush x [] = refl
length-heappush x (z ∷ heap) =
    either (λ (h : Heap). length h ≡ suc (length (z ∷ heap))) (tuple_lt z x)
      (ap suc (length-heappush x heap)) refl

length-heapify : (cache : Cache) → length (heapify_items cache) ≡ length cache
unfolding heapify_items
length-heapify [] = refl
length-heapify ((f, t) ∷ cache) =
    length-heappush (t, f) (heapify_items cache) ∙ ap suc (length-heapify cache)

pub compact-IsReplay :
    (heap : Heap) (cache : Cache)
    → IsReplay cache heap
    → IsReplay cache (compact_replay_cache heap cache)
unfolding compact_replay_cache
compact-IsReplay heap cache h =
    either (IsReplay cache) (ltb (2 * length cache) (length heap))
      (heapify-IsReplay cache h.distinct) h

-- A compacted heap has at most two entries for each record.
pub length-compact :
    (heap : Heap) (cache : Cache) → length (compact_replay_cache heap cache) ≤ 2 * length cache
unfolding compact_replay_cache
length-compact heap cache = elim (Bool-cases (ltb (2 * length cache) (length heap))) [
  | inl e ↦ rw e (omega (arith, length-heapify cache))
  | inr e ↦ rw e (ground arith)
]

-- A record joins the cache and the heap.
pub insert-IsReplay :
    (f t : ℕ) (heap : Heap) (cache : Cache)
    → IsReplay cache heap
    → IsReplay (insert f t cache) (heappush (t, f) heap)
insert-IsReplay f t heap cache h = record {
  distinct = Distinct-keys-insert f t cache h.distinct;
  ordered = IsOrdered-heappush (t, f) heap h.ordered;
  indexed = λ g u k. ground (
    arith,
    lookup-insert f g t cache,
    contains-heappush (t, f) (u, g) heap,
    h.indexed g u,
    pair_beq_iff (u, g) (t, f),
    nat_eq.beq_iff g f,
  );
}

-- The oldest record leaves the cache, and its entry may stay in the heap.
pub tail-IsReplay :
    (f t : ℕ) (heap : Heap) (cache : Cache) → IsReplay ((f, t) ∷ cache) heap → IsReplay cache heap
tail-IsReplay f t heap cache h = record {
  distinct = h.distinct.1;
  ordered = h.ordered;
  indexed = λ g u k.
      ground (arith, h.indexed g u, contains-keys g cache, h.distinct.0, nat_eq.beq_iff g f);
}
