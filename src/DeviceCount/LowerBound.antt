-- ===== src/DeviceCount/LowerBound.antt =====
-- The count from partial evidence, `if config.partial_evidence` in `count_devices`
-- (utils/device_count.py, lines 285-289).
use pg_limiter.Prelude.{
  ℕ, ◌+◌, ◌≤◌, max, ◌≡◌, ◌∙◌, sym, refl, inl, inr, Bool, true, false, not, ◌&&◌, ◌||◌, List, [],
  ◌∷◌, arith, ◌==◌, contains, add, any, length, is_empty, Subset, isdisjoint, Bool-cases,
  isdisjoint_empty, is_empty-add, length-le_of_Subset,
}
use pg_limiter.Prelude.Dict.{Dict, is_empty-insert}
use pg_limiter.Types.{ConnectionInfo}
use pg_limiter.DeviceCount.Key.{Key, key_eq, DeviceCountingConfig}
use pg_limiter.DeviceCount.Tally.{
  Tally, empty_tally, is_cdn_node, bucket, record_key, observe_all, isolated, to_int,
}
use pg_limiter.DeviceCount.Members.{
  Included, is_ordinary, is_inbound_bucket, test, observe_all-eq-any, observe_all-Distinct,
  record_key_unique,
}

module _ (key o : Key) (t : Tally) where
  some_unique :
      not (is_empty (record_key key o t).unique_devices)
      ≡ (not (is_empty t.unique_devices) || is_ordinary key)
  unfolding record_key
  some_unique = ground (arith, is_empty-add key t.unique_devices)

  some_direct :
      not (is_empty (record_key key o t).direct_observations)
      ≡ (not (is_empty t.direct_observations) || is_ordinary key)
  unfolding record_key
  some_direct = ground (arith, is_empty-add o t.direct_observations)

  some_cdn_node :
      not (is_empty (record_key key o t).cdn_node_observations)
      ≡ (not (is_empty t.cdn_node_observations) || is_cdn_node key)
  unfolding record_key
  some_cdn_node = ground (arith, is_empty-add o t.cdn_node_observations)

  some_cdn_inbound :
      not (is_empty (record_key key o t).cdn_inbound_observations)
      ≡ (not (is_empty t.cdn_inbound_observations) || is_inbound_bucket key)
  unfolding record_key
  some_cdn_inbound = ground (
    arith,
    is_empty-insert key (add o (bucket key t.cdn_inbound_observations)) t.cdn_inbound_observations,
  )

  some_non_cdn_node :
      not (is_empty (record_key key o t).non_cdn_node_observations)
      ≡ (not (is_empty t.non_cdn_node_observations) || (is_ordinary key || is_inbound_bucket key))
  unfolding record_key
  some_non_cdn_node = ground (arith, is_empty-add o t.non_cdn_node_observations)

eq-nil_of_is_empty : (l : List Key) → is_empty l ≡ true → l ≡ []
eq-nil_of_is_empty [] h = refl
eq-nil_of_is_empty (x ∷ l) h = ground arith

length-pos_of_is_empty : (l : List Key) → is_empty l ≡ false → 1 ≤ length l
length-pos_of_is_empty [] h = ground arith
length-pos_of_is_empty (x ∷ l) h = omega arith

isolated_all : (d : Dict Key (List Key)) → is_empty d ≡ false → 1 ≤ isolated [] d
isolated_all [] h = ground arith
isolated_all ((k, b) ∷ d) h = ground (arith, isdisjoint_empty b)

-- The tally of a whole sample.
module _ (config : DeviceCountingConfig) (trusted : Bool) where
  abbrev pub tally : List ConnectionInfo → Tally
  tally cs = observe_all config trusted cs empty_tally

  abbrev pub full_count : Tally → ℕ
  full_count t =
      length t.unique_devices
      + isolated t.direct_observations t.cdn_inbound_observations
      + to_int (
          not (is_empty t.cdn_node_observations)
          && isdisjoint t.cdn_node_observations t.non_cdn_node_observations)

  module _ (cs : List ConnectionInfo) where
    unique_any :
        not (is_empty (tally cs).unique_devices)
        ≡ any (test config trusted (λ key o. is_ordinary key)) cs
    unique_any =
        observe_all-eq-any config trusted (λ t. not (is_empty t.unique_devices))
          (λ key o. is_ordinary key) some_unique cs empty_tally

    direct_any :
        not (is_empty (tally cs).direct_observations)
        ≡ any (test config trusted (λ key o. is_ordinary key)) cs
    direct_any =
        observe_all-eq-any config trusted (λ t. not (is_empty t.direct_observations))
          (λ key o. is_ordinary key) some_direct cs empty_tally

    cdn_node_any :
        not (is_empty (tally cs).cdn_node_observations)
        ≡ any (test config trusted (λ key o. is_cdn_node key)) cs
    cdn_node_any =
        observe_all-eq-any config trusted (λ t. not (is_empty t.cdn_node_observations))
          (λ key o. is_cdn_node key) some_cdn_node cs empty_tally

    cdn_inbound_any :
        not (is_empty (tally cs).cdn_inbound_observations)
        ≡ any (test config trusted (λ key o. is_inbound_bucket key)) cs
    cdn_inbound_any =
        observe_all-eq-any config trusted (λ t. not (is_empty t.cdn_inbound_observations))
          (λ key o. is_inbound_bucket key) some_cdn_inbound cs empty_tally

    non_cdn_node_any :
        not (is_empty (tally cs).non_cdn_node_observations)
        ≡ any (test config trusted (λ key o. is_ordinary key || is_inbound_bucket key)) cs
    non_cdn_node_any =
        observe_all-eq-any config trusted (λ t. not (is_empty t.non_cdn_node_observations))
          (λ key o. is_ordinary key || is_inbound_bucket key) some_non_cdn_node cs empty_tally

    any-test-or :
        (l : List ConnectionInfo)
        → any (test config trusted (λ key o. is_ordinary key || is_inbound_bucket key)) l ≡ (
            any (test config trusted (λ key o. is_ordinary key)) l
            || any (test config trusted (λ key o. is_inbound_bucket key)) l)
    any-test-or [] = refl
    any-test-or (c ∷ l) = ground (arith, any-test-or l)

    non_cdn_node_empty :
        is_empty (tally cs).unique_devices ≡ true
        → is_empty (tally cs).cdn_inbound_observations ≡ true
        → (tally cs).non_cdn_node_observations ≡ []
    non_cdn_node_empty u d =
        eq-nil_of_is_empty _
          (ground (arith, non_cdn_node_any, any-test-or cs, unique_any, cdn_inbound_any))

    direct_empty : is_empty (tally cs).unique_devices ≡ true → (tally cs).direct_observations ≡ []
    direct_empty u = eq-nil_of_is_empty _ (ground (arith, direct_any, unique_any))

    -- Any evidence of a CDN makes at least one device of a completed sample.
    cdn-full_count :
        (is_empty (tally cs).cdn_node_observations && is_empty (tally cs).cdn_inbound_observations)
          ≡ false
        → 1 ≤ full_count (tally cs)
    cdn-full_count h = elim (Bool-cases (is_empty (tally cs).unique_devices)) [
      | inr busy ↦ omega (arith, length-pos_of_is_empty _ busy)
      | inl quiet ↦ elim (Bool-cases (is_empty (tally cs).cdn_inbound_observations)) [
        | inr buckets ↦ rw (direct_empty quiet) (omega (arith, isolated_all _ buckets))
        | inl no_buckets ↦
            rw (non_cdn_node_empty quiet no_buckets)
              (ground (arith, isdisjoint_empty (tally cs).cdn_node_observations))
      ]
    ]

  module _ (cs ds : List ConnectionInfo) (within : Included cs ds) where
    unique-Subset : Subset (tally cs).unique_devices (tally ds).unique_devices
    unique-Subset k h =
        let q : Key → Key → Bool = λ key o. key == k && is_ordinary k in
        let found : (l : List ConnectionInfo)
            → contains (tally l).unique_devices k ≡ any (test config trusted q) l =
          λ l.
            observe_all-eq-any config trusted (λ t. contains t.unique_devices k) q
              (λ key o t. record_key_unique key o t k) l empty_tally in
        found ds ∙ within (test config trusted q) (sym (found cs) ∙ h)

    cdn_evidence :
        (is_empty (tally cs).cdn_node_observations && is_empty (tally cs).cdn_inbound_observations)
          ≡ false
        → (is_empty (tally ds).cdn_node_observations
            && is_empty (tally ds).cdn_inbound_observations)
          ≡ false
    cdn_evidence h = ground (
      arith,
      cdn_node_any cs,
      cdn_node_any ds,
      cdn_inbound_any cs,
      cdn_inbound_any ds,
      within (test config trusted (λ key o. is_cdn_node key)),
      within (test config trusted (λ key o. is_inbound_bucket key)),
    )

    pub lower_bound :
        max (length (tally cs).unique_devices) (
          to_int (
            not (
              is_empty (tally cs).cdn_node_observations
              && is_empty (tally cs).cdn_inbound_observations)))
        ≤ full_count (tally ds)
    lower_bound = ground (
      arith,
      length-le_of_Subset (tally cs).unique_devices (tally ds).unique_devices
          (observe_all-Distinct config trusted cs empty_tally tt tt).0 unique-Subset,
      cdn_evidence,
      cdn-full_count ds,
    )
