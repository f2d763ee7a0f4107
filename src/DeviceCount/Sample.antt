-- ===== src/DeviceCount/Sample.antt =====
-- `count_devices` of utils/device_count.py as a function of the sample: which connections a user
-- has, not in which order or how often they were seen, and how a part of a sample compares with
-- the whole.
use pg_limiter.Prelude.{
  ℕ, ◌≤◌, ◌≡◌, ◌≢◌, ◌∙◌, sym, ap, ap₂, refl, Bool, true, false, not, ◌&&◌, ◌||◌, some, List, [],
  ◌∷◌, arith, ◌==◌, contains, length, Distinct, isdisjoint, isdisjoint_congr, is_empty_congr,
  length-eq_of_Subset, if◌then◌else◌,
}
use pg_limiter.Prelude.Int.{ℤ, leb_ℤ}
use pg_limiter.Prelude.Dict.{Dict, has_key, keys, contains-keys}
use pg_limiter.Types.{ConnectionInfo, UserType}
use pg_limiter.DeviceCount.Key.{Key, key_eq, key_beq_iff, DeviceCountingConfig, device_key}
use pg_limiter.DeviceCount.Tally.{
  Tally, empty_tally, record_key, observation_of, observe, observe_all, connections_of, count_of,
  count_devices, isolated, bucket, is_cdn_node,
}
use pg_limiter.DeviceCount.Members.{
  Included, is_ordinary, is_inbound_bucket, test, observe_all-eq-any, observe_all-Distinct,
  record_key_unique, record_key-direct, record_key-non_cdn_node, record_key-cdn_node,
  record_key-has_bucket, record_key-bucket,
}
use pg_limiter.DeviceCount.LowerBound.{tally, full_count, lower_bound}

abbrev pub complete : DeviceCountingConfig → DeviceCountingConfig
complete config = record config { partial_evidence = false }

abbrev pub partial : DeviceCountingConfig → DeviceCountingConfig
partial config = record config { partial_evidence = true }

module _ (config : DeviceCountingConfig) (b : Bool) (trusted : Bool) where
  device_key-partial :
      (c : ConnectionInfo)
      → device_key c (record config { partial_evidence = b }) trusted ≡ device_key c config trusted
  unfolding device_key
  device_key-partial c = refl

  observe-partial :
      (c : ConnectionInfo) (t : Tally)
      → observe (record config { partial_evidence = b }) trusted c t ≡ observe config trusted c t
  unfolding observe observation_of
  observe-partial c t = rw (device_key-partial c, observe)

  pub observe_all-partial :
      (cs : List ConnectionInfo) (t : Tally)
      → observe_all (record config { partial_evidence = b }) trusted cs t
        ≡ observe_all config trusted cs t
  unfolding observe_all
  observe_all-partial [] t = refl
  observe_all-partial (c ∷ cs) t =
      observe_all-partial cs (observe (record config { partial_evidence = b }) trusted c t)
      ∙ ap (observe_all config trusted cs) (observe-partial c t)

-- Whether High Trust grouping is active.
abbrev pub trusts : DeviceCountingConfig → ℤ → Bool
trusts config trust = config.high_trust_ip_grouping && leb_ℤ config.high_trust_threshold trust

-- With any connection at hand the fallback is not read.
pub count_devices-tally :
    (config : DeviceCountingConfig) (u : UserType) (trust : ℤ) (fallback : ℕ)
    → connections_of (some u) ≢ []
    → count_devices (some u) (some config) trust fallback
      ≡ count_of config (tally config (trusts config trust) (connections_of (some u)))
unfolding count_devices
count_devices-tally config u trust fallback h = go (connections_of (some u)) refl
  where
    go :
        (l : List ConnectionInfo)
        → connections_of (some u) ≡ l
        → count_devices (some u) (some config) trust fallback
          ≡ count_of config (tally config (trusts config trust) (connections_of (some u)))
    go [] e = absurd (h e)
    go (c ∷ l) e = rw (e, count_devices)

-- A sample with the connections of another one, and maybe more, has some connection too.
Included-ne-nil : (cs ds : List ConnectionInfo) → Included cs ds → cs ≢ [] → ds ≢ []
Included-ne-nil [] ds h n = absurd (n refl)
Included-ne-nil (c ∷ cs) [] h n = absurd (ground (arith, h (λ _. true)))
Included-ne-nil (c ∷ cs) (d ∷ ds) h n = λ e. cc e

-- The count from partial evidence is a lower bound: it is at most the count of every completed
-- sample that has the connections of the partial one, in every counting mode and whatever the CDN,
-- subnet and High Trust settings, the same in both.
pub count_devices-partial-le :
    (config : DeviceCountingConfig) (u v : UserType) (trust : ℤ) (f g : ℕ)
    → connections_of (some u) ≢ []
    → Included (connections_of (some u)) (connections_of (some v))
    → count_devices (some u) (some (partial config)) trust f
      ≤ count_devices (some v) (some (complete config)) trust g
unfolding count_of
count_devices-partial-le config u v trust f g ne within =
    rw
      (
        count_devices-tally (partial config) u trust f ne,
        count_devices-tally (complete config) v trust g (Included-ne-nil _ _ within ne),
        observe_all-partial config true (trusts config trust) (connections_of (some u)) empty_tally,
        observe_all-partial config false (trusts config trust) (connections_of (some v))
            empty_tally,
      )
      (lower_bound config (trusts config trust) (connections_of (some u)) (connections_of (some v))
        within)

-- The buckets that share no observation with `direct`, by their keys.
abbrev isolated_keys : List Key → Dict Key (List Key) → List Key
isolated_keys direct [] = []
isolated_keys direct ((k, b) ∷ d) =
    let rest = isolated_keys direct d in if isdisjoint b direct then k ∷ rest else rest

length-isolated_keys :
    (direct : List Key) (d : Dict Key (List Key))
    → length (isolated_keys direct d) ≡ isolated direct d
length-isolated_keys direct [] = refl
length-isolated_keys direct ((k, b) ∷ d) = ground (arith, length-isolated_keys direct d)

contains-isolated_keys :
    (direct : List Key) (d : Dict Key (List Key)) (k : Key)
    → Distinct (keys d)
    → contains (isolated_keys direct d) k ≡ (has_key k d && isdisjoint (bucket k d) direct)
contains-isolated_keys direct [] k h = refl
contains-isolated_keys direct ((j, b) ∷ d) k h = ground (
  arith,
  contains-isolated_keys direct d k,
  contains-keys j d,
  contains-keys k d,
  key_beq_iff k j,
)

Distinct-isolated_keys :
    (direct : List Key) (d : Dict Key (List Key))
    → Distinct (keys d)
    → Distinct (isolated_keys direct d)
Distinct-isolated_keys direct [] h = tt
Distinct-isolated_keys direct ((j, b) ∷ d) h =
    ground
      (arith, Distinct-isolated_keys direct d, contains-isolated_keys direct d j, contains-keys j d)

module _ (config : DeviceCountingConfig) (trusted : Bool) (cs ds : List ConnectionInfo)
    (there : Included cs ds) (back : Included ds cs) where
  abbrev T : Tally
  T = tally config trusted cs

  abbrev U : Tally
  U = tally config trusted ds

  -- A membership that the loop builds up is the same in both tallies.
  same_observable :
      (m : Tally → Bool) (q : Key → Key → Bool)
      → ((key o : Key) (t : Tally) → m (record_key key o t) ≡ (m t || q key o))
      → m T ≡ m U
  same_observable m q step = ground (
    arith,
    observe_all-eq-any config trusted m q step cs empty_tally,
    observe_all-eq-any config trusted m q step ds empty_tally,
    there (test config trusted q),
    back (test config trusted q),
  )

  same_direct : (k : Key) → contains T.direct_observations k ≡ contains U.direct_observations k
  same_direct k =
      same_observable (λ t. contains t.direct_observations k) (λ key o. is_ordinary key && o == k)
        (λ key o t. record_key-direct key o t k)

  same_unique : (k : Key) → contains T.unique_devices k ≡ contains U.unique_devices k
  same_unique k =
      same_observable (λ t. contains t.unique_devices k) (λ key o. key == k && is_ordinary k)
        (λ key o t. record_key_unique key o t k)

  same_isolated_keys :
      (k : Key)
      → contains (isolated_keys T.direct_observations T.cdn_inbound_observations) k
        ≡ contains (isolated_keys U.direct_observations U.cdn_inbound_observations) k
  same_isolated_keys k =
      contains-isolated_keys T.direct_observations T.cdn_inbound_observations k
        (observe_all-Distinct config trusted cs empty_tally tt tt).1
      ∙ ap₂ ◌&&◌
          (same_observable (λ t. has_key k t.cdn_inbound_observations)
            (λ key o. key == k && is_inbound_bucket key)
            (λ key o t. record_key-has_bucket key o t k))
          (isdisjoint_congr _ _ _ _
            (λ x.
              same_observable (λ t. contains (bucket k t.cdn_inbound_observations) x)
                (λ key o. key == k && is_inbound_bucket key && o == x)
                (λ key o t. record_key-bucket key o t k x))
            same_direct)
      ∙ sym (
          contains-isolated_keys U.direct_observations U.cdn_inbound_observations k
            (observe_all-Distinct config trusted ds empty_tally tt tt).1)

  same_isolated :
      isolated T.direct_observations T.cdn_inbound_observations
      ≡ isolated U.direct_observations U.cdn_inbound_observations
  same_isolated =
      sym (length-isolated_keys T.direct_observations T.cdn_inbound_observations)
      ∙ length-eq_of_Subset _ _
          (Distinct-isolated_keys T.direct_observations T.cdn_inbound_observations
            (observe_all-Distinct config trusted cs empty_tally tt tt).1)
          (Distinct-isolated_keys U.direct_observations U.cdn_inbound_observations
            (observe_all-Distinct config trusted ds empty_tally tt tt).1)
          (λ k h. sym (same_isolated_keys k) ∙ h) (λ k h. same_isolated_keys k ∙ h)
      ∙ length-isolated_keys U.direct_observations U.cdn_inbound_observations

  same_unique_length : length T.unique_devices ≡ length U.unique_devices
  same_unique_length =
      length-eq_of_Subset _ _ (observe_all-Distinct config trusted cs empty_tally tt tt).0
        (observe_all-Distinct config trusted ds empty_tally tt tt).0
        (λ k h. sym (same_unique k) ∙ h) (λ k h. same_unique k ∙ h)

  same_cdn_node :
      (k : Key) → contains T.cdn_node_observations k ≡ contains U.cdn_node_observations k
  same_cdn_node k =
      same_observable (λ t. contains t.cdn_node_observations k) (λ key o. is_cdn_node key && o == k)
        (λ key o t. record_key-cdn_node key o t k)

  same_non_cdn_node :
      (k : Key) → contains T.non_cdn_node_observations k ≡ contains U.non_cdn_node_observations k
  same_non_cdn_node k =
      same_observable (λ t. contains t.non_cdn_node_observations k)
        (λ key o. not (is_cdn_node key) && o == k) (λ key o t. record_key-non_cdn_node key o t k)

  same_full_count : full_count config trusted T ≡ full_count config trusted U
  same_full_count = ground (
    arith,
    same_unique_length,
    same_isolated,
    is_empty_congr T.cdn_node_observations U.cdn_node_observations same_cdn_node,
    isdisjoint_congr T.cdn_node_observations U.cdn_node_observations T.non_cdn_node_observations
        U.non_cdn_node_observations same_cdn_node same_non_cdn_node,
  )

-- The number of devices depends only on which connections the user has: two users, one of whose
-- lists is a reordering of the other's or repeats some of its connections, have the same count in
-- every counting mode, from completed samples.
pub count_devices-same :
    (config : DeviceCountingConfig) (u v : UserType) (trust : ℤ) (f g : ℕ)
    → connections_of (some u) ≢ []
    → Included (connections_of (some u)) (connections_of (some v))
    → Included (connections_of (some v)) (connections_of (some u))
    → count_devices (some u) (some (complete config)) trust f
      ≡ count_devices (some v) (some (complete config)) trust g
unfolding count_of
count_devices-same config u v trust f g ne there back =
    rw
      (
        count_devices-tally (complete config) u trust f ne,
        count_devices-tally (complete config) v trust g (Included-ne-nil _ _ there ne),
        observe_all-partial config false (trusts config trust) (connections_of (some u))
            empty_tally,
        observe_all-partial config false (trusts config trust) (connections_of (some v))
            empty_tally,
      )
      (same_full_count config (trusts config trust) (connections_of (some u))
        (connections_of (some v)) there back)
