-- ===== src/DeviceCount/Bound.antt =====
-- The size of the count of utils/device_count.py, and the connections that it ignores.
use pg_limiter.Prelude.{
  ℕ, ap, sym, ◌∙◌, refl, Bool-cases, ◌+◌, ◌≤◌, ◌≡◌, ◌≢◌, inl, inr, Bool, true, false, not, ◌&&◌,
  ◌==◌, none, some, List, [], ◌∷◌, arith, string_eq, nat_eq, add, any, contains, isdisjoint, length,
  is_empty, keep, Option-cases, if◌then◌else◌,
}
use pg_limiter.Prelude.Int.{ℤ}
use pg_limiter.Prelude.Dict.{Dict, insert}
use pg_limiter.Types.{ConnectionInfo, UserType}
use pg_limiter.DeviceCount.Key.{
  Key, key_eq, key_beq_iff, DeviceCountingConfig, device_key, in_nodes,
}
use pg_limiter.DeviceCount.Tally.{
  Tally, empty_tally, record_key, observation_of, observe, observe_all, connections_of, count_of,
  count_devices, isolated, to_int, bucket, is_cdn_node, is_cdn_inbound,
}
use pg_limiter.DeviceCount.Members.{
  is_ordinary, test, observe_all-eq-any, record_key-direct, record_key-non_cdn_node,
}
use pg_limiter.DeviceCount.LowerBound.{tally, full_count}
use pg_limiter.DeviceCount.Sample.{
  count_devices-tally, count_devices-partial-le, complete, observe_all-partial, trusts,
}

length-add-le : (k : Key) (ks : List Key) → length (add k ks) ≤ length ks + 1
length-add-le k ks = ground arith

isdisjoint-out :
    (o : Key) (b direct : List Key)
    → isdisjoint b direct ≡ true
    → contains b o ≡ true
    → contains direct o ≡ false
isdisjoint-out o [] direct h k = cc
isdisjoint-out o (x ∷ b) direct h k = ground (arith, isdisjoint-out o b direct, key_beq_iff o x)

-- An observation that was seen directly makes no bucket an isolated one.
isdisjoint-add :
    (o : Key) (b direct : List Key)
    → isdisjoint (add o b) direct ≡ (not (contains direct o) && isdisjoint b direct)
isdisjoint-add o b direct = ground (arith, isdisjoint-out o b direct)

isolated-insert-le :
    (direct : List Key) (k o : Key) (d : Dict Key (List Key))
    → isolated direct (insert k (add o (bucket k d)) d)
      ≤ isolated direct d + to_int (not (contains direct o))
isolated-insert-le direct k o [] = ground arith
isolated-insert-le direct k o ((j, b) ∷ d) =
    ground (arith, isolated-insert-le direct k o d, isdisjoint-add o b direct)

length-keep_congr :
    (p q : ConnectionInfo → Bool) (cs : List ConnectionInfo)
    → ((c : ConnectionInfo) → p c ≡ q c)
    → length (keep p cs) ≡ length (keep q cs)
length-keep_congr p q [] h = refl
length-keep_congr p q (c ∷ cs) h = ground (arith, h c, length-keep_congr p q cs)

-- Where `direct` was seen directly and `elsewhere` off the CDN nodes: the devices of a tally.
abbrev devices : List Key → List Key → Tally → ℕ
devices direct elsewhere t =
    length t.unique_devices
    + isolated direct t.cdn_inbound_observations
    + to_int
        (not (is_empty t.cdn_node_observations) && isdisjoint t.cdn_node_observations elsewhere)

abbrev adds_by : List Key → List Key → Key → Key → Bool
adds_by direct elsewhere key o =
    if is_cdn_node key
    then not (contains elsewhere o)
    else if is_cdn_inbound key
    then not (contains direct o)
    else true

devices-record_key :
    (direct elsewhere : List Key) (key o : Key) (t : Tally)
    → devices direct elsewhere (record_key key o t)
      ≤ devices direct elsewhere t + to_int (adds_by direct elsewhere key o)
unfolding record_key
devices-record_key direct elsewhere key o t = ground (
  arith,
  length-add-le key t.unique_devices,
  isolated-insert-le direct key o t.cdn_inbound_observations,
  isdisjoint-add o t.cdn_node_observations elsewhere,
)

module _ (config : DeviceCountingConfig) (trusted : Bool) where
  devices-observe :
      (direct elsewhere : List Key) (c : ConnectionInfo) (t : Tally)
      → devices direct elsewhere (observe config trusted c t)
        ≤ devices direct elsewhere t + to_int (test config trusted (adds_by direct elsewhere) c)
  unfolding observe
  devices-observe direct elsewhere c t = elim (Option-cases (device_key c config trusted)) [
    | inl e ↦ rw (e, observe) (omega arith)
    | inr (key, e) ↦
        let added : test config trusted (adds_by direct elsewhere) c
            ≡ adds_by direct elsewhere key (observation_of c config) =
          rw (e, test) refl in
        rw (e, observe, added) (devices-record_key direct elsewhere key (observation_of c config) t)
  ]

  devices-observe_all :
      (direct elsewhere : List Key) (cs : List ConnectionInfo) (t : Tally)
      → devices direct elsewhere (observe_all config trusted cs t)
        ≤ devices direct elsewhere t
          + length (keep (test config trusted (adds_by direct elsewhere)) cs)
  unfolding observe_all
  devices-observe_all direct elsewhere [] t = omega arith
  devices-observe_all direct elsewhere (c ∷ cs) t = ground (
    arith,
    devices-observe direct elsewhere c t,
    devices-observe_all direct elsewhere cs (observe config trusted c t),
  )

  -- Some connection of the sample with this observation has an ordinary key, or one of no CDN node.
  abbrev pub seen_direct : List ConnectionInfo → Key → Bool
  seen_direct cs o = any (test config trusted (λ key x. is_ordinary key && x == o)) cs

  abbrev pub seen_elsewhere : List ConnectionInfo → Key → Bool
  seen_elsewhere cs o = any (test config trusted (λ key x. not (is_cdn_node key) && x == o)) cs

  -- A connection that can make a device: on an enabled node, and behind a CDN only with an observation
  -- that no connection of the sample makes past that CDN.
  abbrev pub adds_device : List ConnectionInfo → ConnectionInfo → Bool
  adds_device cs c = elim (device_key c config trusted) [
    | none ↦ false
    | some key ↦
        if is_cdn_node key
        then not (seen_elsewhere cs (observation_of c config))
        else if is_cdn_inbound key
        then not (seen_direct cs (observation_of c config))
        else true
  ]

  module _ (cs : List ConnectionInfo) where
    direct-seen :
        (o : Key) → contains (tally config trusted cs).direct_observations o ≡ seen_direct cs o
    direct-seen o =
        observe_all-eq-any config trusted (λ t. contains t.direct_observations o)
          (λ key x. is_ordinary key && x == o) (λ key x t. record_key-direct key x t o) cs
          empty_tally

    elsewhere-seen :
        (o : Key)
        → contains (tally config trusted cs).non_cdn_node_observations o ≡ seen_elsewhere cs o
    elsewhere-seen o =
        observe_all-eq-any config trusted (λ t. contains t.non_cdn_node_observations o)
          (λ key x. not (is_cdn_node key) && x == o) (λ key x t. record_key-non_cdn_node key x t o)
          cs empty_tally

    adds-device :
        (c : ConnectionInfo)
        → test config trusted
            (adds_by
              (tally config trusted cs).direct_observations
              (tally config trusted cs).non_cdn_node_observations)
            c
          ≡ adds_device cs c
    adds-device c = elim (Option-cases (device_key c config trusted)) [
      | inl e ↦ rw (e, test, adds_device) refl
      | inr (key, e) ↦
          let o = observation_of c config in
          rw (e, test, adds_device, direct-seen o, elsewhere-seen o) refl
    ]

    pub full_count-le :
        full_count config trusted (tally config trusted cs) ≤ length (keep (adds_device cs) cs)
    full_count-le =
        let t = tally config trusted cs in
        omega (
          arith,
          devices-observe_all t.direct_observations t.non_cdn_node_observations cs empty_tally,
          length-keep_congr
              (test config trusted (adds_by t.direct_observations t.non_cdn_node_observations))
              (adds_device cs) cs adds-device,
        )

complete_count-le :
    (config : DeviceCountingConfig) (u : UserType) (trust : ℤ) (fallback : ℕ)
    → connections_of (some u) ≢ []
    → let cs = connections_of (some u) in
      count_devices (some u) (some (complete config)) trust fallback
      ≤ length (keep (adds_device config (trusts config trust) cs) cs)
unfolding count_of
complete_count-le config u trust fallback ne =
    rw
      (
        count_devices-tally (complete config) u trust fallback ne,
        observe_all-partial config false (trusts config trust) (connections_of (some u))
            empty_tally,
      )
      (full_count-le config (trusts config trust) (connections_of (some u)))

-- A user with some connection is never counted as more devices than there are connections that can make
-- a device, from a completed sample or from partial evidence, in every counting mode. A connection
-- cannot make one if device_key gives it no key (its node is disabled, for one), if it stands behind a
-- CDN inbound and a direct connection of the sample has its observation (the address, and outside of the
-- ip mode the protocol), or if it stands on a CDN node and a connection off the CDN nodes has it.
pub count_devices-le :
    (config : DeviceCountingConfig) (partly : Bool) (u : UserType) (trust : ℤ) (fallback : ℕ)
    → connections_of (some u) ≢ []
    → let cs = connections_of (some u) in
      count_devices (some u) (some (record config { partial_evidence = partly })) trust fallback
      ≤ length (keep (adds_device config (trusts config trust) cs) cs)
count_devices-le config false u trust fallback ne = complete_count-le config u trust fallback ne
count_devices-le config true u trust fallback ne = omega (
  arith,
  count_devices-partial-le config u u trust fallback fallback ne (λ p h. h),
  complete_count-le config u trust fallback ne,
)

-- The connections that stand on no disabled node.
abbrev pub enabled : DeviceCountingConfig → List ConnectionInfo → List ConnectionInfo
enabled config = keep (λ c. not (in_nodes c.node_id config.disabled_nodes))

device_key-disabled :
    (config : DeviceCountingConfig) (trusted : Bool) (c : ConnectionInfo)
    → in_nodes c.node_id config.disabled_nodes ≡ true
    → device_key c config trusted ≡ none
unfolding device_key
device_key-disabled config trusted c h = ground arith

observe-disabled :
    (config : DeviceCountingConfig) (trusted : Bool) (c : ConnectionInfo) (t : Tally)
    → in_nodes c.node_id config.disabled_nodes ≡ true
    → observe config trusted c t ≡ t
unfolding observe
observe-disabled config trusted c t h = rw (device_key-disabled config trusted c h, observe)

-- Connections on disabled nodes leave no trace in any collection of the loop: what is counted is
-- what the sample without them gives, in every counting mode.
pub observe_all-enabled :
    (config : DeviceCountingConfig) (trusted : Bool) (cs : List ConnectionInfo) (t : Tally)
    → observe_all config trusted (enabled config cs) t ≡ observe_all config trusted cs t
unfolding observe_all
observe_all-enabled config trusted [] t = refl
observe_all-enabled config trusted (c ∷ cs) t =
    elim (Bool-cases (in_nodes c.node_id config.disabled_nodes)) [
      | inl off ↦ rw off (
          observe_all-enabled config trusted cs t
          ∙ ap (observe_all config trusted cs) (sym (observe-disabled config trusted c t off)))
      | inr on ↦ rw on (observe_all-enabled config trusted cs (observe config trusted c t))
    ]
