-- ===== src/DeviceCount/Members.antt =====
-- What the loop of `count_devices` leaves in each of its collections: a connection puts an element
-- into one of them by a test of that connection alone.
use pg_limiter.Prelude.{
  ◌≡◌, ◌∙◌, inl, inr, Bool, true, false, not, ◌&&◌, ◌||◌, none, some, List, [], ◌∷◌, arith, ◌==◌,
  option_eq, contains, add, any, Distinct, Option-cases, contains-add, Distinct-add,
}
use pg_limiter.Prelude.Dict.{has_key, keys, lookup-insert, Distinct-keys-insert}
use pg_limiter.Types.{ConnectionInfo}
use pg_limiter.DeviceCount.Key.{Key, key_eq, key_beq_iff, DeviceCountingConfig, device_key}
use pg_limiter.DeviceCount.Tally.{
  Tally, is_cdn_inbound, is_cdn_node, bucket, observation_of, record_key, observe, observe_all,
}

-- A key that names no CDN group.
abbrev pub is_ordinary : Key → Bool
is_ordinary key = not (is_cdn_node key || is_cdn_inbound key)

abbrev pub is_inbound_bucket : Key → Bool
is_inbound_bucket key = is_cdn_inbound key && not (is_cdn_node key)

-- One turn of the loop, for a connection with a key.
module _ (key o : Key) (t : Tally) (k : Key) where
  pub record_key_unique :
      contains (record_key key o t).unique_devices k
      ≡ (contains t.unique_devices k || (key == k && is_ordinary k))
  unfolding record_key
  record_key_unique =
      ground (arith, contains-add key k t.unique_devices, key_beq_iff k key, key_beq_iff key k)

  pub record_key-direct :
      contains (record_key key o t).direct_observations k
      ≡ (contains t.direct_observations k || (is_ordinary key && o == k))
  unfolding record_key
  record_key-direct =
      ground (arith, contains-add o k t.direct_observations, key_beq_iff k o, key_beq_iff o k)

  pub record_key-non_cdn_node :
      contains (record_key key o t).non_cdn_node_observations k
      ≡ (contains t.non_cdn_node_observations k || (not (is_cdn_node key) && o == k))
  unfolding record_key
  record_key-non_cdn_node =
      ground (arith, contains-add o k t.non_cdn_node_observations, key_beq_iff k o, key_beq_iff o k)

  pub record_key-cdn_node :
      contains (record_key key o t).cdn_node_observations k
      ≡ (contains t.cdn_node_observations k || (is_cdn_node key && o == k))
  unfolding record_key
  record_key-cdn_node =
      ground (arith, contains-add o k t.cdn_node_observations, key_beq_iff k o, key_beq_iff o k)

  pub record_key-has_bucket :
      has_key k (record_key key o t).cdn_inbound_observations
      ≡ (has_key k t.cdn_inbound_observations || (key == k && is_inbound_bucket key))
  unfolding record_key
  record_key-has_bucket = ground (
    arith,
    lookup-insert key k (add o (bucket key t.cdn_inbound_observations)) t.cdn_inbound_observations,
    key_beq_iff k key,
    key_beq_iff key k,
  )

  pub record_key-bucket :
      (x : Key)
      → contains (bucket k (record_key key o t).cdn_inbound_observations) x ≡ (
          contains (bucket k t.cdn_inbound_observations) x
          || (key == k && is_inbound_bucket key && o == x))
  unfolding record_key
  record_key-bucket x = ground (
    arith,
    lookup-insert key k (add o (bucket key t.cdn_inbound_observations)) t.cdn_inbound_observations,
    contains-add o x (bucket key t.cdn_inbound_observations),
    key_beq_iff k key,
    key_beq_iff key k,
    key_beq_iff x o,
    key_beq_iff o x,
  )

record_key-Distinct :
    (key o : Key) (t : Tally)
    → Distinct t.unique_devices
    → Distinct (keys t.cdn_inbound_observations)
    → Distinct (record_key key o t).unique_devices
      × Distinct (keys (record_key key o t).cdn_inbound_observations)
unfolding record_key
record_key-Distinct key o t u d = ground (
  arith,
  Distinct-add key t.unique_devices u,
  Distinct-keys-insert key (add o (bucket key t.cdn_inbound_observations))
      t.cdn_inbound_observations d,
)

-- Every connection that passes the test passes it in the other sample too.
abbrev pub Included : List ConnectionInfo → List ConnectionInfo → Type 0
Included cs ds = (p : ConnectionInfo → Bool) → any p cs ≡ true → any p ds ≡ true

module _ (config : DeviceCountingConfig) (trusted : Bool) where
  -- A test of the key of a connection and of its observation.
  abbrev pub test : (Key → Key → Bool) → ConnectionInfo → Bool
  test q c = elim (device_key c config trusted) [
    | none ↦ false
    | some key ↦ q key (observation_of c config)
  ]

  -- What one turn adds by a test, the whole loop adds by that test of some connection.
  pub observe_all-eq-any :
      (m : Tally → Bool) (q : Key → Key → Bool)
      → ((key o : Key) (t : Tally) → m (record_key key o t) ≡ (m t || q key o))
      → (cs : List ConnectionInfo) (t : Tally)
      → m (observe_all config trusted cs t) ≡ (m t || any (test q) cs)
  unfolding observe_all
  observe_all-eq-any m q step [] t = ground arith
  observe_all-eq-any m q step (c ∷ cs) t =
      observe_all-eq-any m q step cs (observe config trusted c t) ∙ turn
    where
      turn : (m (observe config trusted c t) || any (test q) cs) ≡ (m t || any (test q) (c ∷ cs))
      turn = elim (Option-cases (device_key c config trusted)) [
        | inl e ↦ unfold observe in ground arith
        | inr (key, e) ↦ unfold observe in ground (arith, step key (observation_of c config) t)
      ]

  observe-Distinct :
      (c : ConnectionInfo) (t : Tally)
      → Distinct t.unique_devices
      → Distinct (keys t.cdn_inbound_observations)
      → Distinct (observe config trusted c t).unique_devices
        × Distinct (keys (observe config trusted c t).cdn_inbound_observations)
  unfolding observe
  observe-Distinct c t u d = elim (Option-cases (device_key c config trusted)) [
    | inl e ↦ rw (e, observe) (u, d)
    | inr (key, e) ↦ rw (e, observe) (record_key-Distinct key (observation_of c config) t u d)
  ]

  -- The sets hold no element twice.
  pub observe_all-Distinct :
      (cs : List ConnectionInfo) (t : Tally)
      → Distinct t.unique_devices
      → Distinct (keys t.cdn_inbound_observations)
      → Distinct (observe_all config trusted cs t).unique_devices
        × Distinct (keys (observe_all config trusted cs t).cdn_inbound_observations)
  unfolding observe_all
  observe_all-Distinct [] t u d = (u, d)
  observe_all-Distinct (c ∷ cs) t u d =
      let kept = observe-Distinct c t u d in
      observe_all-Distinct cs (observe config trusted c t) kept.0 kept.1
