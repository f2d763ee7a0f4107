-- ===== src/DeviceCount/Addresses.antt =====
-- The fallback of utils/device_count.py that counts bare addresses, against the full count.
use pg_limiter.Prelude.{
  ℕ, String, ◌≡◌, ◌≢◌, ◌∙◌, ap, refl, inl, inr, Bool, false, ◌||◌, some, List, [], ◌∷◌, arith, ◌==◌,
  add, length, All, map, string_eq, if◌then◌else◌, Option-cases, Bool-cases,
}
use pg_limiter.Prelude.Int.{ℤ}
use pg_limiter.Types.{ConnectionInfo, UserType}
use pg_limiter.DeviceCount.Key.{
  Key, key_eq, tuple, text, DeviceCountingConfig, device_key, subnet_parts,
}
use pg_limiter.DeviceCount.Tally.{
  Tally, empty_tally, record_key, observation_of, observe, observe_all, connections_of, count_of,
  count_devices, count_devices_from_ips, ip_keys, is_cdn_node, is_cdn_inbound,
}
use pg_limiter.DeviceCount.Sample.{count_devices-tally, trusts}

-- "ip" mode with no CDN and no disabled node; the other rules stay.
abbrev pub plain_ip : DeviceCountingConfig → DeviceCountingConfig
plain_ip config = record config {
  cdn_inbounds = [];
  cdn_nodes = [];
  disabled_nodes = [];
  count_mode = "ip";
  partial_evidence = false;
}

abbrev address_key : DeviceCountingConfig → String → Key
address_key config ip =
    if config.subnet_ip_grouping then subnet_parts ip else tuple (text "IP_ONLY" ∷ text ip ∷ [])

device_key-plain_ip :
    (config : DeviceCountingConfig) (trusted : Bool) (c : ConnectionInfo)
    → device_key c (plain_ip config) trusted ≡ some (address_key config c.ip)
unfolding device_key
device_key-plain_ip config trusted c = elim (Option-cases c.node_id) [
  | inl e ↦ ground arith
  | inr (n, e) ↦ ground arith
]

address_key-ordinary :
    (config : DeviceCountingConfig) (ip : String)
    → (is_cdn_node (address_key config ip) || is_cdn_inbound (address_key config ip)) ≡ false
unfolding is_cdn_node is_cdn_inbound subnet_parts
address_key-ordinary config ip = elim (Bool-cases config.subnet_ip_grouping) [
  | inl e ↦ rw e
  | inr e ↦ rw e
]

-- In this mode the loop only adds the key of each address.
record_key-ordinary :
    (key o : Key) (t : Tally)
    → (is_cdn_node key || is_cdn_inbound key) ≡ false
    → (record_key key o t).unique_devices ≡ add key t.unique_devices
unfolding record_key
record_key-ordinary key o t h = ground arith

record_key-no_cdn :
    (key o : Key) (t : Tally)
    → (is_cdn_node key || is_cdn_inbound key) ≡ false
    → t.cdn_node_observations ≡ []
    → t.cdn_inbound_observations ≡ []
    → ((record_key key o t).cdn_node_observations ≡ [])
      × ((record_key key o t).cdn_inbound_observations ≡ [])
unfolding record_key
record_key-no_cdn key o t h p q = ground arith

add-address_key :
    (config : DeviceCountingConfig) (ip : String) (ks : List Key)
    → (ip == "") ≡ false
    → add (address_key config ip) ks ≡ (
        if ip == ""
        then ks
        else if config.subnet_ip_grouping
        then add (subnet_parts ip) ks
        else add (tuple (text "IP_ONLY" ∷ text ip ∷ [])) ks)
add-address_key config ip ks h =
    rw h (elim (Bool-cases config.subnet_ip_grouping) [ inl e ↦ rw e | inr e ↦ rw e ])

abbrev pub AllNonempty : List ConnectionInfo → Type 0
AllNonempty = All (λ c. (c.ip == "") ≡ false)

module _ (config : DeviceCountingConfig) (trusted : Bool) where
  observe-plain_ip :
      (c : ConnectionInfo) (t : Tally)
      → observe (plain_ip config) trusted c t
        ≡ record_key (address_key config c.ip) (observation_of c (plain_ip config)) t
  unfolding observe
  observe-plain_ip c t = rw (device_key-plain_ip config trusted c, observe)

  observe_all-plain_ip :
      (cs : List ConnectionInfo) (t : Tally)
      → AllNonempty cs
      → t.cdn_node_observations ≡ []
      → t.cdn_inbound_observations ≡ []
      → count_of (plain_ip config) (observe_all (plain_ip config) trusted cs t)
        ≡ length (ip_keys config (map (λ c. c.ip) cs) t.unique_devices)
  unfolding observe_all ip_keys count_of
  observe_all-plain_ip [] t ne p q = ground arith
  observe_all-plain_ip (c ∷ cs) t ne p q =
      let o = observation_of c (plain_ip config) in
      let clear =
        record_key-no_cdn (address_key config c.ip) o t (address_key-ordinary config c.ip) p q in
      ap (λ s. count_of (plain_ip config) (observe_all (plain_ip config) trusted cs s))
        (observe-plain_ip c t)
      ∙ observe_all-plain_ip cs (record_key (address_key config c.ip) o t) ne.1 clear.0 clear.1
      ∙ ap (λ ks. length (ip_keys config (map (λ d. d.ip) cs) ks))
          (record_key-ordinary (address_key config c.ip) o t (address_key-ordinary config c.ip)
            ∙ add-address_key config c.ip t.unique_devices ne.0)

-- In "ip" mode, with no CDN inbounds, no CDN nodes, no disabled nodes and no partial evidence, for a user
-- with some connection and no empty address, the count of the connections is the count of their
-- addresses alone: the fallback for a user with no connection detail agrees with the full path.
pub count_devices-from_ips :
    (config : DeviceCountingConfig) (u : UserType) (trust : ℤ) (fallback : ℕ)
    → connections_of (some u) ≢ []
    → AllNonempty (connections_of (some u))
    → count_devices (some u) (some (plain_ip config)) trust fallback
      ≡ count_devices_from_ips (map (λ c. c.ip) (connections_of (some u))) (some (plain_ip config))
unfolding count_devices_from_ips
count_devices-from_ips config u trust fallback some_connection ne =
    count_devices-tally (plain_ip config) u trust fallback some_connection
    ∙ observe_all-plain_ip config (trusts (plain_ip config) trust) (connections_of (some u))
        empty_tally ne refl refl
