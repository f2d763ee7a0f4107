-- ===== src/DeviceCount/Tally.antt =====
-- utils/device_count.py, lines 169-299: the sets that `count_devices` fills, and the count.
use pg_limiter.Prelude.{
  ℕ, ◌+◌, max, String, Bool, true, false, not, ◌&&◌, ◌||◌, Option, none, some, List, [], ◌∷◌, ◌==◌,
  string_eq, add, isdisjoint, length, is_empty, if◌then◌else◌,
}
use pg_limiter.Prelude.Int.{ℤ, leb_ℤ}
use pg_limiter.Prelude.Dict.{Dict, lookup, insert}
use pg_limiter.Types.{ConnectionInfo, UserType}
use pg_limiter.DeviceCount.Key.{
  text, Key, atom_eq, tuple, key_eq, key_beq, DeviceCountingConfig, default_config, subnet_parts,
  device_key,
}

-- `_connections_of`
unfoldable pub connections_of : Option UserType → List ConnectionInfo
connections_of none = []
connections_of (some user) = elim user.device_info [ none ↦ [] | some info ↦ info.connections ]

abbrev counts_no_address : String → Bool
counts_no_address mode = mode == "inbound" || mode == "node"

-- The loop of `count_devices_from_ips`; an empty text is passed over.
unfoldable pub ip_keys : DeviceCountingConfig → List String → List Key → List Key
ip_keys config [] keys = keys
ip_keys config (ip ∷ ips) keys = ip_keys config ips (
    if ip == ""
    then keys
    else if config.subnet_ip_grouping
    then add (subnet_parts ip) keys
    else add (tuple (text "IP_ONLY" ∷ text ip ∷ [])) keys)

unfoldable pub count_devices_from_ips : List String → Option DeviceCountingConfig → ℕ
unfolding ip_keys
count_devices_from_ips ips given =
    let config : DeviceCountingConfig = elim given [ none ↦ default_config | some c ↦ c ] in
    if counts_no_address config.count_mode then 0 else length (ip_keys config ips [])

-- The five local collections of `count_devices`.
pub record Tally : Type 0 where
  pub unique_devices : List Key
  pub direct_observations : List Key
  pub non_cdn_node_observations : List Key
  pub cdn_node_observations : List Key
  pub cdn_inbound_observations : Dict Key (List Key)

abbrev pub empty_tally : Tally
empty_tally = record {
  unique_devices = [];
  direct_observations = [];
  non_cdn_node_observations = [];
  cdn_node_observations = [];
  cdn_inbound_observations = [];
}

-- `key[0] == "CDN_INBOUND"`; no key is the empty tuple.
unfoldable pub is_cdn_inbound : Key → Bool
is_cdn_inbound (tuple []) = false
is_cdn_inbound (tuple (a ∷ k)) = a == text "CDN_INBOUND"

unfoldable pub is_cdn_node : Key → Bool
unfolding key_beq
is_cdn_node key = key == tuple (text "CDN_NODE" ∷ [])

-- `d.setdefault(key, set())`
abbrev pub bucket : Key → Dict Key (List Key) → List Key
bucket key d = elim (lookup key d) [ none ↦ [] | some b ↦ b ]

unfoldable pub observation_of : ConnectionInfo → DeviceCountingConfig → Key
observation_of conn config =
    if config.count_mode == "ip"
    then tuple (text conn.ip ∷ [])
    else tuple (text conn.ip ∷ text conn.inbound_protocol ∷ [])

-- The body of the loop for a connection with a key.
unfoldable pub record_key : Key → Key → Tally → Tally
record_key key observation t =
    if is_cdn_node key
    then record t { cdn_node_observations = add observation t.cdn_node_observations }
    else if is_cdn_inbound key
    then record t {
      cdn_inbound_observations =
          insert key (add observation (bucket key t.cdn_inbound_observations))
            t.cdn_inbound_observations;
      non_cdn_node_observations = add observation t.non_cdn_node_observations;
    }
    else record t {
      unique_devices = add key t.unique_devices;
      direct_observations = add observation t.direct_observations;
      non_cdn_node_observations = add observation t.non_cdn_node_observations;
    }

unfoldable pub observe : DeviceCountingConfig → Bool → ConnectionInfo → Tally → Tally
observe config trusted conn t = elim (device_key conn config trusted) [
  | none ↦ t
  | some key ↦ record_key key (observation_of conn config) t
]

unfoldable pub observe_all : DeviceCountingConfig → Bool → List ConnectionInfo → Tally → Tally
observe_all config trusted [] t = t
observe_all config trusted (conn ∷ rest) t =
    observe_all config trusted rest (observe config trusted conn t)

-- `sum(observations.isdisjoint(direct) for observations in d.values())`
abbrev pub isolated : List Key → Dict Key (List Key) → ℕ
isolated direct [] = 0
isolated direct ((k, b) ∷ d) =
    let rest = isolated direct d in if isdisjoint b direct then rest + 1 else rest

abbrev pub to_int : Bool → ℕ
to_int true = 1
to_int false = 0

unfoldable pub count_of : DeviceCountingConfig → Tally → ℕ
count_of config t =
    if config.partial_evidence
    then max (length t.unique_devices)
        (to_int (not (is_empty t.cdn_node_observations && is_empty t.cdn_inbound_observations)))
    else length t.unique_devices
      + isolated t.direct_observations t.cdn_inbound_observations
      + to_int (
          not (is_empty t.cdn_node_observations)
          && isdisjoint t.cdn_node_observations t.non_cdn_node_observations)

unfoldable pub count_devices : Option UserType → Option DeviceCountingConfig → ℤ → ℕ → ℕ
unfolding connections_of
count_devices user given trust_score fallback_count =
    let config : DeviceCountingConfig = elim given [ none ↦ default_config | some c ↦ c ] in
    elim (connections_of user) [
      | [] ↦ if counts_no_address config.count_mode then 0 else fallback_count
      | conn ∷ rest ↦
          let trusted =
            config.high_trust_ip_grouping && leb_ℤ config.high_trust_threshold trust_score in
          count_of config (observe_all config trusted (conn ∷ rest) empty_tally)
    ]
