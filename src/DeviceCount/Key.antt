-- ===== src/DeviceCount/Key.antt =====
-- utils/device_count.py, lines 30-166: the counting rules and the identity of the device behind
-- one connection. A Python tuple of texts and numbers is a list of atoms.
use Prim.Native.String.{◌++◌ as join}
use pg_limiter.Prelude.{
  ℕ, String, ◌≡◌, ◌↔◌, Bool, true, false, not, ◌&&◌, ◌||◌, Option, none, some, List, [], ◌∷◌, arith,
  eq_iff, Equality, nat_eq, string_eq, list_eq, list_beq_iff, ◌==◌, contains, if◌then◌else◌,
  nat_beq,
}
use pg_limiter.Prelude.Int.{ℤ, pos}
use pg_limiter.Text.{codes, strip, split_dots, is_octet}
use pg_limiter.Types.{ConnectionInfo}

pub data Atom : Type 0 where
  text : String → Atom
  number : ℕ → Atom

abbrev pub atom_beq : Atom → Atom → Bool
atom_beq (text s) (text t) = s == t
atom_beq (text s) (number n) = false
atom_beq (number m) (text t) = false
atom_beq (number m) (number n) = nat_beq m n

pub atom_beq_iff : (a b : Atom) → (atom_beq a b ≡ true) ↔ (a ≡ b)
atom_beq_iff (text s) (text t) = ground (arith, eq_iff s t)
atom_beq_iff (text s) (number n) = ground arith
atom_beq_iff (number m) (text t) = ground arith
atom_beq_iff (number m) (number n) = ground arith

instance abbrev pub atom_eq : Equality Atom
atom_eq = record { beq = atom_beq; beq_iff = atom_beq_iff }

-- A tuple; its equality stays shut in the proofs about sets of keys.
pub data Key : Type 0 where
  tuple : List Atom → Key

unfoldable pub key_beq : Key → Key → Bool
key_beq (tuple a) (tuple b) = a == b

pub key_beq_iff : (a b : Key) → (key_beq a b ≡ true) ↔ (a ≡ b)
unfolding key_beq
key_beq_iff (tuple a) (tuple b) = ground (arith, list_beq_iff a b)

instance abbrev pub key_eq : Equality Key
key_eq = record { beq = key_beq; beq_iff = key_beq_iff }

pub record DeviceCountingConfig : Type 0 where
  pub cdn_inbounds : List String
  pub cdn_nodes : List ℕ
  pub disabled_nodes : List ℕ
  pub subnet_ip_grouping : Bool
  pub high_trust_ip_grouping : Bool
  pub high_trust_threshold : ℤ
  pub count_mode : String
  pub eligible_node_ids : Option (List ℕ)
  pub partial_evidence : Bool

-- `DeviceCountingConfig()`
abbrev pub default_config : DeviceCountingConfig
default_config = record {
  cdn_inbounds = [];
  cdn_nodes = [];
  disabled_nodes = [];
  subnet_ip_grouping = false;
  high_trust_ip_grouping = false;
  high_trust_threshold = pos 20;
  count_mode = "device";
  eligible_node_ids = none;
  partial_evidence = false;
}

-- The three leading octets of an IPv4 address, `none` for any other text.
unfoldable pub ipv4_prefix : String → Option String
unfolding split_dots is_octet
ipv4_prefix ip = elim (split_dots ip) [
  | a ∷ b ∷ c ∷ d ∷ [] ↦
      if is_octet (codes a) && is_octet (codes b) && is_octet (codes c) && is_octet (codes d)
      then some (join a (join "." (join b (join "." c))))
      else none
  | _ ↦ none
]

-- The /24 prefix of an IPv4 address; any other text is its own key.
unfoldable pub subnet_key : String → String
unfolding ipv4_prefix
subnet_key ip = elim (ipv4_prefix ip) [ none ↦ ip | some prefix ↦ prefix ]

unfoldable pub subnet_parts : String → Key
unfolding subnet_key
subnet_parts ip = tuple (text "SUBNET_GROUP" ∷ text (subnet_key ip) ∷ [])

-- `node_id in nodes`; what is no int is in no list of ints.
abbrev pub in_nodes : Option ℕ → List ℕ → Bool
in_nodes none nodes = false
in_nodes (some n) nodes = contains nodes n

-- The branch of "node" mode.
unfoldable pub node_key : ConnectionInfo → DeviceCountingConfig → Option Key
node_key conn config = elim conn.node_id [
  | none ↦ none
  | some n ↦ elim config.eligible_node_ids [
    | none ↦ none
    | some eligible ↦
        if not (contains eligible n) || contains config.disabled_nodes n
        then none
        else some (tuple (text "NODE_ONLY" ∷ number n ∷ []))
  ]
]

unfoldable pub device_key : ConnectionInfo → DeviceCountingConfig → Bool → Option Key
unfolding node_key subnet_parts strip
device_key conn config apply_high_trust =
    if config.count_mode == "node"
    then node_key conn config
    else if in_nodes conn.node_id config.disabled_nodes
    then none
    else if config.count_mode == "inbound"
    then (let inbound = strip conn.inbound_protocol in
        if inbound == "" || inbound == "Unknown"
        then none
        else some (tuple (text "INBOUND_ONLY" ∷ text inbound ∷ [])))
    else if in_nodes conn.node_id config.cdn_nodes
    then some (tuple (text "CDN_NODE" ∷ []))
    else if contains config.cdn_inbounds conn.inbound_protocol
    then (if config.count_mode == "ip"
        then some (tuple (text "CDN_INBOUND" ∷ []))
        else some (tuple (text "CDN_INBOUND" ∷ text conn.inbound_protocol ∷ [])))
    else if config.count_mode == "ip"
    then (if config.subnet_ip_grouping
        then some (subnet_parts conn.ip)
        else some (tuple (text "IP_ONLY" ∷ text conn.ip ∷ [])))
    else if apply_high_trust
    then some (tuple (text "HIGH_TRUST" ∷ text conn.inbound_protocol ∷ []))
    else if config.subnet_ip_grouping
    then some
        (tuple (text "SUBNET_GROUP" ∷ text (subnet_key conn.ip) ∷ text conn.inbound_protocol ∷ []))
    else some (tuple (text conn.ip ∷ text conn.inbound_protocol ∷ []))
