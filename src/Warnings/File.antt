-- ===== src/Warnings/File.antt =====
-- utils/warning_system/enhanced_system.py: the file of the active warnings. `json.dump` and `json.load`
-- give back the plain dicts that they are given, so the file is the list of the dicts. A value of another
-- shape than the writer's reads as a missing key.
use pg_limiter.Prelude.{
  ℕ, suc, String, Bool, false, ◌||◌, Option, none, some, List, [], ◌∷◌, string_eq, map, set_of, leb,
  if◌then◌else◌,
}
use pg_limiter.Prelude.Int.{ℤ, pos}
use pg_limiter.Prelude.Dict.{Dict, lookup, has_key, insert}
use pg_limiter.Types.{ConnectionInfo}
use pg_limiter.Warnings.Record.{UserLimitWarning, Snapshot, calculate_trust_score}
use pg_limiter.Warnings.System.{WarningSystem}

-- The values that the writer puts under a key.
pub data Field : Type 0 where
  number : ℕ → Field
  signed : ℤ → Field
  text : String → Field
  flag : Bool → Field
  texts : List String → Field
  numbers : Dict String ℕ → Field
  groups : Dict String (List String) → Field
  snapshots : List Snapshot → Field
  details : List ConnectionInfo → Field

abbrev pub WarningData : Type 0
WarningData = Dict String Field

-- One entry of `_serialize_warnings`: a set is written as a list.
unfoldable pub serialize_warning : UserLimitWarning → WarningData
serialize_warning w =
    ("username", text w.username)
    ∷ ("ip_count", number w.ip_count)
    ∷ ("ips", texts w.ips)
    ∷ ("warning_time", number w.warning_time)
    ∷ ("monitoring_end_time", number w.monitoring_end_time)
    ∷ ("last_scan_time", number w.last_scan_time)
    ∷ ("warned", flag w.warned)
    ∷ ("monitoring_history", snapshots w.monitoring_history)
    ∷ ("ip_first_seen", numbers w.ip_first_seen)
    ∷ ("ip_last_seen", numbers w.ip_last_seen)
    ∷ ("ip_seen_count", numbers w.ip_seen_count)
    ∷ ("trust_score", signed w.trust_score)
    ∷ ("inbound_protocols", texts w.inbound_protocols)
    ∷ ("ip_subnets", texts w.ip_subnets)
    ∷ ("previous_warnings_12h", number w.previous_warnings_12h)
    ∷ ("previous_warnings_24h", number w.previous_warnings_24h)
    ∷ ("ip_to_inbounds", groups w.ip_to_inbounds)
    ∷ ("same_ip_multiple_inbounds", flag w.same_ip_multiple_inbounds)
    ∷ ("connection_details", details w.connection_details)
    ∷ ("user_limit", signed w.user_limit)
    ∷ ("consecutive_violations", number w.consecutive_violations)
    ∷ ("max_warnings_at_creation", number w.max_warnings_at_creation)
    ∷ []

unfoldable pub serialize_warnings : Dict String UserLimitWarning → Dict String WarningData
unfolding serialize_warning
serialize_warnings [] = []
serialize_warnings ((username, w) ∷ d) = (username, serialize_warning w) ∷ serialize_warnings d

-- What stands under a key, in each shape.
abbrev number_in : Option Field → Option ℕ
number_in (some (number n)) = some n
number_in _ = none

abbrev signed_in : Option Field → Option ℤ
signed_in (some (signed n)) = some n
signed_in _ = none

abbrev text_in : Option Field → Option String
text_in (some (text s)) = some s
text_in _ = none

abbrev flag_in : Option Field → Option Bool
flag_in (some (flag b)) = some b
flag_in _ = none

abbrev texts_in : Option Field → Option (List String)
texts_in (some (texts xs)) = some xs
texts_in _ = none

abbrev numbers_in : Option Field → Option (Dict String ℕ)
numbers_in (some (numbers d)) = some d
numbers_in _ = none

abbrev groups_in : Option Field → Option (Dict String (List String))
groups_in (some (groups d)) = some d
groups_in _ = none

abbrev snapshots_in : Option Field → Option (List Snapshot)
snapshots_in (some (snapshots xs)) = some xs
snapshots_in _ = none

abbrev details_in : Option Field → Option (List ConnectionInfo)
details_in (some (details xs)) = some xs
details_in _ = none

abbrev or_default {ℓ} : {A : Type ℓ} → A → Option A → A
or_default default none = default
or_default default (some a) = a

-- A snapshot's list of addresses as a set again.
unfoldable pub read_snapshot : Snapshot → Snapshot
read_snapshot s = record s { ips = set_of s.ips }

unfoldable pub read_inbounds : Dict String (List String) → Dict String (List String)
read_inbounds [] = []
read_inbounds ((ip, inbounds) ∷ d) = (ip, set_of inbounds) ∷ read_inbounds d

-- The keys that the constructor needs.
pub record Required : Type 0 where
  pub username : String
  pub ip_count : ℕ
  pub ips : List String
  pub warning_time : ℕ
  pub monitoring_end_time : ℕ

infixl 5 ◌>>=◌
abbrev ◌>>=◌ {ℓ κ} : {A : Type ℓ} {B : Type κ} → Option A → (A → Option B) → Option B
none >>= f = none
some a >>= f = f a

unfoldable pub read_required : WarningData → Option Required
read_required data' = do
  username ← text_in (lookup "username" data')
  ip_count ← number_in (lookup "ip_count" data')
  ips ← texts_in (lookup "ips" data')
  warning_time ← number_in (lookup "warning_time" data')
  monitoring_end_time ← number_in (lookup "monitoring_end_time" data')
  some (record {
    username = username;
    ip_count = ip_count;
    ips = ips;
    warning_time = warning_time;
    monitoring_end_time = monitoring_end_time;
  })

-- The record with its optional keys; `owner` is the identity of the new object.
unfoldable pub restore : ℕ → Required → WarningData → UserLimitWarning
unfolding read_snapshot read_inbounds
restore owner r data' = record {
  owner = owner;
  username = r.username;
  ip_count = r.ip_count;
  ips = set_of r.ips;
  warning_time = r.warning_time;
  monitoring_end_time = r.monitoring_end_time;
  warned = or_default false (flag_in (lookup "warned" data'));
  monitoring_history =
      map read_snapshot (or_default [] (snapshots_in (lookup "monitoring_history" data')));
  ip_first_seen = or_default [] (numbers_in (lookup "ip_first_seen" data'));
  ip_last_seen = or_default [] (numbers_in (lookup "ip_last_seen" data'));
  ip_seen_count = or_default [] (numbers_in (lookup "ip_seen_count" data'));
  trust_score = or_default (pos 0) (signed_in (lookup "trust_score" data'));
  inbound_protocols = set_of (or_default [] (texts_in (lookup "inbound_protocols" data')));
  ip_subnets = set_of (or_default [] (texts_in (lookup "ip_subnets" data')));
  previous_warnings_12h = or_default 0 (number_in (lookup "previous_warnings_12h" data'));
  previous_warnings_24h = or_default 0 (number_in (lookup "previous_warnings_24h" data'));
  ip_to_inbounds = read_inbounds (or_default [] (groups_in (lookup "ip_to_inbounds" data')));
  same_ip_multiple_inbounds = or_default false (flag_in (lookup "same_ip_multiple_inbounds" data'));
  connection_details = or_default [] (details_in (lookup "connection_details" data'));
  user_limit = or_default (pos 1) (signed_in (lookup "user_limit" data'));
  consecutive_violations = or_default 1 (number_in (lookup "consecutive_violations" data'));
  last_scan_time = or_default 0 (number_in (lookup "last_scan_time" data'));
  max_warnings_at_creation = or_default 0 (number_in (lookup "max_warnings_at_creation" data'));
}

-- A record of an older version has its score computed again.
abbrev rescored : WarningData → UserLimitWarning → UserLimitWarning
rescored data' w =
    if has_key "isp_names" data' || has_key "isp_change_pattern" data'
    then record w { trust_score = calculate_trust_score w }
    else w

-- `_deserialize_warning`, `none` where it raises.
unfoldable pub deserialize_warning : ℕ → WarningData → Option UserLimitWarning
unfolding read_required restore calculate_trust_score
deserialize_warning owner data' = do
  required ← read_required data'
  some (rescored data' (restore owner required data'))

-- A record that cannot be read is skipped, and so is one whose window has closed.
unfoldable pub take_loaded : ℕ → String → Option UserLimitWarning → WarningSystem → WarningSystem
take_loaded now username none s = s
take_loaded now username (some w) s =
    if leb w.monitoring_end_time now
    then s
    else record s { warnings = insert username w s.warnings }

-- The loop of `load_warnings`. Each object that is built is a new one.
unfoldable pub load_each : ℕ → Dict String WarningData → WarningSystem → WarningSystem
unfolding deserialize_warning take_loaded
load_each now [] s = s
load_each now ((username, data') ∷ file) s =
    let next : WarningSystem = record s { next_owner = suc s.next_owner } in
    load_each now file (take_loaded now username (deserialize_warning s.next_owner data') next)

-- `load_warnings`, where the file is there and can be read.
unfoldable pub load_warnings : ℕ → Dict String WarningData → WarningSystem → WarningSystem
unfolding load_each
load_warnings now file s = load_each now file s
