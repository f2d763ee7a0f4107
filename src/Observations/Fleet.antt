-- ===== src/Observations/Fleet.antt =====
-- utils/log_observations.py: the settings and the fleet, and the heartbeats of utils/shared_state.py.
use pg_limiter.Prelude.{
  ℕ, suc, ◌+◌, ◌*◌, max, String, Bool, true, false, not, ◌&&◌, ◌||◌, Option, none, some, List, [],
  ◌∷◌, ◌==◌, nat_eq, string_eq, bool_eq, option_eq, leb, ltb, if◌then◌else◌, contains, is_empty,
}
use pg_limiter.Prelude.Dict.{Dict, lookup, has_key, insert, erase, keep_items, keys}
use pg_limiter.Prelude.Int.{pos}
use pg_limiter.Text.{strip}
use pg_limiter.Value.{Value, str, text_of_int}
use pg_limiter.Observations.State.{
  Settings, invalid_settings, invalid_timezones, LogObservations, retire_node, note_transport_gap,
  is_required,
}
use pg_limiter.Observations.Replay.{expire_replay_cache, evict, cache_of, heap_of, keep_replay}

unfoldable pub invalidate : ℕ → LogObservations → LogObservations
invalidate now s = record s { generation = suc s.generation; signature = none; floor = now }

-- A status of a node outside the enabled fleet.
unfoldable pub is_excluded_status : String → Bool
is_excluded_status status = status == "disabled" || status == "limited"

-- The nodes that a complete sample needs, and whether each is connected.
unfoldable pub required_of : List ℕ → Dict ℕ String → Dict ℕ Bool
unfolding is_excluded_status
required_of disabled [] = []
required_of disabled ((node, status) ∷ panel) =
    let rest = required_of disabled panel in
    if contains disabled node || is_excluded_status status
    then rest
    else (node, status == "connected") ∷ rest

-- A node that is new in the fleet, or whose connection changed, starts a new stream.
unfoldable pub retire_changed :
    ℕ → Option (Dict ℕ Bool) → Dict ℕ Bool → LogObservations → LogObservations
unfolding retire_node
retire_changed now previous [] s = s
retire_changed now previous ((node, connected) ∷ nodes) s =
    let before : Option Bool = elim previous [ none ↦ none | some old ↦ lookup node old ] in
    let same = before == some connected in
    retire_changed now previous nodes (if same then s else retire_node node now s)

abbrev pub is_known {ℓ} : {A : Type ℓ} → Option A → Bool
is_known none = false
is_known (some a) = true

-- An unknown fleet that is now known, or a known one that is not, retires every sample.
unfoldable pub note_transition : ℕ → Option (Dict ℕ Bool) → LogObservations → LogObservations
note_transition now new s =
    let known = is_known new in
    let same = if is_known s.required_nodes then known else not known in
    if same then s else record s {
      generation = suc s.generation;
      fault_version = suc s.fault_version;
      fleet_floor = now;
    }

-- A fleet that was made empty needs an empty interval.
unfoldable pub note_empty :
    ℕ → Dict ℕ Bool → Option (Dict ℕ Bool) → LogObservations → LogObservations
note_empty now new previous s =
    let had : Bool = elim previous [ none ↦ false | some old ↦ not (is_empty old) ] in
    if is_empty new && had then record s { fleet_floor = now } else s

-- What is kept for the nodes of the fleet alone.
unfoldable pub forget_others : Dict ℕ Bool → LogObservations → LogObservations
forget_others new s = record s {
  node_states = keep_items (λ node state. has_key node new) s.node_states;
  seen = keep_items (λ node cache. has_key node new) s.seen;
  seen_expiry = keep_items (λ node heap. has_key node new) s.seen_expiry;
}

unfoldable pub adopt_fleet :
    ℕ → Option (Dict ℕ Bool) → Option (Dict ℕ Bool) → LogObservations → LogObservations
unfolding retire_changed note_empty forget_others
adopt_fleet now previous none s = s
adopt_fleet now previous (some new) s =
    forget_others new (note_empty now new previous (retire_changed now previous new s))

unfoldable pub required_nodes_of : LogObservations → Option (Dict ℕ Bool)
unfolding required_of
required_nodes_of s = elim s.panel_nodes [
  | none ↦ none
  | some panel ↦ some (required_of s.disabled_nodes panel)
]

-- `_refresh_required_nodes`
unfoldable pub refresh_required_nodes : ℕ → LogObservations → LogObservations
unfolding required_nodes_of note_transition adopt_fleet
refresh_required_nodes now s =
    let new = required_nodes_of s in
    let noted = note_transition now new s in
    adopt_fleet now s.required_nodes new (record noted { required_nodes = new })

-- `max(120.0, check_interval * NODE_SILENCE_INTERVALS)`
unfoldable pub node_silence_window : ℕ → ℕ
node_silence_window interval = max 120000000 (interval * 3)

-- The panel's list as a dict, unless one of its ids is not an int.
unfoldable pub panel_dict : List (Option ℕ × String) → Dict ℕ String → Option (Dict ℕ String)
panel_dict [] panel = some panel
panel_dict ((none, status) ∷ nodes) panel = none
panel_dict ((some node, status) ∷ nodes) panel = panel_dict nodes (insert node status panel)

unfoldable pub excluded_of : Dict ℕ String → List ℕ
unfolding is_excluded_status
excluded_of panel = keys (keep_items (λ node status. is_excluded_status status) panel)

-- A gap between two lists is noted before the second renews the fleet.
unfoldable pub note_fleet_gap : ℕ → LogObservations → LogObservations
unfolding node_silence_window
note_fleet_gap now s =
    if is_known s.required_nodes && ltb (s.fleet_seen + node_silence_window s.interval) now
    then record s {
      generation = suc s.generation;
      fault_version = suc s.fault_version;
      fleet_floor = now;
    }
    else s

unfoldable pub register_fleet :
    ℕ → Option (List (Option ℕ × String)) → LogObservations → LogObservations
unfolding note_fleet_gap panel_dict excluded_of refresh_required_nodes
register_fleet now nodes s =
    let noted = note_fleet_gap now s in
    let panel : Option (Dict ℕ String) = elim nodes [
      | none ↦ none
      | some list ↦ panel_dict list []
    ] in
    let excluded : List ℕ = elim panel [
      | none ↦ noted.excluded_panel_nodes
      | some dict ↦ excluded_of dict
    ] in
    let listed = record noted { panel_nodes = panel; excluded_panel_nodes = excluded } in
    record (refresh_required_nodes now listed) { fleet_seen = now }

unfoldable pub monitors : Option ℕ → LogObservations → Bool
unfolding is_required
monitors none s = false
monitors (some node) s =
    not (contains s.disabled_nodes node)
    && not (contains s.excluded_panel_nodes node)
    && (not (is_known s.required_nodes) || is_required (some node) s)

-- `zone`: an override of the node wins over the default, also one that is invalid.
unfoldable pub zone : ℕ → LogObservations → Option String
unfolding text_of_int
zone node s = elim (lookup (text_of_int (pos node)) s.zones) [
  | none ↦ s.default_zone
  | some override ↦ override
]

unfoldable pub node_epoch : ℕ → LogObservations → ℕ
node_epoch node s = elim (lookup node s.node_states) [ none ↦ 0 | some state ↦ state.epoch ]

-- The replay memory of one node after a change of the settings.
unfoldable pub trim_node : ℕ → ℕ → LogObservations → LogObservations
unfolding expire_replay_cache evict
trim_node now node s =
    let (heap, cache) = expire_replay_cache now s.freshness (heap_of node s) (cache_of node s) in
    let (left, s') = evict now node "cache_capacity_reduction" cache s in
    keep_replay node heap left s'

unfoldable pub trim_each : ℕ → List ℕ → LogObservations → LogObservations
unfolding trim_node
trim_each now [] s = s
trim_each now (node ∷ nodes) s = trim_each now nodes (trim_node now node s)

-- An interval and a capacity that can be used, or the defaults with an error.
unfoldable pub apply_sampling : Option ℕ → Option ℕ → LogObservations → LogObservations
apply_sampling none capacity s = record s {
  interval = 60000000;
  capacity = 10000;
  config_error = some invalid_settings;
}
apply_sampling (some interval) none s = record s {
  interval = 60000000;
  capacity = 10000;
  config_error = some invalid_settings;
}
apply_sampling (some interval) (some capacity) s =
    let usable = ltb 0 interval && leb 1 capacity in
    record s {
      interval = if usable then interval else 60000000;
      capacity = if usable then capacity else 10000;
      config_error = if usable then none else some invalid_settings;
    }

module _ (is_zone : String → Bool) where
  -- `_zone`, where `is_zone` tells whether the database of time zones has the name.
  unfoldable pub zone_of : Value → Option String
  unfolding strip
  zone_of (str name) =
      if not (name == "") && name == strip name && is_zone name then some name else none
  zone_of value = none

  abbrev zones_of : Dict String Value → Dict String (Option String)
  zones_of [] = []
  zones_of ((k, v) ∷ d) = (k, zone_of v) ∷ zones_of d

  unfoldable pub apply_zones :
      Option (Dict String Value) → Value → LogObservations → LogObservations
  unfolding zone_of
  apply_zones mapping default s =
      let zones : Dict String (Option String) = elim mapping [ none ↦ [] | some d ↦ zones_of d ] in
      record s {
        zones = zones;
        default_zone = zone_of default;
        config_error = if is_known mapping then s.config_error else some invalid_timezones;
      }

  unfoldable pub configure : ℕ → Settings → LogObservations → Bool × LogObservations
  unfolding invalidate refresh_required_nodes apply_sampling apply_zones trim_each
  configure now settings s =
      let retired = record (invalidate now s) {
        signature = some settings.signature;
        source = settings.source;
        disabled_nodes = settings.disabled_nodes;
        freshness = settings.freshness;
      } in
      let refreshed = record (refresh_required_nodes now retired) { config_error = none } in
      let sampled = apply_sampling settings.interval settings.capacity refreshed in
      let zoned = apply_zones settings.zones settings.default_zone sampled in
      if s.signature == some settings.signature
      then (false, s)
      else (true, trim_each now (keys zoned.seen) zoned)

-- `NODE_LAST_EVENT`, with the observations.
pub record Streams : Type 0 where
  pub last_event : Dict ℕ ℕ
  pub observations : LogObservations

-- A node that is heard again after a silence, or before the last time, starts a new stream.
unfoldable pub note_node_event : Option ℕ → ℕ → Streams → Streams
unfolding monitors node_silence_window note_transport_gap
note_node_event none now m = m
note_node_event (some node) now m =
    let s = m.observations in
    let window = node_silence_window s.interval in
    let gap : Bool = elim (lookup node m.last_event) [
      | none ↦ true
      | some previous ↦ ltb (previous + window) now || ltb now previous
    ] in
    let noted : Streams = record {
      last_event = insert node now m.last_event;
      observations = if gap then note_transport_gap now (some node) s else s;
    } in
    if monitors (some node) s then noted else m

unfoldable pub forget_node_event : Option ℕ → ℕ → Streams → Streams
unfolding monitors note_transport_gap
forget_node_event none now m = m
forget_node_event (some node) now m =
    let s = m.observations in
    let gap = has_key node m.last_event && monitors (some node) s in
    record {
      last_event = erase node m.last_event;
      observations = if gap then note_transport_gap now (some node) s else s;
    }

unfoldable pub gap_each : ℕ → List ℕ → LogObservations → LogObservations
unfolding monitors note_transport_gap
gap_each now [] s = s
gap_each now (node ∷ nodes) s =
    gap_each now nodes (if monitors (some node) s then note_transport_gap now (some node) s else s)

unfoldable pub clear_node_events : ℕ → Streams → Streams
unfolding gap_each
clear_node_events now m = record {
  last_event = [];
  observations = gap_each now (keys m.last_event) m.observations;
}
