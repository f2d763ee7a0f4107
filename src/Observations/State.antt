-- ===== src/Observations/State.antt =====
-- utils/log_observations.py: the state of `LogObservations`, and the operations that record a fault.
-- A time and a span of time are numbers of microseconds. A node id that is not an int is `none`.
-- One call reads one clock: `now` is what `time.time()` answers in it.
use pg_limiter.Prelude.{
  ℕ, suc, ◌+◌, max, String, Bool, false, not, ◌&&◌, ◌||◌, Option, none, some, List, [], ◌∷◌, ◌==◌,
  nat_eq, string_eq, option_eq, leb, if◌then◌else◌, length,
}
use pg_limiter.Value.{Value}
use pg_limiter.Prelude.Dict.{Dict, lookup, has_key, insert}

-- The lifetime of one node's stream.
pub record NodeLogState : Type 0 where
  pub epoch : ℕ
  pub floor : ℕ
  pub uncertain_until : ℕ

-- The two messages of `config_error`.
pub data ConfigError : Type 0 where
  invalid_settings invalid_timezones : ConfigError

-- The settings that a sample depends on, as `configure` reads them. `signature` is the text of their
-- tuple. `none` stands for an interval that is not a finite number, a capacity that is not an int, and
-- zones that are no mapping with decimal keys.
pub record Settings : Type 0 where
  pub signature : String
  pub source : String
  pub interval : Option ℕ
  pub zones : Option (Dict String Value)
  pub default_zone : Value
  pub capacity : Option ℕ
  pub disabled_nodes : List ℕ
  pub freshness : ℕ

-- The entries of a node's replay cache in the order of admission, a record's digest with its source time.
abbrev pub Cache : Type 0
Cache = Dict ℕ ℕ

-- The heap of a node, as the list of its entries in order: a source time with a digest.
abbrev pub Heap : Type 0
Heap = List (ℕ × ℕ)

pub record LogObservations : Type 0 where
  pub generation : ℕ
  pub signature : Option String
  pub floor : ℕ
  pub interval : ℕ
  pub freshness : ℕ
  pub capacity : ℕ
  pub source : String
  pub zones : Dict String (Option String)
  pub default_zone : Option String
  pub config_error : Option ConfigError
  pub disabled_nodes : List ℕ
  pub panel_nodes : Option (Dict ℕ String)
  pub excluded_panel_nodes : List ℕ
  pub required_nodes : Option (Dict ℕ Bool)
  pub fleet_seen : ℕ
  pub fleet_floor : ℕ
  pub transport_floor : ℕ
  pub seen : Dict ℕ Cache
  pub seen_expiry : Dict ℕ Heap
  pub uncertain_until : ℕ
  pub fault_version : ℕ
  pub node_states : Dict ℕ NodeLogState
  pub next_node_epoch : ℕ
  pub global_uncertain_until : ℕ
  pub uncertainty_counts : Dict (Option ℕ) (Dict String ℕ)
  pub timestamp_faults : Dict (Option ℕ) ℕ

abbrev pub retired : ℕ → ℕ → Option NodeLogState → NodeLogState
retired epoch when none = record { epoch = epoch; floor = when; uncertain_until = 0 }
retired epoch when (some old) = record old { epoch = epoch; floor = max old.floor when }

-- `_retire_node`
unfoldable pub retire_node : ℕ → ℕ → LogObservations → LogObservations
retire_node node when s =
    let epoch = suc s.next_node_epoch in
    record s {
      next_node_epoch = epoch;
      node_states = insert node (retired epoch when (lookup node s.node_states)) s.node_states;
    }

-- `node_id in self.required_nodes`, where both are known.
unfoldable pub is_required : Option ℕ → LogObservations → Bool
is_required none s = false
is_required (some node) s = elim s.required_nodes [ none ↦ false | some nodes ↦ has_key node nodes ]

unfoldable pub note_transport_gap : ℕ → Option ℕ → LogObservations → LogObservations
unfolding retire_node
note_transport_gap when (some node) s = retire_node node when s
note_transport_gap when none s = record s {
  transport_floor = max s.transport_floor when;
  fault_version = suc s.fault_version;
}

-- `if state is None: state = self._retire_node(...)`
unfoldable pub ensure_node : ℕ → ℕ → Option NodeLogState → LogObservations → LogObservations
unfolding retire_node
ensure_node now node none s = retire_node node now s
ensure_node now node (some state) s = s

abbrev pub doubted : ℕ → ℕ → Option NodeLogState → NodeLogState
doubted epoch deadline none = record { epoch = epoch; floor = 0; uncertain_until = deadline }
doubted epoch deadline (some old) = record old {
  epoch = epoch;
  uncertain_until = max old.uncertain_until deadline;
}

-- The node has a state: its captured witnesses are retired, its floor stays.
unfoldable pub retire_witnesses : ℕ → ℕ → LogObservations → LogObservations
retire_witnesses deadline node s =
    let epoch = suc s.next_node_epoch in
    record s {
      next_node_epoch = epoch;
      node_states = insert node (doubted epoch deadline (lookup node s.node_states)) s.node_states;
    }

-- A fault of a required node.
unfoldable pub blame_node : ℕ → ℕ → ℕ → LogObservations → LogObservations
unfolding ensure_node retire_witnesses
blame_node now deadline node s =
    retire_witnesses deadline node (ensure_node now node (lookup node s.node_states) s)

unfoldable pub blame_all : ℕ → LogObservations → LogObservations
blame_all deadline s = record s {
  global_uncertain_until = max s.global_uncertain_until deadline;
  fault_version = suc s.fault_version;
}

unfoldable pub blame : ℕ → ℕ → Option ℕ → LogObservations → LogObservations
unfolding blame_node blame_all
blame now deadline none s = blame_all deadline s
blame now deadline (some node) s =
    if is_required (some node) s then blame_node now deadline node s else blame_all deadline s

-- `_UNCERTAINTY_REASONS`
unfoldable pub is_uncertainty_reason : String → Bool
is_uncertainty_reason reason =
    reason == "invalid_timestamp"
    || reason == "out_of_range_timestamp"
    || reason == "ambiguous_timestamp"
    || reason == "future_timestamp"
    || reason == "live_cache_eviction"
    || reason == "cache_capacity_reduction"
    || reason == "unknown"

abbrev pub max_diagnostic_nodes : ℕ
max_diagnostic_nodes = 128

-- The key that counts a fault of the node: all nodes past the bound share the null aggregate.
unfoldable pub diagnostic_key : Option ℕ → Dict (Option ℕ) (Dict String ℕ) → Option ℕ
diagnostic_key source counts =
    if not (has_key source counts) && leb max_diagnostic_nodes (length counts) then none else source

abbrev count_in : String → Dict String ℕ → Dict String ℕ
count_in reason counts =
    insert reason (elim (lookup reason counts) [ none ↦ 1 | some n ↦ suc n ]) counts

unfoldable pub count_fault :
    Option ℕ → String → Dict (Option ℕ) (Dict String ℕ) → Dict (Option ℕ) (Dict String ℕ)
unfolding is_uncertainty_reason diagnostic_key
count_fault source reason counts =
    let known = if is_uncertainty_reason reason then reason else "unknown" in
    let key = diagnostic_key source counts in
    insert key (count_in known (elim (lookup key counts) [ none ↦ [] | some c ↦ c ])) counts

-- The counts of an episode that is over are dropped with the next fault.
unfoldable pub clear_episode : ℕ → LogObservations → LogObservations
clear_episode now s =
    let over = leb s.uncertain_until now in
    record s {
      uncertainty_counts = if over then [] else s.uncertainty_counts;
      timestamp_faults = if over then [] else s.timestamp_faults;
    }

-- `until` is the deadline, or `none` for one from now.
unfoldable pub mark_uncertain : ℕ → Option ℕ → Option ℕ → String → LogObservations → LogObservations
unfolding blame clear_episode count_fault
mark_uncertain now until source reason s =
    let deadline : ℕ = elim until [ none ↦ now + s.freshness | some time ↦ time ] in
    let cleared = clear_episode now s in
    let dated = record cleared { uncertain_until = max cleared.uncertain_until deadline } in
    let blamed = blame now deadline source dated in
    record blamed { uncertainty_counts = count_fault source reason blamed.uncertainty_counts }

-- The key under which `record_timestamp_fault` keeps a comparison of clocks.
abbrev fault_key : Option ℕ → Dict (Option ℕ) ℕ → Option ℕ
fault_key source faults =
    if not (has_key source faults) && leb max_diagnostic_nodes (length faults) then none else source

abbrev pub rest_of : Dict (Option ℕ) ℕ → Dict (Option ℕ) ℕ
rest_of [] = []
rest_of (x ∷ faults) = faults

-- Of a comparison its source time is kept, the other fields are for display.
unfoldable pub record_timestamp_fault : Option ℕ → ℕ → Dict (Option ℕ) ℕ → Dict (Option ℕ) ℕ
record_timestamp_fault source source_epoch faults =
    let key = fault_key source faults in
    let full = not (has_key source faults) && leb max_diagnostic_nodes (length faults) in
    insert key source_epoch (if full && not (has_key none faults) then rest_of faults else faults)
