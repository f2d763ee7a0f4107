-- ===== src/Observations/Tests.antt =====
-- The log observations on concrete inputs.
use pg_limiter.Prelude.{
  pair_eq, ℕ, ◌≡◌, refl, Bool, true, false, ◌&&◌, Option, none, some, List, [], ◌∷◌, String, ◌==◌,
  nat_eq, string_eq, if◌then◌else◌, arith, contains,
}
use pg_limiter.Prelude.Dict.{Dict}
use pg_limiter.Observations.State.{
  LogObservations, mark_uncertain, retire_node, is_required, note_transport_gap, ensure_node,
  retire_witnesses, blame_node, blame_all, blame, is_uncertainty_reason, diagnostic_key,
  count_fault, clear_episode, record_timestamp_fault, NodeLogState,
}
use pg_limiter.Observations.Replay.{
  at, admit, admit_valid, validate_source_time, heappush, heapify_items, expire_replay_cache,
  compact_replay_cache, evict, remember,
}
use pg_limiter.Observations.Fleet.{
  register_fleet, node_epoch, invalidate, is_excluded_status, required_of, retire_changed,
  note_transition, note_empty, forget_others, adopt_fleet, required_nodes_of,
  refresh_required_nodes, node_silence_window, panel_dict, excluded_of, note_fleet_gap, monitors,
  zone, trim_node, trim_each, apply_sampling, zone_of, apply_zones, configure, note_node_event,
  forget_node_event, gap_each, clear_node_events,
}
use pg_limiter.Observations.Ready.{
  is_ready, ready, uncertain, unavailable_reason, global_unavailable_reason, connection,
  stream_reason, is_silent, node_unavailable_reason, first_fault, any_unavailable,
}
use pg_limiter.Observations.Evidence.{
  evidence, is_current, or_empty, eligible_nodes, globally_current, witness_stands, same_fleet,
  version_survives, surviving, retain_current_nodes,
}
use pg_limiter.Observations.Replayed.{wait}
use pg_limiter.Observations.Replayed
use pg_limiter.Observations.Coverage.{evidence_complete, is_current-evidence}
use pg_limiter.Observations.Counted.{evidence-admit, second_read}
use pg_limiter.Observations.Index.{WellKept, admit-WellKept, admit_valid-fresh}
use pg_limiter.Observations.Diagnostics.{WithinBounds, validate_source_time-bounded}
use pg_limiter.Observations.Retained.{retain_current_nodes_complete}
use pg_limiter.Observations.Epochs.{change, changes, is_current-ended}
use pg_limiter.Observations.Epochs

-- A fleet of one connected node that has been watched for long, with room for one record.
abbrev warm : LogObservations
warm = record {
  generation = 3;
  signature = some "settings";
  floor = 0;
  interval = 60000000;
  freshness = 60000000;
  capacity = 1;
  source = "logs";
  zones = [];
  default_zone = some "UTC";
  config_error = none;
  disabled_nodes = [];
  panel_nodes = some ((1, "connected") ∷ []);
  excluded_panel_nodes = [];
  required_nodes = some ((1, true) ∷ []);
  fleet_seen = 200000000;
  fleet_floor = 0;
  transport_floor = 0;
  seen = [];
  seen_expiry = [];
  uncertain_until = 0;
  fault_version = 0;
  node_states = (1, record { epoch = 1; floor = 0; uncertain_until = 0 }) ∷ [];
  next_node_epoch = 1;
  global_uncertain_until = 0;
  uncertainty_counts = [];
  timestamp_faults = [];
}

abbrev heard : Dict ℕ ℕ
heard = (1, 200000000) ∷ []

abbrev now : ℕ
now = 200000000

-- A digest that tells the two lines of the tests apart.
abbrev digest : String → ℕ
digest line = if line == "a" then 1 else 2

abbrev meanwhile : List Replayed.Event
meanwhile = wait 1000000 ∷ Replayed.line_read 1 "b" (at 200000000) ∷ []

program : Unit {0}
unfolding retire_node is_required note_transport_gap ensure_node retire_witnesses blame_node
    blame_all blame is_uncertainty_reason diagnostic_key count_fault clear_episode mark_uncertain
    record_timestamp_fault heappush heapify_items expire_replay_cache compact_replay_cache evict
    validate_source_time remember admit_valid admit invalidate is_excluded_status required_of
    retire_changed note_transition note_empty forget_others adopt_fleet required_nodes_of
    refresh_required_nodes node_silence_window panel_dict excluded_of note_fleet_gap register_fleet
    monitors zone node_epoch trim_node trim_each apply_sampling zone_of apply_zones configure
    note_node_event forget_node_event gap_each clear_node_events global_unavailable_reason
    connection stream_reason is_silent node_unavailable_reason first_fault any_unavailable
    unavailable_reason eligible_nodes evidence globally_current witness_stands same_fleet is_current
    version_survives surviving retain_current_nodes
program = tt

-- The node is ready, then the second line evicts the first, which puts it in doubt for the rest of the
-- minute; the first line is admitted again in that time.
ready_at_first : unavailable_reason heard now warm ≡ ready
unfolding program
ready_at_first = refl

abbrev once : LogObservations
once = (admit digest now 1 "a" (at 200000000) warm).1

abbrev twice : Bool × LogObservations
twice = (second_read digest now 1 200000000 "a" warm meanwhile)

in_doubt : (twice.0 ≡ true) × (unavailable_reason heard 201000000 twice.1 ≡ uncertain)
unfolding program
in_doubt = (refl, refl)

warm-WellKept : WellKept warm
warm-WellKept node = record {
  sound = record { distinct = tt; ordered = tt; indexed = λ f t h. cc };
  cache_bound = omega arith;
  heap_bound = omega arith;
}

evidence-admit_example :
    let e = evidence heard 7 201000000 twice.1 in
    (contains (or_empty e.eligible_node_ids) 1 ≡ false)
    × (contains (or_empty e.required_node_ids) 1 && e.coverage_complete ≡ false)
unfolding program
evidence-admit_example = evidence-admit digest now 1 200000000 "a" warm heard 7 meanwhile refl refl

evidence_complete_example :
    (evidence heard 7 now warm).coverage_complete ≡ is_ready (evidence heard 7 now warm).unavailable
unfolding program
evidence_complete_example = evidence_complete heard 7 now warm

is_current-evidence_example :
    (is_current heard 7 now false (evidence heard 7 now warm) warm ≡ true)
    × (is_current heard 7 now true (evidence heard 7 now warm) warm ≡ true)
unfolding program
is_current-evidence_example = is_current-evidence heard 7 now warm

admit-WellKept_example : WellKept (admit digest now 1 "a" (at 200000000) warm).1
admit-WellKept_example = admit-WellKept digest now 1 "a" (at 200000000) warm warm-WellKept

admit_valid-fresh_example : (admit_valid now 1 5 190000000 warm).0 ≡ true
unfolding program
admit_valid-fresh_example = admit_valid-fresh now 1 5 190000000 warm warm-WellKept

validate_source_time-bounded_example :
    WithinBounds (validate_source_time now 1 (at 300000000) warm).1
validate_source_time-bounded_example =
    validate_source_time-bounded now 1 (at 300000000) warm
      (record { few_counts = omega arith; few_faults = omega arith })

abbrev fleet_list : List (Option ℕ × String)
fleet_list = (some 1, "connected") ∷ []

-- The start of the process, and the fleet as the panel lists it three times.
abbrev cold : LogObservations
cold = record warm { required_nodes = none; panel_nodes = none; fleet_seen = 0; node_states = [] }

abbrev listed : List Epochs.Change
listed =
    Epochs.fleet 1000 (some fleet_list)
    ∷ Epochs.fleet 100000000 (some fleet_list)
    ∷ Epochs.fleet 199000000 (some fleet_list)
    ∷ []

abbrev ready_state : LogObservations
ready_state = changes digest (λ z. true) listed cold

-- A gap and a full recovery: the old sample does not come back, a new one is current.
recovery_run :
    let s =
      changes digest
        (λ z. true)
        (Epochs.gap 205000000 (some 1) ∷ Epochs.fleet 290000000 (some fleet_list) ∷ [])
        ready_state in
    is_current
      ((1, 300000000) ∷ [])
      7
      300000000
      true
      (evidence ((1, 300000000) ∷ []) 7 300000000 s)
      s
    ≡ true
unfolding program
recovery_run = refl

is_current-ended_example :
    is_current heard 7 300000000 true (evidence heard 7 now ready_state) (
      changes digest
        (λ z. true)
        (Epochs.fleet 290000000 (some fleet_list) ∷ [])
        (change digest (λ z. true) (Epochs.gap 205000000 (some 1)) ready_state))
    ≡ false
unfolding program
is_current-ended_example =
    is_current-ended digest (λ z. true) heard 7 now 7 300000000 1 heard true listed []
      (Epochs.fleet 290000000 (some fleet_list) ∷ []) (Epochs.gap 205000000 (some 1)) cold refl refl
      refl

retain_current_nodes_complete_example :
    let e = evidence heard 7 now warm in
    (node_epoch 1 warm ≡ node_epoch 1 warm)
    × (is_ready (node_unavailable_reason heard now 1 warm) ≡ true)
    × (contains e.node_versions (1, node_epoch 1 warm) ≡ true)
unfolding program
retain_current_nodes_complete_example =
    retain_current_nodes_complete heard 7 now warm heard 7 now warm 1 refl
      (evidence heard 7 now warm) refl refl

abbrev node_state : ℕ → NodeLogState
node_state epoch = record { epoch = epoch; floor = 0; uncertain_until = 0 }

-- Two nodes, the second of which starts a new stream after the sample.
abbrev pair : ℕ → LogObservations
pair epoch = record warm {
  panel_nodes = some ((1, "connected") ∷ (2, "connected") ∷ []);
  required_nodes = some ((1, true) ∷ (2, true) ∷ []);
  node_states = (1, node_state 1) ∷ (2, node_state epoch) ∷ [];
  next_node_epoch = epoch;
}

abbrev heard_both : Dict ℕ ℕ
heard_both = (1, 200000000) ∷ (2, 200000000) ∷ []

-- The sample keeps the first node and no longer covers the fleet.
partly_retained :
    let e = evidence heard_both 7 now (pair 2) in
    (e.coverage_complete ≡ true)
    × (retain_current_nodes heard_both 7 now e (pair 3)
        ≡ some (record e {
          eligible_node_ids = some (1 ∷ []);
          node_versions = (1, 1) ∷ [];
          coverage_complete = false;
        }))
unfolding program
partly_retained = (refl, refl)

abbrev recovered : LogObservations
recovered = record warm { node_states = [] }

-- A sample of a node that is gone retains nothing.
nothing_retained : retain_current_nodes heard 7 now (evidence heard 7 now warm) recovered ≡ none
unfolding program
nothing_retained = refl
