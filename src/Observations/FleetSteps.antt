-- ===== src/Observations/FleetSteps.antt =====
-- utils/log_observations.py: how the versions and epochs move when a line is read, and when the fleet
-- or the settings change.
use pg_limiter.Prelude.{
  ℕ, suc, ◌+◌, Bool, false, not, ◌||◌, refl, Option, none, some, List, [], ◌∷◌, String, ◌==◌,
  nat_eq, bool_eq, string_eq, option_eq, arith, either, ltb, if◌then◌else◌, length, ◌&&◌, is_empty,
}
use pg_limiter.Prelude.Dict.{Dict, lookup, has_key, insert, keep_items, keys, lookup-keep_items}
use pg_limiter.Observations.State.{
  Cache, Heap, Settings, LogObservations, NodeLogState, retire_node, mark_uncertain,
}
use pg_limiter.Observations.Replay.{
  SourceTime, at, unusable, admit, admit_valid, remember, evict, expire_replay_cache, heap_of,
  cache_of, validate_source_time, keep_replay,
}
use pg_limiter.Observations.Fleet.{
  invalidate, retire_changed, note_transition, note_empty, forget_others, adopt_fleet, is_known,
  refresh_required_nodes, required_nodes_of, register_fleet, note_fleet_gap, panel_dict,
  excluded_of, configure, apply_sampling, apply_zones, trim_node, trim_each, node_silence_window,
}
use pg_limiter.Observations.Steps.{
  IsStep, IsBelow, Continues, IsStep-trans, IsStep-self, IsStep-quiet, Continues-self,
  retire_node-IsStep, mark_uncertain-IsStep,
}

evict-IsStep :
    (now node : ℕ) (reason : String) (cache : Cache) (s : LogObservations)
    → IsStep s (evict now node reason cache s).1
unfolding evict
evict-IsStep now node reason [] s = IsStep-self s
evict-IsStep now node reason ((g, u) ∷ cache) s =
    let lost = u + s.freshness in
    let marked = if ltb now lost then mark_uncertain now (some lost) (some node) reason s else s in
    let marking : IsStep s marked =
      either (IsStep s) (ltb now lost) (mark_uncertain-IsStep now (some lost) (some node) reason s)
        (IsStep-self s) in
    either (λ (r : Cache × LogObservations). IsStep s r.1) (ltb s.capacity (suc (length cache)))
      (IsStep-trans marking (evict-IsStep now node reason cache marked)) (IsStep-self s)

keep_replay-IsStep :
    (node : ℕ) (heap : Heap) (cache : Cache) (s : LogObservations)
    → IsStep s (keep_replay node heap cache s)
keep_replay-IsStep node heap cache s = IsStep-quiet (omega arith) (omega arith) refl refl

remember-IsStep :
    (now m digest observed : ℕ) (heap : Heap) (cache : Cache) (s : LogObservations)
    → IsStep s (remember now m digest observed heap cache s)
unfolding remember
remember-IsStep now m digest observed heap cache s =
    let f = evict-IsStep now m "live_cache_eviction" (insert digest observed cache) s in
    record {
      generation_grows = f.generation_grows;
      fault_grows = f.fault_grows;
      next_grows = f.next_grows;
      continues = f.continues;
      numbered = f.numbered;
    }

admit_valid-IsStep :
    (now m digest t : ℕ) (s : LogObservations) → IsStep s (admit_valid now m digest t s).1
unfolding admit_valid
admit_valid-IsStep now m digest t s =
    let P : Bool × LogObservations → Type 0 = λ r. IsStep s r.1 in
    let (heap, cache) = expire_replay_cache now s.freshness (heap_of m s) (cache_of m s) in
    either P (ltb t s.floor || not (ltb now (t + s.freshness))) (IsStep-self s) (
      either P (has_key digest cache) (keep_replay-IsStep m heap cache s)
        (remember-IsStep now m digest t heap cache s))

validate_source_time-IsStep :
    (now node : ℕ) (time : SourceTime) (s : LogObservations)
    → IsStep s (validate_source_time now node time s).1
unfolding validate_source_time
validate_source_time-IsStep now node unusable s =
    mark_uncertain-IsStep now (some (now + s.freshness)) (some node) "invalid_timestamp" s
validate_source_time-IsStep now node (at t) s =
    let f = mark_uncertain-IsStep now (some (t + s.freshness)) (some node) "future_timestamp" s in
    either (λ (r : Bool × LogObservations). IsStep s r.1) (ltb now t)
      (record {
        generation_grows = f.generation_grows;
        fault_grows = f.fault_grows;
        next_grows = f.next_grows;
        continues = f.continues;
        numbered = f.numbered;
      })
      (IsStep-self s)

pub admit-IsStep :
    (sha256 : String → ℕ) (now m : ℕ) (line : String) (time : SourceTime) (s : LogObservations)
    → IsStep s (admit sha256 now m line time s).1
unfolding admit
admit-IsStep sha256 now m line unusable s = validate_source_time-IsStep now m unusable s
admit-IsStep sha256 now m line (at t) s =
    let check = validate_source_time now m (at t) s in
    either (λ (r : Bool × LogObservations). IsStep s r.1) check.0
      (admit_valid-IsStep now m (sha256 line) t s) (validate_source_time-IsStep now m (at t) s)

retire_changed-IsStep :
    (now : ℕ) (previous : Option (Dict ℕ Bool)) (nodes : Dict ℕ Bool) (s : LogObservations)
    → IsStep s (retire_changed now previous nodes s)
unfolding retire_changed
retire_changed-IsStep now previous [] s = IsStep-self s
retire_changed-IsStep now previous ((node, connected) ∷ nodes) s =
    let before : Option Bool = elim previous [ none ↦ none | some old ↦ lookup node old ] in
    let same = before == some connected in
    let next = if same then s else retire_node node now s in
    IsStep-trans (either (IsStep s) same (IsStep-self s) (retire_node-IsStep node now s))
      (retire_changed-IsStep now previous nodes next)

note_transition-IsStep :
    (now : ℕ) (new : Option (Dict ℕ Bool)) (s : LogObservations)
    → IsStep s (note_transition now new s)
unfolding note_transition
note_transition-IsStep now new s =
    let known = is_known new in
    either (IsStep s) (if is_known s.required_nodes then known else not known) (IsStep-self s)
      (IsStep-quiet (omega arith) (omega arith) refl refl)

note_empty-IsStep :
    (now : ℕ) (new : Dict ℕ Bool) (previous : Option (Dict ℕ Bool)) (s : LogObservations)
    → IsStep s (note_empty now new previous s)
unfolding note_empty
note_empty-IsStep now new previous s =
    let had : Bool = elim previous [ none ↦ false | some old ↦ not (is_empty old) ] in
    either (IsStep s) (is_empty new && had) (IsStep-quiet (omega arith) (omega arith) refl refl)
      (IsStep-self s)

-- The states of other nodes are dropped.
Continues-keep_items :
    (next n : ℕ) (p : ℕ → Bool) (states : Dict ℕ NodeLogState)
    → Continues next (lookup n states) (lookup n (keep_items (λ node state. p node) states))
Continues-keep_items next n p states =
    rw (lookup-keep_items n p states)
      (either (Continues next (lookup n states)) (p n) (Continues-self next (lookup n states)) tt)

forget_others-IsStep : (new : Dict ℕ Bool) (s : LogObservations) → IsStep s (forget_others new s)
unfolding forget_others
forget_others-IsStep new s = record {
  generation_grows = omega arith;
  fault_grows = omega arith;
  next_grows = omega arith;
  continues =
      λ n. Continues-keep_items s.next_node_epoch n (λ node. has_key node new) s.node_states;
  numbered = λ n h.
      rw (lookup-keep_items n (λ node. has_key node new) s.node_states)
        (either (IsBelow s.next_node_epoch) (has_key n new) h tt);
}

adopt_fleet-IsStep :
    (now : ℕ) (previous new : Option (Dict ℕ Bool)) (s : LogObservations)
    → IsStep s (adopt_fleet now previous new s)
unfolding adopt_fleet
adopt_fleet-IsStep now previous none s = IsStep-self s
adopt_fleet-IsStep now previous (some new) s =
    let retired = retire_changed now previous new s in
    let emptied = note_empty now new previous retired in
    IsStep-trans (retire_changed-IsStep now previous new s)
      (IsStep-trans (note_empty-IsStep now new previous retired) (forget_others-IsStep new emptied))

refresh_required_nodes-IsStep :
    (now : ℕ) (s : LogObservations) → IsStep s (refresh_required_nodes now s)
unfolding refresh_required_nodes
refresh_required_nodes-IsStep now s =
    let new = required_nodes_of s in
    let noted = note_transition now new s in
    let f = note_transition-IsStep now new s in
    let named = record noted { required_nodes = new } in
    let g : IsStep s named = record {
      generation_grows = f.generation_grows;
      fault_grows = f.fault_grows;
      next_grows = f.next_grows;
      continues = f.continues;
      numbered = f.numbered;
    } in
    IsStep-trans g (adopt_fleet-IsStep now s.required_nodes new named)

note_fleet_gap-IsStep : (now : ℕ) (s : LogObservations) → IsStep s (note_fleet_gap now s)
unfolding note_fleet_gap
note_fleet_gap-IsStep now s =
    either (IsStep s)
      (is_known s.required_nodes && ltb (s.fleet_seen + node_silence_window s.interval) now)
      (IsStep-quiet (omega arith) (omega arith) refl refl) (IsStep-self s)

-- The panel's list changes the streams and versions only through `_refresh_required_nodes`.
pub register_fleet-IsStep :
    (now : ℕ) (nodes : Option (List (Option ℕ × String))) (s : LogObservations)
    → IsStep s (register_fleet now nodes s)
unfolding register_fleet
register_fleet-IsStep now nodes s =
    let noted = note_fleet_gap now s in
    let panel : Option (Dict ℕ String) = elim nodes [
      | none ↦ none
      | some list ↦ panel_dict list []
    ] in
    let excluded : List ℕ = elim panel [
      | none ↦ noted.excluded_panel_nodes
      | some dict ↦ excluded_of dict
    ] in
    let listed = record noted { panel_nodes = panel; excluded_panel_nodes = excluded } in
    let f = note_fleet_gap-IsStep now s in
    let f' : IsStep s listed = record {
      generation_grows = f.generation_grows;
      fault_grows = f.fault_grows;
      next_grows = f.next_grows;
      continues = f.continues;
      numbered = f.numbered;
    } in
    let g = IsStep-trans f' (refresh_required_nodes-IsStep now listed) in
    record {
      generation_grows = g.generation_grows;
      fault_grows = g.fault_grows;
      next_grows = g.next_grows;
      continues = g.continues;
      numbered = g.numbered;
    }

trim_node-IsStep : (now node : ℕ) (s : LogObservations) → IsStep s (trim_node now node s)
unfolding trim_node
trim_node-IsStep now node s =
    let (heap, cache) = expire_replay_cache now s.freshness (heap_of node s) (cache_of node s) in
    let f = evict-IsStep now node "cache_capacity_reduction" cache s in
    record {
      generation_grows = f.generation_grows;
      fault_grows = f.fault_grows;
      next_grows = f.next_grows;
      continues = f.continues;
      numbered = f.numbered;
    }

trim_each-IsStep :
    (now : ℕ) (nodes : List ℕ) (s : LogObservations) → IsStep s (trim_each now nodes s)
unfolding trim_each
trim_each-IsStep now [] s = IsStep-self s
trim_each-IsStep now (node ∷ nodes) s =
    IsStep-trans (trim_node-IsStep now node s) (trim_each-IsStep now nodes (trim_node now node s))

apply_sampling-IsStep :
    (interval capacity : Option ℕ) (s : LogObservations)
    → IsStep s (apply_sampling interval capacity s)
unfolding apply_sampling
apply_sampling-IsStep none capacity s = IsStep-quiet (omega arith) (omega arith) refl refl
apply_sampling-IsStep (some interval) none s = IsStep-quiet (omega arith) (omega arith) refl refl
apply_sampling-IsStep (some interval) (some capacity) s =
    IsStep-quiet (omega arith) (omega arith) refl refl

pub configure-IsStep :
    (is_zone : String → Bool) (now : ℕ) (settings : Settings) (s : LogObservations)
    → IsStep s (configure is_zone now settings s).1
unfolding configure invalidate apply_zones
configure-IsStep is_zone now settings s =
    let named = record (invalidate now s) {
      signature = some settings.signature;
      source = settings.source;
      disabled_nodes = settings.disabled_nodes;
      freshness = settings.freshness;
    } in
    let refreshed = record (refresh_required_nodes now named) { config_error = none } in
    let sampled = apply_sampling settings.interval settings.capacity refreshed in
    let zoned = apply_zones is_zone settings.zones settings.default_zone sampled in
    let f : IsStep s named = IsStep-quiet (omega arith) (omega arith) refl refl in
    let r = refresh_required_nodes-IsStep now named in
    let g : IsStep named refreshed = record {
      generation_grows = r.generation_grows;
      fault_grows = r.fault_grows;
      next_grows = r.next_grows;
      continues = r.continues;
      numbered = r.numbered;
    } in
    let h = apply_sampling-IsStep settings.interval settings.capacity refreshed in
    let k : IsStep sampled zoned = IsStep-quiet (omega arith) (omega arith) refl refl in
    either (λ (r : Bool × LogObservations). IsStep s r.1) (s.signature == some settings.signature)
      (IsStep-self s)
      (IsStep-trans f (
        IsStep-trans g
          (IsStep-trans h (IsStep-trans k (trim_each-IsStep now (keys zoned.seen) zoned)))))
