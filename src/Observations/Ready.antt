-- ===== src/Observations/Ready.antt =====
-- utils/log_observations.py: why a sample of the logs cannot be used. The diagnostics that are logged on
-- the way are left out.
use pg_limiter.Prelude.{
  ℕ, ◌+◌, max, Bool, true, false, not, ◌&&◌, ◌||◌, Option, none, some, List, [], ◌∷◌, ◌==◌, nat_eq,
  string_eq, ltb, if◌then◌else◌,
}
use pg_limiter.Prelude.Dict.{Dict, lookup, keys}
use pg_limiter.Observations.State.{ConfigError, NodeLogState, LogObservations}
use pg_limiter.Observations.Fleet.{is_known, zone, node_silence_window}

-- The messages: `ready` is the empty one, `of_node` the one that names a node.
pub data Reason : Type 0 where
  ready inactive waiting_fleet uncertain collecting outside no_zone disconnected : Reason
  waiting_transport : Reason
  refused : ConfigError → Reason
  of_node : ℕ → Reason → Reason

abbrev pub is_ready : Reason → Bool
is_ready ready = true
is_ready _ = false

abbrev pub is_collecting : Reason → Bool
is_collecting collecting = true
is_collecting _ = false

abbrev pub is_uncertain : Reason → Bool
is_uncertain uncertain = true
is_uncertain _ = false

unfoldable pub global_unavailable_reason : ℕ → LogObservations → Reason
unfolding node_silence_window
global_unavailable_reason now s =
    let warming =
      ltb now (max s.floor (max s.fleet_floor s.transport_floor) + max s.interval s.freshness) in
    let silent = ltb (s.fleet_seen + node_silence_window s.interval) now in
    if not (s.source == "logs") then inactive else elim s.config_error [
      | some error ↦ refused error
      | none ↦
          if not (is_known s.required_nodes) || silent
          then waiting_fleet
          else if ltb now s.global_uncertain_until
          then uncertain
          else if warming
          then collecting
          else ready
    ]

-- Whether the node is required, and connected.
unfoldable pub connection : ℕ → LogObservations → Option Bool
connection node s = elim s.required_nodes [ none ↦ none | some nodes ↦ lookup node nodes ]

unfoldable pub stream_reason : ℕ → Option NodeLogState → LogObservations → Reason
stream_reason now none s = collecting
stream_reason now (some state) s =
    if ltb now state.uncertain_until
    then uncertain
    else if ltb now (state.floor + max s.interval s.freshness)
    then collecting
    else ready

-- `last_event` is `NODE_LAST_EVENT`: a node that was never heard is silent.
unfoldable pub is_silent : Dict ℕ ℕ → ℕ → ℕ → LogObservations → Bool
unfolding node_silence_window
is_silent last_event now node s = elim (lookup node last_event) [
  | none ↦ true
  | some time ↦ ltb (time + node_silence_window s.interval) now
]

module _ (last_event : Dict ℕ ℕ) (now : ℕ) where
  unfoldable pub node_unavailable_reason : ℕ → LogObservations → Reason
  unfolding connection stream_reason is_silent zone
  node_unavailable_reason node s = elim (connection node s) [
    | none ↦ outside
    | some connected ↦
        if not (is_known (zone node s))
        then no_zone
        else if not connected
        then disconnected
        else if is_silent last_event now node s
        then waiting_transport
        else stream_reason now (lookup node s.node_states) s
  ]

  -- The first fault of a node, ahead of the wait for a complete interval.
  unfoldable pub first_fault : List ℕ → LogObservations → Reason
  unfolding node_unavailable_reason
  first_fault [] s = ready
  first_fault (node ∷ nodes) s =
      let reason = node_unavailable_reason node s in
      let rest = first_fault nodes s in
      if is_uncertain reason
      then uncertain
      else if not (is_ready reason) && not (is_collecting reason)
      then of_node node reason
      else rest

  unfoldable pub any_unavailable : List ℕ → LogObservations → Bool
  unfolding node_unavailable_reason
  any_unavailable [] s = false
  any_unavailable (node ∷ nodes) s =
      not (is_ready (node_unavailable_reason node s)) || any_unavailable nodes s

  abbrev pub required_ids : LogObservations → List ℕ
  required_ids s = elim s.required_nodes [ none ↦ [] | some nodes ↦ keys nodes ]

  unfoldable pub unavailable_reason : LogObservations → Reason
  unfolding global_unavailable_reason first_fault any_unavailable
  unavailable_reason s =
      let global = global_unavailable_reason now s in
      let ids = required_ids s in
      let fault = first_fault ids s in
      let waiting = not (is_ready global) || any_unavailable ids s in
      if not (is_ready global) && not (is_collecting global)
      then global
      else if not (is_ready fault)
      then fault
      else if waiting
      then collecting
      else ready
