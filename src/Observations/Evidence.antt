-- ===== src/Observations/Evidence.antt =====
-- utils/log_observations.py: what a sample is worth, and whether it still is. The ids of the nodes stand
-- in the order of the fleet. `revision` is what `get_config_revision()` answers.
use pg_limiter.Prelude.{
  ℕ, ◌-◌, Bool, true, false, not, ◌&&◌, ◌||◌, Option, none, some, List, [], ◌==◌, nat_eq,
  if◌then◌else◌, keep, all, contains, is_empty, map,
}
use pg_limiter.Prelude.Dict.{Dict, lookup, keys}
use pg_limiter.Observations.State.{LogObservations}
use pg_limiter.Observations.Fleet.{is_known, node_epoch}
use pg_limiter.Observations.Ready.{
  Reason, is_ready, global_unavailable_reason, node_unavailable_reason, unavailable_reason,
}

pub record LogSampleEvidence : Type 0 where
  pub generation : ℕ
  pub config_revision : ℕ
  pub interval_start : ℕ
  pub interval_end : ℕ
  pub fault_version : ℕ
  pub unavailable : Reason
  pub eligible_node_ids : Option (List ℕ)
  pub required_node_ids : Option (List ℕ)
  pub node_versions : List (ℕ × ℕ)
  pub coverage_complete : Bool
  pub freshness_seconds : ℕ

-- The equality of two sets.
abbrev pub same_set : List ℕ → List ℕ → Bool
same_set xs ys = all (contains xs) ys && all (contains ys) xs

abbrev pub same_option_set : Option (List ℕ) → Option (List ℕ) → Bool
same_option_set none none = true
same_option_set (some xs) (some ys) = same_set xs ys
same_option_set _ _ = false

abbrev pub or_empty : Option (List ℕ) → List ℕ
or_empty none = []
or_empty (some xs) = xs

abbrev pub required_set : LogObservations → Option (List ℕ)
required_set s = elim s.required_nodes [ none ↦ none | some nodes ↦ some (keys nodes) ]

module _ (last_event : Dict ℕ ℕ) (revision now : ℕ) where
  unfoldable pub eligible_nodes : LogObservations → List ℕ
  unfolding global_unavailable_reason node_unavailable_reason
  eligible_nodes s =
      if is_ready (global_unavailable_reason now s)
      then keep (λ node. is_ready (node_unavailable_reason last_event now node s))
          (or_empty (required_set s))
      else []

  unfoldable pub evidence : LogObservations → LogSampleEvidence
  unfolding eligible_nodes unavailable_reason node_epoch
  evidence s =
      let eligible = eligible_nodes s in
      record {
        generation = s.generation;
        config_revision = revision;
        interval_start = now - s.freshness;
        interval_end = now;
        fault_version = s.fault_version;
        unavailable = unavailable_reason last_event now s;
        eligible_node_ids = if is_known (required_set s) then some eligible else none;
        required_node_ids = required_set s;
        node_versions = map (λ node. (node, node_epoch node s)) eligible;
        coverage_complete =
            is_known (required_set s)
            && same_set eligible (or_empty (required_set s))
            && is_ready (global_unavailable_reason now s);
        freshness_seconds = s.freshness;
      }

  unfoldable pub globally_current : LogSampleEvidence → LogObservations → Bool
  globally_current e s =
      e.generation == s.generation
      && e.config_revision == revision
      && e.fault_version == s.fault_version
      && is_known e.required_node_ids
      && is_ready (global_unavailable_reason now s)

  -- The stream of the node is the one of the sample, and it can be used.
  unfoldable pub witness_stands : ℕ × ℕ → LogObservations → Bool
  unfolding node_unavailable_reason
  witness_stands (node, epoch) s = elim (lookup node s.node_states) [
    | none ↦ false
    | some state ↦ state.epoch == epoch && is_ready (node_unavailable_reason last_event now node s)
  ]

  unfoldable pub same_fleet : LogSampleEvidence → LogObservations → Bool
  same_fleet e s = same_option_set e.required_node_ids (some (or_empty (required_set s)))

  unfoldable pub is_current : Bool → LogSampleEvidence → LogObservations → Bool
  unfolding globally_current witness_stands same_fleet unavailable_reason
  is_current allow_partial e s =
      let strict =
        e.coverage_complete
        && is_ready e.unavailable
        && same_fleet e s
        && is_ready (unavailable_reason last_event now s) in
      globally_current e s
      && (not e.coverage_complete || same_fleet e s)
      && (allow_partial || strict)
      && (not (is_empty (or_empty e.eligible_node_ids)) || e.coverage_complete)
      && all (λ version. witness_stands version s) e.node_versions

  unfoldable pub version_survives : LogObservations → ℕ × ℕ → Bool
  unfolding node_epoch node_unavailable_reason
  version_survives s (node, epoch) =
      node_epoch node s == epoch && is_ready (node_unavailable_reason last_event now node s)

  abbrev nodes_of : List (ℕ × ℕ) → List ℕ
  nodes_of versions = map (λ version. version.0) versions

  unfoldable pub surviving : LogSampleEvidence → LogObservations → LogSampleEvidence
  unfolding version_survives
  surviving e s =
      let versions = keep (version_survives s) e.node_versions in
      let eligible = nodes_of versions in
      record e {
        node_versions = versions;
        eligible_node_ids = some eligible;
        coverage_complete =
            e.coverage_complete
            && same_option_set (some eligible) e.eligible_node_ids
            && same_fleet e s;
      }

  unfoldable pub retain_current_nodes :
      LogSampleEvidence → LogObservations → Option LogSampleEvidence
  unfolding is_current surviving
  retain_current_nodes e s =
      let retained = surviving e s in
      if is_current true e s
      then some e
      else if is_current true retained s
      then some retained
      else none
