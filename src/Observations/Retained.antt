-- ===== src/Observations/Retained.antt =====
-- utils/log_observations.py: what a sample still covers after `retain_current_nodes`.
use pg_limiter.Prelude.{
  ℕ, ◌≡◌, refl, sym, ap, ◌∙◌, Bool, true, ◌==◌, Option, none, some, List, [], ◌∷◌, nat_eq, pair_eq,
  pair_beq_iff, contains, keep, all, map, arith, Bool-cases, inl, inr, subst, if◌then◌else◌, false,
}
use pg_limiter.Prelude.Dict.{Dict}
use pg_limiter.Observations.State.{LogObservations}
use pg_limiter.Observations.Fleet.{is_known, node_epoch}
use pg_limiter.Observations.Ready.{is_ready, node_unavailable_reason}
use pg_limiter.Observations.Evidence.{
  LogSampleEvidence, evidence, eligible_nodes, is_current, retain_current_nodes, surviving,
  version_survives, witness_stands, same_set, same_fleet, required_set, or_empty, same_option_set,
}
use pg_limiter.Observations.Epochs.{contains-map}

module _ (epoch_of : ℕ → ℕ) where
  abbrev witness : ℕ → ℕ × ℕ
  witness node = (node, epoch_of node)

  -- What holds of all the witnesses holds of the one of a node.
  all-witness :
      (q : ℕ × ℕ → Bool) (nodes : List ℕ) (node : ℕ)
      → all q (map witness nodes) ≡ true
      → contains nodes node ≡ true
      → q (witness node) ≡ true
  all-witness q [] node h k = cc
  all-witness q (n ∷ nodes) node h k = elim (Bool-cases (node == n)) [
    | inl e ↦
        let same : node ≡ n = ground (arith, nat_eq.beq_iff node n) in
        subst (λ m. q (witness m) ≡ true) (sym same) (ground arith)
    | inr e ↦ all-witness q nodes node (ground arith) (ground arith)
  ]

  -- A node of a kept witness has its own witness among the kept ones.
  kept-witness :
      (q : ℕ × ℕ → Bool) (nodes : List ℕ) (node : ℕ)
      → contains (map (λ version. version.0) (keep q (map witness nodes))) node ≡ true
      → (q (witness node) ≡ true) × (contains (keep q (map witness nodes)) (witness node) ≡ true)
  kept-witness q [] node h = cc
  kept-witness q (n ∷ nodes) node h = elim (Bool-cases (q (witness n))) [
    | inl holds ↦ elim (Bool-cases (node == n)) [
      | inl e ↦
          let same : node ≡ n = ground (arith, nat_eq.beq_iff node n) in
          (
            subst (λ m. q (witness m) ≡ true) (sym same) holds,
            ground (arith, pair_beq_iff (witness node) (witness n), ap witness same),
          )
      | inr e ↦ let (a, b) = kept-witness q nodes node (ground arith) in (a, ground arith)
    ]
    | inr fails ↦ let (a, b) = kept-witness q nodes node (ground arith) in (a, ground arith)
  ]

same_set-contains :
    (xs ys : List ℕ) (a : ℕ) → same_set xs ys ≡ true → contains ys a ≡ true → contains xs a ≡ true
same_set-contains xs ys a h k = all-in xs ys (ground arith) k
  where
    all-in :
        (zs us : List ℕ) → all (contains zs) us ≡ true → contains us a ≡ true → contains zs a ≡ true
    all-in zs [] p q = cc
    all-in zs (u ∷ us) p q = ground (arith, all-in zs us, nat_eq.beq_iff a u)

same_option_set-contains :
    (o : Option (List ℕ)) (ys : List ℕ) (a : ℕ)
    → same_option_set o (some ys) ≡ true
    → contains ys a ≡ true
    → contains (or_empty o) a ≡ true
same_option_set-contains none ys a h k = cc
same_option_set-contains (some xs) ys a h k = same_set-contains xs ys a h k

same_option_set-known :
    (known : Bool) (xs ys : List ℕ)
    → same_option_set (some xs) (if known then some ys else none) ≡ true
    → same_set xs ys ≡ true
same_option_set-known true xs ys h = h
same_option_set-known false xs ys h = cc

module _ (last_event : Dict ℕ ℕ) (revision now : ℕ) (s : LogObservations) where
  stands-survives :
      (node epoch : ℕ)
      → witness_stands last_event revision now (node, epoch) s ≡ true
      → version_survives last_event revision now s (node, epoch) ≡ true
  unfolding witness_stands version_survives node_epoch
  stands-survives node epoch h = ground arith

  -- The node has its stream of the sample, which can be used, and it is a witness of r.
  abbrev Witnessed : LogObservations → LogSampleEvidence → ℕ → Type 0
  Witnessed s0 r node =
      (node_epoch node s ≡ node_epoch node s0)
      × (is_ready (node_unavailable_reason last_event now node s) ≡ true)
      × (contains r.node_versions (node, node_epoch node s) ≡ true)

  survives-Witnessed :
      (s0 : LogObservations) (r : LogSampleEvidence) (node : ℕ)
      → version_survives last_event revision now s (node, node_epoch node s0) ≡ true
      → contains r.node_versions (node, node_epoch node s0) ≡ true
      → Witnessed s0 r node
  unfolding version_survives
  survives-Witnessed s0 r node h k =
      let same : node_epoch node s ≡ node_epoch node s0 =
        ground (arith, nat_eq.beq_iff (node_epoch node s) (node_epoch node s0)) in
      (
        same,
        ground arith,
        subst (λ epoch. contains {A = ℕ × ℕ} r.node_versions (node, epoch) ≡ true) (sym same) k,
      )

  module _ (last_event0 : Dict ℕ ℕ) (revision0 now0 : ℕ) (s0 : LogObservations) (node : ℕ)
      (required : contains (or_empty (required_set s)) node ≡ true) where
    abbrev sample : LogSampleEvidence
    sample = evidence last_event0 revision0 now0 s0

    abbrev taken : List ℕ
    taken = eligible_nodes last_event0 revision0 now0 s0

    -- A sample that covers the present fleet has the node.
    fleet-taken :
        sample.coverage_complete ≡ true
        → same_fleet last_event revision now sample s ≡ true
        → contains taken node ≡ true
    unfolding evidence same_fleet
    fleet-taken complete same =
        same_set-contains taken (or_empty (required_set s0)) node (ground arith) (
          same_option_set-contains (required_set s0) (or_empty (required_set s)) node same required)

    current-Witnessed :
        is_current last_event revision now true sample s ≡ true
        → sample.coverage_complete ≡ true
        → Witnessed s0 sample node
    unfolding is_current evidence
    current-Witnessed current complete =
        let has = fleet-taken complete (ground arith) in
        let stands =
          all-witness (λ n. node_epoch n s0) (λ v. witness_stands last_event revision now v s) taken
            node (ground arith) has in
        survives-Witnessed s0 sample node (stands-survives node (node_epoch node s0) stands)
          (contains-map (λ n. node_epoch n s0) taken node has)

    surviving-Witnessed :
        let r = surviving last_event revision now sample s in
        r.coverage_complete ≡ true → Witnessed s0 r node
    unfolding surviving evidence
    surviving-Witnessed complete =
        let r = surviving last_event revision now sample s in
        let has = fleet-taken (ground arith) (ground arith) in
        let left =
          same_set-contains (or_empty r.eligible_node_ids) taken node
            (same_option_set-known (is_known (required_set s0)) (or_empty r.eligible_node_ids) taken
              (ground arith))
            has in
        let (a, b) =
          kept-witness (λ n. node_epoch n s0) (version_survives last_event revision now s) taken
            node left in
        survives-Witnessed s0 r node a b

    from_some :
        (x r : LogSampleEvidence)
        → some x ≡ some r
        → r.coverage_complete ≡ true
        → (x.coverage_complete ≡ true → Witnessed s0 x node)
        → Witnessed s0 r node
    from_some x r h complete p =
        let or_else : Option LogSampleEvidence → LogSampleEvidence =
          λ o. elim o [ none ↦ x | some y ↦ y ] in
        let same : x ≡ r = ap or_else h in
        subst (λ y. Witnessed s0 y node) same (p (ap (λ y. y.coverage_complete) same ∙ complete))

    -- A retained sample still claims the fleet only where no stream of the fleet has ended: if what
    -- retain_current_nodes keeps of a sample of the state s0 is marked as complete, then each node that
    -- is required now is one of its witnesses, with the epoch that the node had in s0, and can be used.
    pub retain_current_nodes_complete :
        (r : LogSampleEvidence)
        → retain_current_nodes last_event revision now sample s ≡ some r
        → r.coverage_complete ≡ true
        → (node_epoch node s ≡ node_epoch node s0)
          × (is_ready (node_unavailable_reason last_event now node s) ≡ true)
          × (contains r.node_versions (node, node_epoch node s) ≡ true)
    unfolding retain_current_nodes
    retain_current_nodes_complete r h complete =
        let retained = surviving last_event revision now sample s in
        elim (Bool-cases (is_current last_event revision now true sample s)) [
          | inl a ↦
              from_some sample r (sym (rw (retain_current_nodes, a) refl) ∙ h) complete
                (current-Witnessed a)
          | inr a ↦ elim (Bool-cases (is_current last_event revision now true retained s)) [
            | inl b ↦
                from_some retained r (sym (rw (retain_current_nodes, a, b) refl) ∙ h) complete
                  surviving-Witnessed
            | inr b ↦ cc
          ]
        ]
