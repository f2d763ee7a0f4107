-- ===== src/Observations/Coverage.antt =====
-- utils/log_observations.py: `evidence` against `unavailable_reason` and `is_current`.
use pg_limiter.Prelude.{
  ℕ, Bool, true, false, not, ◌&&◌, ◌||◌, ◌≡◌, refl, inl, inr, List, [], ◌∷◌, nat_eq, keep, all,
  contains, is_empty, map, arith, either, Bool-cases,
}
use pg_limiter.Prelude.Dict.{Dict, lookup}
use pg_limiter.Observations.State.{LogObservations}
use pg_limiter.Observations.Fleet.{is_known, node_epoch}
use pg_limiter.Observations.Ready.{
  is_ready, global_unavailable_reason, node_unavailable_reason, unavailable_reason, first_fault,
  any_unavailable, required_ids, stream_reason,
}
use pg_limiter.Observations.Evidence.{
  LogSampleEvidence, evidence, eligible_nodes, is_current, globally_current, witness_stands,
  same_set, same_fleet, required_set, or_empty,
}

pub contains-keep :
    (p : ℕ → Bool) (xs : List ℕ) (a : ℕ) → contains (keep p xs) a ≡ (p a && contains xs a)
contains-keep p [] a = ground arith
contains-keep p (x ∷ xs) a = ground (arith, contains-keep p xs a, nat_eq.beq_iff a x)

all-weaken :
    (p q : ℕ → Bool) (xs : List ℕ)
    → ((a : ℕ) → p a ≡ true → q a ≡ true)
    → all p xs ≡ true
    → all q xs ≡ true
all-weaken p q [] h k = refl
all-weaken p q (x ∷ xs) h k = ground (arith, h x, all-weaken p q xs h)

all-contains : (xs : List ℕ) → all (contains xs) xs ≡ true
all-contains [] = refl
all-contains (x ∷ xs) = ground (
  arith,
  all-weaken (contains xs) (contains (x ∷ xs)) xs (λ a h. ground arith),
  all-contains xs,
  nat_eq.beq_iff x x,
)

same_set_self : (xs : List ℕ) → same_set xs xs ≡ true
same_set_self xs = ground (arith, all-contains xs)

all-contains-keep :
    (p : ℕ → Bool) (xs ys : List ℕ)
    → all (contains ys) xs ≡ true
    → all (contains (keep p ys)) xs ≡ all p xs
all-contains-keep p [] ys h = refl
all-contains-keep p (x ∷ xs) ys h = ground (arith, contains-keep p ys x, all-contains-keep p xs ys)

all-keep : (p q : ℕ → Bool) (xs : List ℕ) → all q xs ≡ true → all q (keep p xs) ≡ true
all-keep p q [] h = refl
all-keep p q (x ∷ xs) h = ground (arith, all-keep p q xs)

-- The elements with a property are all the elements exactly if all have it.
same_set-keep : (p : ℕ → Bool) (xs : List ℕ) → same_set (keep p xs) xs ≡ all p xs
same_set-keep p xs = ground (
  arith,
  all-contains-keep p xs xs (all-contains xs),
  all-keep p (contains xs) xs (all-contains xs),
)

module _ (last_event : Dict ℕ ℕ) (now : ℕ) (s : LogObservations) where
  abbrev node_ready : ℕ → Bool
  node_ready node = is_ready (node_unavailable_reason last_event now node s)

  any_unavailable-all :
      (nodes : List ℕ) → any_unavailable last_event now nodes s ≡ not (all node_ready nodes)
  unfolding any_unavailable
  any_unavailable-all [] = refl
  any_unavailable-all (node ∷ nodes) = ground (arith, any_unavailable-all nodes)

  first_fault-ready :
      (nodes : List ℕ)
      → all node_ready nodes ≡ true
      → is_ready (first_fault last_event now nodes s) ≡ true
  unfolding first_fault
  first_fault-ready [] h = refl
  first_fault-ready (node ∷ nodes) h = ground (arith, first_fault-ready nodes)

  -- The reason is empty exactly if the fleet as a whole and every node are ready.
  pub unavailable_reason-ready : is_ready (unavailable_reason last_event now s) ≡ (
      is_ready (global_unavailable_reason now s) && all node_ready (required_ids last_event now s))
  unfolding unavailable_reason
  unavailable_reason-ready =
      let ids = required_ids last_event now s in
      ground (arith, any_unavailable-all ids, first_fault-ready ids)

global-known :
    (now : ℕ) (s : LogObservations)
    → is_ready (global_unavailable_reason now s) ≡ true
    → is_known (required_set s) ≡ true
unfolding global_unavailable_reason
global-known now s h = ground arith

required_ids-set :
    (last_event : Dict ℕ ℕ) (now : ℕ) (s : LogObservations)
    → required_ids last_event now s ≡ or_empty (required_set s)
required_ids-set last_event now s = ground arith

module _ (last_event : Dict ℕ ℕ) (revision now : ℕ) (s : LogObservations) where
  -- The nodes that are eligible are all of the fleet exactly if each is ready.
  pub eligible-all :
      is_ready (global_unavailable_reason now s) ≡ true
      → same_set (eligible_nodes last_event revision now s) (or_empty (required_set s))
        ≡ all (node_ready last_event now s) (or_empty (required_set s))
  unfolding eligible_nodes
  eligible-all h = rw h (same_set-keep (node_ready last_event now s) (or_empty (required_set s)))

  -- A sample covers the fleet exactly if no reason stands against it.
  pub evidence_complete :
      let e = evidence last_event revision now s in e.coverage_complete ≡ is_ready e.unavailable
  unfolding evidence eligible_nodes
  evidence_complete = ground (
    arith,
    eligible-all,
    unavailable_reason-ready last_event now s,
    required_ids-set last_event now s,
    global-known now s,
  )

  ready-known :
      (node : ℕ)
      → node_ready last_event now s node ≡ true
      → is_known (lookup node s.node_states) ≡ true
  unfolding node_unavailable_reason stream_reason
  ready-known node h = ground arith

  ready-stands :
      (node : ℕ)
      → node_ready last_event now s node ≡ true
      → witness_stands last_event revision now (node, node_epoch node s) s ≡ true
  unfolding witness_stands node_epoch
  ready-stands node h = ground (arith, ready-known node h, λ (n : ℕ). nat_eq.beq_iff n n)

  -- Each node of the sample has the stream that the sample names.
  stands_each :
      (nodes : List ℕ)
      → all
          (λ version. witness_stands last_event revision now version s)
          (map (λ node. (node, node_epoch node s)) (keep (node_ready last_event now s) nodes))
        ≡ true
  stands_each [] = refl
  stands_each (node ∷ nodes) = elim (Bool-cases (node_ready last_event now s node)) [
    | inl e ↦ rw (e, ready-stands node e) (stands_each nodes)
    | inr e ↦ rw e (stands_each nodes)
  ]

  abbrev taken : LogSampleEvidence
  taken = evidence last_event revision now s

  taken-globally_current :
      globally_current last_event revision now taken s
      ≡ (is_known (required_set s) && is_ready (global_unavailable_reason now s))
  unfolding globally_current evidence
  taken-globally_current = ground (
    arith,
    nat_eq.beq_iff s.generation s.generation,
    nat_eq.beq_iff revision revision,
    nat_eq.beq_iff s.fault_version s.fault_version,
  )

  taken-same_fleet : same_fleet last_event revision now taken s ≡ is_known (required_set s)
  unfolding same_fleet evidence
  taken-same_fleet = ground (arith, same_set_self (or_empty (required_set s)))

  taken-stands :
      all (λ version. witness_stands last_event revision now version s) taken.node_versions ≡ true
  unfolding evidence eligible_nodes
  taken-stands =
      either
        (λ list.
          all (λ version. witness_stands last_event revision now version s)
            (map (λ n. (n, node_epoch n s)) list)
          ≡ true)
        (is_ready (global_unavailable_reason now s)) (stands_each (or_empty (required_set s))) refl

  taken-reason : taken.unavailable ≡ unavailable_reason last_event now s
  unfolding evidence
  taken-reason = refl

  taken-parts :
      (taken.coverage_complete ≡ true
        → is_known (required_set s) && is_ready (global_unavailable_reason now s) ≡ true)
      × (is_empty (or_empty taken.eligible_node_ids) ≡ false
          → is_known (required_set s) && is_ready (global_unavailable_reason now s) ≡ true)
  unfolding evidence eligible_nodes
  taken-parts = ground (arith, global-known now s)

  -- At the time it is taken a sample is current: in full exactly if it covers the fleet, and in part
  -- exactly if it covers the fleet or has an eligible node.
  pub is_current-evidence :
      let e = evidence last_event revision now s in
      (is_current last_event revision now false e s ≡ e.coverage_complete)
      × (is_current last_event revision now true e s
          ≡ (e.coverage_complete || not (is_empty (or_empty e.eligible_node_ids))))
  unfolding is_current
  is_current-evidence = ground (
    arith, evidence_complete, taken-reason, taken-globally_current, taken-same_fleet, taken-stands,
    taken-parts,
  )
