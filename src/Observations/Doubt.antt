-- ===== src/Observations/Doubt.antt =====
-- utils/log_observations.py: until when a node is in doubt, under each operation.
use pg_limiter.Prelude.{
  ℕ, suc, ◌+◌, ◌∙◌, ◌≤◌, max, either, ap, ◌≡◌, refl, Option, none, some, String, nat_eq, option_eq,
  arith,
}
use pg_limiter.Prelude.Dict.{Dict, lookup, insert, lookup-insert, lookup-insert_self}
use pg_limiter.Observations.State.{
  LogObservations, NodeLogState, retire_node, blame, blame_node, blame_all, mark_uncertain,
  clear_episode, retired, note_transport_gap, ensure_node, doubted, retire_witnesses, is_required,
}

abbrev pub state_until : Option NodeLogState → ℕ
state_until none = 0
state_until (some state) = state.uncertain_until

-- The time until which no sample of the node is trusted.
abbrev pub doubt : ℕ → LogObservations → ℕ
doubt node s = max s.global_uncertain_until (state_until (lookup node s.node_states))

-- What an operation leaves as it is, where it only records a fault.
pub record IsFault (s s' : LogObservations) : Type 0 where
  pub seen_kept : s'.seen ≡ s.seen
  pub seen_expiry_kept : s'.seen_expiry ≡ s.seen_expiry
  pub freshness_kept : s'.freshness ≡ s.freshness
  pub capacity_kept : s'.capacity ≡ s.capacity
  pub doubt_kept : (node : ℕ) → doubt node s ≤ doubt node s'

abbrev pub refl_fault : (s : LogObservations) → IsFault s s
refl_fault s = record {
  seen_kept = refl;
  seen_expiry_kept = refl;
  freshness_kept = refl;
  capacity_kept = refl;
  doubt_kept = λ n. omega arith;
}

pub IsFault_trans : {s t u : LogObservations} → IsFault s t → IsFault t u → IsFault s u
IsFault_trans p q = record {
  seen_kept = q.seen_kept ∙ p.seen_kept;
  seen_expiry_kept = q.seen_expiry_kept ∙ p.seen_expiry_kept;
  freshness_kept = q.freshness_kept ∙ p.freshness_kept;
  capacity_kept = q.capacity_kept ∙ p.capacity_kept;
  doubt_kept = λ n. omega (arith, p.doubt_kept n, q.doubt_kept n);
}

-- A node's own deadline after its state is replaced.
state_until-insert :
    (node n : ℕ) (state : NodeLogState) (states : Dict ℕ NodeLogState)
    → state_until (lookup node states) ≤ state.uncertain_until
    → state_until (lookup n states) ≤ state_until (lookup n (insert node state states))
state_until-insert node n state states h =
    ground (arith, lookup-insert node n state states, nat_eq.beq_iff n node)

doubted_until :
    (epoch deadline : ℕ) (o : Option NodeLogState)
    → deadline ≤ (doubted epoch deadline o).uncertain_until
doubted_until epoch deadline none = omega arith
doubted_until epoch deadline (some state) = omega arith

state_until-retired :
    (node n epoch when : ℕ) (states : Dict ℕ NodeLogState)
    → let states' = insert node (retired epoch when (lookup node states)) states in
      state_until (lookup n states) ≤ state_until (lookup n states')
state_until-retired node n epoch when states =
    let old = lookup node states in
    state_until-insert node n (retired epoch when old) states (go old)
  where
    go : (o : Option NodeLogState) → state_until o ≤ (retired epoch when o).uncertain_until
    go none = omega arith
    go (some state) = omega arith

state_until-doubted :
    (node n epoch deadline : ℕ) (states : Dict ℕ NodeLogState)
    → let states' = insert node (doubted epoch deadline (lookup node states)) states in
      state_until (lookup n states) ≤ state_until (lookup n states')
state_until-doubted node n epoch deadline states =
    let old = lookup node states in
    state_until-insert node n (doubted epoch deadline old) states (go old)
  where
    go : (o : Option NodeLogState) → state_until o ≤ (doubted epoch deadline o).uncertain_until
    go none = omega arith
    go (some state) = omega arith

pub retire_node-IsFault :
    (node when : ℕ) (s : LogObservations) → IsFault s (retire_node node when s)
unfolding retire_node
retire_node-IsFault node when s = record {
  seen_kept = refl;
  seen_expiry_kept = refl;
  freshness_kept = refl;
  capacity_kept = refl;
  doubt_kept =
      λ n. omega (arith, state_until-retired node n (suc s.next_node_epoch) when s.node_states);
}

retire_witnesses-IsFault :
    (deadline node : ℕ) (s : LogObservations) → IsFault s (retire_witnesses deadline node s)
unfolding retire_witnesses
retire_witnesses-IsFault deadline node s = record {
  seen_kept = refl;
  seen_expiry_kept = refl;
  freshness_kept = refl;
  capacity_kept = refl;
  doubt_kept =
      λ n. omega (arith, state_until-doubted node n (suc s.next_node_epoch) deadline s.node_states);
}

ensure_node-IsFault :
    (now node : ℕ) (o : Option NodeLogState) (s : LogObservations)
    → IsFault s (ensure_node now node o s)
unfolding ensure_node
ensure_node-IsFault now node none s = retire_node-IsFault node now s
ensure_node-IsFault now node (some state) s = refl_fault s

blame_node-IsFault :
    (now deadline node : ℕ) (s : LogObservations) → IsFault s (blame_node now deadline node s)
unfolding blame_node
blame_node-IsFault now deadline node s =
    let o = lookup node s.node_states in
    IsFault_trans (ensure_node-IsFault now node o s)
      (retire_witnesses-IsFault deadline node (ensure_node now node o s))

blame_all-IsFault : (deadline : ℕ) (s : LogObservations) → IsFault s (blame_all deadline s)
unfolding blame_all
blame_all-IsFault deadline s = record {
  seen_kept = refl;
  seen_expiry_kept = refl;
  freshness_kept = refl;
  capacity_kept = refl;
  doubt_kept = λ n. omega arith;
}

pub note_transport_gap-IsFault :
    (when : ℕ) (node : Option ℕ) (s : LogObservations) → IsFault s (note_transport_gap when node s)
unfolding note_transport_gap
note_transport_gap-IsFault when (some node) s = retire_node-IsFault node when s
note_transport_gap-IsFault when none s = record {
  seen_kept = refl;
  seen_expiry_kept = refl;
  freshness_kept = refl;
  capacity_kept = refl;
  doubt_kept = λ n. omega arith;
}

blame-IsFault :
    (now deadline : ℕ) (node : Option ℕ) (s : LogObservations)
    → IsFault s (blame now deadline node s)
unfolding blame
blame-IsFault now deadline none s = blame_all-IsFault deadline s
blame-IsFault now deadline (some node) s =
    either (IsFault s) (is_required (some node) s) (blame_node-IsFault now deadline node s)
      (blame_all-IsFault deadline s)

-- The node that is blamed is in doubt until the deadline.
blame-doubt :
    (now deadline node : ℕ) (s : LogObservations)
    → deadline ≤ doubt node (blame now deadline (some node) s)
unfolding blame blame_node blame_all retire_witnesses
blame-doubt now deadline node s =
    let o = lookup node s.node_states in
    let s' = ensure_node now node o s in
    let old = lookup node s'.node_states in
    let state = doubted (suc s'.next_node_epoch) deadline old in
    either (λ r. deadline ≤ doubt node r) (is_required (some node) s)
      (omega (
        arith,
        ap state_until (lookup-insert_self node state s'.node_states),
        doubted_until (suc s'.next_node_epoch) deadline old,
      ))
      (omega arith)

module _ (now : ℕ) (until : Option ℕ) (node : Option ℕ) (reason : String)
    (s : LogObservations) where
  pub mark_uncertain-IsFault : IsFault s (mark_uncertain now until node reason s)
  unfolding mark_uncertain clear_episode
  mark_uncertain-IsFault =
      let deadline : ℕ = elim until [ none ↦ now + s.freshness | some time ↦ time ] in
      let cleared = clear_episode now s in
      let dated = record cleared { uncertain_until = max cleared.uncertain_until deadline } in
      let f = blame-IsFault now deadline node dated in
      record {
        seen_kept = f.seen_kept;
        seen_expiry_kept = f.seen_expiry_kept;
        freshness_kept = f.freshness_kept;
        capacity_kept = f.capacity_kept;
        doubt_kept = f.doubt_kept;
      }

pub mark_uncertain-doubt :
    (now deadline node : ℕ) (reason : String) (s : LogObservations)
    → deadline ≤ doubt node (mark_uncertain now (some deadline) (some node) reason s)
unfolding mark_uncertain clear_episode
mark_uncertain-doubt now deadline node reason s =
    let cleared = clear_episode now s in
    blame-doubt now deadline node
      (record cleared { uncertain_until = max cleared.uncertain_until deadline })
