-- ===== src/Observations/Steps.antt =====
-- utils/log_observations.py: how the versions and epochs move under each operation.
use pg_limiter.Prelude.{
  ℕ, suc, ◌+◌, ◌≤◌, ◌<◌, max, ◌≡◌, refl, ◌⊎◌, inl, inr, Option, none, some, String, ◌==◌, nat_eq,
  bool_eq, option_eq, arith, either, Bool-cases,
}
use pg_limiter.Prelude.Dict.{Dict, lookup, insert, lookup-insert}
use pg_limiter.Observations.State.{
  LogObservations, NodeLogState, retire_node, blame, blame_node, blame_all, mark_uncertain,
  clear_episode, note_transport_gap, is_required, ensure_node, doubted, retired, retire_witnesses,
}

-- A stream that stays keeps its epoch, or gets one that no stream has had.
abbrev pub Continues : ℕ → Option NodeLogState → Option NodeLogState → Type 0
Continues next old none = Unit
Continues next none (some new) = next < new.epoch
Continues next (some old) (some new) = (new.epoch ≡ old.epoch) ⊎ (next < new.epoch)

-- The epoch is one that was given out.
abbrev pub IsBelow : ℕ → Option NodeLogState → Type 0
IsBelow next none = Unit
IsBelow next (some state) = state.epoch ≤ next

pub record IsStep (s s' : LogObservations) : Type 0 where
  pub generation_grows : s.generation ≤ s'.generation
  pub fault_grows : s.fault_version ≤ s'.fault_version
  pub next_grows : s.next_node_epoch ≤ s'.next_node_epoch
  pub continues :
      (node : ℕ)
      → Continues s.next_node_epoch (lookup node s.node_states) (lookup node s'.node_states)
  pub numbered :
      (node : ℕ)
      → IsBelow s.next_node_epoch (lookup node s.node_states)
      → IsBelow s'.next_node_epoch (lookup node s'.node_states)

pub Continues-self : (next : ℕ) (o : Option NodeLogState) → Continues next o o
Continues-self next none = tt
Continues-self next (some state) = inl refl

Continues-trans :
    (m n : ℕ) (a b c : Option NodeLogState)
    → m ≤ n
    → Continues m a b
    → Continues n b c
    → Continues m a c
Continues-trans m n a b none le p q = tt
Continues-trans m n none none (some z) le p q = omega arith
Continues-trans m n none (some y) (some z) le p q = ground arith
Continues-trans m n (some x) none (some z) le p q = inr (omega arith)
Continues-trans m n (some x) (some y) (some z) le p q = ground arith

pub IsStep-trans : {s t u : LogObservations} → IsStep s t → IsStep t u → IsStep s u
IsStep-trans {s} {t} {u} p q = record {
  generation_grows = omega (arith, p.generation_grows, q.generation_grows);
  fault_grows = omega (arith, p.fault_grows, q.fault_grows);
  next_grows = omega (arith, p.next_grows, q.next_grows);
  continues = λ n.
      Continues-trans s.next_node_epoch t.next_node_epoch (lookup n s.node_states)
        (lookup n t.node_states) (lookup n u.node_states) p.next_grows (p.continues n)
        (q.continues n);
  numbered = λ n h. q.numbered n (p.numbered n h);
}

-- An operation that leaves the streams as they are.
module _ {s s' : LogObservations} where
  pub IsStep-quiet :
      s.generation ≤ s'.generation
      → s.fault_version ≤ s'.fault_version
      → s'.next_node_epoch ≡ s.next_node_epoch
      → s'.node_states ≡ s.node_states
      → IsStep s s'
  IsStep-quiet g f n e = record {
    generation_grows = g;
    fault_grows = f;
    next_grows = omega arith;
    continues = λ node. rw e (Continues-self s.next_node_epoch (lookup node s.node_states));
    numbered = λ node h. rw (n, e) h;
  }

pub IsStep-self : (s : LogObservations) → IsStep s s
IsStep-self s = IsStep-quiet (omega arith) (omega arith) refl refl

-- A node that gets a new epoch.
Continues-insert :
    (next node n : ℕ) (state : NodeLogState) (states : Dict ℕ NodeLogState)
    → next < state.epoch
    → Continues next (lookup n states) (lookup n (insert node state states))
Continues-insert next node n state states h = elim (Bool-cases (n == node)) [
  | inl e ↦ rw (lookup-insert node n state states, e) (newer (lookup n states))
  | inr e ↦ rw (lookup-insert node n state states, e) (Continues-self next (lookup n states))
]
  where
    newer : (o : Option NodeLogState) → Continues next o (some state)
    newer none = h
    newer (some old) = inr h

IsBelow-insert :
    (next node n : ℕ) (state : NodeLogState) (states : Dict ℕ NodeLogState)
    → state.epoch ≤ suc next
    → IsBelow next (lookup n states)
    → IsBelow (suc next) (lookup n (insert node state states))
IsBelow-insert next node n state states le h = elim (Bool-cases (n == node)) [
  | inl e ↦ rw (lookup-insert node n state states, e) le
  | inr e ↦ rw (lookup-insert node n state states, e) (higher (lookup n states) h)
]
  where
    higher : (o : Option NodeLogState) → IsBelow next o → IsBelow (suc next) o
    higher none k = tt
    higher (some old) k = omega arith

pub retire_node-IsStep : (node when : ℕ) (s : LogObservations) → IsStep s (retire_node node when s)
unfolding retire_node
retire_node-IsStep node when s = record {
  generation_grows = omega arith;
  fault_grows = omega arith;
  next_grows = omega arith;
  continues = λ n.
      Continues-insert s.next_node_epoch node n
        (retired (suc s.next_node_epoch) when (lookup node s.node_states)) s.node_states
        (newer (lookup node s.node_states));
  numbered = λ n.
      IsBelow-insert s.next_node_epoch node n
        (retired (suc s.next_node_epoch) when (lookup node s.node_states)) s.node_states
        (given (lookup node s.node_states));
}
  where
    given :
        (o : Option NodeLogState)
        → (retired (suc s.next_node_epoch) when o).epoch ≤ suc s.next_node_epoch
    given none = omega arith
    given (some old) = omega arith

    newer :
        (o : Option NodeLogState)
        → s.next_node_epoch < (retired (suc s.next_node_epoch) when o).epoch
    newer none = omega arith
    newer (some old) = omega arith

retire_witnesses-IsStep :
    (deadline node : ℕ) (s : LogObservations) → IsStep s (retire_witnesses deadline node s)
unfolding retire_witnesses
retire_witnesses-IsStep deadline node s = record {
  generation_grows = omega arith;
  fault_grows = omega arith;
  next_grows = omega arith;
  continues = λ n.
      Continues-insert s.next_node_epoch node n
        (doubted (suc s.next_node_epoch) deadline (lookup node s.node_states)) s.node_states
        (newer (lookup node s.node_states));
  numbered = λ n.
      IsBelow-insert s.next_node_epoch node n
        (doubted (suc s.next_node_epoch) deadline (lookup node s.node_states)) s.node_states
        (given (lookup node s.node_states));
}
  where
    given :
        (o : Option NodeLogState)
        → (doubted (suc s.next_node_epoch) deadline o).epoch ≤ suc s.next_node_epoch
    given none = omega arith
    given (some old) = omega arith

    newer :
        (o : Option NodeLogState)
        → s.next_node_epoch < (doubted (suc s.next_node_epoch) deadline o).epoch
    newer none = omega arith
    newer (some old) = omega arith

pub ensure_node-IsStep :
    (now node : ℕ) (o : Option NodeLogState) (s : LogObservations)
    → IsStep s (ensure_node now node o s)
unfolding ensure_node
ensure_node-IsStep now node none s = retire_node-IsStep node now s
ensure_node-IsStep now node (some state) s = IsStep-self s

blame_all-IsStep : (deadline : ℕ) (s : LogObservations) → IsStep s (blame_all deadline s)
unfolding blame_all
blame_all-IsStep deadline s = IsStep-quiet (omega arith) (omega arith) refl refl

blame-IsStep :
    (now deadline : ℕ) (node : Option ℕ) (s : LogObservations)
    → IsStep s (blame now deadline node s)
unfolding blame blame_node
blame-IsStep now deadline none s = blame_all-IsStep deadline s
blame-IsStep now deadline (some node) s =
    let o = lookup node s.node_states in
    either (IsStep s) (is_required (some node) s)
      (IsStep-trans (ensure_node-IsStep now node o s)
        (retire_witnesses-IsStep deadline node (ensure_node now node o s)))
      (blame_all-IsStep deadline s)

pub mark_uncertain-IsStep :
    (now : ℕ) (until node : Option ℕ) (reason : String) (s : LogObservations)
    → IsStep s (mark_uncertain now until node reason s)
unfolding mark_uncertain clear_episode
mark_uncertain-IsStep now until node reason s =
    let deadline : ℕ = elim until [ none ↦ now + s.freshness | some time ↦ time ] in
    let cleared = clear_episode now s in
    let dated = record cleared { uncertain_until = max cleared.uncertain_until deadline } in
    let f = blame-IsStep now deadline node dated in
    record {
      generation_grows = f.generation_grows;
      fault_grows = f.fault_grows;
      next_grows = f.next_grows;
      continues = f.continues;
      numbered = f.numbered;
    }

pub note_transport_gap-IsStep :
    (when : ℕ) (node : Option ℕ) (s : LogObservations) → IsStep s (note_transport_gap when node s)
unfolding note_transport_gap
note_transport_gap-IsStep when (some node) s = retire_node-IsStep node when s
note_transport_gap-IsStep when none s = IsStep-quiet (omega arith) (omega arith) refl refl
