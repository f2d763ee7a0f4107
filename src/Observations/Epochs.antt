-- ===== src/Observations/Epochs.antt =====
-- utils/log_observations.py: a sample after a fault or the end of a stream.
use pg_limiter.Prelude.{
  ℕ, suc, ◌+◌, ◌≤◌, ◌<◌, max, Bool, true, false, ◌≡◌, refl, sym, if◌then◌else◌, Option, none, some,
  List, [], ◌∷◌, String, subst, ◌==◌, ◌≢◌, nat_eq, pair_eq, pair_beq_iff, arith, either, contains,
  map, all,
}
use pg_limiter.Prelude.Dict.{Dict, lookup, lookup-insert_self}
use pg_limiter.Observations.State.{
  LogObservations, NodeLogState, Settings, mark_uncertain, note_transport_gap, blame, blame_node,
  blame_all, clear_episode, is_required, ensure_node, doubted, retire_witnesses, retire_node,
  retired,
}
use pg_limiter.Observations.Replay.{SourceTime, admit}
use pg_limiter.Observations.Fleet.{invalidate, register_fleet, configure, is_known, node_epoch}
use pg_limiter.Observations.Evidence.{
  LogSampleEvidence, evidence, eligible_nodes, is_current, globally_current, witness_stands,
  or_empty, required_set,
}
use pg_limiter.Observations.Steps.{
  ensure_node-IsStep, IsStep, IsBelow, Continues, IsStep-self, IsStep-trans, IsStep-quiet,
  mark_uncertain-IsStep, note_transport_gap-IsStep,
}
use pg_limiter.Observations.FleetSteps.{admit-IsStep, register_fleet-IsStep, configure-IsStep}

-- What changes the observations.
pub data Change : Type 0 where
  line_read : ℕ → ℕ → String → SourceTime → Change
  fault : ℕ → Option ℕ → Option ℕ → String → Change
  gap : ℕ → Option ℕ → Change
  fleet : ℕ → Option (List (Option ℕ × String)) → Change
  settings : ℕ → Settings → Change
  source_change : ℕ → Change

module _ (sha256 : String → ℕ) (is_zone : String → Bool) where
  abbrev pub change : Change → LogObservations → LogObservations
  change (line_read now node line time) s = (admit sha256 now node line time s).1
  change (fault now until node reason) s = mark_uncertain now until node reason s
  change (gap now node) s = note_transport_gap now node s
  change (fleet now nodes) s = register_fleet now nodes s
  change (settings now new) s = (configure is_zone now new s).1
  change (source_change now) s = invalidate now s

  abbrev pub changes : List Change → LogObservations → LogObservations
  changes [] s = s
  changes (c ∷ cs) s = changes cs (change c s)

  change-IsStep : (c : Change) (s : LogObservations) → IsStep s (change c s)
  unfolding invalidate
  change-IsStep (line_read now node line time) s = admit-IsStep sha256 now node line time s
  change-IsStep (fault now until node reason) s = mark_uncertain-IsStep now until node reason s
  change-IsStep (gap now node) s = note_transport_gap-IsStep now node s
  change-IsStep (fleet now nodes) s = register_fleet-IsStep now nodes s
  change-IsStep (settings now new) s = configure-IsStep is_zone now new s
  change-IsStep (source_change now) s = IsStep-quiet (omega arith) (omega arith) refl refl

  changes-IsStep : (cs : List Change) (s : LogObservations) → IsStep s (changes cs s)
  changes-IsStep [] s = IsStep-self s
  changes-IsStep (c ∷ cs) s = IsStep-trans (change-IsStep c s) (changes-IsStep cs (change c s))

-- The stream is not the one with the epoch.
abbrev IsOver : ℕ → Option NodeLogState → Type 0
IsOver epoch none = Unit
IsOver epoch (some state) = state.epoch ≢ epoch

-- The sample was overtaken: by a new version, or by the end of the stream of one of its nodes.
pub data Overtaken (node epoch : ℕ) (e : LogSampleEvidence) (s : LogObservations) : Type 0 where
  by_version : e.fault_version < s.fault_version → Overtaken node epoch e s
  by_stream :
      contains e.node_versions (node, epoch) ≡ true
      → epoch ≤ s.next_node_epoch
      → IsOver epoch (lookup node s.node_states)
      → Overtaken node epoch e s

IsOver-Continues :
    (epoch next : ℕ) (a b : Option NodeLogState)
    → epoch ≤ next
    → Continues next a b
    → IsOver epoch a
    → IsOver epoch b
IsOver-Continues epoch next a none le c h = tt
IsOver-Continues epoch next none (some y) le c h = λ e. omega arith
IsOver-Continues epoch next (some x) (some y) le c h = ground arith

Overtaken-IsStep :
    {node epoch : ℕ} {e : LogSampleEvidence} {s s' : LogObservations}
    → IsStep s s'
    → Overtaken node epoch e s
    → Overtaken node epoch e s'
Overtaken-IsStep step (by_version h) = by_version (omega (arith, step.fault_grows))
Overtaken-IsStep {node} {epoch} {e} {s} {s'} step (by_stream h le over) =
    by_stream h (omega (arith, step.next_grows)) (
      IsOver-Continues epoch s.next_node_epoch (lookup node s.node_states)
        (lookup node s'.node_states) le (step.continues node) over)

module _ (last_event : Dict ℕ ℕ) (revision now : ℕ) where
  all-version :
      (versions : List (ℕ × ℕ)) (version : ℕ × ℕ) (s : LogObservations)
      → contains versions version ≡ true
      → witness_stands last_event revision now version s ≡ false
      → all (λ v. witness_stands last_event revision now v s) versions ≡ false
  all-version [] version s h k = cc
  all-version (v ∷ versions) version s h k =
      ground (arith, all-version versions version s, pair_beq_iff version v)

  over-stands :
      (node epoch : ℕ) (s : LogObservations)
      → IsOver epoch (lookup node s.node_states)
      → witness_stands last_event revision now (node, epoch) s ≡ false
  unfolding witness_stands
  over-stands node epoch s h = go (lookup node s.node_states) refl h
    where
      go :
          (o : Option NodeLogState)
          → lookup node s.node_states ≡ o
          → IsOver epoch o
          → witness_stands last_event revision now (node, epoch) s ≡ false
      go none e k = rw (witness_stands, e) refl
      go (some state) e k =
          rw (witness_stands, e) (ground (arith, nat_eq.beq_iff state.epoch epoch))

  is_current-Overtaken :
      (allow_partial : Bool) (node epoch : ℕ) (e : LogSampleEvidence) (s : LogObservations)
      → Overtaken node epoch e s
      → is_current last_event revision now allow_partial e s ≡ false
  unfolding is_current globally_current
  is_current-Overtaken allow_partial node epoch e s (by_version h) =
      ground (arith, nat_eq.beq_iff e.fault_version s.fault_version)
  is_current-Overtaken allow_partial node epoch e s (by_stream h le over) =
      ground (arith, all-version e.node_versions (node, epoch) s h (over-stands node epoch s over))

-- No stream has an epoch beyond the last that was given out.
abbrev Numbered : LogObservations → Type 0
Numbered s = (node : ℕ) → IsBelow s.next_node_epoch (lookup node s.node_states)

node_epoch-le :
    (node : ℕ) (s : LogObservations) → Numbered s → node_epoch node s ≤ s.next_node_epoch
unfolding node_epoch
node_epoch-le node s h = below (lookup node s.node_states) (h node)
  where
    below :
        (o : Option NodeLogState)
        → IsBelow s.next_node_epoch o
        → (elim o as (λ x. ℕ) [ none ↦ 0 | some state ↦ state.epoch ]) ≤ s.next_node_epoch
    below none k = omega arith
    below (some state) k = k

module _ (node epoch : ℕ) (e : LogSampleEvidence)
    (h : contains e.node_versions (node, epoch) ≡ true) where
  -- A stream that starts now ends the one of the sample.
  insert-Overtaken :
      (state : NodeLogState) (s : LogObservations)
      → epoch < state.epoch
      → epoch ≤ s.next_node_epoch
      → lookup node s.node_states ≡ some state
      → Overtaken node epoch e s
  insert-Overtaken state s new le k = by_stream h le (rw k (λ same. omega arith))

  retire_witnesses-Overtaken :
      (deadline : ℕ) (s : LogObservations)
      → epoch ≤ s.next_node_epoch
      → Overtaken node epoch e (retire_witnesses deadline node s)
  unfolding retire_witnesses
  retire_witnesses-Overtaken deadline s le =
      let state = doubted (suc s.next_node_epoch) deadline (lookup node s.node_states) in
      insert-Overtaken state (retire_witnesses deadline node s) (newer (lookup node s.node_states))
        (omega arith) (lookup-insert_self node state s.node_states)
    where
      newer : (o : Option NodeLogState) → epoch < (doubted (suc s.next_node_epoch) deadline o).epoch
      newer none = omega arith
      newer (some old) = omega arith

  retire_node-Overtaken :
      (when : ℕ) (s : LogObservations)
      → epoch ≤ s.next_node_epoch
      → Overtaken node epoch e (retire_node node when s)
  unfolding retire_node
  retire_node-Overtaken when s le =
      let state = retired (suc s.next_node_epoch) when (lookup node s.node_states) in
      insert-Overtaken state (retire_node node when s) (newer (lookup node s.node_states))
        (omega arith) (lookup-insert_self node state s.node_states)
    where
      newer : (o : Option NodeLogState) → epoch < (retired (suc s.next_node_epoch) when o).epoch
      newer none = omega arith
      newer (some old) = omega arith

  blame-Overtaken :
      (now deadline : ℕ) (s : LogObservations)
      → e.fault_version ≤ s.fault_version
      → epoch ≤ s.next_node_epoch
      → Overtaken node epoch e (blame now deadline (some node) s)
  unfolding blame blame_all blame_node
  blame-Overtaken now deadline s v le =
      let o = lookup node s.node_states in
      let ensured = ensure_node now node o s in
      let step = ensure_node-IsStep now node o s in
      either (Overtaken node epoch e) (is_required (some node) s)
        (retire_witnesses-Overtaken deadline ensured (omega (arith, step.next_grows)))
        (by_version (omega arith))

  -- A fault of the node overtakes every sample that has a witness for it.
  mark_uncertain-Overtaken :
      (now : ℕ) (until : Option ℕ) (reason : String) (s : LogObservations)
      → e.fault_version ≤ s.fault_version
      → epoch ≤ s.next_node_epoch
      → Overtaken node epoch e (mark_uncertain now until (some node) reason s)
  unfolding mark_uncertain clear_episode
  mark_uncertain-Overtaken now until reason s v le =
      let deadline : ℕ = elim until [ none ↦ now + s.freshness | some time ↦ time ] in
      let cleared = clear_episode now s in
      let dated = record cleared { uncertain_until = max cleared.uncertain_until deadline } in
      Overtaken-IsStep (IsStep-quiet (omega arith) (omega arith) refl refl)
        (blame-Overtaken now deadline dated v le)

  note_transport_gap-Overtaken :
      (when : ℕ) (s : LogObservations)
      → epoch ≤ s.next_node_epoch
      → Overtaken node epoch e (note_transport_gap when (some node) s)
  unfolding note_transport_gap
  note_transport_gap-Overtaken when s le = retire_node-Overtaken when s le

pub contains-map :
    (epoch_of : ℕ → ℕ) (nodes : List ℕ) (node : ℕ)
    → contains nodes node ≡ true
    → contains {A = ℕ × ℕ} (map (λ n. (n, epoch_of n)) nodes) (node, epoch_of node) ≡ true
contains-map epoch_of [] node h = cc
contains-map epoch_of (n ∷ nodes) node h = ground (
  arith,
  contains-map epoch_of nodes node,
  nat_eq.beq_iff node n,
  pair_beq_iff (node, epoch_of node) (n, epoch_of n),
)

-- What ends the stream of a node.
abbrev pub ends_stream : ℕ → Change → Bool
ends_stream node (fault now until (some n) reason) = n == node
ends_stream node (gap now (some n)) = n == node
ends_stream node c = false

module _ (sha256 : String → ℕ) (is_zone : String → Bool) (last_event : Dict ℕ ℕ) where
  ends-Overtaken :
      (node epoch : ℕ) (e : LogSampleEvidence) (c : Change) (s : LogObservations)
      → contains e.node_versions (node, epoch) ≡ true
      → e.fault_version ≤ s.fault_version
      → epoch ≤ s.next_node_epoch
      → ends_stream node c ≡ true
      → Overtaken node epoch e (change sha256 is_zone c s)
  ends-Overtaken node epoch e (line_read now m line time) s h v le k = cc
  ends-Overtaken node epoch e (fault now until none reason) s h v le k = cc
  ends-Overtaken node epoch e (fault now until (some n) reason) s h v le k =
      subst (λ m. Overtaken node epoch e (mark_uncertain now until (some m) reason s))
        (sym ((nat_eq.beq_iff n node).0 k))
        (mark_uncertain-Overtaken node epoch e h now until reason s v le)
  ends-Overtaken node epoch e (gap now none) s h v le k = cc
  ends-Overtaken node epoch e (gap now (some n)) s h v le k =
      subst (λ m. Overtaken node epoch e (note_transport_gap now (some m) s))
        (sym ((nat_eq.beq_iff n node).0 k)) (note_transport_gap-Overtaken node epoch e h now s le)
  ends-Overtaken node epoch e (fleet now nodes) s h v le k = cc
  ends-Overtaken node epoch e (settings now new) s h v le k = cc
  ends-Overtaken node epoch e (source_change now) s h v le k = cc

  taken-version :
      (revision now node : ℕ) (s : LogObservations)
      → contains (or_empty (evidence last_event revision now s).eligible_node_ids) node ≡ true
      → contains (evidence last_event revision now s).node_versions (node, node_epoch node s) ≡ true
  unfolding evidence
  taken-version revision now node s h =
      contains-map (λ n. node_epoch n s) (eligible_nodes last_event revision now s) node
        (listed (is_known (required_set s)) h)
    where
      listed :
          (known : Bool)
          → contains
              (or_empty (if known then some (eligible_nodes last_event revision now s) else none))
              node
            ≡ true
          → contains (eligible_nodes last_event revision now s) node ≡ true
      listed true k = k
      listed false k = cc

  -- A sample that was overtaken stays so. The observations start without streams; after any changes a
  -- sample is taken at `now` with the node among its eligible ones; after any more changes a fault or a
  -- transport gap of that node occurs; then the sample is not current after any further changes, at any
  -- time, neither in full nor in part.
  pub is_current-ended :
      (revision now later_revision later node : ℕ) (heard : Dict ℕ ℕ) (allow_partial : Bool)
      (history before after : List Change) (c : Change) (start : LogObservations)
      → start.node_states ≡ []
      → contains
          (or_empty
            (evidence last_event revision now
              (changes sha256 is_zone history start)).eligible_node_ids)
          node
        ≡ true
      → ends_stream node c ≡ true
      → let s = changes sha256 is_zone history start in
        let s' =
          changes sha256 is_zone after
            (change sha256 is_zone c (changes sha256 is_zone before s)) in
        is_current heard later_revision later allow_partial (evidence last_event revision now s) s'
        ≡ false
  unfolding evidence
  is_current-ended revision now later_revision later node heard allow_partial history before after c
        start empty h ends =
      let s = changes sha256 is_zone history start in
      let e = evidence last_event revision now s in
      let epoch = node_epoch node s in
      let s1 = changes sha256 is_zone before s in
      let s2 = change sha256 is_zone c s1 in
      let made = changes-IsStep sha256 is_zone history start in
      let step = changes-IsStep sha256 is_zone before s in
      let below = node_epoch-le node s (λ n. made.numbered n (rw empty tt)) in
      let over =
        ends-Overtaken node epoch e c s1 (taken-version revision now node s h) step.fault_grows
          (omega (arith, below, step.next_grows)) ends in
      is_current-Overtaken heard later_revision later allow_partial node epoch e
        (changes sha256 is_zone after s2)
        (Overtaken-IsStep (changes-IsStep sha256 is_zone after s2) over)
