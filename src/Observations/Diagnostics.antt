-- ===== src/Observations/Diagnostics.antt =====
-- utils/log_observations.py: the size of the diagnostics of faults.
use pg_limiter.Prelude.{
  ℕ, suc, ◌+◌, ◌≤◌, ◌<◌, max, Bool, true, false, not, ◌&&◌, ◌≡◌, refl, sym, inl, inr, Option, none,
  some, [], ◌∷◌, String, ◌==◌, nat_eq, subst, string_eq, option_eq, arith, either, Bool-cases, leb,
  ltb, if◌then◌else◌, length,
}
use pg_limiter.Prelude.Dict.{Dict, lookup, has_key, insert, lookup-insert, length-insert}
use pg_limiter.Observations.State.{
  LogObservations, NodeLogState, mark_uncertain, clear_episode, count_fault, diagnostic_key,
  record_timestamp_fault, rest_of, max_diagnostic_nodes, blame, blame_node, blame_all, ensure_node,
  retire_node, retire_witnesses, is_required,
}
use pg_limiter.Observations.Replay.{SourceTime, at, unusable, validate_source_time}

-- One entry for each of at most 128 nodes, and one for all others.
abbrev IsSmall {ℓ} : {V : Type ℓ} → Dict (Option ℕ) V → Type 0
IsSmall counts =
    length counts ≤ (if has_key none counts then suc max_diagnostic_nodes else max_diagnostic_nodes)

pub record WithinBounds (s : LogObservations) : Type 0 where
  pub few_counts : IsSmall s.uncertainty_counts
  pub few_faults : length s.timestamp_faults ≤ max_diagnostic_nodes

module _ {ℓ} {V : Type ℓ} where
  has_key-insert :
      (k j : Option ℕ) (v : V) (d : Dict (Option ℕ) V)
      → has_key j (insert k v d) ≡ (if j == k then true else has_key j d)
  has_key-insert k j v d = ground (arith, lookup-insert k j v d)

  IsSmall-insert :
      (k : Option ℕ) (v : V) (d : Dict (Option ℕ) V)
      → (has_key k d ≡ false → k == none ≡ false → length d < max_diagnostic_nodes)
      → IsSmall d
      → IsSmall (insert k v d)
  IsSmall-insert none v d new h =
      ground (arith, length-insert none v d, has_key-insert none none v d)
  IsSmall-insert (some n) v d new h =
      ground (arith, length-insert (some n) v d, has_key-insert (some n) none v d)

diagnostic_key-new :
    (source : Option ℕ) (counts : Dict (Option ℕ) (Dict String ℕ))
    → has_key (diagnostic_key source counts) counts ≡ false
    → diagnostic_key source counts == none ≡ false
    → length counts < max_diagnostic_nodes
unfolding diagnostic_key
diagnostic_key-new source counts h k = ground arith

count_fault-IsSmall :
    (source : Option ℕ) (reason : String) (counts : Dict (Option ℕ) (Dict String ℕ))
    → IsSmall counts
    → IsSmall (count_fault source reason counts)
unfolding count_fault
count_fault-IsSmall source reason counts h =
    IsSmall-insert (diagnostic_key source counts) _ counts (diagnostic_key-new source counts) h

length-rest : (d : Dict (Option ℕ) ℕ) → 0 < length d → suc (length (rest_of d)) ≡ length d
length-rest [] h = omega arith
length-rest (x ∷ d) h = refl

length-insert-le :
    (k : Option ℕ) (v : ℕ) (d : Dict (Option ℕ) ℕ) → length (insert k v d) ≤ suc (length d)
length-insert-le k v d = ground (arith, length-insert k v d)

record_timestamp_fault-bounded :
    (source : Option ℕ) (epoch : ℕ) (faults : Dict (Option ℕ) ℕ)
    → length faults ≤ max_diagnostic_nodes
    → length (record_timestamp_fault source epoch faults) ≤ max_diagnostic_nodes
unfolding record_timestamp_fault
record_timestamp_fault-bounded source epoch faults h =
    elim (Bool-cases (not (has_key source faults) && leb max_diagnostic_nodes (length faults))) [
      | inl e ↦ rw e (elim (Bool-cases (has_key none faults)) [
        | inl k ↦ rw k (ground (arith, length-insert none epoch faults))
        | inr k ↦
            rw k (ground (arith, length-insert-le none epoch (rest_of faults), length-rest faults))
      ])
      | inr e ↦ rw e (ground (arith, length-insert source epoch faults))
    ]

-- A fault itself touches no diagnostics.
abbrev SameDiagnostics : LogObservations → LogObservations → Type 0
SameDiagnostics s s' =
    (s'.uncertainty_counts ≡ s.uncertainty_counts) × (s'.timestamp_faults ≡ s.timestamp_faults)

ensure_node-diagnostics :
    (now node : ℕ) (o : Option NodeLogState) (s : LogObservations)
    → SameDiagnostics s (ensure_node now node o s)
unfolding ensure_node retire_node
ensure_node-diagnostics now node none s = (refl, refl)
ensure_node-diagnostics now node (some state) s = (refl, refl)

blame-diagnostics :
    (now deadline : ℕ) (source : Option ℕ) (s : LogObservations)
    → SameDiagnostics s (blame now deadline source s)
unfolding blame blame_node blame_all retire_witnesses
blame-diagnostics now deadline none s = (refl, refl)
blame-diagnostics now deadline (some n) s =
    either (SameDiagnostics s) (is_required (some n) s)
      (ensure_node-diagnostics now n (lookup n s.node_states) s) (refl, refl)

mark_uncertain-bounded :
    (now : ℕ) (until source : Option ℕ) (reason : String) (s : LogObservations)
    → WithinBounds s
    → WithinBounds (mark_uncertain now until source reason s)
unfolding mark_uncertain clear_episode
mark_uncertain-bounded now until source reason s h =
    let deadline : ℕ = elim until [ none ↦ now + s.freshness | some time ↦ time ] in
    let cleared = clear_episode now s in
    let dated = record cleared { uncertain_until = max cleared.uncertain_until deadline } in
    let same = blame-diagnostics now deadline source dated in
    let over = leb s.uncertain_until now in
    record {
      few_counts =
          count_fault-IsSmall source reason (blame now deadline source dated).uncertainty_counts (
            subst IsSmall (sym same.0) (
              either (λ (c : Dict (Option ℕ) (Dict String ℕ)). IsSmall c) over (omega arith)
                h.few_counts));
      few_faults =
          subst (λ (f : Dict (Option ℕ) ℕ). length f ≤ max_diagnostic_nodes) (sym same.1)
            (either (λ (f : Dict (Option ℕ) ℕ). length f ≤ max_diagnostic_nodes) over (omega arith)
              h.few_faults);
    }

-- The diagnostics stay bounded, whatever times the lines of whatever nodes carry: at most 128 nodes and
-- one aggregate have counts, and at most 128 comparisons of clocks are kept.
pub validate_source_time-bounded :
    (now node : ℕ) (time : SourceTime) (s : LogObservations)
    → WithinBounds s
    → WithinBounds (validate_source_time now node time s).1
unfolding validate_source_time
validate_source_time-bounded now node unusable s h =
    mark_uncertain-bounded now (some (now + s.freshness)) (some node) "invalid_timestamp" s h
validate_source_time-bounded now node (at t) s h =
    let g =
      mark_uncertain-bounded now (some (t + s.freshness)) (some node) "future_timestamp" s h in
    either (λ (r : Bool × LogObservations). WithinBounds r.1) (ltb now t)
      (record {
        few_counts = g.few_counts;
        few_faults =
            record_timestamp_fault-bounded (some node) t
              (mark_uncertain now (some (t + s.freshness)) (some node) "future_timestamp"
                s).timestamp_faults
              g.few_faults;
      })
      h
