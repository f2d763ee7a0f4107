-- ===== src/Warnings/Streak.antt =====
-- What the counter of utils/warning_system/enhanced_system.py stands for: the scans behind it, over
-- every sequence of events.
use pg_limiter.Prelude.{
  ℕ, ◌*◌, ◌≤◌, max, String, true, List, [], ◌∷◌, Option, none, some, ◌≡◌, sym, contains, nat_eq,
  string_eq, ◌==◌, Option-cases, inl, inr, Bool-cases, arith, All, eq_iff, ◌⊎◌, beq_self, subst,
}
use pg_limiter.Prelude.Dict.{lookup, lookup-erase}
use pg_limiter.Warnings.Record.{UserLimitWarning}
use pg_limiter.Warnings.System.{
  WarningSystem, update_settings, clear_user_warning, clear_user_trust_data, clear_all_trust_data,
  record_disable_outcome, cleanup_old_warning_history, add_to_warning_history,
  effective_max_warnings,
}
use pg_limiter.Warnings.Scan.{Scan, add_warning, violation_limit_reached, min_scan_gap}
use pg_limiter.Warnings.Trace.{
  Event, configure, violation, clear_warning, clear_trust, clear_all, outcome, cleanup, step, run,
  seen_at, KeepsInterval, Streak, record_time,
}
use pg_limiter.Warnings.Pace.{
  add_warning-first, add_warning-next, add_warning-others, add_warning-settings, next_record,
}
use pg_limiter.Warnings.Counter.{widen, Carries, first-Streak, continue-Streak}

-- An event that only removes records leaves a record as it was, or none.
module _ (user : String) where
  clear_warning-keeps :
      (u : String) (expected : Option ℕ) (s : WarningSystem)
      → (lookup user (clear_user_warning u expected s).1.warnings ≡ none)
        ⊎ (lookup user (clear_user_warning u expected s).1.warnings ≡ lookup user s.warnings)
  unfolding clear_user_warning
  clear_warning-keeps u expected s = ground (arith, lookup-erase u user s.warnings)

  clear_trust-keeps :
      (u : String) (expected : Option ℕ) (s : WarningSystem)
      → (lookup user (clear_user_trust_data u expected s).1.warnings ≡ none)
        ⊎ (lookup user (clear_user_trust_data u expected s).1.warnings ≡ lookup user s.warnings)
  unfolding clear_user_trust_data
  clear_trust-keeps u expected s = ground (arith, lookup-erase u user s.warnings)

  outcome-keeps :
      (now : ℕ) (u action : String) (s : WarningSystem)
      → (record_disable_outcome now u action s).1.warnings ≡ s.warnings
  unfolding record_disable_outcome add_to_warning_history
  outcome-keeps now u action s = ground arith

module _ (gap : ℕ) (times : List ℕ) where
  carried :
      (o o' : Option UserLimitWarning)
      → (o' ≡ none) ⊎ (o' ≡ o)
      → Carries gap times o
      → Carries gap times o'
  carried o o' (inl e) h = subst (Carries gap times) (sym e) tt
  carried o o' (inr e) h = subst (Carries gap times) (sym e) h

  carried_wider :
      (t : ℕ) (o : Option UserLimitWarning) → Carries gap times o → Carries gap (t ∷ times) o
  carried_wider t none h = tt
  carried_wider t (some w) h =
      widen gap times (t ∷ times) (λ a e. ground arith) w.consecutive_violations w.last_scan_time h

  same_user :
      (scan : Scan) (s : WarningSystem)
      → 1 ≤ gap
      → gap ≤ min_scan_gap s
      → Carries gap times (lookup scan.username s.warnings)
      → Carries gap (scan.now ∷ times) (lookup scan.username (add_warning scan s).1.warnings)
  same_user scan s pos_gap small h = elim (Option-cases (lookup scan.username s.warnings)) [
    | inl e ↦
        subst (Carries gap (scan.now ∷ times)) (sym (add_warning-first scan s e).1)
          (first-Streak gap (scan.now ∷ times) s scan (ground (arith, beq_self scan.now)))
    | inr (w, e) ↦
        let now_seen : contains (scan.now ∷ times) scan.now ≡ true =
          ground (arith, beq_self scan.now) in
        subst (Carries gap (scan.now ∷ times)) (sym (add_warning-next scan s w e).1) (
          continue-Streak gap (scan.now ∷ times) s scan w pos_gap small now_seen
            (carried_wider scan.now (some w) (subst (Carries gap times) e h)))
  ]

  -- Every event keeps the streak of every user.
  step-Carries :
      (user : String) (e : Event) (s : WarningSystem)
      → 1 ≤ gap
      → gap ≤ min_scan_gap s
      → Carries gap times (lookup user s.warnings)
      → Carries gap (record_time user e times) (lookup user (step e s).warnings)
  unfolding step record_time update_settings clear_all_trust_data cleanup_old_warning_history
  step-Carries user (configure interval needed) s p q h = h
  step-Carries user (violation scan) s p q h = elim (Bool-cases (user == scan.username)) [
    | inl e ↦
        let same : user ≡ scan.username = (eq_iff user scan.username).0 e in
        rw e (
          subst (λ u. Carries gap (scan.now ∷ times) (lookup u (add_warning scan s).1.warnings))
            (sym same)
            (same_user scan s p q (subst (λ u. Carries gap times (lookup u s.warnings)) same h)))
    | inr e ↦ rw e (
        subst (Carries gap times)
          (sym (add_warning-others scan s user (ground (arith, eq_iff user scan.username)))) h)
  ]
  step-Carries user (clear_warning u expected) s p q h =
      carried _ _ (clear_warning-keeps user u expected s) h
  step-Carries user (clear_trust u expected) s p q h =
      carried _ _ (clear_trust-keeps user u expected s) h
  step-Carries user clear_all s p q h = tt
  step-Carries user (outcome now u action) s p q h =
      subst (λ d. Carries gap times (lookup user d)) (sym (outcome-keeps user now u action s)) h
  step-Carries user (cleanup now) s p q h = h

required-le :
    (s : WarningSystem) (w : UserLimitWarning) → s.max_warnings ≤ effective_max_warnings s w
unfolding effective_max_warnings
required-le s w = ground arith

abbrev pub gap_for : ℕ → ℕ
gap_for base = max 1000 (base * 500)

step-interval :
    (base : ℕ) (e : Event) (s : WarningSystem)
    → base ≤ s.check_interval
    → KeepsInterval base e
    → base ≤ (step e s).check_interval
unfolding step KeepsInterval update_settings clear_user_warning clear_user_trust_data
    clear_all_trust_data record_disable_outcome add_to_warning_history cleanup_old_warning_history
step-interval base (configure interval needed) s h k = k
step-interval base (violation scan) s h k = omega (arith, (add_warning-settings scan s).0)
step-interval base (clear_warning u expected) s h k = ground arith
step-interval base (clear_trust u expected) s h k = ground arith
step-interval base clear_all s h k = h
step-interval base (outcome now u action) s h k = ground arith
step-interval base (cleanup now) s h k = h

module _ (user : String) (base : ℕ) where
  run-Carries :
      (events : List Event) (s : WarningSystem) (past : List ℕ)
      → base ≤ s.check_interval
      → All (KeepsInterval base) events
      → Carries (gap_for base) past (lookup user s.warnings)
      → Carries (gap_for base) (seen_at user events past) (lookup user (run events s).warnings)
  unfolding run seen_at
  run-Carries [] s past b k h = h
  run-Carries (e ∷ events) s past b (k, ks) h =
      run-Carries events (step e s) (record_time user e past) (step-interval base e s b k) ks
        (step-Carries (gap_for base) past user e s (omega arith) (omega arith) h)

  run-interval :
      (events : List Event) (s : WarningSystem)
      → base ≤ s.check_interval
      → All (KeepsInterval base) events
      → base ≤ (run events s).check_interval
  unfolding run
  run-interval [] s b k = b
  run-interval (e ∷ events) s b (k, ks) =
      run-interval events (step e s) (step-interval base e s b k) ks

-- Whatever happens to the system, in any order, as long as the check interval is never set below some
-- base: a scan reports that the violation limit is reached only at the end of a streak. At least as
-- many scans of that same user as the setting asks for now came since the user had no record, each at
-- least half the base, and a second, after the one before.
pub add_warning-streak :
    (base : ℕ) (events : List Event) (s : WarningSystem) (scan : Scan)
    → base ≤ s.check_interval
    → All (KeepsInterval base) events
    → lookup scan.username s.warnings ≡ none
    → (add_warning scan (run events s)).0 ≡ violation_limit_reached
    → (n : ℕ) × (t : ℕ) × ((run events s).max_warnings ≤ n)
      × Streak (gap_for base) (scan.now ∷ seen_at scan.username events []) n t
add_warning-streak base events s scan b k fresh reached =
    let s' = run events s in
    let past = seen_at scan.username events [] in
    let before : Carries (gap_for base) past (lookup scan.username s'.warnings) =
      run-Carries scan.username base events s [] b k
        (subst (Carries (gap_for base) []) (sym fresh) tt) in
    let interval = run-interval scan.username base events s b k in
    elim (Option-cases (lookup scan.username s'.warnings)) [
      | inl e ↦ ground (arith, (add_warning-first scan s' e).0)
      | inr (w, e) ↦
          let (result, _) = add_warning-next scan s' w e in
          let now_seen : contains (scan.now ∷ past) scan.now ≡ true =
            ground (arith, beq_self scan.now) in
          (
            (next_record s' scan w).consecutive_violations,
            (next_record s' scan w).last_scan_time,
            ground (arith, required-le s' w),
            continue-Streak (gap_for base) (scan.now ∷ past) s' scan w (omega arith) (omega arith)
                now_seen
                (carried_wider (gap_for base) past scan.now (some w)
                  (subst (Carries (gap_for base) past) e before)),
          )
    ]
