-- ===== src/Warnings/Progress.antt =====
-- A user who stays over the limit, at utils/warning_system/enhanced_system.py: the counter and
-- the limit along a steady loop.
use pg_limiter.Prelude.{
  ℕ, ◌+◌, ◌≤◌, List, [], ◌∷◌, Option, none, some, ◌≡◌, refl, sym, ◌∙◌, ap, ap₂, subst, length, leb,
  nat_eq, string_eq, if◌then◌else◌, arith,
}
use pg_limiter.Prelude.Dict.{lookup}
use pg_limiter.Warnings.Record.{UserLimitWarning}
use pg_limiter.Warnings.System.{WarningSystem, effective_max_warnings}
use pg_limiter.Warnings.Scan.{
  Scan, add_warning, Outcome, updated, violation_limit_reached, first_warning, count_scan, gap_of,
  Gap, counted, min_scan_gap, max_scan_gap,
}
use pg_limiter.Warnings.Pace.{
  refresh-count, first_warning-count, add_warning-first, add_warning-next, add_warning-settings,
  next_record,
}

-- The outcome of the last of several scans, and the state after it.
unfoldable pub follow : Scan → List Scan → WarningSystem → Outcome × WarningSystem
follow scan [] s = add_warning scan s
follow scan (next ∷ scans) s = follow next scans (add_warning scan s).1

-- Scans of one user, each between `low` and `high` after the one before.
unfoldable pub Steady : ℕ → ℕ → Scan → List Scan → Type 0
Steady low high scan [] = Unit {0}
Steady low high scan (next ∷ scans) =
    (next.username ≡ scan.username)
    × (scan.now + low ≤ next.now)
    × (next.now ≤ scan.now + high)
    × Steady low high next scans

gap_of-steady :
    (s : WarningSystem) (last now : ℕ)
    → 1 ≤ last
    → last + min_scan_gap s ≤ now
    → now ≤ last + max_scan_gap s
    → gap_of s last now ≡ counted
unfolding gap_of
gap_of-steady s last now p q r = ground arith

required-same :
    (s : WarningSystem) (w : UserLimitWarning)
    → 1 ≤ s.max_warnings
    → w.max_warnings_at_creation ≡ s.max_warnings
    → effective_max_warnings s w ≡ s.max_warnings
unfolding effective_max_warnings
required-same s w p q = ground arith

-- A record that has counted n scans, the last one at the time t, under the present settings.
abbrev Counts : WarningSystem → ℕ → ℕ → Option UserLimitWarning → Type 0
Counts s n t o =
    (w : UserLimitWarning) × (o ≡ some w)
    × (w.consecutive_violations ≡ n)
    × (w.last_scan_time ≡ t)
    × (w.max_warnings_at_creation ≡ s.max_warnings)

first-Counts :
    (s : WarningSystem) (scan : Scan)
    → lookup scan.username s.warnings ≡ none
    → Counts s 1 scan.now (lookup scan.username (add_warning scan s).1.warnings)
first-Counts s scan h =
    let (one, now, needed) = first_warning-count s scan in
    (first_warning s scan, (add_warning-first scan s h).1, one, now, needed)

count_scan-counted :
    (g : Gap) (now : ℕ) (w : UserLimitWarning)
    → g ≡ counted
    → ((count_scan g now w).consecutive_violations ≡ w.consecutive_violations + 1)
      × ((count_scan g now w).last_scan_time ≡ now)
      × ((count_scan g now w).max_warnings_at_creation ≡ w.max_warnings_at_creation)
unfolding count_scan
count_scan-counted g now w e = rw (e, count_scan) (refl, refl, refl)

module _ (s : WarningSystem) (scan : Scan) (n t : ℕ) where
  next-Counts :
      1 ≤ s.max_warnings
      → 1 ≤ t
      → t + min_scan_gap s ≤ scan.now
      → scan.now ≤ t + max_scan_gap s
      → Counts s n t (lookup scan.username s.warnings)
      → ((add_warning scan s).0
          ≡ (if leb s.max_warnings (n + 1) then violation_limit_reached else updated))
        × Counts s (n + 1) scan.now (lookup scan.username (add_warning scan s).1.warnings)
  next-Counts needed later low high (w, e, count, time, same) =
      let g : gap_of s w.last_scan_time scan.now ≡ counted =
        ap (λ x. gap_of s x scan.now) time ∙ gap_of-steady s t scan.now later low high in
      let (c, l, m) = count_scan-counted (gap_of s w.last_scan_time scan.now) scan.now w g in
      let (c', l', m') =
        refresh-count s scan (count_scan (gap_of s w.last_scan_time scan.now) scan.now w) in
      let total : (next_record s scan w).consecutive_violations ≡ n + 1 =
        c' ∙ c ∙ ap (λ x. x + 1) count in
      let (result, after) = add_warning-next scan s w e in
      (
        result
            ∙ ap
                (λ x.
                  if leb x (next_record s scan w).consecutive_violations
                  then violation_limit_reached
                  else updated)
                (required-same s w needed same)
            ∙ ap (λ x. if leb s.max_warnings x then violation_limit_reached else updated) total,
        (next_record s scan w, after, total, l' ∙ l, m' ∙ m ∙ same),
      )

-- The counts of a state are those of a state with the same setting.
Counts-settings :
    (s s' : WarningSystem) (n t : ℕ) (o : Option UserLimitWarning)
    → s'.max_warnings ≡ s.max_warnings
    → Counts s n t o
    → Counts s' n t o
Counts-settings s s' n t o e (w, h, c, l, m) = (w, h, c, l, m ∙ sym e)

gaps_settings :
    (s : WarningSystem) (scan : Scan)
    → (min_scan_gap (add_warning scan s).1 ≡ min_scan_gap s)
      × (max_scan_gap (add_warning scan s).1 ≡ max_scan_gap s)
gaps_settings s scan =
    let (interval, _, period) = add_warning-settings scan s in
    (omega (arith, interval), omega (arith, period))

abbrev verdict : ℕ → ℕ → Outcome
verdict needed n = if leb needed n then violation_limit_reached else updated

module _ (low high : ℕ) where
  Steady-run :
      (scan next : Scan) (scans : List Scan) (s : WarningSystem) (n : ℕ)
      → min_scan_gap s ≤ low
      → high ≤ max_scan_gap s
      → 1 ≤ s.max_warnings
      → 1 ≤ scan.now
      → Steady low high scan (next ∷ scans)
      → Counts s n scan.now (lookup scan.username s.warnings)
      → (follow next scans s).0 ≡ (
          if leb s.max_warnings (n + length (next ∷ scans))
          then violation_limit_reached
          else updated)
  unfolding follow Steady
  Steady-run scan next [] s n p q needed later (same, l, h, rest) c =
      (next-Counts s next n scan.now needed later (omega arith) (omega arith)
        (subst (λ u. Counts s n scan.now (lookup u s.warnings)) (sym same) c)).0
  Steady-run scan next (third ∷ scans) s n p q needed later (same, l, h, rest) c =
      let s' = (add_warning next s).1 in
      let (_, setting, _) = add_warning-settings next s in
      let (g, g') = gaps_settings s next in
      let c' =
        (next-Counts s next n scan.now needed later (omega arith) (omega arith)
          (subst (λ u. Counts s n scan.now (lookup u s.warnings)) (sym same) c)).1 in
      Steady-run next third scans s' (n + 1) (omega (arith, g)) (omega (arith, g'))
        (omega (arith, setting)) (omega arith) rest
        (Counts-settings s s' (n + 1) next.now _ setting c')
      ∙ ap₂ verdict setting (omega arith)

-- The setting asks for at least one scan and the clock is past 0. A user without a record is seen over the limit at a first time and then at further scans, each at
-- least half an interval and at most a monitoring period after the one before. The last scan then
-- reports that the limit is reached if the scans are at least as many as the setting asks for, and
-- only an update otherwise: a scan of a steady loop is never lost.
pub follow-Steady :
    (s : WarningSystem) (scan next : Scan) (scans : List Scan)
    → 1 ≤ s.max_warnings
    → 1 ≤ scan.now
    → lookup scan.username s.warnings ≡ none
    → Steady (min_scan_gap s) (max_scan_gap s) scan (next ∷ scans)
    → (follow scan (next ∷ scans) s).0 ≡ (
        if leb s.max_warnings (length (scan ∷ next ∷ scans))
        then violation_limit_reached
        else updated)
unfolding follow
follow-Steady s scan next scans needed later fresh steady =
    let s' = (add_warning scan s).1 in
    let (_, setting, _) = add_warning-settings scan s in
    let (g, g') = gaps_settings s scan in
    Steady-run (min_scan_gap s) (max_scan_gap s) scan next scans s' 1 (omega (arith, g))
      (omega (arith, g')) (omega (arith, setting)) later steady
      (Counts-settings s s' 1 scan.now _ setting (first-Counts s scan fresh))
    ∙ ap₂ verdict setting (omega arith)
