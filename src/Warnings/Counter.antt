-- ===== src/Warnings/Counter.antt =====
-- What one scan does to a streak: the rule of utils/warning_system/enhanced_system.py on a streak
-- of scans.
use pg_limiter.Prelude.{
  ℕ, ◌+◌, ◌≤◌, true, List, Option, none, some, ◌≡◌, refl, sym, contains, nat_eq, string_eq, arith,
  subst,
}
use pg_limiter.Warnings.Record.{UserLimitWarning}
use pg_limiter.Warnings.System.{WarningSystem}
use pg_limiter.Warnings.Scan.{
  Scan, first_warning, count_scan, gap_of, Gap, unknown_previous, clock_back, too_late, counted,
  too_soon, refresh, min_scan_gap,
}
use pg_limiter.Warnings.Trace.{Streak, first, next}
use pg_limiter.Warnings.Pace.{refresh-count, first_warning-count}

pub widen :
    (gap : ℕ) (times more : List ℕ)
    → ((a : ℕ) → contains times a ≡ true → contains more a ≡ true)
    → (n t : ℕ) → Streak gap times n t
    → Streak gap more n t
widen gap times more sub _ _ (first {t} h) = first (sub t h)
widen gap times more sub _ _ (next {n} {t} {u} s h far) =
    next (widen gap times more sub n t s) (sub u h) far

-- A streak that ends at the time 0 has one scan.
at_zero : (gap n t : ℕ) (times : List ℕ) → 1 ≤ gap → Streak gap times n t → t ≡ 0 → n ≡ 1
at_zero gap _ _ times pos_gap (first h) e = refl
at_zero gap _ _ times pos_gap (next {n} {t} {u} s h far) e = ground arith

gap_of-unknown_previous :
    (s : WarningSystem) (last now : ℕ) → gap_of s last now ≡ unknown_previous → last ≡ 0
unfolding gap_of
gap_of-unknown_previous s last now e = ground arith

gap_of-counted :
    (s : WarningSystem) (last now : ℕ) → gap_of s last now ≡ counted → last + min_scan_gap s ≤ now
unfolding gap_of
gap_of-counted s last now e = ground arith

-- The scan rule turns a streak into a streak.
module _ (gap now : ℕ) (times : List ℕ) (w : UserLimitWarning) where
  count_scan-Streak :
      (g : Gap)
      → 1 ≤ gap
      → (g ≡ unknown_previous → w.last_scan_time ≡ 0)
      → (g ≡ counted → w.last_scan_time + gap ≤ now)
      → contains times now ≡ true
      → Streak gap times w.consecutive_violations w.last_scan_time
      → Streak gap times
          (count_scan g now w).consecutive_violations
          (count_scan g now w).last_scan_time
  unfolding count_scan
  count_scan-Streak unknown_previous pos_gap zero_time far seen h =
      subst (λ n. Streak gap times n now)
        (sym
          (at_zero gap w.consecutive_violations w.last_scan_time times pos_gap h (zero_time refl)))
        (first seen)
  count_scan-Streak clock_back pos_gap zero_time far seen h = first seen
  count_scan-Streak too_late pos_gap zero_time far seen h = first seen
  count_scan-Streak counted pos_gap zero_time far seen h =
      subst (λ n. Streak gap times n now) (omega arith) (next h seen (far refl))
  count_scan-Streak too_soon pos_gap zero_time far seen h = h

-- The record of the user, if there is one, carries a streak of scans among `times`.
abbrev pub Carries : ℕ → List ℕ → Option UserLimitWarning → Type 0
Carries gap times none = Unit
Carries gap times (some w) = Streak gap times w.consecutive_violations w.last_scan_time

module _ (gap : ℕ) (times : List ℕ) (s : WarningSystem) (scan : Scan) where
  pub first-Streak :
      contains times scan.now ≡ true
      → Streak gap times
          (first_warning s scan).consecutive_violations
          (first_warning s scan).last_scan_time
  first-Streak seen =
      let (one, now, _) = first_warning-count s scan in
      subst (λ n. Streak gap times n (first_warning s scan).last_scan_time) (sym one)
        (subst (λ t. Streak gap times 1 t) (sym now) (first seen))

  refresh-Streak :
      (w : UserLimitWarning)
      → Streak gap times w.consecutive_violations w.last_scan_time
      → Streak gap times (refresh s scan w).consecutive_violations (refresh s scan w).last_scan_time
  refresh-Streak w h =
      let (count, time, _) = refresh-count s scan w in
      subst (λ n. Streak gap times n (refresh s scan w).last_scan_time) (sym count)
        (subst (λ t. Streak gap times w.consecutive_violations t) (sym time) h)

  pub continue-Streak :
      (w : UserLimitWarning)
      → 1 ≤ gap
      → gap ≤ min_scan_gap s
      → contains times scan.now ≡ true
      → Streak gap times w.consecutive_violations w.last_scan_time
      → (let w' = refresh s scan (count_scan (gap_of s w.last_scan_time scan.now) scan.now w) in
          Streak gap times w'.consecutive_violations w'.last_scan_time)
  continue-Streak w pos_gap small seen h =
      refresh-Streak (count_scan (gap_of s w.last_scan_time scan.now) scan.now w) (
        count_scan-Streak gap scan.now times w (gap_of s w.last_scan_time scan.now) pos_gap
          (gap_of-unknown_previous s w.last_scan_time scan.now)
          (λ e. omega (arith, gap_of-counted s w.last_scan_time scan.now e)) seen h)
