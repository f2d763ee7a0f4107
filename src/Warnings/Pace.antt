-- ===== src/Warnings/Pace.antt =====
-- The rule of consecutive scans of utils/warning_system/enhanced_system.py: the record that one
-- scan leaves.
use pg_limiter.Prelude.{
  ℕ, ◌+◌, String, List, [], ◌∷◌, none, some, ◌≡◌, refl, ◌∙◌, ap, leb, ◌≢◌, nat_eq, string_eq,
  if◌then◌else◌, Option-cases, inl, inr, arith, eq_iff,
}
use pg_limiter.Prelude.Dict.{lookup, lookup-insert, insert, lookup-insert_self}
use pg_limiter.Warnings.Record.{UserLimitWarning, update_ip_activity, see_ips}
use pg_limiter.Warnings.System.{WarningSystem, effective_max_warnings}
use pg_limiter.Warnings.Scan.{
  Scan, add_warning, new, updated, violation_limit_reached, continue_warning, first_warning,
  count_scan, gap_of, Gap, unknown_previous, clock_back, too_late, counted, too_soon, refresh,
}

-- The fields that the scan rule reads, which no refresh touches.
see_ips-count :
    (now : ℕ) (ips : List String) (w : UserLimitWarning)
    → ((see_ips now ips w).consecutive_violations ≡ w.consecutive_violations)
      × ((see_ips now ips w).last_scan_time ≡ w.last_scan_time)
      × ((see_ips now ips w).max_warnings_at_creation ≡ w.max_warnings_at_creation)
unfolding see_ips
see_ips-count now [] w = (refl, refl, refl)
see_ips-count now (ip ∷ ips) w = see_ips-count now ips _

pub update_ip_activity-count :
    (now : ℕ) (ips : List String) (w : UserLimitWarning)
    → ((update_ip_activity ips now w).consecutive_violations ≡ w.consecutive_violations)
      × ((update_ip_activity ips now w).last_scan_time ≡ w.last_scan_time)
      × ((update_ip_activity ips now w).max_warnings_at_creation ≡ w.max_warnings_at_creation)
unfolding update_ip_activity
update_ip_activity-count now ips w = ground (arith, see_ips-count now ips w)

pub refresh-count :
    (s : WarningSystem) (scan : Scan) (w : UserLimitWarning)
    → ((refresh s scan w).consecutive_violations ≡ w.consecutive_violations)
      × ((refresh s scan w).last_scan_time ≡ w.last_scan_time)
      × ((refresh s scan w).max_warnings_at_creation ≡ w.max_warnings_at_creation)
unfolding refresh
refresh-count s scan w = update_ip_activity-count scan.now scan.ips _

pub first_warning-count :
    (s : WarningSystem) (scan : Scan)
    → ((first_warning s scan).consecutive_violations ≡ 1)
      × ((first_warning s scan).last_scan_time ≡ scan.now)
      × ((first_warning s scan).max_warnings_at_creation ≡ s.max_warnings)
unfolding first_warning
first_warning-count s scan = update_ip_activity-count scan.now scan.ips _

-- The record that a further violation leaves.
abbrev pub next_record : WarningSystem → Scan → UserLimitWarning → UserLimitWarning
next_record s scan w = refresh s scan (count_scan (gap_of s w.last_scan_time scan.now) scan.now w)

count_scan-required :
    (s : WarningSystem) (g : Gap) (now : ℕ) (w : UserLimitWarning)
    → effective_max_warnings s (count_scan g now w) ≡ effective_max_warnings s w
unfolding count_scan effective_max_warnings
count_scan-required s unknown_previous now w = refl
count_scan-required s clock_back now w = refl
count_scan-required s too_late now w = refl
count_scan-required s counted now w = refl
count_scan-required s too_soon now w = refl

module _ (scan : Scan) (s : WarningSystem) where
  start_eq :
      lookup scan.username s.warnings ≡ none
      → add_warning scan s ≡ (
        new,
        record s {
          warnings = insert scan.username (first_warning s scan) s.warnings;
          next_owner = s.next_owner + 1;
        },
      )
  unfolding add_warning
  start_eq h = rw (h, add_warning) refl

  continue_eq :
      (w : UserLimitWarning)
      → lookup scan.username s.warnings ≡ some w
      → add_warning scan s ≡ (
        if leb (effective_max_warnings s w) (next_record s scan w).consecutive_violations
            then violation_limit_reached
            else updated,
        record s { warnings = insert scan.username (next_record s scan w) s.warnings },
      )
  unfolding add_warning continue_warning
  continue_eq w h =
      rw (h, add_warning)
        (ap
          (λ n. (
            if leb n (next_record s scan w).consecutive_violations
                then violation_limit_reached
                else updated,
            record s { warnings = insert scan.username (next_record s scan w) s.warnings },
          ))
          (count_scan-required s (gap_of s w.last_scan_time scan.now) scan.now w))

  pub add_warning-first :
      lookup scan.username s.warnings ≡ none
      → ((add_warning scan s).0 ≡ new)
        × (lookup scan.username (add_warning scan s).1.warnings ≡ some (first_warning s scan))
  add_warning-first h = (
    ap (λ r. r.0) (start_eq h),
    ap (λ r. lookup scan.username r.1.warnings) (start_eq h)
        ∙ lookup-insert_self scan.username (first_warning s scan) s.warnings,
  )

  pub add_warning-next :
      (w : UserLimitWarning)
      → lookup scan.username s.warnings ≡ some w
      → ((add_warning scan s).0 ≡ (
          if leb (effective_max_warnings s w) (next_record s scan w).consecutive_violations
          then violation_limit_reached
          else updated))
        × (lookup scan.username (add_warning scan s).1.warnings ≡ some (next_record s scan w))
  add_warning-next w h = (
    ap (λ r. r.0) (continue_eq w h),
    ap (λ r. lookup scan.username r.1.warnings) (continue_eq w h)
        ∙ lookup-insert_self scan.username (next_record s scan w) s.warnings,
  )

  -- A scan of one user, whatever its outcome, leaves the records of all other users as they are.
  pub add_warning-others :
      (user : String)
      → user ≢ scan.username
      → lookup user (add_warning scan s).1.warnings ≡ lookup user s.warnings
  add_warning-others user other = elim (Option-cases (lookup scan.username s.warnings)) [
    | inl e ↦
        ap (λ r. lookup user r.1.warnings) (start_eq e)
        ∙ ground (
          arith,
          lookup-insert scan.username user (first_warning s scan) s.warnings,
          eq_iff user scan.username,
        )
    | inr (w, e) ↦
        ap (λ r. lookup user r.1.warnings) (continue_eq w e)
        ∙ ground (
          arith,
          lookup-insert scan.username user (next_record s scan w) s.warnings,
          eq_iff user scan.username,
        )
  ]

  pub add_warning-settings :
      ((add_warning scan s).1.check_interval ≡ s.check_interval)
      × ((add_warning scan s).1.max_warnings ≡ s.max_warnings)
      × ((add_warning scan s).1.monitoring_period ≡ s.monitoring_period)
  add_warning-settings = elim (Option-cases (lookup scan.username s.warnings)) [
    | inl e ↦ (
      ap (λ r. r.1.check_interval) (start_eq e),
      ap (λ r. r.1.max_warnings) (start_eq e),
      ap (λ r. r.1.monitoring_period) (start_eq e),
    )
    | inr (w, e) ↦ (
      ap (λ r. r.1.check_interval) (continue_eq w e),
      ap (λ r. r.1.max_warnings) (continue_eq w e),
      ap (λ r. r.1.monitoring_period) (continue_eq w e),
    )
  ]
