-- ===== src/Warnings/Tests.antt =====
-- Runs of utils/warning_system, and the theorems at them. A scan falls every minute.
use pg_limiter.Prelude.{
  ℕ, ◌≤◌, true, none, some, List, [], ◌∷◌, ◌≡◌, refl, ◌↔◌, nat_eq, string_eq, All, arith,
}
use pg_limiter.Prelude.Int.{pos, negsuc, ◌≤ℤ◌, ◌+ℤ◌, ◌-ℤ◌}
use pg_limiter.Warnings.Record.{
  UserLimitWarning, calculate_trust_score, get_trust_level, see_ips, update_ip_activity, turn_round,
  inbound_to_ips, analyze_ip_inbound_pattern, history_penalty, excess, raw_trust_score, clamp,
}
use pg_limiter.Warnings.System.{
  WarningSystem, update_settings, effective_max_warnings, count_recent_warnings,
  cleanup_old_warning_history, recent_history, add_to_warning_history, record_disable_outcome,
  clear_user_warning, clear_user_trust_data, is_owner, clear_all_trust_data,
}
use pg_limiter.Warnings.Scan.{
  Scan, updated, violation_limit_reached, add_warning, continue_warning, first_warning, refresh,
  count_scan, gap_of, extract_subnets, extract_ip_to_inbounds, extract_from, min_scan_gap,
  max_scan_gap,
}
use pg_limiter.Warnings.Trace.{
  Event, configure, violation, step, run, seen_at, record_time, KeepsInterval, Streak,
}
use pg_limiter.Warnings.Trust.{calculate_trust_score-history}
use pg_limiter.Warnings.Streak.{add_warning-streak, gap_for}
use pg_limiter.Warnings.Progress.{follow, Steady, follow-Steady}
use pg_limiter.Warnings.History.{count_recent_warnings-cleanup, clear_user_warning-owner}
use pg_limiter.Warnings.Record.{is_monitoring_active}
use pg_limiter.Warnings.Expired.{
  Moment, Authorize, Active, may_expire, settle_answer, expire_each, cleanup_expired_warnings,
  cleanup_expired_warnings-Kept, Kept,
}
use pg_limiter.Prelude.{◌+◌, false}
use pg_limiter.Prelude.Dict.{lookup, insert, lookup-insert_self}

program : Unit {0}
unfolding see_ips update_ip_activity turn_round inbound_to_ips analyze_ip_inbound_pattern
    history_penalty excess raw_trust_score clamp calculate_trust_score get_trust_level
    update_settings effective_max_warnings add_warning continue_warning first_warning refresh
    count_scan gap_of count_recent_warnings cleanup_old_warning_history recent_history
    add_to_warning_history record_disable_outcome clear_user_warning clear_user_trust_data
    clear_all_trust_data extract_subnets extract_ip_to_inbounds extract_from step run seen_at
    record_time KeepsInterval follow Steady ◌+ℤ◌ ◌-ℤ◌ is_monitoring_active may_expire settle_answer
    expire_each cleanup_expired_warnings
program = tt

abbrev empty : WarningSystem
empty = record {
  warnings = [];
  warning_history = ("ann", 5000 ∷ 100000000 ∷ []) ∷ [];
  check_interval = 60;
  max_warnings = 3;
  monitoring_period = 180;
  next_owner = 1;
}

abbrev scan_at : ℕ → Scan
scan_at now = record {
  username = "ann";
  now = now;
  ip_count = 0;
  ips = [];
  user_limit = some (pos 2);
  user_data = none;
}

abbrev three_scans : List Event
three_scans =
    violation (scan_at 100000000) ∷ configure (pos 60) (pos 2) ∷ violation (scan_at 100060000) ∷ []

third_run : (add_warning (scan_at 100120000) (run three_scans empty)).0 ≡ violation_limit_reached
unfolding program
third_run = refl

-- Lowering the setting to 2 did not ban at the second scan.
second_run :
    (add_warning
      (scan_at 100060000)
      (run (violation (scan_at 100000000) ∷ configure (pos 60) (pos 2) ∷ []) empty)).0
    ≡ updated
unfolding program
second_run = refl

restart_run :
    (add_warning (scan_at 100001000) (run (violation (scan_at 100000000) ∷ []) empty)).0 ≡ updated
unfolding program
restart_run = refl

kept : All (KeepsInterval 60) three_scans
unfolding program
kept = (tt, (omega arith, (tt, tt)))

add_warning-streak_example :
    (n : ℕ) × (t : ℕ) × ((run three_scans empty).max_warnings ≤ n)
    × Streak (gap_for 60) (100120000 ∷ seen_at "ann" three_scans []) n t
add_warning-streak_example =
    add_warning-streak 60 three_scans empty (scan_at 100120000) (omega arith) kept refl third_run

steady :
    Steady
      (min_scan_gap empty)
      (max_scan_gap empty)
      (scan_at 100000000)
      (scan_at 100060000 ∷ scan_at 100130000 ∷ [])
unfolding program
steady = (refl, omega arith, omega arith, (refl, omega arith, omega arith, tt))

follow-Steady_example :
    (follow (scan_at 100000000) (scan_at 100060000 ∷ scan_at 100130000 ∷ []) empty).0
    ≡ violation_limit_reached
follow-Steady_example =
    follow-Steady empty (scan_at 100000000) (scan_at 100060000) (scan_at 100130000 ∷ [])
      (omega arith) (omega arith) refl steady

abbrev ann : UserLimitWarning
ann = record {
  owner = 1;
  username = "ann";
  ip_count = 4;
  ips = "1.1.1.1" ∷ "2.2.2.2" ∷ "3.3.3.3" ∷ "4.4.4.4" ∷ [];
  warning_time = 100000000;
  monitoring_end_time = 100180000;
  warned = true;
  monitoring_history = [];
  ip_first_seen = [];
  ip_last_seen = [];
  ip_seen_count = [];
  trust_score = pos 0;
  inbound_protocols = "vless" ∷ "trojan" ∷ [];
  ip_subnets = [];
  previous_warnings_12h = 1;
  previous_warnings_24h = 2;
  ip_to_inbounds = ("1.1.1.1", "vless" ∷ []) ∷ ("2.2.2.2", "vless" ∷ "trojan" ∷ []) ∷ [];
  same_ip_multiple_inbounds = true;
  connection_details = [];
  user_limit = pos 2;
  consecutive_violations = 1;
  last_scan_time = 100000000;
  max_warnings_at_creation = 3;
}

-- 50 + 20 - 30 - 20 - 10 - 20
score_run : calculate_trust_score ann ≡ negsuc 9
unfolding program
score_run = refl

calculate_trust_score-history_example :
    calculate_trust_score (record ann { previous_warnings_12h = 3; previous_warnings_24h = 3 })
    ≤ℤ calculate_trust_score ann
calculate_trust_score-history_example =
    (calculate_trust_score-history ann 3 3 (omega arith) (omega arith)).0

count_recent_warnings-cleanup_example :
    count_recent_warnings 100000001 "ann" 12 (cleanup_old_warning_history 100000000 empty)
    ≡ count_recent_warnings 100000001 "ann" 12 empty
count_recent_warnings-cleanup_example =
    count_recent_warnings-cleanup 100000000 100000001 12 "ann" empty (omega arith) (omega arith)
      (refl, tt)

count_run :
    count_recent_warnings 100000001 "ann" 12 (cleanup_old_warning_history 100000000 empty) ≡ 1
unfolding program
count_run = refl

clear_user_warning-owner_example :
    ((clear_user_warning "ann" (some 1) (record empty { warnings = ("ann", ann) ∷ [] })).0 ≡ true)
    ↔ (is_owner "ann" 1 (record empty { warnings = ("ann", ann) ∷ [] }) ≡ true)
clear_user_warning-owner_example =
    (clear_user_warning-owner "ann" 1 (record empty { warnings = ("ann", ann) ∷ [] })).0

-- The window of "bob" is over, that of "ann" is open.
abbrev both : Moment
both = record {
  now = 100100000;
  monitoring_is_current = true;
  system = record empty {
    warnings =
        ("bob", record ann { owner = 2; monitoring_end_time = 100000000 }) ∷ ("ann", ann) ∷ [];
  };
}

abbrev allow : Authorize
allow name m = (some true, m)

expired_run : (cleanup_expired_warnings allow true [] none both).system.warnings ≡ ("ann", ann) ∷ []
unfolding program
expired_run = refl

protected_run : cleanup_expired_warnings allow true ("bob" ∷ []) none both ≡ both
unfolding program
protected_run = refl

-- While the check of a user is awaited, "bob" violates the limit anew.
abbrev renewed : Moment → UserLimitWarning
renewed m = record ann { owner = 3; monitoring_end_time = m.now + 180000 }

abbrev renewing : Authorize
renewing name m = (
  some true,
  record m { system = record (m.system) { warnings = insert "bob" (renewed m) m.system.warnings } },
)

renewed-Active : (m : Moment) → Active "bob" (renewing "bob" m).1
unfolding program
renewed-Active m = (renewed m, lookup-insert_self "bob" (renewed m) m.system.warnings, ground arith)

renewed-Kept : (m : Moment) → Kept false "bob" (renewing "bob" m).1
renewed-Kept m = (renewed m, lookup-insert_self "bob" (renewed m) m.system.warnings, refl)

bob-Kept : Kept false "bob" both
bob-Kept = (record ann { owner = 2; monitoring_end_time = 100000000 }, refl, refl)

renewed_run :
    lookup "bob" (cleanup_expired_warnings renewing true [] none both).system.warnings
    ≡ some (record ann { owner = 3; monitoring_end_time = 100280000 })
unfolding program
renewed_run = refl

cleanup_expired_warnings-Kept_example :
    Kept false "bob" (cleanup_expired_warnings renewing true [] none both)
cleanup_expired_warnings-Kept_example =
    (cleanup_expired_warnings-Kept renewing [] "bob" false (λ name m other h. renewed-Kept m)
      (λ m h. renewed-Active m) none both bob-Kept).0
