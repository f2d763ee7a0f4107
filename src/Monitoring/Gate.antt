-- ===== src/Monitoring/Gate.antt =====
-- utils/monitoring_gate.py: the admission of a scan, and the receipts of scans. There is one manager, which
-- has a revision of its own, so the fallback for managers without one has no part here.
use pg_limiter.Prelude.{
  ℕ, String, Bool, not, ◌&&◌, Option, some, ◌==◌, nat_eq, string_eq, bool_eq, option_eq,
  if◌then◌else◌,
}
use pg_limiter.Prelude.Int.{ℤ, int_eq}
use pg_limiter.Monitoring.Topics.{TopicsManager, is_group}

pub record MonitoringAdmission : Type 0 where
  pub allowed : Bool
  pub reason : String
  pub revision : ℕ
  pub group_id : Option ℤ

unfoldable pub monitoring_snapshot : TopicsManager → MonitoringAdmission
monitoring_snapshot m =
    let allowed = m.enabled && is_group m.group_id in
    record {
      allowed = allowed;
      reason =
          if allowed
          then ""
          else if not m.enabled
          then "Topics are disabled"
          else "No forum group is configured";
      revision = m.monitoring_revision;
      group_id = m.group_id;
    }

-- The equality of two admissions.
abbrev pub same_admission : MonitoringAdmission → MonitoringAdmission → Bool
same_admission a b =
    a.allowed == b.allowed
    && a.reason == b.reason
    && a.revision == b.revision
    && a.group_id == b.group_id

unfoldable pub monitoring_is_current : MonitoringAdmission → TopicsManager → Bool
unfolding monitoring_snapshot
monitoring_is_current admission m =
    (monitoring_snapshot m).allowed && same_admission (monitoring_snapshot m) admission

pub record CompletedScan : Type 0 where
  pub completed_at : ℕ
  pub source : String
  pub users_counted : ℕ
  pub admission : MonitoringAdmission
  pub config_revision : ℕ
  pub coverage_complete : Bool

pub record CycleOutcome : Type 0 where
  pub finished_at : ℕ
  pub source : String
  pub outcome : String
  pub reason : String
  pub admission : MonitoringAdmission
  pub config_revision : ℕ

pub record Receipts : Type 0 where
  pub last_completed_scan : Option CompletedScan
  pub last_cycle_outcome : Option CycleOutcome

unfoldable pub record_cycle_outcome : CycleOutcome → Receipts → Receipts
record_cycle_outcome cycle r = record r { last_cycle_outcome = some cycle }

-- The receipt of a scan, with the outcome of its cycle.
unfoldable pub record_completed_scan : CompletedScan → TopicsManager → Receipts → Receipts
unfolding monitoring_is_current record_cycle_outcome
record_completed_scan scan m r =
    let cycle : CycleOutcome = record {
      finished_at = scan.completed_at;
      source = scan.source;
      outcome = "completed";
      reason = "";
      admission = scan.admission;
      config_revision = scan.config_revision;
    } in
    if monitoring_is_current scan.admission m
    then record_cycle_outcome cycle (record r { last_completed_scan = some scan })
    else r
