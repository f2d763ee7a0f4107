-- ===== src/Monitoring/Tests.antt =====
-- The manager and the gate on concrete inputs.
use pg_limiter.Prelude.{inl, ◌≡◌, refl, true, false, none, some, [], ◌∷◌}
use pg_limiter.Prelude.Int.{pos}
use pg_limiter.Monitoring.Topics.{
  TopicsManager, Receipt, update, set_group_id, set_enabled, set_topic_id, remove_topic,
  clear_all_topics, clear_message_cache, mark_message_sent, receipt_valid, is_message_sent,
}
use pg_limiter.Monitoring.Gate.{
  monitoring_snapshot, monitoring_is_current, record_completed_scan, record_cycle_outcome,
  CompletedScan, Receipts,
}
use pg_limiter.Monitoring.Pause.{
  group_set, enabled_set, changes, change, monitoring_is_current-paused,
}
use pg_limiter.Monitoring.Delivery.{mark_message_sent-redirected}

program : Unit {0}
unfolding update set_group_id set_enabled set_topic_id remove_topic clear_all_topics
    clear_message_cache mark_message_sent receipt_valid is_message_sent monitoring_snapshot
    monitoring_is_current record_completed_scan record_cycle_outcome
program = tt

abbrev watching : TopicsManager
watching = record {
  topics = ("warnings", 7) ∷ [];
  group_id = some (pos 5);
  enabled = true;
  monitoring_revision = 2;
  destination_revision = 3;
  message_cache = [];
}

abbrev scan : CompletedScan
scan = record {
  completed_at = 100;
  source = "logs";
  users_counted = 3;
  admission = monitoring_snapshot watching;
  config_revision = 1;
  coverage_complete = true;
}

abbrev no_receipts : Receipts
no_receipts = record { last_completed_scan = none; last_cycle_outcome = none }

current_run : (record_completed_scan scan watching no_receipts).last_completed_scan ≡ some scan
unfolding program
current_run = refl

-- Another group and back: the admission is current again, for only a pause has a revision of its own.
group_returns :
    monitoring_is_current
      (monitoring_snapshot watching)
      (changes (group_set true (pos 6) ∷ group_set true (pos 5) ∷ []) watching)
    ≡ true
unfolding program
group_returns = refl

monitoring_is_current-paused_example :
    let m' = changes (enabled_set true true ∷ []) (set_enabled true false watching) in
    (monitoring_is_current (monitoring_snapshot watching) m' ≡ false)
    × (record_completed_scan scan m' no_receipts ≡ no_receipts)
monitoring_is_current-paused_example =
    monitoring_is_current-paused [] (enabled_set true true ∷ []) watching scan no_receipts refl

abbrev receipt : Receipt
receipt = record {
  chat_id = some (pos 5);
  message_thread_id = some 7;
  monitoring = some 2;
  destination = some 3;
}

-- A receipt of its own destination is kept for as long as it does not expire.
marked_run :
    is_message_sent 1000 600 "warnings" "ann"
      (mark_message_sent true 500 "warnings" "ann" receipt watching)
    ≡ true
unfolding program
marked_run = refl

mark_message_sent-redirected_example :
    let m' = changes (group_set true (pos 5) ∷ []) (change (group_set true (pos 6)) watching) in
    mark_message_sent true 500 "warnings" "ann" receipt m' ≡ m'
unfolding program
mark_message_sent-redirected_example =
    mark_message_sent-redirected [] (group_set true (pos 5) ∷ []) (group_set true (pos 6)) watching
      true 500 "warnings" "ann" receipt refl (inl (λ e. cc e))
