-- ===== src/Monitoring/Pause.antt =====
-- telegram_bot/topics.py and utils/monitoring_gate.py: the admissions that were taken before a pause.
use pg_limiter.Prelude.{
  ℕ, ◌≤◌, ◌<◌, String, ◌≡◌, refl, Bool, true, false, not, ◌&&◌, ◌||◌, Option, some, List, [], ◌∷◌,
  ◌==◌, nat_eq, string_eq, bool_eq, option_eq, is_empty, if◌then◌else◌, either, arith,
}
use pg_limiter.Prelude.Int.{ℤ, int_eq}
use pg_limiter.Prelude.Dict.{lookup, has_key}
use pg_limiter.Monitoring.Topics.{
  TopicsManager, update, set_group_id, set_enabled, set_topic_id, remove_topic, clear_all_topics,
  clear_message_cache, mark_message_sent, receipt_valid, marked_at, Receipt, destination_matches,
}
use pg_limiter.Monitoring.Gate.{
  monitoring_snapshot, monitoring_is_current, CompletedScan, Receipts, record_completed_scan,
}

-- What changes the manager; the first argument tells whether the write of the file succeeds.
pub data Change : Type 0 where
  group_set : Bool → ℤ → Change
  enabled_set : Bool → Bool → Change
  thread_set : Bool → String → ℕ → Option ℤ → Option ℕ → Change
  thread_removed : Bool → String → Option ℤ → Option ℕ → Change
  all_cleared : Bool → Change
  cache_cleared : Bool → Option String → Change
  marked_sent : Bool → ℕ → String → String → Receipt → Change

abbrev pub change : Change → TopicsManager → TopicsManager
change (group_set written group) m = set_group_id written group m
change (enabled_set written value) m = set_enabled written value m
change (thread_set written topic thread group revision) m =
    set_topic_id written topic thread group revision m
change (thread_removed written topic group revision) m = remove_topic written topic group revision m
change (all_cleared written) m = clear_all_topics written m
change (cache_cleared written topic) m = clear_message_cache written topic m
change (marked_sent written now topic key r) m = mark_message_sent written now topic key r m

abbrev pub changes : List Change → TopicsManager → TopicsManager
changes [] m = m
changes (c ∷ cs) m = changes cs (change c m)

-- The revisions never go back.
pub record IsLater (m m' : TopicsManager) : Type 0 where
  pub monitoring_grows : m.monitoring_revision ≤ m'.monitoring_revision
  pub destination_grows : m.destination_revision ≤ m'.destination_revision

IsLater-self : (m : TopicsManager) → IsLater m m
IsLater-self m = record { monitoring_grows = omega arith; destination_grows = omega arith }

pub IsLater-trans : {a b c : TopicsManager} → IsLater a b → IsLater b c → IsLater a c
IsLater-trans p q = record {
  monitoring_grows = omega (arith, p.monitoring_grows, q.monitoring_grows);
  destination_grows = omega (arith, p.destination_grows, q.destination_grows);
}

-- A candidate that is later, if it is written.
update-IsLater :
    (written stale : Bool) (candidate m : TopicsManager)
    → IsLater m candidate
    → IsLater m (update written (if stale then m else candidate) m)
unfolding update
update-IsLater written stale candidate m h =
    either (IsLater m) written (either (IsLater m) stale (IsLater-self m) h) (IsLater-self m)

update-some :
    (written valid : Bool) (candidate m : TopicsManager)
    → IsLater m candidate
    → IsLater m (update written (if valid then candidate else m) m)
unfolding update
update-some written valid candidate m h =
    either (IsLater m) written (either (IsLater m) valid h (IsLater-self m)) (IsLater-self m)

change-IsLater : (c : Change) (m : TopicsManager) → IsLater m (change c m)
unfolding set_group_id set_enabled set_topic_id remove_topic clear_all_topics clear_message_cache
    mark_message_sent update
change-IsLater (group_set written group) m =
    update-IsLater written (m.group_id == some group) _ m
      (record { monitoring_grows = omega arith; destination_grows = omega arith })
change-IsLater (enabled_set written value) m =
    either (IsLater m) written
      (record { monitoring_grows = ground arith; destination_grows = omega arith }) (IsLater-self m)
change-IsLater (thread_set written topic thread group revision) m =
    update-IsLater written
      (not (destination_matches group revision m) || lookup topic m.topics == some thread) _ m
      (record { monitoring_grows = omega arith; destination_grows = omega arith })
change-IsLater (thread_removed written topic group revision) m =
    update-IsLater written
      (not (destination_matches group revision m) || not (has_key topic m.topics)) _ m
      (record { monitoring_grows = omega arith; destination_grows = omega arith })
change-IsLater (all_cleared written) m =
    update-IsLater written (is_empty m.topics && is_empty m.message_cache) _ m
      (record { monitoring_grows = omega arith; destination_grows = omega arith })
change-IsLater (cache_cleared written topic) m =
    either (IsLater m) written
      (record { monitoring_grows = omega arith; destination_grows = omega arith }) (IsLater-self m)
change-IsLater (marked_sent written now topic key r) m =
    update-some written (receipt_valid topic r m) (marked_at now topic key m) m
      (record { monitoring_grows = omega arith; destination_grows = omega arith })

pub changes-IsLater : (cs : List Change) (m : TopicsManager) → IsLater m (changes cs m)
changes-IsLater [] m = IsLater-self m
changes-IsLater (c ∷ cs) m = IsLater-trans (change-IsLater c m) (changes-IsLater cs (change c m))

pause-next :
    (m : TopicsManager)
    → m.enabled ≡ true
    → m.monitoring_revision < (set_enabled true false m).monitoring_revision
unfolding set_enabled update
pause-next m h = ground arith

older-current :
    (m m' : TopicsManager)
    → m.monitoring_revision < m'.monitoring_revision
    → monitoring_is_current (monitoring_snapshot m) m' ≡ false
unfolding monitoring_is_current monitoring_snapshot
older-current m m' h = ground (arith, nat_eq.beq_iff m'.monitoring_revision m.monitoring_revision)

-- A pause retires every admission for good: an admission that was taken before an operator's pause is
-- not current after it, whatever changes came before and come after, a resumption among them, and a scan
-- with that admission leaves the receipts as they are.
pub monitoring_is_current-paused :
    (before after : List Change) (m : TopicsManager) (scan : CompletedScan) (r : Receipts)
    → (changes before m).enabled ≡ true
    → let admission = monitoring_snapshot m in
      let m' = changes after (set_enabled true false (changes before m)) in
      (monitoring_is_current admission m' ≡ false)
      × (record_completed_scan (record scan { admission = admission }) m' r ≡ r)
unfolding record_completed_scan
monitoring_is_current-paused before after m scan r h =
    let m1 = changes before m in
    let m2 = set_enabled true false m1 in
    let m3 = changes after m2 in
    let b = changes-IsLater before m in
    let a = changes-IsLater after m2 in
    let retired =
      older-current m m3 (omega (arith, b.monitoring_grows, a.monitoring_grows, pause-next m1 h)) in
    (retired, rw retired refl)
