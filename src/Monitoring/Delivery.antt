-- ===== src/Monitoring/Delivery.antt =====
-- telegram_bot/topics.py: the mark of a delivery after a change of the group or of a thread.
use pg_limiter.Prelude.{
  ℕ, ◌<◌, String, ◌≡◌, ◌≢◌, ◌⊎◌, inl, inr, refl, ap, Bool, false, not, ◌&&◌, ◌||◌, some, List, ◌==◌,
  nat_eq, string_eq, option_eq, is_empty, either, arith,
}
use pg_limiter.Prelude.Int.{int_eq}
use pg_limiter.Prelude.Dict.{lookup, has_key}
use pg_limiter.Monitoring.Topics.{
  TopicsManager, Receipt, update, set_group_id, set_enabled, set_topic_id, remove_topic,
  clear_all_topics, clear_message_cache, mark_message_sent, receipt_valid, destination_matches,
}
use pg_limiter.Monitoring.Pause.{
  Change, group_set, enabled_set, thread_set, thread_removed, all_cleared, cache_cleared,
  marked_sent, change, changes, changes-IsLater,
}

stale_receipt :
    (n : ℕ) (topic : String) (r : Receipt) (m : TopicsManager)
    → r.destination ≡ some n
    → n < m.destination_revision
    → receipt_valid topic r m ≡ false
unfolding receipt_valid
stale_receipt n topic r m e h =
    rw (receipt_valid, e) (ground (arith, nat_eq.beq_iff n m.destination_revision))

stale_mark :
    (written : Bool) (now n : ℕ) (topic key : String) (r : Receipt) (m : TopicsManager)
    → r.destination ≡ some n
    → n < m.destination_revision
    → mark_message_sent written now topic key r m ≡ m
unfolding mark_message_sent update
stale_mark written now n topic key r m e h =
    rw (mark_message_sent, stale_receipt n topic r m e h) (either (λ s. s ≡ m) written refl refl)

-- Where messages go: the group, and the thread of each topic.
abbrev pub Redirects : TopicsManager → TopicsManager → Type 0
Redirects m m' =
    (m'.group_id ≢ m.group_id) ⊎ (topic : String) × (lookup topic m'.topics ≢ lookup topic m.topics)

abbrev Counts : TopicsManager → TopicsManager → Type 0
Counts m m' =
    (m.destination_revision < m'.destination_revision)
    ⊎ (m'.group_id ≡ m.group_id) × (m'.topics ≡ m.topics)

update-Counts :
    (written : Bool) (candidate m : TopicsManager)
    → Counts m candidate
    → Counts m (update written candidate m)
unfolding update
update-Counts written candidate m h = either (Counts m) written h (inr (refl, refl))

-- A change counts up the revision, or leaves the group and the threads alone.
change-Counts : (c : Change) (m : TopicsManager) → Counts m (change c m)
unfolding set_group_id set_enabled set_topic_id remove_topic clear_all_topics clear_message_cache
    mark_message_sent
change-Counts (group_set written group) m =
    update-Counts written _ m
      (either (Counts m) (m.group_id == some group) (inr (refl, refl)) (inl (omega arith)))
change-Counts (enabled_set written value) m = update-Counts written _ m (inr (refl, refl))
change-Counts (thread_set written topic thread group revision) m = update-Counts written _ m (
    either (Counts m)
      (not (destination_matches group revision m) || lookup topic m.topics == some thread)
      (inr (refl, refl)) (inl (omega arith)))
change-Counts (thread_removed written topic group revision) m = update-Counts written _ m (
    either (Counts m) (not (destination_matches group revision m) || not (has_key topic m.topics))
      (inr (refl, refl)) (inl (omega arith)))
change-Counts (all_cleared written) m = update-Counts written _ m (
    either (Counts m) (is_empty m.topics && is_empty m.message_cache) (inr (refl, refl))
      (inl (omega arith)))
change-Counts (cache_cleared written topic) m = update-Counts written _ m (inl (omega arith))
change-Counts (marked_sent written now topic key r) m =
    update-Counts written _ m
      (either (Counts m) (receipt_valid topic r m) (inr (refl, refl)) (inr (refl, refl)))

redirect-revision :
    (m m' : TopicsManager)
    → Counts m m'
    → Redirects m m'
    → m.destination_revision < m'.destination_revision
redirect-revision m m' (inl h) r = h
redirect-revision m m' (inr (same, threads)) (inl other) = elim (other same) [ ]
redirect-revision m m' (inr (same, threads)) (inr (topic, other)) =
    elim (other (ap (lookup topic) threads)) [ ]

-- A receipt counts for its own destination only: of a delivery that captured the destination revision,
-- nothing is marked once a change has redirected the messages, to another group or some topic to another
-- thread (or to none), whatever changes came before and come after, a change back among them.
pub mark_message_sent-redirected :
    (before after : List Change) (c : Change) (m : TopicsManager) (written : Bool) (now : ℕ)
    (topic key : String) (r : Receipt)
    → r.destination ≡ some m.destination_revision
    → Redirects (changes before m) (change c (changes before m))
    → let m' = changes after (change c (changes before m)) in
      mark_message_sent written now topic key r m' ≡ m'
mark_message_sent-redirected before after c m written now topic key r captured redirects =
    let m1 = changes before m in
    let m2 = change c m1 in
    let b = changes-IsLater before m in
    let a = changes-IsLater after m2 in
    let moved = redirect-revision m1 m2 (change-Counts c m1) redirects in
    stale_mark written now m.destination_revision topic key r (changes after m2) captured
      (omega (arith, b.destination_grows, a.destination_grows, moved))
