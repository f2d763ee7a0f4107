-- ===== src/Monitoring/Topics.antt =====
-- telegram_bot/topics.py: `TopicsManager`. `_update` writes a candidate and then publishes it: where the
-- write fails nothing is published, which `written` tells. Messages to Telegram are left out.
use pg_limiter.Prelude.{
  ℕ, suc, ◌+◌, String, Bool, true, false, not, ◌&&◌, ◌||◌, Option, none, some, [], ◌==◌, nat_eq,
  string_eq, option_eq, ltb, is_empty, if◌then◌else◌,
}
use pg_limiter.Prelude.Int.{ℤ, pos, int_eq}
use pg_limiter.Prelude.Dict.{Dict, lookup, has_key, insert, erase}

pub record TopicsManager : Type 0 where
  pub topics : Dict String ℕ
  pub group_id : Option ℤ
  pub enabled : Bool
  pub monitoring_revision : ℕ
  pub destination_revision : ℕ
  pub message_cache : Dict String (Dict String ℕ)

-- `_update`: the candidate is published once it is written.
unfoldable pub update : Bool → TopicsManager → TopicsManager → TopicsManager
update written candidate m = if written then candidate else m

-- `TopicType.GENERAL.value`
abbrev pub general : String
general = "general"

unfoldable pub set_group_id : Bool → ℤ → TopicsManager → TopicsManager
unfolding update
set_group_id written group m =
    let replaced : TopicsManager = record m {
      group_id = some group;
      topics = [];
      message_cache = [];
      destination_revision = suc m.destination_revision;
    } in
    update written (if m.group_id == some group then m else replaced) m

unfoldable pub set_enabled : Bool → Bool → TopicsManager → TopicsManager
unfolding update
set_enabled written value m =
    let pausing = m.enabled && not value in
    update written
      (record m {
        monitoring_revision = if pausing then suc m.monitoring_revision else m.monitoring_revision;
        message_cache = if pausing then [] else m.message_cache;
        enabled = value;
      })
      m

-- The captured group and revision, where the caller gives them, are still the ones of the manager.
abbrev pub destination_matches : Option ℤ → Option ℕ → TopicsManager → Bool
destination_matches group revision m =
    (elim group [ none ↦ true | some g ↦ m.group_id == some g ])
    && (elim revision [ none ↦ true | some r ↦ m.destination_revision == r ])

-- The receipts of a topic, or of all where the topic is the general one.
abbrev pub drop_receipts : String → Dict String (Dict String ℕ) → Dict String (Dict String ℕ)
drop_receipts topic cache = if topic == general then [] else erase topic cache

unfoldable pub set_topic_id :
    Bool → String → ℕ → Option ℤ → Option ℕ → TopicsManager → TopicsManager
unfolding update
set_topic_id written topic thread group revision m =
    let installed : TopicsManager = record m {
      topics = insert topic thread m.topics;
      destination_revision = suc m.destination_revision;
      message_cache = drop_receipts topic m.message_cache;
    } in
    let stale =
      not (destination_matches group revision m) || lookup topic m.topics == some thread in
    update written (if stale then m else installed) m

unfoldable pub remove_topic : Bool → String → Option ℤ → Option ℕ → TopicsManager → TopicsManager
unfolding update
remove_topic written topic group revision m =
    let removed : TopicsManager = record m {
      topics = erase topic m.topics;
      destination_revision = suc m.destination_revision;
      message_cache = drop_receipts topic m.message_cache;
    } in
    let stale = not (destination_matches group revision m) || not (has_key topic m.topics) in
    update written (if stale then m else removed) m

unfoldable pub clear_all_topics : Bool → TopicsManager → TopicsManager
unfolding update
clear_all_topics written m =
    let cleared : TopicsManager = record m {
      topics = [];
      message_cache = [];
      destination_revision = suc m.destination_revision;
    } in
    update written (if is_empty m.topics && is_empty m.message_cache then m else cleared) m

unfoldable pub clear_message_cache : Bool → Option String → TopicsManager → TopicsManager
unfolding update
clear_message_cache written topic m =
    update written
      (record m {
        message_cache = elim topic [ none ↦ [] | some t ↦ erase t m.message_cache ];
        destination_revision = suc m.destination_revision;
      })
      m

-- `bool(group_id)`
abbrev pub is_group : Option ℤ → Bool
is_group none = false
is_group (some g) = not (g == pos 0)

-- The thread of a topic, which the general one stands in for.
abbrev thread_of : String → TopicsManager → Option ℕ
thread_of topic m = elim (lookup topic m.topics) [
  | none ↦ lookup general m.topics
  | some thread ↦ if thread == 0 then lookup general m.topics else some thread
]

-- What a delivery captured: its chat and thread, and the two revisions.
pub record Receipt : Type 0 where
  pub chat_id : Option ℤ
  pub message_thread_id : Option ℕ
  pub monitoring : Option ℕ
  pub destination : Option ℕ

abbrev agrees : Option ℕ → ℕ → Bool
agrees none n = true
agrees (some m) n = m == n

abbrev same_chat : String → Receipt → TopicsManager → Bool
same_chat topic r m = elim r.chat_id [
  | none ↦ true
  | some chat ↦ m.group_id == some chat && thread_of topic m == r.message_thread_id
]

-- The captured destination still matches.
unfoldable pub receipt_valid : String → Receipt → TopicsManager → Bool
receipt_valid topic r m =
    m.enabled
    && is_group m.group_id
    && agrees r.monitoring m.monitoring_revision
    && agrees r.destination m.destination_revision
    && same_chat topic r m

abbrev pub receipts_of : String → TopicsManager → Dict String ℕ
receipts_of topic m = elim (lookup topic m.message_cache) [ none ↦ [] | some d ↦ d ]

abbrev pub marked_at : ℕ → String → String → TopicsManager → TopicsManager
marked_at now topic key m = record m {
  message_cache = insert topic (insert key now (receipts_of topic m)) m.message_cache;
}

unfoldable pub mark_message_sent :
    Bool → ℕ → String → String → Receipt → TopicsManager → TopicsManager
unfolding update receipt_valid
mark_message_sent written now topic key r m =
    update written (if receipt_valid topic r m then marked_at now topic key m else m) m

-- `MESSAGE_CACHE_EXPIRY` is given in the unit of the clock.
unfoldable pub is_message_sent : ℕ → ℕ → String → String → TopicsManager → Bool
is_message_sent expiry now topic key m =
    let allowed = m.enabled && (elim m.group_id [ none ↦ false | some g ↦ true ]) in
    allowed && (elim (lookup key (receipts_of topic m)) [
      | none ↦ false
      | some time ↦ ltb now (time + expiry)
    ])
