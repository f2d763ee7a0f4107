-- ===== src/Warnings/Trace.antt =====
-- Sequences of events on utils/warning_system/enhanced_system.py: what the service, the bot and the
-- clock do to the system between two scans, in any order.
use pg_limiter.Prelude.{
  ℕ, suc, ◌+◌, ◌≤◌, max, String, true, List, [], ◌∷◌, Option, ◌≡◌, contains, nat_eq, string_eq,
  ◌==◌, if◌then◌else◌,
}
use pg_limiter.Prelude.Int.{ℤ, pos_part}
use pg_limiter.Warnings.System.{
  WarningSystem, update_settings, clear_user_warning, clear_user_trust_data, clear_all_trust_data,
  record_disable_outcome, cleanup_old_warning_history,
}
use pg_limiter.Warnings.Scan.{Scan, add_warning}

pub data Event : Type 0 where
  configure : ℤ → ℤ → Event
  violation : Scan → Event
  clear_warning : String → Option ℕ → Event
  clear_trust : String → Option ℕ → Event
  clear_all : Event
  outcome : ℕ → String → String → Event
  cleanup : ℕ → Event

unfoldable pub step : Event → WarningSystem → WarningSystem
step (configure interval needed) s = update_settings interval needed s
step (violation scan) s = (add_warning scan s).1
step (clear_warning user expected) s = (clear_user_warning user expected s).1
step (clear_trust user expected) s = (clear_user_trust_data user expected s).1
step clear_all s = (clear_all_trust_data s).2
step (outcome now user action) s = (record_disable_outcome now user action s).1
step (cleanup now) s = cleanup_old_warning_history now s

unfoldable pub run : List Event → WarningSystem → WarningSystem
unfolding step
run [] s = s
run (e ∷ events) s = run events (step e s)

unfoldable pub record_time : String → Event → List ℕ → List ℕ
record_time user (violation scan) past = if user == scan.username then scan.now ∷ past else past
record_time user e past = past

-- The times at which a user was seen over the limit, the last one first, before those in `past`.
unfoldable pub seen_at : String → List Event → List ℕ → List ℕ
unfolding record_time
seen_at user [] past = past
seen_at user (e ∷ events) past = seen_at user events (record_time user e past)

-- The settings never go below the interval.
unfoldable pub KeepsInterval : ℕ → Event → Type 0
KeepsInterval base (configure interval needed) = base ≤ max 5 (pos_part interval)
KeepsInterval base e = Unit {0}

-- `Streak gap times n t`: n scans among `times`, each at least `gap` after the one before, the last
-- one at t.
pub data Streak (gap : ℕ) (times : List ℕ) : ℕ → ℕ → Type 0 where
  first : {t : ℕ} → contains times t ≡ true → Streak gap times 1 t
  next :
      {n t u : ℕ}
      → Streak gap times n t
      → contains times u ≡ true
      → t + gap ≤ u
      → Streak gap times (suc n) u
