-- ===== src/Punishment/Window.antt =====
-- The number of violations that utils/punishment_system.py counts in the copy in memory, which is
-- cleaned up only every five minutes, against the number inside the window.
use pg_limiter.Prelude.{
  ℕ, ◌+◌, ◌≤◌, ◌<◌, String, ◌≡◌, refl, sym, ◌∙◌, ap, true, Option, none, some, List, [], ◌∷◌, ◌==◌,
  string_eq, Distinct, length, length-keep-le, keep, is_empty, ltb, Bool-cases, inl, inr, arith,
  eq_iff,
}
use pg_limiter.Prelude.Dict.{Dict, lookup, keys, contains-keys}
use pg_limiter.Punishment.System.{
  PunishmentSystem, ViolationRecord, in_window, recent_violations, cleanup_old_violations,
  ensure_cleanup, violations_of, get_violation_count, get_violation_count_async,
}

nothing_kept : (vs : List ViolationRecord) → is_empty vs ≡ true → vs ≡ []
nothing_kept [] h = refl
nothing_kept (v ∷ vs) h = ground arith

records_in : Option (List ViolationRecord) → List ViolationRecord
records_in o = elim o [ none ↦ [] | some vs ↦ vs ]

lookup-recent_violations :
    (now hours : ℕ) (user : String) (d : Dict String (List ViolationRecord))
    → Distinct (keys d)
    → records_in (lookup user (recent_violations now hours d))
      ≡ keep (in_window now hours) (records_in (lookup user d))
unfolding recent_violations records_in
lookup-recent_violations now hours user [] h = refl
lookup-recent_violations now hours user ((name, vs) ∷ d) (fresh, h) =
    let rest = lookup-recent_violations now hours user d h in
    let member = contains-keys name d in
    let inside = keep (in_window now hours) vs in
    elim (Bool-cases (user == name)) [
      | inl same ↦ elim (Bool-cases (is_empty inside)) [
        | inl empty ↦
            let absent : lookup user d ≡ none = ground (arith, eq_iff user name) in
            rw (empty, same)
              (rest
                ∙ ap (λ o. keep (in_window now hours) (records_in o)) absent
                ∙ sym (nothing_kept inside empty))
        | inr some_kept ↦ rw (some_kept, same) refl
      ]
      | inr other ↦ elim (Bool-cases (is_empty inside)) [
        | inl empty ↦ rw (empty, other) rest
        | inr some_kept ↦ rw (some_kept, other) rest
      ]
    ]

cleanup-violations_of :
    (now : ℕ) (user : String) (s : PunishmentSystem)
    → Distinct (keys s.violations)
    → violations_of user (cleanup_old_violations now s)
      ≡ keep (in_window now s.window_hours) (violations_of user s)
unfolding cleanup_old_violations records_in
cleanup-violations_of now user s h = lookup-recent_violations now s.window_hours user s.violations h

-- The count in memory is at least the number of violations of the window in that same copy, and equal
-- to it when the last cleanup is more than five minutes ago; a user has one entry in the copy.
pub get_violation_count-window :
    (now : ℕ) (user : String) (s : PunishmentSystem)
    → Distinct (keys s.violations)
    → (get_violation_count_async now none s.window_hours user s
        ≤ (get_violation_count now user s).0)
      × (s.last_cleanup + 300000 < now
          → (get_violation_count now user s).0
            ≡ get_violation_count_async now none s.window_hours user s)
unfolding get_violation_count get_violation_count_async ensure_cleanup
get_violation_count-window now user s h =
    let cleaned = ap length (cleanup-violations_of now user s h) in
    elim (Bool-cases (ltb (s.last_cleanup + 300000) now)) [
      | inl late ↦ rw late (omega (arith, cleaned), λ k. cleaned)
      | inr early ↦
          rw early (
            length-keep-le (in_window now s.window_hours) (violations_of user s),
            λ k. ground arith,
          )
    ]
