-- ===== src/Warnings/History.antt =====
-- The disable history and the clears of utils/warning_system/enhanced_system.py.
use pg_limiter.Prelude.{
  ℕ, ◌≤◌, String, true, false, Option, none, some, List, [], ◌∷◌, ◌≡◌, refl, sym, ◌∙◌, ap, ◌↔◌, ◌≢◌,
  inl, inr, length, keep, is_empty, Distinct, nat_eq, string_eq, ◌==◌, eq_iff, arith, Bool-cases,
}
use pg_limiter.Prelude.Dict.{
  Dict, lookup, has_key, keys, erase, contains-keys, lookup-erase, lookup-erase_self,
}
use pg_limiter.Warnings.System.{
  WarningSystem, is_recent, history_of, count_recent_warnings, recent_history,
  cleanup_old_warning_history, clear_user_warning, is_owner,
}

-- Dropping the entries that are old at an earlier time keeps all that are recent later.
keep-recent :
    (now later hours : ℕ) (ts : List ℕ)
    → now ≤ later
    → hours ≤ 24
    → keep (is_recent later hours) (keep (is_recent now 24) ts) ≡ keep (is_recent later hours) ts
keep-recent now later hours [] p q = refl
keep-recent now later hours (t ∷ ts) p q =
    let rest = keep-recent now later hours ts p q in
    let wider : is_recent later hours t ≡ true → is_recent now 24 t ≡ true = λ h. ground arith in
    elim (Bool-cases (is_recent now 24 t)) [
      | inl e ↦ rw e (ground (arith, rest))
      | inr e ↦
          let old : is_recent later hours t ≡ false = ground (arith, wider) in rw (e, old) rest
    ]

empty_eq : (ts : List ℕ) → is_empty ts ≡ true → ts ≡ []
empty_eq [] h = refl
empty_eq (t ∷ ts) h = ground arith

entries : Option (List ℕ) → List ℕ
entries o = elim o [ none ↦ [] | some ts ↦ ts ]

lookup-recent_history :
    (now : ℕ) (user : String) (d : Dict String (List ℕ))
    → Distinct (keys d)
    → entries (lookup user (recent_history now d))
      ≡ keep (is_recent now 24) (entries (lookup user d))
unfolding recent_history entries
lookup-recent_history now user [] h = refl
lookup-recent_history now user ((k, ts) ∷ d) (fresh, h) =
    let rest = lookup-recent_history now user d h in
    let member = contains-keys k d in
    elim (Bool-cases (user == k)) [
      | inl same ↦ elim (Bool-cases (is_empty (keep (is_recent now 24) ts))) [
        | inl none_kept ↦
            let absent : lookup user d ≡ none = ground (arith, eq_iff user k) in
            rw (none_kept, same)
              (rest
                ∙ ap (λ o. keep (is_recent now 24) (entries o)) absent
                ∙ sym (empty_eq _ none_kept))
        | inr some_kept ↦ rw (some_kept, same) refl
      ]
      | inr other ↦ elim (Bool-cases (is_empty (keep (is_recent now 24) ts))) [
        | inl none_kept ↦ rw (none_kept, other) rest
        | inr some_kept ↦ rw (some_kept, other) rest
      ]
    ]

-- A cleanup never changes how many disables of a user count, over any window of at most a day that
-- ends then or later; a user has one entry in the history.
pub count_recent_warnings-cleanup :
    (now later hours : ℕ) (user : String) (s : WarningSystem)
    → now ≤ later
    → hours ≤ 24
    → Distinct (keys s.warning_history)
    → count_recent_warnings later user hours (cleanup_old_warning_history now s)
      ≡ count_recent_warnings later user hours s
unfolding count_recent_warnings cleanup_old_warning_history entries
count_recent_warnings-cleanup now later hours user s p q h =
    ap (λ ts. length (keep (is_recent later hours) ts))
      (lookup-recent_history now user s.warning_history h)
    ∙ ap length (keep-recent now later hours (history_of user s) p q)

module _ (user : String) (owner : ℕ) (s : WarningSystem) where
  owner_eq :
      is_owner user owner s ≡ true
      → clear_user_warning user (some owner) s
        ≡ (true, record s { warnings = erase user s.warnings })
  unfolding clear_user_warning
  owner_eq h =
      let here : has_key user s.warnings ≡ true = ground arith in
      rw (h, here, clear_user_warning) refl

  not_owner_eq : is_owner user owner s ≡ false → clear_user_warning user (some owner) s ≡ (false, s)
  unfolding clear_user_warning
  not_owner_eq h = rw (h, clear_user_warning) refl

-- A clear that names the record it means does nothing unless the user still has that record; it
-- then removes that record alone, and keeps every other record and all the disable history.
pub clear_user_warning-owner :
    (user : String) (owner : ℕ) (s : WarningSystem)
    → (let (cleared, s') = clear_user_warning user (some owner) s in
        ((cleared ≡ true) ↔ (is_owner user owner s ≡ true))
        × (cleared ≡ false → s' ≡ s)
        × (cleared ≡ true → lookup user s'.warnings ≡ none)
        × (s'.warning_history ≡ s.warning_history)
        × ((other : String) → other ≢ user → lookup other s'.warnings ≡ lookup other s.warnings))
clear_user_warning-owner user owner s = elim (Bool-cases (is_owner user owner s)) [
  | inl mine ↦ rw (owner_eq user owner s mine) (
    (λ h. mine, λ h. refl),
    (λ h. ground arith),
    (λ h. lookup-erase_self user s.warnings),
    refl,
    λ other e. ground (arith, lookup-erase user other s.warnings, eq_iff other user),
  )
  | inr not_mine ↦ rw (not_owner_eq user owner s not_mine) (
    (λ h. ground arith, λ h. ground arith),
    (λ h. refl),
    (λ h. ground arith),
    refl,
    λ other e. refl,
  )
]
