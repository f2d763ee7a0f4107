-- ===== src/Registry/Due.antt =====
-- Who is due: the list that utils/handel_dis_users.py hands to the loop that enables users.
use pg_limiter.Prelude.{
  ℕ, ◌+◌, ◌*◌, ◌≤◌, String, ◌≡◌, ◌≢◌, refl, sym, ◌∙◌, ap, Bool, true, false, not, ◌&&◌, Option,
  none, some, [], ◌∷◌, nat_eq, string_eq, contains, Distinct, ltb, leb, if◌then◌else◌, Bool-cases,
  inl, inr, arith, eq_iff,
}
use pg_limiter.Prelude.Dict.{
  lookup, has_key, keys, contains-keys, lookup-insert, lookup-insert_self, Distinct-keys-insert,
}
use pg_limiter.Registry.Store.{
  User, fresh_user, Users, set_disabled, ensure_user_row, enable_time, disable, is_due,
  get_users_to_enable, users_to_enable,
}

-- Whether a row, if there is one, is disabled and due.
unfoldable pub due : ℕ → ℕ → Option User → Bool
due now window none = false
due now window (some user) = user.is_disabled_by_limiter && is_due now window user

pub contains-get_users_to_enable :
    (now window : ℕ) (user : String) (users : Users)
    → Distinct (keys users)
    → contains (get_users_to_enable now window users) user ≡ due now window (lookup user users)
unfolding get_users_to_enable due
contains-get_users_to_enable now window user [] h = refl
contains-get_users_to_enable now window user ((name, row) ∷ users) (fresh, h) = ground (
  arith,
  contains-get_users_to_enable now window user users h,
  contains-keys name users,
  eq_iff user name,
)

ensure_user_row-others :
    (name other : String) (users : Users)
    → other ≢ name
    → lookup other (ensure_user_row name users) ≡ lookup other users
unfolding ensure_user_row
ensure_user_row-others name other users differ = elim (Bool-cases (has_key name users)) [
  | inl e ↦ rw e refl
  | inr e ↦ rw e (ground (arith, lookup-insert name other fresh_user users, eq_iff other name))
]

Distinct-ensure_user_row :
    (name : String) (users : Users)
    → Distinct (keys users)
    → Distinct (keys (ensure_user_row name users))
unfolding ensure_user_row
Distinct-ensure_user_row name users h = elim (Bool-cases (has_key name users)) [
  | inl e ↦ rw e h
  | inr e ↦ rw e (Distinct-keys-insert name fresh_user users h)
]

-- The row that a disable leaves, and the rows of all others.
module _ (now : ℕ) (name : String) (seconds : ℕ) (is_permanent : Bool) (users : Users) where
  pub lookup-disable :
      lookup name (disable true now name seconds is_permanent users).1
      ≡ some (record {
        is_disabled_by_limiter = true;
        disabled_at = some now;
        enable_at = enable_time now seconds is_permanent;
      })
  unfolding disable set_disabled
  lookup-disable = lookup-insert_self name _ (ensure_user_row name users)

  pub lookup-disable_others :
      (other : String)
      → other ≢ name
      → lookup other (disable true now name seconds is_permanent users).1 ≡ lookup other users
  unfolding disable set_disabled
  lookup-disable_others other differ =
      lookup-insert name other _ (ensure_user_row name users)
      ∙ ground (arith, ensure_user_row-others name other users differ, eq_iff other name)

  pub Distinct-disable :
      Distinct (keys users) → Distinct (keys (disable true now name seconds is_permanent users).1)
  unfolding disable set_disabled
  Distinct-disable h =
      Distinct-keys-insert name _ (ensure_user_row name users)
        (Distinct-ensure_user_row name users h)

-- When a disable is due.
due_disable :
    (now later window seconds : ℕ) (is_permanent : Bool)
    → 1 ≤ now
    → due later window (
        some (record {
          is_disabled_by_limiter = true;
          disabled_at = some now;
          enable_at = enable_time now seconds is_permanent;
        }))
      ≡ (not is_permanent && leb (now + (if ltb 0 seconds then seconds else window) * 1000) later)
unfolding due is_due enable_time
due_disable now later window seconds true h = refl
due_disable now later window seconds false h = ground arith

-- After a disable that the database stored, the user is due exactly from the end of the window that was
-- asked for, of the default window where none was, and never after a permanent one. All other users are
-- due as they were before. The table has one row for a user, and the time of the disable is not 0.
pub users_to_enable-disable :
    (now later window seconds : ℕ) (name : String) (is_permanent : Bool) (users : Users)
    → 1 ≤ now
    → Distinct (keys users)
    → (let users' = (disable true now name seconds is_permanent users).1 in
        (contains (users_to_enable true later window users') name ≡ (
          not is_permanent && leb (now + (if ltb 0 seconds then seconds else window) * 1000) later))
        × ((other : String)
            → other ≢ name
            → contains (users_to_enable true later window users') other
              ≡ contains (users_to_enable true later window users) other))
unfolding users_to_enable
users_to_enable-disable now later window seconds name is_permanent users positive h =
    let d = Distinct-disable now name seconds is_permanent users h in
    (
      contains-get_users_to_enable later window name _ d
          ∙ ap (due later window) (lookup-disable now name seconds is_permanent users)
          ∙ due_disable now later window seconds is_permanent positive,
      λ other differ.
          contains-get_users_to_enable later window other _ d
          ∙ ap (due later window)
              (lookup-disable_others now name seconds is_permanent users other differ)
          ∙ sym (contains-get_users_to_enable later window other users h),
    )
