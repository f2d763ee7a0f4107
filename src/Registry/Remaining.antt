-- ===== src/Registry/Remaining.antt =====
-- The remaining time that utils/handel_dis_users.py shows, against the list of users to enable.
use pg_limiter.Prelude.{ℕ, ◌+◌, ◌*◌, ◌≤◌, ◌≡◌, Bool, true, Option, none, some, arith}
use pg_limiter.Registry.Store.{
  EnableAt, permanent, at, User, is_due, ready_to_enable, whole_seconds, disabled_time,
  remaining_of,
}

whole_seconds-zero : (until now : ℕ) → until ≤ now → whole_seconds until now ≡ 0
unfolding whole_seconds
whole_seconds-zero until now h = omega arith

whole_seconds-small : (until now : ℕ) → whole_seconds until now ≡ 0 → until ≤ now + 999
unfolding whole_seconds
whole_seconds-small until now h = omega arith

-- The statement at each kind of row.
ready_cases :
    (now window : ℕ) (disabled : Bool) (disabled_at : Option ℕ) (enable_at : Option EnableAt)
    → (let user : User = record {
      is_disabled_by_limiter = disabled;
      disabled_at = disabled_at;
      enable_at = enable_at;
    } in
        1 ≤ disabled_time user
        → (is_due now window user ≡ true → remaining_of now window user ≡ ready_to_enable)
          × (remaining_of now window user ≡ ready_to_enable
              → is_due (now + 999) window user ≡ true))
unfolding is_due remaining_of
ready_cases now window disabled disabled_at (some permanent) h = ground arith
ready_cases now window disabled disabled_at (some (at time)) h =
    ground (arith, whole_seconds-zero time now, whole_seconds-small time now)
ready_cases now window disabled none none h = ground arith
ready_cases now window disabled (some time) none h =
    let end = time + window * 1000 in
    ground (arith, whole_seconds-zero end now, whole_seconds-small end now)

-- A user who is due is shown as ready, and a user shown as ready is due less than a second later; the
-- time of the disable is not 0.
pub remaining_of-ready :
    (now window : ℕ) (user : User)
    → 1 ≤ disabled_time user
    → (is_due now window user ≡ true → remaining_of now window user ≡ ready_to_enable)
      × (remaining_of now window user ≡ ready_to_enable → is_due (now + 999) window user ≡ true)
remaining_of-ready now window user h =
    ready_cases now window user.is_disabled_by_limiter user.disabled_at user.enable_at h
