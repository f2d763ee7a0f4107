-- ===== src/Registry/Tests.antt =====
-- Runs of utils/handel_dis_users.py, and the theorems at them.
use pg_limiter.Prelude.{
  ◌≡◌, refl, true, false, none, some, [], ◌∷◌, nat_eq, string_eq, contains, arith,
}
use pg_limiter.Registry.Store.{
  User, permanent, Users, set_disabled, ensure_user_row, enable_time, disable, enable, is_due,
  get_users_to_enable, users_to_enable, ready_to_enable, whole_seconds, remaining_of,
  remaining_time,
}
use pg_limiter.Registry.Due.{users_to_enable-disable}
use pg_limiter.Registry.Remaining.{remaining_of-ready}

program : Unit {0}
unfolding set_disabled ensure_user_row enable_time disable enable is_due get_users_to_enable
    users_to_enable whole_seconds remaining_of remaining_time
program = tt

abbrev users : Users
users =
    (
      "ann",
      record { is_disabled_by_limiter = true; disabled_at = some 1000; enable_at = some permanent },
    )
    ∷ ("bob", record { is_disabled_by_limiter = true; disabled_at = some 1000; enable_at = none })
    ∷ []

-- "bob" waits for the default window of 30 minutes, "cat" for a minute, "ann" for ever.
due_run :
    users_to_enable true 1801000 1800 (disable true 1700000 "cat" 60 false users).1
    ≡ "bob" ∷ "cat" ∷ []
unfolding program
due_run = refl

enabled_run : users_to_enable true 1801000 1800 (enable true "bob" users).1 ≡ []
unfolding program
enabled_run = refl

users_to_enable-disable_example :
    contains (users_to_enable true 1801000 1800 (disable true 1700000 "cat" 60 false users).1) "cat"
    ≡ true
users_to_enable-disable_example =
    (users_to_enable-disable 1700000 1801000 1800 60 "cat" false users (omega arith)
      (refl, (refl, tt))).0

-- Shown as ready most of a second early.
early_run : remaining_time true 1800001 "bob" 1800 users ≡ ready_to_enable
unfolding program
early_run = refl

not_due_run : users_to_enable true 1800001 1800 users ≡ []
unfolding program
not_due_run = refl

abbrev bob : User
bob = record { is_disabled_by_limiter = true; disabled_at = some 1000; enable_at = none }

bob_due : is_due 1801000 1800 bob ≡ true
unfolding program
bob_due = refl

remaining_of-ready_example : remaining_of 1801000 1800 bob ≡ ready_to_enable
remaining_of-ready_example = (remaining_of-ready 1801000 1800 bob (omega arith)).0 bob_due
