-- ===== src/Registry/Store.antt =====
-- utils/handel_dis_users.py and the columns of db/crud/users.py that it uses. A time is a number of
-- milliseconds, a window a number of seconds. The table is a dict by username. `works` tells whether
-- the database answers a call: a call that it does not answer changes nothing and returns the
-- default. The one-time import of the retired file is taken as done.
use pg_limiter.Prelude.{
  ℕ, ◌+◌, ◌-◌, ◌*◌, ◌/◌, String, Bool, true, false, not, ◌&&◌, Option, none, some, List, [], ◌∷◌,
  nat_eq, string_eq, ltb, leb, nat_beq, if◌then◌else◌,
}
use pg_limiter.Prelude.Dict.{Dict, lookup, insert, has_key}

-- `enable_at`, where it is set: the sentinel -1, or a time.
pub data EnableAt : Type 0 where
  permanent : EnableAt
  at : ℕ → EnableAt

-- A row of `users`.
pub record User : Type 0 where
  pub is_disabled_by_limiter : Bool
  pub disabled_at : Option ℕ
  pub enable_at : Option EnableAt

-- `UserCRUD.create_or_update` of a user who was never synced.
abbrev pub fresh_user : User
fresh_user = record { is_disabled_by_limiter = false; disabled_at = none; enable_at = none }

abbrev pub Users : Type 0
Users = Dict String User

-- `UserCRUD.set_disabled` of a user in the table.
unfoldable pub set_disabled : String → ℕ → Option EnableAt → Users → Users
set_disabled username disabled_at enable_at users =
    insert username
      (record {
        is_disabled_by_limiter = true;
        disabled_at = some disabled_at;
        enable_at = enable_at;
      })
      users

-- `_ensure_user_row`
unfoldable pub ensure_user_row : String → Users → Users
ensure_user_row username users =
    if has_key username users then users else insert username fresh_user users

-- The time that a call of `disable` without explicit times asks for.
unfoldable pub enable_time : ℕ → ℕ → Bool → Option EnableAt
enable_time now duration_seconds is_permanent =
    if is_permanent
    then some permanent
    else if ltb 0 duration_seconds
    then some (at (now + duration_seconds * 1000))
    else none

unfoldable pub disable : Bool → ℕ → String → ℕ → Bool → Users → Bool × Users
unfolding set_disabled ensure_user_row enable_time
disable works now username duration_seconds is_permanent users =
    if works
    then (
      true,
      set_disabled username now (enable_time now duration_seconds is_permanent)
          (ensure_user_row username users),
    )
    else (false, users)

unfoldable pub enable : Bool → String → Users → Bool × Users
enable works username users =
    if works && has_key username users
    then (true, insert username fresh_user users)
    else (false, users)

-- Whether a disabled row is due, as `UserCRUD.get_users_to_enable` tests it.
unfoldable pub is_due : ℕ → ℕ → User → Bool
is_due now time_to_active user = elim user.enable_at [
  | some moment ↦ elim moment [ permanent ↦ false | at time ↦ leb time now ]
  | none ↦ elim user.disabled_at [
    | none ↦ false
    | some time ↦ not (nat_beq time 0) && leb (time + time_to_active * 1000) now
  ]
]

-- `UserCRUD.get_users_to_enable`
unfoldable pub get_users_to_enable : ℕ → ℕ → Users → List String
unfolding is_due
get_users_to_enable now time_to_active [] = []
get_users_to_enable now time_to_active ((username, user) ∷ users) =
    let rest = get_users_to_enable now time_to_active users in
    if user.is_disabled_by_limiter && is_due now time_to_active user then username ∷ rest else rest

unfoldable pub users_to_enable : Bool → ℕ → ℕ → Users → List String
unfolding get_users_to_enable
users_to_enable works now time_to_active users =
    if works then get_users_to_enable now time_to_active users else []

pub data RemainingTimeResult : Type 0 where
  not_disabled always ready_to_enable : RemainingTimeResult
  timed : ℕ → RemainingTimeResult

-- `int(until - now)`, where 0 stands for whatever is not positive.
unfoldable pub whole_seconds : ℕ → ℕ → ℕ
whole_seconds until now = (until - now) / 1000

abbrev timed_or_ready : ℕ → RemainingTimeResult
timed_or_ready n = if nat_beq n 0 then ready_to_enable else timed n

-- `float(user.disabled_at or 0.0)`
abbrev pub disabled_time : User → ℕ
disabled_time user = elim user.disabled_at [ none ↦ 0 | some time ↦ time ]

unfoldable pub remaining_of : ℕ → ℕ → User → RemainingTimeResult
unfolding whole_seconds
remaining_of now default_time_to_active user = elim user.enable_at [
  | some moment ↦ elim moment [
    | permanent ↦ always
    | at time ↦ timed_or_ready (whole_seconds time now)
  ]
  | none ↦ timed_or_ready (whole_seconds (disabled_time user + default_time_to_active * 1000) now)
]

unfoldable pub remaining_time : Bool → ℕ → String → ℕ → Users → RemainingTimeResult
unfolding remaining_of
remaining_time works now username default_time_to_active users =
    if works
    then elim (lookup username users) [
      | none ↦ not_disabled
      | some user ↦
          if user.is_disabled_by_limiter
          then remaining_of now default_time_to_active user
          else not_disabled
    ]
    else not_disabled
