-- ===== src/Policy/Defs.antt =====
-- utils/user_policy.py, function by function. A configuration is the record of the keys that the
-- module reads; `none` stands for an absent key (or, for `limits`, for a value that is no mapping).
-- The log lines are left out.
use pg_limiter.Prelude.{
  String, Bool, true, false, not, ◌&&◌, ◌||◌, Option, none, some, List, [], ◌∷◌, ◌==◌, string_eq,
  contains, any, collect, is_empty, map, if◌then◌else◌,
}
use pg_limiter.Prelude.Int.{ℤ, pos, leb_ℤ}
use pg_limiter.Prelude.Dict.{Dict, lookup}
use pg_limiter.Value.{Value, int_of, GroupId, number, name, group_eq, group_int, group_text}

abbrev pub min_effective_limit : ℤ
min_effective_limit = pos 1

abbrev pub default_general_limit : ℤ
default_general_limit = pos 2

pub record UserPolicy : Type 0 where
  pub known : Bool
  pub eligible : Bool
  pub limit : Option ℤ
  pub reason : String
  pub limit_source : Option String

pub record Limits : Type 0 where
  pub special : Dict String Value
  pub general : Option Value

pub record GroupFilter : Type 0 where
  pub enabled : Bool
  pub mode : String
  pub group_ids : List GroupId

pub record AdminFilter : Type 0 where
  pub enabled : Bool
  pub mode : String
  pub admin_usernames : List String

pub record Config : Type 0 where
  pub limits : Option Limits
  pub general_limit : Option Value
  pub group_limits : Dict GroupId Value
  pub except_users : List String
  pub group_filter : GroupFilter
  pub admin_filter : AdminFilter

-- The factual fields of a user; an absent list of groups is the empty one.
pub record Facts : Type 0 where
  pub group_ids : List GroupId
  pub owner_username : Option String

-- `_usable_limit`
unfoldable pub usable_limit : Value → Option ℤ
usable_limit raw = elim (int_of raw) [
  | none ↦ none
  | some value ↦ if leb_ℤ min_effective_limit value then some value else none
]

abbrev first : {A : Type 0} → Option A → Option A → Option A
first (some a) other = some a
first none other = other

-- The value of a group: by its integer, by its text, then by the id as it is.
unfoldable pub group_value : GroupId → Dict GroupId Value → Option Value
group_value gid limits =
    first (elim (group_int gid) [ none ↦ none | some n ↦ lookup (number n) limits ])
      (first (lookup (name (group_text gid)) limits) (lookup gid limits))

unfoldable pub resolve_group_limit : GroupId → Dict GroupId Value → Option ℤ
resolve_group_limit gid limits = elim (group_value gid limits) [
  | none ↦ none
  | some raw ↦ usable_limit raw
]

abbrev larger : ℤ → ℤ → ℤ
larger a b = if leb_ℤ b a then a else b

-- `max` of the matching limits, `none` where there is none.
abbrev pub max_of : List ℤ → Option ℤ
max_of [] = none
max_of (x ∷ xs) = elim (max_of xs) [ none ↦ some x | some m ↦ some (larger x m) ]

unfoldable pub get_max_group_limit : List GroupId → Dict GroupId Value → Option ℤ
get_max_group_limit group_ids limits =
    max_of (collect (λ gid. resolve_group_limit gid limits) group_ids)

-- A usable limit of this user in a table by username.
unfoldable pub limit_in : String → Dict String Value → Option ℤ
limit_in username table = elim (lookup username table) [ none ↦ none | some raw ↦ usable_limit raw ]

-- `limits.get("special", {})`
abbrev pub special_of : Option Limits → Dict String Value
special_of none = []
special_of (some l) = l.special

abbrev pub option_or : {A : Type 0} → Option A → A → A
option_or none a = a
option_or (some b) a = b

-- The raw general limit: of `limits`, else of the flat key, else the default.
unfoldable pub general_value : Config → Value
general_value config =
    let nested : Option Value = elim config.limits [ none ↦ none | some l ↦ l.general ] in
    option_or nested (option_or config.general_limit (Value.int default_general_limit))

unfoldable pub general_limit_of : Config → ℤ
unfolding general_value
general_limit_of config = elim (int_of (general_value config)) [
  | none ↦ default_general_limit
  | some g ↦ if leb_ℤ min_effective_limit g then g else default_general_limit
]

-- `_calculate_user_limit`; the tables of the last two arguments are the optional keywords.
unfoldable pub calculate_user_limit :
    String
    → Config
    → Option Facts
    → Option (Dict String Value)
    → Option (Dict String Value)
    → ℤ × String
calculate_user_limit username config facts special_limits batched_group_limits =
    elim (limit_in username (option_or special_limits (special_of config.limits))) [
      | some limit ↦ (limit, "special")
      | none ↦ elim (limit_in username (option_or batched_group_limits [])) [
        | some limit ↦ (limit, "group")
        | none ↦
            elim (get_max_group_limit (elim facts [ none ↦ [] | some f ↦ f.group_ids ])
              config.group_limits) [
                | some limit ↦ (limit, "group")
                | none ↦ (general_limit_of config, "general")
              ]
      ]
    ]

-- The group test of `evaluate_user_policy`.
unfoldable pub group_admits : GroupFilter → Facts → Bool
group_admits f facts =
    let matches =
      any (λ gid. contains (map group_text f.group_ids) (group_text gid)) facts.group_ids in
    if f.enabled then (if f.mode == "include" then matches else not matches) else true

-- The admin test; a user with no known owner is admitted.
unfoldable pub admin_admits : AdminFilter → Facts → Bool
admin_admits f facts = elim facts.owner_username [
  | none ↦ true
  | some owner ↦
      let matches = contains f.admin_usernames owner in
      if f.enabled && not (is_empty f.admin_usernames)
      then not ((f.mode == "include" && not matches) || (f.mode == "exclude" && matches))
      else true
]

unfoldable pub evaluate_user_policy : String → Config → Option Facts → UserPolicy
evaluate_user_policy username config none = record {
  known = false;
  eligible = false;
  limit = none;
  reason = "unknown";
  limit_source = none;
}
evaluate_user_policy username config (some facts) =
    let (limit, source) = calculate_user_limit username config (some facts) none none in
    let judged : Bool → String → UserPolicy = λ eligible reason. record {
      known = true;
      eligible = eligible;
      limit = some limit;
      reason = reason;
      limit_source = some source;
    } in
    if contains config.except_users username
    then judged false "whitelisted"
    else if not (group_admits config.group_filter facts)
    then judged false "group_filtered"
    else if not (admin_admits config.admin_filter facts)
    then judged false "admin_filtered"
    else judged true "eligible"
