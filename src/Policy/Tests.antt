-- ===== src/Policy/Tests.antt =====
-- Runs of utils/user_policy.py on one configuration, and the theorems at it.
use pg_limiter.Prelude.{◌≡◌, ◌↔◌, refl, true, false, none, some, [], ◌∷◌, contains, string_eq}
use pg_limiter.Prelude.Int.{ℤ, pos, negsuc, ◌≤ℤ◌}
use pg_limiter.Value.{int_of, text_of_int, group_int, group_text, number, name}
use pg_limiter.Value
use pg_limiter.Policy.Defs.{
  Config, Facts, usable_limit, group_value, resolve_group_limit, get_max_group_limit, limit_in,
  general_limit_of, calculate_user_limit, group_admits, admin_admits, evaluate_user_policy,
}
use pg_limiter.Policy.Limits.{get_max_group_limit-greatest, evaluate_user_policy-limit}
use pg_limiter.Policy.Eligible.{GroupAdmits, AdminAdmits, evaluate_user_policy-eligible}

program : Unit {0}
unfolding int_of text_of_int group_int group_text usable_limit group_value resolve_group_limit
    get_max_group_limit limit_in general_limit_of calculate_user_limit group_admits admin_admits
    evaluate_user_policy
program = tt

-- Group 7 is written as a text in the table, and the limit of group 9 is not usable.
abbrev config : Config
config = record {
  limits =
      some (record { special = ("bob", Value.int (pos 0)) ∷ []; general = some (Value.str " 3 ") });
  general_limit = none;
  group_limits =
      (name "7", Value.str "5")
      ∷ (number (pos 8), Value.int (pos 4))
      ∷ (number (pos 9), Value.int (negsuc 3))
      ∷ [];
  except_users = "root" ∷ [];
  group_filter = record { enabled = true; mode = "exclude"; group_ids = name "11" ∷ [] };
  admin_filter = record { enabled = true; mode = "include"; admin_usernames = "ops" ∷ [] };
}

abbrev facts : Facts
facts = record {
  group_ids = number (pos 8) ∷ number (pos 7) ∷ number (pos 9) ∷ [];
  owner_username = some "ops";
}

group_run : get_max_group_limit facts.group_ids config.group_limits ≡ some (pos 5)
unfolding program
group_run = refl

-- A special limit of 0 is not usable, and the user has no group.
general_run :
    calculate_user_limit "bob" config (some (record facts { group_ids = [] })) none none
    ≡ (pos 3, "general")
unfolding program
general_run = refl

excluded_run :
    (evaluate_user_policy "bob" config
      (some (record facts { group_ids = number (pos 11) ∷ [] }))).reason
    ≡ "group_filtered"
unfolding program
excluded_run = refl

get_max_group_limit-greatest_example : pos 1 ≤ℤ pos 5
get_max_group_limit-greatest_example =
    (get_max_group_limit-greatest facts.group_ids config.group_limits (pos 5) group_run).1

evaluate_user_policy-limit_example :
    (l : ℤ) × ((evaluate_user_policy "bob" config (some facts)).limit ≡ some l) × (pos 1 ≤ℤ l)
evaluate_user_policy-limit_example = evaluate_user_policy-limit "bob" config facts

evaluate_user_policy-eligible_example :
    ((evaluate_user_policy "bob" config (some facts)).eligible ≡ true) ↔ (
      (contains config.except_users "bob" ≡ false)
      × GroupAdmits config.group_filter facts
      × AdminAdmits config.admin_filter facts)
evaluate_user_policy-eligible_example = evaluate_user_policy-eligible "bob" config facts
