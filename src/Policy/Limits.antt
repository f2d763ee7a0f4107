-- ===== src/Policy/Limits.antt =====
-- The limit that utils/user_policy.py gives a user.
use pg_limiter.Prelude.{
  String, ◌≡◌, refl, inl, inr, true, Option, none, some, List, [], ◌∷◌, arith, contains, collect,
  Option-cases, string_eq, Bool-cases,
}
use pg_limiter.Prelude.Int.{ℤ, pos, ◌≤ℤ◌, leb_ℤ}
use pg_limiter.Prelude.Dict.{Dict, lookup}
use pg_limiter.Value.{Value, GroupId, group_eq, group_beq_iff, int_of}
use pg_limiter.Policy.Defs.{
  Config, Facts, usable_limit, limit_in, group_value, resolve_group_limit, max_of,
  get_max_group_limit, general_value, option_or, special_of, general_limit_of, calculate_user_limit,
  evaluate_user_policy,
}

usable_limit-pos : (raw : Value) (l : ℤ) → usable_limit raw ≡ some l → pos 1 ≤ℤ l
unfolding usable_limit
usable_limit-pos raw l h = elim (Option-cases (int_of raw)) [
  | inl e ↦ ground arith
  | inr (v, e) ↦ ground arith
]

limit_in-pos :
    (u : String) (table : Dict String Value) (l : ℤ) → limit_in u table ≡ some l → pos 1 ≤ℤ l
unfolding limit_in
limit_in-pos u table l h = elim (Option-cases (lookup u table)) [
  | inl e ↦ ground arith
  | inr (raw, e) ↦ ground (arith, usable_limit-pos raw l)
]

resolve_group_limit-pos :
    (gid : GroupId) (limits : Dict GroupId Value) (l : ℤ)
    → resolve_group_limit gid limits ≡ some l
    → pos 1 ≤ℤ l
unfolding resolve_group_limit
resolve_group_limit-pos gid limits l h = elim (Option-cases (group_value gid limits)) [
  | inl e ↦ ground arith
  | inr (raw, e) ↦ ground (arith, usable_limit-pos raw l)
]

general_limit_of-pos : (config : Config) → pos 1 ≤ℤ general_limit_of config
unfolding general_limit_of
general_limit_of-pos config = elim (Option-cases (int_of (general_value config))) [
  | inl e ↦ ground arith
  | inr (v, e) ↦ ground arith
]

-- The maximum over the groups, for any way to resolve one.
module _ (f : GroupId → Option ℤ) where
  none_found :
      (ids : List GroupId) (g : GroupId)
      → max_of (collect f ids) ≡ none
      → contains ids g ≡ true
      → f g ≡ none
  none_found [] g h k = ground arith
  none_found (x ∷ ids) g h k = ground (arith, none_found ids g, group_beq_iff g x)

  maximum_found :
      (ids : List GroupId) (m : ℤ)
      → max_of (collect f ids) ≡ some m
      → (g : GroupId) × (contains ids g ≡ true) × (f g ≡ some m)
  maximum_found [] m h = ground arith
  maximum_found (x ∷ ids) m h = elim (Option-cases (f x)) [
    | inl e ↦
        let (g, member, found) = maximum_found ids m (ground arith) in (g, ground arith, found)
    | inr (l, e) ↦ elim (Option-cases (max_of (collect f ids))) [
      | inl no_more ↦ (x, ground (arith, group_beq_iff x x), ground arith)
      | inr (r, rest) ↦ elim (Bool-cases (leb_ℤ r l)) [
        | inl here ↦ (x, ground (arith, group_beq_iff x x), ground arith)
        | inr later ↦
            let (g, member, found) = maximum_found ids r rest in (g, ground arith, ground arith)
      ]
    ]
  ]

  maximum_bound :
      (ids : List GroupId) (m l : ℤ) (g : GroupId)
      → max_of (collect f ids) ≡ some m
      → contains ids g ≡ true
      → f g ≡ some l
      → l ≤ℤ m
  maximum_bound [] m l g h k e = ground arith
  maximum_bound (x ∷ ids) m l g h k e = elim (Option-cases (f x)) [
    | inl no_limit ↦ ground (arith, maximum_bound ids m l g, group_beq_iff g x)
    | inr (v, one) ↦ elim (Option-cases (max_of (collect f ids))) [
      | inl no_more ↦ ground (arith, none_found ids g, group_beq_iff g x)
      | inr (r, rest) ↦ ground (arith, maximum_bound ids r l g rest, group_beq_iff g x)
    ]
  ]

-- The group limit of a user: it is the usable limit of one of the groups, at least 1, and no group
-- of the user has a larger usable one.
pub get_max_group_limit-greatest :
    (ids : List GroupId) (limits : Dict GroupId Value) (m : ℤ)
    → get_max_group_limit ids limits ≡ some m
    → ((g : GroupId) × (contains ids g ≡ true) × (resolve_group_limit g limits ≡ some m))
      × (pos 1 ≤ℤ m)
      × ((h : GroupId) (l : ℤ)
          → contains ids h ≡ true
          → resolve_group_limit h limits ≡ some l
          → l ≤ℤ m)
unfolding get_max_group_limit
get_max_group_limit-greatest ids limits m h =
    let f : GroupId → Option ℤ = λ gid. resolve_group_limit gid limits in
    let (g, member, found) = maximum_found f ids m h in
    (
      (g, member, found),
      resolve_group_limit-pos g limits m found,
      λ k l there e. maximum_bound f ids m l k h there e,
    )

get_max_group_limit-pos :
    (ids : List GroupId) (limits : Dict GroupId Value) (m : ℤ)
    → get_max_group_limit ids limits ≡ some m
    → pos 1 ≤ℤ m
get_max_group_limit-pos ids limits m h = (get_max_group_limit-greatest ids limits m h).1

-- The order of the four sources of a limit.
chain-pos :
    (special group best : Option ℤ) (general : ℤ)
    → ((l : ℤ) → special ≡ some l → pos 1 ≤ℤ l)
    → ((l : ℤ) → group ≡ some l → pos 1 ≤ℤ l)
    → ((l : ℤ) → best ≡ some l → pos 1 ≤ℤ l)
    → pos 1 ≤ℤ general
    → pos 1 ≤ℤ (
        let r : ℤ × String = elim special [
          | some l ↦ (l, "special")
          | none ↦ elim group [
            | some l ↦ (l, "group")
            | none ↦ elim best [ some l ↦ (l, "group") | none ↦ (general, "general") ]
          ]
        ] in
        r.0)
chain-pos (some l) group best general p q r h = p l refl
chain-pos none (some l) best general p q r h = q l refl
chain-pos none none (some l) general p q r h = r l refl
chain-pos none none none general p q r h = h

-- Whatever the configuration holds, the limit of a user is at least 1.
pub calculate_user_limit-pos :
    (u : String) (config : Config) (facts : Option Facts)
    (special batched : Option (Dict String Value))
    → pos 1 ≤ℤ (calculate_user_limit u config facts special batched).0
unfolding calculate_user_limit
calculate_user_limit-pos u config facts special batched =
    chain-pos (limit_in u (option_or special (special_of config.limits)))
      (limit_in u (option_or batched []))
      (get_max_group_limit (elim facts [ none ↦ [] | some f ↦ f.group_ids ]) config.group_limits)
      (general_limit_of config) (limit_in-pos u (option_or special (special_of config.limits)))
      (limit_in-pos u (option_or batched [])) (get_max_group_limit-pos _ config.group_limits)
      (general_limit_of-pos config)

-- A known user, eligible or not, always has a limit, and it is at least 1: no configured value
-- bans a user for the first device.
pub evaluate_user_policy-limit :
    (u : String) (config : Config) (facts : Facts)
    → (l : ℤ) × ((evaluate_user_policy u config (some facts)).limit ≡ some l) × (pos 1 ≤ℤ l)
unfolding evaluate_user_policy
evaluate_user_policy-limit u config facts = (
  (calculate_user_limit u config (some facts) none none).0,
  ground arith,
  calculate_user_limit-pos u config (some facts) none none,
)
