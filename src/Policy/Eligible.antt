-- ===== src/Policy/Eligible.antt =====
-- Which users `evaluate_user_policy` of utils/user_policy.py limits, against a reading of the
-- three filters as predicates.
use pg_limiter.Prelude.{
  String, ◌≡◌, ◌≢◌, ◌↔◌, refl, inl, inr, Bool, true, false, some, List, [], ◌∷◌, arith, ◌==◌,
  string_eq, contains, any, map, Bool-cases, Option-cases, is_empty, eq_iff,
}
use pg_limiter.Value.{GroupId, group_eq, group_beq_iff, group_text}
use pg_limiter.Policy.Defs.{
  Config, Facts, GroupFilter, AdminFilter, evaluate_user_policy, group_admits, admin_admits,
}

-- Some group of the user is written like some group of the filter.
pub Shares : List GroupId → List GroupId → Type 0
Shares mine theirs =
    (g : GroupId) × (h : GroupId) × (contains mine g ≡ true)
    × (contains theirs h ≡ true)
    × (group_text g ≡ group_text h)

-- The group filter lets the user be limited.
pub record GroupAdmits (f : GroupFilter) (facts : Facts) : Type 0 where
  pub included : f.enabled ≡ true → f.mode ≡ "include" → Shares facts.group_ids f.group_ids
  pub excluded : f.enabled ≡ true → f.mode ≢ "include" → ¬ Shares facts.group_ids f.group_ids

-- The admin filter lets the user be limited: it judges only a known owner, by a list of names that
-- is not empty, in one of its two modes.
pub record AdminAdmits (f : AdminFilter) (facts : Facts) : Type 0 where
  pub included :
      (owner : String)
      → facts.owner_username ≡ some owner
      → f.enabled ≡ true
      → f.admin_usernames ≢ []
      → f.mode ≡ "include"
      → contains f.admin_usernames owner ≡ true
  pub excluded :
      (owner : String)
      → facts.owner_username ≡ some owner
      → f.enabled ≡ true
      → f.mode ≡ "exclude"
      → contains f.admin_usernames owner ≡ false

shares : List GroupId → List GroupId → Bool
shares mine theirs = any (λ g. contains (map group_text theirs) (group_text g)) mine

text_found :
    (s : String) (ids : List GroupId)
    → contains (map group_text ids) s ≡ true
    → (h : GroupId) × (contains ids h ≡ true) × (s ≡ group_text h)
text_found s [] k = ground arith
text_found s (x ∷ ids) k = elim (Bool-cases (s == group_text x)) [
  | inl e ↦ (x, ground (arith, group_beq_iff x x), ground (arith, eq_iff s (group_text x)))
  | inr e ↦ let (h, member, same) = text_found s ids (ground arith) in (h, ground arith, same)
]

found_text :
    (s : String) (ids : List GroupId) (h : GroupId)
    → contains ids h ≡ true
    → s ≡ group_text h
    → contains (map group_text ids) s ≡ true
found_text s [] h k e = ground arith
found_text s (x ∷ ids) h k e =
    ground (arith, found_text s ids h, group_beq_iff h x, eq_iff s (group_text x))

shares_sound : (mine theirs : List GroupId) → shares mine theirs ≡ true → Shares mine theirs
unfolding shares Shares
shares_sound [] theirs h = ground arith
shares_sound (g ∷ mine) theirs h =
    elim (Bool-cases (contains (map group_text theirs) (group_text g))) [
      | inl here ↦
          let (k, there, same) = text_found (group_text g) theirs here in
          (g, k, ground (arith, group_beq_iff g g), there, same)
      | inr later ↦
          let (x, k, member, there, same) = shares_sound mine theirs (ground arith) in
          (x, k, ground arith, there, same)
    ]

shares_complete : (mine theirs : List GroupId) → Shares mine theirs → shares mine theirs ≡ true
unfolding shares Shares
shares_complete [] theirs (g, k, member, there, same) = ground arith
shares_complete (x ∷ mine) theirs (g, k, member, there, same) = ground (
  arith,
  found_text (group_text g) theirs k there same,
  group_beq_iff g x,
  λ (p : contains mine g ≡ true). shares_complete mine theirs (g, k, p, there, same),
)

module _ (f : GroupFilter) (facts : Facts) where
  group_admits-GroupAdmits : (group_admits f facts ≡ true) ↔ GroupAdmits f facts
  unfolding group_admits shares
  group_admits-GroupAdmits = (
    λ h. record {
      included = λ e m. sound (ground (arith, eq_iff f.mode "include"));
      excluded = λ e m w. absurd (ground (arith, eq_iff f.mode "include", complete w));
    },
    λ a. elim (Bool-cases f.enabled) [
      | inr off ↦ ground arith
      | inl on ↦ elim (Bool-cases (f.mode == "include")) [
        | inl inc ↦ ground (arith, complete (a.included on ((eq_iff f.mode "include").0 inc)))
        | inr exc ↦ elim (Bool-cases (shares facts.group_ids f.group_ids)) [
          | inl same ↦
              absurd (a.excluded on (λ m. ground (arith, eq_iff f.mode "include")) (sound same))
          | inr apart ↦ ground arith
        ]
      ]
    ],
  )
    where
      sound : shares facts.group_ids f.group_ids ≡ true → Shares facts.group_ids f.group_ids
      sound = shares_sound facts.group_ids f.group_ids

      complete : Shares facts.group_ids f.group_ids → shares facts.group_ids f.group_ids ≡ true
      complete = shares_complete facts.group_ids f.group_ids

is_empty-ne : (l : List String) → l ≢ [] → is_empty l ≡ false
is_empty-ne [] h = absurd (h refl)
is_empty-ne (x ∷ l) h = refl

contains_empty : (l : List String) (o : String) → is_empty l ≡ true → contains l o ≡ false
contains_empty [] o h = refl
contains_empty (x ∷ l) o h = ground arith

module _ (f : AdminFilter) (facts : Facts) where
  admin_admits-AdminAdmits : (admin_admits f facts ≡ true) ↔ AdminAdmits f facts
  unfolding admin_admits
  admin_admits-AdminAdmits = (
    λ h. record {
      included = λ o e on ne m. ground (
        arith,
        eq_iff f.mode "include",
        eq_iff f.mode "exclude",
        is_empty-ne f.admin_usernames ne,
      );
      excluded = λ o e on m. ground (
        arith,
        eq_iff f.mode "include",
        eq_iff f.mode "exclude",
        contains_empty f.admin_usernames o,
      );
    },
    λ a. elim (Option-cases facts.owner_username) [
      | inl unknown ↦ ground arith
      | inr (o, e) ↦ elim (Bool-cases f.enabled) [
        | inr off ↦ ground arith
        | inl on ↦ elim (Bool-cases (is_empty f.admin_usernames)) [
          | inl nobody ↦ ground arith
          | inr somebody ↦ ground (
            arith,
            eq_iff f.mode "include",
            eq_iff f.mode "exclude",
            a.included o e on (λ w. ground arith),
            a.excluded o e on,
          )
        ]
      ]
    ],
  )

-- A user is limited exactly when the user is known, is not on the whitelist, and both filters let
-- the user be limited.
pub evaluate_user_policy-eligible :
    (u : String) (config : Config) (facts : Facts)
    → ((evaluate_user_policy u config (some facts)).eligible ≡ true) ↔ (
        (contains config.except_users u ≡ false)
        × GroupAdmits config.group_filter facts
        × AdminAdmits config.admin_filter facts)
unfolding evaluate_user_policy
evaluate_user_policy-eligible u config facts = (
  λ h. (
    ground arith,
    (group_admits-GroupAdmits config.group_filter facts).0 (ground arith),
    (admin_admits-AdminAdmits config.admin_filter facts).0 (ground arith),
  ),
  λ a. ground (
    arith,
    (group_admits-GroupAdmits config.group_filter facts).1 a.1,
    (admin_admits-AdminAdmits config.admin_filter facts).1 a.2,
  ),
)
