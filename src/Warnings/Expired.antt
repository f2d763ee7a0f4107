-- ===== src/Warnings/Expired.antt =====
-- utils/warning_system/enhanced_system.py: `cleanup_expired_warnings`. `authorize` is the awaited check
-- of one user: it answers, or raises (`none`), and while it is awaited other tasks may change the system,
-- time passes, and the monitoring may be paused. Without a check of the caller the code builds one from
-- the current policy, which is one more such `authorize`.
use pg_limiter.Prelude.{
  ℕ, either, String, ◌≡◌, refl, sym, subst, Bool, true, false, not, ◌&&◌, ◌||◌, Option, none, some,
  List, [], ◌∷◌, ◌==◌, nat_eq, string_eq, contains, if◌then◌else◌, Bool-cases, inl, inr, arith,
  eq_iff, ◌≢◌,
}
use pg_limiter.Prelude.Dict.{Dict, lookup, erase, lookup-erase}
use pg_limiter.Warnings.Record.{UserLimitWarning, is_monitoring_active}
use pg_limiter.Warnings.System.{WarningSystem}

-- The clock, whether the monitoring that was captured is still current, and the system.
pub record Moment : Type 0 where
  pub now : ℕ
  pub monitoring_is_current : Bool
  pub system : WarningSystem

abbrev pub Authorize : Type 0
Authorize = String → Moment → Option Bool × Moment

-- `self.warnings.get(username) is warning` and the window of the warning has closed.
unfoldable pub may_expire : String → ℕ → Moment → Bool
may_expire username owner m = elim (lookup username m.system.warnings) [
  | none ↦ false
  | some w ↦ w.owner == owner && not (is_monitoring_active m.now w)
]

abbrev without_record : String → Moment → Moment
without_record username m = record m {
  system = record (m.system) { warnings = erase username m.system.warnings };
}

-- What is done with the answer.
unfoldable pub settle_answer : String → ℕ → Option Bool × Moment → Moment
settle_answer username owner (answer, m) = elim answer [
  | none ↦ m
  | some authorized ↦
      if authorized && m.monitoring_is_current && may_expire username owner m
      then without_record username m
      else m
]

-- The loop over the candidates, which are captured with their identity.
unfoldable pub expire_each : Authorize → List String → List (String × ℕ) → Moment → Moment
unfolding settle_answer
expire_each authorize protected [] m = m
expire_each authorize protected ((username, owner) ∷ rest) m =
    let next =
      if contains protected username || not (may_expire username owner m)
      then m
      else settle_answer username owner (authorize username m) in
    let after = expire_each authorize protected rest next in
    if not m.monitoring_is_current then m else after

abbrev captured : Dict String UserLimitWarning → List (String × ℕ)
captured [] = []
captured ((username, w) ∷ d) = (username, w.owner) ∷ captured d

unfoldable pub cleanup_expired_warnings :
    Authorize → Bool → List String → Option (List (String × ℕ)) → Moment → Moment
unfolding expire_each
cleanup_expired_warnings authorize sample_is_trustworthy protected expected m =
    let candidates : List (String × ℕ) = elim expected [
      | none ↦ captured m.system.warnings
      | some c ↦ c
    ] in
    if not sample_is_trustworthy || not m.monitoring_is_current
    then m
    else expire_each authorize protected candidates m

-- The user has a record whose window is still open.
abbrev pub Active : String → Moment → Type 0
Active user m =
    (w : UserLimitWarning) × (lookup user m.system.warnings ≡ some w)
    × (is_monitoring_active m.now w ≡ true)

-- The user has a record, whose window is open where that is asked.
abbrev pub Kept : Bool → String → Moment → Type 0
Kept opened user m =
    (w : UserLimitWarning) × (lookup user m.system.warnings ≡ some w)
    × (not opened || is_monitoring_active m.now w ≡ true)

Active-Kept : (opened : Bool) (user : String) (m : Moment) → Active user m → Kept opened user m
Active-Kept true user m h = h
Active-Kept false user m (w, found, still) = (w, found, refl)

module _ (user : String) where
  not_expiring : (owner : ℕ) (m : Moment) → Active user m → may_expire user owner m ≡ false
  unfolding may_expire
  not_expiring owner m (w, found, still) = rw (found, may_expire) (ground (arith, still))

  -- The answer for another user.
  settle_answer-other :
      (opened : Bool) (username : String) (owner : ℕ) (answer : Option Bool) (m : Moment)
      → user ≢ username
      → Kept opened user m
      → Kept opened user (settle_answer username owner (answer, m))
  unfolding settle_answer
  settle_answer-other opened username owner none m differ h = h
  settle_answer-other opened username owner (some authorized) m differ (w, found, still) =
      either (Kept opened user)
        (authorized && m.monitoring_is_current && may_expire username owner m)
        (
          w,
          ground
              (arith, lookup-erase username user m.system.warnings, eq_iff user username, differ),
          still,
        )
        (w, found, still)

  -- The answer for the user, once the record is open.
  settle_answer-own :
      (owner : ℕ) (answer : Option Bool) (m : Moment)
      → Active user m
      → settle_answer user owner (answer, m) ≡ m
  unfolding settle_answer
  settle_answer-own owner none m h = refl
  settle_answer-own owner (some authorized) m h = rw (not_expiring owner m h) (ground arith)

module _ (authorize : Authorize) (protected : List String) (user : String) (opened : Bool)
    (others : (name : String) (m : Moment)
      → user ≢ name
      → Kept opened user m
      → Kept opened user (authorize name m).1)
    (own : (m : Moment) → Kept opened user m → Active user (authorize user m).1) where
  checked-Kept :
      (username : String) (owner : ℕ) (m : Moment)
      → Kept opened user m
      → Kept opened user (settle_answer username owner (authorize username m))
  checked-Kept username owner m h = elim (Bool-cases (user == username)) [
    | inl e ↦
        let same : user ≡ username = ground (arith, eq_iff user username) in
        subst (λ name. Kept opened user (settle_answer name owner (authorize name m))) same
          (subst (Kept opened user)
            (sym (settle_answer-own user owner (authorize user m).0 (authorize user m).1 (own m h)))
            (Active-Kept opened user (authorize user m).1 (own m h)))
    | inr e ↦
        let differ : user ≢ username = λ same. ground (arith, eq_iff user username) in
        settle_answer-other user opened username owner (authorize username m).0
          (authorize username m).1 differ (others username m differ h)
  ]

  expire_each-Kept :
      (candidates : List (String × ℕ)) (m : Moment)
      → Kept opened user m
      → Kept opened user (expire_each authorize protected candidates m)
  unfolding expire_each
  expire_each-Kept [] m h = h
  expire_each-Kept ((username, owner) ∷ rest) m h =
      let skipped = contains protected username || not (may_expire username owner m) in
      let next = if skipped then m else settle_answer username owner (authorize username m) in
      either (Kept opened user) (not m.monitoring_is_current) h (
        expire_each-Kept rest next
          (either (Kept opened user) skipped h (checked-Kept username owner m h)))

  -- A cleanup never drops a record that the check of its user leaves open, though it was closed when the
  -- check began: if each awaited check of another user, with all that other tasks do meanwhile, leaves the
  -- user with a record (with an open one, where `opened` asks for it), and each awaited check of the user
  -- leaves the user with an open record (the same one, or one that a new violation renewed or made), then
  -- a user who has such a record at first has one after the cleanup. Without a trustworthy sample nothing
  -- changes.
  pub cleanup_expired_warnings-Kept :
      (expected : Option (List (String × ℕ))) (m : Moment)
      → Kept opened user m
      → Kept opened user (cleanup_expired_warnings authorize true protected expected m)
        × (cleanup_expired_warnings authorize false protected expected m ≡ m)
  unfolding cleanup_expired_warnings
  cleanup_expired_warnings-Kept expected m h =
      (either (Kept opened user) (not m.monitoring_is_current) h (expire_each-Kept _ m h), refl)
