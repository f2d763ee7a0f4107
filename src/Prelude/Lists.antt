-- ===== src/Prelude/Lists.antt =====
-- Lists over the native numbers, and Python's sets as lists without repetition.
use Prim.Native.Nat.{ℕ, zero, suc, ◌+◌, ◌≤◌}
use mathlib.Core.Path.{◌≡◌}
use mathlib.Core.Bool.{Bool, true, false, not, ◌&&◌, ◌||◌}
use mathlib.Core.Option.{Option, none, some}
use mathlib.Core.List.{List, [], ◌∷◌, ◌++◌}
use native.Mathlib.Omega.{arith}
use pg_limiter.Prelude.Tests.{if◌then◌else◌}
use pg_limiter.Prelude.Class.{Equality, ◌==◌}

module _ {ℓ} {A : Type ℓ} where
  abbrev pub length : List A → ℕ
  length [] = 0
  length (x ∷ xs) = suc (length xs)

  abbrev pub get_elem? : List A → ℕ → Option A
  get_elem? [] i = none
  get_elem? (x ∷ xs) zero = some x
  get_elem? (x ∷ xs) (suc i) = get_elem? xs i

  -- `any(p(x) for x in xs)` and `all(...)`
  abbrev pub any : (A → Bool) → List A → Bool
  any p [] = false
  any p (x ∷ xs) = p x || any p xs

  abbrev pub all : (A → Bool) → List A → Bool
  all p [] = true
  all p (x ∷ xs) = p x && all p xs

  -- `[x for x in xs if p(x)]`
  abbrev pub keep : (A → Bool) → List A → List A
  keep p [] = []
  keep p (x ∷ xs) = let rest = keep p xs in if p x then x ∷ rest else rest

  abbrev pub is_empty : List A → Bool
  is_empty [] = true
  is_empty (x ∷ xs) = false

  pub length-append : (xs ys : List A) → length (xs ++ ys) ≡ length xs + length ys
  length-append [] ys = omega arith
  length-append (x ∷ xs) ys = omega (arith, length-append xs ys)

  pub length-keep-le : (p : A → Bool) (xs : List A) → length (keep p xs) ≤ length xs
  length-keep-le p [] = omega arith
  length-keep-le p (x ∷ xs) = ground (arith, length-keep-le p xs)

-- `[y for x in xs if (y := f(x)) is not None]`
abbrev pub collect {ℓ κ} : {A : Type ℓ} {B : Type κ} → (A → Option B) → List A → List B
collect f [] = []
collect f (x ∷ xs) = let rest = collect f xs in elim (f x) [ none ↦ rest | some y ↦ y ∷ rest ]

-- Every element has the property.
abbrev pub All {ℓ κ} : {A : Type ℓ} → (A → Type κ) → List A → Type κ
All P [] = Unit
All P (x ∷ xs) = P x × All P xs

module _ {ℓ} {A : Type ℓ} ⦃e : Equality A⦄ where
  -- `a in xs`
  abbrev pub contains : List A → A → Bool
  contains [] a = false
  contains (x ∷ xs) a = a == x || contains xs a

  -- `s.add(a)`
  abbrev pub add : A → List A → List A
  add a xs = if contains xs a then xs else a ∷ xs

  -- `s.isdisjoint(t)`
  abbrev pub isdisjoint : List A → List A → Bool
  isdisjoint [] ys = true
  isdisjoint (x ∷ xs) ys = not (contains ys x) && isdisjoint xs ys

  -- `set(xs)`
  abbrev pub set_of : List A → List A
  set_of [] = []
  set_of (x ∷ xs) = add x (set_of xs)

  abbrev pub without : A → List A → List A
  without a [] = []
  without a (x ∷ xs) = let rest = without a xs in if a == x then rest else x ∷ rest

  abbrev pub Distinct : List A → Type 0
  Distinct [] = Unit
  Distinct (x ∷ xs) = (contains xs x ≡ false) × Distinct xs

  abbrev pub Subset : List A → List A → Type ℓ
  Subset xs ys = (a : A) → contains xs a ≡ true → contains ys a ≡ true
