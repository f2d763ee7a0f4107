-- ===== src/Prelude/Sets.antt =====
-- Sets kept as lists: membership under each operation, and sizes by inclusion.
use Prim.Native.Nat.{◌≤◌, ◌<◌}
use mathlib.Core.Path.{◌≡◌, refl, sym, ◌∙◌}
use mathlib.Core.Bool.{true, false, not, ◌&&◌, ◌||◌}
use mathlib.Core.Logic.{inl, inr}
use mathlib.Core.List.{List, [], ◌∷◌, ◌++◌}
use native.Mathlib.Omega.{arith}
use pg_limiter.Prelude.Tests.{Bool-cases}
use pg_limiter.Prelude.Class.{Equality, ◌==◌}
use pg_limiter.Prelude.Lists.{
  length, contains, add, isdisjoint, set_of, without, is_empty, Distinct, Subset,
}

module _ {ℓ} {A : Type ℓ} ⦃e : Equality A⦄ where
  pub contains-add : (a b : A) (xs : List A) → contains (add a xs) b ≡ (b == a || contains xs b)
  contains-add a b xs = ground (arith, e.beq_iff b a)

  pub is_empty-add : (a : A) (xs : List A) → is_empty (add a xs) ≡ false
  is_empty-add a [] = refl
  is_empty-add a (x ∷ xs) = ground arith

  pub contains-append :
      (xs ys : List A) (b : A) → contains (xs ++ ys) b ≡ (contains xs b || contains ys b)
  contains-append [] ys b = refl
  contains-append (x ∷ xs) ys b = ground (arith, contains-append xs ys b)

  pub contains-set_of : (xs : List A) (b : A) → contains (set_of xs) b ≡ contains xs b
  contains-set_of [] b = refl
  contains-set_of (x ∷ xs) b = ground (arith, contains-add x b (set_of xs), contains-set_of xs b)

  pub contains-without :
      (a b : A) (xs : List A) → contains (without a xs) b ≡ (not (a == b) && contains xs b)
  contains-without a b [] = ground arith
  contains-without a b (x ∷ xs) =
      ground (arith, contains-without a b xs, e.beq_iff a b, e.beq_iff a x, e.beq_iff b x)

  pub Distinct-add : (a : A) (xs : List A) → Distinct xs → Distinct (add a xs)
  Distinct-add a xs h = elim (Bool-cases (contains xs a)) [
    | inl old ↦ ground arith
    | inr new ↦ ground arith
  ]

  pub Distinct-set_of : (xs : List A) → Distinct (set_of xs)
  Distinct-set_of [] = tt
  Distinct-set_of (x ∷ xs) = Distinct-add x (set_of xs) (Distinct-set_of xs)

  length-without-le : (a : A) (xs : List A) → length (without a xs) ≤ length xs
  length-without-le a [] = ground arith
  length-without-le a (x ∷ xs) = ground (arith, length-without-le a xs)

  length-without-lt :
      (a : A) (xs : List A) → contains xs a ≡ true → length (without a xs) < length xs
  length-without-lt a [] h = ground arith
  length-without-lt a (x ∷ xs) h = ground (arith, length-without-lt a xs, length-without-le a xs)

  -- A set that is included in another has no more elements.
  pub length-le_of_Subset : (xs ys : List A) → Distinct xs → Subset xs ys → length xs ≤ length ys
  length-le_of_Subset [] ys d s = omega arith
  length-le_of_Subset (x ∷ xs) ys d s =
      let here : contains ys x ≡ true = s x (ground (arith, e.beq_iff x x)) in
      let rest : Subset xs (without x ys) =
        λ a h. ground (arith, contains-without x a ys, s a, e.beq_iff x a, e.beq_iff a x) in
      omega (arith, length-le_of_Subset xs (without x ys) d.1 rest, length-without-lt x ys here)

  -- Two sets with the same elements have the same size.
  pub length-eq_of_Subset :
      (xs ys : List A)
      → Distinct xs
      → Distinct ys
      → Subset xs ys
      → Subset ys xs
      → length xs ≡ length ys
  length-eq_of_Subset xs ys dx dy s t =
      omega (arith, length-le_of_Subset xs ys dx s, length-le_of_Subset ys xs dy t)

  pub isdisjoint_witness :
      (xs ys : List A) (a : A)
      → isdisjoint xs ys ≡ true
      → contains xs a ≡ true
      → contains ys a ≡ false
  isdisjoint_witness [] ys a d h = ground arith
  isdisjoint_witness (x ∷ xs) ys a d h = ground (arith, isdisjoint_witness xs ys a, e.beq_iff a x)

  pub isdisjoint_intro :
      (xs ys : List A)
      → ((a : A) → contains xs a ≡ true → contains ys a ≡ false)
      → isdisjoint xs ys ≡ true
  isdisjoint_intro [] ys h = refl
  isdisjoint_intro (x ∷ xs) ys h =
      let tail : (a : A) → contains xs a ≡ true → contains ys a ≡ false =
        λ a k. h a (ground arith) in
      ground (arith, h x, e.beq_iff x x, isdisjoint_intro xs ys tail)

  pub isdisjoint_empty : (xs : List A) → isdisjoint xs [] ≡ true
  isdisjoint_empty xs = isdisjoint_intro xs [] (λ a k. refl)

module _ {ℓ} {A : Type ℓ} ⦃e : Equality A⦄ (xs xs' ys ys' : List A) where
  isdisjoint_transfer :
      ((a : A) → contains xs a ≡ contains xs' a)
      → ((a : A) → contains ys a ≡ contains ys' a)
      → isdisjoint xs ys ≡ true
      → isdisjoint xs' ys' ≡ true
  isdisjoint_transfer p q h =
      isdisjoint_intro xs' ys' (λ a k. sym (q a) ∙ isdisjoint_witness xs ys a h (p a ∙ k))

module _ {ℓ} {A : Type ℓ} ⦃e : Equality A⦄ (xs xs' ys ys' : List A) where
  -- Disjointness depends on the elements alone.
  pub isdisjoint_congr :
      ((a : A) → contains xs a ≡ contains xs' a)
      → ((a : A) → contains ys a ≡ contains ys' a)
      → isdisjoint xs ys ≡ isdisjoint xs' ys'
  isdisjoint_congr p q = ground (
    arith,
    isdisjoint_transfer xs xs' ys ys' p q,
    isdisjoint_transfer xs' xs ys' ys (λ a. sym (p a)) (λ a. sym (q a)),
  )

module _ {ℓ} {A : Type ℓ} ⦃e : Equality A⦄ (xs xs' : List A) where
  pub is_empty_congr : ((a : A) → contains xs a ≡ contains xs' a) → is_empty xs ≡ is_empty xs'
  is_empty_congr p = go xs xs' p
    where
      go : (us vs : List A) → ((a : A) → contains us a ≡ contains vs a) → is_empty us ≡ is_empty vs
      go [] [] h = refl
      go [] (v ∷ vs) h = ground (arith, h v, e.beq_iff v v)
      go (u ∷ us) [] h = ground (arith, h u, e.beq_iff u u)
      go (u ∷ us) (v ∷ vs) h = refl
