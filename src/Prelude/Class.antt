-- ===== src/Prelude/Class.antt =====
-- Python's `==`, as an instance for each type of key that the program compares.
use Prim.Native.Nat.{ℕ}
use Prim.Native.String.{String}
use mathlib.Core.Path.{◌≡◌, refl}
use mathlib.Core.Logic.{◌↔◌}
use mathlib.Core.Bool.{Bool, true, false, ◌&&◌}
use mathlib.Core.Option.{Option, none, some}
use mathlib.Core.List.{List, [], ◌∷◌}
use native.Mathlib.Omega.{arith}
use text.Mathlib.Text.{◌==◌ as str_eq}
use text.Mathlib.TextEquality.{eq_iff}
use pg_limiter.Prelude.Tests.{nat_beq, nat_beq_iff}

pub record Equality {ℓ} (A : Type ℓ) : Type ℓ where
  pub beq : A → A → Bool
  pub beq_iff : (x y : A) → (beq x y ≡ true) ↔ (x ≡ y)

infix 50 ◌==◌
abbrev pub ◌==◌ {ℓ} : {A : Type ℓ} ⦃e : Equality A⦄ → A → A → Bool
◌==◌ ⦃e⦄ = e.beq

pub beq_self {ℓ} : {A : Type ℓ} ⦃e : Equality A⦄ (a : A) → (a == a) ≡ true
beq_self ⦃e⦄ a = (e.beq_iff a a).1 refl

instance abbrev pub string_eq : Equality String
string_eq = record { beq = str_eq; beq_iff = eq_iff }

instance abbrev pub nat_eq : Equality ℕ
nat_eq = record { beq = nat_beq; beq_iff = nat_beq_iff }

abbrev pub bool_beq : Bool → Bool → Bool
bool_beq true b = b
bool_beq false true = false
bool_beq false false = true

pub bool_beq_iff : (a b : Bool) → (bool_beq a b ≡ true) ↔ (a ≡ b)
bool_beq_iff true true = ground arith
bool_beq_iff true false = ground arith
bool_beq_iff false true = ground arith
bool_beq_iff false false = ground arith

instance abbrev pub bool_eq : Equality Bool
bool_eq = record { beq = bool_beq; beq_iff = bool_beq_iff }

module _ {ℓ} {A : Type ℓ} ⦃e : Equality A⦄ where
  abbrev pub option_beq : Option A → Option A → Bool
  option_beq none none = true
  option_beq none (some b) = false
  option_beq (some a) none = false
  option_beq (some a) (some b) = a == b

  pub option_beq_iff : (a b : Option A) → (option_beq a b ≡ true) ↔ (a ≡ b)
  option_beq_iff none none = ground arith
  option_beq_iff none (some b) = ground arith
  option_beq_iff (some a) none = ground arith
  option_beq_iff (some a) (some b) = ground (arith, e.beq_iff a b)

  abbrev pub list_beq : List A → List A → Bool
  list_beq [] [] = true
  list_beq [] (b ∷ bs) = false
  list_beq (a ∷ as') [] = false
  list_beq (a ∷ as') (b ∷ bs) = a == b && list_beq as' bs

  pub list_beq_iff : (a b : List A) → (list_beq a b ≡ true) ↔ (a ≡ b)
  list_beq_iff [] [] = ground arith
  list_beq_iff [] (b ∷ bs) = ground arith
  list_beq_iff (a ∷ as') [] = ground arith
  list_beq_iff (a ∷ as') (b ∷ bs) = ground (arith, e.beq_iff a b, list_beq_iff as' bs)

instance abbrev pub option_eq {ℓ} : {A : Type ℓ} ⦃e : Equality A⦄ → Equality (Option A)
option_eq = record { beq = option_beq; beq_iff = option_beq_iff }

instance abbrev pub list_eq {ℓ} : {A : Type ℓ} ⦃e : Equality A⦄ → Equality (List A)
list_eq = record { beq = list_beq; beq_iff = list_beq_iff }

abbrev pub pair_beq {ℓ κ} :
    {A : Type ℓ} {B : Type κ} ⦃e : Equality A⦄ ⦃f : Equality B⦄ → A × B → A × B → Bool
pair_beq (a, b) (c, d) = a == c && b == d

pub pair_beq_iff {ℓ κ} :
    {A : Type ℓ} {B : Type κ} ⦃e : Equality A⦄ ⦃f : Equality B⦄ (p q : A × B)
    → (pair_beq p q ≡ true) ↔ (p ≡ q)
pair_beq_iff ⦃e⦄ ⦃f⦄ (a, b) (c, d) = ground (arith, e.beq_iff a c, f.beq_iff b d)

instance abbrev pub pair_eq {ℓ κ} :
    {A : Type ℓ} {B : Type κ} ⦃e : Equality A⦄ ⦃f : Equality B⦄ → Equality (A × B)
pair_eq = record { beq = pair_beq; beq_iff = pair_beq_iff }
