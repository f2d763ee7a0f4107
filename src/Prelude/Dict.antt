-- ===== src/Prelude/Dict.antt =====
-- A Python dict in insertion order. `erase` drops every entry of the key, of which a dict has one.
use mathlib.Core.Path.{◌≡◌, refl}
use mathlib.Core.Bool.{Bool, true, false, ◌||◌}
use mathlib.Core.Option.{Option, none, some}
use mathlib.Core.List.{List, [], ◌∷◌}
use native.Mathlib.Omega.{arith}
use pg_limiter.Prelude.Tests.{if◌then◌else◌}
use pg_limiter.Prelude.Class.{Equality, ◌==◌}
use Prim.Native.Nat.{suc}
use pg_limiter.Prelude.Lists.{contains, Distinct, is_empty, length}

abbrev pub Dict {ℓ κ} : Type ℓ → Type κ → Type (ℓ ⊔ κ)
Dict K V = List (K × V)

module _ {ℓ κ} {K : Type ℓ} {V : Type κ} ⦃e : Equality K⦄ where
  -- `d.get(k)`
  abbrev pub lookup : K → Dict K V → Option V
  lookup k [] = none
  lookup k ((j, v) ∷ d) = if k == j then some v else lookup k d

  -- `k in d`
  abbrev pub has_key : K → Dict K V → Bool
  has_key k d = elim (lookup k d) [ none ↦ false | some _ ↦ true ]

  -- `d[k] = v`
  abbrev pub insert : K → V → Dict K V → Dict K V
  insert k v [] = (k, v) ∷ []
  insert k v ((j, w) ∷ d) = if k == j then (j, v) ∷ d else (j, w) ∷ insert k v d

  -- `d.pop(k, None)`
  abbrev pub erase : K → Dict K V → Dict K V
  erase k [] = []
  erase k ((j, w) ∷ d) = let rest = erase k d in if k == j then rest else (j, w) ∷ rest

  -- `{k: v for k, v in d.items() if p(k, v)}`
  abbrev pub keep_items : (K → V → Bool) → Dict K V → Dict K V
  keep_items p [] = []
  keep_items p ((j, w) ∷ d) = let rest = keep_items p d in if p j w then (j, w) ∷ rest else rest

  pub lookup-insert :
      (k j : K) (v : V) (d : Dict K V)
      → lookup j (insert k v d) ≡ (if j == k then some v else lookup j d)
  lookup-insert k j v [] = ground arith
  lookup-insert k j v ((i, w) ∷ d) =
      ground (arith, lookup-insert k j v d, e.beq_iff k i, e.beq_iff j i, e.beq_iff j k)

  pub lookup-insert_self : (k : K) (v : V) (d : Dict K V) → lookup k (insert k v d) ≡ some v
  lookup-insert_self k v d = ground (arith, lookup-insert k k v d, e.beq_iff k k)

  pub lookup-erase :
      (k j : K) (d : Dict K V) → lookup j (erase k d) ≡ (if j == k then none else lookup j d)
  lookup-erase k j [] = ground arith
  lookup-erase k j ((i, w) ∷ d) =
      ground (arith, lookup-erase k j d, e.beq_iff k i, e.beq_iff j i, e.beq_iff j k)

  pub lookup-erase_self : (k : K) (d : Dict K V) → lookup k (erase k d) ≡ none
  lookup-erase_self k d = ground (arith, lookup-erase k k d, e.beq_iff k k)

  abbrev pub keys : Dict K V → List K
  keys [] = []
  keys ((j, w) ∷ d) = j ∷ keys d

  pub contains-keys : (k : K) (d : Dict K V) → contains (keys d) k ≡ has_key k d
  contains-keys k [] = refl
  contains-keys k ((j, w) ∷ d) = ground (arith, contains-keys k d)

  contains-keys-insert :
      (k j : K) (v : V) (d : Dict K V)
      → contains (keys (insert k v d)) j ≡ (j == k || contains (keys d) j)
  contains-keys-insert k j v [] = ground arith
  contains-keys-insert k j v ((i, w) ∷ d) =
      ground (arith, contains-keys-insert k j v d, e.beq_iff k i, e.beq_iff j k, e.beq_iff j i)

  pub Distinct-keys-insert :
      (k : K) (v : V) (d : Dict K V) → Distinct (keys d) → Distinct (keys (insert k v d))
  Distinct-keys-insert k v [] h = ground arith
  Distinct-keys-insert k v ((i, w) ∷ d) h = ground (
    arith,
    Distinct-keys-insert k v d,
    contains-keys-insert k i v d,
    e.beq_iff k i,
    e.beq_iff i k,
  )

  pub is_empty-insert : (k : K) (v : V) (d : Dict K V) → is_empty (insert k v d) ≡ false
  is_empty-insert k v [] = refl
  is_empty-insert k v ((i, w) ∷ d) = ground arith

  -- Keys are kept or dropped whatever their values.
  pub lookup-keep_items :
      (k : K) (q : K → Bool) (d : Dict K V)
      → lookup k (keep_items (λ j v. q j) d) ≡ (if q k then lookup k d else none)
  lookup-keep_items k q [] = ground arith
  lookup-keep_items k q ((j, w) ∷ d) = ground (arith, lookup-keep_items k q d, e.beq_iff k j)

  -- A new key makes a dict longer by one.
  pub length-insert :
      (k : K) (v : V) (d : Dict K V)
      → length (insert k v d) ≡ (if has_key k d then length d else suc (length d))
  length-insert k v [] = refl
  length-insert k v ((j, w) ∷ d) = ground (arith, length-insert k v d)
