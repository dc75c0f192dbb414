-- ===== src/Prelude/Keys.antt =====
-- Python's sets and dicts by their keys: `in`, `dict.fromkeys`, lookup and assignment.
-- A dict is an association list in insertion order; assigning to a present key keeps its place.
use mathlib.Core.Path.{◌≡◌, refl, ◌∙◌}
use mathlib.Core.Bool.{Bool, true, false, ◌||◌, ◌&&◌}
use mathlib.Core.Logic.{inl, inr}
use mathlib.Core.List.{List, [], ◌∷◌, ◌++◌}
use mathlib.Core.Option.{Option, none, some}
use native.Mathlib.Omega.{arith}
use deslop.Prelude.Tests.{if◌then◌else◌, Bool-cases}
use deslop.Prelude.Equality.{Eq, ◌==◌, beq_refl}
use deslop.Prelude.Lists.{keep}

module _ {ℓ} {A : Type ℓ} ⦃e : Eq A⦄ where
  unfoldable pub mem : A → List A → Bool
  mem a [] = false
  mem a (x ∷ xs) = (x == a) || mem a xs

  pub mem-append : (a : A) (xs ys : List A) → mem a (xs ++ ys) ≡ (mem a xs || mem a ys)
  unfolding mem
  mem-append a [] ys = refl
  mem-append a (x ∷ xs) ys = ground (arith, mem-append a xs ys)

  pub mem-keep : (p : A → Bool) (a : A) (xs : List A) → mem a (keep p xs) ≡ (p a && mem a xs)
  unfolding mem
  mem-keep p a [] = ground arith
  mem-keep p a (x ∷ xs) = ground (arith, mem-keep p a xs, e.beq_iff x a)

  pub mem-head : (a : A) (xs : List A) → mem a (a ∷ xs) ≡ true
  unfolding mem
  mem-head a xs = rw (beq_refl a)

  pub mem-tail : (a x : A) (xs : List A) → mem a xs ≡ true → mem a (x ∷ xs) ≡ true
  unfolding mem
  mem-tail a x xs h = ground arith

  -- No value occurs twice.
  abbrev pub Distinct : List A → Type 0
  Distinct [] = Unit
  Distinct (x ∷ xs) = (mem x xs ≡ false) × Distinct xs

  -- `list(dict.fromkeys(xs))`: the first occurrence of each value, in order.
  abbrev pub add_key : List A → A → List A
  add_key ks a = if mem a ks then ks else (ks ++ a ∷ [])

  unfoldable pub fromkeys_onto : List A → List A → List A
  fromkeys_onto ks [] = ks
  fromkeys_onto ks (a ∷ as') = fromkeys_onto (add_key ks a) as'

  unfoldable pub fromkeys : List A → List A
  unfolding fromkeys_onto
  fromkeys xs = fromkeys_onto [] xs

  pub Distinct-snoc :
      (ks : List A) (a : A) → Distinct ks → mem a ks ≡ false → Distinct (ks ++ a ∷ [])
  unfolding mem
  Distinct-snoc [] a d h = (refl, tt)
  Distinct-snoc (k ∷ ks) a d h = (
    mem-append k ks (a ∷ []) ∙ ground (arith, e.beq_iff k a, e.beq_iff a k),
    Distinct-snoc ks a d.1 (ground arith),
  )

  mem-fromkeys_onto :
      (a : A) (ks xs : List A) → mem a (fromkeys_onto ks xs) ≡ (mem a ks || mem a xs)
  unfolding fromkeys_onto mem
  mem-fromkeys_onto a ks [] = ground arith
  mem-fromkeys_onto a ks (x ∷ xs) = ground (
    arith,
    mem-fromkeys_onto a ks xs,
    mem-fromkeys_onto a (ks ++ x ∷ []) xs,
    mem-append a ks (x ∷ []),
    e.beq_iff x a,
  )

  fromkeys_onto-Distinct : (ks xs : List A) → Distinct ks → Distinct (fromkeys_onto ks xs)
  unfolding fromkeys_onto
  fromkeys_onto-Distinct ks [] d = d
  fromkeys_onto-Distinct ks (x ∷ xs) d = elim (Bool-cases (mem x ks)) [
    | inl old ↦ rw old (fromkeys_onto-Distinct ks xs d)
    | inr new ↦ rw new (fromkeys_onto-Distinct (ks ++ x ∷ []) xs (Distinct-snoc ks x d new))
  ]

  pub mem-fromkeys : (a : A) (xs : List A) → mem a (fromkeys xs) ≡ mem a xs
  unfolding fromkeys mem
  mem-fromkeys a xs = mem-fromkeys_onto a [] xs

  pub fromkeys-Distinct : (xs : List A) → Distinct (fromkeys xs)
  unfolding fromkeys
  fromkeys-Distinct xs = fromkeys_onto-Distinct [] xs tt

abbrev pub Dict {ℓ κ} : Type ℓ → Type κ → Type (ℓ ⊔ κ)
Dict K V = List (K × V)

module _ {ℓ κ} {K : Type ℓ} {V : Type κ} ⦃e : Eq K⦄ where
  -- `d.get(k)`
  unfoldable pub lookup : K → Dict K V → Option V
  lookup k [] = none
  lookup k ((j, v) ∷ d) = let rest = lookup k d in if j == k then some v else rest

  -- `d[k] = v`
  unfoldable pub assign : K → V → Dict K V → Dict K V
  assign k v [] = (k, v) ∷ []
  assign k v ((j, w) ∷ d) = let rest = assign k v d in if j == k then (j, v) ∷ d else (j, w) ∷ rest

  pub lookup-assign :
      (k j : K) (v : V) (d : Dict K V)
      → lookup j (assign k v d) ≡ (if k == j then some v else lookup j d)
  unfolding lookup assign
  lookup-assign k j v [] = refl
  lookup-assign k j v ((i, w) ∷ d) =
      ground (arith, e.beq_iff k j, e.beq_iff i k, e.beq_iff i j, lookup-assign k j v d)
