-- ===== src/Common/Sets.antt =====
-- Sets and ordered sets as lists without repetition: a new element is added at the end.
use Prim.Native.Nat.{◌+◌}
use mathlib.Core.Path.{◌≡◌, refl}
use mathlib.Core.Bool.{Bool, false, not, ◌||◌}
use mathlib.Core.Logic.{inl, inr}
use mathlib.Core.List.{List, [], ◌∷◌, ◌++◌}
use native.Mathlib.Omega.{arith}
use plenum.Common.Tests.{if◌then◌else◌, Bool-cases}
use plenum.Common.Lists.{length, keep}
use plenum.Common.Equality.{Eq, ◌==◌}

module _ {ℓ} {A : Type ℓ} ⦃e : Eq A⦄ where
  abbrev pub contains : List A → A → Bool
  contains [] a = false
  contains (x ∷ xs) a = x == a || contains xs a

  -- `set.add`
  unfoldable pub add : A → List A → List A
  add a xs = if contains xs a then xs else xs ++ a ∷ []

  -- `set.discard`
  unfoldable pub discard : A → List A → List A
  discard a xs = keep (λ x. not (x == a)) xs

  abbrev pub Distinct : List A → Type 0
  Distinct [] = Unit
  Distinct (x ∷ xs) = (contains xs x ≡ false) × Distinct xs

  pub contains-append :
      (xs ys : List A) (a : A) → contains (xs ++ ys) a ≡ contains xs a || contains ys a
  contains-append [] ys a = refl
  contains-append (x ∷ xs) ys a = ground (arith, contains-append xs ys a)

  pub Distinct-snoc :
      (xs : List A) (a : A) → Distinct xs → contains xs a ≡ false → Distinct (xs ++ a ∷ [])
  Distinct-snoc [] a h n = (refl, tt)
  Distinct-snoc (x ∷ xs) a h n = (
    ground (arith, h.0, contains-append xs (a ∷ []) x, e.decides a x, e.decides x a),
    Distinct-snoc xs a h.1 (ground arith),
  )

  pub add-Distinct : (a : A) (xs : List A) → Distinct xs → Distinct (add a xs)
  unfolding add
  add-Distinct a xs h = elim (Bool-cases (contains xs a)) [
    | inl old ↦ rw old h
    | inr new ↦ rw new (Distinct-snoc xs a h new)
  ]

  pub contains-add : (a b : A) (xs : List A) → contains (add a xs) b ≡ a == b || contains xs b
  unfolding add
  contains-add a b xs = elim (Bool-cases (contains xs a)) [
    | inl old ↦ elim (Bool-cases (a == b)) [
      | inl same ↦ rw (old, same) (rw (← (e.decides a b).0 same) old)
      | inr other ↦ rw (old, other)
    ]
    | inr new ↦ rw (new, contains-append xs (a ∷ []) b) (ground arith)
  ]

  pub length-add :
      (a : A) (xs : List A)
      → length (add a xs) ≡ (if contains xs a then length xs else length xs + 1)
  unfolding add
  length-add a xs = elim (Bool-cases (contains xs a)) [
    | inl old ↦ rw (old)
    | inr new ↦ rw new (length-snoc xs)
  ]
    where
      length-snoc : (ys : List A) → length (ys ++ a ∷ []) ≡ length ys + 1
      length-snoc [] = omega arith
      length-snoc (y ∷ ys) = omega (arith, length-snoc ys)
