-- ===== src/Common/Equality.antt =====
-- Equality of keys as an interface: a Boolean test that decides the path.
use Prim.Native.Nat.{ℕ}
use Prim.Native.String.{String}
use mathlib.Core.Path.{◌≡◌, refl}
use mathlib.Core.Logic.{◌↔◌, ◌≢◌}
use mathlib.Core.Bool.{Bool, true, false, ◌&&◌}
use mathlib.Core.List.{List, [], ◌∷◌}
use mathlib.Core.Option.{Option, none, some}
use native.Mathlib.Omega.{arith}
use text.Mathlib.Text.{◌==◌ as str_eq}
use text.Mathlib.TextEquality.{eq_iff}
use plenum.Common.Tests.{nat_beq, nat_beq_iff}

pub record Eq {ℓ} (A : Type ℓ) : Type ℓ where
  -- `a == b` of the program, as a test, and what it decides
  pub same : A → A → Bool
  pub decides : (x y : A) → (same x y ≡ true) ↔ (x ≡ y)

-- Texts are compared as the program compares them, by their characters.
instance abbrev pub string_eq : Eq String
string_eq = record { decides = eq_iff; same = str_eq }

instance abbrev pub nat_eq : Eq ℕ
nat_eq = record { decides = nat_beq_iff; same = nat_beq }

module _ {ℓ} {A : Type ℓ} where
  infix 50 ◌==◌
  abbrev pub ◌==◌ : ⦃d : Eq A⦄ → A → A → Bool
  ◌==◌ ⦃d⦄ a b = d.same a b

module _ {ℓ κ} {A : Type ℓ} {B : Type κ} ⦃e : Eq A⦄ ⦃d : Eq B⦄ where
  abbrev pub pair_beq : A × B → A × B → Bool
  pair_beq (a, b) (c, e') = a == c && b == e'

  pub pair_beq_iff : (p q : A × B) → (pair_beq p q ≡ true) ↔ (p ≡ q)
  pair_beq_iff (a, b) (c, e') = ground (arith, e.decides a c, d.decides b e')

  instance abbrev pub pair_eq : Eq (A × B)
  pair_eq = record { same = pair_beq; decides = pair_beq_iff }

module _ {ℓ} {A : Type ℓ} ⦃e : Eq A⦄ where
  abbrev pub list_beq : List A → List A → Bool
  list_beq [] [] = true
  list_beq (x ∷ xs) (y ∷ ys) = x == y && list_beq xs ys
  list_beq _ _ = false

  pub list_beq_iff : (xs ys : List A) → (list_beq xs ys ≡ true) ↔ (xs ≡ ys)
  list_beq_iff [] [] = ground arith
  list_beq_iff [] (y ∷ ys) = ground arith
  list_beq_iff (x ∷ xs) [] = ground arith
  list_beq_iff (x ∷ xs) (y ∷ ys) = ground (arith, e.decides x y, list_beq_iff xs ys)

  instance abbrev pub list_eq : Eq (List A)
  list_eq = record { same = list_beq; decides = list_beq_iff }

module _ {ℓ} {A : Type ℓ} ⦃e : Eq A⦄ where
  abbrev pub option_beq : Option A → Option A → Bool
  option_beq none none = true
  option_beq (some a) (some b) = a == b
  option_beq _ _ = false

  pub option_beq_iff : (p q : Option A) → (option_beq p q ≡ true) ↔ (p ≡ q)
  option_beq_iff none none = ground arith
  option_beq_iff none (some b) = ground arith
  option_beq_iff (some a) none = ground arith
  option_beq_iff (some a) (some b) = ground (arith, e.decides a b)

  instance abbrev pub option_eq : Eq (Option A)
  option_eq = record { same = option_beq; decides = option_beq_iff }

  pub eq_self : (a : A) → (a == a) ≡ true
  eq_self a = (e.decides a a).1 refl

  pub eq→path : (a b : A) → (a == b) ≡ true → a ≡ b
  eq→path a b h = (e.decides a b).0 h

  pub ne→false : (a b : A) → a ≢ b → (a == b) ≡ false
  ne→false a b h = ground (arith, e.decides a b)
