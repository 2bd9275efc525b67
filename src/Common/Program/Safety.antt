-- ===== src/Common/Program/Safety.antt =====
-- Programs that do not run out of fuel, and what holds of the values that they return, from every
-- state: one rule for each way to build a program.
use mathlib.Core.Path.{◌≡◌, refl}
use mathlib.Core.Logic.{◌≢◌}
use mathlib.Core.List.{List, [], ◌∷◌}
use mathlib.Core.Option.{Option, none, some}
use plenum.Common.Program.{
  Failure, out_of_fuel, Outcome, returned, failed, Program, read, modify, pure, raise, need,
  continue, ◌>>=◌, for_each,
}

abbrev pub Safe : {A : Type 0} → (A → Type 0) → Outcome A → Type 0
Safe P (returned a) = P a
Safe P (failed e) = e ≢ out_of_fuel

abbrev pub Anything : {A : Type 0} → A → Type 0
Anything a = Unit

pub record Ends {S A : Type 0} (P : A → Type 0) (p : Program S A) : Type 0 where
  pub ends : (s : S) → Safe P (p s).0

module _ {S : Type 0} where
  pub Ends-pure : {A : Type 0} (P : A → Type 0) (a : A) → P a → Ends {S = S} P (pure a)
  unfolding pure
  Ends-pure P a h = record { ends = λ s. h }

  pub Ends-raise :
      {A : Type 0} (P : A → Type 0) (e : Failure) → e ≢ out_of_fuel → Ends {S = S} P (raise e)
  unfolding raise
  Ends-raise P e h = record { ends = λ s. h }

  pub Ends-read : Ends {S = S} Anything read
  unfolding read
  Ends-read = record { ends = λ s. tt }

  pub Ends-modify : (g : S → S) → Ends Anything (modify g)
  unfolding modify
  Ends-modify g = record { ends = λ s. tt }

  pub Ends-need :
      {A : Type 0} (P : A → Type 0) (e : Failure) (o : Option A)
      → e ≢ out_of_fuel
      → ((a : A) → o ≡ some a → P a)
      → Ends {S = S} P (need e o)
  unfolding need pure raise
  Ends-need P e none d h = record { ends = λ s. d }
  Ends-need P e (some a) d h = record { ends = λ s. h a refl }

  continue-Safe :
      {A B : Type 0} (P : A → Type 0) (Q : B → Type 0) (g : A → Program S B) (o : Outcome A) (s : S)
      → Safe P o
      → ((a : A) → P a → Ends Q (g a))
      → Safe Q (continue o g s).0
  continue-Safe P Q g (returned a) s h k = (k a h).ends s
  continue-Safe P Q g (failed e) s h k = h

  pub Ends-bind :
      {A B : Type 0} {P : A → Type 0} {Q : B → Type 0} {p : Program S A} {g : A → Program S B}
      → Ends P p
      → ((a : A) → P a → Ends Q (g a))
      → Ends Q (p >>= g)
  unfolding ◌>>=◌
  Ends-bind {P = P} {Q = Q} {p = p} {g = g} h k = record {
    ends = λ s. continue-Safe P Q g (p s).0 (p s).1 (h.ends s) k;
  }

  pub Ends-for_each :
      {A : Type 0} (xs : List A) (body : A → Program S Unit)
      → ((a : A) → Ends Anything (body a))
      → Ends Anything (for_each xs body)
  unfolding for_each
  Ends-for_each [] body h = Ends-pure Anything tt tt
  Ends-for_each (x ∷ xs) body h = Ends-bind {P = Anything} (h x) (λ _ _. Ends-for_each xs body h)
