-- ===== src/Common/Program.antt =====
-- Methods that read and change the state of their object, and return or raise. What a method did
-- before it raised stays done.
pub mod Safety
use mathlib.Core.Bool.{Bool, true, false}
use mathlib.Core.List.{List, [], ◌∷◌}
use mathlib.Core.Option.{Option, none, some}
use plenum.Common.Tests.{if◌then◌else◌}

-- `out_of_fuel` is no exception of the program: it ends a run that is deeper than the fuel given.
pub data Failure : Type 0 where
  key_error index_error attribute_error type_error value_error zero_division_error : Failure
  assertion_error not_found_error out_of_fuel : Failure

pub data Outcome (A : Type 0) : Type 0 where
  returned : A → Outcome A
  failed : Failure → Outcome A

abbrev pub Program : Type 0 → Type 0 → Type 0
Program S A = S → Outcome A × S

module _ {S : Type 0} where
  unfoldable pub read : Program S S
  read s = (returned s, s)

  unfoldable pub modify : (S → S) → Program S Unit
  modify g s = (returned tt, g s)

module _ {S A : Type 0} where
  unfoldable pub pure : A → Program S A
  pure a s = (returned a, s)

  unfoldable pub raise : Failure → Program S A
  raise e s = (failed e, s)

  -- `d[k]` and the like, where a missing value raises.
  unfoldable pub need : Failure → Option A → Program S A
  unfolding raise pure
  need e none = raise e
  need e (some a) = pure a

module _ {S A B : Type 0} where
  abbrev pub continue : Outcome A → (A → Program S B) → Program S B
  continue (returned a) g s = g a s
  continue (failed e) g s = (failed e, s)

  -- To open this is to open all the effects.
  infixl 5 ◌>>=◌ ◌>>◌
  unfoldable pub ◌>>=◌ : Program S A → (A → Program S B) → Program S B
  unfolding read modify pure raise need
  ◌>>=◌ m g s = let (r, s') = m s in continue r g s'

  abbrev pub ◌>>◌ : Program S A → Program S B → Program S B
  m >> n = m >>= λ _. n

module _ {S : Type 0} where
  abbrev pub when : Bool → Program S Unit → Program S Unit
  when b m = if b then m else pure tt

module _ {S A : Type 0} where
  -- `for x in xs: body(x)`
  unfoldable pub for_each : List A → (A → Program S Unit) → Program S Unit
  for_each [] body = pure tt
  for_each (x ∷ xs) body = do body x; for_each xs body
