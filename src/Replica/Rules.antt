-- ===== src/Replica/Rules.antt =====
-- Invariants of the methods: one rule for each way to build a method.
use plenum.Common.{Bool, true, false, List, [], ◌∷◌, Option, none, some, if◌then◌else◌}
use plenum.Replica.{
  Replica, M, Exn, suspicious_node, request_error, key_error, index_error, attribute_error,
  assertion_error, runtime_error, out_of_fuel, Result, ok, raised, read, modify, pure, raise, need,
  continue, ◌>>=◌, maybe, uncons, handle, catch_suspicious, for_each,
}

-- `m` keeps `P`, whether it returns or raises.
pub record Keeps {W A : Type 0} (P : Replica W → Type 0) (m : M W A) : Type 0 where
  pub at : (s : Replica W) → P s → P (m s).1

module _ {W A : Type 0} {P : Replica W → Type 0} where
  pub Keeps-pure : (a : A) → Keeps P (pure {W = W} a)
  unfolding pure
  Keeps-pure a = record { at = λ s h. h }

  pub Keeps-raise : (e : Exn) → Keeps P (raise {W = W} {A = A} e)
  unfolding raise
  Keeps-raise e = record { at = λ s h. h }

  pub Keeps-need : (e : Exn) (o : Option A) → Keeps P (need {W = W} e o)
  unfolding need
  Keeps-need e none = record { at = λ s h. h }
  Keeps-need e (some a) = record { at = λ s h. h }

  pub Keeps-if : (b : Bool) (m n : M W A) → Keeps P m → Keeps P n → Keeps P (if b then m else n)
  Keeps-if true m n km kn = km
  Keeps-if false m n km kn = kn

module _ {W : Type 0} {P : Replica W → Type 0} where
  pub Keeps-read : Keeps P (read {W = W})
  unfolding read
  Keeps-read = record { at = λ s h. h }

  pub Keeps-modify :
      (g : Replica W → Replica W) → ((s : Replica W) → P s → P (g s)) → Keeps P (modify g)
  unfolding modify
  Keeps-modify g h = record { at = h }

  Keeps-handle :
      (report : Exn → Replica W → Replica W) (r : Result Unit)
      → ((e : Exn) (s : Replica W) → P s → P (report e s))
      → Keeps P (handle report r)
  Keeps-handle report (ok a) k = record { at = λ s h. h }
  Keeps-handle report (raised (suspicious_node n c m)) k = record { at = λ s h. k _ s h }
  Keeps-handle report (raised (request_error t)) k = record { at = λ s h. h }
  Keeps-handle report (raised key_error) k = record { at = λ s h. h }
  Keeps-handle report (raised index_error) k = record { at = λ s h. h }
  Keeps-handle report (raised attribute_error) k = record { at = λ s h. h }
  Keeps-handle report (raised assertion_error) k = record { at = λ s h. h }
  Keeps-handle report (raised runtime_error) k = record { at = λ s h. h }
  Keeps-handle report (raised out_of_fuel) k = record { at = λ s h. h }

  pub Keeps-catch :
      (report : Exn → Replica W → Replica W) (m : M W Unit)
      → ((e : Exn) (s : Replica W) → P s → P (report e s))
      → Keeps P m
      → Keeps P (catch_suspicious report m)
  unfolding catch_suspicious
  Keeps-catch report m k km = record {
    at = λ s h. let (r, s') = m s in (Keeps-handle report r k).at s' (km.at s h);
  }

module _ {W A B : Type 0} {P : Replica W → Type 0} where
  pub Keeps-continue :
      (r : Result A) (g : A → M W B) → ((a : A) → Keeps P (g a)) → Keeps P (continue r g)
  Keeps-continue (ok a) g kg = kg a
  Keeps-continue (raised e) g kg = record { at = λ s h. h }

  pub Keeps-bind :
      (m : M W A) (g : A → M W B) → Keeps P m → ((a : A) → Keeps P (g a)) → Keeps P (m >>= g)
  unfolding ◌>>=◌
  Keeps-bind m g km kg = record {
    at = λ s h. let (r, s') = m s in (Keeps-continue r g kg).at s' (km.at s h);
  }

  pub Keeps-maybe :
      (m : M W B) (g : A → M W B) (o : Option A)
      → Keeps P m
      → ((a : A) → Keeps P (g a))
      → Keeps P (maybe m g o)
  Keeps-maybe m g none km kg = km
  Keeps-maybe m g (some a) km kg = kg a

  pub Keeps-uncons :
      (m : M W B) (g : A → List A → M W B) (l : List A)
      → Keeps P m
      → ((a : A) (rest : List A) → Keeps P (g a rest))
      → Keeps P (uncons m g l)
  Keeps-uncons m g [] km kg = km
  Keeps-uncons m g (x ∷ xs) km kg = kg x xs

module _ {W A : Type 0} {P : Replica W → Type 0} where
  pub Keeps-for_each :
      (xs : List A) (body : A → M W Unit)
      → ((x : A) → Keeps P (body x))
      → Keeps P (for_each xs body)
  unfolding for_each
  Keeps-for_each [] body k = Keeps-pure tt
  Keeps-for_each (x ∷ xs) body k = Keeps-bind _ _ (k x) (λ _. Keeps-for_each xs body k)

pub ruleset keeps_rules = (
  Keeps-pure, Keeps-raise, Keeps-need, Keeps-if, Keeps-read, Keeps-catch, Keeps-bind, Keeps-maybe,
  Keeps-uncons, Keeps-for_each,
)

-- From a state with `P`, `m` ends in one with `Q`, whether it returns or raises.
pub record Moves {W A : Type 0} (P Q : Replica W → Type 0) (m : M W A) : Type 0 where
  pub at : (s : Replica W) → P s → Q (m s).1

module _ {W A B : Type 0} {P Q : Replica W → Type 0} where
  Moves-continue :
      (r : Result A) (g : A → M W B)
      → ((s : Replica W) → P s → Q s)
      → ((a : A) → Moves P Q (g a))
      → Moves P Q (continue r g)
  Moves-continue (ok a) g w k = k a
  Moves-continue (raised e) g w k = record { at = w }

  -- first what keeps `P`
  pub Moves-after :
      (m : M W A) (g : A → M W B)
      → ((s : Replica W) → P s → Q s)
      → Keeps P m
      → ((a : A) → Moves P Q (g a))
      → Moves P Q (m >>= g)
  unfolding ◌>>=◌
  Moves-after m g w km k = record {
    at = λ s h. let (r, s') = m s in (Moves-continue r g w k).at s' (km.at s h);
  }

  -- then what keeps `Q`
  pub Moves-then :
      (m : M W A) (g : A → M W B) → Moves P Q m → ((a : A) → Keeps Q (g a)) → Moves P Q (m >>= g)
  unfolding ◌>>=◌
  Moves-then m g move k = record {
    at = λ s h. let (r, s') = m s in (Keeps-continue r g k).at s' (move.at s h);
  }
