-- ===== src/Replica/Returning.antt =====
-- What methods return: one rule for each way to build a method.
use plenum.Common.{◌≡◌, refl, Bool, true, false, List, [], ◌∷◌, if◌then◌else◌}
use plenum.Replica.{Replica, M, Exn, Result, ok, raised, read, pure, raise, continue, uncons, ◌>>=◌}

-- A value that is returned satisfies `Q`.
abbrev pub Returns : {A : Type 0} → (A → Type 0) → Result A → Type 0
Returns Q (ok a) = Q a
Returns Q (raised e) = Unit

pub record Gives {W A : Type 0} (Q : A → Type 0) (m : M W A) : Type 0 where
  pub at : (s : Replica W) → Returns Q (m s).0

pub Returns-all : {A : Type 0} {Q : A → Type 0} (r : Result A) → ((a : A) → Q a) → Returns Q r
Returns-all (ok a) h = h a
Returns-all (raised e) h = tt

module _ {W A : Type 0} {Q : A → Type 0} where
  pub Gives-pure : (a : A) → Q a → Gives {W = W} Q (pure a)
  unfolding pure
  Gives-pure a q = record { at = λ s. q }

  pub Gives-if : (b : Bool) (m n : M W A) → Gives Q m → Gives Q n → Gives Q (if b then m else n)
  Gives-if true m n hm hn = hm
  Gives-if false m n hm hn = hn

  -- of any method: what holds of every value
  pub Gives-any : (m : M W A) → ((a : A) → Q a) → Gives Q m
  Gives-any m h = record { at = λ s. Returns-all (m s).0 h }

module _ {W A B : Type 0} {Q : B → Type 0} where
  pub Gives-continue :
      (R : A → Type 0) (r : Result A) (g : A → M W B) (s : Replica W)
      → Returns R r
      → ((a : A) → R a → Gives Q (g a))
      → Returns Q (continue r g s).0
  Gives-continue R (ok a) g s h k = (k a h).at s
  Gives-continue R (raised e) g s h k = tt

  pub Gives-bind :
      (R : A → Type 0) (m : M W A) (g : A → M W B)
      → Gives R m
      → ((a : A) → R a → Gives Q (g a))
      → Gives Q (m >>= g)
  unfolding ◌>>=◌
  Gives-bind R m g hm hg = record {
    at = λ s. let (r, s') = m s in Gives-continue R r g s' (hm.at s) hg;
  }

  -- whatever the first method returns
  pub Gives-then : (m : M W A) (g : A → M W B) → ((a : A) → Gives Q (g a)) → Gives Q (m >>= g)
  Gives-then m g hg = Gives-bind (λ a. Unit) m g (Gives-any m (λ a. tt)) (λ a h. hg a)

  pub Gives-uncons :
      (m : M W B) (g : A → List A → M W B) (l : List A)
      → Gives Q m
      → ((a : A) (rest : List A) → Gives Q (g a rest))
      → Gives Q (uncons m g l)
  Gives-uncons m g [] hm hg = hm
  Gives-uncons m g (x ∷ xs) hm hg = hg x xs

-- what follows a reading of the state
pub Returns-read :
    {W B : Type 0} {Q : B → Type 0} (g : Replica W → M W B) (s : Replica W)
    → Gives Q (g s)
    → Returns Q ((read >>= g) s).0
unfolding ◌>>=◌
Returns-read g s h = h.at s

module _ {W : Type 0} {B : Type 0} {Q : B → Type 0} where
  -- a branch may use what its test found
  pub Gives-branch :
      (b : Bool) (m n : M W B)
      → (b ≡ true → Gives Q m)
      → (b ≡ false → Gives Q n)
      → Gives Q (if b then m else n)
  Gives-branch true m n hm hn = hm refl
  Gives-branch false m n hm hn = hn refl

module _ {W : Type 0} where
  -- after `if b: raise e` the test was false
  pub Gives-guard :
      (b : Bool) (e : Exn) → Gives {W = W} (λ _. b ≡ false) (if b then raise e else pure tt)
  unfolding raise
  Gives-guard true e = record { at = λ s. tt }
  Gives-guard false e = Gives-pure tt refl
