-- ===== src/Common/Dict.antt =====
-- Dictionaries as association lists in insertion order: `d[k] = v` keeps the place of a key that is
-- there and adds a new key at the end. `sorted_set` is the write of a dictionary that is kept sorted
-- by a measure of its keys.
use Prim.Native.Nat.{ℕ}
use mathlib.Core.Path.{◌≡◌, refl}
use mathlib.Core.Bool.{Bool, true, false, not, ◌||◌}
use mathlib.Core.Logic.{inl, inr}
use mathlib.Core.List.{List, [], ◌∷◌, map}
use mathlib.Core.Option.{Option, none, some}
use native.Mathlib.Omega.{arith}
use plenum.Common.Tests.{if◌then◌else◌, Bool-cases, ltb}
use plenum.Common.Lists.{keep, All, All-keep}
use plenum.Common.Sets.{contains, Distinct}
use plenum.Common.Equality.{Eq, ◌==◌, eq_self, eq→path}

abbrev pub Dict {ℓ κ} : Type ℓ → Type κ → Type (ℓ ⊔ κ)
Dict K V = List (K × V)

abbrev pub is_some {ℓ} : {A : Type ℓ} → Option A → Bool
is_some none = false
is_some (some a) = true

abbrev pub get_or {ℓ} : {A : Type ℓ} → Option A → A → A
get_or none a = a
get_or (some b) a = b

module _ {ℓ κ} {K : Type ℓ} {V : Type κ} where
  abbrev pub keys : Dict K V → List K
  keys d = map (λ e. e.0) d

  abbrev pub values : Dict K V → List V
  values d = map (λ e. e.1) d

module _ {ℓ κ} {K : Type ℓ} {V : Type κ} ⦃e : Eq K⦄ where
  unfoldable pub get : K → Dict K V → Option V
  get k [] = none
  get k ((j, v) ∷ d) = if j == k then some v else get k d

  unfoldable pub set : K → V → Dict K V → Dict K V
  set k v [] = (k, v) ∷ []
  set k v ((j, w) ∷ d) = if j == k then (k, v) ∷ d else (j, w) ∷ set k v d

  unfoldable pub has_key : K → Dict K V → Bool
  unfolding get
  has_key k d = is_some (get k d)

  -- `d.pop(k, None)`
  unfoldable pub del : K → Dict K V → Dict K V
  del k d = keep (λ entry. not (entry.0 == k)) d

  -- The place of a new key is behind those that the measure does not put after it.
  unfoldable pub place : (K → ℕ) → K → V → Dict K V → Dict K V
  place rank k v [] = (k, v) ∷ []
  place rank k v ((j, w) ∷ d) =
      if ltb (rank k) (rank j) then (k, v) ∷ (j, w) ∷ d else (j, w) ∷ place rank k v d

  unfoldable pub sorted_set : (K → ℕ) → K → V → Dict K V → Dict K V
  unfolding has_key set place
  sorted_set rank k v d = if has_key k d then set k v d else place rank k v d

  pub get-set :
      (k j : K) (v : V) (d : Dict K V) → get j (set k v d) ≡ (if k == j then some v else get j d)
  unfolding get set
  get-set k j v [] = refl
  get-set k j v ((i, w) ∷ d) =
      ground (arith, e.decides k j, e.decides i k, e.decides i j, get-set k j v d)

  pub get-del : (k j : K) (d : Dict K V) → get j (del k d) ≡ (if k == j then none else get j d)
  unfolding get del
  get-del k j [] = ground arith
  get-del k j ((i, w) ∷ d) =
      ground (arith, e.decides k j, e.decides i k, e.decides i j, get-del k j d)

  pub get-place :
      (rank : K → ℕ) (k j : K) (v : V) (d : Dict K V)
      → get k d ≡ none
      → get j (place rank k v d) ≡ (if k == j then some v else get j d)
  unfolding get place
  get-place rank k j v [] h = refl
  get-place rank k j v ((i, w) ∷ d) h =
      ground (arith, e.decides k j, e.decides i k, e.decides i j, get-place rank k j v d)

  pub get-sorted_set :
      (rank : K → ℕ) (k j : K) (v : V) (d : Dict K V)
      → get j (sorted_set rank k v d) ≡ (if k == j then some v else get j d)
  unfolding sorted_set
  get-sorted_set rank k j v d = ground (arith, get-set k j v d, get-place rank k j v d)

  pub All-get {μ} :
      (P : K × V → Type μ) (k : K) (d : Dict K V) {v : V} → All P d → get k d ≡ some v → P (k, v)
  unfolding get
  All-get P k [] h g = cc
  All-get P k ((j, w) ∷ d) {v} h g = elim (Bool-cases (j == k)) [
    | inl same ↦ rw (← eq→path j k same) (rw (some_value w v (rw same at g)) at h.0)
    | inr other ↦ All-get P k d h.1 (rw other at g)
  ]
    where
      some_value : (a b : V) → some a ≡ some b → a ≡ b
      some_value a b p = cc

  pub All-set {μ} :
      (P : K × V → Type μ) (k : K) (v : V) (d : Dict K V) → P (k, v) → All P d → All P (set k v d)
  unfolding set
  All-set P k v [] p h = (p, tt)
  All-set P k v ((j, w) ∷ d) p h = elim (Bool-cases (j == k)) [
    | inl same ↦ rw same (p, h.1)
    | inr other ↦ rw other (h.0, All-set P k v d p h.1)
  ]

  pub All-place {μ} :
      (P : K × V → Type μ) (rank : K → ℕ) (k : K) (v : V) (d : Dict K V)
      → P (k, v)
      → All P d
      → All P (place rank k v d)
  unfolding place
  All-place P rank k v [] p h = (p, tt)
  All-place P rank k v ((j, w) ∷ d) p h = elim (Bool-cases (ltb (rank k) (rank j))) [
    | inl below ↦ rw below (p, h)
    | inr above ↦ rw above (h.0, All-place P rank k v d p h.1)
  ]

  pub All-sorted_set {μ} :
      (P : K × V → Type μ) (rank : K → ℕ) (k : K) (v : V) (d : Dict K V)
      → P (k, v)
      → All P d
      → All P (sorted_set rank k v d)
  unfolding sorted_set
  All-sorted_set P rank k v d p h = elim (Bool-cases (has_key k d)) [
    | inl old ↦ rw old (All-set P k v d p h)
    | inr new ↦ rw new (All-place P rank k v d p h)
  ]

  pub All-del {μ} : (P : K × V → Type μ) (k : K) (d : Dict K V) → All P d → All P (del k d)
  unfolding del
  All-del P k d h = All-keep P (λ entry. not (entry.0 == k)) d h

  pub contains-keys-set :
      (k j : K) (v : V) (d : Dict K V)
      → contains (keys (set k v d)) j ≡ k == j || contains (keys d) j
  unfolding set
  contains-keys-set k j v [] = ground arith
  contains-keys-set k j v ((i, w) ∷ d) =
      ground (arith, e.decides k j, e.decides i k, e.decides i j, contains-keys-set k j v d)

  pub set-Distinct :
      (k : K) (v : V) (d : Dict K V) → Distinct (keys d) → Distinct (keys (set k v d))
  unfolding set
  set-Distinct k v [] h = (refl, tt)
  set-Distinct k v ((i, w) ∷ d) h = elim (Bool-cases (i == k)) [
    | inl same ↦ rw same (rw (eq→path i k same) at h)
    | inr other ↦ rw other (
      ground (arith, contains-keys-set k i v d, e.decides i k, e.decides k i),
      set-Distinct k v d h.1,
    )
  ]

  -- A key that is not among the keys has no value.
  pub get_absent : (k : K) (d : Dict K V) → contains (keys d) k ≡ false → get k d ≡ none
  unfolding get
  get_absent k [] h = refl
  get_absent k ((j, v) ∷ d) h = ground (arith, get_absent k d)

  others_differ :
      (j : K) (d : Dict K V) → contains (keys d) j ≡ false → All (λ entry. (j == entry.0) ≡ false) d
  others_differ j [] h = tt
  others_differ j ((i, w) ∷ d) h =
      (ground (arith, e.decides i j, e.decides j i), others_differ j d (ground arith))

  skip_first :
      (j : K) (v : V) (d rest : Dict K V)
      → All (λ entry. (j == entry.0) ≡ false) rest
      → All (λ entry. get entry.0 d ≡ some entry.1) rest
      → All (λ entry. get entry.0 ((j, v) ∷ d) ≡ some entry.1) rest
  unfolding get
  skip_first j v d [] h a = tt
  skip_first j v d (x ∷ rest) h a = (rw h.0 a.0, skip_first j v d rest h.1 a.1)

  -- With distinct keys every entry is what a read of its key gives.
  pub All-entries :
      (d : Dict K V) → Distinct (keys d) → All (λ entry. get entry.0 d ≡ some entry.1) d
  unfolding get
  All-entries [] h = tt
  All-entries ((j, v) ∷ d) h =
      (rw eq_self refl, skip_first j v d d (others_differ j d h.0) (All-entries d h.1))
