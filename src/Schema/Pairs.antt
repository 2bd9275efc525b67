-- ===== src/Schema/Pairs.antt =====
-- Dictionaries built from pairs with distinct keys, as `_join_with_schema` builds them.
use plenum.Common.{
  ◌≡◌, refl, sym, ap, ◌∙◌, false, String, List, [], ◌∷◌, ◌++◌, some, length, arith, inl, inr,
  Bool-cases, Distinct, contains, contains-append, ◌==◌, nat_eq, string_eq, eq_self, All,
}
use mathlib.Core.List.{append-nil, append_assoc}
use plenum.Common.Dict
use plenum.Common.Dict.{Dict, keys}
use plenum.Schema.{dict_onto, pair_up}

module _ {A : Type 0} where
  set-fresh :
      (k : String) (v : A) (d : Dict String A)
      → contains (keys d) k ≡ false
      → Dict.set k v d ≡ d ++ (k, v) ∷ []
  unfolding Dict.set
  set-fresh k v [] h = refl
  set-fresh k v ((j, w) ∷ d) h = elim (Bool-cases (j == k)) [
    | inl same ↦ absurd (ground (arith, h, same))
    | inr other ↦ rw (other, set-fresh k v d (rw other at h)) refl
  ]

  keys-append : (d e : Dict String A) → keys (d ++ e) ≡ keys d ++ keys e
  keys-append [] e = refl
  keys-append ((k, v) ∷ d) e = ap (λ ks. k ∷ ks) (keys-append d e)

  -- Entries whose keys are not there.
  abbrev Fresh : List (String × A) → Dict String A → Type 0
  Fresh pairs d = All (λ e. contains (keys d) e.0 ≡ false) pairs

  Fresh-snoc :
      (pairs : List (String × A)) (k : String) (v : A) (d : Dict String A)
      → contains (keys pairs) k ≡ false
      → Fresh pairs d
      → Fresh pairs (d ++ (k, v) ∷ [])
  Fresh-snoc [] k v d h f = tt
  Fresh-snoc ((j, w) ∷ pairs) k v d h f = (
    rw (keys-append d ((k, v) ∷ []), contains-append (keys d) (k ∷ []) j)
        (ground (arith, h, f.0, string_eq.decides j k, string_eq.decides k j)),
    Fresh-snoc pairs k v d (ground (arith, h)) f.1,
  )

  dict_onto-Fresh :
      (pairs : List (String × A)) (d : Dict String A)
      → Distinct (keys pairs)
      → Fresh pairs d
      → dict_onto pairs d ≡ d ++ pairs
  unfolding dict_onto
  dict_onto-Fresh [] d h f = sym (append-nil d)
  dict_onto-Fresh ((k, v) ∷ pairs) d h f = rw (set-fresh k v d f.0) (
      dict_onto-Fresh pairs (d ++ (k, v) ∷ []) h.1 (Fresh-snoc pairs k v d h.0 f.1)
      ∙ append_assoc d ((k, v) ∷ []) pairs)

  Fresh-nil : (pairs : List (String × A)) → Fresh pairs []
  Fresh-nil [] = tt
  Fresh-nil (e ∷ pairs) = (refl, Fresh-nil pairs)

  pub dict_of_Distinct :
      (pairs : List (String × A)) → Distinct (keys pairs) → dict_onto pairs [] ≡ pairs
  dict_of_Distinct pairs h = dict_onto-Fresh pairs [] h (Fresh-nil pairs)

  pub keys-pair_up :
      (ks : List String) (vs : List A) → length vs ≡ length ks → keys (pair_up ks vs) ≡ ks
  unfolding pair_up
  keys-pair_up [] vs h = refl
  keys-pair_up (k ∷ ks) [] h = absurd (omega arith)
  keys-pair_up (k ∷ ks) (v ∷ vs) h = ap (λ rest. k ∷ rest) (keys-pair_up ks vs (omega arith))

  -- The entries of a list are those that a dictionary has.
  abbrev pub Has : Dict String A → List (String × A) → Type 0
  Has d pairs = All (λ e. Dict.get e.0 d ≡ some e.1) pairs

  Has-cons :
      (k : String) (v : A) (d : Dict String A) (pairs : List (String × A))
      → contains (keys pairs) k ≡ false
      → Has d pairs
      → Has ((k, v) ∷ d) pairs
  unfolding Dict.get
  Has-cons k v d [] h f = tt
  Has-cons k v d ((j, w) ∷ pairs) h f = (
    ground (arith, h, f.0, string_eq.decides j k, string_eq.decides k j),
    Has-cons k v d pairs (ground (arith, h)) f.1,
  )

  pub Has-self : (d : Dict String A) → Distinct (keys d) → Has d d
  unfolding Dict.get
  Has-self [] h = tt
  Has-self ((k, v) ∷ d) h = (rw (eq_self k) refl, Has-cons k v d d h.0 (Has-self d h.1))
