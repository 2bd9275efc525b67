-- ===== src/Catchup/Grouping.antt =====
-- Counting in groups, for any two kinds of key: each count is the number of times that its pair of
-- keys was counted, and the reliable entries are those whose count is above a bound.
use plenum.Common.{
  ℕ, ◌+◌, ◌<◌, ◌≡◌, refl, ap, ◌∙◌, ◌&&◌, [], ◌∷◌, some, if◌then◌else◌, ltb, ◌==◌, Eq, nat_eq,
  string_eq, pair_eq, list_eq, arith, All, All-map, Distinct, inl, inr, Bool-cases, Option-cases,
  eq→path,
}
use plenum.Common.Dict
use plenum.Common.Dict.{Dict, keys, get_or}
use plenum.Catchup.Proofs.{count_in, first_reliable, note_reliable, reliable_from}

module _ {B : Type 0} where
  pub first_reliable_sound :
      (f : ℕ) (P : B → ℕ → Type 0) (group : Dict B ℕ) {key : B}
      → All (λ c. P c.0 c.1) group
      → first_reliable f group ≡ some key
      → (n : ℕ) × (f < n) × P key n
  unfolding first_reliable
  first_reliable_sound f P [] h found = absurd (ground arith)
  first_reliable_sound f P ((k, n) ∷ group) {key} h found = elim (Bool-cases (ltb f n)) [
    | inl enough ↦ (n, ground arith, rw (← some_path (rw enough at found)) h.0)
    | inr few ↦ first_reliable_sound f P group h.1 (rw few at found)
  ]
    where
      some_path : {x y : B} → some x ≡ some y → x ≡ y
      some_path p = cc

  pub first_reliable_complete :
      ⦃d : Eq B⦄
      → (f : ℕ) (group : Dict B ℕ) (b : B) {n : ℕ} → Dict.get b group ≡ some n
      → f < n
      → (key : B) × (first_reliable f group ≡ some key)
  unfolding first_reliable Dict.get
  first_reliable_complete f [] b found enough = absurd (ground arith)
  first_reliable_complete f ((k, m) ∷ group) b found enough = elim (Bool-cases (ltb f m)) [
    | inl more ↦ (k, rw more refl)
    | inr few ↦ elim (Bool-cases (k == b)) [
      | inl same ↦ absurd (ground arith)
      | inr other ↦ rw few (first_reliable_complete f group b (rw other at found) enough)
    ]
  ]

module _ {A B : Type 0} ⦃e : Eq A⦄ ⦃d : Eq B⦄ where
  unfoldable pub counted : A → B → Dict A (Dict B ℕ) → ℕ
  counted a b grouped = get_or (Dict.get b (get_or (Dict.get a grouped) [])) 0

  pub counted-count_in :
      (a x : A) (b y : B) (grouped : Dict A (Dict B ℕ))
      → counted a b (count_in x y grouped)
        ≡ counted a b grouped + (if x == a && y == b then 1 else 0)
  unfolding counted count_in
  counted-count_in a x b y grouped =
      let group = get_or (Dict.get x grouped) [] in
      let count = get_or (Dict.get y group) 0 + 1 in
      let outer = Dict.get-set x a (Dict.set y count group) grouped in
      elim (Bool-cases (x == a)) [
        | inr other ↦ rw (outer, other) (omega arith)
        | inl same ↦
            let inner = Dict.get-set y b count group in
            elim (Bool-cases (y == b)) [
              | inr differs ↦ rw (outer, same, inner, differs, eq→path x a same) (omega arith)
              | inl match ↦
                  rw (outer, same, inner, match, eq→path x a same, eq→path y b match) (omega arith)
            ]
      ]

  pub counted-there :
      (a : A) (b : B) (grouped : Dict A (Dict B ℕ)) {f : ℕ}
      → f < counted a b grouped
      → (group : Dict B ℕ) × (Dict.get a grouped ≡ some group)
        × ((n : ℕ) × (Dict.get b group ≡ some n) × (f < n))
  unfolding counted Dict.get
  counted-there a b grouped {f} h = elim (Option-cases (Dict.get a grouped)) [
    | inl absent ↦ absurd (let no : f < 0 = rw absent at h in omega arith)
    | inr (group, there) ↦ elim (Option-cases (Dict.get b group)) [
      | inl absent ↦ absurd (let no : f < 0 = rw (there, absent) at h in omega arith)
      | inr (n, found) ↦ (group, there, (n, found, rw (there, found) at h))
    ]
  ]

  -- Neither the ranges nor the keys of a group repeat.
  abbrev pub IsTidy : Dict A (Dict B ℕ) → Type 0
  IsTidy grouped = Distinct (keys grouped) × All (λ entry. Distinct (keys entry.1)) grouped

  get-IsTidy :
      (x : A) (grouped : Dict A (Dict B ℕ))
      → All (λ entry. Distinct (keys entry.1)) grouped
      → Distinct (keys (get_or (Dict.get x grouped) []))
  get-IsTidy x grouped h = elim (Option-cases (Dict.get x grouped)) [
    | inl absent ↦ rw absent tt
    | inr (group, found) ↦
        rw found (Dict.All-get (λ entry. Distinct (keys entry.1)) x grouped h found)
  ]

  pub count_in-IsTidy :
      (x : A) (y : B) (grouped : Dict A (Dict B ℕ)) → IsTidy grouped → IsTidy (count_in x y grouped)
  unfolding count_in
  count_in-IsTidy x y grouped h = (
    Dict.set-Distinct x _ grouped h.0,
    Dict.All-set (λ entry. Distinct (keys entry.1)) x _ grouped
        (Dict.set-Distinct y _ (get_or (Dict.get x grouped) []) (get-IsTidy x grouped h.1)) h.1,
  )

  -- Every count that stands in a group is the one that is read there.
  pub IsTidy-counted :
      (grouped : Dict A (Dict B ℕ))
      → IsTidy grouped
      → All (λ entry. All (λ c. counted entry.0 c.0 grouped ≡ c.1) entry.1) grouped
  unfolding counted
  IsTidy-counted grouped h = both grouped h.1 (Dict.All-entries grouped h.0)
    where
      both :
          (rest : Dict A (Dict B ℕ))
          → All (λ entry. Distinct (keys entry.1)) rest
          → All (λ entry. Dict.get entry.0 grouped ≡ some entry.1) rest
          → All (λ entry. All (λ c. counted entry.0 c.0 grouped ≡ c.1) entry.1) rest
      both [] _ _ = tt
      both ((x, group) ∷ rest) t g = (
        All-map
            (λ c found.
              ap (λ o. get_or (Dict.get c.0 (get_or o [])) 0) g.0 ∙ ap (λ o. get_or o 0) found)
            group (Dict.All-entries group t.0),
        both rest t.1 g.1,
      )

  -- The reliable entries hold the first reliable key of their group.
  pub reliable_from-All :
      (f : ℕ) (P : A × B → Type 0) (grouped : Dict A (Dict B ℕ)) (result : Dict A B)
      → All (λ entry. (key : B) → first_reliable f entry.1 ≡ some key → P (entry.0, key)) grouped
      → All P result
      → All P (reliable_from f grouped result)
  unfolding reliable_from note_reliable
  reliable_from-All f P [] result h a = a
  reliable_from-All f P ((x, group) ∷ grouped) result h a =
      elim (Option-cases (first_reliable f group)) [
        | inl none_there ↦ rw none_there (reliable_from-All f P grouped result h.1 a)
        | inr (key, found) ↦ rw found (
            reliable_from-All f P grouped (Dict.set x key result) h.1
              (Dict.All-set P x key result (h.0 key found) a))
      ]

  -- A range stays among the reliable ones, and one with a reliable group gets there.
  reliable_from-keeps :
      (f : ℕ) (x : A) (grouped : Dict A (Dict B ℕ)) (result : Dict A B) {k : B}
      → Dict.get x result ≡ some k
      → (key : B) × (Dict.get x (reliable_from f grouped result) ≡ some key)
  unfolding reliable_from note_reliable
  reliable_from-keeps f x [] result {k} h = (k, h)
  reliable_from-keeps f x ((y, group) ∷ grouped) result {k} h =
      elim (Option-cases (first_reliable f group)) [
        | inl none_there ↦ rw none_there (reliable_from-keeps f x grouped result h)
        | inr (key, found) ↦
            let set = Dict.get-set y x key result in
            elim (Bool-cases (y == x)) [
              | inl same ↦ rw found (
                  reliable_from-keeps f x grouped (Dict.set y key result) {k = key}
                    (set ∙ rw same refl))
              | inr other ↦ rw found (
                  reliable_from-keeps f x grouped (Dict.set y key result) {k = k}
                    (set ∙ rw other h))
            ]
      ]

  pub reliable_from_complete :
      (f : ℕ) (x : A) (grouped : Dict A (Dict B ℕ)) (result : Dict A B) {group : Dict B ℕ} {k : B}
      → Dict.get x grouped ≡ some group
      → first_reliable f group ≡ some k
      → (key : B) × (Dict.get x (reliable_from f grouped result) ≡ some key)
  unfolding reliable_from note_reliable Dict.get
  reliable_from_complete f x [] result there found = absurd (ground arith)
  reliable_from_complete f x ((y, g) ∷ grouped) result {group} {k} there found =
      elim (Bool-cases (y == x)) [
        | inl same ↦
            let here : first_reliable f g ≡ some k =
              ap (λ o. first_reliable f (get_or o [])) (rw same at there) ∙ found in
            rw here (
              reliable_from-keeps f x grouped (Dict.set y k result) {k = k}
                (Dict.get-set y x k result ∙ rw same refl))
        | inr other ↦
            reliable_from_complete f x grouped (note_reliable y (first_reliable f g) result)
              (rw other at there) found
      ]
