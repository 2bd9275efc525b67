-- ===== src/Replica/Behaviour/Admission.antt =====
-- Which PRE-PREPAREs a replica processes at once: `canProcessPrePrepare` of plenum/server/replica.py.
use plenum.Common.{
  ℕ, ◌+◌, ◌<◌, last?, ◌≡◌, refl, sym, ap, ◌∙◌, ◌⊎◌, inl, inr, Bool, true, false, String, List, [],
  ◌∷◌, Option, none, some, arith, not, ◌||◌, nat_eq, string_eq, pair_eq, option_eq, All, contains,
  ltb, if◌then◌else◌, eq→path, Bool-cases, Option-cases,
}
use mathlib.Core.Path.{subst}
use plenum.Common.Dict
use plenum.Common.Dict.{Dict, is_some}
use plenum.Messages.{ReqKey, Request, ThreePhaseKey, PrePrepare}
use plenum.Propagator.{ReqState, Requests, is_finalised}
use plenum.Replica.{Replica, NodeApi, ok}
use plenum.Replica.Status.{
  is_msg_from_primary, non_finalised_reqs, is_next_pre_prepare, last_pre_prepare,
}
use plenum.Replica.PrePrepares.{can_process_pre_prepare}
use plenum.Replica.Returning.{
  Returns, Gives-pure, Gives-bind, Gives-then, Gives-branch, Gives-guard, Returns-read,
}

last-none : {A : Type 0} (l : List A) → is_some (last? l) ≡ false → l ≡ []
last-none [] h = refl
last-none (x ∷ []) h = absurd (ground arith)
last-none (x ∷ y ∷ l) h = absurd (let no = last-none (y ∷ l) h in ground arith)

-- A request of the key is finalised.
abbrev pub IsFinalised : Requests → ReqKey → Type 0
IsFinalised requests key =
    (state : ReqState) × (req : Request) × (Dict.get key requests ≡ some state)
    × (state.finalised ≡ some req)

-- The last entry of a sorted dictionary of PRE-PREPAREs has a number.
abbrev pub EndsWith : ℕ → Dict ThreePhaseKey PrePrepare → Type 0
EndsWith n d =
    (key : ThreePhaseKey) × (pp : PrePrepare) × (last? d ≡ some (key, pp)) × (pp.pp_seq_no ≡ n)

is_finalised-IsFinalised :
    (requests : Requests) (key : ReqKey)
    → is_finalised key requests ≡ true
    → IsFinalised requests key
unfolding is_finalised
is_finalised-IsFinalised requests key e = elim (Option-cases (Dict.get key requests)) [
  | inl absent ↦ absurd (ground arith)
  | inr (state, found) ↦ elim (Option-cases state.finalised) [
    | inl pending ↦ absurd (ground arith)
    | inr (req, final) ↦ (state, req, found, final)
  ]
]

absent-path :
    (key : ThreePhaseKey) (d : Dict ThreePhaseKey PrePrepare)
    → Dict.has_key key d ≡ false
    → Dict.get key d ≡ none
unfolding Dict.has_key
absent-path key d e = elim (Option-cases (Dict.get key d)) [
  | inl absent ↦ absent
  | inr (pp, found) ↦ absurd (ground arith)
]

abbrev Last : Type 0
Last = Option (ThreePhaseKey × PrePrepare)

-- the choice of `lastPrePrepare`
later : Last → Last → Option PrePrepare
later a b = elim a [
  | none ↦ elim b [ none ↦ none | some (_, pp) ↦ some pp ]
  | some (key, pp) ↦ elim b [
    | none ↦ if ltb 0 key.1 then some pp else none
    | some (key', pp') ↦ if ltb key'.1 key.1 then some pp else some pp'
  ]
]

abbrev number_of : Option PrePrepare → ℕ
number_of none = 0
number_of (some pp) = pp.pp_seq_no

abbrev IsLast : ℕ → Last → Type 0
IsLast n o = (key : ThreePhaseKey) × (pp : PrePrepare) × (o ≡ some (key, pp)) × (pp.pp_seq_no ≡ n)

later-EndsWith :
    (a b : Last) (pp : PrePrepare)
    → later a b ≡ some pp
    → IsLast pp.pp_seq_no a ⊎ IsLast pp.pp_seq_no b
unfolding later
later-EndsWith none none pp e = absurd (cc)
later-EndsWith none (some (key, x)) pp e = inr (key, x, refl, ap number_of e)
later-EndsWith (some (key, x)) none pp e = elim (Bool-cases (ltb 0 key.1)) [
  | inl more ↦
      inl (key, x, refl, ap number_of (sym (ap (λ b. if b then some x else none) more) ∙ e))
  | inr zeroth ↦
      absurd
        (let nothing : none ≡ some pp = sym (ap (λ b. if b then some x else none) zeroth) ∙ e in cc)
]
later-EndsWith (some (key, x)) (some (key', y)) pp e =
    let pick = λ (b : Bool). if b then some x else some y in
    elim (Bool-cases (ltb key'.1 key.1)) [
      | inl more ↦ inl (key, x, refl, ap number_of (sym (ap pick more) ∙ e))
      | inr less ↦ inr (key', y, refl, ap number_of (sym (ap pick less) ∙ e))
    ]

module _ {W : Type 0} where
  non_finalised_reqs-IsFinalised :
      (keys : List ReqKey) (s : Replica W)
      → non_finalised_reqs keys s ≡ []
      → All (IsFinalised s.requests) keys
  unfolding non_finalised_reqs
  non_finalised_reqs-IsFinalised [] s e = tt
  non_finalised_reqs-IsFinalised (key ∷ keys) s e =
      let rest = non_finalised_reqs keys s in
      let pick = λ (b c : Bool). if b || c then rest else key ∷ rest in
      let old = contains rest key in
      elim (Bool-cases (is_finalised key s.requests)) [
        | inl final ↦ (
          is_finalised-IsFinalised s.requests key final,
          non_finalised_reqs-IsFinalised keys s (sym (ap (λ b. pick b old) final) ∙ e),
        )
        | inr pending ↦ elim (Bool-cases old) [
          | inl there ↦ absurd (
              let nothing : rest ≡ [] =
                sym (ap (λ b. pick b old) pending ∙ ap (λ c. pick false c) there) ∙ e in
              let gone : contains rest key ≡ false = ap (λ l. contains l key) nothing in
              ground arith)
          | inr new ↦ absurd (
              let nothing : key ∷ rest ≡ [] =
                sym (ap (λ b. pick b old) pending ∙ ap (λ c. pick false c) new) ∙ e in
              cc)
        ]
      ]

  last_pre_prepare-EndsWith :
      (s : Replica W) (pp : PrePrepare)
      → last_pre_prepare s ≡ some pp
      → EndsWith pp.pp_seq_no s.pre_prepares ⊎ EndsWith pp.pp_seq_no s.sent_pre_prepares
  unfolding last_pre_prepare later
  last_pre_prepare-EndsWith s pp e =
      later-EndsWith (last? s.pre_prepares) (last? s.sent_pre_prepares) pp e

  from_primary-path :
      (sender : String) (s : Replica W)
      → is_msg_from_primary sender s ≡ true
      → s.primary_name ≡ some sender
  unfolding is_msg_from_primary
  from_primary-path sender s e = eq→path s.primary_name (some sender) e

  -- One more than the last ordered number, or than the number of the last PRE-PREPARE that was
  -- received or sent, and above the last ordered one.
  abbrev pub IsNext : ℕ → Replica W → Type 0
  IsNext n s =
      (s.last_ordered_pp_seq_no < n)
      × ((n ≡ s.last_ordered_pp_seq_no + 1)
          ⊎ ((m : ℕ) × (n ≡ m + 1) × (EndsWith m s.pre_prepares ⊎ EndsWith m s.sent_pre_prepares)))

  is_next_pre_prepare-IsNext : (n : ℕ) (s : Replica W) → is_next_pre_prepare n s ≡ true → IsNext n s
  unfolding is_next_pre_prepare
  is_next_pre_prepare-IsNext n s e =
      let ordered = s.last_ordered_pp_seq_no in
      let highest = λ (o : Option PrePrepare). elim o as (λ _. ℕ) [
        | none ↦ ordered
        | some pp ↦ if ltb ordered pp.pp_seq_no then pp.pp_seq_no else ordered
      ] in
      let n_is = eq→path n (highest (last_pre_prepare s) + 1) e in
      elim (Option-cases (last_pre_prepare s)) [
        | inl nothing ↦ let q = n_is ∙ ap (λ o. highest o + 1) nothing in (omega (arith, q), inl q)
        | inr (pp, found) ↦
            let q = n_is ∙ ap (λ o. highest o + 1) found in
            let pick = λ (b : Bool). (if b then pp.pp_seq_no else ordered) + 1 in
            elim (Bool-cases (ltb ordered pp.pp_seq_no)) [
              | inl above ↦
                  let r = q ∙ ap pick above in
                  (
                    ground (arith, r, above),
                    inr (pp.pp_seq_no, r, last_pre_prepare-EndsWith s pp found),
                  )
              | inr below ↦ let r = q ∙ ap pick below in (omega (arith, r), inl r)
            ]
      ]

module _ {W : Type 0} (node : NodeApi W) (pp : PrePrepare) (sender : String) (s : Replica W) where
  pub record IsAdmitted : Type 0 where
    pub from_primary : s.primary_name ≡ some sender
    pub new : Dict.get (pp.view_no, pp.pp_seq_no) s.pre_prepares ≡ none
    pub finalised : All (IsFinalised s.requests) pp.req_idr
    pub next : IsNext pp.pp_seq_no s

  admitted :
      s.is_participating ≡ true
      → Returns (λ b. b ≡ true → IsAdmitted) (can_process_pre_prepare node pp sender s).0
  unfolding can_process_pre_prepare
  admitted takes_part = Returns-read _ s (
      Gives-bind _ _ _ (Gives-guard _ _) (λ _ p. Gives-then _ _ (λ status. Gives-then _ _ (λ _.
        Gives-bind _ _ _ (Gives-guard _ _) (λ _ q.
          Gives-branch (not s.is_participating) _ _ (λ out. absurd (ground arith))
            (λ _.
              Gives-branch
                (is_some (last? (non_finalised_reqs pp.req_idr s))
                  || not (is_next_pre_prepare pp.pp_seq_no s))
                _ _ (λ c. Gives-then _ _ (λ _. Gives-pure false (λ bad. absurd (ground arith))))
                (λ c. Gives-then _ _ (λ _. Gives-pure true (λ _. record {
                  from_primary = from_primary-path sender s (ground arith);
                  new = absent-path _ s.pre_prepares q;
                  finalised =
                      non_finalised_reqs-IsFinalised pp.req_idr s (last-none _ (ground arith));
                  next = is_next_pre_prepare-IsNext pp.pp_seq_no s (ground arith);
                })))))))))

  -- A replica that takes part processes a PRE-PREPARE at once only if it knows the sender as its
  -- primary, has none under its key, has all its requests finalised, and its number is above the last
  -- ordered one and follows that number or the number of the last PRE-PREPARE received or sent.
  pub can_process_pre_prepare-IsAdmitted :
      s.is_participating ≡ true
      → (can_process_pre_prepare node pp sender s).0 ≡ ok true
      → IsAdmitted
  can_process_pre_prepare-IsAdmitted takes_part e =
      subst (Returns (λ b. b ≡ true → IsAdmitted)) e (admitted takes_part) refl
