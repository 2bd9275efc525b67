-- ===== src/Election/Verdicts.antt =====
-- What `decidePrimary` needs of the nominations before it declares a primary or proposes a tie.
use plenum.Common.{
  ℕ, ◌*◌, ◌≤◌, ◌<◌, ◌≡◌, refl, ◌⊎◌, Bool, true, false, String, List, [], ◌∷◌, Option, none, some,
  length, leb, leb→le, arith, All, ◌==◌, nat_eq, string_eq, pair_eq, eq→path, inl, inr, Bool-cases,
  List-cases, map, if◌then◌else◌,
}
use plenum.Common.Dict.{Dict, values}
use plenum.Quorum.Majority.{occurrences}
use plenum.Election.{Vote}
use plenum.Election.Deciding.{
  Verdict, wait, choose, tie, get_primary_candidates, votes_needed, if_settled, judge_nominations,
}
use plenum.Election.Candidates.{Leads, get_primary_candidates-Leads, sole_candidate}

-- A quorum nominated, and the vote has more nominations than any other; and all nodes nominated, or
-- more than half of them for it, or the time is up.
pub record IsWinner (q n : ℕ) (expired : Option Bool) (nominations : Dict String Vote) (vote : Vote)
    : Type 0 where
  pub enough : q ≤ length nominations
  pub leads :
      (w : Vote)
      → (vote == w) ≡ false
      → occurrences w (values nominations) < occurrences vote (values nominations)
  pub settled :
      (length nominations ≡ n)
      ⊎ ((expired ≡ some true) ⊎ (n < 2 * occurrences vote (values nominations)))

-- A quorum nominated, and no vote has more nominations than those of the tie; and all nodes
-- nominated, or the time is up.
pub record IsTie (q n : ℕ) (expired : Option Bool) (nominations : Dict String Vote)
    (votes : List Vote) : Type 0 where
  pub enough : q ≤ length nominations
  pub lead :
      All
        (λ v. (w : Vote) → occurrences w (values nominations) ≤ occurrences v (values nominations))
        votes
  pub settled : (length nominations ≡ n) ⊎ (expired ≡ some true)

abbrev pub Justified : ℕ → ℕ → Option Bool → Dict String Vote → Verdict → Type 0
Justified q n expired nominations (choose vote) = IsWinner q n expired nominations vote
Justified q n expired nominations (tie votes) = IsTie q n expired nominations votes
Justified q n expired nominations _ = Unit

if_settled-Justified :
    (q n : ℕ) (expired : Option Bool) (nominations : Dict String Vote) (all : Bool)
    (v other : Verdict)
    → ((all ≡ true) ⊎ (expired ≡ some true) → Justified q n expired nominations v)
    → Justified q n expired nominations other
    → Justified q n expired nominations (if_settled all expired v other)
unfolding if_settled
if_settled-Justified q n expired nominations true v other h k = h (inl refl)
if_settled-Justified q n none nominations false v other h k = tt
if_settled-Justified q n (some true) nominations false v other h k = h (inr refl)
if_settled-Justified q n (some false) nominations false v other h k = k

ties_lead :
    (nominations : Dict String Vote) (cs : List (Vote × ℕ))
    → All (Leads nominations) cs
    → All
        (λ v. (w : Vote) → occurrences w (values nominations) ≤ occurrences v (values nominations))
        (map (λ c. c.0) cs)
ties_lead nominations [] h = tt
ties_lead nominations (c ∷ cs) h =
    (λ w. omega (arith, h.0.0, h.0.1 w), ties_lead nominations cs h.1)

settled_by :
    (size n : ℕ) (expired : Option Bool)
    → ((size == n) ≡ true) ⊎ (expired ≡ some true)
    → (size ≡ n) ⊎ (expired ≡ some true)
settled_by size n expired (inl all) = inl (eq→path size n all)
settled_by size n expired (inr late) = inr late

module _ (q n : ℕ) (expired : Option Bool) (nominations : Dict String Vote)
    (enough : q ≤ length nominations) where
  tie-Justified :
      (cs : List (Vote × ℕ))
      → All (Leads nominations) cs
      → Justified q n expired nominations
          (if_settled (length nominations == n) expired (tie (map (λ c. c.0) cs)) wait)
  tie-Justified cs lead =
      if_settled-Justified q n expired nominations (length nominations == n)
        (tie (map (λ c. c.0) cs)) wait
        (λ s. record {
          enough = enough;
          lead = ties_lead nominations cs lead;
          settled = settled_by (length nominations) n expired s;
        })
        tt

  winner-Justified :
      (vote : Vote) (votes : ℕ)
      → 0 < q
      → get_primary_candidates nominations ≡ (vote, votes) ∷ []
      → Justified q n expired nominations (
          if_settled
            (length nominations == n)
            expired
            (choose vote)
            (if leb (votes_needed n) votes then choose vote else wait))
  unfolding votes_needed
  winner-Justified vote votes positive sole =
      let lead = rw sole at (get_primary_candidates-Leads nominations) in
      let leads : (w : Vote)
          → (vote == w) ≡ false
          → occurrences w (values nominations) < occurrences vote (values nominations) =
        λ w other. omega (
          arith,
          lead.0.0,
          sole_candidate nominations vote votes (omega (arith, enough, positive)) sole w other,
        ) in
      if_settled-Justified q n expired nominations (length nominations == n) (choose vote) _
        (λ s. record {
          enough = enough;
          leads = leads;
          settled = either (settled_by (length nominations) n expired s);
        })
        (elim (Bool-cases (leb (votes_needed n) votes)) [
          | inr few ↦ rw few tt
          | inl many ↦ rw many (record {
            enough = enough;
            leads = leads;
            settled = inr (inr (omega (arith, lead.0.0, leb→le (votes_needed n) votes many)));
          })
        ])
    where
      either : {A B C : Type 0} → A ⊎ B → A ⊎ (B ⊎ C)
      either (inl a) = inl a
      either (inr b) = inr (inl b)

-- The verdict on nominations, with a positive quorum, is justified.
pub judge_nominations-Justified :
    (q n : ℕ) (expired : Option Bool) (nominations : Dict String Vote)
    → 0 < q
    → Justified q n expired nominations (judge_nominations q n expired nominations)
unfolding judge_nominations
judge_nominations-Justified q n expired nominations positive =
    let all_lead = get_primary_candidates-Leads nominations in
    elim (Bool-cases (leb q (length nominations))) [
      | inr few ↦ rw few tt
      | inl many ↦
          let enough = leb→le q (length nominations) many in
          elim (List-cases (get_primary_candidates nominations)) [
            | inl nobody ↦ rw (many, nobody) (tie-Justified q n expired nominations enough [] tt)
            | inr ((vote, votes), rest, e) ↦ elim (List-cases rest) [
              | inl alone ↦
                  let sole : get_primary_candidates nominations ≡ (vote, votes) ∷ [] =
                    rw alone at e in
                  rw (many, sole)
                    (winner-Justified q n expired nominations enough vote votes positive sole)
              | inr (c, more, e') ↦
                  let several : get_primary_candidates nominations ≡ (vote, votes) ∷ c ∷ more =
                    rw e' at e in
                  rw (many, several)
                    (tie-Justified q n expired nominations enough
                      (get_primary_candidates nominations) all_lead)
            ]
          ]
    ]
