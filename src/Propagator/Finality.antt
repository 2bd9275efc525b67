-- ===== src/Propagator/Finality.antt =====
-- When a request becomes finalised: `Requests.canForward` and `checkIfMoreThanFSameItems`.
use plenum.Common.{
  ℕ, ◌+◌, ◌≤◌, ◌≡◌, false, List, [], ◌∷◌, none, some, arith, length, Eq, inl, inr, Option-cases,
  pair_eq, string_eq, nat_eq,
}
use plenum.Common.Dict
use plenum.Common.Dict.{Dict, values}
use plenum.Messages.{Request, request_key}
use plenum.Quorum.{check_if_more_than_f_same_items}
use plenum.Quorum.Majority.{occurrences, check_if_more_than_f_same_items_sound}
use plenum.Propagator.{ReqState, Requests, request_eq, update_finalised, can_forward, not_finalised}

pub occurrences-le-length {ℓ} :
    {A : Type ℓ} ⦃e : Eq A⦄ (a : A) (items : List A) → occurrences a items ≤ length items
unfolding occurrences
occurrences-le-length a [] = omega arith
occurrences-le-length a (x ∷ items) = ground (arith, occurrences-le-length a items)

length-values {ℓ κ} : {K : Type ℓ} {V : Type κ} (d : Dict K V) → length (values d) ≡ length d
length-values [] = omega arith
length-values (entry ∷ d) = omega (arith, length-values d)

few_none :
    (items : List Request) (f : ℕ)
    → length items ≤ f
    → check_if_more_than_f_same_items items f ≡ none
few_none items f h = elim (Option-cases (check_if_more_than_f_same_items items f)) [
  | inl e ↦ e
  | inr (a, e) ↦ absurd (
      omega (arith, check_if_more_than_f_same_items_sound items f e, occurrences-le-length a items))
]

-- A request that was neither forwarded nor finalised is let through by `canForward` with `f + 1`
-- required votes only if one and the same request arrived in at least `f + 2` PROPAGATEs.
pub can_forward_votes :
    (req : Request) (f : ℕ) (requests after : Requests) (state : ReqState)
    → Dict.get (request_key req) requests ≡ some state
    → state.finalised ≡ none
    → can_forward req (f + 1) requests ≡ some (after, none)
    → (same : Request) × (f + 2 ≤ occurrences same (values state.propagates))
unfolding can_forward update_finalised
can_forward_votes req f requests after state found fresh h =
    elim (Option-cases (check_if_more_than_f_same_items (values state.propagates) (f + 1))) [
      | inl e ↦ absurd (ground arith)
      | inr (a, e) ↦ (
        a,
        omega (arith, check_if_more_than_f_same_items_sound (values state.propagates) (f + 1) e),
      )
    ]

-- With no more than `f + 1` PROPAGATEs the request is not finalised, and `canForward` refuses it.
can_forward_few :
    (req : Request) (f : ℕ) (requests : Requests) (state : ReqState)
    → Dict.get (request_key req) requests ≡ some state
    → state.forwarded ≡ false
    → state.finalised ≡ none
    → length state.propagates ≤ f + 1
    → (after : Requests) × (can_forward req (f + 1) requests ≡ some (after, some not_finalised))
unfolding can_forward update_finalised
can_forward_few req f requests state found unsent fresh few =
    let e =
      few_none (values state.propagates) (f + 1) (omega (arith, length-values state.propagates)) in
    (Dict.set (request_key req) (update_finalised state (f + 1)) requests, ground arith)
