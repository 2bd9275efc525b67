-- ===== src/Propagator/Forwarding.antt =====
-- A request is put on the queue to a replica at most once.
use plenum.Common.{
  ℕ, ◌+◌, ◌≡◌, refl, sym, ap, ◌∙◌, Bool, true, false, String, List, [], ◌∷◌, ◌++◌, map, Option,
  none, some, arith, ◌==◌, if◌then◌else◌, All, Distinct, contains, Distinct-snoc, All-append,
  All-map, inl, inr, eq_self, Option-cases, Bool-cases, pair_eq, string_eq, nat_eq, eq→path,
  ne→false, length,
}
use plenum.Common.Int.{pos}
use plenum.Common.Dict
use plenum.Common.Dict.{Dict, get_or, is_some}
use plenum.Messages.{ReqKey, Request, request_key}
use plenum.Propagator.{
  ReqState, Requests, Propagator, req_state, update_finalised, add_request, add_propagate,
  can_forward, flag_as_forwarded, propagate, forward, try_forwarding, record_and_propagate,
  has_propagated, Refusal,
}

-- The request is there and was forwarded.
unfoldable pub flag : ReqKey → Requests → Bool
flag k requests = elim (Dict.get k requests) [ none ↦ false | some state ↦ state.forwarded ]

flag-set :
    (j k : ReqKey) (state : ReqState) (d : Requests)
    → flag k (Dict.set j state d) ≡ (if j == k then state.forwarded else flag k d)
unfolding flag
flag-set j k state d = ground (arith, Dict.get-set j k state d)

flag-set_same :
    (j k : ReqKey) (state : ReqState) (d : Requests)
    → flag j d ≡ state.forwarded
    → flag k (Dict.set j state d) ≡ flag k d
flag-set_same j k state d h = elim (Bool-cases (j == k)) [
  | inl same ↦ rw (flag-set j k state d, same) (rw (eq→path j k same) at (sym h))
  | inr other ↦ rw (flag-set j k state d, other)
]

flag-add_request :
    (req : Request) (k : ReqKey) (d : Requests) → flag k (add_request req d) ≡ flag k d
unfolding add_request flag Dict.has_key
flag-add_request req k d = elim (Option-cases (Dict.get (request_key req) d)) [
  | inl absent ↦ ground (arith, flag-set_same (request_key req) k (req_state req) d)
  | inr (state, found) ↦ ground arith
]

flag-get_or :
    (j : ReqKey) (d : Requests) (new : ReqState)
    → new.forwarded ≡ false
    → flag j d ≡ (get_or (Dict.get j d) new).forwarded
unfolding flag
flag-get_or j d new h = ground arith

flag-some :
    (j : ReqKey) (d : Requests) {state : ReqState}
    → Dict.get j d ≡ some state
    → flag j d ≡ state.forwarded
unfolding flag
flag-some j d found = ground arith

forwarded-update_finalised :
    (state : ReqState) (f : ℕ) → (update_finalised state f).forwarded ≡ state.forwarded
unfolding update_finalised
forwarded-update_finalised state f = ground arith

flag-add_propagate :
    (req : Request) (sender : String) (k : ReqKey) (d : Requests)
    → flag k (add_propagate req sender d) ≡ flag k d
unfolding add_propagate
flag-add_propagate req sender k d =
    let after = add_request req d in
    let state = get_or (Dict.get (request_key req) after) (req_state req) in
    flag-set_same (request_key req) k
      (record state { propagates = Dict.set sender req state.propagates }) after
      (flag-get_or (request_key req) after (req_state req) refl)
    ∙ flag-add_request req k d

flag-can_forward :
    (req : Request) (votes : ℕ) (d after : Requests) (refusal : Option Refusal) (k : ReqKey)
    → can_forward req votes d ≡ some (after, refusal)
    → flag k after ≡ flag k d
unfolding can_forward
flag-can_forward req votes d after refusal k h =
    elim (Option-cases (Dict.get (request_key req) d)) [
      | inl absent ↦ absurd (ground arith)
      | inr (state, found) ↦ ground (
        arith,
        flag-set_same (request_key req) k (update_finalised state votes) d,
        forwarded-update_finalised state votes,
        flag-some (request_key req) d found,
      )
    ]

-- A request that is let through was not forwarded before.
fresh-can_forward :
    (req : Request) (votes : ℕ) (d after : Requests)
    → can_forward req votes d ≡ some (after, none)
    → flag (request_key req) d ≡ false
unfolding can_forward flag
fresh-can_forward req votes d after h = ground arith

-- No queue holds a key twice, and all that the queues hold is flagged as forwarded.
abbrev pub IsForwardedOnce : Requests → List (List ReqKey) → Type 0
IsForwardedOnce requests queues = All (λ q. Distinct q × All (λ k. flag k requests ≡ true) q) queues

IsForwardedOnce-flags :
    (d after : Requests) (queues : List (List ReqKey))
    → ((k : ReqKey) → flag k d ≡ true → flag k after ≡ true)
    → IsForwardedOnce d queues
    → IsForwardedOnce after queues
IsForwardedOnce-flags d after queues same h =
    All-map (λ q (distinct, flagged). (distinct, All-map (λ k e. same k e) q flagged)) queues h

-- A key that is not flagged is in none of the queues.
absent_of_flag :
    (d : Requests) (j : ReqKey) (q : List ReqKey)
    → All (λ k. flag k d ≡ true) q
    → flag j d ≡ false
    → contains q j ≡ false
absent_of_flag d j [] h n = refl
absent_of_flag d j (k ∷ q) h n =
    rw (ne→false k j (λ p. cc (ap (λ i. flag i d) p, h.0, n))) (absent_of_flag d j q h.1 n)

IsForwardedOnce-append :
    (d after : Requests) (j : ReqKey) (queues : List (List ReqKey))
    → flag j d ≡ false
    → flag j after ≡ true
    → ((k : ReqKey) → flag k d ≡ true → flag k after ≡ true)
    → IsForwardedOnce d queues
    → IsForwardedOnce after (map (λ q. q ++ j ∷ []) queues)
IsForwardedOnce-append d after j [] n y keep h = tt
IsForwardedOnce-append d after j (q ∷ queues) n y keep h = (
  (
    Distinct-snoc q j h.0.0 (absent_of_flag d j q h.0.1 n),
    All-append (λ k. flag k after ≡ true) q (j ∷ []) (All-map (λ k e. keep k e) q h.0.1) (y, tt),
  ),
  IsForwardedOnce-append d after j queues n y keep h.1,
)

abbrev pub IsOnce : Propagator → Type 0
IsOnce p = IsForwardedOnce p.requests p.msgs_to_replicas

forward-IsOnce :
    (req : Request) (p q : Propagator)
    → flag (request_key req) p.requests ≡ false
    → forward req p ≡ some q
    → IsOnce p
    → IsOnce q
unfolding forward flag_as_forwarded
forward-IsOnce req p q n e h = elim (Option-cases (Dict.get (request_key req) p.requests)) [
  | inl absent ↦ absurd (ground arith)
  | inr (state, found) ↦
      let count = length p.msgs_to_replicas in
      let sent = record state { forwarded = true; forwarded_to = pos count } in
      let after = Dict.set (request_key req) sent p.requests in
      let once =
        IsForwardedOnce-append p.requests after (request_key req) p.msgs_to_replicas n
          (ground (
            arith,
            flag-set (request_key req) (request_key req) sent p.requests,
            eq_self (request_key req),
          ))
          (λ k y. ground (arith, flag-set (request_key req) k sent p.requests)) h in
      let same : q ≡ record p {
        requests = after;
        msgs_to_replicas = map (λ l. l ++ request_key req ∷ []) p.msgs_to_replicas;
        unordered = p.unordered ++ request_key req ∷ [];
      } =
        ground arith in
      rw same once
]

try_forwarding-IsOnce :
    (req : Request) (p q : Propagator) → try_forwarding req p ≡ some q → IsOnce p → IsOnce q
unfolding try_forwarding
try_forwarding-IsOnce req p q e h = elim (Option-cases (can_forward req (p.f + 1) p.requests)) [
  | inl missing ↦ absurd (ground arith)
  | inr ((after, none), found) ↦
      forward-IsOnce req (record p { requests = after }) q
        (flag-can_forward req (p.f + 1) p.requests after none (request_key req) found
          ∙ fresh-can_forward req (p.f + 1) p.requests after found)
        (rw (found, try_forwarding) at e) (settled after none found)
  | inr ((after, some refusal), found) ↦
      let same : q ≡ record p { requests = after } = ground arith in
      rw same (settled after (some refusal) found)
]
  where
    settled :
        (after : Requests) (refusal : Option Refusal)
        → can_forward req (p.f + 1) p.requests ≡ some (after, refusal)
        → IsForwardedOnce after p.msgs_to_replicas
    settled after refusal found =
        IsForwardedOnce-flags p.requests after p.msgs_to_replicas
          (λ k y. flag-can_forward req (p.f + 1) p.requests after refusal k found ∙ y) h

propagate-IsOnce :
    (req : Request) (client : String) (p : Propagator) → IsOnce p → IsOnce (propagate req client p)
unfolding propagate
propagate-IsOnce req client p h = elim (Bool-cases (has_propagated req p.name p.requests)) [
  | inl old ↦ rw old h
  | inr new ↦ rw new (
      IsForwardedOnce-flags p.requests (add_propagate req p.name p.requests) p.msgs_to_replicas
        (λ k y. flag-add_propagate req p.name k p.requests ∙ y) h)
]

-- Recording, propagating and forwarding a request keeps it so that no queue to a replica holds a
-- request key twice and that all keys in the queues belong to requests flagged as forwarded.
pub record_and_propagate-IsOnce :
    (req : Request) (client : String) (p q : Propagator)
    → record_and_propagate req client p ≡ some q
    → IsOnce p
    → IsOnce q
unfolding record_and_propagate
record_and_propagate-IsOnce req client p q e h =
    let added = record p { requests = add_request req p.requests } in
    try_forwarding-IsOnce req (propagate req client added) q e (
      propagate-IsOnce req client added (
        IsForwardedOnce-flags p.requests added.requests p.msgs_to_replicas
          (λ k y. flag-add_request req k p.requests ∙ y) h))

present-add_request :
    (req : Request) (d : Requests) → Dict.has_key (request_key req) (add_request req d) ≡ true
unfolding add_request Dict.has_key
present-add_request req d = ground (
  arith,
  Dict.get-set (request_key req) (request_key req) (req_state req) d,
  eq_self (request_key req),
)

present-propagate :
    (req : Request) (client : String) (p : Propagator)
    → Dict.has_key (request_key req) p.requests ≡ true
    → Dict.has_key (request_key req) (propagate req client p).requests ≡ true
unfolding propagate add_propagate Dict.has_key
present-propagate req client p h =
    let after = add_request req p.requests in
    let state = get_or (Dict.get (request_key req) after) (req_state req) in
    ground (
      arith,
      Dict.get-set (request_key req) (request_key req)
          (record state { propagates = Dict.set p.name req state.propagates }) after,
      eq_self (request_key req),
    )

try_forwarding-IsSome :
    (req : Request) (p : Propagator)
    → Dict.has_key (request_key req) p.requests ≡ true
    → is_some (try_forwarding req p) ≡ true
unfolding try_forwarding forward flag_as_forwarded can_forward Dict.has_key
try_forwarding-IsSome req p h = elim (Option-cases (Dict.get (request_key req) p.requests)) [
  | inl absent ↦ absurd (ground arith)
  | inr (state, found) ↦ ground (
    arith,
    Dict.get-set (request_key req) (request_key req) (update_finalised state (p.f + 1)) p.requests,
    eq_self (request_key req),
  )
]

-- Recording a request never fails on a missing key, whatever the propagator's state.
pub record_and_propagate-total :
    (req : Request) (client : String) (p : Propagator)
    → (q : Propagator) × (record_and_propagate req client p ≡ some q)
unfolding record_and_propagate
record_and_propagate-total req client p =
    let added = record p { requests = add_request req p.requests } in
    some_value (try_forwarding req (propagate req client added)) (
      try_forwarding-IsSome req (propagate req client added)
        (present-propagate req client added (present-add_request req p.requests)))
  where
    some_value : (o : Option Propagator) → is_some o ≡ true → (q : Propagator) × (o ≡ some q)
    some_value o h = ground arith
