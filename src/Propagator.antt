-- ===== src/Propagator.antt =====
-- plenum/server/propagator.py: `ReqState`, `Requests` and `Propagator`. `Requests` is a dictionary
-- from request keys to states; the propagator's state is that of the node's fields that it uses.
-- `none` stands for the KeyError of `self[req.key]`.
pub mod Finality
pub mod Forwarding
mod Tests
use plenum.Common.{
  ℕ, ◌+◌, ◌≡◌, ◌↔◌, Bool, true, false, not, ◌&&◌, String, List, [], ◌∷◌, ◌++◌, map, Option, none,
  some, arith, length, Eq, ◌==◌, if◌then◌else◌, nat_eq, string_eq, pair_eq, option_eq,
}
use plenum.Common.Int.{ℤ, pos}
use plenum.Common.Dict
use plenum.Common.Dict.{Dict, get_or, is_some, values}
use plenum.Messages.{ReqKey, Request, request_key, Propagate}
use plenum.Quorum.{check_if_more_than_f_same_items}

abbrev pub request_beq : Request → Request → Bool
request_beq a b =
    a.identifier == b.identifier
    && a.req_id == b.req_id
    && a.operation == b.operation
    && a.digest == b.digest
    && a.signature == b.signature

pub request_beq_iff : (a b : Request) → (request_beq a b ≡ true) ↔ (a ≡ b)
request_beq_iff a b = ground (
  arith,
  string_eq.decides a.identifier b.identifier,
  nat_eq.decides a.req_id b.req_id,
  string_eq.decides a.operation b.operation,
  string_eq.decides a.digest b.digest,
  (option_eq {A = String}).decides a.signature b.signature,
)

-- Two requests are the same if all their fields are, as their `__getstate__` texts are.
instance abbrev pub request_eq : Eq Request
request_eq = record { same = request_beq; decides = request_beq_iff }

pub record ReqState : Type 0 where
  pub request : Request
  pub forwarded : Bool
  pub forwarded_to : ℤ
  pub propagates : Dict String Request
  pub finalised : Option Request

abbrev pub req_state : Request → ReqState
req_state req = record {
  request = req;
  forwarded = false;
  forwarded_to = pos 0;
  propagates = [];
  finalised = none;
}

-- `ReqState.isFinalised`: the state after the call; its result is the field `finalised`.
unfoldable pub update_finalised : ReqState → ℕ → ReqState
update_finalised state f = elim state.finalised [
  | none ↦ record state { finalised = check_if_more_than_f_same_items (values state.propagates) f }
  | some req ↦ state
]

abbrev pub Requests : Type 0
Requests = Dict ReqKey ReqState

-- `Requests.add`
unfoldable pub add_request : Request → Requests → Requests
add_request req requests =
    if Dict.has_key (request_key req) requests
    then requests
    else Dict.set (request_key req) (req_state req) requests

unfoldable pub is_forwarded : Request → Requests → Option Bool
is_forwarded req requests = elim (Dict.get (request_key req) requests) [
  | none ↦ none
  | some state ↦ some state.forwarded
]

unfoldable pub flag_as_forwarded : Request → ℕ → Requests → Option Requests
flag_as_forwarded req to requests = elim (Dict.get (request_key req) requests) [
  | none ↦ none
  | some state ↦ some (
      Dict.set (request_key req) (record state { forwarded = true; forwarded_to = pos to })
        requests)
]

unfoldable pub add_propagate : Request → String → Requests → Requests
unfolding add_request
add_propagate req sender requests =
    let state = get_or (Dict.get (request_key req) (add_request req requests)) (req_state req) in
    Dict.set (request_key req) (record state { propagates = Dict.set sender req state.propagates })
      (add_request req requests)

-- `Requests.votes`: a missing key has no votes.
unfoldable pub votes : Request → Requests → ℕ
votes req requests = elim (Dict.get (request_key req) requests) [
  | none ↦ 0
  | some state ↦ length state.propagates
]

pub data Refusal : Type 0 where
  already_forwarded not_finalised : Refusal

-- `Requests.canForward`: the requests after the call, which may finalise the request, and the
-- refusal, if there is one.
unfoldable pub can_forward : Request → ℕ → Requests → Option (Requests × Option Refusal)
unfolding update_finalised
can_forward req required_votes requests = elim (Dict.get (request_key req) requests) [
  | none ↦ none
  | some state ↦
      let state' = update_finalised state required_votes in
      if state.forwarded
      then some (requests, some already_forwarded)
      else some (
        Dict.set (request_key req) state' requests,
        (if is_some state'.finalised then none else some not_finalised),
      )
]

unfoldable pub has_propagated : Request → String → Requests → Bool
has_propagated req sender requests = elim (Dict.get (request_key req) requests) [
  | none ↦ false
  | some state ↦ Dict.has_key sender state.propagates
]

unfoldable pub is_finalised : ReqKey → Requests → Bool
is_finalised key requests = elim (Dict.get key requests) [
  | none ↦ false
  | some state ↦ is_some state.finalised
]

unfoldable pub finalised_digest : ReqKey → Requests → Option String
finalised_digest key requests = elim (Dict.get key requests) [
  | none ↦ none
  | some state ↦ elim state.finalised [ none ↦ none | some req ↦ some req.digest ]
]

-- What `Propagator` uses of the node: `msgs_to_replicas` are the queues to its replicas, `sent` the
-- messages broadcast, and `unordered` the calls of `monitor.requestUnOrdered`.
pub record Propagator : Type 0 where
  pub name : String
  pub f : ℕ
  pub is_participating : Bool
  pub requests : Requests
  pub msgs_to_replicas : List (List ReqKey)
  pub sent : List Propagate
  pub unordered : List ReqKey

unfoldable pub create_propagate : Request → String → Propagate
create_propagate request client_name = record { request = request; sender_client = client_name }

unfoldable pub propagate : Request → String → Propagator → Propagator
unfolding create_propagate
propagate request client_name p = if has_propagated request p.name p.requests then p else record p {
  requests = add_propagate request p.name p.requests;
  sent = if p.is_participating then p.sent ++ create_propagate request client_name ∷ [] else p.sent;
}

unfoldable pub forward : Request → Propagator → Option Propagator
forward request p =
    let key = request_key request in
    elim (flag_as_forwarded request (length p.msgs_to_replicas) p.requests) [
      | none ↦ none
      | some requests ↦ some (record p {
        requests = requests;
        msgs_to_replicas = map (λ q. q ++ key ∷ []) p.msgs_to_replicas;
        unordered = p.unordered ++ key ∷ [];
      })
    ]

-- `canForward` with the votes that the propagator asks for.
unfoldable pub try_forwarding : Request → Propagator → Option Propagator
unfolding forward
try_forwarding request p = elim (can_forward request (p.f + 1) p.requests) [
  | none ↦ none
  | some (requests, none) ↦ forward request (record p { requests = requests })
  | some (requests, some refusal) ↦ some (record p { requests = requests })
]

unfoldable pub record_and_propagate : Request → String → Propagator → Option Propagator
unfolding try_forwarding propagate
record_and_propagate request client_name p =
    try_forwarding request
      (propagate request client_name (record p { requests = add_request request p.requests }))
