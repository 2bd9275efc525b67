-- ===== src/Propagator/Tests.antt =====
-- A request through a node of a pool with f = 1, and the theorems at that node.
use plenum.Common.{◌+◌, ◌≤◌, ◌≡◌, refl, true, [], ◌∷◌, none, some, string_eq, nat_eq, pair_eq}
use plenum.Common.Int.{pos}
use mathlib.Core.Option
use plenum.Common.Dict
use plenum.Common.Dict.{values}
use plenum.Messages.{Request, request_key}
use plenum.Quorum.{check_if_more_than_f_same_items}
use plenum.Propagator.{
  flag_as_forwarded, Propagator, ReqState, Requests, req_state, request_eq, add_propagate,
  can_forward, record_and_propagate, propagate, try_forwarding, has_propagated,
}
use plenum.Propagator.Finality.{can_forward_votes}
use plenum.Quorum.Majority.{occurrences}
use plenum.Propagator.Forwarding.{record_and_propagate-IsOnce, record_and_propagate-total, IsOnce}

abbrev req : Request
req = record { identifier = "client"; req_id = 1; operation = "op"; digest = "d"; signature = none }

abbrev heard : Requests
heard =
    (request_key req, record (req_state req) { propagates = ("Beta", req) ∷ ("Gamma", req) ∷ [] })
    ∷ []

abbrev node : Propagator
node = record {
  name = "Alpha";
  f = 1;
  is_participating = true;
  requests = heard;
  msgs_to_replicas = [] ∷ [] ∷ [];
  sent = [];
  unordered = [];
}

program : Unit {0}
unfolding record_and_propagate try_forwarding propagate has_propagated add_propagate can_forward
    check_if_more_than_f_same_items flag_as_forwarded Dict.get Dict.set Dict.has_key
program = tt

-- The own PROPAGATE is the third, so the request goes to both replicas.
forwards :
    Option.map (λ p. p.msgs_to_replicas) (record_and_propagate req "c" node)
    ≡ some ((("client", 1) ∷ []) ∷ (("client", 1) ∷ []) ∷ [])
unfolding program
forwards = refl

-- After one more PROPAGATE of another node the request is finalised by three equal ones.
abbrev state : ReqState
state = record (req_state req) { propagates = ("Beta", req) ∷ ("Gamma", req) ∷ ("Delta", req) ∷ [] }

can_forward_votes_example : (same : Request) × (1 + 2 ≤ occurrences same (values state.propagates))
unfolding program
can_forward_votes_example =
    can_forward_votes req 1 ((request_key req, state) ∷ [])
      ((request_key req, record state { finalised = some req }) ∷ []) state refl refl refl

abbrev forwarded_node : Propagator
forwarded_node = record node {
  requests =
      (
        request_key req,
        record state {
          propagates = ("Beta", req) ∷ ("Gamma", req) ∷ ("Alpha", req) ∷ [];
          forwarded = true;
          forwarded_to = pos 2;
          finalised = some req;
        },
      )
      ∷ [];
  msgs_to_replicas = (request_key req ∷ []) ∷ (request_key req ∷ []) ∷ [];
  sent = record { request = req; sender_client = "c" } ∷ [];
  unordered = request_key req ∷ [];
}

record_and_propagate-IsOnce_example : IsOnce forwarded_node
unfolding program
record_and_propagate-IsOnce_example =
    record_and_propagate-IsOnce req "c" node forwarded_node refl ((tt, tt), ((tt, tt), tt))

record_and_propagate-total_example : (q : Propagator) × (record_and_propagate req "c" node ≡ some q)
record_and_propagate-total_example = record_and_propagate-total req "c" node
