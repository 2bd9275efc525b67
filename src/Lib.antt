-- ===== src/Lib.antt =====
-- A model of the consensus core of plenum, an implementation of Redundant Byzantine Fault
-- Tolerance (RBFT), with its theorems.
--
-- A node of a pool collects the PROPAGATEs of a client request until enough nodes sent the same one,
-- and then forwards the request's key to its replicas, one for each protocol instance. The primary
-- replica of an instance makes batches of requests and sends them as PRE-PREPAREs; the others answer
-- with PREPAREs and COMMITs, and every replica orders a batch on a quorum of COMMITs. Checkpoints
-- move the water marks between which sequence numbers may stand.
--
-- * Quorum (plenum/common/util.py): the number of faulty nodes, the quorums, and the search for an
--   item that occurs more than f times. Quorum/Overlap and Quorum/Majority hold the theorems.
-- * Messages (plenum/common/types.py, plenum/common/request.py): messages and requests as records.
--   A name, a digest and a root hash are texts, a time is a natural number.
-- * Votes (plenum/server/models.py): `TrackedMsgs`, over a record of what its subclasses define.
--   Votes/Laws compares a history of votes with the set of those who voted.
-- * Propagator (plenum/server/propagator.py): the requests of a node and their forwarding. What the
--   node sends is a log in the state; a missing key is `none`. Propagator/Finality is about the votes
--   that a request needs, Propagator/Forwarding about the queues to the replicas.
-- * Replica (plenum/server/replica.py): the state record, with the fields of the node that a replica
--   reads, and a monad of methods that change it and return or raise. What a method did before it
--   raised stays done, as in the program. The methods stand in the files below it: Status (primaries,
--   water marks, sequence numbers, sending), Batch (validation and creation of batches), Stash
--   (waiting messages, garbage collection), Checkpoints, Order, Commits, Prepares, PrePrepares,
--   Dispatch (entry points), History (the initial state and the calls that reach a replica, as a
--   step relation).
--   Replica/Rules has the rules that carry an invariant through a method, Replica/Returning those for
--   what a method returns, Replica/Consistency the invariant of a replica and its proof for every
--   method, Replica/Behaviour what single methods do.
--
-- * Ledger (plenum/common/ledger.py): a ledger with transactions that are applied to its Merkle tree
--   and not committed. Ledger/Tracking has the theorems, Ledger/Sample a ledger for tests.
-- * Catchup (plenum/common/ledger_manager.py, plenum/common/ledger_info.py): how a node brings its
--   ledgers up to those of the others. It collects consistency proofs (Proofs), starts a catch-up by
--   asking each connected node for a range (Ranges, Manager), verifies the replies and adds them to
--   the ledger (Replies), and serves the others (Serving); Statuses has the handler of ledger
--   statuses and the checks after a timeout, State what they share. Coverage is about the ranges,
--   Start about what a start sends, Grouping, Latest and Backing about the choice of a proof,
--   Merging and Applying about replies.
-- * ActionQueue (plenum/server/has_action_queue.py): actions that wait for their time. The clock is in
--   ticks and an argument of each call; the loop that runs actions is on fuel, since an action may
--   schedule another to run at once. ActionQueue/Due is about the time of the next check.
-- * Schema (plenum/common/messages/message_base.py): the construction of a message from the values of
--   its fields and their validation; Schema/Fields (plenum/common/messages/fields.py) has the
--   validators of values, Schema/Pairs dictionaries built from pairs, and Schema/Construction what a
--   construction gives. The alphabet of base58 is a parameter.
-- * Election (plenum/server/primary_elector.py, plenum/server/primary_decider.py): how a node elects a
--   primary for each instance. Nominating, Deciding and Handlers are the steps of an election, Sending
--   what they share, Views the start of a view and the messages for nodes that lag behind. The world
--   is the clock, the random choices and what the node does when a primary is found. Agreement and
--   Safety are about PRIMARY messages; Candidates, Verdicts, Sent and Decisions about what an elector
--   declares.
-- * Node (plenum/server/node.py): the messages that a node routes to its replicas and its elector, or
--   keeps for later instances and views; Node/ViewChange has the view changes. Queues, Placing,
--   Dispatching and Delivery are about where messages go, Keeping, Advancing, Events and Moving
--   about when the view moves. The rest of the node is not modelled. The loops over kept messages are on fuel,
--   as many as wait and one more: `processStashedMsgsForView` and `adjustReplicas` take it so.
-- * Throttler (plenum/common/throttler.py): the rate of actions; Throttler/Spacing bounds it.
-- * Batched (plenum/common/batched.py): outgoing messages in boxes and their flush, without signing
--   and serialization; Batched/Delivery compares what is delivered with what was sent.
-- * Common/Program is the monad of these methods, and Common/Program/Safety its rules for what a
--   method returns and for its not running out of fuel.
--
-- A dictionary is an association list in the order of insertion; the sorted dictionaries insert by
-- the sequence number. A set is a list without repetition. A numeric field is a natural number: the
-- program never subtracts below zero in them, but for `forwardedTo`, which is an integer.
--
-- The ledger package with its trees and their verifier, and what the owner of a ledger manager does,
-- its callbacks included, are the parameters `Base` and `Api`. A callback may change the manager in
-- any way. Messages that are sent and actions that are scheduled are logs in the state; the numbers
-- of ledger messages are natural numbers, which their validation demands or their senders keep. The
-- keys of the transactions in a received reply are texts, and `int` and `str` of Python parameters; a
-- number below zero stands as zero once the reply is accepted, since both are dropped at once. Not
-- followed is what `checkIfTxnsNeeded` does where more replies are held than numbers are left, which
-- makes its batch size negative.
--
-- The ledgers and states of the node, request validation and the hash function are the parameter
-- `NodeApi` over a world: none of them is modelled. Logging is left out, and so is the inbox of a
-- replica; `stashed_commits_due` stands for the call of its repeating action. The outbox
-- is not emptied, so that it holds all that was ever sent.
--
-- `dispatchThreePhaseMsg` and the checkpoints call each other: the files before Dispatch take the
-- nested call as the argument `again`, and Dispatch closes the circle on fuel for the depth. The
-- `while` loops are on fuel for their rounds. A run that needs more ends with the outcome
-- `out_of_fuel`, which is no exception of the program. Each round takes a message from a queue, and
-- each nested call takes one from the stash for new water marks, so the fuel to choose is above the
-- number of messages that wait. The invariant of a replica is stated for any fuel; no theorem says
-- yet which fuel suffices. The digits of an instance number are on fuel that Status shows to suffice.
pub mod Common
pub mod Quorum
pub mod Messages
pub mod Votes
pub mod Propagator
pub mod Replica
pub mod Ledger
pub mod Catchup
pub mod ActionQueue
pub mod Throttler
pub mod Batched
pub mod Schema
pub mod Election
pub mod Node
