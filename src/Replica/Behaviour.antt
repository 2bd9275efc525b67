-- ===== src/Replica/Behaviour.antt =====
-- What single methods of a replica do, on all their branches: votes and quorums, admission,
-- the acceptance of PREPAREs, and the reversal of batches that are rejected.
pub mod Voting
pub mod Acceptance
pub mod Reversal
pub mod Batching
pub mod Admission
pub mod Collection
mod Tests
use plenum.Common.{Bool, true, false}
use plenum.Replica.{
  Exn, suspicious_node, request_error, key_error, index_error, attribute_error, assertion_error,
  runtime_error, out_of_fuel, Result, ok, raised,
}

-- The outcome is a `SuspiciousNode` exception.
unfoldable pub is_suspicion : {A : Type 0} → Result A → Bool
is_suspicion (ok a) = false
is_suspicion (raised (suspicious_node n c m)) = true
is_suspicion (raised (request_error t)) = false
is_suspicion (raised key_error) = false
is_suspicion (raised index_error) = false
is_suspicion (raised attribute_error) = false
is_suspicion (raised assertion_error) = false
is_suspicion (raised runtime_error) = false
is_suspicion (raised out_of_fuel) = false
