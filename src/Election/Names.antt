-- ===== src/Election/Names.antt =====
-- `Replica.getNodeName` of plenum/server/replica.py: the text before the first colon.
use Prim.Native.String.{[], ◌∷◌, ◌++◌}
use Prim.Native.String.append
use plenum.Common.{ℕ, ◌≡◌, refl, false, String, ◌==◌, if◌then◌else◌, string_eq}
use plenum.Replica.Status.{generate_name}

unfoldable pub get_node_name : String → String
get_node_name [] = ""
get_node_name (c ∷ s) = if (c ∷ []) == ":" then "" else c ∷ get_node_name s

-- A node name without a colon.
abbrev pub HasNoColon : String → Type 0
HasNoColon [] = Unit
HasNoColon (c ∷ s) = ((c ∷ []) == ":" ≡ false) × HasNoColon s

get_node_name_before :
    (name rest : String) → HasNoColon name → get_node_name (name ++ (":" ++ rest)) ≡ name
unfolding get_node_name
get_node_name_before [] rest h = rw (append.nil (":" ++ rest), append.cons ":" "" rest) refl
get_node_name_before (c ∷ s) rest h =
    rw (append.cons c s (":" ++ rest), h.0, get_node_name_before s rest h.1) refl

-- The name of a node is read back from the names of its replicas.
pub get_node_name-generate_name :
    (name : String) (inst_id : ℕ)
    → HasNoColon name
    → get_node_name (generate_name name inst_id) ≡ name
unfolding generate_name
get_node_name-generate_name name inst_id h = get_node_name_before name _ h
