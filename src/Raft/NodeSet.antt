-- ===== src/Raft/NodeSet.antt =====
-- The operations of `std::unordered_set<NodeId>` that the program uses, on a list without repeats.
pub mod Members
use maxredis.Base.{Bool, false, ◌||◌, [], ◌∷◌, bytes_eq, if◌then◌else◌}
use maxredis.Raft.Types.{NodeId, NodeSet}

-- `std::unordered_set::count(id) > 0`, `insert` and `erase`
unfoldable pub contains : NodeId → NodeSet → Bool
contains id [] = false
contains id (v ∷ vs) = bytes_eq v id || contains id vs

unfoldable pub insert : NodeId → NodeSet → NodeSet
unfolding contains
insert id vs = if contains id vs then vs else id ∷ vs

unfoldable pub erase : NodeId → NodeSet → NodeSet
erase id [] = []
erase id (v ∷ vs) = let rest = erase id vs in if bytes_eq v id then rest else v ∷ rest
