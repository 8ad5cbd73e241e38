-- ===== src/Raft/NodeSet/Members.antt =====
-- Membership in a set of node ids, by which the theorems count voters.
use maxredis.Base.{◌≡◌, refl, Bool, true, false, [], ◌∷◌, arith, bytes_eq, if◌then◌else◌}
use maxredis.Raft.Types.{NodeId, NodeSet}
use maxredis.Raft.NodeSet.{contains}

-- The id is one of the set.
abbrev pub is_member : NodeId → NodeSet → Bool
is_member id [] = false
is_member id (v ∷ vs) = if bytes_eq v id then true else is_member id vs

pub contains-is_member : (id : NodeId) (set : NodeSet) → contains id set ≡ is_member id set
unfolding contains
contains-is_member id [] = refl
contains-is_member id (v ∷ vs) = ground (arith, contains-is_member id vs)
