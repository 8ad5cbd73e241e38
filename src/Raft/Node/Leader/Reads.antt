-- ===== src/Raft/Node/Leader/Reads.antt =====
-- ReadIndex and WaitForApplied of server/raft/raft_node.cc, by critical sections; the answers of the
-- peers are an argument.
use maxredis.Base.{
  ℕ, ◌+◌, max, Bool, ◌&&◌, ◌||◌, not, List, [], ◌∷◌, length, ltb, leb, ◌==◌, u64, if◌then◌else◌,
}
use maxredis.Raft.Types.{Term, LogIndex, NodeId, is_leader, ReadIndexRequest, ReadIndexResponse}
use maxredis.Raft.LogStorage.{LogStorage}
use maxredis.Raft.StateMachine.{StateMachine}
use maxredis.Raft.Node.{Node, current_term, get_peer_ids, become_follower}
use maxredis.Raft.Node.Election.{majority_of}
use maxredis.Raft.Node.Apply.{Applied, apply_committed_logs}
use maxredis.Raft.Node.Leader.{extend_leader_lease}

pub data ReadStart : Type 0 where
  refused : ReadStart
  leased : LogIndex → ReadStart
  asked : ReadIndexRequest → List NodeId → ReadStart

unfoldable pub read_acks : Term → List ReadIndexResponse → ℕ
read_acks term [] = 1
read_acks term (rsp ∷ rest) =
    let n = read_acks term rest in if rsp.success && (rsp.term == term) then n + 1 else n

unfoldable pub max_read_term : Term → List ReadIndexResponse → Term
max_read_term term [] = term
max_read_term term (rsp ∷ rest) = max rsp.term (max_read_term term rest)

module _ {L S : Type 0} where
  -- The first section of `ReadIndex`: under a lease the commit index is read at once.
  unfoldable pub read_index_begin : ℕ → Node L S → Node L S × ReadStart
  read_index_begin now n =
      let id = u64 (n.next_read_index_request_id + 1) in
      if not (is_leader n.role)
      then (n, refused)
      else if ltb now n.leader_lease_expire
      then (n, leased n.commit_index)
      else (
        record n { next_read_index_request_id = id },
        asked
            (record {
              group_id = n.group_id;
              term = current_term n;
              leader_id = n.node_id;
              request_id = id;
            })
            (get_peer_ids n),
      )

  -- The last section of the slow path of `ReadIndex`; 0 is a refusal.
  unfoldable pub read_index_end :
      ℕ → ReadIndexRequest → List ReadIndexResponse → Node L S → Node L S × LogIndex
  read_index_end now req answers n =
      let peer_term = max_read_term req.term answers in
      if ltb (current_term n) peer_term
      then (become_follower peer_term n, 0)
      else if not (is_leader n.role) || not (current_term n == req.term)
      then (n, 0)
      else if ltb (read_acks req.term answers) (majority_of (length n.cluster_config.voters))
      then (n, 0)
      else (extend_leader_lease now (record n { last_majority_ack_ms = now }), n.commit_index)

module _ {L S : Type 0} (st : LogStorage L) (sm : StateMachine S) where
  -- One turn of `WaitForApplied`; true ends the wait.
  unfoldable pub wait_turn : ℕ → LogIndex → Node L S → Applied L S × Bool
  wait_turn now target n =
      let a = apply_committed_logs st sm now n in (a, leb target a.node.last_applied)
