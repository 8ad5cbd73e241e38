-- ===== src/Raft/Node/Steps.antt =====
-- The critical sections of server/raft/raft_node.cc as steps of one node: what the handlers, the
-- fibers and the clients do to a node, in any order.
pub mod Hard
pub mod Blocks
pub mod Elections
pub mod Followers
pub mod Votes
use maxredis.Base.{ℕ, ◌+◌, ◌<◌, Bool, List, u64_mod}
use maxredis.Raft.Types.{
  Term, NodeId, LogEntry, ClusterConfig, VoteRequest, VoteResponse, HeartbeatRequest,
  HeartbeatResponse, AppendEntriesRequest, InstallSnapshotRequest, ReadIndexRequest,
  ReadIndexResponse, TimeoutNowRequest, TimeoutNowResponse,
}
use maxredis.Raft.LogStorage.{LogStorage}
use maxredis.Raft.StateMachine.{StateMachine}
use maxredis.Raft.Node.{Node, current_term, cancel_transfer}
use maxredis.Raft.Node.Election.{
  on_election_timeout, on_request_vote, election_begin, election_end, bootstrap_single_node,
}
use maxredis.Raft.Node.Apply.{apply_committed_logs}
use maxredis.Raft.Node.Commit.{
  advance_commit_index_public, begin_config_change, replay_unapplied_logs,
}
use maxredis.Raft.Node.Follower.{
  on_heartbeat, on_append_entries, on_install_snapshot, on_timeout_now,
}
use maxredis.Raft.Node.Leader.{heartbeat_end}
use maxredis.Raft.Node.Leader.Reads.{read_index_begin, read_index_end}
use maxredis.Raft.Node.Leader.Transfer.{transfer_begin, transfer_end, timeout_now_end}
use maxredis.Raft.Node.Replicate.{
  PeerReq, Outcome, submit_append, capture, replicate_alone, replicate_end,
}

-- The term counter is a 64-bit word; a step that counts it up is taken below its end.
abbrev pub HasNextTerm : {L S : Type 0} → Node L S → Type 0
HasNextTerm n = current_term n + 1 < u64_mod

module _ {L S : Type 0} (st : LogStorage L) (sm : StateMachine S) where
  pub data Step (n : Node L S) : Node L S → Type 0 where
    vote : (req : VoteRequest) → Step n (on_request_vote st n req).0
    heartbeat : (now : ℕ) (req : HeartbeatRequest) → Step n (on_heartbeat st sm now n req).0
    append : (now : ℕ) (req : AppendEntriesRequest) → Step n (on_append_entries st sm now n req).0
    snapshot : (req : InstallSnapshotRequest) → Step n (on_install_snapshot st sm n req).0
    timeout_now : (req : TimeoutNowRequest) → Step n (on_timeout_now n req).0
    timeout : HasNextTerm n → Step n (on_election_timeout n)
    campaign : HasNextTerm n → Step n (election_begin st n).0
    elect :
        (now : ℕ) (req : VoteRequest) (answers : List (NodeId × VoteResponse))
        → Step n (election_end st now req answers n).0
    bootstrap : (now : ℕ) → HasNextTerm n → Step n (bootstrap_single_node st now n).0
    tick :
        (is_loop : Bool) (epoch now : ℕ) (req : HeartbeatRequest)
        (answers : List (NodeId × HeartbeatResponse))
        → Step n (heartbeat_end st is_loop epoch now req answers n).node
    read : (now : ℕ) → Step n (read_index_begin now n).0
    read_done :
        (now : ℕ) (req : ReadIndexRequest) (answers : List ReadIndexResponse)
        → Step n (read_index_end now req answers n).0
    transfer : (now : ℕ) (target : NodeId) → Step n (transfer_begin now target n).0
    transferred : (target : NodeId) → Step n (transfer_end st target n).0
    timeout_answered : (rsp : TimeoutNowResponse) → Step n (timeout_now_end rsp n)
    cancelled : Step n (cancel_transfer n)
    submit : (e : LogEntry) → Step n (submit_append st e n).0
    replicate_captured : (l : L) → Step n (capture st l n).0
    replicated :
        (now : ℕ) (term : Term) (reqs : List PeerReq) (outcomes : List Outcome)
        → Step n (replicate_end st sm now term reqs outcomes n).0.node
    replicated_alone : (now : ℕ) → Step n (replicate_alone st sm now n).node
    advanced : Step n (advance_commit_index_public st n)
    applied : (now : ℕ) → Step n (apply_committed_logs st sm now n).node
    replayed : (now : ℕ) → Step n (replay_unapplied_logs st sm now n).node
    configured : (target : ClusterConfig) → Step n (begin_config_change st target n).0

  -- Any number of steps.
  pub data Steps (n : Node L S) : Node L S → Type 0 where
    here : Steps n n
    then : {m k : Node L S} → Steps n m → Step m k → Steps n k
