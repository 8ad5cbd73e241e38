-- ===== src/Raft/Types.antt =====
-- server/raft/raft_types.h and the request and response structs of the RPC headers
-- (vote_rpc.h, append_entries_rpc.h, heartbeat_rpc.h, install_snapshot_rpc.h, read_index_rpc.h,
-- timeout_now_rpc.h). A `std::unordered_set<NodeId>` is a list; its order stands for the
-- unspecified order of iteration.
use maxredis.Base.{ℕ, Bool, true, false, List, [], Bytes}

abbrev pub Term : Type 0
Term = ℕ

abbrev pub LogIndex : Type 0
LogIndex = ℕ

abbrev pub NodeId : Type 0
NodeId = Bytes

abbrev pub NodeSet : Type 0
NodeSet = List NodeId

pub data RaftRole : Type 0 where
  follower candidate leader : RaftRole

abbrev pub is_leader : RaftRole → Bool
is_leader leader = true
is_leader _ = false

abbrev pub is_candidate : RaftRole → Bool
is_candidate candidate = true
is_candidate _ = false

abbrev pub is_follower : RaftRole → Bool
is_follower follower = true
is_follower _ = false

pub record LogEntry : Type 0 where
  pub term : Term
  pub index : LogIndex
  pub command : Bytes

-- `LogEntry()`
abbrev pub default_entry : LogEntry
default_entry = record { term = 0; index = 0; command = [] }

pub record ClusterConfig : Type 0 where
  pub version : ℕ
  pub voters : NodeSet
  pub learners : NodeSet

abbrev pub empty_config : ClusterConfig
empty_config = record { version = 0; voters = []; learners = [] }

pub data ConfigState : Type 0 where
  stable joint : ConfigState

abbrev pub is_joint : ConfigState → Bool
is_joint joint = true
is_joint stable = false

pub record JointConfig : Type 0 where
  pub old_config : ClusterConfig
  pub new_config : ClusterConfig

abbrev pub empty_joint : JointConfig
empty_joint = record { old_config = empty_config; new_config = empty_config }

pub record ElectionResult : Type 0 where
  pub votes_received : ℕ
  pub votes_rejected : ℕ

pub data TransferState : Type 0 where
  no_transfer requested waiting_catch_up waiting_election : TransferState

abbrev pub state_is_active : TransferState → Bool
state_is_active no_transfer = false
state_is_active _ = true

pub record LeaderTransferContext : Type 0 where
  pub target : NodeId
  pub state : TransferState
  pub start_ms : ℕ

abbrev pub is_active : LeaderTransferContext → Bool
is_active c = state_is_active c.state

-- `LeaderTransferContext::Reset`, and a fresh context
abbrev pub reset_context : LeaderTransferContext
reset_context = record { target = []; state = no_transfer; start_ms = 0 }

pub record SnapshotAnchor : Type 0 where
  pub index : LogIndex
  pub term : Term

pub data ApplyOp : Type 0 where
  ok not_found error : ApplyOp

pub record ApplyResult : Type 0 where
  pub op : ApplyOp
  pub affected_rows : ℕ

-- The RPC messages.
pub record VoteRequest : Type 0 where
  pub group_id : ℕ
  pub term : Term
  pub candidate_id : NodeId
  pub last_log_index : LogIndex
  pub last_log_term : Term

pub record VoteResponse : Type 0 where
  pub group_id : ℕ
  pub term : Term
  pub vote_granted : Bool

pub record AppendEntriesRequest : Type 0 where
  pub group_id : ℕ
  pub term : Term
  pub leader_id : NodeId
  pub prev_log_index : LogIndex
  pub prev_log_term : Term
  pub entries : List LogEntry
  pub leader_commit : LogIndex

pub record AppendEntriesResponse : Type 0 where
  pub group_id : ℕ
  pub term : Term
  pub success : Bool
  pub last_log_index : LogIndex

pub record HeartbeatRequest : Type 0 where
  pub group_id : ℕ
  pub term : Term
  pub leader_id : NodeId
  pub leader_commit : LogIndex

pub record HeartbeatResponse : Type 0 where
  pub group_id : ℕ
  pub term : Term
  pub success : Bool
  pub last_log_index : LogIndex

pub record InstallSnapshotRequest : Type 0 where
  pub group_id : ℕ
  pub term : Term
  pub leader_id : NodeId
  pub last_included_index : LogIndex
  pub last_included_term : Term
  pub offset : ℕ
  pub done : Bool
  pub chunk : Bytes  -- `data`

pub record InstallSnapshotResponse : Type 0 where
  pub group_id : ℕ
  pub term : Term
  pub success : Bool

pub record ReadIndexRequest : Type 0 where
  pub group_id : ℕ
  pub term : Term
  pub leader_id : NodeId
  pub request_id : ℕ

pub record ReadIndexResponse : Type 0 where
  pub group_id : ℕ
  pub term : Term
  pub success : Bool
  pub commit_index : LogIndex

pub record TimeoutNowRequest : Type 0 where
  pub group_id : ℕ
  pub term : Term
  pub leader_id : NodeId

pub record TimeoutNowResponse : Type 0 where
  pub group_id : ℕ
  pub term : Term
  pub accepted : Bool
