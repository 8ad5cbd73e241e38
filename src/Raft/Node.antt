-- ===== src/Raft/Node.antt =====
-- server/raft/raft_node.{h,cc}: the consensus state that `mutex_` guards, and the role transitions.
-- `L` is the type of the log behind `log_storage_` and `S` that of the state machine behind
-- `state_machine_`; `none` is the null pointer. The children hold the handlers: each function there
-- is one critical section, and what runs between two sections is a schedule of such steps.
pub mod Election
pub mod Apply
pub mod Commit
pub mod Follower
pub mod Leader
pub mod Replicate
pub mod GroupCommit
pub mod Frame
pub mod Steps
use maxredis.Base.{
  ℕ, ◌+◌, Bool, true, false, Option, none, some, List, [], ◌∷◌, length, replicate, bytes_eq, ltb,
  if◌then◌else◌, u64,
}
use maxredis.Raft.Types.{
  Term, LogIndex, NodeId, NodeSet, RaftRole, follower, candidate, leader, is_leader, is_candidate,
  ClusterConfig, ConfigState, is_joint, JointConfig, LeaderTransferContext, is_active,
  reset_context,
}
use maxredis.Raft.NodeSet
use maxredis.Raft.LogStorage.{LogStorage}
use maxredis.Raft.Storage
use maxredis.Raft.Storage.{RaftStorage}
use maxredis.Raft.ElectionTimer
use maxredis.Raft.ElectionTimer.{ElectionTimer}
use maxredis.Raft.ApplyProgress.{ApplyProgress}
use maxredis.Raft.SnapshotReceiver.{SnapshotReceiver}

pub record Node (L S : Type 0) : Type 0 where
  pub group_id : ℕ
  pub node_id : NodeId
  pub storage : RaftStorage
  pub apply_progress : ApplyProgress
  pub role : RaftRole
  pub leader_term : Term
  pub vote_count : ℕ
  pub old_config_votes : ℕ
  pub new_config_votes : ℕ
  pub cluster_config : ClusterConfig
  pub config_state : ConfigState
  pub joint_config : JointConfig
  pub joint_entry_index : LogIndex
  pub joint_finalize_appended : Bool
  pub log : Option L
  pub machine : Option S
  pub receiver : Option SnapshotReceiver
  pub commit_index : LogIndex
  pub last_applied : LogIndex
  pub last_snapshot_index : LogIndex
  pub last_snapshot_term : Term
  pub last_peer_ids : List NodeId
  pub peer_next_index : List LogIndex
  pub peer_last_log_index : List LogIndex
  pub peer_hb_ok : List Bool
  pub transfer_ctx : LeaderTransferContext
  pub election_timer : ElectionTimer
  pub election_started : Bool
  pub heartbeat_stop : Bool
  pub heartbeat_epoch : ℕ
  pub shutdown : Bool
  pub leader_lease_expire : ℕ
  pub last_majority_ack_ms : ℕ
  pub next_read_index_request_id : ℕ
  pub apply_meta_flush_interval_ms : ℕ
  pub last_apply_meta_flush_ms : ℕ

module _ {L S : Type 0} where
  abbrev pub current_term : Node L S → Term
  current_term n = n.storage.current_term

  abbrev pub voted_for : Node L S → NodeId
  voted_for n = n.storage.voted_for

-- The voters of a joint configuration, each once.
unfoldable pub union : NodeSet → NodeSet → NodeSet
union [] ys = ys
union (x ∷ xs) ys = NodeSet.insert x (union xs ys)

unfoldable pub without : NodeId → List NodeId → List NodeId
without id [] = []
without id (v ∷ vs) = let rest = without id vs in if bytes_eq v id then rest else v ∷ rest

module _ {L S : Type 0} where
  -- `GetPeerIdsLocked`
  unfoldable pub get_peer_ids : Node L S → List NodeId
  get_peer_ids n =
      if is_joint n.config_state
      then NodeSet.erase n.node_id
          (union n.joint_config.old_config.voters n.joint_config.new_config.voters)
      else without n.node_id n.cluster_config.voters

  -- `CancelTransferLocked`
  unfoldable pub cancel_transfer : Node L S → Node L S
  cancel_transfer n =
      if is_active n.transfer_ctx then record n { transfer_ctx = reset_context } else n

  unfoldable pub stop_heartbeat : Node L S → Node L S
  stop_heartbeat n = record n { heartbeat_stop = true }

  -- `StartHeartbeat` with the interval that the node has; the fiber itself is a schedule of ticks.
  unfoldable pub start_heartbeat : Node L S → Node L S
  start_heartbeat n = record n {
    heartbeat_stop = false;
    heartbeat_epoch = u64 (n.heartbeat_epoch + 1);
  }

  -- The timer's part of `SetRoleLocked(Follower)`.
  unfoldable pub arm_timer : Node L S → Node L S
  arm_timer n =
      if n.shutdown
      then record n { election_timer = ElectionTimer.stop n.election_timer }
      else record n {
        election_timer =
            ElectionTimer.reset (
              if n.election_started
              then n.election_timer
              else ElectionTimer.start n.election_timer);
        election_started = true;
      }

  -- `SetRoleLocked`
  unfoldable pub set_role : RaftRole → Node L S → Node L S
  set_role follower n =
      stop_heartbeat (
        arm_timer (cancel_transfer (record n { role = follower; leader_term = 0; vote_count = 0 })))
  set_role candidate n =
      let m = cancel_transfer (record n { role = candidate; vote_count = 1 }) in
      stop_heartbeat (record m { election_timer = ElectionTimer.deactivate m.election_timer })
  set_role leader n =
      let m = record n {
        role = leader;
        leader_term = current_term n;
        election_timer = ElectionTimer.deactivate n.election_timer;
      } in
      let stopped = stop_heartbeat (cancel_transfer m) in
      if n.shutdown then stopped else start_heartbeat stopped

  -- `BecomeFollowerLocked`
  unfoldable pub become_follower : Term → Node L S → Node L S
  become_follower term n = set_role follower (
      if ltb (current_term n) term
      then record n { storage = Storage.set_state term [] n.storage }
      else n)

  -- `BecomeCandidateNewTermLocked`
  unfoldable pub become_candidate_new_term : Node L S → Node L S
  become_candidate_new_term n =
      set_role candidate
        (record n { storage = Storage.set_state (u64 (current_term n + 1)) n.node_id n.storage })

  -- `BecomeCandidateLocked`
  unfoldable pub become_candidate : Node L S → Node L S
  become_candidate n = if is_candidate n.role then n else become_candidate_new_term n

-- `log_storage_ ? log_storage_->LastIndex() : 0`, and so for the term.
module _ {L : Type 0} (st : LogStorage L) where
  abbrev pub last_index_or : Option L → LogIndex
  last_index_or none = 0
  last_index_or (some l) = st.last_index l

  abbrev pub last_term_or : Option L → Term
  last_term_or none = 0
  last_term_or (some l) = st.last_term l

module _ {L S : Type 0} (st : LogStorage L) where
  -- `BecomeLeaderInitPeersLocked`; `peer_hb_ok_` is left as it is.
  unfoldable pub become_leader_init_peers : Node L S → Node L S
  become_leader_init_peers n =
      let peers = get_peer_ids n in
      record n {
        last_peer_ids = peers;
        peer_next_index = elim n.log [
          | none ↦ replicate (length peers) 0
          | some l ↦ replicate (length peers) (st.last_index l + 1)
        ];
        peer_last_log_index = replicate (length peers) 0;
      }

  -- `BecomeLeaderLocked` at the time `now`.
  unfoldable pub become_leader : ℕ → Node L S → Node L S
  become_leader now n = record (become_leader_init_peers (set_role leader n)) {
    last_majority_ack_ms = now;
  }

  -- `SetRole`: the public form, which clears the vote of the term on the way to Follower.
  unfoldable pub set_role_public : ℕ → RaftRole → Node L S → Node L S
  set_role_public now follower n = elim n.role [
    | follower ↦ n
    | _ ↦
        let m = set_role follower n in
        record m { storage = Storage.set_state (current_term m) [] m.storage }
  ]
  set_role_public now candidate n = become_candidate n
  set_role_public now leader n =
      if is_leader n.role then n else become_leader now (become_candidate n)
