-- ===== src/Scenarios.antt =====
-- A concrete node of three, its log and its state machine, for the theorems about server/raft.
mod Elections
mod Logs
mod Progress
mod Handlers
mod Configs
mod Commands
mod Disks
mod Snapshots
mod Barriers
mod Strings
mod Replicas
use maxredis.Base.{
  zero, suc, get_elem?, ◌≢◌, ℕ, ◌≡◌, ◌≤◌, refl, true, false, none, some, List, [], ◌∷◌, arith,
  replicate, Bytes, inl, inr, ◌+◌, ◌<◌, ◌⊎◌, ◌↔◌,
}
use maxredis.Raft.Types.{
  Term, NodeId, LogEntry, RaftRole, follower, candidate, leader, stable, joint, empty_joint,
  reset_context, ok, VoteRequest, VoteResponse, AppendEntriesRequest, ClusterConfig, default_entry,
}
use maxredis.Raft.StateMachine.{StateMachine}
use maxredis.Raft.Storage
use maxredis.Raft.Storage.{RaftStorage}
use maxredis.Raft.ElectionTimer
use maxredis.Raft.CommandLog
use maxredis.Raft.CommandLog.{CommandLog}
use maxredis.Raft.CommandLog.Laws
use maxredis.Raft.Node.{Node}

abbrev pub n1 : NodeId
n1 = 110 ∷ 49 ∷ []

abbrev pub n2 : NodeId
n2 = 110 ∷ 50 ∷ []

abbrev pub n3 : NodeId
n3 = 110 ∷ 51 ∷ []

-- A machine that counts its commands.
abbrev pub counter : StateMachine ℕ
counter = record {
  apply_log_entry = λ e s. (s + 1, record { op = ok; affected_rows = 1 });
  load_snapshot = λ b s. (s, true);
}

abbrev pub set_x : Bytes
set_x = 83 ∷ 69 ∷ 84 ∷ []

abbrev pub two_entries : CommandLog
two_entries = record {
  base_index = 0;
  sentinel = default_entry;
  tail =
      record { term = 1; index = 1; command = set_x }
      ∷ record { term = 2; index = 2; command = set_x }
      ∷ [];
  anchor = record { index = 0; term = 0 };
}

two_indexed : (j : ℕ) (e : LogEntry) → get_elem? two_entries.tail j ≡ some e → e.index ≡ suc (0 + j)
two_indexed zero e h = ground arith
two_indexed (suc zero) e h = ground arith
two_indexed (suc (suc j)) e h = ground arith

pub two_entries-IsValid : CommandLog.Laws.IsValid two_entries
two_entries-IsValid = record { floor_zero = λ h. refl; indexed = two_indexed }

abbrev pub others : ClusterConfig
others = record { version = 1; voters = n2 ∷ n3 ∷ []; learners = [] }

-- A node of term 2 that has applied nothing, over the machine state `s`.
abbrev pub node_of : {S : Type 0} → S → RaftRole → CommandLog → ℕ → Node CommandLog S
node_of s role log commit = record {
  group_id = 1;
  node_id = n1;
  storage = record {
    persistent = false;
    hard = record {
      current_term = 2;
      voted_for = [];
      config_state = stable;
      joint_config = empty_joint;
    };
    disk = Storage.fresh;
  };
  apply_progress = record { persistent = false; last_applied = 0; disk = 0 };
  role = role;
  leader_term = 2;
  vote_count = 1;
  old_config_votes = 0;
  new_config_votes = 0;
  cluster_config = others;
  config_state = stable;
  joint_config = empty_joint;
  joint_entry_index = 0;
  joint_finalize_appended = false;
  log = some log;
  machine = some s;
  receiver = none;
  commit_index = commit;
  last_applied = 0;
  last_snapshot_index = 0;
  last_snapshot_term = 0;
  last_peer_ids = n2 ∷ n3 ∷ [];
  peer_next_index = 3 ∷ 3 ∷ [];
  peer_last_log_index = 2 ∷ 0 ∷ [];
  peer_hb_ok = true ∷ true ∷ [];
  transfer_ctx = reset_context;
  election_timer = ElectionTimer.new;
  election_started = false;
  heartbeat_stop = true;
  heartbeat_epoch = 0;
  shutdown = false;
  leader_lease_expire = 0;
  last_majority_ack_ms = 0;
  next_read_index_request_id = 0;
  apply_meta_flush_interval_ms = 0;
  last_apply_meta_flush_ms = 0;
}

abbrev pub node : RaftRole → CommandLog → ℕ → Node CommandLog ℕ
node role log commit = node_of 0 role log commit
