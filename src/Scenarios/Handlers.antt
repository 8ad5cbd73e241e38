-- ===== src/Scenarios/Handlers.antt =====
-- Reads, transfers, heartbeats, refusals and snapshots on the concrete node.
use maxredis.Base.{
  suc, ◌+◌, ◌⊎◌, ◌↔◌, u64, get_elem?, ◌≢◌, ℕ, ◌≡◌, ◌≤◌, refl, true, false, Bool, some, List, [],
  ◌∷◌, ◌++◌, arith, inl, inr, ◌<◌, bytes_eq,
}
use maxredis.Raft.Types.{
  LogIndex, TimeoutNowRequest, follower, leader, waiting_catch_up, AppendEntriesRequest,
  AppendEntriesResponse, ReadIndexRequest, ReadIndexResponse, HeartbeatRequest, HeartbeatResponse,
  InstallSnapshotRequest,
}
use maxredis.Raft.CommandLog
use maxredis.Raft.CommandLog.{CommandLog}
use maxredis.Raft.CommandLog.Laws
use maxredis.Raft.SnapshotReceiver
use maxredis.Raft.SnapshotReceiver.{SnapshotReceiver}
use maxredis.Scenarios.{n1, n2, n3, counter, set_x, two_entries, two_entries-IsValid, node}
use maxredis.Raft.Storage
use maxredis.Raft.ElectionTimer
use maxredis.Raft.ApplyProgress
use maxredis.Raft.ConfigCommand
use maxredis.Raft.Node.Apply.{
  apply_committed_logs, apply_loop, apply_round, apply_entries, apply_next, apply_entry,
  apply_command, is_config_entry, flush_progress, has_more, next_batch, goes_on,
}
use maxredis.Raft.Node.{
  become_follower, set_role, stop_heartbeat, arm_timer, cancel_transfer, Node, current_term,
}
use maxredis.Raft.Node.Election.{majority_of}
use maxredis.Raft.Node.Leader.{
  lease_ms, heartbeat_end, set_transfer_state, is_transfer_ready, ready_in,
}
use maxredis.Raft.Node.Leader.Lease.{acknowledged, half_renews_lease}
use maxredis.Raft.Node.Leader.Reads.{read_index_end, read_acks, max_read_term}
use maxredis.Raft.Node.Leader.Transfer.{transfer_end, timeout_now_begin, transfer_send}
use maxredis.Raft.Node.Leader.Quorums.{
  NoReadAbove, confirmations, read_index_confirmed, transfer_target_caught_up,
}
use maxredis.Raft.Node.Follower.{
  answer, take_commit, reset_timer, heartbeat_reply, on_heartbeat, on_append_entries,
  adopt_snapshot,
}
use maxredis.Raft.Node.Follower.Heartbeat.{heartbeat_applies}
use maxredis.Raft.Node.Apply.Ranges.{entries_from}
use maxredis.Raft.Node.Apply.Order.{run_commands}
use maxredis.Raft.Node.Follower.Snapshot.{
  receive_all, chunks, snapshot_is_chunks, append_behind_snapshot,
}
use maxredis.Raft.Node.Follower.Append.{append_entries_refuses}

-- A read that n2 confirms.
abbrev reading : Node CommandLog ℕ
reading = node leader two_entries 2

abbrev read : ReadIndexRequest
read = record { group_id = 1; term = 2; leader_id = n1; request_id = 1 }

abbrev confirmed : List ReadIndexResponse
confirmed =
    record { group_id = 1; term = 2; success = true; commit_index = 2 }
    ∷ record { group_id = 1; term = 2; success = false; commit_index = 0 }
    ∷ []

read_index_confirmed_example :
    (((read_index_end 0 read confirmed reading).1 ≡ 2) ↔ (
      (leader ≡ leader)
      × (2 ≡ read.term)
      × (majority_of 2 ≤ suc (confirmations read.term confirmed))
      × NoReadAbove read.term confirmed))
    × (((read_index_end 0 read confirmed reading).1 ≡ 0)
        ⊎ ((read_index_end 0 read confirmed reading).1 ≡ 2))
read_index_confirmed_example = read_index_confirmed 0 read confirmed reading (omega arith)

served : (read_index_end 0 read confirmed reading).1 ≡ 2
unfolding read_index_end read_acks max_read_term
served = refl

-- A transfer to n2, which is caught up.
abbrev handing_over : Node CommandLog ℕ
handing_over = record reading {
  transfer_ctx = record { target = n2; state = waiting_catch_up; start_ms = 0 };
}

abbrev timeout_now : TimeoutNowRequest
timeout_now = record { group_id = 1; term = 2; leader_id = n1 }

sent : transfer_send CommandLog.storage n2 handing_over ≡ some (n2, timeout_now)
unfolding transfer_send transfer_end timeout_now_begin is_transfer_ready ready_in set_transfer_state
    CommandLog.storage CommandLog.last_index bytes_eq
sent = refl

transfer_target_caught_up_example :
    (n2 ≡ n2)
    × (leader ≡ leader)
    × (timeout_now.term ≡ 2)
    × ((i : ℕ) × (m : LogIndex) × (get_elem? (n2 ∷ n3 ∷ []) i ≡ some n2)
        × (get_elem? (2 ∷ 0 ∷ []) i ≡ some m)
        × (CommandLog.storage.last_index two_entries ≤ m))
transfer_target_caught_up_example =
    transfer_target_caught_up CommandLog.storage n2 n2 timeout_now handing_over two_entries refl
      refl sent

-- The transfer to n2 was cancelled and one to n3 began: the end of the first sends TimeoutNow to n3,
-- which is behind.
abbrev restarted : Node CommandLog ℕ
restarted = record reading {
  transfer_ctx = record { target = n3; state = waiting_catch_up; start_ms = 0 };
}

sent_to_other : transfer_send CommandLog.storage n2 restarted ≡ some (n3, timeout_now)
unfolding transfer_send transfer_end timeout_now_begin is_transfer_ready ready_in set_transfer_state
    CommandLog.storage CommandLog.last_index bytes_eq
sent_to_other = refl

-- A cluster of two: the leader renews its lease without an answer.
abbrev pair : Node CommandLog ℕ
pair = record reading { cluster_config = record { version = 1; voters = n2 ∷ []; learners = [] } }

abbrev lead : HeartbeatRequest
lead = record { group_id = 1; term = 2; leader_id = n1; leader_commit = 2 }

half_renews_lease_example :
    ((heartbeat_end CommandLog.storage false 0 5 lead [] pair).node.leader_lease_expire
      ≡ u64 (5 + lease_ms))
    × (suc (acknowledged lead.term []) < majority_of 1)
half_renews_lease_example =
    half_renews_lease CommandLog.storage false 5 lead [] pair refl refl refl tt (omega arith)

-- A heartbeat that commits both entries.
abbrev beat : HeartbeatRequest
beat = record { group_id = 1; term = 3; leader_id = n2; leader_commit = 2 }

abbrev hearing : Node CommandLog ℕ
hearing = node follower two_entries 0

abbrev heard : HeartbeatResponse
heard = record { group_id = 1; term = 3; success = true; last_log_index = 2 }

answers_beat : (on_heartbeat CommandLog.storage counter 0 hearing beat).1 ≡ some heard
unfolding on_heartbeat answer take_commit reset_timer become_follower set_role stop_heartbeat
    arm_timer cancel_transfer heartbeat_reply Storage.set_state Storage.flush ElectionTimer.reset
    ElectionTimer.start apply_committed_logs apply_loop apply_round apply_entries apply_next
    apply_entry apply_command is_config_entry flush_progress has_more next_batch goes_on
    CommandLog.storage CommandLog.last_index CommandLog.get_range CommandLog.range_end
    CommandLog.first_index ConfigCommand.starts_with ApplyProgress.flush
    ApplyProgress.update_memory_only
answers_beat = refl

heartbeat_applies_example :
    let m = (on_heartbeat CommandLog.storage counter 0 hearing beat).0 in
    (m.last_applied ≡ 2)
    × (m.machine ≡ some (run_commands counter (entries_from CommandLog.storage two_entries 1 2) 0))
    × (m.log ≡ some two_entries)
    × (m.commit_index ≡ 2)
    × (heard.success ≡ true)
    × (heard.last_log_index ≡ CommandLog.storage.last_index two_entries)
unfolding CommandLog.storage CommandLog.last_index
heartbeat_applies_example =
    heartbeat_applies CommandLog.storage counter CommandLog.Laws.laws 0 hearing beat heard
      two_entries 0 two_entries-IsValid refl refl (omega arith) (inl (omega arith)) (omega arith)
      (omega arith) answers_beat

-- A request whose previous entry has another term.
abbrev mismatched : AppendEntriesRequest
mismatched = record {
  group_id = 1;
  term = 3;
  leader_id = n2;
  prev_log_index = 2;
  prev_log_term = 1;
  entries = [];
  leader_commit = 0;
}

other_term : CommandLog.storage.get_term two_entries 2 ≢ 1
unfolding CommandLog.storage CommandLog.get_term CommandLog.get CommandLog.last_index
other_term h = omega arith

append_entries_refuses_example :
    (r : AppendEntriesResponse) × ((on_append_entries CommandLog.storage counter 0
        (node follower two_entries 0)
        mismatched).0.log
      ≡ some two_entries)
    × ((on_append_entries CommandLog.storage counter 0 (node follower two_entries 0) mismatched).1
        ≡ some r)
    × (r.success ≡ false)
    × (r.last_log_index < 2)
append_entries_refuses_example =
    append_entries_refuses CommandLog.storage counter 0 mismatched (node follower two_entries 0)
      two_entries refl (omega arith) (inr (omega arith, other_term))

-- A snapshot in two chunks.
abbrev chunk : Bool → InstallSnapshotRequest
chunk done = record {
  group_id = 1;
  term = 2;
  leader_id = n2;
  last_included_index = 5;
  last_included_term = 2;
  offset = 0;
  done = done;
  chunk = set_x;
}

abbrev stale : SnapshotReceiver
stale = record { tmp = 1 ∷ []; bin = [] }

snapshot_is_chunks_example :
    let final =
      SnapshotReceiver.handle_chunk
        (receive_all (SnapshotReceiver.init stale) (chunk false ∷ []))
        (chunk true) in
    (final.0.bin ≡ chunks (chunk false ∷ []) ++ set_x)
    × (final.0.tmp ≡ [])
    × (final.1.success ≡ true)
snapshot_is_chunks_example =
    snapshot_is_chunks stale (chunk false ∷ []) (chunk true) (refl, omega arith, tt) refl
      (omega arith)

abbrev next : AppendEntriesRequest
next = record mismatched { prev_log_index = 5; prev_log_term = 2 }

next_term :
    current_term
      (adopt_snapshot CommandLog.storage counter (chunk true) (node follower two_entries 0))
    ≤ 3
unfolding adopt_snapshot
next_term = omega arith

append_behind_snapshot_example :
    let m = adopt_snapshot CommandLog.storage counter (chunk true) (node follower two_entries 0) in
    (r : AppendEntriesResponse) × ((on_append_entries CommandLog.storage counter 0 m next).1
      ≡ some r)
    × (r.success ≡ false)
    × (r.last_log_index ≡ 0)
append_behind_snapshot_example =
    append_behind_snapshot counter 0 (chunk true) (node follower two_entries 0) two_entries next
      refl next_term (omega arith)
