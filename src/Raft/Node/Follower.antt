-- ===== src/Raft/Node/Follower.antt =====
-- The RPC handlers of server/raft/raft_node.cc that a leader calls: OnHeartbeat, OnAppendEntries,
-- OnInstallSnapshot, OnReadIndex and OnTimeoutNow. An exception out of the apply loop leaves a
-- handler with no reply.
pub mod Matching
pub mod Heartbeat
pub mod Snapshot
pub mod Tail
pub mod Append
use maxredis.Base.{
  ℕ, ◌+◌, ◌-◌, min, max, Bool, true, false, ◌&&◌, ◌||◌, not, Option, none, some, List, [], ◌∷◌,
  is_empty, take, get_last_or, ltb, leb, ◌==◌, u64_mod, if◌then◌else◌,
}
use maxredis.Raft.Types.{
  LogIndex, LogEntry, default_entry, is_leader, is_candidate, HeartbeatRequest, HeartbeatResponse,
  AppendEntriesRequest, AppendEntriesResponse, InstallSnapshotRequest, InstallSnapshotResponse,
  ReadIndexRequest, ReadIndexResponse, TimeoutNowRequest, TimeoutNowResponse,
}
use maxredis.Raft.LogStorage.{LogStorage}
use maxredis.Raft.StateMachine.{StateMachine}
use maxredis.Raft.SnapshotReceiver
use maxredis.Raft.SnapshotReceiver.{SnapshotReceiver}
use maxredis.Raft.ElectionTimer
use maxredis.Raft.ApplyProgress
use maxredis.Raft.Node.{Node, current_term, become_follower, last_index_or}
use maxredis.Raft.Node.Apply.{Applied, apply_committed_logs, no_result}

abbrev pub max_append_batch : ℕ
max_append_batch = 128

-- `i - 1` on an unsigned index
abbrev pub pred_index : LogIndex → LogIndex
pred_index i = if i == 0 then u64_mod - 1 else i - 1

module _ {L S : Type 0} where
  unfoldable pub reset_timer : Node L S → Node L S
  reset_timer n = record n { election_timer = ElectionTimer.reset n.election_timer }

  -- `OnReadIndex`
  unfoldable pub on_read_index : Node L S → ReadIndexRequest → ReadIndexResponse
  on_read_index n req = record {
    group_id = 0;
    term = current_term n;
    success = leb (current_term n) req.term && not (is_candidate n.role);
    commit_index = n.commit_index;
  }

  -- `OnTimeoutNow`; the last part says whether an election is started at once.
  unfoldable pub on_timeout_now :
      Node L S → TimeoutNowRequest → Node L S × TimeoutNowResponse × Bool
  on_timeout_now n req =
      let m = if ltb (current_term n) req.term then become_follower req.term n else n in
      if ltb req.term (current_term n)
      then (n, record { group_id = n.group_id; term = current_term n; accepted = false }, false)
      else (
        m,
        record { group_id = n.group_id; term = req.term; accepted = true },
        not (is_leader m.role),
      )

module _ {L S : Type 0} (st : LogStorage L) (sm : StateMachine S) where
  unfoldable pub heartbeat_reply : Node L S → Bool → HeartbeatResponse
  heartbeat_reply n success = record {
    group_id = n.group_id;
    term = current_term n;
    success = success;
    last_log_index = last_index_or st n.log;
  }

  -- The commit index of a heartbeat is taken if the log reaches that far.
  unfoldable pub take_commit : ℕ → LogIndex → Node L S → Applied L S
  take_commit now leader_commit n =
      if ltb n.commit_index leader_commit && leb leader_commit (last_index_or st n.log)
      then apply_committed_logs st sm now (record n { commit_index = leader_commit })
      else record { node = n; result = no_result; threw = false }

  unfoldable pub answer {ℓ} : {R : Type ℓ} → Applied L S → (Node L S → R) → Node L S × Option R
  answer a f = if a.threw then (a.node, none) else (a.node, some (f a.node))

  -- `OnHeartbeat`
  unfoldable pub on_heartbeat :
      ℕ → Node L S → HeartbeatRequest → Node L S × Option HeartbeatResponse
  on_heartbeat now n req =
      if ltb req.term (current_term n)
      then (n, some (heartbeat_reply n false))
      else if ltb (current_term n) req.term || not (is_leader n.role)
      then answer (take_commit now req.leader_commit (reset_timer (become_follower req.term n)))
          (λ m. heartbeat_reply m true)
      else (reset_timer n, some (heartbeat_reply (reset_timer n) true))

-- The loop over the entries of an AppendEntries; false is a gap.
module _ {L : Type 0} (st : LogStorage L) where
  abbrev pub same_term : Option LogEntry → LogEntry → Bool
  same_term none e = false
  same_term (some x) e = x.term == e.term

  -- One entry that the log has already: kept if the terms agree, and else the log is cut before it.
  unfoldable pub place_entry : L → LogEntry → L
  place_entry l e =
      if leb e.index (st.last_index l)
      then (if same_term (st.get l e.index) e
          then l
          else st.append (st.truncate_from l (pred_index e.index)) e)
      else st.append l e

  unfoldable pub append_loop : L → List LogEntry → L × Bool
  append_loop l [] = (l, true)
  append_loop l (e ∷ es) =
      let rest = append_loop (place_entry l e) es in
      if leb e.index (st.last_index l) || (e.index == st.last_index l + 1) then rest else (l, false)

  -- The local tail behind the last entry of a request that carries entries is cut off.
  unfoldable pub cut_tail : List LogEntry → L → L
  cut_tail entries l =
      let leader_tail = (get_last_or default_entry entries).index in
      if not (is_empty entries) && ltb leader_tail (st.last_index l)
      then st.truncate_from l leader_tail
      else l

module _ {L S : Type 0} (st : LogStorage L) (sm : StateMachine S) where
  unfoldable pub append_reply : Node L S → Bool → LogIndex → AppendEntriesResponse
  append_reply n success last = record {
    group_id = n.group_id;
    term = current_term n;
    success = success;
    last_log_index = last;
  }

  unfoldable pub follow_commit : ℕ → LogIndex → LogIndex → Node L S → Applied L S
  follow_commit now leader_commit my_last n =
      if ltb n.commit_index leader_commit
      then apply_committed_logs st sm now (record n { commit_index = min leader_commit my_last })
      else record { node = n; result = no_result; threw = false }

  -- What follows a successful loop: the tail, the commit index and the reply.
  unfoldable pub finish_append :
      ℕ → AppendEntriesRequest → L → Node L S → Node L S × Option AppendEntriesResponse
  finish_append now req l n =
      let l' = cut_tail st req.entries l in
      let my_last = st.last_index l' in
      answer st sm (follow_commit now req.leader_commit my_last (record n { log = some l' }))
        (λ m. append_reply m true my_last)

  unfoldable pub store_entries :
      ℕ → AppendEntriesRequest → L × Bool → Node L S → Node L S × Option AppendEntriesResponse
  store_entries now req (l, true) n = finish_append now req l n
  store_entries now req (l, false) n =
      let m = record n { log = some l } in (m, some (append_reply m false (st.last_index l)))

  -- The part behind the term checks, with a log.
  unfoldable pub check_and_store :
      ℕ → AppendEntriesRequest → L → Node L S → Node L S × Option AppendEntriesResponse
  check_and_store now req l n =
      let my_last = st.last_index l in
      if ltb my_last req.prev_log_index
      then (n, some (append_reply n false my_last))
      else if ltb 0 req.prev_log_index
          && not (st.get_term l req.prev_log_index == req.prev_log_term)
      then (n, some (append_reply n false (req.prev_log_index - 1)))
      else store_entries now req (append_loop st l (take max_append_batch req.entries)) n

  unfoldable pub accept_leader : AppendEntriesRequest → Node L S → Node L S
  accept_leader req n =
      if ltb (current_term n) req.term
      then become_follower req.term n
      else if is_leader n.role
      then n
      else reset_timer n

  -- `OnAppendEntries`
  unfoldable pub on_append_entries :
      ℕ → Node L S → AppendEntriesRequest → Node L S × Option AppendEntriesResponse
  on_append_entries now n req =
      if ltb req.term (current_term n)
      then (n, some (append_reply n false (last_index_or st n.log)))
      else (let m = accept_leader req n in
          elim m.log [
            | none ↦ (m, some (append_reply m true 0))
            | some l ↦ check_and_store now req l m
          ])

  unfoldable pub install_reply : Node L S → Bool → InstallSnapshotResponse
  install_reply n success = record {
    group_id = n.group_id;
    term = current_term n;
    success = success;
  }

  -- The node after a complete snapshot that the state machine took.
  unfoldable pub adopt_snapshot : InstallSnapshotRequest → Node L S → Node L S
  adopt_snapshot req n =
      let index = req.last_included_index in
      record n {
        last_applied = index;
        commit_index = max n.commit_index index;
        last_snapshot_index = index;
        last_snapshot_term = req.last_included_term;
        apply_progress = ApplyProgress.update index n.apply_progress;
        log = elim n.log [
          | none ↦ none
          | some l ↦ some (st.set_snapshot_anchor (st.clear l) index req.last_included_term)
        ];
      }

  -- The state machine loads the received file, if there is one.
  unfoldable pub load_received : SnapshotReceiver → Node L S → Node L S × Bool
  load_received r n = elim n.machine [
    | none ↦ (n, true)
    | some s ↦
        (let (s', loaded) = sm.load_snapshot r.bin s in (record n { machine = some s' }, loaded))
  ]

  unfoldable pub receive_chunk :
      SnapshotReceiver → InstallSnapshotRequest → Node L S → Node L S × InstallSnapshotResponse
  receive_chunk r req n =
      let (r', rsp) = SnapshotReceiver.handle_chunk r req in
      let m = record n { receiver = some r' } in
      if rsp.success && req.done
      then (let (k, loaded) = load_received r' m in
          if loaded then (adopt_snapshot req k, rsp) else (k, record rsp { success = false }))
      else (m, rsp)

  unfoldable pub receive_with :
      Option SnapshotReceiver
      → InstallSnapshotRequest
      → Node L S
      → Node L S × InstallSnapshotResponse
  receive_with none req n = (n, install_reply n false)
  receive_with (some r) req n = receive_chunk r req n

  -- `OnInstallSnapshot`
  unfoldable pub on_install_snapshot :
      Node L S → InstallSnapshotRequest → Node L S × InstallSnapshotResponse
  on_install_snapshot n req =
      let m = if ltb (current_term n) req.term then become_follower req.term n else n in
      if ltb req.term (current_term n)
      then (n, install_reply n false)
      else receive_with m.receiver req m
