-- ===== src/Raft/Node/Steps/Blocks.antt =====
-- The building blocks of the leader's sections leave the hard state alone.
use maxredis.Base.{
  ℕ, Bool, ◌≡◌, refl, ◌∙◌, some, List, [], ◌∷◌, arith, Option-cases, inl, inr, length,
}
use maxredis.Raft.Types.{
  Term, LogIndex, NodeId, LogEntry, HeartbeatResponse, ClusterConfig, TimeoutNowResponse,
  InstallSnapshotRequest,
}
use maxredis.Raft.LogStorage.{LogStorage}
use maxredis.Raft.StateMachine.{StateMachine}
use maxredis.Raft.SnapshotReceiver
use maxredis.Raft.SnapshotReceiver.{SnapshotReceiver}
use maxredis.Raft.Node.{Node}
use maxredis.Raft.Node.Frame.{storage-cancel_transfer}
use maxredis.Raft.Node.Commit.{
  commit_to, advance_commit_index, advance_commit_index_public, advance_commit_index_joint,
  advance_commit_index_stable, quorum_index, maybe_auto_finalize_joint, append_finalize,
  begin_config_change, begin_joint, begin_finalize,
}
use maxredis.Raft.Node.Follower.{adopt_snapshot, load_received, receive_chunk}
use maxredis.Raft.Node.Leader.{
  resize_peer_arrays, note_ack, note_acks, note_round, check_transfer_timeout, tick_transfer,
  set_transfer_state,
}
use maxredis.Raft.Node.Leader.Reads.{read_index_begin}
use maxredis.Raft.Node.Leader.Transfer.{transfer_begin, transfer_end, timeout_now_end}
use maxredis.Raft.Node.Replicate.{
  PeerReq, Outcome, capture, note_failure, note_outcome, note_outcomes, submit_append,
}

module _ {L S : Type 0} (st : LogStorage L) where
  storage-commit_to :
      (l : L) (i : LogIndex) (n : Node L S) → (commit_to st l i n).storage ≡ n.storage
  unfolding commit_to
  storage-commit_to l i n = ground arith

  storage-advance_stable :
      (l : L) (n : Node L S) → (advance_commit_index_stable st l n).storage ≡ n.storage
  unfolding advance_commit_index_stable
  storage-advance_stable l n =
      elim (Option-cases
        (quorum_index (length n.cluster_config.voters) (st.last_index l ∷ n.peer_last_log_index))) [
          | inl e ↦ rw (e, advance_commit_index_stable)
          | inr (i, e) ↦ rw (e, advance_commit_index_stable) (storage-commit_to l i n)
        ]

  storage-advance_joint :
      (l : L) (n : Node L S) → (advance_commit_index_joint st l n).storage ≡ n.storage
  unfolding advance_commit_index_joint
  storage-advance_joint l n = storage-commit_to l _ n

  pub storage-advance : (n : Node L S) → (advance_commit_index st n).storage ≡ n.storage
  unfolding advance_commit_index
  storage-advance n = elim (Option-cases n.log) [
    | inl e ↦ rw (e, advance_commit_index)
    | inr (l, e) ↦
        rw (e, advance_commit_index)
          (ground (arith, storage-advance_stable l n, storage-advance_joint l n))
  ]

  pub storage-advance_public :
      (n : Node L S) → (advance_commit_index_public st n).storage ≡ n.storage
  unfolding advance_commit_index_public
  storage-advance_public n = ground (arith, storage-advance n)

  pub storage-finalize : (n : Node L S) → (maybe_auto_finalize_joint st n).storage ≡ n.storage
  unfolding maybe_auto_finalize_joint append_finalize
  storage-finalize n = ground arith

  pub storage-begin_config_change :
      (c : ClusterConfig) (n : Node L S) → (begin_config_change st c n).0.storage ≡ n.storage
  unfolding begin_config_change begin_joint begin_finalize
  storage-begin_config_change c n = ground arith

  pub storage-submit_append :
      (e : LogEntry) (n : Node L S) → (submit_append st e n).0.storage ≡ n.storage
  unfolding submit_append
  storage-submit_append e n = ground arith

  pub storage-capture : (l : L) (n : Node L S) → (capture st l n).0.storage ≡ n.storage
  unfolding capture resize_peer_arrays
  storage-capture l n = refl

  pub storage-transfer_end :
      (t : NodeId) (n : Node L S) → (transfer_end st t n).0.storage ≡ n.storage
  unfolding transfer_end set_transfer_state
  storage-transfer_end t n = ground arith

module _ {L S : Type 0} where
  storage-note_ack :
      (t : Term) (a : NodeId × HeartbeatResponse) (n : Node L S)
      → (note_ack t a n).storage ≡ n.storage
  unfolding note_ack
  storage-note_ack t (id, rsp) n = ground arith

  pub storage-note_acks :
      (t : Term) (rsps : List (NodeId × HeartbeatResponse)) (n : Node L S)
      → (note_acks t rsps n).storage ≡ n.storage
  unfolding note_acks
  storage-note_acks t [] n = refl
  storage-note_acks t (a ∷ rsps) n =
      storage-note_acks t rsps (note_ack t a n) ∙ storage-note_ack t a n

  storage-note_outcome :
      (r : PeerReq) (o : Outcome) (n : Node L S) → (note_outcome r o n).storage ≡ n.storage
  unfolding note_outcome note_failure
  storage-note_outcome r o n = ground arith

  pub storage-note_outcomes :
      (rs : List PeerReq) (os : List Outcome) (n : Node L S)
      → (note_outcomes rs os n).storage ≡ n.storage
  unfolding note_outcomes
  storage-note_outcomes (r ∷ rs) (o ∷ os) n =
      storage-note_outcomes rs os (note_outcome r o n) ∙ storage-note_outcome r o n
  storage-note_outcomes [] os n = refl
  storage-note_outcomes (r ∷ rs) [] n = refl

  storage-check_transfer_timeout :
      (now : ℕ) (n : Node L S) → (check_transfer_timeout now n).storage ≡ n.storage
  unfolding check_transfer_timeout
  storage-check_transfer_timeout now n = ground (arith, storage-cancel_transfer n)

  pub storage-transfer_begin :
      (now : ℕ) (t : NodeId) (n : Node L S) → (transfer_begin now t n).0.storage ≡ n.storage
  unfolding transfer_begin
  storage-transfer_begin now t n = ground arith

  pub storage-read_index_begin :
      (now : ℕ) (n : Node L S) → (read_index_begin now n).0.storage ≡ n.storage
  unfolding read_index_begin
  storage-read_index_begin now n = ground arith

  pub storage-timeout_now_end :
      (r : TimeoutNowResponse) (n : Node L S) → (timeout_now_end r n).storage ≡ n.storage
  unfolding timeout_now_end
  storage-timeout_now_end r n = ground (arith, storage-cancel_transfer n)

module _ {L S : Type 0} (st : LogStorage L) where
  pub storage-tick_transfer :
      (now : ℕ) (b : Bool) (n : Node L S) → (tick_transfer st now b n).node.storage ≡ n.storage
  unfolding tick_transfer set_transfer_state
  storage-tick_transfer now b n = ground (arith, storage-check_transfer_timeout now n)

  pub storage-note_round :
      (t : Term) (rsps : List (NodeId × HeartbeatResponse)) (n : Node L S)
      → (note_round st t rsps n).storage ≡ n.storage
  unfolding note_round resize_peer_arrays
  storage-note_round t rsps n = storage-advance st _ ∙ storage-note_acks t rsps _

module _ {L S : Type 0} (st : LogStorage L) (sm : StateMachine S) where
  storage-load_received :
      (r : SnapshotReceiver) (n : Node L S) → (load_received st sm r n).0.storage ≡ n.storage
  unfolding load_received
  storage-load_received r n = ground arith

  storage-adopt_snapshot :
      (req : InstallSnapshotRequest) (n : Node L S)
      → (adopt_snapshot st sm req n).storage ≡ n.storage
  unfolding adopt_snapshot
  storage-adopt_snapshot req n = refl

  pub storage-receive_chunk :
      (r : SnapshotReceiver) (req : InstallSnapshotRequest) (n : Node L S)
      → (receive_chunk st sm r req n).0.storage ≡ n.storage
  unfolding receive_chunk
  storage-receive_chunk r req n =
      let r' : SnapshotReceiver = (SnapshotReceiver.handle_chunk r req).0 in
      let m : Node L S = record n { receiver = some r' } in
      ground
        (arith, storage-load_received r' m, storage-adopt_snapshot req (load_received st sm r' m).0)
