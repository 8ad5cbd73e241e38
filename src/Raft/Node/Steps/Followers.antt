-- ===== src/Raft/Node/Steps/Followers.antt =====
-- The hard state under the handlers of a follower and under replication.
use maxredis.Base.{
  ℕ, ◌≡◌, refl, ◌∙◌, Bool, true, false, Option, none, some, List, arith, Option-cases, inl, inr,
  min, take,
}
use maxredis.Raft.Types.{
  Term, LogIndex, HeartbeatRequest, AppendEntriesRequest, InstallSnapshotRequest,
}
use maxredis.Raft.LogStorage.{LogStorage}
use maxredis.Raft.StateMachine.{StateMachine}
use maxredis.Raft.SnapshotReceiver.{SnapshotReceiver}
use maxredis.Raft.ElectionTimer
use maxredis.Raft.Node.{Node, become_follower}
use maxredis.Raft.Node.Election.{}
use maxredis.Raft.Node.Apply.{Applied}
use maxredis.Raft.Node.Commit.{
  advance_commit_index, maybe_auto_finalize_joint, replay_unapplied_logs, replay_with, replay_log,
}
use maxredis.Raft.Node.Follower.{
  heartbeat_reply, reset_timer, on_heartbeat, take_commit, receive_with, answer, on_append_entries,
  accept_leader, check_and_store, store_entries, finish_append, follow_commit, on_install_snapshot,
  max_append_batch, append_loop, cut_tail,
}
use maxredis.Raft.Node.Replicate.{
  PeerReq, Outcome, max_outcome_term, replicate_end, replicate_alone, note_outcomes,
}
use maxredis.Raft.Node.Steps.Hard.{
  KeepsHard, KeepsHard-refl, KeepsHard-trans, same-KeepsHard, become_follower-KeepsHard,
  apply-KeepsHard,
}
use maxredis.Raft.Node.Steps.Blocks.{
  storage-advance, storage-finalize, storage-note_outcomes, storage-receive_chunk,
}

module _ {L S : Type 0} (st : LogStorage L) (sm : StateMachine S) where
  pub take_commit-KeepsHard :
      (now : ℕ) (c : LogIndex) (n : Node L S) → KeepsHard n (take_commit st sm now c n).node
  unfolding take_commit
  take_commit-KeepsHard now c n =
      ground (arith, KeepsHard-refl n, apply-KeepsHard st sm now (record n { commit_index = c }))

  pub answer-node {ℓ} :
      {R : Type ℓ} (a : Applied L S) (f : Node L S → R) → (answer st sm a f).0 ≡ a.node
  unfolding answer
  answer-node a f = ground arith

  pub heartbeat-KeepsHard :
      (now : ℕ) (n : Node L S) (req : HeartbeatRequest)
      → KeepsHard n (on_heartbeat st sm now n req).0
  unfolding on_heartbeat reset_timer
  heartbeat-KeepsHard now n req =
      let f : Node L S = become_follower req.term n in
      let t : Node L S = record f { election_timer = ElectionTimer.reset f.election_timer } in
      let a : Applied L S = take_commit st sm now req.leader_commit t in
      ground (
        arith,
        KeepsHard-refl n,
        answer-node a (λ (m : Node L S). heartbeat_reply st sm m true),
        KeepsHard-trans n f a.node (become_follower-KeepsHard req.term n) (
            KeepsHard-trans f t a.node (same-KeepsHard f t refl)
              (take_commit-KeepsHard now req.leader_commit t)),
      )

  pub follow_commit-KeepsHard :
      (now : ℕ) (c last : LogIndex) (n : Node L S)
      → KeepsHard n (follow_commit st sm now c last n).node
  unfolding follow_commit
  follow_commit-KeepsHard now c last n =
      ground (
        arith,
        KeepsHard-refl n,
        apply-KeepsHard st sm now (record n { commit_index = min c last }),
      )

  pub finish_append-KeepsHard :
      (now : ℕ) (req : AppendEntriesRequest) (l : L) (n : Node L S)
      → KeepsHard n (finish_append st sm now req l n).0
  unfolding finish_append
  finish_append-KeepsHard now req l n =
      let l' : L = cut_tail st req.entries l in
      let m : Node L S = record n { log = some l' } in
      rw answer-node (
        KeepsHard-trans n m _ (same-KeepsHard n m refl)
          (follow_commit-KeepsHard now req.leader_commit (st.last_index l') m))

  pub store_entries-KeepsHard :
      (now : ℕ) (req : AppendEntriesRequest) (r : L × Bool) (n : Node L S)
      → KeepsHard n (store_entries st sm now req r n).0
  unfolding store_entries
  store_entries-KeepsHard now req (l, true) n = finish_append-KeepsHard now req l n
  store_entries-KeepsHard now req (l, false) n = same-KeepsHard n _ refl

  pub check_and_store-KeepsHard :
      (now : ℕ) (req : AppendEntriesRequest) (l : L) (n : Node L S)
      → KeepsHard n (check_and_store st sm now req l n).0
  unfolding check_and_store
  check_and_store-KeepsHard now req l n = ground (
    arith,
    KeepsHard-refl n,
    store_entries-KeepsHard now req (append_loop st l (take max_append_batch req.entries)) n,
  )

  pub accept_leader-KeepsHard :
      (req : AppendEntriesRequest) (n : Node L S) → KeepsHard n (accept_leader st sm req n)
  unfolding accept_leader reset_timer
  accept_leader-KeepsHard req n =
      ground (arith, KeepsHard-refl n, become_follower-KeepsHard req.term n)

  pub append-KeepsHard :
      (now : ℕ) (n : Node L S) (req : AppendEntriesRequest)
      → KeepsHard n (on_append_entries st sm now n req).0
  unfolding on_append_entries
  append-KeepsHard now n req =
      let m : Node L S = accept_leader st sm req n in
      let kept : KeepsHard n m = accept_leader-KeepsHard req n in
      elim (Option-cases m.log) [
        | inl e ↦ rw e (ground (arith, KeepsHard-refl n, kept))
        | inr (l, e) ↦ rw e (
            ground (
              arith,
              KeepsHard-refl n,
              KeepsHard-trans n m _ kept (check_and_store-KeepsHard now req l m),
            ))
      ]

  pub receive_with-KeepsHard :
      (o : Option SnapshotReceiver) (req : InstallSnapshotRequest) (n : Node L S)
      → KeepsHard n (receive_with st sm o req n).0
  unfolding receive_with
  receive_with-KeepsHard none req n = KeepsHard-refl n
  receive_with-KeepsHard (some r) req n = same-KeepsHard n _ (storage-receive_chunk st sm r req n)

  pub snapshot-KeepsHard :
      (n : Node L S) (req : InstallSnapshotRequest)
      → KeepsHard n (on_install_snapshot st sm n req).0
  unfolding on_install_snapshot
  snapshot-KeepsHard n req =
      let f : Node L S = become_follower req.term n in
      ground (
        arith,
        KeepsHard-refl n,
        receive_with-KeepsHard n.receiver req n,
        KeepsHard-trans n f _ (become_follower-KeepsHard req.term n)
            (receive_with-KeepsHard f.receiver req f),
      )

  pub replicate_alone-KeepsHard :
      (now : ℕ) (n : Node L S) → KeepsHard n (replicate_alone st sm now n).node
  unfolding replicate_alone
  replicate_alone-KeepsHard now n =
      let c : Node L S = maybe_auto_finalize_joint st (advance_commit_index st n) in
      let same : c.storage ≡ n.storage =
        storage-finalize st (advance_commit_index st n) ∙ storage-advance st n in
      ground (
        arith,
        KeepsHard-refl n,
        KeepsHard-trans n c _ (same-KeepsHard n c same) (apply-KeepsHard st sm now c),
      )

  pub replicate_end-KeepsHard :
      (now : ℕ) (t : Term) (reqs : List PeerReq) (os : List Outcome) (n : Node L S)
      → KeepsHard n (replicate_end st sm now t reqs os n).0.node
  unfolding replicate_end
  replicate_end-KeepsHard now t reqs os n =
      let o : Node L S = note_outcomes reqs os n in
      let c : Node L S = maybe_auto_finalize_joint st (advance_commit_index st o) in
      let same : c.storage ≡ n.storage =
        storage-finalize st (advance_commit_index st o)
        ∙ (storage-advance st o ∙ storage-note_outcomes reqs os n) in
      ground (
        arith,
        KeepsHard-refl n,
        become_follower-KeepsHard (max_outcome_term t os) n,
        KeepsHard-trans n c _ (same-KeepsHard n c same) (apply-KeepsHard st sm now c),
      )

  pub replay_log-KeepsHard :
      (now : ℕ) (l : L) (n : Node L S) → KeepsHard n (replay_log st sm now l n).node
  unfolding replay_log
  replay_log-KeepsHard now l n = ground (
    arith,
    KeepsHard-refl n,
    apply-KeepsHard st sm now (record n { commit_index = st.last_index l }),
  )

  pub replay_with-KeepsHard :
      (now : ℕ) (a : Option S) (b : Option L) (n : Node L S)
      → KeepsHard n (replay_with st sm now a b n).node
  unfolding replay_with
  replay_with-KeepsHard now (some s) (some l) n = replay_log-KeepsHard now l n
  replay_with-KeepsHard now none b n = KeepsHard-refl n
  replay_with-KeepsHard now (some s) none n = KeepsHard-refl n

  pub replay-KeepsHard :
      (now : ℕ) (n : Node L S) → KeepsHard n (replay_unapplied_logs st sm now n).node
  unfolding replay_unapplied_logs
  replay-KeepsHard now n = replay_with-KeepsHard now n.machine n.log n
