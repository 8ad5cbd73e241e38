-- ===== src/Raft/Node/Steps/Elections.antt =====
-- The hard state under the elections, the ticks and the reads of server/raft/raft_node.cc.
use maxredis.Base.{
  ℕ, ◌≡◌, Bool, List, arith, Bool-cases, inl, inr, ltb, if◌then◌else◌, leb, sub64, bytes_eq_iff,
}
use maxredis.Raft.Types.{
  Term, NodeId, follower, VoteRequest, VoteResponse, HeartbeatRequest, HeartbeatResponse,
  ReadIndexRequest, ReadIndexResponse, TimeoutNowRequest,
}
use maxredis.Raft.LogStorage.{LogStorage}
use maxredis.Raft.Storage
use maxredis.Raft.Node.{
  Node, current_term, voted_for, set_role, become_follower, become_candidate, get_peer_ids,
  last_index_or,
}
use maxredis.Raft.Node.Frame.{set_role-Turns}
use maxredis.Raft.Node.Election.{
  on_election_timeout, on_request_vote, decide_vote, campaign, election_begin, election_end, Tally,
  tally, count_votes, step_back, try_become_leader, bootstrap_single_node,
}
use maxredis.Raft.Node.Follower.{on_timeout_now}
use maxredis.Raft.Node.Leader.{
  tick_majority, check_quorum_ms, max_peer_term, some_behind, ack_count, step_down, heartbeat_end,
  tick_quorum, note_round, extend_leader_lease,
}
use maxredis.Raft.Node.Leader.Reads.{max_read_term, read_index_end}
use maxredis.Raft.Node.Steps.{HasNextTerm}
use maxredis.Raft.Node.Steps.Hard.{
  KeepsHard, KeepsHard-refl, KeepsHard-trans, same-KeepsHard, become_follower-KeepsHard,
  new_term-KeepsHard, become_candidate-KeepsHard, become_leader-KeepsHard,
}
use maxredis.Raft.Node.Steps.Blocks.{storage-tick_transfer, storage-note_round}

module _ {L S : Type 0} (st : LogStorage L) where
  pub decide_vote-KeepsHard :
      (n : Node L S) (req : VoteRequest) → KeepsHard n (decide_vote st n req).0
  unfolding decide_vote Storage.set_voted_for
  decide_vote-KeepsHard n req = ground (arith, bytes_eq_iff (voted_for n) req.candidate_id)

  pub vote-KeepsHard : (n : Node L S) (req : VoteRequest) → KeepsHard n (on_request_vote st n req).0
  unfolding on_request_vote
  vote-KeepsHard n req =
      let m : Node L S = become_follower req.term n in
      ground (
        arith,
        KeepsHard-refl n,
        decide_vote-KeepsHard n req,
        KeepsHard-trans _ _ _ (become_follower-KeepsHard req.term n) (decide_vote-KeepsHard m req),
      )

  pub try_become_leader-KeepsHard :
      (now : ℕ) (n : Node L S) → KeepsHard n (try_become_leader st now n)
  unfolding try_become_leader
  try_become_leader-KeepsHard now n =
      ground (arith, KeepsHard-refl n, become_leader-KeepsHard st now n)

  pub step_back-KeepsHard : (n : Node L S) → KeepsHard n (step_back st n)
  unfolding step_back
  step_back-KeepsHard n = ground (
    arith,
    KeepsHard-refl n,
    same-KeepsHard n (set_role follower n) (set_role-Turns follower n).storage,
  )

  storage-count_votes : (t : Tally) (n : Node L S) → (count_votes st t n).storage ≡ n.storage
  unfolding count_votes
  storage-count_votes t n = ground arith

  pub election_end-KeepsHard :
      (now : ℕ) (req : VoteRequest) (rsps : List (NodeId × VoteResponse)) (n : Node L S)
      → KeepsHard n (election_end st now req rsps n).0
  unfolding election_end
  election_end-KeepsHard now req rsps n =
      let t : Tally = tally req.term rsps in
      let c : Node L S = count_votes st t n in
      let b : Node L S = try_become_leader st now c in
      let counted : KeepsHard n c = same-KeepsHard n c (storage-count_votes t n) in
      let elected : KeepsHard n b =
        KeepsHard-trans n c b counted (try_become_leader-KeepsHard now c) in
      ground (
        arith,
        KeepsHard-refl n,
        become_follower-KeepsHard t.max_term n,
        KeepsHard-trans n b (step_back st b) elected (step_back-KeepsHard b),
      )

  pub election_begin-KeepsHard :
      (n : Node L S) → HasNextTerm n → KeepsHard n (election_begin st n).0
  unfolding election_begin campaign
  election_begin-KeepsHard n h =
      ground (arith, KeepsHard-refl n, become_candidate-KeepsHard n h, new_term-KeepsHard n h)

  pub bootstrap-KeepsHard :
      (now : ℕ) (n : Node L S) → HasNextTerm n → KeepsHard n (bootstrap_single_node st now n).0
  unfolding bootstrap_single_node
  bootstrap-KeepsHard now n h =
      let c : Node L S = become_candidate n in
      ground (
        arith,
        KeepsHard-refl n,
        KeepsHard-trans n c _ (become_candidate-KeepsHard n h) (become_leader-KeepsHard st now c),
      )

  pub step_down-KeepsHard : (n : Node L S) → KeepsHard n (step_down n)
  unfolding step_down
  step_down-KeepsHard n =
      ground (arith, KeepsHard-refl n, become_follower-KeepsHard (current_term n) n)

  pub tick_quorum-KeepsHard :
      (now acks : ℕ) (behind : Bool) (n : Node L S)
      → KeepsHard n (tick_quorum st now acks behind n).node
  unfolding tick_quorum extend_leader_lease
  tick_quorum-KeepsHard now acks behind n = elim (Bool-cases (leb (tick_majority st n) acks)) [
    | inl h ↦ rw h (same-KeepsHard n _ (storage-tick_transfer st now behind _))
    | inr h ↦ elim (Bool-cases (ltb check_quorum_ms (sub64 now n.last_majority_ack_ms))) [
      | inl g ↦ rw (h, g) (step_down-KeepsHard n)
      | inr g ↦ rw (h, g) (same-KeepsHard n _ (storage-tick_transfer st now behind n))
    ]
  ]

  pub tick-KeepsHard :
      (is_loop : Bool) (epoch now : ℕ) (req : HeartbeatRequest)
      (rsps : List (NodeId × HeartbeatResponse)) (n : Node L S)
      → KeepsHard n (heartbeat_end st is_loop epoch now req rsps n).node
  unfolding heartbeat_end
  tick-KeepsHard is_loop epoch now req rsps n =
      let r : Node L S = note_round st req.term rsps n in
      let behind : Bool = some_behind req.term (last_index_or st n.log) (get_peer_ids n) rsps in
      ground (
        arith,
        KeepsHard-refl n,
        become_follower-KeepsHard (max_peer_term req.term rsps) n,
        KeepsHard-trans n r _ (same-KeepsHard n r (storage-note_round st req.term rsps n))
            (tick_quorum-KeepsHard now (ack_count req.term rsps) behind r),
      )

module _ {L S : Type 0} where
  pub timeout-KeepsHard : (n : Node L S) → HasNextTerm n → KeepsHard n (on_election_timeout n)
  unfolding on_election_timeout
  timeout-KeepsHard n h = ground (arith, KeepsHard-refl n, become_candidate-KeepsHard n h)

  pub follow-KeepsHard :
      (t : Term) (n : Node L S)
      → KeepsHard n (if ltb (current_term n) t then become_follower t n else n)
  follow-KeepsHard t n = ground (arith, KeepsHard-refl n, become_follower-KeepsHard t n)

  pub timeout_now-KeepsHard :
      (n : Node L S) (req : TimeoutNowRequest) → KeepsHard n (on_timeout_now n req).0
  unfolding on_timeout_now
  timeout_now-KeepsHard n req =
      ground (arith, KeepsHard-refl n, become_follower-KeepsHard req.term n)

  pub read_done-KeepsHard :
      (now : ℕ) (req : ReadIndexRequest) (rsps : List ReadIndexResponse) (n : Node L S)
      → KeepsHard n (read_index_end now req rsps n).0
  unfolding read_index_end extend_leader_lease
  read_done-KeepsHard now req rsps n =
      ground (arith, KeepsHard-refl n, become_follower-KeepsHard (max_read_term req.term rsps) n)
