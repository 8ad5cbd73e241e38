-- ===== src/Raft/Node/Steps/Votes.antt =====
-- Terms and votes of one node over any sequence of the critical sections of
-- server/raft/raft_node.cc. `SetRole`, a hook of the tests that clears the vote of the current term,
-- is not among the steps.
use maxredis.Base.{◌≡◌, ◌≢◌, true, [], arith}
use maxredis.Raft.Types.{VoteRequest}
use maxredis.Raft.LogStorage.{LogStorage}
use maxredis.Raft.StateMachine.{StateMachine}
use maxredis.Raft.Storage
use maxredis.Raft.Node.{Node, current_term, voted_for, become_follower}
use maxredis.Raft.Node.Frame.{storage-become_follower, storage-cancel_transfer}
use maxredis.Raft.Node.Election.{on_request_vote, decide_vote, vote_reply}
use maxredis.Raft.Node.Election.Vote.{vote_granted_iff}
use maxredis.Raft.Node.Follower.{}
use maxredis.Raft.Node.Steps.{Step, Steps}
use maxredis.Raft.Node.Steps.Hard.{
  KeepsHard, KeepsHard-refl, KeepsHard-trans, same-KeepsHard, apply-KeepsHard,
}
use maxredis.Raft.Node.Steps.Blocks.{
  storage-advance_public, storage-begin_config_change, storage-submit_append, storage-capture,
  storage-transfer_end, storage-transfer_begin, storage-read_index_begin, storage-timeout_now_end,
}
use maxredis.Raft.Node.Steps.Elections.{
  vote-KeepsHard, election_begin-KeepsHard, election_end-KeepsHard, bootstrap-KeepsHard,
  tick-KeepsHard, timeout-KeepsHard, timeout_now-KeepsHard, read_done-KeepsHard,
}
use maxredis.Raft.Node.Steps.Followers.{
  heartbeat-KeepsHard, append-KeepsHard, snapshot-KeepsHard, replicate_alone-KeepsHard,
  replicate_end-KeepsHard, replay-KeepsHard,
}

module _ {L S : Type 0} (st : LogStorage L) (sm : StateMachine S) where
  -- A step does not lower the term, keeps the vote of a term that stays, and writes what it changes.
  pub Step-KeepsHard : {n m : Node L S} → Step st sm n m → KeepsHard n m
  Step-KeepsHard {n} (Step.vote req) = vote-KeepsHard st n req
  Step-KeepsHard {n} (Step.heartbeat now req) = heartbeat-KeepsHard st sm now n req
  Step-KeepsHard {n} (Step.append now req) = append-KeepsHard st sm now n req
  Step-KeepsHard {n} (Step.snapshot req) = snapshot-KeepsHard st sm n req
  Step-KeepsHard {n} (Step.timeout_now req) = timeout_now-KeepsHard n req
  Step-KeepsHard {n} (Step.timeout h) = timeout-KeepsHard n h
  Step-KeepsHard {n} (Step.campaign h) = election_begin-KeepsHard st n h
  Step-KeepsHard {n} (Step.elect now req rsps) = election_end-KeepsHard st now req rsps n
  Step-KeepsHard {n} (Step.bootstrap now h) = bootstrap-KeepsHard st now n h
  Step-KeepsHard {n} (Step.tick b epoch now req rsps) = tick-KeepsHard st b epoch now req rsps n
  Step-KeepsHard {n} (Step.read now) = same-KeepsHard n _ (storage-read_index_begin now n)
  Step-KeepsHard {n} (Step.read_done now req rsps) = read_done-KeepsHard now req rsps n
  Step-KeepsHard {n} (Step.transfer now t) = same-KeepsHard n _ (storage-transfer_begin now t n)
  Step-KeepsHard {n} (Step.transferred t) = same-KeepsHard n _ (storage-transfer_end st t n)
  Step-KeepsHard {n} (Step.timeout_answered r) = same-KeepsHard n _ (storage-timeout_now_end r n)
  Step-KeepsHard {n} Step.cancelled = same-KeepsHard n _ (storage-cancel_transfer n)
  Step-KeepsHard {n} (Step.submit e) = same-KeepsHard n _ (storage-submit_append st e n)
  Step-KeepsHard {n} (Step.replicate_captured l) = same-KeepsHard n _ (storage-capture st l n)
  Step-KeepsHard {n} (Step.replicated now t reqs os) = replicate_end-KeepsHard st sm now t reqs os n
  Step-KeepsHard {n} (Step.replicated_alone now) = replicate_alone-KeepsHard st sm now n
  Step-KeepsHard {n} Step.advanced = same-KeepsHard n _ (storage-advance_public st n)
  Step-KeepsHard {n} (Step.applied now) = apply-KeepsHard st sm now n
  Step-KeepsHard {n} (Step.replayed now) = replay-KeepsHard st sm now n
  Step-KeepsHard {n} (Step.configured c) = same-KeepsHard n _ (storage-begin_config_change st c n)

  pub Steps-KeepsHard : {n m : Node L S} → Steps st sm n m → KeepsHard n m
  Steps-KeepsHard {n} Steps.here = KeepsHard-refl n
  Steps-KeepsHard {n} {m} (Steps.then {m = k} ss s) =
      KeepsHard-trans n k m (Steps-KeepsHard ss) (Step-KeepsHard s)

-- What a granted vote leaves behind: the term of the request, with the vote for its candidate.
module _ {L S : Type 0} (st : LogStorage L) (n : Node L S) (req : VoteRequest) where
  decide_granted_state :
      (k : Node L S)
      → (decide_vote st k req).1.vote_granted ≡ true
      → (current_term (decide_vote st k req).0 ≡ current_term k)
        × (voted_for (decide_vote st k req).0 ≡ req.candidate_id)
  unfolding decide_vote vote_reply Storage.set_voted_for
  decide_granted_state k h = ground arith

  vote_granted_state :
      (on_request_vote st n req).1.vote_granted ≡ true
      → (current_term (on_request_vote st n req).0 ≡ req.term)
        × (voted_for (on_request_vote st n req).0 ≡ req.candidate_id)
  unfolding on_request_vote vote_reply Storage.set_state
  vote_granted_state h = ground (
    arith,
    storage-become_follower req.term n,
    decide_granted_state n,
    decide_granted_state (become_follower req.term n),
  )

module _ {L S : Type 0} (st : LogStorage L) (sm : StateMachine S) where
  -- A node that granted its vote to a candidate and then, after any steps, grants a vote in the same
  -- term, grants it to the same candidate.
  pub one_vote_per_term :
      (n m : Node L S) (first second : VoteRequest)
      → (on_request_vote st n first).1.vote_granted ≡ true
      → Steps st sm (on_request_vote st n first).0 m
      → (on_request_vote st m second).1.vote_granted ≡ true
      → second.term ≡ first.term
      → first.candidate_id ≢ []
      → second.candidate_id ≡ first.candidate_id
  one_vote_per_term n m first second granted steps again same_term named =
      let left = vote_granted_state st n first granted in
      let kept = Steps-KeepsHard st sm steps in
      let free = (vote_granted_iff st m second).0 again in
      let stays : current_term (on_request_vote st n first).0 ≡ current_term m =
        omega (arith, left, kept.term_le, free.0, same_term) in
      let same : voted_for m ≡ voted_for (on_request_vote st n first).0 =
        kept.vote_kept stays (λ e. named (cc)) in
      ground (arith, left, free, same, stays)
