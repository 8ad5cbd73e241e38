-- ===== src/Raft/Node/Election/Vote.antt =====
-- When `OnRequestVote` of server/raft/raft_node.cc grants a vote, and what it leaves behind.
use maxredis.Base.{
  ◌≤◌, ◌<◌, ◌≡◌, ◌⊎◌, ◌↔◌, true, [], ◌∷◌, bytes_eq_iff, is_empty, arith, if◌then◌else◌,
}
use maxredis.Raft.Types.{NodeId, VoteRequest}
use maxredis.Raft.LogStorage.{LogStorage}
use maxredis.Raft.Storage
use maxredis.Raft.Node.{Node, current_term, voted_for, become_follower, last_index_or, last_term_or}
use maxredis.Raft.Node.Frame.{storage-become_follower, become_follower-SameData}
use maxredis.Raft.Node.Election.{on_request_vote, decide_vote, vote_reply}

is_empty_iff : (id : NodeId) → (is_empty id ≡ true) ↔ (id ≡ [])
is_empty_iff [] = ground arith
is_empty_iff (c ∷ cs) = ground arith

-- The candidate's log reaches at least as far as the node's own.
abbrev pub UpToDate : {L S : Type 0} → LogStorage L → Node L S → VoteRequest → Type 0
UpToDate st n req =
    (last_term_or st n.log < req.last_log_term)
    ⊎ ((last_term_or st n.log ≡ req.last_log_term) × (last_index_or st n.log ≤ req.last_log_index))

-- The node has not given its vote to another.
abbrev pub VoteIsFree : {L S : Type 0} → Node L S → VoteRequest → Type 0
VoteIsFree n req = (voted_for n ≡ []) ⊎ (voted_for n ≡ req.candidate_id)

module _ {L S : Type 0} (st : LogStorage L) (n : Node L S) (req : VoteRequest) where
  decide_vote_iff :
      ((decide_vote st n req).1.vote_granted ≡ true) ↔ (VoteIsFree n req × UpToDate st n req)
  unfolding decide_vote vote_reply
  decide_vote_iff =
      ground (arith, bytes_eq_iff (voted_for n) req.candidate_id, is_empty_iff (voted_for n))

  -- A grant stores the vote, in the same term; a refusal changes nothing.
  storage-decide_vote : (decide_vote st n req).0.storage ≡ (
      if (decide_vote st n req).1.vote_granted
      then Storage.set_voted_for req.candidate_id n.storage
      else n.storage)
  unfolding decide_vote vote_reply
  storage-decide_vote = ground arith

module _ {L S : Type 0} (st : LogStorage L) (n : Node L S) (req : VoteRequest) where
  -- A vote is granted exactly when the request's term is not behind, the vote of that term is free
  -- (the term is new to the node, it has not voted in it, or it voted for this candidate), and the
  -- candidate's log is up to date.
  pub vote_granted_iff : ((on_request_vote st n req).1.vote_granted ≡ true) ↔ (
      (current_term n ≤ req.term)
      × ((current_term n < req.term) ⊎ VoteIsFree n req)
      × UpToDate st n req)
  unfolding on_request_vote vote_reply Storage.set_state
  vote_granted_iff = ground (
    arith,
    decide_vote_iff st n req,
    decide_vote_iff st (become_follower req.term n) req,
    storage-become_follower req.term n,
    become_follower-SameData req.term n,
  )
