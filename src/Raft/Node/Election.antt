-- ===== src/Raft/Node/Election.antt =====
-- Elections in server/raft/raft_node.cc: OnElectionTimeout, OnRequestVote, the two critical sections
-- of StartElection, TryBecomeLeader and BootstrapSingleNode. The vote RPCs between the two sections
-- of StartElection are their answers, one for each peer in the order of sending.
pub mod Vote
pub mod Won
use maxredis.Base.{
  ℕ, ◌+◌, ◌/◌, Bool, true, false, ◌&&◌, ◌||◌, not, Option, none, some, List, [], ◌∷◌, is_empty,
  length, bytes_eq, ltb, leb, ◌==◌, max, if◌then◌else◌,
}
use maxredis.Raft.Types.{
  leader, RaftRole, Term, NodeId, NodeSet, follower, candidate, is_leader, is_candidate,
  is_follower, is_joint, ElectionResult, VoteRequest, VoteResponse,
}
use maxredis.Raft.NodeSet
use maxredis.Raft.LogStorage.{LogStorage}
use maxredis.Raft.Storage
use maxredis.Raft.Node.{
  Node, current_term, voted_for, get_peer_ids, set_role, become_follower, become_candidate,
  become_candidate_new_term, become_leader, last_index_or, last_term_or,
}

module _ {L S : Type 0} where
  -- `OnElectionTimeout`
  unfoldable pub on_election_timeout : Node L S → Node L S
  on_election_timeout n =
      if n.shutdown then n else if is_follower n.role then become_candidate n else n

  unfoldable pub vote_reply : Node L S → Bool → VoteResponse
  vote_reply n granted = record {
    group_id = n.group_id;
    term = current_term n;
    vote_granted = granted;
  }

-- `total / 2 + 1` where the node is not among the `others`.
abbrev pub majority_of : ℕ → ℕ
majority_of others = (others + 1) / 2 + 1

module _ {L S : Type 0} (st : LogStorage L) where
  -- The part of `OnRequestVote` behind the term checks.
  unfoldable pub decide_vote : Node L S → VoteRequest → Node L S × VoteResponse
  decide_vote n req =
      let voted = voted_for n in
      let local_last_term = last_term_or st n.log in
      let local_last_index = last_index_or st n.log in
      if not (is_empty voted) && not (bytes_eq voted req.candidate_id)
      then (n, vote_reply n false)
      else if ltb req.last_log_term local_last_term
      then (n, vote_reply n false)
      else if (req.last_log_term == local_last_term) && ltb req.last_log_index local_last_index
      then (n, vote_reply n false)
      else (let m = record n { storage = Storage.set_voted_for req.candidate_id n.storage } in
          (m, vote_reply m true))

  -- `OnRequestVote`
  unfoldable pub on_request_vote : Node L S → VoteRequest → Node L S × VoteResponse
  on_request_vote n req =
      if ltb req.term (current_term n)
      then (n, vote_reply n false)
      else if ltb (current_term n) req.term
      then decide_vote (become_follower req.term n) req
      else decide_vote n req

  unfoldable pub campaign : RaftRole → Node L S → Node L S
  campaign follower n = become_candidate n
  campaign candidate n = become_candidate_new_term n
  campaign leader n = n

  -- The first section of `StartElection`: the request and the peers, or nothing when the node is
  -- shut down or leads.
  unfoldable pub election_begin : Node L S → Node L S × Option (VoteRequest × List NodeId)
  election_begin n =
      let m = campaign n.role n in
      let req : VoteRequest = record {
        group_id = m.group_id;
        term = current_term m;
        candidate_id = m.node_id;
        last_log_index = last_index_or st m.log;
        last_log_term = last_term_or st m.log;
      } in
      if n.shutdown
      then (n, none)
      else if is_candidate m.role
      then (m, some (req, get_peer_ids m))
      else (m, none)

  -- `TryBecomeLeaderLocked`
  unfoldable pub try_become_leader : ℕ → Node L S → Node L S
  try_become_leader now n =
      if is_joint n.config_state
      then (if leb (majority_of (length n.joint_config.old_config.voters)) n.old_config_votes
            && leb (majority_of (length n.joint_config.new_config.voters)) n.new_config_votes
          then become_leader st now n
          else n)
      else if leb (majority_of (length n.cluster_config.voters)) n.vote_count
      then become_leader st now n
      else n

  -- `TryBecomeLeader`
  unfoldable pub try_become_leader_public : ℕ → ElectionResult → Node L S → Node L S × Bool
  try_become_leader_public now result n =
      let m = try_become_leader now (record n { vote_count = result.votes_received }) in
      (m, is_leader m.role)

  -- `BootstrapSingleNode`
  unfoldable pub bootstrap_single_node : ℕ → Node L S → Node L S × Bool
  bootstrap_single_node now n =
      if is_leader n.role
      then (n, true)
      else if not (is_empty (get_peer_ids n))
      then (n, false)
      else (become_leader st now (become_candidate n), true)

-- The loop over the peers: who granted, how many did not, and the highest term that was answered.
pub record Tally : Type 0 where
  pub granters : List NodeId
  pub received : ℕ
  pub rejected : ℕ
  pub max_term : Term

unfoldable pub tally : Term → List (NodeId × VoteResponse) → Tally
tally term [] = record { granters = []; received = 1; rejected = 0; max_term = term }
tally term ((peer, rsp) ∷ rest) =
    let t = tally term rest in
    let m = max rsp.term t.max_term in
    if rsp.vote_granted
    then record t { granters = peer ∷ t.granters; received = t.received + 1; max_term = m }
    else record t { rejected = t.rejected + 1; max_term = m }

-- The votes of one configuration: the node's own, and those of the granters that are its voters.
unfoldable pub config_votes : NodeId → NodeSet → List NodeId → ℕ
config_votes self voters [] = if is_empty voters || NodeSet.contains self voters then 1 else 0
config_votes self voters (g ∷ gs) =
    let rest = config_votes self voters gs in if NodeSet.contains g voters then rest + 1 else rest

module _ {L S : Type 0} (st : LogStorage L) where
  -- The votes are counted, in both configurations of a joint one.
  unfoldable pub count_votes : Tally → Node L S → Node L S
  count_votes t n =
      let m = record n { vote_count = t.received } in
      if is_joint n.config_state
      then record m {
        old_config_votes = config_votes n.node_id n.joint_config.old_config.voters t.granters;
        new_config_votes = config_votes n.node_id n.joint_config.new_config.voters t.granters;
      }
      else m

  -- A round that is lost ends in a step back to Follower, unless the node is shut down.
  unfoldable pub step_back : Node L S → Node L S
  step_back n = if is_candidate n.role && not n.shutdown then set_role follower n else n

  -- The last section of `StartElection`.
  unfoldable pub election_end :
      ℕ → VoteRequest → List (NodeId × VoteResponse) → Node L S → Node L S × ElectionResult
  election_end now req answers n =
      let t = tally req.term answers in
      let result : ElectionResult = record {
        votes_received = t.received;
        votes_rejected = t.rejected;
      } in
      if ltb (current_term n) t.max_term
      then (become_follower t.max_term n, result)
      else if not (is_candidate n.role) || not (current_term n == req.term)
      then (n, result)
      else (step_back (try_become_leader st now (count_votes t n)), result)
