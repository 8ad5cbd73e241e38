-- ===== src/Scenarios/Elections.antt =====
-- Elections of the concrete node.
use maxredis.Base.{
  suc, ◌≢◌, ℕ, ◌≡◌, ◌≤◌, refl, true, false, List, [], ◌∷◌, arith, ◌<◌, ◌⊎◌, ◌↔◌, bytes_eq,
}
use maxredis.Raft.Types.{
  NodeId, follower, candidate, leader, joint, VoteRequest, VoteResponse, JointConfig,
}
use maxredis.Raft.NodeSet
use maxredis.Raft.Storage
use maxredis.Raft.ElectionTimer
use maxredis.Raft.CommandLog
use maxredis.Raft.CommandLog.{CommandLog}
use maxredis.Scenarios.{n1, n2, n3, counter, two_entries, node}
use maxredis.Raft.Node.{
  Node, current_term, become_follower, set_role, stop_heartbeat, arm_timer, cancel_transfer,
}
use maxredis.Raft.Node.Election.{
  on_request_vote, decide_vote, vote_reply, majority_of, election_end, tally, count_votes,
  step_back, try_become_leader,
}
use maxredis.Raft.Node.{
  become_leader, become_leader_init_peers, get_peer_ids, start_heartbeat, without, union,
}
use maxredis.Raft.Node.Election.Vote.{vote_granted_iff, VoteIsFree, UpToDate}
use maxredis.Raft.Node.Election.Won.{
  won_by_majority, won_by_both_majorities, grants, votes_in, NoneAbove,
}
use maxredis.Raft.Node.Election.{config_votes}
use maxredis.Raft.Node.Steps.{Steps}
use maxredis.Raft.Node.Steps.Votes.{one_vote_per_term}

-- Votes: n2 asks in term 3, twice.
abbrev ask : VoteRequest
ask = record { group_id = 1; term = 3; candidate_id = n2; last_log_index = 2; last_log_term = 2 }

abbrev idle : Node CommandLog ℕ
idle = node follower two_entries 0

ask_granted : (on_request_vote CommandLog.storage idle ask).1.vote_granted ≡ true
unfolding on_request_vote decide_vote vote_reply become_follower set_role stop_heartbeat arm_timer
    cancel_transfer Storage.set_state Storage.flush Storage.set_voted_for CommandLog.storage
    CommandLog.last_index CommandLog.last_term ElectionTimer.reset ElectionTimer.start
ask_granted = refl

ask_again_granted :
    (on_request_vote CommandLog.storage
      (on_request_vote CommandLog.storage idle ask).0
      ask).1.vote_granted
    ≡ true
unfolding on_request_vote decide_vote vote_reply become_follower set_role stop_heartbeat arm_timer
    cancel_transfer Storage.set_state Storage.flush Storage.set_voted_for CommandLog.storage
    CommandLog.last_index CommandLog.last_term ElectionTimer.reset ElectionTimer.start bytes_eq
ask_again_granted = refl

named : n2 ≢ []
named h = ground arith

one_vote_per_term_example : ask.candidate_id ≡ ask.candidate_id
one_vote_per_term_example =
    one_vote_per_term CommandLog.storage counter idle
      (on_request_vote CommandLog.storage idle ask).0 ask ask ask_granted Steps.here
      ask_again_granted refl named

vote_granted_iff_example : ((on_request_vote CommandLog.storage idle ask).1.vote_granted ≡ true) ↔ (
    (current_term idle ≤ ask.term)
    × ((current_term idle < ask.term) ⊎ VoteIsFree idle ask)
    × UpToDate CommandLog.storage idle ask)
vote_granted_iff_example = vote_granted_iff CommandLog.storage idle ask

-- The node asks in term 2, and n2 grants.
abbrev running : Node CommandLog ℕ
running = node candidate two_entries 0

abbrev asked : VoteRequest
asked = record { group_id = 1; term = 2; candidate_id = n1; last_log_index = 2; last_log_term = 2 }

abbrev answers : List (NodeId × VoteResponse)
answers =
    (n2, record { group_id = 1; term = 2; vote_granted = true })
    ∷ (n3, record { group_id = 1; term = 2; vote_granted = false })
    ∷ []

won : (election_end CommandLog.storage 0 asked answers running).0.role ≡ leader
unfolding election_end tally count_votes step_back try_become_leader become_leader
    become_leader_init_peers become_follower set_role stop_heartbeat start_heartbeat arm_timer
    get_peer_ids without union cancel_transfer CommandLog.storage CommandLog.last_index
    ElectionTimer.deactivate NodeSet.contains NodeSet.insert config_votes bytes_eq
    ElectionTimer.reset ElectionTimer.start
won = refl

won_by_majority_example :
    (majority_of 2 ≤ suc (grants answers)) × (2 ≡ asked.term) × NoneAbove asked.term answers
won_by_majority_example = won_by_majority CommandLog.storage 0 running asked answers refl refl won

abbrev both : JointConfig
both = record {
  old_config = record { version = 1; voters = n1 ∷ n2 ∷ n3 ∷ []; learners = [] };
  new_config = record { version = 2; voters = n1 ∷ n2 ∷ []; learners = [] };
}

abbrev running_joint : Node CommandLog ℕ
running_joint = record running { config_state = joint; joint_config = both }

abbrev two_grants : List (NodeId × VoteResponse)
two_grants =
    (n2, record { group_id = 1; term = 2; vote_granted = true })
    ∷ (n3, record { group_id = 1; term = 2; vote_granted = true })
    ∷ []

won_joint : (election_end CommandLog.storage 0 asked two_grants running_joint).0.role ≡ leader
unfolding election_end tally count_votes step_back try_become_leader become_leader
    become_leader_init_peers become_follower set_role stop_heartbeat start_heartbeat arm_timer
    get_peer_ids without union cancel_transfer CommandLog.storage CommandLog.last_index
    ElectionTimer.deactivate NodeSet.contains NodeSet.insert config_votes bytes_eq
    ElectionTimer.reset ElectionTimer.start
won_joint = refl

won_by_both_majorities_example :
    (majority_of 3 ≤ votes_in n1 both.old_config.voters two_grants)
    × (majority_of 2 ≤ votes_in n1 both.new_config.voters two_grants)
won_by_both_majorities_example =
    won_by_both_majorities CommandLog.storage 0 running_joint asked two_grants refl refl won_joint
