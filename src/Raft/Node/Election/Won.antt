-- ===== src/Raft/Node/Election/Won.antt =====
-- The end of `StartElection` in server/raft/raft_node.cc: which elections are won.
use maxredis.Base.{
  ℕ, suc, ◌+◌, ◌≤◌, ◌≡◌, refl, ◌∙◌, ap, List, [], ◌∷◌, arith, length, if◌then◌else◌, ◌&&◌, ◌||◌,
  is_empty,
}
use maxredis.Raft.Types.{
  Term, NodeId, NodeSet, follower, leader, candidate, stable, joint, VoteRequest, VoteResponse,
}
use maxredis.Raft.NodeSet.Members.{is_member, contains-is_member}
use maxredis.Raft.LogStorage.{LogStorage}
use maxredis.Raft.Node.{Node, current_term}
use maxredis.Raft.Node.Frame.{set_role-Turns, role-become_follower}
use maxredis.Raft.Node.Election.{
  majority_of, tally, config_votes, count_votes, step_back, try_become_leader, election_end,
}

-- How many of the answers grant the vote.
abbrev pub grants : List (NodeId × VoteResponse) → ℕ
grants [] = 0
grants ((peer, rsp) ∷ rest) = (if rsp.vote_granted then 1 else 0) + grants rest

-- The peers that grant it.
abbrev granters_of : List (NodeId × VoteResponse) → List NodeId
granters_of [] = []
granters_of ((peer, rsp) ∷ rest) =
    if rsp.vote_granted then peer ∷ granters_of rest else granters_of rest

-- The votes of a configuration that a candidate has: its own, if it is a voter or none is named, and
-- one for each answer of a voter that grants it.
abbrev pub granted_by : NodeSet → List (NodeId × VoteResponse) → ℕ
granted_by voters [] = 0
granted_by voters ((peer, rsp) ∷ rest) =
    (if rsp.vote_granted && is_member peer voters then 1 else 0) + granted_by voters rest

abbrev pub votes_in : NodeId → NodeSet → List (NodeId × VoteResponse) → ℕ
votes_in self voters answers =
    (if is_empty voters || is_member self voters then 1 else 0) + granted_by voters answers

config_votes_lem :
    (self : NodeId) (voters : NodeSet) (answers : List (NodeId × VoteResponse))
    → config_votes self voters (granters_of answers) ≡ votes_in self voters answers
unfolding config_votes
config_votes_lem self voters [] = ground (arith, contains-is_member self voters)
config_votes_lem self voters ((peer, rsp) ∷ rest) =
    ground (arith, contains-is_member peer voters, config_votes_lem self voters rest)

-- No answer is of a term above `t`.
abbrev pub NoneAbove : Term → List (NodeId × VoteResponse) → Type 0
NoneAbove t [] = Unit
NoneAbove t ((peer, rsp) ∷ rest) = (rsp.term ≤ t) × NoneAbove t rest

received-tally :
    (t : Term) (answers : List (NodeId × VoteResponse))
    → (tally t answers).received ≡ suc (grants answers)
unfolding tally
received-tally t [] = ground arith
received-tally t ((peer, rsp) ∷ rest) = ground (arith, received-tally t rest)

granters-tally :
    (t : Term) (answers : List (NodeId × VoteResponse))
    → (tally t answers).granters ≡ granters_of answers
unfolding tally
granters-tally t [] = refl
granters-tally t ((peer, rsp) ∷ rest) = ground (arith, granters-tally t rest)

max_term-tally :
    (t u : Term) (answers : List (NodeId × VoteResponse))
    → (tally t answers).max_term ≤ u
    → NoneAbove u answers
unfolding tally
max_term-tally t u [] h = tt
max_term-tally t u ((peer, rsp) ∷ rest) h = (ground arith, max_term-tally t u rest (ground arith))

module _ {L S : Type 0} (st : LogStorage L) (now : ℕ) (n : Node L S) where
  step_back-leader : (step_back st n).role ≡ leader → n.role ≡ leader
  unfolding step_back
  step_back-leader h = ground (arith, set_role-Turns follower n)

  stable_leader :
      n.role ≡ candidate
      → n.config_state ≡ stable
      → (try_become_leader st now n).role ≡ leader
      → majority_of (length n.cluster_config.voters) ≤ n.vote_count
  unfolding try_become_leader
  stable_leader r s h = ground arith

  joint_leader :
      n.role ≡ candidate
      → n.config_state ≡ joint
      → (try_become_leader st now n).role ≡ leader
      → (majority_of (length n.joint_config.old_config.voters) ≤ n.old_config_votes)
        × (majority_of (length n.joint_config.new_config.voters) ≤ n.new_config_votes)
  unfolding try_become_leader
  joint_leader r s h = (ground arith, ground arith)

  ends_counted :
      (req : VoteRequest) (answers : List (NodeId × VoteResponse))
      → n.role ≡ candidate
      → (election_end st now req answers n).0.role ≡ leader
      → ((tally req.term answers).max_term ≤ current_term n)
        × (current_term n ≡ req.term)
        × ((step_back st
              (try_become_leader st now (count_votes st (tally req.term answers) n))).role
            ≡ leader)
  unfolding election_end
  ends_counted req answers r h =
      let t = tally req.term answers in
      let down = role-become_follower t.max_term n in (ground arith, ground arith, ground arith)

module _ {L S : Type 0} (st : LogStorage L) (now : ℕ) (n : Node L S) (req : VoteRequest)
    (answers : List (NodeId × VoteResponse)) where
  stable_count :
      n.config_state ≡ stable
      → let m = count_votes st (tally req.term answers) n in
        (m.role ≡ n.role)
        × (m.config_state ≡ n.config_state)
        × (m.cluster_config ≡ n.cluster_config)
        × (m.vote_count ≡ (tally req.term answers).received)
  unfolding count_votes
  stable_count s = (ground arith, ground arith, ground arith, ground arith)

  joint_count :
      n.config_state ≡ joint
      → let m = count_votes st (tally req.term answers) n in
        let gs = (tally req.term answers).granters in
        (m.role ≡ n.role)
        × (m.config_state ≡ n.config_state)
        × (m.joint_config ≡ n.joint_config)
        × (m.old_config_votes ≡ config_votes n.node_id n.joint_config.old_config.voters gs)
        × (m.new_config_votes ≡ config_votes n.node_id n.joint_config.new_config.voters gs)
  unfolding count_votes
  joint_count s = (ground arith, ground arith, ground arith, ground arith, ground arith)

  -- A candidate outside a joint configuration that leads when its election is over got a majority of
  -- the votes with its own, still is in the term that it asked in, and was answered no higher term.
  pub won_by_majority :
      n.role ≡ candidate
      → n.config_state ≡ stable
      → (election_end st now req answers n).0.role ≡ leader
      → (majority_of (length n.cluster_config.voters) ≤ suc (grants answers))
        × (current_term n ≡ req.term)
        × NoneAbove req.term answers
  won_by_majority r s h =
      let (low, same, won) = ends_counted st now n req answers r h in
      let m = count_votes st (tally req.term answers) n in
      let (m_role, m_state, m_config, votes) = stable_count s in
      let enough =
        stable_leader st now m (m_role ∙ r) (m_state ∙ s)
          (step_back-leader st now (try_become_leader st now m) won) in
      (
        omega (arith, received-tally req.term answers, ap (λ z. length z.voters) m_config),
        same,
        max_term-tally req.term req.term answers (omega arith),
      )

  -- A candidate in a joint configuration that leads when its election is over got a majority of the
  -- votes of the old configuration and one of the new; its own vote counts in a configuration that
  -- lists it or that has no voters.
  pub won_by_both_majorities :
      n.role ≡ candidate
      → n.config_state ≡ joint
      → (election_end st now req answers n).0.role ≡ leader
      → let old = n.joint_config.old_config.voters in
        let new = n.joint_config.new_config.voters in
        (majority_of (length old) ≤ votes_in n.node_id old answers)
        × (majority_of (length new) ≤ votes_in n.node_id new answers)
  won_by_both_majorities r s h =
      let (low, same, won) = ends_counted st now n req answers r h in
      let m = count_votes st (tally req.term answers) n in
      let (m_role, m_state, m_config, old_votes, new_votes) = joint_count s in
      let (old, new) =
        joint_leader st now m (m_role ∙ r) (m_state ∙ s)
          (step_back-leader st now (try_become_leader st now m) won) in
      let gs = granters-tally req.term answers in
      let voters_old = n.joint_config.old_config.voters in
      let voters_new = n.joint_config.new_config.voters in
      (
        omega (
          arith,
          old_votes,
          ap (λ z. config_votes n.node_id voters_old z) gs,
          config_votes_lem n.node_id voters_old answers,
          ap (λ z. length z.old_config.voters) m_config,
        ),
        omega (
          arith,
          new_votes,
          ap (λ z. config_votes n.node_id voters_new z) gs,
          config_votes_lem n.node_id voters_new answers,
          ap (λ z. length z.new_config.voters) m_config,
        ),
      )
