-- ===== src/Raft/Node/Frame.antt =====
-- What the role transitions of server/raft/raft_node.cc leave alone, and what they do to the term,
-- the vote and the role.
use maxredis.Base.{
  ◌≢◌, refl, true, false, ℕ, ◌+◌, ◌≡◌, [], arith, ltb, u64, Bool-cases, inl, inr, if◌then◌else◌,
}
use maxredis.Raft.Types.{Term, RaftRole, follower, candidate, leader, is_leader}
use maxredis.Raft.LogStorage.{LogStorage}
use maxredis.Raft.Storage
use maxredis.Raft.ElectionTimer
use maxredis.Raft.Node.{
  Node, current_term, set_role, cancel_transfer, arm_timer, stop_heartbeat, start_heartbeat,
  become_follower, become_candidate_new_term, become_leader, become_leader_init_peers,
}

-- What the test of the role says.
pub leader_only : (r : RaftRole) → is_leader r ≡ true → r ≡ leader
leader_only follower h = ground arith
leader_only candidate h = ground arith
leader_only leader h = refl

pub not_leader : (r : RaftRole) → r ≢ leader → is_leader r ≡ false
not_leader follower h = refl
not_leader candidate h = refl
not_leader leader h = absurd (h refl)

-- The parts of the state that no role transition touches.
pub record SameData {L S : Type 0} (n m : Node L S) : Type 0 where
  pub group_id : m.group_id ≡ n.group_id
  pub node_id : m.node_id ≡ n.node_id
  pub log : m.log ≡ n.log
  pub machine : m.machine ≡ n.machine
  pub receiver : m.receiver ≡ n.receiver
  pub commit_index : m.commit_index ≡ n.commit_index
  pub last_applied : m.last_applied ≡ n.last_applied
  pub cluster_config : m.cluster_config ≡ n.cluster_config
  pub config_state : m.config_state ≡ n.config_state
  pub joint_config : m.joint_config ≡ n.joint_config
  pub shutdown : m.shutdown ≡ n.shutdown

module _ {L S : Type 0} (n : Node L S) where
  pub cancel_transfer-SameData : SameData n (cancel_transfer n)
  unfolding cancel_transfer
  cancel_transfer-SameData = ground arith

  pub storage-cancel_transfer : (cancel_transfer n).storage ≡ n.storage
  unfolding cancel_transfer
  storage-cancel_transfer = ground arith

  pub role-cancel_transfer : (cancel_transfer n).role ≡ n.role
  unfolding cancel_transfer
  role-cancel_transfer = ground arith

  pub arm_timer-SameData : SameData n (arm_timer n)
  unfolding arm_timer
  arm_timer-SameData = ground arith

  pub storage-arm_timer : (arm_timer n).storage ≡ n.storage
  unfolding arm_timer
  storage-arm_timer = ground arith

  pub role-arm_timer : (arm_timer n).role ≡ n.role
  unfolding arm_timer
  role-arm_timer = ground arith

-- What a transition to the role `r` does: the data and the hard state stay, and the role is `r`.
pub record Turns {L S : Type 0} (r : RaftRole) (n m : Node L S) : Type 0 where
  pub data_same : SameData n m
  pub storage : m.storage ≡ n.storage
  pub role : m.role ≡ r

module _ {L S : Type 0} where
  pub set_role-Turns : (r : RaftRole) (n : Node L S) → Turns r n (set_role r n)
  unfolding set_role stop_heartbeat start_heartbeat
  set_role-Turns follower n =
      let a : Node L S = record n { role = follower; leader_term = 0; vote_count = 0 } in
      ground (
        arith,
        cancel_transfer-SameData a,
        arm_timer-SameData (cancel_transfer a),
        storage-cancel_transfer a,
        storage-arm_timer (cancel_transfer a),
        role-cancel_transfer a,
        role-arm_timer (cancel_transfer a),
      )
  set_role-Turns candidate n =
      let a : Node L S = record n { role = candidate; vote_count = 1 } in
      ground (arith, cancel_transfer-SameData a, storage-cancel_transfer a, role-cancel_transfer a)
  set_role-Turns leader n =
      let a : Node L S = record n {
        role = leader;
        leader_term = current_term n;
        election_timer = ElectionTimer.deactivate n.election_timer;
      } in
      ground (arith, cancel_transfer-SameData a, storage-cancel_transfer a, role-cancel_transfer a)

  -- A higher term is stored with an empty vote; an equal one keeps the vote.
  pub storage-become_follower :
      (t : Term) (n : Node L S)
      → (become_follower t n).storage
        ≡ (if ltb (current_term n) t then Storage.set_state t [] n.storage else n.storage)
  unfolding become_follower
  storage-become_follower t n = elim (Bool-cases (ltb (current_term n) t)) [
    | inl h ↦
        rw h
          (set_role-Turns follower
            (record n { storage = Storage.set_state t [] n.storage })).storage
    | inr h ↦ rw h (set_role-Turns follower n).storage
  ]

  pub become_follower-SameData : (t : Term) (n : Node L S) → SameData n (become_follower t n)
  unfolding become_follower
  become_follower-SameData t n = ground (
    arith,
    set_role-Turns follower (record n { storage = Storage.set_state t [] n.storage }),
    set_role-Turns follower n,
  )

  pub role-become_follower : (t : Term) (n : Node L S) → (become_follower t n).role ≡ follower
  unfolding become_follower
  role-become_follower t n =
      (set_role-Turns follower (
        if ltb (current_term n) t
        then record n { storage = Storage.set_state t [] n.storage }
        else n)).role

  pub become_candidate_new_term-SameData : (n : Node L S) → SameData n (become_candidate_new_term n)
  unfolding become_candidate_new_term
  become_candidate_new_term-SameData n =
      let a : Node L S = record n {
        storage = Storage.set_state (u64 (current_term n + 1)) n.node_id n.storage;
      } in
      ground (arith, set_role-Turns candidate a)

  -- A new term with a vote for the node itself, in one write.
  pub storage-become_candidate_new_term :
      (n : Node L S)
      → (become_candidate_new_term n).storage
        ≡ Storage.set_state (u64 (current_term n + 1)) n.node_id n.storage
  unfolding become_candidate_new_term
  storage-become_candidate_new_term n =
      (set_role-Turns candidate (record n {
        storage = Storage.set_state (u64 (current_term n + 1)) n.node_id n.storage;
      })).storage

  pub role-become_candidate_new_term :
      (n : Node L S) → (become_candidate_new_term n).role ≡ candidate
  unfolding become_candidate_new_term
  role-become_candidate_new_term n =
      (set_role-Turns candidate (record n {
        storage = Storage.set_state (u64 (current_term n + 1)) n.node_id n.storage;
      })).role

module _ {L S : Type 0} (st : LogStorage L) where
  pub become_leader-Turns : (now : ℕ) (n : Node L S) → Turns leader n (become_leader st now n)
  unfolding become_leader become_leader_init_peers
  become_leader-Turns now n = ground (arith, set_role-Turns leader n)
