-- ===== src/Raft/Node/Commit.antt =====
-- The commit index in server/raft/raft_node.cc: AdvanceCommitIndexLocked, its joint form,
-- MaybeAutoFinalizeJointLocked, BeginConfigChange, ReplayUnappliedLogs and the small setters.
pub mod Sorted
pub mod Quorum
use maxredis.Base.{
  ℕ, ◌+◌, ◌-◌, ◌/◌, min, Bool, true, false, ◌&&◌, not, Option, none, some, List, [], ◌∷◌, is_empty,
  length, get_elem?, ltb, leb, ◌==◌, if◌then◌else◌,
}
use maxredis.Raft.Types.{
  Term, LogIndex, NodeId, NodeSet, LogEntry, ClusterConfig, is_joint, is_leader,
}
use maxredis.Raft.NodeSet
use maxredis.Raft.ConfigCommand
use maxredis.Raft.LogStorage.{LogStorage}
use maxredis.Raft.StateMachine.{StateMachine}
use maxredis.Raft.ApplyProgress
use maxredis.Raft.Node.{Node, current_term, get_peer_ids}
use maxredis.Raft.Node.Apply.{Applied, apply_committed_logs, no_result}

-- `std::sort(indexes.rbegin(), indexes.rend())`: the largest first.
unfoldable pub insert_desc : ℕ → List ℕ → List ℕ
insert_desc x [] = x ∷ []
insert_desc x (y ∷ ys) = if leb y x then x ∷ y ∷ ys else y ∷ insert_desc x ys

unfoldable pub sort_desc : List ℕ → List ℕ
sort_desc [] = []
sort_desc (x ∷ xs) = insert_desc x (sort_desc xs)

-- `indexes[majority - 1]` of the sorted indexes, where a majority of `others + 1` is meant.
unfoldable pub quorum_index : ℕ → List LogIndex → Option LogIndex
quorum_index others indexes = get_elem? (sort_desc indexes) ((others + 1) / 2 + 1 - 1)

-- The progress of the peers that are voters of a configuration.
unfoldable pub voter_indexes : NodeSet → List NodeId → List LogIndex → List LogIndex
voter_indexes voters (p ∷ ps) (i ∷ is) =
    let rest = voter_indexes voters ps is in if NodeSet.contains p voters then i ∷ rest else rest
voter_indexes voters _ _ = []

abbrev pub config_entry : Term → ClusterConfig → LogEntry
config_entry term target = record {
  term = term;
  index = 0;
  command = ConfigCommand.serialize target;
}

module _ {L S : Type 0} (st : LogStorage L) where
  -- `candidate > commit_index_`, and the entry's term is not an older one (Raft, figure 8).
  unfoldable pub commit_to : L → LogIndex → Node L S → Node L S
  commit_to l target n =
      let t = st.get_term l target in
      if ltb n.commit_index target && not (not (t == 0) && ltb t (current_term n))
      then record n { commit_index = target }
      else n

  -- The lambda `calc_config_commit`
  unfoldable pub config_commit : L → ClusterConfig → Node L S → LogIndex
  config_commit l config n =
      let indexes =
        st.last_index l ∷ voter_indexes config.voters n.last_peer_ids n.peer_last_log_index in
      elim (quorum_index (length config.voters) indexes) [ none ↦ 0 | some i ↦ i ]

  -- `AdvanceCommitIndexJointLocked`
  unfoldable pub advance_commit_index_joint : L → Node L S → Node L S
  advance_commit_index_joint l n =
      commit_to l
        (min (config_commit l n.joint_config.old_config n)
          (config_commit l n.joint_config.new_config n))
        n

  -- The part of `AdvanceCommitIndexLocked` outside a joint configuration.
  unfoldable pub advance_commit_index_stable : L → Node L S → Node L S
  advance_commit_index_stable l n =
      elim (quorum_index (length n.cluster_config.voters)
        (st.last_index l ∷ n.peer_last_log_index)) [ none ↦ n | some i ↦ commit_to l i n ]

  -- `AdvanceCommitIndexLocked`
  unfoldable pub advance_commit_index : Node L S → Node L S
  advance_commit_index n = elim n.log [
    | none ↦ n
    | some l ↦
        if is_joint n.config_state
        then advance_commit_index_joint l n
        else advance_commit_index_stable l n
  ]

  -- `AdvanceCommitIndex`
  unfoldable pub advance_commit_index_public : Node L S → Node L S
  advance_commit_index_public n = if is_leader n.role then advance_commit_index n else n

  unfoldable pub append_finalize : L → Node L S → Node L S
  append_finalize l n = record n {
    log = some (st.append l (config_entry (current_term n) n.joint_config.new_config));
    joint_finalize_appended = true;
  }

  -- `MaybeAutoFinalizeJointLocked`
  unfoldable pub maybe_auto_finalize_joint : Node L S → Node L S
  maybe_auto_finalize_joint n = elim n.log [
    | none ↦ n
    | some l ↦
        if is_joint n.config_state
          && is_leader n.role
          && not n.joint_finalize_appended
          && not (n.joint_entry_index == 0)
          && not (ltb n.commit_index n.joint_entry_index)
          && (st.get_term l n.joint_entry_index == current_term n)
        then append_finalize l n
        else n
  ]

-- Equality of two `std::unordered_set<NodeId>`: the same size, and each id of one is in the other.
unfoldable pub includes : NodeSet → NodeSet → Bool
includes big [] = true
includes big (v ∷ vs) = NodeSet.contains v big && includes big vs

unfoldable pub same_set : NodeSet → NodeSet → Bool
same_set a b = (length a == length b) && includes b a

unfoldable pub same_config : ClusterConfig → ClusterConfig → Bool
same_config a b =
    same_set a.voters b.voters && same_set a.learners b.learners && (a.version == b.version)

module _ {L S : Type 0} (st : LogStorage L) where
  unfoldable pub begin_joint : L → ClusterConfig → Node L S → Node L S
  begin_joint l target n = record n {
    joint_config = record { old_config = n.cluster_config; new_config = target };
    log = some (st.append l (config_entry (current_term n) target));
  }

  unfoldable pub begin_finalize : L → ClusterConfig → Node L S → Node L S × Bool
  begin_finalize l target n =
      if same_config target n.joint_config.new_config
      then (
        record n {
          log = some (st.append l (config_entry (current_term n) target));
          joint_finalize_appended = true;
        },
        true,
      )
      else (n, false)

  -- `BeginConfigChange`
  unfoldable pub begin_config_change : ClusterConfig → Node L S → Node L S × Bool
  begin_config_change target n = elim n.log [
    | none ↦ (n, false)
    | some l ↦
        if not (is_leader n.role)
        then (n, false)
        else if is_joint n.config_state
        then begin_finalize l target n
        else (begin_joint l target n, true)
  ]

module _ {L S : Type 0} (st : LogStorage L) (sm : StateMachine S) where
  abbrev unchanged : Node L S → Applied L S
  unchanged n = record { node = n; result = no_result; threw = false }

  unfoldable pub replay_log : ℕ → L → Node L S → Applied L S
  replay_log now l n =
      let last = st.last_index l in
      if leb last n.last_applied
      then unchanged n
      else if not (is_leader n.role) && not (is_empty (get_peer_ids n))
      then unchanged n
      else apply_committed_logs st sm now (record n { commit_index = last })

  unfoldable pub replay_with : ℕ → Option S → Option L → Node L S → Applied L S
  replay_with now (some s) (some l) n = replay_log now l n
  replay_with now _ _ n = unchanged n

  -- `ReplayUnappliedLogs`
  unfoldable pub replay_unapplied_logs : ℕ → Node L S → Applied L S
  replay_unapplied_logs now n = replay_with now n.machine n.log n

module _ {L S : Type 0} where
  -- `ResetApplyProgress`
  unfoldable pub reset_apply_progress : LogIndex → Node L S → Node L S
  reset_apply_progress to n = record n {
    last_applied = to;
    apply_progress = ApplyProgress.reset to n.apply_progress;
  }

  -- `ForceCommitIndex`, a hook of the tests
  unfoldable pub force_commit_index : LogIndex → Node L S → Node L S
  force_commit_index ci n = record n { commit_index = ci }
