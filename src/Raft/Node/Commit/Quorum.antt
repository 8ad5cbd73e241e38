-- ===== src/Raft/Node/Commit/Quorum.antt =====
-- When the commit index of a leader moves in server/raft/raft_node.cc, and when it has to.
use maxredis.Base.{
  ℕ, ◌+◌, ◌/◌, ◌≤◌, ◌<◌, ◌≡◌, ◌⊎◌, inl, inr, none, some, List, [], ◌∷◌, refl, leb, ◌&&◌,
  if◌then◌else◌, arith, ap, subst, sym, ◌∙◌, Option-cases, length, min,
}
use maxredis.Raft.NodeSet.Members.{is_member, contains-is_member}
use maxredis.Raft.Types.{NodeId, NodeSet, LogIndex, ClusterConfig, stable, joint}
use maxredis.Raft.LogStorage.{LogStorage}
use maxredis.Raft.Node.{Node, current_term}
use maxredis.Raft.Node.Commit.{
  quorum_index, voter_indexes, commit_to, config_commit, advance_commit_index,
  advance_commit_index_stable, advance_commit_index_joint,
}
use maxredis.Raft.Node.Commit.Sorted.{reached, quorum_rank, no_quorum_index}

-- A majority of a configuration as the code counts it, whose voters are the other nodes.
abbrev pub majority : ClusterConfig → ℕ
majority c = (length c.voters + 1) / 2 + 1

-- How many of the peers are voters and have reached an index.
abbrev pub voters_reached : LogIndex → NodeSet → List NodeId → List LogIndex → ℕ
voters_reached y voters (p ∷ ps) (i ∷ is) =
    (if is_member p voters && leb y i then 1 else 0) + voters_reached y voters ps is
voters_reached y voters _ _ = 0

reached-voter_indexes :
    (y : LogIndex) (voters : NodeSet) (ps : List NodeId) (is : List LogIndex)
    → reached y (voter_indexes voters ps is) ≡ voters_reached y voters ps is
unfolding voter_indexes
reached-voter_indexes y voters [] is = refl
reached-voter_indexes y voters (p ∷ ps) [] = refl
reached-voter_indexes y voters (p ∷ ps) (i ∷ is) =
    ground (arith, contains-is_member p voters, reached-voter_indexes y voters ps is)

module _ {L S : Type 0} (st : LogStorage L) where
  -- No entry of an older term stands at the index; an index without an entry has the term 0.
  abbrev pub NotOlder : L → Node L S → LogIndex → Type 0
  NotOlder l n i = (st.get_term l i ≡ 0) ⊎ (current_term n ≤ st.get_term l i)

  -- How many nodes of a configuration have reached an index: the node itself by the end of its log, and
  -- the voters among the peers by their recorded progress.
  abbrev pub config_reached : L → Node L S → ClusterConfig → LogIndex → ℕ
  config_reached l n c y =
      (if leb y (st.last_index l) then 1 else 0)
      + voters_reached y c.voters n.last_peer_ids n.peer_last_log_index

  -- The indexes that the leader sorts for a configuration in the joint phase.
  abbrev config_indexes : L → Node L S → ClusterConfig → List LogIndex
  config_indexes l n c =
      st.last_index l ∷ voter_indexes c.voters n.last_peer_ids n.peer_last_log_index

  commit_to_lem :
      (l : L) (i : LogIndex) (n : Node L S)
      → n.commit_index < (commit_to st l i n).commit_index
      → ((commit_to st l i n).commit_index ≡ i) × NotOlder l n i
  unfolding commit_to
  commit_to_lem l i n h = ground arith

  commit_to-reaches :
      (l : L) (i : LogIndex) (n : Node L S) → NotOlder l n i → i ≤ (commit_to st l i n).commit_index
  unfolding commit_to
  commit_to-reaches l i n h = ground arith

  commit_to-grows :
      (l : L) (i : LogIndex) (n : Node L S) → n.commit_index ≤ (commit_to st l i n).commit_index
  unfolding commit_to
  commit_to-grows l i n = ground arith

  config_commit_rank :
      (l : L) (c : ClusterConfig) (n : Node L S) (y : LogIndex)
      → 0 < y
      → y ≤ config_commit st l c n
      → majority c ≤ config_reached l n c y
  unfolding config_commit
  config_commit_rank l c n y p h =
      elim (Option-cases (quorum_index (length c.voters) (config_indexes l n c))) [
        | inl e ↦ ground arith
        | inr (x, e) ↦ omega (
          arith,
          (quorum_rank (length c.voters) (config_indexes l n c) x y e).0 (ground arith),
          reached-voter_indexes y c.voters n.last_peer_ids n.peer_last_log_index,
        )
      ]

  module _ (n : Node L S) (l : L) (at : n.log ≡ some l) where
    advance-moves :
        (x : LogIndex)
        → n.config_state ≡ stable
        → quorum_index (length n.cluster_config.voters) (st.last_index l ∷ n.peer_last_log_index)
          ≡ some x
        → advance_commit_index st n ≡ commit_to st l x n
    unfolding advance_commit_index advance_commit_index_stable
    advance-moves x s e = ground arith

    advance-stays :
        n.config_state ≡ stable
        → quorum_index (length n.cluster_config.voters) (st.last_index l ∷ n.peer_last_log_index)
          ≡ none
        → advance_commit_index st n ≡ n
    unfolding advance_commit_index advance_commit_index_stable
    advance-stays s e = ground arith

    advance-joint :
        n.config_state ≡ joint
        → advance_commit_index st n
          ≡ commit_to st l
              (min
                (config_commit st l n.joint_config.old_config n)
                (config_commit st l n.joint_config.new_config n))
              n
    unfolding advance_commit_index advance_commit_index_joint
    advance-joint s = ground arith

    -- Outside a joint configuration a leader's commit index moves only to an index that a majority has
    -- reached, where the end of the own log and the recorded progress of each peer count as one node
    -- each, and that has no entry of an older term.
    pub stable_commit_has_quorum :
        n.config_state ≡ stable
        → n.commit_index < (advance_commit_index st n).commit_index
        → (majority n.cluster_config
            ≤ reached
                (advance_commit_index st n).commit_index
                (st.last_index l ∷ n.peer_last_log_index))
          × NotOlder l n (advance_commit_index st n).commit_index
    stable_commit_has_quorum s h =
        let indexes : List LogIndex = st.last_index l ∷ n.peer_last_log_index in
        let m = advance_commit_index st n in
        elim (Option-cases (quorum_index (length n.cluster_config.voters) indexes)) [
          | inl e ↦ absurd (omega (arith, ap (λ z. z.commit_index) (advance-stays s e)))
          | inr (x, e) ↦
              let path = ap (λ z. z.commit_index) (advance-moves x s e) in
              let (same, new) = commit_to_lem l x n (omega arith) in
              let at_x : m.commit_index ≡ x = path ∙ same in
              (
                (quorum_rank (length n.cluster_config.voters) indexes x m.commit_index e).0
                    (omega arith),
                subst (λ z. NotOlder l n z) (sym at_x) new,
              )
        ]

    -- In a joint configuration a commit index moves only to an index that has no entry of an older term
    -- and that a majority of the old configuration and a majority of the new one have reached: in each
    -- the own log counts, and the recorded progress of the peers that are voters of it.
    pub joint_commit_has_quorums :
        n.config_state ≡ joint
        → n.commit_index < (advance_commit_index st n).commit_index
        → let c = (advance_commit_index st n).commit_index in
          (majority n.joint_config.old_config ≤ config_reached l n n.joint_config.old_config c)
          × (majority n.joint_config.new_config ≤ config_reached l n n.joint_config.new_config c)
          × NotOlder l n c
    joint_commit_has_quorums s h =
        let old = config_commit st l n.joint_config.old_config n in
        let new = config_commit st l n.joint_config.new_config n in
        let c = (advance_commit_index st n).commit_index in
        let path = ap (λ z. z.commit_index) (advance-joint s) in
        let (same, fresh) = commit_to_lem l (min old new) n (omega arith) in
        let at_c : c ≡ min old new = path ∙ same in
        (
          config_commit_rank l n.joint_config.old_config n c (omega arith) (omega arith),
          config_commit_rank l n.joint_config.new_config n c (omega arith) (omega arith),
          subst (λ z. NotOlder l n z) (sym at_c) fresh,
        )

    -- Outside a joint configuration an index that a majority has reached is committed, if no entry of
    -- an older term stands at it or behind it.
    pub quorum_is_committed :
        (y : LogIndex)
        → n.config_state ≡ stable
        → majority n.cluster_config ≤ reached y (st.last_index l ∷ n.peer_last_log_index)
        → ((i : LogIndex) → y ≤ i → NotOlder l n i)
        → y ≤ (advance_commit_index st n).commit_index
    quorum_is_committed y s q new =
        let indexes : List LogIndex = st.last_index l ∷ n.peer_last_log_index in
        elim (Option-cases (quorum_index (length n.cluster_config.voters) indexes)) [
          | inl e ↦ absurd (no_quorum_index (length n.cluster_config.voters) y indexes q e)
          | inr (x, e) ↦
              let path = ap (λ z. z.commit_index) (advance-moves x s e) in
              let low = (quorum_rank (length n.cluster_config.voters) indexes x y e).1 q in
              omega (arith, commit_to-reaches l x n (new x low))
        ]
