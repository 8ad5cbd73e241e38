-- ===== src/Raft/Node/Leader/Lease.antt =====
-- The acknowledgements that renew the lease of a leader in server/raft/raft_node.cc.
use maxredis.Base.{
  ap, ℕ, suc, ◌+◌, ◌*◌, ◌≤◌, ◌<◌, ◌≡◌, refl, ◌∙◌, Bool, true, ◌&&◌, ◌==◌, leb, if◌then◌else◌, List,
  [], ◌∷◌, arith, length, u64, Option-cases, inl, inr,
}
use maxredis.Raft.Types.{
  leader, HeartbeatRequest, Term, LogIndex, NodeId, stable, HeartbeatResponse,
}
use maxredis.Raft.LogStorage.{LogStorage}
use maxredis.Raft.Node.Election.{majority_of}
use maxredis.Raft.Node.{current_term, get_peer_ids, last_index_or, Node, cancel_transfer}
use maxredis.Raft.Node.Commit.{
  commit_to, quorum_index, advance_commit_index, advance_commit_index_stable,
  advance_commit_index_joint,
}
use maxredis.Raft.Node.Leader.{
  some_behind, heartbeat_end, lease_ms, is_ack, ack_count, max_peer_term, resize_peer_arrays,
  note_ack, note_acks, note_round, extend_leader_lease, check_transfer_timeout, set_transfer_state,
  tick_majority, tick_transfer, tick_quorum,
}

-- How many of the answers acknowledge the heartbeat in its term.
abbrev pub acknowledged : Term → List (NodeId × HeartbeatResponse) → ℕ
acknowledged t [] = 0
acknowledged t ((id, rsp) ∷ rest) =
    (if rsp.success && (rsp.term == t) then 1 else 0) + acknowledged t rest

-- No answer is of a term above `t`.
abbrev pub NoPeerAbove : Term → List (NodeId × HeartbeatResponse) → Type 0
NoPeerAbove t [] = Unit
NoPeerAbove t ((id, rsp) ∷ rest) = (rsp.term ≤ t) × NoPeerAbove t rest

ack_count_lem :
    (t : Term) (answers : List (NodeId × HeartbeatResponse))
    → ack_count t answers ≡ suc (acknowledged t answers)
unfolding ack_count is_ack
ack_count_lem t [] = refl
ack_count_lem t ((id, rsp) ∷ rest) = ground (arith, ack_count_lem t rest)

max_peer_term_le :
    (t u : Term) (answers : List (NodeId × HeartbeatResponse))
    → t ≤ u
    → NoPeerAbove u answers
    → max_peer_term t answers ≤ u
unfolding max_peer_term
max_peer_term_le t u [] h k = h
max_peer_term_le t u ((id, rsp) ∷ rest) h (low, k) =
    omega (arith, low, max_peer_term_le t u rest h k)

-- What the count of the acknowledgements depends on.
record SameVoters {L S : Type 0} (n m : Node L S) : Type 0 where
  config_state : m.config_state ≡ n.config_state
  cluster_config : m.cluster_config ≡ n.cluster_config

module _ {L S : Type 0} (st : LogStorage L) where
  commit_to-SameVoters : (l : L) (i : LogIndex) (n : Node L S) → SameVoters n (commit_to st l i n)
  unfolding commit_to
  commit_to-SameVoters l i n = ground arith

  stable-SameVoters : (l : L) (n : Node L S) → SameVoters n (advance_commit_index_stable st l n)
  unfolding advance_commit_index_stable
  stable-SameVoters l n =
      elim (Option-cases
        (quorum_index (length n.cluster_config.voters) (st.last_index l ∷ n.peer_last_log_index))) [
          | inl e ↦
              rw (e, advance_commit_index_stable)
                (record { config_state = refl; cluster_config = refl })
          | inr (i, e) ↦ rw (e, advance_commit_index_stable) (commit_to-SameVoters l i n)
        ]

  joint-SameVoters : (l : L) (n : Node L S) → SameVoters n (advance_commit_index_joint st l n)
  unfolding advance_commit_index_joint
  joint-SameVoters l n = commit_to-SameVoters l _ n

  advance-SameVoters : (n : Node L S) → SameVoters n (advance_commit_index st n)
  unfolding advance_commit_index
  advance-SameVoters n = elim (Option-cases n.log) [
    | inl e ↦ rw (e, advance_commit_index) (record { config_state = refl; cluster_config = refl })
    | inr (l, e) ↦
        rw (e, advance_commit_index) (ground (arith, stable-SameVoters l n, joint-SameVoters l n))
  ]

  note_ack-SameVoters :
      (t : Term) (a : NodeId × HeartbeatResponse) (n : Node L S) → SameVoters n (note_ack t a n)
  unfolding note_ack
  note_ack-SameVoters t (id, rsp) n = ground arith

  note_acks-SameVoters :
      (t : Term) (answers : List (NodeId × HeartbeatResponse)) (n : Node L S)
      → SameVoters n (note_acks t answers n)
  unfolding note_acks
  note_acks-SameVoters t [] n = record { config_state = refl; cluster_config = refl }
  note_acks-SameVoters t (a ∷ rest) n =
      ground (arith, note_ack-SameVoters t a n, note_acks-SameVoters t rest (note_ack t a n))

  note_round-SameVoters :
      (t : Term) (answers : List (NodeId × HeartbeatResponse)) (n : Node L S)
      → SameVoters n (note_round st t answers n)
  unfolding note_round resize_peer_arrays
  note_round-SameVoters t answers n =
      let noted = note_acks-SameVoters t answers _ in
      let moved = advance-SameVoters _ in
      record {
        config_state = moved.config_state ∙ noted.config_state;
        cluster_config = moved.cluster_config ∙ noted.cluster_config;
      }

  lease-cancel_transfer :
      (n : Node L S) → (cancel_transfer n).leader_lease_expire ≡ n.leader_lease_expire
  unfolding cancel_transfer
  lease-cancel_transfer n = ground arith

  lease-tick_transfer :
      (now : ℕ) (behind : Bool) (n : Node L S)
      → (tick_transfer st now behind n).node.leader_lease_expire ≡ n.leader_lease_expire
  unfolding tick_transfer check_transfer_timeout set_transfer_state
  lease-tick_transfer now behind n = ground (arith, lease-cancel_transfer n)

  lease-tick_quorum :
      (now acks : ℕ) (behind : Bool) (n : Node L S)
      → n.config_state ≡ stable
      → length n.cluster_config.voters < 2 * acks
      → (tick_quorum st now acks behind n).node.leader_lease_expire ≡ u64 (now + lease_ms)
  unfolding tick_quorum tick_majority extend_leader_lease
  lease-tick_quorum now acks behind n s h =
      let enough : leb (tick_majority st n) acks ≡ true = ground arith in
      rw enough (lease-tick_transfer now behind _)

  counted_round :
      (is_loop : Bool) (now : ℕ) (req : HeartbeatRequest)
      (answers : List (NodeId × HeartbeatResponse)) (n : Node L S)
      → n.role ≡ leader
      → max_peer_term req.term answers ≤ current_term n
      → heartbeat_end st is_loop n.heartbeat_epoch now req answers n
        ≡ tick_quorum st now
            (ack_count req.term answers)
            (some_behind req.term (last_index_or st n.log) (get_peer_ids n) answers)
            (note_round st req.term answers n)
  unfolding heartbeat_end
  counted_round is_loop now req answers n leads low = ground arith

  -- A leader outside a joint configuration that ends a round of heartbeats of its own term, with no answer
  -- of a higher term, renews its lease when the acknowledgements, together with its own, are half of an
  -- even number of nodes, its voters and itself, and these are fewer than the majority of an election.
  pub half_renews_lease :
      (is_loop : Bool) (now : ℕ) (req : HeartbeatRequest)
      (answers : List (NodeId × HeartbeatResponse)) (n : Node L S)
      → n.role ≡ leader
      → n.config_state ≡ stable
      → req.term ≡ current_term n
      → NoPeerAbove req.term answers
      → 2 * suc (acknowledged req.term answers) ≡ length n.cluster_config.voters + 1
      → ((heartbeat_end st is_loop n.heartbeat_epoch now req answers n).node.leader_lease_expire
          ≡ u64 (now + lease_ms))
        × (suc (acknowledged req.term answers) < majority_of (length n.cluster_config.voters))
  half_renews_lease is_loop now req answers n leads s same low half =
      let round =
        counted_round is_loop now req answers n leads
          (omega (arith, max_peer_term_le req.term req.term answers (omega arith) low)) in
      let kept = note_round-SameVoters req.term answers n in
      (
        ap (λ z. z.node.leader_lease_expire) round
            ∙ lease-tick_quorum now (ack_count req.term answers)
                (some_behind req.term (last_index_or st n.log) (get_peer_ids n) answers) _
                (kept.config_state ∙ s)
                (omega (
                  arith,
                  ack_count_lem req.term answers,
                  ap (λ z. length z.voters) kept.cluster_config,
                )),
        omega arith,
      )
