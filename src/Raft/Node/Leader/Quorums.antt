-- ===== src/Raft/Node/Leader/Quorums.antt =====
-- What a leader's reads, its lease and its transfers rest on in server/raft/raft_node.cc.
use maxredis.Base.{
  ℕ, suc, ◌+◌, ◌≤◌, ◌<◌, ◌≡◌, ◌⊎◌, ◌↔◌, refl, ap, sym, ◌∙◌, ◌&&◌, ◌==◌, if◌then◌else◌, true, false,
  List, [], ◌∷◌, some, arith, length, get_elem?, Bool-cases, inl, inr, bytes_eq, bytes_eq_iff,
}
use maxredis.Raft.Types.{
  Term, LogIndex, NodeId, leader, ReadIndexRequest, ReadIndexResponse, TimeoutNowRequest,
}
use maxredis.Raft.LogStorage.{LogStorage}
use maxredis.Raft.Node.{Node, current_term}
use maxredis.Raft.Node.Frame.{leader_only}
use maxredis.Raft.Node.Election.{majority_of}
use maxredis.Raft.Node.Leader.{ready_in, is_transfer_ready, set_transfer_state}
use maxredis.Raft.Node.Leader.Reads.{read_acks, max_read_term, read_index_end}
use maxredis.Raft.Node.Leader.Transfer.{transfer_end, timeout_now_begin, transfer_send}

-- No answer is of a term above `t`.
abbrev pub NoReadAbove : Term → List ReadIndexResponse → Type 0
NoReadAbove t [] = Unit
NoReadAbove t (rsp ∷ rest) = (rsp.term ≤ t) × NoReadAbove t rest

no_test : false ≡ true → ⊥
no_test h = ground arith

max_read_term_lem :
    (t u : Term) (answers : List ReadIndexResponse)
    → max_read_term t answers ≤ u
    → NoReadAbove u answers
unfolding max_read_term
max_read_term_lem t u [] h = tt
max_read_term_lem t u (rsp ∷ rest) h = (omega arith, max_read_term_lem t u rest (omega arith))

-- How many of the answers acknowledge the read in the term that it was asked in.
abbrev pub confirmations : Term → List ReadIndexResponse → ℕ
confirmations t [] = 0
confirmations t (rsp ∷ rest) =
    (if rsp.success && (rsp.term == t) then 1 else 0) + confirmations t rest

read_acks_lem :
    (t : Term) (answers : List ReadIndexResponse)
    → read_acks t answers ≡ suc (confirmations t answers)
unfolding read_acks
read_acks_lem t [] = refl
read_acks_lem t (rsp ∷ rest) = ground (arith, read_acks_lem t rest)

low_read_term :
    (t u : Term) (answers : List ReadIndexResponse)
    → t ≤ u
    → NoReadAbove u answers
    → max_read_term t answers ≤ u
unfolding max_read_term
low_read_term t u [] h k = h
low_read_term t u (rsp ∷ rest) h (low, k) = omega (arith, low, low_read_term t u rest h k)

module _ {L S : Type 0} where
  read_end_guards :
      (now : ℕ) (req : ReadIndexRequest) (answers : List ReadIndexResponse) (n : Node L S)
      → 0 < (read_index_end now req answers n).1
      → ((read_index_end now req answers n).1 ≡ n.commit_index)
        × (n.role ≡ leader)
        × (current_term n ≡ req.term)
        × (majority_of (length n.cluster_config.voters) ≤ read_acks req.term answers)
        × (max_read_term req.term answers ≤ current_term n)
  unfolding read_index_end
  read_end_guards now req answers n h =
      (ground arith, leader_only n.role (ground arith), ground arith, ground arith, ground arith)

  read_end_serves :
      (now : ℕ) (req : ReadIndexRequest) (answers : List ReadIndexResponse) (n : Node L S)
      → n.role ≡ leader
      → current_term n ≡ req.term
      → majority_of (length n.cluster_config.voters) ≤ read_acks req.term answers
      → max_read_term req.term answers ≤ current_term n
      → (read_index_end now req answers n).1 ≡ n.commit_index
  unfolding read_index_end
  read_end_serves now req answers n leads same enough low = ground arith

  read_end_answers :
      (now : ℕ) (req : ReadIndexRequest) (answers : List ReadIndexResponse) (n : Node L S)
      → ((read_index_end now req answers n).1 ≡ 0)
        ⊎ ((read_index_end now req answers n).1 ≡ n.commit_index)
  unfolding read_index_end
  read_end_answers now req answers n = ground arith

  -- A read that goes by the slow path, of a node with a commit index above 0, is answered with that index
  -- exactly if the node still leads in the term that it asked in, no answer is of a higher term, and the
  -- acknowledgements of that term with the node itself are a majority of its `cluster_config_`, the voters
  -- and itself; else it is answered with 0.
  pub read_index_confirmed :
      (now : ℕ) (req : ReadIndexRequest) (answers : List ReadIndexResponse) (n : Node L S)
      → 0 < n.commit_index
      → (((read_index_end now req answers n).1 ≡ n.commit_index) ↔ (
          (n.role ≡ leader)
          × (current_term n ≡ req.term)
          × (majority_of (length n.cluster_config.voters) ≤ suc (confirmations req.term answers))
          × NoReadAbove req.term answers))
        × (((read_index_end now req answers n).1 ≡ 0)
            ⊎ ((read_index_end now req answers n).1 ≡ n.commit_index))
  read_index_confirmed now req answers n some_commit =
      let acks = read_acks_lem req.term answers in
      (
        (
          (λ served.
              let (_, leads, same, enough, low) = read_end_guards now req answers n (omega arith) in
              (
                leads,
                same,
                omega arith,
                max_read_term_lem req.term req.term answers (omega arith),
              )),
          (λ (leads, same, enough, low).
              read_end_serves now req answers n leads same (omega arith)
                (omega (arith, low_read_term req.term req.term answers (omega arith) low))),
        ),
        read_end_answers now req answers n,
      )

ready_in_lem :
    (last : LogIndex) (target : NodeId) (ps : List NodeId) (is : List LogIndex)
    → ready_in last target ps is ≡ true
    → (i : ℕ) × (m : LogIndex) × (get_elem? ps i ≡ some target)
      × (get_elem? is i ≡ some m)
      × (last ≤ m)
unfolding ready_in
ready_in_lem last target [] is h = absurd (no_test h)
ready_in_lem last target (p ∷ ps) [] h = absurd (no_test h)
ready_in_lem last target (p ∷ ps) (m ∷ is) h = elim (Bool-cases (bytes_eq p target)) [
  | inl e ↦ (0, m, ground (arith, bytes_eq_iff p target), refl, ground arith)
  | inr e ↦
      let (i, k, at, found, high) = ready_in_lem last target ps is (ground arith) in
      (suc i, k, at, found, high)
]

module _ {L S : Type 0} (st : LogStorage L) where
  sent_guards :
      (target to : NodeId) (req : TimeoutNowRequest) (n : Node L S) (l : L)
      → n.log ≡ some l
      → transfer_send st target n ≡ some (to, req)
      → (to ≡ n.transfer_ctx.target)
        × (n.role ≡ leader)
        × (req.term ≡ current_term n)
        × (ready_in (st.last_index l) target n.last_peer_ids n.peer_last_log_index ≡ true)
  unfolding transfer_send transfer_end timeout_now_begin is_transfer_ready set_transfer_state
  sent_guards target to req n l at h =
      (ground arith, leader_only n.role (ground arith), ground arith, ground arith)

  -- TimeoutNow is sent at the end of StartTransfer, if the transfer is still the one to its target and no
  -- other section comes in between, only to that target, in the term of a leader, and when the recorded
  -- progress of the recipient reaches the end of the leader's log.
  pub transfer_target_caught_up :
      (target to : NodeId) (req : TimeoutNowRequest) (n : Node L S) (l : L)
      → n.log ≡ some l
      → n.transfer_ctx.target ≡ target
      → transfer_send st target n ≡ some (to, req)
      → (to ≡ target)
        × (n.role ≡ leader)
        × (req.term ≡ current_term n)
        × ((i : ℕ) × (m : LogIndex) × (get_elem? n.last_peer_ids i ≡ some to)
            × (get_elem? n.peer_last_log_index i ≡ some m)
            × (st.last_index l ≤ m))
  transfer_target_caught_up target to req n l at still h =
      let (own, leads, term, ready) = sent_guards target to req n l at h in
      let same : to ≡ target = own ∙ still in
      let (i, m, place, progress, high) =
        ready_in_lem (st.last_index l) target n.last_peer_ids n.peer_last_log_index ready in
      (same, leads, term, (i, m, place ∙ ap some (sym same), progress, high))
