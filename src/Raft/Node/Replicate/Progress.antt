-- ===== src/Raft/Node/Replicate/Progress.antt =====
-- What phase 3 of `ReplicateLog` records about a peer.
use maxredis.Base.{
  ℕ, ◌+◌, ◌≤◌, ◌<◌, ◌≡◌, ◌∙◌, ap, true, false, some, arith, get_elem?, get_elem?-set, set,
}
use maxredis.Raft.Types.{LogIndex}
use maxredis.Raft.Node.{Node}
use maxredis.Raft.Node.Replicate.{
  PeerReq, Outcome, or_default, back_off, note_failure, note_outcome,
}

back_off_lem :
    (next hint : LogIndex) → 1 < next → (1 ≤ back_off next hint) × (back_off next hint < next)
unfolding back_off
back_off_lem next hint h = (ground arith, ground arith)

module _ {L S : Type 0} (n : Node L S) where
  next-note_failure :
      (i : ℕ) (b : LogIndex) → (note_failure i b n).peer_next_index ≡ set n.peer_next_index i b
  unfolding note_failure
  next-note_failure i b = ground arith

  refused :
      (r : PeerReq) (o : Outcome)
      → o.attempted ≡ true
      → o.ok ≡ false
      → note_outcome r o n
        ≡ note_failure r.idx
            (back_off (or_default 0 (get_elem? n.peer_next_index r.idx)) (o.match_index + 1))
            n
  unfolding note_outcome
  refused r o tried failed = ground arith

  next-refused :
      (r : PeerReq) (o : Outcome) (next : LogIndex)
      → get_elem? n.peer_next_index r.idx ≡ some next
      → o.attempted ≡ true
      → o.ok ≡ false
      → (note_outcome r o n).peer_next_index
        ≡ set n.peer_next_index r.idx (back_off next (o.match_index + 1))
  unfolding or_default
  next-refused r o next at tried failed =
      ap (λ z. z.peer_next_index) (refused r o tried failed)
      ∙ next-note_failure r.idx
          (back_off (or_default 0 (get_elem? n.peer_next_index r.idx)) (o.match_index + 1))
      ∙ ap (λ z. set n.peer_next_index r.idx (back_off (or_default 0 z) (o.match_index + 1))) at

  -- After a refused request the next one to that peer starts at an earlier index, which is not 0, if
  -- the peer has a place in the array and its next index was above 1.
  pub retry_is_earlier :
      (r : PeerReq) (o : Outcome) (next : LogIndex)
      → get_elem? n.peer_next_index r.idx ≡ some next
      → 1 < next
      → o.attempted ≡ true
      → o.ok ≡ false
      → (b : LogIndex) × (get_elem? (note_outcome r o n).peer_next_index r.idx ≡ some b)
        × (1 ≤ b)
        × (b < next)
  retry_is_earlier r o next at h tried failed =
      let b = back_off next (o.match_index + 1) in
      let (low, high) = back_off_lem next (o.match_index + 1) h in
      (
        b,
        ap (λ z. get_elem? z r.idx) (next-refused r o next at tried failed)
            ∙ get_elem?-set n.peer_next_index r.idx next b at,
        low,
        high,
      )
