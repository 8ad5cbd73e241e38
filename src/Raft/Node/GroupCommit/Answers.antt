-- ===== src/Raft/Node/GroupCommit/Answers.antt =====
-- What the waiters of a group commit are told.
use maxredis.Base.{
  ℕ, zero, suc, ◌≤◌, ◌<◌, ◌≡◌, refl, true, false, Option, none, some, List, [], ◌∷◌, arith, take,
  get_elem?, get_elem?-take, Bool-cases, inl, inr, ◌⊎◌, leb,
}
use maxredis.Raft.Types.{LogIndex, error, ok}
use maxredis.Raft.LogStorage.{LogStorage}
use maxredis.Raft.StateMachine.{StateMachine}
use maxredis.Raft.Node.{Node}
use maxredis.Raft.Node.Apply.{apply_committed_logs}
use maxredis.Raft.Node.GroupCommit.{
  RaftWaiter, fulfil, fulfil_all, run_rounds, coordinator_commit, max_index, commit_rounds,
}

fulfil_cases :
    (applied : LogIndex) (w : RaftWaiter)
    → ((fulfil applied w).res.op ≡ error) ⊎ (((fulfil applied w).res.op ≡ ok) × (w.idx ≤ applied))
unfolding fulfil
fulfil_cases applied w = elim (Bool-cases (leb w.idx applied)) [
  | inl e ↦ inr (ground arith, ground arith)
  | inr e ↦ inl (ground arith)
]

elem-fulfil_all :
    (applied : LogIndex) (batch : List RaftWaiter) (j : ℕ) (w : RaftWaiter)
    → get_elem? batch j ≡ some w
    → get_elem? (fulfil_all applied batch) j ≡ some (fulfil applied w)
unfolding fulfil_all
elem-fulfil_all applied [] j w h = ground arith
elem-fulfil_all applied (x ∷ xs) zero w h = ground arith
elem-fulfil_all applied (x ∷ xs) (suc j) w h = elem-fulfil_all applied xs j w h

module _ {L S : Type 0} (st : LogStorage L) (sm : StateMachine S) where
  -- After one of the rounds the node had applied the index, and no exception was thrown there.
  abbrev pub AppliedIn : ℕ → LogIndex → List (Option (Node L S)) → Type 0
  AppliedIn now j nodes =
      (i : ℕ) × (n : Node L S) × (get_elem? nodes i ≡ some (some n))
      × ((apply_committed_logs st sm now n).threw ≡ false)
      × (j ≤ (apply_committed_logs st sm now n).node.last_applied)

  later :
      (now : ℕ) (j : LogIndex) (m : Option (Node L S)) (nodes : List (Option (Node L S)))
      → AppliedIn now j nodes
      → AppliedIn now j (m ∷ nodes)
  later now j m nodes (i, n, at, fine, high) = (suc i, n, at, fine, high)

  rounds_cases :
      (now wanted applied : ℕ) (n : Node L S) (ns : List (Option (Node L S))) (j : LogIndex)
      → 0 < j
      → j ≤ run_rounds st sm now wanted applied (some n ∷ ns)
      → ((apply_committed_logs st sm now n).threw ≡ false)
        × ((j ≤ (apply_committed_logs st sm now n).node.last_applied)
            ⊎ (j
                ≤ run_rounds st sm now wanted
                    (apply_committed_logs st sm now n).node.last_applied
                    ns))
  unfolding run_rounds
  rounds_cases now wanted applied n ns j p h =
      elim (Bool-cases (apply_committed_logs st sm now n).threw) [
        | inl t ↦ ground arith
        | inr f ↦ (f, ground arith)
      ]

  run_rounds_lem :
      (now wanted applied : ℕ) (nodes : List (Option (Node L S))) (j : LogIndex)
      → 0 < j
      → j ≤ run_rounds st sm now wanted applied nodes
      → (j ≤ applied) ⊎ AppliedIn now j nodes
  unfolding run_rounds
  run_rounds_lem now wanted applied [] j p h = inl h
  run_rounds_lem now wanted applied (none ∷ ns) j p h = absurd (omega arith)
  run_rounds_lem now wanted applied (some n ∷ ns) j p h =
      let (fine, split) = rounds_cases now wanted applied n ns j p h in
      elim split [
        | inl high ↦ inr (0, n, refl, fine, high)
        | inr more ↦
            elim (run_rounds_lem now wanted (apply_committed_logs st sm now n).node.last_applied ns
              j p more) [
                | inl high ↦ inr (0, n, refl, fine, high)
                | inr found ↦ inr (later now j (some n) ns found)
              ]
      ]

  untake :
      (now k : ℕ) (j : LogIndex) (nodes : List (Option (Node L S)))
      → AppliedIn now j (take k nodes)
      → AppliedIn now j nodes
  untake now k j nodes (i, n, at, fine, high) =
      (i, n, ground (arith, get_elem?-take k i nodes), fine, high)

  -- Every waiter of a batch that waits for an index is answered, in its place: with an error, or
  -- with OK, and then the node had applied its index, without an exception, behind one of the rounds.
  pub answers_are_applied :
      (now : ℕ) (nodes : List (Option (Node L S))) (batch : List RaftWaiter) (j : ℕ)
      (w : RaftWaiter)
      → get_elem? batch j ≡ some w
      → 0 < w.idx
      → (r : RaftWaiter) × (get_elem? (coordinator_commit st sm now nodes batch) j ≡ some r)
        × (r.done ≡ true)
        × (r.idx ≡ w.idx)
        × ((r.res.op ≡ error) ⊎ ((r.res.op ≡ ok) × AppliedIn now w.idx nodes))
  unfolding coordinator_commit fulfil
  answers_are_applied now nodes batch j w at p =
      let rounds = take commit_rounds nodes in
      let applied = run_rounds st sm now (max_index batch) 0 rounds in
      (
        fulfil applied w,
        elem-fulfil_all applied batch j w at,
        refl,
        refl,
        elim (fulfil_cases applied w) [
          | inl failed ↦ inl failed
          | inr (told, high) ↦ elim (run_rounds_lem now (max_index batch) 0 rounds w.idx p high) [
            | inl none_left ↦ absurd (omega arith)
            | inr found ↦ inr (told, untake now commit_rounds w.idx nodes found)
          ]
        ],
      )
