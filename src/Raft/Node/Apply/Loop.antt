-- ===== src/Raft/Node/Apply/Loop.antt =====
-- The loop over the batches in ApplyCommittedLogsLocked: what it has done when it ends.
use maxredis.Base.{
  ℕ, zero, suc, ◌+◌, ◌-◌, ◌≤◌, ◌≡◌, refl, ◌∙◌, sym, ap, subst, true, false, some, arith, Bool-cases,
  inl, inr, min, max,
}
use maxredis.Raft.Types.{LogIndex}
use maxredis.Raft.LogStorage.{LogStorage, LogLaws}
use maxredis.Raft.StateMachine.{StateMachine}
use maxredis.Raft.Node.{Node}
use maxredis.Raft.Node.Apply.Frame.{round-KeepsLog}
use maxredis.Raft.Node.Apply.{
  Applied, apply_round, goes_on, apply_loop, apply_committed_logs, no_result,
}
use maxredis.Raft.Node.Apply.Ranges.{entries_from}
use maxredis.Raft.Node.Apply.Order.{At, run_commands, loop_thrown}
use maxredis.Raft.Node.Apply.Batch.{
  batch_length, goes_on-true, goes_on-false, done-At, batch-At, join-At,
}

module _ {L S : Type 0} (st : LogStorage L) (sm : StateMachine S) where
  loop_goes :
      (fuel now : ℕ) (a : Applied L S)
      → goes_on st sm a ≡ true
      → apply_loop st sm (suc fuel) now a ≡ apply_loop st sm fuel now (apply_round st sm now a)
  unfolding apply_loop
  loop_goes fuel now a g = ground arith

  loop_stops :
      (fuel now : ℕ) (a : Applied L S)
      → goes_on st sm a ≡ false
      → apply_loop st sm (suc fuel) now a ≡ a
  unfolding apply_loop
  loop_stops fuel now a g = ground arith

  round_not_thrown :
      (fuel now : ℕ) (b : Applied L S)
      → (apply_loop st sm fuel now b).threw ≡ false
      → b.threw ≡ false
  round_not_thrown fuel now b h = elim (Bool-cases b.threw) [
    | inl t ↦ ground (arith, ap (λ z. z.threw) (loop_thrown st sm fuel now b t))
    | inr f ↦ f
  ]

  apply_starts :
      {l : L} (now : ℕ) (n : Node L S) (s : S)
      → n.log ≡ some l
      → n.machine ≡ some s
      → apply_committed_logs st sm now n
        ≡ apply_loop st sm
            (n.commit_index - n.last_applied)
            now
            (record { node = n; result = no_result; threw = false })
  unfolding apply_committed_logs
  apply_starts now n s own at = ground arith

  module _ (laws : LogLaws st) (l : L) (v : laws.IsValid l) where
    -- The state that the loop ends in, from the index `i` and the machine state `s`.
    abbrev Ends : Applied L S → LogIndex → S → Applied L S → Type 0
    Ends a i s b =
        At (max i (min a.node.commit_index (st.last_index l)))
          (run_commands sm
            (entries_from st l (suc i) (min a.node.commit_index (st.last_index l) - i)) s)
          b.node

    loop-At :
        (fuel now : ℕ) (a : Applied L S) (i : LogIndex) (s : S)
        → a.node.log ≡ some l
        → At i s a.node
        → laws.floor l ≤ i
        → a.node.commit_index - i ≤ fuel
        → (apply_loop st sm fuel now a).threw ≡ false
        → Ends a i s (apply_loop st sm fuel now a)
    unfolding apply_loop
    loop-At zero now a i s own at low few h =
        done-At st sm laws l v a.node i (min a.node.commit_index (st.last_index l)) s at
          (omega arith)
    loop-At (suc fuel) now a i s own at low few h =
        let b : Applied L S = apply_round st sm now a in
        let k = batch_length st sm laws l v i a.node.commit_index in
        let kept = round-KeepsLog st sm laws now a in
        elim (Bool-cases (goes_on st sm a)) [
          | inr g ↦
              let stop = loop_stops fuel now a g in
              subst (λ z. Ends a i s z) (sym stop)
                (done-At st sm laws l v a.node i (min a.node.commit_index (st.last_index l)) s at (
                  goes_on-false st sm laws l v a i own at.last_applied low
                    (ap (λ z. z.threw) (sym stop) ∙ h) g))
          | inl g ↦
              let (more, high) = goes_on-true st sm laws l v a i own at.last_applied g in
              let go = loop_goes fuel now a g in
              let ok : (apply_loop st sm fuel now b).threw ≡ false =
                ap (λ z. z.threw) (sym go) ∙ h in
              let fine = round_not_thrown fuel now b ok in
              let next = batch-At st sm laws l v now a i s own at low high more fine in
              let rest =
                loop-At fuel now b (i + k) _ (kept.log ∙ own) next (omega arith)
                  (omega (arith, kept.commit_index)) ok in
              subst (λ z. Ends a i s z) (sym go)
                (join-At st sm laws l v (apply_loop st sm fuel now b).node i k
                  (min a.node.commit_index (st.last_index l)) s low (omega arith) (omega arith)
                  (subst
                    (λ c.
                      At (max (i + k) (min c (st.last_index l)))
                        (run_commands sm
                          (entries_from st l (suc (i + k)) (min c (st.last_index l) - (i + k)))
                          (run_commands sm (entries_from st l (suc i) k) s))
                        (apply_loop st sm fuel now b).node)
                    kept.commit_index rest))
        ]

    -- With a valid log and a state machine, and started at or above the compacted part of the log:
    -- unless a CONFIG_CHANGE cannot be read, the apply loop leaves the machine that has run each
    -- entry behind the last applied one up to the commit index or the end of the log, in the order of
    -- the indexes and once each, and the last applied index is the last of them. So its rounds never
    -- run out.
    pub apply_committed_logs_lem :
        (now : ℕ) (n : Node L S) (s : S)
        → n.log ≡ some l
        → n.machine ≡ some s
        → laws.floor l ≤ n.last_applied
        → (apply_committed_logs st sm now n).threw ≡ false
        → let until = min n.commit_index (st.last_index l) in
          ((apply_committed_logs st sm now n).node.last_applied ≡ max n.last_applied until)
          × ((apply_committed_logs st sm now n).node.machine
              ≡ some (
                  run_commands sm
                    (entries_from st l (suc n.last_applied) (until - n.last_applied))
                    s))
    apply_committed_logs_lem now n s own at low h =
        let a : Applied L S = record { node = n; result = no_result; threw = false } in
        let start = apply_starts now n s own at in
        let run =
          loop-At (n.commit_index - n.last_applied) now a n.last_applied s own
            (record { last_applied = refl; machine = at }) low (omega arith)
            (ap (λ z. z.threw) (sym start) ∙ h) in
        (
          ap (λ z. z.node.last_applied) start ∙ run.last_applied,
          ap (λ z. z.node.machine) start ∙ run.machine,
        )
