-- ===== src/Raft/Node/Apply/Frame.antt =====
-- The apply loop of server/raft/raft_node.cc leaves the log and the commit index alone.
use maxredis.Base.{
  ℕ, zero, suc, ◌-◌, ◌≡◌, refl, List, [], ◌∷◌, arith, Option-cases, inl, inr, false,
}
use maxredis.Raft.Types.{LogEntry, ApplyResult}
use maxredis.Raft.LogStorage.{LogStorage, LogLaws}
use maxredis.Raft.StateMachine.{StateMachine}
use maxredis.Raft.Node.{Node}
use maxredis.Raft.Node.Apply.{
  Applied, apply_config, apply_config_entry, apply_command, apply_entry, apply_next, apply_entries,
  flush_progress, apply_round, apply_loop, apply_committed_logs, next_batch, no_result,
}

pub record KeepsLog {L S : Type 0} (n m : Node L S) : Type 0 where
  pub log : m.log ≡ n.log
  pub commit_index : m.commit_index ≡ n.commit_index

module _ {L S : Type 0} where
  config_entry-KeepsLog :
      (e : LogEntry) (n : Node L S) (r : ApplyResult) → KeepsLog n (apply_config_entry e n r).node
  unfolding apply_config_entry apply_config
  config_entry-KeepsLog e n r = ground arith

module _ {L S : Type 0} (st : LogStorage L) (sm : StateMachine S) (laws : LogLaws st) where
  command-KeepsLog :
      (e : LogEntry) (n : Node L S) (r : ApplyResult) → KeepsLog n (apply_command st sm e n r).node
  unfolding apply_command
  command-KeepsLog e n r = ground arith

  next-KeepsLog : (e : LogEntry) (a : Applied L S) → KeepsLog a.node (apply_next st sm e a).node
  unfolding apply_next apply_entry
  next-KeepsLog e a =
      ground (arith, config_entry-KeepsLog e a.node a.result, command-KeepsLog e a.node a.result)

  pub entries-KeepsLog :
      (es : List LogEntry) (a : Applied L S) → KeepsLog a.node (apply_entries st sm es a).node
  unfolding apply_entries
  entries-KeepsLog [] a = record { log = refl; commit_index = refl }
  entries-KeepsLog (e ∷ es) a =
      ground (arith, next-KeepsLog e a, entries-KeepsLog es (apply_next st sm e a))

  pub flush_progress-KeepsLog : (now : ℕ) (n : Node L S) → KeepsLog n (flush_progress st sm now n)
  unfolding flush_progress
  flush_progress-KeepsLog now n = elim (Option-cases n.log) [
    | inl e ↦ ground arith
    | inr (l, e) ↦ ground (arith, laws.flush_lem l)
  ]

  pub round-KeepsLog : (now : ℕ) (a : Applied L S) → KeepsLog a.node (apply_round st sm now a).node
  unfolding apply_round
  round-KeepsLog now a =
      let b : Applied L S = apply_entries st sm (next_batch st sm a.node) a in
      ground
        (arith, entries-KeepsLog (next_batch st sm a.node) a, flush_progress-KeepsLog now b.node)

  loop-KeepsLog :
      (fuel now : ℕ) (a : Applied L S) → KeepsLog a.node (apply_loop st sm fuel now a).node
  unfolding apply_loop
  loop-KeepsLog zero now a = record { log = refl; commit_index = refl }
  loop-KeepsLog (suc fuel) now a =
      ground (arith, round-KeepsLog now a, loop-KeepsLog fuel now (apply_round st sm now a))

  pub apply-KeepsLog : (now : ℕ) (n : Node L S) → KeepsLog n (apply_committed_logs st sm now n).node
  unfolding apply_committed_logs
  apply-KeepsLog now n = ground (
    arith,
    loop-KeepsLog (n.commit_index - n.last_applied) now
        (record { node = n; result = no_result; threw = false }),
  )
