-- ===== src/Raft/Node/Apply/Order.antt =====
-- What ApplyCommittedLogsLocked does to the state machine: the committed entries, each once, in the
-- order of their indexes.
use maxredis.Base.{
  ℕ, zero, suc, ◌+◌, ◌≡◌, refl, ◌∙◌, true, false, some, List, [], ◌∷◌, ◌++◌, arith, Bool-cases, inl,
  inr, length, if◌then◌else◌,
}
use maxredis.Raft.Types.{LogIndex, LogEntry, ApplyResult}
use maxredis.Raft.LogStorage.{LogStorage}
use maxredis.Raft.StateMachine.{StateMachine}
use maxredis.Raft.Node.{Node}
use maxredis.Raft.Node.Apply.{
  Applied, apply_config, apply_config_entry, apply_command, apply_entry, apply_next, apply_entries,
  is_config_entry, flush_progress, apply_round, goes_on, apply_loop, next_batch,
}
use maxredis.Raft.Node.Follower.Matching.{Consecutive}

-- The state machine after the commands of a list; a CONFIG_CHANGE is not one of its commands.
abbrev pub run_commands : {S : Type 0} → StateMachine S → List LogEntry → S → S
run_commands sm [] s = s
run_commands sm (e ∷ es) s =
    run_commands sm es (if is_config_entry e then s else (sm.apply_log_entry e s).0)

pub run_commands-++ :
    {S : Type 0} (sm : StateMachine S) (xs ys : List LogEntry) (s : S)
    → run_commands sm (xs ++ ys) s ≡ run_commands sm ys (run_commands sm xs s)
run_commands-++ sm [] ys s = refl
run_commands-++ sm (x ∷ xs) ys s = run_commands-++ sm xs ys _

-- The node stands at the index `i` with the machine state `s`.
pub record At {L S : Type 0} (i : LogIndex) (s : S) (n : Node L S) : Type 0 where
  pub last_applied : n.last_applied ≡ i
  pub machine : n.machine ≡ some s

module _ {L S : Type 0} (st : LogStorage L) (sm : StateMachine S) where
  config-At :
      (e : LogEntry) (n : Node L S) (r : ApplyResult) (i : LogIndex) (s : S)
      → At i s n
      → (apply_config_entry e n r).threw ≡ false
      → At e.index s (apply_config_entry e n r).node
  unfolding apply_config_entry apply_config
  config-At e n r i s a h = ground arith

  command-At :
      (e : LogEntry) (n : Node L S) (r : ApplyResult) (i : LogIndex) (s : S)
      → At i s n
      → At e.index (sm.apply_log_entry e s).0 (apply_command st sm e n r).node
  unfolding apply_command
  command-At e n r i s a = ground arith

  next-At :
      (e : LogEntry) (a : Applied L S) (i : LogIndex) (s : S)
      → At i s a.node
      → (apply_next st sm e a).threw ≡ false
      → At e.index
          (if is_config_entry e then s else (sm.apply_log_entry e s).0)
          (apply_next st sm e a).node
  unfolding apply_next apply_entry
  next-At e a i s at h = elim (Bool-cases a.threw) [
    | inl t ↦ ground arith
    | inr f ↦ elim (Bool-cases (is_config_entry e)) [
      | inl c ↦ ground (arith, config-At e a.node a.result i s at)
      | inr c ↦ ground (arith, command-At e a.node a.result i s at)
    ]
  ]

  stays_thrown :
      (es : List LogEntry) (a : Applied L S)
      → a.threw ≡ true
      → (apply_entries st sm es a).threw ≡ true
  unfolding apply_entries apply_next
  stays_thrown [] a h = h
  stays_thrown (e ∷ es) a h = stays_thrown es (apply_next st sm e a) (ground arith)

  entries-At :
      (es : List LogEntry) (a : Applied L S) (i : LogIndex) (s : S)
      → At i s a.node
      → Consecutive (suc i) es
      → (apply_entries st sm es a).threw ≡ false
      → At (i + length es) (run_commands sm es s) (apply_entries st sm es a).node
  unfolding apply_entries
  entries-At [] a i s at c h = record {
    last_applied = omega (arith, at.last_applied);
    machine = at.machine;
  }
  entries-At (e ∷ es) a i s at (own, c) h =
      let b : Applied L S = apply_next st sm e a in
      elim (Bool-cases b.threw) [
        | inl t ↦ ground (arith, stays_thrown es b t)
        | inr f ↦
            let here = next-At e a i s at f in
            let next : At (suc i) (if is_config_entry e then s else (sm.apply_log_entry e s).0)
                b.node =
              record { last_applied = here.last_applied ∙ own; machine = here.machine } in
            let rest = entries-At es b (suc i) _ next c h in
            record { last_applied = omega (arith, rest.last_applied); machine = rest.machine }
      ]

  flush_progress-At :
      (now : ℕ) (n : Node L S) (i : LogIndex) (s : S)
      → At i s n
      → At i s (flush_progress st sm now n)
  unfolding flush_progress
  flush_progress-At now n i s at = ground arith

  pub round-At :
      (now : ℕ) (a : Applied L S) (i : LogIndex) (s : S)
      → At i s a.node
      → Consecutive (suc i) (next_batch st sm a.node)
      → (apply_round st sm now a).threw ≡ false
      → At
          (i + length (next_batch st sm a.node))
          (run_commands sm (next_batch st sm a.node) s)
          (apply_round st sm now a).node
  unfolding apply_round
  round-At now a i s at c h =
      let es = next_batch st sm a.node in
      let b : Applied L S = apply_entries st sm es a in
      elim (Bool-cases b.threw) [
        | inl t ↦ ground arith
        | inr f ↦ ground (
          arith,
          flush_progress-At now b.node (i + length es) (run_commands sm es s)
              (entries-At es a i s at c f),
        )
      ]

  pub loop_thrown :
      (fuel now : ℕ) (a : Applied L S) → a.threw ≡ true → apply_loop st sm fuel now a ≡ a
  unfolding apply_loop goes_on
  loop_thrown zero now a h = refl
  loop_thrown (suc fuel) now a h = ground arith
