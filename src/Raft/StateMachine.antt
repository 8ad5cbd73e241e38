-- ===== src/Raft/StateMachine.antt =====
-- server/state_machine/state_machine.h: the part of `IStateMachine` that the consensus module calls,
-- over the type `S` of the machine's states. `load_snapshot` is given the content of the file.
use maxredis.Base.{Bool, Bytes}
use maxredis.Raft.Types.{LogEntry, ApplyResult}

pub record StateMachine (S : Type 0) : Type 0 where
  pub apply_log_entry : LogEntry → S → S × ApplyResult
  pub load_snapshot : Bytes → S → S × Bool
