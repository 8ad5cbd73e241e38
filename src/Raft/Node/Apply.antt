-- ===== src/Raft/Node/Apply.antt =====
-- ApplyCommittedLogsLocked of server/raft/raft_node.cc: committed entries go to the state machine or,
-- for a CONFIG_CHANGE, to the configuration. The exception of a CONFIG_CHANGE that cannot be read is
-- `threw`. The clock is the argument `now`.
pub mod Frame
pub mod Ranges
pub mod Order
pub mod Batch
pub mod Loop
use maxredis.Base.{
  ℕ, zero, suc, ◌+◌, ◌-◌, min, Bool, true, false, ◌&&◌, ◌||◌, not, Option, none, some, List, [],
  ◌∷◌, is_empty, ltb, leb, ◌==◌, sub64, if◌then◌else◌,
}
use maxredis.Raft.Types.{
  LogIndex, LogEntry, ClusterConfig, stable, joint, is_joint, JointConfig, empty_joint, ApplyResult,
  ok,
}
use maxredis.Raft.ConfigCommand
use maxredis.Raft.LogStorage.{LogStorage}
use maxredis.Raft.StateMachine.{StateMachine}
use maxredis.Raft.Storage
use maxredis.Raft.ApplyProgress
use maxredis.Raft.Node.{Node}

pub record Applied (L S : Type 0) : Type 0 where
  pub node : Node L S
  pub result : ApplyResult
  pub threw : Bool

-- `ApplyResult result;`
abbrev pub no_result : ApplyResult
no_result = record { op = ok; affected_rows = 0 }

abbrev pub batch_size : ℕ
batch_size = 128

-- `command.find("CONFIG_CHANGE") == 0`
unfoldable pub is_config_entry : LogEntry → Bool
is_config_entry e = ConfigCommand.starts_with ConfigCommand.keyword e.command

module _ {L S : Type 0} where
  -- A membership change is applied in two steps: into the joint configuration, and out of it.
  unfoldable pub apply_config : ClusterConfig → LogIndex → Node L S → Node L S
  apply_config target index n =
      if is_joint n.config_state
      then record n {
        cluster_config = target;
        joint_config = empty_joint;
        joint_entry_index = 0;
        joint_finalize_appended = false;
        config_state = stable;
        storage = Storage.set_joint_config_state stable empty_joint n.storage;
      }
      else (let both : JointConfig = record {
        old_config = n.cluster_config;
        new_config = target;
      } in
          record n {
            joint_config = both;
            joint_entry_index = index;
            joint_finalize_appended = false;
            config_state = joint;
            storage = Storage.set_joint_config_state joint both n.storage;
          })

  unfoldable pub apply_config_entry : LogEntry → Node L S → ApplyResult → Applied L S
  apply_config_entry e n result = elim (ConfigCommand.deserialize e.command) [
    | none ↦ record { node = n; result = result; threw = true }
    | some target ↦ record {
      node = record (apply_config target e.index n) { last_applied = e.index };
      result = result;
      threw = false;
    }
  ]

module _ {L S : Type 0} (st : LogStorage L) (sm : StateMachine S) where
  unfoldable pub apply_command : LogEntry → Node L S → ApplyResult → Applied L S
  apply_command e n result = elim n.machine [
    | none ↦ record { node = n; result = result; threw = false }
    | some s ↦
        (let (s', r) = sm.apply_log_entry e s in
          record {
            node = record n { machine = some s'; last_applied = e.index };
            result = r;
            threw = false;
          })
  ]

  -- The body of the loop over a batch.
  unfoldable pub apply_entry : LogEntry → Node L S → ApplyResult → Applied L S
  apply_entry e n result =
      if is_config_entry e then apply_config_entry e n result else apply_command e n result

  -- Nothing is applied behind an exception.
  unfoldable pub apply_next : LogEntry → Applied L S → Applied L S
  apply_next e a = if a.threw then a else apply_entry e a.node a.result

  unfoldable pub apply_entries : List LogEntry → Applied L S → Applied L S
  apply_entries [] a = a
  apply_entries (e ∷ es) a = apply_entries es (apply_next e a)

  -- The progress mark after a batch. With an interval the log is flushed before the mark.
  unfoldable pub flush_progress : ℕ → Node L S → Node L S
  flush_progress now n =
      let marked = ApplyProgress.update_memory_only n.last_applied n.apply_progress in
      let interval = n.apply_meta_flush_interval_ms in
      if (interval == 0) || leb interval (sub64 now n.last_apply_meta_flush_ms)
      then record n {
        log =
            if ltb 0 interval
            then elim n.log [ none ↦ none | some l ↦ some (st.flush l) ]
            else n.log;
        apply_progress = ApplyProgress.flush marked;
        last_apply_meta_flush_ms = now;
      }
      else record n { apply_progress = marked }

  -- The test of the loop over the batches.
  unfoldable pub has_more : Node L S → Bool
  has_more n = elim n.log [
    | none ↦ false
    | some l ↦ ltb n.last_applied n.commit_index && ltb n.last_applied (st.last_index l)
  ]

  unfoldable pub next_batch : Node L S → List LogEntry
  next_batch n = elim n.log [
    | none ↦ []
    | some l ↦
        st.get_range l (n.last_applied + 1) (min batch_size (n.commit_index - n.last_applied))
  ]

  unfoldable pub apply_round : ℕ → Applied L S → Applied L S
  apply_round now a =
      let b = apply_entries (next_batch a.node) a in
      if b.threw then b else record b { node = flush_progress now b.node }

  -- A round is made while entries are left; an empty batch and an exception end the loop.
  unfoldable pub goes_on : Applied L S → Bool
  goes_on a = has_more a.node && (not a.threw && not (is_empty (next_batch a.node)))

  unfoldable pub apply_loop : ℕ → ℕ → Applied L S → Applied L S
  apply_loop zero now a = a
  apply_loop (suc fuel) now a = elim (goes_on a) [
    | false ↦ a
    | true ↦ apply_loop fuel now (apply_round now a)
  ]

  abbrev is_null {ℓ} : {A : Type ℓ} → Option A → Bool
  is_null none = true
  is_null (some a) = false

  -- `ApplyCommittedLogsLocked`. Each round applies an entry, so the distance to `commit_index` bounds
  -- the rounds.
  unfoldable pub apply_committed_logs : ℕ → Node L S → Applied L S
  apply_committed_logs now n =
      let start : Applied L S = record { node = n; result = no_result; threw = false } in
      if is_null n.machine || is_null n.log
      then start
      else apply_loop (n.commit_index - n.last_applied) now start
