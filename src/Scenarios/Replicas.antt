-- ===== src/Scenarios/Replicas.antt =====
-- Two nodes with stores of two and of three shards, which apply the same SET.
use maxredis.Base.{zero, suc, ◌+◌, ◌≤◌, ◌<◌, ◌≡◌, refl, false, some, [], ◌∷◌, arith, ℕ, get_elem?}
use maxredis.Raft.Types.{LogEntry, follower, leader, default_entry}
use maxredis.Raft.CommandLog
use maxredis.Raft.CommandLog.{CommandLog}
use maxredis.Raft.CommandLog.Laws
use maxredis.Raft.ConfigCommand
use maxredis.Raft.RespArray
use maxredis.Raft.Node.{Node}
use maxredis.Raft.Node.Apply.{
  apply_committed_logs, apply_loop, apply_round, apply_entries, apply_next, apply_entry,
  apply_command, is_config_entry, flush_progress, has_more, next_batch, goes_on,
}
use maxredis.Raft.Node.Apply.Ranges.{entries_from}
use maxredis.Kv.Machine.{Kv}
use maxredis.Kv.Machine.Refine.{view, new-IsValid}
use maxredis.Kv.Snapshot.{kv_machine}
use maxredis.Kv.Replica.{run_spec, Holds, applied_store, nodes_agree}
use maxredis.Scenarios.{node_of}
use maxredis.Scenarios.Commands.{atoi, two_shards, three_shards, by_length, by_zero, set_entry}

abbrev short_log : CommandLog
short_log = record {
  base_index = 0;
  sentinel = default_entry;
  tail = set_entry ∷ [];
  anchor = record { index = 0; term = 0 };
}

-- The same with an entry that is not committed.
abbrev long_log : CommandLog
long_log = record short_log { tail = set_entry ∷ record { term = 1; index = 2; command = [] } ∷ [] }

short_log-IsValid : CommandLog.Laws.IsValid short_log
short_log-IsValid = record { floor_zero = λ h. refl; indexed = short_indexed }
  where
    short_indexed :
        (j : ℕ) (e : LogEntry) → get_elem? short_log.tail j ≡ some e → e.index ≡ suc (0 + j)
    short_indexed zero e h = ground arith
    short_indexed (suc j) e h = ground arith

long_log-IsValid : CommandLog.Laws.IsValid long_log
long_log-IsValid = record { floor_zero = λ h. refl; indexed = long_indexed }
  where
    long_indexed :
        (j : ℕ) (e : LogEntry) → get_elem? long_log.tail j ≡ some e → e.index ≡ suc (0 + j)
    long_indexed zero e h = ground arith
    long_indexed (suc zero) e h = ground arith
    long_indexed (suc (suc j)) e h = ground arith

abbrev short_node : Node CommandLog Kv
short_node = node_of two_shards follower short_log 1

abbrev long_node : Node CommandLog Kv
long_node = node_of three_shards leader long_log 1

short_not_thrown :
    (apply_committed_logs CommandLog.storage (kv_machine by_length 5 atoi) 5 short_node).threw
    ≡ false
unfolding apply_committed_logs apply_loop apply_round apply_entries apply_next apply_entry
    apply_command is_config_entry flush_progress has_more next_batch goes_on CommandLog.storage
    CommandLog.last_index CommandLog.get_range CommandLog.range_end CommandLog.first_index
    ConfigCommand.starts_with RespArray.encode_resp_array RespArray.encode_count
short_not_thrown = refl

long_not_thrown :
    (apply_committed_logs CommandLog.storage (kv_machine by_zero 5 atoi) 5 long_node).threw ≡ false
unfolding apply_committed_logs apply_loop apply_round apply_entries apply_next apply_entry
    apply_command is_config_entry flush_progress has_more next_batch goes_on CommandLog.storage
    CommandLog.last_index CommandLog.get_range CommandLog.range_end CommandLog.first_index
    ConfigCommand.starts_with RespArray.encode_resp_array RespArray.encode_count
long_not_thrown = refl

applied_store_example :
    (kv : Kv) × ((apply_committed_logs CommandLog.storage
        (kv_machine by_length 5 atoi)
        5
        short_node).node.machine
      ≡ some kv)
    × Holds atoi 5 by_length
        (run_spec atoi 5
          (entries_from CommandLog.storage short_log 1 1)
          (view by_length two_shards))
        kv
unfolding CommandLog.storage CommandLog.last_index
applied_store_example =
    applied_store atoi 5 by_length CommandLog.storage CommandLog.Laws.laws short_log
      short_log-IsValid short_node two_shards refl refl (omega arith) short_not_thrown
      (new-IsValid by_length 2)

same_entries : (i : ℕ) → 0 < i → i ≤ 1 → CommandLog.get short_log i ≡ CommandLog.get long_log i
unfolding CommandLog.get
same_entries zero above below = ground arith
same_entries (suc zero) above below = refl
same_entries (suc (suc i)) above below = ground arith

nodes_agree_example :
    (after after' : Kv) × ((apply_committed_logs CommandLog.storage
        (kv_machine by_length 5 atoi)
        5
        short_node).node.machine
      ≡ some after)
    × ((apply_committed_logs CommandLog.storage
          (kv_machine by_zero 5 atoi)
          5
          long_node).node.machine
        ≡ some after')
    × (view by_length after ≡ view by_zero after')
unfolding CommandLog.storage CommandLog.last_index CommandLog.get
nodes_agree_example =
    nodes_agree atoi 5 CommandLog.storage CommandLog.Laws.laws by_length by_zero short_node
      long_node short_log long_log two_shards three_shards short_log-IsValid long_log-IsValid refl
      refl refl refl (omega arith) (omega arith) refl refl (omega arith) (omega arith) same_entries
      short_not_thrown long_not_thrown (new-IsValid by_length 2) (new-IsValid by_zero 3) refl
