-- ===== src/Scenarios/Logs.antt =====
-- The in-memory log and AppendEntries on the concrete node.
use maxredis.Base.{◌⊎◌, get_elem?, ℕ, ◌≡◌, refl, none, some, [], ◌∷◌, arith, inr, ◌<◌}
use maxredis.Raft.Types.{LogEntry, LogIndex, follower, AppendEntriesRequest, default_entry}
use maxredis.Raft.CommandLog
use maxredis.Raft.CommandLog.{CommandLog}
use maxredis.Raft.CommandLog.Laws
use maxredis.Scenarios.{n2, counter, set_x, two_entries, two_entries-IsValid, node}
use maxredis.Raft.CommandLog.Compact.{compact_up_to_lem, append_behind_full_compaction}
use maxredis.Raft.Node.{Node}
use maxredis.Raft.Node.Follower.{on_append_entries}
use maxredis.Raft.Node.Follower.Matching.{Stored}
use maxredis.Raft.Node.Follower.Append.{append_entries_stores, Accepted}

two_reaches : CommandLog.last_index two_entries ≡ 2
unfolding CommandLog.last_index
two_reaches = refl

get-append_example :
    CommandLog.get (CommandLog.append two_entries default_entry) 3
    ≡ some (record default_entry { index = 3 })
unfolding CommandLog.last_index
get-append_example = CommandLog.Laws.get-append two_entries default_entry two_entries-IsValid 3

get-truncate_example : CommandLog.get (CommandLog.truncate_from two_entries 1) 2 ≡ none
get-truncate_example =
    CommandLog.Laws.get-truncate two_entries 1 two_entries-IsValid (omega (arith, two_reaches))
      (inr refl) 2

get_range_lem_example :
    get_elem? (CommandLog.get_range two_entries 1 1) 0 ≡ CommandLog.get two_entries 1
get_range_lem_example =
    CommandLog.Laws.get_range_lem two_entries 1 1 two_entries-IsValid (omega arith)
      (omega (arith, two_reaches)) (omega arith) 0

compact_up_to_lem_example :
    CommandLog.Laws.IsValid (CommandLog.compact_up_to two_entries 1)
    × ((CommandLog.compact_up_to two_entries 1).base_index ≡ 1)
    × (CommandLog.last_index (CommandLog.compact_up_to two_entries 1)
        ≡ CommandLog.last_index two_entries)
    × ((i : LogIndex)
        → 1 < i
        → CommandLog.get (CommandLog.compact_up_to two_entries 1) i ≡ CommandLog.get two_entries i)
compact_up_to_lem_example =
    compact_up_to_lem two_entries 1 two_entries-IsValid (omega arith) (omega (arith, two_reaches))

append_behind_full_compaction_example :
    (CommandLog.last_index (CommandLog.compact_up_to two_entries 2) ≡ 0)
    × (CommandLog.get (CommandLog.append (CommandLog.compact_up_to two_entries 2) default_entry) 3
        ≡ some (record default_entry { index = 1 }))
append_behind_full_compaction_example =
    append_behind_full_compaction two_entries 2 two_entries-IsValid (omega arith) default_entry
      (omega (arith, two_reaches))

-- A leader of term 3 replaces the second entry by two of its own.
abbrev follower_node : Node CommandLog ℕ
follower_node = node follower two_entries 0

abbrev third : ℕ → LogEntry
third i = record { term = 3; index = i; command = set_x }

abbrev request : AppendEntriesRequest
request = record {
  group_id = 1;
  term = 3;
  leader_id = n2;
  prev_log_index = 1;
  prev_log_term = 1;
  entries = third 2 ∷ third 3 ∷ [];
  leader_commit = 0;
}

term_one : 0 < 1 → CommandLog.get_term two_entries 1 ≡ 1
unfolding CommandLog.get_term CommandLog.get CommandLog.last_index
term_one h = refl

append_entries_stores_example :
    (l' : CommandLog) × ((on_append_entries CommandLog.storage counter 0 follower_node
        request).0.log
      ≡ some l')
    × Stored CommandLog.storage CommandLog.Laws.laws two_entries 2 request.entries l'
    × ((request.entries ≡ []) ⊎ (CommandLog.last_index l' ≡ 3))
    × Accepted
        (on_append_entries CommandLog.storage counter 0 follower_node request).1
        (CommandLog.last_index l')
unfolding CommandLog.storage
append_entries_stores_example =
    append_entries_stores CommandLog.storage counter CommandLog.Laws.laws 0 request follower_node
      two_entries refl two_entries-IsValid (inr refl) (omega arith) (omega (arith, two_reaches))
      term_one (refl, (refl, tt)) (omega arith)
