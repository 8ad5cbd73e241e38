-- ===== src/Raft/CommandLog.antt =====
-- server/raft/command_log.{h,cc}: the in-memory log. `entries_[0]` is the field `sentinel` and
-- `entries_[i]` stands at place i - 1 of `tail`, so `entries_.size()` is `length tail + 1`.
pub mod Laws
pub mod Compact
use maxredis.Base.{
  ℕ, ◌+◌, ◌-◌, ◌^◌, min, u64, ◌&&◌, ◌||◌, Option, none, List, [], ◌∷◌, ◌++◌, ltb, leb, ◌==◌,
  if◌then◌else◌, length, is_empty, get_elem?, get_last_or, take, drop, resize,
}
use maxredis.Raft.Types.{Term, LogIndex, LogEntry, default_entry, SnapshotAnchor}
use maxredis.Raft.LogStorage.{LogStorage, term_of}

pub record CommandLog : Type 0 where
  pub base_index : LogIndex
  pub sentinel : LogEntry
  pub tail : List LogEntry
  pub anchor : SnapshotAnchor

-- `CommandLog()`
abbrev pub new : CommandLog
new = record {
  base_index = 0;
  sentinel = default_entry;
  tail = [];
  anchor = record { index = 0; term = 0 };
}

unfoldable pub last_index : CommandLog → LogIndex
last_index l = if is_empty l.tail then 0 else l.base_index + length l.tail

unfoldable pub first_index : CommandLog → LogIndex
unfolding last_index
first_index l =
    if is_empty l.tail
    then 0
    else if leb (l.base_index + 1) (last_index l)
    then l.base_index + 1
    else 0

unfoldable pub log_size : CommandLog → ℕ
unfolding last_index first_index
log_size l = if is_empty l.tail then 0 else last_index l - first_index l + 1

unfoldable pub last_term : CommandLog → Term
last_term l = if is_empty l.tail then 0 else (get_last_or l.sentinel l.tail).term

unfoldable pub get : CommandLog → LogIndex → Option LogEntry
unfolding last_index
get l i =
    if ltb i l.base_index || ltb (last_index l) i
    then none
    else get_elem? (l.sentinel ∷ l.tail) (i - l.base_index)

unfoldable pub get_term : CommandLog → LogIndex → Term
unfolding get
get_term l i =
    if (i == l.anchor.index) && ltb 0 l.anchor.index then l.anchor.term else term_of (get l i)

unfoldable pub set_snapshot_anchor : CommandLog → LogIndex → Term → CommandLog
set_snapshot_anchor l i t = record l { anchor = record { index = i; term = t } }

unfoldable pub append : CommandLog → LogEntry → CommandLog
unfolding last_index
append l e = record l { tail = l.tail ++ record e { index = last_index l + 1 } ∷ [] }

-- `physical_start + limit` in `size_t`. A vector has fewer than 2^63 elements, so that the sum wraps
-- only with a limit from there on.
unfoldable pub range_end : ℕ → ℕ → ℕ
range_end physical limit = if ltb limit (2 ^ 63) then physical + limit else u64 (physical + limit)

-- `GetRange`; where the sum wraps, the end is before the start, `reserve` throws, and [] stands for that.
unfoldable pub get_range : CommandLog → LogIndex → ℕ → List LogEntry
unfolding last_index first_index range_end
get_range l start limit =
    if ltb start (first_index l) || ltb (last_index l) start
    then []
    else (let physical = start - l.base_index in
        let size = length l.tail + 1 in
        let end = if limit == 0 then size else min size (range_end physical limit) in
        take (end - physical) (drop physical (l.sentinel ∷ l.tail)))

unfoldable pub truncate_from : CommandLog → LogIndex → CommandLog
truncate_from l new_last =
    if leb new_last l.base_index
    then record l { tail = [] }
    else record l { tail = resize (new_last - l.base_index) default_entry l.tail }

unfoldable pub compact_up_to : CommandLog → LogIndex → CommandLog
unfolding last_index
compact_up_to l index =
    if leb index l.base_index
    then l
    else if leb (last_index l) index
    then record l { base_index = index; tail = [] }
    else (let keep_from = index - l.base_index + 1 in
        record l {
          base_index = index;
          tail =
              if ltb keep_from (length l.tail + 1)
              then drop keep_from (l.sentinel ∷ l.tail)
              else [];
        })

unfoldable pub clear : CommandLog → CommandLog
clear l = record l { base_index = 0; tail = [] }

-- `AppendLog(const std::vector<LogEntry>&)` and `AppendBatch`
unfoldable pub append_batch : CommandLog → List LogEntry → CommandLog
unfolding append
append_batch l [] = l
append_batch l (e ∷ es) = append_batch (append l e) es

-- `ILogStorage::CompactLogs`
unfoldable pub compact_logs : CommandLog → LogIndex → Term → CommandLog
unfolding compact_up_to set_snapshot_anchor
compact_logs l index term = compact_up_to (set_snapshot_anchor l index term) index

-- `PruneCompacted` and `Flush` are the defaults of the base class: nothing happens.
unfoldable pub storage : LogStorage CommandLog
storage = record {
  log_size = log_size;
  first_index = first_index;
  last_index = last_index;
  last_term = last_term;
  get = get;
  get_term = get_term;
  set_snapshot_anchor = set_snapshot_anchor;
  append = append;
  get_range = get_range;
  truncate_from = truncate_from;
  compact_up_to = compact_up_to;
  clear = clear;
  prune_compacted = λ l. l;
  flush = λ l. l;
}
