-- ===== src/Raft/Wal.antt =====
-- The write-ahead log on disk: the records of server/raft/wal_writer.cc, their locations
-- (server/raft/wal_index.h), and the scan of the segment files with which
-- server/raft/segment_log_storage.cc recovers. A file is the list of its bytes; writes succeed.
pub mod Record
pub mod Recovery
pub mod Truncation
use maxredis.Base.{
  ℕ, zero, suc, ◌+◌, ◌%◌, ◌^◌, Bool, true, false, not, ◌&&◌, ◌||◌, Option, none, some, List, [],
  ◌∷◌, ◌++◌, Bytes, length, take, drop, leb, ltb, ◌==◌, if◌then◌else◌, le_bytes, le_value,
  read_exact,
}
use maxredis.Raft.Types.{Term, LogIndex, LogEntry}
use maxredis.Raft.Crc32.{compute_crc32}

-- `RecordHeader`, 24 bytes
pub record RecordHeader : Type 0 where
  pub index : LogIndex
  pub term : Term
  pub size : ℕ
  pub crc32 : ℕ

abbrev pub header_size : ℕ
header_size = 24

unfoldable pub header_bytes : RecordHeader → Bytes
header_bytes h =
    le_bytes 8 h.index ++ (le_bytes 8 h.term ++ (le_bytes 4 h.size ++ le_bytes 4 h.crc32))

-- The struct that the bytes of a header are read into.
unfoldable pub header_of : Bytes → RecordHeader
header_of bytes = record {
  index = le_value (take 8 bytes);
  term = le_value (take 8 (drop 8 bytes));
  size = le_value (take 4 (drop 8 (drop 8 bytes)));
  crc32 = le_value (take 4 (drop 4 (drop 8 (drop 8 bytes))));
}

-- The header that `WalWriter::Append` fills in; the size is cast to 32 bits.
unfoldable pub header : LogEntry → RecordHeader
header e = record {
  index = e.index;
  term = e.term;
  size = length e.command % 2 ^ 32;
  crc32 = compute_crc32 e.command;
}

-- What `WalWriter::Append` adds to the buffer.
unfoldable pub record_bytes : LogEntry → Bytes
record_bytes e = header_bytes (header e) ++ e.command

unfoldable pub records : List LogEntry → Bytes
records [] = []
records (e ∷ es) = record_bytes e ++ records es

-- `EntryLocation`, and `WalIndex` as a list of pairs
pub record EntryLocation : Type 0 where
  pub segment_id : ℕ
  pub offset : ℕ

abbrev pub WalIndex : Type 0
WalIndex = List (LogIndex × EntryLocation)

-- `WalIndex::Add`, `Find`, `Truncate` and `TrimUpTo`
unfoldable pub index_find : LogIndex → WalIndex → Option EntryLocation
index_find i [] = none
index_find i ((j, loc) ∷ rest) = let found = index_find i rest in if j == i then some loc else found

unfoldable pub index_filter : (LogIndex → Bool) → WalIndex → WalIndex
index_filter keep [] = []
index_filter keep ((j, loc) ∷ rest) =
    let kept = index_filter keep rest in if keep j then (j, loc) ∷ kept else kept

unfoldable pub index_add : LogIndex → EntryLocation → WalIndex → WalIndex
index_add i loc index = (i, loc) ∷ index_filter (λ j. not (j == i)) index

unfoldable pub index_truncate : LogIndex → WalIndex → WalIndex
index_truncate new_last index = index_filter (λ j. leb j new_last) index

unfoldable pub index_trim_up_to : LogIndex → WalIndex → WalIndex
index_trim_up_to i index = index_filter (λ j. ltb i j) index

-- The fields that the scan fills.
pub record Scan : Type 0 where
  pub entries : List LogEntry  -- behind the sentinel
  pub index : WalIndex
  pub last_index : LogIndex
  pub last_term : Term

abbrev pub empty_scan : Scan
empty_scan = record { entries = []; index = []; last_index = 0; last_term = 0 }

-- A record that stands at the front of what is left of the file and passes every test, with the rest.
unfoldable pub checked_payload : RecordHeader → LogIndex → Bytes → Option (LogEntry × Bytes)
checked_payload hdr last_index file =
    if (hdr.size == 0) || leb hdr.index last_index then none else elim (read_exact hdr.size file) [
      | none ↦ none
      | some (command, rest) ↦
          if compute_crc32 command == hdr.crc32
          then some (record { term = hdr.term; index = hdr.index; command = command }, rest)
          else none
    ]

unfoldable pub next_record : LogIndex → Bytes → Option (LogEntry × Bytes)
next_record last_index file = elim (read_exact header_size file) [
  | none ↦ none
  | some (bytes, rest) ↦ checked_payload (header_of bytes) last_index rest
]

-- `entries_.push_back` and `RebuildIndex`
unfoldable pub keep_record : ℕ → ℕ → LogEntry → Scan → Scan
keep_record segment_id offset e s = record {
  entries = s.entries ++ e ∷ [];
  index = index_add e.index (record { segment_id = segment_id; offset = offset }) s.index;
  last_index = e.index;
  last_term = e.term;
}

-- The loop of `ScanSegment`; every round but the last takes a record off the file, so the length of
-- the file is enough fuel.
unfoldable pub scan_loop : ℕ → ℕ → ℕ → Bytes → Scan → Scan
scan_loop zero segment_id offset file s = s
scan_loop (suc fuel) segment_id offset file s = elim (next_record s.last_index file) [
  | none ↦ s
  | some (e, rest) ↦
      scan_loop fuel segment_id (offset + header_size + length e.command) rest
        (keep_record segment_id offset e s)
]

-- `SegmentLogStorage::ScanSegment`
unfoldable pub scan_segment : ℕ → Bytes → Scan → Scan
scan_segment segment_id file s = scan_loop (length file) segment_id 0 file s

-- `SegmentLogStorage::LoadSegments`, over the files in the order of their ids
unfoldable pub load_segments : List (ℕ × Bytes) → Scan → Scan
load_segments [] s = s
load_segments ((segment_id, file) ∷ files) s = load_segments files (scan_segment segment_id file s)

-- The end of the record that `TruncateFrom` keeps, and the segment file cut there.
abbrev pub keep_end : EntryLocation → LogEntry → ℕ
keep_end loc keep = loc.offset + header_size + length keep.command

unfoldable pub truncate_file : EntryLocation → LogEntry → Bytes → Bytes
truncate_file loc keep file = take (keep_end loc keep) file
