-- ===== src/Scenarios/Disks.antt =====
-- Segment files of a log.
use maxredis.Base.{◌<◌, ◌≡◌, [], ◌∷◌, arith, length, ℕ, ◌^◌, some}
use maxredis.Raft.Types.{LogEntry}
use maxredis.Raft.Wal.{
  record_bytes, records, empty_scan, EntryLocation, index_find, scan_segment, load_segments,
  truncate_file,
}
use maxredis.Raft.Wal.Record.{IsStorable, length-record_bytes}
use maxredis.Raft.Wal.Recovery.{Growing, AllStorable, torn_files, recovered}
use maxredis.Raft.Wal.Truncation.{scan-truncate_file}
use maxredis.Raft.Crc32.{compute_crc32}
use maxredis.Raft.Crc32.Bitwise.{bitwise_crc32, compute_crc32-bitwise}
use maxredis.Scenarios.{set_x}

abbrev entry : ℕ → LogEntry
entry i = record { term = 1; index = i; command = set_x }

entry-IsStorable : (i : ℕ) → i < 2 ^ 64 → IsStorable (entry i)
entry-IsStorable i h = record {
  index_fits = h;
  term_fits = omega arith;
  full = omega arith;
  size_fits = omega arith;
}

two-Growing : Growing 0 (entry 1 ∷ entry 2 ∷ [])
two-Growing = (omega arith, (omega arith, tt))

two-AllStorable : AllStorable (entry 1 ∷ entry 2 ∷ [])
two-AllStorable = (entry-IsStorable 1 (omega arith), (entry-IsStorable 2 (omega arith), tt))

torn_size : 20 < length (record_bytes (entry 3))
torn_size = omega (arith, length-record_bytes (entry 3))

recovered_example :
    (load_segments
      (torn_files ((0, entry 1 ∷ []) ∷ []) 1 (entry 2 ∷ []) (entry 3) 20)
      empty_scan).entries
    ≡ entry 1 ∷ entry 2 ∷ []
recovered_example =
    recovered ((0, entry 1 ∷ []) ∷ []) 1 (entry 2 ∷ []) (entry 3) 20 two-Growing two-AllStorable
      (entry-IsStorable 3 (omega arith)) torn_size

scan-truncate_file_example :
    let file = records (entry 1 ∷ entry 2 ∷ []) in
    (loc : EntryLocation) × (index_find 1 (scan_segment 0 file empty_scan).index ≡ some loc)
    × ((scan_segment 0 (truncate_file loc (entry 1) file) empty_scan).entries ≡ entry 1 ∷ [])
scan-truncate_file_example =
    scan-truncate_file [] (entry 2 ∷ []) (entry 1) 0 two-Growing two-AllStorable

compute_crc32-bitwise_example : compute_crc32 set_x ≡ bitwise_crc32 set_x
compute_crc32-bitwise_example =
    compute_crc32-bitwise set_x (omega arith, (omega arith, (omega arith, tt)))
