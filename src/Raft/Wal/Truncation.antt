-- ===== src/Raft/Wal/Truncation.antt =====
-- `TruncateFrom` of server/raft/segment_log_storage.cc cuts the segment file at the location that the
-- scan recorded, and a later scan reads the entries up to there.
use maxredis.Base.{
  ℕ, ◌+◌, ◌≤◌, ◌≡◌, refl, sym, ap, subst, ◌∙◌, Bool, true, not, none, some, List, [], ◌∷◌, ◌++◌,
  arith, length, take, length-append, take-append, if◌then◌else◌, ◌==◌, ==→≡,
}
use maxredis.Raft.Types.{LogIndex, LogEntry}
use maxredis.Raft.Wal.{
  record_bytes, records, Scan, empty_scan, keep_record, scan_segment, header_size, EntryLocation,
  WalIndex, index_find, index_filter, index_add, truncate_file,
}
use maxredis.Raft.Wal.Record.{length-record_bytes}
use maxredis.Raft.Wal.Recovery.{
  IsLog, Growing, AllStorable, to_IsLog, keep_all, entries-keep_all, scan_segment-whole,
  IsLog-append,
}
use mathlib.Core.List.{append_assoc}

index_find-filter :
    (keep : LogIndex → Bool) (i : LogIndex) (index : WalIndex)
    → index_find i (index_filter keep index) ≡ (if keep i then index_find i index else none)
unfolding index_find index_filter
index_find-filter keep i [] = ground arith
index_find-filter keep i ((j, loc) ∷ rest) =
    ground (
      arith,
      index_find-filter keep i rest,
      ==→≡ j i,
      λ (h : (j == i) ≡ true). ap keep (==→≡ j i h),
    )

index_find-add :
    (i j : LogIndex) (loc : EntryLocation) (index : WalIndex)
    → index_find i (index_add j loc index) ≡ (if j == i then some loc else index_find i index)
unfolding index_find index_add
index_find-add i j loc index = ground (arith, index_find-filter (λ k. not (k == j)) i index)

-- Later records do not move an earlier one.
find_kept :
    (i segment_id offset : ℕ) (es : List LogEntry) (s : Scan)
    → i ≤ s.last_index
    → IsLog s.last_index es
    → index_find i (keep_all segment_id offset es s).index ≡ index_find i s.index
unfolding keep_record
find_kept i segment_id offset [] s h l = refl
find_kept i segment_id offset (e ∷ es) s h (storable, later, l) =
    let loc : EntryLocation = record { segment_id = segment_id; offset = offset } in
    find_kept i segment_id (offset + header_size + length e.command) es
      (keep_record segment_id offset e s) (omega arith) l
    ∙ ground (arith, index_find-add i e.index loc s.index)

located :
    (ps qs : List LogEntry) (e : LogEntry) (segment_id offset : ℕ) (s : Scan)
    → IsLog s.last_index (ps ++ e ∷ qs)
    → index_find e.index (keep_all segment_id offset (ps ++ e ∷ qs) s).index
      ≡ some (record { segment_id = segment_id; offset = offset + length (records ps) })
unfolding keep_record records
located [] qs e segment_id offset s (storable, later, l) =
    let here : offset + 0 ≡ offset = omega arith in
    let loc : EntryLocation = record { segment_id = segment_id; offset = offset } in
    find_kept e.index segment_id (offset + header_size + length e.command) qs
      (keep_record segment_id offset e s) (omega arith) l
    ∙ ground (arith, index_find-add e.index e.index loc s.index, here)
located (p ∷ ps) qs e segment_id offset s (storable, later, l) =
    let there : offset + header_size + length p.command + length (records ps)
        ≡ offset + length (record_bytes p ++ records ps) =
      omega (arith, length-append (record_bytes p) (records ps), length-record_bytes p) in
    located ps qs e segment_id (offset + header_size + length p.command)
      (keep_record segment_id offset p s) l
    ∙ ap (λ o. some (record { segment_id = segment_id; offset = o })) there

records-append : (xs ys : List LogEntry) → records (xs ++ ys) ≡ records xs ++ records ys
unfolding records
records-append [] ys = refl
records-append (x ∷ xs) ys =
    ap (λ z. record_bytes x ++ z) (records-append xs ys)
    ∙ sym (append_assoc (record_bytes x) (records xs) (records ys))

truncated :
    (ps qs : List LogEntry) (e : LogEntry) (segment_id : ℕ)
    → truncate_file
        (record { segment_id = segment_id; offset = 0 + length (records ps) })
        e
        (records (ps ++ e ∷ qs))
      ≡ records (ps ++ e ∷ [])
unfolding truncate_file records
truncated ps qs e segment_id =
    let front = records (ps ++ e ∷ []) in
    let split : records (ps ++ e ∷ qs) ≡ front ++ records qs =
      ap records (sym (append_assoc ps (e ∷ []) qs)) ∙ records-append (ps ++ e ∷ []) qs in
    let end : 0 + length (records ps) + header_size + length e.command ≡ length front = omega (
      arith,
      ap length (records-append ps (e ∷ [])),
      length-append (records ps) (record_bytes e ++ []),
      length-append (record_bytes e) [],
      length-record_bytes e,
    ) in
    ap (λ z. take (0 + length (records ps) + header_size + length e.command) z) split
    ∙ ap (λ n. take n (front ++ records qs)) end
    ∙ take-append front (records qs)

-- The scan of a segment with the records of a log with growing indexes, in which no command is empty or
-- has 2^32 bytes or more and the indexes and terms are below 2^64, knows the location of each of its
-- entries, and the file that is cut behind that entry is scanned as the log up to it.
pub scan-truncate_file :
    (ps qs : List LogEntry) (e : LogEntry) (segment_id : ℕ)
    → Growing 0 (ps ++ e ∷ qs)
    → AllStorable (ps ++ e ∷ qs)
    → let file = records (ps ++ e ∷ qs) in
      (loc : EntryLocation) × (index_find e.index (scan_segment segment_id file empty_scan).index
        ≡ some loc)
      × ((scan_segment segment_id (truncate_file loc e file) empty_scan).entries ≡ ps ++ e ∷ [])
scan-truncate_file ps qs e segment_id grow fit =
    let l = to_IsLog 0 (ps ++ e ∷ qs) fit grow in
    let loc : EntryLocation = record {
      segment_id = segment_id;
      offset = 0 + length (records ps);
    } in
    let first = ap (λ z. z.index) (scan_segment-whole segment_id (ps ++ e ∷ qs) empty_scan l) in
    let (front, back) =
      IsLog-append 0 (ps ++ e ∷ []) qs (subst (IsLog 0) (sym (append_assoc ps (e ∷ []) qs)) l) in
    let again =
      ap (λ z. scan_segment segment_id z empty_scan) (truncated ps qs e segment_id)
      ∙ scan_segment-whole segment_id (ps ++ e ∷ []) empty_scan front in
    (
      loc,
      ap (index_find e.index) first ∙ located ps qs e segment_id 0 empty_scan l,
      ap (λ z. z.entries) again ∙ entries-keep_all segment_id 0 (ps ++ e ∷ []) empty_scan,
    )
