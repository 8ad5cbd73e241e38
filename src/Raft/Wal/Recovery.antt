-- ===== src/Raft/Wal/Recovery.antt =====
-- A log that was written to segment files is recovered from them, up to a record that was torn.
use maxredis.Base.{
  ℕ, zero, suc, ◌+◌, ◌<◌, ◌≤◌, ◌≡◌, refl, sym, ap, subst, ◌∙◌, none, some, List, [], ◌∷◌, ◌++◌,
  arith, Bytes, length, take, length-append, read_exact_short,
}
use maxredis.Raft.Types.{LogIndex, LogEntry}
use maxredis.Raft.Wal.{
  record_bytes, records, Scan, empty_scan, next_record, keep_record, scan_loop, scan_segment,
  load_segments, header_size,
}
use maxredis.Raft.Wal.Record.{
  IsStorable, next_record-record_bytes, next_record-take, length-record_bytes,
}
use mathlib.Core.List.{append-nil, append_assoc}

-- Entries that fit their records, with commands that are not empty.
abbrev pub AllStorable : List LogEntry → Type 0
AllStorable [] = Unit
AllStorable (e ∷ es) = IsStorable e × AllStorable es

-- Indexes that grow from above `last` on.
abbrev pub Growing : LogIndex → List LogEntry → Type 0
Growing last [] = Unit
Growing last (e ∷ es) = (last < e.index) × Growing e.index es

abbrev pub IsLog : LogIndex → List LogEntry → Type 0
IsLog last [] = Unit
IsLog last (e ∷ es) = IsStorable e × (last < e.index) × IsLog e.index es

pub to_IsLog :
    (last : LogIndex) (es : List LogEntry) → AllStorable es → Growing last es → IsLog last es
to_IsLog last [] a g = tt
to_IsLog last (e ∷ es) (storable, a) (later, g) = (storable, later, to_IsLog e.index es a g)

abbrev pub last_of : LogIndex → List LogEntry → LogIndex
last_of last [] = last
last_of last (e ∷ es) = last_of e.index es

abbrev pub keep_all : ℕ → ℕ → List LogEntry → Scan → Scan
keep_all segment_id offset [] s = s
keep_all segment_id offset (e ∷ es) s =
    keep_all segment_id (offset + header_size + length e.command) es
      (keep_record segment_id offset e s)

scan_stop :
    (fuel segment_id offset : ℕ) (file : Bytes) (s : Scan)
    → next_record s.last_index file ≡ none
    → scan_loop fuel segment_id offset file s ≡ s
unfolding scan_loop
scan_stop zero segment_id offset file s h = refl
scan_stop (suc fuel) segment_id offset file s h = ground (arith, h)

scan_next :
    (fuel segment_id offset : ℕ) (file rest : Bytes) (e : LogEntry) (s : Scan)
    → next_record s.last_index file ≡ some (e, rest)
    → scan_loop (suc fuel) segment_id offset file s
      ≡ scan_loop fuel segment_id
          (offset + header_size + length e.command)
          rest
          (keep_record segment_id offset e s)
unfolding scan_loop
scan_next fuel segment_id offset file rest e s h = ground (arith, h)

-- The scan of records with a rest that holds no further record; `fuel` rounds are enough.
scan_records :
    (es : List LogEntry) (fuel segment_id offset : ℕ) (tail : Bytes) (s : Scan)
    → length es ≤ fuel
    → IsLog s.last_index es
    → next_record (last_of s.last_index es) tail ≡ none
    → scan_loop fuel segment_id offset (records es ++ tail) s ≡ keep_all segment_id offset es s
unfolding records keep_record
scan_records [] fuel segment_id offset tail s f h t = scan_stop fuel segment_id offset tail s t
scan_records (e ∷ es) zero segment_id offset tail s f h t = absurd (omega arith)
scan_records (e ∷ es) (suc fuel) segment_id offset tail s f (storable, later, h) t =
    ap (λ z. scan_loop (suc fuel) segment_id offset z s)
      (append_assoc (record_bytes e) (records es) tail)
    ∙ scan_next fuel segment_id offset (record_bytes e ++ (records es ++ tail)) (records es ++ tail)
        e s (next_record-record_bytes s.last_index e (records es ++ tail) storable later)
    ∙ scan_records es fuel segment_id (offset + header_size + length e.command) tail
        (keep_record segment_id offset e s) (omega arith) h t

length-records_ge : (es : List LogEntry) → length es ≤ length (records es)
unfolding records
length-records_ge [] = omega arith
length-records_ge (e ∷ es) = omega (
  arith,
  length-append (record_bytes e) (records es),
  length-record_bytes e,
  length-records_ge es,
)

pub entries-keep_all :
    (segment_id offset : ℕ) (es : List LogEntry) (s : Scan)
    → (keep_all segment_id offset es s).entries ≡ s.entries ++ es
unfolding keep_record
entries-keep_all segment_id offset [] s = sym (append-nil s.entries)
entries-keep_all segment_id offset (e ∷ es) s =
    entries-keep_all segment_id (offset + header_size + length e.command) es
      (keep_record segment_id offset e s)
    ∙ append_assoc s.entries (e ∷ []) es

last_index-keep_all :
    (segment_id offset : ℕ) (es : List LogEntry) (s : Scan)
    → (keep_all segment_id offset es s).last_index ≡ last_of s.last_index es
unfolding keep_record
last_index-keep_all segment_id offset [] s = refl
last_index-keep_all segment_id offset (e ∷ es) s =
    last_index-keep_all segment_id (offset + header_size + length e.command) es
      (keep_record segment_id offset e s)

-- One segment, with a rest that holds no further record.
pub scan_segment-records :
    (segment_id : ℕ) (es : List LogEntry) (tail : Bytes) (s : Scan)
    → IsLog s.last_index es
    → next_record (last_of s.last_index es) tail ≡ none
    → scan_segment segment_id (records es ++ tail) s ≡ keep_all segment_id 0 es s
unfolding scan_segment
scan_segment-records segment_id es tail s h t =
    let enough : length es ≤ length (records es ++ tail) =
      omega (arith, length-append (records es) tail, length-records_ge es) in
    scan_records es (length (records es ++ tail)) segment_id 0 tail s enough h t

-- The files of whole segments.
abbrev pub files_of : List (ℕ × List LogEntry) → List (ℕ × Bytes)
files_of [] = []
files_of ((segment_id, es) ∷ segments) = (segment_id, records es) ∷ files_of segments

abbrev pub entries_of : List (ℕ × List LogEntry) → List LogEntry
entries_of [] = []
entries_of ((segment_id, es) ∷ segments) = es ++ entries_of segments

pub IsLog-append :
    (last : LogIndex) (xs ys : List LogEntry)
    → IsLog last (xs ++ ys)
    → IsLog last xs × IsLog (last_of last xs) ys
IsLog-append last [] ys h = (tt, h)
IsLog-append last (x ∷ xs) ys (storable, later, h) =
    let (front, back) = IsLog-append x.index xs ys h in ((storable, later, front), back)

next_record-nil : (last : LogIndex) → next_record last [] ≡ none
unfolding next_record
next_record-nil last = ground (arith, read_exact_short 24 [])

pub scan_segment-whole :
    (segment_id : ℕ) (es : List LogEntry) (s : Scan)
    → IsLog s.last_index es
    → scan_segment segment_id (records es) s ≡ keep_all segment_id 0 es s
scan_segment-whole segment_id es s h =
    ap (λ z. scan_segment segment_id z s) (sym (append-nil (records es)))
    ∙ scan_segment-records segment_id es [] s h (next_record-nil (last_of s.last_index es))

-- The log of some whole segments and a last one that ends in a torn record, or in none.
abbrev pub torn_files :
    List (ℕ × List LogEntry) → ℕ → List LogEntry → LogEntry → ℕ → List (ℕ × Bytes)
torn_files segments segment_id es torn n =
    files_of segments ++ (segment_id, records es ++ take n (record_bytes torn)) ∷ []

load_torn :
    (segments : List (ℕ × List LogEntry)) (segment_id : ℕ) (es : List LogEntry) (torn : LogEntry)
    (n : ℕ) (s : Scan)
    → IsLog s.last_index (entries_of segments ++ es)
    → IsStorable torn
    → n < length (record_bytes torn)
    → (load_segments (torn_files segments segment_id es torn n) s).entries
      ≡ s.entries ++ (entries_of segments ++ es)
unfolding load_segments
load_torn [] segment_id es torn n s h st hn =
    let scanned =
      scan_segment-records segment_id es (take n (record_bytes torn)) s h
        (next_record-take (last_of s.last_index es) torn n st hn) in
    ap (λ z. z.entries) scanned ∙ entries-keep_all segment_id 0 es s
load_torn ((id, xs) ∷ segments) segment_id es torn n s h st hn =
    let others = entries_of segments ++ es in
    let (front, back) =
      IsLog-append s.last_index xs others
        (subst (IsLog s.last_index) (append_assoc xs (entries_of segments) es) h) in
    let s' = keep_all id 0 xs s in
    let scanned = scan_segment-whole id xs s front in
    let rest =
      load_torn segments segment_id es torn n s'
        (subst (λ i. IsLog i others) (sym (last_index-keep_all id 0 xs s)) back) st hn in
    ap (λ z. (load_segments (torn_files segments segment_id es torn n) z).entries) scanned
    ∙ rest
    ∙ ap (λ z. z ++ others) (entries-keep_all id 0 xs s)
    ∙ append_assoc s.entries xs others
    ∙ ap (λ z. s.entries ++ z) (sym (append_assoc xs (entries_of segments) es))

-- After a crash, `Open` reads back exactly the entries whose records were written to their end, in
-- their order and over all segments: the records of a log with growing indexes, and then any part of
-- one more record, if no command is empty or has 2^32 bytes or more and the indexes and terms are below
-- 2^64.
pub recovered :
    (segments : List (ℕ × List LogEntry)) (segment_id : ℕ) (es : List LogEntry) (torn : LogEntry)
    (n : ℕ)
    → Growing 0 (entries_of segments ++ es)
    → AllStorable (entries_of segments ++ es)
    → IsStorable torn
    → n < length (record_bytes torn)
    → (load_segments (torn_files segments segment_id es torn n) empty_scan).entries
      ≡ entries_of segments ++ es
recovered segments segment_id es torn n grow fit =
    load_torn segments segment_id es torn n empty_scan
      (to_IsLog 0 (entries_of segments ++ es) fit grow)
