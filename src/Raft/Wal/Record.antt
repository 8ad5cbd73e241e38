-- ===== src/Raft/Wal/Record.antt =====
-- One record of the write-ahead log, whole or torn.
use maxredis.Base.{
  ℕ, ◌+◌, ◌-◌, ◌%◌, ◌^◌, ◌<◌, ◌≡◌, sym, ap, ◌∙◌, none, some, [], ◌++◌, arith, Bytes, length, take,
  drop, length-append, length-take, le_bytes, le_value, Fits, four_bytes-Fits, eight_bytes-Fits,
  length-le_bytes, word_in_front, drop_word, read_exact-append, read_exact_short, take-append_more,
  lt_or_le, inl, inr,
}
use maxredis.Raft.Types.{LogIndex, LogEntry}
use maxredis.Raft.Crc32.{compute_crc32}
use maxredis.Raft.Wal.{
  RecordHeader, header_bytes, header_of, header, record_bytes, checked_payload, next_record,
}
use mathlib.Core.List.{append-nil, append_assoc}

-- Entries that a record can hold: numbers of their widths, and a command that is not empty.
pub record IsStorable (e : LogEntry) : Type 0 where
  pub index_fits : e.index < 2 ^ 64
  pub term_fits : e.term < 2 ^ 64
  pub full : 0 < length e.command
  pub size_fits : length e.command < 2 ^ 32

pub length-header_bytes : (h : RecordHeader) → length (header_bytes h) ≡ 24
unfolding header_bytes
length-header_bytes h = omega (
  arith,
  length-append (le_bytes 8 h.index)
      (le_bytes 8 h.term ++ (le_bytes 4 h.size ++ le_bytes 4 h.crc32)),
  length-append (le_bytes 8 h.term) (le_bytes 4 h.size ++ le_bytes 4 h.crc32),
  length-append (le_bytes 4 h.size) (le_bytes 4 h.crc32),
  length-le_bytes 8 h.index,
  length-le_bytes 8 h.term,
  length-le_bytes 4 h.size,
  length-le_bytes 4 h.crc32,
)

compute_crc32_lt : (bytes : Bytes) → compute_crc32 bytes < 2 ^ 32
unfolding compute_crc32
compute_crc32_lt bytes = omega arith

module _ (h : RecordHeader) where
  abbrev behind_index : Bytes
  behind_index = le_bytes 8 h.term ++ (le_bytes 4 h.size ++ le_bytes 4 h.crc32)

  abbrev behind_term : Bytes
  behind_term = le_bytes 4 h.size ++ le_bytes 4 h.crc32

  header_of-header_bytes :
      Fits 8 h.index
      → Fits 8 h.term
      → Fits 4 h.size
      → Fits 4 h.crc32
      → header_of (header_bytes h) ≡ h
  unfolding header_of header_bytes
  header_of-header_bytes fi ft fs fc =
      let index = drop_word 8 h.index behind_index in
      let term = drop_word 8 h.term behind_term in
      let size = drop_word 4 h.size (le_bytes 4 h.crc32) in
      let last = ap (λ z. le_value (take 4 z)) (sym (append-nil (le_bytes 4 h.crc32))) in
      let index_read = word_in_front 8 h.index behind_index fi in
      let term_read = ap (λ z. le_value (take 8 z)) index ∙ word_in_front 8 h.term behind_term ft in
      let size_read =
        ap (λ z. le_value (take 4 (drop 8 z))) index
        ∙ ap (λ z. le_value (take 4 z)) term
        ∙ word_in_front 4 h.size (le_bytes 4 h.crc32) fs in
      let crc_read =
        ap (λ z. le_value (take 4 (drop 4 (drop 8 z)))) index
        ∙ ap (λ z. le_value (take 4 (drop 4 z))) term
        ∙ ap (λ z. le_value (take 4 z)) size
        ∙ last
        ∙ word_in_front 4 h.crc32 [] fc in
      λ i. record {
        index = index_read i;
        term = term_read i;
        size = size_read i;
        crc32 = crc_read i;
      }

header_read : (e : LogEntry) → IsStorable e → header_of (header_bytes (header e)) ≡ header e
unfolding header
header_read e s =
    header_of-header_bytes (header e) (eight_bytes-Fits e.index s.index_fits)
      (eight_bytes-Fits e.term s.term_fits)
      (four_bytes-Fits (length e.command % 2 ^ 32) (omega arith))
      (four_bytes-Fits (compute_crc32 e.command) (compute_crc32_lt e.command))

-- The header and whatever follows it.
next_record-header :
    (last : LogIndex) (e : LogEntry) (rest : Bytes)
    → IsStorable e
    → next_record last (header_bytes (header e) ++ rest) ≡ checked_payload (header e) last rest
unfolding next_record
next_record-header last e rest s =
    let read =
      read_exact-append 24 (header_bytes (header e)) rest (length-header_bytes (header e)) in
    let go = ap (λ h. checked_payload h last rest) (header_read e s) in ground (arith, read, go)

checked_payload-whole :
    (last : LogIndex) (e : LogEntry) (rest : Bytes)
    → IsStorable e
    → last < e.index
    → checked_payload (header e) last (e.command ++ rest) ≡ some (e, rest)
unfolding checked_payload header
checked_payload-whole last e rest s h =
    let size : length e.command % 2 ^ 32 ≡ length e.command = omega (arith, s.size_fits) in
    let read = read_exact-append (length e.command % 2 ^ 32) e.command rest (sym size) in
    ground (arith, s.full, size, read, h)

checked_payload-short :
    (last : LogIndex) (e : LogEntry) (rest : Bytes)
    → IsStorable e
    → length rest < length e.command
    → checked_payload (header e) last rest ≡ none
unfolding checked_payload header
checked_payload-short last e rest s h =
    let size : length e.command % 2 ^ 32 ≡ length e.command = omega (arith, s.size_fits) in
    let read = read_exact_short (length e.command % 2 ^ 32) rest (omega (arith, size)) in
    ground (arith, read)

pub next_record-record_bytes :
    (last : LogIndex) (e : LogEntry) (rest : Bytes)
    → IsStorable e
    → last < e.index
    → next_record last (record_bytes e ++ rest) ≡ some (e, rest)
unfolding record_bytes
next_record-record_bytes last e rest s h =
    ap (next_record last) (append_assoc (header_bytes (header e)) e.command rest)
    ∙ next_record-header last e (e.command ++ rest) s
    ∙ checked_payload-whole last e rest s h

pub length-record_bytes : (e : LogEntry) → length (record_bytes e) ≡ 24 + length e.command
unfolding record_bytes
length-record_bytes e =
    length-append (header_bytes (header e)) e.command
    ∙ ap (λ n. n + length e.command) (length-header_bytes (header e))

next_record-short :
    (last : LogIndex) (file : Bytes) → length file < 24 → next_record last file ≡ none
unfolding next_record
next_record-short last file h = ground (arith, read_exact_short 24 file h)

-- A record that was not written to its end.
pub next_record-take :
    (last : LogIndex) (e : LogEntry) (n : ℕ)
    → IsStorable e
    → n < length (record_bytes e)
    → next_record last (take n (record_bytes e)) ≡ none
unfolding record_bytes
next_record-take last e n s h = elim (lt_or_le n 24) [
  | inl short ↦
      next_record-short last (take n (record_bytes e))
        (omega (arith, length-take n (record_bytes e)))
  | inr long ↦
      let hb = header_bytes (header e) in
      let k = n - 24 in
      let split : n ≡ length hb + k = omega (arith, length-header_bytes (header e)) in
      let some_payload : length (take k e.command) < length e.command = omega (
        arith,
        length-take k e.command,
        length-append hb e.command,
        length-header_bytes (header e),
      ) in
      ap (λ m. next_record last (take m (hb ++ e.command))) split
      ∙ ap (next_record last) (take-append_more k hb e.command)
      ∙ next_record-header last e (take k e.command) s
      ∙ checked_payload-short last e (take k e.command) s some_payload
]
