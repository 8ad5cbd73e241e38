-- ===== src/Raft/LogStorage.antt =====
-- server/raft/log_storage.h: the interface `ILogStorage`, as a record of operations, and the laws
-- that its clients rely on. `L` is the type of a log's states.
use maxredis.Base.{
  ℕ, suc, ◌+◌, ◌^◌, ◌≤◌, ◌<◌, ◌≡◌, ◌⊎◌, Option, none, some, List, ◌&&◌, ltb, leb, ◌==◌, ◌||◌,
  get_elem?, if◌then◌else◌,
}
use maxredis.Raft.Types.{Term, LogIndex, LogEntry, SnapshotAnchor}

pub record LogStorage (L : Type 0) : Type 0 where
  pub log_size : L → ℕ
  pub first_index : L → LogIndex
  pub last_index : L → LogIndex
  pub last_term : L → Term
  pub get : L → LogIndex → Option LogEntry
  pub get_term : L → LogIndex → Term
  pub set_snapshot_anchor : L → LogIndex → Term → L
  pub append : L → LogEntry → L
  pub get_range : L → LogIndex → ℕ → List LogEntry
  pub truncate_from : L → LogIndex → L
  pub compact_up_to : L → LogIndex → L
  pub clear : L → L
  pub prune_compacted : L → L
  pub flush : L → L

-- `e ? e->term : 0`
abbrev pub term_of : Option LogEntry → Term
term_of none = 0
term_of (some e) = e.term

-- What a client may assume of a valid log. `floor` is the index below the first entry: a truncation
-- to a compacted index is outside the contract, except in a log that was never compacted.
pub record LogLaws {L : Type 0} (st : LogStorage L) : Type 1 where
  pub IsValid : L → Type 0
  pub floor : L → LogIndex
  pub anchor : L → SnapshotAnchor
  pub get_above : (l : L) (i : LogIndex) → st.last_index l < i → st.get l i ≡ none
  pub get_within :
      (l : L) (i : LogIndex)
      → IsValid l
      → floor l < i
      → i ≤ st.last_index l
      → (e : LogEntry) × (st.get l i ≡ some e) × (e.index ≡ i)
  pub get_term_lem :
      (l : L) (i : LogIndex)
      → st.get_term l i ≡ (
          if (i == (anchor l).index) && ltb 0 (anchor l).index
          then (anchor l).term
          else term_of (st.get l i))
  pub last-append :
      (l : L) (e : LogEntry) → IsValid l → st.last_index (st.append l e) ≡ suc (st.last_index l)
  pub get-append :
      (l : L) (e : LogEntry) (i : LogIndex)
      → IsValid l
      → st.get (st.append l e) i ≡ (
          if i == suc (st.last_index l)
          then some (record e { index = suc (st.last_index l) })
          else st.get l i)
  pub append-IsValid : (l : L) (e : LogEntry) → IsValid l → IsValid (st.append l e)
  pub floor-append : (l : L) (e : LogEntry) → floor (st.append l e) ≡ floor l
  pub anchor-append : (l : L) (e : LogEntry) → anchor (st.append l e) ≡ anchor l
  pub last-truncate :
      (l : L) (k : LogIndex)
      → IsValid l
      → k ≤ st.last_index l
      → (floor l < k) ⊎ (floor l ≡ 0)
      → st.last_index (st.truncate_from l k) ≡ k
  pub get-truncate :
      (l : L) (k i : LogIndex)
      → IsValid l
      → k ≤ st.last_index l
      → (floor l < k) ⊎ (floor l ≡ 0)
      → st.get (st.truncate_from l k) i ≡ (if leb i k then st.get l i else none)
  pub truncate-IsValid :
      (l : L) (k : LogIndex)
      → IsValid l
      → k ≤ st.last_index l
      → (floor l < k) ⊎ (floor l ≡ 0)
      → IsValid (st.truncate_from l k)
  pub floor-truncate : (l : L) (k : LogIndex) → floor (st.truncate_from l k) ≡ floor l
  pub anchor-truncate : (l : L) (k : LogIndex) → anchor (st.truncate_from l k) ≡ anchor l
  pub get_range_lem :
      (l : L) (start : LogIndex) (limit j : ℕ)
      → IsValid l
      → floor l < start
      → start ≤ st.last_index l
      → limit < 2 ^ 63
      → get_elem? (st.get_range l start limit) j
        ≡ (if (limit == 0) || ltb j limit then st.get l (start + j) else none)
  pub flush_lem : (l : L) → st.flush l ≡ l
