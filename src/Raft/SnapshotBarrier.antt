-- ===== src/Raft/SnapshotBarrier.antt =====
-- server/raft/snapshot_barrier.h: the writers of the store, which the class calls readers, and one thread
-- that saves snapshots, interleaved at their atomic operations. A load is followed by its branch. The
-- operations are relaxed, acquire or release, so a load may give an older value than the newest one: the
-- model lets it give any value. An addition or a subtraction acts on the newest value.
pub mod Count
use maxredis.Base.{
  ℕ, suc, ◌+◌, ◌-◌, ◌%◌, ◌^◌, ◌≡◌, Bool, true, false, List, ◌∷◌, ◌++◌, ◌==◌, if◌then◌else◌,
  replicate,
}

-- Where a thread stands in `BeginRead` and `EndRead`: outside; past the first wait; counted, before the
-- second check; between them; counted, before it takes itself off; in the second wait; past it.
pub data ReaderPc : Type 0 where
  outside ready counted inside backing waiting late : ReaderPc

-- Where the other thread stands in `BeginWrite` and `EndWrite`, with the number of writes that it ended.
pub data WriterPc : Type 0 where
  resting announced saving : ℕ → WriterPc

-- `fetch_add(1)` and `fetch_sub(1)` on a `uint32_t`
abbrev add_one : ℕ → ℕ
add_one readers = (readers + 1) % 2 ^ 32

abbrev sub_one : ℕ → ℕ
sub_one readers = (readers + (2 ^ 32 - 1)) % 2 ^ 32

-- One atomic operation of `BeginRead`, or the one of `EndRead`, given what a load of `writing_` gives and
-- the newest `readers_`.
unfoldable pub reader_step : Bool → ℕ → ReaderPc → ReaderPc × ℕ
reader_step writing readers outside = (if writing then outside else ready, readers)
reader_step writing readers ready = (counted, add_one readers)
reader_step writing readers counted = (if writing then backing else inside, readers)
reader_step writing readers inside = (outside, sub_one readers)
reader_step writing readers backing = (waiting, sub_one readers)
reader_step writing readers waiting = (if writing then waiting else late, readers)
reader_step writing readers late = (inside, add_one readers)

-- One atomic operation of `BeginWrite`, or the one of `EndWrite`, given the newest `writing_` and what a
-- load of `readers_` gives; the answer is the new `writing_`.
unfoldable pub writer_step : Bool → ℕ → WriterPc → WriterPc × Bool
writer_step writing readers (resting n) = (announced n, true)
writer_step writing readers (announced n) =
    (if readers == 0 then saving n else announced n, writing)
writer_step writing readers (saving n) = (resting (suc n), false)

pub record System : Type 0 where
  pub readers : ℕ  -- `readers_`
  pub writing : Bool  -- `writing_`
  pub pcs : List ReaderPc
  pub writer : WriterPc

-- `n` threads at their start.
abbrev pub start : ℕ → System
start n = record { readers = 0; writing = false; pcs = replicate n outside; writer = resting 0 }

pub data Step (s : System) : System → Type 0 where
  read :
      (loaded : Bool) (xs ys : List ReaderPc) (p : ReaderPc)
      → s.pcs ≡ xs ++ p ∷ ys
      → Step s (record s {
        readers = (reader_step loaded s.readers p).1;
        pcs = xs ++ (reader_step loaded s.readers p).0 ∷ ys;
      })
  write :
      (loaded : ℕ)
      → Step s (record s {
        writing = (writer_step s.writing loaded s.writer).1;
        writer = (writer_step s.writing loaded s.writer).0;
      })

pub data Reach (n : ℕ) : System → Type 0 where
  here : Reach n (start n)
  then_step : {s t : System} → Reach n s → Step s t → Reach n t
