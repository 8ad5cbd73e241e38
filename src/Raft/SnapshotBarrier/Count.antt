-- ===== src/Raft/SnapshotBarrier/Count.antt =====
-- What `readers_` counts.
use maxredis.Base.{
  ℕ, zero, suc, ◌+◌, ◌^◌, ◌<◌, ◌≤◌, ◌≡◌, sym, ap, Bool, List, [], ◌∷◌, ◌++◌, arith, length,
  length-append, replicate,
}
use maxredis.Raft.SnapshotBarrier.{
  ReaderPc, outside, ready, counted, inside, backing, waiting, late, reader_step, System, read,
  write, Reach, here, then_step,
}

-- A thread stands behind an addition of its own that it has not taken back.
abbrev pub weight : ReaderPc → ℕ
weight counted = 1
weight inside = 1
weight backing = 1
weight _ = 0

abbrev pub total : List ReaderPc → ℕ
total [] = 0
total (p ∷ ps) = weight p + total ps

total-append : (xs ys : List ReaderPc) → total (xs ++ ys) ≡ total xs + total ys
total-append [] ys = omega arith
total-append (x ∷ xs) ys = omega (arith, total-append xs ys)

weight_le : (p : ReaderPc) → weight p ≤ 1
weight_le outside = omega arith
weight_le ready = omega arith
weight_le counted = omega arith
weight_le inside = omega arith
weight_le backing = omega arith
weight_le waiting = omega arith
weight_le late = omega arith

total_le : (ps : List ReaderPc) → total ps ≤ length ps
total_le [] = omega arith
total_le (p ∷ ps) = omega (arith, weight_le p, total_le ps)

-- One step of a thread keeps the count in step with its weight.
reader_count :
    (loaded : Bool) (readers : ℕ) (p : ReaderPc) (others : ℕ)
    → readers ≡ others + weight p
    → others + 1 < 2 ^ 32
    → (reader_step loaded readers p).1 ≡ others + weight (reader_step loaded readers p).0
unfolding reader_step
reader_count loaded readers outside others h k = ground arith
reader_count loaded readers ready others h k = ground arith
reader_count loaded readers counted others h k = ground arith
reader_count loaded readers inside others h k = ground arith
reader_count loaded readers backing others h k = ground arith
reader_count loaded readers waiting others h k = ground arith
reader_count loaded readers late others h k = ground arith

total_start : (n : ℕ) → total (replicate n outside) ≡ 0
total_start zero = omega arith
total_start (suc n) = omega (arith, total_start n)

length_start : (n : ℕ) → length (replicate n outside) ≡ n
length_start zero = omega arith
length_start (suc n) = ap suc (length_start n)

threads_kept : (n : ℕ) {s : System} → Reach n s → length s.pcs ≡ n
threads_kept n here = length_start n
threads_kept n (then_step {s} r (read loaded xs ys p at)) = omega (
  arith,
  threads_kept n r,
  ap length at,
  length-append xs (p ∷ ys),
  length-append xs ((reader_step loaded s.readers p).0 ∷ ys),
)
threads_kept n (then_step r (write loaded)) = threads_kept n r

-- Fewer than 2^32 threads, in any interleaving and whatever values the loads give: `readers_` is the
-- number of the threads that stand behind an addition that they have not taken back, those between
-- `BeginRead` and `EndRead` among them, and at most the number of threads.
pub readers_counted :
    (n : ℕ) {s : System} → n < 2 ^ 32 → Reach n s → (s.readers ≡ total s.pcs) × (s.readers ≤ n)
readers_counted n few here = (sym (total_start n), omega arith)
readers_counted n few (then_step {s} r (read loaded xs ys p at)) =
    let p' = (reader_step loaded s.readers p).0 in
    let others = total xs + total ys in
    let sum : s.readers ≡ others + weight p =
      omega (arith, (readers_counted n few r).0, ap total at, total-append xs (p ∷ ys)) in
    let room : others + 1 ≤ n = omega (
      arith,
      threads_kept n r,
      ap length at,
      length-append xs (p ∷ ys),
      total_le xs,
      total_le ys,
    ) in
    let counts = reader_count loaded s.readers p others sum (omega arith) in
    (omega (arith, counts, total-append xs (p' ∷ ys)), omega (arith, counts, room, weight_le p'))
readers_counted n few (then_step r (write loaded)) = readers_counted n few r
