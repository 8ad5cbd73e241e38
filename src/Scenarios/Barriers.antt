-- ===== src/Scenarios/Barriers.antt =====
-- Runs of the snapshot barrier.
use maxredis.Base.{◌≡◌, ◌≤◌, refl, true, false, [], ◌∷◌, arith}
use maxredis.Raft.SnapshotBarrier.{
  outside, ready, counted, inside, backing, waiting, late, saving, reader_step, writer_step, System,
  read, write, Reach, here, then_step,
}
use maxredis.Raft.SnapshotBarrier.Count.{total, readers_counted}

-- A thread and the saving one miss each other: each sees the value from before the operation of the other.
abbrev shared : System
shared = record { readers = 1; writing = true; pcs = inside ∷ []; writer = saving 0 }

first_save_shared : Reach 1 shared
unfolding reader_step writer_step
first_save_shared =
    let added =
      then_step (then_step here (read false [] [] outside refl)) (read false [] [] ready refl) in
    let announces = then_step added (write 0) in
    let saves = then_step announces (write 0) in then_step saves (read false [] [] counted refl)

readers_counted_example : (1 ≡ total shared.pcs) × (1 ≤ 1)
readers_counted_example = readers_counted 1 (omega arith) first_save_shared

-- With the newest values in all loads: the thread is counted, steps back, waits for the end of the first
-- save, and then goes in without a second look, while the second save goes on.
second_save_shared :
    Reach 1 (record { readers = 1; writing = true; pcs = inside ∷ []; writer = saving 1 })
unfolding reader_step writer_step
second_save_shared =
    let past_first = then_step (then_step here (read false [] [] outside refl)) (write 0) in
    let noticed = then_step past_first (read true [] [] ready refl) in
    let backs =
      then_step (then_step noticed (read true [] [] counted refl)) (read true [] [] backing refl) in
    let first_ended = then_step (then_step backs (write 0)) (write 0) in
    let past_wait = then_step first_ended (read false [] [] waiting refl) in
    let second = then_step (then_step past_wait (write 0)) (write 0) in
    then_step second (read true [] [] late refl)
