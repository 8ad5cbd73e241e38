-- ===== src/Raft/ElectionTimer.antt =====
-- server/raft/election_timer.{h,cc}: the flags that the timer's fiber polls. `running` says that
-- the fiber was created; joining it is not modelled.
use maxredis.Base.{ℕ, ◌+◌, Bool, true, false, ◌&&◌, not, ◌==◌, u64, if◌then◌else◌}

pub record ElectionTimer : Type 0 where
  pub running : Bool
  pub active : Bool
  pub shutdown : Bool
  pub epoch : ℕ

abbrev pub new : ElectionTimer
new = record { running = false; active = false; shutdown = false; epoch = 0 }

unfoldable pub start : ElectionTimer → ElectionTimer
start t =
    if t.running then t else record { running = true; active = true; shutdown = false; epoch = 1 }

unfoldable pub reset : ElectionTimer → ElectionTimer
reset t = record t { active = true; epoch = u64 (t.epoch + 1) }

unfoldable pub stop : ElectionTimer → ElectionTimer
stop t = record t { active = false; shutdown = true; epoch = u64 (t.epoch + 1) }

unfoldable pub deactivate : ElectionTimer → ElectionTimer
deactivate t = record t { active = false; epoch = u64 (t.epoch + 1) }

-- One turn of `Run` after its sleep: `saved` is the epoch read before the sleep. The callback fires
-- if and only if the second part is true.
unfoldable pub wake : ℕ → ElectionTimer → ElectionTimer × Bool
wake saved t =
    if not t.shutdown && (t.epoch == saved) then (record t { active = false }, true) else (t, false)
