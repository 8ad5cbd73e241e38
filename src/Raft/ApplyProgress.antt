-- ===== src/Raft/ApplyProgress.antt =====
-- server/raft/apply_progress.{h,cc}: the persistent mark of what was applied. `disk` is what the
-- last `Flush` wrote to apply.meta; writing and reading the file are not modelled.
use maxredis.Base.{Bool, if◌then◌else◌}
use maxredis.Raft.Types.{LogIndex}

pub record ApplyProgress : Type 0 where
  pub persistent : Bool  -- `!path_.empty()`
  pub last_applied : LogIndex
  pub disk : LogIndex

unfoldable pub flush : ApplyProgress → ApplyProgress
flush p = if p.persistent then record p { disk = p.last_applied } else p

unfoldable pub update : LogIndex → ApplyProgress → ApplyProgress
unfolding flush
update i p = flush (record p { last_applied = i })

unfoldable pub update_memory_only : LogIndex → ApplyProgress → ApplyProgress
update_memory_only i p = record p { last_applied = i }

-- `Reset` may move the mark backwards.
unfoldable pub reset : LogIndex → ApplyProgress → ApplyProgress
unfolding flush
reset i p = flush (record p { last_applied = i })
