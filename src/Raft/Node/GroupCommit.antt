-- ===== src/Raft/Node/GroupCommit.antt =====
-- The group commit of server/raft/raft_node.cc: SubmitEntry behind its append, and
-- CoordinatorCommit, for a log whose `Persist` does nothing. A round of ReplicateLog runs between critical sections, so what a coordinator
-- finds behind it is a node that is given: `nodes` are the states under the lock after each round.
pub mod Answers
use maxredis.Base.{
  Option, none, some, ℕ, suc, ◌≤◌, ◌<◌, ◌≡◌, refl, max, Bool, true, false, List, [], ◌∷◌, ◌++◌, map,
  take, arith, leb, if◌then◌else◌, Bool-cases, inl, inr, ◌⊎◌,
}
use maxredis.Raft.Types.{LogIndex, ApplyOp, ok, error, ApplyResult}
use maxredis.Raft.LogStorage.{LogStorage}
use maxredis.Raft.StateMachine.{StateMachine}
use maxredis.Raft.Node.{Node}
use maxredis.Raft.Node.Apply.{Applied, apply_committed_logs}

-- `RaftWaiter`, without its lock
pub record RaftWaiter : Type 0 where
  pub idx : LogIndex
  pub done : Bool
  pub res : ApplyResult

-- `group_active_` and `group_waiters_`
pub record Group : Type 0 where
  pub active : Bool
  pub waiters : List RaftWaiter

-- A writer joins the group; the first of a group becomes its coordinator.
unfoldable pub join_group : RaftWaiter → Group → Group × Bool
join_group w g =
    let joined = g.waiters ++ w ∷ [] in
    if g.active
    then (record g { waiters = joined }, false)
    else (record { active = true; waiters = joined }, true)

-- The coordinator takes the waiters; the next writer starts a group of its own.
unfoldable pub take_batch : Group → Group × List RaftWaiter
take_batch g = (record { active = false; waiters = [] }, g.waiters)

unfoldable pub max_index : List RaftWaiter → LogIndex
max_index [] = 0
max_index (w ∷ ws) = max w.idx (max_index ws)

abbrev pub commit_rounds : ℕ
commit_rounds = 16

-- The result of one waiter.
unfoldable pub fulfil : LogIndex → RaftWaiter → RaftWaiter
fulfil applied w =
    let res : ApplyResult =
      if leb w.idx applied
      then record { op = ok; affected_rows = 1 }
      else record { op = error; affected_rows = 0 } in
    record w { done = true; res = res }

unfoldable pub fulfil_all : LogIndex → List RaftWaiter → List RaftWaiter
fulfil_all applied [] = []
fulfil_all applied (w ∷ ws) = fulfil applied w ∷ fulfil_all applied ws

-- What a writer does after its turn: a result, its own check of what was applied, or another turn.
unfoldable pub own_check : LogIndex → LogIndex → RaftWaiter → RaftWaiter
own_check idx last_applied w =
    if w.done
    then w
    else if leb idx last_applied
    then record w { res = record { op = ok; affected_rows = 1 } }
    else w

module _ {L S : Type 0} (st : LogStorage L) (sm : StateMachine S) where
  -- The rounds: what was applied behind the last one. `none` is an exception in ReplicateLog; an
  -- exception counts as nothing applied.
  unfoldable pub run_rounds : ℕ → LogIndex → LogIndex → List (Option (Node L S)) → LogIndex
  run_rounds now wanted applied [] = applied
  run_rounds now wanted applied (none ∷ ns) = 0
  run_rounds now wanted applied (some n ∷ ns) =
      let a = apply_committed_logs st sm now n in
      let rest = run_rounds now wanted a.node.last_applied ns in
      if a.threw then 0 else if leb wanted a.node.last_applied then a.node.last_applied else rest

  -- `CoordinatorCommit` on the batch that it took
  unfoldable pub coordinator_commit :
      ℕ → List (Option (Node L S)) → List RaftWaiter → List RaftWaiter
  coordinator_commit now nodes batch =
      fulfil_all (run_rounds now (max_index batch) 0 (take commit_rounds nodes)) batch
