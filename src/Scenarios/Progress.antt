-- ===== src/Scenarios/Progress.antt =====
-- The commit index and the apply loop of the concrete node.
use maxredis.Base.{
  false, Option, List, true, get_elem?, ◌⊎◌, le_cases, ap, ℕ, ◌≡◌, ◌≤◌, refl, false, some, [], ◌∷◌,
  arith, inl, inr, ◌<◌, bytes_eq,
}
use maxredis.Raft.Types.{default_entry, ok, error, LogIndex, follower, leader, joint}
use maxredis.Raft.NodeSet
use maxredis.Raft.CommandLog
use maxredis.Raft.CommandLog.{CommandLog}
use maxredis.Raft.CommandLog.Laws
use maxredis.Scenarios.{n2, counter, two_entries, two_entries-IsValid, others, node}
use maxredis.Raft.Node.{Node}
use maxredis.Raft.Node.Apply.{
  apply_committed_logs, apply_loop, apply_round, apply_entries, apply_next, apply_entry,
  apply_command, is_config_entry, flush_progress, has_more, next_batch, goes_on,
}
use maxredis.Raft.Node.Apply.Ranges.{entries_from}
use maxredis.Raft.Node.Apply.Order.{run_commands}
use maxredis.Raft.Node.Apply.Loop.{apply_committed_logs_lem}
use maxredis.Raft.Node.Replicate.{PeerReq, Outcome, note_outcome}
use maxredis.Raft.Node.Replicate.Progress.{retry_is_earlier}
use maxredis.Raft.Node.GroupCommit.{RaftWaiter, coordinator_commit}
use maxredis.Raft.Node.GroupCommit.Answers.{AppliedIn, answers_are_applied}
use maxredis.Raft.Node.Commit.{
  advance_commit_index, advance_commit_index_stable, advance_commit_index_joint, config_commit,
  commit_to, quorum_index, sort_desc, insert_desc, voter_indexes,
}
use maxredis.Raft.Node.Commit.Sorted.{reached}
use maxredis.Raft.Node.Commit.Quorum.{
  majority, NotOlder, config_reached, stable_commit_has_quorum, joint_commit_has_quorums,
  quorum_is_committed,
}
use maxredis.Raft.ConfigCommand

abbrev applying : Node CommandLog ℕ
applying = node follower two_entries 2

not_thrown : (apply_committed_logs CommandLog.storage counter 0 applying).threw ≡ false
unfolding apply_committed_logs apply_loop apply_round apply_entries apply_next apply_entry
    apply_command is_config_entry flush_progress has_more next_batch goes_on CommandLog.storage
    CommandLog.last_index CommandLog.get_range CommandLog.range_end CommandLog.first_index
    ConfigCommand.starts_with
not_thrown = refl

apply_committed_logs_lem_example :
    ((apply_committed_logs CommandLog.storage counter 0 applying).node.last_applied ≡ 2)
    × ((apply_committed_logs CommandLog.storage counter 0 applying).node.machine
        ≡ some (run_commands counter (entries_from CommandLog.storage two_entries 1 2) 0))
unfolding CommandLog.storage CommandLog.last_index
apply_committed_logs_lem_example =
    apply_committed_logs_lem CommandLog.storage counter CommandLog.Laws.laws two_entries
      two_entries-IsValid 0 applying 0 refl refl (omega arith) not_thrown

abbrev leading : Node CommandLog ℕ
leading = node leader two_entries 0

moves : 0 < (advance_commit_index CommandLog.storage leading).commit_index
unfolding advance_commit_index advance_commit_index_stable quorum_index sort_desc insert_desc
    commit_to CommandLog.storage CommandLog.last_index CommandLog.get_term CommandLog.get
moves = omega arith

stable_commit_has_quorum_example :
    (majority others
      ≤ reached
          (advance_commit_index CommandLog.storage leading).commit_index
          (CommandLog.storage.last_index two_entries ∷ 2 ∷ 0 ∷ []))
    × NotOlder CommandLog.storage two_entries leading
        (advance_commit_index CommandLog.storage leading).commit_index
stable_commit_has_quorum_example =
    stable_commit_has_quorum CommandLog.storage leading two_entries refl refl moves

abbrev leading_joint : Node CommandLog ℕ
leading_joint = record leading {
  config_state = joint;
  joint_config = record { old_config = others; new_config = others };
}

moves_joint : 0 < (advance_commit_index CommandLog.storage leading_joint).commit_index
unfolding advance_commit_index advance_commit_index_joint config_commit voter_indexes quorum_index
    sort_desc insert_desc commit_to CommandLog.storage CommandLog.last_index CommandLog.get_term
    CommandLog.get NodeSet.contains bytes_eq
moves_joint = omega arith

joint_commit_has_quorums_example :
    let c = (advance_commit_index CommandLog.storage leading_joint).commit_index in
    (majority others ≤ config_reached CommandLog.storage two_entries leading_joint others c)
    × (majority others ≤ config_reached CommandLog.storage two_entries leading_joint others c)
    × NotOlder CommandLog.storage two_entries leading_joint c
joint_commit_has_quorums_example =
    joint_commit_has_quorums CommandLog.storage leading_joint two_entries refl refl moves_joint

two_reached : 2 ≤ reached 2 (CommandLog.storage.last_index two_entries ∷ 2 ∷ 0 ∷ [])
unfolding CommandLog.storage CommandLog.last_index
two_reached = omega arith

no_third : (i : LogIndex) → 2 < i → CommandLog.get_term two_entries i ≡ 0
unfolding CommandLog.get_term CommandLog.last_index
no_third i h = ground (arith, CommandLog.Laws.get_above two_entries i h)

second_term : CommandLog.get_term two_entries 2 ≡ 2
unfolding CommandLog.get_term CommandLog.get CommandLog.last_index
second_term = refl

none_older : (i : LogIndex) → 2 ≤ i → NotOlder CommandLog.storage two_entries leading i
unfolding CommandLog.storage
none_older i h = elim (le_cases 2 i h) [
  | inl above ↦ inl (no_third i above)
  | inr e ↦ inr (omega (arith, ap (CommandLog.get_term two_entries) e, second_term))
]

quorum_is_committed_example : 2 ≤ (advance_commit_index CommandLog.storage leading).commit_index
quorum_is_committed_example =
    quorum_is_committed CommandLog.storage leading two_entries refl 2 refl two_reached none_older

-- A coordinator with one waiter, behind one round.
abbrev waiter : RaftWaiter
waiter = record { idx = 2; done = false; res = record { op = ok; affected_rows = 0 } }

abbrev rounds : List (Option (Node CommandLog ℕ))
rounds = some applying ∷ []

answers_are_applied_example :
    (r : RaftWaiter) × (get_elem?
        (coordinator_commit CommandLog.storage counter 0 rounds (waiter ∷ []))
        0
      ≡ some r)
    × (r.done ≡ true)
    × (r.idx ≡ 2)
    × ((r.res.op ≡ error) ⊎ ((r.res.op ≡ ok) × AppliedIn CommandLog.storage counter 0 2 rounds))
answers_are_applied_example =
    answers_are_applied CommandLog.storage counter 0 rounds (waiter ∷ []) 0 waiter refl
      (omega arith)

-- The first peer of the leader, and its two answers.
abbrev to_n2 : PeerReq
to_n2 = record {
  id = n2;
  idx = 0;
  next = 3;
  prev = default_entry;
  need_snapshot = false;
  snapshot_index = 0;
  snapshot_term = 0;
  entries = [];
}

abbrev refusal : Outcome
refusal = record { attempted = true; ok = false; match_index = 5; term = 2 }

retry_is_earlier_example :
    (b : LogIndex) × (get_elem? (note_outcome to_n2 refusal leading).peer_next_index 0 ≡ some b)
    × (1 ≤ b)
    × (b < 3)
retry_is_earlier_example = retry_is_earlier leading to_n2 refusal 3 refl (omega arith) refl refl
