-- ===== src/Raft/Node/Steps/Hard.antt =====
-- The hard state (term and vote) under the building blocks of the handlers.
use maxredis.Base.{
  ℕ, zero, suc, ◌-◌, ◌≤◌, ◌≡◌, ◌≢◌, true, false, List, [], ◌∷◌, arith, Bool-cases, Option-cases,
  inl, inr,
}
use maxredis.Raft.Types.{Term, LogIndex, LogEntry, ApplyResult, ClusterConfig}
use maxredis.Raft.LogStorage.{LogStorage}
use maxredis.Raft.StateMachine.{StateMachine}
use maxredis.Raft.Storage
use maxredis.Raft.ConfigCommand
use maxredis.Raft.Node.{
  Node, current_term, voted_for, become_follower, become_candidate_new_term, become_candidate,
  become_leader,
}
use maxredis.Raft.Node.Frame.{
  storage-become_follower, storage-become_candidate_new_term, become_leader-Turns,
}
use maxredis.Raft.Node.Apply.{
  Applied, apply_config, apply_config_entry, apply_command, apply_entry, apply_entries, apply_next,
  flush_progress, apply_round, apply_loop, is_config_entry, apply_committed_logs, next_batch,
  goes_on, no_result,
}
use maxredis.Raft.Node.Steps.{HasNextTerm}

-- The file holds the hard state, if the node has a file.
abbrev pub IsDurable : {L S : Type 0} → Node L S → Type 0
IsDurable n = n.storage.persistent ≡ true → n.storage.disk ≡ n.storage.hard

-- The term does not fall, a vote is kept as long as the term is, and what is stored stays stored.
pub record KeepsHard {L S : Type 0} (n m : Node L S) : Type 0 where
  pub term_le : current_term n ≤ current_term m
  pub vote_kept : current_term n ≡ current_term m → voted_for n ≢ [] → voted_for m ≡ voted_for n
  pub durable : IsDurable n → IsDurable m

module _ {L S : Type 0} where
  pub same-KeepsHard : (n m : Node L S) → m.storage ≡ n.storage → KeepsHard n m
  same-KeepsHard n m e = ground arith

  pub KeepsHard-refl : (n : Node L S) → KeepsHard n n
  KeepsHard-refl n = ground arith

  pub KeepsHard-trans : (n m k : Node L S) → KeepsHard n m → KeepsHard m k → KeepsHard n k
  KeepsHard-trans n m k h g = record {
    term_le = omega (arith, h, g);
    vote_kept = λ e v.
        let first : voted_for m ≡ voted_for n =
          h.vote_kept (omega (arith, h.term_le, g.term_le)) v in
        let second : voted_for k ≡ voted_for m =
          g.vote_kept (omega (arith, h.term_le, g.term_le)) (λ x. v (cc)) in
        cc;
    durable = λ d. g.durable (h.durable d);
  }

  pub become_follower-KeepsHard : (t : Term) (n : Node L S) → KeepsHard n (become_follower t n)
  unfolding Storage.set_state
  become_follower-KeepsHard t n = ground (arith, storage-become_follower t n)

  pub new_term-KeepsHard :
      (n : Node L S) → HasNextTerm n → KeepsHard n (become_candidate_new_term n)
  unfolding Storage.set_state
  new_term-KeepsHard n h = ground (arith, storage-become_candidate_new_term n)

  pub become_candidate-KeepsHard : (n : Node L S) → HasNextTerm n → KeepsHard n (become_candidate n)
  unfolding become_candidate
  become_candidate-KeepsHard n h = ground (arith, new_term-KeepsHard n h, KeepsHard-refl n)

  pub become_leader-KeepsHard :
      (st : LogStorage L) (now : ℕ) (n : Node L S) → KeepsHard n (become_leader st now n)
  become_leader-KeepsHard st now n = same-KeepsHard _ _ (become_leader-Turns st now n).storage

  apply_config-KeepsHard :
      (c : ClusterConfig) (i : LogIndex) (n : Node L S) → KeepsHard n (apply_config c i n)
  unfolding apply_config Storage.set_joint_config_state
  apply_config-KeepsHard c i n = ground arith

  apply_config_entry-KeepsHard :
      (e : LogEntry) (n : Node L S) (r : ApplyResult) → KeepsHard n (apply_config_entry e n r).node
  unfolding apply_config_entry
  apply_config_entry-KeepsHard e n r = elim (Option-cases (ConfigCommand.deserialize e.command)) [
    | inl bad ↦ rw (bad, apply_config_entry) (KeepsHard-refl n)
    | inr (c, good) ↦
        rw (good, apply_config_entry) (ground (arith, apply_config-KeepsHard c e.index n))
  ]

module _ {L S : Type 0} (st : LogStorage L) (sm : StateMachine S) where
  storage-apply_command :
      (e : LogEntry) (n : Node L S) (r : ApplyResult)
      → (apply_command st sm e n r).node.storage ≡ n.storage
  unfolding apply_command
  storage-apply_command e n r = elim (Option-cases n.machine) [
    | inl null ↦ rw null
    | inr (s, here) ↦ rw here
  ]

  apply_entry-KeepsHard :
      (e : LogEntry) (n : Node L S) (r : ApplyResult) → KeepsHard n (apply_entry st sm e n r).node
  unfolding apply_entry
  apply_entry-KeepsHard e n r = elim (Bool-cases (is_config_entry e)) [
    | inl h ↦ rw h (apply_config_entry-KeepsHard e n r)
    | inr h ↦ rw h (same-KeepsHard _ _ (storage-apply_command e n r))
  ]

  apply_next-KeepsHard :
      (e : LogEntry) (a : Applied L S) → KeepsHard a.node (apply_next st sm e a).node
  unfolding apply_next
  apply_next-KeepsHard e a =
      ground (arith, KeepsHard-refl a.node, apply_entry-KeepsHard e a.node a.result)

  apply_entries-KeepsHard :
      (es : List LogEntry) (a : Applied L S) → KeepsHard a.node (apply_entries st sm es a).node
  unfolding apply_entries
  apply_entries-KeepsHard [] a = KeepsHard-refl a.node
  apply_entries-KeepsHard (e ∷ es) a =
      KeepsHard-trans _ _ _ (apply_next-KeepsHard e a)
        (apply_entries-KeepsHard es (apply_next st sm e a))

  storage-flush_progress :
      (now : ℕ) (n : Node L S) → (flush_progress st sm now n).storage ≡ n.storage
  unfolding flush_progress
  storage-flush_progress now n = ground arith

  apply_round-KeepsHard :
      (now : ℕ) (a : Applied L S) → KeepsHard a.node (apply_round st sm now a).node
  unfolding apply_round
  apply_round-KeepsHard now a =
      let b : Applied L S = apply_entries st sm (next_batch st sm a.node) a in
      let kept : KeepsHard a.node b.node = apply_entries-KeepsHard (next_batch st sm a.node) a in
      elim (Bool-cases b.threw) [
        | inl h ↦ rw h kept
        | inr h ↦
            rw h
              (KeepsHard-trans _ _ _ kept (same-KeepsHard _ _ (storage-flush_progress now b.node)))
      ]

  apply_loop-KeepsHard :
      (fuel now : ℕ) (a : Applied L S) → KeepsHard a.node (apply_loop st sm fuel now a).node
  unfolding apply_loop
  apply_loop-KeepsHard zero now a = KeepsHard-refl a.node
  apply_loop-KeepsHard (suc fuel) now a = elim (Bool-cases (goes_on st sm a)) [
    | inl h ↦
        rw (h, apply_loop)
          (KeepsHard-trans _ _ _ (apply_round-KeepsHard now a)
            (apply_loop-KeepsHard fuel now (apply_round st sm now a)))
    | inr h ↦ rw (h, apply_loop) (KeepsHard-refl a.node)
  ]

  pub apply-KeepsHard :
      (now : ℕ) (n : Node L S) → KeepsHard n (apply_committed_logs st sm now n).node
  unfolding apply_committed_logs
  apply-KeepsHard now n = ground (
    arith,
    KeepsHard-refl n,
    apply_loop-KeepsHard (n.commit_index - n.last_applied) now
        (record { node = n; result = no_result; threw = false }),
  )
