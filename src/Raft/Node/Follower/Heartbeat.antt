-- ===== src/Raft/Node/Follower/Heartbeat.antt =====
-- What a heartbeat has a follower apply.
use maxredis.Base.{
  ℕ, suc, ◌-◌, ◌<◌, ◌≤◌, ◌≡◌, ◌≢◌, ◌⊎◌, ap, sym, ◌∙◌, true, false, some, inl, inr, arith, max, min,
}
use maxredis.Raft.Types.{leader, HeartbeatRequest, HeartbeatResponse}
use maxredis.Raft.LogStorage.{LogStorage, LogLaws}
use maxredis.Raft.StateMachine.{StateMachine}
use maxredis.Raft.Node.{Node, current_term, become_follower, last_index_or}
use maxredis.Raft.Node.Frame.{become_follower-SameData, not_leader}
use maxredis.Raft.Node.Apply.{Applied, apply_committed_logs}
use maxredis.Raft.Node.Apply.Frame.{apply-KeepsLog}
use maxredis.Raft.Node.Apply.Ranges.{entries_from}
use maxredis.Raft.Node.Apply.Order.{run_commands}
use maxredis.Raft.Node.Apply.Loop.{apply_committed_logs_lem}
use maxredis.Raft.Node.Follower.{on_heartbeat, take_commit, answer, reset_timer, heartbeat_reply}

module _ {L S : Type 0} (st : LogStorage L) (sm : StateMachine S) (laws : LogLaws st) where
  -- The follower with the commit index of the leader, before it applies.
  abbrev follows : HeartbeatRequest → Node L S → Node L S
  follows req n = record (reset_timer (become_follower req.term n)) {
    commit_index = req.leader_commit;
  }

  taken :
      (now : ℕ) (req : HeartbeatRequest) (n : Node L S) (l : L)
      → n.log ≡ some l
      → n.commit_index < req.leader_commit
      → req.leader_commit ≤ st.last_index l
      → take_commit st sm now req.leader_commit (reset_timer (become_follower req.term n))
        ≡ apply_committed_logs st sm now (follows req n)
  unfolding take_commit reset_timer
  taken now req n l at more within = let same = become_follower-SameData req.term n in ground arith

  heard :
      (now : ℕ) (n : Node L S) (req : HeartbeatRequest)
      → (current_term n < req.term) ⊎ ((current_term n ≡ req.term) × (n.role ≢ leader))
      → on_heartbeat st sm now n req
        ≡ answer st sm
            (take_commit st sm now req.leader_commit (reset_timer (become_follower req.term n)))
            (λ m. heartbeat_reply st sm m true)
  unfolding on_heartbeat
  heard now n req h = elim h [
    | inl newer ↦ ground arith
    | inr (own, other) ↦ let follower = not_leader n.role other in ground arith
  ]

  answered :
      (a : Applied L S) (rsp : HeartbeatResponse) (reply : Node L S → HeartbeatResponse)
      → (answer st sm a reply).1 ≡ some rsp
      → (a.threw ≡ false) × ((answer st sm a reply).0 ≡ a.node) × (rsp ≡ reply a.node)
  unfolding answer
  answered a rsp reply h = (ground arith, ground arith, ground arith)

  follows_data :
      (req : HeartbeatRequest) (n : Node L S)
      → ((follows req n).log ≡ n.log)
        × ((follows req n).machine ≡ n.machine)
        × ((follows req n).last_applied ≡ n.last_applied)
  unfolding reset_timer
  follows_data req n =
      let same = become_follower-SameData req.term n in (same.log, same.machine, same.last_applied)

  -- A heartbeat of a newer term, or one of the own term to a node that does not lead, whose commit index is
  -- above the own one and within the own valid log, and that is answered without an exception: the node has
  -- applied the entries of its own log behind the last applied one up to that index, in their order and
  -- once each, whatever they are; the log stays, the commit index is the leader's, and the answer is a
  -- success with the end of the log. The last applied index is at or above the compacted part.
  pub heartbeat_applies :
      (now : ℕ) (n : Node L S) (req : HeartbeatRequest) (rsp : HeartbeatResponse) (l : L) (s : S)
      → laws.IsValid l
      → n.log ≡ some l
      → n.machine ≡ some s
      → laws.floor l ≤ n.last_applied
      → (current_term n < req.term) ⊎ ((current_term n ≡ req.term) × (n.role ≢ leader))
      → n.commit_index < req.leader_commit
      → req.leader_commit ≤ st.last_index l
      → (on_heartbeat st sm now n req).1 ≡ some rsp
      → let m = (on_heartbeat st sm now n req).0 in
        (m.last_applied ≡ max n.last_applied req.leader_commit)
        × (m.machine
            ≡ some (
                run_commands sm
                  (entries_from st l (suc n.last_applied) (req.leader_commit - n.last_applied))
                  s))
        × (m.log ≡ n.log)
        × (m.commit_index ≡ req.leader_commit)
        × (rsp.success ≡ true)
        × (rsp.last_log_index ≡ st.last_index l)
  unfolding heartbeat_reply
  heartbeat_applies now n req rsp l s v own at low h more within replied =
      let k = follows req n in
      let a = apply_committed_logs st sm now k in
      let reply = λ (m : Node L S). heartbeat_reply st sm m true in
      let path =
        heard now n req h ∙ ap (λ z. answer st sm z reply) (taken now req n l own more within) in
      let (fine, node_path, reply_path) =
        answered a rsp reply (sym (ap (λ z. z.1) path) ∙ replied) in
      let node : (on_heartbeat st sm now n req).0 ≡ a.node = ap (λ z. z.0) path ∙ node_path in
      let (same_log, same_machine, same_applied) = follows_data req n in
      let (applied, machine) =
        apply_committed_logs_lem st sm laws l v now k s (same_log ∙ own) (same_machine ∙ at)
          (omega (arith, same_applied)) fine in
      let kept = apply-KeepsLog st sm laws now k in
      let count : min req.leader_commit (st.last_index l) - k.last_applied
          ≡ req.leader_commit - n.last_applied =
        omega (arith, same_applied) in
      let entries =
        ap
          (λ i.
            entries_from st l (suc i) (min req.leader_commit (st.last_index l) - k.last_applied))
          same_applied
        ∙ ap (entries_from st l (suc n.last_applied)) count in
      (
        ap (λ z. z.last_applied) node ∙ omega (arith, applied, same_applied),
        ap (λ z. z.machine) node ∙ machine ∙ ap (λ z. some (run_commands sm z s)) entries,
        ap (λ z. z.log) node ∙ kept.log ∙ same_log,
        ap (λ z. z.commit_index) node ∙ kept.commit_index,
        ap (λ z. z.success) reply_path,
        ap (λ z. z.last_log_index) reply_path ∙ ap (last_index_or st) (kept.log ∙ same_log ∙ own),
      )
