-- ===== src/Raft/Node/Follower/Append.antt =====
-- `OnAppendEntries`: which requests are stored, which are refused, and what the log holds then.
use maxredis.Base.{
  List, [], ◌∷◌, Option, none, subst, refl, Bool-cases, ◌+◌, ◌⊎◌, inl, inr, ◌≢◌, ◌-◌, lt_or_le, ◌<◌,
  ℕ, suc, ◌+◌, ◌≤◌, ◌<◌, ◌≡◌, refl, ◌∙◌, sym, ap, true, false, some, arith, length, take_all, min,
  Bool,
}
use maxredis.Raft.Types.{LogEntry, LogIndex, AppendEntriesRequest, AppendEntriesResponse}
use maxredis.Raft.LogStorage.{LogStorage, LogLaws}
use maxredis.Raft.StateMachine.{StateMachine}
use maxredis.Raft.Node.{Node, current_term}
use maxredis.Raft.Node.Frame.{become_follower-SameData}
use maxredis.Raft.Node.Apply.Frame.{apply-KeepsLog}
use maxredis.Raft.Node.Follower.{
  cut_tail, append_loop, on_append_entries, accept_leader, check_and_store, store_entries,
  finish_append, follow_commit, max_append_batch, reset_timer, append_reply, answer,
}
use maxredis.Raft.Node.Follower.Matching.{Consecutive, CanCut, Stored, append_loop-runs}
use maxredis.Raft.Node.Follower.Tail.{cut_tail-Stored}

-- No reply, after an exception in the apply loop, or a success that names the index `last`.
abbrev pub Accepted : Option AppendEntriesResponse → LogIndex → Type 0
Accepted reply last =
    (reply ≡ none)
    ⊎ ((r : AppendEntriesResponse) × (reply ≡ some r)
        × (r.success ≡ true)
        × (r.last_log_index ≡ last))

some_or_none : (es : List LogEntry) → (es ≡ []) ⊎ (0 < length es)
some_or_none [] = inl refl
some_or_none (e ∷ es) = inr (omega arith)

module _ {L S : Type 0} (st : LogStorage L) (sm : StateMachine S) where
  log-accept_leader :
      (req : AppendEntriesRequest) (n : Node L S) → (accept_leader st sm req n).log ≡ n.log
  unfolding accept_leader reset_timer
  log-accept_leader req n = ground (arith, become_follower-SameData req.term n)

  -- The log is there and the request passes the checks: what the handler does is the storing.
  stores :
      (now : ℕ) (req : AppendEntriesRequest) (n : Node L S) (l : L)
      → req.prev_log_index ≤ st.last_index l
      → (0 < req.prev_log_index → st.get_term l req.prev_log_index ≡ req.prev_log_term)
      → length req.entries ≤ max_append_batch
      → check_and_store st sm now req l n
        ≡ store_entries st sm now req (append_loop st l req.entries) n
  unfolding check_and_store
  stores now req n l fits same short = ground (arith, take_all max_append_batch req.entries)

  pub refuses_gap :
      (now : ℕ) (req : AppendEntriesRequest) (n : Node L S) (l : L)
      → st.last_index l < req.prev_log_index
      → check_and_store st sm now req l n ≡ (n, some (append_reply st sm n false (st.last_index l)))
  unfolding check_and_store
  refuses_gap now req n l h = ground arith

  refuses_mismatch :
      (now : ℕ) (req : AppendEntriesRequest) (n : Node L S) (l : L)
      → req.prev_log_index ≤ st.last_index l
      → 0 < req.prev_log_index
      → st.get_term l req.prev_log_index ≢ req.prev_log_term
      → check_and_store st sm now req l n
        ≡ (n, some (append_reply st sm n false (req.prev_log_index - 1)))
  unfolding check_and_store
  refuses_mismatch now req n l fits some_prev other = ground arith

  pub append_reply_lem :
      (n : Node L S) (b : Bool) (i : LogIndex)
      → ((append_reply st sm n b i).success ≡ b) × ((append_reply st sm n b i).last_log_index ≡ i)
  unfolding append_reply
  append_reply_lem n b i = (refl, refl)

  pub handles :
      (now : ℕ) (req : AppendEntriesRequest) (n : Node L S) (l : L)
      → n.log ≡ some l
      → current_term n ≤ req.term
      → on_append_entries st sm now n req
        ≡ check_and_store st sm now req l (accept_leader st sm req n)
  unfolding on_append_entries
  handles now req n l at le =
      let own : (accept_leader st sm req n).log ≡ some l = log-accept_leader req n ∙ at in
      rw own (ground arith)

  -- A request of the current or a later term whose previous entry is behind the end of the log, or
  -- is there with another term, leaves the log as it was and is refused.
  pub append_entries_refuses :
      (now : ℕ) (req : AppendEntriesRequest) (n : Node L S) (l : L)
      → n.log ≡ some l
      → current_term n ≤ req.term
      → (st.last_index l < req.prev_log_index)
        ⊎ ((0 < req.prev_log_index) × (st.get_term l req.prev_log_index ≢ req.prev_log_term))
      → (r : AppendEntriesResponse) × ((on_append_entries st sm now n req).0.log ≡ some l)
        × ((on_append_entries st sm now n req).1 ≡ some r)
        × (r.success ≡ false)
        × (r.last_log_index < req.prev_log_index)
  append_entries_refuses now req n l at le bad =
      let m : Node L S = accept_leader st sm req n in
      elim (lt_or_le (st.last_index l) req.prev_log_index) [
        | inl gap ↦
            let path = handles now req n l at le ∙ refuses_gap now req m l gap in
            let reply = append_reply_lem m false (st.last_index l) in
            (
              append_reply st sm m false (st.last_index l),
              ap (λ z. z.0.log) path ∙ log-accept_leader req n ∙ at,
              ap (λ z. z.1) path,
              reply.0,
              omega (arith, reply.1),
            )
        | inr fits ↦
            let prev : 0 < req.prev_log_index = elim bad [
              | inl h ↦ absurd (omega arith)
              | inr h ↦ h.0
            ] in
            let other : st.get_term l req.prev_log_index ≢ req.prev_log_term = elim bad [
              | inl h ↦ absurd (omega arith)
              | inr h ↦ h.1
            ] in
            let path = handles now req n l at le ∙ refuses_mismatch now req m l fits prev other in
            let reply = append_reply_lem m false (req.prev_log_index - 1) in
            (
              append_reply st sm m false (req.prev_log_index - 1),
              ap (λ z. z.0.log) path ∙ log-accept_leader req n ∙ at,
              ap (λ z. z.1) path,
              reply.0,
              omega (arith, reply.1),
            )
      ]

  module _ (laws : LogLaws st) where
    log-follow_commit :
        (now c k : ℕ) (n : Node L S) → (follow_commit st sm now c k n).node.log ≡ n.log
    unfolding follow_commit
    log-follow_commit now c k n =
        ground (arith, apply-KeepsLog st sm laws now (record n { commit_index = min c k }))

    finish_append_lem :
        (now : ℕ) (req : AppendEntriesRequest) (l : L) (n : Node L S)
        → ((finish_append st sm now req l n).0.log ≡ some (cut_tail st req.entries l))
          × Accepted (finish_append st sm now req l n).1 (st.last_index (cut_tail st req.entries l))
    unfolding finish_append answer append_reply
    finish_append_lem now req l n =
        let l' : L = cut_tail st req.entries l in
        let kept =
          log-follow_commit now req.leader_commit (st.last_index l') (record n { log = some l' }) in
        let a =
          follow_commit st sm now req.leader_commit (st.last_index l')
            (record n { log = some l' }) in
        (
          ground arith,
          elim (Bool-cases a.threw) [
            | inl t ↦ inl (ground arith)
            | inr f ↦
                inr (append_reply st sm a.node true (st.last_index l'), ground arith, refl, refl)
          ],
        )

    store_entries_lem :
        (now : ℕ) (req : AppendEntriesRequest) (p : L × Bool) (n : Node L S)
        → p.1 ≡ true
        → store_entries st sm now req p n ≡ finish_append st sm now req p.0 n
    unfolding store_entries
    store_entries_lem now req (l, true) n h = refl
    store_entries_lem now req (l, false) n h = ground arith

    -- A request of the current or a later term that fits a valid log, at or above its compacted part
    -- and with at most 128 entries that follow one another: the log up to the previous index is as it
    -- was, each entry of the request has its term at its index, the log ends with the last of them,
    -- if there are any, and the reply is a success that names the end of the log, unless the apply
    -- loop throws.
    pub append_entries_stores :
        (now : ℕ) (req : AppendEntriesRequest) (n : Node L S) (l : L)
        → n.log ≡ some l
        → laws.IsValid l
        → CanCut st laws l req.prev_log_index
        → current_term n ≤ req.term
        → req.prev_log_index ≤ st.last_index l
        → (0 < req.prev_log_index → st.get_term l req.prev_log_index ≡ req.prev_log_term)
        → Consecutive (suc req.prev_log_index) req.entries
        → length req.entries ≤ max_append_batch
        → (l' : L) × ((on_append_entries st sm now n req).0.log ≡ some l')
          × Stored st laws l (suc req.prev_log_index) req.entries l'
          × ((req.entries ≡ []) ⊎ (st.last_index l' ≡ req.prev_log_index + length req.entries))
          × Accepted (on_append_entries st sm now n req).1 (st.last_index l')
    append_entries_stores now req n l at v cut le fits same c short =
        let m : Node L S = accept_leader st sm req n in
        let run = append_loop-runs st laws req.entries l req.prev_log_index v cut fits c in
        let l1 : L = (append_loop st l req.entries).0 in
        let tail = cut_tail-Stored st laws l l1 req.prev_log_index req.entries run.1 cut c in
        let path =
          handles now req n l at le
          ∙ stores now req m l fits same short
          ∙ store_entries_lem now req (append_loop st l req.entries) m run.0 in
        let done = finish_append_lem now req l1 m in
        (
          cut_tail st req.entries l1,
          ap (λ z. z.0.log) path ∙ done.0,
          tail.0,
          elim (some_or_none req.entries) [ inl e ↦ inl e | inr h ↦ inr (tail.1 h) ],
          subst (λ z. Accepted z.1 (st.last_index (cut_tail st req.entries l1))) (sym path) done.1,
        )
