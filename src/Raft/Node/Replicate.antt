-- ===== src/Raft/Node/Replicate.antt =====
-- Log replication in server/raft/raft_node.cc: SubmitEntry's append, and ReplicateLog as its three
-- phases. The network is the argument `net`; `commit` and `healthy` are what phase 2 reads of the
-- node without the lock.
pub mod Progress
use maxredis.Base.{
  ℕ, suc, ◌+◌, ◌-◌, min, max, Bool, true, false, ◌&&◌, ◌||◌, not, Option, none, some, List, [], ◌∷◌,
  ◌++◌, length, get_elem?, set, ltb, leb, ◌==◌, if◌then◌else◌,
}
use maxredis.Raft.Types.{
  Term, LogIndex, NodeId, LogEntry, default_entry, is_leader, AppendEntriesRequest,
  AppendEntriesResponse,
}
use maxredis.Raft.LogStorage.{LogStorage}
use maxredis.Raft.StateMachine.{StateMachine}
use maxredis.Raft.Node.{Node, current_term, get_peer_ids, become_follower}
use maxredis.Raft.Node.Apply.{Applied, apply_committed_logs, no_result}
use maxredis.Raft.Node.Commit.{advance_commit_index, maybe_auto_finalize_joint}
use maxredis.Raft.Node.Follower.{max_append_batch}
use maxredis.Raft.Node.Leader.{resize_peer_arrays}

pub record PeerReq : Type 0 where
  pub id : NodeId
  pub idx : ℕ
  pub next : LogIndex
  pub prev : LogEntry
  pub need_snapshot : Bool
  pub snapshot_index : LogIndex
  pub snapshot_term : Term
  pub entries : List LogEntry

-- `ShouldInstallSnapshot`
unfoldable pub should_install_snapshot : LogIndex → LogIndex → Bool
should_install_snapshot next_index snapshot_index =
    ltb 0 snapshot_index && leb next_index snapshot_index

unfoldable pub or_default {ℓ} : {A : Type ℓ} → A → Option A → A
or_default d none = d
or_default d (some a) = a

-- `std::stable_sort` by health: the positions from `i` on with flag `want`, in order.
unfoldable pub positions : Bool → ℕ → List Bool → List ℕ
positions want i [] = []
positions want i (true ∷ bs) =
    let rest = positions want (suc i) bs in if want then i ∷ rest else rest
positions want i (false ∷ bs) =
    let rest = positions want (suc i) bs in if want then rest else i ∷ rest

unfoldable pub healthy_first : List Bool → List ℕ
healthy_first flags = positions true 0 flags ++ positions false 0 flags

module _ {L : Type 0} (st : LogStorage L) where
  unfoldable pub prev_entry : L → LogIndex → LogEntry
  prev_entry l next = if leb next 1 then default_entry else elim (st.get l (next - 1)) [
    | none ↦ record { term = st.get_term l (next - 1); index = next - 1; command = [] }
    | some e ↦ e
  ]

module _ {L S : Type 0} (st : LogStorage L) where
  -- The append of `SubmitEntry`: the index of the new entry, or a refusal.
  unfoldable pub submit_append : LogEntry → Node L S → Node L S × Option LogIndex
  submit_append e n = elim n.log [
    | none ↦ (n, none)
    | some l ↦
        if not (is_leader n.role)
        then (n, none)
        else (let l' = st.append l (record e { term = current_term n; index = 0 }) in
            (record n { log = some l' }, some (st.last_index l')))
  ]

  -- The request for the peer at position `i`.
  unfoldable pub build_request : L → Node L S → ℕ → PeerReq
  build_request l n i =
      let next = max 1 (or_default 0 (get_elem? n.peer_next_index i)) in
      let snap = should_install_snapshot next n.last_snapshot_index in
      record {
        id = or_default [] (get_elem? n.last_peer_ids i);
        idx = i;
        next = next;
        prev = if snap then default_entry else prev_entry st l next;
        need_snapshot = snap;
        snapshot_index = if snap then n.last_snapshot_index else 0;
        snapshot_term = if snap then n.last_snapshot_term else 0;
        entries = if snap then [] else st.get_range l next max_append_batch;
      }

  unfoldable pub build_requests : L → Node L S → List ℕ → List PeerReq
  build_requests l n [] = []
  build_requests l n (i ∷ is) = build_request l n i ∷ build_requests l n is

  -- Phase 1 with a log: the arrays are refreshed and the requests are built, healthy peers first.
  unfoldable pub capture : L → Node L S → Node L S × List PeerReq
  capture l n =
      let peers = get_peer_ids n in
      let m = record (resize_peer_arrays st (length peers) n) { last_peer_ids = peers } in
      (m, build_requests l m (healthy_first m.peer_hb_ok))

  -- Phase 1 of `ReplicateLog`; `none` returns at once.
  unfoldable pub replicate_begin : Node L S → Option (Node L S × List PeerReq)
  replicate_begin n = elim n.log [
    | none ↦ none
    | some l ↦ if is_leader n.role then some (capture l n) else none
  ]

-- What phase 2 learned about one request.
pub record Outcome : Type 0 where
  pub attempted : Bool
  pub ok : Bool
  pub match_index : LogIndex
  pub term : Term

pub record Network : Type 0 where
  pub send_snapshot : PeerReq → Bool
  pub send_append_entries : NodeId → AppendEntriesRequest → AppendEntriesResponse

abbrev pub skipped : Outcome
skipped = record { attempted = false; ok = false; match_index = 0; term = 0 }

module _ {L S : Type 0} where
  unfoldable pub append_request : Node L S → LogIndex → PeerReq → AppendEntriesRequest
  append_request n commit r = record {
    group_id = n.group_id;
    term = current_term n;
    leader_id = n.node_id;
    prev_log_index = r.prev.index;
    prev_log_term = r.prev.term;
    entries = r.entries;
    leader_commit = commit;
  }

-- A rejection's hint is kept if it lies below the request.
unfoldable pub append_outcome : PeerReq → AppendEntriesResponse → Outcome
append_outcome r rsp = record {
  attempted = true;
  ok = rsp.success;
  match_index =
      if rsp.success
      then r.prev.index + length r.entries
      else if ltb rsp.last_log_index (r.next - 1)
      then rsp.last_log_index
      else 0;
  term = rsp.term;
}

unfoldable pub snapshot_outcome : PeerReq → Bool → Outcome
snapshot_outcome r sent = record {
  attempted = true;
  ok = sent;
  match_index = if sent then r.snapshot_index else 0;
  term = 0;
}

module _ {L S : Type 0} (net : Network) (n : Node L S) (commit : LogIndex) where
  unfoldable pub send_one : PeerReq → Outcome
  send_one r =
      if r.need_snapshot
      then snapshot_outcome r (net.send_snapshot r)
      else append_outcome r (net.send_append_entries r.id (append_request n commit r))

  -- Phase 2 on the write path: sending stops at a quorum.
  unfoldable pub send_until_quorum : ℕ → ℕ → List PeerReq → List Outcome
  send_until_quorum majority successes [] = []
  send_until_quorum majority successes (r ∷ rs) =
      let o = send_one r in
      let enough = leb majority successes in
      let rest =
        send_until_quorum majority
          (if enough then successes else if o.ok then successes + 1 else successes) rs in
      (if enough then skipped else o) ∷ rest

  -- Phase 2 of a catch-up: every peer that is healthy and behind.
  unfoldable pub send_to_behind : LogIndex → List Bool → List PeerReq → List Outcome
  send_to_behind my_last healthy [] = []
  send_to_behind my_last healthy (r ∷ rs) =
      (if not (or_default false (get_elem? healthy r.idx)) || ltb my_last r.next
        then skipped
        else send_one r)
      ∷ send_to_behind my_last healthy rs

unfoldable pub max_outcome_term : Term → List Outcome → Term
max_outcome_term term [] = term
max_outcome_term term (o ∷ os) = max o.term (max_outcome_term term os)

-- `min(next - 1, hint)` in unsigned arithmetic, and at least 1.
unfoldable pub back_off : LogIndex → LogIndex → LogIndex
back_off next hint = max 1 (if next == 0 then hint else min (next - 1) hint)

module _ {L S : Type 0} where
  unfoldable pub note_failure : ℕ → LogIndex → Node L S → Node L S
  note_failure i backoff n =
      let m = record n { peer_next_index = set n.peer_next_index i backoff } in
      if leb backoff n.last_snapshot_index
      then record m { peer_last_log_index = set n.peer_last_log_index i n.last_snapshot_index }
      else m

  -- One response of phase 3.
  unfoldable pub note_outcome : PeerReq → Outcome → Node L S → Node L S
  note_outcome r o n =
      let next = or_default 0 (get_elem? n.peer_next_index r.idx) in
      if not o.attempted
      then n
      else if o.ok
      then record n {
        peer_last_log_index = set n.peer_last_log_index r.idx o.match_index;
        peer_next_index = set n.peer_next_index r.idx (o.match_index + 1);
      }
      else note_failure r.idx (back_off next (o.match_index + 1)) n

  unfoldable pub note_outcomes : List PeerReq → List Outcome → Node L S → Node L S
  note_outcomes (r ∷ rs) (o ∷ os) n = note_outcomes rs os (note_outcome r o n)
  note_outcomes _ _ n = n

unfoldable pub any_failed : List Outcome → Bool
any_failed [] = false
any_failed (o ∷ os) = (o.attempted && not o.ok) || any_failed os

module _ {L S : Type 0} (st : LogStorage L) (sm : StateMachine S) where
  abbrev returned : Node L S → Applied L S
  returned n = record { node = n; result = no_result; threw = false }

  -- A leader without peers commits and applies at once.
  unfoldable pub replicate_alone : ℕ → Node L S → Applied L S
  replicate_alone now n =
      if not (is_leader n.role)
      then returned n
      else apply_committed_logs st sm now (maybe_auto_finalize_joint st (advance_commit_index st n))

  -- Phase 3 of `ReplicateLog` for requests that were captured in the term `term`; the second part
  -- asks for another round.
  unfoldable pub replicate_end :
      ℕ → Term → List PeerReq → List Outcome → Node L S → Applied L S × Bool
  replicate_end now term reqs outcomes n =
      let peer_term = max_outcome_term term outcomes in
      let noted =
        maybe_auto_finalize_joint st (advance_commit_index st (note_outcomes reqs outcomes n)) in
      if ltb (current_term n) peer_term
      then (returned (become_follower peer_term n), false)
      else if not (is_leader n.role) || not (current_term n == term)
      then (returned n, false)
      else (apply_committed_logs st sm now noted, any_failed outcomes)
