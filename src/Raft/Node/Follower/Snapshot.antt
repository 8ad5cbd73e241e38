-- ===== src/Raft/Node/Follower/Snapshot.antt =====
-- The chunks of a snapshot, and the log behind an installed one.
use maxredis.Base.{
  ℕ, ◌^◌, ◌≤◌, ◌<◌, ◌≡◌, ap, sym, ◌∙◌, refl, true, false, some, List, [], ◌∷◌, ◌++◌, Bytes, arith,
}
use mathlib.Core.List.{append-nil, append_assoc}
use maxredis.Raft.Types.{InstallSnapshotRequest, AppendEntriesRequest, AppendEntriesResponse}
use maxredis.Raft.StateMachine.{StateMachine}
use maxredis.Raft.SnapshotReceiver
use maxredis.Raft.CommandLog
use maxredis.Raft.CommandLog.{CommandLog}
use maxredis.Raft.Node.{Node, current_term}
use maxredis.Raft.Node.Follower.{adopt_snapshot, on_append_entries, append_reply, accept_leader}
use maxredis.Raft.Node.Follower.Append.{handles, refuses_gap, append_reply_lem}
use maxredis.Raft.SnapshotReceiver.{SnapshotReceiver}

-- The requests but the last, one after another.
abbrev pub receive_all : SnapshotReceiver → List InstallSnapshotRequest → SnapshotReceiver
receive_all r [] = r
receive_all r (req ∷ rest) = receive_all (SnapshotReceiver.handle_chunk r req).0 rest

abbrev pub chunks : List InstallSnapshotRequest → Bytes
chunks [] = []
chunks (req ∷ rest) = req.chunk ++ chunks rest

-- Requests that are not the last, at offsets that `fseek` accepts.
abbrev pub NoneDone : List InstallSnapshotRequest → Type 0
NoneDone [] = Unit
NoneDone (req ∷ rest) = (req.done ≡ false) × (req.offset < 2 ^ 63) × NoneDone rest

tmp-receive_all :
    (r : SnapshotReceiver) (reqs : List InstallSnapshotRequest)
    → NoneDone reqs
    → (receive_all r reqs).tmp ≡ r.tmp ++ chunks reqs
unfolding SnapshotReceiver.handle_chunk
tmp-receive_all r [] h = sym (append-nil r.tmp)
tmp-receive_all r (req ∷ rest) (more, low, h) =
    let next = (SnapshotReceiver.handle_chunk r req).0 in
    let grown : next.tmp ≡ r.tmp ++ req.chunk = ground arith in
    tmp-receive_all next rest h
    ∙ ap (λ z. z ++ chunks rest) grown
    ∙ append_assoc r.tmp req.chunk (chunks rest)

-- Requests that are not the last, received after `Init`, and then the last, all at offsets below 2^63:
-- the file holds their chunks in the order of arrival, whatever those offsets, and nothing is left
-- behind.
pub snapshot_is_chunks :
    (r : SnapshotReceiver) (reqs : List InstallSnapshotRequest) (last : InstallSnapshotRequest)
    → NoneDone reqs
    → last.done ≡ true
    → last.offset < 2 ^ 63
    → let final = SnapshotReceiver.handle_chunk (receive_all (SnapshotReceiver.init r) reqs) last in
      (final.0.bin ≡ chunks reqs ++ last.chunk) × (final.0.tmp ≡ []) × (final.1.success ≡ true)
unfolding SnapshotReceiver.handle_chunk SnapshotReceiver.init
snapshot_is_chunks r reqs last h done low =
    let all = tmp-receive_all (SnapshotReceiver.init r) reqs h in
    (ground arith, ground arith, ground arith)

module _ {S : Type 0} (sm : StateMachine S) where
  adopted_log :
      (req : InstallSnapshotRequest) (n : Node CommandLog S) (l : CommandLog)
      → n.log ≡ some l
      → (adopt_snapshot CommandLog.storage sm req n).log
        ≡ some (
            CommandLog.set_snapshot_anchor
              (CommandLog.clear l)
              req.last_included_index
              req.last_included_term)
  unfolding adopt_snapshot CommandLog.storage
  adopted_log req n l at = ground arith

  storage_last : (l : CommandLog) → CommandLog.storage.last_index l ≡ CommandLog.last_index l
  unfolding CommandLog.storage
  storage_last l = refl

  cleared_last :
      (l : CommandLog) (i t : ℕ)
      → CommandLog.last_index (CommandLog.set_snapshot_anchor (CommandLog.clear l) i t) ≡ 0
  unfolding CommandLog.last_index CommandLog.set_snapshot_anchor CommandLog.clear
  cleared_last l i t = refl

  -- Once a snapshot is installed over the in-memory log, every AppendEntries of the current or a
  -- later term that names a previous entry is refused, and the answer names the index 0.
  pub append_behind_snapshot :
      (now : ℕ) (req : InstallSnapshotRequest) (n : Node CommandLog S) (l : CommandLog)
      (append : AppendEntriesRequest)
      → n.log ≡ some l
      → current_term (adopt_snapshot CommandLog.storage sm req n) ≤ append.term
      → 0 < append.prev_log_index
      → let m = adopt_snapshot CommandLog.storage sm req n in
        (r : AppendEntriesResponse) × ((on_append_entries CommandLog.storage sm now m append).1
          ≡ some r)
        × (r.success ≡ false)
        × (r.last_log_index ≡ 0)
  append_behind_snapshot now req n l append at le h =
      let m = adopt_snapshot CommandLog.storage sm req n in
      let l' =
        CommandLog.set_snapshot_anchor (CommandLog.clear l) req.last_included_index
          req.last_included_term in
      let k = accept_leader CommandLog.storage sm append m in
      let empty = storage_last l' ∙ cleared_last l req.last_included_index req.last_included_term in
      let path =
        handles CommandLog.storage sm now append m l' (adopted_log req n l at) le
        ∙ refuses_gap CommandLog.storage sm now append k l' (omega (arith, empty)) in
      let reply =
        append_reply_lem CommandLog.storage sm k false (CommandLog.storage.last_index l') in
      (
        append_reply CommandLog.storage sm k false (CommandLog.storage.last_index l'),
        ap (λ z. z.1) path,
        reply.0,
        reply.1 ∙ empty,
      )
