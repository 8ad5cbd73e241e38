-- ===== src/Raft/Node/Leader/Transfer.antt =====
-- StartTransfer and SendTimeoutNowToTarget of server/raft/raft_node.cc, by critical sections.
use maxredis.Base.{
  ℕ, Bool, true, false, ◌||◌, not, Option, none, some, List, [], ◌∷◌, is_empty, bytes_eq,
  if◌then◌else◌,
}
use maxredis.Raft.Types.{
  NodeId, is_leader, requested, waiting_catch_up, waiting_election, is_active, TimeoutNowRequest,
  TimeoutNowResponse,
}
use maxredis.Raft.LogStorage.{LogStorage}
use maxredis.Raft.Node.{Node, current_term, get_peer_ids, cancel_transfer}
use maxredis.Raft.Node.Leader.{set_transfer_state, is_transfer_ready}

unfoldable pub mem_id : NodeId → List NodeId → Bool
mem_id id [] = false
mem_id id (v ∷ vs) = bytes_eq v id || mem_id id vs

module _ {L S : Type 0} where
  -- The first section of `StartTransfer`.
  unfoldable pub transfer_begin : ℕ → NodeId → Node L S → Node L S × Bool
  transfer_begin now target n =
      if not (is_leader n.role) || is_active n.transfer_ctx || not (mem_id target (get_peer_ids n))
      then (n, false)
      else (
        record n { transfer_ctx = record { target = target; state = requested; start_ms = now } },
        true,
      )

module _ {L S : Type 0} (st : LogStorage L) where
  -- The last section of `StartTransfer`: its result, and whether `SendTimeoutNowToTarget` is called.
  unfoldable pub transfer_end : NodeId → Node L S → Node L S × Bool × Bool
  transfer_end target n =
      if not (is_leader n.role) || not (is_active n.transfer_ctx)
      then (n, false, false)
      else if is_transfer_ready st target n
      then (set_transfer_state waiting_election n, true, true)
      else (set_transfer_state waiting_catch_up n, true, false)

module _ {L S : Type 0} where
  -- The two sections of `SendTimeoutNowToTarget`. The first gives the recipient and the request; the
  -- recipient is read after the section, and is here that of its end.
  unfoldable pub timeout_now_begin : Node L S → Option (NodeId × TimeoutNowRequest)
  timeout_now_begin n =
      if is_empty n.transfer_ctx.target || not (is_leader n.role)
      then none
      else some (
        n.transfer_ctx.target,
        record { group_id = n.group_id; term = current_term n; leader_id = n.node_id },
      )

  unfoldable pub timeout_now_end : TimeoutNowResponse → Node L S → Node L S
  timeout_now_end rsp n = if not (is_leader n.role) || rsp.accepted then n else cancel_transfer n

module _ {L S : Type 0} (st : LogStorage L) where
  -- The end of `StartTransfer`, where no other section comes in between: what it sends, and to whom.
  unfoldable pub transfer_send : NodeId → Node L S → Option (NodeId × TimeoutNowRequest)
  transfer_send target n =
      let (m, accepted, send_now) = transfer_end st target n in
      if send_now then timeout_now_begin m else none
