-- ===== src/Raft/Node/Leader.antt =====
-- What a leader of server/raft/raft_node.cc does besides replicating: HeartbeatTickImpl, with
-- the leader transfer's part of it; the children hold ReadIndex and StartTransfer. Each function is one critical section; the RPCs between
-- two sections are their answers in the order of sending. A section reads the clock once, as `now`.
pub mod Reads
pub mod Transfer
pub mod Quorums
pub mod Lease
use maxredis.Base.{
  ℕ, suc, ◌+◌, ◌/◌, max, Bool, true, false, ◌&&◌, ◌||◌, not, Option, none, some, List, [], ◌∷◌,
  is_empty, length, set, map, replicate, resize, ltb, leb, ◌==◌, bytes_eq, u64, sub64,
  if◌then◌else◌,
}
use maxredis.Raft.Types.{
  Term, LogIndex, NodeId, is_leader, is_joint, TransferState, requested, waiting_catch_up,
  waiting_election, is_active, HeartbeatRequest, HeartbeatResponse, ReadIndexRequest,
  ReadIndexResponse, TimeoutNowRequest, TimeoutNowResponse,
}
use maxredis.Raft.LogStorage.{LogStorage}
use maxredis.Raft.StateMachine.{StateMachine}
use maxredis.Raft.Node.{
  Node, current_term, get_peer_ids, become_follower, cancel_transfer, last_index_or,
}
use maxredis.Raft.Node.Election.{majority_of}
use maxredis.Raft.Node.Apply.{Applied, apply_committed_logs}
use maxredis.Raft.Node.Commit.{advance_commit_index}

abbrev pub lease_ms : ℕ
lease_ms = 100

abbrev pub check_quorum_ms : ℕ
check_quorum_ms = 600

abbrev pub transfer_timeout_ms : ℕ
transfer_timeout_ms = 3000

-- The place of the first occurrence, as `std::find` gives it.
unfoldable pub index_of : NodeId → List NodeId → Option ℕ
index_of id [] = none
index_of id (v ∷ vs) =
    let rest = index_of id vs in
    if bytes_eq v id then some 0 else elim rest [ none ↦ none | some i ↦ some (suc i) ]

module _ {L S : Type 0} (st : LogStorage L) where
  -- `ResizePeerArraysLocked`
  unfoldable pub resize_peer_arrays : ℕ → Node L S → Node L S
  resize_peer_arrays count n =
      let fresh : LogIndex = elim n.log [ none ↦ 1 | some l ↦ st.last_index l + 1 ] in
      record n {
        peer_next_index =
            map (λ (i : ℕ). if i == 0 then fresh else i) (resize count 0 n.peer_next_index);
        peer_last_log_index = resize count 0 n.peer_last_log_index;
        peer_hb_ok = resize count true n.peer_hb_ok;
      }

module _ {L S : Type 0} where
  -- `ExtendLeaderLeaseLocked`
  unfoldable pub extend_leader_lease : ℕ → Node L S → Node L S
  extend_leader_lease now n = record n { leader_lease_expire = u64 (now + lease_ms) }

  -- `StepDownLocked`
  unfoldable pub step_down : Node L S → Node L S
  step_down n = if is_leader n.role then become_follower (current_term n) n else n

  -- The first section of `HeartbeatTickImpl`; `none` stops the loop.
  unfoldable pub heartbeat_begin : Bool → ℕ → Node L S → Option (HeartbeatRequest × List NodeId)
  heartbeat_begin is_loop epoch n =
      let req : HeartbeatRequest = record {
        group_id = n.group_id;
        term = current_term n;
        leader_id = n.node_id;
        leader_commit = n.commit_index;
      } in
      if (is_loop && not (n.heartbeat_epoch == epoch)) || not (is_leader n.role)
      then none
      else some (req, get_peer_ids n)

-- The answers to a round of heartbeats.
unfoldable pub is_ack : Term → HeartbeatResponse → Bool
is_ack term rsp = rsp.success && (rsp.term == term)

unfoldable pub ack_count : Term → List (NodeId × HeartbeatResponse) → ℕ
ack_count term [] = 1
ack_count term ((id, rsp) ∷ rest) =
    let n = ack_count term rest in if is_ack term rsp then n + 1 else n

unfoldable pub max_peer_term : Term → List (NodeId × HeartbeatResponse) → Term
max_peer_term term [] = term
max_peer_term term ((id, rsp) ∷ rest) = max rsp.term (max_peer_term term rest)

module _ {L S : Type 0} where
  -- An acknowledgement marks the peer healthy and its reported log length as its progress.
  unfoldable pub note_ack : Term → NodeId × HeartbeatResponse → Node L S → Node L S
  note_ack term (id, rsp) n =
      let marked = λ (i : ℕ). record n {
        peer_hb_ok = set n.peer_hb_ok i true;
        peer_last_log_index = set n.peer_last_log_index i rsp.last_log_index;
      } in
      if is_ack term rsp
      then elim (index_of id n.last_peer_ids) [ none ↦ n | some i ↦ marked i ]
      else n

  unfoldable pub note_acks : Term → List (NodeId × HeartbeatResponse) → Node L S → Node L S
  note_acks term [] n = n
  note_acks term (a ∷ rest) n = note_acks term rest (note_ack term a n)

-- Whether an acknowledging peer of the node's list is behind `my_last`.
unfoldable pub some_behind :
    Term → LogIndex → List NodeId → List (NodeId × HeartbeatResponse) → Bool
some_behind term my_last peers [] = false
some_behind term my_last peers ((id, rsp) ∷ rest) =
    let more = some_behind term my_last peers rest in
    let known : Bool = elim (index_of id peers) [ none ↦ false | some i ↦ true ] in
    (is_ack term rsp && known && ltb rsp.last_log_index my_last) || more

pub record Tick (L S : Type 0) : Type 0 where
  pub node : Node L S
  pub stop : Bool
  pub send_timeout_now : Bool
  pub need_replicate : Bool

module _ {L S : Type 0} where
  abbrev stop_tick : Node L S → Tick L S
  stop_tick n = record { node = n; stop = true; send_timeout_now = false; need_replicate = false }

-- `IsTransferReadyLocked`
unfoldable pub ready_in : LogIndex → NodeId → List NodeId → List LogIndex → Bool
ready_in last target (p ∷ ps) (i ∷ is) =
    let rest = ready_in last target ps is in if bytes_eq p target then leb last i else rest
ready_in last target _ _ = false

module _ {L S : Type 0} (st : LogStorage L) where
  unfoldable pub is_transfer_ready : NodeId → Node L S → Bool
  is_transfer_ready target n = elim n.log [
    | none ↦ false
    | some l ↦ ready_in (st.last_index l) target n.last_peer_ids n.peer_last_log_index
  ]

module _ {L S : Type 0} where
  -- `CheckTransferTimeoutLocked`
  unfoldable pub check_transfer_timeout : ℕ → Node L S → Node L S
  check_transfer_timeout now n =
      if is_active n.transfer_ctx && leb transfer_timeout_ms (sub64 now n.transfer_ctx.start_ms)
      then cancel_transfer n
      else n

  unfoldable pub set_transfer_state : TransferState → Node L S → Node L S
  set_transfer_state s n = record n { transfer_ctx = record n.transfer_ctx { state = s } }

abbrev pub is_waiting_catch_up : TransferState → Bool
is_waiting_catch_up waiting_catch_up = true
is_waiting_catch_up _ = false

module _ {L S : Type 0} (st : LogStorage L) where
  -- The transfer's part of a tick.
  unfoldable pub tick_transfer : ℕ → Bool → Node L S → Tick L S
  tick_transfer now behind n =
      let m = check_transfer_timeout now n in
      let waiting =
        is_active n.transfer_ctx && is_waiting_catch_up m.transfer_ctx.state && is_leader m.role in
      let ready = is_transfer_ready st m.transfer_ctx.target m in
      if waiting
      then (if ready
          then record {
            node = set_transfer_state waiting_election m;
            stop = false;
            send_timeout_now = true;
            need_replicate = behind;
          }
          else record { node = m; stop = false; send_timeout_now = false; need_replicate = true })
      else record { node = m; stop = false; send_timeout_now = false; need_replicate = behind }

  -- The acknowledgements that a tick asks for; outside a joint configuration half of the voters, and
  -- the node itself does not count among these.
  unfoldable pub tick_majority : Node L S → ℕ
  tick_majority n =
      if is_joint n.config_state
      then max (majority_of (length n.joint_config.old_config.voters))
          (majority_of (length n.joint_config.new_config.voters))
      else length n.cluster_config.voters / 2 + 1

  unfoldable pub note_round : Term → List (NodeId × HeartbeatResponse) → Node L S → Node L S
  note_round term answers n =
      let peers = get_peer_ids n in
      let m = resize_peer_arrays st (length peers) n in
      advance_commit_index st (
        note_acks term answers
          (record m { last_peer_ids = peers; peer_hb_ok = replicate (length m.peer_hb_ok) false }))

  -- The quorum's part of a tick: the lease is extended, or the node steps down.
  unfoldable pub tick_quorum : ℕ → ℕ → Bool → Node L S → Tick L S
  tick_quorum now acks behind n =
      if leb (tick_majority n) acks
      then tick_transfer now behind
          (extend_leader_lease now (record n { last_majority_ack_ms = now }))
      else if ltb check_quorum_ms (sub64 now n.last_majority_ack_ms)
      then stop_tick (step_down n)
      else tick_transfer now behind n

  -- The last section of `HeartbeatTickImpl`.
  unfoldable pub heartbeat_end :
      Bool → ℕ → ℕ → HeartbeatRequest → List (NodeId × HeartbeatResponse) → Node L S → Tick L S
  heartbeat_end is_loop epoch now req answers n =
      let peer_term = max_peer_term req.term answers in
      let my_last = last_index_or st n.log in
      if (is_loop && not (n.heartbeat_epoch == epoch)) || not (is_leader n.role)
      then stop_tick n
      else if ltb (current_term n) peer_term
      then stop_tick (become_follower peer_term n)
      else tick_quorum now (ack_count req.term answers)
          (some_behind req.term my_last (get_peer_ids n) answers) (note_round req.term answers n)
