-- ===== src/Raft/SnapshotReceiver.antt =====
-- server/raft/snapshot_receiver.{h,cc}: the snapshot that arrives in chunks. `tmp` and `bin` are the
-- contents of snapshot.recv.tmp and snapshot.bin. The file is opened with mode "ab", in which every
-- write goes to the end of the file whatever `fseek` said; the offset is cast to a signed number, and
-- `fseek` refuses a negative one. Other failing file operations are not modelled.
use maxredis.Base.{◌^◌, true, false, [], ◌++◌, Bytes, leb, if◌then◌else◌}
use maxredis.Raft.Types.{InstallSnapshotRequest, InstallSnapshotResponse}

pub record SnapshotReceiver : Type 0 where
  pub tmp : Bytes
  pub bin : Bytes

-- `Init` removes what a crash left behind.
unfoldable pub init : SnapshotReceiver → SnapshotReceiver
init r = record r { tmp = [] }

-- `HandleChunk`; `group_id` keeps its default in the answer.
unfoldable pub handle_chunk :
    SnapshotReceiver → InstallSnapshotRequest → SnapshotReceiver × InstallSnapshotResponse
handle_chunk r req =
    let received = r.tmp ++ req.chunk in
    let rsp : InstallSnapshotResponse = record { group_id = 0; term = req.term; success = true } in
    if leb (2 ^ 63) req.offset
    then (r, record rsp { success = false })
    else if req.done
    then (record { tmp = []; bin = received }, rsp)
    else (record r { tmp = received }, rsp)
