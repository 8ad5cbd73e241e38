-- ===== src/Kv/Snapshot.antt =====
-- `SaveSnapshot` and `LoadSnapshot` of server/state_machine/kv_state_machine.cc, with
-- server/service/state_serializer.cc (`Export`) and the file of server/raft/snapshot_writer.cc. Writes
-- succeed; a file is the list of its bytes. `now` is what `NowMs()` gives during the operation.
pub mod Records
pub mod Tables
pub mod RoundTrip
use maxredis.Base.{
  ℕ, zero, suc, ◌+◌, ◌%◌, ◌^◌, Bool, true, false, not, ◌&&◌, Option, none, some, List, [], ◌∷◌,
  ◌++◌, map, Bytes, length, take, ltb, ◌==◌, if◌then◌else◌, le_bytes, read_exact, read_word,
}
use maxredis.Raft.Types.{LogEntry}
use maxredis.Raft.StateMachine.{StateMachine}
use maxredis.Kv.MainTable.{MainTable, MainValue}
use maxredis.Kv.DbSlice
use maxredis.Kv.DbSlice.{DbSlice}
use maxredis.Kv.Command.{ℤ, apply_log_entry}
use maxredis.Kv.Machine.{Kv, await, shard, kv_ops}

-- `SnapshotRecord`
pub record SnapshotRecord : Type 0 where
  pub key : Bytes
  pub value : Bytes
  pub expire_at : ℕ

-- `kSnapshotMagic`
abbrev pub snapshot_magic : ℕ
snapshot_magic = 0x50414E53

-- `SnapshotWriter::Add`: the lengths are cast to 32 bits.
unfoldable pub record_bytes : SnapshotRecord → Bytes
record_bytes r =
    let key_len = length r.key % 2 ^ 32 in
    let value_len = length r.value % 2 ^ 32 in
    le_bytes 4 key_len
    ++ (le_bytes 4 value_len
        ++ (le_bytes 8 r.expire_at ++ (take key_len r.key ++ take value_len r.value)))

unfoldable pub records_bytes : List SnapshotRecord → Bytes
records_bytes [] = []
records_bytes (r ∷ rs) = record_bytes r ++ records_bytes rs

-- The file of `Open`, an `Add` for each record, and `Finalize`.
unfoldable pub snapshot_file : List SnapshotRecord → Bytes
snapshot_file rs =
    le_bytes 4 snapshot_magic ++ (le_bytes 4 (length rs % 2 ^ 32) ++ records_bytes rs)

abbrev pub record_of : Bytes × MainValue → SnapshotRecord
record_of (k, v) = record { key = k; value = v.value; expire_at = v.expire_ms }

-- `StateSerializer::Export`: the entries of every database, without its number.
unfoldable pub export : List (Option MainTable) → List SnapshotRecord
export [] = []
export (none ∷ dbs) = export dbs
export (some t ∷ dbs) = map record_of t ++ export dbs

-- The records of the first `n` shards.
unfoldable pub export_shards : ℕ → (ℕ → DbSlice) → List SnapshotRecord
export_shards zero slice = []
export_shards (suc n) slice = export_shards n slice ++ export (slice n).db_arr

-- `KvStateMachine::SaveSnapshot`
unfoldable pub save_snapshot : Kv → Bytes
save_snapshot kv = snapshot_file (export_shards kv.size kv.slice)

unfoldable pub read_value : ℕ → Bytes → ℕ → Bytes → Option (SnapshotRecord × Bytes)
read_value value_len key expire_at file = elim (read_exact value_len file) [
  | none ↦ none
  | some (value, rest) ↦ some (record { key = key; value = value; expire_at = expire_at }, rest)
]

unfoldable pub read_key : ℕ → ℕ → ℕ → Bytes → Option (SnapshotRecord × Bytes)
read_key key_len value_len expire_at file = elim (read_exact key_len file) [
  | none ↦ none
  | some (key, rest) ↦ read_value value_len key expire_at rest
]

unfoldable pub read_expire : ℕ → ℕ → Bytes → Option (SnapshotRecord × Bytes)
read_expire key_len value_len file = elim (read_word 8 file) [
  | none ↦ none
  | some (expire_at, rest) ↦ read_key key_len value_len expire_at rest
]

unfoldable pub read_value_len : ℕ → Bytes → Option (SnapshotRecord × Bytes)
read_value_len key_len file = elim (read_word 4 file) [
  | none ↦ none
  | some (value_len, rest) ↦ read_expire key_len value_len rest
]

-- One record of the file; `none` is a `break`.
unfoldable pub read_record : Bytes → Option (SnapshotRecord × Bytes)
read_record file = elim (read_word 4 file) [
  | none ↦ none
  | some (key_len, rest) ↦ read_value_len key_len rest
]

-- The records that the loop passes over without counting them.
abbrev pub is_over : ℕ → ℕ → Bool
is_over now expire_at = ltb 0 expire_at && ltb expire_at now

-- The task that stores a record.
unfoldable pub load_task : ℕ → SnapshotRecord → DbSlice → DbSlice × Bool
load_task now r slice =
    let (s, inserted) = DbSlice.add_or_find now slice 0 r.key in
    let written = DbSlice.write_value s 0 r.key r.value in
    if ltb 0 r.expire_at
    then ((DbSlice.set_expire written 0 r.key r.expire_at).0, true)
    else (written, true)

module _ (hash : Bytes → ℕ) (now : ℕ) where
  unfoldable pub load_record : SnapshotRecord → Kv → Kv
  load_record r kv = (await (shard hash kv r.key) (load_task now r) kv).0

  -- The loop over `n` records; the number is `loaded`.
  unfoldable pub load_loop : ℕ → Bytes → Kv → ℕ → Kv × ℕ
  load_loop zero file kv loaded = (kv, loaded)
  load_loop (suc n) file kv loaded = elim (read_record file) [
    | none ↦ (kv, loaded)
    | some (r, rest) ↦
        load_loop n rest (if is_over now r.expire_at then kv else load_record r kv)
          (if is_over now r.expire_at then loaded else suc loaded)
  ]

  unfoldable pub load_counted : ℕ → Bytes → Kv → Kv × Bool
  load_counted num_records file kv =
      let (kv', loaded) = load_loop num_records file kv 0 in (kv', loaded == num_records)

  unfoldable pub load_body : Bytes → Kv → Kv × Bool
  load_body file kv = elim (read_word 4 file) [
    | none ↦ (kv, false)
    | some (num_records, rest) ↦ load_counted num_records rest kv
  ]

  -- `KvStateMachine::LoadSnapshot` of a file that could be opened
  unfoldable pub load_snapshot : Bytes → Kv → Kv × Bool
  load_snapshot file kv = elim (read_word 4 file) [
    | none ↦ (kv, false)
    | some (magic, rest) ↦ if magic == snapshot_magic then load_body rest kv else (kv, false)
  ]

  -- The store as the state machine of a node, while the clock gives `now`.
  abbrev pub kv_machine : (Bytes → Option ℤ) → StateMachine Kv
  kv_machine simple_atoi = record {
    apply_log_entry = apply_log_entry simple_atoi now (kv_ops hash now);
    load_snapshot = load_snapshot;
  }
