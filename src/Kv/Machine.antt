-- ===== src/Kv/Machine.antt =====
-- `KvStateMachine` of server/state_machine/kv_state_machine.cc over the shards of
-- server/storage/engine_shard_set.h. `Await` runs a task on the thread of its shard and returns the
-- result. XXH64 is the parameter `hash`, and `now` is what `NowMs()` gives during the operation.
pub mod Refine
pub mod Entries
pub mod Clients
use maxredis.Base.{
  ℕ, zero, suc, ◌+◌, ◌%◌, Bool, true, false, not, ◌&&◌, Option, none, some, List, Bytes, codes,
  bytes_eq, ltb, ◌==◌, if◌then◌else◌, get_elem?,
}
use maxredis.Raft.Types.{ApplyResult}
use maxredis.Kv.MainTable.{MainValue}
use maxredis.Kv.DbSlice
use maxredis.Kv.DbSlice.{DbSlice}
use maxredis.Kv.Command.{KvOps, error_result, rows, row}

-- `EngineShardSet`: the slices of the shards below `size`.
pub record Kv : Type 0 where
  pub size : ℕ
  pub slice : ℕ → DbSlice

-- A set of `n` shards at its start.
abbrev pub new : ℕ → Kv
new n = record { size = n; slice = λ i. DbSlice.new }

-- A task on one shard.
abbrev pub await {ℓ} : {A : Type ℓ} → ℕ → (DbSlice → DbSlice × A) → Kv → Kv × A
await sid task kv =
    let (s, a) = task (kv.slice sid) in
    (record kv { slice = λ i. if i == sid then s else kv.slice i }, a)

-- `nx` and `xx` against what `AddOrFind` did, and the two writes.
unfoldable pub apply_set_task : ℕ → ℕ → Bytes → Bytes → Bool → Bool → ℕ → DbSlice → DbSlice × Bool
apply_set_task now db key val nx xx expire_at_ms slice =
    let (s, inserted) = DbSlice.add_or_find now slice db key in
    let written = DbSlice.write_value s db key val in
    if nx && not inserted
    then (s, false)
    else if xx && inserted
    then (s, false)
    else if ltb 0 expire_at_ms
    then ((DbSlice.set_expire written db key expire_at_ms).0, true)
    else (written, true)

unfoldable pub set_task : ℕ → ℕ → Bytes → Bytes → DbSlice → DbSlice × Bool
set_task now db key val slice =
    let (s, res) = DbSlice.add_or_find now slice db key in (DbSlice.write_value s db key val, res)

abbrev pub value_of : Option MainValue → Option Bytes
value_of none = none
value_of (some v) = some v.value

unfoldable pub get_task : ℕ → ℕ → Bytes → DbSlice → DbSlice × Option Bytes
get_task now db key slice = let (s, found) = DbSlice.find now slice db key in (s, value_of found)

module _ (hash : Bytes → ℕ) where
  -- `KvStateMachine::Shard`
  abbrev pub shard : Kv → Bytes → ℕ
  shard kv key = hash key % kv.size

  -- `KvStateMachine::ApplySet`
  unfoldable pub apply_set : ℕ → ℕ → Bytes → Bytes → Bool → Bool → ℕ → Kv → Kv × Bool
  apply_set now db key val nx xx expire_at_ms kv =
      await (shard kv key) (apply_set_task now db key val nx xx expire_at_ms) kv

  -- `KvStateMachine::Set`
  unfoldable pub set : ℕ → ℕ → Bytes → Bytes → Kv → Kv
  set now db key val kv = (await (shard kv key) (set_task now db key val) kv).0

  -- `KvStateMachine::Del`
  unfoldable pub del : ℕ → Bytes → Kv → Kv × Bool
  del db key kv = await (shard kv key) (λ s. DbSlice.del s db key) kv

  -- `KvStateMachine::Expire`
  unfoldable pub expire : ℕ → Bytes → ℕ → Kv → Kv × Bool
  expire db key expire_at_ms kv =
      await (shard kv key) (λ s. DbSlice.set_expire s db key expire_at_ms) kv

  -- `KvStateMachine::Get`; `none` is `KEY_NOTFOUND`.
  unfoldable pub get : ℕ → ℕ → Bytes → Kv → Kv × Option Bytes
  get now db key kv = await (shard kv key) (get_task now db key) kv

  -- The operations that `ApplyLogEntry` calls.
  abbrev pub kv_ops : ℕ → KvOps Kv
  kv_ops now = record { apply_set = apply_set now 0; del = del 0; expire = expire 0 }

  -- `KvStateMachine::Apply`, the path without a log; `none` is an argument that is not there, which the
  -- code reads out of bounds.
  unfoldable pub apply : ℕ → Bytes → List Bytes → Kv → Option (Kv × ApplyResult)
  apply now name args kv =
      if bytes_eq name (codes "SET")
      then elim (get_elem? args 1) [
        | none ↦ none
        | some key ↦ elim (get_elem? args 2) [
          | none ↦ none
          | some val ↦ some (set now 0 key val kv, rows 1)
        ]
      ]
      else if bytes_eq name (codes "DEL")
      then elim (get_elem? args 1) [
        | none ↦ none
        | some key ↦ let (kv', deleted) = del 0 key kv in some (kv', row deleted)
      ]
      else some (kv, error_result)

-- `KvStateMachine::DbSize`: the sum over the first `n` shards.
unfoldable pub sum_sizes : ℕ → ℕ → (ℕ → DbSlice) → ℕ
sum_sizes db zero slice = 0
sum_sizes db (suc n) slice = sum_sizes db n slice + DbSlice.db_size (slice n) db

abbrev pub db_size : ℕ → Kv → ℕ
db_size db kv = sum_sizes db kv.size kv.slice
