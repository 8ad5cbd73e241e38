-- ===== src/Kv/Command.antt =====
-- `KvStateMachine::ApplyLogEntry` of server/state_machine/kv_state_machine.cc: the command of a log entry
-- is parsed and carried out by the three operations of the interface `KvOps`, over the type `S` of the
-- store's states. `absl::SimpleAtoi` is the parameter `simple_atoi`; `now` is what `NowMs()` gives while
-- the entry is applied.
pub mod Simulation
use maxredis.Base.{
  ℕ, ◌+◌, ◌*◌, ◌%◌, ◌^◌, Bool, true, false, ◌&&◌, Option, none, some, List, [], ◌∷◌, Bytes, codes,
  bytes_eq, is_empty, if◌then◌else◌, u64,
}
use maxredis.Raft.Types.{LogEntry, ApplyResult, ok, error}
use maxredis.Raft.RespArray.{parse_resp_array}
use maxredis.Raft.ReplicatedCommand.{split_spaces}

-- The integers that `SimpleAtoi` reads.
pub data ℤ : Type 0 where
  pos negsuc : ℕ → ℤ

-- `ApplySet`, `Del` and `Expire` of database 0, and whether they found something to do.
pub record KvOps (S : Type 0) : Type 0 where
  pub apply_set : Bytes → Bytes → Bool → Bool → ℕ → S → S × Bool
  pub del : Bytes → S → S × Bool
  pub expire : Bytes → ℕ → S → S × Bool

-- The options of SET.
pub record SetOptions : Type 0 where
  pub nx : Bool
  pub xx : Bool
  pub expire_at_ms : ℕ

abbrev pub no_options : SetOptions
no_options = record { nx = false; xx = false; expire_at_ms = 0 }

abbrev pub flag : Bytes → SetOptions → SetOptions
flag opt so =
    if bytes_eq opt (codes "NX")
    then record so { nx = true }
    else if bytes_eq opt (codes "XX")
    then record so { xx = true }
    else so

-- The milliseconds of the unit that EX and PX count in.
abbrev pub unit_ms : Bytes → Option ℕ
unit_ms opt =
    if bytes_eq opt (codes "EX")
    then some 1000
    else if bytes_eq opt (codes "PX")
    then some 1
    else none

-- An integer that is not negative.
abbrev pub natural : Option ℤ → Option ℕ
natural (some (pos n)) = some n
natural _ = none

-- `NowMs() + ttl_ms` in 64 bits
abbrev pub expiry : ℕ → ℕ → ℕ → ℕ
expiry now ttl unit = u64 (now + u64 (ttl * unit))

abbrev pub error_result : ApplyResult
error_result = record { op = error; affected_rows = 0 }

abbrev pub rows : ℕ → ApplyResult
rows n = record { op = ok; affected_rows = n }

abbrev pub row : Bool → ApplyResult
row applied = rows (if applied then 1 else 0)

module _ (simple_atoi : Bytes → Option ℤ) (now : ℕ) where
  -- The loop over the options; `none` is a time to live that cannot be read.
  unfoldable pub parse_options : List Bytes → SetOptions → Option SetOptions
  parse_options [] so = some so
  parse_options (opt ∷ []) so = some (flag opt so)
  parse_options (opt ∷ next ∷ opts) so = elim (unit_ms opt) [
    | none ↦ parse_options (next ∷ opts) (flag opt so)
    | some unit ↦ elim (natural (simple_atoi next)) [
      | none ↦ none
      | some ttl ↦ parse_options opts (record so { expire_at_ms = expiry now ttl unit })
    ]
  ]

  module _ {S : Type 0} (ops : KvOps S) where
    abbrev pub row_of : S × Bool → S × ApplyResult
    row_of (s, applied) = (s, row applied)

    -- SET, behind its name
    unfoldable pub apply_set_args : List Bytes → S → S × ApplyResult
    apply_set_args (key ∷ val ∷ opts) s = elim (parse_options opts no_options) [
      | none ↦ (s, error_result)
      | some so ↦ row_of (ops.apply_set key val so.nx so.xx so.expire_at_ms s)
    ]
    apply_set_args _ s = (s, error_result)

    -- The loop of DEL; `n` is the `uint32_t deleted`.
    unfoldable pub delete_keys : List Bytes → ℕ → S → S × ApplyResult
    delete_keys [] n s = (s, rows n)
    delete_keys (key ∷ keys) n s =
        let (s', gone) = ops.del key s in delete_keys keys (if gone then (n + 1) % 2 ^ 32 else n) s'

    -- DEL, behind its name
    unfoldable pub apply_del_args : List Bytes → S → S × ApplyResult
    apply_del_args [] s = (s, error_result)
    apply_del_args (key ∷ keys) s = delete_keys (key ∷ keys) 0 s

    -- EXPIRE, behind its name
    unfoldable pub apply_expire_args : List Bytes → S → S × ApplyResult
    apply_expire_args (key ∷ seconds ∷ more) s = elim (natural (simple_atoi seconds)) [
      | none ↦ (s, error_result)
      | some n ↦ row_of (ops.expire key (expiry now n 1000) s)
    ]
    apply_expire_args _ s = (s, error_result)

    unfoldable pub apply_args : List Bytes → S → S × ApplyResult
    apply_args [] s = (s, error_result)
    apply_args (name ∷ args) s =
        if bytes_eq name (codes "SET")
        then apply_set_args args s
        else if bytes_eq name (codes "DEL")
        then apply_del_args args s
        else if bytes_eq name (codes "EXPIRE")
        then apply_expire_args args s
        else (s, error_result)

    -- `KvStateMachine::ApplyLogEntry`; what a refused parse has stored is used as well.
    unfoldable pub apply_log_entry : LogEntry → S → S × ApplyResult
    apply_log_entry entry s =
        let (parsed, args) = parse_resp_array entry.command in
        if parsed && is_empty args
        then (s, error_result)
        else apply_args (if is_empty args then split_spaces entry.command else args) s
