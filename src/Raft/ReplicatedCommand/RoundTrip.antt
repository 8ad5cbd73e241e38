-- ===== src/Raft/ReplicatedCommand/RoundTrip.antt =====
-- A client's command comes back from the log entry that it was encoded into.
use maxredis.Base.{ℕ, ◌<◌, ◌≡◌, refl, sym, ◌∙◌, some, List, ◌∷◌, arith, Bytes, length, u64_mod}
use maxredis.Raft.RespArray.{encode_resp_array}
use maxredis.Raft.RespArray.RoundTrip.{parse-encode_resp_array}
use maxredis.Raft.ReplicatedCommand.{
  CommandType, ReplicatedCommand, CommandId, serialize, deserialize, encode, args_of_text,
  type_of_name,
}

args_of_text-encode :
    (args : List Bytes)
    → length (encode_resp_array args) < u64_mod
    → args_of_text (encode_resp_array args) ≡ args
unfolding args_of_text
args_of_text-encode args h = ground (arith, parse-encode_resp_array args h)

type_of_encode :
    (name : Bytes) (mask : ℕ) (args : List Bytes) (cmd : ReplicatedCommand)
    → encode (record { name = name; opt_mask = mask }) args ≡ some cmd
    → (cmd.command_type ≡ type_of_name name) × (cmd.args ≡ args)
unfolding encode type_of_name
type_of_encode name mask args cmd h = ground arith

deserialize_named :
    (text name : Bytes) (args : List Bytes)
    → args_of_text text ≡ name ∷ args
    → deserialize text ≡ record { command_type = type_of_name name; args = name ∷ args }
unfolding deserialize
deserialize_named text name args h = rw h refl

named_command :
    (cmd : ReplicatedCommand) {t : CommandType} (args : List Bytes)
    → t ≡ cmd.command_type
    → args ≡ cmd.args
    → record { command_type = t; args = args } ≡ cmd
named_command cmd args p q = rw (p, q) refl

-- A command that `Encode` accepts, whose first argument is its name and whose entry is shorter than
-- 2^64 bytes, is what `Deserialize` makes of its `Serialize`: the type and every argument, whatever
-- bytes they hold.
pub deserialize-serialize_command :
    (cid : CommandId) (args : List Bytes) (cmd : ReplicatedCommand)
    → encode cid (cid.name ∷ args) ≡ some cmd
    → length (serialize cmd) < u64_mod
    → deserialize (serialize cmd) ≡ cmd
unfolding serialize
deserialize-serialize_command cid args cmd e h =
    let (kind, same) = type_of_encode cid.name cid.opt_mask (cid.name ∷ args) cmd e in
    let read = args_of_text-encode cmd.args h in
    deserialize_named (serialize cmd) cid.name args (read ∙ same)
    ∙ named_command cmd (cid.name ∷ args) (sym kind) (sym same)
