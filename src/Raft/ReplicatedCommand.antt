-- ===== src/Raft/ReplicatedCommand.antt =====
-- `ReplicatedCommand` and `CommandEncoder` of server/raft/command_encoder.cc: a client's write as it
-- stands in the log. Of a `CommandId` they read the name and the mask of options.
pub mod RoundTrip
use Prim.Native.Nat.{bit_and}
use maxredis.Base.{
  ℕ, Bool, true, false, not, Option, none, some, List, [], ◌∷◌, ◌++◌, Bytes, codes, bytes_eq, ◌==◌,
  if◌then◌else◌,
}
use maxredis.Raft.RespArray.{encode_resp_array, parse_resp_array}

pub data CommandType : Type 0 where
  set del expire config_change : CommandType

pub record ReplicatedCommand : Type 0 where
  pub command_type : CommandType  -- `type`
  pub args : List Bytes

-- `ReplicatedCommand::Serialize`
unfoldable pub serialize : ReplicatedCommand → Bytes
serialize cmd = encode_resp_array cmd.args

abbrev cons_head : ℕ → List Bytes → List Bytes
cons_head c [] = (c ∷ []) ∷ []
cons_head c (w ∷ ws) = (c ∷ w) ∷ ws

-- The legacy format: the text between spaces; a space at the end adds no word.
unfoldable pub split_spaces : Bytes → List Bytes
split_spaces [] = []
split_spaces (c ∷ cs) =
    let rest = split_spaces cs in if c == 32 then [] ∷ rest else cons_head c rest

-- The type that the name of the command asks for.
unfoldable pub type_of_name : Bytes → CommandType
type_of_name name =
    if bytes_eq name (codes "SET")
    then set
    else if bytes_eq name (codes "DEL")
    then del
    else if bytes_eq name (codes "EXPIRE")
    then expire
    else if bytes_eq name (codes "CONFIG_CHANGE")
    then config_change
    else set

abbrev type_of_args : List Bytes → CommandType
type_of_args [] = set
type_of_args (name ∷ args) = type_of_name name

-- The arguments of a text; where it is not an array, its words follow what the parser stored.
unfoldable pub args_of_text : Bytes → List Bytes
args_of_text text =
    let (parsed, out) = parse_resp_array text in if parsed then out else out ++ split_spaces text

-- `ReplicatedCommand::Deserialize`
unfoldable pub deserialize : Bytes → ReplicatedCommand
deserialize text =
    let args = args_of_text text in record { command_type = type_of_args args; args = args }

-- `CommandId`, the fields that are read here
pub record CommandId : Type 0 where
  pub name : Bytes
  pub opt_mask : ℕ

-- `CommandEncoder::IsWriteCommand`: `CO::WRITE` is 4.
abbrev pub is_write_command : CommandId → Bool
is_write_command cid = not (bit_and cid.opt_mask 4 == 0)

-- `CommandEncoder::Encode`
unfoldable pub encode : CommandId → List Bytes → Option ReplicatedCommand
encode cid args =
    if not (is_write_command cid)
    then none
    else if bytes_eq cid.name (codes "SET")
    then some (record { command_type = set; args = args })
    else if bytes_eq cid.name (codes "DEL")
    then some (record { command_type = del; args = args })
    else if bytes_eq cid.name (codes "EXPIRE")
    then some (record { command_type = expire; args = args })
    else none
