-- ===== src/Scenarios/Commands.antt =====
-- Commands on their way into the log and out of it.
use maxredis.Base.{
  ℕ, ◌<◌, ◌≡◌, refl, true, Option, none, some, List, [], ◌∷◌, ◌++◌, arith, Bytes, codes, length,
  u64_mod, stoull, bytes_eq, to_string, emit, if◌then◌else◌,
}
use maxredis.Raft.Types.{LogEntry}
use maxredis.Raft.RespArray.{
  encode_arg, encode_args, encode_count, encode_resp_array, parse_resp_array,
}
use maxredis.Raft.RespArray.RoundTrip.{parse-encode_resp_array}
use maxredis.Raft.ReplicatedCommand.{
  ReplicatedCommand, CommandId, encode, serialize, deserialize, set,
}
use maxredis.Raft.ReplicatedCommand.RoundTrip.{deserialize-serialize_command}
use maxredis.Kv.Command.{ℤ, pos, apply_log_entry, apply_args}
use maxredis.Kv.Machine
use maxredis.Kv.Machine.{Kv, kv_ops, get}
use maxredis.Kv.DbSlice.{is_expired}
use maxredis.Kv.Machine.Refine.{IsValid, view, new-IsValid}
use maxredis.Kv.Machine.Entries.{apply_log_entry_refines, apply_entries, replicas_agree}
use maxredis.Kv.Machine.Clients.{apply_cut_entry, get_after_set}
use maxredis.Kv.Spec.{spec_ops, live, or_empty}

abbrev set_name : Bytes
set_name = codes "SET"

abbrev key : Bytes
key = codes "k"

abbrev val : Bytes
val = 13 ∷ 10 ∷ 32 ∷ []

abbrev set_args : List Bytes
set_args = set_name ∷ key ∷ val ∷ []

abbrev set_cid : CommandId
set_cid = record { name = set_name; opt_mask = 4 }

abbrev set_command : ReplicatedCommand
set_command = record { command_type = set; args = set_args }

set_size : length (encode_resp_array set_args) < u64_mod
unfolding encode_resp_array encode_count encode_args encode_arg to_string emit
set_size = omega arith

parse-encode_resp_array_example : parse_resp_array (encode_resp_array set_args) ≡ (true, set_args)
parse-encode_resp_array_example = parse-encode_resp_array set_args set_size

deserialize-serialize_command_example : deserialize (serialize set_command) ≡ set_command
unfolding encode serialize bytes_eq
deserialize-serialize_command_example =
    deserialize-serialize_command set_cid (key ∷ val ∷ []) set_command refl set_size

-- Decimal numbers, and stores of two and of three shards.
abbrev pub atoi : Bytes → Option ℤ
atoi text = elim (stoull text) [ none ↦ none | some n ↦ some (pos n) ]

abbrev pub two_shards : Kv
two_shards = Machine.new 2

abbrev pub three_shards : Kv
three_shards = Machine.new 3

abbrev pub by_length : Bytes → ℕ
by_length k = length k

abbrev pub by_zero : Bytes → ℕ
by_zero k = 0

abbrev pub set_entry : LogEntry
set_entry = record { term = 1; index = 1; command = encode_resp_array set_args }

apply_log_entry_refines_example :
    let after = apply_log_entry atoi 5 (kv_ops by_length 5) set_entry two_shards in
    IsValid by_length after.0
    × ((view by_length after.0, after.1)
        ≡ apply_log_entry atoi 5 (spec_ops 5) set_entry (view by_length two_shards))
apply_log_entry_refines_example =
    apply_log_entry_refines by_length atoi 5 set_entry two_shards (new-IsValid by_length 2)

replicas_agree_example :
    let after = apply_entries atoi (kv_ops by_length) ((5, set_entry) ∷ []) two_shards in
    let after' = apply_entries atoi (kv_ops by_zero) ((5, set_entry) ∷ []) three_shards in
    (view by_length after.0 ≡ view by_zero after'.0) × (after.1 ≡ after'.1)
replicas_agree_example =
    replicas_agree atoi by_length by_zero ((5, set_entry) ∷ []) two_shards three_shards
      (new-IsValid by_length 2) (new-IsValid by_zero 3) refl

get_after_set_example :
    let after = (apply_log_entry atoi 5 (kv_ops by_length 5) set_entry two_shards).0 in
    ((get by_length 9 0 key after).1 ≡ (
      if is_expired 9 (or_empty (live 5 (view by_length two_shards key))) then none else some val))
    × ((get by_length 9 0 val after).1 ≡ (get by_length 9 0 val two_shards).1)
get_after_set_example =
    get_after_set by_length atoi 5 9 key val val set_entry two_shards (new-IsValid by_length 2)
      set_size refl (λ e. ground (arith, e))

-- DEL of two keys, cut behind the first.
abbrev del_cut : LogEntry
del_cut = record {
  term = 1;
  index = 1;
  command = encode_count 3 ++ encode_args (codes "DEL" ∷ key ∷ []);
}

del_size : length (encode_resp_array (codes "DEL" ∷ key ∷ val ∷ [])) < u64_mod
unfolding encode_resp_array encode_count encode_args encode_arg to_string emit
del_size = omega arith

apply_cut_entry_example :
    apply_log_entry atoi 5 (kv_ops by_length 5) del_cut two_shards
    ≡ apply_args atoi 5 (kv_ops by_length 5) (codes "DEL" ∷ key ∷ []) two_shards
apply_cut_entry_example =
    apply_cut_entry atoi 5 (kv_ops by_length 5) (codes "DEL") (key ∷ []) val [] del_cut two_shards
      del_size refl
