-- ===== src/Scenarios/Strings.antt =====
-- A string and a hard state that go through the file of server/raft/raft_storage.cc.
use maxredis.Base.{◌≡◌, refl, codes, to_string, stoull, bytes_eq, some, [], ◌∷◌, ◌++◌, Bytes, arith}
use maxredis.Raft.JsonText.{
  escape_json, parse_string, to_end_quote, unescape_json, unescape_loop, unescape_next,
  unescape_behind,
}
use maxredis.Raft.JsonText.Fields.{
  serialize, deserialize, parse_uint, parse_field, parse_voters, find_field, find_text, skip_blanks,
  strtoull, join_token, join_token_onto, insert_ids, split_commas,
}
use maxredis.Raft.ConfigCommand.{starts_with}
use maxredis.Raft.NodeSet
use maxredis.Raft.Storage.{HardState, fresh}
use maxredis.Raft.Types.{joint}
use maxredis.Scenarios.{n1, n2, n3}
use maxredis.Raft.JsonText.RoundTrip.{parse_string-escape_json}

-- A letter, a quote, a backslash, a line end and a control character.
abbrev special : Bytes
special = b'a' ∷ b'"' ∷ b'\\' ∷ 10 ∷ 1 ∷ []

parse_string-escape_json_example :
    parse_string (b'"' ∷ (escape_json special ++ b'"' ∷ b'}' ∷ [])) ≡ some special
parse_string-escape_json_example = parse_string-escape_json special (b'}' ∷ []) (
  (λ h. omega arith),
  ((λ h. omega arith), ((λ h. omega arith), ((λ h. omega arith), ((λ h. omega arith), tt)))),
)

-- A node in a joint configuration that voted for `n"2`.
abbrev voted : HardState
voted = record {
  current_term = 7;
  voted_for = 110 ∷ 34 ∷ 50 ∷ [];
  config_state = joint;
  joint_config = record {
    old_config = record { version = 3; voters = n1 ∷ n2 ∷ []; learners = [] };
    new_config = record { version = 4; voters = n3 ∷ []; learners = [] };
  };
}

-- The joint configuration in the order in which the set is rebuilt.
abbrev reread : HardState
reread = record voted {
  joint_config = record {
    old_config = record { version = 3; voters = n2 ∷ n1 ∷ []; learners = [] };
    new_config = record { version = 4; voters = n3 ∷ []; learners = [] };
  };
}

whole_file : deserialize (serialize voted) fresh ≡ reread
unfolding serialize deserialize parse_uint parse_field parse_voters find_field find_text skip_blanks
    starts_with to_string parse_string escape_json strtoull stoull join_token join_token_onto
    to_end_quote unescape_json insert_ids unescape_loop split_commas unescape_next unescape_behind
    NodeSet.insert bytes_eq
whole_file = refl

-- After a vote for an id that is the name of a field, the voters of the old configuration are not read.
abbrev named_as_field : HardState
named_as_field = record voted { voted_for = codes "joint_old_voters" }

old_voters_lost : (deserialize (serialize named_as_field) fresh).joint_config.old_config.voters ≡ []
unfolding serialize deserialize parse_field parse_voters find_field find_text skip_blanks
    starts_with to_string parse_string escape_json
old_voters_lost = refl
