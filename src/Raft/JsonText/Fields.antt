-- ===== src/Raft/JsonText/Fields.antt =====
-- The whole file of server/raft/raft_storage.cc: `Serialize`, and `Deserialize` with the fields that it
-- looks for. What it answers is always true.
use maxredis.Base.{
  ℕ, Bool, false, Option, none, some, List, [], ◌∷◌, ◌++◌, ◌-◌, Bytes, codes, is_empty, ◌==◌, ◌||◌,
  if◌then◌else◌, is_digit, skip_spaces, stoull, to_string, u64_mod,
}
use maxredis.Raft.Types.{NodeId, NodeSet, ConfigState, stable, joint}
use maxredis.Raft.NodeSet
use maxredis.Raft.Storage.{HardState}
use maxredis.Raft.ConfigCommand.{starts_with}
use maxredis.Raft.JsonText.{escape_json, unescape_json, parse_string}

-- `JoinToken`: a comma in front of each id that follows some text.
unfoldable pub join_token_onto : Bytes → NodeSet → Bytes
join_token_onto result [] = result
join_token_onto result (id ∷ ids) =
    join_token_onto ((if is_empty result then result else result ++ b',' ∷ []) ++ escape_json id)
      ids

unfoldable pub join_token : NodeSet → Bytes
join_token set = join_token_onto [] set

abbrev pub state_number : ConfigState → ℕ
state_number stable = 0
state_number joint = 1

-- `RaftStorage::Serialize`
unfoldable pub serialize : HardState → Bytes
serialize s =
    codes "{\"current_term\":"
    ++ (to_string s.current_term
        ++ (codes ",\"voted_for\":\""
            ++ (escape_json s.voted_for
                ++ (codes "\""
                    ++ (codes ",\"config_state\":"
                        ++ (to_string (state_number s.config_state)
                            ++ (codes ",\"joint_old_voters\":\""
                                ++ (join_token s.joint_config.old_config.voters
                                    ++ (codes "\""
                                        ++ (codes ",\"joint_new_voters\":\""
                                            ++ (join_token s.joint_config.new_config.voters
                                                ++ (codes "\""
                                                    ++ (codes ",\"joint_old_version\":"
                                                        ++ (to_string
                                                            s.joint_config.old_config.version
                                                            ++ (codes ",\"joint_new_version\":"
                                                            ++ (to_string
                                                            s.joint_config.new_config.version
                                                            ++ codes "}\n"))))))))))))))))

-- `data.find(needle)`: the text from there on.
unfoldable pub find_text : Bytes → Bytes → Option Bytes
find_text needle [] = none
find_text needle (c ∷ cs) =
    let later = find_text needle cs in if starts_with needle (c ∷ cs) then some (c ∷ cs) else later

unfoldable pub skip_blanks : Bytes → Bytes
skip_blanks [] = []
skip_blanks (c ∷ cs) = let rest = skip_blanks cs in if (c == 32) || (c == 9) then rest else c ∷ cs

abbrev pub behind_colon : Option Bytes → Option Bytes
behind_colon none = none
behind_colon (some []) = none
behind_colon (some (c ∷ cs)) = some (skip_blanks cs)

-- The lambda `find_field`: the text from the value on.
unfoldable pub find_field : Bytes → Bytes → Option Bytes
find_field name file = elim (find_text (b'"' ∷ (name ++ b'"' ∷ [])) file) [
  | none ↦ none
  | some from ↦ behind_colon (find_text (b':' ∷ []) from)
]

abbrev starts_with_digit : Bytes → Bool
starts_with_digit [] = false
starts_with_digit (c ∷ cs) = is_digit c

abbrev behind_sign : Bytes → Bytes
behind_sign [] = []
behind_sign (c ∷ cs) = if (c == b'-') || (c == b'+') then cs else c ∷ cs

-- `strtoull`: as `stoull`, but a number that is too large gives the greatest one.
unfoldable pub strtoull : Bytes → Option ℕ
strtoull text = elim (stoull text) [
  | none ↦ if starts_with_digit (behind_sign (skip_spaces text)) then some (u64_mod - 1) else none
  | some v ↦ some v
]

-- The lambda `parse_uint`, with what its variable holds if nothing is read.
unfoldable pub parse_uint : Bytes → Bytes → ℕ → ℕ
parse_uint name file old = elim (find_field name file) [
  | none ↦ old
  | some text ↦ elim (strtoull text) [ none ↦ old | some v ↦ v ]
]

unfoldable pub parse_field : Bytes → Bytes → Option Bytes
parse_field name file = elim (find_field name file) [ none ↦ none | some text ↦ parse_string text ]

abbrev parse_id : Bytes → Bytes → NodeId → NodeId
parse_id name file old = elim (parse_field name file) [ none ↦ old | some s ↦ s ]

-- What the commas of a text separate.
abbrev onto_first : ℕ → List Bytes → List Bytes
onto_first c [] = (c ∷ []) ∷ []
onto_first c (part ∷ parts) = (c ∷ part) ∷ parts

unfoldable pub split_commas : Bytes → List Bytes
split_commas [] = [] ∷ []
split_commas (c ∷ cs) =
    let rest = split_commas cs in if c == b',' then [] ∷ rest else onto_first c rest

-- The loop of `parse_voters`; each id is unescaped once more.
unfoldable pub insert_ids : List Bytes → NodeSet → NodeSet
insert_ids [] out = out
insert_ids (part ∷ parts) out =
    insert_ids parts (if is_empty part then out else NodeSet.insert (unescape_json part) out)

-- The lambda `parse_voters`
unfoldable pub parse_voters : Bytes → Bytes → NodeSet → NodeSet
parse_voters name file out = elim (parse_field name file) [
  | none ↦ out
  | some s ↦ insert_ids (split_commas s) out
]

abbrev pub state_of : ℕ → ConfigState
state_of v = if v == 0 then stable else joint

-- `RaftStorage::Deserialize`, into the fields of `old`; the learners are not in the text.
unfoldable pub deserialize : Bytes → HardState → HardState
deserialize file old =
    let old_config = old.joint_config.old_config in
    let new_config = old.joint_config.new_config in
    record {
      current_term = parse_uint (codes "current_term") file old.current_term;
      voted_for = parse_id (codes "voted_for") file old.voted_for;
      config_state =
          state_of (parse_uint (codes "config_state") file (state_number old.config_state));
      joint_config = record {
        old_config = record old_config {
          version = parse_uint (codes "joint_old_version") file old_config.version;
          voters = parse_voters (codes "joint_old_voters") file old_config.voters;
        };
        new_config = record new_config {
          version = parse_uint (codes "joint_new_version") file new_config.version;
          voters = parse_voters (codes "joint_new_voters") file new_config.voters;
        };
      };
    }
