-- ===== src/Raft/ConfigCommand.antt =====
-- `ConfigChangeCommand` of server/raft/command_encoder.cc: the log entry of a membership change.
pub mod RoundTrip
use maxredis.Base.{
  ℕ, zero, suc, Bool, true, false, ◌&&◌, Option, none, some, [], ◌∷◌, ◌++◌, Bytes, codes, is_empty,
  length, ◌==◌, if◌then◌else◌, to_string, stoull,
}
use maxredis.Raft.Types.{NodeSet, ClusterConfig}
use maxredis.Raft.NodeSet

abbrev pub keyword : Bytes
keyword = codes "CONFIG_CHANGE"

-- ` ` in front of each id
unfoldable pub join_ids : NodeSet → Bytes
join_ids [] = []
join_ids (v ∷ vs) = 32 ∷ v ++ join_ids vs

-- `ConfigChangeCommand::Serialize`
unfoldable pub serialize : ClusterConfig → Bytes
unfolding join_ids to_string
serialize c =
    codes "CONFIG_CHANGE "
    ++ (to_string c.version
        ++ (32
            ∷ (to_string (length c.voters)
                ++ (join_ids c.voters
                    ++ (32 ∷ (to_string (length c.learners) ++ join_ids c.learners))))))

-- The lambda `next_token`: the text up to the next space, and what follows that space.
unfoldable pub next_token : Bytes → Bytes × Bytes
next_token [] = ([], [])
next_token (c ∷ cs) =
    let (tok, rest) = next_token cs in if c == 32 then ([], cs) else (c ∷ tok, rest)

-- `count` more ids into `ids`.
unfoldable pub read_ids : ℕ → NodeSet → Bytes → NodeSet × Bytes
unfolding next_token NodeSet.insert
read_ids zero ids text = (ids, text)
read_ids (suc count) ids text =
    let (tok, rest) = next_token text in
    read_ids count (if is_empty tok then ids else NodeSet.insert tok ids) rest

-- A number and as many ids; a missing number leaves the set empty, and one that cannot be read is
-- an exception.
unfoldable pub read_set : Bytes → Option (NodeSet × Bytes)
unfolding next_token read_ids stoull
read_set text =
    let (tok, rest) = next_token text in
    if is_empty tok
    then some ([], rest)
    else elim (stoull tok) [ none ↦ none | some count ↦ some (read_ids count [] rest) ]

unfoldable pub read_version : Bytes → Option (ℕ × Bytes)
unfolding next_token stoull
read_version text =
    let (tok, rest) = next_token text in
    if is_empty tok
    then some (0, rest)
    else elim (stoull tok) [ none ↦ none | some v ↦ some (v, rest) ]

unfoldable pub read_learners : ℕ → NodeSet → Option (NodeSet × Bytes) → Option ClusterConfig
read_learners v voters none = none
read_learners v voters (some (learners, rest)) =
    some (record { version = v; voters = voters; learners = learners })

unfoldable pub read_voters : ℕ → Option (NodeSet × Bytes) → Option ClusterConfig
unfolding read_set read_learners
read_voters v none = none
read_voters v (some (voters, rest)) = read_learners v voters (read_set rest)

unfoldable pub read_body : Option (ℕ × Bytes) → Option ClusterConfig
unfolding read_set read_voters
read_body none = none
read_body (some (v, rest)) = read_voters v (read_set rest)

-- `ConfigChangeCommand::Deserialize`; `none` is an exception of `std::stoull` or `std::stoul`.
unfoldable pub deserialize : Bytes → Option ClusterConfig
unfolding next_token read_version read_body
deserialize text = read_body (read_version (next_token text).1)

-- `data.find(prefix) == 0`
unfoldable pub starts_with : Bytes → Bytes → Bool
starts_with [] text = true
starts_with (p ∷ ps) [] = false
starts_with (p ∷ ps) (c ∷ cs) = (p == c) && starts_with ps cs
