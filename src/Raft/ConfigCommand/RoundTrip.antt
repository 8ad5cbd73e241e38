-- ===== src/Raft/ConfigCommand/RoundTrip.antt =====
-- A configuration that is serialized into a log entry and read back.
use maxredis.Base.{
  ℕ, suc, ◌<◌, ◌≡◌, refl, ap, ◌∙◌, false, ◌||◌, some, [], ◌∷◌, ◌++◌, arith, Bytes, is_empty, length,
  bytes_eq, bytes_eq_iff, to_string, u64_mod, NoSpace, to_string-NoSpace, is_empty-to_string,
  stoull-to_string,
}
use maxredis.Raft.Types.{NodeId, NodeSet, ClusterConfig}
use maxredis.Raft.NodeSet
use maxredis.Raft.ConfigCommand.{
  join_ids, serialize, next_token, read_ids, read_set, read_version, read_learners, read_voters,
  read_body, deserialize,
}
use mathlib.Core.List.{append-nil, append_assoc}

-- Ids that are not empty and hold no space.
abbrev pub AreTokens : NodeSet → Type 0
AreTokens [] = Unit
AreTokens (v ∷ vs) = (is_empty v ≡ false) × NoSpace v × AreTokens vs

-- Two sets with the same members.
abbrev pub SameMembers : NodeSet → NodeSet → Type 0
SameMembers a b = (id : NodeId) → NodeSet.contains id a ≡ NodeSet.contains id b

abbrev insert_all : NodeSet → NodeSet → NodeSet
insert_all ids [] = ids
insert_all ids (v ∷ vs) = insert_all (NodeSet.insert v ids) vs

contains-insert :
    (id v : NodeId) (ids : NodeSet)
    → NodeSet.contains id (NodeSet.insert v ids) ≡ (bytes_eq v id || NodeSet.contains id ids)
unfolding NodeSet.insert NodeSet.contains
contains-insert id v ids = ground (arith, bytes_eq_iff v id)

contains-insert_all :
    (id : NodeId) (ids vs : NodeSet)
    → NodeSet.contains id (insert_all ids vs) ≡ (NodeSet.contains id vs || NodeSet.contains id ids)
unfolding NodeSet.contains
contains-insert_all id ids [] = refl
contains-insert_all id ids (v ∷ vs) =
    ground (arith, contains-insert id v ids, contains-insert_all id (NodeSet.insert v ids) vs)

insert_all-SameMembers : (vs : NodeSet) → SameMembers (insert_all [] vs) vs
unfolding NodeSet.contains
insert_all-SameMembers vs id = ground (arith, contains-insert_all id [] vs)

token_before_space : (s rest : Bytes) → NoSpace s → next_token (s ++ 32 ∷ rest) ≡ (s, rest)
unfolding next_token
token_before_space [] rest h = refl
token_before_space (c ∷ cs) rest h = ground (arith, h.0, token_before_space cs rest h.1)

token_at_end : (s : Bytes) → NoSpace s → next_token s ≡ (s, [])
unfolding next_token
token_at_end [] h = refl
token_at_end (c ∷ cs) h = ground (arith, h.0, token_at_end cs h.1)

-- What stands between the space in front of the ids and `rest`, if a space separates them.
abbrev ids_then : NodeSet → Bytes → Bytes
ids_then [] rest = rest
ids_then (v ∷ vs) rest = v ++ 32 ∷ ids_then vs rest

join_ids-then : (vs : NodeSet) (rest : Bytes) → join_ids vs ++ 32 ∷ rest ≡ 32 ∷ ids_then vs rest
unfolding join_ids
join_ids-then [] rest = refl
join_ids-then (v ∷ vs) rest =
    ap (λ z. 32 ∷ z)
      (append_assoc v (join_ids vs) (32 ∷ rest) ∙ ap (λ z. v ++ z) (join_ids-then vs rest))

read_one :
    (count : ℕ) (ids : NodeSet) (text v rest : Bytes)
    → next_token text ≡ (v, rest)
    → is_empty v ≡ false
    → read_ids (suc count) ids text ≡ read_ids count (NodeSet.insert v ids) rest
unfolding read_ids
read_one count ids text v rest t full = ground arith

read_ids-then :
    (vs ids : NodeSet) (rest : Bytes)
    → AreTokens vs
    → read_ids (length vs) ids (ids_then vs rest) ≡ (insert_all ids vs, rest)
unfolding read_ids
read_ids-then [] ids rest h = refl
read_ids-then (v ∷ vs) ids rest (full, plain, h) =
    read_one (length vs) ids (v ++ 32 ∷ ids_then vs rest) v (ids_then vs rest)
      (token_before_space v (ids_then vs rest) plain) full
    ∙ read_ids-then vs (NodeSet.insert v ids) rest h

-- The ids at the end of the text, behind the space in front of them.
abbrev last_ids : NodeSet → Bytes
last_ids [] = []
last_ids (v ∷ vs) = v ++ join_ids vs

next_last :
    (v : NodeId) (vs : NodeSet) → NoSpace v → next_token (v ++ join_ids vs) ≡ (v, last_ids vs)
unfolding join_ids
next_last v [] h = ap next_token (append-nil v) ∙ token_at_end v h
next_last v (w ∷ vs) h = token_before_space v (w ++ join_ids vs) h

read_ids-last :
    (vs ids : NodeSet)
    → AreTokens vs
    → read_ids (length vs) ids (last_ids vs) ≡ (insert_all ids vs, [])
unfolding read_ids
read_ids-last [] ids h = refl
read_ids-last (v ∷ vs) ids (full, plain, h) =
    read_one (length vs) ids (v ++ join_ids vs) v (last_ids vs) (next_last v vs plain) full
    ∙ read_ids-last vs (NodeSet.insert v ids) h

read_set-ids :
    (text rest : Bytes) (n : ℕ)
    → n < u64_mod
    → next_token text ≡ (to_string n, rest)
    → read_set text ≡ some (read_ids n [] rest)
unfolding read_set
read_set-ids text rest n h t = ground (arith, is_empty-to_string n, stoull-to_string n h)

read_version-text :
    (text rest : Bytes) (n : ℕ)
    → n < u64_mod
    → next_token text ≡ (to_string n, rest)
    → read_version text ≡ some (n, rest)
unfolding read_version
read_version-text text rest n h t = ground (arith, is_empty-to_string n, stoull-to_string n h)

-- The text of a configuration behind the keyword, behind the version, and behind the voters.
abbrev learners_text : ClusterConfig → Bytes
learners_text c = to_string (length c.learners) ++ join_ids c.learners

abbrev voters_text : ClusterConfig → Bytes
voters_text c = to_string (length c.voters) ++ (join_ids c.voters ++ 32 ∷ learners_text c)

abbrev version_text : ClusterConfig → Bytes
version_text c = to_string c.version ++ 32 ∷ voters_text c

serialized : (c : ClusterConfig) → (next_token (serialize c)).1 ≡ version_text c
unfolding serialize next_token
serialized c = refl

read_voters_text :
    (c : ClusterConfig)
    → length c.voters < u64_mod
    → AreTokens c.voters
    → read_set (voters_text c) ≡ some (insert_all [] c.voters, learners_text c)
read_voters_text c h t =
    let text =
      ap (λ z. to_string (length c.voters) ++ z) (join_ids-then c.voters (learners_text c)) in
    ap read_set text
    ∙ read_set-ids (to_string (length c.voters) ++ 32 ∷ ids_then c.voters (learners_text c))
        (ids_then c.voters (learners_text c)) (length c.voters) h
        (token_before_space (to_string (length c.voters)) (ids_then c.voters (learners_text c))
          (to_string-NoSpace (length c.voters)))
    ∙ ap some (read_ids-then c.voters [] (learners_text c) t)

read_learners_text :
    (c : ClusterConfig)
    → length c.learners < u64_mod
    → AreTokens c.learners
    → read_set (learners_text c) ≡ some (insert_all [] c.learners, [])
read_learners_text c h t =
    read_set-ids (learners_text c) (last_ids c.learners) (length c.learners) h
      (next_last (to_string (length c.learners)) c.learners (to_string-NoSpace (length c.learners)))
    ∙ ap some (read_ids-last c.learners [] t)

read_all :
    (c : ClusterConfig)
    → c.version < u64_mod
    → length c.voters < u64_mod
    → length c.learners < u64_mod
    → AreTokens c.voters
    → AreTokens c.learners
    → deserialize (serialize c)
      ≡ some (record {
        version = c.version;
        voters = insert_all [] c.voters;
        learners = insert_all [] c.learners;
      })
unfolding deserialize read_body read_voters read_learners
read_all c vh h k t u =
    let head = ap (λ z. read_body (read_version z)) (serialized c) in
    let version =
      read_version-text (version_text c) (voters_text c) c.version vh
        (token_before_space (to_string c.version) (voters_text c) (to_string-NoSpace c.version)) in
    head
    ∙ ap read_body version
    ∙ ap (read_voters c.version) (read_voters_text c h t)
    ∙ ap (read_learners c.version (insert_all [] c.voters)) (read_learners_text c k u)

-- A configuration whose ids are not empty and hold no space, and whose numbers fit 64 bits, is read
-- back from its log entry: the version is the same, and the sets have the same members.
pub deserialize-serialize :
    (c : ClusterConfig)
    → c.version < u64_mod
    → length c.voters < u64_mod
    → length c.learners < u64_mod
    → AreTokens c.voters
    → AreTokens c.learners
    → (d : ClusterConfig) × (deserialize (serialize c) ≡ some d)
      × (d.version ≡ c.version)
      × SameMembers d.voters c.voters
      × SameMembers d.learners c.learners
deserialize-serialize c vh h k t u = (
  record {
    version = c.version;
    voters = insert_all [] c.voters;
    learners = insert_all [] c.learners;
  },
  read_all c vh h k t u,
  refl,
  insert_all-SameMembers c.voters,
  insert_all-SameMembers c.learners,
)
