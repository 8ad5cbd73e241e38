-- ===== src/Kv/DbSlice.antt =====
-- server/storage/db_slice.cc: the part of the store that one shard owns. `now` is what `NowMs()` gives.
-- The memory statistics, which nothing reads, are left out, and so is `Reserve` beyond `ActivateDb`.
pub mod Laws
use maxredis.Base.{
  ℕ, suc, Bool, true, false, not, ◌&&◌, Option, none, some, List, [], ◌∷◌, Bytes, leb, ◌==◌,
  if◌then◌else◌, length, get_elem?, set, resize,
}
use maxredis.Kv.MainTable
use maxredis.Kv.MainTable.{MainTable, MainValue, empty_value}

-- `db_arr_`: a database that was never activated has no table.
pub record DbSlice : Type 0 where
  pub db_arr : List (Option MainTable)

abbrev pub table_of : Option (Option MainTable) → MainTable
table_of (some (some t)) = t
table_of _ = []

-- `*db_arr_[db].main_table`, which the code uses only of a valid database.
abbrev pub table : DbSlice → ℕ → MainTable
table s db = table_of (get_elem? s.db_arr db)

abbrev pub put_table : DbSlice → ℕ → MainTable → DbSlice
put_table s db t = record { db_arr = set s.db_arr db (some t) }

abbrev pub valid_of : Option (Option MainTable) → Bool
valid_of (some (some t)) = true
valid_of _ = false

-- `IsDbValid`
unfoldable pub is_db_valid : DbSlice → ℕ → Bool
is_db_valid s db = valid_of (get_elem? s.db_arr db)

-- `DbSlice::DbSlice`
abbrev pub new : DbSlice
new = record { db_arr = some [] ∷ [] }

-- `ActivateDb` and `CreateDbRedis`
unfoldable pub activate_db : DbSlice → ℕ → DbSlice
activate_db s db =
    let arr = if leb (length s.db_arr) db then resize (suc db) none s.db_arr else s.db_arr in
    let grown : DbSlice = record { db_arr = arr } in
    if is_db_valid grown db then grown else put_table grown db []

abbrev pub is_expired : ℕ → MainValue → Bool
is_expired now v = not (v.expire_ms == 0) && leb v.expire_ms now

-- `DbSlice::Find`: an expired entry is erased and not found.
unfoldable pub find : ℕ → DbSlice → ℕ → Bytes → DbSlice × Option MainValue
find now s db key = elim (MainTable.find key (table s db)) [
  | none ↦ (s, none)
  | some v ↦
      if is_expired now v
      then (put_table s db (MainTable.erase key (table s db)), none)
      else (s, some v)
]

-- `DbSlice::AddOrFind`: an expired entry is replaced by a new one.
unfoldable pub add_or_find : ℕ → DbSlice → ℕ → Bytes → DbSlice × Bool
add_or_find now s db key =
    let t = table s db in
    let (added, fresh) = MainTable.emplace key empty_value t in
    let again = (MainTable.emplace key empty_value (MainTable.erase key t)).0 in
    if fresh then (put_table s db added, true) else elim (MainTable.find key t) [
      | none ↦ (s, false)
      | some v ↦ if is_expired now v then (put_table s db again, true) else (s, false)
    ]

-- `DbSlice::Del`
unfoldable pub del : DbSlice → ℕ → Bytes → DbSlice × Bool
del s db key = elim (MainTable.find key (table s db)) [
  | none ↦ (s, false)
  | some v ↦ (put_table s db (MainTable.erase key (table s db)), true)
]

-- `DbSlice::SetExpire`; true stands for `OpStatus::OK`, false for `KEY_NOTFOUND`.
unfoldable pub set_expire : DbSlice → ℕ → Bytes → ℕ → DbSlice × Bool
set_expire s db key at = elim (MainTable.find key (table s db)) [
  | none ↦ (s, false)
  | some v ↦ (put_table s db (MainTable.set_expire_ms key at (table s db)), true)
]

-- `it->second.value = val` with the iterator of `key`
unfoldable pub write_value : DbSlice → ℕ → Bytes → Bytes → DbSlice
write_value s db key val = put_table s db (MainTable.set_value key val (table s db))

-- `DbSlice::AddIfNotExist`
unfoldable pub add_if_not_exist : DbSlice → ℕ → Bytes → MainValue → ℕ → DbSlice × Bool
add_if_not_exist s db key obj at =
    let (added, fresh) = MainTable.emplace key obj (table s db) in
    if not fresh
    then (s, false)
    else if at == 0
    then (put_table s db added, true)
    else (put_table s db (MainTable.set_expire_ms key at added), true)

-- `DbSlice::DbSize`
unfoldable pub db_size : DbSlice → ℕ → ℕ
db_size s db = length (table s db)
