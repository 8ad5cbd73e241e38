-- ===== src/Kv/MainTable.antt =====
-- `MainTable` of server/storage/common_types.h, a hash map from keys to values, as a list of pairs: its
-- order stands for the unspecified order of iteration. An iterator is the key that it points at.
pub mod Keys
use maxredis.Base.{
  ℕ, ◌≡◌, Bool, true, false, Option, none, some, List, [], ◌∷◌, ◌++◌, arith, Bytes, bytes_eq,
  bytes_eq_iff, if◌then◌else◌,
}

-- `PrimeValue`
pub record MainValue : Type 0 where
  pub value : Bytes
  pub expire_ms : ℕ

-- `MainValue{}`
abbrev pub empty_value : MainValue
empty_value = record { value = []; expire_ms = 0 }

abbrev pub MainTable : Type 0
MainTable = List (Bytes × MainValue)

unfoldable pub find : Bytes → MainTable → Option MainValue
find k [] = none
find k ((j, v) ∷ t) = let rest = find k t in if bytes_eq j k then some v else rest

unfoldable pub erase : Bytes → MainTable → MainTable
erase k [] = []
erase k ((j, v) ∷ t) = let rest = erase k t in if bytes_eq j k then rest else (j, v) ∷ rest

-- `emplace`: an entry that exists stays as it is; true if there was none.
unfoldable pub emplace : Bytes → MainValue → MainTable → MainTable × Bool
emplace k v t = elim (find k t) [ none ↦ (t ++ (k, v) ∷ [], true) | some w ↦ (t, false) ]

-- Writes through an iterator.
unfoldable pub set_value : Bytes → Bytes → MainTable → MainTable
set_value k val [] = []
set_value k val ((j, v) ∷ t) =
    let rest = set_value k val t in
    if bytes_eq j k then (j, record v { value = val }) ∷ rest else (j, v) ∷ rest

unfoldable pub set_expire_ms : Bytes → ℕ → MainTable → MainTable
set_expire_ms k at [] = []
set_expire_ms k at ((j, v) ∷ t) =
    let rest = set_expire_ms k at t in
    if bytes_eq j k then (j, record v { expire_ms = at }) ∷ rest else (j, v) ∷ rest

abbrev pub with_value : Bytes → Option MainValue → Option MainValue
with_value val none = none
with_value val (some v) = some (record v { value = val })

abbrev pub with_expire_ms : ℕ → Option MainValue → Option MainValue
with_expire_ms at none = none
with_expire_ms at (some v) = some (record v { expire_ms = at })

pub find-erase :
    (k j : Bytes) (t : MainTable) → find j (erase k t) ≡ (if bytes_eq k j then none else find j t)
unfolding find erase
find-erase k j [] = ground arith
find-erase k j ((i, v) ∷ t) =
    ground (arith, find-erase k j t, bytes_eq_iff i k, bytes_eq_iff i j, bytes_eq_iff k j)

find-append :
    (k j : Bytes) (v : MainValue) (t : MainTable)
    → find k t ≡ none
    → find j (t ++ (k, v) ∷ []) ≡ (if bytes_eq k j then some v else find j t)
unfolding find
find-append k j v [] h = ground arith
find-append k j v ((i, w) ∷ t) h =
    ground (arith, find-append k j v t, bytes_eq_iff i k, bytes_eq_iff i j, bytes_eq_iff k j)

pub find-emplace :
    (k j : Bytes) (v : MainValue) (t : MainTable)
    → find k t ≡ none
    → (find j (emplace k v t).0 ≡ (if bytes_eq k j then some v else find j t))
      × ((emplace k v t).1 ≡ true)
unfolding emplace
find-emplace k j v t h = ground (arith, h, find-append k j v t h)

pub emplace_found :
    (k : Bytes) (v w : MainValue) (t : MainTable) → find k t ≡ some w → emplace k v t ≡ (t, false)
unfolding emplace
emplace_found k v w t h = ground (arith, h)

pub find-set_value :
    (k j val : Bytes) (t : MainTable)
    → find j (set_value k val t) ≡ (if bytes_eq k j then with_value val (find j t) else find j t)
unfolding find set_value
find-set_value k j val [] = ground arith
find-set_value k j val ((i, v) ∷ t) =
    ground (arith, find-set_value k j val t, bytes_eq_iff i k, bytes_eq_iff i j, bytes_eq_iff k j)

pub find-set_expire_ms :
    (k j : Bytes) (at : ℕ) (t : MainTable)
    → find j (set_expire_ms k at t)
      ≡ (if bytes_eq k j then with_expire_ms at (find j t) else find j t)
unfolding find set_expire_ms
find-set_expire_ms k j at [] = ground arith
find-set_expire_ms k j at ((i, v) ∷ t) =
    ground
      (arith, find-set_expire_ms k j at t, bytes_eq_iff i k, bytes_eq_iff i j, bytes_eq_iff k j)
