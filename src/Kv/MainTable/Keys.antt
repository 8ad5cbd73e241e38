-- ===== src/Kv/MainTable/Keys.antt =====
-- No key stands twice in a table, whatever is done to it.
use maxredis.Base.{ℕ, ◌≡◌, refl, none, [], ◌∷◌, ◌++◌, arith, Bytes, bytes_eq_iff}
use maxredis.Kv.MainTable.{
  MainValue, MainTable, find, erase, emplace, set_value, set_expire_ms, find-erase, find-append,
  find-set_value, find-set_expire_ms,
}

unfoldable pub IsDistinct : MainTable → Type 0
IsDistinct [] = Unit
IsDistinct ((k, v) ∷ t) = (find k t ≡ none) × IsDistinct t

pub erase-IsDistinct : (k : Bytes) (t : MainTable) → IsDistinct t → IsDistinct (erase k t)
unfolding erase IsDistinct
erase-IsDistinct k [] h = tt
erase-IsDistinct k ((j, v) ∷ t) h = ground (arith, h.0, find-erase k j t, erase-IsDistinct k t h.1)

append-IsDistinct :
    (k : Bytes) (v : MainValue) (t : MainTable)
    → find k t ≡ none
    → IsDistinct t
    → IsDistinct (t ++ (k, v) ∷ [])
unfolding find IsDistinct
append-IsDistinct k v [] e h = (refl, tt)
append-IsDistinct k v ((j, w) ∷ t) e h = ground (
  arith,
  h.0,
  bytes_eq_iff j k,
  bytes_eq_iff k j,
  find-append k j v t,
  append-IsDistinct k v t,
  h.1,
)

pub emplace-IsDistinct :
    (k : Bytes) (v : MainValue) (t : MainTable) → IsDistinct t → IsDistinct (emplace k v t).0
unfolding emplace
emplace-IsDistinct k v t h = ground (arith, append-IsDistinct k v t, h)

pub set_value-IsDistinct :
    (k val : Bytes) (t : MainTable) → IsDistinct t → IsDistinct (set_value k val t)
unfolding set_value IsDistinct
set_value-IsDistinct k val [] h = tt
set_value-IsDistinct k val ((j, v) ∷ t) h =
    ground (arith, h.0, find-set_value k j val t, set_value-IsDistinct k val t h.1)

pub set_expire_ms-IsDistinct :
    (k : Bytes) (at : ℕ) (t : MainTable) → IsDistinct t → IsDistinct (set_expire_ms k at t)
unfolding set_expire_ms IsDistinct
set_expire_ms-IsDistinct k at [] h = tt
set_expire_ms-IsDistinct k at ((j, v) ∷ t) h =
    ground (arith, h.0, find-set_expire_ms k j at t, set_expire_ms-IsDistinct k at t h.1)
