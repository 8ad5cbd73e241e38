-- ===== src/Kv/DbSlice/Laws.antt =====
-- Each operation of a slice writes the entry of one key, as a function of what is there, and keeps the
-- slice well formed.
use maxredis.Base.{
  ℕ, ◌≡◌, refl, sym, ap, subst, ◌∙◌, Bool, true, false, not, Option, none, some, List, [], ◌∷◌,
  arith, Bytes, bytes_eq, bytes_eq_iff, if◌then◌else◌, get_elem?, set, Option-cases, Bool-cases,
  inl, inr,
}
use maxredis.Kv.MainTable
use maxredis.Kv.MainTable.{
  MainTable, MainValue, empty_value, with_value, with_expire_ms, find-erase, find-emplace,
  emplace_found, find-set_value, find-set_expire_ms,
}
use maxredis.Kv.MainTable.Keys.{
  IsDistinct, erase-IsDistinct, emplace-IsDistinct, set_value-IsDistinct, set_expire_ms-IsDistinct,
}
use maxredis.Kv.DbSlice.{
  DbSlice, find, table, table_of, valid_of, put_table, is_db_valid, is_expired, add_or_find, del,
  set_expire, write_value,
}
use maxredis.Kv.Spec.{live, is_some, or_empty, del_entry, expire_entry}

-- Database 0 is there, and no key stands twice in it.
pub record IsReady (s : DbSlice) : Type 0 where
  pub valid : is_db_valid s 0 ≡ true
  pub distinct : IsDistinct (table s 0)

abbrev pub entry : DbSlice → Bytes → Option MainValue
entry s j = MainTable.find j (table s 0)

-- What `s` becomes where the entry of `key` becomes `v`.
pub record Writes (key : Bytes) (v : Option MainValue) (s s' : DbSlice) : Type 0 where
  pub ready : IsReady s'
  pub entries : (j : Bytes) → entry s' j ≡ (if bytes_eq key j then v else entry s j)

set_first :
    (arr : List (Option MainTable)) (t : MainTable)
    → valid_of (get_elem? arr 0) ≡ true
    → get_elem? (set arr 0 (some t)) 0 ≡ some (some t)
set_first [] t h = ground arith
set_first (x ∷ xs) t h = refl

put-Writes :
    {key : Bytes} {v : Option MainValue} (s : DbSlice) (t : MainTable)
    → IsReady s
    → IsDistinct t
    → ((j : Bytes) → MainTable.find j t ≡ (if bytes_eq key j then v else entry s j))
    → Writes key v s (put_table s 0 t)
unfolding is_db_valid
put-Writes s t h d e =
    let put = set_first s.db_arr t h.valid in
    let stored = ap table_of put in
    record {
      ready = record { valid = ap valid_of put; distinct = subst IsDistinct (sym stored) d };
      entries = λ j. ap (MainTable.find j) stored ∙ e j;
    }

-- Nothing is written where the entry stays.
same-Writes :
    {key : Bytes} {v : Option MainValue} (s : DbSlice)
    → IsReady s
    → entry s key ≡ v
    → Writes key v s s
same-Writes {key} s h e = record { ready = h; entries = λ j. ground (arith, bytes_eq_iff key j, e) }

-- The second write to a key is the one that stays.
pub Writes-Writes :
    {key : Bytes} {v w : Option MainValue} {s s' s'' : DbSlice}
    → Writes key v s s'
    → Writes key w s' s''
    → Writes key w s s''
Writes-Writes {key} a b = record {
  ready = b.ready;
  entries = λ j. ground (arith, a.entries j, b.entries j);
}

-- The entry of the key itself.
pub Writes-entry :
    {key : Bytes} {v : Option MainValue} {s s' : DbSlice} → Writes key v s s' → entry s' key ≡ v
Writes-entry {key} w = ground (arith, w.entries key, bytes_eq_iff key key)

-- An operation that leaves `p` writes the entry and has the result of `w`.
abbrev pub Does : {A : Type 0} → Bytes → Option MainValue × A → DbSlice → DbSlice × A → Type 0
Does key w s p = Writes key w.0 s p.0 × (p.1 ≡ w.1)

pub by_case :
    {A : Type 0} {key : Bytes} {w : Option MainValue × A} {s : DbSlice} {p : DbSlice × A}
    {w' : Option MainValue × A} {p' : DbSlice × A}
    → w ≡ w'
    → p ≡ p'
    → Does key w' s p'
    → Does key w s p
by_case e e' d = rw (e, e') d

pub del_lem :
    (s : DbSlice) (key : Bytes) → IsReady s → Does key (del_entry (entry s key)) s (del s 0 key)
unfolding del
del_lem s key h = elim (Option-cases (entry s key)) [
  | inl e ↦ by_case (ap del_entry e) (ground (arith, e)) (same-Writes s h e, refl)
  | inr (v, e) ↦ by_case (ap del_entry e) (ground (arith, e)) (
    put-Writes s (MainTable.erase key (table s 0)) h (erase-IsDistinct key (table s 0) h.distinct)
        (λ j. find-erase key j (table s 0)),
    refl,
  )
]

pub set_expire_lem :
    (s : DbSlice) (key : Bytes) (at : ℕ)
    → IsReady s
    → Does key (expire_entry at (entry s key)) s (set_expire s 0 key at)
unfolding set_expire
set_expire_lem s key at h = elim (Option-cases (entry s key)) [
  | inl e ↦ by_case (ap (expire_entry at) e) (ground (arith, e)) (same-Writes s h e, refl)
  | inr (v, e) ↦ by_case (ap (expire_entry at) e) (ground (arith, e)) (
    put-Writes s (MainTable.set_expire_ms key at (table s 0)) h
        (set_expire_ms-IsDistinct key at (table s 0) h.distinct)
        (λ j. ground (arith, find-set_expire_ms key j at (table s 0), bytes_eq_iff key j, e)),
    refl,
  )
]

pub write_value_lem :
    (s : DbSlice) (key val : Bytes)
    → IsReady s
    → Writes key (with_value val (entry s key)) s (write_value s 0 key val)
unfolding write_value
write_value_lem s key val h =
    put-Writes s (MainTable.set_value key val (table s 0)) h
      (set_value-IsDistinct key val (table s 0) h.distinct)
      (λ j. ground (arith, find-set_value key j val (table s 0), bytes_eq_iff key j))

-- The entry that is there at `now`, or a new one.
abbrev pub found_entry : ℕ → Option MainValue → Option MainValue × Bool
found_entry now old = (some (or_empty (live now old)), not (is_some (live now old)))

-- A new entry in a table that has none.
emplace-Writes :
    (s : DbSlice) (key : Bytes) (t : MainTable)
    → IsReady s
    → IsDistinct t
    → MainTable.find key t ≡ none
    → ((j : Bytes) → MainTable.find j t ≡ (if bytes_eq key j then none else entry s j))
    → Writes key (some empty_value) s (put_table s 0 (MainTable.emplace key empty_value t).0)
emplace-Writes s key t h d e same =
    put-Writes s (MainTable.emplace key empty_value t).0 h (emplace-IsDistinct key empty_value t d)
      (λ j. ground (arith, (find-emplace key j empty_value t e).0, same j))

pub add_or_find_lem :
    (now : ℕ) (s : DbSlice) (key : Bytes)
    → IsReady s
    → Does key (found_entry now (entry s key)) s (add_or_find now s 0 key)
unfolding add_or_find
add_or_find_lem now s key h = elim (Option-cases (entry s key)) [
  | inl e ↦
      by_case (ap (found_entry now) e)
        (ground (arith, (find-emplace key key empty_value (table s 0) e).1))
        (
          emplace-Writes s key (table s 0) h h.distinct e
              (λ j. ground (arith, bytes_eq_iff key j, e)),
          refl,
        )
  | inr (v, e) ↦
      let old = emplace_found key empty_value v (table s 0) e in
      elim (Bool-cases (is_expired now v)) [
        | inl x ↦
            let t = MainTable.erase key (table s 0) in
            let new : found_entry now (some v) ≡ (some empty_value, true) = ground (arith, x) in
            by_case (ap (found_entry now) e ∙ new) (ground (arith, old, e, x)) (
              emplace-Writes s key t h (erase-IsDistinct key (table s 0) h.distinct)
                  (ground (arith, find-erase key key (table s 0), bytes_eq_iff key key))
                  (λ j. find-erase key j (table s 0)),
              refl,
            )
        | inr x ↦
            let kept : found_entry now (some v) ≡ (some v, false) = ground (arith, x) in
            by_case (ap (found_entry now) e ∙ kept) (ground (arith, old, e, x))
              (same-Writes s h e, refl)
      ]
]

-- `Find` leaves the entry if it is live, and takes it out if it has expired.
pub find_lem :
    (now : ℕ) (s : DbSlice) (key : Bytes)
    → IsReady s
    → Does key (live now (entry s key), live now (entry s key)) s (find now s 0 key)
unfolding find
find_lem now s key h = elim (Option-cases (entry s key)) [
  | inl e ↦ by_case (ap found e) (ground (arith, e)) (same-Writes s h e, refl)
  | inr (v, e) ↦ elim (Bool-cases (is_expired now v)) [
    | inl x ↦
        let out : found (some v) ≡ (none, none) = ground (arith, x) in
        by_case (ap found e ∙ out) (ground (arith, e, x)) (
          put-Writes s (MainTable.erase key (table s 0)) h
              (erase-IsDistinct key (table s 0) h.distinct) (λ j. find-erase key j (table s 0)),
          refl,
        )
    | inr x ↦
        let there : found (some v) ≡ (some v, some v) = ground (arith, x) in
        by_case (ap found e ∙ there) (ground (arith, e, x)) (same-Writes s h e, refl)
  ]
]
  where
    found : Option MainValue → Option MainValue × Option MainValue
    found old = (live now old, live now old)
