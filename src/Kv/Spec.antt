-- ===== src/Kv/Spec.antt =====
-- What the store promises: one map from keys to values, without shards, tables or iterators. Expired
-- entries stay in the map until an operation that looks at them takes them out.
use maxredis.Base.{
  ℕ, Bool, true, false, not, ◌&&◌, Option, none, some, Bytes, bytes_eq, ltb, if◌then◌else◌,
}
use maxredis.Kv.MainTable.{MainValue, empty_value, with_expire_ms}
use maxredis.Kv.DbSlice.{is_expired}
use maxredis.Kv.Command.{KvOps}

abbrev pub Store : Type 0
Store = Bytes → Option MainValue

abbrev pub write : Bytes → Option MainValue → Store → Store
write key v m j = if bytes_eq key j then v else m j

-- What is there at `now`.
abbrev pub live : ℕ → Option MainValue → Option MainValue
live now none = none
live now (some v) = if is_expired now v then none else some v

abbrev pub is_some {ℓ} : {A : Type ℓ} → Option A → Bool
is_some none = false
is_some (some a) = true

abbrev pub or_empty : Option MainValue → MainValue
or_empty none = empty_value
or_empty (some v) = v

-- The entry of SET: the one that is there, or a new one, with the value and, unless it is 0, the expiry.
-- A refused XX leaves an empty value behind, a refused NX the entry that refused it.
abbrev pub set_entry : ℕ → Bytes → Bool → Bool → ℕ → Option MainValue → Option MainValue × Bool
set_entry now val nx xx expire_at_ms entry =
    let old = live now entry in
    let v = or_empty old in
    if nx && is_some old
    then (entry, false)
    else if xx && not (is_some old)
    then (some empty_value, false)
    else (
      some (record {
        value = val;
        expire_ms = if ltb 0 expire_at_ms then expire_at_ms else v.expire_ms;
      }),
      true,
    )

abbrev pub del_entry : Option MainValue → Option MainValue × Bool
del_entry entry = (none, is_some entry)

abbrev pub expire_entry : ℕ → Option MainValue → Option MainValue × Bool
expire_entry at entry = (with_expire_ms at entry, is_some entry)

-- An operation that looks at one key and writes it.
abbrev pub update_at {ℓ} :
    {A : Type ℓ} → Bytes → (Option MainValue → Option MainValue × A) → Store → Store × A
update_at key f m = let (v, a) = f (m key) in (write key v m, a)

abbrev pub spec_ops : ℕ → KvOps Store
spec_ops now = record {
  apply_set = λ key val nx xx at. update_at key (set_entry now val nx xx at);
  del = λ key. update_at key del_entry;
  expire = λ key at. update_at key (expire_entry at);
}
