-- ===== src/Kv/Machine/Refine.antt =====
-- The shards together behave as one map: each operation, and with them the application of a log entry,
-- is the operation of `Spec` on that map.
use maxredis.Base.{
  ℕ, ◌≡◌, ◌≢◌, refl, ap, subst, Bool, true, false, not, ◌&&◌, Option, none, some, arith, Bytes,
  bytes_eq_iff, ltb, ◌==◌, if◌then◌else◌, Bool-cases, inl, inr,
}
use maxredis.Kv.MainTable.{empty_value, MainValue, with_value}
use maxredis.Kv.DbSlice
use maxredis.Kv.DbSlice.{DbSlice}
use maxredis.Kv.DbSlice.Laws.{
  IsReady, entry, Writes, Writes-Writes, Writes-entry, Does, by_case, del_lem, set_expire_lem,
  write_value_lem, add_or_find_lem,
}
use maxredis.Kv.MainTable
use maxredis.Kv.MainTable.Keys.{IsDistinct}
use maxredis.Kv.Machine.{new, Kv, await, shard, apply_set_task, apply_set, del, expire}
use maxredis.Kv.Spec
use maxredis.Kv.Spec.{
  Store, live, is_some, or_empty, set_entry, del_entry, expire_entry, update_at, spec_ops,
}

-- Found, with the value written over it.
write_found :
    (now : ℕ) (key val : Bytes) (s : DbSlice)
    → IsReady s
    → Writes key
        (some (record (or_empty (live now (entry s key))) { value = val }))
        s
        (DbSlice.write_value (DbSlice.add_or_find now s 0 key).0 0 key val)
write_found now key val s h =
    let added = (add_or_find_lem now s key h).0 in
    let s1 = (DbSlice.add_or_find now s 0 key).0 in
    Writes-Writes added (
      subst (λ v. Writes key v s1 (DbSlice.write_value s1 0 key val))
        (ap (with_value val) (Writes-entry added)) (write_value_lem s1 key val added.ready))

live_kept :
    (now : ℕ) (old : Option MainValue)
    → not (is_some (live now old)) ≡ false
    → some (or_empty (live now old)) ≡ old
live_kept now old h = ground arith

-- What is there when the conditions hold.
write_entry : ℕ → Bytes → ℕ → Option MainValue → MainValue
write_entry now val at old = record {
  value = val;
  expire_ms = if ltb 0 at then at else (or_empty (live now old)).expire_ms;
}

write_task :
    (now : ℕ) (key val : Bytes) (at : ℕ) (s : DbSlice)
    → IsReady s
    → let written = DbSlice.write_value (DbSlice.add_or_find now s 0 key).0 0 key val in
      Writes key
        (some (write_entry now val at (entry s key)))
        s
        (if ltb 0 at then (DbSlice.set_expire written 0 key at).0 else written)
unfolding write_entry
write_task now key val at s h =
    let written = DbSlice.write_value (DbSlice.add_or_find now s 0 key).0 0 key val in
    let first = write_found now key val s h in
    elim (Bool-cases (ltb 0 at)) [
      | inl t ↦
          let second = (set_expire_lem written key at first.ready).0 in
          rw t (
            Writes-Writes first (
              subst
                (λ v.
                  Writes key (expire_entry at v).0 written (DbSlice.set_expire written 0 key at).0)
                (Writes-entry first) second))
      | inr f ↦ rw f first
    ]

pub apply_set_task_lem :
    (now : ℕ) (key val : Bytes) (nx xx : Bool) (at : ℕ) (s : DbSlice)
    → IsReady s
    → Does key
        (set_entry now val nx xx at (entry s key))
        s
        (apply_set_task now 0 key val nx xx at s)
unfolding apply_set_task write_entry
apply_set_task_lem now key val nx xx at s h =
    let (added, inserted) = add_or_find_lem now s key h in
    let old = live now (entry s key) in
    elim (Bool-cases (nx && is_some old)) [
      | inl n ↦
          let kept = live_kept now (entry s key) (ground (arith, n)) in
          by_case {w' = (entry s key, false)} (ground (arith, n)) (ground (arith, n, inserted))
            (subst (λ v. Writes key v s (DbSlice.add_or_find now s 0 key).0) kept added, refl)
      | inr n ↦ elim (Bool-cases (xx && not (is_some old))) [
        | inl x ↦
            let fresh : some (or_empty old) ≡ some empty_value = ground (arith, x) in
            by_case {w' = (some empty_value, false)} (ground (arith, n, x))
              (ground (arith, n, x, inserted))
              (subst (λ v. Writes key v s (DbSlice.add_or_find now s 0 key).0) fresh added, refl)
        | inr x ↦
            let written = DbSlice.write_value (DbSlice.add_or_find now s 0 key).0 0 key val in
            let last = if ltb 0 at then (DbSlice.set_expire written 0 key at).0 else written in
            by_case {w' = (some (write_entry now val at (entry s key)), true)} {p' = (last, true)}
              (ground (arith, n, x)) (ground (arith, n, x, inserted))
              (write_task now key val at s h, refl)
      ]
    ]

if-IsReady : (b : Bool) {s t : DbSlice} → IsReady s → IsReady t → IsReady (if b then s else t)
if-IsReady true a b = a
if-IsReady false a b = b

module _ (hash : Bytes → ℕ) where
  -- The map that the shards hold together.
  abbrev pub view : Kv → Store
  view kv key = entry (kv.slice (shard hash kv key)) key

  -- Every shard is ready, and a key stands in no shard but its own.
  pub record IsValid (kv : Kv) : Type 0 where
    pub ready : (i : ℕ) → IsReady (kv.slice i)
    pub placed : (i : ℕ) (key : Bytes) → i ≢ shard hash kv key → entry (kv.slice i) key ≡ none

  -- The store is valid, and the map and the result are those of the abstract operation.
  abbrev pub Simulates {ℓ} : {A : Type ℓ} → Kv × A → Store × A → Type ℓ
  Simulates p q = IsValid p.0 × ((view p.0, p.1) ≡ q)

  pub await_lem :
      {A : Type 0} (key : Bytes) (f : Option MainValue → Option MainValue × A)
      (task : DbSlice → DbSlice × A) (kv : Kv)
      → IsValid kv
      → Does key
          (f (entry (kv.slice (shard hash kv key)) key))
          (kv.slice (shard hash kv key))
          (task (kv.slice (shard hash kv key)))
      → Simulates (await (shard hash kv key) task kv) (update_at key f (view kv))
  await_lem key f task kv v d =
      let sid = shard hash kv key in
      let f_of = f (view kv key) in
      let at : (j : Bytes) → view (await sid task kv).0 j ≡ Spec.write key f_of.0 (view kv) j =
        λ j. ground (arith, d.0.entries j, bytes_eq_iff key j) in
      (
        record {
          ready = λ i. if-IsReady (i == sid) d.0.ready (v.ready i);
          placed = λ i j ne. ground (arith, d.0.entries j, bytes_eq_iff key j, v.placed i j ne);
        },
        λ i. (λ j. at j i, d.1 i),
      )

  pub apply_set-Simulates :
      (now : ℕ) (key val : Bytes) (nx xx : Bool) (at : ℕ) (kv : Kv)
      → IsValid kv
      → Simulates
          (apply_set hash now 0 key val nx xx at kv)
          (update_at key (set_entry now val nx xx at) (view kv))
  unfolding apply_set
  apply_set-Simulates now key val nx xx at kv v =
      await_lem key (set_entry now val nx xx at) (apply_set_task now 0 key val nx xx at) kv v
        (apply_set_task_lem now key val nx xx at _ (v.ready (shard hash kv key)))

  pub del-Simulates :
      (key : Bytes) (kv : Kv)
      → IsValid kv
      → Simulates (del hash 0 key kv) (update_at key del_entry (view kv))
  unfolding del
  del-Simulates key kv v =
      await_lem key del_entry (λ s. DbSlice.del s 0 key) kv v
        (del_lem _ key (v.ready (shard hash kv key)))

  pub expire-Simulates :
      (key : Bytes) (at : ℕ) (kv : Kv)
      → IsValid kv
      → Simulates (expire hash 0 key at kv) (update_at key (expire_entry at) (view kv))
  unfolding expire
  expire-Simulates key at kv v =
      await_lem key (expire_entry at) (λ s. DbSlice.set_expire s 0 key at) kv v
        (set_expire_lem _ key at (v.ready (shard hash kv key)))

  -- A new store is valid.
  pub new-IsValid : (n : ℕ) → IsValid (new n)
  unfolding DbSlice.is_db_valid IsDistinct MainTable.find
  new-IsValid n = record {
    ready = λ i. record { valid = refl; distinct = tt };
    placed = λ i key ne. refl;
  }
