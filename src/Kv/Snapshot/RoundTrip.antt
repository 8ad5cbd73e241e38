-- ===== src/Kv/Snapshot/RoundTrip.antt =====
-- A snapshot of a store is loaded into a new one, in any number of shards and by any hash.
use maxredis.Base.{
  ℕ, suc, ◌+◌, ◌%◌, ◌^◌, ◌<◌, ◌≤◌, ◌≡◌, ◌⊎◌, inl, inr, refl, ap, ◌∙◌, Bool, true, false, not, ◌&&◌,
  Option, none, some, [], ◌∷◌, ◌++◌, map, arith, Bytes, bytes_eq, bytes_eq_iff, length,
  if◌then◌else◌, Bool-cases, ◌==◌, le_bytes, read_word-append, four_bytes-Fits,
}
use maxredis.Kv.MainTable.{MainTable, MainValue, find}
use maxredis.Kv.MainTable.Keys.{IsDistinct}
use maxredis.Kv.DbSlice.{DbSlice}
use maxredis.Kv.DbSlice.Laws.{IsReady, entry, Does}
use maxredis.Kv.Machine.{Kv, new, shard, apply_set_task}
use maxredis.Kv.Machine.Refine.{IsValid, view, await_lem, apply_set_task_lem, new-IsValid}
use maxredis.Kv.Spec.{update_at, set_entry}
use maxredis.Kv.Snapshot.{
  SnapshotRecord, record_of, records_bytes, record_bytes, read_record, snapshot_file, save_snapshot,
  snapshot_magic, is_over, load_task, load_record, load_loop, load_counted, load_body,
  load_snapshot,
}
use maxredis.Kv.Snapshot.Records.{IsSmall, read_record-record_bytes}
use maxredis.Kv.Snapshot.Tables.{
  all_entries, find-all_entries, all_entries-IsDistinct, export-all_entries, OnlyFirst, first_found,
  first_found-none,
}

load_task_lem :
    (now : ℕ) (r : SnapshotRecord) (s : DbSlice)
    → IsReady s
    → Does r.key
        (set_entry now r.value false false r.expire_at (entry s r.key))
        s
        (load_task now r s)
unfolding load_task apply_set_task
load_task_lem now r s h = apply_set_task_lem now r.key r.value false false r.expire_at s h

abbrev pub AreSmall : MainTable → Type 0
AreSmall [] = Unit
AreSmall (x ∷ t) = IsSmall (record_of x) × AreSmall t

-- What a load at `now` keeps of an entry.
abbrev pub kept_entry : ℕ → Option MainValue → Option MainValue
kept_entry now none = none
kept_entry now (some v) = if is_over now v.expire_ms then none else some v

abbrev pub none_over : ℕ → MainTable → Bool
none_over now [] = true
none_over now ((k, v) ∷ t) = not (is_over now v.expire_ms) && none_over now t

length-map : (t : MainTable) → length (map record_of t) ≡ length t
length-map [] = refl
length-map (x ∷ t) = ap suc (length-map t)

view-new : (hash : Bytes → ℕ) (n : ℕ) (k : Bytes) → view hash (new n) k ≡ none
unfolding find
view-new hash n k = refl

module _ (hash : Bytes → ℕ) (now : ℕ) where
  load_entry : Bytes → MainValue → Kv → Kv
  load_entry k v kv =
      if is_over now v.expire_ms then kv else load_record hash now (record_of (k, v)) kv

  load_table : MainTable → Kv → Kv
  load_table [] kv = kv
  load_table ((k, v) ∷ t) kv = load_table t (load_entry k v kv)

  count_kept : MainTable → ℕ → ℕ
  count_kept [] n = n
  count_kept ((k, v) ∷ t) n = count_kept t (if is_over now v.expire_ms then n else suc n)

  load_record_lem :
      (r : SnapshotRecord) (kv : Kv)
      → IsValid hash kv
      → IsValid hash (load_record hash now r kv)
        × (view hash (load_record hash now r kv)
            ≡ (update_at r.key (set_entry now r.value false false r.expire_at) (view hash kv)).0)
  unfolding load_record
  load_record_lem r kv valid =
      let (after, seen) =
        await_lem hash r.key (set_entry now r.value false false r.expire_at) (load_task now r) kv
          valid
          (load_task_lem now r (kv.slice (shard hash kv r.key))
            (valid.ready (shard hash kv r.key))) in
      (after, ap (λ p. p.0) seen)

  load_loop_next :
      (n : ℕ) (k : Bytes) (v : MainValue) (file rest : Bytes) (kv : Kv) (loaded : ℕ)
      → read_record file ≡ some (record_of (k, v), rest)
      → load_loop hash now (suc n) file kv loaded
        ≡ load_loop hash now n rest
            (load_entry k v kv)
            (if is_over now v.expire_ms then loaded else suc loaded)
  unfolding load_loop load_entry
  load_loop_next n k v file rest kv loaded h = ground (arith, h)

  load_loop-records :
      (t : MainTable) (kv : Kv) (loaded : ℕ)
      → AreSmall t
      → load_loop hash now (length t) (records_bytes (map record_of t)) kv loaded
        ≡ (load_table t kv, count_kept t loaded)
  unfolding load_loop records_bytes load_table count_kept
  load_loop-records [] kv loaded s = refl
  load_loop-records ((k, v) ∷ t) kv loaded (small, s) =
      let r = record_of (k, v) in
      let rest = records_bytes (map record_of t) in
      load_loop_next (length t) k v (record_bytes r ++ rest) rest kv loaded
        (read_record-record_bytes r small rest)
      ∙ load_loop-records t (load_entry k v kv)
          (if is_over now v.expire_ms then loaded else suc loaded) s

  -- One entry into a store that does not hold its key.
  load_entry_lem :
      (k : Bytes) (v : MainValue) (kv : Kv)
      → IsValid hash kv
      → view hash kv k ≡ none
      → IsValid hash (load_entry k v kv)
        × ((j : Bytes)
            → view hash (load_entry k v kv) j
              ≡ (if bytes_eq k j then kept_entry now (some v) else view hash kv j))
  unfolding load_entry
  load_entry_lem k v kv valid absent = elim (Bool-cases (is_over now v.expire_ms)) [
    | inl over ↦ rw over (valid, λ j. ground (arith, bytes_eq_iff k j, absent))
    | inr stays ↦
        let (after, seen) = load_record_lem (record_of (k, v)) kv valid in
        let stored : (set_entry now v.value false false v.expire_ms (view hash kv k)).0 ≡ some v =
          ap (λ o. (set_entry now v.value false false v.expire_ms o).0) absent ∙ ground arith in
        rw stays (after, λ j. ap (λ m. m j) seen ∙ ground (arith, stored))
  ]

  load_table_lem :
      (t : MainTable) (kv : Kv)
      → IsValid hash kv
      → IsDistinct t
      → ((k : Bytes) → (find k t ≡ none) ⊎ (view hash kv k ≡ none))
      → (k : Bytes)
      → view hash (load_table t kv) k ≡ first_found (kept_entry now (find k t)) (view hash kv k)
  unfolding load_table IsDistinct find
  load_table_lem [] kv valid d fresh k = refl
  load_table_lem ((j, v) ∷ t) kv valid (new_key, d) fresh k =
      let absent : view hash kv j ≡ none = ground (arith, fresh j, bytes_eq_iff j j) in
      let (after, seen) = load_entry_lem j v kv valid absent in
      let fresh' : (i : Bytes) → (find i t ≡ none) ⊎ (view hash (load_entry j v kv) i ≡ none) =
        λ i. ground (arith, fresh i, seen i, bytes_eq_iff j i, new_key) in
      load_table_lem t (load_entry j v kv) after d fresh' k
      ∙ ap (first_found (kept_entry now (find k t))) (seen k)
      ∙ ground
          (arith, bytes_eq_iff j k, new_key, absent, first_found-none (kept_entry now (some v)))

  -- The number of entries that are kept, from `n` on, and whether all are.
  count_kept_lem :
      (t : MainTable) (n : ℕ)
      → (count_kept t n ≤ n + length t) × ((count_kept t n == n + length t) ≡ none_over now t)
  unfolding count_kept
  count_kept_lem [] n = ground arith
  count_kept_lem ((k, v) ∷ t) n = elim (Bool-cases (is_over now v.expire_ms)) [
    | inl over ↦ ground (arith, over, count_kept_lem t n)
    | inr stays ↦ ground (arith, stays, count_kept_lem t (suc n))
  ]

  load_magic :
      (body : Bytes) (kv : Kv)
      → load_snapshot hash now (le_bytes 4 snapshot_magic ++ body) kv ≡ load_body hash now body kv
  unfolding load_snapshot
  load_magic body kv =
      ground (
        arith,
        read_word-append 4 snapshot_magic body (four_bytes-Fits snapshot_magic (omega arith)),
      )

  load_number :
      (n : ℕ) (records : Bytes) (kv : Kv)
      → n < 2 ^ 32
      → load_body hash now (le_bytes 4 n ++ records) kv ≡ load_counted hash now n records kv
  unfolding load_body
  load_number n records kv h = ground (arith, read_word-append 4 n records (four_bytes-Fits n h))

  load_counted_lem :
      (t : MainTable) (kv : Kv)
      → AreSmall t
      → load_counted hash now (length t) (records_bytes (map record_of t)) kv
        ≡ (load_table t kv, none_over now t)
  unfolding load_counted
  load_counted_lem t kv small =
      let flag : (count_kept t 0 == length t) ≡ none_over now t =
        ground (arith, count_kept_lem t 0) in
      ap (λ (p : Kv × ℕ). (p.0, p.1 == length t)) (load_loop-records t kv 0 small)
      ∙ ap (λ b. (load_table t kv, b)) flag

  load_snapshot_file :
      (t : MainTable) (kv : Kv)
      → AreSmall t
      → length t < 2 ^ 32
      → load_snapshot hash now (snapshot_file (map record_of t)) kv
        ≡ (load_table t kv, none_over now t)
  unfolding snapshot_file
  load_snapshot_file t kv small few =
      let rs = map record_of t in
      let count : length rs % 2 ^ 32 ≡ length t = omega (arith, length-map t) in
      let body = le_bytes 4 (length rs % 2 ^ 32) ++ records_bytes rs in
      load_magic body kv
      ∙ ap (λ n. load_body hash now (le_bytes 4 n ++ records_bytes rs) kv) count
      ∙ load_number (length t) (records_bytes rs) kv few
      ∙ load_counted_lem t kv small

-- The snapshot of a valid store with one database, loaded into a new store, gives every entry that has
-- not expired before `now`, and no other; the load reports success only if none had expired. The
-- lengths and the number of entries have to fit 32 bits.
pub load_snapshot-save_snapshot :
    (hash other : Bytes → ℕ) (now n : ℕ) (kv : Kv)
    → IsValid hash kv
    → 0 < kv.size
    → ((i : ℕ) → OnlyFirst (kv.slice i))
    → AreSmall (all_entries kv.size kv.slice)
    → length (all_entries kv.size kv.slice) < 2 ^ 32
    → let loaded = load_snapshot other now (save_snapshot kv) (new n) in
      ((k : Bytes) → view other loaded.0 k ≡ kept_entry now (view hash kv k))
      × (loaded.1 ≡ none_over now (all_entries kv.size kv.slice))
unfolding save_snapshot
load_snapshot-save_snapshot hash other now n kv valid size only small few =
    let t = all_entries kv.size kv.slice in
    let own = shard hash kv in
    let file = ap snapshot_file (export-all_entries kv.size kv.slice only) in
    let read =
      ap (λ f. load_snapshot other now f (new n)) file
      ∙ load_snapshot_file other now t (new n) small few in
    let distinct =
      all_entries-IsDistinct kv.slice own valid.placed kv.size (λ i. (valid.ready i).distinct) in
    let found : (k : Bytes) → find k t ≡ view hash kv k =
      λ k. find-all_entries kv.slice own valid.placed kv.size k (omega arith) in
    (
      λ k.
          ap (λ p. view other p.0 k) read
          ∙ load_table_lem other now t (new n) (new-IsValid other n) distinct
              (λ j. inr (view-new other n j)) k
          ∙ ap (first_found (kept_entry now (find k t))) (view-new other n k)
          ∙ first_found-none (kept_entry now (find k t))
          ∙ ap (kept_entry now) (found k),
      ap (λ p. p.1) read,
    )
