-- ===== src/Scenarios/Snapshots.antt =====
-- A snapshot of a store that holds one key.
use maxredis.Base.{ℕ, zero, suc, ◌≡◌, ◌≢◌, refl, none, some, [], ◌∷◌, arith, Bytes, length}
use maxredis.Kv.MainTable
use maxredis.Kv.MainTable.{MainValue}
use maxredis.Kv.MainTable.Keys.{IsDistinct}
use maxredis.Kv.DbSlice
use maxredis.Kv.DbSlice.{DbSlice}
use maxredis.Kv.DbSlice.Laws.{IsReady, entry}
use maxredis.Kv.Machine
use maxredis.Kv.Machine.{Kv, shard}
use maxredis.Kv.Machine.Refine.{IsValid, view}
use maxredis.Kv.Snapshot.{save_snapshot, load_snapshot}
use maxredis.Kv.Snapshot.Tables.{all_entries, OnlyFirst}
use maxredis.Kv.Snapshot.RoundTrip.{AreSmall, kept_entry, none_over, load_snapshot-save_snapshot}

abbrev kept : MainValue
kept = record { value = 118 ∷ []; expire_ms = 0 }

abbrev one_slice : ℕ → DbSlice
one_slice zero = record { db_arr = some ((107 ∷ [], kept) ∷ []) ∷ [] }
one_slice (suc n) = DbSlice.new

abbrev one_key : Kv
one_key = record { size = 1; slice = one_slice }

abbrev by_length : Bytes → ℕ
by_length k = length k

abbrev by_zero : Bytes → ℕ
by_zero k = 0

one_slice-IsReady : (i : ℕ) → IsReady (one_slice i)
unfolding DbSlice.is_db_valid IsDistinct MainTable.find
one_slice-IsReady zero = record { valid = refl; distinct = (refl, tt) }
one_slice-IsReady (suc n) = record { valid = refl; distinct = tt }

one_slice_placed :
    (i : ℕ) (k : Bytes) → i ≢ shard by_length one_key k → entry (one_slice i) k ≡ none
unfolding MainTable.find
one_slice_placed zero k ne = absurd (ne (omega arith))
one_slice_placed (suc n) k ne = refl

one_key-IsValid : IsValid by_length one_key
one_key-IsValid = record { ready = one_slice-IsReady; placed = one_slice_placed }

one_slice-OnlyFirst : (i : ℕ) → OnlyFirst (one_slice i)
one_slice-OnlyFirst zero = refl
one_slice-OnlyFirst (suc n) = refl

one_key-AreSmall : AreSmall (all_entries 1 one_slice)
one_key-AreSmall =
    (record { key_fits = omega arith; value_fits = omega arith; expire_fits = omega arith }, tt)

load_snapshot-save_snapshot_example :
    let loaded = load_snapshot by_zero 5 (save_snapshot one_key) (Machine.new 3) in
    ((k : Bytes) → view by_zero loaded.0 k ≡ kept_entry 5 (view by_length one_key k))
    × (loaded.1 ≡ none_over 5 (all_entries 1 one_slice))
load_snapshot-save_snapshot_example =
    load_snapshot-save_snapshot by_length by_zero 5 3 one_key one_key-IsValid (omega arith)
      one_slice-OnlyFirst one_key-AreSmall (omega arith)
