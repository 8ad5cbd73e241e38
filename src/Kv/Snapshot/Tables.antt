-- ===== src/Kv/Snapshot/Tables.antt =====
-- The tables of all shards in a row, as one table.
use maxredis.Base.{
  ℕ, zero, suc, ◌<◌, ◌≤◌, ◌≡◌, ◌≢◌, ◌⊎◌, inl, inr, refl, sym, ap, ◌∙◌, Option, none, some, [], ◌∷◌,
  ◌++◌, map, arith, Bytes, bytes_eq_iff, lt_or_le, le_cases,
}
use maxredis.Kv.MainTable.{MainTable, MainValue, find}
use maxredis.Kv.MainTable.Keys.{IsDistinct}
use maxredis.Kv.DbSlice.{DbSlice, table}
use maxredis.Kv.DbSlice.Laws.{entry}
use maxredis.Kv.Snapshot.{record_of, export, export_shards}
use mathlib.Core.List.{append-nil}

abbrev pub first_found : Option MainValue → Option MainValue → Option MainValue
first_found none w = w
first_found (some v) w = some v

pub first_found-none : (o : Option MainValue) → first_found o none ≡ o
first_found-none none = refl
first_found-none (some v) = refl

find-join : (k : Bytes) (s t : MainTable) → find k (s ++ t) ≡ first_found (find k s) (find k t)
unfolding find
find-join k [] t = refl
find-join k ((j, v) ∷ s) t = ground (arith, find-join k s t)

join-IsDistinct :
    (s t : MainTable)
    → IsDistinct s
    → IsDistinct t
    → ((k : Bytes) → (find k s ≡ none) ⊎ (find k t ≡ none))
    → IsDistinct (s ++ t)
unfolding IsDistinct find
join-IsDistinct [] t h g apart = g
join-IsDistinct ((j, v) ∷ s) t (fresh, h) g apart = (
  ground (arith, find-join j s t, fresh, apart j, bytes_eq_iff j j),
  join-IsDistinct s t h g (λ k. ground (arith, apart k)),
)

-- The tables of the first `n` shards.
abbrev pub all_entries : ℕ → (ℕ → DbSlice) → MainTable
all_entries zero slice = []
all_entries (suc n) slice = all_entries n slice ++ table (slice n) 0

module _ (slice : ℕ → DbSlice) (own : Bytes → ℕ)
    (placed : (i : ℕ) (k : Bytes) → i ≢ own k → entry (slice i) k ≡ none) where
  absent : (n : ℕ) (k : Bytes) → n ≤ own k → find k (all_entries n slice) ≡ none
  unfolding find
  absent zero k h = refl
  absent (suc n) k h =
      let joined = find-join k (all_entries n slice) (table (slice n) 0) in
      let elsewhere = placed n k (λ e. omega arith) in
      ground (arith, joined, absent n k (omega arith), elsewhere)

  -- A key is found among the first `n` shards if its own shard is one of them.
  pub find-all_entries :
      (n : ℕ) (k : Bytes) → own k < n → find k (all_entries n slice) ≡ entry (slice (own k)) k
  find-all_entries zero k h = absurd (omega arith)
  find-all_entries (suc n) k h =
      let joined = find-join k (all_entries n slice) (table (slice n) 0) in
      elim (le_cases (own k) n (omega arith)) [
        | inl less ↦
            joined
            ∙ ap (λ o. first_found o (entry (slice n) k)) (find-all_entries n k less)
            ∙ ap (first_found (entry (slice (own k)) k)) (placed n k (λ e. omega arith))
            ∙ first_found-none (entry (slice (own k)) k)
        | inr here ↦
            joined
            ∙ ap (λ o. first_found o (entry (slice n) k)) (absent n k (omega arith))
            ∙ ap (λ i. entry (slice i) k) (sym here)
      ]

  apart : (n : ℕ) (k : Bytes) → (find k (all_entries n slice) ≡ none) ⊎ (entry (slice n) k ≡ none)
  apart n k = elim (lt_or_le (own k) n) [
    | inl less ↦ inr (placed n k (λ e. omega arith))
    | inr there ↦ inl (absent n k there)
  ]

  pub all_entries-IsDistinct :
      (n : ℕ) → ((i : ℕ) → IsDistinct (table (slice i) 0)) → IsDistinct (all_entries n slice)
  unfolding IsDistinct
  all_entries-IsDistinct zero d = tt
  all_entries-IsDistinct (suc n) d =
      join-IsDistinct (all_entries n slice) (table (slice n) 0) (all_entries-IsDistinct n d) (d n)
        (apart n)

map-join : (s t : MainTable) → map record_of (s ++ t) ≡ map record_of s ++ map record_of t
map-join [] t = refl
map-join (x ∷ s) t = ap (λ z. record_of x ∷ z) (map-join s t)

-- Slices whose only database is the first.
abbrev pub OnlyFirst : DbSlice → Type 0
OnlyFirst s = s.db_arr ≡ some (table s 0) ∷ []

pub export-all_entries :
    (n : ℕ) (slice : ℕ → DbSlice)
    → ((i : ℕ) → OnlyFirst (slice i))
    → export_shards n slice ≡ map record_of (all_entries n slice)
unfolding export_shards export
export-all_entries zero slice h = refl
export-all_entries (suc n) slice h =
    ap (λ z. export_shards n slice ++ z)
      (ap export (h n) ∙ append-nil (map record_of (table (slice n) 0)))
    ∙ ap (λ z. z ++ map record_of (table (slice n) 0)) (export-all_entries n slice h)
    ∙ sym (map-join (all_entries n slice) (table (slice n) 0))
