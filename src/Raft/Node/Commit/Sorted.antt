-- ===== src/Raft/Node/Commit/Sorted.antt =====
-- The sort in `AdvanceCommitIndexLocked`, described by how many of the indexes reach a given one.
use maxredis.Base.{
  ℕ, zero, suc, ◌+◌, ◌/◌, ◌≤◌, ◌<◌, ◌≡◌, ◌↔◌, refl, none, inl, inr, some, List, [], ◌∷◌, arith,
  Bool-cases, leb, get_elem?, if◌then◌else◌,
}
use maxredis.Raft.Types.{LogIndex}
use maxredis.Raft.Node.Commit.{insert_desc, sort_desc, quorum_index}

-- How many of the indexes are at least `y`.
abbrev pub reached : LogIndex → List LogIndex → ℕ
reached y [] = 0
reached y (x ∷ xs) = (if leb y x then 1 else 0) + reached y xs

-- A list that falls from `b` on.
abbrev Falls : ℕ → List ℕ → Type 0
Falls b [] = Unit
Falls b (x ∷ xs) = (x ≤ b) × Falls x xs

abbrev Descending : List ℕ → Type 0
Descending [] = Unit
Descending (x ∷ xs) = Falls x xs

insert-Falls : (b x : ℕ) (xs : List ℕ) → x ≤ b → Falls b xs → Falls b (insert_desc x xs)
unfolding insert_desc
insert-Falls b x [] h f = (h, tt)
insert-Falls b x (y ∷ ys) h f = elim (Bool-cases (leb y x)) [
  | inl e ↦ rw e (h, (ground arith, f.1))
  | inr e ↦ rw e (f.0, insert-Falls y x ys (ground arith) f.1)
]

insert-Descending : (x : ℕ) (xs : List ℕ) → Descending xs → Descending (insert_desc x xs)
unfolding insert_desc
insert-Descending x [] f = tt
insert-Descending x (y ∷ ys) f = elim (Bool-cases (leb y x)) [
  | inl e ↦ rw e (ground arith, f)
  | inr e ↦ rw e (insert-Falls y x ys (ground arith) f)
]

reached-insert : (y x : ℕ) (xs : List ℕ) → reached y (insert_desc x xs) ≡ reached y (x ∷ xs)
unfolding insert_desc
reached-insert y x [] = ground arith
reached-insert y x (z ∷ zs) = elim (Bool-cases (leb z x)) [
  | inl e ↦ rw e (ground arith)
  | inr e ↦ rw e (ground (arith, reached-insert y x zs))
]

sort-Descending : (xs : List ℕ) → Descending (sort_desc xs)
unfolding sort_desc
sort-Descending [] = tt
sort-Descending (x ∷ xs) = insert-Descending x (sort_desc xs) (sort-Descending xs)

reached-sort : (y : ℕ) (xs : List ℕ) → reached y (sort_desc xs) ≡ reached y xs
unfolding sort_desc
reached-sort y [] = refl
reached-sort y (x ∷ xs) = ground (arith, reached-insert y x (sort_desc xs), reached-sort y xs)

-- Nothing behind `b` reaches an index above it.
none_above : (y b : ℕ) (xs : List ℕ) → Falls b xs → b < y → reached y xs ≡ 0
none_above y b [] f h = refl
none_above y b (x ∷ xs) f h = ground (arith, f.0, none_above y x xs f.1 (omega (arith, f.0)))

elem_below : (b x k : ℕ) (xs : List ℕ) → Falls b xs → get_elem? xs k ≡ some x → x ≤ b
elem_below b x k [] f h = ground arith
elem_below b x zero (y ∷ ys) f h = ground (arith, f.0)
elem_below b x (suc k) (y ∷ ys) f h = omega (arith, f.0, elem_below y x k ys f.1 h)

Descending-Falls : (b : ℕ) (xs : List ℕ) → Falls b xs → Descending xs
Descending-Falls b [] f = tt
Descending-Falls b (x ∷ xs) f = f.1

rank-Descending :
    (zs : List ℕ) (k x y : ℕ)
    → Descending zs
    → get_elem? zs k ≡ some x
    → (y ≤ x) ↔ (suc k ≤ reached y zs)
rank-Descending [] k x y d h = ground arith
rank-Descending (z ∷ zs) zero x y d h = elim (Bool-cases (leb y z)) [
  | inl e ↦ rw e (ground arith)
  | inr e ↦ rw e (ground (arith, none_above y z zs d (ground arith)))
]
rank-Descending (z ∷ zs) (suc k) x y d h =
    let rest = rank-Descending zs k x y (Descending-Falls z zs d) h in
    let low = elem_below z x k zs d h in
    elim (Bool-cases (leb y z)) [
      | inl e ↦ rw e (ground (arith, rest))
      | inr e ↦ rw e (ground (arith, none_above y z zs d (ground arith)))
    ]

-- The quorum index is the greatest index that a majority of `others + 1` nodes has reached.
pub quorum_rank :
    (others : ℕ) (xs : List LogIndex) (x y : LogIndex)
    → quorum_index others xs ≡ some x
    → (y ≤ x) ↔ ((others + 1) / 2 + 1 ≤ reached y xs)
unfolding quorum_index
quorum_rank others xs x y h =
    let rank =
      rank-Descending (sort_desc xs) ((others + 1) / 2) x y (sort-Descending xs) (ground arith) in
    let same = reached-sort y xs in ground arith

reached_within : (y k : ℕ) (xs : List ℕ) → get_elem? xs k ≡ none → reached y xs ≤ k
reached_within y k [] h = omega arith
reached_within y zero (x ∷ xs) h = ground arith
reached_within y (suc k) (x ∷ xs) h = ground (arith, reached_within y k xs h)

-- There is a quorum index if a majority has reached some index.
pub no_quorum_index :
    (others y : ℕ) (xs : List LogIndex)
    → (others + 1) / 2 + 1 ≤ reached y xs
    → quorum_index others xs ≡ none
    → ⊥
unfolding quorum_index
no_quorum_index others y xs q h =
    let few = reached_within y ((others + 1) / 2) (sort_desc xs) (ground arith) in
    omega (arith, reached-sort y xs)
