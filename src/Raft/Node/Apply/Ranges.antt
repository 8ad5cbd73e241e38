-- ===== src/Raft/Node/Apply/Ranges.antt =====
-- What `ApplyCommittedLogsLocked` reads from the log: the entries of a range of indexes.
use maxredis.Base.{
  ℕ, zero, suc, ◌+◌, ◌^◌, ◌≤◌, ◌<◌, ◌≡◌, refl, ap, inl, inr, lt_or_le, ◌-◌, min, none, some, List,
  [], ◌∷◌, ◌++◌, arith, length, get_elem?, ltb, ◌∙◌, if◌then◌else◌,
}
use maxredis.Raft.Types.{LogIndex, LogEntry}
use maxredis.Raft.LogStorage.{LogStorage, LogLaws}

-- Lists that agree at every place are equal.
same_elems {ℓ} :
    {A : Type ℓ} → (xs ys : List A) → ((j : ℕ) → get_elem? xs j ≡ get_elem? ys j) → xs ≡ ys
same_elems [] [] h = refl
same_elems [] (y ∷ ys) h = ground (arith, h 0)
same_elems (x ∷ xs) [] h = ground (arith, h 0)
same_elems (x ∷ xs) (y ∷ ys) h = let rest = same_elems xs ys (λ j. h (suc j)) in ground (arith, h 0)

module _ {L : Type 0} (st : LogStorage L) where
  -- The `k` entries from the index `i` on.
  abbrev pub entries_from : L → LogIndex → ℕ → List LogEntry
  entries_from l i zero = []
  entries_from l i (suc k) = elim (st.get l i) [ none ↦ [] | some e ↦ e ∷ entries_from l (suc i) k ]

  -- Logs that agree on a range have the same entries there.
  pub entries_from-agree :
      (l l' : L) (i k : ℕ)
      → ((j : ℕ) → i ≤ j → j < i + k → st.get l j ≡ st.get l' j)
      → entries_from l i k ≡ entries_from l' i k
  entries_from-agree l l' i zero h = refl
  entries_from-agree l l' i (suc k) h =
      let rest =
        entries_from-agree l l' (suc i) k (λ j low high. h j (omega arith) (omega arith)) in
      ground (arith, rest, h i (omega arith) (omega arith))

  module _ (laws : LogLaws st) (l : L) (v : laws.IsValid l) where
    step :
        (i k : ℕ) (e : LogEntry)
        → st.get l i ≡ some e
        → entries_from l i (suc k) ≡ e ∷ entries_from l (suc i) k
    step i k e found = ground arith

    pub entries_from-found :
        (i k : ℕ)
        → laws.floor l < i
        → i ≤ st.last_index l
        → (e : LogEntry) × (st.get l i ≡ some e)
          × (e.index ≡ i)
          × (entries_from l i (suc k) ≡ e ∷ entries_from l (suc i) k)
    entries_from-found i k low high =
        let (e, found, own) = laws.get_within l i v low high in (e, found, own, step i k e found)

    entries_from-above : (i k : ℕ) → st.last_index l < i → entries_from l i k ≡ []
    entries_from-above i zero h = refl
    entries_from-above i (suc k) h = ground (arith, laws.get_above l i h)

    elem-entries_from :
        (i k j : ℕ)
        → laws.floor l < i
        → get_elem? (entries_from l i k) j ≡ (if ltb j k then st.get l (i + j) else none)
    elem-entries_from i zero j low = ground arith
    elem-entries_from i (suc k) zero low = elim (lt_or_le (suc (st.last_index l)) (suc i)) [
      | inl h ↦ ground (arith, laws.get_above l i (omega arith))
      | inr h ↦
          let (e, found, own, path) = entries_from-found i k low (omega arith) in
          rw path (ground arith)
    ]
    elem-entries_from i (suc k) (suc j) low = elim (lt_or_le (st.last_index l) i) [
      | inl h ↦
          ground (arith, entries_from-above i (suc k) h, laws.get_above l (i + suc j) (omega arith))
      | inr h ↦
          let (e, found, own, path) = entries_from-found i k low h in
          rw path (ground (arith, elem-entries_from (suc i) k j (omega arith)))
    ]

    -- The limit does not matter once the log ends.
    pub clip-entries_from :
        (i k : ℕ)
        → laws.floor l < i
        → entries_from l i k ≡ entries_from l i (min k (suc (st.last_index l) - i))
    clip-entries_from i k low = same_elems _ _ (λ j. ground (
      arith,
      elem-entries_from i k j low,
      elem-entries_from i (min k (suc (st.last_index l) - i)) j low,
      laws.get_above l (i + j),
    ))

    pub length-entries_from :
        (i k : ℕ)
        → laws.floor l < i
        → i + k ≤ suc (st.last_index l)
        → length (entries_from l i k) ≡ k
    length-entries_from i zero low high = refl
    length-entries_from i (suc k) low high =
        let (e, found, own, path) = entries_from-found i k low (omega arith) in
        rw path (omega (arith, length-entries_from (suc i) k (omega arith) (omega arith)))

    pub range-entries_from :
        (i k : ℕ)
        → laws.floor l < i
        → 0 < k
        → i ≤ st.last_index l
        → k < 2 ^ 63
        → st.get_range l i k ≡ entries_from l i k
    range-entries_from i k low some_k high few = same_elems _ _ (λ j.
        ground (arith, laws.get_range_lem l i k j v low high few, elem-entries_from i k j low))

    pub append-entries_from :
        (i k m : ℕ)
        → laws.floor l < i
        → i + k ≤ suc (st.last_index l)
        → entries_from l i (k + m) ≡ entries_from l i k ++ entries_from l (i + k) m
    append-entries_from i zero m low high = ground arith
    append-entries_from i (suc k) m low high =
        let (e, found, own, path) = entries_from-found i k low (omega arith) in
        let sum : suc k + m ≡ suc (k + m) = omega arith in
        let more : entries_from l i (suc k + m) ≡ e ∷ entries_from l (suc i) (k + m) =
          ap (λ z. entries_from l i z) sum ∙ step i (k + m) e found in
        let shift : entries_from l (suc i + k) m ≡ entries_from l (i + suc k) m =
          let same : suc i + k ≡ i + suc k = omega arith in ap (λ z. entries_from l z m) same in
        rw (path, more)
          (ap (λ z. e ∷ z)
            (append-entries_from (suc i) k m (omega arith) (omega arith)
              ∙ ap (λ z. entries_from l (suc i) k ++ z) shift))
