-- ===== src/Raft/Node/Follower/Matching.antt =====
-- The loop of `OnAppendEntries` over the entries of a request: what stands in the log afterwards.
use maxredis.Base.{
  ℕ, zero, suc, ◌+◌, ◌≤◌, ◌<◌, ◌≡◌, refl, ◌∙◌, ◌⊎◌, inl, inr, true, false, some, List, [], ◌∷◌,
  arith, sym, subst, ap, le_cases, ==→≡, Bool-cases, length, get_elem?, ◌==◌,
}
use maxredis.Raft.Types.{LogIndex, LogEntry}
use maxredis.Raft.LogStorage.{LogStorage, LogLaws}
use maxredis.Raft.Node.Follower.{place_entry, append_loop}

-- The entries stand at the indexes `i`, `i + 1` and so on.
abbrev pub Consecutive : LogIndex → List LogEntry → Type 0
Consecutive i [] = Unit
Consecutive i (e ∷ es) = (e.index ≡ i) × Consecutive (suc i) es

module _ {L : Type 0} (st : LogStorage L) (laws : LogLaws st) where
  open laws use {IsValid, floor}

  -- A cut behind the index `k` stays above the compacted part of the log.
  abbrev pub CanCut : L → LogIndex → Type 0
  CanCut l k = (floor l < k) ⊎ (floor l ≡ 0)

  -- The log holds an entry of the term of `e` at the index `i`.
  abbrev pub HasTermOf : L → LogIndex → LogEntry → Type 0
  HasTermOf l i e = (x : LogEntry) × (st.get l i ≡ some x) × (x.term ≡ e.term)

  pub record Placed (l : L) (i : LogIndex) (e : LogEntry) (l' : L) : Type 0 where
    pub valid : IsValid l'
    pub floor_same : floor l' ≡ floor l
    pub below : (j : LogIndex) → j < i → st.get l' j ≡ st.get l j
    pub there : HasTermOf l' i e
    pub reaches : i ≤ st.last_index l'

  append-Placed :
      (l : L) (e : LogEntry) → IsValid l → Placed l (suc (st.last_index l)) e (st.append l e)
  append-Placed l e v = record {
    valid = laws.append-IsValid l e v;
    floor_same = laws.floor-append l e;
    below = λ j h. ground (arith, laws.get-append l e j v);
    there = (
      record e { index = suc (st.last_index l) },
      ground (arith, laws.get-append l e (suc (st.last_index l)) v),
      refl,
    );
    reaches = omega (arith, laws.last-append l e v);
  }

  module _ (l : L) (k : LogIndex) (e : LogEntry) (v : IsValid l) (cut : CanCut l k) where
    -- The log is cut behind `k`, and the entry is appended.
    replace-Placed : k ≤ st.last_index l → Placed l (suc k) e (st.append (st.truncate_from l k) e)
    replace-Placed fits =
        let l1 = st.truncate_from l k in
        let v1 = laws.truncate-IsValid l k v fits cut in
        let last = laws.last-truncate l k v fits cut in
        record {
          valid = laws.append-IsValid l1 e v1;
          floor_same = laws.floor-append l1 e ∙ laws.floor-truncate l k;
          below = λ j h.
              ground (arith, laws.get-append l1 e j v1, laws.get-truncate l k j v fits cut, last);
          there = (
            record e { index = suc (st.last_index l1) },
            ground (arith, laws.get-append l1 e (suc k) v1, last),
            refl,
          );
          reaches = omega (arith, laws.last-append l1 e v1, last);
        }

    -- An entry of the same term is kept.
    keep-Placed :
        (x : LogEntry)
        → st.get l (suc k) ≡ some x
        → x.term ≡ e.term
        → suc k ≤ st.last_index l
        → Placed l (suc k) e l
    keep-Placed x found same fits = record {
      valid = v;
      floor_same = refl;
      below = λ j h. refl;
      there = (x, found, same);
      reaches = fits;
    }

    as-Placed : {l' l'' : L} → l' ≡ l'' → Placed l (suc k) e l'' → Placed l (suc k) e l'
    as-Placed p h = subst (λ z. Placed l (suc k) e z) (sym p) h

    place-kept :
        (x : LogEntry)
        → st.get l (suc k) ≡ some x
        → e.index ≡ suc k
        → suc k ≤ st.last_index l
        → (x.term == e.term) ≡ true
        → place_entry st l e ≡ l
    unfolding place_entry
    place-kept x found at fits same = ground arith

    place-replaced :
        (x : LogEntry)
        → st.get l (suc k) ≡ some x
        → e.index ≡ suc k
        → suc k ≤ st.last_index l
        → (x.term == e.term) ≡ false
        → place_entry st l e ≡ st.append (st.truncate_from l k) e
    unfolding place_entry
    place-replaced x found at fits same = ground arith

    place-new : e.index ≡ suc k → k ≡ st.last_index l → place_entry st l e ≡ st.append l e
    unfolding place_entry
    place-new at fits = ground arith

    place-old : e.index ≡ suc k → suc k ≤ st.last_index l → Placed l (suc k) e (place_entry st l e)
    place-old at fits =
        let (x, found, own) =
          laws.get_within l (suc k) v (elim cut [ inl h ↦ omega arith | inr h ↦ omega arith ])
            fits in
        elim (Bool-cases (x.term == e.term)) [
          | inl same ↦
              as-Placed (place-kept x found at fits same)
                (keep-Placed x found (==→≡ x.term e.term same) fits)
          | inr same ↦
              as-Placed (place-replaced x found at fits same) (replace-Placed (omega arith))
        ]

    pub place-Placed :
        e.index ≡ suc k → k ≤ st.last_index l → Placed l (suc k) e (place_entry st l e)
    place-Placed at fits = elim (le_cases k (st.last_index l) fits) [
      | inl h ↦ place-old at h
      | inr h ↦
          as-Placed (place-new at h)
            (subst (λ z. Placed l (suc z) e (st.append l e)) (sym h) (append-Placed l e v))
    ]

  cut_next :
      (l : L) (k : LogIndex) (e : LogEntry) (v : IsValid l) (cut : CanCut l k)
      → e.index ≡ suc k
      → k ≤ st.last_index l
      → CanCut (place_entry st l e) (suc k)
  cut_next l k e v cut at fits =
      let same = (place-Placed l k e v cut at fits).floor_same in
      elim cut [ inl h ↦ inl (omega arith) | inr h ↦ inr (omega arith) ]

  -- What stands in the log once the loop has run from the index `i` over `es`.
  pub record Stored (l : L) (i : LogIndex) (es : List LogEntry) (l' : L) : Type 0 where
    pub valid : IsValid l'
    pub floor_same : floor l' ≡ floor l
    pub below : (j : LogIndex) → j < i → st.get l' j ≡ st.get l j
    pub there : (j : ℕ) (e : LogEntry) → get_elem? es j ≡ some e → HasTermOf l' (i + j) e
    pub reaches : i + length es ≤ suc (st.last_index l')

  -- An entry at or next to the tail of the log does not end the loop.
  loop_step :
      (e : LogEntry) (es : List LogEntry) (l : L)
      → e.index ≤ suc (st.last_index l)
      → append_loop st l (e ∷ es) ≡ append_loop st (place_entry st l e) es
  unfolding append_loop
  loop_step e es l h = ground arith

  there-Stored :
      (e : LogEntry) (es : List LogEntry) (l l' : L) (k : LogIndex)
      → Placed l (suc k) e (place_entry st l e)
      → Stored (place_entry st l e) (suc (suc k)) es l'
      → (j : ℕ) (x : LogEntry) → get_elem? (e ∷ es) j ≡ some x
      → HasTermOf l' (suc k + j) x
  there-Stored e es l l' k p s zero x at =
      let (y, found, same) = p.there in
      (y, ground (arith, s.below (suc k) (omega arith)), ground arith)
  there-Stored e es l l' k p s (suc j) x at =
      let shift : suc (suc k) + j ≡ suc k + suc j = omega arith in
      subst (λ z. HasTermOf l' z x) shift (s.there j x at)

  step-Stored :
      (e : LogEntry) (es : List LogEntry) (l l' : L) (k : LogIndex)
      → Placed l (suc k) e (place_entry st l e)
      → Stored (place_entry st l e) (suc (suc k)) es l'
      → Stored l (suc k) (e ∷ es) l'
  step-Stored e es l l' k p s = record {
    valid = s.valid;
    floor_same = s.floor_same ∙ p.floor_same;
    below = λ j h. s.below j (omega arith) ∙ p.below j h;
    there = there-Stored e es l l' k p s;
    reaches = omega (arith, s.reaches);
  }

  pub append_loop-runs :
      (es : List LogEntry) (l : L) (k : LogIndex)
      → IsValid l
      → CanCut l k
      → k ≤ st.last_index l
      → Consecutive (suc k) es
      → ((append_loop st l es).1 ≡ true) × Stored l (suc k) es (append_loop st l es).0
  unfolding append_loop
  append_loop-runs [] l k v cut fits c = (
    refl,
    record {
      valid = v;
      floor_same = refl;
      below = λ j h. refl;
      there = λ j e h. ground arith;
      reaches = omega arith;
    },
  )
  append_loop-runs (e ∷ es) l k v cut fits (at, c) =
      let p = place-Placed l k e v cut at fits in
      let rest =
        append_loop-runs es (place_entry st l e) (suc k) p.valid (cut_next l k e v cut at fits)
          p.reaches c in
      let step = loop_step e es l (omega arith) in
      (
        ap (λ z. z.1) step ∙ rest.0,
        subst (λ z. Stored l (suc k) (e ∷ es) z.0) (sym step) (step-Stored e es l _ k p rest.1),
      )
