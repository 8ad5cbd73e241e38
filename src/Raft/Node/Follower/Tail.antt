-- ===== src/Raft/Node/Follower/Tail.antt =====
-- The end of `OnAppendEntries`: the tail behind the entries of a request is cut off.
use maxredis.Base.{
  ℕ, zero, suc, ◌+◌, ◌≤◌, ◌<◌, ◌≡◌, ◌∙◌, sym, subst, inl, inr, some, List, [], ◌∷◌, arith, le_cases,
  length, get_last_or, get_elem?,
}
use maxredis.Raft.Types.{LogIndex, LogEntry, default_entry}
use maxredis.Raft.LogStorage.{LogStorage, LogLaws}
use maxredis.Raft.Node.Follower.{cut_tail}
use maxredis.Raft.Node.Follower.Matching.{Consecutive, CanCut, Stored}

last-Consecutive :
    (e : LogEntry) (es : List LogEntry) (k : LogIndex)
    → Consecutive (suc k) (e ∷ es)
    → (get_last_or default_entry (e ∷ es)).index ≡ k + length (e ∷ es)
last-Consecutive e [] k (at, c) = omega arith
last-Consecutive e (f ∷ es) k (at, c) = omega (arith, last-Consecutive f es (suc k) c)

within : (es : List LogEntry) (j : ℕ) (x : LogEntry) → get_elem? es j ≡ some x → j < length es
within [] j x h = ground arith
within (e ∷ es) zero x h = omega arith
within (e ∷ es) (suc j) x h = omega (arith, within es j x h)

module _ {L : Type 0} (st : LogStorage L) (laws : LogLaws st) where
  open laws use {IsValid, floor}

  module _ (l l' : L) (k : LogIndex) (es : List LogEntry) (s : Stored st laws l (suc k) es l')
      (cut : CanCut st laws l k) where
    cut-CanCut : CanCut st laws l' (k + length es)
    cut-CanCut =
        let same = s.floor_same in
        elim cut [ inl h ↦ inl (omega arith) | inr h ↦ inr (omega arith) ]

    cut_get :
        (j : LogIndex)
        → j ≤ k + length es
        → st.get (st.truncate_from l' (k + length es)) j ≡ st.get l' j
    cut_get j h =
        let fits : k + length es ≤ st.last_index l' = omega (arith, s.reaches) in
        ground (arith, laws.get-truncate l' (k + length es) j s.valid fits cut-CanCut)

    tail-last : st.last_index (st.truncate_from l' (k + length es)) ≡ k + length es
    tail-last = laws.last-truncate l' (k + length es) s.valid (omega (arith, s.reaches)) cut-CanCut

    tail-Stored : Stored st laws l (suc k) es (st.truncate_from l' (k + length es))
    tail-Stored = record {
      valid =
          laws.truncate-IsValid l' (k + length es) s.valid (omega (arith, s.reaches)) cut-CanCut;
      floor_same = laws.floor-truncate l' (k + length es) ∙ s.floor_same;
      below = λ j h. cut_get j (omega arith) ∙ s.below j h;
      there = λ j x at.
          let (y, found, same) = s.there j x at in
          (y, cut_get (suc k + j) (omega (arith, within es j x at)) ∙ found, same);
      reaches = omega (arith, tail-last);
    }

  cut_tail-cuts :
      (l' : L) (k : LogIndex) (e : LogEntry) (es : List LogEntry)
      → Consecutive (suc k) (e ∷ es)
      → k + length (e ∷ es) < st.last_index l'
      → cut_tail st (e ∷ es) l' ≡ st.truncate_from l' (k + length (e ∷ es))
  unfolding cut_tail
  cut_tail-cuts l' k e es c h = ground (arith, last-Consecutive e es k c)

  cut_tail-keeps :
      (l' : L) (k : LogIndex) (e : LogEntry) (es : List LogEntry)
      → Consecutive (suc k) (e ∷ es)
      → k + length (e ∷ es) ≡ st.last_index l'
      → cut_tail st (e ∷ es) l' ≡ l'
  unfolding cut_tail
  cut_tail-keeps l' k e es c h = ground (arith, last-Consecutive e es k c)

  pub cut_tail-Stored :
      (l l' : L) (k : LogIndex) (es : List LogEntry)
      → Stored st laws l (suc k) es l'
      → CanCut st laws l k
      → Consecutive (suc k) es
      → Stored st laws l (suc k) es (cut_tail st es l')
        × (0 < length es → st.last_index (cut_tail st es l') ≡ k + length es)
  unfolding cut_tail
  cut_tail-Stored l l' k [] s cut c = (s, λ h. omega arith)
  cut_tail-Stored l l' k (e ∷ es) s cut c =
      let P : L → Type 0 = λ z.
        Stored st laws l (suc k) (e ∷ es) z
        × (0 < length (e ∷ es) → st.last_index z ≡ k + length (e ∷ es)) in
      elim (le_cases (k + length (e ∷ es)) (st.last_index l') (omega (arith, s.reaches))) [
        | inl h ↦
            subst P (sym (cut_tail-cuts l' k e es c h))
              (tail-Stored l l' k (e ∷ es) s cut, λ p. tail-last l l' k (e ∷ es) s cut)
        | inr h ↦ subst P (sym (cut_tail-keeps l' k e es c h)) (s, λ p. sym h)
      ]
