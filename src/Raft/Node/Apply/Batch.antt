-- ===== src/Raft/Node/Apply/Batch.antt =====
-- One batch of ApplyCommittedLogsLocked: whether there is one, what it reads and what it does.
use maxredis.Base.{
  ℕ, zero, suc, ◌+◌, ◌-◌, ◌≤◌, ◌<◌, ◌≡◌, refl, ◌∙◌, sym, ap, subst, true, false, some, List, [],
  ◌∷◌, ◌++◌, arith, inl, inr, length, min, is_empty, lt_or_le, max,
}
use maxredis.Raft.Types.{LogIndex, LogEntry}
use maxredis.Raft.LogStorage.{LogStorage, LogLaws}
use maxredis.Raft.StateMachine.{StateMachine}
use maxredis.Raft.Node.{Node}
use maxredis.Raft.Node.Apply.{Applied, apply_round, goes_on, has_more, next_batch, batch_size}
use maxredis.Raft.Node.Apply.Ranges.{
  entries_from, entries_from-found, clip-entries_from, length-entries_from, range-entries_from,
  append-entries_from,
}
use maxredis.Raft.Node.Follower.Matching.{Consecutive}
use maxredis.Raft.Node.Apply.Order.{At, run_commands, run_commands-++, round-At}

nonempty : (es : List LogEntry) → 0 < length es → is_empty es ≡ false
nonempty [] h = elim h [ ]
nonempty (e ∷ es) h = refl

module _ {L S : Type 0} (st : LogStorage L) (sm : StateMachine S) where
  module _ (laws : LogLaws st) (l : L) (v : laws.IsValid l) where
    entries_from-Consecutive :
        (i k : ℕ)
        → laws.floor l < i
        → i + k ≤ suc (st.last_index l)
        → Consecutive i (entries_from st l i k)
    entries_from-Consecutive i zero low high = tt
    entries_from-Consecutive i (suc k) low high =
        let (e, found, own, path) = entries_from-found st laws l v i k low (omega arith) in
        subst (λ z. Consecutive i z) (sym path)
          (own, entries_from-Consecutive (suc i) k (omega arith) (omega arith))

    -- The number of entries in the next batch, behind the index `i` and up to `c`.
    abbrev pub batch_length : ℕ → ℕ → ℕ
    batch_length i c = min (min batch_size (c - i)) (st.last_index l - i)

    next_batch_read :
        (n : Node L S) (i : LogIndex)
        → n.log ≡ some l
        → n.last_applied ≡ i
        → next_batch st sm n ≡ st.get_range l (i + 1) (min batch_size (n.commit_index - i))
    unfolding next_batch
    next_batch_read n i at la = ground arith

    next_batch_lem :
        (n : Node L S) (i : LogIndex)
        → n.log ≡ some l
        → n.last_applied ≡ i
        → laws.floor l ≤ i
        → i < st.last_index l
        → i < n.commit_index
        → next_batch st sm n ≡ entries_from st l (suc i) (batch_length i n.commit_index)
    next_batch_lem n i at la low high more =
        let m = min batch_size (n.commit_index - i) in
        let shift : i + 1 ≡ suc i = omega arith in
        let short : min m (suc (st.last_index l) - suc i) ≡ batch_length i n.commit_index =
          omega arith in
        next_batch_read n i at la
        ∙ ap (λ z. st.get_range l z m) shift
        ∙ range-entries_from st laws l v (suc i) m (omega arith) (omega arith) (omega arith)
            (omega arith)
        ∙ clip-entries_from st laws l v (suc i) m (omega arith)
        ∙ ap (λ z. entries_from st l (suc i) z) short

    pub goes_on-true :
        (a : Applied L S) (i : LogIndex)
        → a.node.log ≡ some l
        → a.node.last_applied ≡ i
        → goes_on st sm a ≡ true
        → (i < a.node.commit_index) × (i < st.last_index l)
    unfolding goes_on has_more
    goes_on-true a i own la g = (ground arith, ground arith)

    goes_on-nonempty :
        (a : Applied L S) (i : LogIndex)
        → a.node.log ≡ some l
        → a.node.last_applied ≡ i
        → i < a.node.commit_index
        → i < st.last_index l
        → a.threw ≡ false
        → is_empty (next_batch st sm a.node) ≡ false
        → goes_on st sm a ≡ true
    unfolding goes_on has_more
    goes_on-nonempty a i own la more high ok some_batch = ground arith

    pub goes_on-false :
        (a : Applied L S) (i : LogIndex)
        → a.node.log ≡ some l
        → a.node.last_applied ≡ i
        → laws.floor l ≤ i
        → a.threw ≡ false
        → goes_on st sm a ≡ false
        → min a.node.commit_index (st.last_index l) ≤ i
    goes_on-false a i own la low ok g =
        elim (lt_or_le i (min a.node.commit_index (st.last_index l))) [
          | inr h ↦ h
          | inl h ↦
              let k = batch_length i a.node.commit_index in
              let batch = next_batch_lem a.node i own la low (omega arith) (omega arith) in
              let size = length-entries_from st laws l v (suc i) k (omega arith) (omega arith) in
              let full =
                goes_on-nonempty a i own la (omega arith) (omega arith) ok
                  (nonempty (next_batch st sm a.node) (omega (arith, ap length batch))) in
              ground arith
        ]

    pub done-At :
        (n : Node L S) (i m : LogIndex) (s : S)
        → At i s n
        → m ≤ i
        → At (max i m) (run_commands sm (entries_from st l (suc i) (m - i)) s) n
    done-At n i m s at h =
        let none_left : m - i ≡ 0 = omega arith in
        rw none_left
          (record { last_applied = omega (arith, at.last_applied); machine = at.machine })

    pub batch-At :
        (now : ℕ) (a : Applied L S) (i : LogIndex) (s : S)
        → a.node.log ≡ some l
        → At i s a.node
        → laws.floor l ≤ i
        → i < st.last_index l
        → i < a.node.commit_index
        → (apply_round st sm now a).threw ≡ false
        → At
            (i + batch_length i a.node.commit_index)
            (run_commands sm (entries_from st l (suc i) (batch_length i a.node.commit_index)) s)
            (apply_round st sm now a).node
    batch-At now a i s own at low high more h =
        let k = batch_length i a.node.commit_index in
        let batch = next_batch_lem a.node i own at.last_applied low high more in
        let size = length-entries_from st laws l v (suc i) k (omega arith) (omega arith) in
        let here =
          round-At st sm now a i s at
            (subst (λ z. Consecutive (suc i) z) (sym batch)
              (entries_from-Consecutive (suc i) k (omega arith) (omega arith)))
            h in
        record {
          last_applied = omega (arith, here.last_applied, ap length batch);
          machine = here.machine ∙ ap (λ z. some (run_commands sm z s)) batch;
        }

    -- A batch and the rest are together what was left.
    pub join-At :
        (n : Node L S) (i k m : LogIndex) (s : S)
        → laws.floor l ≤ i
        → i + k ≤ m
        → m ≤ st.last_index l
        → At
            (max (i + k) m)
            (run_commands sm
              (entries_from st l (suc (i + k)) (m - (i + k)))
              (run_commands sm (entries_from st l (suc i) k) s))
            n
        → At (max i m) (run_commands sm (entries_from st l (suc i) (m - i)) s) n
    join-At n i k m s low fits high at =
        let total : m - i ≡ k + (m - (i + k)) = omega arith in
        let split =
          append-entries_from st laws l v (suc i) k (m - (i + k)) (omega arith) (omega arith) in
        let shift : suc i + k ≡ suc (i + k) = omega arith in
        let whole : entries_from st l (suc i) (m - i)
            ≡ entries_from st l (suc i) k ++ entries_from st l (suc (i + k)) (m - (i + k)) =
          ap (λ z. entries_from st l (suc i) z) total
          ∙ split
          ∙ ap (λ z. entries_from st l (suc i) k ++ entries_from st l z (m - (i + k))) shift in
        record {
          last_applied = omega (arith, at.last_applied);
          machine =
              at.machine
              ∙ ap some (
                  sym (
                    ap (λ z. run_commands sm z s) whole
                    ∙ run_commands-++ sm (entries_from st l (suc i) k) _ s));
        }
