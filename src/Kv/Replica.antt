-- ===== src/Kv/Replica.antt =====
-- A node of server/raft/raft_node.cc whose state machine is the store: what ApplyCommittedLogsLocked does
-- to the map that the shards hold together.
use maxredis.Base.{
  ℕ, suc, ◌-◌, ◌≤◌, ◌<◌, ◌≡◌, refl, ◌∙◌, sym, ap, Bool, true, false, Option, some, List, [], ◌∷◌,
  Bytes, min, if◌then◌else◌, arith,
}
use maxredis.Raft.Types.{LogEntry}
use maxredis.Raft.LogStorage.{LogStorage, LogLaws}
use maxredis.Raft.Node.{Node}
use maxredis.Raft.Node.Apply.{Applied, is_config_entry, apply_committed_logs}
use maxredis.Raft.Node.Apply.Ranges.{entries_from, entries_from-agree}
use maxredis.Raft.Node.Apply.Order.{run_commands}
use maxredis.Raft.Node.Apply.Loop.{apply_committed_logs_lem}
use maxredis.Kv.Command.{ℤ, apply_log_entry}
use maxredis.Kv.Machine.{Kv}
use maxredis.Kv.Machine.Refine.{IsValid, view}
use maxredis.Kv.Machine.Entries.{apply_log_entry_refines}
use maxredis.Kv.Snapshot.{kv_machine}
use maxredis.Kv.Spec.{Store, spec_ops}

module _ (simple_atoi : Bytes → Option ℤ) (now : ℕ) where
  -- The commands of the entries, one after the other, on one map.
  abbrev pub run_spec : List LogEntry → Store → Store
  run_spec [] m = m
  run_spec (e ∷ es) m =
      run_spec es
        (if is_config_entry e then m else (apply_log_entry simple_atoi now (spec_ops now) e m).0)

  -- A store of valid shards that hold the map `m`.
  abbrev pub Holds : (Bytes → ℕ) → Store → Kv → Type 0
  Holds hash m kv = IsValid hash kv × (view hash kv ≡ m)

  -- ApplyCommittedLogsLocked of a node with the store
  abbrev pub applied : {L : Type 0} → LogStorage L → (Bytes → ℕ) → Node L Kv → Applied L Kv
  applied st hash n = apply_committed_logs st (kv_machine hash now simple_atoi) now n

  module _ (hash : Bytes → ℕ) where
    either-Holds :
        (b : Bool) (m m' : Store) (kv kv' : Kv)
        → Holds hash m kv
        → Holds hash m' kv'
        → Holds hash (if b then m else m') (if b then kv else kv')
    either-Holds true m m' kv kv' h h' = h
    either-Holds false m m' kv kv' h h' = h'

    run_commands-Holds :
        (es : List LogEntry) (kv : Kv)
        → IsValid hash kv
        → Holds hash
            (run_spec es (view hash kv))
            (run_commands (kv_machine hash now simple_atoi) es kv)
    run_commands-Holds [] kv v = (v, refl)
    run_commands-Holds (e ∷ es) kv v =
        let refined = apply_log_entry_refines hash simple_atoi now e kv v in
        let one =
          either-Holds (is_config_entry e) _ _ _ _ (v, refl) (refined.0, ap (λ p. p.0) refined.1) in
        let rest = run_commands-Holds es _ one.0 in (rest.0, rest.1 ∙ ap (run_spec es) one.1)

    module _ {L : Type 0} (st : LogStorage L) (laws : LogLaws st) (l : L)
        (own : laws.IsValid l) where
      -- With a valid log and a valid store, started at or above the compacted part of the log, and unless
      -- a CONFIG_CHANGE cannot be read, the apply loop leaves a valid store, and does to the map that its
      -- shards hold what the commands behind the last applied one, up to the commit index or the end of
      -- the log, do one after the other to one map, while the clock gives one time.
      pub applied_store :
          (n : Node L Kv) (kv : Kv)
          → n.log ≡ some l
          → n.machine ≡ some kv
          → laws.floor l ≤ n.last_applied
          → (applied st hash n).threw ≡ false
          → IsValid hash kv
          → let until = min n.commit_index (st.last_index l) in
            (kv' : Kv) × ((applied st hash n).node.machine ≡ some kv')
            × Holds hash
                (run_spec
                  (entries_from st l (suc n.last_applied) (until - n.last_applied))
                  (view hash kv))
                kv'
      applied_store n kv has at low fine v =
          let (_, machine) =
            apply_committed_logs_lem st (kv_machine hash now simple_atoi) laws l own now n kv has at
              low fine in
          (
            _,
            machine,
            run_commands-Holds
                (entries_from st l (suc n.last_applied)
                  (min n.commit_index (st.last_index l) - n.last_applied))
                kv v,
          )

  module _ {L : Type 0} (st : LogStorage L) (laws : LogLaws st) where
    -- Two nodes whose valid stores hold the same map and whose valid logs have the same entries behind
    -- the last applied one, which they share and which is at or above the compacted parts, up to the
    -- commit index, which they share and which both logs reach, hold the same map when both apply loops
    -- ended without an exception, in whatever number of shards and by whatever hash, while both clocks
    -- give one time.
    pub nodes_agree :
        (hash other : Bytes → ℕ) (a b : Node L Kv) (l l' : L) (kv kv' : Kv)
        → laws.IsValid l
        → laws.IsValid l'
        → a.log ≡ some l
        → b.log ≡ some l'
        → a.machine ≡ some kv
        → b.machine ≡ some kv'
        → laws.floor l ≤ a.last_applied
        → laws.floor l' ≤ b.last_applied
        → a.last_applied ≡ b.last_applied
        → a.commit_index ≡ b.commit_index
        → a.commit_index ≤ st.last_index l
        → b.commit_index ≤ st.last_index l'
        → ((i : ℕ) → a.last_applied < i → i ≤ a.commit_index → st.get l i ≡ st.get l' i)
        → (applied st hash a).threw ≡ false
        → (applied st other b).threw ≡ false
        → IsValid hash kv
        → IsValid other kv'
        → view hash kv ≡ view other kv'
        → (after : Kv) × (after' : Kv) × ((applied st hash a).node.machine ≡ some after)
          × ((applied st other b).node.machine ≡ some after')
          × (view hash after ≡ view other after')
    nodes_agree hash other a b l l' kv kv' own own' has has' at at' low low' same_applied
          same_commit reach reach' agree fine fine' v v' same =
        let (after, machine, holds) = applied_store hash st laws l own a kv has at low fine v in
        let (after', machine', holds') =
          applied_store other st laws l' own' b kv' has' at' low' fine' v' in
        let size : min a.commit_index (st.last_index l) - a.last_applied
            ≡ min b.commit_index (st.last_index l') - b.last_applied =
          omega arith in
        let entries =
          entries_from-agree st l l' (suc a.last_applied)
            (min a.commit_index (st.last_index l) - a.last_applied)
            (λ i above below. agree i (omega arith) (omega arith)) in
        (
          after,
          after',
          machine,
          machine',
          holds.1
              ∙ ap (λ z. run_spec z (view hash kv))
                  (entries
                    ∙ ap
                        (λ z.
                          entries_from st l' (suc z)
                            (min a.commit_index (st.last_index l) - a.last_applied))
                        same_applied
                    ∙ ap (entries_from st l' (suc b.last_applied)) size)
              ∙ ap
                  (run_spec (
                    entries_from st l' (suc b.last_applied)
                      (min b.commit_index (st.last_index l') - b.last_applied)))
                  same
              ∙ sym holds'.1,
        )
