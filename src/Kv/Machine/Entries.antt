-- ===== src/Kv/Machine/Entries.antt =====
-- Log entries applied to the shards.
use maxredis.Base.{ℕ, ◌≡◌, refl, sym, ap, ◌∙◌, Option, List, [], ◌∷◌, Bytes}
use maxredis.Raft.Types.{LogEntry, ApplyResult}
use maxredis.Kv.Command.{KvOps, ℤ, apply_log_entry}
use maxredis.Kv.Command.Simulation.{OpsSimulate, apply_log_entry-Same}
use maxredis.Kv.Machine.{Kv, kv_ops}
use maxredis.Kv.Machine.Refine.{IsValid, view, apply_set-Simulates, del-Simulates, expire-Simulates}
use maxredis.Kv.Spec.{Store, spec_ops}

module _ (hash : Bytes → ℕ) (simple_atoi : Bytes → Option ℤ) (now : ℕ) where
  kv_simulates : OpsSimulate (IsValid hash) (view hash) (kv_ops hash now) (spec_ops now)
  kv_simulates = record {
    apply_set = λ key val nx xx at kv v. apply_set-Simulates hash now key val nx xx at kv v;
    del = del-Simulates hash;
    expire = expire-Simulates hash;
  }

  -- The shards are valid after any log entry, and it does to the map that they hold together, and
  -- answers, what it does to one map.
  pub apply_log_entry_refines :
      (e : LogEntry) (kv : Kv)
      → IsValid hash kv
      → let after = apply_log_entry simple_atoi now (kv_ops hash now) e kv in
        IsValid hash after.0
        × ((view hash after.0, after.1)
            ≡ apply_log_entry simple_atoi now (spec_ops now) e (view hash kv))
  apply_log_entry_refines e kv v = apply_log_entry-Same simple_atoi now kv_simulates e kv v

-- Entries in their order, each with what the clock gives while it is applied.
abbrev pub apply_entries :
    {S : Type 0} (simple_atoi : Bytes → Option ℤ) (ops : ℕ → KvOps S)
    → List (ℕ × LogEntry)
    → S
    → S × List ApplyResult
apply_entries simple_atoi ops [] s = (s, [])
apply_entries simple_atoi ops ((now, e) ∷ es) s =
    let (s', r) = apply_log_entry simple_atoi now (ops now) e s in
    let (s'', rs) = apply_entries simple_atoi ops es s' in (s'', r ∷ rs)

module _ (simple_atoi : Bytes → Option ℤ) where
  entries_refine :
      (hash : Bytes → ℕ) (es : List (ℕ × LogEntry)) (kv : Kv)
      → IsValid hash kv
      → let after = apply_entries simple_atoi (kv_ops hash) es kv in
        IsValid hash after.0
        × ((view hash after.0, after.1) ≡ apply_entries simple_atoi spec_ops es (view hash kv))
  entries_refine hash [] kv v = (v, refl)
  entries_refine hash ((now, e) ∷ es) kv v =
      let one = apply_log_entry_refines hash simple_atoi now e kv v in
      let (kv', r) = apply_log_entry simple_atoi now (kv_ops hash now) e kv in
      let rest = entries_refine hash es kv' one.0 in
      (
        rest.0,
        ap (λ (p : Store × List ApplyResult). (p.0, r ∷ p.1)) rest.1
            ∙ ap
                (λ (q : Store × ApplyResult).
                  let after = apply_entries simple_atoi spec_ops es q.0 in (after.0, q.1 ∷ after.1))
                one.1,
      )

  -- Two replicas that hold the same map, in whatever number of shards and by whatever hash, hold the
  -- same map after the same entries and have answered the same, if their clocks gave the same times.
  pub replicas_agree :
      (hash other : Bytes → ℕ) (es : List (ℕ × LogEntry)) (a b : Kv)
      → IsValid hash a
      → IsValid other b
      → view hash a ≡ view other b
      → let after = apply_entries simple_atoi (kv_ops hash) es a in
        let after' = apply_entries simple_atoi (kv_ops other) es b in
        (view hash after.0 ≡ view other after'.0) × (after.1 ≡ after'.1)
  replicas_agree hash other es a b v w h =
      let same =
        (entries_refine hash es a v).1
        ∙ ap (apply_entries simple_atoi spec_ops es) h
        ∙ sym (entries_refine other es b w).1 in
      (ap (λ p. p.0) same, ap (λ p. p.1) same)
