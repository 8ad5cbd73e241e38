-- ===== src/Kv/Command/Simulation.antt =====
-- A log entry does the same to two stores whose operations correspond.
use maxredis.Base.{
  ℕ, ◌+◌, ◌%◌, ◌^◌, ◌≡◌, refl, ap, ◌∙◌, Bool, true, false, Option, none, some, List, [], ◌∷◌, Bytes,
  codes, bytes_eq, is_empty, if◌then◌else◌, ◌&&◌,
}
use maxredis.Raft.Types.{LogEntry, ApplyResult}
use maxredis.Raft.RespArray.{parse_resp_array}
use maxredis.Raft.ReplicatedCommand.{split_spaces}
use maxredis.Kv.Command.{
  KvOps, ℤ, rows, error_result, no_options, natural, expiry, parse_options, row_of, apply_log_entry,
  apply_args, apply_set_args, apply_del_args, apply_expire_args, delete_keys,
}

module _ {S T : Type 0} (IsValid : S → Type 0) (view : S → T) where
  -- The state is valid, and it is seen as that of `q`, with the same result.
  abbrev pub Simulates {ℓ} : {A : Type ℓ} → S × A → T × A → Type ℓ
  Simulates p q = IsValid p.0 × ((view p.0, p.1) ≡ q)

  pub record OpsSimulate (ops : KvOps S) (spec : KvOps T) : Type 0 where
    pub apply_set :
        (key val : Bytes) (nx xx : Bool) (at : ℕ) (s : S)
        → IsValid s
        → Simulates (ops.apply_set key val nx xx at s) (spec.apply_set key val nx xx at (view s))
    pub del : (key : Bytes) (s : S) → IsValid s → Simulates (ops.del key s) (spec.del key (view s))
    pub expire :
        (key : Bytes) (at : ℕ) (s : S)
        → IsValid s
        → Simulates (ops.expire key at s) (spec.expire key at (view s))

module _ (simple_atoi : Bytes → Option ℤ) (now : ℕ) {S T : Type 0} {IsValid : S → Type 0}
    {view : S → T} {ops : KvOps S} {spec : KvOps T} (sim : OpsSimulate IsValid view ops spec) where
  abbrev Same : S × ApplyResult → T × ApplyResult → Type 0
  Same = Simulates IsValid view

  state-Same : (r : ApplyResult) (s : S) → IsValid s → Same (s, r) (view s, r)
  state-Same r s v = (v, refl)

  row_of-Same :
      {p : S × Bool} {q : T × Bool}
      → Simulates IsValid view p q
      → Same (row_of simple_atoi now ops p) (row_of simple_atoi now spec q)
  row_of-Same {p} {q} h = (h.0, ap (row_of simple_atoi now spec) h.1)

  option_Same :
      {A : Type 0} (o : Option A) {p : S × ApplyResult} {q : T × ApplyResult}
      {f : A → S × ApplyResult} {g : A → T × ApplyResult}
      → Same p q
      → ((a : A) → Same (f a) (g a))
      → Same (elim o [ none ↦ p | some a ↦ f a ]) (elim o [ none ↦ q | some a ↦ g a ])
  option_Same none h k = h
  option_Same (some a) h k = k a

  apply_set_args-Same :
      (args : List Bytes) (s : S)
      → IsValid s
      → Same
          (apply_set_args simple_atoi now ops args s)
          (apply_set_args simple_atoi now spec args (view s))
  unfolding apply_set_args
  apply_set_args-Same [] s v = state-Same error_result s v
  apply_set_args-Same (key ∷ []) s v = state-Same error_result s v
  apply_set_args-Same (key ∷ val ∷ opts) s v =
      option_Same (parse_options simple_atoi now opts no_options) (state-Same error_result s v)
        (λ so. row_of-Same (sim.apply_set key val so.nx so.xx so.expire_at_ms s v))

  delete_keys-Same :
      (keys : List Bytes) (n : ℕ) (s : S)
      → IsValid s
      → Same
          (delete_keys simple_atoi now ops keys n s)
          (delete_keys simple_atoi now spec keys n (view s))
  unfolding delete_keys
  delete_keys-Same [] n s v = state-Same (rows n) s v
  delete_keys-Same (key ∷ keys) n s v =
      let p = ops.del key s in
      let d = sim.del key s v in
      let count = if p.1 then (n + 1) % 2 ^ 32 else n in
      let rest = delete_keys-Same keys count p.0 d.0 in
      (
        rest.0,
        rest.1
            ∙ ap
                (λ (q : T × Bool).
                  delete_keys simple_atoi now spec keys (if q.1 then (n + 1) % 2 ^ 32 else n) q.0)
                d.1,
      )

  apply_del_args-Same :
      (args : List Bytes) (s : S)
      → IsValid s
      → Same
          (apply_del_args simple_atoi now ops args s)
          (apply_del_args simple_atoi now spec args (view s))
  unfolding apply_del_args
  apply_del_args-Same [] s v = state-Same error_result s v
  apply_del_args-Same (key ∷ keys) s v = delete_keys-Same (key ∷ keys) 0 s v

  apply_expire_args-Same :
      (args : List Bytes) (s : S)
      → IsValid s
      → Same
          (apply_expire_args simple_atoi now ops args s)
          (apply_expire_args simple_atoi now spec args (view s))
  unfolding apply_expire_args
  apply_expire_args-Same [] s v = state-Same error_result s v
  apply_expire_args-Same (key ∷ []) s v = state-Same error_result s v
  apply_expire_args-Same (key ∷ seconds ∷ more) s v =
      option_Same (natural (simple_atoi seconds)) (state-Same error_result s v)
        (λ n. row_of-Same (sim.expire key (expiry now n 1000) s v))

  if_Same :
      (b : Bool) {p p' : S × ApplyResult} {q q' : T × ApplyResult}
      → Same p q
      → Same p' q'
      → Same (if b then p else p') (if b then q else q')
  if_Same true h h' = h
  if_Same false h h' = h'

  pub apply_args-Same :
      (args : List Bytes) (s : S)
      → IsValid s
      → Same (apply_args simple_atoi now ops args s) (apply_args simple_atoi now spec args (view s))
  unfolding apply_args
  apply_args-Same [] s v = state-Same error_result s v
  apply_args-Same (name ∷ args) s v =
      if_Same (bytes_eq name (codes "SET")) (apply_set_args-Same args s v) (
        if_Same (bytes_eq name (codes "DEL")) (apply_del_args-Same args s v) (
          if_Same (bytes_eq name (codes "EXPIRE")) (apply_expire_args-Same args s v)
            (state-Same error_result s v)))

  pub apply_log_entry-Same :
      (e : LogEntry) (s : S)
      → IsValid s
      → Same
          (apply_log_entry simple_atoi now ops e s)
          (apply_log_entry simple_atoi now spec e (view s))
  unfolding apply_log_entry
  apply_log_entry-Same e s v =
      let (parsed, args) = parse_resp_array e.command in
      if_Same (parsed && is_empty args) (state-Same error_result s v)
        (apply_args-Same (if is_empty args then split_spaces e.command else args) s v)
