-- ===== src/Kv/Machine/Clients.antt =====
-- What a client sees of a command that went through the log.
use maxredis.Base.{
  ℕ, ◌<◌, ◌≡◌, ◌≢◌, sym, ap, ◌∙◌, false, Option, none, some, List, [], ◌∷◌, ◌++◌, arith, Bytes,
  codes, length, u64_mod, bytes_eq, bytes_eq_iff, if◌then◌else◌,
}
use maxredis.Raft.Types.{LogEntry}
use maxredis.Raft.RespArray.{parse_resp_array, encode_count, encode_args, encode_resp_array}
use maxredis.Raft.RespArray.RoundTrip.{parse-encode_resp_array, parse_cut_array}
use maxredis.Kv.DbSlice.{is_expired}
use maxredis.Kv.DbSlice.Laws.{find_lem}
use maxredis.Kv.Command.{KvOps, ℤ, rows, apply_log_entry, apply_args, apply_set_args, parse_options}
use maxredis.Kv.Machine.{Kv, kv_ops, get, get_task, value_of, shard}
use maxredis.Kv.Machine.Refine.{IsValid, view, Simulates, await_lem}
use maxredis.Kv.Machine.Entries.{apply_log_entry_refines}
use maxredis.Kv.Spec.{live, or_empty, update_at, set_entry, spec_ops}

module _ (simple_atoi : Bytes → Option ℤ) (now : ℕ) {S : Type 0} (ops : KvOps S) where
  -- A log entry that `Serialize` made is the command.
  pub apply_encoded :
      (name : Bytes) (args : List Bytes) (e : LogEntry) (s : S)
      → length (encode_resp_array (name ∷ args)) < u64_mod
      → e.command ≡ encode_resp_array (name ∷ args)
      → apply_log_entry simple_atoi now ops e s ≡ apply_args simple_atoi now ops (name ∷ args) s
  unfolding apply_log_entry
  apply_encoded name args e s h same =
      let parsed = ap parse_resp_array same ∙ parse-encode_resp_array (name ∷ args) h in
      ground (arith, parsed)

  -- A log entry that is cut behind an argument is not refused: it is applied as the command without
  -- the arguments that are missing.
  pub apply_cut_entry :
      (name : Bytes) (args : List Bytes) (arg : Bytes) (missing : List Bytes) (e : LogEntry) (s : S)
      → length (encode_resp_array (name ∷ args ++ arg ∷ missing)) < u64_mod
      → e.command
        ≡ encode_count (length (name ∷ args ++ arg ∷ missing)) ++ encode_args (name ∷ args)
      → apply_log_entry simple_atoi now ops e s ≡ apply_args simple_atoi now ops (name ∷ args) s
  unfolding apply_log_entry
  apply_cut_entry name args arg missing e s h cut =
      let parsed = ap parse_resp_array cut ∙ parse_cut_array (name ∷ args) arg missing h in
      ground (arith, parsed)

module _ (hash : Bytes → ℕ) where
  get-Simulates :
      (now : ℕ) (key : Bytes) (kv : Kv)
      → IsValid hash kv
      → Simulates hash
          (get hash now 0 key kv)
          (update_at key (λ old. (live now old, value_of (live now old))) (view hash kv))
  unfolding get get_task
  get-Simulates now key kv v =
      let sid = shard hash kv key in
      let (writes, found) = find_lem now (kv.slice sid) key (v.ready sid) in
      await_lem hash key (λ old. (live now old, value_of (live now old))) (get_task now 0 key) kv v
        (writes, ap value_of found)

  -- What GET answers at `now`.
  pub get_value :
      (now : ℕ) (key : Bytes) (kv : Kv)
      → IsValid hash kv
      → (get hash now 0 key kv).1 ≡ value_of (live now (view hash kv key))
  get_value now key kv v = ap (λ p. p.1) (get-Simulates now key kv v).1

  module _ (simple_atoi : Bytes → Option ℤ) (now : ℕ) where
    set_view :
        (key val : Bytes) (e : LogEntry) (kv : Kv)
        → IsValid hash kv
        → length (encode_resp_array (codes "SET" ∷ key ∷ val ∷ [])) < u64_mod
        → e.command ≡ encode_resp_array (codes "SET" ∷ key ∷ val ∷ [])
        → apply_log_entry simple_atoi now (spec_ops now) e (view hash kv)
          ≡ ((update_at key (set_entry now val false false 0) (view hash kv)).0, rows 1)
    unfolding apply_args apply_set_args parse_options bytes_eq
    set_view key val e kv v h same =
        apply_encoded simple_atoi now (spec_ops now) (codes "SET") (key ∷ val ∷ []) e (view hash kv)
          h same

    -- Once the log entry of `SET key val` is applied, GET of the key answers the value for as long as
    -- the entry that was there would have lived, for ever if there was none or it had expired or had
    -- no expiry; GET of another key answers what it would have answered.
    pub get_after_set :
        (later : ℕ) (key val other : Bytes) (e : LogEntry) (kv : Kv)
        → IsValid hash kv
        → length (encode_resp_array (codes "SET" ∷ key ∷ val ∷ [])) < u64_mod
        → e.command ≡ encode_resp_array (codes "SET" ∷ key ∷ val ∷ [])
        → other ≢ key
        → let after = (apply_log_entry simple_atoi now (kv_ops hash now) e kv).0 in
          ((get hash later 0 key after).1 ≡ (
            if is_expired later (or_empty (live now (view hash kv key))) then none else some val))
          × ((get hash later 0 other after).1 ≡ (get hash later 0 other kv).1)
    get_after_set later key val other e kv v h same ne =
        let after = (apply_log_entry simple_atoi now (kv_ops hash now) e kv).0 in
        let (valid, seen) = apply_log_entry_refines hash simple_atoi now e kv v in
        let written = seen ∙ set_view key val e kv v h same in
        let get_at = λ (j : Bytes).
          get_value later j after valid ∙ ap (λ p. value_of (live later (p.0 j))) written in
        (
          get_at key ∙ ground (arith, bytes_eq_iff key key),
          get_at other ∙ ground (arith, bytes_eq_iff key other) ∙ sym (get_value later other kv v),
        )
