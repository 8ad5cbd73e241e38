-- ===== src/Kv/Snapshot/Records.antt =====
-- A record of a snapshot file is read back.
use maxredis.Base.{
  ℕ, ◌%◌, ◌^◌, ◌<◌, ◌≡◌, refl, ap, ◌∙◌, some, ◌++◌, arith, Bytes, length, take, take_all, le_bytes,
  four_bytes-Fits, eight_bytes-Fits, read_word-append, read_exact-append,
}
use maxredis.Kv.Snapshot.{
  SnapshotRecord, record_bytes, read_value, read_key, read_expire, read_value_len, read_record,
}
use mathlib.Core.List.{append_assoc}

-- Lengths and expiries that the fields of a record hold.
pub record IsSmall (r : SnapshotRecord) : Type 0 where
  pub key_fits : length r.key < 2 ^ 32
  pub value_fits : length r.value < 2 ^ 32
  pub expire_fits : r.expire_at < 2 ^ 64

module _ (r : SnapshotRecord) (small : IsSmall r) (rest : Bytes) where
  abbrev from_key : Bytes
  from_key = r.key ++ (r.value ++ rest)

  -- The four fields with the text `text` behind them.
  abbrev fields : ℕ → ℕ → Bytes → Bytes
  fields key_len value_len text =
      le_bytes 4 key_len ++ (le_bytes 4 value_len ++ (le_bytes 8 r.expire_at ++ text))

  cut_is_whole : (s : Bytes) → take (length s) s ≡ s
  cut_is_whole s = take_all (length s) s (omega arith)

  fields-append :
      (text : Bytes)
      → fields (length r.key) (length r.value) text ++ rest
        ≡ fields (length r.key) (length r.value) (text ++ rest)
  fields-append text =
      append_assoc (le_bytes 4 (length r.key))
        (le_bytes 4 (length r.value) ++ (le_bytes 8 r.expire_at ++ text)) rest
      ∙ ap (λ z. le_bytes 4 (length r.key) ++ z)
          (append_assoc (le_bytes 4 (length r.value)) (le_bytes 8 r.expire_at ++ text) rest
            ∙ ap (λ z. le_bytes 4 (length r.value) ++ z)
                (append_assoc (le_bytes 8 r.expire_at) text rest))

  whole : record_bytes r ≡ fields (length r.key) (length r.value) (r.key ++ r.value)
  unfolding record_bytes
  whole =
      let k : length r.key % 2 ^ 32 ≡ length r.key = omega (arith, small.key_fits) in
      let v : length r.value % 2 ^ 32 ≡ length r.value = omega (arith, small.value_fits) in
      ap
        (λ n.
          fields n (length r.value % 2 ^ 32)
            (take n r.key ++ take (length r.value % 2 ^ 32) r.value))
        k
      ∙ ap (λ n. fields (length r.key) n (take (length r.key) r.key ++ take n r.value)) v
      ∙ ap (λ z. fields (length r.key) (length r.value) (z ++ take (length r.value) r.value))
          (cut_is_whole r.key)
      ∙ ap (λ z. fields (length r.key) (length r.value) (r.key ++ z)) (cut_is_whole r.value)

  bytes_then : record_bytes r ++ rest ≡ fields (length r.key) (length r.value) from_key
  bytes_then =
      ap (λ z. z ++ rest) whole
      ∙ fields-append (r.key ++ r.value)
      ∙ ap (fields (length r.key) (length r.value)) (append_assoc r.key r.value rest)

  read_value_lem : read_value (length r.value) r.key r.expire_at (r.value ++ rest) ≡ some (r, rest)
  unfolding read_value
  read_value_lem = ground (arith, read_exact-append (length r.value) r.value rest refl)

  read_key_lem : read_key (length r.key) (length r.value) r.expire_at from_key ≡ some (r, rest)
  unfolding read_key
  read_key_lem =
      ground (arith, read_exact-append (length r.key) r.key (r.value ++ rest) refl, read_value_lem)

  read_expire_lem :
      read_expire (length r.key) (length r.value) (le_bytes 8 r.expire_at ++ from_key)
      ≡ some (r, rest)
  unfolding read_expire
  read_expire_lem = ground (
    arith,
    read_word-append 8 r.expire_at from_key (eight_bytes-Fits r.expire_at small.expire_fits),
    read_key_lem,
  )

  read_value_len_lem :
      read_value_len
        (length r.key)
        (le_bytes 4 (length r.value) ++ (le_bytes 8 r.expire_at ++ from_key))
      ≡ some (r, rest)
  unfolding read_value_len
  read_value_len_lem = ground (
    arith,
    read_word-append 4 (length r.value) (le_bytes 8 r.expire_at ++ from_key)
        (four_bytes-Fits (length r.value) small.value_fits),
    read_expire_lem,
  )

  pub read_record-record_bytes : read_record (record_bytes r ++ rest) ≡ some (r, rest)
  unfolding read_record
  read_record-record_bytes =
      let behind = le_bytes 4 (length r.value) ++ (le_bytes 8 r.expire_at ++ from_key) in
      let word =
        read_word-append 4 (length r.key) behind (four_bytes-Fits (length r.key) small.key_fits) in
      let go : read_record (le_bytes 4 (length r.key) ++ behind) ≡ some (r, rest) =
        ground (arith, word, read_value_len_lem) in
      ap read_record bytes_then ∙ go
