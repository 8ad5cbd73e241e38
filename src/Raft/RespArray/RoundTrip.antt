-- ===== src/Raft/RespArray/RoundTrip.antt =====
-- An encoded array is parsed back, and one that is cut behind an argument is refused.
use maxredis.Base.{
  subst, ℕ, suc, ◌+◌, ◌<◌, ◌≤◌, ◌≡◌, refl, sym, ap, ◌∙◌, true, false, List, [], ◌∷◌, ◌++◌, arith,
  Bytes, length, drop, length-append, to_string, u64_mod,
}
use maxredis.Raft.RespArray.{
  encode_arg, encode_args, encode_count, encode_resp_array, starts, refused, parsed, parse_arg,
  parse_args, parse_resp_array,
}
use native.Mathlib.Nat.{add-zero}
use mathlib.Core.List.{append-nil, append_assoc}
use maxredis.Raft.RespArray.Arg.{
  length-encode_arg, drop_behind, read_number-to_string, parse_arg-encode_arg,
}

parse_args_next :
    (count : ℕ) (text : Bytes) (pos : ℕ) (out : List Bytes) (arg : Bytes) {next : ℕ}
    → parse_arg text pos ≡ parsed arg next
    → parse_args (suc count) text pos out ≡ parse_args count text next (out ++ arg ∷ [])
unfolding parse_args
parse_args_next count text pos out arg h = ground (arith, h)

-- The loop over arguments that stand at `pos`, with any text behind them.
pub parse_args-encode_args :
    (args : List Bytes) (more : ℕ) (text rest : Bytes) (pos : ℕ) (out : List Bytes)
    → length text < u64_mod
    → drop pos text ≡ encode_args args ++ rest
    → parse_args (length args + more) text pos out
      ≡ parse_args more text (pos + length (encode_args args)) (out ++ args)
unfolding parse_args encode_args
parse_args-encode_args [] more text rest pos out h at =
    let none_yet : 0 + more ≡ more = omega arith in rw (append-nil out, add-zero pos, none_yet) refl
parse_args-encode_args (arg ∷ args) more text rest pos out h at =
    let at' = at ∙ append_assoc (encode_arg arg) (encode_args args) rest in
    let one = parse_arg-encode_arg text arg (encode_args args ++ rest) pos h at' in
    let behind = drop_behind text pos (encode_arg arg) (encode_args args ++ rest) at' in
    let others =
      parse_args-encode_args args more text rest (pos + length (encode_arg arg)) (out ++ arg ∷ []) h
        behind in
    let turns : length (arg ∷ args) + more ≡ suc (length args + more) = omega arith in
    let end : pos + length (encode_arg arg) + length (encode_args args)
        ≡ pos + length (encode_arg arg ++ encode_args args) =
      omega (arith, length-append (encode_arg arg) (encode_args args)) in
    ap (λ n. parse_args n text pos out) turns
    ∙ parse_args_next (length args + more) text pos out arg one
    ∙ others
    ∙ ap (λ k. parse_args more text k (out ++ arg ∷ [] ++ args)) end
    ∙ ap (parse_args more text (pos + length (encode_arg arg ++ encode_args args)))
        (append_assoc out (arg ∷ []) args)

-- The whole text, with `more` arguments announced that are not there.
abbrev text_of : List Bytes → ℕ → Bytes
text_of args more = encode_count (length args + more) ++ encode_args args

parse_count :
    (text : Bytes) (count : ℕ) (rest : Bytes)
    → text ≡ encode_count count ++ rest
    → count < u64_mod
    → parse_resp_array text ≡ parse_args count text (length (encode_count count)) []
unfolding parse_resp_array encode_count
parse_count text count rest e h =
    let ds = to_string count in
    let behind : drop 1 text ≡ ds ++ 13 ∷ 10 ∷ rest =
      ap (drop 1) e ∙ append_assoc ds (13 ∷ 10 ∷ []) rest in
    let number = read_number-to_string text 1 count rest h behind in
    let end : 1 + length ds + 2 ≡ suc (length (ds ++ 13 ∷ 10 ∷ [])) =
      omega (arith, length-append ds (13 ∷ 10 ∷ [])) in
    ground (arith, number, ap (starts b'*') e, ap (λ k. parse_args count text k []) end)

parse-text_of :
    (args : List Bytes) (more : ℕ)
    → length args + more < u64_mod
    → length (text_of args more) < u64_mod
    → parse_resp_array (text_of args more)
      ≡ parse_args more (text_of args more) (length (text_of args more)) args
parse-text_of args more n h =
    let head = encode_count (length args + more) in
    let text = text_of args more in
    let behind =
      drop_behind text 0 head (encode_args args) refl ∙ sym (append-nil (encode_args args)) in
    let size : 0 + length head ≡ length head = omega arith in
    parse_count text (length args + more) (encode_args args) refl n
    ∙ parse_args-encode_args args more text [] (length head) [] h
        (ap (λ k. drop k text) (sym size) ∙ behind)
    ∙ ap (λ k. parse_args more text k args) (sym (length-append head (encode_args args)))

length-encode_args_ge : (args : List Bytes) → length args ≤ length (encode_args args)
unfolding encode_args
length-encode_args_ge [] = omega arith
length-encode_args_ge (arg ∷ args) = omega (
  arith,
  length-append (encode_arg arg) (encode_args args),
  length-encode_arg arg,
  length-encode_args_ge args,
)

-- An array of any arguments, with any bytes in them, is parsed back from its encoding, if the
-- encoding is shorter than 2^64 bytes.
pub parse-encode_resp_array :
    (args : List Bytes)
    → length (encode_resp_array args) < u64_mod
    → parse_resp_array (encode_resp_array args) ≡ (true, args)
unfolding encode_resp_array parse_args
parse-encode_resp_array args h =
    let none_more : length args + 0 ≡ length args = omega arith in
    let size = length-append (encode_count (length args)) (encode_args args) in
    let same : text_of args 0 ≡ encode_resp_array args =
      ap (λ n. encode_count n ++ encode_args args) none_more in
    let n : length args + 0 < u64_mod = omega (arith, size, length-encode_args_ge args) in
    ap parse_resp_array (sym same)
    ∙ parse-text_of args 0 n (subst (λ t. length t < u64_mod) (sym same) h)

parse_arg-end : (text : Bytes) → parse_arg text (length text) ≡ refused
unfolding parse_arg
parse_arg-end text = ground arith

parse_args_refused :
    (count : ℕ) (text : Bytes) (out : List Bytes)
    → parse_args (suc count) text (length text) out ≡ (false, out)
unfolding parse_args
parse_args_refused count text out = ground (arith, parse_arg-end text)

encode_args-append :
    (xs ys : List Bytes) → encode_args (xs ++ ys) ≡ encode_args xs ++ encode_args ys
unfolding encode_args
encode_args-append [] ys = refl
encode_args-append (x ∷ xs) ys =
    ap (λ z. encode_arg x ++ z) (encode_args-append xs ys)
    ∙ sym (append_assoc (encode_arg x) (encode_args xs) (encode_args ys))

-- The encoding of an array that is cut behind some of its arguments is refused, but those arguments
-- are left in `*out`.
pub parse_cut_array :
    (args : List Bytes) (arg : Bytes) (missing : List Bytes)
    → length (encode_resp_array (args ++ arg ∷ missing)) < u64_mod
    → parse_resp_array (encode_count (length (args ++ arg ∷ missing)) ++ encode_args args)
      ≡ (false, args)
unfolding encode_resp_array parse_args
parse_cut_array args arg missing h =
    let all = args ++ arg ∷ missing in
    let more = suc (length missing) in
    let count : length args + more ≡ length all =
      omega (arith, length-append args (arg ∷ missing)) in
    let sizes : length (encode_args all)
        ≡ length (encode_args args) + length (encode_args (arg ∷ missing)) =
      ap length (encode_args-append args (arg ∷ missing))
      ∙ length-append (encode_args args) (encode_args (arg ∷ missing)) in
    let whole = length-append (encode_count (length all)) (encode_args all) in
    let cut = length-append (encode_count (length all)) (encode_args args) in
    let same : text_of args more ≡ encode_count (length all) ++ encode_args args =
      ap (λ n. encode_count n ++ encode_args args) count in
    let fits : length (encode_count (length all) ++ encode_args args) < u64_mod =
      omega (arith, sizes, whole, cut) in
    let n : length args + more < u64_mod = omega (arith, whole, length-encode_args_ge all) in
    ap parse_resp_array (sym same)
    ∙ parse-text_of args more n (subst (λ t. length t < u64_mod) (sym same) fits)
    ∙ parse_args_refused (length missing) (text_of args more) args
