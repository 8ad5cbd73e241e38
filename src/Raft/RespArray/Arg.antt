-- ===== src/Raft/RespArray/Arg.antt =====
-- One encoded argument, at any position of a text, is parsed back.
use maxredis.Base.{
  ℕ, zero, suc, ◌+◌, ◌-◌, ◌*◌, ◌<◌, ◌≤◌, ◌≡◌, refl, sym, ap, ◌∙◌, some, List, [], ◌∷◌, ◌++◌, arith,
  Bytes, length, take, drop, length-drop, length-append, to_string, u64, u64_mod,
}
use maxredis.Raft.RespArray.{
  encode_arg, starts, starts_crlf, crlf_in, find_crlf, parse_digits, read_number, parsed, take_arg,
  parse_arg,
}
use maxredis.Base.DecimalText.{AllDigits, to_string-AllDigits, digits_value-to_string}
use maxredis.Base.Decimal.{digits_value}
use mathlib.Core.List.{append_assoc}

module _ {ℓ} {A : Type ℓ} where
  take-append : (xs ys : List A) → take (length xs) (xs ++ ys) ≡ xs
  take-append [] ys = refl
  take-append (x ∷ xs) ys = ap (λ z. x ∷ z) (take-append xs ys)

  drop-append : (xs ys : List A) → drop (length xs) (xs ++ ys) ≡ ys
  drop-append [] ys = refl
  drop-append (x ∷ xs) ys = drop-append xs ys

  drop-nil : (n : ℕ) → drop {A = A} n [] ≡ []
  drop-nil zero = refl
  drop-nil (suc n) = refl

  drop-drop : (n m : ℕ) (xs : List A) → drop (n + m) xs ≡ drop m (drop n xs)
  drop-drop zero m xs = ap (λ k. drop k xs) (omega arith)
  drop-drop (suc n) m [] = drop-nil (suc n + m) ∙ sym (drop-nil m)
  drop-drop (suc n) m (x ∷ xs) =
      let e : suc n + m ≡ suc (n + m) = omega arith in rw e (drop-drop n m xs)

  -- Where `xs` and then `ys` stand at `pos`, `ys` stands behind `xs`.
  pub drop_behind :
      (text : List A) (pos : ℕ) (xs ys : List A)
      → drop pos text ≡ xs ++ ys
      → drop (pos + length xs) text ≡ ys
  drop_behind text pos xs ys at =
      drop-drop pos (length xs) text ∙ ap (drop (length xs)) at ∙ drop-append xs ys

  length_at :
      (text : List A) (pos : ℕ) (x : A) (xs : List A)
      → drop pos text ≡ x ∷ xs
      → length text ≡ pos + suc (length xs)
  length_at text pos x xs at =
      let e : length text - pos ≡ suc (length xs) = sym (length-drop pos text) ∙ ap length at in
      omega (arith, e)

-- The first line end behind digits.
crlf_in-digits :
    (ds rest : Bytes) → AllDigits ds → crlf_in (ds ++ 13 ∷ 10 ∷ rest) ≡ some (length ds)
unfolding crlf_in
crlf_in-digits [] rest d = refl
crlf_in-digits (c ∷ cs) rest d = ground (arith, d.0, crlf_in-digits cs rest d.1)

digits_value_ge : (value : ℕ) (ds : Bytes) → value ≤ digits_value value ds
unfolding digits_value
digits_value_ge value [] = omega arith
digits_value_ge value (c ∷ cs) = ground (arith, digits_value_ge (value * 10 + (c - b'0')) cs)

parse_digits_value :
    (value : ℕ) (ds : Bytes)
    → AllDigits ds
    → digits_value value ds < u64_mod
    → parse_digits value ds ≡ some (digits_value value ds)
unfolding parse_digits digits_value
parse_digits_value value [] d h = refl
parse_digits_value value (c ∷ cs) d h =
    let next = value * 10 + (c - b'0') in
    let h' : digits_value next cs < u64_mod = ground (arith, d.0) in
    let fits : u64 next ≡ next = omega (arith, digits_value_ge next cs) in
    let rest = ap (λ v. parse_digits v cs) fits ∙ parse_digits_value next cs d.1 h' in
    ground (arith, d.0, rest)

find_crlf-digits :
    (text : Bytes) (pos : ℕ) (ds rest : Bytes)
    → AllDigits ds
    → drop pos text ≡ ds ++ 13 ∷ 10 ∷ rest
    → find_crlf text pos ≡ some (pos + length ds)
unfolding find_crlf
find_crlf-digits text pos ds rest d at =
    let line_end = ap crlf_in at ∙ crlf_in-digits ds rest d in ground (arith, line_end)

-- A number below 2^64 that stands at `pos`, with a line end behind it.
pub read_number-to_string :
    (text : Bytes) (pos n : ℕ) (rest : Bytes)
    → n < u64_mod
    → drop pos text ≡ to_string n ++ 13 ∷ 10 ∷ rest
    → read_number text pos ≡ some (n, pos + length (to_string n) + 2)
unfolding read_number
read_number-to_string text pos n rest h at =
    let ds = to_string n in
    let d = to_string-AllDigits n in
    let v = digits_value-to_string n in
    let value : parse_digits 0 ds ≡ some n =
      parse_digits_value 0 ds d (omega (arith, v)) ∙ ap some v in
    let gap : pos + length ds - pos ≡ length ds = omega arith in
    let slice : take (pos + length ds - pos) (drop pos text) ≡ ds =
      ap (λ k. take k (drop pos text)) gap
      ∙ ap (take (length ds)) at
      ∙ take-append ds (13 ∷ 10 ∷ rest) in
    ground (arith, find_crlf-digits text pos ds rest d at, ap (parse_digits 0) slice ∙ value)

-- The text behind the head of an argument.
abbrev behind_head : Bytes → Bytes → Bytes
behind_head arg rest = arg ++ 13 ∷ 10 ∷ rest

encode_arg-then :
    (arg rest : Bytes)
    → encode_arg arg ++ rest ≡ b'$' ∷ to_string (length arg) ++ 13 ∷ 10 ∷ behind_head arg rest
unfolding encode_arg
encode_arg-then arg rest =
    ap (λ z. b'$' ∷ z)
      (append_assoc (to_string (length arg)) (13 ∷ 10 ∷ (arg ++ (13 ∷ 10 ∷ []))) rest
        ∙ ap (λ z. to_string (length arg) ++ 13 ∷ 10 ∷ z) (append_assoc arg (13 ∷ 10 ∷ []) rest))

pub length-encode_arg :
    (arg : Bytes)
    → length (encode_arg arg) ≡ suc (length (to_string (length arg)) + 2 + length arg + 2)
unfolding encode_arg
length-encode_arg arg = omega (
  arith,
  length-append (to_string (length arg)) (13 ∷ 10 ∷ (arg ++ (13 ∷ 10 ∷ []))),
  length-append arg (13 ∷ 10 ∷ []),
)

take_arg-encoded :
    (text arg rest : Bytes) (pos : ℕ)
    → length text < u64_mod
    → drop pos text ≡ behind_head arg rest
    → length text ≡ pos + (length arg + suc (suc (length rest)))
    → take_arg text (length arg) pos ≡ parsed arg (pos + length arg + 2)
unfolding take_arg
take_arg-encoded text arg rest pos h at len =
    let fits : u64 (pos + length arg) ≡ pos + length arg = omega arith in
    let arg_taken = ap (take (length arg)) at ∙ take-append arg (13 ∷ 10 ∷ rest) in
    let closed = ap starts_crlf (drop_behind text pos arg (13 ∷ 10 ∷ rest) at) in
    ground (arith, fits, arg_taken, closed, ap (λ e. starts_crlf (drop e text)) fits)

pub parse_arg-encode_arg :
    (text arg rest : Bytes) (pos : ℕ)
    → length text < u64_mod
    → drop pos text ≡ encode_arg arg ++ rest
    → parse_arg text pos ≡ parsed arg (pos + length (encode_arg arg))
unfolding parse_arg
parse_arg-encode_arg text arg rest pos h at =
    let ds = to_string (length arg) in
    let at' = at ∙ encode_arg-then arg rest in
    let tail = ds ++ 13 ∷ 10 ∷ behind_head arg rest in
    let len = length_at text pos b'$' tail at' in
    let start = drop_behind text pos (b'$' ∷ []) tail at' in
    let body =
      drop_behind text (pos + 1) (ds ++ 13 ∷ 10 ∷ []) (behind_head arg rest)
        (start ∙ sym (append_assoc ds (13 ∷ 10 ∷ []) (behind_head arg rest))) in
    let text_len : length text
        ≡ pos + suc (length ds + suc (suc (length arg + suc (suc (length rest))))) =
      omega (
        arith,
        len,
        length-append ds (13 ∷ 10 ∷ behind_head arg rest),
        length-append arg (13 ∷ 10 ∷ rest),
      ) in
    let next : pos + 1 + length (ds ++ 13 ∷ 10 ∷ []) ≡ pos + 1 + length ds + 2 =
      omega (arith, length-append ds (13 ∷ 10 ∷ [])) in
    let number =
      read_number-to_string text (pos + 1) (length arg) (behind_head arg rest)
        (omega (arith, text_len)) start in
    let taken =
      take_arg-encoded text arg rest (pos + 1 + length ds + 2) h
        (ap (λ k. drop k text) (sym next) ∙ body) (omega (arith, text_len)) in
    let end : pos + 1 + length ds + 2 + length arg + 2 ≡ pos + length (encode_arg arg) =
      omega (arith, length-encode_arg arg) in
    ground (arith, text_len, ap (starts b'$') at', number, taken ∙ ap (parsed arg) end)
