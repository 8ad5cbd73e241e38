-- ===== src/Raft/JsonText/RoundTrip.antt =====
-- A string that was escaped into the file is read back.
use maxredis.Base.{
  holds_up_to, holds_at, ==→≡, subst, not, ◌&&◌, ◌||◌, ℕ, zero, suc, ◌/◌, ◌%◌, ◌<◌, ◌≤◌, ◌≡◌, ◌≢◌,
  inl, inr, refl, sym, ap, ◌∙◌, Bool, true, false, some, [], ◌∷◌, ◌++◌, arith, Bytes, length,
  length-append, Bool-cases, ltb, ◌==◌, if◌then◌else◌, skip_spaces,
}
use maxredis.Raft.JsonText.{
  escape_byte, escape_json, strtol_hex, unescape_unicode, unescape_behind, unescape_next,
  unescape_loop, unescape_json, to_end_quote, parse_string, hex_digit,
}
use mathlib.Core.List.{append_assoc}

-- No byte is 0, which the four digits of `\u` cannot carry.
abbrev pub NoNul : Bytes → Type 0
NoNul [] = Unit
NoNul (c ∷ cs) = (c ≢ 0) × NoNul cs

abbrev agrees : ℕ → Bool
agrees c = strtol_hex (b'0' ∷ b'0' ∷ hex_digit (c / 16) ∷ hex_digit (c % 16) ∷ []) == c

control_bytes : holds_up_to agrees 32 ≡ true
unfolding strtol_hex skip_spaces
control_bytes = refl

-- The bytes that are written as `\u`.
abbrev is_control : ℕ → Bool
is_control c = ltb c 0x20 && not ((c == 10) || (c == 13) || (c == 9))

abbrev is_plain : ℕ → Bool
is_plain c = not (ltb c 0x20 || (c == b'"') || (c == b'\\'))

-- A byte that has an escape of its own, is written as `\u`, or stands for itself.
byte_cases :
    (c : ℕ) (P : ℕ → Type 0)
    → P b'"'
    → P b'\\'
    → P 10
    → P 13
    → P 9
    → (is_control c ≡ true → P c)
    → (is_plain c ≡ true → P c)
    → P c
byte_cases c P quote slash line carriage tab control plain = elim (Bool-cases (c == b'"')) [
  | inl e ↦ subst P (sym (==→≡ c b'"' e)) quote
  | inr q ↦ elim (Bool-cases (c == b'\\')) [
    | inl e ↦ subst P (sym (==→≡ c b'\\' e)) slash
    | inr s ↦ elim (Bool-cases (c == 10)) [
      | inl e ↦ subst P (sym (==→≡ c 10 e)) line
      | inr l ↦ elim (Bool-cases (c == 13)) [
        | inl e ↦ subst P (sym (==→≡ c 13 e)) carriage
        | inr r ↦ elim (Bool-cases (c == 9)) [
          | inl e ↦ subst P (sym (==→≡ c 9 e)) tab
          | inr t ↦ elim (Bool-cases (ltb c 0x20)) [
            | inl low ↦ control (ground (arith, low, l, r, t))
            | inr high ↦ plain (ground (arith, high, q, s))
          ]
        ]
      ]
    ]
  ]
]

abbrev control_text : ℕ → Bytes
control_text c = b'\\' ∷ b'u' ∷ b'0' ∷ b'0' ∷ hex_digit (c / 16) ∷ hex_digit (c % 16) ∷ []

escape_control : (c : ℕ) → is_control c ≡ true → escape_byte c ≡ control_text c
escape_control c h = ground (arith, h)

escape_plain : (c : ℕ) → is_plain c ≡ true → escape_byte c ≡ c ∷ []
escape_plain c h = ground (arith, h)

unescape_control :
    (f c : ℕ) (tail : Bytes)
    → c ≢ 0
    → c < 32
    → unescape_loop (suc f) (control_text c ++ tail) ≡ c ∷ unescape_loop f tail
unfolding unescape_loop unescape_next unescape_behind unescape_unicode
unescape_control f c tail nz low =
    let value =
      ==→≡ (strtol_hex (b'0' ∷ b'0' ∷ hex_digit (c / 16) ∷ hex_digit (c % 16) ∷ [])) c
        (holds_at agrees 32 c control_bytes low) in
    ap (λ v. (if ltb 0 v && ltb v 0x80 then v ∷ [] else []) ++ unescape_loop f tail) value
    ∙ ground arith

unescape_plain :
    (f c : ℕ) (tail : Bytes)
    → is_plain c ≡ true
    → unescape_loop (suc f) (c ∷ tail) ≡ c ∷ unescape_loop f tail
unfolding unescape_loop unescape_next
unescape_plain f c tail h = ground (arith, h)

unescape_byte :
    (f c : ℕ) (tail : Bytes)
    → c ≢ 0
    → unescape_loop (suc f) (escape_byte c ++ tail) ≡ c ∷ unescape_loop f tail
unfolding unescape_loop unescape_next unescape_behind
unescape_byte f c tail nz =
    byte_cases c (λ b. unescape_loop (suc f) (escape_byte b ++ tail) ≡ b ∷ unescape_loop f tail)
      refl refl refl refl refl
      (λ h.
        ap (λ z. unescape_loop (suc f) (z ++ tail)) (escape_control c h)
        ∙ unescape_control f c tail nz (ground (arith, h)))
      (λ h.
        ap (λ z. unescape_loop (suc f) (z ++ tail)) (escape_plain c h) ∙ unescape_plain f c tail h)

unescape_escaped :
    (s : Bytes) (f : ℕ) → NoNul s → length s ≤ f → unescape_loop f (escape_json s) ≡ s
unfolding escape_json unescape_loop
unescape_escaped [] zero n h = refl
unescape_escaped [] (suc f) n h = refl
unescape_escaped (c ∷ cs) zero n h = absurd (omega arith)
unescape_escaped (c ∷ cs) (suc f) (nz, n) h =
    unescape_byte f c (escape_json cs) nz ∙ ap (λ z. c ∷ z) (unescape_escaped cs f n (omega arith))

length-escape_byte : (c : ℕ) → 0 < length (escape_byte c)
length-escape_byte c = ground arith

length-escape_json_ge : (s : Bytes) → length s ≤ length (escape_json s)
unfolding escape_json
length-escape_json_ge [] = omega arith
length-escape_json_ge (c ∷ cs) = omega (
  arith,
  length-append (escape_byte c) (escape_json cs),
  length-escape_byte c,
  length-escape_json_ge cs,
)

pub unescape_json-escape_json : (s : Bytes) → NoNul s → unescape_json (escape_json s) ≡ s
unfolding unescape_json
unescape_json-escape_json s n =
    unescape_escaped s (length (escape_json s)) n (length-escape_json_ge s)

hex_digit_plain :
    (d : ℕ) → d < 16 → ((hex_digit d == b'"') ≡ false) × ((hex_digit d == b'\\') ≡ false)
hex_digit_plain d h = ground arith

to_end_quote-byte :
    (c : ℕ) (tail raw : Bytes)
    → to_end_quote false tail ≡ some raw
    → to_end_quote false (escape_byte c ++ tail) ≡ some (escape_byte c ++ raw)
unfolding to_end_quote
to_end_quote-byte c tail raw h =
    byte_cases c (λ b. to_end_quote false (escape_byte b ++ tail) ≡ some (escape_byte b ++ raw))
      (rw h refl) (rw h refl) (rw h refl) (rw h refl) (rw h refl)
      (λ k.
        subst (λ z. to_end_quote false (z ++ tail) ≡ some (z ++ raw)) (sym (escape_control c k))
          (ground (
            arith,
            h,
            hex_digit_plain (c / 16) (ground (arith, k)),
            hex_digit_plain (c % 16) (omega arith),
          )))
      (λ k.
        subst (λ z. to_end_quote false (z ++ tail) ≡ some (z ++ raw)) (sym (escape_plain c k))
          (ground (arith, h, k)))

to_end_quote-escape_json :
    (s rest : Bytes) → to_end_quote false (escape_json s ++ b'"' ∷ rest) ≡ some (escape_json s)
unfolding escape_json to_end_quote
to_end_quote-escape_json [] rest = refl
to_end_quote-escape_json (c ∷ cs) rest =
    ap (to_end_quote false) (append_assoc (escape_byte c) (escape_json cs) (b'"' ∷ rest))
    ∙ to_end_quote-byte c (escape_json cs ++ b'"' ∷ rest) (escape_json cs)
        (to_end_quote-escape_json cs rest)

-- A string without a byte 0, whatever quotes, backslashes and control characters it holds, is read back
-- from the file where it was escaped between quotes, with any text behind it.
pub parse_string-escape_json :
    (s rest : Bytes) → NoNul s → parse_string (b'"' ∷ (escape_json s ++ b'"' ∷ rest)) ≡ some s
unfolding parse_string
parse_string-escape_json s rest n =
    ground (arith, to_end_quote-escape_json s rest, unescape_json-escape_json s n)
