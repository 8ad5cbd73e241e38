-- ===== src/Base/DecimalText.antt =====
-- Numbers written by `to_string` are digits only, and `stoull` reads them back.
use Prim.Native.Nat.{ℕ, zero, suc, ◌+◌, ◌-◌, ◌*◌, ◌/◌, ◌%◌, ◌≤◌, ◌<◌}
use mathlib.Core.Path.{◌≡◌, refl, ◌∙◌, ap}
use mathlib.Core.Logic.{◌≢◌, inl, inr}
use mathlib.Core.Bool.{true, false}
use mathlib.Core.Option.{some}
use mathlib.Core.List.{[], ◌∷◌}
use native.Mathlib.Omega.{arith}
use maxredis.Base.Tests.{◌==◌, u64_mod, Bool-cases}
use maxredis.Base.Text.{Bytes}
use maxredis.Base.Lists.{is_empty}
use maxredis.Base.Decimal.{
  emit, to_string, is_digit, digits_value, skip_spaces, unsigned_value, signed_value, stoull,
}

abbrev pub AllDigits : Bytes → Type 0
AllDigits [] = Unit
AllDigits (c ∷ cs) = (is_digit c ≡ true) × AllDigits cs

-- No byte is a space.
abbrev pub NoSpace : Bytes → Type 0
NoSpace [] = Unit
NoSpace (c ∷ cs) = (c ≢ 32) × NoSpace cs

emit-AllDigits : (f n : ℕ) (out : Bytes) → AllDigits out → AllDigits (emit f n out)
unfolding emit
emit-AllDigits zero n out d = d
emit-AllDigits (suc f) n out d = elim (Bool-cases (n == 0)) [
  | inl e ↦ rw e d
  | inr e ↦ rw e (emit-AllDigits f (n / 10) ((b'0' + n % 10) ∷ out) (ground arith, d))
]

is_empty-emit : (f n : ℕ) (out : Bytes) → is_empty out ≡ false → is_empty (emit f n out) ≡ false
unfolding emit
is_empty-emit zero n out h = h
is_empty-emit (suc f) n out h =
    ground (arith, is_empty-emit f (n / 10) ((b'0' + n % 10) ∷ out) refl)

digits_value-emit :
    (f n : ℕ) (out : Bytes) → n ≤ f → digits_value 0 (emit f n out) ≡ digits_value n out
unfolding emit digits_value
digits_value-emit zero n out h = let e : n ≡ 0 = omega arith in rw e refl
digits_value-emit (suc f) n out h = elim (Bool-cases (n == 0)) [
  | inl e ↦ let z : n ≡ 0 = ground arith in rw z refl
  | inr e ↦
      let value : n / 10 * 10 + (b'0' + n % 10 - b'0') ≡ n = omega arith in
      let rest = digits_value-emit f (n / 10) ((b'0' + n % 10) ∷ out) (omega arith) in
      rw e (ground (arith, rest, ap (λ z. digits_value z out) value))
]

pub to_string-AllDigits : (n : ℕ) → AllDigits (to_string n)
unfolding to_string
to_string-AllDigits n = elim (Bool-cases (n == 0)) [
  | inl e ↦ rw e (refl, tt)
  | inr e ↦ rw e (emit-AllDigits n n [] tt)
]

pub is_empty-to_string : (n : ℕ) → is_empty (to_string n) ≡ false
unfolding to_string
is_empty-to_string zero = refl
is_empty-to_string (suc n) =
    ground (arith, is_empty-emit n (suc n / 10) ((b'0' + suc n % 10) ∷ []) refl)

digits-NoSpace : (s : Bytes) → AllDigits s → NoSpace s
digits-NoSpace [] d = tt
digits-NoSpace (c ∷ cs) d = (λ e. ground (arith, d.0), digits-NoSpace cs d.1)

pub to_string-NoSpace : (n : ℕ) → NoSpace (to_string n)
to_string-NoSpace n = digits-NoSpace (to_string n) (to_string-AllDigits n)

pub digits_value-to_string : (n : ℕ) → digits_value 0 (to_string n) ≡ n
unfolding to_string digits_value
digits_value-to_string n = elim (Bool-cases (n == 0)) [
  | inl e ↦ ground arith
  | inr e ↦ ground (arith, digits_value-emit n n [] (omega arith))
]

stoull-digits :
    (s : Bytes)
    → AllDigits s
    → is_empty s ≡ false
    → digits_value 0 s < u64_mod
    → stoull s ≡ some (digits_value 0 s)
unfolding stoull skip_spaces signed_value unsigned_value
stoull-digits [] d e h = ground arith
stoull-digits (c ∷ cs) d e h = ground (arith, d.0)

pub stoull-to_string : (n : ℕ) → n < u64_mod → stoull (to_string n) ≡ some n
stoull-to_string n h =
    let v = digits_value-to_string n in
    stoull-digits (to_string n) (to_string-AllDigits n) (is_empty-to_string n) (omega arith)
    ∙ ap some v
