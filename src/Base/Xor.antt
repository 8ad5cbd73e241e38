-- ===== src/Base/Xor.antt =====
-- Laws of `bit_xor` at variables, from its lowest digits.
use Prim.Native.Nat.{
  ℕ, zero, suc, ◌+◌, ◌*◌, ◌/◌, ◌%◌, ◌≤◌, ◌<◌, bit_xor, digits, differ, bit_xor-bitwise,
}
use mathlib.Core.Path.{◌≡◌, refl, sym, ap, ◌∙◌}
use mathlib.Core.Logic.{inl, inr}
use native.Mathlib.Omega.{arith}
use maxredis.Base.Tests.{le_cases}

-- What `bit_xor` means, by a number of rounds.
abbrev folded : ℕ → ℕ → ℕ → ℕ
folded rounds a b = digits (λ y. y) differ rounds a b

folded_once_more : (r a b : ℕ) → a ≤ r → folded (suc r) a b ≡ folded r a b
folded_once_more zero a b enough = let none_left : a ≡ 0 = omega arith in rw none_left refl
folded_once_more (suc r) zero b enough = refl
folded_once_more (suc r) (suc a) b enough =
    ap (λ high. high * 2 + differ (suc a % 2) (b % 2))
      (folded_once_more r (suc a / 2) (b / 2) (omega arith))

folded_longer : (r k a b : ℕ) → a ≤ k → k ≤ r → folded r a b ≡ folded k a b
folded_longer zero k a b enough le =
    let no_round : k ≡ 0 = omega arith in ap (λ c. folded c a b) (sym no_round)
folded_longer (suc r) k a b enough le = elim (le_cases k (suc r) le) [
  | inl less ↦ folded_once_more r a b (omega arith) ∙ folded_longer r k a b enough (omega arith)
  | inr same ↦ ap (λ c. folded c a b) (sym same)
]

pub zero-xor : (b : ℕ) → bit_xor 0 b ≡ b
zero-xor b = bit_xor-bitwise 0 b

differ_bits : (x y : ℕ) → x < 2 → y < 2 → differ x y ≡ (x + y) % 2
differ_bits zero zero h k = refl
differ_bits zero (suc zero) h k = refl
differ_bits (suc zero) zero h k = refl
differ_bits (suc zero) (suc zero) h k = refl
differ_bits (suc (suc x)) y h k = absurd (omega arith)
differ_bits zero (suc (suc y)) h k = absurd (omega arith)
differ_bits (suc zero) (suc (suc y)) h k = absurd (omega arith)

xor_step : (a b : ℕ) → bit_xor a b ≡ bit_xor (a / 2) (b / 2) * 2 + differ (a % 2) (b % 2)
xor_step zero b = omega (arith, zero-xor b, zero-xor (b / 2))
xor_step (suc a) b =
    bit_xor-bitwise (suc a) b
    ∙ ap (λ high. high * 2 + differ (suc a % 2) (b % 2))
        (folded_longer a (suc a / 2) (suc a / 2) (b / 2) (omega arith) (omega arith)
          ∙ sym (bit_xor-bitwise (suc a / 2) (b / 2)))

-- The halves are combined, and so are the lowest bits.
pub xor_half : (a b : ℕ) → bit_xor a b / 2 ≡ bit_xor (a / 2) (b / 2)
xor_half a b = omega (arith, xor_step a b, differ_bits (a % 2) (b % 2) (omega arith) (omega arith))

pub xor_parity : (a b : ℕ) → bit_xor a b % 2 ≡ (a + b) % 2
xor_parity a b =
    omega (arith, xor_step a b, differ_bits (a % 2) (b % 2) (omega arith) (omega arith))

-- Numbers with the same half and the same lowest bit are equal.
same_digits : (x y : ℕ) → x / 2 ≡ y / 2 → x % 2 ≡ y % 2 → x ≡ y
same_digits x y h p = omega arith

xor_comm_fuel : (n a b : ℕ) → a ≤ n → b ≤ n → bit_xor a b ≡ bit_xor b a
xor_comm_fuel zero a b h k =
    let za : a ≡ 0 = omega arith in let zb : b ≡ 0 = omega arith in rw (za, zb) refl
xor_comm_fuel (suc n) a b h k =
    same_digits (bit_xor a b) (bit_xor b a)
      (xor_half a b
        ∙ xor_comm_fuel n (a / 2) (b / 2) (omega arith) (omega arith)
        ∙ sym (xor_half b a))
      (omega (arith, xor_parity a b, xor_parity b a))

pub xor_comm : (a b : ℕ) → bit_xor a b ≡ bit_xor b a
xor_comm a b = xor_comm_fuel (a + b) a b (omega arith) (omega arith)

pub xor-zero : (a : ℕ) → bit_xor a 0 ≡ a
xor-zero a = xor_comm a 0 ∙ zero-xor a

xor_assoc_fuel :
    (n a b c : ℕ) → a ≤ n → b ≤ n → c ≤ n → bit_xor (bit_xor a b) c ≡ bit_xor a (bit_xor b c)
xor_assoc_fuel zero a b c h k l =
    let za : a ≡ 0 = omega arith in
    let zb : b ≡ 0 = omega arith in let zc : c ≡ 0 = omega arith in rw (za, zb, zc) refl
xor_assoc_fuel (suc n) a b c h k l =
    same_digits (bit_xor (bit_xor a b) c) (bit_xor a (bit_xor b c))
      (xor_half (bit_xor a b) c
        ∙ ap (λ x. bit_xor x (c / 2)) (xor_half a b)
        ∙ xor_assoc_fuel n (a / 2) (b / 2) (c / 2) (omega arith) (omega arith) (omega arith)
        ∙ ap (bit_xor (a / 2)) (sym (xor_half b c))
        ∙ sym (xor_half a (bit_xor b c)))
      (omega (
        arith,
        xor_parity (bit_xor a b) c,
        xor_parity a b,
        xor_parity a (bit_xor b c),
        xor_parity b c,
      ))

pub xor_assoc : (a b c : ℕ) → bit_xor (bit_xor a b) c ≡ bit_xor a (bit_xor b c)
xor_assoc a b c = xor_assoc_fuel (a + b + c) a b c (omega arith) (omega arith) (omega arith)

pub xor_swap : (a b c : ℕ) → bit_xor (bit_xor a b) c ≡ bit_xor (bit_xor a c) b
xor_swap a b c = xor_assoc a b c ∙ ap (bit_xor a) (xor_comm b c) ∙ sym (xor_assoc a c b)
