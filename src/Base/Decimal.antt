-- ===== src/Base/Decimal.antt =====
-- Decimal text: `std::to_string`, `std::stoull`, and the digits that both read and write.
use Prim.Native.Nat.{ℕ, zero, suc, ◌+◌, ◌-◌, ◌*◌, ◌/◌, ◌%◌}
use mathlib.Core.Bool.{Bool, false, ◌&&◌, ◌||◌}
use mathlib.Core.Option.{Option, none, some}
use mathlib.Core.List.{[], ◌∷◌}
use maxredis.Base.Tests.{ltb, leb, ◌==◌, if◌then◌else◌, u64, u64_mod}
use maxredis.Base.Text.{Bytes}

-- The digits of `n` in front of `out`; `n` rounds are enough, since each divides by ten.
unfoldable pub emit : ℕ → ℕ → Bytes → Bytes
emit zero n out = out
emit (suc f) n out =
    let rest = emit f (n / 10) ((b'0' + n % 10) ∷ out) in if n == 0 then out else rest

-- `std::to_string` of an unsigned number
unfoldable pub to_string : ℕ → Bytes
unfolding emit
to_string n = if n == 0 then b'0' ∷ [] else emit n n []

abbrev pub is_digit : ℕ → Bool
is_digit c = leb b'0' c && leb c b'9'

-- The value of the digits in front, starting from `acc`.
unfoldable pub digits_value : ℕ → Bytes → ℕ
digits_value acc [] = acc
digits_value acc (c ∷ cs) =
    let rest = digits_value (acc * 10 + (c - b'0')) cs in if is_digit c then rest else acc

abbrev is_space : ℕ → Bool
is_space c = (c == 32) || (leb 9 c && leb c 13)

unfoldable pub skip_spaces : Bytes → Bytes
skip_spaces [] = []
skip_spaces (c ∷ cs) = let rest = skip_spaces cs in if is_space c then rest else c ∷ cs

abbrev starts_with_digit : Bytes → Bool
starts_with_digit [] = false
starts_with_digit (c ∷ cs) = is_digit c

abbrev in_range : ℕ → Option ℕ
in_range v = if ltb v u64_mod then some v else none

unfoldable pub unsigned_value : Bytes → Option ℕ
unfolding digits_value
unsigned_value s = if starts_with_digit s then in_range (digits_value 0 s) else none

-- The C library negates a number with a minus sign in the unsigned type.
unfoldable pub signed_value : Bytes → Option ℕ
unfolding unsigned_value
signed_value [] = none
signed_value (c ∷ cs) =
    if c == b'-'
    then elim (unsigned_value cs) [ none ↦ none | some v ↦ some (u64 (u64_mod - v)) ]
    else if c == b'+'
    then unsigned_value cs
    else unsigned_value (c ∷ cs)

-- `std::stoull`: white space, a sign, digits; what follows them is not read. `none` stands for the
-- exceptions `invalid_argument` and `out_of_range`.
unfoldable pub stoull : Bytes → Option ℕ
unfolding skip_spaces signed_value
stoull s = signed_value (skip_spaces s)
