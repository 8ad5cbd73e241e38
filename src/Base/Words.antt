-- ===== src/Base/Words.antt =====
-- Unsigned numbers in memory, the lowest byte first, and the part of a file that `fread` gives.
use Prim.Native.Nat.{ℕ, zero, suc, ◌+◌, ◌*◌, ◌/◌, ◌%◌, ◌^◌, ◌<◌}
use mathlib.Core.Path.{◌≡◌, refl, sym, ap, ◌∙◌}
use mathlib.Core.Option.{Option, none, some}
use mathlib.Core.List.{List, [], ◌∷◌, ◌++◌}
use native.Mathlib.Omega.{arith}
use maxredis.Base.Tests.{ltb, if◌then◌else◌}
use maxredis.Base.Text.{Bytes}
use maxredis.Base.Lists.{length, take, drop, length-append}

-- The bytes of a word of `w` bytes, and the number that they stand for.
unfoldable pub le_bytes : ℕ → ℕ → Bytes
le_bytes zero v = []
le_bytes (suc w) v = (v % 256) ∷ le_bytes w (v / 256)

unfoldable pub le_value : Bytes → ℕ
le_value [] = 0
le_value (b ∷ bs) = b + 256 * le_value bs

-- `fread` of `n` bytes: all of them and what follows, or the end of the file.
unfoldable pub read_exact : ℕ → Bytes → Option (Bytes × Bytes)
read_exact n file = if ltb (length file) n then none else some (take n file, drop n file)

pub length-le_bytes : (w v : ℕ) → length (le_bytes w v) ≡ w
unfolding le_bytes
length-le_bytes zero v = refl
length-le_bytes (suc w) v = ap suc (length-le_bytes w (v / 256))

-- The numbers that fit `w` bytes.
abbrev pub Fits : ℕ → ℕ → Type 0
Fits zero v = v ≡ 0
Fits (suc w) v = Fits w (v / 256)

pub le_value-le_bytes : (w v : ℕ) → Fits w v → le_value (le_bytes w v) ≡ v
unfolding le_bytes le_value
le_value-le_bytes zero v h = sym h
le_value-le_bytes (suc w) v h = omega (arith, le_value-le_bytes w (v / 256) h)

pub four_bytes-Fits : (v : ℕ) → v < 2 ^ 32 → Fits 4 v
four_bytes-Fits v h = omega arith

pub eight_bytes-Fits : (v : ℕ) → v < 2 ^ 64 → Fits 8 v
eight_bytes-Fits v h = omega arith

module _ {ℓ} {A : Type ℓ} where
  pub take-append : (xs ys : List A) → take (length xs) (xs ++ ys) ≡ xs
  take-append [] ys = refl
  take-append (x ∷ xs) ys = ap (λ z. x ∷ z) (take-append xs ys)

  pub drop-append : (xs ys : List A) → drop (length xs) (xs ++ ys) ≡ ys
  drop-append [] ys = refl
  drop-append (x ∷ xs) ys = drop-append xs ys

module _ {ℓ} {A : Type ℓ} where
  pub take-append_more :
      (k : ℕ) (xs ys : List A) → take (length xs + k) (xs ++ ys) ≡ xs ++ take k ys
  take-append_more k [] ys = ap (λ n. take n ys) (omega arith)
  take-append_more k (x ∷ xs) ys =
      let n : length (x ∷ xs) + k ≡ suc (length xs + k) = omega arith in
      ap (λ n. take n (x ∷ xs ++ ys)) n ∙ ap (λ z. x ∷ z) (take-append_more k xs ys)

pub read_exact-append :
    (n : ℕ) (xs rest : Bytes) → length xs ≡ n → read_exact n (xs ++ rest) ≡ some (xs, rest)
unfolding read_exact
read_exact-append n xs rest h =
    let front = ap (λ k. take k (xs ++ rest)) (sym h) ∙ take-append xs rest in
    let back = ap (λ k. drop k (xs ++ rest)) (sym h) ∙ drop-append xs rest in
    ground (arith, length-append xs rest, front, back)

pub read_exact_short : (n : ℕ) (file : Bytes) → length file < n → read_exact n file ≡ none
unfolding read_exact
read_exact_short n file h = ground arith

-- One word of a file.
unfoldable pub read_word : ℕ → Bytes → Option (ℕ × Bytes)
read_word w file = elim (read_exact w file) [
  | none ↦ none
  | some (word, rest) ↦ some (le_value word, rest)
]

pub read_word-append :
    (w v : ℕ) (rest : Bytes) → Fits w v → read_word w (le_bytes w v ++ rest) ≡ some (v, rest)
unfolding read_word
read_word-append w v rest h =
    ground (
      arith,
      read_exact-append w (le_bytes w v) rest (length-le_bytes w v),
      le_value-le_bytes w v h,
    )

-- Where a word stands in front, it is read by its width.
pub word_in_front :
    (w v : ℕ) (rest : Bytes) → Fits w v → le_value (take w (le_bytes w v ++ rest)) ≡ v
word_in_front w v rest h =
    ap (λ k. le_value (take k (le_bytes w v ++ rest))) (sym (length-le_bytes w v))
    ∙ ap le_value (take-append (le_bytes w v) rest)
    ∙ le_value-le_bytes w v h

pub drop_word : (w v : ℕ) (rest : Bytes) → drop w (le_bytes w v ++ rest) ≡ rest
drop_word w v rest =
    ap (λ k. drop k (le_bytes w v ++ rest)) (sym (length-le_bytes w v))
    ∙ drop-append (le_bytes w v) rest
