-- ===== src/Raft/Crc32/Bitwise.antt =====
-- The table of server/raft/crc32.h against the division by the polynomial of CRC32C, bit by bit.
use Prim.Native.Nat.{bit_xor}
use maxredis.Base.{
  holds_up_to, holds_at, ℕ, zero, suc, ◌+◌, ◌*◌, ◌/◌, ◌%◌, ◌<◌, ◌≡◌, refl, sym, ap, ◌∙◌, Bool, true,
  [], ◌∷◌, arith, Bytes, ◌==◌, if◌then◌else◌, ==→≡, get_elem?,
}
use maxredis.Base.Xor.{xor_half, xor_parity, xor-zero, zero-xor, xor_swap}
use maxredis.Raft.Crc32.{k_table, word_or_0, complement, crc_step, crc_loop, compute_crc32}

-- The polynomial, its lowest coefficient in the highest bit.
abbrev pub polynomial : ℕ
polynomial = 0x82F63B78

-- One bit of the division.
abbrev pub bit_step : ℕ → ℕ
bit_step x = if x % 2 == 1 then bit_xor (x / 2) polynomial else x / 2

abbrev pub bit_steps : ℕ → ℕ → ℕ
bit_steps zero x = x
bit_steps (suc k) x = bit_steps k (bit_step x)

abbrev pub bitwise_loop : ℕ → Bytes → ℕ
bitwise_loop crc [] = crc
bitwise_loop crc (byte ∷ bytes) = bitwise_loop (bit_steps 8 (bit_xor crc byte)) bytes

-- CRC32C without a table.
abbrev pub bitwise_crc32 : Bytes → ℕ
bitwise_crc32 bytes = complement (bitwise_loop (complement 0) bytes)

abbrev pub AreBytes : Bytes → Type 0
AreBytes [] = Unit
AreBytes (b ∷ bs) = (b < 256) × AreBytes bs

-- `h` behind `k` zero bits, `x` without its `k` lowest bits, and the numbers of `k` bits.
abbrev shift : ℕ → ℕ → ℕ
shift zero h = h
shift (suc k) h = 2 * shift k h

abbrev halve : ℕ → ℕ → ℕ
halve zero x = x
halve (suc k) x = halve k (x / 2)

abbrev Below : ℕ → ℕ → Type 0
Below zero x = x ≡ 0
Below (suc k) x = Below k (x / 2)

xor-shift : (k lo h : ℕ) → Below k lo → bit_xor lo (shift k h) ≡ lo + shift k h
xor-shift zero lo h b = rw b (zero-xor h ∙ omega arith)
xor-shift (suc k) lo h b = omega (
  arith,
  xor_half lo (2 * shift k h),
  xor_parity lo (2 * shift k h),
  xor-shift k (lo / 2) h b,
  ap (bit_xor (lo / 2)) (double_half (shift k h)),
)
  where
    double_half : (x : ℕ) → 2 * x / 2 ≡ x
    double_half x = omega arith

halve-xor : (k c b : ℕ) → Below k b → halve k (bit_xor c b) ≡ halve k c
halve-xor zero c b z = ap (bit_xor c) z ∙ xor-zero c
halve-xor (suc k) c b z = ap (halve k) (xor_half c b) ∙ halve-xor k (c / 2) (b / 2) z

bit_step-xor : (u h : ℕ) → bit_step (bit_xor u (2 * h)) ≡ bit_xor (bit_step u) h
bit_step-xor u h =
    let half : bit_xor u (2 * h) / 2 ≡ bit_xor (u / 2) h =
      xor_half u (2 * h) ∙ ap (bit_xor (u / 2)) (omega arith) in
    let parity : bit_xor u (2 * h) % 2 ≡ u % 2 = omega (arith, xor_parity u (2 * h)) in
    ap (λ r. if r == 1 then bit_xor (bit_xor u (2 * h) / 2) polynomial else bit_xor u (2 * h) / 2)
      parity
    ∙ ap (λ q. if u % 2 == 1 then bit_xor q polynomial else q) half
    ∙ ground (arith, xor_swap (u / 2) h polynomial)

bit_steps-xor : (k u h : ℕ) → bit_steps k (bit_xor u (shift k h)) ≡ bit_xor (bit_steps k u) h
bit_steps-xor zero u h = refl
bit_steps-xor (suc k) u h =
    ap (bit_steps k) (bit_step-xor u (shift k h)) ∙ bit_steps-xor k (bit_step u) h

-- A word of the table is eight bits of the division.
abbrev agrees : ℕ → Bool
agrees x = word_or_0 (get_elem? k_table x) == bit_steps 8 x

table_agrees : holds_up_to agrees 256 ≡ true
unfolding k_table
table_agrees = refl

table_entry : (x : ℕ) → x < 256 → word_or_0 (get_elem? k_table x) ≡ bit_steps 8 x
table_entry x h =
    ==→≡ (word_or_0 (get_elem? k_table x)) (bit_steps 8 x) (holds_at agrees 256 x table_agrees h)

halve_8 : (x : ℕ) → halve 8 x ≡ x / 256
halve_8 x = omega arith

crc_step-bitwise : (crc byte : ℕ) → byte < 256 → crc_step crc byte ≡ bit_steps 8 (bit_xor crc byte)
unfolding crc_step
crc_step-bitwise crc byte b =
    let x = bit_xor crc byte in
    let lo = x % 256 in
    let h = x / 256 in
    let below : Below 8 lo = omega arith in
    let split : bit_xor lo (shift 8 h) ≡ x = omega (arith, xor-shift 8 lo h below) in
    let byte_below : Below 8 byte = omega arith in
    let high : h ≡ crc / 256 = sym (halve_8 x) ∙ halve-xor 8 crc byte byte_below ∙ halve_8 crc in
    ap (λ t. bit_xor t (crc / 256)) (table_entry lo (omega arith))
    ∙ ap (bit_xor (bit_steps 8 lo)) (sym high)
    ∙ sym (bit_steps-xor 8 lo h)
    ∙ ap (bit_steps 8) split

crc_loop-bitwise :
    (crc : ℕ) (bytes : Bytes) → AreBytes bytes → crc_loop crc bytes ≡ bitwise_loop crc bytes
unfolding crc_loop
crc_loop-bitwise crc [] h = refl
crc_loop-bitwise crc (byte ∷ bytes) h =
    ap (λ c. crc_loop c bytes) (crc_step-bitwise crc byte h.0)
    ∙ crc_loop-bitwise (bit_steps 8 (bit_xor crc byte)) bytes h.1

-- The checksum of any bytes is the CRC32C that is computed bit by bit from the polynomial.
pub compute_crc32-bitwise :
    (bytes : Bytes) → AreBytes bytes → compute_crc32 bytes ≡ bitwise_crc32 bytes
unfolding compute_crc32
compute_crc32-bitwise bytes h = ap complement (crc_loop-bitwise (complement 0) bytes h)
