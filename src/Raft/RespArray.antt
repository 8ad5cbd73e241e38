-- ===== src/Raft/RespArray.antt =====
-- `EncodeRespArray` and `ParseRespArray` of server/raft/command_encoder.cc: a command as the bytes of
-- its log entry. A position is an index into the text, as in the code; `std::string_view::npos` is
-- `none`.
pub mod Arg
pub mod RoundTrip
use maxredis.Base.{
  ℕ, zero, suc, ◌+◌, ◌-◌, ◌*◌, Bool, true, false, not, ◌&&◌, ◌||◌, Option, none, some, List, [],
  ◌∷◌, ◌++◌, Bytes, length, take, drop, ltb, leb, ◌==◌, if◌then◌else◌, to_string, is_digit, u64,
}

-- One argument: `$len\r\n<arg>\r\n`.
unfoldable pub encode_arg : Bytes → Bytes
encode_arg arg = b'$' ∷ (to_string (length arg) ++ (13 ∷ 10 ∷ (arg ++ (13 ∷ 10 ∷ []))))

unfoldable pub encode_args : List Bytes → Bytes
encode_args [] = []
encode_args (arg ∷ args) = encode_arg arg ++ encode_args args

-- The array's head, `*N\r\n`.
unfoldable pub encode_count : ℕ → Bytes
encode_count n = b'*' ∷ (to_string n ++ (13 ∷ 10 ∷ []))

-- `EncodeRespArray`
unfoldable pub encode_resp_array : List Bytes → Bytes
encode_resp_array args = encode_count (length args) ++ encode_args args

-- `c` is the byte at the start of the text.
abbrev pub starts : ℕ → Bytes → Bool
starts c [] = false
starts c (x ∷ xs) = x == c

abbrev pub starts_crlf : Bytes → Bool
starts_crlf [] = false
starts_crlf (x ∷ xs) = (x == 13) && starts 10 xs

-- The offset of the first `\r\n`.
unfoldable pub crlf_in : Bytes → Option ℕ
crlf_in [] = none
crlf_in (c ∷ cs) =
    let rest = crlf_in cs in
    if starts_crlf (c ∷ cs) then some 0 else elim rest [ none ↦ none | some k ↦ some (suc k) ]

-- `data.find("\r\n", pos)`
unfoldable pub find_crlf : Bytes → ℕ → Option ℕ
find_crlf text pos = elim (crlf_in (drop pos text)) [ none ↦ none | some k ↦ some (pos + k) ]

-- The digits of a count or a length, in a `size_t`; any other character is refused.
unfoldable pub parse_digits : ℕ → Bytes → Option ℕ
parse_digits value [] = some value
parse_digits value (c ∷ cs) =
    let rest = parse_digits (u64 (value * 10 + (c - b'0'))) cs in if is_digit c then rest else none

-- A number from `pos` to the next `\r\n`, with the position behind it.
unfoldable pub read_number : Bytes → ℕ → Option (ℕ × ℕ)
read_number text pos = elim (find_crlf text pos) [
  | none ↦ none
  | some end ↦ elim (parse_digits 0 (take (end - pos) (drop pos text))) [
    | none ↦ none
    | some n ↦ some (n, end + 2)
  ]
]

-- What one turn of the loop does: it returns false with or without having stored the argument, or
-- it goes on behind it.
pub data ArgResult : Type 0 where
  refused : ArgResult
  stored : Bytes → ArgResult
  parsed : Bytes → ℕ → ArgResult

-- The `len` bytes from `pos` on, and the `\r\n` behind them. The sum of `pos` and `len` is a `size_t`;
-- the other sums are at most the size of the text and two.
unfoldable pub take_arg : Bytes → ℕ → ℕ → ArgResult
take_arg text len pos =
    let end = u64 (pos + len) in
    let arg = take len (drop pos text) in
    if ltb (length text) end
    then refused
    else if ltb (length text) (end + 2) || not (starts_crlf (drop end text))
    then stored arg
    else parsed arg (end + 2)

unfoldable pub parse_arg : Bytes → ℕ → ArgResult
parse_arg text pos =
    if leb (length text) (pos + 1) || not (starts b'$' (drop pos text))
    then refused
    else elim (read_number text (pos + 1)) [
      | none ↦ refused
      | some (len, start) ↦ take_arg text len start
    ]

-- The loop over `count` arguments: the result, and the content of `*out`.
unfoldable pub parse_args : ℕ → Bytes → ℕ → List Bytes → Bool × List Bytes
parse_args zero text pos out = (true, out)
parse_args (suc count) text pos out = elim (parse_arg text pos) [
  | refused ↦ (false, out)
  | stored arg ↦ (false, out ++ arg ∷ [])
  | parsed arg next ↦ parse_args count text next (out ++ arg ∷ [])
]

-- `ParseRespArray`
unfoldable pub parse_resp_array : Bytes → Bool × List Bytes
parse_resp_array text = if not (starts b'*' text) then (false, []) else elim (read_number text 1) [
  | none ↦ (false, [])
  | some (count, pos) ↦ parse_args count text pos []
]
