-- ===== src/Raft/JsonText.antt =====
-- The strings in the file of server/raft/raft_storage.cc: `EscapeJson`, `UnescapeJson`, and how
-- `Deserialize` finds the end of a string.
pub mod RoundTrip
pub mod Fields
use maxredis.Base.{
  ℕ, zero, suc, ◌+◌, ◌-◌, ◌*◌, ◌/◌, ◌%◌, Bool, true, false, not, ◌&&◌, ◌||◌, Option, none, some, [],
  ◌∷◌, ◌++◌, Bytes, length, ltb, leb, ◌==◌, if◌then◌else◌, is_empty, is_digit, skip_spaces,
}

-- A digit of `%04x`
abbrev pub hex_digit : ℕ → ℕ
hex_digit d = if ltb d 10 then b'0' + d else b'a' + (d - 10)

abbrev pub escape_byte : ℕ → Bytes
escape_byte c =
    if c == b'"'
    then b'\\' ∷ b'"' ∷ []
    else if c == b'\\'
    then b'\\' ∷ b'\\' ∷ []
    else if c == 10
    then b'\\' ∷ b'n' ∷ []
    else if c == 13
    then b'\\' ∷ b'r' ∷ []
    else if c == 9
    then b'\\' ∷ b't' ∷ []
    else if ltb c 0x20
    then b'\\' ∷ b'u' ∷ b'0' ∷ b'0' ∷ hex_digit (c / 16) ∷ hex_digit (c % 16) ∷ []
    else c ∷ []

-- `RaftStorage::EscapeJson`
unfoldable pub escape_json : Bytes → Bytes
escape_json [] = []
escape_json (c ∷ cs) = escape_byte c ++ escape_json cs

-- The value of a hexadecimal digit.
abbrev hex_digit_value : ℕ → Option ℕ
hex_digit_value c =
    if is_digit c
    then some (c - b'0')
    else if leb b'a' c && leb c b'f'
    then some (c - b'a' + 10)
    else if leb b'A' c && leb c b'F'
    then some (c - b'A' + 10)
    else none

-- The digits to the end of the text; 0 if another character stands there.
abbrev hex_digits : ℕ → Bytes → ℕ
hex_digits value [] = value
hex_digits value (c ∷ cs) = elim (hex_digit_value c) [
  | none ↦ 0
  | some d ↦ hex_digits (value * 16 + d) cs
]

abbrev starts_hex : Bytes → Bool
starts_hex [] = false
starts_hex (c ∷ cs) = elim (hex_digit_value c) [ none ↦ false | some d ↦ true ]

-- Behind the sign: `0x` is passed over where a digit follows it.
abbrev hex_prefixed : Bytes → ℕ
hex_prefixed (z ∷ x ∷ cs) =
    if (z == b'0') && ((x == b'x') || (x == b'X')) && starts_hex cs
    then hex_digits 0 cs
    else hex_digits 0 (z ∷ x ∷ cs)
hex_prefixed cs = hex_digits 0 cs

abbrev hex_signed : Bytes → ℕ
hex_signed [] = 0
hex_signed (c ∷ cs) =
    if c == b'-' then 0 else if c == b'+' then hex_prefixed cs else hex_prefixed (c ∷ cs)

-- `strtol(hex, &end, 16)` where it reads all of the text and gives a positive number, else 0.
unfoldable pub strtol_hex : Bytes → ℕ
strtol_hex text = hex_signed (skip_spaces text)

-- `\u` and four characters give one ASCII character or none; with fewer, the backslash is dropped.
unfoldable pub unescape_unicode : Bytes → Bytes × Bytes
unescape_unicode (a ∷ b ∷ c ∷ d ∷ rest) =
    let cp = strtol_hex (a ∷ b ∷ c ∷ d ∷ []) in
    (if ltb 0 cp && ltb cp 0x80 then cp ∷ [] else [], rest)
unescape_unicode rest = ([], b'u' ∷ rest)

-- What follows a backslash.
unfoldable pub unescape_behind : Bytes → Bytes × Bytes
unescape_behind [] = (b'\\' ∷ [], [])
unescape_behind (x ∷ rest) =
    if (x == b'"') || (x == b'\\')
    then (x ∷ [], rest)
    else if x == b'n'
    then (10 ∷ [], rest)
    else if x == b'r'
    then (13 ∷ [], rest)
    else if x == b't'
    then (9 ∷ [], rest)
    else if x == b'u'
    then unescape_unicode rest
    else (b'\\' ∷ [], x ∷ rest)

-- One turn of the loop: what it puts out, and where it goes on.
unfoldable pub unescape_next : ℕ → Bytes → Bytes × Bytes
unescape_next c rest = if c == b'\\' then unescape_behind rest else (c ∷ [], rest)

-- Every turn takes at least one character, so the length is enough fuel.
unfoldable pub unescape_loop : ℕ → Bytes → Bytes
unescape_loop zero text = []
unescape_loop (suc fuel) [] = []
unescape_loop (suc fuel) (c ∷ cs) =
    let (out, rest) = unescape_next c cs in out ++ unescape_loop fuel rest

-- `RaftStorage::UnescapeJson`
unfoldable pub unescape_json : Bytes → Bytes
unescape_json text = unescape_loop (length text) text

abbrev pub cons_some : ℕ → Option Bytes → Option Bytes
cons_some c none = none
cons_some c (some cs) = some (c ∷ cs)

-- The text up to the first quote that no backslash escapes.
unfoldable pub to_end_quote : Bool → Bytes → Option Bytes
to_end_quote escaped [] = none
to_end_quote escaped (c ∷ cs) =
    let rest = to_end_quote (not escaped && (c == b'\\')) cs in
    if not escaped && (c == b'"') then some [] else cons_some c rest

-- The lambda `parse_string`, at the position that `find_field` gave.
unfoldable pub parse_string : Bytes → Option Bytes
parse_string [] = none
parse_string (c ∷ cs) =
    if c == b'"'
    then elim (to_end_quote false cs) [ none ↦ none | some raw ↦ some (unescape_json raw) ]
    else none
