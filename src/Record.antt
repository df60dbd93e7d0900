-- ===== src/Record.antt =====
-- src/record.cpp and include/holesail/record.hpp: the JSON record that a server publishes. The
-- source's index `i` into the text is the text from `i` on.
pub mod Scan
pub mod RoundTrip
use holesail_cpp.Base.{
  ℕ, zero, suc, ◌+◌, ◌-◌, ◌*◌, ◌/◌, ◌%◌, ◌==◌, ltb, leb, if◌then◌else◌, Bool, true, false, ◌&&◌,
  ◌||◌, Option, none, some, ◌>>=◌, List, [], ◌∷◌, ◌++◌, length, Bytes, bytes_eq, codes,
}
use holesail_cpp.Bits.{shr, bit_and, bit_or, shl32}
use holesail_cpp.Keys.{char_at, hex_digits, nibble_of}
use holesail_cpp.Text.{decimal, Signed, within, strtol, c_str}

pub record Record : Type 0 where
  pub host : Bytes
  pub udp : Option Bool
  pub port : Option ℕ

abbrev pub quote : ℕ
quote = 34

abbrev pub backslash : ℕ
backslash = 92

-- The `switch` of `append_escaped`.
unfoldable pub escape_char : ℕ → Bytes
escape_char c =
    if c == quote
    then backslash ∷ quote ∷ []
    else if c == backslash
    then backslash ∷ backslash ∷ []
    else if c == 10
    then backslash ∷ b'n' ∷ []
    else if c == 13
    then backslash ∷ b'r' ∷ []
    else if c == 9
    then backslash ∷ b't' ∷ []
    else if ltb c 0x20
    then backslash
      ∷ b'u'
      ∷ b'0'
      ∷ b'0'
      ∷ char_at hex_digits (bit_and (shr c 4) 0x0f)
      ∷ char_at hex_digits (bit_and c 0x0f)
      ∷ []
    else c ∷ []

unfoldable pub append_escaped : Bytes → Bytes → Bytes
append_escaped out [] = out
append_escaped out (c ∷ s) = append_escaped (out ++ escape_char c) s

abbrev pub is_ws : ℕ → Bool
is_ws c = c == b' ' || (c == 9 || (c == 10 || c == 13))

unfoldable pub skip_ws : Bytes → Bytes
skip_ws [] = []
skip_ws (c ∷ s) = if is_ws c then skip_ws s else c ∷ s

-- `\u` and four hexadecimal digits: the character, `?` above the ASCII range.
unfoldable pub read_unicode : Bytes → Option (ℕ × Bytes)
read_unicode (a ∷ b ∷ c ∷ d ∷ rest) = do
  v1 ← nibble_of a
  v2 ← nibble_of b
  v3 ← nibble_of c
  v4 ← nibble_of d
  let code = bit_or (shl32 (bit_or (shl32 (bit_or (shl32 v1 4) v2) 4) v3) 4) v4
  some (if ltb code 0x80 then code else b'?', rest)
read_unicode s = none

-- The `switch` on the character behind a backslash.
unfoldable pub read_escape : Bytes → Option (ℕ × Bytes)
read_escape [] = none
read_escape (e ∷ rest) =
    if e == quote
    then some (quote, rest)
    else if e == backslash
    then some (backslash, rest)
    else if e == b'/'
    then some (b'/', rest)
    else if e == b'n'
    then some (10, rest)
    else if e == b'r'
    then some (13, rest)
    else if e == b't'
    then some (9, rest)
    else if e == b'b'
    then some (8, rest)
    else if e == b'f'
    then some (12, rest)
    else if e == b'u'
    then read_unicode rest
    else none

-- One round of `read_string`'s loop behind the opening quote.
pub data Piece : Type 0 where
  closing : Bytes → Piece
  char : ℕ → Bytes → Piece
  broken : Piece

unfoldable pub read_piece : Bytes → Piece
read_piece [] = broken
read_piece (c ∷ s) =
    if c == quote
    then closing s
    else if c == backslash
    then elim (read_escape s) [ none ↦ broken | some (e, rest) ↦ char e rest ]
    else char c s

-- Each round reads a character at least, so as many rounds as there are characters are enough: with
-- none left the string is unterminated.
unfoldable pub read_chars : ℕ → Bytes → Bytes → Option (Bytes × Bytes)
read_chars zero s out = none
read_chars (suc rounds) s out = elim (read_piece s) [
  | closing rest ↦ some (out, rest)
  | char c rest ↦ read_chars rounds rest (out ++ (c ∷ []))
  | broken ↦ none
]

unfoldable pub read_string : Bytes → Option (Bytes × Bytes)
read_string [] = none
read_string (c ∷ s) = if c == quote then read_chars (length s) s [] else none

-- The characters up to a comma or a closing brace, and what follows.
unfoldable pub scalar_span : Bytes → Bytes × Bytes
scalar_span [] = ([], [])
scalar_span (c ∷ s) =
    let rest = scalar_span s in if c == b',' || c == b'}' then ([], c ∷ s) else (c ∷ rest.0, rest.1)

-- A character in front of a trimmed text.
unfoldable pub keep : ℕ → Bytes → Bytes
keep c [] = if is_ws c then [] else c ∷ []
keep c (d ∷ t) = c ∷ d ∷ t

-- Without the white space at the end.
unfoldable pub trim_end : Bytes → Bytes
trim_end [] = []
trim_end (c ∷ s) = keep c (trim_end s)

unfoldable pub read_scalar : Bytes → Option (Bytes × Bytes)
read_scalar s = elim (trim_end (scalar_span s).0) [
  | [] ↦ none
  | c ∷ raw ↦ some (c ∷ raw, (scalar_span s).1)
]

unfoldable pub udp_member : Option Bool → Bytes
udp_member none = []
udp_member (some true) = codes ",\"udp\":true"
udp_member (some false) = codes ",\"udp\":false"

unfoldable pub encode_record : Bytes → Option Bool → ℕ → Bytes
encode_record host udp port =
    append_escaped (codes "{\"host\":\"") host
    ++ (quote ∷ (udp_member udp ++ (codes ",\"port\":" ++ (decimal port ++ codes "}"))))

-- A string value: only the host is kept.
unfoldable pub set_string : Bytes → Bytes → Record → Record
set_string key value rec = if bytes_eq key (codes "host") then record rec { host = value } else rec

-- The `port` that `strtol` reads, if it reads all of the text and the value is a port.
unfoldable pub set_port : Bytes → Record → Record
set_port raw rec =
    let read = strtol (c_str raw) in
    elim read.1 [
      | [] ↦ if within 1 65535 read.0 then record rec { port = some (read.0).magnitude } else rec
      | c ∷ rest ↦ rec
    ]

unfoldable pub set_scalar : Bytes → Bytes → Record → Record
set_scalar key raw rec =
    if bytes_eq key (codes "udp")
    then if bytes_eq raw (codes "true")
      then record rec { udp = some true }
      else if bytes_eq raw (codes "false")
      then record rec { udp = some false }
      else rec
    else if bytes_eq key (codes "port")
    then set_port raw rec
    else rec

-- The value behind a colon, stored under its key.
unfoldable pub read_value : Bytes → Bytes → Record → Option (Record × Bytes)
read_value key [] rec = none
read_value key (c ∷ s) rec =
    if c == quote
    then (do (value, rest) ← read_string (c ∷ s); some (set_string key value rec, rest))
    else (do (raw, rest) ← read_scalar (c ∷ s); some (set_scalar key raw rec, rest))

unfoldable pub expect_colon : Bytes → Option Bytes
expect_colon [] = none
expect_colon (c ∷ s) = if c == b':' then some s else none

-- One member of the object: the record with it, and what follows it.
unfoldable pub read_member : Bytes → Record → Option (Record × Bytes)
read_member s rec = do
  (key, s1) ← read_string (skip_ws s)
  s2 ← expect_colon (skip_ws s1)
  read_value key (skip_ws s2) rec

-- What stands behind a member: a comma, the closing brace, or neither.
pub data Tail : Type 0 where
  comma : Bytes → Tail
  brace : Tail
  neither : Tail

unfoldable pub tail_of : Bytes → Tail
tail_of [] = neither
tail_of (c ∷ s) = if c == b',' then comma s else if c == b'}' then brace else neither

-- The `while` loop over the members. Each round reads a character at least.
unfoldable pub members : ℕ → Bytes → Record → Option Record
members zero s rec = none
members (suc rounds) s rec = do
  (rec', rest) ← read_member s rec
  elim (tail_of (skip_ws rest)) [
    | comma rest' ↦ members rounds rest' rec'
    | brace ↦ some rec'
    | neither ↦ none
  ]

abbrev pub empty_record : Record
empty_record = record { host = []; udp = none; port = none }

unfoldable pub decode_body : Bytes → Option Record
decode_body [] = none
decode_body (c ∷ s) =
    if c == b'}' then some empty_record else members (length (c ∷ s)) (c ∷ s) empty_record

unfoldable pub decode_object : Bytes → Option Record
decode_object [] = none
decode_object (c ∷ s) = if c == b'{' then decode_body (skip_ws s) else none

unfoldable pub decode_record : Bytes → Option Record
decode_record json = decode_object (skip_ws json)
