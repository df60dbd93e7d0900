-- ===== src/Keys.antt =====
-- src/keys.cpp and include/holesail/keys.hpp: z-base-32, hexadecimal and the `hs://` url.
pub mod Z32
pub mod Hex
pub mod Url
use holesail_cpp.Base.{
  ℕ, zero, suc, ◌+◌, ◌-◌, ◌*◌, ◌%◌, ◌==◌, ltb, leb, if◌then◌else◌, Bool, true, false, ◌&&◌, ◌||◌,
  Option, none, some, ◌>>=◌, List, [], ◌∷◌, ◌++◌, length, take, drop, get_elem?, Bytes, bytes_eq,
  codes,
}
use holesail_cpp.Bits.{shl32, shr, bit_and, bit_or}

unfoldable pub alphabet : Bytes
alphabet = codes "ybndrfg8ejkmcpqxot1uwisza345h769"

unfoldable pub hex_digits : Bytes
hex_digits = codes "0123456789abcdef"

-- `std::string_view::find(char)`; `none` is `npos`.
unfoldable pub find : ℕ → Bytes → Option ℕ
find c [] = none
find c (x ∷ xs) = if x == c then some 0 else (do i ← find c xs; some (suc i))

-- Indexing into a table of characters, which the source does within its bounds.
unfoldable pub char_at : Bytes → ℕ → ℕ
char_at [] i = 0
char_at (x ∷ xs) zero = x
char_at (x ∷ xs) (suc i) = char_at xs i

-- `none` is the source's -1.
unfoldable pub quintet_of : ℕ → Option ℕ
quintet_of c = find c alphabet

unfoldable pub nibble_of : ℕ → Option ℕ
nibble_of c =
    if leb b'0' c && leb c b'9'
    then some (c - b'0')
    else if leb b'a' c && leb c b'f'
    then some (c - b'a' + 10)
    else if leb b'A' c && leb c b'F'
    then some (c - b'A' + 10)
    else none

-- `while (bits >= 5)`: the characters pushed, and the bits left over. Each round takes five bits, so
-- `bits` rounds are enough.
unfoldable pub push_quintets : ℕ → ℕ → ℕ → Bytes × ℕ
push_quintets zero acc bits = ([], bits)
push_quintets (suc rounds) acc bits =
    let rest = push_quintets rounds acc (bits - 5) in
    if leb 5 bits
    then (char_at alphabet (bit_and (shr acc (bits - 5)) 0x1f) ∷ rest.0, rest.1)
    else ([], bits)

-- The `for` loop of `z32_encode` and the line after it, with the accumulator's value at hand.
unfoldable pub z32_encode_loop : Bytes → ℕ → ℕ → Bytes
z32_encode_loop [] acc bits =
    if ltb 0 bits then char_at alphabet (bit_and (shl32 acc (5 - bits)) 0x1f) ∷ [] else []
z32_encode_loop (x ∷ data') acc bits =
    let acc' = bit_or (shl32 acc 8) x in
    let pushed = push_quintets (bits + 8) acc' (bits + 8) in
    pushed.0 ++ z32_encode_loop data' acc' pushed.1

unfoldable pub z32_encode : Bytes → Bytes
z32_encode data' = z32_encode_loop data' 0 0

unfoldable pub z32_decode_loop : Bytes → ℕ → ℕ → Bytes → Option Bytes
z32_decode_loop [] acc bits out = some out
z32_decode_loop (c ∷ s) acc bits out = do
  v ← quintet_of c
  let acc' = bit_or (shl32 acc 5) v
  let full = leb 8 (bits + 5)
  z32_decode_loop s acc' (if full then bits + 5 - 8 else bits + 5)
      (if full then out ++ (bit_and (shr acc' (bits + 5 - 8)) 0xff ∷ []) else out)

unfoldable pub z32_decode : Bytes → Option Bytes
z32_decode s = z32_decode_loop s 0 0 []

unfoldable pub to_hex : Bytes → Bytes
to_hex [] = []
to_hex (x ∷ data') =
    char_at hex_digits (shr x 4) ∷ char_at hex_digits (bit_and x 0x0f) ∷ to_hex data'

-- The loop of `from_hex`, two characters a round; an odd length never gets here.
unfoldable pub from_hex_loop : Bytes → Bytes → Option Bytes
from_hex_loop [] out = some out
from_hex_loop (c ∷ []) out = none
from_hex_loop (c ∷ d ∷ s) out = do
  hi ← nibble_of c
  lo ← nibble_of d
  from_hex_loop s (out ++ (bit_or (hi * 16) lo ∷ []))

unfoldable pub from_hex : Bytes → Option Bytes
from_hex s = if length s % 2 == 0 then from_hex_loop s [] else none

-- `randombytes_buf` is libsodium's: the 32 bytes that it drew are the argument.
unfoldable pub random_hex32 : Bytes → Bytes
random_hex32 drawn = to_hex drawn

pub record ParsedUrl : Type 0 where
  pub key : Bytes
  pub secure : Option Bool

abbrev pub protocol : Bytes
protocol = codes "hs://"

unfoldable pub parse_url : Bytes → ParsedUrl
unfolding bytes_eq
parse_url url = record {
  key = if leb 9 (length url) && bytes_eq (take 5 url) protocol then drop 9 url else url;
  secure = sniff (get_elem? url 5);
}
  where
    -- `url.size() > 5 && url[5] == 's'`
    sniff : Option ℕ → Option Bool
    sniff none = none
    sniff (some c) = if c == b's' then some true else none
