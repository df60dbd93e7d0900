-- ===== src/Text.antt =====
-- What the program uses of the C and C++ text library: decimal printing (`std::to_string`), the
-- readers `strtol` and `std::from_chars`, C strings and the character classes of the C locale.
-- A `long` has 64 bits.
pub mod Decimal
use holesail_cpp.Base.{
  ℕ, zero, suc, ◌+◌, ◌-◌, ◌*◌, ◌/◌, ◌%◌, ◌^◌, min, ◌==◌, ltb, leb, if◌then◌else◌, Bool, true, false,
  ◌&&◌, ◌||◌, Option, none, some, List, [], ◌∷◌, ◌++◌, Bytes,
}

abbrev pub is_digit : ℕ → Bool
is_digit c = leb b'0' c && leb c b'9'

abbrev pub is_space : ℕ → Bool
is_space c = c == b' ' || leb 9 c && leb c 13

unfoldable pub to_upper : ℕ → ℕ
to_upper c = if leb b'a' c && leb c b'z' then c - 32 else c

-- `std::to_string` on an unsigned number below 10 ^ 20.
unfoldable pub decimal_loop : ℕ → ℕ → Bytes
decimal_loop zero n = (b'0' + n % 10) ∷ []
decimal_loop (suc more) n =
    let front = decimal_loop more (n / 10) in
    if ltb n 10 then (b'0' + n) ∷ [] else front ++ ((b'0' + n % 10) ∷ [])

unfoldable pub decimal : ℕ → Bytes
decimal n = decimal_loop 19 n

-- The run of digits at the front, as a number on top of `acc`, and what follows it.
unfoldable pub digit_run : ℕ → Bytes → ℕ × Bytes
digit_run acc [] = (acc, [])
digit_run acc (c ∷ s) =
    let rest = digit_run (acc * 10 + (c - b'0')) s in if is_digit c then rest else (acc, c ∷ s)

-- A signed number, as sign and magnitude.
pub record Signed : Type 0 where
  pub negative : Bool
  pub magnitude : ℕ

-- `min <= value <= max` for natural bounds.
abbrev pub within : ℕ → ℕ → Signed → Bool
within lo hi v =
    if v.negative
    then (if v.magnitude == 0 then lo == 0 else false)
    else leb lo v.magnitude && leb v.magnitude hi

-- The characters up to the first NUL.
unfoldable pub c_str : Bytes → Bytes
c_str [] = []
c_str (c ∷ s) = if c == 0 then [] else c ∷ c_str s

unfoldable pub skip_space : Bytes → Bytes
skip_space [] = []
skip_space (c ∷ s) = if is_space c then skip_space s else c ∷ s

abbrev long_min_magnitude : ℕ
long_min_magnitude = 2 ^ 63

-- The digits after an optional sign; without a digit nothing was read, and the number is 0.
unfoldable pub strtol_digits : Bool → Bytes → Option (Signed × Bytes)
strtol_digits neg [] = none
strtol_digits neg (c ∷ s) =
    let run = digit_run 0 (c ∷ s) in
    let bound = if neg then long_min_magnitude else long_min_magnitude - 1 in
    if is_digit c
    then some (record { negative = neg; magnitude = min run.0 bound }, run.1)
    else none

unfoldable pub strtol_signed : Bytes → Option (Signed × Bytes)
strtol_signed [] = none
strtol_signed (c ∷ s) =
    if c == b'-'
    then strtol_digits true s
    else if c == b'+'
    then strtol_digits false s
    else strtol_digits false (c ∷ s)

-- `strtol(text, &end, 10)` on a C string: the value, and the text from `end` on.
unfoldable pub strtol : Bytes → Signed × Bytes
strtol text = elim (strtol_signed (skip_space text)) [
  | none ↦ (record { negative = false; magnitude = 0 }, text)
  | some r ↦ r
]

-- `std::from_chars` for a `long`, with the test that it read all of a text: no space, no `+`, and a
-- value that fits.
unfoldable pub from_chars_digits : Bool → Bytes → Option Signed
from_chars_digits neg [] = none
from_chars_digits neg (c ∷ s) =
    let run = digit_run 0 (c ∷ s) in
    elim run.1 [
      | [] ↦
          if leb run.0 (if neg then long_min_magnitude else long_min_magnitude - 1)
          then some (record { negative = neg; magnitude = run.0 })
          else none
      | d ∷ rest ↦ none
    ]

unfoldable pub from_chars : Bytes → Option Signed
from_chars [] = none
from_chars (c ∷ s) = if c == b'-' then from_chars_digits true s else from_chars_digits false (c ∷ s)
