-- ===== src/Record/Scan.antt =====
-- The scanners of the record: strings that `append_escaped` wrote, and decimal scalars.
use holesail_cpp.Base.{
  ℕ, zero, suc, ◌+◌, ◌-◌, ◌*◌, ◌/◌, ◌%◌, ◌^◌, ◌≤◌, ◌<◌, ◌≡◌, refl, sym, ◌∙◌, false, [], ◌⊎◌, ◌∷◌,
  ◌++◌, append_assoc, append-nil, Bytes, arith, All, lt→ltb, inl, inr, none, some, length,
  length-append, min,
}
use holesail_cpp.Bits.{shr, shl32, bit_and, bit_or, and_0x0f, or_disjoint}
use holesail_cpp.Keys.{char_at, hex_digits, nibble_of}
use holesail_cpp.Keys.Hex.{nibble_of-char_at}
use holesail_cpp.Text.{digit_run, skip_space, strtol, strtol_signed, strtol_digits, c_str}
use holesail_cpp.Text.Decimal.{IsDigit}
use holesail_cpp.Record.{
  quote, escape_char, append_escaped, read_unicode, read_escape, Piece, closing, char, broken,
  read_piece, read_chars, read_string, scalar_span, keep, trim_end, read_scalar,
}

-- What `append_escaped` appends.
abbrev pub escaped : Bytes → Bytes
escaped [] = []
escaped (c ∷ s) = escape_char c ++ escaped s

pub append_escaped_lem : (out s : Bytes) → append_escaped out s ≡ out ++ escaped s
unfolding append_escaped
append_escaped_lem out [] = sym (append-nil out)
append_escaped_lem out (c ∷ s) =
    append_escaped_lem (out ++ escape_char c) s ∙ append_assoc out (escape_char c) (escaped s)

code_of : (c : ℕ) → c < 0x20 → bit_or (shl32 (bit_or 0 (c / 16 % 16)) 4) (c % 16) ≡ c
code_of c h =
    let e : bit_or 0 (c / 16 % 16) ≡ 0 * 2 ^ 4 + c / 16 % 16 =
      or_disjoint 4 0 (c / 16 % 16) (omega arith) in
    let f : (0 + c / 16 % 16) * 2 ^ 4 % 2 ^ 32 ≡ c / 16 * 2 ^ 4 = omega arith in
    rw (e, f) (or_disjoint 4 (c / 16) (c % 16) (omega arith) ∙ omega arith)

zero_nibble : nibble_of b'0' ≡ some 0
unfolding nibble_of
zero_nibble = refl

read_unicode-control :
    (c : ℕ) (rest : Bytes)
    → c < 0x20
    → read_unicode (
        b'0'
        ∷ b'0'
        ∷ char_at hex_digits (bit_and (shr c 4) 0x0f)
        ∷ char_at hex_digits (bit_and c 0x0f)
        ∷ rest)
      ≡ some (c, rest)
unfolding read_unicode
read_unicode-control c rest h =
    simp (and_0x0f, zero_nibble)
      (rw (nibble_of-char_at (c / 16 % 16) (omega arith), nibble_of-char_at (c % 16) (omega arith))
        (rw (code_of c h, lt→ltb c 0x80 (omega arith))))

read_piece-escape_char : (c : ℕ) (rest : Bytes) → read_piece (escape_char c ++ rest) ≡ char c rest
unfolding read_piece escape_char read_escape
read_piece-escape_char c rest = ground (arith, read_unicode-control c rest)

length-escaped : (s : Bytes) → length s ≤ length (escaped s)
unfolding escape_char
length-escaped [] = omega arith
length-escaped (c ∷ s) = ground (arith, length-escaped s, length-append (escape_char c) (escaped s))

read_chars-escaped :
    (n : ℕ) (s rest out : Bytes)
    → length s < n
    → read_chars n (escaped s ++ (quote ∷ rest)) out ≡ some (out ++ s, rest)
unfolding read_chars
read_chars-escaped zero s rest out h = elim h [ ]
read_chars-escaped (suc n) [] rest out h = closes
  where
    closes : read_chars (suc n) (quote ∷ rest) out ≡ some (out ++ [], rest)
    closes = unfold read_piece in rw append-nil
read_chars-escaped (suc n) (c ∷ s) rest out h =
    rw
      (
        append_assoc (escape_char c) (escaped s) (quote ∷ rest),
        read_chars,
        read_piece-escape_char c (escaped s ++ (quote ∷ rest)),
      )
      (read_chars-escaped n s rest (out ++ (c ∷ [])) (omega arith) ∙ rw append_assoc)

-- A string that `append_escaped` wrote reads back, control characters, quotes and backslashes included.
pub read_string-escaped :
    (s rest : Bytes) → read_string (quote ∷ (escaped s ++ (quote ∷ rest))) ≡ some (s, rest)
unfolding read_string
read_string-escaped s rest =
    read_chars-escaped _ s rest []
      (omega (arith, length-escaped s, length-append (escaped s) (quote ∷ rest)))

-- Rounds beyond the length of the text change nothing, so the loop of `read_string` never stops for
-- want of rounds.
read_unicode_shrinks :
    (s : Bytes) {c : ℕ} {rest : Bytes} → read_unicode s ≡ some (c, rest) → length rest < length s
unfolding read_unicode
read_unicode_shrinks [] h = cc
read_unicode_shrinks (a ∷ []) h = cc
read_unicode_shrinks (a ∷ b ∷ []) h = cc
read_unicode_shrinks (a ∷ b ∷ c ∷ []) h = cc
read_unicode_shrinks (a ∷ b ∷ c ∷ d ∷ s) h = ground arith

read_escape_shrinks :
    (s : Bytes) {c : ℕ} {rest : Bytes} → read_escape s ≡ some (c, rest) → length rest < length s
unfolding read_escape
read_escape_shrinks [] h = cc
read_escape_shrinks (e ∷ s) {c} {rest} h =
    ground (arith, read_unicode_shrinks s {c = c} {rest = rest})

piece_shrinks :
    (s : Bytes) {c : ℕ} {rest : Bytes} → read_piece s ≡ char c rest → length rest < length s
unfolding read_piece
piece_shrinks [] h = cc
piece_shrinks (a ∷ s) {c} {rest} h = ground (arith, read_escape_shrinks s {c = c} {rest = rest})

piece-cases :
    (s : Bytes)
    → ((r : Bytes) × (read_piece s ≡ closing r))
      ⊎ (((c : ℕ) × (r : Bytes) × (read_piece s ≡ char c r)) ⊎ (read_piece s ≡ broken))
piece-cases s = go (read_piece s) refl
  where
    go :
        (p : Piece)
        → read_piece s ≡ p
        → ((r : Bytes) × (read_piece s ≡ closing r))
          ⊎ (((c : ℕ) × (r : Bytes) × (read_piece s ≡ char c r)) ⊎ (read_piece s ≡ broken))
    go (closing r) e = inl (r, e)
    go (char c r) e = inr (inl (c, r, e))
    go broken e = inr (inr e)

read_chars_nothing : (n : ℕ) (out : Bytes) → read_chars n [] out ≡ none
unfolding read_chars read_piece
read_chars_nothing zero out = refl
read_chars_nothing (suc n) out = refl

pub read_chars_rounds :
    (m n : ℕ) (s out : Bytes)
    → length s ≤ m
    → length s ≤ n
    → read_chars m s out ≡ read_chars n s out
unfolding read_chars
read_chars_rounds zero n [] out h k = sym (read_chars_nothing n out)
read_chars_rounds zero n (c ∷ s) out h k = elim h [ ]
read_chars_rounds (suc m) zero [] out h k = read_chars_nothing (suc m) out
read_chars_rounds (suc m) zero (c ∷ s) out h k = elim k [ ]
read_chars_rounds (suc m) (suc n) s out h k = elim (piece-cases s) [
  | inl (r, e) ↦ rw (e, read_chars, read_chars)
  | inr (inl (c, r, e)) ↦
      let lt = piece_shrinks s e in
      rw (e, read_chars, read_chars)
        (read_chars_rounds m n r (out ++ (c ∷ [])) (omega arith) (omega arith))
  | inr (inr e) ↦ rw (e, read_chars, read_chars)
]

-- Decimal digits as a scalar.
scalar_span-digits :
    (xs rest : Bytes) → All IsDigit xs → scalar_span (xs ++ (b'}' ∷ rest)) ≡ (xs, b'}' ∷ rest)
unfolding scalar_span
scalar_span-digits [] rest h = refl
scalar_span-digits (x ∷ xs) rest h = ground (arith, h.0, scalar_span-digits xs rest h.1)

keep-digit : (x : ℕ) (xs : Bytes) → IsDigit x → keep x xs ≡ x ∷ xs
unfolding keep
keep-digit x [] h = ground arith
keep-digit x (y ∷ xs) h = refl

trim_end-digits : (xs : Bytes) → All IsDigit xs → trim_end xs ≡ xs
unfolding trim_end
trim_end-digits [] h = refl
trim_end-digits (x ∷ xs) h = rw (trim_end-digits xs h.1) (keep-digit x xs h.0)

pub read_scalar-digits :
    (x : ℕ) (xs rest : Bytes)
    → All IsDigit (x ∷ xs)
    → read_scalar ((x ∷ xs) ++ (b'}' ∷ rest)) ≡ some (x ∷ xs, b'}' ∷ rest)
unfolding read_scalar
read_scalar-digits x xs rest h = rw (
  read_scalar,
  scalar_span-digits (x ∷ xs) rest h,
  trim_end-digits (x ∷ xs) h,
  scalar_span-digits (x ∷ xs) rest h,
)

c_str-digits : (xs : Bytes) → All IsDigit xs → c_str xs ≡ xs
unfolding c_str
c_str-digits [] h = refl
c_str-digits (x ∷ xs) h = ground (arith, h.0, c_str-digits xs h.1)

skip_space-digit : (x : ℕ) (xs : Bytes) → IsDigit x → skip_space (x ∷ xs) ≡ x ∷ xs
unfolding skip_space
skip_space-digit x xs h = ground arith

strtol_signed-digit :
    (x : ℕ) (xs : Bytes) → IsDigit x → strtol_signed (x ∷ xs) ≡ strtol_digits false (x ∷ xs)
unfolding strtol_signed
strtol_signed-digit x xs h = ground arith

pub strtol-digits :
    (x : ℕ) (xs : Bytes) (n : ℕ)
    → All IsDigit (x ∷ xs)
    → digit_run 0 (x ∷ xs) ≡ (n, [])
    → n < 2 ^ 63
    → strtol (c_str (x ∷ xs)) ≡ (record { negative = false; magnitude = n }, [])
unfolding strtol strtol_digits
strtol-digits x xs n h run small =
    let fits : min n (2 ^ 63 - 1) ≡ n = omega arith in
    rw (
      c_str-digits (x ∷ xs) h,
      strtol,
      skip_space-digit x xs h.0,
      strtol_signed-digit x xs h.0,
      h.0,
      run,
      fits,
    )
