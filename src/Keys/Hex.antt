-- ===== src/Keys/Hex.antt =====
-- Hexadecimal: round trip, and what `from_hex` accepts.
use holesail_cpp.Base.{
  ℕ, zero, suc, ◌+◌, ◌*◌, ◌/◌, ◌%◌, ◌<◌, ◌≡◌, refl, ap, ◌∙◌, ◌==◌, ◌&&◌, Bool, true, false, Option,
  none, some, [], ◌∷◌, ◌++◌, length, arith, Bytes, IsByte, AreBytes, append_assoc, append-nil,
  ==_iff, Option-cases, inl, inr, subst, All-append, length-append, Bool-cases,
}
use holesail_cpp.Bits.{bit_or, or_disjoint, and_0x0f}
use holesail_cpp.Keys.{hex_digits, char_at, nibble_of, to_hex, from_hex_loop, from_hex}

is_nibble : Option ℕ → ℕ → Bool
is_nibble none n = false
is_nibble (some m) n = m == n

nibbles_below : ℕ → Bool
nibbles_below zero = true
nibbles_below (suc n) = is_nibble (nibble_of (char_at hex_digits n)) n && nibbles_below n

is_nibble→eq : (o : Option ℕ) (n : ℕ) → is_nibble o n ≡ true → o ≡ some n
unfolding is_nibble
is_nibble→eq none n h = cc
is_nibble→eq (some m) n h = ap some ((==_iff m n).0 h)

nibbles_below_sound :
    (n q : ℕ) → nibbles_below n ≡ true → q < n → nibble_of (char_at hex_digits q) ≡ some q
unfolding nibbles_below
nibbles_below_sound zero q h lt = elim lt [ ]
nibbles_below_sound (suc n) q h lt =
    ground (arith, is_nibble→eq (nibble_of (char_at hex_digits n)) n, nibbles_below_sound n q)

nibbles_table : nibbles_below 16 ≡ true
unfolding nibbles_below is_nibble nibble_of hex_digits char_at
nibbles_table = refl

pub nibble_of-char_at : (q : ℕ) → q < 16 → nibble_of (char_at hex_digits q) ≡ some q
nibble_of-char_at q h = nibbles_below_sound 16 q nibbles_table h

two_nibbles : (x : ℕ) → bit_or (x / 16 * 16) (x % 16) ≡ x
two_nibbles x = or_disjoint 4 (x / 16) (x % 16) (omega arith) ∙ omega arith

from_hex_loop-to_hex :
    (bytes out : Bytes) → AreBytes bytes → from_hex_loop (to_hex bytes) out ≡ some (out ++ bytes)
unfolding from_hex_loop to_hex
from_hex_loop-to_hex [] out h = rw append-nil
from_hex_loop-to_hex (x ∷ xs) out h =
    rw
      (
        and_0x0f,
        nibble_of-char_at (x / 16) (omega arith),
        nibble_of-char_at (x % 16) (omega arith),
        two_nibbles x,
      )
      (from_hex_loop-to_hex xs (out ++ (x ∷ [])) h.1 ∙ rw append_assoc)

pub length-to_hex : (bytes : Bytes) → length (to_hex bytes) ≡ 2 * length bytes
unfolding to_hex
length-to_hex [] = refl
length-to_hex (x ∷ xs) = omega (arith, length-to_hex xs)

-- Every byte string reads back from its hexadecimal form.
pub from_hex-to_hex : (bytes : Bytes) → AreBytes bytes → from_hex (to_hex bytes) ≡ some bytes
unfolding from_hex
from_hex-to_hex bytes h =
    rw ((==_iff (length (to_hex bytes) % 2) 0).1 (omega (arith, length-to_hex bytes)))
      (from_hex_loop-to_hex bytes [] h)

pub nibble_of-lt : (c : ℕ) {v : ℕ} → nibble_of c ≡ some v → v < 16
unfolding nibble_of
nibble_of-lt c h = ground arith

packed : (hi lo : ℕ) → hi < 16 → lo < 16 → bit_or (hi * 16) lo < 256
packed hi lo h l = rw (or_disjoint 4 hi lo l) (omega arith)

from_hex_loop_shape :
    (s out : Bytes) {bytes : Bytes}
    → AreBytes out
    → from_hex_loop s out ≡ some bytes
    → AreBytes bytes × (2 * length bytes ≡ 2 * length out + length s)
unfolding from_hex_loop
from_hex_loop_shape [] out {bytes} ok h =
    let e : out ≡ bytes = cc in (subst AreBytes e ok, ground arith)
from_hex_loop_shape (c ∷ []) out ok h = cc
from_hex_loop_shape (c ∷ d ∷ s) out {bytes} ok h = elim (Option-cases (nibble_of c)) [
  | inl e ↦ cc
  | inr (hi, e) ↦ elim (Option-cases (nibble_of d)) [
    | inl f ↦ absurd (cc (rw (e, f) at h))
    | inr (lo, f) ↦
        let byte = bit_or (hi * 16) lo in
        let more = rw (e, f) at h in
        let small = packed hi lo (nibble_of-lt c e) (nibble_of-lt d f) in
        let (bs, len) =
          from_hex_loop_shape s (out ++ (byte ∷ [])) (All-append IsByte out _ ok (small, tt))
            more in
        (bs, omega (arith, len, length-append out (byte ∷ [])))
  ]
]

-- Whatever `from_hex` returns is a list of bytes, half as long as the text.
pub from_hex_shape :
    (s : Bytes) {bytes : Bytes}
    → from_hex s ≡ some bytes
    → AreBytes bytes × (2 * length bytes ≡ length s)
unfolding from_hex
from_hex_shape s h = elim (Bool-cases (length s % 2 == 0)) [
  | inl e ↦ let (bs, len) = from_hex_loop_shape s [] tt (rw e at h) in (bs, omega (arith, len))
  | inr e ↦ absurd (cc (rw e at h))
]
