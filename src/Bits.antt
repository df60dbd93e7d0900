-- ===== src/Bits.antt =====
-- Shifts, masks and `|` of the source's unsigned words, with the laws at variables that the codecs
-- use. A `uint32_t` keeps its wrap-around.
use holesail_cpp.Base.{
  ℕ, zero, suc, ◌+◌, ◌-◌, ◌*◌, ◌/◌, ◌%◌, ◌^◌, ◌≤◌, ◌<◌, min, max, ◌≡◌, refl, ap, arith,
}
use Prim.Native.Nat.{digits, bit_and-bitwise, bit_or-bitwise}
pub use Prim.Native.Nat.{bit_and, bit_or}
use native.Mathlib.Nat.{pow-suc, one-le-pow}

-- `x << k` on a `uint32_t`, and `x >> k`.
abbrev pub shl32 : ℕ → ℕ → ℕ
shl32 x k = x * 2 ^ k % 2 ^ 32

abbrev pub shr : ℕ → ℕ → ℕ
shr x k = x / 2 ^ k

-- The native operations recur on a count of digits; one digit at a time needs no count.
module _ (pad : ℕ → ℕ) (op : ℕ → ℕ → ℕ) where
  count_irrelevant : (m n x y : ℕ) → x ≤ m → x ≤ n → digits pad op m x y ≡ digits pad op n x y
  count_irrelevant zero zero x y p q = refl
  count_irrelevant zero (suc n) zero y p q = refl
  count_irrelevant zero (suc n) (suc x) y p q = elim p [ ]
  count_irrelevant (suc m) zero zero y p q = refl
  count_irrelevant (suc m) zero (suc x) y p q = elim q [ ]
  count_irrelevant (suc m) (suc n) zero y p q = refl
  count_irrelevant (suc m) (suc n) (suc x) y p q =
      omega (arith, count_irrelevant m n (suc x / 2) (y / 2) (omega arith) (omega arith))

and_digit : (x y : ℕ) → bit_and x y ≡ 2 * bit_and (x / 2) (y / 2) + min (x % 2) (y % 2)
and_digit zero y = omega (arith, bit_and-bitwise 0 y, bit_and-bitwise 0 (y / 2))
and_digit (suc x) y =
    let same =
      count_irrelevant (λ b. 0) min x (suc x / 2) (suc x / 2) (y / 2) (omega arith) (omega arith) in
    omega (arith, same, bit_and-bitwise (suc x) y, bit_and-bitwise (suc x / 2) (y / 2))

or_digit : (x y : ℕ) → bit_or x y ≡ 2 * bit_or (x / 2) (y / 2) + max (x % 2) (y % 2)
or_digit zero y = omega (arith, bit_or-bitwise 0 y, bit_or-bitwise 0 (y / 2))
or_digit (suc x) y =
    let same =
      count_irrelevant (λ b. b) max x (suc x / 2) (suc x / 2) (y / 2) (omega arith) (omega arith) in
    omega (arith, same, bit_or-bitwise (suc x) y, bit_or-bitwise (suc x / 2) (y / 2))

and_zero_below : (n x : ℕ) → x ≤ n → bit_and x 0 ≡ 0
and_zero_below n zero h = refl
and_zero_below zero (suc x) h = elim h [ ]
and_zero_below (suc n) (suc x) h =
    omega (arith, and_digit (suc x) 0, and_zero_below n (suc x / 2) (omega arith))

or_zero_below : (n x : ℕ) → x ≤ n → bit_or x 0 ≡ x
or_zero_below n zero h = refl
or_zero_below zero (suc x) h = elim h [ ]
or_zero_below (suc n) (suc x) h =
    omega (arith, or_digit (suc x) 0, or_zero_below n (suc x / 2) (omega arith))

times_two_pow : (q k : ℕ) → q * 2 ^ suc k ≡ 2 * (q * 2 ^ k)
times_two_pow q k = omega (arith, ap (λ (t : ℕ). q * t) (pow-suc 2 k))

-- `(q << k) | r` is a sum where `r` fits the `k` low bits.
pub or_disjoint : (k q r : ℕ) → r < 2 ^ k → bit_or (q * 2 ^ k) r ≡ q * 2 ^ k + r
or_disjoint zero q r fits = ground (arith, or_zero_below q q)
or_disjoint (suc k) q r fits =
    ground
      (arith, or_digit (q * 2 ^ suc k) r, times_two_pow q k, or_disjoint k q (r / 2) (omega arith))

and_split : (k q r : ℕ) → r < 2 ^ k → bit_and (q * 2 ^ k + r) (2 ^ k - 1) ≡ r
and_split zero q r fits = ground (arith, and_zero_below (q + r) (q + r))
and_split (suc k) q r fits = ground (
  arith,
  and_digit (q * 2 ^ suc k + r) (2 ^ suc k - 1),
  times_two_pow q k,
  pow-suc 2 k,
  and_split k q (r / 2) (omega arith),
)

-- A mask of `k` ones is the remainder by `2 ^ k`.
pub and_mask : (k x : ℕ) → bit_and x (2 ^ k - 1) ≡ x % 2 ^ k
and_mask k x = ground (arith, one-le-pow k 2, and_split k (x / 2 ^ k) (x % 2 ^ k))

pub and_0x0f : (x : ℕ) → bit_and x 0x0f ≡ x % 16
and_0x0f x = and_mask 4 x

pub and_0x1f : (x : ℕ) → bit_and x 0x1f ≡ x % 32
and_0x1f x = and_mask 5 x

pub and_0xff : (x : ℕ) → bit_and x 0xff ≡ x % 256
and_0xff x = and_mask 8 x
