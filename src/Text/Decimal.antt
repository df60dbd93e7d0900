-- ===== src/Text/Decimal.antt =====
-- A printed number reads back.
use holesail_cpp.Base.{
  ℕ, zero, suc, ◌+◌, ◌-◌, ◌*◌, ◌/◌, ◌%◌, ◌^◌, ◌<◌, ◌≡◌, refl, ◌∙◌, ap, ltb, true, false, [], ◌∷◌,
  ◌++◌, Bytes, arith, All, All-append, Bool-cases, inl, inr, ltb→lt,
}
use holesail_cpp.Text.{is_digit, decimal_loop, decimal, digit_run}
use native.Mathlib.Nat.{pow-suc}

abbrev pub IsDigit : ℕ → Type 0
IsDigit c = is_digit c ≡ true

IsDigit-char : (d : ℕ) → d < 10 → IsDigit (b'0' + d)
IsDigit-char d h = ground arith

pub decimal_loop-IsDigit : (k n : ℕ) → All IsDigit (decimal_loop k n)
unfolding decimal_loop
decimal_loop-IsDigit zero n = (IsDigit-char (n % 10) (omega arith), tt)
decimal_loop-IsDigit (suc k) n = elim (Bool-cases (ltb n 10)) [
  | inl e ↦ rw e (IsDigit-char n (ltb→lt n 10 e), tt)
  | inr e ↦ rw e (
      All-append IsDigit (decimal_loop k (n / 10)) _ (decimal_loop-IsDigit k (n / 10))
        (IsDigit-char (n % 10) (omega arith), tt))
]

-- The value of a run of digits on top of `acc`.
value_on : ℕ → Bytes → ℕ
value_on acc [] = acc
value_on acc (c ∷ s) = value_on (acc * 10 + (c - b'0')) s

value_on-append :
    (acc : ℕ) (xs ys : Bytes) → value_on acc (xs ++ ys) ≡ value_on (value_on acc xs) ys
unfolding value_on
value_on-append acc [] ys = refl
value_on-append acc (x ∷ xs) ys = value_on-append (acc * 10 + (x - b'0')) xs ys

value_on-decimal_loop : (k n : ℕ) → n < 10 ^ suc k → value_on 0 (decimal_loop k n) ≡ n
unfolding decimal_loop value_on
value_on-decimal_loop zero n h = omega arith
value_on-decimal_loop (suc k) n h = elim (Bool-cases (ltb n 10)) [
  | inl e ↦ rw e (omega (arith))
  | inr e ↦
      rw
        (
          e,
          value_on-append 0 (decimal_loop k (n / 10)) ((b'0' + n % 10) ∷ []),
          value_on-decimal_loop k (n / 10) (omega (arith, pow-suc 10 (suc k))),
        )
        (omega arith)
]

-- What stops a run of digits.
abbrev pub Stops : Bytes → Type 0
Stops [] = Unit {0}
Stops (c ∷ s) = is_digit c ≡ false

digit_run-digits :
    (acc : ℕ) (xs rest : Bytes)
    → All IsDigit xs
    → Stops rest
    → digit_run acc (xs ++ rest) ≡ (value_on acc xs, rest)
unfolding digit_run value_on
digit_run-digits acc [] [] ds h = refl
digit_run-digits acc [] (c ∷ rest) ds h = rw h
digit_run-digits acc (x ∷ xs) rest ds h =
    rw ds.0 (digit_run-digits (acc * 10 + (x - b'0')) xs rest ds.1 h)

-- A number below 10 ^ 20 that `std::to_string` printed reads back from any text that goes on with no
-- digit.
pub digit_run-decimal :
    (n : ℕ) (rest : Bytes) → n < 10 ^ 20 → Stops rest → digit_run 0 (decimal n ++ rest) ≡ (n, rest)
unfolding decimal
digit_run-decimal n rest h stop =
    digit_run-digits 0 (decimal_loop 19 n) rest (decimal_loop-IsDigit 19 n) stop
    ∙ ap (λ v. (v, rest)) (value_on-decimal_loop 19 n h)
