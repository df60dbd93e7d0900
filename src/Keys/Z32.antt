-- ===== src/Keys/Z32.antt =====
-- z-base-32: what was encoded decodes to itself, through the 32-bit accumulators of both loops.
use holesail_cpp.Base.{
  ℕ, zero, suc, ◌+◌, ◌-◌, ◌*◌, ◌/◌, ◌%◌, ◌^◌, ◌≤◌, ◌<◌, ◌≡◌, refl, ap, ◌∙◌, ◌==◌, ◌&&◌, Bool, true,
  false, Option, none, some, [], ◌∷◌, ◌++◌, length, arith, Bytes, AreBytes, append_assoc,
  append-nil, ==_iff, le→leb, lt→leb-false,
}
use holesail_cpp.Bits.{shl32, bit_or, or_disjoint, and_0x1f, and_0xff}
use holesail_cpp.Keys.{
  alphabet, char_at, find, quintet_of, push_quintets, z32_encode_loop, z32_encode, z32_decode_loop,
  z32_decode,
}

is_some_eq : Option ℕ → ℕ → Bool
is_some_eq none n = false
is_some_eq (some m) n = m == n

quintets_below : ℕ → Bool
quintets_below zero = true
quintets_below (suc n) = is_some_eq (quintet_of (char_at alphabet n)) n && quintets_below n

is_some_eq→eq : (o : Option ℕ) (n : ℕ) → is_some_eq o n ≡ true → o ≡ some n
unfolding is_some_eq
is_some_eq→eq none n h = cc
is_some_eq→eq (some m) n h = ap some ((==_iff m n).0 h)

quintets_below_sound :
    (n q : ℕ) → quintets_below n ≡ true → q < n → quintet_of (char_at alphabet q) ≡ some q
unfolding quintets_below
quintets_below_sound zero q h lt = elim lt [ ]
quintets_below_sound (suc n) q h lt =
    ground (arith, is_some_eq→eq (quintet_of (char_at alphabet n)) n, quintets_below_sound n q)

quintets_table : quintets_below 32 ≡ true
unfolding quintets_below is_some_eq quintet_of find alphabet char_at
quintets_table = refl

-- Each character of the alphabet stands at one place.
pub quintet_of-char_at : (q : ℕ) → q < 32 → quintet_of (char_at alphabet q) ≡ some q
quintet_of-char_at q h = quintets_below_sound 32 q quintets_table h

push_byte : (acc x : ℕ) → x < 256 → bit_or (shl32 acc 8) x ≡ acc % 2 ^ 24 * 256 + x
push_byte acc x h =
    let e : shl32 acc 8 ≡ acc % 2 ^ 24 * 2 ^ 8 = omega arith in
    rw e (or_disjoint 8 (acc % 2 ^ 24) x h)

push_quintet : (acc v : ℕ) → v < 32 → bit_or (shl32 acc 5) v ≡ acc % 2 ^ 27 * 32 + v
push_quintet acc v h =
    let e : shl32 acc 5 ≡ acc % 2 ^ 27 * 2 ^ 5 = omega arith in
    rw e (or_disjoint 5 (acc % 2 ^ 27) v h)

-- One round of the decoder on a character of the alphabet.
decode_short :
    (q acc bits : ℕ) (s out : Bytes)
    → q < 32
    → bits < 3
    → z32_decode_loop (char_at alphabet q ∷ s) acc bits out
      ≡ z32_decode_loop s (acc % 2 ^ 27 * 32 + q) (bits + 5) out
unfolding z32_decode_loop
decode_short q acc bits s out h hb =
    rw (quintet_of-char_at q h, push_quintet acc q h, lt→leb-false 8 (bits + 5) (omega arith))

decode_full :
    (q acc bits : ℕ) (s out : Bytes)
    → q < 32
    → 3 ≤ bits
    → z32_decode_loop (char_at alphabet q ∷ s) acc bits out
      ≡ z32_decode_loop s
          (acc % 2 ^ 27 * 32 + q)
          (bits + 5 - 8)
          (out ++ ((acc % 2 ^ 27 * 32 + q) / 2 ^ (bits + 5 - 8) % 256 ∷ []))
unfolding z32_decode_loop
decode_full q acc bits s out h hb =
    rw (quintet_of-char_at q h, push_quintet acc q h, and_0xff, le→leb 8 (bits + 5) (omega arith))

-- What the decoder still has to give back: with `k` bits of a byte left in the encoder, the other
-- `8 - k` are in the decoder.
abbrev pending : ℕ → ℕ → ℕ → Bytes → Bytes
pending zero acc acc' rest = rest
pending (suc k) acc acc' rest = (acc' % 2 ^ (8 - suc k) * 2 ^ suc k + acc % 2 ^ suc k) ∷ rest

-- The accumulator after one more byte.
abbrev join : ℕ → ℕ → ℕ
join acc x = acc % 2 ^ 24 * 256 + x

-- What the encoder writes for one byte, by the number of bits that it has left over.
encode_byte0 :
    (acc x : ℕ) (rest : Bytes)
    → x < 256
    → z32_encode_loop (x ∷ rest) acc 0
      ≡ char_at alphabet (join acc x / 8 % 32) ∷ z32_encode_loop rest (join acc x) 3
unfolding z32_encode_loop push_quintets
encode_byte0 acc x rest h = simp (push_byte acc x h, and_0x1f)

encode_byte1 :
    (acc x : ℕ) (rest : Bytes)
    → x < 256
    → z32_encode_loop (x ∷ rest) acc 1
      ≡ char_at alphabet (join acc x / 16 % 32) ∷ z32_encode_loop rest (join acc x) 4
unfolding z32_encode_loop push_quintets
encode_byte1 acc x rest h = simp (push_byte acc x h, and_0x1f)

encode_byte2 :
    (acc x : ℕ) (rest : Bytes)
    → x < 256
    → z32_encode_loop (x ∷ rest) acc 2
      ≡ char_at alphabet (join acc x / 32 % 32)
        ∷ char_at alphabet (join acc x / 1 % 32)
        ∷ z32_encode_loop rest (join acc x) 0
unfolding z32_encode_loop push_quintets
encode_byte2 acc x rest h = simp (push_byte acc x h, and_0x1f)

encode_byte3 :
    (acc x : ℕ) (rest : Bytes)
    → x < 256
    → z32_encode_loop (x ∷ rest) acc 3
      ≡ char_at alphabet (join acc x / 64 % 32)
        ∷ char_at alphabet (join acc x / 2 % 32)
        ∷ z32_encode_loop rest (join acc x) 1
unfolding z32_encode_loop push_quintets
encode_byte3 acc x rest h = simp (push_byte acc x h, and_0x1f)

encode_byte4 :
    (acc x : ℕ) (rest : Bytes)
    → x < 256
    → z32_encode_loop (x ∷ rest) acc 4
      ≡ char_at alphabet (join acc x / 128 % 32)
        ∷ char_at alphabet (join acc x / 4 % 32)
        ∷ z32_encode_loop rest (join acc x) 2
unfolding z32_encode_loop push_quintets
encode_byte4 acc x rest h = simp (push_byte acc x h, and_0x1f)

-- The bits that the decoder holds while `k` bits are left in the encoder.
abbrev held : ℕ → ℕ
held zero = 0
held (suc k) = 8 - suc k

same_head :
    (out : Bytes) {b b' : ℕ} {ys zs : Bytes}
    → b ≡ b'
    → ys ≡ zs
    → ◌≡◌ {A = Option Bytes} (some ((out ++ (b ∷ [])) ++ ys)) (some (out ++ (b' ∷ zs)))
same_head out {b} {b'} {ys} {zs} e f = rw (append_assoc, e, f)

same_next : {b b' : ℕ} (xs : Bytes) → b ≡ b' → ◌≡◌ {A = Bytes} (b ∷ xs) (b' ∷ xs)
same_next xs e = rw e

two_heads :
    (out ys : Bytes) {b b' c c' : ℕ}
    → b ≡ b'
    → c ≡ c'
    → ◌≡◌ {A = Option Bytes}
        (some (((out ++ (b ∷ [])) ++ (c ∷ [])) ++ ys))
        (some (out ++ (b' ∷ c' ∷ ys)))
two_heads out ys {b} {b'} {c} {c'} e f =
    rw (append_assoc out (b ∷ []) (c ∷ []), append_assoc out (b ∷ c ∷ []) ys, e, f)

decode_last :
    (k acc acc' : ℕ) (out : Bytes)
    → k < 5
    → z32_decode_loop (z32_encode_loop [] acc k) acc' (held k) out
      ≡ some (out ++ pending k acc acc' [])
decode_last zero acc acc' out h = unfold z32_encode_loop z32_decode_loop in rw append-nil
decode_last (suc zero) acc acc' out h =
    unfold z32_encode_loop in
    rw (and_0x1f, decode_full (shl32 acc 4 % 32) acc' 7 [] out (omega arith) (omega arith))
      (unfold z32_decode_loop in ap some (ap (λ ys. out ++ ys) (same_next [] (omega arith))))
decode_last (suc (suc zero)) acc acc' out h =
    unfold z32_encode_loop in
    rw (and_0x1f, decode_full (shl32 acc 3 % 32) acc' 6 [] out (omega arith) (omega arith))
      (unfold z32_decode_loop in ap some (ap (λ ys. out ++ ys) (same_next [] (omega arith))))
decode_last (suc (suc (suc zero))) acc acc' out h =
    unfold z32_encode_loop in
    rw (and_0x1f, decode_full (shl32 acc 2 % 32) acc' 5 [] out (omega arith) (omega arith))
      (unfold z32_decode_loop in ap some (ap (λ ys. out ++ ys) (same_next [] (omega arith))))
decode_last (suc (suc (suc (suc zero)))) acc acc' out h =
    unfold z32_encode_loop in
    rw (and_0x1f, decode_full (shl32 acc 1 % 32) acc' 4 [] out (omega arith) (omega arith))
      (unfold z32_decode_loop in ap some (ap (λ ys. out ++ ys) (same_next [] (omega arith))))
decode_last (suc (suc (suc (suc (suc k))))) acc acc' out h = absurd (omega arith)

sync :
    (rest : Bytes) (k acc acc' : ℕ) (out : Bytes)
    → AreBytes rest
    → k < 5
    → z32_decode_loop (z32_encode_loop rest acc k) acc' (held k) out
      ≡ some (out ++ pending k acc acc' rest)
sync [] k acc acc' out bytes h = decode_last k acc acc' out h
sync (x ∷ xs) zero acc acc' out bytes h =
    rw
      (
        encode_byte0 acc x xs bytes.0,
        decode_short (join acc x / 8 % 32) acc' 0 _ out (omega arith) (omega arith),
      )
      (sync xs 3 (join acc x) _ out bytes.1 (omega arith)
        ∙ ap some (ap (λ ys. out ++ ys) (same_next xs (omega arith))))
sync (x ∷ xs) (suc zero) acc acc' out bytes h =
    rw
      (
        encode_byte1 acc x xs bytes.0,
        decode_full (join acc x / 16 % 32) acc' 7 _ out (omega arith) (omega arith),
      )
      (sync xs 4 (join acc x) _ _ bytes.1 (omega arith)
        ∙ same_head out (omega arith) (same_next xs (omega arith)))
sync (x ∷ xs) (suc (suc zero)) acc acc' out bytes h =
    rw
      (
        encode_byte2 acc x xs bytes.0,
        decode_full (join acc x / 32 % 32) acc' 6 _ out (omega arith) (omega arith),
        decode_full (join acc x / 1 % 32) _ 3 _ _ (omega arith) (omega arith),
      )
      (sync xs 0 (join acc x) _ _ bytes.1 (omega arith)
        ∙ two_heads out xs (omega arith) (omega arith))
sync (x ∷ xs) (suc (suc (suc zero))) acc acc' out bytes h =
    rw
      (
        encode_byte3 acc x xs bytes.0,
        decode_full (join acc x / 64 % 32) acc' 5 _ out (omega arith) (omega arith),
        decode_short (join acc x / 2 % 32) _ 2 _ _ (omega arith) (omega arith),
      )
      (sync xs 1 (join acc x) _ _ bytes.1 (omega arith)
        ∙ same_head out (omega arith) (same_next xs (omega arith)))
sync (x ∷ xs) (suc (suc (suc (suc zero)))) acc acc' out bytes h =
    rw
      (
        encode_byte4 acc x xs bytes.0,
        decode_full (join acc x / 128 % 32) acc' 4 _ out (omega arith) (omega arith),
        decode_short (join acc x / 4 % 32) _ 1 _ _ (omega arith) (omega arith),
      )
      (sync xs 2 (join acc x) _ _ bytes.1 (omega arith)
        ∙ same_head out (omega arith) (same_next xs (omega arith)))
sync (x ∷ xs) (suc (suc (suc (suc (suc k))))) acc acc' out bytes h = absurd (omega arith)

-- Every byte string decodes from its z-base-32 encoding.
pub z32_decode-z32_encode :
    (bytes : Bytes) → AreBytes bytes → z32_decode (z32_encode bytes) ≡ some bytes
unfolding z32_decode z32_encode
z32_decode-z32_encode bytes h = sync bytes 0 0 0 [] h (omega arith)

length-encode_loop :
    (rest : Bytes) (k acc : ℕ)
    → AreBytes rest
    → k < 5
    → length (z32_encode_loop rest acc k) ≡ (8 * length rest + k + 4) / 5
length-encode_loop [] k acc bytes h = unfold z32_encode_loop in ground arith
length-encode_loop (x ∷ xs) zero acc bytes h =
    rw (encode_byte0 acc x xs bytes.0)
      (omega (arith, length-encode_loop xs 3 (join acc x) bytes.1 (omega arith)))
length-encode_loop (x ∷ xs) (suc zero) acc bytes h =
    rw (encode_byte1 acc x xs bytes.0)
      (omega (arith, length-encode_loop xs 4 (join acc x) bytes.1 (omega arith)))
length-encode_loop (x ∷ xs) (suc (suc zero)) acc bytes h =
    rw (encode_byte2 acc x xs bytes.0)
      (omega (arith, length-encode_loop xs 0 (join acc x) bytes.1 (omega arith)))
length-encode_loop (x ∷ xs) (suc (suc (suc zero))) acc bytes h =
    rw (encode_byte3 acc x xs bytes.0)
      (omega (arith, length-encode_loop xs 1 (join acc x) bytes.1 (omega arith)))
length-encode_loop (x ∷ xs) (suc (suc (suc (suc zero)))) acc bytes h =
    rw (encode_byte4 acc x xs bytes.0)
      (omega (arith, length-encode_loop xs 2 (join acc x) bytes.1 (omega arith)))
length-encode_loop (x ∷ xs) (suc (suc (suc (suc (suc k))))) acc bytes h = absurd (omega arith)

-- The encoding has exactly the length that `z32_encode` reserves, `(len * 8 + 4) / 5` characters.
pub length-z32_encode :
    (bytes : Bytes) → AreBytes bytes → length (z32_encode bytes) ≡ (8 * length bytes + 4) / 5
unfolding z32_encode
length-z32_encode bytes h = omega (arith, length-encode_loop bytes 0 0 h (omega arith))
