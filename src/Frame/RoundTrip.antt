-- ===== src/Frame/RoundTrip.antt =====
-- Datagrams come back out of the decoder as `frame` put them in.
use holesail_cpp.Base.{
  ℕ, zero, suc, ◌+◌, ◌*◌, ◌%◌, ◌^◌, ◌≤◌, ◌<◌, ◌≡◌, refl, ap, ◌∙◌, true, List, [], ◌∷◌, ◌++◌, length,
  Bytes, arith, length-append, All, concat, take-length-append, drop-length-append, le→ltb-false,
}
use holesail_cpp.Bits.{shl32, shr, bit_and, bit_or, or_disjoint, and_0xff}
use holesail_cpp.Frame.{
  max_datagram, frame, frame_all, frame_len, complete, body_front, front, emit, push_loop, push,
  push_chunks,
}
use holesail_cpp.Frame.Chunks.{push_loop_complete, push_loop_incomplete, push_chunks-concat}

or_two : (a b : ℕ) → a < 256 → b < 256 → bit_or (shl32 a 24) (shl32 b 16) ≡ (a * 256 + b) * 2 ^ 16
or_two a b ha hb =
    let e : shl32 a 24 ≡ a * 2 ^ 24 = omega arith in
    let f : shl32 b 16 ≡ b * 2 ^ 16 = omega arith in
    rw (e, f) (or_disjoint 24 a (b * 2 ^ 16) (omega arith) ∙ omega arith)

or_three :
    (n c : ℕ) → n < 2 ^ 16 → c < 256 → bit_or (n * 2 ^ 16) (shl32 c 8) ≡ (n * 256 + c) * 2 ^ 8
or_three n c hn hc =
    let f : shl32 c 8 ≡ c * 2 ^ 8 = omega arith in
    rw f (or_disjoint 16 n (c * 2 ^ 8) (omega arith) ∙ omega arith)

-- The length is read as a big-endian number.
pub frame_len_sum :
    (a b c d : ℕ)
    → a < 256
    → b < 256
    → c < 256
    → d < 256
    → frame_len a b c d ≡ ((a * 256 + b) * 256 + c) * 256 + d
unfolding frame_len
frame_len_sum a b c d ha hb hc hd =
    rw (or_two a b ha hb, or_three (a * 256 + b) c (omega arith) hc)
      (or_disjoint 8 ((a * 256 + b) * 256 + c) d hd)

header_len :
    (n : ℕ)
    → n ≤ max_datagram
    → frame_len
        (bit_and (shr n 24) 0xff)
        (bit_and (shr n 16) 0xff)
        (bit_and (shr n 8) 0xff)
        (bit_and n 0xff)
      ≡ n
header_len n h = simp and_0xff (
    rw
      (frame_len_sum (shr n 24 % 256) (shr n 16 % 256) (shr n 8 % 256) (n % 256) (omega arith)
        (omega arith) (omega arith) (omega arith))
      (omega arith))

front-frame :
    (payload rest : Bytes)
    → length payload ≤ max_datagram
    → front (frame payload ++ rest) ≡ complete payload rest
unfolding front frame body_front
front-frame payload rest h = rw (
  header_len (length payload) h,
  le→ltb-false max_datagram (length payload) h,
  le→ltb-false (4 + length (payload ++ rest)) (4 + length payload)
      (omega (arith, length-append payload rest)),
  take-length-append payload rest,
  drop-length-append payload rest,
)

length-frame :
    (payload rest : Bytes) → length (frame payload ++ rest) ≡ 4 + length payload + length rest
unfolding frame
length-frame payload rest = omega (arith, length-append payload rest)

push_loop-frame_all :
    (n : ℕ) (ds : List Bytes)
    → All (λ d. length d ≤ max_datagram) ds
    → length (frame_all ds) < n
    → push_loop n (frame_all ds) ≡ record { buffer = []; frames = ds; accepted = true }
push_loop-frame_all zero ds small h = elim h [ ]
push_loop-frame_all (suc n) [] small h = push_loop_incomplete (suc n) [] (unfold front in refl)
push_loop-frame_all (suc n) (d ∷ ds) small h =
    push_loop_complete n _ (front-frame d (frame_all ds) small.0)
    ∙ ap (emit d) (push_loop-frame_all n ds small.1 (omega (arith, length-frame d (frame_all ds))))

-- One push of whole frames hands over their payloads in order and keeps nothing.
pub push-frame_all :
    (ds : List Bytes)
    → All (λ d. length d ≤ max_datagram) ds
    → push [] (frame_all ds) ≡ record { buffer = []; frames = ds; accepted = true }
unfolding push
push-frame_all ds small = push_loop-frame_all _ ds small (omega arith)

-- However the stream cuts the framed datagrams into chunks, the decoder hands over exactly those
-- datagrams in order, and refuses nothing, when each is within the cap.
pub push_chunks-frame_all :
    (ds cs : List Bytes)
    → All (λ d. length d ≤ max_datagram) ds
    → concat cs ≡ frame_all ds
    → ((push_chunks [] cs).frames ≡ ds) × ((push_chunks [] cs).accepted ≡ true)
push_chunks-frame_all ds cs small e =
    let (fs, ok) = push_chunks-concat [] cs (unfold front in refl) in
    let whole = ap (push []) e ∙ push-frame_all ds small in
    (fs ∙ ap (λ p. p.frames) whole, ok ∙ ap (λ p. p.accepted) whole)
