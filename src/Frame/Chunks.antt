-- ===== src/Frame/Chunks.antt =====
-- `FrameDecoder::push` ends by its own tests, keeps a bounded buffer, and does not depend on how
-- the stream is cut into chunks.
use holesail_cpp.Base.{
  ℕ, zero, suc, ◌+◌, ◌≤◌, ◌<◌, ◌≡◌, refl, sym, ap, ◌∙◌, if◌then◌else◌, true, false, List, [], ◌∷◌,
  ◌++◌, append_assoc, append-nil, length, take, drop, Bytes, arith, length-append, length-drop, ◌⊎◌,
  inl, inr, Bool-cases, concat,
}
use holesail_cpp.Frame.{
  max_datagram, frame_len, Front, incomplete, oversized, complete, body_front, front, Pushed, emit,
  push_loop, push, push_chunks,
}

pub front-cases :
    (buf : Bytes)
    → (front buf ≡ incomplete)
      ⊎ ((front buf ≡ oversized) ⊎ ((p : Bytes) × (r : Bytes) × (front buf ≡ complete p r)))
front-cases buf = go (front buf) refl
  where
    go :
        (f : Front)
        → front buf ≡ f
        → (front buf ≡ incomplete)
          ⊎ ((front buf ≡ oversized) ⊎ ((p : Bytes) × (r : Bytes) × (front buf ≡ complete p r)))
    go incomplete e = inl e
    go oversized e = inr (inl e)
    go (complete p r) e = inr (inr (p, r, e))

body_front_shrinks :
    (n : ℕ) (rest : Bytes) {p r : Bytes} → body_front n rest ≡ complete p r → length r ≤ length rest
unfolding body_front
body_front_shrinks n rest h = ground (arith, length-drop n rest)

-- A round that goes on leaves four bytes less, or fewer.
pub front_shrinks :
    (buf : Bytes) {p r : Bytes} → front buf ≡ complete p r → length r + 4 ≤ length buf
unfolding front
front_shrinks [] h = cc
front_shrinks (a ∷ []) h = cc
front_shrinks (a ∷ b ∷ []) h = cc
front_shrinks (a ∷ b ∷ c ∷ []) h = cc
front_shrinks (a ∷ b ∷ c ∷ d ∷ rest) h =
    omega (arith, body_front_shrinks (frame_len a b c d) rest h)

body_front_waits :
    (n : ℕ) (rest : Bytes) → body_front n rest ≡ incomplete → length rest < max_datagram
unfolding body_front
body_front_waits n rest h = ground arith

front_waits : (buf : Bytes) → front buf ≡ incomplete → length buf < 4 + max_datagram
unfolding front
front_waits [] h = omega arith
front_waits (a ∷ []) h = omega arith
front_waits (a ∷ b ∷ []) h = omega arith
front_waits (a ∷ b ∷ c ∷ []) h = omega arith
front_waits (a ∷ b ∷ c ∷ d ∷ rest) h = omega (arith, body_front_waits (frame_len a b c d) rest h)

take-append : (n : ℕ) (xs ys : Bytes) → n ≤ length xs → take n (xs ++ ys) ≡ take n xs
take-append zero xs ys h = refl
take-append (suc n) [] ys h = elim h [ ]
take-append (suc n) (x ∷ xs) ys h = rw (take-append n xs ys (omega arith))

drop-append : (n : ℕ) (xs ys : Bytes) → n ≤ length xs → drop n (xs ++ ys) ≡ drop n xs ++ ys
drop-append zero xs ys h = refl
drop-append (suc n) [] ys h = elim h [ ]
drop-append (suc n) (x ∷ xs) ys h = drop-append n xs ys (omega arith)

body_front-append :
    (n : ℕ) (rest more : Bytes) {p r : Bytes}
    → body_front n rest ≡ complete p r
    → body_front n (rest ++ more) ≡ complete p (r ++ more)
unfolding body_front
body_front-append n rest more h =
    ground (arith, length-append rest more, take-append n rest more, drop-append n rest more)

body_front-append_oversized :
    (n : ℕ) (rest more : Bytes)
    → body_front n rest ≡ oversized
    → body_front n (rest ++ more) ≡ oversized
unfolding body_front
body_front-append_oversized n rest more h = ground arith

-- More bytes behind a complete frame join what follows it.
front-append :
    (buf more : Bytes) {p r : Bytes}
    → front buf ≡ complete p r
    → front (buf ++ more) ≡ complete p (r ++ more)
unfolding front
front-append [] more h = cc
front-append (a ∷ []) more h = cc
front-append (a ∷ b ∷ []) more h = cc
front-append (a ∷ b ∷ c ∷ []) more h = cc
front-append (a ∷ b ∷ c ∷ d ∷ rest) more h = body_front-append (frame_len a b c d) rest more h

front-append_oversized :
    (buf more : Bytes) → front buf ≡ oversized → front (buf ++ more) ≡ oversized
unfolding front
front-append_oversized [] more h = cc
front-append_oversized (a ∷ []) more h = cc
front-append_oversized (a ∷ b ∷ []) more h = cc
front-append_oversized (a ∷ b ∷ c ∷ []) more h = cc
front-append_oversized (a ∷ b ∷ c ∷ d ∷ rest) more h =
    body_front-append_oversized (frame_len a b c d) rest more h

-- One round of the loop on each kind of front.
pub push_loop_incomplete :
    (n : ℕ) (buf : Bytes)
    → front buf ≡ incomplete
    → push_loop n buf ≡ record { buffer = buf; frames = []; accepted = true }
unfolding push_loop
push_loop_incomplete zero buf e = refl
push_loop_incomplete (suc n) buf e = rw (e, push_loop)

pub push_loop_oversized :
    (n : ℕ) (buf : Bytes)
    → front buf ≡ oversized
    → push_loop (suc n) buf ≡ record { buffer = buf; frames = []; accepted = false }
unfolding push_loop
push_loop_oversized n buf e = rw (e, push_loop)

pub push_loop_complete :
    (n : ℕ) (buf : Bytes) {p r : Bytes}
    → front buf ≡ complete p r
    → push_loop (suc n) buf ≡ emit p (push_loop n r)
unfolding push_loop
push_loop_complete n buf e = rw (e, push_loop)

-- Rounds beyond the length of the buffer change nothing.
push_loop_rounds :
    (m n : ℕ) (buf : Bytes) → length buf < m → length buf < n → push_loop m buf ≡ push_loop n buf
push_loop_rounds zero n buf h k = elim h [ ]
push_loop_rounds (suc m) zero buf h k = elim k [ ]
push_loop_rounds (suc m) (suc n) buf h k = elim (front-cases buf) [
  | inl e ↦ rw (push_loop_incomplete (suc m) buf e, push_loop_incomplete (suc n) buf e)
  | inr (inl e) ↦ rw (push_loop_oversized m buf e, push_loop_oversized n buf e)
  | inr (inr (p, r, e)) ↦
      let lt = front_shrinks buf e in
      rw (push_loop_complete m buf e, push_loop_complete n buf e)
        (ap (emit p) (push_loop_rounds m n r (omega arith) (omega arith)))
]

-- The loop stops for a reason of its own: an accepted buffer waits for more bytes, a refused one
-- starts with an oversized length.
abbrev Settled : Pushed → Type 0
Settled p = front p.buffer ≡ (if p.accepted then incomplete else oversized)

push_loop-Settled : (n : ℕ) (buf : Bytes) → length buf < n → Settled (push_loop n buf)
push_loop-Settled zero buf h = elim h [ ]
push_loop-Settled (suc n) buf h = elim (front-cases buf) [
  | inl e ↦ rw (push_loop_incomplete (suc n) buf e) e
  | inr (inl e) ↦ rw (push_loop_oversized n buf e) e
  | inr (inr (p, r, e)) ↦
      rw (push_loop_complete n buf e) (push_loop-Settled n r (omega (arith, front_shrinks buf e)))
]

-- The loop of `push` never runs out of rounds: it ends by one of its own exits, so an accepted
-- buffer holds no complete frame and a refused one starts with a length above the cap.
pub push-settled :
    (buffer arrived : Bytes)
    → front (push buffer arrived).buffer
      ≡ (if (push buffer arrived).accepted then incomplete else oversized)
unfolding push
push-settled buffer arrived = push_loop-Settled _ (buffer ++ arrived) (omega arith)

-- After an accepted `push` the decoder holds less than one header and one datagram of the largest
-- size, whatever the peer sent.
pub push_bounded :
    (buffer arrived : Bytes)
    → (push buffer arrived).accepted ≡ true
    → length (push buffer arrived).buffer < 4 + max_datagram
push_bounded buffer arrived h = front_waits _ (rw h at (push-settled buffer arrived))

-- What more bytes add to a push that is over.
abbrev resume : Pushed → Bytes → Pushed
resume p more =
    let q = push p.buffer more in
    if p.accepted
    then record q { frames = p.frames ++ q.frames }
    else record p { buffer = p.buffer ++ more }

resume-emit :
    (payload : Bytes) (p : Pushed) (more : Bytes)
    → resume (emit payload p) more ≡ emit payload (resume p more)
resume-emit payload p more = elim (Bool-cases p.accepted) [ inl e ↦ rw e | inr e ↦ rw e ]

push_loop-append :
    (n : ℕ) (buf more : Bytes)
    → length (buf ++ more) < n
    → push_loop n (buf ++ more) ≡ resume (push_loop n buf) more
push_loop-append zero buf more h = elim h [ ]
push_loop-append (suc n) buf more h = elim (front-cases buf) [
  | inl e ↦
      rw (push_loop_incomplete (suc n) buf e)
        (unfold push in push_loop_rounds _ _ (buf ++ more) h (omega arith))
  | inr (inl e) ↦
      rw (push_loop_oversized n buf e, push_loop_oversized n _ (front-append_oversized buf more e))
  | inr (inr (p, r, e)) ↦
      rw
        (
          push_loop_complete n buf e,
          push_loop_complete n _ (front-append buf more e),
          resume-emit p (push_loop n r) more,
        )
        (ap (emit p) (
          push_loop-append n r more
            (omega (arith, front_shrinks buf e, length-append buf more, length-append r more))))
]

push-rounds :
    (n : ℕ) (buffer c : Bytes)
    → length (buffer ++ c) < n
    → push_loop n (buffer ++ c) ≡ push buffer c
unfolding push
push-rounds n buffer c h = push_loop_rounds _ _ (buffer ++ c) h (omega arith)

push-append : (buffer c d : Bytes) → push buffer (c ++ d) ≡ resume (push buffer c) d
push-append buffer c d =
    let n = suc (length ((buffer ++ c) ++ d)) in
    let len = length-append (buffer ++ c) d in
    let len' = length-append buffer (c ++ d) in
    sym (
      push-rounds n buffer (c ++ d)
        (omega (arith, len, len', length-append c d, length-append buffer c)))
    ∙ ap (push_loop n) (sym (append_assoc buffer c d))
    ∙ push_loop-append n (buffer ++ c) d (omega arith)
    ∙ ap (λ p. resume p d) (push-rounds n buffer c (omega (arith, len)))

pub push-nil :
    (buffer : Bytes)
    → front buffer ≡ incomplete
    → push buffer [] ≡ record { buffer = buffer; frames = []; accepted = true }
push-nil buffer h =
    sym (push-rounds (suc (length (buffer ++ []))) buffer [] (omega arith))
    ∙ rw append-nil (push_loop_incomplete _ buffer h)

-- From a buffer without a whole frame, how the bytes of a stream are cut into chunks does not
-- matter: the frames and the verdict are those of one push of all bytes.
pub push_chunks-concat :
    (buffer : Bytes) (cs : List Bytes)
    → front buffer ≡ incomplete
    → ((push_chunks buffer cs).frames ≡ (push buffer (concat cs)).frames)
      × ((push_chunks buffer cs).accepted ≡ (push buffer (concat cs)).accepted)
unfolding push_chunks
push_chunks-concat buffer [] h = rw (push-nil buffer h) (refl, refl)
push_chunks-concat buffer (c ∷ cs) h = elim (Bool-cases (push buffer c).accepted) [
  | inl e ↦
      let ih = push_chunks-concat (push buffer c).buffer cs (rw e at (push-settled buffer c)) in
      rw (push-append buffer c (concat cs), e, ih.0, ih.1) (refl, refl)
  | inr e ↦ rw (push-append buffer c (concat cs), e) (refl, refl)
]
