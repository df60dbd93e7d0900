-- ===== src/Frame.antt =====
-- The framing codec of src/udp_pipe.cpp and include/holesail/udp_pipe.hpp: `frame` and
-- `FrameDecoder::push`.
pub mod RoundTrip
pub mod Chunks
use holesail_cpp.Base.{
  ℕ, zero, suc, ◌+◌, ◌-◌, ◌*◌, ltb, if◌then◌else◌, Bool, true, false, Option, none, some, List, [],
  ◌∷◌, ◌++◌, length, take, drop, Bytes,
}
use holesail_cpp.Bits.{shl32, shr, bit_and, bit_or}

-- `kMaxDatagram`
abbrev pub max_datagram : ℕ
max_datagram = 65535

unfoldable pub frame : Bytes → Bytes
frame payload =
    let len = length payload in
    bit_and (shr len 24) 0xff
    ∷ bit_and (shr len 16) 0xff
    ∷ bit_and (shr len 8) 0xff
    ∷ bit_and len 0xff
    ∷ payload

-- The four bytes of `frame_len`, most significant first, as a `uint32_t`.
unfoldable pub frame_len : ℕ → ℕ → ℕ → ℕ → ℕ
frame_len a b c d = bit_or (bit_or (bit_or (shl32 a 24) (shl32 b 16)) (shl32 c 8)) d

-- What one round of `push`'s loop finds at the front of the buffer.
pub data Front : Type 0 where
  -- `buffer_.size() - offset < 4`, or fewer bytes than the frame takes
  incomplete : Front
  -- a length above `kMaxDatagram`
  oversized : Front
  -- the payload, and what follows it
  complete : Bytes → Bytes → Front

unfoldable pub body_front : ℕ → Bytes → Front
body_front n rest =
    if ltb max_datagram n
    then oversized
    else if ltb (4 + length rest) (4 + n)
    then incomplete
    else complete (take n rest) (drop n rest)

unfoldable pub front : Bytes → Front
front [] = incomplete
front (a ∷ []) = incomplete
front (a ∷ b ∷ []) = incomplete
front (a ∷ b ∷ c ∷ []) = incomplete
front (a ∷ b ∷ c ∷ d ∷ rest) = body_front (frame_len a b c d) rest

-- What a `push` leaves behind: the buffer, the frames handed to `on_frame` in order, and the
-- returned verdict.
pub record Pushed : Type 0 where
  pub buffer : Bytes
  pub frames : List Bytes
  pub accepted : Bool

abbrev pub emit : Bytes → Pushed → Pushed
emit payload p = record p { frames = payload ∷ p.frames }

-- The `while` loop on what lies behind `offset`. A round that goes on takes four bytes at least.
unfoldable pub push_loop : ℕ → Bytes → Pushed
push_loop zero buf = record { buffer = buf; frames = []; accepted = true }
push_loop (suc rounds) buf = elim (front buf) [
  | incomplete ↦ record { buffer = buf; frames = []; accepted = true }
  | oversized ↦ record { buffer = buf; frames = []; accepted = false }
  | complete payload rest ↦ emit payload (push_loop rounds rest)
]

-- `FrameDecoder::push` on the buffer and the bytes that arrived.
unfoldable pub push : Bytes → Bytes → Pushed
push buffer arrived = let buf = buffer ++ arrived in push_loop (suc (length buf)) buf

-- `frame` on each of a list of datagrams, as the stream carries them.
abbrev pub frame_all : List Bytes → Bytes
frame_all [] = []
frame_all (d ∷ ds) = frame d ++ frame_all ds

-- The pushes of a stream that arrives in chunks: a caller stops at the first refusal.
unfoldable pub push_chunks : Bytes → List Bytes → Pushed
push_chunks buffer [] = record { buffer = buffer; frames = []; accepted = true }
push_chunks buffer (c ∷ cs) =
    let p = push buffer c in
    let q = push_chunks p.buffer cs in
    if p.accepted then record q { frames = p.frames ++ q.frames } else p
