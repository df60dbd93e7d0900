-- ===== src/UdpPipe/Deliver.antt =====
-- What the stream carries reaches the local service: `UdpPipe::on_stream_data` over any chunks.
use holesail_cpp.Base.{
  ◌≤◌, if◌then◌else◌, true, false, not, List, [], ◌∷◌, ◌++◌, append_assoc, append-nil, length,
  Bytes, ◌≡◌, refl, sym, ap, ◌∙◌, arith, All, concat, Bool-cases, inl, inr,
}
use holesail_cpp.Frame.{incomplete, front, max_datagram, frame_all, push, push_chunks, Pushed}
use holesail_cpp.Frame.Chunks.{push-nil, push-settled}
use holesail_cpp.Frame.RoundTrip.{push_chunks-frame_all}
use holesail_cpp.UdpPipe.{
  UdpPipe, settle, on_stream_data, destroy, close_sock, close_stream, stop_receiving,
  fire_on_destroy,
}

-- The chunks of the stream, in the order in which they arrive.
unfoldable pub deliver : List Bytes → UdpPipe → UdpPipe
deliver [] p = p
deliver (c ∷ cs) p = deliver cs (on_stream_data c p)

pub destroy_keeps : (p : UdpPipe) → ((destroy p).sent ≡ p.sent) × ((destroy p).destroyed ≡ true)
unfolding destroy close_sock close_stream stop_receiving fire_on_destroy
destroy_keeps p = ground arith

deliver_dead : (cs : List Bytes) (p : UdpPipe) → p.destroyed ≡ true → deliver cs p ≡ p
unfolding deliver on_stream_data
deliver_dead [] p h = refl
deliver_dead (c ∷ cs) p h = ap (deliver cs) (rw h refl) ∙ deliver_dead cs p h

skips_empty : (p : UdpPipe) → on_stream_data [] p ≡ p
unfolding on_stream_data
skips_empty p = ground arith

settle_nothing :
    (p : UdpPipe) → settle (record { buffer = p.buffer; frames = []; accepted = true }) p ≡ p
unfolding settle
settle_nothing p = ap (λ x. record p { sent = x }) (append-nil p.sent)

-- A chunk is decoded; the empty one, which the method skips, would change nothing.
on_stream_data-push :
    (c : Bytes) (p : UdpPipe)
    → p.destroyed ≡ false
    → p.sock ≡ true
    → front p.buffer ≡ incomplete
    → on_stream_data c p ≡ settle (push p.buffer c) p
unfolding on_stream_data settle
on_stream_data-push [] p alive sock waits =
    skips_empty p ∙ sym (ap (λ q. settle q p) (push-nil p.buffer waits) ∙ settle_nothing p)
on_stream_data-push (b ∷ c) p alive sock waits = simp (alive, sock)

settle_good :
    (q : Pushed) (p : UdpPipe)
    → q.accepted ≡ true
    → settle q p ≡ record p { buffer = q.buffer; sent = p.sent ++ q.frames }
unfolding settle
settle_good q p good = rw good refl

settle_bad :
    (q : Pushed) (p : UdpPipe)
    → q.accepted ≡ false
    → ((settle q p).sent ≡ p.sent ++ q.frames) × ((settle q p).destroyed ≡ true)
unfolding settle
settle_bad q p bad =
    rw bad (destroy_keeps (record p { buffer = q.buffer; sent = p.sent ++ q.frames }))

pub push_waits :
    (buffer c : Bytes) → (push buffer c).accepted ≡ true → front (push buffer c).buffer ≡ incomplete
push_waits buffer c good = rw good at (push-settled buffer c)

-- The outcome of a push and of the pushes behind it, as `push_chunks` joins them.
abbrev joined : Pushed → Pushed → Pushed
joined q r = if q.accepted then record r { frames = q.frames ++ r.frames } else q

joined-good :
    (q r : Pushed)
    → q.accepted ≡ true
    → ((joined q r).frames ≡ q.frames ++ r.frames) × ((joined q r).accepted ≡ r.accepted)
joined-good q r good = rw good (refl, refl)

joined-bad :
    (q r : Pushed)
    → q.accepted ≡ false
    → ((joined q r).frames ≡ q.frames) × ((joined q r).accepted ≡ false)
joined-bad q r bad = (
  ap (λ b. (if b then record r { frames = q.frames ++ r.frames } else q).frames) bad,
  ap (λ b. (if b then record r { frames = q.frames ++ r.frames } else q).accepted) bad ∙ bad,
)

-- A living pipe with an open socket, whose buffer holds no whole frame, sends the local service
-- exactly the frames that its decoder finds, however the stream is cut, and is destroyed exactly
-- when the decoder refuses.
pub deliver-push_chunks :
    (cs : List Bytes) (p : UdpPipe)
    → p.destroyed ≡ false
    → p.sock ≡ true
    → front p.buffer ≡ incomplete
    → ((deliver cs p).sent ≡ p.sent ++ (push_chunks p.buffer cs).frames)
      × ((deliver cs p).destroyed ≡ not (push_chunks p.buffer cs).accepted)
unfolding deliver push_chunks
deliver-push_chunks [] p alive sock waits = (sym (append-nil p.sent), alive)
deliver-push_chunks (c ∷ cs) p alive sock waits =
    let q : Pushed = push p.buffer c in
    let r : Pushed = push_chunks q.buffer cs in
    let e = on_stream_data-push c p alive sock waits in
    elim (Bool-cases q.accepted) [
      | inl good ↦
          let next : UdpPipe = record p { buffer = q.buffer; sent = p.sent ++ q.frames } in
          let (same, dead) = deliver-push_chunks cs next alive sock (push_waits p.buffer c good) in
          let e' : on_stream_data c p ≡ next = e ∙ settle_good q p good in
          (
            ap (λ x. (deliver cs x).sent) e'
                ∙ same
                ∙ append_assoc p.sent q.frames r.frames
                ∙ ap (λ x. p.sent ++ x) (sym (joined-good q r good).0),
            ap (λ x. (deliver cs x).destroyed) e' ∙ dead ∙ ap not (sym (joined-good q r good).1),
          )
      | inr bad ↦
          let (same, dead) = settle_bad q p bad in
          let gone : deliver cs (on_stream_data c p) ≡ settle q p =
            ap (deliver cs) e ∙ deliver_dead cs (settle q p) dead in
          (
            ap (λ x. x.sent) gone ∙ same ∙ ap (λ x. p.sent ++ x) (sym (joined-bad q r bad).0),
            ap (λ x. x.destroyed) gone ∙ dead ∙ ap not (sym (joined-bad q r bad).1),
          )
    ]

-- To a living pipe with an open socket and nothing buffered, datagrams that a peer framed, each
-- within the cap, come however the stream cuts their bytes: the pipe sends exactly them to the local
-- service, in order, and lives on.
pub deliver-frame_all :
    (ds cs : List Bytes) (p : UdpPipe)
    → All (λ d. length d ≤ max_datagram) ds
    → concat cs ≡ frame_all ds
    → p.destroyed ≡ false
    → p.sock ≡ true
    → p.buffer ≡ []
    → ((deliver cs p).sent ≡ p.sent ++ ds) × ((deliver cs p).destroyed ≡ false)
unfolding front
deliver-frame_all ds cs p small same alive sock empty =
    let (sent, dead) = deliver-push_chunks cs p alive sock (ap front empty) in
    let (frames, good) = push_chunks-frame_all ds cs small same in
    (
      sent ∙ ap (λ b. p.sent ++ (push_chunks b cs).frames) empty ∙ ap (λ x. p.sent ++ x) frames,
      dead ∙ ap (λ b. not (push_chunks b cs).accepted) empty ∙ ap not good,
    )
