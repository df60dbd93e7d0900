-- ===== src/UdpProxy/Replies/Arrive.antt =====
-- The replies of the local service reach the source of a UDP client, through any cuts of its stream.
use holesail_cpp.Base.{
  ◌≤◌, if◌then◌else◌, true, false, List, [], ◌∷◌, ◌++◌, append_assoc, append-nil, length, Bytes,
  bytes_eq, bytes_eq→eq, bytes_eq_refl, concat-append, ◌≡◌, ◌≢◌, refl, sym, ap, subst, ◌∙◌, All,
  concat, Bool-cases, inl, inr, then_branch, else_branch, arith,
}
use holesail_cpp.Frame.{
  incomplete, front, frame, frame_all, max_datagram, push, push_chunks, Pushed,
}
use holesail_cpp.Frame.RoundTrip.{push_chunks-frame_all}
use holesail_cpp.UdpPipe
use holesail_cpp.UdpPipe.Deliver.{push_waits}
use holesail_cpp.UdpPipe.{UdpPipe, datagram, is_end_of_pass, is_error, forward}
use holesail_cpp.UdpProxy.{Client, UdpProxy, on_stream_data, on_stream_close}
use holesail_cpp.UdpProxy.Clients.{on_stream_data-others}
use holesail_cpp.UdpProxy.Replies.{
  sent_to, Event, arrives, ends, step, run, chunks_of, Lives, Serving,
}
use holesail_cpp.UdpProxy.Replies.Steps.{own_chunk, other_chunk, spared, ended, ended_find}

-- What the pushes of a list of chunks come to, from the first one.
push_chunks_head :
    (b c : Bytes) (cs : List Bytes)
    → (push_chunks b (c ∷ cs)).accepted ≡ true
    → ((push b c).accepted ≡ true)
      × (((push_chunks (push b c).buffer cs).accepted ≡ true)
          × ((push_chunks b (c ∷ cs)).frames
              ≡ (push b c).frames ++ (push_chunks (push b c).buffer cs).frames))
unfolding push_chunks
push_chunks_head b c cs h =
    let q : Pushed = push b c in
    let r : Pushed = push_chunks q.buffer cs in
    elim (Bool-cases q.accepted) [
      | inl e ↦ (
        e,
        (
          sym (ap (λ t. (if t then record r { frames = q.frames ++ r.frames } else q).accepted) e)
              ∙ h,
          ap (λ t. (if t then record r { frames = q.frames ++ r.frames } else q).frames) e,
        ),
      )
      | inr e ↦ absurd (ground (arith, h, e))
    ]

-- What the client has got, and that it is still served.
abbrev Got : Bytes → Client → UdpProxy → List Bytes → UdpProxy → Type 0
Got id c p ds q =
    ((b : Bytes) × Serving id (record c { buffer = b }) q)
    × (sent_to c.addr q.trace ≡ sent_to c.addr p.trace ++ ds)

run-push_chunks :
    (id : Bytes) (es : List Event) (c : Client) (p : UdpProxy)
    → Lives id es
    → front c.buffer ≡ incomplete
    → (push_chunks c.buffer (chunks_of id es)).accepted ≡ true
    → Serving id c p
    → Got id c p (push_chunks c.buffer (chunks_of id es)).frames (run es p)
unfolding run step push_chunks
run-push_chunks id [] c p alive waits good v =
    ((c.buffer, v), sym (append-nil (sent_to c.addr p.trace)))
run-push_chunks id (ends key ∷ es) c p alive waits good v =
    let w = ended id key c.addr p v.apart in
    let next =
      run-push_chunks id es c (on_stream_close key p) alive.1 waits good
        (spared id key c p _ alive.0 (ended_find id key p alive.0) w v) in
    (next.0, next.1 ∙ ap (λ x. x ++ (push_chunks c.buffer (chunks_of id es)).frames) w.sent)
run-push_chunks id (arrives key bytes ∷ es) c p alive waits good v =
    elim (Bool-cases (bytes_eq key id)) [
      | inl e ↦
          let cs = chunks_of id es in
          let same : chunks_of id (arrives key bytes ∷ es) ≡ bytes ∷ cs =
            then_branch (λ x. x ≡ bytes ∷ cs) (bytes_eq key id) (bytes ∷ cs) cs e refl in
          let (now, (later, frames)) =
            push_chunks_head c.buffer bytes cs
              (subst (λ x. (push_chunks c.buffer x).accepted ≡ true) same good) in
          let (w, sent) = own_chunk id bytes c p waits now v in
          let new : Client = record c { buffer = (push c.buffer bytes).buffer } in
          let (served, rest) =
            run-push_chunks id es new (on_stream_data id bytes p) alive
              (push_waits c.buffer bytes now) later w in
          subst
            (λ k.
              Got id c p (push_chunks c.buffer (chunks_of id (arrives key bytes ∷ es))).frames
                (run es (on_stream_data k bytes p)))
            (sym (bytes_eq→eq key id e))
            (
              served,
              rest
                  ∙ ap (λ x. x ++ (push_chunks new.buffer cs).frames) sent
                  ∙ append_assoc (sent_to c.addr p.trace) (push c.buffer bytes).frames
                      (push_chunks new.buffer cs).frames
                  ∙ ap (λ x. sent_to c.addr p.trace ++ x) (sym frames)
                  ∙ ap (λ x. sent_to c.addr p.trace ++ (push_chunks c.buffer x).frames) (sym same),
            )
      | inr e ↦
          let cs = chunks_of id es in
          let same : chunks_of id (arrives key bytes ∷ es) ≡ cs =
            else_branch (λ x. x ≡ cs) (bytes_eq key id) (bytes ∷ cs) cs e refl in
          let apart : key ≢ id =
            λ h. absurd (cc (e, ap (λ k. bytes_eq key k) h, bytes_eq_refl key)) in
          let w = other_chunk id key c.addr bytes p e v.apart in
          let next =
            run-push_chunks id es c (on_stream_data key bytes p) alive waits
              (subst (λ x. (push_chunks c.buffer x).accepted ≡ true) same good)
              (spared id key c p _ apart (on_stream_data-others key bytes id p apart) w v) in
          (
            next.0,
            next.1
                ∙ ap (λ x. x ++ (push_chunks c.buffer cs).frames) w.sent
                ∙ ap (λ x. sent_to c.addr p.trace ++ (push_chunks c.buffer x).frames) (sym same),
          )
    ]

-- The replies of the local service, one after the other, on a stream that takes every write.
abbrev pub reply_all : List Bytes → UdpPipe → UdpPipe
reply_all [] q = q
reply_all (d ∷ ds) q = reply_all ds (UdpPipe.recv_cb (datagram d) true false false q)

recv_cb-written :
    (d : Bytes) (q : UdpPipe)
    → q.destroyed ≡ false
    → q.side_write ≡ true
    → UdpPipe.recv_cb (datagram d) true false false q
      ≡ record q { written = q.written ++ (frame d ∷ []) }
unfolding UdpPipe.recv_cb is_end_of_pass is_error forward
recv_cb-written d q alive side = ground (arith, alive, side)

frames_of :
    (ds : List Bytes) (q : UdpPipe)
    → q.destroyed ≡ false
    → q.side_write ≡ true
    → concat (reply_all ds q).written ≡ concat q.written ++ frame_all ds
frames_of [] q alive side = sym (append-nil (concat q.written))
frames_of (d ∷ ds) q alive side =
    ap (λ x. concat (reply_all ds x).written) (recv_cb-written d q alive side)
    ∙ frames_of ds (record q { written = q.written ++ (frame d ∷ []) }) alive side
    ∙ ap (λ x. x ++ frame_all ds) (concat-append q.written (frame d ∷ []))
    ∙ ap (λ x. (concat q.written ++ x) ++ frame_all ds) (append-nil (frame d))
    ∙ append_assoc (concat q.written) (frame d) (frame_all ds)

-- The local service replies to a living pipe that has written nothing yet, with datagrams within the cap,
-- and the stream takes each. However that stream is cut on its way, and whatever the streams of other
-- clients bring in between, oversized frames and ends included: an open proxy that serves the client,
-- has nothing buffered for it and has no other client at its address sends that address exactly the
-- replies, in order, and goes on serving it, if the stream does not end.
pub replies_arrive :
    (id : Bytes) (c : Client) (ds : List Bytes) (q : UdpPipe) (es : List Event) (p : UdpProxy)
    → q.destroyed ≡ false
    → q.side_write ≡ true
    → q.written ≡ []
    → All (λ d. length d ≤ max_datagram) ds
    → concat (chunks_of id es) ≡ concat (reply_all ds q).written
    → Lives id es
    → c.buffer ≡ []
    → Serving id c p
    → (sent_to c.addr (run es p).trace ≡ sent_to c.addr p.trace ++ ds)
      × ((b : Bytes) × Serving id (record c { buffer = b }) (run es p))
unfolding front
replies_arrive id c ds q es p alive side none_yet small same lives empty v =
    let cut = same ∙ frames_of ds q alive side ∙ ap (λ x. concat x ++ frame_all ds) none_yet in
    let (frames, good) = push_chunks-frame_all ds (chunks_of id es) small cut in
    let (served, sent) =
      run-push_chunks id es c p lives (ap front empty)
        (ap (λ b. (push_chunks b (chunks_of id es)).accepted) empty ∙ good) v in
    (
      sent
          ∙ ap (λ b. sent_to c.addr p.trace ++ (push_chunks b (chunks_of id es)).frames) empty
          ∙ ap (λ x. sent_to c.addr p.trace ++ x) frames,
      served,
    )
