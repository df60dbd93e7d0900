-- ===== src/UdpPipe/Owner.antt =====
-- What the owner of a UDP pipe may rely on: it is told once the pipe is destroyed and its socket closed.
use holesail_cpp.Base.{
  Bool, true, false, [], ◌∷◌, ◌++◌, Bytes, ◌≡◌, arith, Bool-cases, inl, inr, then_branch,
  else_branch,
}
use holesail_cpp.Rc.{Rc, ok, fail}
use holesail_cpp.Frame.{push, Pushed, frame}
use holesail_cpp.UdpPipe.{
  UdpPipe, fresh, fire_on_destroy, stop_receiving, close_stream, close_sock, destroy, closed_cb,
  start, Received, error, datagram, forward, recv_cb, settle, on_stream_data, on_stream_close,
}

pub record Owner (p : UdpPipe) : Type 0 where
  pub late : p.on_destroy ≡ false → (p.destroyed ≡ true) × (p.sock ≡ false)
  pub settled : p.destroyed ≡ true → p.sock ≡ false → p.on_destroy ≡ false
  pub dying : p.destroyed ≡ true → p.sock ≡ true → p.closing ≡ true
  pub alive : p.closing ≡ true → p.destroyed ≡ true

-- An operation keeps the owner informed, and never takes back that it was told.
pub record Keeps (p q : UdpPipe) : Type 0 where
  pub owner : Owner q
  pub told : p.on_destroy ≡ false → q.on_destroy ≡ false

pub destroy-Keeps : (p : UdpPipe) → Owner p → Keeps p (destroy p)
unfolding destroy close_sock close_stream stop_receiving fire_on_destroy
destroy-Keeps p v = ground arith

pub closed_cb-Keeps : (p : UdpPipe) → p.closing ≡ true → Owner p → Keeps p (closed_cb p)
unfolding closed_cb fire_on_destroy
closed_cb-Keeps p h v = ground arith

forward-Keeps :
    (r : Received) (refused : Bool) (p : UdpPipe) → Owner p → Keeps p (forward r refused p)
unfolding forward
forward-Keeps error refused p v = destroy-Keeps p v
forward-Keeps (datagram bytes) true p v =
    let k =
      destroy-Keeps (record p { written = p.written ++ (frame bytes ∷ []) })
        (record { late = v.late; settled = v.settled; dying = v.dying; alive = v.alive }) in
    record { owner = k.owner; told = k.told }
forward-Keeps (datagram bytes) false p v = record {
  owner = record { late = v.late; settled = v.settled; dying = v.dying; alive = v.alive };
  told = λ h. h;
}

pub recv_cb-Keeps :
    (r : Received) (addr partial refused : Bool) (p : UdpPipe)
    → Owner p
    → Keeps p (recv_cb r addr partial refused p)
unfolding recv_cb
recv_cb-Keeps r addr partial refused p v =
    ground (arith, destroy-Keeps p v, forward-Keeps r refused p v)

settle-Keeps : (q : Pushed) (p : UdpPipe) → Owner p → Keeps p (settle q p)
unfolding settle
settle-Keeps q p v =
    let taken : UdpPipe = record p { buffer = q.buffer; sent = p.sent ++ q.frames } in
    let w : Owner taken = record {
      late = v.late;
      settled = v.settled;
      dying = v.dying;
      alive = v.alive;
    } in
    let k = destroy-Keeps taken w in
    elim (Bool-cases q.accepted) [
      | inl e ↦ then_branch (Keeps p) q.accepted taken _ e (record { owner = w; told = λ h. h })
      | inr e ↦
          else_branch (Keeps p) q.accepted taken _ e (record { owner = k.owner; told = k.told })
    ]

pub on_stream_data-Keeps :
    (bytes : Bytes) (p : UdpPipe) → Owner p → Keeps p (on_stream_data bytes p)
unfolding on_stream_data
on_stream_data-Keeps bytes p v = ground (arith, settle-Keeps (push p.buffer bytes) p v)

pub on_stream_close-Keeps : (p : UdpPipe) → Owner p → Keeps p (on_stream_close p)
unfolding on_stream_close
on_stream_close-Keeps p v = ground (arith, destroy-Keeps p v)

pub start-Owner : (a b c d : Rc) → Owner (start a b c d fresh).1
unfolding start fresh
start-Owner (fail n) b c d = ground arith
start-Owner ok (fail n) c d = ground arith
start-Owner ok ok (fail n) d = (destroy-Keeps _ (ground arith)).owner
start-Owner ok ok ok (fail n) = (destroy-Keeps _ (ground arith)).owner
start-Owner ok ok ok ok = ground arith
