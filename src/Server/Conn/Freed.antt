-- ===== src/Server/Conn/Freed.antt =====
-- An inbound connection is freed exactly when nothing can use it any more.
use holesail_cpp.Base.{
  Bool, true, false, ◌&&◌, some, List, [], ◌∷◌, Bytes, ◌≡◌, refl, subst, sym, ◌∙◌, arith,
  Bool-cases, inl, inr, ◌↔◌, then_branch, else_branch,
}
use holesail_cpp.Rc.{Rc, ok, fail}
use holesail_cpp.TcpPipe.World
use holesail_cpp.TcpPipe.World.{World, stream_data, stream_ends, destroys, dials}
use holesail_cpp.TcpPipe.Teardown
use holesail_cpp.TcpPipe.Gone.{step-Gone, Owner-Gone}
use holesail_cpp.UdpPipe.{UdpPipe}
use holesail_cpp.UdpPipe.Owner
use holesail_cpp.Server.Conn.{
  Conn, new_conn, stream_open_cb, stream_close_cb, flush_pending, release_drains,
}
use mathlib.Core.Option.{some-injective}
use holesail_cpp.Server.Conn.Refs.{
  Pipe, tcp, udp, Bridge, Dialling, opened_pipe, holds_callback, with_pipe, connection_cb, freed,
  Callback, socket, datagram, udp_closed, call_pipe, data_to, end_to, destroy_pipe, stream_data_cb,
  bridge_closed, Event, opens, receives, closes, calls, shuts, step, run,
}

-- The owner's view of either pipe.
abbrev OwnedPipe : Pipe → Type 0
OwnedPipe (tcp w) = Teardown.Owner w.pipe
OwnedPipe (udp p) = Owner.Owner p

-- A later state of a pipe.
record Follows (p q : Pipe) : Type 0 where
  owned : OwnedPipe q
  told : holds_callback p ≡ false → holds_callback q ≡ false

step-Follows :
    (e : World.Event) (w : World) → Teardown.Owner w.pipe → Follows (tcp w) (tcp (World.step e w))
step-Follows e w v = record {
  owned = Teardown.step-Owner e w v;
  told = λ h. (step-Gone e w (Owner-Gone w.pipe v h)).told;
}

Keeps-Follows : (p q : UdpPipe) → Owner.Keeps p q → Follows (udp p) (udp q)
Keeps-Follows p q k = record { owned = k.owner; told = k.told }

call_pipe-Follows : (e : Callback) (p : Pipe) → OwnedPipe p → Follows p (call_pipe e p)
unfolding call_pipe
call_pipe-Follows (socket e) (tcp w) v = step-Follows e w v
call_pipe-Follows (socket e) (udp p) v = record { owned = v; told = λ h. h }
call_pipe-Follows (datagram r addr partial refused) (tcp w) v = record { owned = v; told = λ h. h }
call_pipe-Follows (datagram r addr partial refused) (udp p) v =
    Keeps-Follows p _ (Owner.recv_cb-Keeps r addr partial refused p v)
call_pipe-Follows udp_closed (tcp w) v = record { owned = v; told = λ h. h }
call_pipe-Follows udp_closed (udp p) v = elim (Bool-cases (p.sock && p.closing)) [
  | inl e ↦
      then_branch (Follows (udp p)) (p.sock && p.closing) _ _ e
        (Keeps-Follows p _ (Owner.closed_cb-Keeps p (ground arith) v))
  | inr e ↦
      else_branch (Follows (udp p)) (p.sock && p.closing) _ _ e
        (record { owned = v; told = λ h. h })
]

data_to-Follows :
    (bytes : Bytes) (queued : Bool) (p : Pipe) → OwnedPipe p → Follows p (data_to bytes queued p)
unfolding data_to
data_to-Follows bytes queued (tcp w) v = step-Follows (stream_data bytes queued) w v
data_to-Follows bytes queued (udp p) v = Keeps-Follows p _ (Owner.on_stream_data-Keeps bytes p v)

end_to-Follows : (p : Pipe) → OwnedPipe p → Follows p (end_to p)
unfolding end_to
end_to-Follows (tcp w) v = step-Follows stream_ends w v
end_to-Follows (udp p) v = Keeps-Follows p _ (Owner.on_stream_close-Keeps p v)

destroy_pipe-Follows : (p : Pipe) → OwnedPipe p → Follows p (destroy_pipe p)
unfolding destroy_pipe
destroy_pipe-Follows (tcp w) v = step-Follows destroys w v
destroy_pipe-Follows (udp p) v = Keeps-Follows p _ (Owner.destroy-Keeps p v)

opened_pipe-OwnedPipe : (m : Bool) (r : Dialling) → OwnedPipe (opened_pipe m r)
unfolding opened_pipe
opened_pipe-OwnedPipe true r = Owner.start-Owner r.resolution r.initialised r.bound r.received
opened_pipe-OwnedPipe false r =
    Teardown.step-Owner (dials r.initialised r.resolution r.connected false) World.start
      Teardown.start-Owner

-- The pipe's reference is held exactly as long as its callback, the stream's as long as the stream.
record Inv (b : Bridge) : Type 0 where
  owned : OwnedPipe b.pipe
  holds : b.keep ≡ holds_callback b.pipe
  boxed : b.box ≡ (b.side).stream

with_pipe-Inv : (p : Pipe) (b : Bridge) → Follows b.pipe p → Inv b → Inv (with_pipe p b)
unfolding with_pipe
with_pipe-Inv p b f v = record {
  owned = f.owned;
  holds = ground (arith, f.told, v.holds);
  boxed = v.boxed;
}

flush-stream : (bytes : Bytes) (rc : Rc) (c : Conn) → (flush_pending bytes rc c).stream ≡ c.stream
unfolding flush_pending release_drains
flush-stream [] rc c = refl
flush-stream (b ∷ bytes) ok c = refl
flush-stream (b ∷ bytes) (fail n) c = refl

opens-stream : (rc : Rc) (c : Conn) → (stream_open_cb rc c).stream ≡ c.stream
unfolding stream_open_cb
opens-stream rc c = flush-stream c.pending rc (record c { stream_open = true })

closed-Inv : (b : Bridge) → Inv b → Inv (bridge_closed b)
unfolding bridge_closed with_pipe stream_close_cb
closed-Inv b v =
    let f = end_to-Follows b.pipe v.owned in
    record { owned = f.owned; holds = ground (arith, f.told, v.holds); boxed = refl }

step-Inv : (e : Event) (b : Bridge) → Inv b → Inv (step e b)
unfolding step
step-Inv (opens rc) b v = elim (Bool-cases b.box) [
  | inl e ↦
      then_branch Inv b.box (record b { side = stream_open_cb rc b.side }) b e
        (record {
          owned = v.owned;
          holds = v.holds;
          boxed = v.boxed ∙ sym (opens-stream rc b.side);
        })
  | inr e ↦ else_branch Inv b.box _ b e v
]
step-Inv (receives bytes queued) b v = elim (Bool-cases b.box) [
  | inl e ↦
      then_branch Inv b.box _ b e
        (unfold stream_data_cb in with_pipe-Inv _ b (data_to-Follows bytes queued b.pipe v.owned) v)
  | inr e ↦ else_branch Inv b.box _ b e v
]
step-Inv closes b v = elim (Bool-cases b.box) [
  | inl e ↦ then_branch Inv b.box _ b e (closed-Inv b v)
  | inr e ↦ else_branch Inv b.box _ b e v
]
step-Inv (calls e) b v = with_pipe-Inv _ b (call_pipe-Follows e b.pipe v.owned) v
step-Inv shuts b v = elim (Bool-cases (freed b)) [
  | inl e ↦ then_branch Inv (freed b) b _ e v
  | inr e ↦
      else_branch Inv (freed b) b _ e (with_pipe-Inv _ b (destroy_pipe-Follows b.pipe v.owned) v)
]

run-Inv : (es : List Event) (b : Bridge) → Inv b → Inv (run es b)
unfolding run
run-Inv [] b v = v
run-Inv (e ∷ es) b v = run-Inv es (step e b) (step-Inv e b v)

connection_cb-Inv :
    (listening opened m : Bool) (r : Dialling) (b : Bridge)
    → connection_cb listening opened m r ≡ some b
    → Inv b
unfolding connection_cb new_conn
connection_cb-Inv listening opened m r b h =
    let w : Bridge = record {
      side = new_conn;
      box = true;
      keep = holds_callback (opened_pipe m r);
      pipe = opened_pipe m r;
    } in
    let made : w ≡ b = some-injective w b (ground (arith, h)) in
    subst Inv made (record { owned = opened_pipe-OwnedPipe m r; holds = refl; boxed = refl })

-- The pipe is destroyed and its socket has finished closing.
abbrev pub AtRest : Pipe → Type 0
AtRest (tcp w) = (w.pipe.destroyed ≡ true) × (w.pipe.handle ≡ false)
AtRest (udp p) = (p.destroyed ≡ true) × (p.sock ≡ false)

OwnedPipe-AtRest : (p : Pipe) → OwnedPipe p → (holds_callback p ≡ false) ↔ AtRest p
OwnedPipe-AtRest (tcp w) v = (v.late, λ h. v.settled h.0 h.1)
OwnedPipe-AtRest (udp p) v = (v.late, λ h. v.settled h.0 h.1)

-- In any history of an accepted connection, it is freed exactly when its stream has closed and its pipe is
-- destroyed with its socket closed: no callback of either can reach a freed connection, and nothing else
-- keeps it.
pub freed_iff :
    (listening opened m : Bool) (r : Dialling) (b : Bridge) (es : List Event)
    → connection_cb listening opened m r ≡ some b
    → (freed (run es b) ≡ true) ↔ (((run es b).side.stream ≡ false) × AtRest (run es b).pipe)
freed_iff listening opened m r b es h =
    let v = run-Inv es b (connection_cb-Inv listening opened m r b h) in
    let p = OwnedPipe-AtRest (run es b).pipe v.owned in
    (
      λ f. (ground (arith, v.boxed), p.0 (ground (arith, v.holds))),
      λ q. let d = p.1 q.1 in ground (arith, v.boxed, v.holds, q.0),
    )
