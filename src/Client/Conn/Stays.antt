-- ===== src/Client/Conn/Stays.antt =====
-- The operations on a connection that leave its stream, and what is written to it, alone.
use holesail_cpp.Base.{
  Bool, true, false, not, ◌||◌, Option, none, some, is_some, [], Bytes, ◌≡◌, refl, ◌∙◌, arith,
  branches,
}
use holesail_cpp.Rc.{is_ok}
use holesail_cpp.TcpPipe.{adopt, fresh}
use holesail_cpp.TcpPipe.World
use holesail_cpp.TcpPipe.World.{World, destroys, stream_data, stream_ends, drained}
use holesail_cpp.Client.Conn.{
  Conn, calls, forgets_client, reap, notice, pipe_step, close_accepted, forget_client, end_stream,
  shutdown_conn, bridge, stream_data_cb, stream_ended, drain_cb,
}

-- An operation that leaves the stream and what is written to it alone.
pub record Stays (c d : Conn) : Type 0 where
  pub wire : d.wire ≡ c.wire
  pub pending : d.pending ≡ c.pending
  pub open_flag : d.stream_open ≡ c.stream_open
  pub stream : d.stream ≡ c.stream
  pub closed : d.stream_closed ≡ c.stream_closed

pub Stays-refl : (c : Conn) → Stays c c
Stays-refl c = record {
  wire = refl;
  pending = refl;
  open_flag = refl;
  stream = refl;
  closed = refl;
}

pub Stays-trans : {a b c : Conn} → Stays a b → Stays b c → Stays a c
Stays-trans s t = record {
  wire = t.wire ∙ s.wire;
  pending = t.pending ∙ s.pending;
  open_flag = t.open_flag ∙ s.open_flag;
  stream = t.stream ∙ s.stream;
  closed = t.closed ∙ s.closed;
}

pub reap-Stays : (c : Conn) → Stays c (reap c)
unfolding reap
reap-Stays c = ground arith

pub reap_after : (c d : Conn) → Stays c d → Stays c (reap d)
reap_after c d s = Stays-trans s (reap-Stays d)

pub notice-Stays : (w : World) (c : Conn) → Stays c (notice w c)
unfolding notice
notice-Stays w c = ground (arith, reap-Stays (record c { pipe_done = true }))

pub pipe_step-Stays : (e : World.Event) (o : Option World) (c : Conn) → Stays c (pipe_step e o c)
unfolding pipe_step
pipe_step-Stays e none c = Stays-refl c
pipe_step-Stays e (some w) c =
    let s = notice-Stays (World.step e w) (record c { pipe = some (World.step e w) }) in
    record {
      wire = s.wire;
      pending = s.pending;
      open_flag = s.open_flag;
      stream = s.stream;
      closed = s.closed;
    }

pub close_accepted-Stays : (c : Conn) → Stays c (close_accepted c)
unfolding close_accepted
close_accepted-Stays c = ground arith

pub forget_client-Stays : (c : Conn) → Stays c (forget_client c)
unfolding forget_client
forget_client-Stays c = ground arith

pub end_stream-Stays : (c : Conn) → Stays c (end_stream c)
unfolding end_stream
end_stream-Stays c = ground (arith, pipe_step-Stays destroys c.pipe c)

pub shutdown_conn-Stays : (c : Conn) → Stays c (shutdown_conn c)
unfolding shutdown_conn
shutdown_conn-Stays c =
    let a = close_accepted c in
    let b = forget_client a in
    Stays-trans (close_accepted-Stays c) (
      Stays-trans (forget_client-Stays a)
        (Stays-trans (end_stream-Stays b) (reap-Stays (end_stream b))))

pub stream_data_cb-Stays :
    (bytes : Bytes) (queued : Bool) (c : Conn) → Stays c (stream_data_cb bytes queued c)
unfolding stream_data_cb
stream_data_cb-Stays bytes queued c =
    ground (arith, pipe_step-Stays (stream_data bytes queued) c.pipe c)

pub drain_cb-Stays : (started : Bool) (c : Conn) → Stays c (drain_cb started c)
unfolding drain_cb
drain_cb-Stays started c = ground (arith, pipe_step-Stays (drained started) c.pipe c)

pub stream_ended-Stays : (c : Conn) → Stays c (stream_ended c)
unfolding stream_ended
stream_ended-Stays c =
    branches (Stays c) c.udp _ _
      (λ u.
        reap_after c (calls (forgets_client c.client_id) c)
          (record { wire = refl; pending = refl; open_flag = refl; stream = refl; closed = refl }))
      (λ u.
        branches (Stays c) (is_some c.pipe) _ _
          (λ p.
            reap_after c (pipe_step stream_ends c.pipe c) (pipe_step-Stays stream_ends c.pipe c))
          (λ p. branches (Stays c) c.tcp _ _ (λ t. shutdown_conn-Stays c) (λ t. reap-Stays c)))

pub bridge-Stays : (started : Bool) (c : Conn) → Stays c (bridge started c)
unfolding bridge
bridge-Stays started c =
    let bridged : Conn = record c {
      tcp = false;
      pipe = some (record { pipe = (adopt true started fresh).1; writes = []; drains = [] });
    } in
    let same : Stays c bridged = record {
      wire = refl;
      pending = refl;
      open_flag = refl;
      stream = refl;
      closed = refl;
    } in
    branches (Stays c) (c.udp || not c.tcp) _ _ (λ n. Stays-refl c)
      (λ n.
        branches (Stays c) (is_ok (adopt true started fresh).0) _ _ (λ k. same)
          (λ k. Stays-trans same (shutdown_conn-Stays bridged)))
