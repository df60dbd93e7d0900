-- ===== src/Client/Conn.antt =====
-- `HolesailClient::Conn` of src/client.cpp: one local socket, or one UDP source, bridged to a stream. Its
-- operations are those of `HolesailClient` that act on one connection. `listed` says that `conns_` still
-- holds the connection; it is the `find` by id in `reap` and, since nothing else owns a connection, what
-- a `weak_ptr` to it locks by.
pub mod Line
pub mod Settled
pub mod Keeps
pub mod Owed
pub mod Reaped
pub mod Stays
pub mod Kept
pub mod Waiting
pub mod Flush
pub mod Intact
use holesail_cpp.Base.{
  ℕ, ◌+◌, ltb, if◌then◌else◌, Bool, true, false, not, ◌&&◌, ◌||◌, Option, none, some, is_some, List,
  [], ◌∷◌, ◌++◌, length, is_empty, Bytes,
}
use holesail_cpp.Rc.{Rc, ok, fail, is_ok}
use holesail_cpp.TcpPipe.{TcpPipe, fresh, adopt}
use holesail_cpp.TcpPipe.World
use holesail_cpp.TcpPipe.World.{World, drained, stream_data, stream_ends, destroys}

-- The calls that leave a connection, but for those of its pipe, which are on the pipe's own trace.
pub data Effect : Type 0 where
  dials : Effect
  closes_socket : Effect
  closes_stream : Effect
  forgets_client : Bytes → Effect
  delivers : Bytes → Bytes → Effect

-- `stream` and `tcp` say that the pointer is not null, `wire` is what the stream took, in order.
pub record Conn : Type 0 where
  pub id : ℕ
  pub listed : Bool
  pub stream : Bool
  pub connect_pending : Bool
  pub stream_open : Bool
  pub stream_closed : Bool
  pub tcp : Bool
  pub pipe : Option World
  pub pipe_done : Bool
  pub udp : Bool
  pub client_id : Bytes
  pub pending : Bytes
  pub wire : Bytes
  pub trace : List Effect

-- A connection for an accepted socket, and one for a UDP source.
unfoldable pub new_conn : ℕ → Option Bytes → Conn
new_conn id source = record {
  id = id;
  listed = true;
  stream = false;
  connect_pending = true;
  stream_open = false;
  stream_closed = false;
  tcp = not (is_some source);
  pipe = none;
  pipe_done = false;
  udp = is_some source;
  client_id = source_of source;
  pending = [];
  wire = [];
  trace = [];
}
  where
    source_of : Option Bytes → Bytes
    source_of none = []
    source_of (some text) = text

abbrev pub calls : Effect → Conn → Conn
calls e c = record c { trace = e ∷ c.trace }

-- The guards of `reap`: no connect callback, no live stream, no live pipe.
unfoldable pub quiet : Conn → Bool
quiet c =
    not c.connect_pending
    && (not (c.stream && not c.stream_closed) && not (is_some c.pipe && not c.pipe_done))

unfoldable pub reap : Conn → Conn
reap c = if quiet c then record c { listed = false } else c

-- The pipe's `on_destroy`, which marks the connection and reaps it. The pipe takes the callback out
-- before it calls it.
unfoldable pub notice : World → Conn → Conn
notice w c = if w.pipe.on_destroy then c else reap (record c { pipe_done = true })

-- An operation of the pipe, with the callback that it may make.
unfoldable pub pipe_step : World.Event → Option World → Conn → Conn
pipe_step e none c = c
pipe_step e (some w) c = let w' = World.step e w in notice w' (record c { pipe = some w' })

unfoldable pub close_accepted : Conn → Conn
close_accepted c = if c.tcp then record c { tcp = false; trace = closes_socket ∷ c.trace } else c

unfoldable pub forget_client : Conn → Conn
forget_client c = if c.udp then calls (forgets_client c.client_id) c else c

unfoldable pub end_stream : Conn → Conn
end_stream c =
    if is_some c.pipe && not c.pipe_done
    then pipe_step destroys c.pipe c
    else if c.stream && not c.stream_closed
    then calls closes_stream c
    else c

unfoldable pub shutdown_conn : Conn → Conn
shutdown_conn c = reap (end_stream (forget_client (close_accepted c)))

-- `begin_dht_connect`; `rc` is the result of `hyperdht_connect_ex`.
unfoldable pub begin_dht_connect : Rc → Conn → Bool × Conn
begin_dht_connect rc c =
    if is_ok rc
    then (true, calls dials c)
    else (false, shutdown_conn (record (calls dials c) { connect_pending = false }))

-- `connect_cb`; `failed` says that there was an error or no connection, `opened` that
-- `hyperdht_stream_open` returned a stream, `destroyed` is the client's flag.
unfoldable pub connect_cb : Bool → Bool → Bool → Conn → Conn
connect_cb destroyed failed opened c =
    if not c.listed
    then c
    else if destroyed || failed
    then shutdown_conn (record c { connect_pending = false })
    else if opened
    then record c { connect_pending = false; stream = true }
    else shutdown_conn (record c { connect_pending = false; stream = false })

-- The pipe of a connection whose stream is open, on the accepted socket; `started` is that of `adopt`.
unfoldable pub bridge : Bool → Conn → Conn
bridge started c =
    if c.udp || not c.tcp
    then c
    else (let r = adopt true started fresh in
        let bridged = record c {
          tcp = false;
          pipe = some (record { pipe = r.1; writes = []; drains = [] });
        } in
        if is_ok r.0 then bridged else shutdown_conn bridged)

-- The flush of what was written while dialling; `rc` is the result of the stream's write.
unfoldable pub flush_pending : Bytes → Rc → Bool → Conn → Conn
flush_pending [] rc started c = bridge started c
flush_pending (b ∷ bytes) ok started c =
    bridge started (record c { pending = []; wire = c.wire ++ (b ∷ bytes) })
flush_pending (b ∷ bytes) (fail n) started c = shutdown_conn (record c { pending = [] })

unfoldable pub on_stream_open : Rc → Bool → Conn → Conn
on_stream_open rc started c = flush_pending c.pending rc started (record c { stream_open = true })

unfoldable pub stream_open_cb : Rc → Bool → Conn → Conn
stream_open_cb rc started c =
    if not c.listed || (not c.stream || c.stream_closed) then c else on_stream_open rc started c

-- `queued` is that of the pipe's `on_stream_data`.
unfoldable pub stream_data_cb : Bytes → Bool → Conn → Conn
stream_data_cb bytes queued c =
    if not c.listed || is_empty bytes
    then c
    else if c.udp
    then calls (delivers c.client_id bytes) c
    else pipe_step (stream_data bytes queued) c.pipe c

unfoldable pub stream_ended : Conn → Conn
stream_ended c =
    if c.udp
    then reap (calls (forgets_client c.client_id) c)
    else if is_some c.pipe
    then reap (pipe_step stream_ends c.pipe c)
    else if c.tcp
    then shutdown_conn c
    else reap c

unfoldable pub stream_close_cb : Conn → Conn
stream_close_cb c =
    if c.listed then stream_ended (record c { stream_closed = true; stream = false }) else c

-- `kMaxPendingBytes`
abbrev pub max_pending_bytes : ℕ
max_pending_bytes = 262144

-- `side.write` of `make_side`, with what it returns; `rc` is the result of hyperdht's write. While the
-- connection dials, the bytes are kept, or dropped past the cap.
unfoldable pub side_write : Bytes → Rc → Conn → Rc × Conn
side_write bytes rc c =
    if not c.listed || c.stream_closed
    then (fail 1, c)
    else if not c.stream || not c.stream_open
    then if ltb max_pending_bytes (length c.pending + length bytes)
      then (ok, c)
      else (ok, record c { pending = c.pending ++ bytes })
    else (rc, if is_ok rc then record c { wire = c.wire ++ bytes } else c)

-- `drain_cb`, which calls the pipe's drain callback.
unfoldable pub drain_cb : Bool → Conn → Conn
drain_cb started c =
    if not c.listed || (c.stream_closed || c.pipe_done)
    then c
    else pipe_step (drained started) c.pipe c
