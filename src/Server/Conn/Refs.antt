-- ===== src/Server/Conn/Refs.antt =====
-- The lifetime of an inbound connection of src/server.cpp: the reference that the stream's userdata holds
-- (`box`) and the one that the pipe's `on_destroy` holds (`keep`). The connection is freed when both are
-- gone.
use holesail_cpp.Base.{
  if◌then◌else◌, Bool, true, false, not, ◌&&◌, ◌||◌, Option, none, some, List, [], ◌∷◌, Bytes,
}
use holesail_cpp.Rc.{Rc}
use holesail_cpp.TcpPipe.World
use holesail_cpp.TcpPipe.World.{World, stream_data, stream_ends, destroys, dials}
use holesail_cpp.UdpPipe
use holesail_cpp.UdpPipe.{UdpPipe, Received}
use holesail_cpp.Server.Conn.{Conn, new_conn, stream_open_cb, stream_close_cb}

-- The pipe of a connection, by the mode of the server.
pub data Pipe : Type 0 where
  tcp : World → Pipe
  udp : UdpPipe → Pipe

-- `side` is the stream side, of which `stream` is null once it has closed.
pub record Bridge : Type 0 where
  pub side : Conn
  pub box : Bool
  pub keep : Bool
  pub pipe : Pipe

-- What libuv says to the new pipe.
pub record Dialling : Type 0 where
  pub initialised : Rc
  pub resolution : Rc
  pub connected : Rc
  pub bound : Rc
  pub received : Rc

unfoldable pub opened_pipe : Bool → Dialling → Pipe
opened_pipe true r =
    udp (UdpPipe.start r.resolution r.initialised r.bound r.received UdpPipe.fresh).1
opened_pipe false r =
    tcp (World.step (dials r.initialised r.resolution r.connected false) World.start)

-- The pipe still holds its callback, and with it the reference.
abbrev pub holds_callback : Pipe → Bool
holds_callback (tcp w) = w.pipe.on_destroy
holds_callback (udp p) = p.on_destroy

-- After an operation of the pipe: an `on_destroy` that was called has dropped the reference.
unfoldable pub with_pipe : Pipe → Bridge → Bridge
with_pipe p b = record b { pipe = p; keep = b.keep && holds_callback p }

-- `connection_cb` past its guards; `listening` says that `srv_` is not null, `opened` that
-- `hyperdht_stream_open` returned a stream.
unfoldable pub connection_cb : Bool → Bool → Bool → Dialling → Option Bridge
connection_cb listening opened udp_mode r =
    if not listening || not opened
    then none
    else (let p = opened_pipe udp_mode r in
        some (record { side = new_conn; box = true; keep = holds_callback p; pipe = p }))

abbrev pub freed : Bridge → Bool
freed b = not b.box && not b.keep

-- What libuv and the owner do to a pipe.
pub data Callback : Type 0 where
  socket : World.Event → Callback
  datagram : Received → Bool → Bool → Bool → Callback
  udp_closed : Callback

unfoldable pub call_pipe : Callback → Pipe → Pipe
call_pipe (socket e) (tcp w) = tcp (World.step e w)
call_pipe (socket e) (udp p) = udp p
call_pipe (datagram r addr partial refused) (tcp w) = tcp w
call_pipe (datagram r addr partial refused) (udp p) = udp (UdpPipe.recv_cb r addr partial refused p)
call_pipe udp_closed (tcp w) = tcp w
call_pipe udp_closed (udp p) = if p.sock && p.closing then udp (UdpPipe.closed_cb p) else udp p

unfoldable pub data_to : Bytes → Bool → Pipe → Pipe
data_to bytes queued (tcp w) = tcp (World.step (stream_data bytes queued) w)
data_to bytes queued (udp p) = udp (UdpPipe.on_stream_data bytes p)

unfoldable pub end_to : Pipe → Pipe
end_to (tcp w) = tcp (World.step stream_ends w)
end_to (udp p) = udp (UdpPipe.on_stream_close p)

unfoldable pub destroy_pipe : Pipe → Pipe
destroy_pipe (tcp w) = tcp (World.step destroys w)
destroy_pipe (udp p) = udp (UdpPipe.destroy p)

-- The callbacks of the stream, while its userdata is the box.
unfoldable pub stream_data_cb : Bytes → Bool → Bridge → Bridge
stream_data_cb bytes queued b = with_pipe (data_to bytes queued b.pipe) b

unfoldable pub bridge_closed : Bridge → Bridge
bridge_closed b = record (with_pipe (end_to b.pipe) (record b { side = stream_close_cb b.side })) {
  box = false;
}

-- What happens to a connection; `shuts` is its turn in the server's `destroy`, which locks a
-- `weak_ptr` to it.
pub data Event : Type 0 where
  opens : Rc → Event
  receives : Bytes → Bool → Event
  closes : Event
  calls : Callback → Event
  shuts : Event

unfoldable pub step : Event → Bridge → Bridge
step (opens rc) b = if b.box then record b { side = stream_open_cb rc b.side } else b
step (receives bytes queued) b = if b.box then stream_data_cb bytes queued b else b
step closes b = if b.box then bridge_closed b else b
step (calls e) b = with_pipe (call_pipe e b.pipe) b
step shuts b = if freed b then b else with_pipe (destroy_pipe b.pipe) b

unfoldable pub run : List Event → Bridge → Bridge
run [] b = b
run (e ∷ es) b = run es (step e b)
