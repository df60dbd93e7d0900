-- ===== src/Client/Conn/Line.antt =====
-- A connection with what hyperdht still owes it, and the histories of its callbacks. A callback that is
-- not owed is not made.
use holesail_cpp.Base.{
  ℕ, if◌then◌else◌, Bool, true, false, not, ◌&&◌, ◌||◌, Option, List, [], ◌∷◌, Bytes,
}
use holesail_cpp.Rc.{Rc, is_ok}
use holesail_cpp.TcpPipe.{Read}
use holesail_cpp.TcpPipe.World
use holesail_cpp.Client.Conn.{
  Conn, new_conn, begin_dht_connect, connect_cb, stream_open_cb, stream_data_cb, stream_close_cb,
  side_write, drain_cb, shutdown_conn, pipe_step,
}

-- `connect` says that hyperdht owes the connect callback, `stream` that it has a stream whose callbacks it
-- makes until the last, the close callback; `destroyed` is the client's flag.
pub record Line : Type 0 where
  pub conn : Conn
  pub connect : Bool
  pub stream : Bool
  pub destroyed : Bool

-- `on_local_connection` or `open_udp_stream` has called `begin_dht_connect`.
unfoldable pub start : ℕ → Option Bytes → Rc → Line
start id source rc = record {
  conn = (begin_dht_connect rc (new_conn id source)).1;
  connect = is_ok rc;
  stream = false;
  destroyed = false;
}

-- What libuv calls on a pipe.
pub data Socket : Type 0 where
  reads : Read → Bool → Socket
  written : Rc → Socket
  handle_closed : Socket

abbrev pub socket_event : Socket → World.Event
socket_event (reads r accepted) = World.reads r accepted
socket_event (written status) = World.written status
socket_event handle_closed = World.handle_closed

pub data Event : Type 0 where
  connects : Bool → Bool → Event
  opens : Rc → Bool → Event
  receives : Bytes → Bool → Event
  closes : Event
  acknowledges : Bool → Event
  socket : Socket → Event
  writes : Bytes → Rc → Event
  destroys_client : Event

unfoldable pub step : Event → Line → Line
step (connects failed opened) l =
    if l.connect
    then record l {
      conn = connect_cb l.destroyed failed opened l.conn;
      connect = false;
      stream = not (l.destroyed || failed) && opened;
    }
    else l
step (opens rc started) l =
    if l.stream then record l { conn = stream_open_cb rc started l.conn } else l
step (receives bytes queued) l =
    if l.stream then record l { conn = stream_data_cb bytes queued l.conn } else l
step closes l = if l.stream then record l { conn = stream_close_cb l.conn; stream = false } else l
step (acknowledges started) l = record l { conn = drain_cb started l.conn }
step (socket e) l = record l { conn = pipe_step (socket_event e) (l.conn).pipe l.conn }
step (writes bytes rc) l = record l { conn = (side_write bytes rc l.conn).1 }
step destroys_client l = record l {
  conn = if (l.conn).listed then shutdown_conn l.conn else l.conn;
  destroyed = true;
}

unfoldable pub run : List Event → Line → Line
run [] l = l
run (e ∷ es) l = run es (step e l)
