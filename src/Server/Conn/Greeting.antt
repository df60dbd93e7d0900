-- ===== src/Server/Conn/Greeting.antt =====
-- An inbound TCP connection of src/server.cpp with its pipe: `make_side` of the server is the `stream_` of
-- `TcpPipe`, so that what the pipe reads goes through `side.write`, and a drain callback is the pipe's.
-- The number of a drain callback is the size of the write that it is for, which is all that it captures.
pub mod Handed
pub mod Whole
pub mod Kept
pub mod Early
pub mod Lost
use holesail_cpp.Base.{
  ℕ, ◌==◌, if◌then◌else◌, Bool, true, false, not, ◌&&◌, ◌||◌, Option, none, some, List, [], ◌∷◌,
  ◌++◌, length, Bytes,
}
use holesail_cpp.Rc.{Rc, ok, fail, is_ok}
use holesail_cpp.TcpPipe.{
  TcpPipe, Effect, stream_writes, Read, again, end_of_file, error, chunk, read_cb, on_drain,
  on_stream_close,
}
use holesail_cpp.TcpPipe.World
use holesail_cpp.TcpPipe.World.{World, fits}
use holesail_cpp.Server.Conn.{Conn, new_conn, side_write, drain_cb, stream_open_cb, stream_close_cb}

-- `fired` of the connection is empty between two steps: the callbacks on it are called at once.
pub record Joined : Type 0 where
  pub world : World
  pub conn : Conn

unfoldable pub start : Joined
start = record { world = World.start; conn = new_conn }

abbrev pub with_pipe : TcpPipe → Joined → Joined
with_pipe p j = record j { world = record j.world { pipe = p } }

-- Drain callbacks, in order; `started` is the result of `uv_read_start`.
unfoldable pub fire_all : Bool → List ℕ → TcpPipe → TcpPipe
fire_all started [] p = p
fire_all started (len ∷ ds) p = fire_all started ds (on_drain len started p)

-- The callbacks that the connection has called reach the pipe.
unfoldable pub deliver_drains : Bool → Joined → Joined
deliver_drains started j = record j {
  world = record j.world { pipe = fire_all started (j.conn).fired (j.world).pipe };
  conn = record j.conn { fired = [] };
}

-- A read of a living pipe; `rc` is the result of hyperdht's write, if it is made.
unfoldable pub read : Read → Rc → Joined → Joined
read (chunk bytes) rc j =
    let written = side_write bytes (some (length bytes)) rc j.conn in
    record j {
      world = record j.world {
        pipe = read_cb (chunk bytes) (is_ok written.0) false (j.world).pipe;
      };
      conn = written.1;
    }
read r rc j = with_pipe (read_cb r true false (j.world).pipe) j

unfoldable pub owes : ℕ → List ℕ → Bool
owes d [] = false
owes d (x ∷ xs) = x == d || owes d xs

-- The events of World that are not about the stream: dialling, the local socket and the owner.
abbrev pub is_local : World.Event → Bool
is_local (World.reads r accepted) = false
is_local (World.drained started) = false
is_local World.stream_ends = false
is_local e = true

pub data Event : Type 0 where
  reads : Read → Rc → Event
  opens : Rc → Bool → Event
  acks : ℕ → Bool → Event
  closes : Event
  happens : World.Event → Event

unfoldable pub step : Event → Joined → Joined
step (reads r rc) j =
    if (j.world).pipe.reading && (fits r && not (j.world).pipe.destroyed) then read r rc j else j
step (opens rc started) j =
    if (j.conn).stream_open || not (j.conn).stream
    then j
    else deliver_drains started (record j { conn = stream_open_cb rc j.conn })
step (acks d started) j =
    if (j.conn).stream && owes d (j.conn).drains
    then deliver_drains started (record j { conn = drain_cb d j.conn })
    else j
step closes j =
    if (j.conn).stream
    then with_pipe (on_stream_close false (j.world).pipe)
        (record j { conn = stream_close_cb j.conn })
    else j
step (happens e) j = if is_local e then record j { world = World.step e j.world } else j

unfoldable pub run : List Event → Joined → Joined
run [] j = j
run (e ∷ es) j = run es (step e j)

-- What the pipe has read from the local socket and handed to the stream, in order.
abbrev pub handed : List Effect → Bytes
handed [] = []
handed (stream_writes bytes ∷ es) = handed es ++ bytes
handed (e ∷ es) = handed es
