-- ===== src/Tests/Tables.antt =====
-- Tests of the connections that a server has accepted, and of its destroy.
use holesail_cpp.Base.{ℕ, Bytes, All, Bool, true, false, some, List, [], ◌∷◌, codes, ◌≡◌, refl}
use holesail_cpp.Rc.{ok}
use holesail_cpp.TcpPipe
use holesail_cpp.TcpPipe.World
use holesail_cpp.Server
use holesail_cpp.Server.{HolesailServer}
use holesail_cpp.Server.Conn.{stream_close_cb, new_conn}
use holesail_cpp.Server.Conn.Refs
use holesail_cpp.Server.Conn.Refs.{
  Dialling, opened_pipe, destroy_pipe, with_pipe, stream_data_cb, bridge_closed, data_to, end_to,
}
use holesail_cpp.Server.Table.{
  Entry, Event, accepts, calls, destroy, run, step, connection_cb, enter, prune, displace, shut,
  in_use, call_at,
}
use holesail_cpp.Server.Table.Shut.{Over, is_destroyed, none_escapes}

abbrev announced : HolesailServer
announced = record {
  config = record {
    seed_hex = [];
    secure = false;
    udp = false;
    local_port = 80;
    local_host = codes "127.0.0.1";
  };
  seed = [];
  public_key = [];
  dht = true;
  srv = true;
  refresh = true;
  on_listening = false;
  state = Server.listening;
  record_bytes = [];
  trace = [];
}

abbrev dialled : Dialling
dialled = record { initialised = ok; resolution = ok; connected = ok; bound = ok; received = ok }

-- The stream of a connection closes behind bytes that the local socket has not taken yet, and its address
-- is given to another.
abbrev recycled : List Event
recycled =
    accepts (some 7) dialled
    ∷ calls 0 (Refs.receives (codes "hi") true)
    ∷ calls 0 Refs.closes
    ∷ accepts (some 7) dialled
    ∷ []

none_escapes_example :
    All Over (destroy (run recycled (record { server = announced; conns = [] }))).conns
    × (((destroy (run recycled (record { server = announced; conns = [] }))).server.srv ≡ false)
        × All
            (λ c. c.listed ≡ false)
            (destroy (run recycled (record { server = announced; conns = [] }))).conns)
none_escapes_example = none_escapes announced recycled

abbrev states : List Entry → List Bool
states [] = []
states (c ∷ cs) = is_destroyed (c.bridge).pipe ∷ states cs

-- The new connection is shut, and the pipe of the old one still runs.
one_runs_on :
    states (destroy (run recycled (record { server = announced; conns = [] }))).conns
    ≡ true ∷ false ∷ []
unfolding destroy run step in_use call_at connection_cb enter prune displace shut Server.destroy
    Server.close_server Server.stop_refresh Refs.connection_cb Refs.step stream_data_cb with_pipe
    bridge_closed data_to end_to stream_close_cb new_conn opened_pipe destroy_pipe World.step
    TcpPipe.destroy TcpPipe.fresh TcpPipe.connect TcpPipe.on_stream_data TcpPipe.on_stream_close
    TcpPipe.flush_finished TcpPipe.close_handle TcpPipe.close_stream TcpPipe.stop_reading
    TcpPipe.fire_on_destroy TcpPipe.pause_stream
one_runs_on = refl

-- A server publishes a new record over the replies of its query.
abbrev replied : List (ℕ × Bytes)
replied = (4, 1 ∷ []) ∷ (3, 0 ∷ []) ∷ []

abbrev publishing : HolesailServer
publishing = record announced { record_bytes = 2 ∷ [] }
