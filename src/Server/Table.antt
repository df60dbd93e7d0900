-- ===== src/Server/Table.antt =====
-- The connections that a server of src/server.cpp has accepted, with its `conns_`: a map from streams to weak
-- references, here the connections that are listed in it, each under the address of its stream.
pub mod Shut
use holesail_cpp.Base.{
  ℕ, zero, suc, ◌==◌, if◌then◌else◌, Bool, true, false, not, ◌&&◌, ◌||◌, Option, none, some,
  is_some, List, [], ◌∷◌,
}
use holesail_cpp.Rc.{Rc}
use holesail_cpp.Server
use holesail_cpp.Server.{HolesailServer}
use holesail_cpp.Server.Conn.Refs
use holesail_cpp.Server.Conn.Refs.{Bridge, Dialling, Pipe, freed}

-- A connection with the address of its stream; `listed` says that `conns_` has an entry for it.
pub record Entry : Type 0 where
  pub stream : ℕ
  pub listed : Bool
  pub bridge : Bridge

-- Every connection that was made, newest first: those that are freed stand for nothing.
pub record Table : Type 0 where
  pub server : HolesailServer
  pub conns : List Entry

abbrev pub each : (Entry → Entry) → List Entry → List Entry
each f [] = []
each f (c ∷ cs) = f c ∷ each f cs

-- `std::erase_if` of what has expired.
unfoldable pub prune : Entry → Entry
prune c = record c { listed = c.listed && not (freed c.bridge) }

-- What a store under the same key does to another entry.
unfoldable pub displace : ℕ → Entry → Entry
displace stream c = record c { listed = c.listed && not (c.stream == stream) }

unfoldable pub enter : Option ℕ → Option Bridge → List Entry → List Entry
enter (some stream) (some b) cs =
    record { stream = stream; listed = true; bridge = b } ∷ each (displace stream) cs
enter (some stream) none cs = cs
enter none made cs = cs

-- `connection_cb`; `stream` is what `hyperdht_stream_open` returns.
unfoldable pub connection_cb : Option ℕ → Dialling → Table → Table
connection_cb stream d t = if not (t.server).srv then t else record t {
  conns =
      enter stream (Refs.connection_cb true (is_some stream) ((t.server).config).udp d)
        (each prune t.conns);
}

-- The turn of an entry in `destroy`: its weak reference is locked, and the map is cleared behind it.
unfoldable pub shut : Entry → Entry
shut c = if c.listed then record c { listed = false; bridge = Refs.step Refs.shuts c.bridge } else c

unfoldable pub destroy : Table → Table
destroy t = record { server = Server.destroy t.server; conns = each shut t.conns }

-- A stream that has not closed yet has this address.
unfoldable pub in_use : ℕ → List Entry → Bool
in_use stream [] = false
in_use stream (c ∷ cs) = (c.stream == stream && (c.bridge).box) || in_use stream cs

-- A callback on one connection, by its place in the list.
unfoldable pub call_at : ℕ → Refs.Event → List Entry → List Entry
call_at n e [] = []
call_at zero e (c ∷ cs) = record c { bridge = Refs.step e c.bridge } ∷ cs
call_at (suc n) e (c ∷ cs) = c ∷ call_at n e cs

-- What happens to a server that is not destroyed yet.
pub data Event : Type 0 where
  accepts : Option ℕ → Dialling → Event
  calls : ℕ → Refs.Event → Event
  starts : Bool → Rc → Bool → Event
  listens pauses resumes : Event

abbrev pub taken : Option ℕ → List Entry → Bool
taken none cs = false
taken (some stream) cs = in_use stream cs

-- hyperdht does not give a new stream the address of one that is open.
unfoldable pub step : Event → Table → Table
step (accepts stream d) t = if taken stream t.conns then t else connection_cb stream d t
step (calls n e) t = record t { conns = call_at n e t.conns }
step (starts created listened callback) t = record t {
  server = (Server.start created listened callback t.server).1;
}
step listens t = record t { server = Server.listening_cb t.server }
step pauses t = record t { server = Server.pause t.server }
step resumes t = record t { server = Server.resume t.server }

unfoldable pub run : List Event → Table → Table
run [] t = t
run (e ∷ es) t = run es (step e t)
