-- ===== src/Tests/Lifetimes.antt =====
-- Tests of the lifetimes of connections, on both ends, and of a client's query.
use holesail_cpp.Base.{
  Bytes, ◌++◌, ◌+◌, ◌≤◌, if◌then◌else◌, true, false, none, some, List, [], ◌∷◌, codes, length, ◌≡◌,
  refl, ◌↔◌,
}
use holesail_cpp.Rc.{ok}
use holesail_cpp.Client.{Config}
use holesail_cpp.Client.Conn.{max_pending_bytes}
use holesail_cpp.Client.Conn.Line
use holesail_cpp.Client.Conn.Kept.{Sub, joined}
use holesail_cpp.Client.Conn.Waiting.{asked}
use holesail_cpp.Client.Conn.Intact.{writes_intact}
use holesail_cpp.Client.Conn.Reaped
use holesail_cpp.Client.Conn.Reaped.{reaped_iff}
use holesail_cpp.Client.Table.{HolesailClient, new_client, Listening, connect, destroy}
use holesail_cpp.Client.Table.History
use holesail_cpp.Client.Table.History.{Event, freed, queried, told, query_freed_once}
use holesail_cpp.Client.Table.Final.{Dead, destroyed_for_good}
use holesail_cpp.Server.Conn.Refs
use holesail_cpp.Server.Conn.{new_conn}
use holesail_cpp.Server.Conn.Refs.{Bridge, Dialling, opened_pipe, holds_callback, connection_cb}
use holesail_cpp.TcpPipe.World
use holesail_cpp.Server.Conn.Freed.{AtRest, freed_iff}

-- An accepted socket is dialled, bridged, and its stream closes with nothing queued.
abbrev life : List Line.Event
life =
    Line.connects false true
    ∷ Line.opens ok true
    ∷ Line.receives (codes "hi") true
    ∷ Line.closes
    ∷ Line.socket (Line.written ok)
    ∷ Line.socket Line.handle_closed
    ∷ []

reaped_iff_example : ((Line.run life (Line.start 1 none ok)).conn.listed ≡ false) ↔ (
    ((Line.run life (Line.start 1 none ok)).connect ≡ false)
    × (((Line.run life (Line.start 1 none ok)).stream ≡ false)
        × Reaped.AtRest (Line.run life (Line.start 1 none ok)).conn.pipe))
reaped_iff_example = reaped_iff 1 none ok life

abbrev config : Config
config = record {
  key = codes "abc";
  secure = false;
  local_port = some 8080;
  local_host = none;
  udp = none;
}

abbrev answers : Listening
answers = record { initialised = ok; resolution = ok; bound = ok; listened = ok; named = some 8080 }

abbrev begun : HolesailClient
begun = (connect true answers true (new_client config true false)).1

abbrev before : List Event
before = History.query_done answers ∷ History.accepts ok ∷ []

abbrev after : List Event
after = History.accepts ok ∷ History.opens_udp (codes "a") ok ∷ History.query_done answers ∷ []

abbrev history : List Event
history = History.value 3 none ∷ History.destroys true answers ∷ after

query_freed_once_example :
    (freed (History.run history begun).trace + (if (History.run history begun).query then 1 else 0)
      ≡ queried (History.run history begun).trace)
    × ((queried (History.run history begun).trace ≤ 1)
        × (told (History.run history begun).trace ≤ 1))
query_freed_once_example = query_freed_once config true false true true answers history

destroyed_for_good_example :
    Dead (History.run after (destroy false answers (History.run before begun)))
    × (length (History.run after (destroy false answers (History.run before begun))).conns
        ≡ length (History.run before begun).conns)
destroyed_for_good_example =
    destroyed_for_good config true false true true answers before after false answers

abbrev dialled : Dialling
dialled = record { initialised = ok; resolution = ok; connected = ok; bound = ok; received = ok }

abbrev bridge : Bridge
bridge =
    let p = opened_pipe false dialled in
    record { side = new_conn; box = true; keep = holds_callback p; pipe = p }

bridge_made : connection_cb true true false dialled ≡ some bridge
unfolding connection_cb
bridge_made = refl

-- The local socket is connected, the stream closes, and the pipe finishes what was queued.
abbrev bridged : List Refs.Event
bridged =
    Refs.opens ok
    ∷ Refs.calls (Refs.socket (World.dialled ok true))
    ∷ Refs.receives (codes "hi") true
    ∷ Refs.closes
    ∷ Refs.shuts
    ∷ []

freed_iff_example :
    (Refs.freed (Refs.run bridged bridge) ≡ true)
    ↔ (((Refs.run bridged bridge).side.stream ≡ false) × AtRest (Refs.run bridged bridge).pipe)
freed_iff_example = freed_iff true true false dialled bridge bridged bridge_made

-- Two datagrams while the connection dials, of which the stream takes both when it opens, and one after.
abbrev dialogue : List Line.Event
dialogue =
    Line.writes (codes "a") ok
    ∷ Line.writes (codes "bc") ok
    ∷ Line.connects false true
    ∷ Line.opens ok true
    ∷ Line.writes (codes "d") ok
    ∷ []

writes_intact_example :
    (on_wire : List Bytes) × ((held : List Bytes) × (Sub (held ++ on_wire) (asked dialogue [])
        × (((Line.run dialogue (Line.start 1 (some (codes "s")) ok)).conn.wire ≡ joined on_wire)
            × (((Line.run dialogue (Line.start 1 (some (codes "s")) ok)).conn.pending ≡ joined held)
                × (length (Line.run dialogue (Line.start 1 (some (codes "s")) ok)).conn.pending
                    ≤ max_pending_bytes)))))
writes_intact_example = writes_intact 1 (some (codes "s")) ok dialogue
