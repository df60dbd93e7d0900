-- ===== src/Tests/Sessions.antt =====
-- Tests of the TCP pipe, of a server's connections and record, and of the two DHT queries.
use holesail_cpp.Base.{
  ◌≤◌, ◌++◌, List, [], ◌∷◌, codes, length, true, false, some, none, ◌≡◌, refl, ◌⊎◌, leb,
}
use holesail_cpp.Rc.{ok}
use holesail_cpp.TcpPipe
use holesail_cpp.TcpPipe.{
  TcpPipe, high_water_mark, chunk, fresh, on_stream_close, write_cb, adopt, connect, start_reading,
  read_cb, read_chunk, on_stream_data, flush_finished, destroy, close_stream, close_handle,
  fire_on_destroy,
}
use holesail_cpp.TcpPipe.World.{
  Event, adopts, reads, stream_data, written, stream_ends, handle_closed, run, start, step,
  next_written,
}
use holesail_cpp.TcpPipe.Accounting.{sum, counters_exact, closes_when_drained}
use holesail_cpp.TcpPipe.Teardown.{told, owner_told_once}
use holesail_cpp.TcpPipe.Calls.{holds_stream, closes, paused_iff_full, owner_told}
use holesail_cpp.Server.Conn
use holesail_cpp.Server.Conn.{new_conn, max_pending_bytes}
use holesail_cpp.Server.Conn.Order.{taken_all, wire_in_order}

-- A local socket is given to the pipe, both sides send, and the stream ends while a write is queued.
abbrev session : List Event
session =
    adopts true true
    ∷ reads (chunk (codes "hello")) true
    ∷ stream_data (codes "hi") true
    ∷ stream_ends
    ∷ []

abbrev whole_session : List Event
whole_session = session ++ (written ok ∷ [])

counters_exact_example :
    ((run session start).pipe.inflight_writes ≡ length (run session start).writes)
    × ((run session start).pipe.pending_bytes ≡ sum (run session start).writes)
    × ((run session start).pipe.stream_pending_bytes ≡ sum (run session start).drains)
counters_exact_example = counters_exact session

session_alive : (run session start).pipe.destroyed ≡ false
unfolding run step next_written fresh adopt start_reading read_cb read_chunk on_stream_data
    on_stream_close write_cb flush_finished destroy close_stream close_handle fire_on_destroy
    TcpPipe.stop_reading
session_alive = refl

paused_iff_full_example :
    ((run session start).pipe.stream_paused ≡ leb high_water_mark (sum (run session start).writes))
    × (holds_stream (run session start).pipe.trace
        ≡ leb high_water_mark (sum (run session start).writes))
paused_iff_full_example = paused_iff_full session session_alive

session_closed :
    ((run whole_session start).pipe.stream_closed ≡ true) × ((run whole_session start).writes ≡ [])
unfolding run step next_written fresh adopt start_reading read_cb read_chunk on_stream_data
    on_stream_close write_cb flush_finished destroy close_stream close_handle fire_on_destroy
    TcpPipe.stop_reading
session_closed = (refl, refl)

closes_when_drained_example : (run whole_session start).pipe.destroyed ≡ true
closes_when_drained_example = closes_when_drained whole_session session_closed.0 session_closed.1

owner_told_once_example :
    (told (run whole_session start).pipe.trace ≤ 1)
    × ((told (run whole_session start).pipe.trace ≡ 0)
        ⊎ (((run whole_session start).pipe.destroyed ≡ true)
            × ((run whole_session start).pipe.handle ≡ false)))
owner_told_once_example = owner_told_once whole_session

owner_told_example :
    ((told (run whole_session start).pipe.trace ≡ 1)
      × ((run whole_session start).pipe.handle ≡ false))
    ⊎ (((run whole_session start).pipe.handle ≡ true)
        × ((closes (run whole_session start).pipe.trace ≡ 1)
            × ((told (run whole_session start).pipe.trace ≡ 0)
                × (told (step handle_closed (run whole_session start)).pipe.trace ≡ 1))))
owner_told_example = owner_told whole_session closes_when_drained_example

-- A greeting before the stream is open, and a write behind it.
abbrev greeting : List Conn.Event
greeting =
    Conn.writes (codes "220 ") (some 1) ok ∷ Conn.opens ok ∷ Conn.writes (codes "go") none ok ∷ []

wire_in_order_example :
    (Conn.run greeting new_conn).wire ++ (Conn.run greeting new_conn).pending
    ≡ taken_all greeting new_conn
wire_in_order_example = wire_in_order greeting tt
