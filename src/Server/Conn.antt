-- ===== src/Server/Conn.antt =====
-- An inbound connection of src/server.cpp (`HolesailServer::Conn`, `make_side` and the stream's
-- callbacks): bytes written before the stream is open are buffered and flushed in order. Drain
-- callbacks are numbers; a callback that is called is on `fired`, in order.
pub mod Order
pub mod Refs
pub mod Freed
pub mod Greeting
use holesail_cpp.Base.{
  ℕ, ◌+◌, ◌==◌, ltb, if◌then◌else◌, Bool, true, false, not, Option, none, some, List, [], ◌∷◌, ◌++◌,
  length, is_empty, Bytes,
}
use holesail_cpp.Rc.{Rc, ok, fail, is_ok}

-- `kMaxPendingBytes`
abbrev pub max_pending_bytes : ℕ
max_pending_bytes = 262144

-- `wire` is what the stream took, in order; `drains` are the callbacks that wait for an
-- acknowledgement, `pending_drains` those withheld until the stream opens.
pub record Conn : Type 0 where
  pub stream : Bool
  pub drains : List ℕ
  pub stream_open : Bool
  pub pending : Bytes
  pub pending_drains : List ℕ
  pub wire : Bytes
  pub fired : List ℕ

unfoldable pub new_conn : Conn
new_conn = record {
  stream = true;
  drains = [];
  stream_open = false;
  pending = [];
  pending_drains = [];
  wire = [];
  fired = [];
}

abbrev pub with_drain : Option ℕ → List ℕ → List ℕ
with_drain none ds = ds
with_drain (some d) ds = ds ++ (d ∷ [])

-- `side.write` before the stream is open: it always answers 1.
unfoldable pub write_early : Bytes → Option ℕ → Conn → Conn
write_early bytes on_drain c =
    if ltb max_pending_bytes (length c.pending + length bytes) then c else record c {
      pending = c.pending ++ bytes;
      pending_drains = with_drain on_drain c.pending_drains;
    }

-- The same on an open stream; `rc` is the result of hyperdht's write. A refused write deregisters the
-- callback that it had registered.
unfoldable pub write_open : Bytes → Option ℕ → Rc → Conn → Conn
write_open bytes on_drain (fail n) c = c
write_open bytes on_drain ok c = record c {
  wire = c.wire ++ bytes;
  drains = with_drain on_drain c.drains;
}

-- `side.write`, with what it returns.
unfoldable pub side_write : Bytes → Option ℕ → Rc → Conn → Rc × Conn
side_write bytes on_drain rc c =
    if c.stream_open
    then (rc, write_open bytes on_drain rc c)
    else (ok, write_early bytes on_drain c)

unfoldable pub erase : ℕ → List ℕ → List ℕ
erase d [] = []
erase d (x ∷ xs) = if x == d then xs else x ∷ erase d xs

unfoldable pub drain_cb : ℕ → Conn → Conn
drain_cb d c = record c { drains = erase d c.drains; fired = c.fired ++ (d ∷ []) }

-- The end of `stream_open_cb`: the withheld callbacks, in order.
unfoldable pub release_drains : Conn → Conn
release_drains c = record c { pending_drains = []; fired = c.fired ++ c.pending_drains }

unfoldable pub flush_pending : Bytes → Rc → Conn → Conn
flush_pending [] rc c = release_drains c
flush_pending (b ∷ bytes) ok c =
    release_drains (record c { pending = []; wire = c.wire ++ (b ∷ bytes) })
flush_pending (b ∷ bytes) (fail n) c = record c { pending = []; pending_drains = [] }

unfoldable pub stream_open_cb : Rc → Conn → Conn
stream_open_cb rc c = flush_pending c.pending rc (record c { stream_open = true })

unfoldable pub stream_close_cb : Conn → Conn
stream_close_cb c = record c { stream = false }

-- What happens to a connection's stream side.
pub data Event : Type 0 where
  writes : Bytes → Option ℕ → Rc → Event
  opens : Rc → Event
  drained : ℕ → Event
  closes : Event

unfoldable pub step : Event → Conn → Conn
step (writes bytes on_drain rc) c = (side_write bytes on_drain rc c).1
step (opens rc) c = stream_open_cb rc c
step (drained d) c = drain_cb d c
step closes c = stream_close_cb c

unfoldable pub run : List Event → Conn → Conn
run [] c = c
run (e ∷ es) c = run es (step e c)
