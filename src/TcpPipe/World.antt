-- ===== src/TcpPipe/World.antt =====
-- A pipe with what libuv and the stream still owe it: the writes in flight toward the socket and the
-- stream writes not yet acknowledged, oldest first, by their sizes. An event is a callback or a call
-- of the owner; one that libuv or the owner does not make in the present state changes nothing.
-- Callbacks come one after the other, and nobody but the pipe closes its handle.
use holesail_cpp.Base.{
  ℕ, leb, if◌then◌else◌, Bool, true, false, not, ◌&&◌, ◌||◌, List, [], ◌∷◌, ◌++◌, length, Bytes,
}
use holesail_cpp.Rc.{Rc}
use holesail_cpp.TcpPipe.{
  TcpPipe, fresh, Read, chunk, connect, connect_cb, adopt, read_cb, on_drain, on_stream_data,
  write_cb, on_stream_close, destroy, closed_cb,
}

pub record World : Type 0 where
  pub pipe : TcpPipe
  pub writes : List ℕ
  pub drains : List ℕ

pub data Event : Type 0 where
  dials : Rc → Rc → Rc → Bool → Event
  dialled : Rc → Bool → Event
  adopts : Bool → Bool → Event
  reads : Read → Bool → Event
  drained : Bool → Event
  stream_data : Bytes → Bool → Event
  written : Rc → Event
  stream_ends : Event
  destroys : Event
  handle_closed : Event

-- `scratch_`: the largest chunk that one read delivers.
abbrev pub scratch_size : ℕ
scratch_size = 65536

abbrev pub fits : Read → Bool
fits (chunk bytes) = leb (length bytes) scratch_size
fits r = true

-- The drain callback is kept by the stream if it accepted the bytes.
abbrev pub owed_drain : Read → Bool → List ℕ → List ℕ
owed_drain (chunk bytes) accepted drains =
    if accepted then drains ++ (length bytes ∷ []) else drains
owed_drain r accepted drains = drains

-- `on_stream_data` reached `uv_write`, and it took the bytes.
abbrev pub takes_write : TcpPipe → Bytes → Bool → Bool
takes_write p [] queued = false
takes_write p (b ∷ bytes) queued = queued && not (p.destroyed || (not p.handle || p.closing))

-- The oldest owed callback, if there is one.
unfoldable pub next_drain : Bool → World → List ℕ → World
next_drain started w [] = w
next_drain started w (len ∷ rest) = record w { pipe = on_drain len started w.pipe; drains = rest }

unfoldable pub next_written : Rc → World → List ℕ → World
next_written status w [] = w
next_written status w (len ∷ rest) = record w {
  pipe = write_cb len status false w.pipe;
  writes = rest;
}

unfoldable pub step : Event → World → World
step (dials initialised resolved connected callback) w =
    if w.pipe.handle
    then w
    else record w { pipe = (connect initialised resolved connected false callback w.pipe).1 }
step (dialled status started) w = record w { pipe = connect_cb status started false w.pipe }
step (adopts given started) w =
    if w.pipe.handle then w else record w { pipe = (adopt given started w.pipe).1 }
step (reads r accepted) w =
    if w.pipe.reading && fits r
    then record w {
      pipe = read_cb r accepted false w.pipe;
      drains = owed_drain r accepted w.drains;
    }
    else w
step (drained started) w = next_drain started w w.drains
step (stream_data bytes queued) w = record w {
  pipe = on_stream_data bytes queued false w.pipe;
  writes = if takes_write w.pipe bytes queued then w.writes ++ (length bytes ∷ []) else w.writes;
}
step (written status) w = next_written status w w.writes
step stream_ends w = record w { pipe = on_stream_close false w.pipe }
step destroys w = record w { pipe = destroy false w.pipe }
step handle_closed w =
    if w.pipe.handle && w.pipe.closing then record w { pipe = closed_cb w.pipe } else w

unfoldable pub run : List Event → World → World
run [] w = w
run (e ∷ es) w = run es (step e w)

abbrev pub start : World
start = record { pipe = fresh; writes = []; drains = [] }

-- An invariant of every event holds after any history.
pub run_inv {ℓ} :
    (P : World → Type ℓ)
    → ((e : Event) (w : World) → P w → P (step e w))
    → (es : List Event) (w : World) → P w
    → P (run es w)
unfolding run
run_inv P keeps [] w h = h
run_inv P keeps (e ∷ es) w h = run_inv P keeps es (step e w) (keeps e w h)
