-- ===== src/TcpPipe/Teardown.antt =====
-- The end of a pipe: no queued write is dropped by an orderly close, and the owner is told once.
use holesail_cpp.Base.{
  ℕ, suc, ◌+◌, ◌-◌, ◌≤◌, if◌then◌else◌, Bool, true, false, List, [], ◌∷◌, Bytes, ◌≡◌, arith,
  Bool-cases, inl, inr, ◌↔◌, ◌⊎◌,
}
use holesail_cpp.Rc.{Rc, ok, fail}
use holesail_cpp.TcpPipe.{
  TcpPipe, Effect, calls_on_destroy, tcp_connects, tcp_writes, calls, fresh, Read, again,
  end_of_file, error, chunk, start_reading, stop_reading, resume_reading, close_stream,
  fire_on_destroy, close_handle, destroy, closed_cb, flush_finished, connect, adopt, fire_on_ready,
  connect_cb, reduce, read_chunk, read_cb, on_drain, pause_stream, resume_stream, on_stream_data,
  write_cb, on_stream_close,
}
use holesail_cpp.TcpPipe.World.{
  World, Event, dials, dialled, adopts, reads, drained, stream_data, written, stream_ends, destroys,
  handle_closed, step, run, start, run_inv, next_drain, next_written,
}
use holesail_cpp.TcpPipe.Accounting.{destroy-destroyed}

-- An orderly close of a living pipe, by the stream's end or a completed write.
flush_finished-destroyed :
    (b : Bool) (p : TcpPipe)
    → p.destroyed ≡ false
    → (flush_finished b p).destroyed ≡ true
    → (p.inflight_writes ≡ 0) × (p.stream_closed ≡ true)
unfolding flush_finished
flush_finished-destroyed b p h e = ground arith

-- The end of the stream tears a living pipe down exactly when no write is queued.
pub on_stream_close_orderly :
    (b : Bool) (p : TcpPipe)
    → p.destroyed ≡ false
    → ((on_stream_close b p).destroyed ≡ true) ↔ (p.inflight_writes ≡ 0)
unfolding on_stream_close flush_finished
on_stream_close_orderly b p h =
    (ground arith, ground (arith, destroy-destroyed b (record p { stream_closed = true })))

-- A write that completes tears a living pipe down exactly when it was the last one and the stream has
-- closed.
pub write_cb_orderly :
    (n : ℕ) (b : Bool) (p : TcpPipe)
    → p.destroyed ≡ false
    → ((write_cb n ok b p).destroyed ≡ true) ↔ ((p.inflight_writes ≤ 1) × (p.stream_closed ≡ true))
unfolding write_cb flush_finished resume_stream
write_cb_orderly n b p h = (ground arith, grind (arith, destroy-destroyed))

-- How often the owner was told.
abbrev pub told : List Effect → ℕ
told [] = 0
told (calls_on_destroy ∷ es) = suc (told es)
told (_ ∷ es) = told es

pub record Owner (p : TcpPipe) : Type 0 where
  pub once : told p.trace + (if p.on_destroy then 1 else 0) ≡ 1
  pub late : p.on_destroy ≡ false → (p.destroyed ≡ true) × (p.handle ≡ false)
  pub settled : p.destroyed ≡ true → p.handle ≡ false → p.on_destroy ≡ false
  pub dying : p.destroyed ≡ true → p.handle ≡ true → p.closing ≡ true
  pub alive : p.closing ≡ true → p.destroyed ≡ true

destroy-Owner : (p : TcpPipe) → Owner p → Owner (destroy false p)
unfolding destroy close_handle close_stream stop_reading fire_on_destroy
destroy-Owner p v = ground arith

connect-Owner :
    (a b c : Rc) (e : Bool) (p : TcpPipe)
    → p.handle ≡ false
    → Owner p
    → Owner (connect a b c false e p).1
unfolding connect
connect-Owner (fail n) b c e p h v = ground arith
connect-Owner ok (fail n) c e p h v = ground (arith, destroy-Owner (record p { handle = true }))
connect-Owner ok ok (fail n) e p h v =
    ground (arith, destroy-Owner (calls tcp_connects (record p { handle = true; on_ready = e })))
connect-Owner ok ok ok e p h v = ground arith

start_reading-Owner : (b : Bool) (p : TcpPipe) → Owner p → Owner (start_reading b p)
unfolding start_reading
start_reading-Owner b p v = ground arith

fire_on_ready-Owner : (status : Rc) (p : TcpPipe) → Owner p → Owner (fire_on_ready status p)
unfolding fire_on_ready
fire_on_ready-Owner status p v = ground arith

connect_cb-Owner : (a : Rc) (b : Bool) (p : TcpPipe) → Owner p → Owner (connect_cb a b false p)
unfolding connect_cb
connect_cb-Owner ok b p v = fire_on_ready-Owner ok _ (start_reading-Owner b p v)
connect_cb-Owner (fail n) b p v = destroy-Owner _ (fire_on_ready-Owner (fail n) p v)

adopt-Owner : (a b : Bool) (p : TcpPipe) → p.handle ≡ false → Owner p → Owner (adopt a b p).1
unfolding adopt
adopt-Owner a b p h v = ground (arith, start_reading-Owner b (record p { handle = true }))

read_chunk-Owner :
    (bytes : Bytes) (a : Bool) (p : TcpPipe) → Owner p → Owner (read_chunk bytes a false p)
unfolding read_chunk
read_chunk-Owner bytes false p v =
    destroy-Owner _ (record {
      once = v.once;
      late = v.late;
      settled = v.settled;
      dying = v.dying;
      alive = v.alive;
    })
read_chunk-Owner bytes true p v = unfold stop_reading in ground arith

resumed-Owner :
    (p : TcpPipe) (i n : ℕ)
    → Owner p
    → Owner
        (resume_stream (record p { inflight_writes = i; pending_bytes = n; stream_paused = false }))
unfolding resume_stream
resumed-Owner p i n v = ground arith

read_cb-Owner : (r : Read) (a : Bool) (p : TcpPipe) → Owner p → Owner (read_cb r a false p)
unfolding read_cb
read_cb-Owner again a p v = v
read_cb-Owner end_of_file a p v = unfold close_stream stop_reading in ground arith
read_cb-Owner error a p v = ground (arith, destroy-Owner p v)
read_cb-Owner (chunk bytes) a p v = ground (arith, read_chunk-Owner bytes a p v)

on_drain-Owner : (n : ℕ) (b : Bool) (p : TcpPipe) → Owner p → Owner (on_drain n b p)
unfolding on_drain resume_reading start_reading
on_drain-Owner n b p v = ground arith

on_stream_data-Owner :
    (bytes : Bytes) (a : Bool) (p : TcpPipe) → Owner p → Owner (on_stream_data bytes a false p)
unfolding on_stream_data pause_stream
on_stream_data-Owner bytes a p v = ground (arith, destroy-Owner (calls (tcp_writes bytes) p))

flush_finished-Owner : (p : TcpPipe) → Owner p → Owner (flush_finished false p)
unfolding flush_finished
flush_finished-Owner p v = ground (arith, destroy-Owner p v)

write_cb-Owner : (n : ℕ) (a : Rc) (p : TcpPipe) → Owner p → Owner (write_cb n a false p)
unfolding write_cb
write_cb-Owner n (fail e) p v =
    destroy-Owner _ (record {
      once = v.once;
      late = v.late;
      settled = v.settled;
      dying = v.dying;
      alive = v.alive;
    })
write_cb-Owner n ok p v = ground (
  arith,
  flush_finished-Owner _ (resumed-Owner p (p.inflight_writes - 1) (reduce p.pending_bytes n) v),
  flush_finished-Owner
      (record p {
        inflight_writes = p.inflight_writes - 1;
        pending_bytes = reduce p.pending_bytes n;
      })
      (record {
        once = v.once;
        late = v.late;
        settled = v.settled;
        dying = v.dying;
        alive = v.alive;
      }),
)

on_stream_close-Owner : (p : TcpPipe) → Owner p → Owner (on_stream_close false p)
unfolding on_stream_close
on_stream_close-Owner p v = ground (arith, flush_finished-Owner (record p { stream_closed = true }))

closed_cb-Owner : (p : TcpPipe) → p.closing ≡ true → Owner p → Owner (closed_cb p)
unfolding closed_cb fire_on_destroy
closed_cb-Owner p h v = ground arith

next_drain-Owner :
    (b : Bool) (w : World) (ds : List ℕ) → Owner w.pipe → Owner (next_drain b w ds).pipe
unfolding next_drain
next_drain-Owner b w [] v = v
next_drain-Owner b w (n ∷ ds) v = on_drain-Owner n b w.pipe v

next_written-Owner :
    (a : Rc) (w : World) (ws : List ℕ) → Owner w.pipe → Owner (next_written a w ws).pipe
unfolding next_written
next_written-Owner a w [] v = v
next_written-Owner a w (n ∷ ws) v = write_cb-Owner n a w.pipe v

pub step-Owner : (e : Event) (w : World) → Owner w.pipe → Owner (step e w).pipe
unfolding step
step-Owner (dials a b c d) w v = elim (Bool-cases w.pipe.handle) [
  | inl e ↦ simp e v
  | inr e ↦ simp e (connect-Owner a b c d w.pipe e v)
]
step-Owner (dialled a b) w v = connect_cb-Owner a b w.pipe v
step-Owner (adopts a b) w v = ground (arith, adopt-Owner a b w.pipe)
step-Owner (reads r b) w v = ground (arith, read_cb-Owner r b w.pipe v)
step-Owner (drained b) w v = next_drain-Owner b w w.drains v
step-Owner (stream_data bytes q) w v = on_stream_data-Owner bytes q w.pipe v
step-Owner (written status) w v = next_written-Owner status w w.writes v
step-Owner stream_ends w v = on_stream_close-Owner w.pipe v
step-Owner destroys w v = destroy-Owner w.pipe v
step-Owner handle_closed w v = ground (arith, closed_cb-Owner w.pipe)

pub start-Owner : Owner start.pipe
unfolding fresh
start-Owner = ground arith

pub run-Owner : (es : List Event) → Owner (run es start).pipe
run-Owner es = run_inv (λ w. Owner w.pipe) step-Owner es start start-Owner

-- The owner, which deletes the pipe from `on_destroy`, is told at most once in any history, and only
-- when the pipe is destroyed and its handle has finished closing.
pub owner_told_once :
    (es : List Event)
    → (told (run es start).pipe.trace ≤ 1)
      × ((told (run es start).pipe.trace ≡ 0)
          ⊎ (((run es start).pipe.destroyed ≡ true) × ((run es start).pipe.handle ≡ false)))
owner_told_once es = let v = run-Owner es in ground (arith, v.once, v.late)
