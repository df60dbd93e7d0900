-- ===== src/TcpPipe/Calls.antt =====
-- The calls that a pipe makes to its stream and to libuv agree with its flags: what it last asked the
-- stream for, and the `uv_close` of its handle.
use holesail_cpp.Base.{
  ℕ, suc, ◌-◌, leb, if◌then◌else◌, Bool, true, false, List, [], ◌∷◌, Bytes, ◌≡◌, ap, ◌∙◌, arith,
  Bool-cases, inl, inr, ◌⊎◌,
}
use holesail_cpp.Rc.{Rc, ok, fail}
use holesail_cpp.TcpPipe.{
  TcpPipe, Effect, tcp_closes, stream_pauses, stream_resumes, tcp_connects, tcp_writes, calls,
  fresh, high_water_mark, Read, again, end_of_file, error, chunk, start_reading, stop_reading,
  resume_reading, close_stream, fire_on_destroy, close_handle, destroy, closed_cb, flush_finished,
  connect, adopt, fire_on_ready, connect_cb, reduce, read_chunk, read_cb, on_drain, pause_stream,
  resume_stream, on_stream_data, write_cb, on_stream_close,
}
use holesail_cpp.TcpPipe.World.{
  World, Event, dials, dialled, adopts, reads, drained, stream_data, written, stream_ends, destroys,
  handle_closed, step, run, start, run_inv, next_drain, next_written,
}
use holesail_cpp.TcpPipe.Accounting.{sum, flag_iff_full}
use holesail_cpp.TcpPipe.Teardown.{told, Owner, run-Owner}

-- Whether the last call of `pause` or `resume` of the stream was one of `pause`.
abbrev pub holds_stream : List Effect → Bool
holds_stream [] = false
holds_stream (stream_pauses ∷ es) = true
holds_stream (stream_resumes ∷ es) = false
holds_stream (_ ∷ es) = holds_stream es

-- How often `uv_close` was called on the handle.
abbrev pub closes : List Effect → ℕ
closes [] = 0
closes (tcp_closes ∷ es) = suc (closes es)
closes (_ ∷ es) = closes es

record Calls (p : TcpPipe) : Type 0 where
  can_pause : p.side_pause ≡ true
  can_resume : p.side_resume ≡ true
  paused : holds_stream p.trace ≡ p.stream_paused
  shut : closes p.trace ≡ (if p.closing then 1 else 0)

destroy-Calls : (p : TcpPipe) → Calls p → Calls (destroy false p)
unfolding destroy close_handle close_stream stop_reading fire_on_destroy
destroy-Calls p v = ground arith

-- Fields that no call depends on.
recounted :
    (p : TcpPipe) (i n m : ℕ) (r d : Bool)
    → Calls p
    → Calls (record p {
      inflight_writes = i;
      pending_bytes = n;
      stream_pending_bytes = m;
      on_ready = r;
      handle = d;
    })
recounted p i n m r d v = record {
  can_pause = v.can_pause;
  can_resume = v.can_resume;
  paused = v.paused;
  shut = v.shut;
}

connect-Calls : (a b c : Rc) (e : Bool) (p : TcpPipe) → Calls p → Calls (connect a b c false e p).1
unfolding connect
connect-Calls (fail n) b c e p v = ground arith
connect-Calls ok (fail n) c e p v = ground (arith, destroy-Calls (record p { handle = true }))
connect-Calls ok ok (fail n) e p v =
    ground (arith, destroy-Calls (calls tcp_connects (record p { handle = true; on_ready = e })))
connect-Calls ok ok ok e p v = ground arith

start_reading-Calls : (b : Bool) (p : TcpPipe) → Calls p → Calls (start_reading b p)
unfolding start_reading
start_reading-Calls b p v = ground arith

fire_on_ready-Calls : (status : Rc) (p : TcpPipe) → Calls p → Calls (fire_on_ready status p)
unfolding fire_on_ready
fire_on_ready-Calls status p v = ground arith

connect_cb-Calls : (a : Rc) (b : Bool) (p : TcpPipe) → Calls p → Calls (connect_cb a b false p)
unfolding connect_cb
connect_cb-Calls ok b p v = fire_on_ready-Calls ok _ (start_reading-Calls b p v)
connect_cb-Calls (fail n) b p v = destroy-Calls _ (fire_on_ready-Calls (fail n) p v)

adopt-Calls : (a b : Bool) (p : TcpPipe) → Calls p → Calls (adopt a b p).1
unfolding adopt
adopt-Calls a b p v = ground (arith, start_reading-Calls b (record p { handle = true }))

read_chunk-Calls :
    (bytes : Bytes) (a : Bool) (p : TcpPipe) → Calls p → Calls (read_chunk bytes a false p)
unfolding read_chunk
read_chunk-Calls bytes false p v = destroy-Calls _ (record {
  can_pause = v.can_pause;
  can_resume = v.can_resume;
  paused = v.paused;
  shut = v.shut;
})
read_chunk-Calls bytes true p v = unfold stop_reading in ground arith

read_cb-Calls : (r : Read) (a : Bool) (p : TcpPipe) → Calls p → Calls (read_cb r a false p)
unfolding read_cb
read_cb-Calls again a p v = v
read_cb-Calls end_of_file a p v = unfold close_stream stop_reading in ground arith
read_cb-Calls error a p v = ground (arith, destroy-Calls p v)
read_cb-Calls (chunk bytes) a p v = ground (arith, read_chunk-Calls bytes a p v)

on_drain-Calls : (n : ℕ) (b : Bool) (p : TcpPipe) → Calls p → Calls (on_drain n b p)
unfolding on_drain resume_reading start_reading
on_drain-Calls n b p v = ground arith

on_stream_data-Calls :
    (bytes : Bytes) (a : Bool) (p : TcpPipe) → Calls p → Calls (on_stream_data bytes a false p)
unfolding on_stream_data pause_stream
on_stream_data-Calls bytes a p v = ground (arith, destroy-Calls (calls (tcp_writes bytes) p))

flush_finished-Calls : (p : TcpPipe) → Calls p → Calls (flush_finished false p)
unfolding flush_finished
flush_finished-Calls p v = ground (arith, destroy-Calls p v)

resumed-Calls :
    (p : TcpPipe) (i n : ℕ)
    → Calls p
    → Calls
        (resume_stream (record p { inflight_writes = i; pending_bytes = n; stream_paused = false }))
unfolding resume_stream
resumed-Calls p i n v = ground arith

write_cb-Calls : (n : ℕ) (a : Rc) (p : TcpPipe) → Calls p → Calls (write_cb n a false p)
unfolding write_cb
write_cb-Calls n a p v =
    let i = p.inflight_writes - 1 in
    let left = reduce p.pending_bytes n in
    let done = recounted p i left p.stream_pending_bytes p.on_ready p.handle v in
    ground (
      arith,
      destroy-Calls _ done,
      flush_finished-Calls _ done,
      flush_finished-Calls _ (resumed-Calls p i left v),
    )

on_stream_close-Calls : (p : TcpPipe) → Calls p → Calls (on_stream_close false p)
unfolding on_stream_close
on_stream_close-Calls p v = ground (arith, flush_finished-Calls (record p { stream_closed = true }))

closed_cb-Calls : (p : TcpPipe) → Calls p → Calls (closed_cb p)
unfolding closed_cb fire_on_destroy
closed_cb-Calls p v = ground arith

next_drain-Calls :
    (b : Bool) (w : World) (ds : List ℕ) → Calls w.pipe → Calls (next_drain b w ds).pipe
unfolding next_drain
next_drain-Calls b w [] v = v
next_drain-Calls b w (n ∷ ds) v = on_drain-Calls n b w.pipe v

next_written-Calls :
    (a : Rc) (w : World) (ws : List ℕ) → Calls w.pipe → Calls (next_written a w ws).pipe
unfolding next_written
next_written-Calls a w [] v = v
next_written-Calls a w (n ∷ ws) v = write_cb-Calls n a w.pipe v

step-Calls : (e : Event) (w : World) → Calls w.pipe → Calls (step e w).pipe
unfolding step
step-Calls (dials a b c d) w v = ground (arith, connect-Calls a b c d w.pipe)
step-Calls (dialled a b) w v = connect_cb-Calls a b w.pipe v
step-Calls (adopts a b) w v = ground (arith, adopt-Calls a b w.pipe)
step-Calls (reads r b) w v = ground (arith, read_cb-Calls r b w.pipe v)
step-Calls (drained b) w v = next_drain-Calls b w w.drains v
step-Calls (stream_data bytes q) w v = on_stream_data-Calls bytes q w.pipe v
step-Calls (written status) w v = next_written-Calls status w w.writes v
step-Calls stream_ends w v = on_stream_close-Calls w.pipe v
step-Calls destroys w v = destroy-Calls w.pipe v
step-Calls handle_closed w v = ground (arith, closed_cb-Calls w.pipe)

start-Calls : Calls start.pipe
unfolding fresh
start-Calls = ground arith

run-Calls : (es : List Event) → Calls (run es start).pipe
run-Calls es = run_inv (λ w. Calls w.pipe) step-Calls es start start-Calls

-- While a pipe lives, its flag says that the stream is paused, and `pause` was the last that the pipe called
-- of the stream's `pause` and `resume`, exactly when at least `kHighWaterMark` bytes are queued toward the
-- local socket.
pub paused_iff_full :
    (es : List Event)
    → (run es start).pipe.destroyed ≡ false
    → ((run es start).pipe.stream_paused ≡ leb high_water_mark (sum (run es start).writes))
      × (holds_stream (run es start).pipe.trace ≡ leb high_water_mark (sum (run es start).writes))
paused_iff_full es h = let e = flag_iff_full es h in (e, (run-Calls es).paused ∙ e)

-- The turn of the close callback, for a pipe that still owes it.
told_then :
    (w : World)
    → w.pipe.handle ≡ true
    → w.pipe.closing ≡ true
    → Owner w.pipe
    → told (step handle_closed w).pipe.trace ≡ 1
unfolding step closed_cb fire_on_destroy
told_then w h c v = ground (arith, v.once, v.late)

-- A destroyed pipe has told its owner and has no handle left; or it has a handle, `uv_close` was called on
-- it exactly once, and the owner is told, for the first time, by the callback of that.
pub owner_told :
    (es : List Event)
    → (run es start).pipe.destroyed ≡ true
    → ((told (run es start).pipe.trace ≡ 1) × ((run es start).pipe.handle ≡ false))
      ⊎ (((run es start).pipe.handle ≡ true)
          × ((closes (run es start).pipe.trace ≡ 1)
              × ((told (run es start).pipe.trace ≡ 0)
                  × (told (step handle_closed (run es start)).pipe.trace ≡ 1))))
owner_told es h =
    let v = run-Owner es in
    let s = (run-Calls es).shut in
    let w = run es start in
    elim (Bool-cases w.pipe.handle) [
      | inl e ↦
          let c = v.dying h e in
          inr (
            e,
            (
              s ∙ ap (λ (b : Bool). if b then 1 else 0) c,
              (ground (arith, v.once, v.late), told_then w e c v),
            ),
          )
      | inr e ↦ inl (ground (arith, v.once, v.settled h e), e)
    ]
