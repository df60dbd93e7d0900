-- ===== src/TcpPipe/Accounting.antt =====
-- The byte counters of a pipe, its flag for backpressure, and its end once everything is flushed.
use holesail_cpp.Base.{
  ℕ, ◌+◌, ◌<◌, leb, Bool, true, false, List, [], ◌∷◌, ◌++◌, length, Bytes, ◌≡◌, refl, ap, ◌∙◌,
  arith, length-append, Bool-cases, inl, inr,
}
use holesail_cpp.Rc.{Rc}
use holesail_cpp.TcpPipe.{
  TcpPipe, fresh, high_water_mark, Read, again, end_of_file, error, chunk, start_reading,
  stop_reading, resume_reading, close_stream, fire_on_destroy, close_handle, destroy, closed_cb,
  flush_finished, connect, adopt, fire_on_ready, connect_cb, read_chunk, read_cb, on_drain,
  pause_stream, resume_stream, on_stream_data, write_cb, on_stream_close,
}
use holesail_cpp.TcpPipe.Life.{Life, step-Life}
use holesail_cpp.TcpPipe.World.{
  World, Event, dials, dialled, adopts, reads, drained, stream_data, written, stream_ends, destroys,
  handle_closed, owed_drain, step, run, start, run_inv, next_drain, next_written,
}

abbrev pub sum : List ℕ → ℕ
sum [] = 0
sum (n ∷ ns) = n + sum ns

sum-append : (xs ys : List ℕ) → sum (xs ++ ys) ≡ sum xs + sum ys
sum-append [] ys = omega arith
sum-append (x ∷ xs) ys = omega (arith, sum-append xs ys)

-- Tearing down leaves the counters and the flags of the two streams alone.
record Same (p q : TcpPipe) : Type 0 where
  pending : q.pending_bytes ≡ p.pending_bytes
  stream_pending : q.stream_pending_bytes ≡ p.stream_pending_bytes
  inflight : q.inflight_writes ≡ p.inflight_writes
  paused : q.stream_paused ≡ p.stream_paused
  closed : q.stream_closed ≡ p.stream_closed

start_reading-Same : (b : Bool) (p : TcpPipe) → Same p (start_reading b p)
unfolding start_reading
start_reading-Same b p = ground arith

stop_reading-Same : (p : TcpPipe) → Same p (stop_reading p)
unfolding stop_reading
stop_reading-Same p = ground arith

start_reading-destroyed : (b : Bool) (p : TcpPipe) → (start_reading b p).destroyed ≡ p.destroyed
unfolding start_reading
start_reading-destroyed b p = ground arith

stop_reading-destroyed : (p : TcpPipe) → (stop_reading p).destroyed ≡ p.destroyed
unfolding stop_reading
stop_reading-destroyed p = ground arith

destroy-Same : (b : Bool) (p : TcpPipe) → Same p (destroy b p)
unfolding destroy close_handle close_stream stop_reading fire_on_destroy
destroy-Same b p = ground arith

pub destroy-destroyed : (b : Bool) (p : TcpPipe) → (destroy b p).destroyed ≡ true
unfolding destroy close_handle close_stream stop_reading fire_on_destroy
destroy-destroyed b p = ground arith

-- The counters against what is owed, and backpressure while the pipe lives.
pub record Counts (w : World) : Type 0 where
  pub inflight : w.pipe.inflight_writes ≡ length w.writes
  pub pending : w.pipe.pending_bytes ≡ sum w.writes
  pub stream_pending : w.pipe.stream_pending_bytes ≡ sum w.drains
  pub paused :
      w.pipe.destroyed ≡ false → w.pipe.stream_paused ≡ leb high_water_mark w.pipe.pending_bytes
  pub flushed : w.pipe.destroyed ≡ false → w.pipe.stream_closed ≡ true → 0 < w.pipe.inflight_writes

dials-Counts : (a b c : Rc) (d : Bool) (w : World) → Counts w → Counts (step (dials a b c d) w)
unfolding step connect
dials-Counts a b c d w v = grind (arith, destroy-Same, destroy-destroyed)

dialled-Counts : (a : Rc) (b : Bool) (w : World) → Counts w → Counts (step (dialled a b) w)
unfolding step connect_cb fire_on_ready
dialled-Counts a b w v =
    grind (arith, destroy-Same, destroy-destroyed, start_reading-Same, start_reading-destroyed)

adopts-Counts : (a b : Bool) (w : World) → Counts w → Counts (step (adopts a b) w)
unfolding step adopt
adopts-Counts a b w v = grind (arith, start_reading-Same, start_reading-destroyed)

read_chunk-Counts :
    (bytes : Bytes) (accepted : Bool) (w : World)
    → Counts w
    → Counts (record w {
      pipe = read_chunk bytes accepted false w.pipe;
      drains = owed_drain (chunk bytes) accepted w.drains;
    })
unfolding read_chunk
read_chunk-Counts bytes accepted w v = grind (
  arith,
  destroy-Same,
  destroy-destroyed,
  stop_reading-Same,
  stop_reading-destroyed,
  sum-append w.drains (length bytes ∷ []),
)

reads-Counts :
    (r : Read) (accepted : Bool) (w : World)
    → Life w.pipe
    → Counts w
    → Counts (step (reads r accepted) w)
unfolding step read_cb close_stream
reads-Counts again accepted w l v = ground arith
reads-Counts end_of_file accepted w l v = grind (arith, stop_reading-Same, stop_reading-destroyed)
reads-Counts error accepted w l v = grind (arith, destroy-Same, destroy-destroyed)
reads-Counts (chunk bytes) accepted w l v =
    ground (arith, l.alive, read_chunk-Counts bytes accepted w v)

next_drain-Counts :
    (b : Bool) (w : World) (ds : List ℕ) → w.drains ≡ ds → Counts w → Counts (next_drain b w ds)
unfolding next_drain on_drain resume_reading start_reading
next_drain-Counts b w [] e v = v
next_drain-Counts b w (n ∷ ds) e v = let s = v.stream_pending ∙ ap sum e in ground (arith, s)

stream_data-Counts :
    (bytes : Bytes) (q : Bool) (w : World) → Counts w → Counts (step (stream_data bytes q) w)
unfolding step on_stream_data pause_stream
stream_data-Counts bytes q w v = grind (
  arith,
  destroy-Same,
  destroy-destroyed,
  sum-append w.writes (length bytes ∷ []),
  length-append w.writes (length bytes ∷ []),
)

next_written-Counts :
    (a : Rc) (w : World) (ws : List ℕ) → w.writes ≡ ws → Counts w → Counts (next_written a w ws)
unfolding next_written write_cb flush_finished resume_stream
next_written-Counts a w [] e v = v
next_written-Counts a w (n ∷ ws) e v =
    let s = v.pending ∙ ap sum e in
    let l = v.inflight ∙ ap length e in grind (arith, destroy-Same, destroy-destroyed)

stream_ends-Counts : (w : World) → Counts w → Counts (step stream_ends w)
unfolding step on_stream_close flush_finished
stream_ends-Counts w v = grind (arith, destroy-Same, destroy-destroyed)

destroys-Counts : (w : World) → Counts w → Counts (step destroys w)
unfolding step
destroys-Counts w v = grind (arith, destroy-Same, destroy-destroyed)

handle_closed-Counts : (w : World) → Counts w → Counts (step handle_closed w)
unfolding step closed_cb fire_on_destroy
handle_closed-Counts w v = ground arith

step-Counts : (e : Event) (w : World) → Life w.pipe → Counts w → Counts (step e w)
step-Counts (dials a b c d) w l v = dials-Counts a b c d w v
step-Counts (dialled a b) w l v = dialled-Counts a b w v
step-Counts (adopts a b) w l v = adopts-Counts a b w v
step-Counts (reads r b) w l v = reads-Counts r b w l v
step-Counts (drained b) w l v = unfold step in next_drain-Counts b w w.drains refl v
step-Counts (stream_data bytes q) w l v = stream_data-Counts bytes q w v
step-Counts (written a) w l v = unfold step in next_written-Counts a w w.writes refl v
step-Counts stream_ends w l v = stream_ends-Counts w v
step-Counts destroys w l v = destroys-Counts w v
step-Counts handle_closed w l v = handle_closed-Counts w v

abbrev pub Inv : World → Type 0
Inv w = Life w.pipe × Counts w

step-Inv : (e : Event) (w : World) → Inv w → Inv (step e w)
step-Inv e w (l, v) = (step-Life e w l, step-Counts e w l v)

start-Inv : Inv start
unfolding fresh
start-Inv = ground arith

pub run-Inv : (es : List Event) → Inv (run es start)
run-Inv es = run_inv Inv step-Inv es start start-Inv

-- After any history of a pipe the number and the bytes of its queued writes, and the bytes that the
-- stream has not yet acknowledged, are what the counters say.
pub counters_exact :
    (es : List Event)
    → ((run es start).pipe.inflight_writes ≡ length (run es start).writes)
      × ((run es start).pipe.pending_bytes ≡ sum (run es start).writes)
      × ((run es start).pipe.stream_pending_bytes ≡ sum (run es start).drains)
counters_exact es = let v = (run-Inv es).1 in (v.inflight, v.pending, v.stream_pending)

pub flag_iff_full :
    (es : List Event)
    → (run es start).pipe.destroyed ≡ false
    → (run es start).pipe.stream_paused ≡ leb high_water_mark (sum (run es start).writes)
flag_iff_full es h = let v = (run-Inv es).1 in v.paused h ∙ ap (leb high_water_mark) v.pending

-- Once the stream has closed and every queued write is done, the pipe is destroyed.
pub closes_when_drained :
    (es : List Event)
    → (run es start).pipe.stream_closed ≡ true
    → (run es start).writes ≡ []
    → (run es start).pipe.destroyed ≡ true
closes_when_drained es h e =
    let v = (run-Inv es).1 in
    let none_left = v.inflight ∙ ap length e in
    elim (Bool-cases (run es start).pipe.destroyed) [
      | inl d ↦ d
      | inr d ↦ absurd (omega (arith, none_left, v.flushed d h))
    ]
