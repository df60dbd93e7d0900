-- ===== src/TcpPipe/Gone.antt =====
-- What the owner of a pipe may rely on: it is told once and for all.
use holesail_cpp.Base.{ℕ, Bool, true, false, not, Option, none, some, List, [], ◌∷◌, ◌≡◌, arith}
use holesail_cpp.Rc.{Rc, ok, fail}
use holesail_cpp.TcpPipe.{
  TcpPipe, Read, again, end_of_file, error, chunk, fresh, start_reading, resume_reading, destroy,
  flush_finished, connect, adopt, fire_on_ready, connect_cb, read_cb, on_drain, resume_stream,
  on_stream_data, write_cb, on_stream_close,
}
use holesail_cpp.TcpPipe.World.{
  World, Event, dials, dialled, adopts, reads, drained, stream_data, written, stream_ends, destroys,
  handle_closed, step, next_drain, next_written,
}
use holesail_cpp.TcpPipe.Teardown.{Owner}

-- A pipe that has told its owner.
pub record Gone (p : TcpPipe) : Type 0 where
  pub destroyed : p.destroyed ≡ true
  pub handle : p.handle ≡ false
  pub told : p.on_destroy ≡ false

start_reading-Gone : (b : Bool) (p : TcpPipe) → Gone p → Gone (start_reading b p)
unfolding start_reading
start_reading-Gone b p g = ground arith

fire_on_ready-Gone : (a : Rc) (p : TcpPipe) → Gone p → Gone (fire_on_ready a p)
unfolding fire_on_ready
fire_on_ready-Gone a p g = ground arith

destroy-Gone : (p : TcpPipe) → Gone p → Gone (destroy false p)
unfolding destroy
destroy-Gone p g = ground arith

flush_finished-Gone : (p : TcpPipe) → Gone p → Gone (flush_finished false p)
unfolding flush_finished
flush_finished-Gone p g = ground (arith, destroy-Gone p g)

resume_stream-Gone : (p : TcpPipe) → Gone p → Gone (resume_stream p)
unfolding resume_stream
resume_stream-Gone p g = ground arith

write_cb-Gone : (n : ℕ) (a : Rc) (p : TcpPipe) → Gone p → Gone (write_cb n a false p)
unfolding write_cb
write_cb-Gone n (fail e) p g =
    destroy-Gone _ (record { destroyed = g.destroyed; handle = g.handle; told = g.told })
write_cb-Gone n ok p g = grind (arith, flush_finished-Gone, resume_stream-Gone)

next_drain-Gone : (b : Bool) (w : World) (ds : List ℕ) → Gone w.pipe → Gone (next_drain b w ds).pipe
unfolding next_drain on_drain resume_reading
next_drain-Gone b w [] g = g
next_drain-Gone b w (n ∷ ds) g = ground arith

next_written-Gone :
    (a : Rc) (w : World) (ws : List ℕ) → Gone w.pipe → Gone (next_written a w ws).pipe
unfolding next_written
next_written-Gone a w [] g = g
next_written-Gone a w (n ∷ ws) g = write_cb-Gone n a w.pipe g

read_cb-Gone : (r : Read) (a : Bool) (p : TcpPipe) → Gone p → Gone (read_cb r a false p)
unfolding read_cb
read_cb-Gone again a p g = g
read_cb-Gone end_of_file a p g = ground arith
read_cb-Gone error a p g = ground arith
read_cb-Gone (chunk bytes) a p g = ground arith

-- No event brings a pipe back that has told its owner.
pub step-Gone : (e : Event) (w : World) → Gone w.pipe → Gone (step e w).pipe
unfolding step
step-Gone (dials a b c d) w g = unfold connect in ground arith
step-Gone (dialled ok b) w g =
    unfold connect_cb in fire_on_ready-Gone ok _ (start_reading-Gone b w.pipe g)
step-Gone (dialled (fail n) b) w g =
    unfold connect_cb in destroy-Gone _ (fire_on_ready-Gone (fail n) w.pipe g)
step-Gone (adopts a b) w g = unfold adopt in ground arith
step-Gone (reads r b) w g = ground (arith, read_cb-Gone r b w.pipe g)
step-Gone (drained b) w g = next_drain-Gone b w w.drains g
step-Gone (stream_data bytes q) w g = unfold on_stream_data in ground arith
step-Gone (written status) w g = next_written-Gone status w w.writes g
step-Gone stream_ends w g = unfold on_stream_close in ground arith
step-Gone destroys w g = destroy-Gone w.pipe g
step-Gone handle_closed w g = ground arith

pub Owner-Gone : (p : TcpPipe) → Owner p → p.on_destroy ≡ false → Gone p
Owner-Gone p v e = ground arith

-- The pipe of an owner, and whether it has noted (`done`) that the pipe has told its owner.
abbrev pub Piped : Option World → Bool → Type 0
Piped none done = done ≡ false
Piped (some w) done = Owner w.pipe × (done ≡ not w.pipe.on_destroy)

pub fresh-Owner : (started : Bool) → Owner (adopt true started fresh).1
unfolding adopt start_reading fresh
fresh-Owner true = ground arith
fresh-Owner false = ground arith
