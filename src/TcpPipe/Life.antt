-- ===== src/TcpPipe/Life.antt =====
-- The life of a pipe: reading only while alive, closing only once destroyed, and the owner told
-- exactly once.
use holesail_cpp.Base.{ℕ, Bool, true, false, List, [], ◌∷◌, Bytes, ◌≡◌, arith, Bool-cases, inl, inr}
use holesail_cpp.Rc.{Rc, ok, fail}
use holesail_cpp.TcpPipe.{
  TcpPipe, tcp_connects, tcp_writes, calls, Read, again, end_of_file, error, chunk, start_reading,
  stop_reading, resume_reading, close_stream, fire_on_destroy, close_handle, destroy, closed_cb,
  flush_finished, connect, adopt, fire_on_ready, connect_cb, read_chunk, read_cb, on_drain,
  pause_stream, resume_stream, on_stream_data, write_cb, on_stream_close,
}
use holesail_cpp.TcpPipe.World.{
  World, Event, dials, dialled, adopts, reads, drained, stream_data, written, stream_ends, destroys,
  handle_closed, step, next_drain, next_written,
}

-- What holds between the flags of a pipe.
pub record Life (p : TcpPipe) : Type 0 where
  pub alive : p.reading ≡ true → p.destroyed ≡ false
  pub attached : p.reading ≡ true → p.handle ≡ true
  pub dying : p.closing ≡ true → p.destroyed ≡ true

pub start_reading-Life : (b : Bool) (p : TcpPipe) → Life p → Life (start_reading b p)
unfolding start_reading
start_reading-Life b p v = ground arith

pub stop_reading-Life : (p : TcpPipe) → Life p → Life (stop_reading p)
unfolding stop_reading
stop_reading-Life p v = ground arith

pub destroy-Life : (b : Bool) (p : TcpPipe) → Life p → Life (destroy b p)
unfolding destroy close_handle close_stream stop_reading fire_on_destroy
destroy-Life b p v = ground arith

fire_on_ready-Life : (status : Rc) (p : TcpPipe) → Life p → Life (fire_on_ready status p)
unfolding fire_on_ready
fire_on_ready-Life status p v = ground arith

connect-Life :
    (a b c : Rc) (d e : Bool) (p : TcpPipe)
    → p.handle ≡ false
    → Life p
    → Life (connect a b c d e p).1
unfolding connect
connect-Life (fail n) b c d e p h v = ground arith
connect-Life ok (fail n) c d e p h v = ground (arith, destroy-Life d (record p { handle = true }))
connect-Life ok ok (fail n) d e p h v =
    ground (arith, destroy-Life d (calls tcp_connects (record p { handle = true; on_ready = e })))
connect-Life ok ok ok d e p h v = ground arith

connect_cb-Life : (a : Rc) (b c : Bool) (p : TcpPipe) → Life p → Life (connect_cb a b c p)
unfolding connect_cb
connect_cb-Life ok b c p v = fire_on_ready-Life ok _ (start_reading-Life b p v)
connect_cb-Life (fail n) b c p v = destroy-Life c _ (fire_on_ready-Life (fail n) p v)

adopt-Life : (a b : Bool) (p : TcpPipe) → Life p → Life (adopt a b p).1
unfolding adopt
adopt-Life a b p v = ground (arith, start_reading-Life b (record p { handle = true }))

read_cb-Life : (r : Read) (a b : Bool) (p : TcpPipe) → Life p → Life (read_cb r a b p)
unfolding read_cb
read_cb-Life again a b p v = v
read_cb-Life end_of_file a b p v = unfold close_stream stop_reading in ground arith
read_cb-Life error a b p v = ground (arith, destroy-Life b p v)
read_cb-Life (chunk bytes) a b p v = unfold read_chunk stop_reading in grind (arith, destroy-Life)

on_drain-Life : (n : ℕ) (b : Bool) (p : TcpPipe) → Life p → Life (on_drain n b p)
unfolding on_drain resume_reading start_reading
on_drain-Life n b p v = ground arith

on_stream_data-Life :
    (bytes : Bytes) (a b : Bool) (p : TcpPipe) → Life p → Life (on_stream_data bytes a b p)
unfolding on_stream_data pause_stream
on_stream_data-Life bytes a b p v = ground (arith, destroy-Life b (calls (tcp_writes bytes) p))

flush_finished-Life : (b : Bool) (p : TcpPipe) → Life p → Life (flush_finished b p)
unfolding flush_finished
flush_finished-Life b p v = ground (arith, destroy-Life b p v)

write_cb-Life : (n : ℕ) (a : Rc) (b : Bool) (p : TcpPipe) → Life p → Life (write_cb n a b p)
unfolding write_cb resume_stream
write_cb-Life n (fail e) b p v =
    destroy-Life b _ (record { alive = v.alive; attached = v.attached; dying = v.dying })
write_cb-Life n ok b p v = grind (arith, flush_finished-Life)

on_stream_close-Life : (b : Bool) (p : TcpPipe) → Life p → Life (on_stream_close b p)
unfolding on_stream_close
on_stream_close-Life b p v =
    ground (arith, flush_finished-Life b (record p { stream_closed = true }))

closed_cb-Life : (p : TcpPipe) → p.closing ≡ true → Life p → Life (closed_cb p)
unfolding closed_cb fire_on_destroy
closed_cb-Life p h v = ground arith

next_drain-Life : (b : Bool) (w : World) (ds : List ℕ) → Life w.pipe → Life (next_drain b w ds).pipe
unfolding next_drain
next_drain-Life b w [] v = v
next_drain-Life b w (n ∷ ds) v = on_drain-Life n b w.pipe v

next_written-Life :
    (a : Rc) (w : World) (ws : List ℕ) → Life w.pipe → Life (next_written a w ws).pipe
unfolding next_written
next_written-Life a w [] v = v
next_written-Life a w (n ∷ ws) v = write_cb-Life n a false w.pipe v

-- Every event keeps the flags consistent.
pub step-Life : (e : Event) (w : World) → Life w.pipe → Life (step e w).pipe
unfolding step
step-Life (dials a b c d) w v = elim (Bool-cases w.pipe.handle) [
  | inl e ↦ simp e v
  | inr e ↦ simp e (connect-Life a b c false d w.pipe e v)
]
step-Life (dialled a b) w v = connect_cb-Life a b false w.pipe v
step-Life (adopts a b) w v = ground (arith, adopt-Life a b w.pipe v)
step-Life (reads r b) w v = ground (arith, read_cb-Life r b false w.pipe v)
step-Life (drained b) w v = next_drain-Life b w w.drains v
step-Life (stream_data bytes q) w v = on_stream_data-Life bytes q false w.pipe v
step-Life (written status) w v = next_written-Life status w w.writes v
step-Life stream_ends w v = on_stream_close-Life false w.pipe v
step-Life destroys w v = destroy-Life false w.pipe v
step-Life handle_closed w v = ground (arith, closed_cb-Life w.pipe)
