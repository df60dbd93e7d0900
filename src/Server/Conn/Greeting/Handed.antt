-- ===== src/Server/Conn/Greeting/Handed.antt =====
-- What the operations of a pipe hand to the stream: a read its bytes, every other nothing.
use holesail_cpp.Base.{ℕ, Bool, true, false, List, [], ◌∷◌, ◌++◌, Bytes, ◌≡◌, refl, ◌∙◌, arith}
use holesail_cpp.Rc.{Rc}
use holesail_cpp.TcpPipe.{
  TcpPipe, Read, again, end_of_file, error, chunk, read_cb, read_chunk, on_drain, on_stream_close,
  start_reading, stop_reading, resume_reading, close_stream, close_handle, fire_on_destroy, destroy,
  flush_finished, connect, connect_cb, adopt, fire_on_ready, on_stream_data, write_cb, pause_stream,
  resume_stream, closed_cb,
}
use holesail_cpp.TcpPipe.World
use holesail_cpp.TcpPipe.World.{World, fits}
use holesail_cpp.Server.Conn.Greeting.{fire_all, is_local, handed}

-- An operation of the pipe that hands nothing to the stream.
abbrev pub Mute : TcpPipe → TcpPipe → Type 0
Mute p q = handed q.trace ≡ handed p.trace

pub start_reading-Mute : (b : Bool) (p : TcpPipe) → Mute p (start_reading b p)
unfolding start_reading
start_reading-Mute b p = ground arith

pub stop_reading-Mute : (p : TcpPipe) → Mute p (stop_reading p)
unfolding stop_reading
stop_reading-Mute p = ground arith

pub destroy-Mute : (b : Bool) (p : TcpPipe) → Mute p (destroy b p)
unfolding destroy close_handle close_stream stop_reading fire_on_destroy
destroy-Mute b p = ground arith

pub fire_on_ready-Mute : (a : Rc) (p : TcpPipe) → Mute p (fire_on_ready a p)
unfolding fire_on_ready
fire_on_ready-Mute a p = ground arith

pub connect-Mute : (a b c : Rc) (d e : Bool) (p : TcpPipe) → Mute p (connect a b c d e p).1
unfolding connect
connect-Mute a b c d e p = grind (arith, destroy-Mute)

pub connect_cb-Mute : (a : Rc) (b c : Bool) (p : TcpPipe) → Mute p (connect_cb a b c p)
unfolding connect_cb
connect_cb-Mute a b c p = grind (arith, destroy-Mute, start_reading-Mute, fire_on_ready-Mute)

pub adopt-Mute : (a b : Bool) (p : TcpPipe) → Mute p (adopt a b p).1
unfolding adopt
adopt-Mute a b p = grind (arith, start_reading-Mute)

pub on_stream_data-Mute :
    (bytes : Bytes) (b c : Bool) (p : TcpPipe) → Mute p (on_stream_data bytes b c p)
unfolding on_stream_data pause_stream
on_stream_data-Mute bytes b c p = grind (arith, destroy-Mute)

pub flush_finished-Mute : (b : Bool) (p : TcpPipe) → Mute p (flush_finished b p)
unfolding flush_finished
flush_finished-Mute b p = grind (arith, destroy-Mute)

pub write_cb-Mute : (n : ℕ) (a : Rc) (b : Bool) (p : TcpPipe) → Mute p (write_cb n a b p)
unfolding write_cb resume_stream
write_cb-Mute n a b p = grind (arith, destroy-Mute, flush_finished-Mute)

pub next_written-Mute :
    (a : Rc) (w : World) (ws : List ℕ) → Mute w.pipe (World.next_written a w ws).pipe
unfolding World.next_written
next_written-Mute a w [] = refl
next_written-Mute a w (n ∷ ws) = write_cb-Mute n a false w.pipe

pub closed_cb-Mute : (p : TcpPipe) → Mute p (closed_cb p)
unfolding closed_cb fire_on_destroy
closed_cb-Mute p = ground arith

-- The events of World that are not about the stream hand nothing to it.
pub local-Mute :
    (e : World.Event) (w : World) → is_local e ≡ true → Mute w.pipe (World.step e w).pipe
unfolding World.step
local-Mute (World.dials a b c d) w h = ground (arith, connect-Mute a b c false d w.pipe)
local-Mute (World.dialled a b) w h = connect_cb-Mute a b false w.pipe
local-Mute (World.adopts a b) w h = ground (arith, adopt-Mute a b w.pipe)
local-Mute (World.reads r accepted) w h = absurd (cc)
local-Mute (World.drained started) w h = absurd (cc)
local-Mute (World.stream_data bytes queued) w h = on_stream_data-Mute bytes queued false w.pipe
local-Mute (World.written a) w h = next_written-Mute a w w.writes
local-Mute World.stream_ends w h = absurd (cc)
local-Mute World.destroys w h = destroy-Mute false w.pipe
local-Mute World.handle_closed w h = ground (arith, closed_cb-Mute w.pipe)

pub on_drain-Mute : (n : ℕ) (b : Bool) (p : TcpPipe) → Mute p (on_drain n b p)
unfolding on_drain resume_reading
on_drain-Mute n b p = grind (arith, start_reading-Mute)

pub fire_all-Mute : (b : Bool) (ds : List ℕ) (p : TcpPipe) → Mute p (fire_all b ds p)
unfolding fire_all
fire_all-Mute b [] p = refl
fire_all-Mute b (d ∷ ds) p = fire_all-Mute b ds (on_drain d b p) ∙ on_drain-Mute d b p

pub on_stream_close-Mute : (b : Bool) (p : TcpPipe) → Mute p (on_stream_close b p)
unfolding on_stream_close
on_stream_close-Mute b p = grind (arith, flush_finished-Mute)

-- A read of a living pipe hands over exactly its bytes.
pub read_cb-handed :
    (bytes : Bytes) (accepted : Bool) (p : TcpPipe)
    → p.destroyed ≡ false
    → handed (read_cb (chunk bytes) accepted false p).trace ≡ handed p.trace ++ bytes
unfolding read_cb read_chunk
read_cb-handed bytes accepted p h = grind (arith, destroy-Mute, stop_reading-Mute)

pub read_other-Mute :
    (r : Read) (p : TcpPipe)
    → fits r ≡ true
    → ((bytes : Bytes) → r ≡ chunk bytes → ⊥)
    → Mute p (read_cb r true false p)
unfolding read_cb close_stream
read_other-Mute again p f h = refl
read_other-Mute end_of_file p f h = grind (arith, stop_reading-Mute)
read_other-Mute error p f h = grind (arith, destroy-Mute)
read_other-Mute (chunk bytes) p f h = absurd (h bytes refl)
