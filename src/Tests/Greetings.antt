-- ===== src/Tests/Greetings.antt =====
-- Tests of an inbound TCP connection with its pipe: what the local service says before the stream is open.
use holesail_cpp.Base.{
  ℕ, zero, suc, ◌≤◌, ◌++◌, List, [], ◌∷◌, Bytes, codes, All, length, length-append, concat, true,
  ◌≡◌, refl, arith, inl, inr, ap,
}
use holesail_cpp.Rc.{ok}
use holesail_cpp.TcpPipe.{
  chunk, connect, connect_cb, start_reading, fire_on_ready, fresh, read_cb, read_chunk, on_drain,
  resume_reading,
}
use holesail_cpp.TcpPipe.World
use holesail_cpp.TcpPipe.World.{scratch_size}
use holesail_cpp.Server.Conn.{
  new_conn, side_write, write_early, write_open, stream_open_cb, flush_pending, release_drains,
}
use holesail_cpp.Server.Conn.Greeting.{
  Event, reads, opens, start, step, run, read, deliver_drains, fire_all, handed,
}
use holesail_cpp.Server.Conn.Greeting.Kept.{Accepted, Modest, greeting_kept}
use holesail_cpp.Server.Conn.Greeting.Early.{dialling, reading_all}
use holesail_cpp.Server.Conn.Greeting.Lost.{Torn, greeting_lost}

-- A service that greets before the stream is open, and says more afterwards.
abbrev greeting : List Event
greeting =
    dialling ++ (reads (chunk (codes "hi")) ok ∷ opens ok true ∷ reads (chunk (codes "!")) ok ∷ [])

greeting-Accepted : Accepted greeting
greeting-Accepted = tt

greeting-Modest : Modest greeting start
unfolding start step read deliver_drains fire_all World.step connect connect_cb start_reading
    fire_on_ready new_conn fresh side_write write_early write_open stream_open_cb flush_pending
    release_drains read_cb read_chunk on_drain resume_reading
greeting-Modest = (
  inr (omega arith),
  (inr (omega arith), (inr (omega arith), (inr (omega arith), (inl refl, tt)))),
)

greeting_kept_example :
    (run greeting start).conn.wire ++ (run greeting start).conn.pending
    ≡ handed (run greeting start).world.pipe.trace
greeting_kept_example = greeting_kept greeting greeting-Accepted greeting-Modest

-- A long run of one byte.
unfoldable block : ℕ → Bytes
block zero = []
block (suc n) = 120 ∷ block n

length-block : (n : ℕ) → length (block n) ≡ n
unfolding block
length-block zero = refl
length-block (suc n) = ap suc (length-block n)

block-fits : length (block scratch_size) ≤ scratch_size
block-fits = omega (arith, length-block scratch_size)

-- One short read before full ones: the fifth passes the cap.
abbrev chunks : List Bytes
chunks = block 1 ∷ block scratch_size ∷ block scratch_size ∷ block scratch_size ∷ []

chunks_fit : All (λ c. length c ≤ scratch_size) chunks
chunks_fit = (omega (arith, length-block 1), (block-fits, (block-fits, (block-fits, tt))))

length-chunks : length (concat chunks) ≡ 196609
length-chunks =
    let b = block scratch_size in
    let n = length-block scratch_size in
    omega (
      arith,
      length-block 1,
      n,
      length-append (block 1) (b ++ (b ++ (b ++ []))),
      length-append b (b ++ (b ++ [])),
      length-append b (b ++ []),
      length-append b [],
    )

greeting_lost_example : Torn (concat chunks) (block scratch_size) (
    run
      (dialling ++ reading_all chunks (reads (chunk (block scratch_size)) ok ∷ opens ok true ∷ []))
      start)
greeting_lost_example =
    greeting_lost chunks (block scratch_size) true chunks_fit block-fits
      (omega (arith, length-chunks)) (omega (arith, length-chunks, length-block scratch_size))
