-- ===== src/Server/Conn/Greeting/Lost.antt =====
-- What the local service says before the stream is open is lost past the cap of the buffer, though the
-- pipe bounds what is in flight by the same number: it stops reading only behind the chunk that passes it.
use holesail_cpp.Base.{
  ℕ, ◌+◌, ◌≤◌, ◌<◌, Bool, true, false, not, ◌||◌, List, [], ◌∷◌, ◌++◌, append-nil, length, concat,
  All, Bytes, ◌≡◌, refl, sym, ap, subst, ◌∙◌, arith, else_branch,
}
use holesail_cpp.Rc.{ok}
use holesail_cpp.TcpPipe.{TcpPipe, chunk, on_drain, resume_reading, start_reading, stop_reading}
use holesail_cpp.TcpPipe.World.{scratch_size}
use holesail_cpp.Server.Conn.{
  max_pending_bytes, Conn, release_drains, flush_pending, stream_open_cb,
}
use holesail_cpp.Server.Conn.Greeting.{
  Joined, start, fire_all, deliver_drains, read, reads, opens, step, run, handed,
}
use holesail_cpp.Server.Conn.Greeting.Handed.{Mute, fire_all-Mute}
use holesail_cpp.Server.Conn.Greeting.Early.{
  Early, dialling, dialled-Early, step-read, counting, write_drops, read_cb_full, read_by,
  reading_all, run-reading_all,
}

-- The chunk that passes the cap is handed to the stream and dropped there.
record Lost (said bytes : Bytes) (j : Joined) : Type 0 where
  alive : (j.world).pipe.destroyed ≡ false
  shut : (j.conn).stream_open ≡ false
  living : (j.conn).stream ≡ true
  nothing_out : (j.conn).wire ≡ []
  buffered : (j.conn).pending ≡ said
  handed_over : handed (j.world).pipe.trace ≡ said ++ bytes

stopping : (p : TcpPipe) → ((stop_reading p).destroyed ≡ p.destroyed) × Mute p (stop_reading p)
unfolding stop_reading
stopping p = ground arith

read-Lost :
    (bytes said : Bytes) (j : Joined)
    → Early said j
    → max_pending_bytes < length said + length bytes
    → Lost said bytes (read (chunk bytes) ok j)
read-Lost bytes said j v past =
    let n = ap length v.buffered in
    let made =
      read_by bytes j j.conn (stop_reading (counting bytes (j.world).pipe))
        (write_drops bytes j.conn v.shut (ground (arith, past, n)))
        (read_cb_full bytes (j.world).pipe v.alive (ground (arith, past, v.counted))) in
    let (stays, mute) = stopping (counting bytes (j.world).pipe) in
    subst (Lost said bytes) (sym made) (record {
      alive = stays ∙ v.alive;
      shut = v.shut;
      living = v.living;
      nothing_out = v.nothing_out;
      buffered = v.buffered;
      handed_over = mute ∙ ap (λ t. t ++ bytes) v.handed_over;
    })

flushed :
    (bytes : Bytes) (c : Conn)
    → c.pending ≡ bytes
    → ((flush_pending bytes ok (record c { stream_open = true })).wire ≡ c.wire ++ bytes)
      × (((flush_pending bytes ok (record c { stream_open = true })).pending ≡ [])
          × ((flush_pending bytes ok (record c { stream_open = true })).stream_open ≡ true))
unfolding flush_pending release_drains
flushed [] c e = (sym (append-nil c.wire), (e, refl))
flushed (b ∷ bytes) c e = (refl, (refl, refl))

on_drain-destroyed : (n : ℕ) (b : Bool) (p : TcpPipe) → (on_drain n b p).destroyed ≡ p.destroyed
unfolding on_drain resume_reading start_reading
on_drain-destroyed n b p = ground arith

fire_all-destroyed :
    (b : Bool) (ds : List ℕ) (p : TcpPipe) → (fire_all b ds p).destroyed ≡ p.destroyed
unfolding fire_all
fire_all-destroyed b [] p = refl
fire_all-destroyed b (d ∷ ds) p =
    fire_all-destroyed b ds (on_drain d b p) ∙ on_drain-destroyed d b p

-- A living pipe has handed `said` and then `lost` to an open stream, which took only `said`.
pub record Torn (said lost : Bytes) (j : Joined) : Type 0 where
  pub alive : (j.world).pipe.destroyed ≡ false
  pub opened : (j.conn).stream_open ≡ true
  pub wire : (j.conn).wire ≡ said
  pub buffered : (j.conn).pending ≡ []
  pub handed_over : handed (j.world).pipe.trace ≡ said ++ lost

opens-Torn :
    (started : Bool) (said lost : Bytes) (j : Joined)
    → Lost said lost j
    → Torn said lost (step (opens ok started) j)
unfolding step stream_open_cb deliver_drains
opens-Torn started said lost j v =
    let guard : (j.conn).stream_open || not (j.conn).stream ≡ false =
      ground (arith, v.shut, v.living) in
    let (w, (p, o)) = flushed (j.conn).pending j.conn refl in
    else_branch (Torn said lost) _ j _ guard (record {
      alive = fire_all-destroyed started _ (j.world).pipe ∙ v.alive;
      opened = o;
      wire = w ∙ ap (λ t. t ++ (j.conn).pending) v.nothing_out ∙ v.buffered;
      buffered = p;
      handed_over = fire_all-Mute started _ (j.world).pipe ∙ v.handed_over;
    })

-- Let the local service greet a client before the stream is open, in reads of at most 64 KiB: first `cs`,
-- less than the cap in all, and then a read `b` that passes the cap. The pipe, which counts up to the same
-- cap, still reads `b` and is told that the stream took it; once the stream is open it has `cs` and not
-- `b`, nothing waits any more and the pipe lives on, so that whatever it reads next follows a gap.
pub greeting_lost :
    (cs : List Bytes) (b : Bytes) (started : Bool)
    → All (λ c. length c ≤ scratch_size) cs
    → length b ≤ scratch_size
    → length (concat cs) < max_pending_bytes
    → max_pending_bytes < length (concat cs) + length b
    → Torn
        (concat cs)
        b
        (run (dialling ++ reading_all cs (reads (chunk b) ok ∷ opens ok started ∷ [])) start)
unfolding run
greeting_lost cs b started small last below past =
    let rest = reads (chunk b) ok ∷ opens ok started ∷ [] in
    let (k, (e, v)) =
      run-reading_all cs rest [] (run dialling start) small (omega (arith, below)) dialled-Early in
    let over = read-Lost b (concat cs) k v past in
    let seen : run rest k ≡ step (opens ok started) (read (chunk b) ok k) =
      ap (step (opens ok started)) (step-read b (concat cs) k v last) in
    subst (Torn (concat cs) b) (sym (e ∙ seen))
      (opens-Torn started (concat cs) b (read (chunk b) ok k) over)
