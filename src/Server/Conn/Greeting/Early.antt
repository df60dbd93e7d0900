-- ===== src/Server/Conn/Greeting/Early.antt =====
-- Reads of a pipe whose stream is not open yet, as long as the connection has room for them.
use holesail_cpp.Base.{
  ◌+◌, ◌≤◌, ◌<◌, ltb, leb, true, false, not, ◌&&◌, some, List, [], ◌∷◌, ◌++◌, append_assoc,
  append-nil, length, length-append, concat, All, Bytes, ◌≡◌, refl, sym, ap, subst, ◌∙◌, arith,
  then_branch, else_branch,
}
use holesail_cpp.Rc.{Rc, ok, is_ok}
use holesail_cpp.TcpPipe.{
  TcpPipe, stream_writes, chunk, read_cb, read_chunk, start_reading, stop_reading, connect,
  connect_cb, fire_on_ready, fresh, stream_high_water_mark,
}
use holesail_cpp.TcpPipe.World
use holesail_cpp.TcpPipe.World.{World, fits, scratch_size}
use holesail_cpp.Server.Conn.{max_pending_bytes, Conn, new_conn, write_early, side_write}
use holesail_cpp.Server.Conn.Greeting.{
  Joined, start, read, Event, reads, happens, step, run, handed,
}

-- A pipe that reads while the stream is not open yet, and has lost nothing so far.
pub record Early (said : Bytes) (j : Joined) : Type 0 where
  pub reading : (j.world).pipe.reading ≡ true
  pub handle : (j.world).pipe.handle ≡ true
  pub alive : (j.world).pipe.destroyed ≡ false
  pub counted : (j.world).pipe.stream_pending_bytes ≡ length said
  pub shut : (j.conn).stream_open ≡ false
  pub living : (j.conn).stream ≡ true
  pub nothing_out : (j.conn).wire ≡ []
  pub buffered : (j.conn).pending ≡ said
  pub handed_over : handed (j.world).pipe.trace ≡ said

-- The pipe is connected to the local service.
abbrev pub dialling : List Event
dialling = happens (World.dials ok ok ok false) ∷ happens (World.dialled ok true) ∷ []

pub dialled-Early : Early [] (run dialling start)
unfolding run step World.step connect connect_cb start_reading fire_on_ready start new_conn fresh
dialled-Early = record {
  reading = refl;
  handle = refl;
  alive = refl;
  counted = refl;
  shut = refl;
  living = refl;
  nothing_out = refl;
  buffered = refl;
  handed_over = refl;
}

pub step-read :
    (bytes : Bytes) (said : Bytes) (j : Joined)
    → Early said j
    → length bytes ≤ scratch_size
    → step (reads (chunk bytes) ok) j ≡ read (chunk bytes) ok j
unfolding step
step-read bytes said j v small =
    let e : (j.world).pipe.reading && (fits (chunk bytes) && not (j.world).pipe.destroyed) ≡ true =
      ground (arith, v.reading, v.alive, small) in
    then_branch (λ x. x ≡ read (chunk bytes) ok j) _ _ j e refl

-- The pipe, and the connection, with one more chunk.
abbrev pub counting : Bytes → TcpPipe → TcpPipe
counting bytes p = record p {
  stream_pending_bytes = p.stream_pending_bytes + length bytes;
  trace = stream_writes bytes ∷ p.trace;
}

abbrev pub buffering : Bytes → Conn → Conn
buffering bytes c = record c {
  pending = c.pending ++ bytes;
  pending_drains = c.pending_drains ++ (length bytes ∷ []);
}

pub write_fits :
    (bytes : Bytes) (c : Conn)
    → c.stream_open ≡ false
    → ltb max_pending_bytes (length c.pending + length bytes) ≡ false
    → side_write bytes (some (length bytes)) ok c ≡ (ok, buffering bytes c)
unfolding side_write write_early
write_fits bytes c shut e =
    else_branch (λ (x : Rc × Conn). x ≡ (ok, buffering bytes c)) c.stream_open _ _ shut
      (else_branch (λ (x : Conn). ◌≡◌ {A = Rc × Conn} (ok, x) (ok, buffering bytes c)) _ c _ e refl)

pub write_drops :
    (bytes : Bytes) (c : Conn)
    → c.stream_open ≡ false
    → ltb max_pending_bytes (length c.pending + length bytes) ≡ true
    → side_write bytes (some (length bytes)) ok c ≡ (ok, c)
unfolding side_write write_early
write_drops bytes c shut e =
    else_branch (λ (x : Rc × Conn). x ≡ (ok, c)) c.stream_open _ _ shut
      (then_branch (λ (x : Conn). ◌≡◌ {A = Rc × Conn} (ok, x) (ok, c)) _ c _ e refl)

pub read_cb_fits :
    (bytes : Bytes) (p : TcpPipe)
    → p.destroyed ≡ false
    → leb stream_high_water_mark (p.stream_pending_bytes + length bytes) ≡ false
    → read_cb (chunk bytes) true false p ≡ counting bytes p
unfolding read_cb read_chunk
read_cb_fits bytes p alive e =
    else_branch (λ x. x ≡ counting bytes p) p.destroyed p _ alive
      (else_branch (λ x. x ≡ counting bytes p) _ _ _ e refl)

pub read_cb_full :
    (bytes : Bytes) (p : TcpPipe)
    → p.destroyed ≡ false
    → leb stream_high_water_mark (p.stream_pending_bytes + length bytes) ≡ true
    → read_cb (chunk bytes) true false p ≡ stop_reading (counting bytes p)
unfolding read_cb read_chunk
read_cb_full bytes p alive e =
    else_branch (λ x. x ≡ stop_reading (counting bytes p)) p.destroyed p _ alive
      (then_branch (λ x. x ≡ stop_reading (counting bytes p)) _ _ _ e refl)

-- A read, by what the write answers and what it makes of the connection.
pub read_by :
    (bytes : Bytes) (j : Joined) (c : Conn) (p : TcpPipe)
    → side_write bytes (some (length bytes)) ok j.conn ≡ (ok, c)
    → read_cb (chunk bytes) true false (j.world).pipe ≡ p
    → read (chunk bytes) ok j ≡ record j { world = record j.world { pipe = p }; conn = c }
unfolding read
read_by bytes j c p w r =
    ap
      (λ (x : Rc × Conn). record j {
        world = record j.world { pipe = read_cb (chunk bytes) (is_ok x.0) false (j.world).pipe };
        conn = x.1;
      })
      w
    ∙ ap (λ (q : TcpPipe). record j { world = record j.world { pipe = q }; conn = c }) r

-- A chunk that fits.
pub read-Early :
    (bytes : Bytes) (said : Bytes) (j : Joined)
    → Early said j
    → length said + length bytes < max_pending_bytes
    → Early (said ++ bytes) (read (chunk bytes) ok j)
read-Early bytes said j v room =
    let n = ap length v.buffered in
    let made =
      read_by bytes j (buffering bytes j.conn) (counting bytes (j.world).pipe)
        (write_fits bytes j.conn v.shut (ground (arith, room, n)))
        (read_cb_fits bytes (j.world).pipe v.alive (ground (arith, room, v.counted))) in
    subst (Early (said ++ bytes)) (sym made) (record {
      reading = v.reading;
      handle = v.handle;
      alive = v.alive;
      counted = omega (arith, v.counted, length-append said bytes);
      shut = v.shut;
      living = v.living;
      nothing_out = v.nothing_out;
      buffered = ap (λ t. t ++ bytes) v.buffered;
      handed_over = ap (λ t. t ++ bytes) v.handed_over;
    })

-- The chunks that the pipe reads, one after the other.
abbrev pub reading_all : List Bytes → List Event → List Event
reading_all [] es = es
reading_all (c ∷ cs) es = reads (chunk c) ok ∷ reading_all cs es

pub run-reading_all :
    (cs : List Bytes) (es : List Event) (said : Bytes) (j : Joined)
    → All (λ c. length c ≤ scratch_size) cs
    → length said + length (concat cs) < max_pending_bytes
    → Early said j
    → (k : Joined) × ((run (reading_all cs es) j ≡ run es k) × Early (said ++ concat cs) k)
unfolding run
run-reading_all [] es said j small room v =
    (j, (refl, subst (λ t. Early t j) (sym (append-nil said)) v))
run-reading_all (c ∷ cs) es said j small room v =
    let n = length-append c (concat cs) in
    let next = read-Early c said j v (omega (arith, n, room)) in
    let (k, (e, w)) =
      run-reading_all cs es (said ++ c) (read (chunk c) ok j) small.1
        (omega (arith, n, room, length-append said c)) next in
    (
      k,
      (
        ap (run (reading_all cs es)) (step-read c said j v small.0) ∙ e,
        subst (λ t. Early t k) (append_assoc said c (concat cs)) w,
      ),
    )
