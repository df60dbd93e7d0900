-- ===== src/Client/Conn/Intact.antt =====
-- What a connection of the client puts on its stream: whole writes, in order.
use holesail_cpp.Base.{
  ℕ, ◌≤◌, Bool, true, false, not, ◌||◌, Option, List, [], ◌∷◌, ◌++◌, length, Bytes, ◌≡◌, refl, sym,
  arith, subst, branches,
}
use holesail_cpp.Rc.{Rc, ok, fail}
use holesail_cpp.Client.Conn.{
  Conn, new_conn, calls, dials, shutdown_conn, begin_dht_connect, on_stream_open, stream_open_cb,
  stream_close_cb, max_pending_bytes,
}
use holesail_cpp.Client.Conn.Line.{
  Line, start, socket_event, Event, connects, opens, receives, closes, acknowledges, socket, writes,
  destroys_client, step, run,
}
use holesail_cpp.Client.Conn.Stays.{
  pipe_step-Stays, shutdown_conn-Stays, stream_data_cb-Stays, drain_cb-Stays, stream_ended-Stays,
}
use holesail_cpp.Client.Conn.Kept.{Sub, joined}
use holesail_cpp.Client.Conn.Waiting.{
  asked, Intact, stays, connects-Intact, closing-Intact, flush_pending-Intact,
}
use holesail_cpp.Client.Conn.Flush.{side_write-Intact}

bool_not : (b : Bool) → (b ≡ true → ⊥) → b ≡ false
bool_not true h = absurd (h refl)
bool_not false h = refl

opens-Intact :
    (all : List Bytes) (rc : Rc) (started : Bool) (l : Line)
    → Intact all l
    → Intact all (record l { conn = stream_open_cb rc started l.conn })
unfolding stream_open_cb on_stream_open
opens-Intact all rc started l v =
    let c = l.conn in
    branches (λ x. Intact all (record l { conn = x }))
      (not c.listed || (not c.stream || c.stream_closed)) _ _ (λ e. v)
      (λ e.
        flush_pending-Intact all c.pending rc started l refl (ground arith)
          (bool_not l.connect (λ h. let still = v.idle h in ground (arith, still))) v)

-- The parts of a line that are not about writing.
unlive : (all : List Bytes) (l : Line) → Intact all l → Intact all (record l { stream = false })
unlive all l v = record {
  on_wire = v.on_wire;
  held = v.held;
  sub = v.sub;
  wire = v.wire;
  pending = v.pending;
  bounded = v.bounded;
  flushed = v.flushed;
  unopened = v.unopened;
  idle = v.idle;
  streaming = v.streaming;
}

doomed : (all : List Bytes) (l : Line) → Intact all l → Intact all (record l { destroyed = true })
doomed all l v = record {
  on_wire = v.on_wire;
  held = v.held;
  sub = v.sub;
  wire = v.wire;
  pending = v.pending;
  bounded = v.bounded;
  flushed = v.flushed;
  unopened = v.unopened;
  idle = v.idle;
  streaming = v.streaming;
}

closes-Intact :
    (all : List Bytes) (l : Line)
    → Intact all l
    → Intact all (record l { conn = stream_close_cb l.conn; stream = false })
unfolding stream_close_cb
closes-Intact all l v =
    let d : Conn = record l.conn { stream_closed = true; stream = false } in
    unlive all _ (
      branches (λ x. Intact all (record l { conn = x })) (l.conn).listed _ _
        (λ e. stays all (record l { conn = d }) _ (stream_ended-Stays d) (closing-Intact all l v))
        (λ e. v))

step-Intact :
    (e : Event) (all : List Bytes) (l : Line)
    → Intact all l
    → Intact (asked (e ∷ []) all) (step e l)
unfolding step
step-Intact (connects failed opened) all l v =
    branches (Intact all) l.connect _ _ (λ e. connects-Intact all failed opened l e v) (λ e. v)
step-Intact (opens rc started) all l v =
    branches (Intact all) l.stream _ _ (λ e. opens-Intact all rc started l v) (λ e. v)
step-Intact (receives bytes queued) all l v =
    branches (Intact all) l.stream _ _
      (λ e. stays all l _ (stream_data_cb-Stays bytes queued l.conn) v) (λ e. v)
step-Intact closes all l v =
    branches (Intact all) l.stream _ _ (λ e. closes-Intact all l v) (λ e. v)
step-Intact (acknowledges started) all l v = stays all l _ (drain_cb-Stays started l.conn) v
step-Intact (socket e) all l v =
    stays all l _ (pipe_step-Stays (socket_event e) (l.conn).pipe l.conn) v
step-Intact (writes bytes rc) all l v = side_write-Intact all bytes rc l v
step-Intact destroys_client all l v = doomed all _ (
    branches (λ x. Intact all (record l { conn = x })) (l.conn).listed _ _
      (λ e. stays all l _ (shutdown_conn-Stays l.conn) v) (λ e. v))

asked_cons :
    (e : Event) (es : List Event) (all : List Bytes)
    → asked es (asked (e ∷ []) all) ≡ asked (e ∷ es) all
asked_cons (connects failed opened) es all = refl
asked_cons (opens rc started) es all = refl
asked_cons (receives bytes queued) es all = refl
asked_cons closes es all = refl
asked_cons (acknowledges started) es all = refl
asked_cons (socket e) es all = refl
asked_cons (writes bytes rc) es all = refl
asked_cons destroys_client es all = refl

run-Intact :
    (es : List Event) (all : List Bytes) (l : Line)
    → Intact all l
    → Intact (asked es all) (run es l)
unfolding run
run-Intact [] all l v = v
run-Intact (e ∷ es) all l v =
    subst (λ w. Intact w (run es (step e l))) (asked_cons e es all)
      (run-Intact es _ (step e l) (step-Intact e all l v))

fresh_line :
    (c : Conn) (owed : Bool)
    → c.wire ≡ []
    → c.pending ≡ []
    → c.stream_open ≡ false
    → c.stream ≡ false
    → Intact [] (record { conn = c; connect = owed; stream = false; destroyed = false })
fresh_line c owed w p o s = record {
  on_wire = [];
  held = [];
  sub = tt;
  wire = w;
  pending = p;
  bounded = subst (λ t. length t ≤ max_pending_bytes) (sym p) (omega arith);
  flushed = λ h. refl;
  unopened = λ h. o;
  idle = λ h. s;
  streaming = ground (arith, o);
}

start-Intact : (id : ℕ) (source : Option Bytes) (rc : Rc) → Intact [] (start id source rc)
unfolding start begin_dht_connect new_conn
start-Intact id source ok = fresh_line _ true refl refl refl refl
start-Intact id source (fail n) =
    let d : Conn = record (calls dials (new_conn id source)) { connect_pending = false } in
    let s = shutdown_conn-Stays d in
    fresh_line (shutdown_conn d) false s.wire s.pending s.open_flag s.stream

-- In any history of a connection of the client, what its stream took and what still waits for it are
-- whole writes, in the order in which they were made and each at most once: a write that is dropped, while
-- the connection dials or after, is dropped whole, so no frame is ever torn; and what waits stays within
-- the cap.
pub writes_intact :
    (id : ℕ) (source : Option Bytes) (rc : Rc) (es : List Event)
    → (on_wire : List Bytes) × ((held : List Bytes) × (Sub (held ++ on_wire) (asked es [])
          × (((run es (start id source rc)).conn.wire ≡ joined on_wire)
              × (((run es (start id source rc)).conn.pending ≡ joined held)
                  × (length (run es (start id source rc)).conn.pending ≤ max_pending_bytes)))))
writes_intact id source rc es =
    let v = run-Intact es [] (start id source rc) (start-Intact id source rc) in
    (v.on_wire, (v.held, (v.sub, (v.wire, (v.pending, v.bounded)))))
