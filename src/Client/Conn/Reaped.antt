-- ===== src/Client/Conn/Reaped.antt =====
-- A connection is reaped when, and only when, nothing can call back into it any more.
use holesail_cpp.Base.{
  ℕ, Bool, true, false, not, ◌&&◌, Option, none, some, is_some, List, [], ◌∷◌, Bytes, ◌≡◌, refl,
  then_branch, else_branch, arith, Bool-cases, inl, inr, ◌↔◌,
}
use holesail_cpp.Rc.{Rc, ok, fail}
use holesail_cpp.TcpPipe.World.{World}
use holesail_cpp.Client.Conn.{Conn, new_conn, dials, calls, quiet, begin_dht_connect}
use holesail_cpp.TcpPipe.Gone.{Piped}
use holesail_cpp.Client.Conn.Settled.{pipe_step-Same, pipe_step-Settled}
use holesail_cpp.Client.Conn.Keeps.{
  shutdown_conn-Settled, shutdown_conn-Same, stream_open_cb-Settled, stream_open_cb-Same,
  stream_data_cb-Settled, stream_data_cb-Same, drain_cb-Settled, drain_cb-Same,
}
use holesail_cpp.Client.Conn.Line.{
  Line, start, socket_event, Event, connects, opens, receives, closes, acknowledges, socket, writes,
  destroys_client, step, run,
}
use holesail_cpp.Client.Conn.Owed.{Inv, kept, closes-Inv, gone, connects-Inv, side_write-Inv}

start-Inv : (id : ℕ) (source : Option Bytes) (rc : Rc) → Inv (start id source rc)
unfolding start begin_dht_connect new_conn quiet
start-Inv id source ok = record {
  settled = record {
    good = record { piped = refl; bare = λ h. refl; kept = λ h. absurd (cc) };
    exact = refl;
  };
  pend = refl;
  live = refl;
  early = λ h. (refl, refl);
}
start-Inv id source (fail n) =
    let d : Conn = record (calls dials (new_conn id source)) { connect_pending = false } in
    gone (record { conn = d; connect = false; stream = false; destroyed = false }) d
      (shutdown_conn-Settled d (record { piped = refl; bare = λ h. refl; kept = λ h. absurd (cc) }))
      (shutdown_conn-Same d) refl refl

doomed :
    (l : Line) (d : Conn)
    → Inv (record l { conn = d })
    → Inv (record l { conn = d; destroyed = true })
doomed l d v = record { settled = v.settled; pend = v.pend; live = v.live; early = v.early }

step-Inv : (e : Event) (l : Line) → Inv l → Inv (step e l)
unfolding step
step-Inv (connects failed opened) l v = elim (Bool-cases l.connect) [
  | inl e ↦ then_branch Inv l.connect _ l e (connects-Inv failed opened l e v)
  | inr e ↦ else_branch Inv l.connect _ l e v
]
step-Inv (opens rc started) l v = elim (Bool-cases l.stream) [
  | inl e ↦ then_branch Inv l.stream _ l e (
      kept l _ v (stream_open_cb-Same rc started l.conn)
        (stream_open_cb-Settled rc started l.conn v.settled))
  | inr e ↦ else_branch Inv l.stream _ l e v
]
step-Inv (receives bytes queued) l v = elim (Bool-cases l.stream) [
  | inl e ↦ then_branch Inv l.stream _ l e (
      kept l _ v (stream_data_cb-Same bytes queued l.conn)
        (stream_data_cb-Settled bytes queued l.conn v.settled))
  | inr e ↦ else_branch Inv l.stream _ l e v
]
step-Inv closes l v = elim (Bool-cases l.stream) [
  | inl e ↦ then_branch Inv l.stream _ l e (closes-Inv l e v)
  | inr e ↦ else_branch Inv l.stream _ l e v
]
step-Inv (acknowledges started) l v =
    kept l _ v (drain_cb-Same started l.conn) (drain_cb-Settled started l.conn v.settled)
step-Inv (socket e) l v =
    kept l _ v (pipe_step-Same (socket_event e) (l.conn).pipe l.conn)
      (pipe_step-Settled (socket_event e) (l.conn).pipe l.conn refl v.settled)
step-Inv (writes bytes rc) l v = side_write-Inv bytes rc l v
step-Inv destroys_client l v = elim (Bool-cases (l.conn).listed) [
  | inl e ↦
      then_branch (λ c. Inv (record l { conn = c; destroyed = true })) (l.conn).listed _ l.conn e
        (doomed l _
          (kept l _ v (shutdown_conn-Same l.conn) (shutdown_conn-Settled l.conn v.settled.good)))
  | inr e ↦
      else_branch (λ c. Inv (record l { conn = c; destroyed = true })) (l.conn).listed _ l.conn e
        (doomed l l.conn v)
]

run-Inv : (es : List Event) (l : Line) → Inv l → Inv (run es l)
unfolding run
run-Inv [] l v = v
run-Inv (e ∷ es) l v = run-Inv es (step e l) (step-Inv e l v)

-- There is no pipe, or it is destroyed and its handle has finished closing.
abbrev pub AtRest : Option World → Type 0
AtRest none = Unit {0}
AtRest (some w) = (w.pipe.destroyed ≡ true) × (w.pipe.handle ≡ false)

Piped-AtRest :
    (o : Option World) (done : Bool) → Piped o done → (is_some o && not done ≡ false) ↔ AtRest o
Piped-AtRest none done p = (λ h. tt, λ h. refl)
Piped-AtRest (some w) done (v, e) = (λ h. ground arith, λ h. ground (arith, v.settled h.0 h.1))

-- In any history of a connection of the client, it has left the table exactly when hyperdht owes it no
-- connect callback and no stream callback, and its pipe, if it got one, is destroyed and has its handle
-- closed: it is never freed too early and never kept for good.
pub reaped_iff :
    (id : ℕ) (source : Option Bytes) (rc : Rc) (es : List Event)
    → ((run es (start id source rc)).conn.listed ≡ false) ↔ (
        ((run es (start id source rc)).connect ≡ false)
        × (((run es (start id source rc)).stream ≡ false)
            × AtRest (run es (start id source rc)).conn.pipe))
unfolding quiet
reaped_iff id source rc es =
    let l = run es (start id source rc) in
    let v = run-Inv es (start id source rc) (start-Inv id source rc) in
    let p = Piped-AtRest l.conn.pipe l.conn.pipe_done v.settled.good.piped in
    (
      λ h. (
        ground (arith, v.settled.exact, v.pend),
        (ground (arith, v.settled.exact, v.live), p.0 (ground (arith, v.settled.exact))),
      ),
      λ h. ground (arith, v.settled.exact, v.pend, v.live, p.1 h.1.1),
    )
