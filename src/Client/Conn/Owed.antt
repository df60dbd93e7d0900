-- ===== src/Client/Conn/Owed.antt =====
-- What hyperdht and the pipe still owe a connection, kept by each operation on it.
use holesail_cpp.Base.{
  Bool, true, false, not, ◌&&◌, ◌||◌, is_some, Bytes, ◌≡◌, refl, subst, then_branch, else_branch,
  sym, ap, ◌∙◌, arith, Bool-cases, inl, inr,
}
use holesail_cpp.Rc.{Rc}
use holesail_cpp.TcpPipe.World.{stream_ends}
use holesail_cpp.Client.Conn.{
  Conn, forgets_client, calls, quiet, pipe_step, shutdown_conn, connect_cb, stream_ended,
  stream_close_cb, side_write,
}
use holesail_cpp.Client.Conn.Settled.{
  Good, Settled, Same, live_stream, reap-Same, reap-Settled, pipe_step-Same, pipe_step-Good,
}
use holesail_cpp.Client.Conn.Keeps.{shutdown_conn-Settled, shutdown_conn-Same}
use holesail_cpp.Client.Conn.Line.{Line}

-- A line whose connection says truly what hyperdht still owes it.
pub record Inv (l : Line) : Type 0 where
  pub settled : Settled l.conn
  pub pend : (l.conn).connect_pending ≡ l.connect
  pub live : live_stream l.conn ≡ l.stream
  pub early : l.connect ≡ true → ((l.conn).stream ≡ false) × ((l.conn).stream_closed ≡ false)

-- An operation that leaves the flags of hyperdht alone.
pub kept : (l : Line) (d : Conn) → Inv l → Same l.conn d → Settled d → Inv (record l { conn = d })
kept l d v s t = record {
  settled = t;
  pend = s.connect ∙ v.pend;
  live = ground (arith, s.stream, s.closed, v.live);
  early = λ h. (s.stream ∙ (v.early h).0, s.closed ∙ (v.early h).1);
}

pub stream_ended-Settled : (c : Conn) → Good c → Settled (stream_ended c)
unfolding stream_ended quiet
stream_ended-Settled c g = elim (Bool-cases c.udp) [
  | inl e ↦ simp e (reap-Settled _ (record { piped = g.piped; bare = g.bare; kept = g.kept }))
  | inr e ↦ elim (Bool-cases (is_some c.pipe)) [
    | inl f ↦ simp (e, f) (reap-Settled _ (pipe_step-Good stream_ends c.pipe c refl g))
    | inr f ↦ elim (Bool-cases c.tcp) [
      | inl h ↦ simp (e, f, h) (shutdown_conn-Settled c g)
      | inr h ↦ simp (e, f, h) (reap-Settled c g)
    ]
  ]
]

pub stream_ended-Same : (c : Conn) → Same c (stream_ended c)
unfolding stream_ended
stream_ended-Same c = ground (
  arith,
  reap-Same (calls (forgets_client c.client_id) c),
  pipe_step-Same stream_ends c.pipe c,
  reap-Same (pipe_step stream_ends c.pipe c),
  shutdown_conn-Same c,
  reap-Same c,
)

-- The last callback of a stream.
pub closes-Inv :
    (l : Line)
    → l.stream ≡ true
    → Inv l
    → Inv (record l { conn = stream_close_cb l.conn; stream = false })
unfolding stream_close_cb quiet
closes-Inv l h v =
    let c = l.conn in
    let d : Conn = record c { stream_closed = true; stream = false } in
    let awake : c.listed ≡ true = ground (arith, v.settled.exact, v.live) in
    let g : Good d = record {
      piped = v.settled.good.piped;
      bare = v.settled.good.bare;
      kept = λ f. absurd (cc);
    } in
    let s = stream_ended-Same d in
    then_branch (λ x. Inv (record l { conn = x; stream = false })) c.listed (stream_ended d) c awake
      (record {
        settled = stream_ended-Settled d g;
        pend = s.connect ∙ v.pend;
        live = ground (arith, s.stream);
        early = λ e. ground (arith, v.early e, v.live);
      })

-- A connection that was shut down before it had a stream.
pub gone :
    (l : Line) (d : Conn)
    → Settled (shutdown_conn d)
    → Same d (shutdown_conn d)
    → d.connect_pending ≡ false
    → d.stream ≡ false
    → Inv (record l { conn = shutdown_conn d; connect = false; stream = false })
gone l d t s p q = record {
  settled = t;
  pend = s.connect ∙ p;
  live = ground (arith, s.stream, q);
  early = λ h. absurd (cc);
}

pub no_stream :
    (l : Line) (d : Conn) (lost opened : Bool)
    → not lost && opened ≡ false
    → Inv (record l { conn = d; connect = false; stream = false })
    → Inv (record l { conn = d; connect = false; stream = not lost && opened })
no_stream l d lost opened h v =
    subst (λ b. Inv (record l { conn = d; connect = false; stream = b })) (sym h) v

pub connects-Inv :
    (failed opened : Bool) (l : Line)
    → l.connect ≡ true
    → Inv l
    → Inv (record l {
      conn = connect_cb l.destroyed failed opened l.conn;
      connect = false;
      stream = not (l.destroyed || failed) && opened;
    })
unfolding connect_cb quiet
connects-Inv failed opened l h v =
    let c = l.conn in
    let (idle, unclosed) = v.early h in
    let awake : c.listed ≡ true = ground (arith, v.settled.exact, v.pend) in
    let d : Conn = record c { connect_pending = false } in
    let n : Conn = record c { connect_pending = false; stream = false } in
    let gd : Good d = record {
      piped = v.settled.good.piped;
      bare = v.settled.good.bare;
      kept = λ f. absurd (cc);
    } in
    let gn : Good n = record {
      piped = v.settled.good.piped;
      bare = v.settled.good.bare;
      kept = λ f. absurd (cc);
    } in
    let P : Conn → Type 0 = λ x.
      Inv
        (record l { conn = x; connect = false; stream = not (l.destroyed || failed) && opened }) in
    else_branch P (not c.listed) c _ (ap not awake) (elim (Bool-cases (l.destroyed || failed)) [
      | inl e ↦ then_branch P (l.destroyed || failed) (shutdown_conn d) _ e (
          no_stream l (shutdown_conn d) (l.destroyed || failed) opened (ground arith)
            (gone l d (shutdown_conn-Settled d gd) (shutdown_conn-Same d) refl idle))
      | inr e ↦
          else_branch P (l.destroyed || failed) (shutdown_conn d) _ e (elim (Bool-cases opened) [
            | inl f ↦
                then_branch P opened (record c { connect_pending = false; stream = true }) _ f
                  (record {
                    settled = record {
                      good = record {
                        piped = v.settled.good.piped;
                        bare = v.settled.good.bare;
                        kept = λ x. absurd (cc);
                      };
                      exact = ground arith;
                    };
                    pend = refl;
                    live = ground arith;
                    early = λ x. absurd (cc);
                  })
            | inr f ↦ else_branch P opened _ (shutdown_conn n) f (
                no_stream l (shutdown_conn n) (l.destroyed || failed) opened (ground arith)
                  (gone l n (shutdown_conn-Settled n gn) (shutdown_conn-Same n) refl refl))
          ])
    ])

pub side_write-Inv :
    (bytes : Bytes) (rc : Rc) (l : Line)
    → Inv l
    → Inv (record l { conn = (side_write bytes rc l.conn).1 })
unfolding side_write quiet
side_write-Inv bytes rc l v = ground arith
