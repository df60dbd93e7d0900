-- ===== src/Client/Conn/Keeps.antt =====
-- Each operation on a connection leaves it settled, and clears only the flags that it is to clear.
use holesail_cpp.Base.{
  Bool, true, false, not, ◌&&◌, ◌||◌, Option, none, some, is_some, [], ◌∷◌, ◌++◌, Bytes, ◌≡◌, refl,
  ◌∙◌, arith, Bool-cases, inl, inr, is_empty,
}
use holesail_cpp.Rc.{Rc, ok, fail, is_ok}
use holesail_cpp.TcpPipe.{adopt, fresh, start_reading}
use holesail_cpp.TcpPipe.Teardown.{Owner}
use holesail_cpp.TcpPipe.World.{World, destroys, stream_data, drained}
use holesail_cpp.Client.Conn.{
  Conn, quiet, close_accepted, forget_client, end_stream, shutdown_conn, bridge, flush_pending,
  on_stream_open, stream_open_cb, stream_data_cb, drain_cb,
}
use holesail_cpp.TcpPipe.Gone.{Piped, fresh-Owner}
use holesail_cpp.Client.Conn.Settled.{
  Good, Settled, Same, reap-Same, reap-Settled, pipe_step-Same, pipe_step-Good, pipe_step-Settled,
}

Same-trans : {a b c : Conn} → Same a b → Same b c → Same a c
Same-trans s t = record {
  connect = t.connect ∙ s.connect;
  stream = t.stream ∙ s.stream;
  closed = t.closed ∙ s.closed;
  udp = t.udp ∙ s.udp;
}

close_accepted-Good : (c : Conn) → Good c → Good (close_accepted c)
unfolding close_accepted quiet
close_accepted-Good c g = elim (Bool-cases c.tcp) [
  | inl e ↦ simp e (record { piped = g.piped; bare = λ h. g.bare e; kept = g.kept })
  | inr e ↦ simp e g
]

close_accepted-Same : (c : Conn) → Same c (close_accepted c)
unfolding close_accepted
close_accepted-Same c = ground arith

forget_client-Good : (c : Conn) → Good c → Good (forget_client c)
unfolding forget_client quiet
forget_client-Good c g = elim (Bool-cases c.udp) [
  | inl e ↦ simp e (record { piped = g.piped; bare = g.bare; kept = g.kept })
  | inr e ↦ simp e g
]

forget_client-Same : (c : Conn) → Same c (forget_client c)
unfolding forget_client
forget_client-Same c = ground arith

end_stream-Good : (c : Conn) → Good c → Good (end_stream c)
unfolding end_stream quiet
end_stream-Good c g = elim (Bool-cases (is_some c.pipe && not c.pipe_done)) [
  | inl e ↦ simp e (pipe_step-Good destroys c.pipe c refl g)
  | inr e ↦ elim (Bool-cases (c.stream && not c.stream_closed)) [
    | inl f ↦ simp (e, f) (record { piped = g.piped; bare = g.bare; kept = g.kept })
    | inr f ↦ simp (e, f) g
  ]
]

end_stream-Same : (c : Conn) → Same c (end_stream c)
unfolding end_stream
end_stream-Same c = ground (arith, pipe_step-Same destroys c.pipe c)

pub shutdown_conn-Settled : (c : Conn) → Good c → Settled (shutdown_conn c)
unfolding shutdown_conn
shutdown_conn-Settled c g =
    reap-Settled _ (end_stream-Good _ (forget_client-Good _ (close_accepted-Good c g)))

pub shutdown_conn-Same : (c : Conn) → Same c (shutdown_conn c)
unfolding shutdown_conn
shutdown_conn-Same c =
    let a = close_accepted c in
    let b = forget_client a in
    Same-trans (close_accepted-Same c) (
      Same-trans (forget_client-Same a) (Same-trans (end_stream-Same b) (reap-Same (end_stream b))))

adopt_ok :
    (started : Bool)
    → (is_ok (adopt true started fresh).0 ≡ true) × ((adopt true started fresh).1.on_destroy ≡ true)
unfolding adopt fresh start_reading
adopt_ok true = (refl, refl)
adopt_ok false = (refl, refl)

Piped-none : (o : Option World) (done : Bool) → Piped o done → is_some o ≡ false → done ≡ false
Piped-none none done p h = p
Piped-none (some w) done p h = absurd (cc)

-- A living stream keeps a connection listed; the pipe of `bridge` is new.
bridged :
    (w : World) (c : Conn)
    → Owner w.pipe
    → w.pipe.on_destroy ≡ true
    → c.tcp ≡ true
    → (c.stream && not c.stream_closed) ≡ true
    → Settled c
    → Settled (record c { tcp = false; pipe = some w })
unfolding quiet
bridged w c v fires h live s =
    let undone = Piped-none c.pipe c.pipe_done s.good.piped (s.good.bare h) in
    record {
      good = record {
        piped = (v, ground arith);
        bare = λ t. absurd (cc);
        kept = λ l. ground (arith, s.exact);
      };
      exact = ground (arith, s.exact);
    }

bridge-Settled :
    (started : Bool) (c : Conn)
    → (c.stream && not c.stream_closed) ≡ true
    → Settled c
    → Settled (bridge started c)
unfolding bridge
bridge-Settled started c live s =
    let (good, fires) = adopt_ok started in
    elim (Bool-cases (c.udp || not c.tcp)) [
      | inl e ↦ simp e s
      | inr e ↦ simp (e, good) (bridged _ c (fresh-Owner started) fires (ground arith) live s)
    ]

bridge-Same : (started : Bool) (c : Conn) → Same c (bridge started c)
unfolding bridge
bridge-Same started c =
    let (good, fires) = adopt_ok started in
    elim (Bool-cases (c.udp || not c.tcp)) [
      | inl e ↦ simp e (record { connect = refl; stream = refl; closed = refl; udp = refl })
      | inr e ↦ simp (e, good) (record { connect = refl; stream = refl; closed = refl; udp = refl })
    ]

flush_pending-Settled :
    (bytes : Bytes) (rc : Rc) (started : Bool) (c : Conn)
    → (c.stream && not c.stream_closed) ≡ true
    → Settled c
    → Settled (flush_pending bytes rc started c)
unfolding flush_pending quiet
flush_pending-Settled [] rc started c live s = bridge-Settled started c live s
flush_pending-Settled (b ∷ bytes) ok started c live s = bridge-Settled started _ live (record {
  good = record { piped = s.good.piped; bare = s.good.bare; kept = s.good.kept };
  exact = s.exact;
})
flush_pending-Settled (b ∷ bytes) (fail n) started c live s =
    shutdown_conn-Settled _
      (record { piped = s.good.piped; bare = s.good.bare; kept = s.good.kept })

flush_pending-Same :
    (bytes : Bytes) (rc : Rc) (started : Bool) (c : Conn)
    → Same c (flush_pending bytes rc started c)
unfolding flush_pending
flush_pending-Same [] rc started c = bridge-Same started c
flush_pending-Same (b ∷ bytes) ok started c =
    let s = bridge-Same started (record c { pending = []; wire = c.wire ++ (b ∷ bytes) }) in
    record { connect = s.connect; stream = s.stream; closed = s.closed; udp = s.udp }
flush_pending-Same (b ∷ bytes) (fail n) started c =
    let s = shutdown_conn-Same (record c { pending = [] }) in
    record { connect = s.connect; stream = s.stream; closed = s.closed; udp = s.udp }

pub stream_open_cb-Settled :
    (rc : Rc) (started : Bool) (c : Conn) → Settled c → Settled (stream_open_cb rc started c)
unfolding stream_open_cb on_stream_open quiet
stream_open_cb-Settled rc started c s =
    elim (Bool-cases (not c.listed || (not c.stream || c.stream_closed))) [
      | inl e ↦ simp e s
      | inr e ↦ simp e (
          flush_pending-Settled c.pending rc started (record c { stream_open = true })
            (ground arith)
            (record {
              good = record { piped = s.good.piped; bare = s.good.bare; kept = s.good.kept };
              exact = s.exact;
            }))
    ]

pub stream_open_cb-Same :
    (rc : Rc) (started : Bool) (c : Conn) → Same c (stream_open_cb rc started c)
unfolding stream_open_cb on_stream_open
stream_open_cb-Same rc started c =
    elim (Bool-cases (not c.listed || (not c.stream || c.stream_closed))) [
      | inl e ↦ simp e (record { connect = refl; stream = refl; closed = refl; udp = refl })
      | inr e ↦
          let s = flush_pending-Same c.pending rc started (record c { stream_open = true }) in
          simp e (record { connect = s.connect; stream = s.stream; closed = s.closed; udp = s.udp })
    ]

pub stream_data_cb-Settled :
    (bytes : Bytes) (queued : Bool) (c : Conn) → Settled c → Settled (stream_data_cb bytes queued c)
unfolding stream_data_cb quiet
stream_data_cb-Settled bytes queued c s = elim (Bool-cases (not c.listed || is_empty bytes)) [
  | inl e ↦ simp e s
  | inr e ↦ elim (Bool-cases c.udp) [
    | inl f ↦
        simp (e, f)
          (record {
            good = record { piped = s.good.piped; bare = s.good.bare; kept = s.good.kept };
            exact = s.exact;
          })
    | inr f ↦ simp (e, f) (pipe_step-Settled (stream_data bytes queued) c.pipe c refl s)
  ]
]

pub stream_data_cb-Same :
    (bytes : Bytes) (queued : Bool) (c : Conn) → Same c (stream_data_cb bytes queued c)
unfolding stream_data_cb
stream_data_cb-Same bytes queued c =
    ground (arith, pipe_step-Same (stream_data bytes queued) c.pipe c)

pub drain_cb-Settled : (started : Bool) (c : Conn) → Settled c → Settled (drain_cb started c)
unfolding drain_cb
drain_cb-Settled started c s =
    elim (Bool-cases (not c.listed || (c.stream_closed || c.pipe_done))) [
      | inl e ↦ simp e s
      | inr e ↦ simp e (pipe_step-Settled (drained started) c.pipe c refl s)
    ]

pub drain_cb-Same : (started : Bool) (c : Conn) → Same c (drain_cb started c)
unfolding drain_cb
drain_cb-Same started c = ground (arith, pipe_step-Same (drained started) c.pipe c)
