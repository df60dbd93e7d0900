-- ===== src/Client/Conn/Settled.antt =====
-- A connection stays in the table exactly as long as something can call back into it.
use holesail_cpp.Base.{
  Bool, true, false, not, ◌&&◌, Option, none, some, is_some, ◌≡◌, refl, sym, ap, subst, arith,
  Bool-cases, inl, inr,
}
use holesail_cpp.TcpPipe.World
use holesail_cpp.TcpPipe.World.{World}
use holesail_cpp.TcpPipe.Teardown.{Owner, step-Owner}
use holesail_cpp.Client.Conn.{Conn, quiet, reap, notice, pipe_step}
use holesail_cpp.TcpPipe.Gone.{Piped, step-Gone, Owner-Gone}

-- What hyperdht is to call, as the flags of the connection say it.
abbrev pub live_stream : Conn → Bool
live_stream c = c.stream && not c.stream_closed

-- What holds at every moment, inside an operation too.
pub record Good (c : Conn) : Type 0 where
  pub piped : Piped c.pipe c.pipe_done
  pub bare : c.tcp ≡ true → is_some c.pipe ≡ false
  pub kept : c.listed ≡ false → quiet c ≡ true

-- And between two operations.
pub record Settled (c : Conn) : Type 0 where
  pub good : Good c
  pub exact : c.listed ≡ not (quiet c)

-- The flags that an operation of the pipe leaves alone.
pub record Same (c d : Conn) : Type 0 where
  pub connect : d.connect_pending ≡ c.connect_pending
  pub stream : d.stream ≡ c.stream
  pub closed : d.stream_closed ≡ c.stream_closed
  pub udp : d.udp ≡ c.udp

pub reap-Same : (c : Conn) → Same c (reap c)
unfolding reap
reap-Same c = ground arith

pub reap-Good : (c : Conn) → Good c → Good (reap c)
unfolding reap quiet
reap-Good c g = elim (Bool-cases (quiet c)) [
  | inl q ↦ simp q (record { piped = g.piped; bare = g.bare; kept = λ h. q })
  | inr q ↦ simp q g
]

pub reap-Settled : (c : Conn) → Good c → Settled (reap c)
unfolding reap quiet
reap-Settled c g = elim (Bool-cases (quiet c)) [
  | inl q ↦ simp q (record {
    good = record { piped = g.piped; bare = g.bare; kept = λ h. q };
    exact = ap not (sym q);
  })
  | inr q ↦ simp q (record { good = g; exact = ground (arith, g.kept) })
]

notice-Same : (w : World) (c : Conn) → Same c (notice w c)
unfolding notice
notice-Same w c = ground (arith, reap-Same (record c { pipe_done = true }))

pub pipe_step-Same : (e : World.Event) (o : Option World) (c : Conn) → Same c (pipe_step e o c)
unfolding pipe_step
pipe_step-Same e none c = ground arith
pipe_step-Same e (some w) c =
    let s = notice-Same (World.step e w) (record c { pipe = some (World.step e w) }) in
    record { connect = s.connect; stream = s.stream; closed = s.closed; udp = s.udp }

-- What an operation of a pipe leaves the connection to notice.
record Noticed (w : World) (c : Conn) : Type 0 where
  holds : c.pipe ≡ some w
  owner : Owner w.pipe
  told : c.pipe_done ≡ true → w.pipe.on_destroy ≡ false
  bare : c.tcp ≡ true → is_some c.pipe ≡ false
  kept : c.listed ≡ false → quiet c ≡ true

Noticed-Good : (w : World) (c : Conn) → Noticed w c → w.pipe.on_destroy ≡ true → Good c
Noticed-Good w c n e = record {
  piped = subst (λ o. Piped o c.pipe_done) (sym n.holds) (n.owner, ground (arith, n.told));
  bare = n.bare;
  kept = n.kept;
}

Noticed-done :
    (w : World) (c : Conn)
    → Noticed w c
    → w.pipe.on_destroy ≡ false
    → Good (record c { pipe_done = true })
unfolding quiet
Noticed-done w c n e = record {
  piped = subst (λ o. Piped o true) (sym n.holds) (n.owner, ground arith);
  bare = n.bare;
  kept = ground (arith, n.kept);
}

notice-Good : (w : World) (c : Conn) → Noticed w c → Good (notice w c)
unfolding notice
notice-Good w c n = elim (Bool-cases w.pipe.on_destroy) [
  | inl e ↦ simp e (Noticed-Good w c n e)
  | inr e ↦ simp e (reap-Good _ (Noticed-done w c n e))
]

notice-Settled :
    (w : World) (c : Conn) → Noticed w c → c.listed ≡ not (quiet c) → Settled (notice w c)
unfolding notice
notice-Settled w c n x = elim (Bool-cases w.pipe.on_destroy) [
  | inl e ↦ simp e (record { good = Noticed-Good w c n e; exact = x })
  | inr e ↦ simp e (reap-Settled _ (Noticed-done w c n e))
]

Piped-some :
    (o : Option World) (w : World) (done : Bool)
    → o ≡ some w
    → Piped o done
    → Owner w.pipe × (done ≡ not w.pipe.on_destroy)
Piped-some o w done h p = subst (λ x. Piped x done) h p

stepped :
    (e : World.Event) (w : World) (c : Conn)
    → c.pipe ≡ some w
    → Good c
    → Noticed (World.step e w) (record c { pipe = some (World.step e w) })
unfolding quiet
stepped e w c h g =
    let (owner, done) = Piped-some c.pipe w c.pipe_done h g.piped in
    record {
      holds = refl;
      owner = step-Owner e w owner;
      told = λ d. (step-Gone e w (Owner-Gone w.pipe owner (ground arith))).told;
      bare = λ t. ground (arith, g.bare t);
      kept = λ l. ground (arith, g.kept l);
    }

pub pipe_step-Good :
    (e : World.Event) (o : Option World) (c : Conn) → c.pipe ≡ o → Good c → Good (pipe_step e o c)
unfolding pipe_step
pipe_step-Good e none c h g = g
pipe_step-Good e (some w) c h g = notice-Good _ _ (stepped e w c h g)

pub pipe_step-Settled :
    (e : World.Event) (o : Option World) (c : Conn)
    → c.pipe ≡ o
    → Settled c
    → Settled (pipe_step e o c)
unfolding pipe_step quiet
pipe_step-Settled e none c h g = g
pipe_step-Settled e (some w) c h g =
    notice-Settled _ _ (stepped e w c h g.good) (ground (arith, g.exact))
