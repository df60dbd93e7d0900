-- ===== src/Server/Table/Shut.antt =====
-- A server's `destroy` reaches every connection whose stream is open; one that it does not reach has lost
-- its entry in `conns_`, and its stream has closed.
use holesail_cpp.Base.{
  ℕ, zero, suc, ◌==◌, Bool, true, false, not, ◌&&◌, ◌||◌, Option, none, some, List, [], ◌∷◌, All,
  ◌≡◌, refl, ap, ◌∙◌, arith, ◌⊎◌, inl, inr, branches,
}
use holesail_cpp.TcpPipe.World
use holesail_cpp.TcpPipe.Accounting.{destroy-destroyed}
use holesail_cpp.UdpPipe.Deliver.{destroy_keeps}
use holesail_cpp.Server
use holesail_cpp.Server.{HolesailServer}
use holesail_cpp.Server.Conn.Refs
use holesail_cpp.Server.Conn.Refs.{
  Bridge, Dialling, Pipe, tcp, udp, freed, with_pipe, destroy_pipe, stream_data_cb, bridge_closed,
}
use holesail_cpp.Server.Table.{
  Entry, Table, each, prune, displace, enter, connection_cb, shut, destroy, in_use, call_at, Event,
  accepts, calls, starts, listens, pauses, resumes, taken, step, run,
}

abbrev pub is_destroyed : Pipe → Bool
is_destroyed (tcp w) = w.pipe.destroyed
is_destroyed (udp p) = p.destroyed

-- A connection whose stream is open is listed.
abbrev pub Known : Entry → Type 0
Known c = c.listed || not (c.bridge).box ≡ true

each-All :
    (P Q : Entry → Type 0) (f : Entry → Entry)
    → ((c : Entry) → P c → Q (f c))
    → (cs : List Entry) → All P cs
    → All Q (each f cs)
each-All P Q f h [] v = tt
each-All P Q f h (c ∷ cs) v = (h c v.0, each-All P Q f h cs v.1)

prune-Known : (c : Entry) → Known c → Known (prune c)
unfolding prune
prune-Known c h = ground (arith, h)

displace-Known :
    (stream : ℕ) (cs : List Entry)
    → in_use stream cs ≡ false
    → All Known cs
    → All Known (each (displace stream) cs)
unfolding in_use displace
displace-Known stream [] free v = tt
displace-Known stream (c ∷ cs) free v =
    (ground (arith, v.0, free), displace-Known stream cs (ground (arith, free)) v.1)

-- Pruning moves no stream.
in_use-prune : (stream : ℕ) (cs : List Entry) → in_use stream (each prune cs) ≡ in_use stream cs
unfolding in_use prune
in_use-prune stream [] = refl
in_use-prune stream (c ∷ cs) =
    ap (λ b. (c.stream == stream && (c.bridge).box) || b) (in_use-prune stream cs)

enter-Known :
    (stream : Option ℕ) (made : Option Bridge) (cs : List Entry)
    → taken stream cs ≡ false
    → All Known cs
    → All Known (enter stream made cs)
unfolding enter
enter-Known none made cs free v = v
enter-Known (some s) none cs free v = v
enter-Known (some s) (some b) cs free v = (refl, displace-Known s cs free v)

taken-prune : (stream : Option ℕ) (cs : List Entry) → taken stream (each prune cs) ≡ taken stream cs
taken-prune none cs = refl
taken-prune (some s) cs = in_use-prune s cs

-- A stream that has closed stays closed.
stays_closed : (e : Refs.Event) (b : Bridge) → b.box ≡ false → (Refs.step e b).box ≡ false
unfolding Refs.step with_pipe stream_data_cb bridge_closed
stays_closed (Refs.opens rc) b h = ground arith
stays_closed (Refs.receives bytes queued) b h = ground arith
stays_closed Refs.closes b h = ground arith
stays_closed (Refs.calls c) b h = h
stays_closed Refs.shuts b h = ground arith

call_at-Known :
    (n : ℕ) (e : Refs.Event) (cs : List Entry) → All Known cs → All Known (call_at n e cs)
unfolding call_at
call_at-Known n e [] v = tt
call_at-Known zero e (c ∷ cs) v = (ground (arith, v.0, stays_closed e c.bridge), v.1)
call_at-Known (suc n) e (c ∷ cs) v = (v.0, call_at-Known n e cs v.1)

pub step-Known : (e : Event) (t : Table) → All Known t.conns → All Known (step e t).conns
unfolding step connection_cb
step-Known (accepts stream d) t v =
    branches (λ (x : Table). All Known x.conns) (taken stream t.conns) t _ (λ e. v)
      (λ e.
        branches (λ (x : Table). All Known x.conns) (not (t.server).srv) t _ (λ n. v)
          (λ n.
            enter-Known stream _ (each prune t.conns) (taken-prune stream t.conns ∙ e)
              (each-All Known Known prune prune-Known t.conns v)))
step-Known (calls n e) t v = call_at-Known n e t.conns v
step-Known (starts created listened callback) t v = v
step-Known listens t v = v
step-Known pauses t v = v
step-Known resumes t v = v

run-Known : (es : List Event) (t : Table) → All Known t.conns → All Known (run es t).conns
unfolding run
run-Known [] t v = v
run-Known (e ∷ es) t v = run-Known es (step e t) (step-Known e t v)

destroy_pipe-destroyed : (p : Pipe) → is_destroyed (destroy_pipe p) ≡ true
unfolding destroy_pipe World.step
destroy_pipe-destroyed (tcp w) = destroy-destroyed false w.pipe
destroy_pipe-destroyed (udp p) = (destroy_keeps p).1

-- A connection whose stream has closed, or whose pipe is destroyed.
abbrev pub Over : Entry → Type 0
Over c = ((c.bridge).box ≡ false) ⊎ (is_destroyed (c.bridge).pipe ≡ true)

shut-Over : (c : Entry) → Known c → Over (shut c)
unfolding shut Refs.step with_pipe
shut-Over c h =
    branches Over c.listed _ _
      (λ e.
        branches (λ (b : Bridge). (b.box ≡ false) ⊎ (is_destroyed b.pipe ≡ true)) (freed c.bridge) _
          _ (λ f. inl (ground arith)) (λ f. inr (destroy_pipe-destroyed (c.bridge).pipe)))
      (λ e. inl (ground (arith, h)))

shut_unlists : (c : Entry) → Known c → (shut c).listed ≡ false
unfolding shut
shut_unlists c h = branches (λ (x : Entry). x.listed ≡ false) c.listed _ _ (λ e. refl) (λ e. e)

destroy-srv : (s : HolesailServer) → (Server.destroy s).srv ≡ false
unfolding Server.destroy Server.close_server Server.stop_refresh
destroy-srv s = ground arith

pub destroy-Over : (t : Table) → All Known t.conns → All Over (each shut t.conns)
destroy-Over t v = each-All Known Over shut shut-Over t.conns v

-- Let a server without connections go through any history, with the addresses of streams that have closed
-- given out again in any way. Its `destroy` leaves every connection that it ever accepted with its stream
-- closed or its pipe destroyed, none of them in the map, and the server closed.
pub none_escapes :
    (s : HolesailServer) (es : List Event)
    → All Over (destroy (run es (record { server = s; conns = [] }))).conns
      × (((destroy (run es (record { server = s; conns = [] }))).server.srv ≡ false)
          × All
              (λ c. c.listed ≡ false)
              (destroy (run es (record { server = s; conns = [] }))).conns)
unfolding destroy
none_escapes s es =
    let t = run es (record { server = s; conns = [] }) in
    (
      each-All Known Over shut shut-Over t.conns (run-Known es _ tt),
      (
        destroy-srv t.server,
        each-All Known (λ c. c.listed ≡ false) shut shut_unlists t.conns (run-Known es _ tt),
      ),
    )
