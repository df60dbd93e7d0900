-- ===== src/Holesail/Facade/Counts.antt =====
-- What the trace of a facade says of its DHTs and of the servers and clients that borrow them, and what
-- each operation does to them.
use holesail_cpp.Base.{
  ℕ, suc, ◌-◌, Bool, false, Option, none, some, List, [], ◌∷◌, All, ◌≡◌, refl, arith,
}
use holesail_cpp.Server
use holesail_cpp.Server.{HolesailServer, stop_refresh, close_server}
use holesail_cpp.Server.Table.{Entry, Table}
use holesail_cpp.Server.Table.Shut.{Known, Over, step-Known, destroy-Over}
use holesail_cpp.Client.Table.{Listening}
use holesail_cpp.Client.Table.History
use holesail_cpp.Client.Table.Final.{Dead, Fate, step-Fate, destroy-Dead}
use holesail_cpp.Holesail.Facade.{
  Dialler, Effect, creates_dht, makes_server, makes_client, frees_server, frees_client, reaps_dht,
  pause_server, pause_client, resume_server, resume_client, destroy_server, destroy_client,
  free_server, free_client,
}
use holesail_cpp.Holesail.Facade.History.{
  ServerCallback, accepts, calls, listens, refreshes, answers, serve_callback, on_server, on_client,
}

abbrev pub created : List Effect → ℕ
created [] = 0
created (creates_dht ∷ es) = suc (created es)
created (e ∷ es) = created es

abbrev pub reaped : List Effect → ℕ
reaped [] = 0
reaped (reaps_dht ∷ es) = suc (reaped es)
reaped (e ∷ es) = reaped es

-- How many servers and clients exist.
abbrev pub lent : List Effect → ℕ
lent [] = 0
lent (makes_server ∷ es) = suc (lent es)
lent (makes_client ∷ es) = suc (lent es)
lent (frees_server s ∷ es) = lent es - 1
lent (frees_client d ∷ es) = lent es - 1
lent (e ∷ es) = lent es

-- A server whose timer and listening server are gone, and each of whose connections has its stream closed or
-- its pipe destroyed.
pub record Down (s : Table) : Type 0 where
  pub stays : (s.server).state ≡ Server.destroyed
  pub srv : (s.server).srv ≡ false
  pub refresh : (s.server).refresh ≡ false
  pub conns : All Over s.conns

-- Servers and clients are destroyed when they are freed, and none exists when the DHT is given up.
abbrev pub Orderly : List Effect → Type 0
Orderly [] = Unit
Orderly (frees_server s ∷ es) = Down s × Orderly es
Orderly (frees_client d ∷ es) = Dead d × Orderly es
Orderly (reaps_dht ∷ es) = (lent es ≡ 0) × Orderly es
Orderly (e ∷ es) = Orderly es

abbrev pub count {ℓ} : {A : Type ℓ} → Option A → ℕ
count none = 0
count (some a) = 1

abbrev pub Fated : Option Dialler → Type 0
Fated none = Unit
Fated (some d) = Fate d.object

pub count-none {ℓ} : {A : Type ℓ} (o : Option A) → count o ≡ 0 → o ≡ none
count-none none h = refl
count-none (some a) h = absurd (omega (arith, h))

pub count-pause_server : (s : Option Table) → count (pause_server s) ≡ count s
unfolding pause_server
count-pause_server none = refl
count-pause_server (some s) = refl

pub count-resume_server : (s : Option Table) → count (resume_server s) ≡ count s
unfolding resume_server
count-resume_server none = refl
count-resume_server (some s) = refl

pub count-on_server : (e : ServerCallback) (s : Option Table) → count (on_server e s) ≡ count s
unfolding on_server
count-on_server e none = refl
count-on_server e (some s) = refl

pub count-pause_client : (d : Option Dialler) → count (pause_client d) ≡ count d
unfolding pause_client
count-pause_client none = refl
count-pause_client (some d) = refl

pub count-resume_client : (d : Option Dialler) → count (resume_client d) ≡ count d
unfolding resume_client
count-resume_client none = refl
count-resume_client (some d) = refl

pub count-on_client : (e : History.Event) (d : Option Dialler) → count (on_client e d) ≡ count d
unfolding on_client
count-on_client e none = refl
count-on_client e (some d) = refl

pub pause_client-Fated : (d : Option Dialler) → Fated d → Fated (pause_client d)
unfolding pause_client History.step
pause_client-Fated none f = tt
pause_client-Fated (some d) f = step-Fate History.pauses d.object f

pub resume_client-Fated : (d : Option Dialler) → Fated d → Fated (resume_client d)
unfolding resume_client History.step
resume_client-Fated none f = tt
resume_client-Fated (some d) f = step-Fate History.resumes d.object f

pub on_client-Fated : (e : History.Event) (d : Option Dialler) → Fated d → Fated (on_client e d)
unfolding on_client
on_client-Fated e none f = tt
on_client-Fated e (some d) f = step-Fate e d.object f

pub free-lent :
    (s : Option Table) (d : Option Dialler) (t : List Effect)
    → lent (free_client d (free_server s t)) ≡ lent t - count s - count d
unfolding free_client free_server
free-lent none none t = omega arith
free-lent none (some d) t = omega arith
free-lent (some s) none t = omega arith
free-lent (some s) (some d) t = refl

pub free-created :
    (s : Option Table) (d : Option Dialler) (t : List Effect)
    → (created (free_client d (free_server s t)) ≡ created t)
      × (reaped (free_client d (free_server s t)) ≡ reaped t)
unfolding free_client free_server
free-created none none t = (refl, refl)
free-created none (some d) t = (refl, refl)
free-created (some s) none t = (refl, refl)
free-created (some s) (some d) t = (refl, refl)

-- Every connection with an open stream is in the server's table.
abbrev pub Tended : Option Table → Type 0
Tended none = Unit {0}
Tended (some s) = All Known s.conns

pub pause_server-Tended : (s : Option Table) → Tended s → Tended (pause_server s)
unfolding pause_server
pause_server-Tended none v = tt
pause_server-Tended (some s) v = v

pub resume_server-Tended : (s : Option Table) → Tended s → Tended (resume_server s)
unfolding resume_server
resume_server-Tended none v = tt
resume_server-Tended (some s) v = v

pub on_server-Tended : (e : ServerCallback) (s : Option Table) → Tended s → Tended (on_server e s)
unfolding on_server serve_callback
on_server-Tended e none v = tt
on_server-Tended (accepts stream d) (some s) v = step-Known (Server.Table.accepts stream d) s v
on_server-Tended (calls n e) (some s) v = step-Known (Server.Table.calls n e) s v
on_server-Tended listens (some s) v = step-Known Server.Table.listens s v
on_server-Tended refreshes (some s) v = v
on_server-Tended (answers ctx alive) (some s) v = v

pub Server-destroy-Down : (s : Table) → All Known s.conns → Down (Server.Table.destroy s)
unfolding Server.Table.destroy Server.destroy close_server stop_refresh
Server-destroy-Down s v = record {
  stays = refl;
  srv = ground arith;
  refresh = ground arith;
  conns = destroy-Over s v;
}

pub freed_server-Orderly :
    (s : Option Table) (t : List Effect)
    → Tended s
    → Orderly t
    → Orderly (free_server (destroy_server s) t)
unfolding free_server destroy_server
freed_server-Orderly none t k v = v
freed_server-Orderly (some s) t k v = (Server-destroy-Down s k, v)

pub freed_client-Orderly :
    (b : Bool) (r : Listening) (d : Option Dialler) (t : List Effect)
    → Fated d
    → Orderly t
    → Orderly (free_client (destroy_client b r d) t)
unfolding free_client destroy_client
freed_client-Orderly b r none t f v = v
freed_client-Orderly b r (some d) t f v = (destroy-Dead b r d.object f, v)

pub count-destroy_server : (s : Option Table) → count (destroy_server s) ≡ count s
unfolding destroy_server
count-destroy_server none = refl
count-destroy_server (some s) = refl

pub count-destroy_client :
    (b : Bool) (r : Listening) (d : Option Dialler) → count (destroy_client b r d) ≡ count d
unfolding destroy_client
count-destroy_client b r none = refl
count-destroy_client b r (some d) = refl
