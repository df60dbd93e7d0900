-- ===== src/Holesail/Facade/History.antt =====
-- Histories of a `Holesail`: the calls of its owner, and between them the callbacks of its server or its
-- client, in any order.
use holesail_cpp.Base.{ℕ, Bool, Option, none, some, List, [], ◌∷◌}
use holesail_cpp.Crypto.{Crypto}
use holesail_cpp.Server
use holesail_cpp.Server.{GetCtx, refresh_cb, get_done_cb}
use holesail_cpp.Server.Conn.Refs
use holesail_cpp.Server.Conn.Refs.{Dialling}
use holesail_cpp.Client.Table.{Listening}
use holesail_cpp.Client.Table.History
use holesail_cpp.Holesail.Facade.{
  Holesail, Dialler, Answers, ready, pause, resume, refresh_info, close,
}

-- `accepts` and `calls` are those of the server's table of connections.
pub data ServerCallback : Type 0 where
  accepts : Option ℕ → Dialling → ServerCallback
  calls : ℕ → Refs.Event → ServerCallback
  listens : ServerCallback
  refreshes : ServerCallback
  answers : GetCtx → Bool → ServerCallback

unfoldable pub serve_callback : ServerCallback → Server.Table.Table → Server.Table.Table
serve_callback (accepts stream d) s = Server.Table.step (Server.Table.accepts stream d) s
serve_callback (calls n e) s = Server.Table.step (Server.Table.calls n e) s
serve_callback listens s = Server.Table.step Server.Table.listens s
serve_callback refreshes s = record s { server = refresh_cb s.server }
serve_callback (answers ctx alive) s = record s { server = get_done_cb ctx alive s.server }

unfoldable pub on_server : ServerCallback → Option Server.Table.Table → Option Server.Table.Table
on_server e none = none
on_server e (some s) = some (serve_callback e s)

unfoldable pub on_client : History.Event → Option Dialler → Option Dialler
on_client e none = none
on_client e (some d) = some (record d { object = History.step e d.object })

pub data Event : Type 0 where
  readies : Answers → Bool → Event
  pauses : Event
  resumes : Event
  asks_info : Event
  closes : Bool → Listening → Event
  server_event : ServerCallback → Event
  client_event : History.Event → Event

unfoldable pub step : Crypto → Event → Holesail → Holesail
step c (readies a callback) h = (ready c a callback h).1
step c pauses h = pause h
step c resumes h = resume h
step c asks_info h = refresh_info h
step c (closes at_once proxy) h = close at_once proxy h
step c (server_event e) h = record h { server = on_server e h.server }
step c (client_event e) h = record h { client = on_client e h.client }

unfoldable pub run : Crypto → List Event → Holesail → Holesail
run c [] h = h
run c (e ∷ es) h = run c es (step c e h)

pub run_inv {ℓ} :
    (c : Crypto) (P : Holesail → Type ℓ)
    → ((e : Event) (h : Holesail) → P h → P (step c e h))
    → (es : List Event) (h : Holesail) → P h
    → P (run c es h)
unfolding run
run_inv c P keeps [] h v = v
run_inv c P keeps (e ∷ es) h v = run_inv c P keeps es (step c e h) (keeps e h v)
