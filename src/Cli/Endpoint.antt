-- ===== src/Cli/Endpoint.antt =====
-- `run_endpoint` of src/cli.cpp with its `Shutdown`: the session of a server or a client, from the start to
-- the exit status. What is printed is left out, but for whether an error was.
use holesail_cpp.Base.{
  ℕ, suc, if◌then◌else◌, Bool, true, false, not, Option, none, some, List, [], ◌∷◌,
}
use holesail_cpp.Rc.{Rc, is_ok}
use holesail_cpp.Crypto.{Crypto}
use holesail_cpp.Client.Table.{Listening}
use holesail_cpp.Holesail.Facade.{Holesail, Answers, ready, close, refresh_info}
use holesail_cpp.Holesail.Facade.History

pub data Effect : Type 0 where
  closes_sigint : Effect
  closes_sigterm : Effect
  prints_error : Effect
  prints_started : Effect

-- `Shutdown` and the variables of `run_endpoint`; `conn` is the facade.
pub record Session : Type 0 where
  pub conn : Holesail
  pub installed : Bool
  pub closing : Bool
  pub status : ℕ
  pub trace : List Effect

-- What the cancellation of the client's query leads to, wherever `close` is called.
pub record Cancelling : Type 0 where
  pub at_once : Bool
  pub proxy : Listening

abbrev closed : Cancelling → Session → Session
closed x s = record s { conn = close x.at_once x.proxy s.conn }

unfoldable pub begin_shutdown : Cancelling → Session → Session
begin_shutdown x s =
    if s.closing
    then s
    else (let shut = closed x (record s { closing = true }) in
        if not shut.installed
        then shut
        else record shut { trace = closes_sigterm ∷ closes_sigint ∷ shut.trace })

-- The lambda `fail`.
unfoldable pub report : Cancelling → Session → Session
report x s = begin_shutdown x (record s { status = 1; trace = prints_error ∷ s.trace })

-- The callback given to `ready`.
unfoldable pub ready_cb : Cancelling → Rc → Session → Session
ready_cb x rc s =
    if not (is_ok rc)
    then report x s
    else record s { conn = refresh_info s.conn; trace = prints_started ∷ s.trace }

pub data Event : Type 0 where
  signals : Event
  told : Rc → Event
  happens : History.Event → Event

unfoldable pub step : Crypto → Cancelling → Event → Session → Session
step c x signals s = begin_shutdown x s
step c x (told rc) s = ready_cb x rc s
step c x (happens e) s = record s { conn = History.step c e s.conn }

unfoldable pub run : Crypto → Cancelling → List Event → Session → Session
run c x [] s = s
run c x (e ∷ es) s = run c x es (step c x e s)

-- What `ready` returned, where it threw nothing.
unfoldable pub started : Cancelling → Option Rc × Session → Option Session
started x (none, s) = none
started x (some rc, s) = some (if is_ok rc then s else report x s)

-- The session up to the loop; `none` where `ready` throws.
unfoldable pub begin_session : Crypto → Cancelling → Bool → Answers → Holesail → Option Session
begin_session c x installed a conn =
    let done = ready c a true conn in
    started x (
      done.0,
      record { conn = done.1; installed = installed; closing = false; status = 0; trace = [] },
    )

-- The end of `run_endpoint`, once the loop has run dry.
unfoldable pub end_session : Cancelling → Session → Session
end_session x s = closed x s

-- How often the signal handles were closed, and how often an error was printed.
abbrev pub signals_closed : List Effect → ℕ
signals_closed [] = 0
signals_closed (closes_sigint ∷ es) = suc (signals_closed es)
signals_closed (e ∷ es) = signals_closed es

abbrev pub terms_closed : List Effect → ℕ
terms_closed [] = 0
terms_closed (closes_sigterm ∷ es) = suc (terms_closed es)
terms_closed (e ∷ es) = terms_closed es

-- An error was reported to the user.
abbrev pub erred : List Effect → Bool
erred [] = false
erred (prints_error ∷ es) = true
erred (e ∷ es) = erred es
