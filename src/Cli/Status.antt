-- ===== src/Cli/Status.antt =====
-- How a session of the command line ends.
use holesail_cpp.Base.{
  if◌then◌else◌, Bool, true, false, not, ◌&&◌, ◌||◌, Option, none, some, List, [], ◌∷◌, ◌≡◌, refl,
  sym, ◌∙◌, arith, subst, branches,
}
use mathlib.Core.Option.{some-injective}
use holesail_cpp.Rc.{Rc, is_ok}
use holesail_cpp.Crypto.{Crypto}
use holesail_cpp.Holesail.Facade.{Holesail, Answers, close, release_dht}
use holesail_cpp.Cli.Endpoint.{
  Session, Cancelling, begin_shutdown, report, ready_cb, Event, signals, told, happens, step, run,
  started, begin_session, end_session, signals_closed, terms_closed, erred,
}

-- Both signal handles were closed once if the session is closing and had installed them, and never
-- otherwise; the status is 1 exactly if an error was printed.
record Tidy (s : Session) : Type 0 where
  ints : signals_closed s.trace ≡ (if s.installed && s.closing then 1 else 0)
  terms : terms_closed s.trace ≡ (if s.installed && s.closing then 1 else 0)
  exits : s.status ≡ (if erred s.trace then 1 else 0)

-- A session that printed an error is closing.
record Ended (s : Session) : Type 0 where
  tidy : Tidy s
  ends : (not (erred s.trace) || s.closing) ≡ true

begin_shutdown-Tidy : (x : Cancelling) (s : Session) → Tidy s → Tidy (begin_shutdown x s)
unfolding begin_shutdown
begin_shutdown-Tidy x s v =
    branches Tidy s.closing _ _ (λ e. v)
      (λ e.
        branches Tidy (not s.installed) _ _
          (λ n. record {
            ints = ground (arith, v.ints);
            terms = ground (arith, v.terms);
            exits = v.exits;
          })
          (λ n. record {
            ints = ground (arith, v.ints);
            terms = ground (arith, v.terms);
            exits = v.exits;
          }))

begin_shutdown-closing : (x : Cancelling) (s : Session) → (begin_shutdown x s).closing ≡ true
unfolding begin_shutdown
begin_shutdown-closing x s =
    branches (λ (r : Session). r.closing ≡ true) s.closing _ _ (λ e. e)
      (λ e.
        branches (λ (r : Session). r.closing ≡ true) (not s.installed) _ _ (λ n. refl) (λ n. refl))

begin_shutdown-Ended : (x : Cancelling) (s : Session) → Tidy s → Ended (begin_shutdown x s)
begin_shutdown-Ended x s v = record {
  tidy = begin_shutdown-Tidy x s v;
  ends = let h = begin_shutdown-closing x s in ground (arith, h);
}

report-Ended : (x : Cancelling) (s : Session) → Tidy s → Ended (report x s)
unfolding report
report-Ended x s v =
    begin_shutdown-Ended x _ (record { ints = v.ints; terms = v.terms; exits = refl })

ready_cb-Ended : (x : Cancelling) (rc : Rc) (s : Session) → Ended s → Ended (ready_cb x rc s)
unfolding ready_cb
ready_cb-Ended x rc s v =
    branches Ended (not (is_ok rc)) _ _ (λ e. report-Ended x s v.tidy)
      (λ e. record {
        tidy = record { ints = (v.tidy).ints; terms = (v.tidy).terms; exits = (v.tidy).exits };
        ends = v.ends;
      })

step-Ended :
    (c : Crypto) (x : Cancelling) (e : Event) (s : Session) → Ended s → Ended (step c x e s)
unfolding step
step-Ended c x signals s v = begin_shutdown-Ended x s v.tidy
step-Ended c x (told rc) s v = ready_cb-Ended x rc s v
step-Ended c x (happens e) s v = record {
  tidy = record { ints = (v.tidy).ints; terms = (v.tidy).terms; exits = (v.tidy).exits };
  ends = v.ends;
}

run-Ended :
    (c : Crypto) (x : Cancelling) (es : List Event) (s : Session) → Ended s → Ended (run c x es s)
unfolding run
run-Ended c x [] s v = v
run-Ended c x (e ∷ es) s v = run-Ended c x es (step c x e s) (step-Ended c x e s v)

fresh-Ended :
    (installed : Bool) (conn : Holesail)
    → Ended (record { conn = conn; installed = installed; closing = false; status = 0; trace = [] })
fresh-Ended installed conn = record {
  tidy = record { ints = ground arith; terms = ground arith; exits = refl };
  ends = refl;
}

started-Ended :
    (x : Cancelling) (r : Option Rc) (s t : Session) → Ended s → started x (r, s) ≡ some t → Ended t
unfolding started
started-Ended x none s t v h = absurd (cc)
started-Ended x (some rc) s t v h =
    subst Ended (some-injective _ t h)
      (branches Ended (is_ok rc) _ _ (λ e. v) (λ e. report-Ended x s v.tidy))

-- A session of the command line, with any signals and callbacks in any order: each of the two signal
-- handles is closed once if they were installed and the session was shut down, and never twice; the exit
-- status is 1 exactly if an error was printed, which also shuts the session down; and at the end the
-- facade has given up its DHT.
pub session_ends :
    (c : Crypto) (x : Cancelling) (installed : Bool) (a : Answers) (conn : Holesail)
    (es : List Event) (s : Session)
    → begin_session c x installed a conn ≡ some s
    → (signals_closed (end_session x (run c x es s)).trace ≡ (
        if (end_session x (run c x es s)).installed && (end_session x (run c x es s)).closing
        then 1
        else 0))
      × ((terms_closed (end_session x (run c x es s)).trace
            ≡ signals_closed (end_session x (run c x es s)).trace)
          × (((end_session x (run c x es s)).status
                ≡ (if erred (end_session x (run c x es s)).trace then 1 else 0))
              × (((not (erred (end_session x (run c x es s)).trace)
                      || (end_session x (run c x es s)).closing)
                    ≡ true)
                  × ((end_session x (run c x es s)).conn.dht ≡ false))))
unfolding begin_session end_session close release_dht
session_ends c x installed a conn es s h =
    let v = run-Ended c x es s (started-Ended x _ _ s (fresh-Ended installed _) h) in
    ((v.tidy).ints, ((v.tidy).terms ∙ sym (v.tidy).ints, ((v.tidy).exits, (v.ends, refl))))
