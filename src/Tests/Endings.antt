-- ===== src/Tests/Endings.antt =====
-- Tests of a session of the command line.
use holesail_cpp.Base.{
  if◌then◌else◌, true, false, not, ◌&&◌, ◌||◌, none, some, List, [], ◌∷◌, codes, ◌≡◌, refl,
}
use holesail_cpp.Rc.{ok, fail}
use holesail_cpp.Client.{target}
use holesail_cpp.Client.Table
use holesail_cpp.Client.Table.{Listening}
use holesail_cpp.Client.Table.History
use holesail_cpp.Holesail.{Options, derive, client_config}
use holesail_cpp.Keys.{parse_url}
use holesail_cpp.Holesail.Facade
use holesail_cpp.Holesail.Facade.{Holesail, Answers, ready, dial}
use holesail_cpp.Holesail.Facade.History.{client_event}
use holesail_cpp.Cli.Endpoint.{
  Session, Cancelling, Event, signals, told, happens, run, started, begin_session, end_session,
  signals_closed, terms_closed, erred,
}
use holesail_cpp.Cli.Status.{session_ends}
use holesail_cpp.Tests.Toy.{toy, fill}

abbrev dialling : Options
dialling = record {
  server = false;
  client = true;
  port = none;
  host = none;
  key = some (codes "hs://s000my secret");
  secure = none;
  udp = none;
  log_level = record { negative = false; magnitude = 1 };
}

abbrev guest : Holesail
guest = record {
  options = dialling;
  derived = derive toy dialling (fill 32 9);
  dht = false;
  opened = false;
  server = none;
  client = none;
  info_ = Facade.no_info;
  trace = [];
}

abbrev proxy : Listening
proxy = record { initialised = ok; resolution = ok; bound = fail 98; listened = ok; named = none }

abbrev answers : Answers
answers = record {
  dht_created = true;
  drawn = fill 32 9;
  server_created = true;
  listened = ok;
  queried = true;
  proxy = proxy;
}

abbrev cancelling : Cancelling
cancelling = record { at_once = true; proxy = proxy }

abbrev begun : Session
begun = record {
  conn = (ready toy answers true guest).1;
  installed = true;
  closing = false;
  status = 0;
  trace = [];
}

begun_made : begin_session toy cancelling true answers guest ≡ some begun
unfolding begin_session started ready dial Table.connect Table.new_client target derive parse_url
    client_config
begun_made = refl

-- The port is taken, which the callback reports; the user still sends two signals.
abbrev taken : List Event
taken = happens (client_event (History.query_done proxy)) ∷ told (fail 98) ∷ signals ∷ signals ∷ []

session_ends_example :
    (signals_closed (end_session cancelling (run toy cancelling taken begun)).trace ≡ (
      if (end_session cancelling (run toy cancelling taken begun)).installed
        && (end_session cancelling (run toy cancelling taken begun)).closing
      then 1
      else 0))
    × ((terms_closed (end_session cancelling (run toy cancelling taken begun)).trace
          ≡ signals_closed (end_session cancelling (run toy cancelling taken begun)).trace)
        × (((end_session cancelling (run toy cancelling taken begun)).status ≡ (
              if erred (end_session cancelling (run toy cancelling taken begun)).trace
              then 1
              else 0))
            × (((not (erred (end_session cancelling (run toy cancelling taken begun)).trace)
                    || (end_session cancelling (run toy cancelling taken begun)).closing)
                  ≡ true)
                × ((end_session cancelling (run toy cancelling taken begun)).conn.dht ≡ false))))
session_ends_example = session_ends toy cancelling true answers guest taken begun begun_made
