-- ===== src/Tests/Facade.antt =====
-- Tests of the facade and of the reaper of a DHT.
use holesail_cpp.Base.{
  ℕ, zero, suc, ◌+◌, leb, if◌then◌else◌, true, false, none, some, is_some, List, [], ◌∷◌, Bytes,
  codes, ◌≡◌, refl, arith, ◌⊎◌,
}
use holesail_cpp.Rc.{ok}
use holesail_cpp.Client.Table.{Listening}
use holesail_cpp.Server
use holesail_cpp.Server.{HolesailServer}
use holesail_cpp.Holesail.{Options, server_config, derive, make_url, validate_opts}
use holesail_cpp.Holesail.Reaper
use holesail_cpp.Holesail.Reaper.{
  DhtReaper, fires, withdrawn, reap_dht, drain_turns, drained, freed_after_drain,
}
use holesail_cpp.Holesail.Facade
use holesail_cpp.Holesail.Facade.{
  Holesail, Answers, constructed, new_holesail, ready, close, refresh_info,
}
use holesail_cpp.Holesail.Facade.History.{
  Event, readies, pauses, resumes, closes, server_event, run, listens,
}
use holesail_cpp.Holesail.Facade.Counts.{created, reaped, Orderly}
use holesail_cpp.Holesail.Facade.Lending.{dht_given_up_last}
use holesail_cpp.Holesail.Facade.Starting.{ready_answers}
use holesail_cpp.Holesail.Facade.Closing.{info_after_close}
use holesail_cpp.Tests.Toy.{toy, fill, fill-AreBytes}

abbrev fresh_reaper : DhtReaper
fresh_reaper = record { turns_left = 16; timer = Reaper.begins; withdrawing = false; trace = [] }

fresh_reaper_made : reap_dht true ≡ some fresh_reaper
unfolding reap_dht
fresh_reaper_made = refl

abbrev turns : ℕ → List Reaper.Event → List Reaper.Event
turns zero es = es
turns (suc n) es = fires ∷ turns n es

abbrev reaping : List Reaper.Event
reaping = fires ∷ withdrawn ∷ turns 17 []

freed_after_drain_example :
    Reaper.freed (Reaper.run reaping fresh_reaper).trace
    ≡ (if leb drain_turns (drained reaping) then 1 else 0)
freed_after_drain_example = freed_after_drain reaping fresh_reaper fresh_reaper_made

abbrev shared : Options
shared = record {
  server = true;
  client = false;
  port = some 3000;
  host = some (codes "127.0.0.1");
  key = none;
  secure = some false;
  udp = none;
  log_level = record { negative = false; magnitude = 1 };
}

abbrev drawn : Bytes
drawn = fill 32 9

abbrev idle_facade : Holesail
idle_facade = record {
  options = shared;
  derived = derive toy shared drawn;
  dht = false;
  opened = false;
  server = none;
  client = none;
  info_ = Facade.no_info;
  trace = [];
}

idle_facade_made : new_holesail toy shared drawn ≡ some idle_facade
unfolding new_holesail constructed validate_opts
idle_facade_made = refl

abbrev proxy : Listening
proxy = record { initialised = ok; resolution = ok; bound = ok; listened = ok; named = none }

abbrev answers : Answers
answers = record {
  dht_created = true;
  drawn = drawn;
  server_created = true;
  listened = ok;
  queried = true;
  proxy = proxy;
}

-- The server is started, listens, is paused and resumed, and closed; then a second one is started.
abbrev evening : List Event
evening =
    readies answers true
    ∷ server_event listens
    ∷ readies answers true
    ∷ pauses
    ∷ resumes
    ∷ closes false proxy
    ∷ readies answers true
    ∷ []

dht_given_up_last_example :
    (created (run toy evening idle_facade).trace
      ≡ reaped (run toy evening idle_facade).trace
        + (if (run toy evening idle_facade).dht then 1 else 0))
    × (Orderly (run toy evening idle_facade).trace
        × (((run toy evening idle_facade).dht ≡ true)
            ⊎ (((run toy evening idle_facade).server ≡ none)
                × ((run toy evening idle_facade).client ≡ none))))
dht_given_up_last_example = dht_given_up_last toy shared drawn idle_facade evening idle_facade_made

abbrev day : List Event
day = readies answers true ∷ closes false proxy ∷ []

ready_answers_example : is_some (ready toy answers true (run toy day idle_facade)).0 ≡ true
ready_answers_example =
    ready_answers toy shared drawn idle_facade day answers true idle_facade_made
      (fill-AreBytes 32 9 (omega arith)) refl

abbrev sharing : HolesailServer
sharing = record {
  config = server_config shared (derive toy shared drawn);
  seed = drawn;
  public_key = toy.public_key_of drawn;
  dht = true;
  srv = true;
  refresh = true;
  on_listening = true;
  record_bytes = codes "{}";
  state = Server.listening;
  trace = [];
}

abbrev opened_facade : Holesail
opened_facade = record idle_facade {
  dht = true;
  opened = true;
  server = some (record { server = sharing; conns = [] });
}

info_after_close_example :
    (refresh_info (close false proxy opened_facade)).info_
    ≡ record (refresh_info opened_facade).info_ {
      state = codes "destroyed";
      key = (opened_facade.derived).key;
      url = make_url (opened_facade.derived).secure (opened_facade.derived).key;
    }
info_after_close_example = info_after_close false proxy opened_facade refl
