-- ===== src/Holesail/Facade.antt =====
-- `Holesail` of src/holesail.cpp and include/holesail/holesail.hpp: the object that owns the DHT and the
-- server or the client that borrows it. A method takes the answers of hyperdht and libuv.
pub mod History
pub mod Counts
pub mod Closing
pub mod Borrowers
pub mod Lending
pub mod Starting
use holesail_cpp.Base.{
  ℕ, zero, suc, if◌then◌else◌, Bool, true, false, not, Option, none, some, is_some, value_or, List,
  [], ◌∷◌, Bytes, codes,
}
use holesail_cpp.Rc.{Rc, uv_ealready, uv_enomem}
use holesail_cpp.Crypto.{Crypto}
use holesail_cpp.Server
use holesail_cpp.Server.{HolesailServer, new_server}
use holesail_cpp.Client.{target}
use holesail_cpp.Client.Table
use holesail_cpp.Client.Table.{HolesailClient, Listening, new_client}
use holesail_cpp.Holesail.{
  Options, Checked, valid, invalid, validate_opts, Derived, derive, server_config, client_config,
  Info, Endpoint, serves, dials, idle, info,
}

-- The server is here with the connections that it accepted. The client with its `target_`:
pub record Dialler : Type 0 where
  pub target : Bytes
  pub object : HolesailClient

-- `frees_server` and `frees_client` have the object as it was when its pointer was reset.
pub data Effect : Type 0 where
  creates_dht : Effect
  makes_server : Effect
  makes_client : Effect
  frees_server : Server.Table.Table → Effect
  frees_client : HolesailClient → Effect
  reaps_dht : Effect

-- `dht` says that `dht_` is not null.
pub record Holesail : Type 0 where
  pub options : Options
  pub derived : Derived
  pub dht : Bool
  pub opened : Bool
  pub server : Option Server.Table.Table
  pub client : Option Dialler
  pub info_ : Info
  pub trace : List Effect

abbrev pub no_info : Info
no_info = record {
  is_server = false;
  state = [];
  secure = false;
  port = 0;
  host = [];
  is_udp = false;
  seed = [];
  key = [];
  url = [];
  public_key = [];
}

-- What the calls of one `ready` answer; `drawn` are random bytes for a seed.
pub record Answers : Type 0 where
  pub dht_created : Bool
  pub drawn : Bytes
  pub server_created : Bool
  pub listened : Rc
  pub queried : Bool
  pub proxy : Listening

abbrev zeros : ℕ → Bytes
zeros zero = []
zeros (suc n) = 0 ∷ zeros n

unfoldable pub client_state_text : Table.State → Bytes
client_state_text Table.unset = []
client_state_text Table.waiting = codes "waiting"
client_state_text Table.listening = codes "listening"
client_state_text Table.paused = codes "paused"
client_state_text Table.destroyed = codes "destroyed"

unfoldable pub client_endpoint : Bool → Option Dialler → Endpoint
client_endpoint opened none = idle opened
client_endpoint opened (some d) =
    dials (client_state_text (d.object).state) (d.object).resolved d.target

unfoldable pub endpoint_of : Bool → Option Server.Table.Table → Option Dialler → Endpoint
endpoint_of opened (some s) client = serves s.server
endpoint_of opened none client = client_endpoint opened client

-- `info`, which keeps what it returns in `info_`.
unfoldable pub refresh_info : Holesail → Holesail
refresh_info h = record h {
  info_ = info h.options h.derived (endpoint_of h.opened h.server h.client) h.info_;
}

unfoldable pub pause_server : Option Server.Table.Table → Option Server.Table.Table
pause_server none = none
pause_server (some s) = some (record s { server = Server.pause s.server })

unfoldable pub pause_client : Option Dialler → Option Dialler
pause_client none = none
pause_client (some d) = some (record d { object = Table.pause d.object })

unfoldable pub pause : Holesail → Holesail
pause h = record h { server = pause_server h.server; client = pause_client h.client }

unfoldable pub resume_server : Option Server.Table.Table → Option Server.Table.Table
resume_server none = none
resume_server (some s) = some (record s { server = Server.resume s.server })

unfoldable pub resume_client : Option Dialler → Option Dialler
resume_client none = none
resume_client (some d) = some (record d { object = Table.resume d.object })

unfoldable pub resume : Holesail → Holesail
resume h = record h { server = resume_server h.server; client = resume_client h.client }

unfoldable pub destroy_server : Option Server.Table.Table → Option Server.Table.Table
destroy_server none = none
destroy_server (some s) = some (Server.Table.destroy s)

-- `at_once` and `proxy` are what the cancellation of the client's query leads to.
unfoldable pub destroy_client : Bool → Listening → Option Dialler → Option Dialler
destroy_client at_once proxy none = none
destroy_client at_once proxy (some d) =
    some (record d { object = Table.destroy at_once proxy d.object })

-- `server_.reset()` and `client_.reset()`
unfoldable pub free_server : Option Server.Table.Table → List Effect → List Effect
free_server none t = t
free_server (some s) t = frees_server s ∷ t

unfoldable pub free_client : Option Dialler → List Effect → List Effect
free_client none t = t
free_client (some d) t = frees_client d.object ∷ t

unfoldable pub reset_endpoint : Holesail → Holesail
reset_endpoint h = record h {
  server = none;
  client = none;
  trace = free_client h.client (free_server h.server h.trace);
}

-- The call of `reap_dht`, which Reaper models.
unfoldable pub release_dht : Holesail → Holesail
release_dht h = record h {
  dht = false;
  info_ = record h.info_ { state = codes "destroyed" };
  trace = if h.dht then reaps_dht ∷ h.trace else h.trace;
}

unfoldable pub close : Bool → Listening → Holesail → Holesail
close at_once proxy h = release_dht (
    reset_endpoint (
      refresh_info (record h {
        server = destroy_server h.server;
        client = destroy_client at_once proxy h.client;
      })))

module _ (c : Crypto) where
  -- The constructor past `validate_opts`, which throws where this is `none`; `drawn` are random bytes.
  unfoldable pub constructed : Checked → Bytes → Option Holesail
  constructed (invalid message) drawn = none
  constructed (valid options) drawn = some (record {
    options = options;
    derived = derive c options drawn;
    dht = false;
    opened = false;
    server = none;
    client = none;
    info_ = no_info;
    trace = [];
  })

  unfoldable pub new_holesail : Options → Bytes → Option Holesail
  new_holesail options drawn = constructed (validate_opts options) drawn

  -- The server branch of `ready` behind its constructor, `none` is what that throws.
  unfoldable pub serve : Answers → Bool → Option HolesailServer → Holesail → Option Rc × Holesail
  serve a callback none h = (none, h)
  serve a callback (some s) h =
      let started = Server.start a.server_created a.listened callback s in
      (
        some started.0,
        record h {
          server = some (record { server = started.1; conns = [] });
          trace = makes_server ∷ h.trace;
        },
      )

  unfoldable pub dial : Answers → Bool → Holesail → Option Rc × Holesail
  dial a callback h =
      let config = client_config h.options h.derived in
      let to = target c config in
      let begun =
        Table.connect a.queried a.proxy callback (new_client config true (not (is_some to))) in
      (
        some begun.0,
        record h {
          client = some (record { target = value_or to (zeros 32); object = begun.1 });
          trace = makes_client ∷ h.trace;
        },
      )

  -- `ready`: what it returns, `none` for an exception.
  unfoldable pub ready : Answers → Bool → Holesail → Option Rc × Holesail
  ready a callback h =
      if h.dht
      then (some uv_ealready, h)
      else if not a.dht_created
      then (some uv_enomem, h)
      else (let made = record h { dht = true; opened = true; trace = creates_dht ∷ h.trace } in
          if (h.options).server
          then serve a callback (new_server c (server_config h.options h.derived) true a.drawn) made
          else dial a callback made)
