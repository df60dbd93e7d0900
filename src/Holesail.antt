-- ===== src/Holesail.antt =====
-- src/holesail.cpp and include/holesail/holesail.hpp: options, key derivation, the connection url and
-- the information that an endpoint reports.
pub mod Rendezvous
pub mod LookupQuery
pub mod Reaper
pub mod Facade
use holesail_cpp.Base.{
  ℕ, ◌==◌, leb, [], if◌then◌else◌, Bool, true, false, not, ◌&&◌, ◌||◌, Option, none, some, value_or,
  is_some, ◌++◌, is_empty, Bytes, codes,
}
use holesail_cpp.Keys.{ParsedUrl, parse_url, to_hex, random_hex32, z32_encode}
use holesail_cpp.Crypto.{Crypto}
use holesail_cpp.Text.{Signed}
use holesail_cpp.Server
use holesail_cpp.Server.{HolesailServer, State, key, public_key_z32}
use holesail_cpp.Client
use holesail_cpp.Client.{Resolved}

pub record Options : Type 0 where
  pub server : Bool
  pub client : Bool
  pub port : Option ℕ
  pub host : Option Bytes
  pub key : Option Bytes
  pub secure : Option Bool
  pub udp : Option Bool
  pub log_level : Signed

-- `validate_opts`: the options, or the message of the `OptionsError`.
pub data Checked : Type 0 where
  valid : Options → Checked
  invalid : Bytes → Checked

-- Absent, or present and empty.
abbrev pub is_blank : Option Bytes → Bool
is_blank none = true
is_blank (some s) = is_empty s

unfoldable pub validate_opts : Options → Checked
validate_opts options =
    if options.client && not (is_some options.key) || is_some options.key && is_blank options.key
    then invalid (codes "Key is empty")
    else if options.server && options.client
    then invalid (codes "Can not set both server and client at once")
    else if options.server && is_blank options.host
    then invalid (codes "No host specified")
    else valid options

pub record Derived : Type 0 where
  pub secure : Bool
  pub key : Bytes
  pub seed_hex : Bytes

unfoldable pub hash_hex : Crypto → Bytes → Bytes
hash_hex c key = to_hex (c.sha256 key)

-- `derive`; `drawn` are the random bytes for a secure server without a key.
unfoldable pub derive : Crypto → Options → Bytes → Derived
derive c options drawn =
    let parsed = parse_url (value_or options.key []) in
    let secure = value_or parsed.secure (value_or options.secure false) in
    let given = parsed.key in
    let generated = random_hex32 drawn in
    if options.server
    then if not (is_empty given)
      then record { secure = secure; key = given; seed_hex = hash_hex c given }
      else if secure
      then record { secure = secure; key = generated; seed_hex = hash_hex c generated }
      else record { secure = secure; key = []; seed_hex = [] }
    else record { secure = secure; key = given; seed_hex = if secure then hash_hex c given else [] }

unfoldable pub make_url : Bool → Bytes → Bytes
make_url secure key = (if secure then codes "hs://s000" else codes "hs://0000") ++ key

-- The configurations that `ready` hands to the server and to the client.
unfoldable pub server_config : Options → Derived → Server.Config
server_config options derived = record {
  local_port = value_or options.port 0;
  local_host = value_or options.host (codes "127.0.0.1");
  seed_hex = derived.seed_hex;
  secure = derived.secure;
  udp = value_or options.udp false;
}

unfoldable pub client_config : Options → Derived → Client.Config
client_config options derived = record {
  key = derived.key;
  secure = derived.secure;
  local_port = options.port;
  local_host = options.host;
  udp = options.udp;
}

-- `Info`; `is_server` is the type "server", `is_udp` the protocol "udp".
pub record Info : Type 0 where
  pub is_server : Bool
  pub state : Bytes
  pub secure : Bool
  pub port : ℕ
  pub host : Bytes
  pub is_udp : Bool
  pub seed : Bytes
  pub key : Bytes
  pub url : Bytes
  pub public_key : Bytes

unfoldable pub state_text : State → Bytes
state_text Server.unset = []
state_text Server.listening = codes "listening"
state_text Server.paused = codes "paused"
state_text Server.destroyed = codes "destroyed"

-- The endpoint behind the facade: a server; a client with its state, its resolved options and its
-- target; or neither, before `ready` (`opened_` is false) or after `close`.
pub data Endpoint : Type 0 where
  serves : HolesailServer → Endpoint
  dials : Bytes → Resolved → Bytes → Endpoint
  idle : Bool → Endpoint

-- The part of `info` that reads the endpoint, on top of the last information.
unfoldable pub endpoint_info : Options → Endpoint → Info → Info
endpoint_info options (serves s) i = record i {
  state = state_text s.state;
  port = (s.config).local_port;
  host = (s.config).local_host;
  is_udp = (s.config).udp;
  public_key = public_key_z32 s;
}
endpoint_info options (dials state resolved target) i = record i {
  state = state;
  port = resolved.port;
  host = resolved.host;
  is_udp = resolved.udp;
  public_key = z32_encode target;
}
endpoint_info options (idle opened) i = if opened then i else record i {
  port = value_or options.port 0;
  host = value_or options.host [];
  is_udp = value_or options.udp false;
}

unfoldable pub underlying_key : Derived → Endpoint → Bytes
underlying_key derived (serves s) = key s
underlying_key derived (dials state resolved target) = derived.key
underlying_key derived (idle opened) = derived.key

unfoldable pub info : Options → Derived → Endpoint → Info → Info
info options derived endpoint last =
    let shown =
      if not (is_empty derived.key) && derived.secure
      then derived.key
      else underlying_key derived endpoint in
    record (endpoint_info options endpoint last) {
      is_server = options.server;
      secure = derived.secure;
      seed = derived.seed_hex;
      key = shown;
      url = make_url derived.secure shown;
    }
