-- ===== src/Tests/Links.antt =====
-- Tests of the way from a server's url to the client, of the client's DHT query and of `lookup`.
use holesail_cpp.Base.{
  suc, ◌<◌, ◌≤◌, ◌∷◌, List, [], Bytes, codes, Option, some, none, value_or, Bool, true, false, ◌≡◌,
  refl, inl, arith, ◌⊎◌, length, if◌then◌else◌,
}
use holesail_cpp.Keys.{
  parse_url, to_hex, random_hex32, from_hex, from_hex_loop, nibble_of, char_at, hex_digits,
}
use holesail_cpp.Record.{Record, encode_record, decode_record, append_escaped}
use holesail_cpp.Record.RoundTrip.{decode_record-encode_record}
use holesail_cpp.Server
use holesail_cpp.Server.{HolesailServer, new_server, with_seed, from_seed, firewall_accepts}
use holesail_cpp.Client
use holesail_cpp.Client.{target, Lookup}
use holesail_cpp.Client.Newest.{Reply, reply, receive, Holds, CameFrom, carried, newest_wins}
use holesail_cpp.Holesail.{
  Options, derive, server_config, client_config, Info, serves, info, hash_hex,
}
use holesail_cpp.Holesail.Rendezvous.{secure_rendezvous, public_rendezvous}
use holesail_cpp.Holesail.LookupQuery
use holesail_cpp.Holesail.LookupQuery.{
  LookupCtx, no_answer, arms, arms-target, answers_once, primary_value, fallback_value, done, run,
  dones,
}
use holesail_cpp.Text.{Signed}
use holesail_cpp.Tests.Toy.{toy, fill}

abbrev quiet : Signed
quiet = record { negative = true; magnitude = 1 }

abbrev host_options : Option Bytes → Option Bool → Options
host_options key secure = record {
  server = true;
  client = false;
  port = some 3000;
  host = some (codes "127.0.0.1");
  key = key;
  secure = secure;
  udp = none;
  log_level = quiet;
}

abbrev guest_options : Bytes → Options
guest_options url = record {
  server = false;
  client = true;
  port = none;
  host = none;
  key = some url;
  secure = none;
  udp = none;
  log_level = quiet;
}

abbrev no_info : Info
no_info = record {
  is_server = true;
  state = [];
  secure = false;
  port = 0;
  host = [];
  is_udp = false;
  seed = [];
  key = [];
  url = [];
  public_key = [];
}

abbrev private_options : Options
private_options = host_options (some (codes "my secret")) (some true)

abbrev drawn : Bytes
drawn = fill 32 9

abbrev built : Options → Option HolesailServer
built o = new_server toy (server_config o (derive toy o drawn)) true drawn

abbrev private_server : HolesailServer
private_server = record {
  config = server_config private_options (derive toy private_options drawn);
  seed = toy.sha256 (codes "my secret");
  public_key = toy.public_key_of (toy.sha256 (codes "my secret"));
  dht = true;
  srv = false;
  refresh = false;
  on_listening = false;
  record_bytes = [];
  state = Server.unset;
  trace = [];
}

private_server-built : built private_options ≡ some private_server
unfolding new_server with_seed from_seed server_config derive parse_url hash_hex to_hex from_hex
    from_hex_loop nibble_of char_at hex_digits
private_server-built = refl

private_is_secure : (derive toy private_options drawn).secure ≡ true
unfolding derive parse_url
private_is_secure = refl

abbrev private_url : Bytes
private_url =
    (info private_options (derive toy private_options drawn) (serves private_server) no_info).url

abbrev guest_config : Bytes → Client.Config
guest_config url = client_config (guest_options url) (derive toy (guest_options url) drawn)

secure_rendezvous_example :
    (target toy (guest_config private_url) ≡ some private_server.public_key)
    × (firewall_accepts private_server (target toy (guest_config private_url)) ≡ true)
secure_rendezvous_example =
    secure_rendezvous toy private_options (guest_options private_url) drawn drawn drawn true no_info
      refl refl private_is_secure private_server-built refl refl

abbrev public_options : Options
public_options = host_options none none

abbrev public_server : HolesailServer
public_server = record {
  config = with_seed (server_config public_options (derive toy public_options drawn)) drawn;
  seed = drawn;
  public_key = toy.public_key_of drawn;
  dht = true;
  srv = false;
  refresh = false;
  on_listening = false;
  record_bytes = [];
  state = Server.unset;
  trace = [];
}

public_server-built : built public_options ≡ some public_server
unfolding new_server with_seed from_seed server_config derive parse_url random_hex32 to_hex from_hex
    from_hex_loop nibble_of char_at hex_digits
public_server-built = refl

public_is_open : (derive toy public_options drawn).secure ≡ false
unfolding derive parse_url
public_is_open = refl

abbrev public_url : Bytes
public_url =
    (info public_options (derive toy public_options drawn) (serves public_server) no_info).url

public_rendezvous_example : target toy (guest_config public_url) ≡ some public_server.public_key
public_rendezvous_example =
    public_rendezvous toy public_options (guest_options public_url) drawn drawn drawn true no_info
      public_is_open public_server-built refl refl refl

-- The replies of two nodes, the first with an older record, and of one with nothing readable.
abbrev some_record : Bytes
some_record = encode_record (codes "h") none 80

abbrev node_replies : List Reply
node_replies = reply 4 (some some_record) ∷ reply 9 none ∷ []

abbrev decoded : Record
decoded = record { host = codes "h"; udp = none; port = some 80 }

abbrev waiting : Lookup
waiting = record { newest = none; newest_seq = 0; destroyed = false }

came : CameFrom node_replies (some decoded) 4
unfolding CameFrom carried encode_record append_escaped decode_record
came = inl (decode_record-encode_record (codes "h") none 80 (omega arith), refl)

newest_wins_example :
    Holds 4 (receive node_replies waiting)
    × CameFrom node_replies
        (receive node_replies waiting).newest
        (receive node_replies waiting).newest_seq
newest_wins_example = newest_wins node_replies waiting decoded 4 refl refl came

abbrev asking : LookupCtx
asking = record {
  secure = true;
  pending = 2;
  primary = no_answer;
  fallback = no_answer;
  results = [];
  reaped = false;
}

abbrev both_done : List LookupQuery.Event
both_done = done ∷ primary_value 1 none ∷ done ∷ []

two_dones : dones both_done ≤ 2
unfolding dones
two_dones = omega arith

answers_once_example :
    ((dones both_done < asking.pending)
      × ((run both_done asking).results ≡ asking.results)
      × ((run both_done asking).reaped ≡ asking.reaped))
    ⊎ ((dones both_done ≡ asking.pending)
        × (length (run both_done asking).results ≡ suc (length asking.results))
        × ((run both_done asking).reaped ≡ true))
answers_once_example = answers_once both_done asking (omega arith) two_dones

abbrev keyed : Client.Config
keyed = record {
  key = codes "secret";
  secure = true;
  local_port = none;
  local_host = none;
  udp = none;
}

keyed-target : target toy keyed ≡ some (toy.public_key_of (toy.sha256 (codes "secret")))
unfolding target
keyed-target = refl

keyed_url :
    (codes "secret" ≡ (parse_url (codes "hs://s000secret")).key)
    × (true ≡ value_or (parse_url (codes "hs://s000secret")).secure false)
unfolding parse_url
keyed_url = (refl, refl)

arms-target_example :
    (raw : Bytes) × (arms toy (codes "hs://s000secret") ≡ some (toy.public_key_of raw, raw))
    × (toy.public_key_of (toy.sha256 (codes "secret"))
        ≡ (if keyed.secure then toy.public_key_of raw else raw))
arms-target_example =
    arms-target toy (codes "hs://s000secret") keyed keyed_url.0 keyed_url.1 keyed-target
