-- ===== src/Server.antt =====
-- `HolesailServer` of src/server.cpp and include/holesail/server.hpp: its identity, its lifecycle and
-- the record that it publishes. The connections are in Server/Conn and Server/Table. Methods take the results of the
-- hyperdht and libuv calls that they make and return the server with those calls on its trace, newest
-- first; log lines are left out.
pub mod Publish
pub mod Table
pub mod Conn
use holesail_cpp.Base.{
  ℕ, ◌+◌, ◌%◌, ◌^◌, ◌==◌, ltb, if◌then◌else◌, Bool, true, false, not, ◌&&◌, ◌||◌, Option, none,
  some, List, [], ◌∷◌, length, is_empty, Bytes, bytes_eq,
}
use holesail_cpp.Rc.{Rc, ok, fail, is_ok, uv_einval, uv_enomem}
use holesail_cpp.Keys.{z32_encode, from_hex, random_hex32}
use holesail_cpp.Record.{encode_record}
use holesail_cpp.Crypto.{Crypto}

pub record Config : Type 0 where
  pub local_port : ℕ
  pub local_host : Bytes
  pub seed_hex : Bytes
  pub secure : Bool
  pub udp : Bool

-- The strings "", "listening", "paused" and "destroyed" of `state_`.
pub data State : Type 0 where
  unset listening paused destroyed : State

pub data Effect : Type 0 where
  sets_firewall : Effect
  listens : Effect
  queries_record : Effect
  puts_record : ℕ → Bytes → Effect
  starts_refresh_timer : Effect
  stops_refresh_timer : Effect
  suspends_dht : Effect
  resumes_dht : Effect
  closes_server : Effect
  calls_on_listening : Effect

-- `dht`, `srv`, `refresh` and `on_listening` say that the pointer or callback is set.
pub record HolesailServer : Type 0 where
  pub config : Config
  pub seed : Bytes
  pub public_key : Bytes
  pub dht : Bool
  pub srv : Bool
  pub refresh : Bool
  pub on_listening : Bool
  pub record_bytes : Bytes
  pub state : State
  pub trace : List Effect

abbrev pub calls : Effect → HolesailServer → HolesailServer
calls e s = record s { trace = e ∷ s.trace }

-- The configuration with a seed drawn where none was given.
unfoldable pub with_seed : Config → Bytes → Config
with_seed config drawn =
    if is_empty config.seed_hex then record config { seed_hex = random_hex32 drawn } else config

module _ (c : Crypto) where
  open c use {public_key_of}

  unfoldable pub from_seed : Config → Bool → Option Bytes → Option HolesailServer
  from_seed config dht none = none
  from_seed config dht (some bytes) =
      if length bytes == 32
      then some (record {
        config = config;
        seed = bytes;
        public_key = public_key_of bytes;
        dht = dht;
        srv = false;
        refresh = false;
        on_listening = false;
        record_bytes = [];
        state = unset;
        trace = [];
      })
      else none

  -- The constructor; `none` is the `std::invalid_argument` that it throws. `drawn` are the random bytes
  -- for a server without a seed.
  unfoldable pub new_server : Config → Bool → Bytes → Option HolesailServer
  new_server config dht drawn =
      let seeded = with_seed config drawn in from_seed seeded dht (from_hex seeded.seed_hex)

unfoldable pub key : HolesailServer → Bytes
key s = if (s.config).secure then z32_encode s.seed else z32_encode s.public_key

unfoldable pub public_key_z32 : HolesailServer → Bytes
public_key_z32 s = z32_encode s.public_key

-- `next_seq` on `uint64_t`.
unfoldable pub next_seq : Bool → ℕ → Bool → ℕ
next_seq had_record old_seq value_unchanged =
    if not had_record then 0 else if value_unchanged then old_seq else (old_seq + 1) % 2 ^ 64

-- `publish`; a query that could not start changes nothing but the log.
unfoldable pub publish : HolesailServer → HolesailServer
publish s = if not s.dht || is_empty s.record_bytes then s else calls queries_record s

unfoldable pub firewall : HolesailServer → HolesailServer
firewall s = if (s.config).secure then calls sets_firewall s else s

-- `start`; `created` says whether `hyperdht_server_create` returned a server, `listened` is the result
-- of `hyperdht_server_listen`.
unfoldable pub start : Bool → Rc → Bool → HolesailServer → Rc × HolesailServer
start created listened callback s =
    if not s.dht || s.srv
    then (uv_einval, s)
    else if not created
    then (uv_enomem, s)
    else (let armed =
          calls listens (record (firewall (record s { srv = true })) { on_listening = callback }) in
        if not (is_ok listened) then (listened, armed) else (
          ok,
          calls starts_refresh_timer
              (record (publish (record armed {
                record_bytes =
                    encode_record (s.config).local_host (if (s.config).udp then some true else none)
                      (s.config).local_port;
              })) { refresh = true }),
        ))

unfoldable pub listening_cb : HolesailServer → HolesailServer
listening_cb s =
    if s.on_listening
    then record s { state = listening; trace = calls_on_listening ∷ s.trace }
    else record s { state = listening }

unfoldable pub pause : HolesailServer → HolesailServer
pause s = if not s.dht then s else record s { state = paused; trace = suspends_dht ∷ s.trace }

unfoldable pub resume : HolesailServer → HolesailServer
resume s = if not s.dht then s else record s { state = listening; trace = resumes_dht ∷ s.trace }

unfoldable pub stop_refresh : HolesailServer → HolesailServer
stop_refresh s =
    if s.refresh then record s { refresh = false; trace = stops_refresh_timer ∷ s.trace } else s

unfoldable pub close_server : HolesailServer → HolesailServer
close_server s = if s.srv then record s { srv = false; trace = closes_server ∷ s.trace } else s

-- `destroy`, but for the pipes of the connections, which Table adds.
unfoldable pub destroy : HolesailServer → HolesailServer
destroy s = record (close_server (stop_refresh s)) { state = destroyed }

-- `firewall_cb`: true is its 0, which accepts. A null key is rejected.
unfoldable pub firewall_accepts : HolesailServer → Option Bytes → Bool
firewall_accepts s none = false
firewall_accepts s (some remote_pk) = bytes_eq remote_pk s.public_key

unfoldable pub refresh_cb : HolesailServer → HolesailServer
refresh_cb s = publish s

-- The context of one query for the published record.
pub record GetCtx : Type 0 where
  pub seq : ℕ
  pub value : Bytes
  pub had : Bool

abbrev pub new_get : GetCtx
new_get = record { seq = 0; value = []; had = false }

-- `get_value_cb`: one reply of the query, a null value included.
unfoldable pub get_value_cb : GetCtx → ℕ → Option Bytes → GetCtx
get_value_cb ctx seq none = ctx
get_value_cb ctx seq (some value) =
    if ctx.had && ltb seq ctx.seq then ctx else record { seq = seq; value = value; had = true }

-- `get_done_cb`; `alive` says that the server still is.
unfoldable pub get_done_cb : GetCtx → Bool → HolesailServer → HolesailServer
get_done_cb ctx alive s =
    if not alive
    then s
    else calls
        (puts_record (next_seq ctx.had ctx.seq (bytes_eq ctx.value s.record_bytes)) s.record_bytes)
        s
