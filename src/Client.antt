-- ===== src/Client.antt =====
-- The pure parts of `HolesailClient` of src/client.cpp and include/holesail/client.hpp: the key it
-- dials, the newest DHT record and the resolved options. Conn and Table model the rest of it.
pub mod Newest
pub mod Conn
pub mod Table
use holesail_cpp.Base.{
  ℕ, leb, ◌==◌, if◌then◌else◌, Bool, true, false, not, ◌||◌, Option, none, some, value_or, is_empty,
  length, Bytes, codes,
}
use holesail_cpp.Keys.{z32_decode}
use holesail_cpp.Record.{Record, decode_record}
use holesail_cpp.Crypto.{Crypto}

pub record Config : Type 0 where
  pub key : Bytes
  pub secure : Bool
  pub local_port : Option ℕ
  pub local_host : Option Bytes
  pub udp : Option Bool

pub record Resolved : Type 0 where
  pub port : ℕ
  pub host : Bytes
  pub udp : Bool

-- `kDefaultPort`
abbrev pub default_port : ℕ
default_port = 8989

-- What the constructor derives from a key: the public key to dial, `none` where `init_error_` is set.
unfoldable pub checked_target : Option Bytes → Option Bytes
checked_target none = none
checked_target (some raw) = if length raw == 32 then some raw else none

unfoldable pub target : Crypto → Config → Option Bytes
target c config =
    if config.secure
    then some (c.public_key_of (c.sha256 config.key))
    else checked_target (z32_decode config.key)

-- `kept option value` is `if (option) value = *option;`
abbrev pub kept {ℓ} : {A : Type ℓ} → Option A → A → A
kept none a = a
kept (some b) a = b

-- An empty host in the record counts as absent.
unfoldable pub with_record : Option Record → Resolved → Resolved
with_record none r = r
with_record (some rec) r = record r {
  port = kept rec.port r.port;
  host = if is_empty rec.host then r.host else rec.host;
  udp = kept rec.udp r.udp;
}

unfoldable pub resolve : Config → Option Record → Resolved
resolve config rec =
    let r =
      with_record rec (record { port = default_port; host = codes "127.0.0.1"; udp = false }) in
    record {
      port = kept config.local_port r.port;
      host = kept config.local_host r.host;
      udp = kept config.udp r.udp;
    }

-- `record_`, `record_seq_` and `destroyed_`.
pub record Lookup : Type 0 where
  pub newest : Option Record
  pub newest_seq : ℕ
  pub destroyed : Bool

unfoldable pub store : Option Record → ℕ → Lookup → Lookup
store none seq s = s
store (some rec) seq s = record s { newest = some rec; newest_seq = seq }

-- `record_ && seq <= record_seq_`
unfoldable pub is_stale : Option Record → ℕ → ℕ → Bool
is_stale none seq newest_seq = false
is_stale (some rec) seq newest_seq = leb seq newest_seq

-- `mutable_cb`: one reply of the query, a null value included.
unfoldable pub mutable_cb : ℕ → Option Bytes → Lookup → Lookup
mutable_cb seq none s = s
mutable_cb seq (some value) s =
    if s.destroyed || (is_empty value || is_stale s.newest seq s.newest_seq)
    then s
    else store (decode_record value) seq s
