-- ===== src/Holesail/Rendezvous.antt =====
-- The url that a server shows leads a client to that server, in both modes.
use holesail_cpp.Base.{
  ◌<◌, if◌then◌else◌, Bool, true, false, Option, none, some, value_or, [], ◌∷◌, is_empty, Bytes,
  AreBytes, subst, ◌≡◌, refl, sym, ap, ◌∙◌, arith, length, bytes_eq_refl, Bool-cases, inl, inr,
}
use holesail_cpp.Keys.{parse_url, to_hex, from_hex, random_hex32, z32_encode, z32_decode}
use holesail_cpp.Keys.Hex.{from_hex-to_hex, length-to_hex}
use holesail_cpp.Keys.Url.{parse_url_prefixed}
use holesail_cpp.Keys.Z32.{z32_decode-z32_encode}
use holesail_cpp.Crypto.{Crypto}
use holesail_cpp.Server
use holesail_cpp.Server.{HolesailServer, with_seed, from_seed, new_server, key, firewall_accepts}
use holesail_cpp.Client
use holesail_cpp.Client.{checked_target, target}
use holesail_cpp.Holesail.{
  Options, Derived, hash_hex, derive, make_url, server_config, client_config, Info, serves,
  underlying_key, info,
}

-- `parse_url` takes `make_url` apart again.
pub parse_url-make_url :
    (secure : Bool) (k : Bytes)
    → parse_url (make_url secure k)
      ≡ record { key = k; secure = if secure then some true else none }
unfolding make_url
parse_url-make_url true k = parse_url_prefixed b's' b'0' b'0' b'0' k
parse_url-make_url false k = parse_url_prefixed b'0' b'0' b'0' b'0' k

pub not_empty : (s : Bytes) → 0 < length s → is_empty s ≡ false
not_empty [] h = elim h [ ]
not_empty (x ∷ s) h = refl

module _ (c : Crypto) where
  open c use {sha256, public_key_of}

  from_seed_shape :
      (config : Server.Config) (dht : Bool) (raw : Bytes) {s : HolesailServer}
      → from_seed c config dht (some raw) ≡ some s
      → (s.public_key ≡ public_key_of raw) × (s.config ≡ config)
  unfolding from_seed
  from_seed_shape config dht raw h = (ground arith, ground arith)

  seed_given :
      (config : Server.Config) (drawn : Bytes)
      → 0 < length config.seed_hex
      → with_seed config drawn ≡ config
  unfolding with_seed
  seed_given config drawn h = let e = not_empty config.seed_hex h in simp e

  -- A server built from the hash of a key has the key pair of that hash.
  server_of_hash :
      (config : Server.Config) (k drawn : Bytes) (dht : Bool)
      → config.seed_hex ≡ hash_hex c k
      → {s : HolesailServer} → new_server c config dht drawn ≡ some s
      → (s.public_key ≡ public_key_of (sha256 k)) × (s.config ≡ config)
  unfolding new_server hash_hex
  server_of_hash config k drawn dht e {s} h =
      let hex : from_hex (to_hex (sha256 k)) ≡ some (sha256 k) =
        from_hex-to_hex (sha256 k) (c.sha256-AreBytes k) in
      let long : 0 < length config.seed_hex =
        omega (arith, ap length e, length-to_hex (sha256 k), c.length-sha256 k) in
      let built : from_seed c config dht (some (sha256 k)) ≡ some s =
        ap (λ o. from_seed c config dht o) (sym hex ∙ ap from_hex (sym e))
        ∙ ap (λ g. from_seed c g dht (from_hex g.seed_hex)) (sym (seed_given config drawn long))
        ∙ h in
      from_seed_shape config dht (sha256 k) built

  -- A secure server, started with or without a key: the derived key is not empty, and the seed is the
  -- hash of that key.
  secure_key :
      (o : Options) (drawn : Bytes)
      → o.server ≡ true
      → length drawn ≡ 32
      → (derive c o drawn).secure ≡ true
      → ((derive c o drawn).seed_hex ≡ hash_hex c (derive c o drawn).key)
        × (is_empty (derive c o drawn).key ≡ false)
  unfolding derive random_hex32
  secure_key o drawn srv d32 sec =
      let long : is_empty (to_hex drawn) ≡ false =
        not_empty (to_hex drawn) (omega (arith, length-to_hex drawn)) in
      elim (Bool-cases (is_empty (parse_url (value_or o.key [])).key)) [
        | inl a ↦ (ground arith, ground arith)
        | inr a ↦ (ground arith, ground arith)
      ]

  client_derived :
      (o : Options) (drawn : Bytes) (secure : Bool) (k : Bytes)
      → o.server ≡ false
      → o.key ≡ some (make_url secure k)
      → ((derive c o drawn).key ≡ k)
        × ((derive c o drawn).secure ≡ (if secure then true else value_or o.secure false))
  unfolding derive
  client_derived o drawn true k cl e =
      let url = parse_url-make_url true k in (ground arith, ground arith)
  client_derived o drawn false k cl e =
      let url = parse_url-make_url false k in (ground arith, ground arith)

  target_secure :
      (config : Client.Config)
      → config.secure ≡ true
      → target c config ≡ some (public_key_of (sha256 config.key))
  unfolding target
  target_secure config e = simp e

  target_public :
      (config : Client.Config) (raw : Bytes)
      → config.secure ≡ false
      → z32_decode config.key ≡ some raw
      → length raw ≡ 32
      → target c config ≡ some raw
  unfolding target checked_target
  target_public config raw e d n = ground arith

  from_seed_key :
      (config : Server.Config) (dht : Bool) (o : Option Bytes) {s : HolesailServer}
      → from_seed c config dht o ≡ some s
      → ((raw : Bytes) × (s.public_key ≡ public_key_of raw)) × (s.config ≡ config)
  unfolding from_seed
  from_seed_key config dht none h = absurd (cc)
  from_seed_key config dht (some raw) h = ((raw, ground arith), ground arith)

  with_seed-secure :
      (config : Server.Config) (drawn : Bytes) → (with_seed config drawn).secure ≡ config.secure
  unfolding with_seed
  with_seed-secure config drawn = ground arith

  new_server_shape :
      (config : Server.Config) (dht : Bool) (drawn : Bytes) {s : HolesailServer}
      → new_server c config dht drawn ≡ some s
      → ((raw : Bytes) × (s.public_key ≡ public_key_of raw)) × ((s.config).secure ≡ config.secure)
  unfolding new_server
  new_server_shape config dht drawn h =
      let seeded = with_seed config drawn in
      let (made, same) = from_seed_key seeded dht (from_hex seeded.seed_hex) h in
      (made, ap (λ g. g.secure) same ∙ with_seed-secure config drawn)

  shown_secure :
      (o : Options) (d : Derived) (s : HolesailServer) (last : Info)
      → d.secure ≡ true
      → is_empty d.key ≡ false
      → (info o d (serves s) last).url ≡ make_url true d.key
  unfolding info
  shown_secure o d s last sec given = ground arith

  shown_public :
      (o : Options) (d : Derived) (s : HolesailServer) (last : Info)
      → d.secure ≡ false
      → (s.config).secure ≡ false
      → (info o d (serves s) last).url ≡ make_url false (z32_encode s.public_key)
  unfolding info underlying_key key
  shown_public o d s last sec pub_mode = ground arith

-- A server derived secure, from a given key or from 32 drawn bytes, shows a url from which a client
-- with that url dials exactly the server's public key, and the server's firewall accepts that key.
pub secure_rendezvous :
    (c : Crypto) (server client : Options) (drawn drawn_seed client_drawn : Bytes) (dht : Bool)
    (last : Info) {s : HolesailServer}
    → server.server ≡ true
    → length drawn ≡ 32
    → (derive c server drawn).secure ≡ true
    → new_server c (server_config server (derive c server drawn)) dht drawn_seed ≡ some s
    → client.server ≡ false
    → client.key ≡ some (info server (derive c server drawn) (serves s) last).url
    → (target c (client_config client (derive c client client_drawn)) ≡ some s.public_key)
      × (firewall_accepts s (target c (client_config client (derive c client client_drawn))) ≡ true)
unfolding server_config client_config firewall_accepts
secure_rendezvous c server client drawn drawn_seed client_drawn dht last {s} srv d32 sec made cl e =
    let d = derive c server drawn in
    let (hashed, given) = secure_key c server drawn srv d32 sec in
    let (same_key, same_secure) =
      client_derived c client client_drawn true d.key cl
        (e ∙ ap some (shown_secure c server d s last sec given)) in
    let (pk, cf) = server_of_hash c (server_config server d) d.key drawn_seed dht hashed made in
    let dialled =
      target_secure c (client_config client (derive c client client_drawn)) same_secure
      ∙ ap (λ k. some (c.public_key_of (c.sha256 k))) same_key
      ∙ ap some (sym pk) in
    (dialled, ap (firewall_accepts s) dialled ∙ bytes_eq_refl s.public_key)

-- A server derived public, with or without a key, shows a url from which a client that has that url
-- and does not ask for the secure mode dials exactly the server's public key.
pub public_rendezvous :
    (c : Crypto) (server client : Options) (drawn drawn_seed client_drawn : Bytes) (dht : Bool)
    (last : Info) {s : HolesailServer}
    → (derive c server drawn).secure ≡ false
    → new_server c (server_config server (derive c server drawn)) dht drawn_seed ≡ some s
    → client.server ≡ false
    → value_or client.secure false ≡ false
    → client.key ≡ some (info server (derive c server drawn) (serves s) last).url
    → target c (client_config client (derive c client client_drawn)) ≡ some s.public_key
unfolding server_config client_config
public_rendezvous c server client drawn drawn_seed client_drawn dht last {s} sec made cl plain e =
    let d = derive c server drawn in
    let ((raw, pk), mode) = new_server_shape c (server_config server d) dht drawn_seed made in
    let (same_key, same_secure) =
      client_derived c client client_drawn false (z32_encode s.public_key) cl
        (e ∙ ap some (shown_public c server d s last sec (mode ∙ sec))) in
    let bytes : AreBytes s.public_key = subst AreBytes (sym pk) (c.public_key_of-AreBytes raw) in
    target_public c (client_config client (derive c client client_drawn)) s.public_key
      (same_secure ∙ plain) (ap z32_decode same_key ∙ z32_decode-z32_encode s.public_key bytes)
      (ap length pk ∙ c.length-public_key_of raw)
