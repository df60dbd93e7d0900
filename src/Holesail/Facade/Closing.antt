-- ===== src/Holesail/Facade/Closing.antt =====
-- What `info` reports after `close`.
use holesail_cpp.Base.{
  if◌then◌else◌, Bool, true, false, not, ◌&&◌, Option, none, some, Bytes, codes, is_empty, ◌≡◌,
  refl, ap, ◌∙◌, then_branch, branches, arith,
}
use holesail_cpp.Keys.{z32_encode}
use holesail_cpp.Server
use holesail_cpp.Server.{HolesailServer, close_server, stop_refresh, public_key_z32}
use holesail_cpp.Client.{Resolved}
use holesail_cpp.Client.Table
use holesail_cpp.Client.Table.{
  HolesailClient, Listening, cancel_query, mutable_done_cb, free_query, tear_down,
}
use holesail_cpp.Holesail.{
  Options, Derived, Info, endpoint_info, underlying_key, info, make_url, idle,
}
use holesail_cpp.Holesail.Facade.{
  Holesail, Dialler, destroy_server, destroy_client, client_endpoint, endpoint_of, refresh_info,
  reset_endpoint, release_dht, close,
}

Server-destroy-config : (s : HolesailServer) → (Server.destroy s).config ≡ s.config
unfolding Server.destroy close_server stop_refresh
Server-destroy-config s = ground arith

Server-destroy-public_key : (s : HolesailServer) → (Server.destroy s).public_key ≡ s.public_key
unfolding Server.destroy close_server stop_refresh
Server-destroy-public_key s = ground arith

free_query-resolved : (c : HolesailClient) → (free_query c).resolved ≡ c.resolved
unfolding free_query
free_query-resolved c =
    branches (λ (d : HolesailClient). d.resolved ≡ c.resolved) c.query _ _ (λ q. refl) (λ q. refl)

done-resolved :
    (r : Listening) (c : HolesailClient)
    → (c.lookup).destroyed ≡ true
    → (mutable_done_cb r c).resolved ≡ c.resolved
unfolding mutable_done_cb
done-resolved r c e =
    then_branch (λ (d : HolesailClient). d.resolved ≡ c.resolved) (c.lookup).destroyed _ _ e
      (free_query-resolved c)

cancel_query-resolved :
    (b : Bool) (r : Listening) (c : HolesailClient)
    → (c.lookup).destroyed ≡ true
    → (cancel_query b r c).resolved ≡ c.resolved
unfolding cancel_query
cancel_query-resolved b r c e =
    branches (λ (d : HolesailClient). d.resolved ≡ c.resolved) c.query _ _
      (λ q.
        branches (λ (d : HolesailClient). d.resolved ≡ c.resolved) b _ _ (λ t. done-resolved r _ e)
          (λ t. refl))
      (λ q. refl)

Table-destroy-resolved :
    (b : Bool) (r : Listening) (c : HolesailClient) → (Table.destroy b r c).resolved ≡ c.resolved
unfolding Table.destroy tear_down
Table-destroy-resolved b r c =
    branches (λ (d : HolesailClient). d.resolved ≡ c.resolved) (c.lookup).destroyed _ _ (λ f. refl)
      (λ f.
        cancel_query-resolved b r (record c { lookup = record c.lookup { destroyed = true } }) refl)

abbrev as_destroyed : Info → Info
as_destroyed i = record i { state = codes "destroyed" }

-- Destroying the endpoint changes nothing that is shown of it but its state.
endpoint_info_destroyed :
    (o : Options) (opened : Bool) (b : Bool) (r : Listening) (s : Option Server.Table.Table)
    (d : Option Dialler) (i : Info)
    → as_destroyed
        (endpoint_info o (endpoint_of opened (destroy_server s) (destroy_client b r d)) i)
      ≡ as_destroyed (endpoint_info o (endpoint_of opened s d) i)
unfolding endpoint_info endpoint_of client_endpoint destroy_server destroy_client public_key_z32
    Server.Table.destroy
endpoint_info_destroyed o opened b r (some s) d i =
    let shown : Server.Config → Bytes → Info = λ g k. record i {
      state = codes "destroyed";
      port = g.local_port;
      host = g.local_host;
      is_udp = g.udp;
      public_key = z32_encode k;
    } in
    ap (λ g. shown g (Server.destroy s.server).public_key) (Server-destroy-config s.server)
    ∙ ap (shown (s.server).config) (Server-destroy-public_key s.server)
endpoint_info_destroyed o opened b r none none i = refl
endpoint_info_destroyed o opened b r none (some d) i =
    ap
      (λ (g : Resolved). record i {
        state = codes "destroyed";
        port = g.port;
        host = g.host;
        is_udp = g.udp;
        public_key = z32_encode d.target;
      })
      (Table-destroy-resolved b r d.object)

either_same {ℓ} : {A : Type ℓ} (b : Bool) (x : A) → (if b then x else x) ≡ x
either_same true x = refl
either_same false x = refl

-- The information with what `info` takes from the options and the derived key alone.
abbrev keyed : Options → Derived → Info → Info
keyed o d i = record i {
  is_server = o.server;
  secure = d.secure;
  seed = d.seed_hex;
  key = d.key;
  url = make_url d.secure d.key;
}

info_idle :
    (o : Options) (d : Derived) (opened : Bool) (i : Info)
    → opened ≡ true
    → info o d (idle opened) i ≡ keyed o d i
unfolding info endpoint_info underlying_key
info_idle o d true i e =
    ap (λ k. record (keyed o d i) { key = k; url = make_url d.secure k })
      (either_same (not (is_empty d.key) && d.secure) d.key)
info_idle o d false i e = absurd (cc)

-- After `close`, `info` of an endpoint that was started reports the port, the host, the protocol and the
-- public key that it reported before, and the state "destroyed"; for key and url it reports those that
-- were derived from the options, whatever it reported before.
pub info_after_close :
    (b : Bool) (r : Listening) (h : Holesail)
    → h.opened ≡ true
    → (refresh_info (close b r h)).info_ ≡ record (refresh_info h).info_ {
      state = codes "destroyed";
      key = (h.derived).key;
      url = make_url (h.derived).secure (h.derived).key;
    }
unfolding refresh_info close release_dht reset_endpoint info endpoint_of client_endpoint
info_after_close b r h e =
    info_idle h.options h.derived h.opened (close b r h).info_ e
    ∙ ap (keyed h.options h.derived)
        (endpoint_info_destroyed h.options h.opened b r h.server h.client h.info_)
