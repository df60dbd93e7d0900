-- ===== src/Client/Table.antt =====
-- `HolesailClient` of src/client.cpp: the lookup of the record, the local proxy, the table of connections
-- and the lifecycle. A method takes the results of the hyperdht and libuv calls that it makes; log lines
-- are left out.
pub mod History
pub mod Closed
pub mod Final
use holesail_cpp.Base.{
  ℕ, suc, ◌+◌, ◌-◌, ◌==◌, if◌then◌else◌, Bool, true, false, not, ◌&&◌, ◌||◌, Option, none, some,
  is_some, List, [], ◌∷◌, ◌++◌, length, take, Bytes,
}
use holesail_cpp.Rc.{Rc, ok, fail, is_ok, uv_einval, uv_ecanceled}
use holesail_cpp.TcpProxy
use holesail_cpp.TcpProxy.{TcpProxy}
use holesail_cpp.UdpProxy
use holesail_cpp.UdpProxy.{UdpProxy, Opened}
use holesail_cpp.Client.{Config, Resolved, Lookup, resolve, mutable_cb}
use holesail_cpp.Client.Conn
use holesail_cpp.Client.Conn.{
  Conn, new_conn, begin_dht_connect, shutdown_conn, forgets_client, delivers,
}

-- The strings "", "waiting", "listening", "paused" and "destroyed" of `state_`.
pub data State : Type 0 where
  unset waiting listening paused destroyed : State

pub data Effect : Type 0 where
  queries : Effect
  cancels_query : Effect
  frees_query : Effect
  closes_accepted : Effect
  suspends_dht : Effect
  resumes_dht : Effect
  calls_on_listening : Rc → Effect

-- `invalid` says that `init_error_` is set, `query` that `query_` is not null; `record_`, `record_seq_` and
-- `destroyed_` are in `lookup`. `conns` are all connections ever made, newest first; those still listed
-- are in `conns_`.
pub record HolesailClient : Type 0 where
  pub config : Config
  pub dht : Bool
  pub invalid : Bool
  pub query : Bool
  pub lookup : Lookup
  pub on_listening : Bool
  pub resolved : Resolved
  pub tcp_proxy : TcpProxy
  pub udp_proxy : UdpProxy
  pub conns : List Conn
  pub next_id : ℕ
  pub state : State
  pub trace : List Effect

unfoldable pub new_client : Config → Bool → Bool → HolesailClient
new_client config dht invalid = record {
  config = config;
  dht = dht;
  invalid = invalid;
  query = false;
  lookup = record { newest = none; newest_seq = 0; destroyed = false };
  on_listening = false;
  resolved =
      resolve
        (record { key = []; secure = false; local_port = none; local_host = none; udp = none })
        none;
  tcp_proxy = TcpProxy.new_proxy;
  udp_proxy = UdpProxy.new_proxy;
  conns = [];
  next_id = 1;
  state = unset;
  trace = [];
}

abbrev pub calls : Effect → HolesailClient → HolesailClient
calls e c = record c { trace = e ∷ c.trace }

-- What the two proxies' `listen` get from libuv.
pub record Listening : Type 0 where
  pub initialised : Rc
  pub resolution : Rc
  pub bound : Rc
  pub listened : Rc
  pub named : Option ℕ

-- The results behind `uv_udp_init`, one after the other.
abbrev pub first_failure : Listening → Rc
first_failure r =
    if not (is_ok r.resolution)
    then r.resolution
    else if not (is_ok r.bound)
    then r.bound
    else r.listened

unfoldable pub listen_udp : Listening → HolesailClient → Rc × HolesailClient
listen_udp r c =
    let done = UdpProxy.listen r.initialised (first_failure r) r.named true c.udp_proxy in
    (done.0, record c { udp_proxy = done.1 })

unfoldable pub listen_tcp : Listening → HolesailClient → Rc × HolesailClient
listen_tcp r c =
    let done =
      TcpProxy.listen r.initialised r.resolution r.bound r.listened r.named true c.tcp_proxy in
    (done.0, record c { tcp_proxy = done.1 })

unfoldable pub tell_listening : Rc → HolesailClient → HolesailClient
tell_listening rc c =
    if c.on_listening
    then record c { on_listening = false; trace = calls_on_listening rc ∷ c.trace }
    else c

-- The end of `start_proxy`.
unfoldable pub proxy_started : Rc × HolesailClient → Rc × HolesailClient
proxy_started (rc, c) =
    (rc, tell_listening rc (if is_ok rc then record c { state = listening } else c))

unfoldable pub start_proxy : Listening → HolesailClient → Rc × HolesailClient
start_proxy r c =
    let resolved = record c { resolved = resolve c.config (c.lookup).newest } in
    proxy_started (if (resolved.resolved).udp then listen_udp r resolved else listen_tcp r resolved)

-- `connect`; `queried` says that `hyperdht_mutable_get_ex` returned a query.
unfoldable pub connect : Bool → Listening → Bool → HolesailClient → Rc × HolesailClient
connect queried r callback c =
    if c.invalid
    then (uv_einval, c)
    else if (c.lookup).destroyed
    then (uv_ecanceled, c)
    else if not c.dht
    then (uv_einval, c)
    else (let asking = record c { on_listening = callback; state = waiting } in
        if queried
        then (ok, record asking { query = true; trace = queries ∷ asking.trace })
        else start_proxy r asking)

unfoldable pub free_query : HolesailClient → HolesailClient
free_query c = if c.query then record c { query = false; trace = frees_query ∷ c.trace } else c

unfoldable pub mutable_done_cb : Listening → HolesailClient → HolesailClient
mutable_done_cb r c =
    let freed = free_query c in if (c.lookup).destroyed then freed else (start_proxy r freed).1

unfoldable pub value_cb : ℕ → Option Bytes → HolesailClient → HolesailClient
value_cb seq value c = record c { lookup = mutable_cb seq value c.lookup }

-- What a connection asked of the UDP proxy, oldest first.
unfoldable pub to_proxy : List Conn.Effect → UdpProxy → UdpProxy
to_proxy [] p = p
to_proxy (forgets_client id ∷ es) p = UdpProxy.on_stream_close id (to_proxy es p)
to_proxy (delivers id bytes ∷ es) p = UdpProxy.on_stream_data id bytes (to_proxy es p)
to_proxy (e ∷ es) p = to_proxy es p

-- The effects of an operation that turned one connection into another, on the proxy.
unfoldable pub proxied : Conn → Conn → UdpProxy → UdpProxy
proxied before after p = to_proxy (take (length after.trace - length before.trace) after.trace) p

-- A connection that is being made joins the table.
unfoldable pub add_conn : Option Bytes → Rc → HolesailClient → Bool × HolesailClient
add_conn source rc c =
    let conn = new_conn c.next_id source in
    let dialled = begin_dht_connect rc conn in
    (
      dialled.0,
      record c {
        conns = dialled.1 ∷ c.conns;
        next_id = c.next_id + 1;
        udp_proxy = proxied conn dialled.1 c.udp_proxy;
      },
    )

-- `on_local_connection`; `rc` is the result of `hyperdht_connect_ex`.
unfoldable pub on_local_connection : Rc → HolesailClient → HolesailClient
on_local_connection rc c =
    if (c.lookup).destroyed || not c.dht then calls closes_accepted c else (add_conn none rc c).1

-- `open_udp_stream`; a side without a `write` is what `{}` is to the proxy.
unfoldable pub open_udp_stream : Bytes → Rc → HolesailClient → Opened × HolesailClient
open_udp_stream source rc c =
    if (c.lookup).destroyed || not c.dht
    then (record { writes = false; closes = false }, c)
    else (let added = add_conn (some source) rc c in
        (record { writes = added.0; closes = added.0 }, added.1))

-- A callback or an operation on the connection with an id.
unfoldable pub on_conn : ℕ → (Conn → Conn) → List Conn → List Conn
on_conn id f [] = []
on_conn id f (c ∷ cs) = if c.id == id then f c ∷ cs else c ∷ on_conn id f cs

unfoldable pub proxied_conn : ℕ → (Conn → Conn) → List Conn → UdpProxy → UdpProxy
proxied_conn id f [] p = p
proxied_conn id f (c ∷ cs) p = if c.id == id then proxied c (f c) p else proxied_conn id f cs p

unfoldable pub act : ℕ → (Conn → Conn) → HolesailClient → HolesailClient
act id f c = record c {
  conns = on_conn id f c.conns;
  udp_proxy = proxied_conn id f c.conns c.udp_proxy;
}

unfoldable pub pause : HolesailClient → HolesailClient
pause c =
    if (c.lookup).destroyed || not c.dht
    then c
    else record c { state = paused; trace = suspends_dht ∷ c.trace }

unfoldable pub resume : HolesailClient → HolesailClient
resume c =
    if (c.lookup).destroyed || not c.dht
    then c
    else record c { state = listening; trace = resumes_dht ∷ c.trace }

-- The query of a client that is being destroyed: cancelling it may call `mutable_done_cb` at once.
unfoldable pub cancel_query : Bool → Listening → HolesailClient → HolesailClient
cancel_query at_once r c =
    if c.query
    then (let cancelled = calls cancels_query (record c { query = false }) in
        calls frees_query (if at_once then mutable_done_cb r cancelled else cancelled))
    else c

abbrev pub shut : Conn → Conn
shut conn = if conn.listed then shutdown_conn conn else conn

unfoldable pub shut_all : List Conn → List Conn
shut_all [] = []
shut_all (c ∷ cs) = shut c ∷ shut_all cs

unfoldable pub proxied_all : List Conn → UdpProxy → UdpProxy
proxied_all [] p = p
proxied_all (c ∷ cs) p = proxied c (shut c) (proxied_all cs p)

-- The end of `destroy`, from the proxies on.
unfoldable pub tear_down : HolesailClient → HolesailClient
tear_down c = record c {
  tcp_proxy = TcpProxy.close c.tcp_proxy;
  conns = shut_all c.conns;
  udp_proxy = proxied_all c.conns (UdpProxy.close c.udp_proxy);
  state = destroyed;
}

unfoldable pub destroy : Bool → Listening → HolesailClient → HolesailClient
destroy at_once r c =
    if (c.lookup).destroyed
    then c
    else tear_down
        (cancel_query at_once r (record c { lookup = record c.lookup { destroyed = true } }))
