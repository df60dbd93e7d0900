-- ===== src/UdpProxy.antt =====
-- `UdpProxy` of src/udp_pipe.cpp and include/holesail/udp_pipe.hpp: one bound UDP socket and one encrypted
-- stream for each source address. The texts of addresses are `uv_ip4_name`'s, an argument here.
pub mod Clients
pub mod Tunnel
pub mod Entries
pub mod Replies
use holesail_cpp.Base.{
  ℕ, ◌==◌, if◌then◌else◌, Bool, true, false, not, ◌&&◌, ◌||◌, Option, none, some, List, [], ◌∷◌,
  ◌++◌, is_empty, Bytes, bytes_eq,
}
use holesail_cpp.Rc.{Rc, ok, fail, is_ok}
use holesail_cpp.Text.{decimal}
use holesail_cpp.Frame.{frame, push, Pushed}
use holesail_cpp.UdpPipe.{Received, error, datagram, is_end_of_pass, is_error}

-- A `sockaddr_in`: the address, and the port in host order.
pub record Address : Type 0 where
  pub ip : ℕ
  pub port : ℕ

-- `client_key`: "address:port"
unfoldable pub client_key : (ℕ → Bytes) → Address → Bytes
client_key ip4_name addr = ip4_name addr.ip ++ (b':' ∷ decimal addr.port)

-- `closes` says that the stream side has a `close`.
pub record Client : Type 0 where
  pub addr : Address
  pub closes : Bool
  pub buffer : Bytes

pub data Effect : Type 0 where
  opens_stream : Bytes → Effect
  stream_writes : Bytes → Bytes → Effect
  stream_closes : Bytes → Effect
  sends : Address → Bytes → Effect
  recv_starts : Effect
  sock_closes : Effect

-- `clients` is the map, each identifier with its client; `trace` is newest first.
pub record UdpProxy : Type 0 where
  pub sock : Bool
  pub open_stream : Bool
  pub clients : List (Bytes × Client)
  pub bound_port : ℕ
  pub trace : List Effect

unfoldable pub new_proxy : UdpProxy
new_proxy = record { sock = false; open_stream = false; clients = []; bound_port = 0; trace = [] }

-- `clients_.find`, `clients_.erase` and the store into a found entry.
unfoldable pub find : Bytes → List (Bytes × Client) → Option Client
find id [] = none
find id ((key, c) ∷ rest) = if bytes_eq key id then some c else find id rest

unfoldable pub erase : Bytes → List (Bytes × Client) → List (Bytes × Client)
erase id [] = []
erase id ((key, c) ∷ rest) = if bytes_eq key id then rest else (key, c) ∷ erase id rest

unfoldable pub update : Bytes → Client → List (Bytes × Client) → List (Bytes × Client)
update id new [] = []
update id new ((key, c) ∷ rest) =
    if bytes_eq key id then (key, new) ∷ rest else (key, c) ∷ update id new rest

abbrev pub calls : Effect → UdpProxy → UdpProxy
calls e p = record p { trace = e ∷ p.trace }

unfoldable pub close : UdpProxy → UdpProxy
close p =
    if p.sock
    then record p { sock = false; clients = []; trace = sock_closes ∷ p.trace }
    else record p { clients = [] }

-- `listen`; the results are those of `uv_udp_init`, and of the resolution, the bind and the
-- `uv_udp_recv_start` behind it; `named` is the port that `uv_udp_getsockname` reports, if it does.
unfoldable pub listen : Rc → Rc → Option ℕ → Bool → UdpProxy → Rc × UdpProxy
listen initialised receiving named callback p =
    if not (is_ok initialised)
    then (initialised, record p { sock = false })
    else (let opened = record p { sock = true; open_stream = callback } in
        if not (is_ok receiving)
        then (receiving, close opened)
        else (ok, named_port named (calls recv_starts opened)))
  where
    named_port : Option ℕ → UdpProxy → UdpProxy
    named_port none q = q
    named_port (some port) q = record q { bound_port = port }

-- Erase first: the close function may come back into the proxy.
unfoldable pub drop_client : Bytes → Client → UdpProxy → UdpProxy
drop_client id c p =
    let q = record p { clients = erase id p.clients } in
    if c.closes then calls (stream_closes id) q else q

-- What `open_stream` returns for a new client: whether its side has a `write` and a `close`.
pub record Opened : Type 0 where
  pub writes : Bool
  pub closes : Bool

-- A known client writes its datagram to its stream; a refused write drops it.
unfoldable pub forward : Bytes → Client → Bytes → Bool → UdpProxy → UdpProxy
forward id c bytes refused p =
    let q = calls (stream_writes id (frame bytes)) p in if refused then drop_client id c q else q

unfoldable pub admit : Bytes → Address → Opened → UdpProxy → UdpProxy
admit id addr opened p = record p {
  clients = (id, record { addr = addr; closes = opened.closes; buffer = [] }) ∷ p.clients;
  trace = opens_stream id ∷ p.trace;
}

-- A datagram of the client `id`, which is new where `find` has none.
unfoldable pub from_client :
    Bytes → Address → Opened → Bytes → Bool → Option Client → UdpProxy → UdpProxy
from_client id addr opened bytes refused (some c) p = forward id c bytes refused p
from_client id addr opened bytes refused none p =
    if not p.open_stream
    then p
    else if not opened.writes
    then calls (opens_stream id) p
    else forward id (record { addr = addr; closes = opened.closes; buffer = [] }) bytes refused
        (admit id addr opened p)

abbrev pub payload : Received → Bytes
payload error = []
payload (datagram bytes) = bytes

-- `recv_cb`; `addr` is `none` for a null address, `partial` the flag `UV_UDP_PARTIAL`, `refused` says that
-- the stream's write returned a negative number.
unfoldable pub recv_cb :
    (ℕ → Bytes) → Received → Option Address → Bool → Opened → Bool → UdpProxy → UdpProxy
recv_cb ip4_name r none partial opened refused p = p
recv_cb ip4_name r (some addr) partial opened refused p =
    let id = client_key ip4_name addr in
    if is_error r || partial
    then p
    else from_client id addr opened (payload r) refused (find id p.clients) p

-- The datagrams of one push, sent to the client's address in order.
unfoldable pub send_all : Address → List Bytes → UdpProxy → UdpProxy
send_all addr [] p = p
send_all addr (d ∷ ds) p = send_all addr ds (calls (sends addr d) p)

unfoldable pub settle : Bytes → Client → Pushed → UdpProxy → UdpProxy
settle id c q p =
    let sent =
      send_all c.addr q.frames
        (record p { clients = update id (record c { buffer = q.buffer }) p.clients }) in
    if q.accepted then sent else drop_client id c sent

unfoldable pub to_client : Bytes → Bytes → Option Client → UdpProxy → UdpProxy
to_client id bytes none p = p
to_client id bytes (some c) p = settle id c (push c.buffer bytes) p

unfoldable pub on_stream_data : Bytes → Bytes → UdpProxy → UdpProxy
on_stream_data id bytes p =
    if not p.sock || is_empty bytes then p else to_client id bytes (find id p.clients) p

unfoldable pub on_stream_close : Bytes → UdpProxy → UdpProxy
on_stream_close id p = record p { clients = erase id p.clients }
