-- ===== src/UdpProxy/Replies.antt =====
-- The way back through a UDP tunnel: `UdpPipe::recv_cb` at the server, any cuts of its stream among those of
-- other streams, and `UdpProxy::on_stream_data` at the client.
pub mod Steps
pub mod Arrive
use holesail_cpp.Base.{
  ℕ, ◌≤◌, ◌==◌, if◌then◌else◌, Bool, true, false, not, ◌&&◌, ◌||◌, Option, none, some, List, [],
  ◌∷◌, ◌++◌, append_assoc, append-nil, length, is_empty, Bytes, bytes_eq, bytes_eq→eq,
  bytes_eq_refl, concat-append, ◌≡◌, ◌≢◌, refl, sym, ap, subst, ◌∙◌, All, concat, Bool-cases,
  Option-cases, inl, inr, ◌⊎◌, branches, then_branch, else_branch, arith,
}
use holesail_cpp.Frame.{
  incomplete, front, frame, frame_all, max_datagram, push, push_chunks, Pushed,
}
use holesail_cpp.Frame.Chunks.{push-nil, push-settled}
use holesail_cpp.Frame.RoundTrip.{push_chunks-frame_all}
use holesail_cpp.UdpPipe
use holesail_cpp.UdpPipe.Deliver.{push_waits}
use holesail_cpp.UdpPipe.{UdpPipe, datagram, is_end_of_pass, is_error, forward}
use holesail_cpp.UdpProxy.{
  Address, Client, Effect, sends, UdpProxy, find, erase, update, calls, drop_client, send_all,
  settle, to_client, on_stream_data, on_stream_close,
}
use holesail_cpp.UdpProxy.Clients.{find-erase, on_stream_data-others}
use holesail_cpp.UdpProxy.Entries.{erase-All, update-All, find-All, find-update_same}

abbrev pub same_address : Address → Address → Bool
same_address a b = a.ip == b.ip && a.port == b.port

-- The datagrams sent to an address, in order.
abbrev pub sent_to : Address → List Effect → List Bytes
sent_to a [] = []
sent_to a (sends b d ∷ es) = sent_to a es ++ (if same_address b a then d ∷ [] else [])
sent_to a (e ∷ es) = sent_to a es

-- What hyperdht's streams do to the proxy, each stream by its client.
pub data Event : Type 0 where
  arrives : Bytes → Bytes → Event
  ends : Bytes → Event

unfoldable pub step : Event → UdpProxy → UdpProxy
step (arrives key bytes) p = on_stream_data key bytes p
step (ends key) p = on_stream_close key p

unfoldable pub run : List Event → UdpProxy → UdpProxy
run [] p = p
run (e ∷ es) p = run es (step e p)

-- The chunks of one stream.
abbrev pub chunks_of : Bytes → List Event → List Bytes
chunks_of id [] = []
chunks_of id (arrives key bytes ∷ es) =
    if bytes_eq key id then bytes ∷ chunks_of id es else chunks_of id es
chunks_of id (ends key ∷ es) = chunks_of id es

-- The stream of one client does not end.
abbrev pub Lives : Bytes → List Event → Type 0
Lives id [] = Unit {0}
Lives id (arrives key bytes ∷ es) = Lives id es
Lives id (ends key ∷ es) = (key ≢ id) × Lives id es

-- An entry of another client is one of another address.
abbrev pub Apart : Bytes → Address → Bytes × Client → Type 0
Apart id a entry = bytes_eq entry.0 id || not (same_address entry.1.addr a) ≡ true

-- An open proxy that knows the client `id`.
pub record Serving (id : Bytes) (c : Client) (p : UdpProxy) : Type 0 where
  pub found : find id p.clients ≡ some c
  pub opened : p.sock ≡ true
  pub apart : All (Apart id c.addr) p.clients
