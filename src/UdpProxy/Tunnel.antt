-- ===== src/UdpProxy/Tunnel.antt =====
-- Both ends of a UDP tunnel together: `UdpProxy::recv_cb` at the client, any cuts of its stream, and
-- `UdpPipe::on_stream_data` at the server.
use holesail_cpp.Base.{
  ℕ, if◌then◌else◌, Bool, true, false, some, List, [], ◌∷◌, ◌++◌, Bytes, bytes_eq, ◌≡◌,
}
use holesail_cpp.Frame.{frame}
use holesail_cpp.UdpPipe.{UdpPipe, datagram}
use holesail_cpp.UdpProxy.{Address, client_key, Effect, stream_writes, UdpProxy, Opened, recv_cb}

-- A datagram of a local source, with what `open_stream` returns for it, if it is asked, and whether the
-- stream refuses its write.
pub record Datagram : Type 0 where
  pub source : Address
  pub bytes : Bytes
  pub opened : Opened
  pub refused : Bool

-- A stream that is opened for it can be written to, and takes its write.
abbrev pub IsTaken : Datagram → Type 0
IsTaken d = ((d.opened).writes ≡ true) × (d.refused ≡ false)

-- What was written to the stream of a client, in order.
abbrev pub written : Bytes → List Effect → Bytes
written id [] = []
written id (stream_writes key bytes ∷ es) = written id es ++ (if bytes_eq key id then bytes else [])
written id (e ∷ es) = written id es

module _ (ip4_name : ℕ → Bytes) where
  -- The datagrams of local sources, in any order.
  abbrev pub receive_all : List Datagram → UdpProxy → UdpProxy
  receive_all [] p = p
  receive_all (d ∷ ds) p =
      receive_all ds
        (recv_cb ip4_name (datagram d.bytes) (some d.source) false d.opened d.refused p)

  abbrev pub sent_by : Bytes → List Datagram → List Bytes
  sent_by id [] = []
  sent_by id (d ∷ ds) =
      if bytes_eq (client_key ip4_name d.source) id then d.bytes ∷ sent_by id ds else sent_by id ds

  -- The bytes that one datagram adds to the stream of a client.
  abbrev adds : Bytes → Datagram → Bytes
  adds id d = if bytes_eq (client_key ip4_name d.source) id then frame d.bytes else []

  -- What a state of the proxy has from another one, by a datagram.
  abbrev Grown : Bytes → Bytes → Bytes → UdpProxy → UdpProxy → Type 0
  Grown id key bytes p q =
      (written id q.trace ≡ written id p.trace ++ (if bytes_eq key id then frame bytes else []))
      × (q.open_stream ≡ p.open_stream)
