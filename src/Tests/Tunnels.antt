-- ===== src/Tests/Tunnels.antt =====
-- Tests of the two ends of a UDP tunnel.
use holesail_cpp.Base.{
  ℕ, ◌≤◌, ◌++◌, List, [], ◌∷◌, Bytes, All, concat, length, true, false, ◌≡◌, refl, arith,
}
use holesail_cpp.Frame.{frame}
use holesail_cpp.UdpPipe
use holesail_cpp.UdpPipe.{UdpPipe, is_error}
use holesail_cpp.UdpProxy
use holesail_cpp.UdpProxy.{Opened, Address, Client, UdpProxy, client_key, new_proxy, find}
use holesail_cpp.UdpProxy.Replies
use holesail_cpp.UdpProxy.Replies.Arrive.{reply_all, replies_arrive}
use holesail_cpp.UdpProxy.Tunnel.{Datagram, written}

abbrev name_of : ℕ → Bytes
name_of ip = ip ∷ []

abbrev here : Address
here = record { ip = 1; port = 53 }

abbrev there : Address
there = record { ip = 2; port = 53 }

abbrev served : Opened
served = record { writes = true; closes = true }

abbrev traffic : List Datagram
traffic =
    record { source = here; bytes = 7 ∷ []; opened = served; refused = false }
    ∷ record { source = there; bytes = 8 ∷ []; opened = served; refused = false }
    ∷ record { source = here; bytes = []; opened = served; refused = false }
    ∷ []

abbrev open_proxy : UdpProxy
open_proxy = record { sock = true; open_stream = true; clients = []; bound_port = 53; trace = [] }

abbrev open_pipe : UdpPipe
open_pipe = record {
  side_write = true;
  side_close = true;
  sock = true;
  closing = false;
  buffer = [];
  on_destroy = true;
  destroyed = false;
  sent = [];
  written = [];
  trace = [];
}

abbrev from_here : Bytes
from_here = client_key name_of here

abbrev chunks : List Bytes
chunks = (0 ∷ 0 ∷ 0 ∷ []) ∷ (1 ∷ 7 ∷ 0 ∷ 0 ∷ 0 ∷ 0 ∷ []) ∷ []

-- The way back: a service replies twice while the stream of another client breaks and ends.
abbrev from_there : Bytes
from_there = client_key name_of there

abbrev client_here : Client
client_here = record { addr = here; closes = true; buffer = [] }

abbrev serving_proxy : UdpProxy
serving_proxy = record {
  sock = true;
  open_stream = true;
  clients =
      (from_there, record { addr = there; closes = true; buffer = [] })
      ∷ (from_here, client_here)
      ∷ [];
  bound_port = 53;
  trace = [];
}

abbrev replies : List Bytes
replies = (7 ∷ []) ∷ [] ∷ []

abbrev returning : List Replies.Event
returning =
    Replies.arrives from_here (0 ∷ 0 ∷ 0 ∷ [])
    ∷ Replies.arrives from_there (255 ∷ 255 ∷ 255 ∷ 255 ∷ [])
    ∷ Replies.arrives from_here (1 ∷ 7 ∷ 0 ∷ 0 ∷ 0 ∷ 0 ∷ [])
    ∷ Replies.ends from_there
    ∷ []

known_client : Replies.Serving from_here client_here serving_proxy
unfolding find client_key holesail_cpp.Base.bytes_eq holesail_cpp.Text.decimal
    holesail_cpp.Text.decimal_loop
known_client = record { found = refl; opened = refl; apart = (refl, (refl, tt)) }

returning-Lives : Replies.Lives from_here returning
unfolding client_key holesail_cpp.Text.decimal holesail_cpp.Text.decimal_loop
returning-Lives = (λ e. cc, tt)

returning_cut :
    concat (Replies.chunks_of from_here returning) ≡ concat (reply_all replies open_pipe).written
unfolding find client_key holesail_cpp.Base.bytes_eq holesail_cpp.Text.decimal
    holesail_cpp.Text.decimal_loop UdpPipe.recv_cb UdpPipe.is_end_of_pass is_error UdpPipe.forward
    frame
returning_cut = refl

replies_arrive_example :
    (Replies.sent_to here (Replies.run returning serving_proxy).trace ≡ [] ++ replies)
    × ((b : Bytes) × Replies.Serving from_here
          (record client_here { buffer = b })
          (Replies.run returning serving_proxy))
replies_arrive_example =
    replies_arrive from_here client_here replies open_pipe returning serving_proxy refl refl refl
      (omega arith, (omega arith, tt)) returning_cut returning-Lives refl known_client
