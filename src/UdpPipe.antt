-- ===== src/UdpPipe.antt =====
-- `UdpPipe` of src/udp_pipe.cpp and include/holesail/udp_pipe.hpp: the bridge between a local UDP socket
-- and one encrypted stream. A method takes the results of the libuv and stream calls that it makes.
pub mod Deliver
pub mod Owner
use holesail_cpp.Base.{
  ℕ, ltb, if◌then◌else◌, Bool, true, false, not, ◌&&◌, ◌||◌, Option, none, some, List, [], ◌∷◌,
  ◌++◌, length, is_empty, Bytes,
}
use holesail_cpp.Rc.{Rc, ok, fail, is_ok, uv_ecanceled}
use holesail_cpp.Frame.{frame, push, Pushed}

pub data Effect : Type 0 where
  recv_stops : Effect
  stream_closes : Effect
  sock_closes : Effect
  calls_on_destroy : Effect

-- `sock` says that `sock_` is not null, `closing` that its `uv_close` was issued; `buffer` is that of
-- the decoder; `sent` are the datagrams for the local service and `written` the frames for the stream,
-- both in order; `trace` is newest first.
pub record UdpPipe : Type 0 where
  pub side_write : Bool
  pub side_close : Bool
  pub sock : Bool
  pub closing : Bool
  pub buffer : Bytes
  pub on_destroy : Bool
  pub destroyed : Bool
  pub sent : List Bytes
  pub written : List Bytes
  pub trace : List Effect

-- A new pipe with its stream side and an owner's `on_destroy`.
unfoldable pub fresh : UdpPipe
fresh = record {
  side_write = true;
  side_close = true;
  sock = false;
  closing = false;
  buffer = [];
  on_destroy = true;
  destroyed = false;
  sent = [];
  written = [];
  trace = [];
}

unfoldable pub fire_on_destroy : UdpPipe → UdpPipe
fire_on_destroy p =
    if p.on_destroy then record p { on_destroy = false; trace = calls_on_destroy ∷ p.trace } else p

unfoldable pub stop_receiving : UdpPipe → UdpPipe
stop_receiving p = if p.sock then record p { trace = recv_stops ∷ p.trace } else p

unfoldable pub close_stream : UdpPipe → UdpPipe
close_stream p = if p.side_close then record p { trace = stream_closes ∷ p.trace } else p

unfoldable pub close_sock : UdpPipe → UdpPipe
close_sock p =
    if p.sock && not p.closing
    then record p { closing = true; trace = sock_closes ∷ p.trace }
    else fire_on_destroy p

unfoldable pub destroy : UdpPipe → UdpPipe
destroy p =
    if p.destroyed
    then p
    else close_sock (close_stream (stop_receiving (record p { destroyed = true })))

-- The callback of the `uv_close` in `destroy`.
unfoldable pub closed_cb : UdpPipe → UdpPipe
closed_cb p = fire_on_destroy (record p { sock = false })

-- `start`; the results are those of `resolve_ip4`, `uv_udp_init`, and the bind and `uv_udp_recv_start`
-- behind it.
unfoldable pub start : Rc → Rc → Rc → Rc → UdpPipe → Rc × UdpPipe
start resolved initialised bound receiving p =
    if p.destroyed
    then (uv_ecanceled, p)
    else if not (is_ok resolved)
    then (resolved, p)
    else if not (is_ok initialised)
    then (initialised, record p { sock = false })
    else (let opened = record p { sock = true; closing = false } in
        if not (is_ok bound)
        then (bound, destroy opened)
        else if not (is_ok receiving)
        then (receiving, destroy opened)
        else (ok, opened))

-- `nread` and the buffer: an error, or the bytes of a datagram.
pub data Received : Type 0 where
  error : Received
  datagram : Bytes → Received

-- `is_end_of_pass`; `addr` says that the address is not null.
unfoldable pub is_end_of_pass : Received → Bool → Bool
is_end_of_pass error addr = false
is_end_of_pass (datagram bytes) addr = is_empty bytes && not addr

-- The end of `recv_cb`; `refused` says that the stream's write returned a negative number.
unfoldable pub forward : Received → Bool → UdpPipe → UdpPipe
forward error refused p = destroy p
forward (datagram bytes) refused p =
    let q = record p { written = p.written ++ (frame bytes ∷ []) } in
    if refused then destroy q else q

unfoldable pub is_error : Received → Bool
is_error error = true
is_error (datagram bytes) = false

-- `recv_cb`; `partial` is the flag `UV_UDP_PARTIAL`.
unfoldable pub recv_cb : Received → Bool → Bool → Bool → UdpPipe → UdpPipe
recv_cb r addr partial refused p =
    if p.destroyed || is_end_of_pass r addr
    then p
    else if is_error r
    then destroy p
    else if not addr || (partial || not p.side_write)
    then p
    else forward r refused p

-- What `on_stream_data` does with the outcome of the decoder.
unfoldable pub settle : Pushed → UdpPipe → UdpPipe
settle q p =
    let taken = record p { buffer = q.buffer; sent = p.sent ++ q.frames } in
    if q.accepted then taken else destroy taken

unfoldable pub on_stream_data : Bytes → UdpPipe → UdpPipe
on_stream_data bytes p =
    if p.destroyed || (not p.sock || is_empty bytes) then p else settle (push p.buffer bytes) p

unfoldable pub on_stream_close : UdpPipe → UdpPipe
on_stream_close p = if p.destroyed then p else destroy p
