-- ===== src/UdpProxy/Clients.antt =====
-- The clients of the proxy are independent: what one sends or receives leaves every other alone.
use holesail_cpp.Base.{
  ℕ, Bool, true, false, not, ◌||◌, Option, none, some, List, [], ◌∷◌, is_empty, Bytes, bytes_eq,
  bytes_eq→eq, bytes_eq_ne, ◌≡◌, ◌≢◌, refl, sym, ap, ◌∙◌, arith, Bool-cases, inl, inr,
}
use holesail_cpp.Frame.{push, Pushed}
use holesail_cpp.UdpPipe.{Received, is_error}
use holesail_cpp.UdpProxy.{
  Address, client_key, Client, UdpProxy, Opened, find, erase, update, calls, drop_client, forward,
  admit, from_client, payload, recv_cb, send_all, settle, to_client, on_stream_data,
}

pub find-erase :
    (id other : Bytes) (cs : List (Bytes × Client))
    → id ≢ other
    → find other (erase id cs) ≡ find other cs
unfolding find erase
find-erase id other [] h = refl
find-erase id other ((key, c) ∷ cs) h = elim (Bool-cases (bytes_eq key id)) [
  | inl e ↦
      let apart : bytes_eq key other ≡ false =
        bytes_eq_ne key other (λ k. h (sym (bytes_eq→eq key id e) ∙ k)) in
      rw (e, apart) refl
  | inr e ↦ rw (e, find-erase id other cs h) refl
]

find-update :
    (id other : Bytes) (new : Client) (cs : List (Bytes × Client))
    → id ≢ other
    → find other (update id new cs) ≡ find other cs
unfolding find update
find-update id other new [] h = refl
find-update id other new ((key, c) ∷ cs) h = elim (Bool-cases (bytes_eq key id)) [
  | inl e ↦
      let apart : bytes_eq key other ≡ false =
        bytes_eq_ne key other (λ k. h (sym (bytes_eq→eq key id e) ∙ k)) in
      rw (e, apart) refl
  | inr e ↦ rw (e, find-update id other new cs h) refl
]

send_all-clients :
    (addr : Address) (ds : List Bytes) (p : UdpProxy) → (send_all addr ds p).clients ≡ p.clients
unfolding send_all
send_all-clients addr [] p = refl
send_all-clients addr (d ∷ ds) p = send_all-clients addr ds (calls _ p)

drop_client-clients :
    (id : Bytes) (c : Client) (p : UdpProxy) → (drop_client id c p).clients ≡ erase id p.clients
unfolding drop_client
drop_client-clients id c p = ground arith

drop_client-find :
    (id other : Bytes) (c : Client) (p : UdpProxy)
    → id ≢ other
    → find other (drop_client id c p).clients ≡ find other p.clients
drop_client-find id other c p h =
    ap (find other) (drop_client-clients id c p) ∙ find-erase id other p.clients h

forward-find :
    (id other : Bytes) (c : Client) (bytes : Bytes) (refused : Bool) (p : UdpProxy)
    → id ≢ other
    → find other (forward id c bytes refused p).clients ≡ find other p.clients
unfolding forward
forward-find id other c bytes true p h = drop_client-find id other c (calls _ p) h
forward-find id other c bytes false p h = refl

admit-find :
    (id other : Bytes) (addr : Address) (opened : Opened) (p : UdpProxy)
    → id ≢ other
    → find other (admit id addr opened p).clients ≡ find other p.clients
unfolding admit find
admit-find id other addr opened p h = rw (bytes_eq_ne id other h) refl

from_client-find :
    (id other : Bytes) (addr : Address) (opened : Opened) (bytes : Bytes) (refused : Bool)
    (o : Option Client) (p : UdpProxy)
    → id ≢ other
    → find other (from_client id addr opened bytes refused o p).clients ≡ find other p.clients
unfolding from_client
from_client-find id other addr opened bytes refused (some c) p h =
    forward-find id other c bytes refused p h
from_client-find id other addr opened bytes refused none p h = elim (Bool-cases p.open_stream) [
  | inr e ↦ rw e refl
  | inl e ↦ elim (Bool-cases opened.writes) [
    | inr f ↦ rw (e, f) refl
    | inl f ↦
        simp (e, f)
          (forward-find id other _ bytes refused (admit id addr opened p) h
            ∙ admit-find id other addr opened p h)
  ]
]

settle-find :
    (id other : Bytes) (c : Client) (q : Pushed) (p : UdpProxy)
    → id ≢ other
    → find other (settle id c q p).clients ≡ find other p.clients
unfolding settle
settle-find id other c q p h =
    let kept : UdpProxy = record p {
      clients = update id (record c { buffer = q.buffer }) p.clients;
    } in
    let sent =
      ap (find other) (send_all-clients c.addr q.frames kept)
      ∙ find-update id other (record c { buffer = q.buffer }) p.clients h in
    elim (Bool-cases q.accepted) [
      | inl e ↦ rw e sent
      | inr e ↦ rw e (drop_client-find id other c (send_all c.addr q.frames kept) h ∙ sent)
    ]

to_client-find :
    (id bytes other : Bytes) (o : Option Client) (p : UdpProxy)
    → id ≢ other
    → find other (to_client id bytes o p).clients ≡ find other p.clients
unfolding to_client
to_client-find id bytes other none p h = refl
to_client-find id bytes other (some c) p h = settle-find id other c (push c.buffer bytes) p h

recv_cb-others :
    (ip4_name : ℕ → Bytes) (r : Received) (addr : Address) (partial : Bool) (opened : Opened)
    (refused : Bool) (p : UdpProxy) (other : Bytes)
    → client_key ip4_name addr ≢ other
    → find other (recv_cb ip4_name r (some addr) partial opened refused p).clients
      ≡ find other p.clients
unfolding recv_cb
recv_cb-others ip4_name r addr partial opened refused p other h =
    let id = client_key ip4_name addr in
    elim (Bool-cases (is_error r || partial)) [
      | inl e ↦ rw e refl
      | inr e ↦
          rw e (from_client-find id other addr opened (payload r) refused (find id p.clients) p h)
    ]

pub on_stream_data-others :
    (id bytes other : Bytes) (p : UdpProxy)
    → id ≢ other
    → find other (on_stream_data id bytes p).clients ≡ find other p.clients
unfolding on_stream_data
on_stream_data-others id bytes other p h = elim (Bool-cases (not p.sock || is_empty bytes)) [
  | inl e ↦ rw e refl
  | inr e ↦ rw e (to_client-find id bytes other (find id p.clients) p h)
]

-- A datagram that arrives from one client, known or new, refused by its stream or not, leaves every other client
-- as it was; and so does what a peer sends for a client, an oversized frame included.
pub others_kept :
    (ip4_name : ℕ → Bytes) (r : Received) (addr : Address) (partial : Bool) (opened : Opened)
    (refused : Bool) (id bytes : Bytes) (p : UdpProxy) (other : Bytes)
    → client_key ip4_name addr ≢ other
    → id ≢ other
    → (find other (recv_cb ip4_name r (some addr) partial opened refused p).clients
        ≡ find other p.clients)
      × (find other (on_stream_data id bytes p).clients ≡ find other p.clients)
others_kept ip4_name r addr partial opened refused id bytes p other h k = (
  recv_cb-others ip4_name r addr partial opened refused p other h,
  on_stream_data-others id bytes other p k,
)
