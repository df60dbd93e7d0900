-- ===== src/Client/Table/Closed.antt =====
-- What a closed UDP proxy is still asked does not open it, and the table keeps its length.
use holesail_cpp.Base.{
  ℕ, false, List, [], ◌∷◌, Bytes, length, ◌≡◌, refl, arith, Bool-cases, inl, inr, then_branch,
  else_branch, ◌==◌,
}
use holesail_cpp.Client.Conn.{Conn}
use holesail_cpp.Client.Conn
use holesail_cpp.UdpProxy
use holesail_cpp.UdpProxy.{UdpProxy}
use holesail_cpp.Client.Table.{to_proxy, proxied, proxied_conn, proxied_all, on_conn}

pub on_stream_close-sock :
    (id : Bytes) (p : UdpProxy) → p.sock ≡ false → (UdpProxy.on_stream_close id p).sock ≡ false
unfolding UdpProxy.on_stream_close
on_stream_close-sock id p h = h

pub on_stream_data-sock :
    (id bytes : Bytes) (p : UdpProxy)
    → p.sock ≡ false
    → (UdpProxy.on_stream_data id bytes p).sock ≡ false
unfolding UdpProxy.on_stream_data
on_stream_data-sock id bytes p h = ground arith

-- What the connections still ask of a closed proxy does not open it.
pub to_proxy-sock :
    (es : List Conn.Effect) (p : UdpProxy) → p.sock ≡ false → (to_proxy es p).sock ≡ false
unfolding to_proxy
to_proxy-sock [] p h = h
to_proxy-sock (Conn.forgets_client id ∷ es) p h =
    on_stream_close-sock id (to_proxy es p) (to_proxy-sock es p h)
to_proxy-sock (Conn.delivers id bytes ∷ es) p h =
    on_stream_data-sock id bytes (to_proxy es p) (to_proxy-sock es p h)
to_proxy-sock (Conn.dials ∷ es) p h = to_proxy-sock es p h
to_proxy-sock (Conn.closes_socket ∷ es) p h = to_proxy-sock es p h
to_proxy-sock (Conn.closes_stream ∷ es) p h = to_proxy-sock es p h

pub proxied_conn-sock :
    (id : ℕ) (f : Conn → Conn) (cs : List Conn) (p : UdpProxy)
    → p.sock ≡ false
    → (proxied_conn id f cs p).sock ≡ false
unfolding proxied_conn proxied
proxied_conn-sock id f [] p h = h
proxied_conn-sock id f (c ∷ cs) p h =
    let rest = proxied_conn-sock id f cs p h in
    elim (Bool-cases (c.id == id)) [
      | inl e ↦
          then_branch (λ (q : UdpProxy). q.sock ≡ false) (c.id == id) _ _ e (to_proxy-sock _ p h)
      | inr e ↦ else_branch (λ (q : UdpProxy). q.sock ≡ false) (c.id == id) _ _ e rest
    ]

pub proxied_all-sock :
    (cs : List Conn) (p : UdpProxy) → p.sock ≡ false → (proxied_all cs p).sock ≡ false
unfolding proxied_all proxied
proxied_all-sock [] p h = h
proxied_all-sock (c ∷ cs) p h = to_proxy-sock _ (proxied_all cs p) (proxied_all-sock cs p h)

pub length-on_conn :
    (id : ℕ) (f : Conn → Conn) (cs : List Conn) → length (on_conn id f cs) ≡ length cs
unfolding on_conn
length-on_conn id f [] = refl
length-on_conn id f (c ∷ cs) = ground (arith, length-on_conn id f cs)
