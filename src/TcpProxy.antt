-- ===== src/TcpProxy.antt =====
-- `TcpProxy` of src/pipe.cpp and include/holesail/pipe.hpp: the listening socket of a TCP client.
use holesail_cpp.Base.{
  ℕ, if◌then◌else◌, Bool, true, false, not, ◌||◌, Option, none, some, List, [], ◌∷◌,
}
use holesail_cpp.Rc.{Rc, ok, is_ok}

pub data Effect : Type 0 where
  listens : Effect
  closes_listener : Effect
  closes_accepted : Effect

-- `handle` says that `handle_` is not null, `on_connection` that the callback is set.
pub record TcpProxy : Type 0 where
  pub handle : Bool
  pub on_connection : Bool
  pub bound_port : ℕ
  pub trace : List Effect

unfoldable pub new_proxy : TcpProxy
new_proxy = record { handle = false; on_connection = false; bound_port = 0; trace = [] }

unfoldable pub close : TcpProxy → TcpProxy
close p = if p.handle then record p { handle = false; trace = closes_listener ∷ p.trace } else p

unfoldable pub named_port : Option ℕ → TcpProxy → TcpProxy
named_port none p = p
named_port (some port) p = record p { bound_port = port }

-- `listen`; the results are those of `uv_tcp_init`, `resolve_ip4`, `uv_tcp_bind` and `uv_listen`, `named`
-- is the port that `uv_tcp_getsockname` reports, if it does.
unfoldable pub listen : Rc → Rc → Rc → Rc → Option ℕ → Bool → TcpProxy → Rc × TcpProxy
listen initialised resolved bound listening named callback p =
    if not (is_ok initialised)
    then (initialised, record p { handle = false })
    else (let opened = record p { handle = true; on_connection = callback } in
        if not (is_ok resolved)
        then (resolved, close opened)
        else if not (is_ok bound)
        then (bound, close opened)
        else if not (is_ok listening)
        then (listening, close opened)
        else (ok, named_port named (record opened { trace = listens ∷ opened.trace })))

-- `connection_cb`, with whether a socket is handed to `on_connection_`; a closed proxy has no `self`.
unfoldable pub connection_cb : Rc → Rc → Rc → TcpProxy → Bool × TcpProxy
connection_cb status initialised accepted p =
    if not p.handle || (not (is_ok status) || not (is_ok initialised))
    then (false, p)
    else if not (is_ok accepted)
    then (false, record p { trace = closes_accepted ∷ p.trace })
    else (p.on_connection, p)
