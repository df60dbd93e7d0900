-- ===== src/Addr.antt =====
-- src/addr.cpp: `resolve_ip4`. The texts that `uv_ip4_addr` reads and the names that `uv_getaddrinfo` knows are
-- arguments: an address is `none` where the text is no dotted quad, and where the resolver's list is empty.
use holesail_cpp.Base.{ℕ, ◌%◌, if◌then◌else◌, Bool, not, Option, none, some, Bytes}
use holesail_cpp.Rc.{Rc, ok, fail, uv_einval}
use holesail_cpp.Text.{c_str}
use holesail_cpp.UdpProxy.{Address}

-- `UV_EAI_NONAME`
abbrev pub uv_eai_noname : Rc
uv_eai_noname = fail 3008

-- The first address of the resolver's answer, with the port stored over it.
unfoldable pub first_answer : Option ℕ → ℕ → Rc × Option Address
first_answer none port = (uv_eai_noname, none)
first_answer (some ip) port = (ok, some (record { ip = ip; port = port % 65536 }))

unfoldable pub by_name : Rc × Option ℕ → ℕ → Rc × Option Address
by_name (ok, answer) port = first_answer answer port
by_name (fail n, answer) port = (fail n, none)

-- A numeric host never reaches the resolver.
unfoldable pub by_text : Option Address → Rc × Option ℕ → ℕ → Rc × Option Address
by_text (some numeric) answer port = (ok, some numeric)
by_text none answer port = by_name answer port

-- The result and what is stored in `out`; `given` says that neither pointer is null.
unfoldable pub resolve_ip4 :
    (Bytes → ℕ → Option Address) → (Bytes → Rc × Option ℕ) → Bool → Bytes → ℕ → Rc × Option Address
resolve_ip4 ip4_addr getaddrinfo given host port =
    if not given
    then (uv_einval, none)
    else by_text (ip4_addr (c_str host) port) (getaddrinfo (c_str host)) port
