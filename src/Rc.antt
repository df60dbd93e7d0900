-- ===== src/Rc.antt =====
-- Return codes of libuv and hyperdht: 0 or more is success, a negative number is an error.
use holesail_cpp.Base.{ℕ, Bool, true, false}

-- `fail n` is the code -n.
pub data Rc : Type 0 where
  ok : Rc
  fail : ℕ → Rc

abbrev pub is_ok : Rc → Bool
is_ok ok = true
is_ok (fail n) = false

-- libuv's numbers on Linux.
abbrev pub uv_einval : Rc
uv_einval = fail 22

abbrev pub uv_ecanceled : Rc
uv_ecanceled = fail 125

abbrev pub uv_enomem : Rc
uv_enomem = fail 12

abbrev pub uv_ealready : Rc
uv_ealready = fail 114

abbrev pub uv_eio : Rc
uv_eio = fail 5
