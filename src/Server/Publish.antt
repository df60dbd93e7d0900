-- ===== src/Server/Publish.antt =====
-- The sequence number of the record that a server puts.
use holesail_cpp.Base.{ℕ, ◌-◌, ◌^◌, ◌≤◌, Bool, true, some, List, [], ◌∷◌, Bytes, ◌≡◌}
use holesail_cpp.Server.{GetCtx, get_value_cb}

-- The replies of one query, in the order in which they come in.
abbrev pub replies : List (ℕ × Bytes) → GetCtx → GetCtx
replies [] ctx = ctx
replies ((seq, value) ∷ rest) ctx = replies rest (get_value_cb ctx seq (some value))

abbrev Kept : GetCtx → GetCtx → Type 0
Kept a b = (a.had ≡ true → b.had ≡ true) × (a.had ≡ true → a.seq ≤ b.seq)

-- The largest `uint64_t`, at which `old_seq + 1` would wrap around.
abbrev pub seq_max : ℕ
seq_max = 2 ^ 64 - 1
