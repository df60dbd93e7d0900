-- ===== src/Record/RoundTrip.antt =====
-- What a server publishes is what a client reads.
use holesail_cpp.Base.{
  ℕ, zero, suc, ◌+◌, ◌/◌, ◌%◌, ◌<◌, ◌≡◌, refl, ◌∙◌, ◌==◌, true, false, [], ◌∷◌, ◌++◌, append-nil,
  Bytes, arith, All, if◌then◌else◌, Bool, Option, none, some, length, length-append, codes,
  bytes_eq,
}
use holesail_cpp.Text.{within, decimal, decimal_loop, digit_run}
use holesail_cpp.Text.Decimal.{IsDigit, digit_run-decimal, decimal_loop-IsDigit}
use holesail_cpp.Record.{
  Record, quote, skip_ws, read_string, read_chars, read_piece, read_scalar, udp_member,
  encode_record, set_string, set_port, set_scalar, read_value, expect_colon, read_member, comma,
  brace, tail_of, members, empty_record, decode_body, decode_object, decode_record, scalar_span,
  trim_end, keep,
}
use holesail_cpp.Record.Scan.{
  escaped, append_escaped_lem, read_string-escaped, read_scalar-digits, strtol-digits,
}

-- One round of the loop, by what stands behind the member.
members_comma :
    (n : ℕ) (s : Bytes) (rec : Record) {rec' : Record} {rest rest' : Bytes}
    → read_member s rec ≡ some (rec', rest)
    → tail_of (skip_ws rest) ≡ comma rest'
    → members (suc n) s rec ≡ members n rest' rec'
unfolding members
members_comma n s rec e f = ground (arith, e, f)

members_brace :
    (n : ℕ) (s : Bytes) (rec : Record) {rec' : Record} {rest : Bytes}
    → read_member s rec ≡ some (rec', rest)
    → tail_of (skip_ws rest) ≡ brace
    → members (suc n) s rec ≡ some rec'
unfolding members
members_brace n s rec e f = ground (arith, e, f)

-- The members of the object that `encode_record` writes.
abbrev host_member : Bytes → Bytes → Bytes
host_member host rest = codes "\"host\":" ++ (quote ∷ (escaped host ++ (quote ∷ rest)))

abbrev port_member : ℕ → Bytes
port_member port = codes "\"port\":" ++ (decimal port ++ codes "}")

read_host :
    (host rest : Bytes) (rec : Record)
    → read_member (host_member host rest) rec ≡ some (record rec { host = host }, rest)
unfolding read_member skip_ws read_string read_chars read_piece expect_colon read_value set_string
    bytes_eq
read_host host rest rec = rw (read_string-escaped host rest)

read_udp :
    (b : Bool) (rest : Bytes) (rec : Record)
    → read_member
        (codes "\"udp\":" ++ ((if b then codes "true" else codes "false") ++ (b',' ∷ rest)))
        rec
      ≡ some (record rec { udp = some b }, b',' ∷ rest)
unfolding read_member skip_ws read_string read_chars read_piece expect_colon read_value read_scalar
    scalar_span trim_end keep set_scalar bytes_eq
read_udp true rest rec = refl
read_udp false rest rec = refl

decimal_loop_pos : (k n : ℕ) → 0 < length (decimal_loop k n)
unfolding decimal_loop
decimal_loop_pos zero n = omega arith
decimal_loop_pos (suc k) n =
    ground (arith, length-append (decimal_loop k (n / 10)) ((b'0' + n % 10) ∷ []))

decimal_shape : (n : ℕ) → (x : ℕ) × (xs : Bytes) × (decimal n ≡ x ∷ xs) × All IsDigit (x ∷ xs)
unfolding decimal
decimal_shape n = go (decimal_loop 19 n) refl (decimal_loop_pos 19 n) (decimal_loop-IsDigit 19 n)
  where
    go :
        (xs : Bytes)
        → decimal_loop 19 n ≡ xs
        → 0 < length xs
        → All IsDigit xs
        → (x : ℕ) × (ys : Bytes) × (decimal n ≡ x ∷ ys) × All IsDigit (x ∷ ys)
    go [] e pos ds = elim pos [ ]
    go (x ∷ ys) e pos ds = (x, ys, e, ds)

abbrev stored : ℕ → Option ℕ
stored port = if port == 0 then none else some port

skip_ws-digit : (x : ℕ) (xs : Bytes) → IsDigit x → skip_ws (x ∷ xs) ≡ x ∷ xs
unfolding skip_ws
skip_ws-digit x xs h = ground arith

stores :
    (port : ℕ) (rec : Record)
    → port < 65536
    → rec.port ≡ none
    → (if within 1 65535 (record { negative = false; magnitude = port })
        then record rec { port = some port }
        else rec)
      ≡ record rec { port = stored port }
stores zero rec h e = λ i. record rec { port = e i }
stores (suc n) rec h e = ground arith

set_port-decimal :
    (x : ℕ) (xs : Bytes) (port : ℕ) (rec : Record)
    → All IsDigit (x ∷ xs)
    → digit_run 0 (x ∷ xs) ≡ (port, [])
    → port < 65536
    → rec.port ≡ none
    → set_port (x ∷ xs) rec ≡ record rec { port = stored port }
unfolding set_port
set_port-decimal x xs port rec ds run h e =
    rw (set_port, strtol-digits x xs port ds run (omega arith))
      (rw (strtol-digits x xs port ds run (omega arith)) (stores port rec h e))

read_value-port :
    (x : ℕ) (xs : Bytes) (port : ℕ) (rec : Record)
    → All IsDigit (x ∷ xs)
    → digit_run 0 (x ∷ xs) ≡ (port, [])
    → port < 65536
    → rec.port ≡ none
    → read_value (codes "port") (x ∷ (xs ++ codes "}")) rec
      ≡ some (record rec { port = stored port }, codes "}")
unfolding read_value set_scalar bytes_eq
read_value-port x xs port rec ds run h e =
    let other : (x == quote) ≡ false = ground (arith, ds.0) in
    rw (other, read_scalar-digits x xs [] ds) (rw (set_port-decimal x xs port rec ds run h e))

read_port :
    (port : ℕ) (rec : Record)
    → port < 65536
    → rec.port ≡ none
    → read_member (port_member port) rec ≡ some (record rec { port = stored port }, codes "}")
unfolding read_member skip_ws read_string read_chars read_piece expect_colon bytes_eq
read_port port rec h e =
    let (x, xs, eq, ds) = decimal_shape port in
    let run = rw (append-nil, eq) at (digit_run-decimal port [] (omega arith) tt) in
    rw (eq, skip_ws-digit x (xs ++ codes "}") ds.0) (read_value-port x xs port rec ds run h e)

abbrev start : Record
start = record empty_record { host = [] }

-- Behind the comma after the host: an optional `udp`, the port and the closing brace.
abbrev after_comma : Option Bool → ℕ → Bytes
after_comma none port = port_member port
after_comma (some b) port =
    codes "\"udp\":" ++ ((if b then codes "true" else codes "false") ++ (b',' ∷ port_member port))

at_comma : (s : Bytes) → tail_of (skip_ws (b',' ∷ s)) ≡ comma s
unfolding tail_of skip_ws
at_comma s = refl

members_port :
    (n port : ℕ) (rec : Record)
    → port < 65536
    → rec.port ≡ none
    → members (suc n) (port_member port) rec ≡ some (record rec { port = stored port })
members_port n port rec h e =
    members_brace n _ rec (read_port port rec h e) (unfold tail_of skip_ws in refl)

members-after_comma :
    (n : ℕ) (udp : Option Bool) (port : ℕ) (rec : Record)
    → port < 65536
    → rec.udp ≡ none
    → rec.port ≡ none
    → members (suc (suc n)) (after_comma udp port) rec
      ≡ some (record rec { udp = udp; port = stored port })
members-after_comma n none port rec h u e =
    members_port (suc n) port rec h e ∙ (λ i. some (record rec { udp = u i; port = stored port }))
members-after_comma n (some b) port rec h u e =
    members_comma (suc n) _ rec (read_udp b (port_member port) rec) (at_comma (port_member port))
    ∙ members_port n port (record rec { udp = some b }) h e

tail_shape :
    (udp : Option Bool) (port : ℕ)
    → udp_member udp ++ (codes ",\"port\":" ++ (decimal port ++ codes "}"))
      ≡ b',' ∷ after_comma udp port
unfolding udp_member
tail_shape none port = refl
tail_shape (some true) port = refl
tail_shape (some false) port = refl

-- `decode_record` reads back what `encode_record` wrote, for every host (quotes, backslashes and
-- control characters included), every `udp` and every `uint16_t` port; port 0 reads as absent.
pub decode_record-encode_record :
    (host : Bytes) (udp : Option Bool) (port : ℕ)
    → port < 65536
    → decode_record (encode_record host udp port)
      ≡ some (record { host = host; udp = udp; port = if port == 0 then none else some port })
unfolding decode_record encode_record decode_object decode_body skip_ws
decode_record-encode_record host udp port h =
    rw (append_escaped_lem (codes "{\"host\":\"") host, tail_shape udp port)
      (members_comma _ _ empty_record (read_host host (b',' ∷ after_comma udp port) empty_record)
          (at_comma (after_comma udp port))
        ∙ members-after_comma _ udp port (record empty_record { host = host }) h refl refl)
