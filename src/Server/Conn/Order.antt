-- ===== src/Server/Conn/Order.antt =====
-- The stream side of a connection is a queue: what the local service wrote reaches the wire in order,
-- and nothing before the stream is open.
use holesail_cpp.Base.{
  ℕ, ◌+◌, ◌≤◌, ltb, if◌then◌else◌, true, false, Option, List, [], ◌∷◌, ◌++◌, length, Bytes, ◌≡◌,
  refl, sym, ap, ◌∙◌, arith, append_assoc, append-nil, length-append, Bool-cases, ◌⊎◌, inl, inr,
}
use holesail_cpp.Rc.{Rc, ok, fail, is_ok}
use holesail_cpp.Server.Conn.{
  max_pending_bytes, Conn, new_conn, write_early, write_open, side_write, erase, drain_cb,
  release_drains, flush_pending, stream_open_cb, stream_close_cb, Event, writes, opens, drained,
  closes, step, run,
}

-- The bytes of an event that are taken: all of an accepted write, none of one past the cap or refused.
abbrev pub taken : Event → Conn → Bytes
taken (writes bytes on_drain rc) c =
    if c.stream_open
    then (if is_ok rc then bytes else [])
    else (if ltb max_pending_bytes (length c.pending + length bytes) then [] else bytes)
taken e c = []

abbrev pub taken_all : List Event → Conn → Bytes
taken_all [] c = []
taken_all (e ∷ es) c = taken e c ++ taken_all es (step e c)

-- No flush of the buffer fails.
abbrev pub Flushes : List Event → Type 0
Flushes [] = Unit {0}
Flushes (opens (fail n) ∷ es) = ⊥
Flushes (e ∷ es) = Flushes es

-- An open stream has nothing left in the buffer.
record Inv (c : Conn) : Type 0 where
  flushed : c.stream_open ≡ true → c.pending ≡ []
  bounded : length c.pending ≤ max_pending_bytes
  quiet : c.stream_open ≡ false → (c.wire ≡ []) × (c.drains ≡ [])
  withheld : c.stream_open ≡ true → c.pending_drains ≡ []

flush_pending-Inv :
    (bytes : Bytes) (rc : Rc) (c : Conn)
    → c.pending ≡ bytes
    → length c.pending ≤ max_pending_bytes
    → Inv (flush_pending bytes rc (record c { stream_open = true }))
unfolding flush_pending release_drains
flush_pending-Inv [] rc c e h = ground arith
flush_pending-Inv (b ∷ bytes) ok c e h = ground arith
flush_pending-Inv (b ∷ bytes) (fail n) c e h = ground arith

erase_nil : (d : ℕ) (ds : List ℕ) → ds ≡ [] → erase d ds ≡ []
unfolding erase
erase_nil d [] h = refl
erase_nil d (x ∷ ds) h = cc

step-Inv : (e : Event) (c : Conn) → Inv c → Inv (step e c)
unfolding step
step-Inv (writes bytes d ok) c v =
    unfold side_write write_open write_early in ground (arith, length-append c.pending bytes)
step-Inv (writes bytes d (fail n)) c v =
    unfold side_write write_open write_early in ground (arith, length-append c.pending bytes)
step-Inv (opens rc) c v = unfold stream_open_cb in flush_pending-Inv c.pending rc c refl v.bounded
step-Inv (drained d) c v = unfold drain_cb in ground (arith, erase_nil d c.drains)
step-Inv closes c v = unfold stream_close_cb in ground arith

run-Inv : (es : List Event) (c : Conn) → Inv c → Inv (run es c)
unfolding run
run-Inv [] c v = v
run-Inv (e ∷ es) c v = run-Inv es (step e c) (step-Inv e c v)

new_conn-Inv : Inv new_conn
unfolding new_conn
new_conn-Inv = ground arith

-- What the local service wrote, in the order in which it was taken: the wire, then the buffer.
abbrev stream_of : Conn → Bytes
stream_of c = c.wire ++ c.pending

flush-stream_of :
    (bytes : Bytes) (c : Conn)
    → c.pending ≡ bytes
    → stream_of (flush_pending bytes ok (record c { stream_open = true })) ≡ stream_of c
unfolding flush_pending release_drains
flush-stream_of [] c e = refl
flush-stream_of (b ∷ bytes) c e =
    append-nil (c.wire ++ (b ∷ bytes)) ∙ ap (λ (t : Bytes). c.wire ++ t) (sym e)

early-stream_of :
    (bytes : Bytes) (d : Option ℕ) (c : Conn)
    → stream_of (write_early bytes d c)
      ≡ stream_of c
        ++ (if ltb max_pending_bytes (length c.pending + length bytes) then [] else bytes)
unfolding write_early
early-stream_of bytes d c =
    elim (Bool-cases (ltb max_pending_bytes (length c.pending + length bytes))) [
      | inl e ↦ rw (e, append-nil)
      | inr e ↦ rw e (sym (append_assoc c.wire c.pending bytes))
    ]

open-stream_of :
    (bytes : Bytes) (d : Option ℕ) (rc : Rc) (c : Conn)
    → c.pending ≡ []
    → stream_of (write_open bytes d rc c) ≡ stream_of c ++ (if is_ok rc then bytes else [])
unfolding write_open
open-stream_of bytes d ok c e = simp (e, append-nil)
open-stream_of bytes d (fail n) c e = sym (append-nil (stream_of c))

write-stream_of :
    (bytes : Bytes) (d : Option ℕ) (rc : Rc) (c : Conn)
    → Inv c
    → stream_of (side_write bytes d rc c).1 ≡ stream_of c ++ taken (writes bytes d rc) c
unfolding side_write
write-stream_of bytes d rc c v = elim (Bool-cases c.stream_open) [
  | inl e ↦ simp e (open-stream_of bytes d rc c (v.flushed e))
  | inr e ↦ simp e (early-stream_of bytes d c)
]

step-stream_of :
    (e : Event) (c : Conn)
    → Inv c
    → Flushes (e ∷ [])
    → stream_of (step e c) ≡ stream_of c ++ taken e c
unfolding step
step-stream_of (writes bytes d rc) c v f = write-stream_of bytes d rc c v
step-stream_of (opens ok) c v f =
    unfold stream_open_cb in flush-stream_of c.pending c refl ∙ sym (append-nil (stream_of c))
step-stream_of (opens (fail n)) c v f = absurd f
step-stream_of (drained d) c v f = unfold drain_cb in sym (append-nil (stream_of c))
step-stream_of closes c v f = unfold stream_close_cb in sym (append-nil (stream_of c))

Flushes-head : (e : Event) (es : List Event) → Flushes (e ∷ es) → Flushes (e ∷ []) × Flushes es
Flushes-head (writes bytes d rc) es f = (tt, f)
Flushes-head (opens ok) es f = (tt, f)
Flushes-head (opens (fail n)) es f = absurd f
Flushes-head (drained d) es f = (tt, f)
Flushes-head closes es f = (tt, f)

run-stream_of :
    (es : List Event) (c : Conn)
    → Inv c
    → Flushes es
    → stream_of (run es c) ≡ stream_of c ++ taken_all es c
unfolding run
run-stream_of [] c v f = sym (append-nil (stream_of c))
run-stream_of (e ∷ es) c v f =
    let (now, later) = Flushes-head e es f in
    run-stream_of es (step e c) (step-Inv e c v) later
    ∙ ap (λ t. t ++ taken_all es (step e c)) (step-stream_of e c v now)
    ∙ append_assoc (stream_of c) (taken e c) (taken_all es (step e c))

-- While no flush fails, the wire and then the buffer hold exactly the bytes that were taken, in the
-- order of the writes.
pub wire_in_order :
    (es : List Event)
    → Flushes es
    → (run es new_conn).wire ++ (run es new_conn).pending ≡ taken_all es new_conn
wire_in_order es f = run-stream_of es new_conn new_conn-Inv f ∙ unfold new_conn in refl

-- Whatever happens, the buffer never holds more than `kMaxPendingBytes`, it is empty once the stream is
-- open, and before that nothing is on the wire.
pub buffer_bounded :
    (es : List Event)
    → (length (run es new_conn).pending ≤ max_pending_bytes)
      × (((run es new_conn).stream_open ≡ true)
            × ((run es new_conn).pending ≡ [])
            × ((run es new_conn).pending_drains ≡ [])
          ⊎ ((run es new_conn).stream_open ≡ false) × ((run es new_conn).wire ≡ []))
buffer_bounded es =
    let v = run-Inv es new_conn new_conn-Inv in
    (
      v.bounded,
      elim (Bool-cases (run es new_conn).stream_open) [
        | inl e ↦ inl (e, v.flushed e, v.withheld e)
        | inr e ↦ inr (e, (v.quiet e).0)
      ],
    )
