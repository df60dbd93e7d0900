-- ===== src/Client/Conn/Flush.antt =====
-- What a new write makes of the bytes that wait and of those on the wire.
use holesail_cpp.Base.{
  ◌+◌, ltb, true, false, not, ◌||◌, List, [], ◌∷◌, ◌++◌, length, Bytes, ◌≡◌, refl, ap, ◌∙◌, arith,
  inl, branches, ltb-false→le, length-append,
}
use holesail_cpp.Rc.{Rc, is_ok}
use holesail_cpp.Client.Conn.{Conn, side_write, max_pending_bytes}
use holesail_cpp.Client.Conn.Line.{Line}
use holesail_cpp.Client.Conn.Kept.{joined, Sub-weaken, Sub-drop}
use holesail_cpp.Client.Conn.Waiting.{Intact}

-- A write that was not taken.
pub refused : (all : List Bytes) (bytes : Bytes) (l : Line) → Intact all l → Intact (bytes ∷ all) l
refused all bytes l v = record {
  on_wire = v.on_wire;
  held = v.held;
  sub = Sub-weaken (v.held ++ v.on_wire) all bytes v.sub;
  wire = v.wire;
  pending = v.pending;
  bounded = v.bounded;
  flushed = v.flushed;
  unopened = v.unopened;
  idle = v.idle;
  streaming = v.streaming;
}

-- A write while the stream is not open yet.
pub waits :
    (all : List Bytes) (bytes : Bytes) (l : Line)
    → ltb max_pending_bytes (length (l.conn).pending + length bytes) ≡ false
    → (l.conn).stream_open ≡ false
    → Intact all l
    → Intact
        (bytes ∷ all)
        (record l { conn = record l.conn { pending = (l.conn).pending ++ bytes } })
waits all bytes l fits shut v = record {
  on_wire = v.on_wire;
  held = bytes ∷ v.held;
  sub = inl (refl, v.sub);
  wire = v.wire;
  pending = ap (λ t. t ++ bytes) v.pending;
  bounded =
      let n = ltb-false→le max_pending_bytes (length (l.conn).pending + length bytes) fits in
      omega (arith, n, length-append (l.conn).pending bytes);
  flushed = λ h. absurd (cc);
  unopened = v.unopened;
  idle = v.idle;
  streaming = v.streaming;
}

pub passes :
    (all : List Bytes) (bytes : Bytes) (l : Line)
    → (l.conn).stream_open ≡ true
    → Intact all l
    → Intact (bytes ∷ all) (record l { conn = record l.conn { wire = (l.conn).wire ++ bytes } })
passes all bytes l o v =
    let none_held = v.flushed o in
    record {
      on_wire = bytes ∷ v.on_wire;
      held = [];
      sub = inl (refl, Sub-drop v.held v.on_wire all v.sub);
      wire = ap (λ t. t ++ bytes) v.wire;
      pending = v.pending ∙ ap joined none_held;
      bounded = v.bounded;
      flushed = λ h. refl;
      unopened = v.unopened;
      idle = v.idle;
      streaming = v.streaming;
    }

pub side_write-Intact :
    (all : List Bytes) (bytes : Bytes) (rc : Rc) (l : Line)
    → Intact all l
    → Intact (bytes ∷ all) (record l { conn = (side_write bytes rc l.conn).1 })
unfolding side_write
side_write-Intact all bytes rc l v =
    let c = l.conn in
    let P : Rc × Conn → Type 0 = λ r. Intact (bytes ∷ all) (record l { conn = r.1 }) in
    branches P (not c.listed || c.stream_closed) _ _ (λ e. refused all bytes l v)
      (λ e.
        branches P (not c.stream || not c.stream_open) _ _
          (λ f.
            branches P (ltb max_pending_bytes (length c.pending + length bytes)) _ _
              (λ g. refused all bytes l v)
              (λ g. waits all bytes l g (ground (arith, v.streaming)) v))
          (λ f.
            branches (λ x. Intact (bytes ∷ all) (record l { conn = x })) (is_ok rc) _ _
              (λ k. passes all bytes l (ground arith) v) (λ k. refused all bytes l v)))
