-- ===== src/Client/Conn/Waiting.antt =====
-- Which of the writes of a connection wait and which are on the wire, through the flush when its stream opens.
use holesail_cpp.Base.{
  ◌≤◌, Bool, true, false, not, ◌&&◌, ◌||◌, List, [], ◌∷◌, ◌++◌, append-nil, length, Bytes, ◌≡◌,
  refl, sym, ap, ◌∙◌, arith, subst, branches,
}
use holesail_cpp.Rc.{Rc, ok, fail}
use holesail_cpp.Client.Conn.{Conn, shutdown_conn, connect_cb, flush_pending, max_pending_bytes}
use holesail_cpp.Client.Conn.Line.{Line, Event, writes}
use holesail_cpp.Client.Conn.Stays.{Stays, shutdown_conn-Stays, bridge-Stays}
use holesail_cpp.Client.Conn.Kept.{Sub, joined, Sub-drop, joined-append}

-- What a history has asked to write, newest first, on top of what was asked before.
abbrev pub asked : List Event → List Bytes → List Bytes
asked [] all = all
asked (writes bytes rc ∷ es) all = asked es (bytes ∷ all)
asked (e ∷ es) all = asked es all

-- `on_wire` and `held` are the writes that the stream took and those that wait for it, newest first.
pub record Intact (all : List Bytes) (l : Line) : Type 0 where
  pub on_wire : List Bytes
  pub held : List Bytes
  pub sub : Sub (held ++ on_wire) all
  pub wire : (l.conn).wire ≡ joined on_wire
  pub pending : (l.conn).pending ≡ joined held
  pub bounded : length (l.conn).pending ≤ max_pending_bytes
  pub flushed : (l.conn).stream_open ≡ true → held ≡ []
  pub unopened : l.connect ≡ true → (l.conn).stream_open ≡ false
  pub idle : l.connect ≡ true → (l.conn).stream ≡ false
  pub streaming : (not (l.conn).stream_open || ((l.conn).stream_closed || (l.conn).stream)) ≡ true

pub stays :
    (all : List Bytes) (l : Line) (d : Conn)
    → Stays l.conn d
    → Intact all l
    → Intact all (record l { conn = d })
stays all l d s v = record {
  on_wire = v.on_wire;
  held = v.held;
  sub = v.sub;
  wire = s.wire ∙ v.wire;
  pending = s.pending ∙ v.pending;
  bounded = subst (λ t. length t ≤ max_pending_bytes) (sym s.pending) v.bounded;
  flushed = λ h. v.flushed (sym s.open_flag ∙ h);
  unopened = λ h. s.open_flag ∙ v.unopened h;
  idle = λ h. s.stream ∙ v.idle h;
  streaming = ground (arith, s.open_flag, s.closed, s.stream, v.streaming);
}

-- A connection that cannot be open yet may change its stream.
pub early :
    (all : List Bytes) (l : Line) (d : Conn) (live : Bool)
    → l.connect ≡ true
    → d.wire ≡ (l.conn).wire
    → d.pending ≡ (l.conn).pending
    → d.stream_open ≡ (l.conn).stream_open
    → Intact all l
    → Intact all (record l { conn = d; connect = false; stream = live })
early all l d live h w p o v = record {
  on_wire = v.on_wire;
  held = v.held;
  sub = v.sub;
  wire = w ∙ v.wire;
  pending = p ∙ v.pending;
  bounded = subst (λ t. length t ≤ max_pending_bytes) (sym p) v.bounded;
  flushed = λ x. v.flushed (sym o ∙ x);
  unopened = λ x. absurd (cc);
  idle = λ x. absurd (cc);
  streaming = let still = v.unopened h in ground (arith, o, still);
}

pub connects-Intact :
    (all : List Bytes) (failed opened : Bool) (l : Line)
    → l.connect ≡ true
    → Intact all l
    → Intact all (record l {
      conn = connect_cb l.destroyed failed opened l.conn;
      connect = false;
      stream = not (l.destroyed || failed) && opened;
    })
unfolding connect_cb
connects-Intact all failed opened l h v =
    let c = l.conn in
    let live = not (l.destroyed || failed) && opened in
    let d : Conn = record c { connect_pending = false } in
    let n : Conn = record c { connect_pending = false; stream = false } in
    let P : Conn → Type 0 =
      λ x. Intact all (record l { conn = x; connect = false; stream = live }) in
    branches P (not c.listed) _ _ (λ e. early all l c live h refl refl refl v)
      (λ e.
        branches P (l.destroyed || failed) _ _
          (λ f.
            let s = shutdown_conn-Stays d in
            early all l (shutdown_conn d) live h s.wire s.pending s.open_flag v)
          (λ f.
            branches P opened _ _ (λ o. early all l _ live h refl refl refl v)
              (λ o.
                let s = shutdown_conn-Stays n in
                early all l (shutdown_conn n) live h s.wire s.pending s.open_flag v)))

-- The end of the stream, before the pipe or the proxy hears of it.
pub closing-Intact :
    (all : List Bytes) (l : Line)
    → Intact all l
    → Intact all (record l { conn = record l.conn { stream_closed = true; stream = false } })
closing-Intact all l v = record {
  on_wire = v.on_wire;
  held = v.held;
  sub = v.sub;
  wire = v.wire;
  pending = v.pending;
  bounded = v.bounded;
  flushed = v.flushed;
  unopened = v.unopened;
  idle = λ h. refl;
  streaming = ground arith;
}

-- An open connection with nothing waiting.
pub opened_line :
    (all taken : List Bytes) (l : Line) (d : Conn)
    → Sub taken all
    → d.wire ≡ joined taken
    → d.pending ≡ []
    → d.stream ≡ true
    → l.connect ≡ false
    → Intact all (record l { conn = d })
opened_line all taken l d s w p live late = record {
  on_wire = taken;
  held = [];
  sub = s;
  wire = w;
  pending = p;
  bounded = subst (λ t. length t ≤ max_pending_bytes) (sym p) (omega arith);
  flushed = λ h. refl;
  unopened = λ h. absurd (cc);
  idle = λ h. absurd (cc);
  streaming = ground (arith, live);
}

-- What a flush makes of the waiting bytes.
pub flush_pending-Intact :
    (all : List Bytes) (bytes : Bytes) (rc : Rc) (started : Bool) (l : Line)
    → (l.conn).pending ≡ bytes
    → (l.conn).stream ≡ true
    → l.connect ≡ false
    → Intact all l
    → Intact all
        (record l { conn = flush_pending bytes rc started (record l.conn { stream_open = true }) })
unfolding flush_pending
flush_pending-Intact all [] rc started l p live late v =
    let c : Conn = record l.conn { stream_open = true } in
    let w : (l.conn).wire ≡ joined (v.held ++ v.on_wire) =
      v.wire
      ∙ sym (append-nil (joined v.on_wire))
      ∙ ap (λ t. joined v.on_wire ++ t) (sym p ∙ v.pending)
      ∙ sym (joined-append v.held v.on_wire) in
    stays all (record l { conn = c }) _ (bridge-Stays started c)
      (opened_line all (v.held ++ v.on_wire) l c v.sub w p live late)
flush_pending-Intact all (b ∷ bytes) ok started l p live late v =
    let c : Conn = record l.conn {
      stream_open = true;
      pending = [];
      wire = (l.conn).wire ++ (b ∷ bytes);
    } in
    let w : (l.conn).wire ++ (b ∷ bytes) ≡ joined (v.held ++ v.on_wire) =
      ap (λ t. t ++ (b ∷ bytes)) v.wire
      ∙ ap (λ t. joined v.on_wire ++ t) (sym p ∙ v.pending)
      ∙ sym (joined-append v.held v.on_wire) in
    stays all (record l { conn = c }) _ (bridge-Stays started c)
      (opened_line all (v.held ++ v.on_wire) l c v.sub w refl live late)
flush_pending-Intact all (b ∷ bytes) (fail n) started l p live late v =
    let c : Conn = record l.conn { stream_open = true; pending = [] } in
    stays all (record l { conn = c }) _ (shutdown_conn-Stays c)
      (opened_line all v.on_wire l c (Sub-drop v.held v.on_wire all v.sub) v.wire refl live late)
