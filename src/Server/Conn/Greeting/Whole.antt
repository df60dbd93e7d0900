-- ===== src/Server/Conn/Greeting/Whole.antt =====
-- What the connection keeps of what the pipe hands over: each read, and the flush when the stream opens.
use holesail_cpp.Base.{
  ◌+◌, ◌≤◌, ltb, Bool, true, false, some, [], ◌∷◌, ◌++◌, append_assoc, append-nil, length,
  length-append, Bytes, ◌≡◌, refl, sym, ap, subst, ◌∙◌, arith, Bool-cases, inl, inr, ◌⊎◌,
  then_branch, else_branch,
}
use holesail_cpp.Rc.{Rc, ok, is_ok}
use holesail_cpp.TcpPipe.{TcpPipe, Read, again, end_of_file, error, chunk, read_cb}
use holesail_cpp.TcpPipe.World.{World, fits}
use holesail_cpp.Server.Conn.{
  max_pending_bytes, Conn, write_early, write_open, side_write, release_drains, flush_pending,
}
use holesail_cpp.Server.Conn.Greeting.{Joined, deliver_drains, read, handed}
use holesail_cpp.Server.Conn.Greeting.Handed.{Mute, fire_all-Mute, read_cb-handed, read_other-Mute}

-- Nothing that was handed over is lost or out of order.
pub record Whole (j : Joined) : Type 0 where
  pub kept : (j.conn).wire ++ (j.conn).pending ≡ handed (j.world).pipe.trace
  pub early : (j.conn).stream_open ≡ false → (j.conn).wire ≡ []
  pub flushed : (j.conn).stream_open ≡ true → (j.conn).pending ≡ []

-- Only the pipe has moved, and handed nothing over.
pub piped-Whole :
    (j : Joined) (w : World) → Mute (j.world).pipe w.pipe → Whole j → Whole (record j { world = w })
piped-Whole j w m v = record { kept = v.kept ∙ sym m; early = v.early; flushed = v.flushed }

pub early_write :
    (bytes : Bytes) (p : TcpPipe) (c : Conn) (j : Joined)
    → handed p.trace ≡ handed (j.world).pipe.trace ++ bytes
    → (j.conn).stream_open ≡ false
    → length (j.conn).pending + length bytes ≤ max_pending_bytes
    → Whole j
    → Whole (record j {
      world = record j.world { pipe = p };
      conn = write_early bytes (some (length bytes)) j.conn;
    })
unfolding write_early
early_write bytes p c j h shut room v =
    let fits_in : ltb max_pending_bytes (length (j.conn).pending + length bytes) ≡ false =
      ground (arith, room) in
    else_branch (λ (x : Conn). Whole (record j { world = record j.world { pipe = p }; conn = x })) _
      _ _ fits_in
      (record {
        kept =
            sym (append_assoc (j.conn).wire (j.conn).pending bytes)
            ∙ ap (λ t. t ++ bytes) v.kept
            ∙ sym h;
        early = v.early;
        flushed = λ e. absurd (cc);
      })

pub open_write :
    (bytes : Bytes) (p : TcpPipe) (j : Joined)
    → handed p.trace ≡ handed (j.world).pipe.trace ++ bytes
    → (j.conn).stream_open ≡ true
    → Whole j
    → Whole (record j {
      world = record j.world { pipe = p };
      conn = write_open bytes (some (length bytes)) ok j.conn;
    })
unfolding write_open
open_write bytes p j h opened v =
    let none_left = v.flushed opened in
    record {
      kept =
          let all : (j.conn).wire ≡ handed (j.world).pipe.trace =
            sym (append-nil (j.conn).wire)
            ∙ ap (λ t. (j.conn).wire ++ t) (sym none_left)
            ∙ v.kept in
          ap (λ t. ((j.conn).wire ++ bytes) ++ t) none_left
          ∙ append-nil ((j.conn).wire ++ bytes)
          ∙ ap (λ t. t ++ bytes) all
          ∙ sym h;
      early = λ e. absurd (cc);
      flushed = λ e. none_left;
    }

pub while_shut {ℓ} : {P : Type ℓ} {b : Bool} → b ≡ false → (b ≡ true) ⊎ P → P
while_shut h (inl e) = absurd (cc)
while_shut h (inr p) = p

-- How much room the buffer has, by what has been handed over.
pub room :
    (bytes : Bytes) (j : Joined)
    → (j.conn).stream_open ≡ false
    → length (handed (j.world).pipe.trace ++ bytes) ≤ max_pending_bytes
    → Whole j
    → length (j.conn).pending + length bytes ≤ max_pending_bytes
room bytes j shut fits_in v =
    let all : (j.conn).pending ≡ handed (j.world).pipe.trace =
      ap (λ t. t ++ (j.conn).pending) (sym (v.early shut)) ∙ v.kept in
    omega (arith, fits_in, length-append (handed (j.world).pipe.trace) bytes, ap length all)

pub read-Whole :
    (bytes : Bytes) (j : Joined)
    → (j.world).pipe.destroyed ≡ false
    → ((j.conn).stream_open ≡ true)
      ⊎ (length (handed (j.world).pipe.trace ++ bytes) ≤ max_pending_bytes)
    → Whole j
    → Whole (read (chunk bytes) ok j)
unfolding read side_write
read-Whole bytes j alive modest v =
    let h = read_cb-handed bytes true (j.world).pipe alive in
    let P : Rc × Conn → Type 0 = λ w. Whole (record j {
      world = record j.world { pipe = read_cb (chunk bytes) (is_ok w.0) false (j.world).pipe };
      conn = w.1;
    }) in
    elim (Bool-cases (j.conn).stream_open) [
      | inl o ↦ then_branch P (j.conn).stream_open _ _ o (open_write bytes _ j h o v)
      | inr o ↦
          else_branch P (j.conn).stream_open _ _ o
            (early_write bytes _ j.conn j h o (room bytes j o (while_shut o modest) v) v)
    ]

pub flush_pending-Whole :
    (bytes : Bytes) (j : Joined)
    → (j.conn).pending ≡ bytes
    → Whole j
    → Whole (record j { conn = flush_pending bytes ok (record j.conn { stream_open = true }) })
unfolding flush_pending release_drains
flush_pending-Whole [] j e v = record { kept = v.kept; early = λ x. absurd (cc); flushed = λ x. e }
flush_pending-Whole (b ∷ bytes) j e v = record {
  kept = append-nil ((j.conn).wire ++ (b ∷ bytes)) ∙ ap (λ t. (j.conn).wire ++ t) (sym e) ∙ v.kept;
  early = λ x. absurd (cc);
  flushed = λ x. refl;
}

pub delivered : (started : Bool) (j : Joined) → Whole j → Whole (deliver_drains started j)
unfolding deliver_drains
delivered started j v = record {
  kept = v.kept ∙ sym (fire_all-Mute started (j.conn).fired (j.world).pipe);
  early = v.early;
  flushed = v.flushed;
}

-- A step hands over what its read has read.
pub reads_modestly :
    (bytes : Bytes) (j : Joined)
    → (j.world).pipe.destroyed ≡ false
    → ((j.conn).stream_open ≡ true)
      ⊎ (length (handed ((read (chunk bytes) ok j).world.pipe.trace)) ≤ max_pending_bytes)
    → ((j.conn).stream_open ≡ true)
      ⊎ (length (handed (j.world).pipe.trace ++ bytes) ≤ max_pending_bytes)
unfolding read side_write
reads_modestly bytes j alive (inl o) = inl o
reads_modestly bytes j alive (inr m) = elim (Bool-cases (j.conn).stream_open) [
  | inl o ↦ inl o
  | inr o ↦
      let h = read_cb-handed bytes true (j.world).pipe alive in
      inr (
        subst (λ t. length t ≤ max_pending_bytes) h
          (subst
            (λ (w : Rc × Conn).
              length (handed (read_cb (chunk bytes) (is_ok w.0) false (j.world).pipe).trace)
              ≤ max_pending_bytes)
            (else_branch (λ w. w ≡ (ok, write_early bytes (some (length bytes)) j.conn))
              (j.conn).stream_open _ _ o refl)
            m))
]

pub read_step :
    (r : Read) (j : Joined)
    → (j.world).pipe.destroyed ≡ false
    → fits r ≡ true
    → ((j.conn).stream_open ≡ true)
      ⊎ (length (handed ((read r ok j).world.pipe.trace)) ≤ max_pending_bytes)
    → Whole j
    → Whole (read r ok j)
unfolding read
read_step (chunk bytes) j alive f m v = read-Whole bytes j alive (reads_modestly bytes j alive m) v
read_step again j alive f m v =
    piped-Whole j _ (read_other-Mute again (j.world).pipe refl (λ b e. cc)) v
read_step end_of_file j alive f m v =
    piped-Whole j _ (read_other-Mute end_of_file (j.world).pipe refl (λ b e. cc)) v
read_step error j alive f m v =
    piped-Whole j _ (read_other-Mute error (j.world).pipe refl (λ b e. cc)) v
