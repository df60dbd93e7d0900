-- ===== src/Server/Conn/Greeting/Kept.antt =====
-- What the local service says before the stream is open is kept, up to the cap of the buffer.
use holesail_cpp.Base.{
  ◌≤◌, true, false, not, ◌&&◌, ◌||◌, List, [], ◌∷◌, ◌++◌, length, ◌≡◌, refl, sym, subst, ◌∙◌, arith,
  Bool-cases, inl, inr, ◌⊎◌, branches, then_branch, else_branch,
}
use holesail_cpp.Rc.{ok, fail}
use holesail_cpp.TcpPipe.{fresh}
use holesail_cpp.TcpPipe.World
use holesail_cpp.TcpPipe.World.{World, fits}
use holesail_cpp.Server.Conn.{
  max_pending_bytes, new_conn, drain_cb, stream_open_cb, stream_close_cb,
}
use holesail_cpp.Server.Conn.Greeting.{
  Joined, start, read, owes, is_local, Event, reads, opens, acks, closes, happens, step, run,
  handed,
}
use holesail_cpp.Server.Conn.Greeting.Handed.{local-Mute, on_stream_close-Mute}
use holesail_cpp.Server.Conn.Greeting.Whole.{
  Whole, piped-Whole, flush_pending-Whole, delivered, read_step,
}

-- No write to the stream fails.
abbrev pub Accepted : List Event → Type 0
Accepted [] = Unit {0}
Accepted (reads r (fail n) ∷ es) = ⊥
Accepted (opens (fail n) started ∷ es) = ⊥
Accepted (e ∷ es) = Accepted es

-- While the stream is not open, the pipe reads no more than the buffer holds.
abbrev pub Modest : List Event → Joined → Type 0
Modest [] j = Unit {0}
Modest (e ∷ es) j =
    (((j.conn).stream_open ≡ true)
      ⊎ (length (handed ((step e j).world.pipe.trace)) ≤ max_pending_bytes))
    × Modest es (step e j)

step-Whole :
    (e : Event) (j : Joined) → Accepted (e ∷ []) → Modest (e ∷ []) j → Whole j → Whole (step e j)
unfolding step drain_cb stream_close_cb stream_open_cb
step-Whole (reads r (fail n)) j a m v = absurd a
step-Whole (reads r ok) j a m v =
    let guard = (j.world).pipe.reading && (fits r && not (j.world).pipe.destroyed) in
    elim (Bool-cases guard) [
      | inl e ↦
          let made : step (reads r ok) j ≡ read r ok j =
            then_branch (λ x. x ≡ read r ok j) guard _ j e refl in
          then_branch Whole guard _ j e (
            read_step r j (ground arith) (ground arith)
              (subst
                (λ (x : Joined).
                  ((j.conn).stream_open ≡ true)
                  ⊎ (length (handed (x.world.pipe.trace)) ≤ max_pending_bytes))
                made m.0)
              v)
      | inr e ↦ else_branch Whole guard _ j e v
    ]
step-Whole (opens (fail n) started) j a m v = absurd a
step-Whole (opens ok started) j a m v =
    branches Whole ((j.conn).stream_open || not (j.conn).stream) _ _ (λ e. v)
      (λ e. delivered started _ (flush_pending-Whole (j.conn).pending j refl v))
step-Whole (acks d started) j a m v =
    branches Whole ((j.conn).stream && owes d (j.conn).drains) _ _
      (λ e. delivered started _ (record { kept = v.kept; early = v.early; flushed = v.flushed }))
      (λ e. v)
step-Whole closes j a m v =
    branches Whole (j.conn).stream _ _
      (λ e. record {
        kept = v.kept ∙ sym (on_stream_close-Mute false (j.world).pipe);
        early = v.early;
        flushed = v.flushed;
      })
      (λ e. v)
step-Whole (happens e) j a m v =
    branches Whole (is_local e) _ _
      (λ h. piped-Whole j (World.step e j.world) (local-Mute e j.world h) v) (λ h. v)

Accepted-head : (e : Event) (es : List Event) → Accepted (e ∷ es) → Accepted (e ∷ []) × Accepted es
Accepted-head (reads r ok) es a = (tt, a)
Accepted-head (reads r (fail n)) es a = absurd a
Accepted-head (opens ok started) es a = (tt, a)
Accepted-head (opens (fail n) started) es a = absurd a
Accepted-head (acks d started) es a = (tt, a)
Accepted-head closes es a = (tt, a)
Accepted-head (happens e) es a = (tt, a)

run-Whole : (es : List Event) (j : Joined) → Accepted es → Modest es j → Whole j → Whole (run es j)
unfolding run
run-Whole [] j a m v = v
run-Whole (e ∷ es) j a m v =
    let (now, later) = Accepted-head e es a in
    run-Whole es (step e j) later m.1 (step-Whole e j now (m.0, tt) v)

start-Whole : Whole start
unfolding start new_conn fresh
start-Whole = record { kept = refl; early = λ e. refl; flushed = λ e. refl }

-- In any history of an inbound TCP connection, while no write to its stream fails and what the pipe has
-- read before the stream is open fits the buffer: every byte that was read from the local service is on
-- the wire, or waits in the buffer behind it, in order and once.
pub greeting_kept :
    (es : List Event)
    → Accepted es
    → Modest es start
    → (run es start).conn.wire ++ (run es start).conn.pending
      ≡ handed (run es start).world.pipe.trace
greeting_kept es a m = (run-Whole es start a m start-Whole).kept
