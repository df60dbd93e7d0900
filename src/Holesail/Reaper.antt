-- ===== src/Holesail/Reaper.antt =====
-- `DhtReaper` of src/holesail.cpp, which withdraws a DHT and frees it once libuv has made the callbacks
-- that the withdrawal still owes.
use holesail_cpp.Base.{
  ℕ, zero, suc, ap, ◌∙◌, subst, ◌-◌, ltb, leb, if◌then◌else◌, Bool, true, false, Option, none, some,
  List, [], ◌∷◌, ◌≡◌, refl, arith, then_branch,
}
use mathlib.Core.Option.{some-injective}

-- `kDrainTurns`
abbrev pub drain_turns : ℕ
drain_turns = 16

pub data Effect : Type 0 where
  destroys_dht : Effect
  frees_dht : Effect
  closes_timer : Effect

-- The callback that the timer is armed with.
pub data Timer : Type 0 where
  begins ticks stopped : Timer

-- `withdrawing` says that hyperdht owes the callback of `hyperdht_destroy`.
pub record DhtReaper : Type 0 where
  pub turns_left : ℕ
  pub timer : Timer
  pub withdrawing : Bool
  pub trace : List Effect

unfoldable pub reap_dht : Bool → Option DhtReaper
reap_dht dht =
    if dht
    then some (record { turns_left = drain_turns; timer = begins; withdrawing = false; trace = [] })
    else none

unfoldable pub reap_tick : DhtReaper → DhtReaper
reap_tick r =
    let left = r.turns_left - 1 in
    if ltb 0 left
    then record r { turns_left = left }
    else record r { turns_left = left; timer = stopped; trace = closes_timer ∷ frees_dht ∷ r.trace }

-- `begin_reap`; the timer does not repeat.
unfoldable pub begin_reap : DhtReaper → DhtReaper
begin_reap r = record r { timer = stopped; withdrawing = true; trace = destroys_dht ∷ r.trace }

-- The callback of `hyperdht_destroy`.
unfoldable pub withdrawn_cb : DhtReaper → DhtReaper
withdrawn_cb r = record r { timer = ticks; withdrawing = false }

pub data Event : Type 0 where
  fires : Event
  withdrawn : Event

unfoldable pub fire : Timer → DhtReaper → DhtReaper
fire begins r = begin_reap r
fire ticks r = reap_tick r
fire stopped r = r

unfoldable pub step : Event → DhtReaper → DhtReaper
step fires r = fire r.timer r
step withdrawn r = if r.withdrawing then withdrawn_cb r else r

unfoldable pub run : List Event → DhtReaper → DhtReaper
run [] r = r
run (e ∷ es) r = run es (step e r)

-- How often the storage was freed.
abbrev pub freed : List Effect → ℕ
freed [] = 0
freed (frees_dht ∷ es) = suc (freed es)
freed (e ∷ es) = freed es

-- The timer's turns in a history, counted from the withdrawal of the DHT, which follows its first turn.
abbrev turns : List Event → ℕ
turns [] = 0
turns (fires ∷ es) = suc (turns es)
turns (withdrawn ∷ es) = turns es

abbrev turns_withdrawn : List Event → ℕ
turns_withdrawn [] = 0
turns_withdrawn (fires ∷ es) = turns_withdrawn es
turns_withdrawn (withdrawn ∷ es) = turns es

abbrev pub drained : List Event → ℕ
drained [] = 0
drained (fires ∷ es) = turns_withdrawn es
drained (withdrawn ∷ es) = drained es

abbrev phase : ℕ → Timer → Bool → List Effect → DhtReaper
phase n timer owed trace = record {
  turns_left = n;
  timer = timer;
  withdrawing = owed;
  trace = trace;
}

stopped_lem :
    (es : List Event) (n : ℕ) (t : List Effect) → (run es (phase n stopped false t)).trace ≡ t
unfolding run step fire
stopped_lem [] n t = refl
stopped_lem (fires ∷ es) n t = stopped_lem es n t
stopped_lem (withdrawn ∷ es) n t = stopped_lem es n t

tick_early :
    (n : ℕ) (t : List Effect)
    → reap_tick (phase (suc (suc n)) ticks false t) ≡ phase (suc n) ticks false t
unfolding reap_tick
tick_early n t =
    let h : ltb 0 (suc (suc n) - 1) ≡ true = ground arith in
    let e : suc (suc n) - 1 ≡ suc n = omega arith in
    then_branch (λ q. q ≡ phase (suc n) ticks false t) (ltb 0 (suc (suc n) - 1)) _ _ h
      (ap (λ k. phase k ticks false t) e)

freed_ticking :
    (es : List Event) (n : ℕ) (t : List Effect)
    → freed t ≡ 0
    → freed (run es (phase (suc n) ticks false t)).trace ≡ (if leb (suc n) (turns es) then 1 else 0)
unfolding run step fire reap_tick
freed_ticking [] n t h = h ∙ ground arith
freed_ticking (fires ∷ es) zero t h =
    ap freed (stopped_lem es 0 (closes_timer ∷ frees_dht ∷ t)) ∙ ap suc h ∙ ground arith
freed_ticking (fires ∷ es) (suc n) t h =
    ap (λ q. freed (run es q).trace) (tick_early n t) ∙ freed_ticking es n t h ∙ ground arith
freed_ticking (withdrawn ∷ es) n t h = freed_ticking es n t h

freed_withdrawing :
    (es : List Event) (n : ℕ) (t : List Effect)
    → freed t ≡ 0
    → freed (run es (phase (suc n) stopped true t)).trace
      ≡ (if leb (suc n) (turns_withdrawn es) then 1 else 0)
unfolding run step fire withdrawn_cb
freed_withdrawing [] n t h = h ∙ ground arith
freed_withdrawing (fires ∷ es) n t h = freed_withdrawing es n t h
freed_withdrawing (withdrawn ∷ es) n t h = freed_ticking es n t h

freed_beginning :
    (es : List Event) (n : ℕ) (t : List Effect)
    → freed t ≡ 0
    → freed (run es (phase (suc n) begins false t)).trace
      ≡ (if leb (suc n) (drained es) then 1 else 0)
unfolding run step fire begin_reap
freed_beginning [] n t h = h ∙ ground arith
freed_beginning (fires ∷ es) n t h = freed_withdrawing es n (destroys_dht ∷ t) h
freed_beginning (withdrawn ∷ es) n t h = freed_beginning es n t h

-- From the moment a DHT is given to its reaper, its storage is freed exactly once the withdrawal has
-- completed and the timer has turned 16 times since, and never again, in any order of what happens.
pub freed_after_drain :
    (es : List Event) (r : DhtReaper)
    → reap_dht true ≡ some r
    → freed (run es r).trace ≡ (if leb drain_turns (drained es) then 1 else 0)
unfolding reap_dht
freed_after_drain es r h =
    subst (λ q. freed (run es q).trace ≡ (if leb drain_turns (drained es) then 1 else 0))
      (some-injective (phase drain_turns begins false []) r h) (freed_beginning es 15 [] refl)
