-- ===== src/Holesail/Facade/Lending.antt =====
-- The DHT is given up only once nothing borrows it.
use holesail_cpp.Base.{
  ◌+◌, subst, if◌then◌else◌, Bool, true, false, not, Option, none, some, List, ◌∷◌, Bytes, ◌≡◌,
  refl, ◌⊎◌, arith, Bool-cases, inl, inr, then_branch, else_branch,
}
use mathlib.Core.Option.{some-injective}
use holesail_cpp.Rc.{Rc}
use holesail_cpp.Crypto.{Crypto}
use holesail_cpp.Holesail.{Options, Checked, valid, invalid, validate_opts}
use holesail_cpp.Holesail.Facade.{
  creates_dht, Holesail, Answers, refresh_info, pause, resume, constructed, new_holesail, ready,
}
use holesail_cpp.Holesail.Facade.History.{
  Event, readies, pauses, resumes, asks_info, closes, server_event, client_event, step, run,
  run_inv,
}
use holesail_cpp.Holesail.Facade.Counts.{
  created, reaped, Orderly, count, count-none, count-pause_server, count-resume_server,
  count-on_server, count-pause_client, count-resume_client, count-on_client, pause_client-Fated,
  resume_client-Fated, on_client-Fated, pause_server-Tended, resume_server-Tended, on_server-Tended,
}
use holesail_cpp.Holesail.Facade.Borrowers.{Lends, held, close-Lends, serve-Lends, dial-Lends}

-- What a call returned leaves a facade in order.
abbrev Leaves : Option Rc × Holesail → Type 0
Leaves r = Lends r.1

made-Lends :
    (h : Holesail)
    → Lends h
    → h.dht ≡ false
    → Lends (record h { dht = true; opened = true; trace = creates_dht ∷ h.trace })
made-Lends h v e =
    let own : created h.trace ≡ reaped h.trace + 0 = ground (arith, v.owned) in
    record {
      alone = λ z. ground arith;
      one = v.one;
      exact = v.exact;
      owned = omega (arith, own);
      orderly = v.orderly;
      fated = v.fated;
      tended = v.tended;
    }

ready-Lends :
    (c : Crypto) (a : Answers) (callback : Bool) (h : Holesail)
    → Lends h
    → Leaves (ready c a callback h)
unfolding ready
ready-Lends c a callback h v = elim (Bool-cases h.dht) [
  | inl e ↦ then_branch Leaves h.dht _ _ e v
  | inr e ↦
      let none_yet = v.alone e in
      let ns : count h.server ≡ 0 = omega (arith, none_yet) in
      let nc : count h.client ≡ 0 = omega (arith, none_yet) in
      else_branch Leaves h.dht _ _ e (elim (Bool-cases (not a.dht_created)) [
        | inl n ↦ then_branch Leaves (not a.dht_created) _ _ n v
        | inr n ↦
            else_branch Leaves (not a.dht_created) _ _ n (elim (Bool-cases (h.options).server) [
              | inl s ↦
                  then_branch Leaves (h.options).server _ _ s
                    (serve-Lends c a callback _ _ refl ns nc (made-Lends h v e))
              | inr s ↦
                  else_branch Leaves (h.options).server _ _ s
                    (dial-Lends c a callback _ refl ns nc (made-Lends h v e))
            ])
      ])
]

step-Lends : (c : Crypto) (e : Event) (h : Holesail) → Lends h → Lends (step c e h)
unfolding step pause resume refresh_info
step-Lends c (readies a callback) h v = ready-Lends c a callback h v
step-Lends c pauses h v =
    held refl refl (count-pause_server h.server) (count-pause_client h.client)
      (pause_client-Fated h.client v.fated) (pause_server-Tended h.server v.tended) v
step-Lends c resumes h v =
    held refl refl (count-resume_server h.server) (count-resume_client h.client)
      (resume_client-Fated h.client v.fated) (resume_server-Tended h.server v.tended) v
step-Lends c asks_info h v = held refl refl refl refl v.fated v.tended v
step-Lends c (closes b r) h v = close-Lends b r h v
step-Lends c (server_event e) h v =
    held refl refl (count-on_server e h.server) refl v.fated (on_server-Tended e h.server v.tended)
      v
step-Lends c (client_event e) h v =
    held refl refl refl (count-on_client e h.client) (on_client-Fated e h.client v.fated) v.tended v

constructed-Lends :
    (c : Crypto) (k : Checked) (drawn : Bytes) (h : Holesail)
    → constructed c k drawn ≡ some h
    → Lends h
unfolding constructed
constructed-Lends c (invalid m) drawn h e = absurd (cc)
constructed-Lends c (valid o) drawn h e = subst Lends (some-injective _ h e) (record {
  alone = λ z. refl;
  one = omega arith;
  exact = refl;
  owned = refl;
  orderly = tt;
  fated = tt;
  tended = tt;
})

-- In any history of a facade, with any callbacks of its server, of the server's connections or of its client
-- between the calls of its owner: each DHT that it created is still held or was given to the reaper once; it
-- was given up only when no server and no client existed; and it still holds a DHT, or it has neither. A
-- server was freed only without a listening server and a refresh timer, each of its connections with its
-- stream closed or its pipe destroyed; a client only as destroyed, neither of its proxies holding a socket.
pub dht_given_up_last :
    (c : Crypto) (options : Options) (drawn : Bytes) (h : Holesail) (es : List Event)
    → new_holesail c options drawn ≡ some h
    → (created (run c es h).trace ≡ reaped (run c es h).trace + (if (run c es h).dht then 1 else 0))
      × (Orderly (run c es h).trace
          × (((run c es h).dht ≡ true)
              ⊎ (((run c es h).server ≡ none) × ((run c es h).client ≡ none))))
unfolding new_holesail
dht_given_up_last c options drawn h es e =
    let v =
      run_inv c Lends (step-Lends c) es h (constructed-Lends c (validate_opts options) drawn h e) in
    let kept =
      elim (Bool-cases (run c es h).dht)
        as (λ x.
          ((run c es h).dht ≡ true)
          ⊎ (((run c es h).server ≡ none) × ((run c es h).client ≡ none))) [
            | inl d ↦ inl d
            | inr d ↦
                (let w = v.alone d in
                  inr (count-none _ (omega (arith, w)), count-none _ (omega (arith, w))))
          ] in
    (v.owned, (v.orderly, kept))
