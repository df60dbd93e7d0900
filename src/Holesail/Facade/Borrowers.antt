-- ===== src/Holesail/Facade/Borrowers.antt =====
-- Each step of ready and close keeps the DHT of a facade for those that borrow it.
use holesail_cpp.Base.{
  ◌+◌, ◌≤◌, subst, if◌then◌else◌, Bool, true, false, Option, none, some, List, ◌≡◌, refl, ap, sym,
  ◌∙◌, arith, Bool-cases, inl, inr, then_branch, else_branch,
}
use holesail_cpp.Crypto.{Crypto}
use holesail_cpp.Server.{HolesailServer}
use holesail_cpp.Client.Table.{Listening}
use holesail_cpp.Client.Table.Final.{connect-Fate}
use holesail_cpp.Holesail.Facade.{
  Effect, Holesail, Answers, destroy_server, destroy_client, free_server, free_client, close,
  release_dht, reset_endpoint, refresh_info, serve, dial,
}
use holesail_cpp.Holesail.Facade.Counts.{
  created, reaped, lent, Orderly, count, Fated, Tended, free-lent, free-created,
  freed_server-Orderly, freed_client-Orderly, count-destroy_server, count-destroy_client,
}

pub record Lends (h : Holesail) : Type 0 where
  pub alone : h.dht ≡ false → count h.server + count h.client ≡ 0
  pub one : count h.server + count h.client ≤ 1
  pub exact : lent h.trace ≡ count h.server + count h.client
  pub owned : created h.trace ≡ reaped h.trace + (if h.dht then 1 else 0)
  pub orderly : Orderly h.trace
  pub fated : Fated h.client
  pub tended : Tended h.server

-- Only the objects have changed, not which of them exist.
pub held :
    {g h : Holesail}
    → g.dht ≡ h.dht
    → g.trace ≡ h.trace
    → count g.server ≡ count h.server
    → count g.client ≡ count h.client
    → Fated g.client
    → Tended g.server
    → Lends h
    → Lends g
held {g} {h} d t s cl f k v = record {
  alone = λ e. omega (arith, s, cl, v.alone (sym d ∙ e));
  one = omega (arith, s, cl, v.one);
  exact = ap lent t ∙ v.exact ∙ omega (arith, s, cl);
  owned =
      ap created t
      ∙ v.owned
      ∙ sym (
          ap (λ u. reaped u + (if g.dht then 1 else 0)) t
          ∙ ap (λ k. reaped h.trace + (if k then 1 else 0)) d);
  orderly = subst Orderly (sym t) v.orderly;
  fated = f;
  tended = k;
}

pub close-Lends : (b : Bool) (r : Listening) (h : Holesail) → Lends h → Lends (close b r h)
unfolding close release_dht reset_endpoint refresh_info
close-Lends b r h v =
    let s = destroy_server h.server in
    let d = destroy_client b r h.client in
    let t = free_client d (free_server s h.trace) in
    let none_left : lent t ≡ 0 = omega (
      arith,
      free-lent s d h.trace,
      v.exact,
      count-destroy_server h.server,
      count-destroy_client b r h.client,
    ) in
    let orderly : Orderly t =
      freed_client-Orderly b r h.client _ v.fated
        (freed_server-Orderly h.server h.trace v.tended v.orderly) in
    let (c, q) = free-created s d h.trace in
    elim (Bool-cases h.dht) [
      | inl e ↦ record {
        alone = λ z. refl;
        one = omega arith;
        exact = then_branch (λ (u : List Effect). lent u ≡ 0) h.dht _ _ e none_left;
        owned =
            then_branch (λ (u : List Effect). created u ≡ reaped u + 0) h.dht _ _ e
              (let own : created h.trace ≡ reaped h.trace + 1 = ground (arith, v.owned) in
                omega (arith, c, q, own));
        orderly = then_branch Orderly h.dht _ _ e (none_left, orderly);
        fated = tt;
        tended = tt;
      }
      | inr e ↦ record {
        alone = λ z. refl;
        one = omega arith;
        exact = else_branch (λ (u : List Effect). lent u ≡ 0) h.dht _ _ e none_left;
        owned =
            else_branch (λ (u : List Effect). created u ≡ reaped u + 0) h.dht _ _ e
              (let own : created h.trace ≡ reaped h.trace + 0 = ground (arith, v.owned) in
                omega (arith, c, q, own));
        orderly = else_branch Orderly h.dht _ _ e orderly;
        fated = tt;
        tended = tt;
      }
    ]

pub serve-Lends :
    (c : Crypto) (a : Answers) (callback : Bool) (s : Option HolesailServer) (h : Holesail)
    → h.dht ≡ true
    → count h.server ≡ 0
    → count h.client ≡ 0
    → Lends h
    → Lends (serve c a callback s h).1
unfolding serve
serve-Lends c a callback none h d ns nc v = v
serve-Lends c a callback (some s) h d ns nc v = record {
  alone = λ e. ground arith;
  one = omega arith;
  exact = omega (arith, v.exact);
  owned = v.owned;
  orderly = v.orderly;
  fated = v.fated;
  tended = tt;
}

pub dial-Lends :
    (c : Crypto) (a : Answers) (callback : Bool) (h : Holesail)
    → h.dht ≡ true
    → count h.server ≡ 0
    → count h.client ≡ 0
    → Lends h
    → Lends (dial c a callback h).1
unfolding dial
dial-Lends c a callback h d ns nc v = record {
  alone = λ e. ground arith;
  one = omega arith;
  exact = omega (arith, v.exact);
  owned = v.owned;
  orderly = v.orderly;
  fated = connect-Fate _ _ _ _ _ _;
  tended = v.tended;
}
