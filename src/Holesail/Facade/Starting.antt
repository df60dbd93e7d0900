-- ===== src/Holesail/Facade/Starting.antt =====
-- `ready` throws no exception: the seed that the facade derives is one that the server's constructor takes.
use holesail_cpp.Base.{
  Bool, true, false, not, Option, none, some, is_some, value_or, List, [], ◌∷◌, Bytes, AreBytes,
  is_empty, length, ◌≡◌, refl, ap, sym, ◌∙◌, ◌⊎◌, arith, subst, inl, inr, else_branch, branches,
}
use mathlib.Core.Option.{some-injective}
use holesail_cpp.Rc.{Rc}
use holesail_cpp.Crypto.{Crypto}
use holesail_cpp.Keys.{parse_url, to_hex, from_hex, random_hex32}
use holesail_cpp.Keys.Hex.{from_hex-to_hex, length-to_hex}
use holesail_cpp.Holesail.Rendezvous.{not_empty}
use holesail_cpp.Server
use holesail_cpp.Server.{HolesailServer, with_seed, from_seed, new_server}
use holesail_cpp.Holesail.{
  Options, Derived, derive, hash_hex, server_config, Checked, valid, invalid, validate_opts,
}
use holesail_cpp.Holesail.Facade.{
  Holesail, Answers, constructed, new_holesail, serve, dial, ready, pause, resume, refresh_info,
  close, release_dht, reset_endpoint,
}
use holesail_cpp.Holesail.Facade.History.{
  Event, readies, pauses, resumes, asks_info, closes, server_event, client_event, step, run,
}

empty_differs : (s : Bytes) → s ≡ [] → is_empty s ≡ false → ⊥
empty_differs [] e f = cc
empty_differs (b ∷ s) e f = cc

module _ (c : Crypto) where
  open c use {sha256}

  from_seed_made :
      (config : Server.Config) (raw : Bytes)
      → length raw ≡ 32
      → is_some (from_seed c config true (some raw)) ≡ true
  unfolding from_seed
  from_seed_made config raw n = ground (arith, n)

  -- The constructor takes a seed of 32 bytes, and draws one where none is given.
  new_server_made :
      (config : Server.Config) (drawn raw : Bytes)
      → (with_seed config drawn).seed_hex ≡ to_hex raw
      → AreBytes raw
      → length raw ≡ 32
      → is_some (new_server c config true drawn) ≡ true
  unfolding new_server
  new_server_made config drawn raw e b n =
      ap (λ o. is_some (from_seed c (with_seed config drawn) true o))
        (ap from_hex e ∙ from_hex-to_hex raw b)
      ∙ from_seed_made (with_seed config drawn) raw n

  with_seed_empty :
      (config : Server.Config) (drawn : Bytes)
      → config.seed_hex ≡ []
      → (with_seed config drawn).seed_hex ≡ to_hex drawn
  unfolding with_seed random_hex32
  with_seed_empty config drawn e =
      branches (λ (g : Server.Config). g.seed_hex ≡ to_hex drawn) (is_empty config.seed_hex) _ _
        (λ t. refl) (λ f. absurd (empty_differs config.seed_hex e f))

  hash_not_empty : (k : Bytes) → is_empty (hash_hex c k) ≡ false
  unfolding hash_hex
  hash_not_empty k =
      not_empty (to_hex (sha256 k)) (omega (arith, length-to_hex (sha256 k), c.length-sha256 k))

  with_seed_hash :
      (config : Server.Config) (drawn k : Bytes)
      → config.seed_hex ≡ hash_hex c k
      → (with_seed config drawn).seed_hex ≡ hash_hex c k
  unfolding with_seed
  with_seed_hash config drawn k e =
      else_branch (λ (g : Server.Config). g.seed_hex ≡ hash_hex c k) (is_empty config.seed_hex) _ _
        (ap is_empty e ∙ hash_not_empty k) e

  -- A seed that is missing or the hash of a key.
  abbrev Seed : Bytes → Type 0
  Seed s = (s ≡ []) ⊎ ((k : Bytes) × (s ≡ hash_hex c k))

  derive-Seed : (o : Options) (drawn : Bytes) → Seed (derive c o drawn).seed_hex
  unfolding derive
  derive-Seed o drawn =
      let parsed = parse_url (value_or o.key []) in
      let secure = value_or parsed.secure (value_or o.secure false) in
      branches (λ (d : Derived). Seed d.seed_hex) o.server _ _
        (λ s.
          branches (λ (d : Derived). Seed d.seed_hex) (not (is_empty parsed.key)) _ _
            (λ g. inr (parsed.key, refl))
            (λ g.
              branches (λ (d : Derived). Seed d.seed_hex) secure _ _
                (λ t. inr (random_hex32 drawn, refl)) (λ t. inl refl)))
        (λ s. branches Seed secure _ _ (λ t. inr (parsed.key, refl)) (λ t. inl refl))

  new_server-Seed :
      (o : Options) (d : Derived) (drawn : Bytes)
      → Seed d.seed_hex
      → AreBytes drawn
      → length drawn ≡ 32
      → is_some (new_server c (server_config o d) true drawn) ≡ true
  unfolding server_config hash_hex
  new_server-Seed o d drawn (inl e) b n =
      new_server_made (server_config o d) drawn drawn (with_seed_empty (server_config o d) drawn e)
        b n
  new_server-Seed o d drawn (inr (k, e)) b n =
      new_server_made (server_config o d) drawn (sha256 k)
        (with_seed_hash (server_config o d) drawn k e ∙ refl) (c.sha256-AreBytes k)
        (c.length-sha256 k)

  serve-derived :
      (a : Answers) (callback : Bool) (s : Option HolesailServer) (h : Holesail)
      → (serve c a callback s h).1.derived ≡ h.derived
  unfolding serve
  serve-derived a callback none h = refl
  serve-derived a callback (some s) h = refl

  ready-derived :
      (a : Answers) (callback : Bool) (h : Holesail) → (ready c a callback h).1.derived ≡ h.derived
  unfolding ready dial
  ready-derived a callback h =
      branches (λ (r : Option Rc × Holesail). r.1.derived ≡ h.derived) h.dht _ _ (λ d. refl)
        (λ d.
          branches (λ (r : Option Rc × Holesail). r.1.derived ≡ h.derived) (not a.dht_created) _ _
            (λ n. refl)
            (λ n.
              branches (λ (r : Option Rc × Holesail). r.1.derived ≡ h.derived) (h.options).server _
                _ (λ s. serve-derived a callback _ _) (λ s. refl)))

  step-derived : (e : Event) (h : Holesail) → (step c e h).derived ≡ h.derived
  unfolding step pause resume refresh_info close release_dht reset_endpoint
  step-derived (readies a callback) h = ready-derived a callback h
  step-derived pauses h = refl
  step-derived resumes h = refl
  step-derived asks_info h = refl
  step-derived (closes b r) h = refl
  step-derived (server_event e) h = refl
  step-derived (client_event e) h = refl

  run-derived : (es : List Event) (h : Holesail) → (run c es h).derived ≡ h.derived
  unfolding run
  run-derived [] h = refl
  run-derived (e ∷ es) h = run-derived es (step c e h) ∙ step-derived e h

  constructed-Seed :
      (k : Checked) (drawn : Bytes) (h : Holesail)
      → constructed c k drawn ≡ some h
      → Seed (h.derived).seed_hex
  unfolding constructed
  constructed-Seed (invalid m) drawn h e = absurd (cc)
  constructed-Seed (valid o) drawn h e =
      subst (λ (g : Holesail). Seed (g.derived).seed_hex) (some-injective _ h e)
        (derive-Seed o drawn)

  serve_answers :
      (a : Answers) (callback : Bool) (s : Option HolesailServer) (h : Holesail)
      → is_some s ≡ true
      → is_some (serve c a callback s h).0 ≡ true
  unfolding serve
  serve_answers a callback none h e = e
  serve_answers a callback (some s) h e = refl

  -- At any point of any history of a facade, `ready` returns a code and throws nothing, provided that the
  -- random generator yields 32 bytes.
  pub ready_answers :
      (options : Options) (drawn : Bytes) (h : Holesail) (es : List Event) (a : Answers)
      (callback : Bool)
      → new_holesail c options drawn ≡ some h
      → AreBytes a.drawn
      → length a.drawn ≡ 32
      → is_some (ready c a callback (run c es h)).0 ≡ true
  unfolding new_holesail ready dial
  ready_answers options drawn h es a callback e b n =
      let g = run c es h in
      let seed =
        subst (λ (d : Derived). Seed d.seed_hex) (sym (run-derived es h))
          (constructed-Seed (validate_opts options) drawn h e) in
      branches (λ (r : Option Rc × Holesail). is_some r.0 ≡ true) g.dht _ _ (λ d. refl)
        (λ d.
          branches (λ (r : Option Rc × Holesail). is_some r.0 ≡ true) (not a.dht_created) _ _
            (λ m. refl)
            (λ m.
              branches (λ (r : Option Rc × Holesail). is_some r.0 ≡ true) (g.options).server _ _
                (λ s.
                  serve_answers a callback _ _
                    (new_server-Seed g.options g.derived a.drawn seed b n))
                (λ s. refl)))
