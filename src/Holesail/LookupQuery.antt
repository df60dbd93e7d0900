-- ===== src/Holesail/LookupQuery.antt =====
-- `Holesail::lookup` of src/holesail.cpp: the two interpretations of a key that are asked at once, the
-- replies, and the result that is reported when both have settled.
use holesail_cpp.Base.{
  ℕ, suc, ◌-◌, ◌<◌, ◌≤◌, ltb, if◌then◌else◌, Bool, true, false, not, ◌&&◌, ◌||◌, Option, none, some,
  value_or, is_some, List, [], ◌∷◌, length, is_empty, Bytes, ◌≡◌, refl, sym, ap, ◌∙◌, arith, lt→ltb,
  nat_cases, Bool-cases, ◌⊎◌, inl, inr,
}
use mathlib.Core.Option
use holesail_cpp.Keys.{parse_url, z32_encode, z32_decode}
use holesail_cpp.Keys.Z32.{z32_decode-z32_encode}
use holesail_cpp.Record.{Record, decode_record}
use holesail_cpp.Crypto.{Crypto}
use holesail_cpp.Rc.{Rc, ok, uv_einval, uv_enomem, uv_eio}
use holesail_cpp.Client
use holesail_cpp.Client.{target, checked_target, is_stale}

-- `protocol` is true for "udp".
pub record LookupResult : Type 0 where
  pub host : Bytes
  pub port : ℕ
  pub is_udp : Bool
  pub secure : Bool

-- The record and sequence number of one interpretation.
pub record Answer : Type 0 where
  pub newest : Option Record
  pub newest_seq : ℕ

-- `results` are the calls of `cb`, newest first; `reaped` says that the dht was handed to `reap_dht`.
pub record LookupCtx : Type 0 where
  pub secure : Bool
  pub pending : ℕ
  pub primary : Answer
  pub fallback : Answer
  pub results : List (Option LookupResult)
  pub reaped : Bool

-- The 32 bytes that the key of the url spells, or their hash; `none` where the key is refused.
unfoldable pub seed_of : Crypto → Bytes → Bool → Option Bytes
seed_of c key secure =
    checked_target (z32_decode (if secure then z32_encode (c.sha256 key) else key))

-- The public keys of the primary and of the fallback query.
unfoldable pub arms : Crypto → Bytes → Option (Bytes × Bytes)
arms c url =
    Option.map (λ raw. (c.public_key_of raw, raw))
      (seed_of c (parse_url url).key (value_or (parse_url url).secure false))

unfoldable pub answered : Option Record → ℕ → Answer → Answer
answered none seq a = a
answered (some decoded) seq a = record { newest = some decoded; newest_seq = seq }

-- `lookup_value_cb` on the arm that it belongs to.
unfoldable pub lookup_value_cb : ℕ → Option Bytes → Answer → Answer
lookup_value_cb seq none a = a
lookup_value_cb seq (some value) a =
    if is_empty value || is_stale a.newest seq a.newest_seq
    then a
    else answered (decode_record value) seq a

unfoldable pub result_of : Option Record → Bool → Option LookupResult
result_of none secure = none
result_of (some r) secure = some (record {
  host = r.host;
  port = value_or r.port 0;
  is_udp = value_or r.udp false;
  secure = secure;
})

unfoldable pub lookup_finish : LookupCtx → LookupCtx
lookup_finish ctx =
    let found =
      if is_some (ctx.primary).newest then (ctx.primary).newest else (ctx.fallback).newest in
    record ctx { results = result_of found ctx.secure ∷ ctx.results; reaped = true }

unfoldable pub lookup_done_cb : LookupCtx → LookupCtx
lookup_done_cb ctx =
    let settled = record ctx { pending = ctx.pending - 1 } in
    if ltb 0 settled.pending then settled else lookup_finish settled

abbrev pub no_answer : Answer
no_answer = record { newest = none; newest_seq = 0 }

-- `lookup`; `created` says that `create_dht` returned one, `primary_ok` and `fallback_ok` that the two
-- queries started. No context is left where none of them did.
unfoldable pub lookup : Crypto → Bytes → Bool → Bool → Bool → Rc × Option LookupCtx
lookup c url created primary_ok fallback_ok =
    if not (is_some (arms c url))
    then (uv_einval, none)
    else if not created
    then (uv_enomem, none)
    else if not primary_ok && not fallback_ok
    then (uv_eio, none)
    else (let ctx : LookupCtx = record {
      secure = value_or (parse_url url).secure false;
      pending = 2;
      primary = no_answer;
      fallback = no_answer;
      results = [];
      reaped = false;
    } in
        (ok, some (if not primary_ok || not fallback_ok then lookup_done_cb ctx else ctx)))

-- What the loop delivers to a lookup that has started.
pub data Event : Type 0 where
  primary_value : ℕ → Option Bytes → Event
  fallback_value : ℕ → Option Bytes → Event
  done : Event

unfoldable pub step : Event → LookupCtx → LookupCtx
step (primary_value seq v) ctx = record ctx { primary = lookup_value_cb seq v ctx.primary }
step (fallback_value seq v) ctx = record ctx { fallback = lookup_value_cb seq v ctx.fallback }
step done ctx = lookup_done_cb ctx

unfoldable pub run : List Event → LookupCtx → LookupCtx
run [] ctx = ctx
run (e ∷ es) ctx = run es (step e ctx)

-- How often `done` is delivered.
unfoldable pub dones : List Event → ℕ
dones [] = 0
dones (done ∷ es) = suc (dones es)
dones (e ∷ es) = dones es

seed_of-secure : (c : Crypto) (k : Bytes) → seed_of c k true ≡ some (c.sha256 k)
unfolding seed_of checked_target
seed_of-secure c k =
    let spelt = z32_decode-z32_encode (c.sha256 k) (c.sha256-AreBytes k) in
    let long = c.length-sha256 k in ground arith

seed_of-public : (c : Crypto) (k : Bytes) → seed_of c k false ≡ checked_target (z32_decode k)
unfolding seed_of
seed_of-public c k = refl

target-public :
    (c : Crypto) (config : Client.Config) {pk : Bytes}
    → config.secure ≡ false
    → target c config ≡ some pk
    → checked_target (z32_decode config.key) ≡ some pk
unfolding target
target-public c config f h = ground arith

-- Where a client with the key and the mode of a url has a target, a lookup of that url asks for the
-- very same public key: as the primary in the secure mode, as the fallback otherwise.
pub arms-target :
    (c : Crypto) (url : Bytes) (config : Client.Config) {pk : Bytes}
    → config.key ≡ (parse_url url).key
    → config.secure ≡ value_or (parse_url url).secure false
    → target c config ≡ some pk
    → ((raw : Bytes) × (arms c url ≡ some (c.public_key_of raw, raw))
        × (pk ≡ (if config.secure then c.public_key_of raw else raw)))
unfolding arms target
arms-target c url config {pk} ek es h = elim (Bool-cases config.secure) [
  | inl t ↦
      let spelt = seed_of-secure c config.key in
      (
        c.sha256 config.key,
        ap (Option.map (λ raw. (c.public_key_of raw, raw))) (
            ap (seed_of c (parse_url url).key) (sym es ∙ t)
            ∙ ap (λ k. seed_of c k true) (sym ek)
            ∙ spelt),
        ground arith,
      )
  | inr f ↦
      let h' = target-public c config f h in
      (
        pk,
        ap (Option.map (λ raw. (c.public_key_of raw, raw))) (
            ap (seed_of c (parse_url url).key) (sym es ∙ f)
            ∙ ap (λ k. seed_of c k false) (sym ek)
            ∙ seed_of-public c config.key
            ∙ h'),
        ground arith,
      )
]

answered_out :
    (es : List Event) (ctx : LookupCtx)
    → dones es ≡ 0
    → ((run es ctx).results ≡ ctx.results) × ((run es ctx).reaped ≡ ctx.reaped)
unfolding run step dones
answered_out [] ctx h = (refl, refl)
answered_out (primary_value seq v ∷ es) ctx h = answered_out es (step (primary_value seq v) ctx) h
answered_out (fallback_value seq v ∷ es) ctx h = answered_out es (step (fallback_value seq v) ctx) h
answered_out (done ∷ es) ctx h = absurd (omega (arith, h))

done_more :
    (ctx : LookupCtx)
    → 1 < ctx.pending
    → lookup_done_cb ctx ≡ record ctx { pending = ctx.pending - 1 }
unfolding lookup_done_cb
done_more ctx h = let t = lt→ltb 0 (ctx.pending - 1) (omega arith) in simp t

done_last :
    (ctx : LookupCtx)
    → ctx.pending ≡ 1
    → (length (lookup_done_cb ctx).results ≡ suc (length ctx.results))
      × ((lookup_done_cb ctx).reaped ≡ true)
unfolding lookup_done_cb lookup_finish
done_last ctx h = (simp h, simp h)

-- While fewer queries are done than are out, the callback is not called and the dht is kept; when the
-- last of them is done, the callback is called exactly once and the dht is handed over for closing,
-- whatever values arrive in between or afterwards.
pub answers_once :
    (es : List Event) (ctx : LookupCtx)
    → 0 < ctx.pending
    → dones es ≤ ctx.pending
    → ((dones es < ctx.pending)
        × ((run es ctx).results ≡ ctx.results)
        × ((run es ctx).reaped ≡ ctx.reaped))
      ⊎ ((dones es ≡ ctx.pending)
          × (length (run es ctx).results ≡ suc (length ctx.results))
          × ((run es ctx).reaped ≡ true))
unfolding run step dones
answers_once [] ctx p n = inl (p, refl, refl)
answers_once (primary_value seq v ∷ es) ctx p n =
    answers_once es (step (primary_value seq v) ctx) p n
answers_once (fallback_value seq v ∷ es) ctx p n =
    answers_once es (step (fallback_value seq v) ctx) p n
answers_once (done ∷ es) ctx p n = elim (nat_cases 1 ctx.pending) [
  | inl more ↦
      let e = done_more ctx more in
      elim (answers_once es (record ctx { pending = ctx.pending - 1 }) (omega arith)
        (omega arith)) [
          | inl (a, kept, out) ↦ inl (
            omega arith,
            ap (λ x. (run es x).results) e ∙ kept,
            ap (λ x. (run es x).reaped) e ∙ out,
          )
          | inr (a, told, out) ↦ inr (
            omega arith,
            ap (λ x. length (run es x).results) e ∙ told,
            ap (λ x. (run es x).reaped) e ∙ out,
          )
        ]
  | inr last ↦
      let one : ctx.pending ≡ 1 = omega arith in
      let (told, closed) = done_last ctx one in
      let (kept, out) = answered_out es (lookup_done_cb ctx) (omega arith) in
      inr (omega arith, ap length kept ∙ told, out ∙ closed)
]
