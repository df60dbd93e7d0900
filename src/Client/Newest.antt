-- ===== src/Client/Newest.antt =====
-- Which record a client resolves its options from, over all the replies of its DHT query.
use holesail_cpp.Base.{
  ℕ, ◌≤◌, leb, if◌then◌else◌, false, ◌||◌, Option, none, some, List, [], ◌∷◌, is_empty, Bytes, ◌≡◌,
  refl, subst, sym, ◌∙◌, arith, Bool-cases, Option-cases, inl, inr, ◌⊎◌,
}
use holesail_cpp.Record.{Record, decode_record}
use holesail_cpp.Client.{Lookup, store, is_stale, mutable_cb}

-- One reply: its sequence number and its value, `none` for a null pointer.
pub data Reply : Type 0 where
  reply : ℕ → Option Bytes → Reply

-- All the replies of a query, in the order in which they arrive.
unfoldable pub receive : List Reply → Lookup → Lookup
receive [] s = s
receive (reply seq v ∷ rs) s = receive rs (mutable_cb seq v s)

-- The record that a reply carries, if it is one.
unfoldable pub carried : Option Bytes → Option Record
carried none = none
carried (some v) = if is_empty v then none else decode_record v

-- A record is held that is at least as new as the sequence number.
unfoldable pub Holds : ℕ → Lookup → Type 0
Holds seq s = (rec : Record) × (s.newest ≡ some rec) × (seq ≤ s.newest_seq)

-- The record that is held came with the sequence number that is held.
unfoldable pub CameFrom : List Reply → Option Record → ℕ → Type 0
CameFrom [] rec seq = ⊥
CameFrom (reply n v ∷ rs) rec seq = ((carried v ≡ rec) × (n ≡ seq)) ⊎ CameFrom rs rec seq

step_alive :
    (seq : ℕ) (v : Option Bytes) (s : Lookup)
    → s.destroyed ≡ false
    → (mutable_cb seq v s).destroyed ≡ false
unfolding mutable_cb store
step_alive seq none s h = h
step_alive seq (some v) s h = elim (Option-cases (decode_record v)) [
  | inl e ↦ ground arith
  | inr (rec, e) ↦ ground arith
]

step-Holds : (n seq : ℕ) (v : Option Bytes) (s : Lookup) → Holds n s → Holds n (mutable_cb seq v s)
unfolding mutable_cb store is_stale Holds
step-Holds n seq none s h = h
step-Holds n seq (some v) s (rec, e, le) = elim (Option-cases (decode_record v)) [
  | inl d ↦ (rec, ground arith, ground arith)
  | inr (new, d) ↦ elim (Bool-cases (s.destroyed || (is_empty v || leb seq s.newest_seq))) [
    | inl t ↦ (rec, ground arith, ground arith)
    | inr f ↦ (new, ground arith, ground arith)
  ]
]

step-stores :
    (seq : ℕ) (v : Bytes) (s : Lookup) {rec : Record}
    → s.destroyed ≡ false
    → is_empty v ≡ false
    → decode_record v ≡ some rec
    → Holds seq (mutable_cb seq (some v) s)
unfolding mutable_cb store is_stale Holds
step-stores seq v s {rec} h full e = elim (Option-cases s.newest) [
  | inl n ↦ (rec, ground arith, ground arith)
  | inr (old, o) ↦ elim (Bool-cases (leb seq s.newest_seq)) [
    | inl t ↦ (old, ground arith, ground arith)
    | inr f ↦ (rec, ground arith, ground arith)
  ]
]

step-origin :
    (seq : ℕ) (v : Option Bytes) (s : Lookup)
    → (((mutable_cb seq v s).newest ≡ s.newest) × ((mutable_cb seq v s).newest_seq ≡ s.newest_seq))
      ⊎ ((carried v ≡ (mutable_cb seq v s).newest) × (seq ≡ (mutable_cb seq v s).newest_seq))
unfolding mutable_cb store carried
step-origin seq none s = inl (refl, refl)
step-origin seq (some v) s =
    elim (Bool-cases (s.destroyed || (is_empty v || is_stale s.newest seq s.newest_seq))) [
      | inl t ↦ inl (ground arith, ground arith)
      | inr f ↦ elim (Option-cases (decode_record v)) [
        | inl e ↦ inl (ground arith, ground arith)
        | inr (new, e) ↦ inr (ground arith, ground arith)
      ]
    ]

receive-Holds : (rs : List Reply) (n : ℕ) (s : Lookup) → Holds n s → Holds n (receive rs s)
unfolding receive
receive-Holds [] n s h = h
receive-Holds (reply seq v ∷ rs) n s h =
    receive-Holds rs n (mutable_cb seq v s) (step-Holds n seq v s h)

carried-some :
    (v : Option Bytes) {rec : Record}
    → carried v ≡ some rec
    → (bytes : Bytes) × (v ≡ some bytes)
      × (is_empty bytes ≡ false)
      × (decode_record bytes ≡ some rec)
unfolding carried
carried-some none h = absurd (cc)
carried-some (some bytes) h = (bytes, refl, ground arith, ground arith)

receive-stores :
    (rs : List Reply) (s : Lookup) (rec : Record) (n : ℕ)
    → s.destroyed ≡ false
    → CameFrom rs (some rec) n
    → Holds n (receive rs s)
unfolding receive CameFrom
receive-stores [] s rec n h none_came = absurd none_came
receive-stores (reply seq v ∷ rs) s rec n h (inl (e, same)) =
    let (bytes, given, full, decoded) = carried-some v e in
    let held : Holds seq (mutable_cb seq v s) =
      subst (λ o. Holds seq (mutable_cb seq o s)) (sym given)
        (step-stores seq bytes s h full decoded) in
    receive-Holds rs n (mutable_cb seq v s) (subst (λ k. Holds k (mutable_cb seq v s)) same held)
receive-stores (reply seq v ∷ rs) s rec n h (inr later) =
    receive-stores rs (mutable_cb seq v s) rec n (step_alive seq v s h) later

receive-origin :
    (rs : List Reply) (s : Lookup)
    → (((receive rs s).newest ≡ s.newest) × ((receive rs s).newest_seq ≡ s.newest_seq))
      ⊎ CameFrom rs (receive rs s).newest (receive rs s).newest_seq
unfolding receive CameFrom
receive-origin [] s = inl (refl, refl)
receive-origin (reply seq v ∷ rs) s = elim (receive-origin rs (mutable_cb seq v s)) [
  | inr later ↦ inr (inr later)
  | inl (e, m) ↦ elim (step-origin seq v s) [
    | inl (f, k) ↦ inl (e ∙ f, m ∙ k)
    | inr (f, k) ↦ inr (inl (f ∙ sym e, k ∙ sym m))
  ]
]

nothing_held : (s : Lookup) (n : ℕ) → Holds n s → s.newest ≡ none → ⊥
unfolding Holds
nothing_held s n (rec, e, le) f = cc

-- Once any reply of the query has carried a readable record, the client (not destroyed, with no record
-- before the query) holds a record of one of the replies, with that reply's sequence number, and that
-- number is at least the one of every reply that carried a record.
pub newest_wins :
    (rs : List Reply) (s : Lookup) (rec : Record) (seq : ℕ)
    → s.destroyed ≡ false
    → s.newest ≡ none
    → CameFrom rs (some rec) seq
    → Holds seq (receive rs s) × CameFrom rs (receive rs s).newest (receive rs s).newest_seq
newest_wins rs s rec seq alive fresh came =
    let held = receive-stores rs s rec seq alive came in
    (
      held,
      elim (receive-origin rs s) [
        | inr from ↦ from
        | inl (e, m) ↦ absurd (nothing_held (receive rs s) seq held (e ∙ fresh))
      ],
    )
