-- ===== src/UdpProxy/Entries.antt =====
-- The entries of the proxy's clients: a property of all of them, and the entry that was found.
use holesail_cpp.Base.{
  some, List, [], ◌∷◌, Bytes, bytes_eq, bytes_eq→eq, ◌≡◌, refl, sym, subst, ◌∙◌, All, Bool-cases,
  inl, inr, branches, then_branch, else_branch,
}
use holesail_cpp.UdpProxy.{Client, find, erase, update}
use mathlib.Core.Option.{some-injective}

module _ (P : Bytes × Client → Type 0) where
  pub erase-All : (id : Bytes) (cs : List (Bytes × Client)) → All P cs → All P (erase id cs)
  unfolding erase
  erase-All id [] h = tt
  erase-All id ((key, c) ∷ cs) h =
      branches (All P) (bytes_eq key id) _ _ (λ e. h.1) (λ e. (h.0, erase-All id cs h.1))

  pub update-All :
      (id : Bytes) (new : Client) (cs : List (Bytes × Client))
      → P (id, new)
      → All P cs
      → All P (update id new cs)
  unfolding update
  update-All id new [] n h = tt
  update-All id new ((key, c) ∷ cs) n h =
      branches (All P) (bytes_eq key id) _ _
        (λ e. (subst (λ k. P (k, new)) (sym (bytes_eq→eq key id e)) n, h.1))
        (λ e. (h.0, update-All id new cs n h.1))

  pub find-All :
      (id : Bytes) (c : Client) (cs : List (Bytes × Client))
      → find id cs ≡ some c
      → All P cs
      → P (id, c)
  unfolding find
  find-All id c [] e h = absurd (cc)
  find-All id c ((key, d) ∷ cs) e h = elim (Bool-cases (bytes_eq key id)) [
    | inl t ↦
        let same : d ≡ c = some-injective d c (
          sym (then_branch (λ x. x ≡ some d) (bytes_eq key id) (some d) (find id cs) t refl) ∙ e) in
        subst (λ x. P (id, x)) same (subst (λ k. P (k, d)) (bytes_eq→eq key id t) h.0)
    | inr f ↦
        find-All id c cs
          (sym (else_branch (λ x. x ≡ find id cs) (bytes_eq key id) (some d) (find id cs) f refl)
            ∙ e)
          h.1
  ]

pub find-update_same :
    (id : Bytes) (c new : Client) (cs : List (Bytes × Client))
    → find id cs ≡ some c
    → find id (update id new cs) ≡ some new
unfolding find update
find-update_same id c new [] e = absurd (cc)
find-update_same id c new ((key, d) ∷ cs) e = elim (Bool-cases (bytes_eq key id)) [
  | inl t ↦ rw (t, t) refl
  | inr f ↦ rw (f, f) (find-update_same id c new cs (rw f at e))
]
