-- ===== src/Client/Conn/Kept.antt =====
-- Lists of writes, newest first: what is left of them, and their bytes.
use holesail_cpp.Base.{
  List, [], ◌∷◌, ◌++◌, append_assoc, append-nil, Bytes, ◌≡◌, sym, ap, ◌∙◌, ◌⊎◌, inl, inr,
}

-- The first list is the second with some of its members left out.
abbrev pub Sub : List Bytes → List Bytes → Type 0
Sub [] ys = Unit
Sub (x ∷ xs) [] = ⊥
Sub (x ∷ xs) (y ∷ ys) = ((x ≡ y) × Sub xs ys) ⊎ Sub (x ∷ xs) ys

pub Sub-weaken : (xs ys : List Bytes) (y : Bytes) → Sub xs ys → Sub xs (y ∷ ys)
Sub-weaken [] ys y s = tt
Sub-weaken (x ∷ xs) ys y s = inr s

pub Sub-tail : (x : Bytes) (xs ys : List Bytes) → Sub (x ∷ xs) ys → Sub xs ys
Sub-tail x xs [] s = absurd s
Sub-tail x xs (y ∷ ys) (inl s) = Sub-weaken xs ys y s.1
Sub-tail x xs (y ∷ ys) (inr s) = Sub-weaken xs ys y (Sub-tail x xs ys s)

pub Sub-drop : (b a ys : List Bytes) → Sub (b ++ a) ys → Sub a ys
Sub-drop [] a ys s = s
Sub-drop (x ∷ b) a ys s = Sub-drop b a ys (Sub-tail x (b ++ a) ys s)

-- The bytes of writes that are listed newest first.
abbrev pub joined : List Bytes → Bytes
joined [] = []
joined (x ∷ xs) = joined xs ++ x

pub joined-append : (b a : List Bytes) → joined (b ++ a) ≡ joined a ++ joined b
joined-append [] a = sym (append-nil (joined a))
joined-append (x ∷ b) a =
    ap (λ t. t ++ x) (joined-append b a) ∙ append_assoc (joined a) (joined b) x
