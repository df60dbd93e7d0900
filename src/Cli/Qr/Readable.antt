-- ===== src/Cli/Qr/Readable.antt =====
-- A drawn code can be read back, module by module.
use holesail_cpp.Base.{
  ℕ, zero, suc, ◌+◌, ◌*◌, ◌/◌, ◌%◌, ◌<◌, ltb, ◌==◌, if◌then◌else◌, Bool, true, false, Option, none,
  some, [], ◌∷◌, ◌++◌, append_assoc, Bytes, codes, ◌≡◌, refl, sym, ap, ◌∙◌, arith, lt→ltb,
  then_branch, else_branch, branches, All, All-append, ◌&&◌, ◌>>=◌,
}
use holesail_cpp.Cli.Qr.{QrCode, full_block, glyph, border, cells, line, lines, draw}

-- The text behind the next line feed.
unfoldable pub skip_line : Bytes → Bytes
skip_line [] = []
skip_line (b ∷ bs) = if b == b'\n' then bs else skip_line bs

unfoldable pub skip_lines : ℕ → Bytes → Bytes
skip_lines zero text = text
skip_lines (suc n) text = skip_lines n (skip_line text)

-- The last byte of a block glyph: the modules that it leaves dark.
unfoldable pub read_block : ℕ → Option (Bool × Bool)
read_block b =
    if b == 0x84
    then some (true, false)
    else if b == 0x80
    then some (false, true)
    else if b == 0x88
    then some (false, false)
    else none

-- The two modules of the glyph in front, and the text behind it.
unfoldable pub read_glyph : Bytes → Option ((Bool × Bool) × Bytes)
read_glyph [] = none
read_glyph (a ∷ []) = if a == b' ' then some ((true, true), []) else none
read_glyph (a ∷ b ∷ []) = if a == b' ' then some ((true, true), b ∷ []) else none
read_glyph (a ∷ b ∷ c ∷ bs) =
    if a == b' '
    then some ((true, true), b ∷ c ∷ bs)
    else if a == 0xe2 && b == 0x96
    then read_block c >>= (λ m. some (m, bs))
    else none

-- The glyph behind so many others.
unfoldable pub glyph_at : ℕ → Bytes → Option (Bool × Bool)
glyph_at zero text = read_glyph text >>= (λ r. some r.0)
glyph_at (suc n) text = read_glyph text >>= (λ r. glyph_at n r.1)

-- The module of a column and a row, as the text shows it: the first line and the first glyph of each
-- other line are the border.
unfoldable pub module_at : Bytes → ℕ → ℕ → Option Bool
module_at text x y =
    glyph_at (suc x) (skip_lines (suc (y / 2)) text)
    >>= (λ g. some (if y % 2 == 0 then g.0 else g.1))

read_glyph-glyph :
    (t b : Bool) (rest : Bytes) → read_glyph (glyph t b ++ rest) ≡ some ((t, b), rest)
unfolding read_glyph read_block glyph
read_glyph-glyph true true [] = refl
read_glyph-glyph true true (a ∷ []) = refl
read_glyph-glyph true true (a ∷ b ∷ bs) = refl
read_glyph-glyph true false rest = refl
read_glyph-glyph false true rest = refl
read_glyph-glyph false false rest = refl

glyph_at-glyph :
    (n : ℕ) (t b : Bool) (rest : Bytes) → glyph_at (suc n) (glyph t b ++ rest) ≡ glyph_at n rest
unfolding glyph_at
glyph_at-glyph n t b rest = ap (λ o. o >>= (λ r. glyph_at n r.1)) (read_glyph-glyph t b rest)

glyph_at-cells :
    (qr : QrCode) (i n x y : ℕ) (rest : Bytes)
    → i < n
    → glyph_at i (cells qr n x y ++ rest)
      ≡ some (qr.get_module (x + i) y, qr.get_module (x + i) (y + 1))
unfolding glyph_at cells
glyph_at-cells qr i zero x y rest h = absurd (omega (arith, h))
glyph_at-cells qr zero (suc n) x y rest h =
    let first : x + 0 ≡ x = omega arith in
    let t = qr.get_module x y in
    let b = qr.get_module x (y + 1) in
    ap (λ s. read_glyph s >>= (λ r. some r.0))
      (append_assoc (glyph t b) (cells qr n (x + 1) y) rest)
    ∙ ap (λ o. o >>= (λ r. some r.0)) (read_glyph-glyph t b (cells qr n (x + 1) y ++ rest))
    ∙ ap (λ k. some (qr.get_module k y, qr.get_module k (y + 1))) (sym first)
glyph_at-cells qr (suc i) (suc n) x y rest h =
    let next : x + 1 + i ≡ x + suc i = omega arith in
    let t = qr.get_module x y in
    let b = qr.get_module x (y + 1) in
    ap (glyph_at (suc i)) (append_assoc (glyph t b) (cells qr n (x + 1) y) rest)
    ∙ glyph_at-glyph i t b (cells qr n (x + 1) y ++ rest)
    ∙ glyph_at-cells qr i n (x + 1) y rest (omega (arith, h))
    ∙ ap (λ k. some (qr.get_module k y, qr.get_module k (y + 1))) next

-- A text without a line feed.
abbrev OneLine : Bytes → Type 0
OneLine = All (λ b. (b == b'\n') ≡ false)

glyph-OneLine : (t b : Bool) → OneLine (glyph t b)
unfolding glyph
glyph-OneLine true true = (refl, tt)
glyph-OneLine true false = (refl, (refl, (refl, tt)))
glyph-OneLine false true = (refl, (refl, (refl, tt)))
glyph-OneLine false false = (refl, (refl, (refl, tt)))

cells-OneLine : (qr : QrCode) (n x y : ℕ) → OneLine (cells qr n x y)
unfolding cells
cells-OneLine qr zero x y = tt
cells-OneLine qr (suc n) x y =
    All-append (λ b. (b == b'\n') ≡ false) (glyph (qr.get_module x y) (qr.get_module x (y + 1)))
      (cells qr n (x + 1) y) (glyph-OneLine (qr.get_module x y) (qr.get_module x (y + 1)))
      (cells-OneLine qr n (x + 1) y)

border-OneLine : (n : ℕ) → OneLine (border n)
unfolding border
border-OneLine zero = tt
border-OneLine (suc n) = (refl, (refl, (refl, border-OneLine n)))

skip_line-OneLine :
    (text rest : Bytes) → OneLine text → skip_line (text ++ (codes "\n" ++ rest)) ≡ rest
unfolding skip_line
skip_line-OneLine [] rest h = refl
skip_line-OneLine (b ∷ text) rest h =
    else_branch (λ x. x ≡ rest) (b == b'\n') _ _ h.0 (skip_line-OneLine text rest h.1)

skip_line-line : (qr : QrCode) (y : ℕ) (rest : Bytes) → skip_line (line qr y ++ rest) ≡ rest
unfolding skip_line
skip_line-line qr y rest =
    let c = cells qr qr.size 0 y in
    let is_line : line qr y ++ rest ≡ (full_block ++ (c ++ full_block)) ++ (codes "\n" ++ rest) =
      ap (λ t. full_block ++ t)
        (append_assoc c (full_block ++ codes "\n") rest
          ∙ sym (append_assoc c full_block (codes "\n" ++ rest))) in
    ap skip_line is_line
    ∙ skip_line-OneLine (full_block ++ (c ++ full_block)) rest (
      refl,
      (
        refl,
        (
          refl,
          All-append (λ b. (b == b'\n') ≡ false) c full_block (cells-OneLine qr qr.size 0 y)
              (refl, (refl, (refl, tt))),
        ),
      ),
    )

skip_lines-lines :
    (qr : QrCode) (k n y : ℕ)
    → k < n
    → y + 2 * k < qr.size
    → (rest : Bytes) × (skip_lines k (lines qr n y) ≡ line qr (y + 2 * k) ++ rest)
unfolding skip_lines lines
skip_lines-lines qr k zero y h room = absurd (omega (arith, h))
skip_lines-lines qr zero (suc n) y h room =
    let here : y + 2 * 0 ≡ y = omega arith in
    (
      lines qr n (y + 2),
      then_branch (λ x. x ≡ line qr (y + 2 * 0) ++ lines qr n (y + 2)) (ltb y qr.size) _ _
          (lt→ltb y qr.size (omega (arith, room)))
          (ap (λ k. line qr k ++ lines qr n (y + 2)) (sym here)),
    )
skip_lines-lines qr (suc k) (suc n) y h room =
    let next : y + 2 + 2 * k ≡ y + 2 * suc k = omega arith in
    let (rest, e) = skip_lines-lines qr k n (y + 2) (omega (arith, h)) (omega (arith, room)) in
    (
      rest,
      ap (λ (t : Bytes). skip_lines k (skip_line t))
            (then_branch (λ x. x ≡ line qr y ++ lines qr n (y + 2)) (ltb y qr.size) _ _
              (lt→ltb y qr.size (omega (arith, room))) refl)
          ∙ ap (skip_lines k) (skip_line-line qr y (lines qr n (y + 2)))
          ∙ e
          ∙ ap (λ k. line qr k ++ rest) next,
    )

glyph_at-line :
    (qr : QrCode) (x y : ℕ) (rest : Bytes)
    → x < qr.size
    → glyph_at (suc x) (line qr y ++ rest) ≡ some (qr.get_module x y, qr.get_module x (y + 1))
unfolding glyph
glyph_at-line qr x y rest h =
    let c = cells qr qr.size 0 y in
    let same : 0 + x ≡ x = omega arith in
    glyph_at-glyph x false false ((c ++ (full_block ++ codes "\n")) ++ rest)
    ∙ ap (glyph_at x) (append_assoc c (full_block ++ codes "\n") rest)
    ∙ glyph_at-cells qr x qr.size 0 y ((full_block ++ codes "\n") ++ rest) h
    ∙ ap (λ k. some (qr.get_module k y, qr.get_module k (y + 1))) same

skip_lines-draw :
    (qr : QrCode) (k : ℕ)
    → 2 * k < qr.size
    → (rest : Bytes) × (skip_lines (suc k) (draw qr) ≡ line qr (2 * k) ++ rest)
unfolding draw skip_lines
skip_lines-draw qr k room =
    let row : 0 + 2 * k ≡ 2 * k = omega arith in
    let (rest, e) = skip_lines-lines qr k qr.size 0 (omega (arith, room)) (omega (arith, room)) in
    (
      rest,
      ap (skip_lines k) (
            skip_line-OneLine (border (qr.size + 2)) (lines qr qr.size 0)
              (border-OneLine (qr.size + 2)))
          ∙ e
          ∙ ap (λ y. line qr y ++ rest) row,
    )

-- Whatever code is drawn, each of its modules can be read back at its place in the text: the glyph behind the
-- left border of the line of its pair of rows, top or bottom half.
pub module_at-draw :
    (qr : QrCode) (x y : ℕ)
    → x < qr.size
    → y < qr.size
    → module_at (draw qr) x y ≡ some (qr.get_module x y)
unfolding module_at
module_at-draw qr x y hx hy =
    let k = y / 2 in
    let (rest, e) = skip_lines-draw qr k (omega (arith, hy)) in
    let half : Bool × Bool → Option Bool = λ g. some (if y % 2 == 0 then g.0 else g.1) in
    ap (λ t. glyph_at (suc x) t >>= half) e
    ∙ ap (λ o. o >>= half) (glyph_at-line qr x (2 * k) rest hx)
    ∙ branches (λ m. some m ≡ some (qr.get_module x y)) (y % 2 == 0) _ _
        (λ h. ap (λ r. some (qr.get_module x r)) (ground (arith, h)))
        (λ h. ap (λ r. some (qr.get_module x r)) (ground (arith, h)))
