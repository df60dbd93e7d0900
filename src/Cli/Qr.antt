-- ===== src/Cli/Qr.antt =====
-- `render_qr` of src/cli.cpp, on what qrcodegen makes of the text: the size of the code and its modules,
-- two rows of them in one line of text. The glyphs are the bytes of their UTF-8.
pub mod Readable
use holesail_cpp.Base.{
  ℕ, zero, suc, ◌+◌, ltb, if◌then◌else◌, Bool, Option, none, some, List, [], ◌∷◌, ◌++◌, Bytes,
  codes,
}

-- `QrCode`: `getSize`, and `getModule` of a column and a row.
pub record QrCode : Type 0 where
  pub size : ℕ
  pub get_module : ℕ → ℕ → Bool

-- `▄`, `█` and `▀`
abbrev pub lower_half : Bytes
lower_half = 0xe2 ∷ 0x96 ∷ 0x84 ∷ []

abbrev pub full_block : Bytes
full_block = 0xe2 ∷ 0x96 ∷ 0x88 ∷ []

abbrev pub upper_half : Bytes
upper_half = 0xe2 ∷ 0x96 ∷ 0x80 ∷ []

unfoldable pub glyph : Bool → Bool → Bytes
glyph top bottom =
    if top
    then if bottom then codes " " else lower_half
    else if bottom
    then upper_half
    else full_block

-- The loop that writes the top border.
unfoldable pub border : ℕ → Bytes
border zero = []
border (suc more) = lower_half ++ border more

-- The loop on `x`, with so many columns to go.
unfoldable pub cells : QrCode → ℕ → ℕ → ℕ → Bytes
cells qr zero x y = []
cells qr (suc more) x y =
    glyph (qr.get_module x y) (qr.get_module x (y + 1)) ++ cells qr more (x + 1) y

abbrev pub line : QrCode → ℕ → Bytes
line qr y = full_block ++ (cells qr qr.size 0 y ++ (full_block ++ codes "\n"))

-- The loop on `y`: at most so many rounds, which the size of the code bounds.
unfoldable pub lines : QrCode → ℕ → ℕ → Bytes
lines qr zero y = []
lines qr (suc rounds) y =
    let rest = lines qr rounds (y + 2) in if ltb y qr.size then line qr y ++ rest else []

unfoldable pub draw : QrCode → Bytes
draw qr = border (qr.size + 2) ++ (codes "\n" ++ lines qr qr.size 0)

-- `encode` is `QrCode::encodeSegments` on one byte segment: `none` where it throws `data_too_long`.
unfoldable pub render_qr : (Bytes → Option QrCode) → Bytes → Bytes
render_qr encode url = drawn (encode url)
  where
    drawn : Option QrCode → Bytes
    drawn (some qr) = draw qr
    drawn none = codes "QR code unavailable: connection string is too long.\n"
