-- ===== src/Colors.antt =====
-- include/holesail/colors.hpp: a text in an SGR code and a full reset.
use holesail_cpp.Base.{◌∷◌, ◌++◌, Bytes, codes}

-- `\x1b`
abbrev pub esc : Bytes → Bytes
esc code = 27 ∷ code

unfoldable pub wrap : Bytes → Bytes → Bytes
wrap code s = code ++ (s ++ esc (codes "[0m"))

abbrev pub red : Bytes → Bytes
red s = wrap (esc (codes "[31m")) s

abbrev pub green : Bytes → Bytes
green s = wrap (esc (codes "[32m")) s

abbrev pub yellow : Bytes → Bytes
yellow s = wrap (esc (codes "[33m")) s

abbrev pub blue : Bytes → Bytes
blue s = wrap (esc (codes "[34m")) s

abbrev pub magenta : Bytes → Bytes
magenta s = wrap (esc (codes "[35m")) s

abbrev pub cyan : Bytes → Bytes
cyan s = wrap (esc (codes "[36m")) s

abbrev pub bright_black : Bytes → Bytes
bright_black s = wrap (esc (codes "[90m")) s

abbrev pub bold : Bytes → Bytes
bold s = wrap (esc (codes "[1m")) s

abbrev pub dim : Bytes → Bytes
dim s = wrap (esc (codes "[2m")) s

abbrev pub underline : Bytes → Bytes
underline s = wrap (esc (codes "[4m")) s
