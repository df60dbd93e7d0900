-- ===== src/Logger.antt =====
-- src/logger.cpp and include/holesail/logger.hpp: which messages are shown, how, and where; and the logger that
-- src/holesail.cpp makes of the options. `clock_` is a text that the caller gives (`iso8601_now` makes it of the time), `sink_` the default one.
use holesail_cpp.Base.{
  ℕ, zero, suc, ◌+◌, ◌-◌, ◌/◌, length, take, concat, ltb, if◌then◌else◌, Bool, not, Option, none,
  some, [], ◌∷◌, ◌++◌, Bytes, codes,
}
use holesail_cpp.Text.{Signed, c_str, decimal}
use holesail_cpp.Colors.{bright_black, blue, green, yellow, red}
use holesail_cpp.Holesail.{Options}

pub data Level : Type 0 where
  debug info warn error : Level

-- `static_cast<int>` of a level.
unfoldable pub rank : Level → ℕ
rank debug = 0
rank info = 1
rank warn = 2
rank error = 3

-- `static_cast<Level>` of a number from 0 to 3.
unfoldable pub level_of : ℕ → Level
level_of n = if ltb n 1 then debug else if ltb n 2 then info else if ltb n 3 then warn else error

unfoldable pub label : Level → Bytes
label debug = codes "DEBUG"
label info = codes "INFO"
label warn = codes "WARN"
label error = codes "ERROR"

unfoldable pub color : Level → Bytes → Bytes
color debug s = bright_black s
color info s = green s
color warn s = yellow s
color error s = red s

pub record Logger : Type 0 where
  pub prefix : Bytes
  pub enabled : Bool
  pub min_level : Level

-- Where `default_sink` writes a line.
pub data Output : Type 0 where
  out err : Bytes → Output

-- `%.*s` ends at the first null byte.
unfoldable pub default_sink : Level → Bytes → Output
default_sink debug line = out (c_str line ++ codes "\n")
default_sink info line = out (c_str line ++ codes "\n")
default_sink warn line = err (c_str line ++ codes "\n")
default_sink error line = err (c_str line ++ codes "\n")

unfoldable pub format : Logger → Bytes → Level → Bytes → Bytes
format logger clock level msg =
    bright_black clock
    ++ (codes " "
        ++ (blue (codes "[" ++ (logger.prefix ++ codes "]"))
            ++ (codes " "
                ++ (color level (codes "[" ++ (label level ++ codes "]")) ++ (codes " " ++ msg)))))

unfoldable pub log : Logger → Bytes → Level → Bytes → Option Output
log logger clock level msg =
    if not logger.enabled
    then none
    else if ltb (rank level) (rank logger.min_level)
    then none
    else some (default_sink level (format logger clock level msg))

-- `std::clamp(options_.log_level, 0, 3)`
unfoldable pub clamped : Signed → ℕ
clamped n = if n.negative then 0 else if ltb 3 n.magnitude then 3 else n.magnitude

-- The logger of a facade.
unfoldable pub facade_logger : Options → Logger
facade_logger o = record {
  prefix = codes "Holesail";
  enabled = not (o.log_level).negative;
  min_level = level_of (clamped o.log_level);
}

-- What `gettimeofday` and `gmtime_r` report: the fields of a `struct tm`, and `tv_usec`.
pub record Clock : Type 0 where
  pub tm_year : ℕ
  pub tm_mon : ℕ
  pub tm_mday : ℕ
  pub tm_hour : ℕ
  pub tm_min : ℕ
  pub tm_sec : ℕ
  pub tv_usec : ℕ

unfoldable pub zeros : ℕ → Bytes
zeros zero = []
zeros (suc n) = b'0' ∷ zeros n

-- `%0wd` of a number that is not negative.
unfoldable pub padded : ℕ → ℕ → Bytes
padded w n = zeros (w - length (decimal n)) ++ decimal n

-- The buffer has room for 31 bytes and the null byte.
unfoldable pub iso8601_now : Clock → Bytes
iso8601_now t = take 31 (
    concat (
      padded 4 (t.tm_year + 1900)
      ∷ codes "-"
      ∷ padded 2 (t.tm_mon + 1)
      ∷ codes "-"
      ∷ padded 2 t.tm_mday
      ∷ codes "T"
      ∷ padded 2 t.tm_hour
      ∷ codes ":"
      ∷ padded 2 t.tm_min
      ∷ codes ":"
      ∷ padded 2 t.tm_sec
      ∷ codes "."
      ∷ padded 3 (t.tv_usec / 1000)
      ∷ codes "Z"
      ∷ []))
