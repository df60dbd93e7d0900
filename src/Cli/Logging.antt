-- ===== src/Cli/Logging.antt =====
-- What `--log` of a command line shows: from `log_level_of` of src/cli.cpp through the facade's logger to
-- `Logger::log`.
use holesail_cpp.Base.{
  ℕ, leb, min, ◌≤◌, if◌then◌else◌, Bool, not, ◌&&◌, ◌||◌, Option, none, some, is_some, Bytes, codes,
  ◌≡◌, ◌∙◌, arith,
}
use holesail_cpp.Text.{Signed}
use holesail_cpp.Args.{Args, boolean, has, num}
use holesail_cpp.Logger.{
  Level, debug, info, warn, error, rank, level_of, clamped, Logger, log, facade_logger,
}
use holesail_cpp.Cli.{plus, clamp_level, log_level_of, server_options, client_options}
use holesail_cpp.Cli

-- Whether a given value asks for a message of some rank: from its number on, where there is one; errors
-- always.
abbrev pub asks : Option Signed → ℕ → Bool
asks none r = leb 1 r
asks (some n) r = n.negative || leb (min n.magnitude 3) r

abbrev pub asked : Args → Level → Bool
asked args level =
    has args (codes "log")
    && (if boolean args (codes "log")
        then leb 1 (rank level)
        else asks (num args (codes "log")) (rank level))

abbrev of_level : Signed → Logger
of_level n = record {
  prefix = codes "Holesail";
  enabled = not n.negative;
  min_level = level_of (clamped n);
}

rank-level_of : (n : ℕ) → n ≤ 3 → rank (level_of n) ≡ n
unfolding rank level_of
rank-level_of n h = ground (arith, h)

clamped_le : (n : Signed) → clamped n ≤ 3
unfolding clamped
clamped_le n = ground arith

shown :
    (n : Signed) (clock : Bytes) (level : Level) (msg : Bytes)
    → is_some (log (of_level n) clock level msg) ≡ not n.negative && leb (clamped n) (rank level)
unfolding log
shown n clock level msg =
    let same = rank-level_of (clamped n) (clamped_le n) in ground (arith, same)

log_level_asked :
    (args : Args) (level : Level)
    → not (log_level_of args).negative && leb (clamped (log_level_of args)) (rank level)
      ≡ asked args level
unfolding log_level_of Cli.level_of clamp_level clamped rank
log_level_asked args debug = ground arith
log_level_asked args info = ground arith
log_level_asked args warn = ground arith
log_level_asked args error = ground arith

-- A message of the facade's logger is shown to the user of a command line exactly if it was given `--log` and
-- asks for the level: a bare `--log`, or a value that is no number, for all but debugging; a number for its
-- own level and those above it, errors always. That holds for servers and clients alike.
pub shown_iff_asked :
    (args : Args) (clock : Bytes) (level : Level) (msg : Bytes)
    → (is_some (log (facade_logger (server_options args)) clock level msg) ≡ asked args level)
      × (is_some (log (facade_logger (client_options args)) clock level msg) ≡ asked args level)
unfolding facade_logger server_options client_options
shown_iff_asked args clock level msg =
    let e = shown (log_level_of args) clock level msg ∙ log_level_asked args level in (e, e)
