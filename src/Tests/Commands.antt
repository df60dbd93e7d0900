-- ===== src/Tests/Commands.antt =====
-- Tests of the command line.
use holesail_cpp.Base.{
  ℕ, ◌≤◌, arith, ◌&&◌, ◌||◌, ◌==◌, ◌++◌, ltb, none, true, concat, List, [], ◌∷◌, Bytes, codes, some,
  is_some, false, ◌≡◌, refl, bytes_eq,
}
use holesail_cpp.Text.{c_str, to_upper, Signed, from_chars, from_chars_digits, digit_run}
use holesail_cpp.Args.{
  Args, has, str, boolean, num, num_of, lookup, member, remove, exclude, parse_argv, parse_tokens,
  token_of, is_long, is_short, named, split_eq, set_value, set_flag, add_rest,
}
use holesail_cpp.Args.Apart.{parse_argv-Apart}
use holesail_cpp.Cli.{
  truthy, truthy_value, max_port, is_port, valid_port, server_options, client_options, log_level_of,
  clamp_level, prints_version, serves, dispatch, validate, udp_warning, short_key,
}
use holesail_cpp.Cli
use holesail_cpp.Cli.Logging.{asked, shown_iff_asked}
use holesail_cpp.Cli.Qr.{
  QrCode, draw, border, lines, cells, glyph, lower_half, full_block, render_qr,
}
use holesail_cpp.Cli.Qr.Readable.{module_at, module_at-draw}
use holesail_cpp.Cli.Screen.{render_lookup, result_text, upper, magnifier, message_text}
use holesail_cpp.Cli.Screen.Help.{screen, command_text}
use holesail_cpp.Cli.Screen.Lookup.{run_lookup, reason_text, failed_text}
use holesail_cpp.Colors.{wrap, bright_black, blue, yellow, cyan, underline, bold, magenta, green}
use holesail_cpp.Logger.{
  log, facade_logger, format, default_sink, color, label, rank, level_of, clamped, info, warn, err,
}
use holesail_cpp.Rc.{ok, uv_einval}
use holesail_cpp.Cli.Ports.{IsValue, dispatch-serves}

-- `--live 3000 --udp`
abbrev live_tokens : List Bytes
live_tokens = codes "--live" ∷ codes "3000" ∷ codes "--udp" ∷ []

abbrev live_args : Args
live_args = record {
  values = (codes "live", codes "3000") ∷ [];
  flags = codes "udp" ∷ [];
  rest = [];
}

parses_live : parse_argv live_tokens ≡ live_args
unfolding parse_argv parse_tokens token_of is_long is_short named split_eq set_value set_flag
    add_rest remove exclude bytes_eq
parses_live = refl

live_starts : dispatch live_args ≡ serves (server_options live_args)
unfolding dispatch validate truthy truthy_value valid_port is_port str boolean num num_of lookup
    member udp_warning short_key bytes_eq from_chars from_chars_digits digit_run
live_starts = refl

dispatch-serves_example :
    (n : Signed) × ((k : ℕ) × ((num live_args (codes "live") ≡ some n)
        × (IsValue n k × ((k ≤ max_port) × ((server_options live_args).port ≡ some k)))))
dispatch-serves_example = dispatch-serves live_args (server_options live_args) live_starts

parse_argv-Apart_example :
    is_some (str (parse_argv live_tokens) (codes "live"))
      && boolean (parse_argv live_tokens) (codes "live")
    ≡ false
parse_argv-Apart_example = parse_argv-Apart live_tokens (codes "live")

-- `holesail --live 3000 --log=2`
abbrev logging_args : Args
logging_args = record {
  values = (codes "log", codes "2") ∷ (codes "live", codes "3000") ∷ [];
  flags = [];
  rest = [];
}

shown_iff_asked_example :
    (is_some (
        log
          (facade_logger (server_options logging_args))
          (codes "now")
          info
          (codes "Using Private Mode"))
      ≡ asked logging_args info)
    × (is_some (
          log
            (facade_logger (client_options logging_args))
            (codes "now")
            info
            (codes "Using Private Mode"))
        ≡ asked logging_args info)
shown_iff_asked_example =
    shown_iff_asked logging_args (codes "now") info (codes "Using Private Mode")

info_not_asked : asked logging_args info ≡ false
unfolding has boolean num num_of str lookup member bytes_eq from_chars from_chars_digits digit_run
    rank
info_not_asked = refl

warning_line :
    log (facade_logger (server_options logging_args)) (codes "now") warn (codes "mind")
    ≡ some (
        err (
          bright_black (codes "now")
          ++ (codes " "
              ++ (blue (codes "[Holesail]")
                  ++ (codes " " ++ (yellow (codes "[WARN]") ++ codes " mind\n"))))))
unfolding log facade_logger server_options format default_sink wrap color label has boolean num
    num_of str lookup member bytes_eq from_chars from_chars_digits digit_run rank level_of clamped
    log_level_of c_str Cli.level_of clamp_level
warning_line = refl

-- A code of three modules a side, drawn in three lines.
abbrev corner : QrCode
corner = record { size = 3; get_module = λ x y. ltb x 3 && (ltb y 3 && (x == 0 || y == 2)) }

module_at-draw_example : module_at (draw corner) 2 2 ≡ some true
module_at-draw_example = module_at-draw corner 2 2 (omega arith) (omega arith)

draws_corner :
    draw corner
    ≡ concat (
        lower_half
        ∷ lower_half
        ∷ lower_half
        ∷ lower_half
        ∷ lower_half
        ∷ codes "\n"
        ∷ full_block
        ∷ codes " "
        ∷ full_block
        ∷ full_block
        ∷ full_block
        ∷ codes "\n"
        ∷ full_block
        ∷ lower_half
        ∷ lower_half
        ∷ lower_half
        ∷ full_block
        ∷ codes "\n"
        ∷ [])
unfolding draw border lines cells glyph
draws_corner = refl

too_long :
    render_qr (λ url. none) (codes "hs://0000")
    ≡ codes "QR code unavailable: connection string is too long.\n"
unfolding render_qr
too_long = refl

shows_lookup :
    render_lookup (some (record { host = []; port = 0; is_udp = true; secure = false }))
    ≡ concat (
        cyan (underline (bold (codes "Holesail Lookup Result")))
        ∷ codes " "
        ∷ magnifier
        ∷ codes "\n"
        ∷ magenta (codes "Host: ")
        ∷ green (codes "N/A")
        ∷ codes "\n"
        ∷ magenta (codes "Port: ")
        ∷ green (codes "N/A")
        ∷ codes "\n"
        ∷ magenta (codes "Protocol: ")
        ∷ green (codes "UDP")
        ∷ codes "\n"
        ∷ magenta (codes "Private: ")
        ∷ green (codes "No")
        ∷ [])
unfolding render_lookup result_text upper to_upper
shows_lookup = refl

invalid_key :
    run_lookup (λ rc. []) (codes "abc") ok uv_einval []
    ≡ (failed_text (codes "Invalid key format: abc") ∷ [], 0)
unfolding run_lookup reason_text
invalid_key = refl

shows_version :
    screen true (record { values = []; flags = codes "version" ∷ []; rest = [] })
    ≡ (codes "0.2.1\n" ∷ [], prints_version)
unfolding screen message_text command_text dispatch validate truthy truthy_value valid_port is_port
    str boolean num num_of lookup member udp_warning short_key bytes_eq from_chars from_chars_digits
    digit_run
shows_version = refl
