-- ===== src/Cli.antt =====
-- src/cli.cpp and include/holesail/cli.hpp: validation, the options that a command line yields and the
-- dispatch of `run`. A line of `validate` is its place in the source; Screen has the texts.
pub mod Ports
pub mod Endpoint
pub mod Status
pub mod Qr
pub mod Screen
pub mod Logging
use holesail_cpp.Base.{
  ℕ, ◌-◌, ◌%◌, ◌==◌, ltb, if◌then◌else◌, Bool, true, false, not, ◌&&◌, ◌||◌, Option, none, some,
  value_or, is_some, List, [], ◌∷◌, ◌++◌, length, is_empty, Bytes, codes, bytes_eq,
}
use holesail_cpp.Text.{Signed, within}
use holesail_cpp.Args.{Args, str, boolean, has, num}
use holesail_cpp.Holesail.{Options, is_blank}

-- `*number != 0` for a number, and the text otherwise.
unfoldable pub truthy_value : Option Bytes → Option Signed → Bool
truthy_value none number = false
truthy_value (some value) (some n) = not (n.magnitude == 0)
truthy_value (some value) none = not (is_empty value)

unfoldable pub truthy : Args → Bytes → Bool
truthy args name = boolean args name || truthy_value (str args name) (num args name)

-- `kMaxPort`
abbrev pub max_port : ℕ
max_port = 65535

unfoldable pub is_port : Option Signed → Bool
is_port none = false
is_port (some number) = within 0 max_port number

unfoldable pub valid_port : Args → Bytes → Bool
valid_port args name = is_port (num args name)

abbrev pub plus : ℕ → Signed
plus n = record { negative = false; magnitude = n }

-- `std::clamp(level, 0, 3)`
unfoldable pub clamp_level : Signed → Signed
clamp_level level =
    if level.negative then plus 0 else if ltb 3 level.magnitude then plus 3 else level

unfoldable pub level_of : Option Signed → Signed
level_of none = plus 1
level_of (some level) = clamp_level level

unfoldable pub log_level_of : Args → Signed
log_level_of args =
    if not (has args (codes "log"))
    then record { negative = true; magnitude = 1 }
    else if boolean args (codes "log")
    then plus 1
    else level_of (num args (codes "log"))

-- `static_cast<uint16_t>` of a `long`.
unfoldable pub to_uint16 : Signed → ℕ
to_uint16 n = if n.negative then (65536 - n.magnitude % 65536) % 65536 else n.magnitude % 65536

unfoldable pub udp_of : Args → Option Bool
udp_of args = if has args (codes "udp") then some (truthy args (codes "udp")) else none

-- `host && !host->empty() ? *host : other`
unfoldable pub given : Option Bytes → Option Bytes → Option Bytes
given host other = if is_blank host then other else host

unfoldable pub server_options : Args → Options
server_options args = record {
  server = true;
  client = false;
  port = some (to_uint16 (value_or (num args (codes "live")) (plus 0)));
  host = given (str args (codes "host")) (some (codes "127.0.0.1"));
  key = str args (codes "key");
  secure = some (if has args (codes "public") then not (boolean args (codes "public")) else true);
  udp = udp_of args;
  log_level = log_level_of args;
}

abbrev pub front_or_empty : List Bytes → Bytes
front_or_empty [] = []
front_or_empty (token ∷ tokens) = token

unfoldable pub port_of : Bool → Option Signed → Option ℕ
port_of valid none = none
port_of valid (some n) = if valid then some (to_uint16 n) else none

unfoldable pub client_options : Args → Options
client_options args = record {
  server = false;
  client = true;
  port = port_of (valid_port args (codes "port")) (num args (codes "port"));
  host = given (str args (codes "host")) none;
  key = some (value_or (str args (codes "connect")) (front_or_empty args.rest));
  secure = if has args (codes "public") then some (not (boolean args (codes "public"))) else none;
  udp = udp_of args;
  log_level = log_level_of args;
}

-- The lines of `validate`.
pub data Line : Type 0 where
  key_empty udp_host_warning key_short two_connections bad_port : Line

pub record Validation : Type 0 where
  pub ok : Bool
  pub message : List Line
  pub exit_code : ℕ

unfoldable pub udp_warning : Bool → Option Bytes → List Line
udp_warning udp none = []
udp_warning udp (some host) =
    if udp && (bytes_eq host (codes "localhost") || bytes_eq host (codes "0.0.0.0"))
    then udp_host_warning ∷ []
    else []

-- `key && !key->empty() && key->size() < 32`
unfoldable pub short_key : Option Bytes → Bool
short_key none = false
short_key (some key) = not (is_empty key) && ltb (length key) 32

abbrev pub is_given_empty : Option Bytes → Bool
is_given_empty none = false
is_given_empty (some s) = is_empty s

abbrev pub refuse : List Line → Line → Validation
refuse log line = record { ok = false; message = log ++ (line ∷ []); exit_code = 2 }

unfoldable pub validate : Args → Validation
validate args =
    let log = udp_warning (truthy args (codes "udp")) (str args (codes "host")) in
    if boolean args (codes "key")
    then record { ok = false; message = key_empty ∷ []; exit_code = 0 }
    else if short_key (str args (codes "key")) && not (truthy args (codes "force"))
    then refuse log key_short
    else if truthy args (codes "connect") && not (is_empty args.rest)
    then refuse log two_connections
    else if truthy args (codes "live") && not (valid_port args (codes "live"))
    then refuse log bad_port
    else if (if truthy args (codes "port")
        then not (valid_port args (codes "port"))
        else is_given_empty (str args (codes "port")))
    then refuse log bad_port
    else record { ok = true; message = log; exit_code = 0 }

-- What `run` does after it printed the validation's lines.
pub data Command : Type 0 where
  exits : ℕ → Command
  prints_help : Bytes → Command
  prints_version : Command
  serves : Options → Command
  connects : Options → Command
  refuses_filemanager : Command
  looks_up : Bytes → Command

unfoldable pub dispatch : Args → Command
dispatch args =
    if not (validate args).ok
    then exits (validate args).exit_code
    else if truthy args (codes "help") || truthy args (codes "h")
    then prints_help (value_or (str args (codes "help")) [])
    else if truthy args (codes "version")
    then prints_version
    else if truthy args (codes "live")
    then serves (server_options args)
    else if truthy args (codes "connect") || not (is_empty args.rest)
    then connects (client_options args)
    else if truthy args (codes "filemanager")
    then refuses_filemanager
    else if truthy args (codes "lookup")
    then looks_up (value_or (str args (codes "lookup")) [])
    else prints_help []
