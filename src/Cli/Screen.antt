-- ===== src/Cli/Screen.antt =====
-- What src/cli.cpp prints: the help texts, the lines of `validate`, `render_started` and `render_lookup`. Where
-- a text of the source is not ASCII its UTF-8 bytes are written out.
pub mod Help
pub mod Lookup
use holesail_cpp.Base.{
  ℕ, ◌==◌, if◌then◌else◌, Bool, true, false, Option, none, some, List, [], ◌∷◌, ◌++◌, concat,
  is_empty, Bytes, codes,
}
use holesail_cpp.Text.{to_upper, decimal}
use holesail_cpp.Colors.{bold, cyan, dim, green, magenta, red, underline, yellow}
use holesail_cpp.Holesail.{Info}
use holesail_cpp.Holesail.LookupQuery.{LookupResult}
use holesail_cpp.Cli.{Line, key_empty, udp_host_warning, key_short, two_connections, bad_port}
use holesail_cpp.Cli.Qr.{QrCode, render_qr}

unfoldable pub upper : Bytes → Bytes
upper [] = []
upper (c ∷ text) = to_upper c ∷ upper text

unfoldable pub capitalise : Bytes → Bytes
capitalise [] = []
capitalise (c ∷ text) = to_upper c ∷ text

-- `kBadPort`
abbrev pub bad_port_text : Bytes
bad_port_text = codes "Error: Given port is not a valid number. Run holesail --help to see examples"

-- The text of a line of `validate`.
unfoldable pub line_text : Line → Bytes
line_text key_empty = red (codes "Error: Key can not be empty")
line_text udp_host_warning =
    yellow (codes "Warning: localhost or 0.0.0.0 may not work properly within netcat with UDP.")
line_text key_short = red (
    codes
      "Error: A key should have a minimum length of 32 chars for security purposes. If you still wish to proceed use --force")
line_text two_connections =
    red (
      codes "Error: Are you trying to use two connection strings at once? Get some holesail --help")
line_text bad_port = red bad_port_text

-- `Validation::message`: the lines, with a line feed between them.
unfoldable pub message_text : List Line → Bytes
message_text [] = []
message_text (line ∷ []) = line_text line
message_text (line ∷ next ∷ lines) = line_text line ++ (codes "\n" ++ message_text (next ∷ lines))

-- `info.type` and `info.protocol`
abbrev pub type_text : Bool → Bytes
type_text is_server = if is_server then codes "server" else codes "client"

abbrev pub protocol_text : Bool → Bytes
protocol_text is_udp = if is_udp then codes "udp" else codes "tcp"

-- The sailing boat, with its variation selector.
abbrev pub sailing_boat : Bytes
sailing_boat = 0xe2 ∷ 0x9b ∷ 0xb5 ∷ 0xef ∷ 0xb8 ∷ 0x8f ∷ []

abbrev pub where_text : Info → Bytes
where_text info = info.host ++ (codes ":" ++ decimal info.port)

unfoldable pub mode_text : Info → Bytes
mode_text info =
    if info.secure
    then green (codes "Private Connection String")
    else yellow (codes "Public Connection String")

unfoldable pub address_text : Info → Bytes
address_text info =
    if info.is_server
    then magenta (codes "Holesail is now listening on " ++ where_text info)
    else magenta (codes "Access application on http://" ++ (where_text info ++ codes "/"))

unfoldable pub note_text : Info → Bytes
note_text info =
    if info.secure
    then dim (
        codes
          "   NOTE: TREAT PRIVATE CONNECTION STRINGS HOW YOU WOULD TREAT SSH KEY, DO NOT SHARE IT WITH ANYONE YOU DO NOT TRUST    ")
    else dim (
        codes
          "   NOTICE: TREAT PUBLIC STRING LIKE YOU WOULD TREAT A DOMAIN NAME ON PUBLIC SERVER, IF THERE IS ANYTHING PRIVATE ON IT, IT IS YOUR RESPONSIBILITY TO PASSWORD PROTECT IT OR USE PRIVATE MODE   \n")

unfoldable pub render_started : (Bytes → Option QrCode) → Info → Bytes
render_started encode info = concat (
    cyan (
      underline (
        bold (
          concat (
            codes "Holesail "
            ∷ upper (protocol_text info.is_udp)
            ∷ codes " "
            ∷ capitalise (type_text info.is_server)
            ∷ codes " Started"
            ∷ []))))
    ∷ codes " "
    ∷ sailing_boat
    ∷ codes "\n"
    ∷ magenta (codes "Connection Mode: ")
    ∷ mode_text info
    ∷ codes "\n"
    ∷ address_text info
    ∷ codes "\n"
    ∷ (if info.is_server then codes "Connect with key: " else codes "Connected to key: ")
    ∷ dim info.url
    ∷ codes "\n"
    ∷ note_text info
    ∷ (if info.is_server then codes "\n" ++ render_qr encode info.url else [])
    ∷ [])

-- `\U0001f50d`
abbrev pub magnifier : Bytes
magnifier = 0xf0 ∷ 0x9f ∷ 0x94 ∷ 0x8d ∷ []

-- `protocol` is one of two texts, never empty.
unfoldable pub result_text : LookupResult → Bytes
result_text r = concat (
    cyan (underline (bold (codes "Holesail Lookup Result")))
    ∷ codes " "
    ∷ magnifier
    ∷ codes "\n"
    ∷ magenta (codes "Host: ")
    ∷ green (if is_empty r.host then codes "N/A" else r.host)
    ∷ codes "\n"
    ∷ magenta (codes "Port: ")
    ∷ green (if r.port == 0 then codes "N/A" else decimal r.port)
    ∷ codes "\n"
    ∷ magenta (codes "Protocol: ")
    ∷ green (upper (protocol_text r.is_udp))
    ∷ codes "\n"
    ∷ magenta (codes "Private: ")
    ∷ green (if r.secure then codes "Yes" else codes "No")
    ∷ [])

unfoldable pub render_lookup : Option LookupResult → Bytes
render_lookup none = red (codes "No record found for the provided key.")
render_lookup (some r) = result_text r
