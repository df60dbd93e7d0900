-- ===== src/Cli/Screen/Help.antt =====
-- The help texts of src/cli.cpp, in the pieces in which the source joins them, and `run` up to the command.
use holesail_cpp.Base.{
  if◌then◌else◌, Bool, true, false, List, [], ◌∷◌, ◌++◌, concat, is_empty, Bytes, codes, bytes_eq,
}
use holesail_cpp.Colors.{bold, cyan, red, yellow}
use holesail_cpp.Args.{Args}
use holesail_cpp.Cli.{
  validate, Command, exits, prints_help, prints_version, serves, connects, refuses_filemanager,
  looks_up, dispatch,
}
use holesail_cpp.Cli.Screen.{message_text}

unfoldable pub help_general : Bytes
help_general = concat (
    codes "\n\n"
    ∷ bold (codes "Usage:")
    ∷ codes "\n"
    ∷ codes "  "
    ∷ yellow (codes "holesail [command] [options]")
    ∷ codes "\n"
    ∷ codes "\n"
    ∷ codes "  \n"
    ∷ bold (codes "Commands:")
    ∷ codes "\n"
    ∷ codes "  "
    ∷ yellow (codes "--help <command>|-h")
    ∷ codes "     Display help information.\n"
    ∷ codes "  "
    ∷ yellow (codes "--version|-v")
    ∷ codes "            Display version information.\n"
    ∷ codes "  "
    ∷ yellow (codes "--live <port>")
    ∷ codes "           Start a Holesail server on <port>.\n"
    ∷ codes "  "
    ∷ yellow (codes "--connect <key>")
    ∷ codes "         Connect to a Holesail server.\n"
    ∷ codes "  "
    ∷ yellow (codes "--lookup <key>")
    ∷ codes "          Lookup details for a Holesail connection key.\n"
    ∷ codes "\n"
    ∷ bold (codes "Options:")
    ∷ codes "\n"
    ∷ codes "  "
    ∷ yellow (codes "--host <host>")
    ∷ codes "           Specify the host address (default: 127.0.0.1).\n"
    ∷ codes "  "
    ∷ yellow (codes "--udp")
    ∷ codes "                   Use UDP instead of TCP.\n"
    ∷ codes "  "
    ∷ yellow (codes "--public")
    ∷ codes "                Start in public mode for sharing.\n"
    ∷ codes "  "
    ∷ yellow (codes "--port <port>")
    ∷ codes "           Use a custom port (default: 8989).\n"
    ∷ codes "  "
    ∷ yellow (codes "--log")
    ∷ codes "                   Enable the debug log.\n"
    ∷ codes "\n"
    ∷ bold (codes "Examples:")
    ∷ codes "\n"
    ∷ codes "  "
    ∷ yellow (codes "holesail --live 3000")
    ∷ codes "      Start a server on port 3000.\n"
    ∷ codes "  "
    ∷ yellow (codes "holesail <key>")
    ∷ codes "            Connect to a server.\n"
    ∷ codes "\n"
    ∷ bold (codes "Notes:")
    ∷ codes "\n"
    ∷ codes
        "  Treat private keys like SSH keys. Public keys are shareable, but secure sensitive data with passwords or connectors.\n"
    ∷ [])

unfoldable pub help_live : Bytes
help_live = concat (
    codes "\n  "
    ∷ cyan (codes "\nReverse proxy a specific port")
    ∷ codes "    \n  "
    ∷ bold (codes "Usage:")
    ∷ codes "\n  "
    ∷ yellow (codes "holesail --live <port> [options]")
    ∷ codes "\n  "
    ∷ bold (codes "Options:")
    ∷ codes "\n  "
    ∷ yellow (codes "--host <address>")
    ∷ codes "   Use a custom host.\n  "
    ∷ yellow (codes "--udp")
    ∷ codes "              Use UDP protocol.\n  "
    ∷ yellow (codes "--public")
    ∷ codes "           Uses a different key to connect than the one used to start the server.\n  "
    ∷ yellow (codes "--key <key>")
    ∷ codes "        Set a custom key.\n    "
    ∷ [])

unfoldable pub help_connect : Bytes
help_connect = concat (
    codes "\n  "
    ∷ cyan (codes "\nConnect to a Holesail server")
    ∷ codes "    \n  "
    ∷ bold (codes "Usage:")
    ∷ codes "\n  "
    ∷ yellow (codes "holesail --connect <key> [options]")
    ∷ codes "\n  "
    ∷ yellow (codes "holesail <key> [options]")
    ∷ codes "\n  \n  "
    ∷ bold (codes "Options:")
    ∷ codes "\n  "
    ∷ yellow (codes "--host <address>")
    ∷ codes "   Use a custom host.\n  "
    ∷ yellow (codes "--udp")
    ∷ codes "              Use UDP protocol.\n  "
    ∷ yellow (codes "--port <port>")
    ∷ codes "      Use a custom port.\n  "
    ∷ yellow (codes "--public")
    ∷ codes "           Force the connection to use public mode (otherwise autodetected).\n    "
    ∷ [])

unfoldable pub render_help : Bytes → Bytes
render_help topic =
    let header = cyan (codes "Holesail CLI - Instantly share and connect to servers") in
    if bytes_eq topic (codes "live")
    then header ++ help_live
    else if bytes_eq topic (codes "connect")
    then header ++ help_connect
    else header ++ help_general

-- `kVersion`
abbrev pub version : Bytes
version = codes "0.2.1"

-- What `run` itself prints for a command, each text with its `std::endl`.
unfoldable pub command_text : Command → List Bytes
command_text (exits status) = []
command_text (prints_help topic) = (render_help topic ++ codes "\n") ∷ []
command_text prints_version = (version ++ codes "\n") ∷ []
command_text (serves options) = []
command_text (connects options) = []
command_text refuses_filemanager =
    codes "Error: --filemanager is not supported by holesail-cpp\n" ∷ []
command_text (looks_up key) = []

-- The texts of `run` and the command that it goes on to: `sodium` says that `sodium_init` succeeded.
unfoldable pub screen : Bool → Args → List Bytes × Command
screen false args =
    ((red (codes "Error: could not initialise libsodium") ++ codes "\n") ∷ [], exits 1)
screen true args =
    let message = message_text (validate args).message in
    let printed = if is_empty message then [] else (message ++ codes "\n") ∷ [] in
    (printed ++ command_text (dispatch args), dispatch args)
