-- ===== src/Cli/Screen/Lookup.antt =====
-- `run_lookup` of src/cli.cpp: what it prints, to which stream, and its exit status.
use holesail_cpp.Base.{ℕ, ◌==◌, if◌then◌else◌, not, Option, List, [], ◌∷◌, ◌++◌, Bytes, codes}
use holesail_cpp.Rc.{Rc, ok, fail, is_ok}
use holesail_cpp.Colors.{red}
use holesail_cpp.Logger.{Output, out, err}
use holesail_cpp.Holesail.LookupQuery.{LookupResult}
use holesail_cpp.Cli.Screen.{render_lookup}

-- `red("Error during lookup:")` and the text behind it.
unfoldable pub failed_text : Bytes → Output
failed_text reason =
    err (red (codes "Error during lookup:") ++ (codes " " ++ (reason ++ codes "\n")))

-- The callback of the lookup; `strerror` is `uv_strerror`.
unfoldable pub answered : (Rc → Bytes) → Rc → Option LookupResult → Output
answered strerror rc result =
    if not (is_ok rc) then failed_text (strerror rc) else out (render_lookup result ++ codes "\n")

unfoldable pub answered_all : (Rc → Bytes) → List (Rc × Option LookupResult) → List Output
answered_all strerror [] = []
answered_all strerror ((rc, result) ∷ answers) =
    answered strerror rc result ∷ answered_all strerror answers

-- JS throws `Invalid key format` where the key is not 32 bytes of z32.
unfoldable pub reason_text : (Rc → Bytes) → Bytes → Rc → Bytes
reason_text strerror key ok = strerror ok
reason_text strerror key (fail n) =
    if n == 22 then codes "Invalid key format: " ++ key else strerror (fail n)

-- The outputs and the exit status; `initialised` and `started` are the results of `uv_loop_init` and of
-- `Holesail::lookup`, and `answers` the calls of its callback while the loop runs.
unfoldable pub run_lookup :
    (Rc → Bytes) → Bytes → Rc → Rc → List (Rc × Option LookupResult) → List Output × ℕ
run_lookup strerror key initialised started answers =
    if not (is_ok initialised)
    then (failed_text (codes "could not create an event loop") ∷ [], 0)
    else if not (is_ok started)
    then (failed_text (reason_text strerror key started) ∷ [], 0)
    else (answered_all strerror answers, 0)
