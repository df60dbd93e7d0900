-- ===== src/Cli/Ports.antt =====
-- What the command line guarantees to the endpoints that it starts.
use holesail_cpp.Base.{
  ℕ, false, ◌⊎◌, ◌≤◌, if◌then◌else◌, true, ◌&&◌, Option, none, some, value_or, is_some, codes, ◌≡◌,
  refl, sym, ap, ◌∙◌, arith,
}
use holesail_cpp.Text.{Signed, within}
use holesail_cpp.Args.{Args, str, num}
use holesail_cpp.Holesail.{Options, valid, invalid, validate_opts, is_blank}
use holesail_cpp.Cli.{
  truthy, max_port, is_port, valid_port, to_uint16, given, server_options, plus, client_options,
  validate, serves, dispatch,
}

-- The value of a `long` is this natural number.
abbrev pub IsValue : Signed → ℕ → Type 0
IsValue n k = (n.magnitude ≡ k) × ((n.negative ≡ false) ⊎ (k ≡ 0))

to_uint16_exact :
    (n : Signed) → within 0 max_port n ≡ true → IsValue n (to_uint16 n) × (to_uint16 n ≤ max_port)
unfolding to_uint16
to_uint16_exact n h = ground arith

is_port-some :
    (o : Option Signed)
    → is_port o ≡ true
    → (n : Signed) × ((o ≡ some n) × (within 0 max_port n ≡ true))
unfolding is_port
is_port-some none h = absurd (cc)
is_port-some (some n) h = (n, (refl, h))

validate-live :
    (args : Args)
    → (validate args).ok ≡ true
    → truthy args (codes "live") ≡ true
    → valid_port args (codes "live") ≡ true
unfolding validate
validate-live args h t = ground arith

dispatch_shape :
    (args : Args) (o : Options)
    → dispatch args ≡ serves o
    → ((validate args).ok ≡ true)
      × ((truthy args (codes "live") ≡ true) × (server_options args ≡ o))
unfolding dispatch
dispatch_shape args o h = (ground arith, (ground arith, ground arith))

-- A command line that starts a server named its port as a number whose value, sign included, lies from 0 to
-- 65535, and the server gets exactly that port.
pub dispatch-serves :
    (args : Args) (o : Options)
    → dispatch args ≡ serves o
    → (n : Signed) × ((k : ℕ) × ((num args (codes "live") ≡ some n)
          × (IsValue n k × ((k ≤ max_port) × (o.port ≡ some k)))))
unfolding valid_port server_options
dispatch-serves args o h =
    let (ok, (live, same)) = dispatch_shape args o h in
    let (n, (read, fits)) = is_port-some (num args (codes "live")) (validate-live args ok live) in
    let (value, bound) = to_uint16_exact n fits in
    (
      n,
      (
        to_uint16 n,
        (
          read,
          (
            value,
            (
              bound,
              ap (λ x. x.port) (sym same) ∙ ap (λ v. some (to_uint16 (value_or v (plus 0)))) read,
            ),
          ),
        ),
      ),
    )

-- The options that a server is started with are refused exactly when a key is given and empty.
pub server_options-validate_opts :
    (args : Args)
    → validate_opts (server_options args) ≡ (
        if is_some (str args (codes "key")) && is_blank (str args (codes "key"))
        then invalid (codes "Key is empty")
        else valid (server_options args))
unfolding validate_opts server_options given
server_options-validate_opts args = ground arith

-- The options that a client is started with are refused exactly when the key is empty.
pub client_options-validate_opts :
    (args : Args)
    → validate_opts (client_options args) ≡ (
        if is_blank (client_options args).key
        then invalid (codes "Key is empty")
        else valid (client_options args))
unfolding validate_opts client_options
client_options-validate_opts args = ground arith
