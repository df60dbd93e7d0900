-- ===== src/Args.antt =====
-- The argument parser of src/cli.cpp and include/holesail/cli.hpp: `Args` and `parse_argv`.
pub mod Apart
use holesail_cpp.Base.{
  ℕ, ◌==◌, ltb, leb, if◌then◌else◌, Bool, true, false, not, ◌&&◌, ◌||◌, Option, none, some, is_some,
  List, [], ◌∷◌, ◌++◌, length, take, drop, is_empty, Bytes, codes, bytes_eq,
}
use holesail_cpp.Text.{is_digit, Signed, from_chars}

-- `std::map` and `std::set` as lists, with the one entry of a key in front of the others' order.
unfoldable pub lookup : Bytes → List (Bytes × Bytes) → Option Bytes
lookup k [] = none
lookup k ((name, v) ∷ rest) = if bytes_eq name k then some v else lookup k rest

unfoldable pub remove : Bytes → List (Bytes × Bytes) → List (Bytes × Bytes)
remove k [] = []
remove k ((name, v) ∷ rest) =
    let kept = remove k rest in if bytes_eq name k then kept else (name, v) ∷ kept

unfoldable pub member : Bytes → List Bytes → Bool
member k [] = false
member k (name ∷ rest) = bytes_eq name k || member k rest

unfoldable pub exclude : Bytes → List Bytes → List Bytes
exclude k [] = []
exclude k (name ∷ rest) = let kept = exclude k rest in if bytes_eq name k then kept else name ∷ kept

pub record Args : Type 0 where
  pub values : List (Bytes × Bytes)
  pub flags : List Bytes
  pub rest : List Bytes

unfoldable pub str : Args → Bytes → Option Bytes
str args name = lookup name args.values

unfoldable pub boolean : Args → Bytes → Bool
boolean args name = member name args.flags

unfoldable pub has : Args → Bytes → Bool
has args name = is_some (lookup name args.values) || member name args.flags

-- `num`; `from_chars` refuses the empty text.
unfoldable pub num_of : Option Bytes → Option Signed
num_of none = none
num_of (some value) = if is_empty value then none else from_chars value

unfoldable pub num : Args → Bytes → Option Signed
num args name = num_of (str args name)

unfoldable pub set_value : Args → Bytes → Bytes → Args
set_value args name value = record args {
  flags = exclude name args.flags;
  values = (name, value) ∷ remove name args.values;
}

unfoldable pub set_flag : Args → Bytes → Args
set_flag args name = record args {
  values = remove name args.values;
  flags = name ∷ exclude name args.flags;
}

unfoldable pub add_rest : Args → Bytes → Args
add_rest args token = record args { rest = args.rest ++ (token ∷ []) }

-- What one token is: a positional, `--name=value`, or an option that may take the next token.
pub data Token : Type 0 where
  positional : Token
  assigns : Bytes → Bytes → Token
  option : Bytes → Token

unfoldable pub is_long : Bytes → Bool
is_long token = bytes_eq (take 2 token) (codes "--")

unfoldable pub is_short : Bytes → Bool
is_short (dash ∷ c ∷ token) = dash == b'-' && (not (c == b'-') && not (is_digit c))
is_short token = false

-- The two sides of the first `=`.
unfoldable pub split_eq : Bytes → Option (Bytes × Bytes)
split_eq [] = none
split_eq (c ∷ name) =
    if c == b'='
    then some ([], name)
    else elim (split_eq name) [ none ↦ none | some r ↦ some (c ∷ r.0, r.1) ]

unfoldable pub named : Bytes → Token
named name = elim (split_eq name) [ none ↦ option name | some r ↦ assigns r.0 r.1 ]

unfoldable pub token_of : Bytes → Token
token_of token =
    if ltb 2 (length token) && is_long token
    then named (drop 2 token)
    else if is_short token
    then named (drop 1 token)
    else positional

-- The loop of `parse_argv` on the arguments behind the program's name.
unfoldable pub parse_tokens : List Bytes → Args → Args
parse_tokens [] args = args
parse_tokens (token ∷ []) args = elim (token_of token) [
  | positional ↦ add_rest args token
  | assigns name value ↦ set_value args name value
  | option name ↦ set_flag args name
]
parse_tokens (token ∷ next ∷ tokens) args = elim (token_of token) [
  | positional ↦ parse_tokens (next ∷ tokens) (add_rest args token)
  | assigns name value ↦ parse_tokens (next ∷ tokens) (set_value args name value)
  | option name ↦ elim (is_long next) [
    | true ↦ parse_tokens (next ∷ tokens) (set_flag args name)
    | false ↦ parse_tokens tokens (set_value args name next)
  ]
]

abbrev pub no_args : Args
no_args = record { values = []; flags = []; rest = [] }

unfoldable pub parse_argv : List Bytes → Args
parse_argv tokens = parse_tokens tokens no_args
