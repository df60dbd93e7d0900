-- ===== src/Args/Apart.antt =====
-- A name has a value or is a bare flag, never both: the last mention of it counts.
use holesail_cpp.Base.{
  Bool, true, false, ◌&&◌, none, is_some, List, [], ◌∷◌, Bytes, bytes_eq, bytes_eq→eq, ◌≡◌, refl,
  sym, arith, Bool-cases, inl, inr, subst, Option-cases,
}
use holesail_cpp.Args.{
  lookup, remove, member, exclude, Args, str, boolean, set_value, set_flag, add_rest, positional,
  assigns, option, is_long, token_of, parse_tokens, no_args, parse_argv,
}

lookup-remove :
    (k name : Bytes) (vs : List (Bytes × Bytes))
    → lookup k vs ≡ none
    → lookup k (remove name vs) ≡ none
unfolding lookup remove
lookup-remove k name [] h = refl
lookup-remove k name ((n, v) ∷ vs) h = ground (arith, lookup-remove k name vs)

lookup-remove_same : (k : Bytes) (vs : List (Bytes × Bytes)) → lookup k (remove k vs) ≡ none
unfolding lookup remove
lookup-remove_same k [] = refl
lookup-remove_same k ((n, v) ∷ vs) = ground (arith, lookup-remove_same k vs)

member-exclude :
    (k name : Bytes) (fs : List Bytes) → member k fs ≡ false → member k (exclude name fs) ≡ false
unfolding member exclude
member-exclude k name [] h = refl
member-exclude k name (n ∷ fs) h = ground (arith, member-exclude k name fs)

member-exclude_same : (k : Bytes) (fs : List Bytes) → member k (exclude k fs) ≡ false
unfolding member exclude
member-exclude_same k [] = refl
member-exclude_same k (n ∷ fs) = ground (arith, member-exclude_same k fs)

-- No name is both valued and flagged.
abbrev pub Apart : Args → Type 0
Apart args = (k : Bytes) → is_some (str args k) && boolean args k ≡ false

and_false : (b : Bool) → b && false ≡ false
and_false true = refl
and_false false = refl

-- Taking entries away keeps a name apart.
apart_below :
    (args : Args) (m n k : Bytes)
    → is_some (str args k) && boolean args k ≡ false
    → is_some (lookup k (remove m args.values)) && member k (exclude n args.flags) ≡ false
unfolding str boolean
apart_below args m n k h = elim (Option-cases (lookup k args.values)) [
  | inl e ↦ rw (lookup-remove k m args.values e) refl
  | inr (v, e) ↦
      let f : member k args.flags ≡ false = rw e at h in
      rw (member-exclude k n args.flags f) (and_false (is_some (lookup k (remove m args.values))))
]

set_value-Apart :
    (args : Args) (name value : Bytes) → Apart args → Apart (set_value args name value)
unfolding str boolean set_value lookup
set_value-Apart args name value h k = elim (Bool-cases (bytes_eq name k)) [
  | inl e ↦
      let same : member k (exclude name args.flags) ≡ false =
        subst (λ n. member k (exclude n args.flags) ≡ false) (sym (bytes_eq→eq name k e))
          (member-exclude_same k args.flags) in
      rw (e, same) refl
  | inr e ↦ rw e (apart_below args name name k (h k))
]

set_flag-Apart : (args : Args) (name : Bytes) → Apart args → Apart (set_flag args name)
unfolding str boolean set_flag member
set_flag-Apart args name h k = elim (Bool-cases (bytes_eq name k)) [
  | inl e ↦
      let same : lookup k (remove name args.values) ≡ none =
        subst (λ n. lookup k (remove n args.values) ≡ none) (sym (bytes_eq→eq name k e))
          (lookup-remove_same k args.values) in
      rw (e, same) refl
  | inr e ↦ rw e (apart_below args name name k (h k))
]

add_rest-Apart : (args : Args) (token : Bytes) → Apart args → Apart (add_rest args token)
unfolding str boolean add_rest
add_rest-Apart args token h k = h k

parse_tokens-Apart :
    (tokens : List Bytes) (args : Args) → Apart args → Apart (parse_tokens tokens args)
unfolding parse_tokens
parse_tokens-Apart [] args h = h
parse_tokens-Apart (token ∷ []) args h =
    elim (token_of token)
      as (λ t. Apart (elim t [
        | positional ↦ add_rest args token
        | assigns name value ↦ set_value args name value
        | option name ↦ set_flag args name
      ])) [
        | positional ↦ add_rest-Apart args token h
        | assigns name value ↦ set_value-Apart args name value h
        | option name ↦ set_flag-Apart args name h
      ]
parse_tokens-Apart (token ∷ next ∷ tokens) args h =
    elim (token_of token)
      as (λ t. Apart (elim t [
        | positional ↦ parse_tokens (next ∷ tokens) (add_rest args token)
        | assigns name value ↦ parse_tokens (next ∷ tokens) (set_value args name value)
        | option name ↦ elim (is_long next) [
          | true ↦ parse_tokens (next ∷ tokens) (set_flag args name)
          | false ↦ parse_tokens tokens (set_value args name next)
        ]
      ])) [
        | positional ↦
            parse_tokens-Apart (next ∷ tokens) (add_rest args token) (add_rest-Apart args token h)
        | assigns name value ↦
            parse_tokens-Apart (next ∷ tokens) (set_value args name value)
              (set_value-Apart args name value h)
        | option name ↦
            elim (is_long next)
              as (λ b. Apart (elim b [
                | true ↦ parse_tokens (next ∷ tokens) (set_flag args name)
                | false ↦ parse_tokens tokens (set_value args name next)
              ])) [
                | true ↦
                    parse_tokens-Apart (next ∷ tokens) (set_flag args name)
                      (set_flag-Apart args name h)
                | false ↦
                    parse_tokens-Apart tokens (set_value args name next)
                      (set_value-Apart args name next h)
              ]
      ]

nothing_given : Apart no_args
unfolding str lookup
nothing_given k = refl

-- Whatever the command line, no name is both given a value and a bare flag.
pub parse_argv-Apart :
    (tokens : List Bytes) (k : Bytes)
    → is_some (str (parse_argv tokens) k) && boolean (parse_argv tokens) k ≡ false
unfolding parse_argv
parse_argv-Apart tokens k = parse_tokens-Apart tokens no_args nothing_given k
