-- ===== src/Scope/Token.antt =====
-- policy/scope/scope.go: the parsing of tokens and what a set of them satisfies. The code splits at
-- ASCII separators, where the bytes of a text and its characters agree.
pub mod Laws
use grpcapi.Base.{
  ℕ, code, String, Bool, true, false, not, ◌&&◌, ◌||◌, Option, none, some, List, [], ◌∷◌, ◌++◌,
  ◌==◌, nat_eq, if◌then◌else◌, is_empty, Result, ok, err,
}

-- strings.LastIndex and the cut at it: none if the separator is not there.
unfoldable pub cut_last : ℕ → String → Option (String × String)
cut_last sep String.[] = none
cut_last sep (String.◌∷◌ c s) = elim (cut_last sep s) [
  | some (before, after) ↦ some (String.◌∷◌ c before, after)
  | none ↦ (if nat_eq (code c) sep then some (String.[], s) else none)
]

-- strings.Contains of one character
abbrev pub has_code : ℕ → String → Bool
has_code sep String.[] = false
has_code sep (String.◌∷◌ c s) = nat_eq (code c) sep || has_code sep s

unfoldable pub is_op : String → Bool
is_op op = op == "read" || op == "write" || op == "admin"

abbrev pub is_wildcard : String → Bool
is_wildcard token = token == "*" || token == "all"

-- The answer `(resource, op, hasOp)`.
abbrev pub Split : Type 0
Split = String × String × Bool

split_dot : String → Option (String × String) → Split
split_dot token none = (token, "", false)
split_dot token (some (res, op)) =
    if is_op op && not (res == "") then (res, op, true) else (token, "", false)

unfoldable pub split_token : String → Split
unfolding split_dot
split_token token = elim (cut_last b':' token) [
  | some (res, op) ↦ (res, op, true)
  | none ↦ split_dot token (cut_last b'.' token)
]

-- The checks of `parse` on a split token.
parse_split : Split → Result String (String × String)
parse_split (res, op, false) = ok (res, "")
parse_split (res, op, true) =
    if res == ""
    then err "missing resource before op"
    else if is_wildcard res
    then err "reserved word cannot be a resource segment"
    else if not (is_op op)
    then err "unknown op"
    else ok (res, op)

unfoldable pub parse : String → Result String (String × String)
unfolding parse_split
parse token =
    if token == ""
    then err "empty scope"
    else if is_wildcard token
    then ok ("", "")
    else if has_code b'*' token
    then err "wildcard is only valid as the exact token"
    else parse_split (split_token token)

-- `Parse`: the tokens, or the errors of those that are not well formed.
parse_all : List String → List String → List String → Result (List String) (List String)
parse_all out errs [] = if is_empty errs then ok out else err errs
parse_all out errs (token ∷ raw) =
    let good = parse_all (out ++ token ∷ []) errs raw in
    let bad = λ (e : String). parse_all out (errs ++ e ∷ []) raw in
    if is_wildcard token then good else elim (parse token) [ ok split ↦ good | err e ↦ bad e ]

unfoldable pub parse_set : List String → Result (List String) (List String)
unfolding parse_all
parse_set raw = parse_all [] [] raw

unfoldable pub has_wildcard : List String → Bool
has_wildcard [] = false
has_wildcard (token ∷ set) = if is_wildcard token then true else has_wildcard set

-- The body of the loop of `satisfies` for a token that is no wildcard: whether it returns true.
split_satisfies : Split → String → String → Bool
split_satisfies (res, token_op, has_op) resource op =
    if not (res == resource) then false else if not has_op then true else op == "" || token_op == op

unfoldable pub satisfies : List String → String → String → Bool → Bool
unfolding split_satisfies
satisfies [] resource op allow_wildcard = false
satisfies (token ∷ set) resource op allow_wildcard =
    let rest = satisfies set resource op allow_wildcard in
    if is_wildcard token
    then (if allow_wildcard then true else rest)
    else if split_satisfies (split_token token) resource op
    then true
    else rest
