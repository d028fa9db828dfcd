-- ===== src/Policy/Names.antt =====
-- policy/source.go and policy/build.go: prefixes of dotted names, and the framework's methods.
-- strings.HasPrefix: none if it is not, else what follows the prefix.
use grpcapi.Base.{
  code, String, Bool, true, false, ◌||◌, Option, none, some, List, [], ◌∷◌, ◌==◌, nat_eq,
  if◌then◌else◌, is_some, str_append, any,
}

strip_prefix : String → String → Option String
strip_prefix s String.[] = some s
strip_prefix String.[] (String.◌∷◌ d t) = none
strip_prefix (String.◌∷◌ c s) (String.◌∷◌ d t) =
    let rest = strip_prefix s t in if nat_eq (code c) (code d) then rest else none

unfoldable pub has_prefix : String → String → Bool
unfolding strip_prefix
has_prefix s t = is_some (strip_prefix s t)

ends_with_dot : String → Bool
ends_with_dot String.[] = false
ends_with_dot (String.◌∷◌ c String.[]) = nat_eq (code c) b'.'
ends_with_dot (String.◌∷◌ c (String.◌∷◌ d s)) = ends_with_dot (String.◌∷◌ d s)

-- What follows the prefix begins a new part of the name.
at_boundary : String → String → Bool
at_boundary prefix String.[] = true
at_boundary prefix (String.◌∷◌ c s) = nat_eq (code c) b'.' || ends_with_dot prefix

unfoldable pub name_under_prefix : String → String → Bool
unfolding strip_prefix ends_with_dot at_boundary
name_under_prefix full prefix = elim (strip_prefix full prefix) [
  | none ↦ false
  | some rest ↦ prefix == "" || at_boundary prefix rest
]

unfoldable pub package_under_any : String → List String → Bool
unfolding name_under_prefix
package_under_any pkg prefixes = any (name_under_prefix pkg) prefixes

abbrev framework_prefixes : List String
framework_prefixes = "grpc.health.v1." ∷ "grpc.reflection." ∷ "grpc.channelz.v1." ∷ []

unfoldable pub default_framework_exempt : String → Bool
unfolding has_prefix
default_framework_exempt full =
    any (λ (prefix : String). has_prefix full (str_append "/" prefix)) framework_prefixes
