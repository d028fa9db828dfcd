-- ===== src/Tests/Startup.antt =====
-- The assertion on registered methods, and the principal of a token, on concrete values.
use grpcapi.Base.{
  String, ◌≡◌, refl, Bool, true, false, none, some, List, [], ◌∷◌, ◌==◌, if◌then◌else◌, is_some,
  or_else, any, Result, ok, err,
}
use grpcapi.Authn.Jwt.{Claims, Authenticator, principal_of, authenticate}
use grpcapi.Framework.{
  lacks, assert_all_registered_have_policy, assert_all_registered_have_policy_lem,
}
use grpcapi.Principal.{Principal}
use grpcapi.Authn.Credentials.{Credentials, first_bearer}
use grpcapi.Authn.Jwt
use grpcapi.Authn.Jwt.Laws.{IsVouched, authenticate-IsVouched}
use grpcapi.Tests.{TestFailure, test_world, test_set}

abbrev services : List (String × List String)
services = ("grpc.health.v1.Health", "Check" ∷ []) ∷ ("shop.Cart", "Edit" ∷ "Drop" ∷ []) ∷ []

abbrev is_drop : String → Bool
is_drop name = name == "/shop.Cart/Drop"

assert_all_registered_have_policy-services :
    assert_all_registered_have_policy test_set services ≡ some ("/shop.Cart/Drop" ∷ [])
unfolding assert_all_registered_have_policy grpcapi.Policy.Names.default_framework_exempt
    grpcapi.Policy.OperationSet.get
assert_all_registered_have_policy-services = refl

assert_all_registered_have_policy_lem_example :
    (is_some (assert_all_registered_have_policy test_set services)
      ≡ any (lacks test_set (λ name. true)) services)
    × (any is_drop (or_else (assert_all_registered_have_policy test_set services) [])
        ≡ any (lacks test_set is_drop) services)
assert_all_registered_have_policy_lem_example =
    assert_all_registered_have_policy_lem test_set is_drop services

-- A token of this issuer claims to be of another kind.
abbrev token_claims : Claims
token_claims =
    ("sub", Jwt.text "alice")
    ∷ ("kind", Jwt.text "admin")
    ∷ ("tenant", Jwt.text "t1")
    ∷ ("roles", Jwt.items (some "editor" ∷ none ∷ []))
    ∷ []

abbrev verify_token : test_world.Ambient → String → Result TestFailure Claims
verify_token ctx token = if token == "good" then ok token_claims else err (TestFailure.text "bad")

abbrev no_raw : Claims → test_world.Raw
no_raw c = tt

abbrev user_tokens : Authenticator test_world no_raw
user_tokens = record { verify = verify_token; claims = none; kind = "user" }

abbrev token_creds : Credentials
token_creds = record {
  full_method = "/shop.Cart/Edit";
  metadata = [];
  peer = none;
  bearers = "good" ∷ [];
  api_keys = [];
  cookies = [];
  tickets = [];
  tls = none;
  http = none;
}

abbrev token_principal : Principal test_world
token_principal = record {
  id = "alice";
  kind = "user";
  claims = ("tenant", "t1" ∷ []) ∷ ("roles", "editor" ∷ []) ∷ [];
  attrs = ("kind", "admin") ∷ [];
  raw = some tt;
}

authenticate-IsVouched_example :
    ((first_bearer token_creds == "") ≡ false)
    × IsVouched test_world no_raw user_tokens tt (first_bearer token_creds) token_principal
unfolding authenticate first_bearer Jwt.subject Jwt.mapping_of
authenticate-IsVouched_example =
    authenticate-IsVouched test_world no_raw user_tokens tt token_creds token_principal refl refl
