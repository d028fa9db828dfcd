-- ===== src/Tests/Identity.antt =====
-- Authentication on concrete credentials.
use grpcapi.Base.{
  String, ◌≡◌, refl, ◌⊎◌, true, false, Option, none, some, List, [], ◌∷◌, ◌++◌, arith, ◌==◌,
  eq_refl, if◌then◌else◌, str_append, any, lookup, insert, remove, lookup-insert, Result,
  has_prefix, ok, err,
}
use grpcapi.Principal.{Principal}
use grpcapi.Authz.Calls.{Context, is_served, unauthenticated_error, Run}
use grpcapi.Authz.Interceptor.{unary}
use grpcapi.Authz.Interceptor.Enforced.{Fails}
use grpcapi.Authz.Interceptor.BuiltIn.{LetThrough}
use grpcapi.Authn.Credentials.{Credentials, CredentialKind, default_extract}
use grpcapi.Authn.Authenticate.{
  reject_multiple, ignore_on_anonymous, Authenticator, Interceptor, authenticate,
}
use grpcapi.Authn.Authenticate.Failures.{IsFailure, authenticate-IsFailure}
use grpcapi.Authn.Interceptor.{intercept}
use grpcapi.Authn.Interceptor.Laws.{IsEntered, intercept-LetThrough}
use grpcapi.Authn.Session
use grpcapi.Authn.Session.{Session, Config, SetCookie, Store, lax}
use grpcapi.Authn.Session.Cookies.{StandsFor, authenticate-issue, authenticate-StandsFor}
use grpcapi.Authn.ApiKey
use Prim.Native.String
use grpcapi.Authn.ApiKey.{Key, authenticate-active}
use grpcapi.Authn.Admin
use grpcapi.Authn.Admin.{Admin, IsAdministered, enrich-IsAdministered}
use grpcapi.Tests.{TestFailure, test_world, alice, test_set, test_options, test_interceptor}

-- Knows one bearer token, and refuses the others.
abbrev knows : Authenticator test_world
knows ctx c = elim c.bearers [
  | [] ↦ ok none
  | t ∷ ts ↦
      if t == "t1" then ok (some alice) else err (unauthenticated_error test_world "unknown token")
]

abbrev identity : Interceptor test_world
identity = record {
  chain = none ∷ some knows ∷ [];
  opts = record {
    multiple_credential_policy = reject_multiple;
    invalid_credential_policy = ignore_on_anonymous;
    invalid_credential_by_kind = λ kind. none;
    is_anonymous = none;
    extractor = none;
    enrichers = [];
    on_failure = true;
  };
}

abbrev with_token : String → Context test_world
with_token header = record {
  ambient = tt;
  principal = none;
  metadata = ("authorization", header ∷ []) ∷ [];
}

abbrev bearing : String → Credentials
bearing token = record {
  full_method = "/shop.Cart/Edit";
  metadata = [];
  peer = none;
  bearers = token ∷ [];
  api_keys = [];
  cookies = [];
  tickets = [];
  tls = none;
  http = none;
}

abbrev echo : Context test_world → String → Result TestFailure (Option String)
echo ctx req = ok (some req)

abbrev edit_call : List TestFailure × Run test_world (Option String)
edit_call =
    intercept test_world identity (with_token "bearer  t1 ") none "/shop.Cart/Edit"
      (λ inner. unary test_world test_interceptor inner "x" "/shop.Cart/Edit" echo)

intercept-LetThrough_example :
    ((any is_served edit_call.1.0 ≡ true)
      × (inner : Context test_world) × IsEntered test_world identity
          (with_token "bearer  t1 ")
          none
          "/shop.Cart/Edit"
          inner
      × LetThrough test_world test_set test_interceptor inner "x" "/shop.Cart/Edit")
    ⊎ ((any is_served edit_call.1.0 ≡ false) × Fails test_world edit_call.1)
unfolding grpcapi.Authz.Interceptor.new_interceptor grpcapi.Authz.Decide.new_requirement_decider
    grpcapi.Policy.OperationSet.operations grpcapi.Authz.Decide.requirements_of
    grpcapi.Policy.Kinds.default_registry grpcapi.Policy.Registry.new_registry
    grpcapi.Policy.Kinds.default_kinds grpcapi.Policy.Kinds.kind_authenticated
    grpcapi.Policy.Kinds.kind_claim grpcapi.Policy.Kinds.kind_principal
    grpcapi.Policy.Kinds.claim_kind
intercept-LetThrough_example =
    intercept-LetThrough test_world identity test_set test_options test_interceptor
      (with_token "bearer  t1 ") none "x" "/shop.Cart/Edit" echo refl

-- The call above runs the handler.
edit_call_served : any is_served edit_call.1.0 ≡ true
unfolding intercept default_extract grpcapi.Authn.Credentials.bearer_tokens
    grpcapi.Authn.Credentials.bearer_token grpcapi.Base.trim_space grpcapi.Base.cut
    grpcapi.Base.equal_fold grpcapi.Authn.Credentials.has_client_cert
    grpcapi.Authn.Credentials.peer_tls unary grpcapi.Policy.OperationSet.get
    grpcapi.Authz.Interceptor.normalize grpcapi.Authz.Interceptor.requirement_decider
    grpcapi.Authz.Decide.decide_policy grpcapi.Authz.Decide.requirements_of
    grpcapi.Policy.Validate.valid_match grpcapi.Authz.Decide.match_requirement
    grpcapi.Policy.Kinds.default_registry grpcapi.Policy.Registry.new_registry
    grpcapi.Policy.Kinds.default_kinds grpcapi.Policy.Kinds.kind_authenticated
    grpcapi.Policy.Kinds.kind_claim grpcapi.Policy.Kinds.kind_principal
    grpcapi.Policy.Kinds.claim_kind grpcapi.Principal.has_claim grpcapi.Principal.match_claim
    grpcapi.Policy.Kinds.claim_evaluate grpcapi.Policy.Registry.effective_match
    grpcapi.Policy.Kinds.claim_test
edit_call_served = refl

authenticate-IsFailure_example :
    IsFailure test_world (unauthenticated_error test_world "unknown token")
    × ((e : TestFailure) × ((authenticate test_world identity tt false (bearing "t2")).0
          ≡ (if true then e ∷ [] else [])))
unfolding authenticate grpcapi.Authn.Credentials.has_client_cert
    grpcapi.Authn.Credentials.presented_kinds
authenticate-IsFailure_example =
    authenticate-IsFailure test_world identity tt false (bearing "t2")
      (unauthenticated_error test_world "unknown token") refl

abbrev sessions : Store test_world (List (String × Session))
sessions = record {
  get = λ st id. ok (lookup id st);
  create = λ st s. (insert s.id s st, none);
  touch = λ st id ttl. (st, none);
  delete = λ st id. (remove id st, none);
  not_found = λ e. false;
}

-- A signature that is a text before the ID, and cookie headers that hold one value of one name.
abbrev session_auth : Session.Authenticator test_world (List (String × Session))
session_auth = record {
  cfg = record {
    cookie_name = "session";
    ttl = 1000;
    path = "/";
    insecure_cookie = false;
    same_site = lax;
  };
  store = sessions;
  mac = λ id. str_append "k" id;
  cookies_in = λ raw. ("session", raw) ∷ [];
}

abbrev alice_session : Session
alice_session = Session.session_of session_auth.cfg 5 "id1" alice

abbrev alice_cookie : SetCookie
alice_cookie = Session.cookie_for session_auth alice_session

abbrev cookie_creds : Credentials
cookie_creds = record (bearing "") { bearers = []; cookies = "id1.kid1" ∷ [] }

created :
    (y : List (String × Session)) (x : Session)
    → ◌≡◌ {A = Result TestFailure (Option Session)}
        (ok (lookup x.id (insert x.id x y)))
        (ok (some x))
created y x = rw (lookup-insert x.id x.id x y, eq_refl x.id) refl

authenticate-issue_example :
    (Session.authenticate session_auth 900 (("id1", alice_session) ∷ []) cookie_creds).1
    ≡ ok (some (record alice { kind = Session.or_default alice.kind "user"; raw = none }))
unfolding Session.issue Session.cookie_of
authenticate-issue_example =
    authenticate-issue session_auth 5 900 [] (("id1", alice_session) ∷ []) "id1" alice alice_cookie
      cookie_creds (λ y x h. created y x)
      (record { clear = refl; id_full = refl; signature_full = refl }) refl refl (omega arith)

authenticate-StandsFor_example :
    StandsFor session_auth 900
      (("id1", alice_session) ∷ [])
      cookie_creds
      (Session.principal_of alice_session)
unfolding Session.authenticate grpcapi.Base.cut
authenticate-StandsFor_example =
    authenticate-StandsFor session_auth 900 (("id1", alice_session) ∷ []) cookie_creds
      (Session.principal_of alice_session) refl

abbrev robot_key : Key
robot_key = record {
  id = "k1";
  principal_id = "robot";
  scopes = "carts:read" ∷ [];
  expires_at = some 50;
  revoked = false;
  claims = [];
}

abbrev key_auth : ApiKey.Authenticator test_world
key_auth = record {
  find = λ ctx hash. ok (if hash == "ak_1" then some robot_key else none);
  not_found = λ e. false;
  headers = "x-api-key" ∷ [];
  prefix = "ak_";
  hash = λ raw. raw;
  now = 7;
}

abbrev key_creds : Credentials
key_creds = record (bearing "") { bearers = []; api_keys = "ak_1" ∷ [] }

authenticate-active_example :
    (k : Key) × (key_auth.find tt (key_auth.hash (ApiKey.raw_key test_world key_auth key_creds))
      ≡ ok (some k))
    × ApiKey.IsLive test_world k 7
    × ((key_auth.prefix ≡ "")
        ⊎ ((rest : String) × (ApiKey.raw_key test_world key_auth key_creds
              ≡ String.◌++◌ "ak_" rest)))
    × (ApiKey.principal_of test_world robot_key ≡ ApiKey.principal_of test_world k)
unfolding ApiKey.authenticate grpcapi.Authn.Credentials.first_api_key has_prefix ApiKey.active
authenticate-active_example =
    authenticate-active test_world key_auth tt key_creds (ApiKey.principal_of test_world robot_key)
      refl

abbrev suspended : Admin
suspended = record { roles = "root" ∷ []; suspended = true; attrs = ("team", "ops") ∷ [] }

abbrev admins : Admin.Enricher test_world
admins = record {
  find = λ ctx id. ok (if id == "alice" then some suspended else none);
  not_found = λ e. false;
  claim = "admin_roles";
  suspended_claim = "admin_suspended";
}

enrich-IsAdministered_example :
    (q : Principal test_world) × (Admin.enrich test_world admins tt alice ≡ ok q)
    × IsAdministered test_world admins suspended alice q
enrich-IsAdministered_example = enrich-IsAdministered test_world admins tt alice suspended refl refl
