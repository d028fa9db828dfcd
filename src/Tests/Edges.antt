-- ===== src/Tests/Edges.antt =====
-- Origins, tokens, forwarded addresses and routes on concrete requests.
use grpcapi.Base.{
  ℕ, String, ◌≡◌, refl, ◌↔◌, ◌⊎◌, true, false, ◌||◌, Option, none, some, [], ◌∷◌, arith, ◌==◌,
  if◌then◌else◌, contains_text,
}
use Prim.Native.String
use grpcapi.Http.{Header, HttpRequest}
use grpcapi.Cors
use grpcapi.Cors.Laws.{Explains, handle-Explains}
use grpcapi.Csrf
use grpcapi.Csrf.{handle_iff}
use grpcapi.Authn.Session.{lax}
use grpcapi.ClientInfo
use grpcapi.ClientInfo.{NetIp}
use grpcapi.Policy.Descriptors.{MethodDescriptor, ServiceDescriptor}
use grpcapi.Surface
use grpcapi.Surface.{HttpBinding, MethodRule}
use grpcapi.Surface.Path.{squeeze, normalize_path}
use grpcapi.Surface.Path.Laws.{squeeze_lem}
use grpcapi.Surface.Path.Normal.{IsNormal, normalize_path_lem}
use grpcapi.Surface.Covers.{IsInterface, build_from_services-IsInterface}
use grpcapi.Tests.{test_world, test_set, edit_op, edit_method, cart_service}

abbrev request : String → Header → HttpRequest
request method header = record {
  method = method;
  path = "/carts";
  host = "shop.example";
  header = header;
  query = [];
  remote_addr = "10.0.0.1:5";
  tls = none;
}

abbrev shop_cors : Cors.Config
shop_cors = record {
  allowed_origins = "https://Shop.example/" ∷ [];
  allowed_methods = "get" ∷ "post" ∷ [];
  allowed_headers = none;
  exposed_headers = [];
  allow_credentials = true;
  max_age_seconds = 60;
}

abbrev preflight : HttpRequest
preflight =
    request "OPTIONS" (
      ("Origin", "https://shop.example" ∷ []) ∷ ("Access-Control-Request-Method", "POST" ∷ []) ∷ [])

abbrev decimal : ℕ → String
decimal n = "60"

handle-Explains_example :
    Explains
      (Cors.normalize shop_cors)
      preflight
      []
      (Cors.handle decimal (Cors.normalize shop_cors) preflight [])
unfolding Cors.new_middleware grpcapi.Base.to_lower grpcapi.Base.trim_right
handle-Explains_example =
    handle-Explains decimal shop_cors (Cors.normalize shop_cors) preflight [] refl

abbrev shop_csrf : Csrf.Config
shop_csrf = record {
  cookie_name = "csrf_token";
  header_name = "X-Csrf-Token";
  cookie_path = "/";
  insecure_cookie = false;
  same_site = lax;
  allowed_origins = [];
  exempt = none;
}

abbrev parse_url : String → Option (String × String)
parse_url s = some ("https", s)

abbrev cookie_in : HttpRequest → String → Option String
cookie_in r name = some "t1"

abbrev post : HttpRequest
post = request "POST" (("Origin", "shop.example" ∷ []) ∷ ("X-Csrf-Token", "t1" ∷ []) ∷ [])

handle_iff_example : (Csrf.handle (λ name. name) parse_url cookie_in shop_csrf post ≡ Csrf.pass) ↔ (
    ((Csrf.is_safe "POST" || Csrf.is_exempt shop_csrf post) ≡ true)
    ⊎ Csrf.IsVerified (λ name. name) parse_url cookie_in shop_csrf post)
handle_iff_example = handle_iff (λ name. name) parse_url cookie_in shop_csrf post

-- Addresses are texts, and a prefix has the one that it is.
abbrev texts : NetIp
texts = record {
  Addr = String;
  Prefix = String;
  parse_addr = λ s. if s == "" then none else some s;
  parse_prefix = λ s. none;
  single = λ a. a;
  masked = λ p. p;
  has_addr = λ p a. p == a;
  host_of = λ a. none;
}

abbrev proxies : ClientInfo.TrustedProxies texts
proxies = record { prefixes = "10.0.0.1" ∷ "10.0.0.2" ∷ []; invalid = false }

squeeze_lem_example :
    (contains_text (squeeze 9 "/a///b") "//" ≡ false) × (squeeze 9 "/a///b" ≡ squeeze 6 "/a///b")
squeeze_lem_example = squeeze_lem 9 "/a///b" (omega arith)

normalized : normalize_path "a///b//" ≡ "/a/b"
unfolding normalize_path grpcapi.Base.has_prefix contains_text grpcapi.Base.trim_right
normalized = refl

normalize_path_lem_example :
    IsNormal (normalize_path "a//b/") × (IsNormal "a//b/" → normalize_path "a//b/" ≡ "a//b/")
normalize_path_lem_example = normalize_path_lem "a//b/"

abbrev edit_rule : ServiceDescriptor → MethodDescriptor → Option MethodRule
edit_rule sd md = some (record {
  main = record {
    pattern = some (Surface.post_path "carts/{id}/");
    body = "*";
    response_body = "";
  };
  additional = [];
})

abbrev carts : Surface.Surface test_world
carts = record {
  ops =
      record {
        operation = edit_op;
        service = cart_service;
        descriptor = edit_method;
        http =
            record {
              verb = "POST";
              path = "/carts/{id}";
              body = "*";
              response_body = "";
              binding_index = 0;
            }
            ∷ [];
        streaming = false;
      }
      ∷ [];
  set = test_set;
}

build_from_services-IsInterface_example :
    IsInterface edit_rule test_set (some cart_service ∷ none ∷ some cart_service ∷ []) carts
unfolding Surface.build_from_services grpcapi.Policy.OperationSet.get normalize_path
    grpcapi.Base.has_prefix contains_text grpcapi.Base.trim_right
build_from_services-IsInterface_example =
    build_from_services-IsInterface edit_rule test_set
      (some cart_service ∷ none ∷ some cart_service ∷ []) carts refl
