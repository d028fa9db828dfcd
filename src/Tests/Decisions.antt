-- ===== src/Tests/Decisions.antt =====
-- Decisions and calls on concrete values.
use grpcapi.Base.{
  String, ◌≡◌, refl, ◌⊎◌, Bool, true, false, ◌||◌, Option, none, some, [], ◌∷◌, ◌==◌, if◌then◌else◌,
  any, contains, Result, ok, err,
}
use grpcapi.Status.{Status, internal, unauthenticated}
use grpcapi.Policy.Spec.{Requirement, Operation}
use grpcapi.Policy.Method.{and_policy}
use grpcapi.Policy.Validate.{validate_policy}
use grpcapi.Policy.OperationSet.{get}
use grpcapi.Authz.Decide.{Decision, allowed, decide_by, config_error, deny}
use grpcapi.Authz.Decide.Laws.{grants, decide_by-grants}
use grpcapi.Authz.Decide.{decide_policy}
use grpcapi.Authz.Decide.Evaluated.{IsEntitled, decide_policy-IsEntitled}
use grpcapi.Http.{HttpRequest}
use grpcapi.Policy.Spec.{EvalContext}
use grpcapi.Tests.{alice}
use grpcapi.Authz.Decide.Validated.{config_error-valid}
use grpcapi.Authz.Decide.Inherit.{grants-and_policy, grants-and_policy_both}
use grpcapi.Authz.Calls.{Context, served, is_served}
use grpcapi.Authz.Interceptor.{
  new_interceptor, requirement_decider, unary, stream, recv_msg, normalize,
}
use grpcapi.Authz.Interceptor.Laws.{WasServed, Allowed, normalize-IsNormal}
use grpcapi.Authz.Interceptor.Enforced.{
  IsExempt, Fails, unary-Allowed, unary-Fails, stream-Allowed, recv_msg-Allowed,
}
use grpcapi.Authz.Interceptor.BuiltIn.{LetThrough, unary-LetThrough}
use grpcapi.Authz.Middleware.{http_middleware_for}
use grpcapi.Authz.Middleware.Laws.{RouteAllowed, http_middleware_for-pass}
use grpcapi.Tests.{
  TestFailure, carrying, test_world, role, requiring, editors, edit_op, watch_op, test_registry,
  test_set, test_options, test_interceptor, alice_context, nobody_context,
}

-- What Alice's roles answer.
abbrev has_role : Requirement → Bool
has_role r = contains r.values "editor" || contains r.values "reader"

abbrev answer : Requirement → Result Status Bool
answer r = ok (has_role r)

abbrev echo : Context test_world → String → Result TestFailure (Option String)
echo ctx req = ok (some req)

decide_by-grants_example :
    (d : Decision) × (decide_by answer editors true ≡ ok d)
    × (d.allow ≡ grants has_role editors true)
unfolding config_error grpcapi.Authz.Decide.requirements_of grpcapi.Policy.Validate.valid_match
decide_by-grants_example =
    decide_by-grants answer has_role editors true
      ((refl, tt), (refl, tt), ((refl, tt), ((refl, tt), tt))) refl

abbrev edit_eval : EvalContext test_world
edit_eval = record {
  operation = edit_op;
  principal = some alice;
  request = none;
  metadata = [];
  resource = none;
}

decide_policy-IsEntitled_example : IsEntitled tt edit_eval test_registry editors true
unfolding decide_policy grpcapi.Authz.Decide.requirements_of grpcapi.Policy.Validate.valid_match
    grpcapi.Authz.Decide.match_requirement grpcapi.Policy.Kinds.default_registry
    grpcapi.Policy.Registry.new_registry grpcapi.Policy.Kinds.default_kinds
    grpcapi.Policy.Kinds.kind_authenticated grpcapi.Policy.Kinds.kind_claim
    grpcapi.Policy.Kinds.kind_principal grpcapi.Policy.Kinds.claim_kind
    grpcapi.Policy.Kinds.claim_test grpcapi.Policy.Registry.effective_match
    grpcapi.Principal.has_claim grpcapi.Principal.match_claim
decide_policy-IsEntitled_example =
    decide_policy-IsEntitled tt edit_eval test_registry allowed refl refl

config_error-valid_example : config_error editors ≡ none
unfolding validate_policy grpcapi.Policy.Validate.validate_requirements
    grpcapi.Policy.Validate.validate_requirement grpcapi.Policy.Validate.valid_match
    grpcapi.Policy.Kinds.default_registry grpcapi.Policy.Registry.new_registry
    grpcapi.Policy.Kinds.default_kinds grpcapi.Policy.Kinds.kind_authenticated
    grpcapi.Policy.Kinds.kind_claim grpcapi.Policy.Kinds.kind_principal
    grpcapi.Policy.Kinds.claim_kind grpcapi.Policy.Kinds.claim_kind_validate
    grpcapi.Policy.Vocabulary.validate_values grpcapi.Policy.Vocabulary.has
config_error-valid_example = config_error-valid {w = test_world} test_registry [] editors refl

grants-and_policy_example :
    grants has_role (and_policy (requiring (role "editor")) (requiring (role "banned"))) true
    ≡ false
grants-and_policy_example =
    grants-and_policy has_role (requiring (role "editor")) (requiring (role "banned")) true refl
      refl

grants-and_policy_both_example :
    grants has_role (and_policy editors (requiring (role "reader"))) true ≡ true
grants-and_policy_both_example =
    grants-and_policy_both has_role editors (requiring (role "reader")) true refl refl refl

unary-LetThrough_example :
    (WasServed test_world
        (unary test_world test_interceptor alice_context "x" "/shop.Cart/Edit" echo).0
      × LetThrough test_world test_set test_interceptor alice_context "x" "/shop.Cart/Edit")
    ⊎ ((any is_served (unary test_world test_interceptor alice_context "x" "/shop.Cart/Edit" echo).0
          ≡ false)
        × Fails test_world
            (unary test_world test_interceptor alice_context "x" "/shop.Cart/Edit" echo))
unfolding new_interceptor grpcapi.Authz.Decide.new_requirement_decider
    grpcapi.Policy.OperationSet.operations grpcapi.Authz.Decide.requirements_of
    grpcapi.Policy.Kinds.default_registry grpcapi.Policy.Registry.new_registry
    grpcapi.Policy.Kinds.default_kinds grpcapi.Policy.Kinds.kind_authenticated
    grpcapi.Policy.Kinds.kind_claim grpcapi.Policy.Kinds.kind_principal
    grpcapi.Policy.Kinds.claim_kind
unary-LetThrough_example =
    unary-LetThrough test_world test_set test_options test_interceptor alice_context "x"
      "/shop.Cart/Edit" echo refl

unary-Allowed_example :
    IsExempt test_world test_interceptor "/shop.Cart/Edit"
    ⊎ ((op : Operation) × (get test_set "/shop.Cart/Edit" ≡ some op)
        × Allowed test_world test_interceptor alice_context op (some "x") false)
unfolding unary get normalize requirement_decider grpcapi.Authz.Decide.decide_policy
    grpcapi.Authz.Decide.requirements_of grpcapi.Policy.Validate.valid_match
    grpcapi.Authz.Decide.match_requirement grpcapi.Policy.Kinds.default_registry
    grpcapi.Policy.Registry.new_registry grpcapi.Policy.Kinds.default_kinds
    grpcapi.Policy.Kinds.kind_authenticated grpcapi.Policy.Kinds.kind_claim
    grpcapi.Policy.Kinds.kind_principal grpcapi.Policy.Kinds.claim_kind
    grpcapi.Policy.Kinds.claim_test grpcapi.Policy.Registry.effective_match
    grpcapi.Principal.has_claim grpcapi.Principal.match_claim
unary-Allowed_example =
    unary-Allowed test_world test_interceptor alice_context "x" "/shop.Cart/Edit" echo refl

unary-Fails_example :
    Fails test_world (unary test_world test_interceptor nobody_context "x" "/shop.Cart/Edit" echo)
unfolding unary get normalize requirement_decider grpcapi.Authz.Decide.decide_policy
    grpcapi.Authz.Decide.requirements_of grpcapi.Policy.Validate.valid_match
unary-Fails_example =
    unary-Fails test_world test_interceptor nobody_context "x" "/shop.Cart/Edit" echo
      (normalize-IsNormal test_world test_options) refl

-- The handler of a stream, whichever stream it is given.
abbrev reply : Option Operation → Result TestFailure (Unit {0})
reply guard = ok tt

stream-Allowed_example :
    IsExempt test_world test_interceptor "/shop.Cart/Watch"
    ⊎ ((op : Operation) × (get test_set "/shop.Cart/Watch" ≡ some op)
        × ((stream test_world test_interceptor alice_context "/shop.Cart/Watch" reply
              ≡ (served (some op) ∷ [], reply (some op)))
            ⊎ Allowed test_world test_interceptor alice_context op none true))
unfolding stream get
stream-Allowed_example =
    stream-Allowed test_world test_interceptor alice_context "/shop.Cart/Watch" reply refl

recv_msg-Allowed_example :
    (◌≡◌ {A = Result TestFailure String} (ok "x") (ok "x"))
    × Allowed test_world test_interceptor alice_context watch_op (some "x") true
unfolding recv_msg normalize requirement_decider grpcapi.Authz.Decide.decide_policy
    grpcapi.Authz.Decide.requirements_of grpcapi.Policy.Validate.valid_match
    grpcapi.Authz.Decide.match_requirement grpcapi.Policy.Kinds.default_registry
    grpcapi.Policy.Registry.new_registry grpcapi.Policy.Kinds.default_kinds
    grpcapi.Policy.Kinds.kind_authenticated grpcapi.Policy.Kinds.kind_claim
    grpcapi.Policy.Kinds.kind_principal grpcapi.Policy.Kinds.claim_kind
    grpcapi.Policy.Kinds.claim_test grpcapi.Policy.Registry.effective_match
    grpcapi.Principal.has_claim grpcapi.Principal.match_claim
recv_msg-Allowed_example =
    recv_msg-Allowed test_world test_interceptor alice_context watch_op (ok "x") "x"
      (normalize-IsNormal test_world test_options) refl

abbrev edit_request : HttpRequest
edit_request = record {
  method = "POST";
  path = "edit";
  host = "shop.example";
  header = ("X-Shop", "7" ∷ []) ∷ [];
  query = [];
  remote_addr = "";
  tls = none;
}

abbrev route : HttpRequest → Option Operation
route r = if r.path == "edit" then some edit_op else none

abbrev path_of : HttpRequest → String
path_of r = r.path

http_middleware_for-pass_example :
    (find : HttpRequest → Option Operation) × (op : Operation) × (some route ≡ some find)
    × (find edit_request ≡ some op)
    × RouteAllowed test_world path_of
        (some (requirement_decider test_world test_set))
        op
        alice_context
        edit_request
unfolding http_middleware_for requirement_decider grpcapi.Authz.Decide.decide_policy
    grpcapi.Authz.Decide.requirements_of grpcapi.Policy.Validate.valid_match
    grpcapi.Authz.Decide.match_requirement grpcapi.Policy.Kinds.default_registry
    grpcapi.Policy.Registry.new_registry grpcapi.Policy.Kinds.default_kinds
    grpcapi.Policy.Kinds.kind_authenticated grpcapi.Policy.Kinds.kind_claim
    grpcapi.Policy.Kinds.kind_principal grpcapi.Policy.Kinds.claim_kind
    grpcapi.Policy.Kinds.claim_test grpcapi.Policy.Registry.effective_match
    grpcapi.Principal.has_claim grpcapi.Principal.match_claim
http_middleware_for-pass_example =
    http_middleware_for-pass test_world path_of (some test_set)
      (some (requirement_decider test_world test_set)) (some route)
      (record { resource_resolver = none }) alice_context edit_request refl

-- Who has no principal is told so.
nobody_refused :
    (unary test_world test_interceptor nobody_context "x" "/shop.Cart/Edit" echo).1
    ≡ err (carrying (record { code = unauthenticated; message = "unauthenticated" }))
unfolding unary get normalize requirement_decider grpcapi.Authz.Decide.decide_policy
    grpcapi.Authz.Decide.requirements_of grpcapi.Policy.Validate.valid_match
nobody_refused = refl

unknown_method :
    (unary test_world test_interceptor alice_context "x" "/shop.Cart/Drop" echo).1
    ≡ err (carrying (record { code = internal; message = "no authorization policy for method" }))
unfolding unary get normalize grpcapi.Policy.Names.default_framework_exempt
unknown_method = refl

health_served :
    unary test_world test_interceptor nobody_context "x" "/grpc.health.v1.Health/Check" echo
    ≡ (served none ∷ [], ok (some "x"))
unfolding unary get normalize grpcapi.Policy.Names.default_framework_exempt
health_served = refl
