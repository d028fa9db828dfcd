-- ===== src/Lib.antt =====
-- Verification of grpcapi, a Go library that builds the authorization policies of a gRPC server
-- from the annotations of its protobuf files and enforces them on every call.
--
-- The parts and how they interact. A principal (principal/) carries claims. A policy (policy/)
-- asks requirements of it, each of a kind that a registry defines; policy/scope/ defines two more
-- kinds. `policy.Build` expands, merges and validates the policies of all methods and puts them
-- into an immutable table. The decider (authz/) evaluates the policy of a method's operation on one
-- request, and the interceptors and the HTTP middleware (authz/) look operations up in the table,
-- ask a decider, and run the handler or refuse the call. Before them authentication (authn/) makes a
-- principal of the credentials of a request, with authenticators for sessions, API keys, tickets and JWTs and
-- an enricher from a store of administrators. A limiter (ratelimit/) refuses calls of a key that come too
-- often; the key may be the address of the client, which interceptor/ finds behind trusted proxies. On the
-- HTTP side cors/ and csrf/ look at the origin and the token of a request, and surface/ lists the routes
-- of the methods in the table. gateway/ decides which headers become metadata and how errors are told, and
-- server/ puts all of this together: it checks the chain of interceptors, keeps the groups of services apart
-- by their prefixes, and guards its own routes like methods.
--
-- The files, with the code that each models.
--   Base, Base/*: lists, options, results, association lists and sorting, on native numbers.
--   Status: what is used of google.golang.org/grpc, and the record World of the types behind
--     `any`, `error` and the values of a context, with the documented laws of status errors. Every
--     model is stated over an arbitrary World.
--   Principal: principal/principal.go.
--   Policy/Spec: policy/spec.go. Policy/Vocabulary: policy/vocabulary.go. Policy/Registry and
--     Policy/Kinds: policy/registry.go. Policy/Preset: policy/preset.go. Policy/OperationSet:
--     policy/set.go, whose map is an association list from IDs.
--   Policy/Validate: validatePolicy and what it calls, of policy/build.go. Policy/Descriptors: the
--     inputs of Build, of policy/build.go, policy/provider.go and policy/rule.go. Policy/Names:
--     name prefixes, of policy/source.go and policy/build.go. Policy/Method: buildOperation and
--     andPolicy. Policy/Build: Build, with its loops as functions on what they have collected.
--   Policy/Format: the canonical form and the text of policies, of policy/manifest.go and policy/spec.go.
--     Policy/Manifest: policy/manifest.go.
--   Authz/Decide: authz/decider.go. The evaluation of a policy (decide_by) is a function of the
--     answer to each requirement, which decide_policy gets from the registry.
--   Authz/Calls and Authz/Interceptor: authz/interceptor.go. A call returns its events, the calls of
--     OnDecision and of the handler, with its result. Authz/Middleware: authz/http.go.
--   Scope/Token and Scope/Kind: policy/scope/scope.go. Scope/Resource: policy/scope/resource.go.
--   Chain: interceptor/chain.go, over the types of the two sorts of interceptors.
--   RateLimit: ratelimit/ratelimit.go, a limiter as a record, and each call at a time.
--   Http: what is read of net/http requests and of metadata. Authn/Credentials: authn/authn.go.
--     Authn/Authenticate and Authn/Interceptor: authn/interceptor.go; the handler's run is the value of
--     Authz/Calls, so that an interceptor of authz/ can be the handler. Authn/Session, Authn/ApiKey,
--     Authn/Ticket, Authn/Admin: authn/session/, authn/apikey/, authn/ticket/ and authn/admin/.
--     Authn/Jwt: authn/jwt/jwt.go. Framework: interceptor/framework.go.
--   Cors: cors/cors.go. Csrf: csrf/csrf.go. ClientInfo: interceptor/trusted_proxy.go and
--     interceptor/clientinfo.go. Surface and Surface/Path: surface/surface.go.
--   Gateway/Headers and Gateway/Errors: gateway/headers.go and gateway/errors.go. Server/Routes:
--     server/registration.go and what buildHTTP of server/server.go puts in front of a route's handler.
--     Server/Groups: buildGroups of server/server.go. Server/Checks: the checks that its New makes.
--   The modules below these (Laws, Safety, Evaluated, Validated, Inherit, Dedupe, Retry, Stages, Cors/Headers, Enforced, BuiltIn, Steps, Sound,
--     Covers, Counts, Failures, Cookies, Normal, Surface/Build) hold proofs. Tests: concrete values and applications of the theorems.
--
-- Go in the model. A pointer that may be nil is an Option, `(value, error)` a Result, a map an
-- association list whose first entry for a key counts, an enumeration a data type with `other` for
-- the values without a name. An error of fmt.Errorf is its message without the arguments, or a
-- constructor. Slices and maps are values: the copies that Clone makes are equal to what they copy.
--
-- Texts are ASCII where upper and lower case or white space matter, times are numbers of nanoseconds, and
-- the state of a session store is passed on from call to call. Cryptography, net/netip, net/url, the cookie
-- syntax of net/http and the rounding of a float64 are parameters.
--
-- Bounds. The depth of the expansion of presets is the limit maxPresetDepth of the source itself, with the
-- source's error when it is used up. The loop of NormalizePath has as much fuel as its path has characters,
-- since each round removes one; the loop has then ended by its own condition. Every other loop is a
-- recursion on a list or a text.
--
-- Not modelled: the sources of file descriptors and the extraction of an instance's ID (FieldID,
-- QueryID, PathID), which read protobuf and HTTP library types and are parameters; log lines;
-- concurrency, since a table is read only after it is built and a call of the limiter is one step under its
-- mutex, at the time that it has read before; the text of
-- messages; the JSON of a manifest; policy/protopolicy/; the parsing and the keys of JWTs; the
-- interceptors for request IDs, recovery and validation; the rest of gateway/ and of server/,
-- which put library servers together and run them; guard/, audit/, usage/,
-- openapi/, bridge/, contextx/ but for the record of a client, testkit/, cmd/, and generated code.
pub mod Base
pub mod Status
pub mod Principal
pub mod Policy
pub mod Authz
pub mod Scope
pub mod Chain
pub mod Framework
pub mod RateLimit
pub mod Http
pub mod Authn
pub mod Cors
pub mod Csrf
pub mod ClientInfo
pub mod Surface
pub mod Gateway
pub mod Server
pub mod Tests
