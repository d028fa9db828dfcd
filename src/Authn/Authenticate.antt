-- ===== src/Authn/Authenticate.antt =====
-- authn/authn.go and authn/interceptor.go: the chain of authenticators and what the interceptor makes of
-- its answer. An enricher changes the principal in place: it returns the changed one. The log lines are
-- left out; what OnFailure is called with is returned beside the result.
pub mod Laws
pub mod Failures
use grpcapi.Base.{
  String, Bool, true, false, not, ◌&&◌, ◌||◌, Option, none, some, List, [], ◌∷◌, ltb, if◌then◌else◌,
  or_else, length, is_empty, all, Result, ok, err,
}
use grpcapi.Status.{World, Code, Status, unknown, unauthenticated}
use grpcapi.Principal.{Principal}
use grpcapi.Http.{Header, Peer}
use grpcapi.Authz.Calls.{unauthenticated_error, status_of, status_result}
use grpcapi.Authn.Credentials.{
  CredentialKind, Credentials, empty, presented_kinds, auth_kinds, default_extract,
}

pub data MultipleCredentialPolicy : Type 0 where
  reject_multiple first_wins multiple_other : MultipleCredentialPolicy

pub data InvalidCredentialPolicy : Type 0 where
  reject_invalid ignore_on_anonymous invalid_other : InvalidCredentialPolicy

abbrev pub rejects_multiple : MultipleCredentialPolicy → Bool
rejects_multiple reject_multiple = true
rejects_multiple _ = false

abbrev pub ignores_invalid : InvalidCredentialPolicy → Bool
ignores_invalid ignore_on_anonymous = true
ignores_invalid _ = false

abbrev is_unauthenticated : Code → Bool
is_unauthenticated Code.unauthenticated = true
is_unauthenticated _ = false

-- Two values of a kind that is presented once.
abbrev pub has_duplicates : Credentials → Bool
has_duplicates c = ltb 1 (length c.bearers) || ltb 1 (length c.api_keys) || ltb 1 (length c.tickets)

module _ (w : World) where
  abbrev pub Authenticator : Type 0
  Authenticator = w.Ambient → Credentials → Result w.Failure (Option (Principal w))

  abbrev pub Enricher : Type 0
  Enricher = w.Ambient → Principal w → Result w.Failure (Principal w)

  abbrev pub Extractor : Type 0
  Extractor = w.Ambient → String → Header → Option Peer → Result w.Failure Credentials

  -- A nil authenticator or enricher of a list is none.
  pub record Options : Type 0 where
    pub multiple_credential_policy : MultipleCredentialPolicy
    pub invalid_credential_policy : InvalidCredentialPolicy
    pub invalid_credential_by_kind : CredentialKind → Option InvalidCredentialPolicy
    pub is_anonymous : Option (String → Bool)
    pub extractor : Option Extractor
    pub enrichers : List (Option Enricher)
    -- OnFailure is set
    pub on_failure : Bool

  pub record Interceptor : Type 0 where
    pub chain : List (Option Authenticator)
    pub opts : Options

  abbrev pub default_extractor : Extractor
  default_extractor ctx full_method md p = ok (default_extract full_method md p)

  unfoldable pub normalize : Options → Options
  normalize o = record o { extractor = some (or_else o.extractor default_extractor) }

  unfoldable pub new_interceptor : List (Option Authenticator) → Options → Interceptor
  unfolding normalize
  new_interceptor chain opts = record { chain = chain; opts = normalize opts }

  -- `Chain.Authenticate`
  unfoldable pub run_chain : List (Option Authenticator) → Authenticator
  run_chain [] ctx c = ok none
  run_chain (none ∷ rest) ctx c = run_chain rest ctx c
  run_chain (some a ∷ rest) ctx c = elim (a ctx c) [
    | err e ↦ err e
    | ok (some p) ↦ ok (some p)
    | ok none ↦ run_chain rest ctx c
  ]

  -- The loop over the enrichers.
  unfoldable pub enrich : List (Option Enricher) → Enricher
  enrich [] ctx p = ok p
  enrich (none ∷ es) ctx p = enrich es ctx p
  enrich (some e ∷ es) ctx p = elim (e ctx p) [ err failure ↦ err failure | ok q ↦ enrich es ctx q ]

  unfoldable pub kind_policy : Options → CredentialKind → InvalidCredentialPolicy
  kind_policy o kind = or_else (o.invalid_credential_by_kind kind) o.invalid_credential_policy

  -- `status.Code(err)`
  abbrev pub code_of : w.Failure → Code
  code_of e = elim (w.from_error e) [ some st ↦ st.code | none ↦ unknown ]

  unfoldable pub ignore_invalid : Options → Credentials → Bool → w.Failure → Bool
  unfolding kind_policy
  ignore_invalid o creds anonymous e =
      if not (is_unauthenticated (code_of e))
      then false
      else (let kinds = presented_kinds creds in
          if is_empty kinds
          then false
          else if all (λ kind. ignores_invalid (kind_policy o kind)) kinds
          then anonymous
          else false)

  -- What OnFailure is called with, and the result.
  abbrev pub Outcome : Type 0 → Type 0
  Outcome A = List w.Failure × Result w.Failure A

  unfoldable pub fail : Options → w.Failure → List w.Failure
  fail o e = if o.on_failure then e ∷ [] else []

  -- `st.Err()` is nil for the code OK.
  unfoldable pub normalize_auth_error : {A : Type 0} → w.Failure → A → Result w.Failure A
  normalize_auth_error e nothing = elim (w.from_error e) [
    | some st ↦ status_result w st nothing
    | none ↦ err (w.status_error (status_of unauthenticated "invalid credentials"))
  ]

  abbrev pub refused : {A : Type 0} → Options → String → Outcome A
  refused o message =
      (fail o (unauthenticated_error w message), err (unauthenticated_error w message))

  -- The end of `authenticate`, on the answer of the chain.
  unfoldable pub finish :
      Options
      → w.Ambient
      → Bool
      → Credentials
      → Result w.Failure (Option (Principal w))
      → Outcome (Option (Principal w))
  unfolding fail ignore_invalid normalize_auth_error enrich
  finish o ctx anonymous creds (err e) =
      if ignore_invalid o creds anonymous e
      then ([], ok none)
      else (fail o e, normalize_auth_error e none)
  finish o ctx anonymous creds (ok none) = refused o "unrecognized credentials"
  finish o ctx anonymous creds (ok (some p)) = elim (enrich o.enrichers ctx p) [
    | err e ↦ (fail o e, normalize_auth_error e none)
    | ok q ↦ ([], ok (some q))
  ]

  unfoldable pub authenticate :
      Interceptor → w.Ambient → Bool → Credentials → Outcome (Option (Principal w))
  unfolding finish run_chain empty auth_kinds fail
  authenticate i ctx anonymous creds =
      if empty creds
      then ([], ok none)
      else if has_duplicates creds
      then refused i.opts "multiple credentials of the same type are not allowed"
      else if rejects_multiple i.opts.multiple_credential_policy && ltb 1 (auth_kinds creds)
      then refused i.opts "multiple credential types are not allowed"
      else finish i.opts ctx anonymous creds (run_chain i.chain ctx creds)
