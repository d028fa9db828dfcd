-- ===== src/Authz/Calls.antt =====
-- authz/interceptor.go and authz/decider.go: what the interceptors and the HTTP middleware share,
-- the decider, the resolver of resources, and what a call does besides its result.
use grpcapi.Base.{
  String, Bool, true, false, Option, none, List, [], ◌++◌, if◌then◌else◌, Result, ok, err,
}
use grpcapi.Status.{World, Code, Status, is_ok}
use grpcapi.Principal.{Principal}
use grpcapi.Policy.Spec.{Operation, EvalContext}
use grpcapi.Authz.Decide.{Decision}

pub data StreamMode : Type 0 where
  mode_open mode_per_message mode_other : StreamMode

-- The decision that Go returns beside an error.
abbrev pub zero_decision : Decision
zero_decision = record {
  allow = false;
  code = Code.ok;
  reason = "";
  failed = none;
  obligations = [];
}

-- What an interceptor does that is not its result: a call of OnDecision, and the call of the
-- handler, with the operation when its stream is the wrapped one.
pub data Event : Type 0 where
  observed : Operation → Decision → Event
  served : Option Operation → Event

abbrev pub is_served : Event → Bool
is_served (observed op d) = false
is_served (served guard) = true

abbrev pub status_of : Code → String → Status
status_of c m = record { code = c; message = m }

abbrev pub deny_message : Code → String
deny_message Code.unauthenticated = "unauthenticated"
deny_message Code.internal = "internal server error"
deny_message _ = "permission denied"

module _ (w : World) where
  -- What the interceptors read of a context.Context.
  pub record Context : Type 0 where
    pub ambient : w.Ambient
    pub principal : Option (Principal w)
    pub metadata : List (String × List String)

  pub record AuthzRequest : Type 0 where
    pub eval : EvalContext w
    pub stream : Bool

  abbrev pub Decider : Type 0
  Decider = w.Ambient → AuthzRequest → Result w.Failure Decision

  abbrev pub ResourceResolver : Type 0
  ResourceResolver = w.Ambient → AuthzRequest → Result w.Failure (Option w.Resource)

  pub record InterceptorOptions : Type 0 where
    pub missing_principal_code : Code
    pub denied_code : Code
    pub missing_policy_code : Code
    pub stream_mode : StreamMode
    pub resource_resolver : Option ResourceResolver
    -- OnDecision is set
    pub on_decision : Bool
    pub framework_exempt : Option (String → Bool)

  abbrev pub unauthenticated_error : String → w.Failure
  unauthenticated_error message = w.status_error (status_of Code.unauthenticated message)

  -- What a call does and returns.
  abbrev pub Run : Type 0 → Type 0
  Run A = List Event × Result w.Failure A

  -- The `error` of `status.Error` is nil for the code OK: the call returns the other value then.
  abbrev pub status_result : {A : Type 0} → Status → A → Result w.Failure A
  status_result st a = if is_ok st.code then ok a else err (w.status_error st)

  -- What follows a result, after the same events.
  abbrev pub after : {A B : Type 0} → Run A → (A → Run B) → Run B
  after (events, err e) k = (events, err e)
  after (events, ok a) k = (events ++ (k a).0, (k a).1)
