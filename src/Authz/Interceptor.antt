-- ===== src/Authz/Interceptor.antt =====
-- authz/interceptor.go: the unary and the stream interceptor, over any decider. The log lines are
-- left out.
pub mod Laws
pub mod Enforced
pub mod BuiltIn
use grpcapi.Base.{
  code, String, Bool, true, false, not, ◌&&◌, Option, none, some, [], ◌∷◌, if◌then◌else◌, is_some,
  or_else, Result, ok, err,
}
use grpcapi.Status.{
  World, Code, Status, is_ok, code_or, internal, permission_denied, unauthenticated,
}
use grpcapi.Principal.{Principal}
use grpcapi.Policy.Spec.{Operation, EvalContext, StreamAuthMode}
use grpcapi.Policy.Names.{default_framework_exempt}
use grpcapi.Policy.OperationSet.{OperationSet, get}
use grpcapi.Authz.Calls.{
  StreamMode, mode_open, mode_per_message, mode_other, zero_decision, Event, observed, served,
  is_served, status_of, deny_message, Context, AuthzRequest, Decider, ResourceResolver,
  InterceptorOptions, Run, status_result, after,
}
use grpcapi.Authz.Decide.{Decision, decide_policy, new_requirement_decider}

unfoldable pub stream_mode : Operation → StreamMode → Option StreamMode
stream_mode op def = elim op.stream_auth [
  | StreamAuthMode.per_message ↦ some mode_per_message
  | StreamAuthMode.on_open ↦ some mode_open
  | StreamAuthMode.unset ↦ elim def [
    | mode_open ↦ some mode_open
    | mode_per_message ↦ some mode_per_message
    | mode_other ↦ none
  ]
  | StreamAuthMode.other n ↦ none
]

module _ (w : World) where
  pub record Interceptor : Type 0 where
    pub set : OperationSet w
    pub decider : Decider w
    pub opts : InterceptorOptions w

  unfoldable pub normalize : InterceptorOptions w → InterceptorOptions w
  normalize o = record o {
    missing_principal_code = code_or o.missing_principal_code unauthenticated;
    denied_code = code_or o.denied_code permission_denied;
    missing_policy_code = code_or o.missing_policy_code internal;
    framework_exempt = some (or_else o.framework_exempt default_framework_exempt);
  }

  -- RequirementDecider.Decide
  unfoldable pub requirement_decider : OperationSet w → Decider w
  requirement_decider set ctx req = elim (decide_policy ctx req.eval set.registry) [
    | ok d ↦ ok d
    | err st ↦ err (w.status_error st)
  ]

  unfoldable pub new_interceptor :
      Option (OperationSet w)
      → Option (Decider w)
      → InterceptorOptions w
      → Result w.Failure Interceptor
  unfolding requirement_decider normalize
  new_interceptor none decider opts =
      err (w.status_error (status_of internal "authz: policy.Set is nil"))
  new_interceptor (some set) (some decider) opts =
      ok (record { set = set; decider = decider; opts = normalize opts })
  new_interceptor (some set) none opts = elim (new_requirement_decider set) [
    | err m ↦ err (w.plain m)
    | ok reg ↦ ok (record { set = set; decider = requirement_decider set; opts = normalize opts })
  ]

  unfoldable pub resolve :
      Interceptor → Context w → AuthzRequest w → Result w.Failure (AuthzRequest w)
  resolve i ctx req = elim i.opts.resource_resolver [
    | none ↦ ok req
    | some resolver ↦ elim (resolver ctx.ambient req) [
      | err e ↦ err (w.status_error (status_of internal "authorization resource resolution failed"))
      | ok resource ↦
          ok (record { eval = record (req.eval) { resource = resource }; stream = req.stream })
    ]
  ]

  -- The error of `Decide`, which may carry a status, even of the code OK.
  unfoldable pub decider_error : w.Failure → Run w Decision
  decider_error e = elim (w.from_error e) [
    | some st ↦ ([], status_result w st zero_decision)
    | none ↦ ([], err (w.status_error (status_of internal "authorization decision failed")))
  ]

  unfoldable pub decide : Interceptor → Context w → AuthzRequest w → Run w Decision
  unfolding decider_error
  decide i ctx req = elim (i.decider ctx.ambient req) [
    | err e ↦ decider_error e
    | ok d ↦ (if i.opts.on_decision then observed req.eval.operation d ∷ [] else [], ok d)
  ]

  abbrev pub request_of : Context w → Operation → Option w.Request → Bool → AuthzRequest w
  request_of ctx op req stream = record {
    eval = record {
      operation = op;
      principal = ctx.principal;
      request = req;
      metadata = ctx.metadata;
      resource = none;
    };
    stream = stream;
  }

  unfoldable pub authorize :
      Interceptor → Context w → Operation → Option w.Request → Bool → Run w Decision
  unfolding resolve decide
  authorize i ctx op req stream =
      after w ([], resolve i ctx (request_of ctx op req stream)) (decide i ctx)

  unfoldable pub deny_code : Interceptor → Context w → Operation → Decision → Code
  deny_code i ctx op d = code_or d.code (
      if not (is_some ctx.principal) && not op.policy.anonymous
      then i.opts.missing_principal_code
      else i.opts.denied_code)

  unfoldable pub deny_status : Interceptor → Context w → Operation → Decision → Status
  unfolding deny_code
  deny_status i ctx op d = let code = deny_code i ctx op d in status_of code (deny_message code)

  -- The end of a handler: the call goes on only when the decision allows it.
  unfoldable pub enforce :
      {A : Type 0} → Interceptor → Context w → Operation → A → Run w A → Decision → Run w A
  unfolding deny_status
  enforce i ctx op nothing next d =
      if d.allow then next else ([], status_result w (deny_status i ctx op d) nothing)

  unfoldable pub missing_policy : {A : Type 0} → Interceptor → String → A → Run w A → Run w A
  missing_policy i full_method nothing next =
      if or_else i.opts.framework_exempt default_framework_exempt full_method then next else (
        [],
        status_result w (status_of i.opts.missing_policy_code "no authorization policy for method")
            nothing,
      )

  -- `Unary`, over the reply of the handler, whose `nil` is `none`.
  unfoldable pub unary :
      {Reply : Type 0}
      → Interceptor
      → Context w
      → w.Request
      → String
      → (Context w → w.Request → Result w.Failure (Option Reply))
      → Run w (Option Reply)
  unfolding authorize enforce missing_policy
  unary {Reply = Reply} i ctx req full_method handler =
      let next : Run w (Option Reply) = (served none ∷ [], handler ctx req) in
      elim (get i.set full_method) [
        | none ↦ missing_policy i full_method none next
        | some op ↦ after w (authorize i ctx op (some req) false) (enforce i ctx op none next)
      ]

  -- `Stream`, whose handler is given the wrapped stream of an operation or the plain one.
  unfoldable pub stream :
      Interceptor
      → Context w
      → String
      → (Option Operation → Result w.Failure (Unit {0}))
      → Run w (Unit {0})
  unfolding authorize enforce missing_policy stream_mode
  stream i ctx full_method handler =
      let next : Run w (Unit {0}) = (served none ∷ [], handler none) in
      elim (get i.set full_method) [
        | none ↦ missing_policy i full_method tt next
        | some op ↦ elim (stream_mode op i.opts.stream_mode) [
          | none ↦
              ([], err (w.status_error (status_of internal "invalid stream authorization mode")))
          | some mode_per_message ↦ (served (some op) ∷ [], handler (some op))
          | some _ ↦ after w (authorize i ctx op none true) (enforce i ctx op tt next)
        ]
      ]

  -- `authzStream.RecvMsg`: the message that the handler may read, with a nil error.
  unfoldable pub recv_msg :
      Interceptor → Context w → Operation → Result w.Failure w.Request → Run w w.Request
  unfolding authorize enforce
  recv_msg i ctx op (err e) = ([], err e)
  recv_msg i ctx op (ok m) =
      after w (authorize i ctx op (some m) true) (enforce i ctx op m ([], ok m))
