-- ===== src/Framework.antt =====
-- interceptor/framework.go: every method that a server has registered has a policy. The services of a server,
-- GetServiceInfo, are their names with those of their methods.
use grpcapi.Base.{
  String, ◌≡◌, refl, sym, ◌∙◌, inl, inr, Bool, true, not, ◌&&◌, Option, none, some, List, [], ◌∷◌,
  ◌++◌, arith, if◌then◌else◌, Bool-cases, is_some, or_else, str_append, is_empty, any, any-append,
  any-is_empty, sort_by, any-sort_by,
}
use grpcapi.Status.{World}
use grpcapi.Policy.Names.{default_framework_exempt}
use grpcapi.Policy.OperationSet.{OperationSet, get}

abbrev pub method_name : String → String → String
method_name service name = str_append "/" (str_append service (str_append "/" name))

-- `FrameworkExempt` on a service
abbrev pub exempt_service : String → Bool
exempt_service service = default_framework_exempt (method_name service "")

module _ {w : World} (set : OperationSet w) where
  -- The loop over the methods of a service.
  missing_methods : String → List String → List String
  missing_methods service [] = []
  missing_methods service (name ∷ names) =
      let rest = missing_methods service names in
      if is_some (get set (method_name service name)) then rest else method_name service name ∷ rest

  missing_services : List (String × List String) → List String
  unfolding missing_methods
  missing_services [] = []
  missing_services ((service, names) ∷ services) =
      let rest = missing_services services in
      if exempt_service service then rest else missing_methods service names ++ rest

  -- `AssertAllRegisteredHavePolicy`: the missing methods of its error, none for nil
  unfoldable pub assert_all_registered_have_policy :
      List (String × List String) → Option (List String)
  unfolding missing_services
  assert_all_registered_have_policy services =
      let missing = missing_services services in
      if is_empty missing then none else some (sort_by (λ name. name) missing)

  any-missing_methods :
      (p : String → Bool) (service : String) (names : List String)
      → any p (missing_methods service names)
        ≡ any
            (λ name.
              not (is_some (get set (method_name service name))) && p (method_name service name))
            names
  unfolding missing_methods
  any-missing_methods p service [] = refl
  any-missing_methods p service (name ∷ names) = ground (arith, any-missing_methods p service names)

  -- A registered method is without a policy although its service is not one of the framework's.
  abbrev pub lacks : (String → Bool) → String × List String → Bool
  lacks p (service, names) =
      not (exempt_service service)
      && any
          (λ name.
            not (is_some (get set (method_name service name))) && p (method_name service name))
          names

  any-missing_services :
      (p : String → Bool) (services : List (String × List String))
      → any p (missing_services services) ≡ any (lacks p) services
  unfolding missing_services
  any-missing_services p [] = refl
  any-missing_services p ((service, names) ∷ services) =
      elim (Bool-cases (exempt_service service)) [
        | inl spared ↦ rw spared (any-missing_services p services)
        | inr asked ↦
            rw
              (
                asked,
                any-append p (missing_methods service names) (missing_services services),
                any-missing_methods p service names,
                any-missing_services p services,
              )
              refl
      ]

  any-true : (names : List String) → any (λ name. true) names ≡ not (is_empty names)
  any-true [] = refl
  any-true (name ∷ names) = refl

  -- The assertion passes exactly if there is no registered method without a policy, those of the framework's services
  -- left out, and the methods that it names are exactly these.
  pub assert_all_registered_have_policy_lem :
      (p : String → Bool) (services : List (String × List String))
      → (is_some (assert_all_registered_have_policy services) ≡ any (lacks (λ name. true)) services)
        × (any p (or_else (assert_all_registered_have_policy services) []) ≡ any (lacks p) services)
  unfolding assert_all_registered_have_policy
  assert_all_registered_have_policy_lem p services =
      let present =
        sym (any-true (missing_services services)) ∙ any-missing_services (λ name. true) services in
      elim (Bool-cases (is_empty (missing_services services))) [
        | inl nothing ↦ (
          rw nothing (rw nothing at present),
          rw nothing (
              sym (any-is_empty p (missing_services services) nothing)
              ∙ any-missing_services p services),
        )
        | inr found ↦ (
          rw found (rw found at present),
          rw found (
              any-sort_by (λ name. name) p (missing_services services)
              ∙ any-missing_services p services),
        )
      ]
