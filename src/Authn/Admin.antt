-- ===== src/Authn/Admin.antt =====
-- authn/admin/admin.go: the roles of an administrator, from a store of their own. Go reads the record's
-- attributes in any order; a map has one entry for a key.
use grpcapi.Base.{
  String, ◌≡◌, refl, Bool, true, false, ◌&&◌, ◌||◌, Option, none, some, List, [], ◌∷◌, arith, ◌==◌,
  eq_iff, eq_refl, if◌then◌else◌, is_some, is_empty, lookup, insert, remove, lookup-insert,
  lookup-remove, Result, ok, err,
}
use grpcapi.Status.{World, unavailable}
use grpcapi.Principal.{Principal}
use grpcapi.Authz.Calls.{status_of}

pub record Admin : Type 0 where
  pub roles : List String
  pub suspended : Bool
  pub attrs : List (String × String)

-- The loop over the record's attributes.
unfoldable pub fill : List (String × String) → List (String × String) → List (String × String)
fill attrs [] = attrs
fill attrs ((k, v) ∷ rest) =
    if is_some (lookup k attrs) then fill attrs rest else fill (insert k v attrs) rest

fill_lem :
    (k : String) (attrs extra : List (String × String))
    → lookup k (fill attrs extra)
      ≡ (if is_some (lookup k attrs) then lookup k attrs else lookup k extra)
unfolding fill
fill_lem k attrs [] = ground arith
fill_lem k attrs ((j, v) ∷ rest) = ground (
  arith,
  eq_iff j k,
  lookup-insert j k v attrs,
  fill_lem k attrs rest,
  fill_lem k (insert j v attrs) rest,
)

module _ (w : World) where
  -- `not_found` is errors.Is of ErrNotFound.
  pub record Enricher : Type 0 where
    pub find : w.Ambient → String → Result w.Failure (Option Admin)
    pub not_found : w.Failure → Bool
    pub claim : String
    pub suspended_claim : String

  -- `New` refuses a nil store.
  unfoldable pub new_enricher :
      Option (w.Ambient → String → Result w.Failure (Option Admin))
      → (w.Failure → Bool)
      → String
      → String
      → Result w.Failure Enricher
  new_enricher none not_found claim suspended_claim = err (w.plain "admin: Store is nil")
  new_enricher (some find) not_found claim suspended_claim = ok (record {
    find = find;
    not_found = not_found;
    claim = if claim == "" then "admin_roles" else claim;
    suspended_claim = if suspended_claim == "" then "admin_suspended" else suspended_claim;
  })

  unfoldable pub admin_claims :
      Enricher → Admin → List (String × List String) → List (String × List String)
  admin_claims e info claims =
      if info.suspended
      then insert e.suspended_claim ("true" ∷ []) (remove e.claim claims)
      else if is_empty info.roles
      then remove e.claim claims
      else insert e.claim info.roles claims

  unfoldable pub enrich : Enricher → w.Ambient → Principal w → Result w.Failure (Principal w)
  unfolding admin_claims fill
  enrich e ctx p = elim (e.find ctx p.id) [
    | err failure ↦
        if e.not_found failure
        then ok p
        else err (w.status_error (status_of unavailable "admin store unavailable"))
    | ok none ↦ ok p
    | ok (some info) ↦
        ok (record p { claims = admin_claims e info p.claims; attrs = fill p.attrs info.attrs })
  ]

  lookup-admin_claims :
      (e : Enricher) (info : Admin) (claims : List (String × List String)) (name : String)
      → lookup name (admin_claims e info claims) ≡ (
          if info.suspended && e.suspended_claim == name
          then some ("true" ∷ [])
          else if e.claim == name
          then (if info.suspended || is_empty info.roles then none else some info.roles)
          else lookup name claims)
  unfolding admin_claims
  lookup-admin_claims e info claims name = ground (
    arith,
    lookup-insert e.suspended_claim name ("true" ∷ []) (remove e.claim claims),
    lookup-remove e.claim name claims,
    lookup-insert e.claim name info.roles claims,
  )

  -- What the record of an administrator makes of a principal.
  pub record IsAdministered (e : Enricher) (info : Admin) (p q : Principal w) : Type 0 where
    pub same_id : q.id ≡ p.id
    pub roles :
        lookup e.claim q.claims
        ≡ (if info.suspended || is_empty info.roles then none else some info.roles)
    pub suspended : info.suspended ≡ true → lookup e.suspended_claim q.claims ≡ some ("true" ∷ [])
    pub others :
        (name : String)
        → (e.claim == name) ≡ false
        → (e.suspended_claim == name) ≡ false
        → lookup name q.claims ≡ lookup name p.claims
    pub attrs :
        (name : String)
        → lookup name q.attrs
          ≡ (if is_some (lookup name p.attrs) then lookup name p.attrs else lookup name info.attrs)

  -- When the store has a record, `Enrich` succeeds and the record alone decides the admin roles: those of the
  -- principal's credentials are replaced, or removed when the record has none or is suspended, and then a
  -- suspended one is marked. All other claims, and the attributes that the principal had, are left as they
  -- are. The two claims have different names.
  pub enrich-IsAdministered :
      (e : Enricher) (ctx : w.Ambient) (p : Principal w) (info : Admin)
      → (e.claim == e.suspended_claim) ≡ false
      → e.find ctx p.id ≡ ok (some info)
      → (q : Principal w) × (enrich e ctx p ≡ ok q) × IsAdministered e info p q
  unfolding enrich
  enrich-IsAdministered e ctx p info distinct found = (
    record p { claims = admin_claims e info p.claims; attrs = fill p.attrs info.attrs },
    rw (enrich, found) refl,
    record {
      same_id = refl;
      roles = rw (lookup-admin_claims e info p.claims e.claim) (
          ground (
            arith,
            eq_refl e.claim,
            eq_iff e.claim e.suspended_claim,
            eq_iff e.suspended_claim e.claim,
            distinct,
          ));
      suspended = λ s.
          rw (lookup-admin_claims e info p.claims e.suspended_claim)
            (ground (arith, s, eq_refl e.suspended_claim));
      others = λ name a b. rw (lookup-admin_claims e info p.claims name) (ground (arith, a, b));
      attrs = λ name. fill_lem name p.attrs info.attrs;
    },
  )
