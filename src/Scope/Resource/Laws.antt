-- ===== src/Scope/Resource/Laws.antt =====
-- policy/scope/resource.go: which tokens let a principal address an instance.
use grpcapi.Base.{
  String, ◌≡◌, refl, ◌∙◌, inl, inr, Bool, true, false, ◌&&◌, ◌||◌, Option, none, some, List, [],
  ◌∷◌, ◌++◌, arith, ◌==◌, if◌then◌else◌, any, any-append,
}
use grpcapi.Scope.Token.Laws.{is_op-cases, print, split_token-print, is_op-clear}
use grpcapi.Scope.Token.{cut_last, has_code, is_op, is_wildcard, split_token}
use grpcapi.Scope.Resource.{direction, token_grants, grants_instance_for}

-- What one token of the set contributes.
abbrev grants_one : String → String → String → Bool → String → Bool
grants_one resource target op allow token =
    if is_wildcard token then allow else token_grants (split_token token) resource target op

-- One round of the loop, over the tests that it makes.
loop_round :
    (wild allow held rest rest' : Bool)
    → rest ≡ rest'
    → (if wild then (if allow then true else rest) else if held then true else rest)
      ≡ ((if wild then allow else held) || rest')
loop_round wild allow held rest rest' e = ground arith

grants_instance_for-any :
    (set : List String) (resource target op : String) (allow : Bool)
    → grants_instance_for set resource target op allow
      ≡ any (grants_one resource target op allow) set
unfolding grants_instance_for
grants_instance_for-any [] resource target op allow = refl
grants_instance_for-any (token ∷ set) resource target op allow =
    loop_round (is_wildcard token) allow (token_grants (split_token token) resource target op) _ _
      (grants_instance_for-any set resource target op allow)

-- A set grants what one of its parts grants, in whatever order its tokens stand: a further token
-- never takes an instance away.
pub grants_instance_for-append :
    (xs ys : List String) (resource target op : String) (allow : Bool)
    → grants_instance_for (xs ++ ys) resource target op allow ≡ (
        grants_instance_for xs resource target op allow
        || grants_instance_for ys resource target op allow)
grants_instance_for-append xs ys resource target op allow =
    rw
      (
        grants_instance_for-any xs resource target op allow,
        grants_instance_for-any ys resource target op allow,
        grants_instance_for-any (xs ++ ys) resource target op allow,
      )
      (any-append (grants_one resource target op allow) xs ys)

-- The word of a direction is not the star.
is_op-ne-star : (d : String) → is_op d ≡ true → (d == "*") ≡ false
is_op-ne-star d known = elim (is_op-cases d known) [
  | inl e ↦ rw e refl
  | inr (inl e) ↦ rw e refl
  | inr (inr e) ↦ rw e refl
]

module _ (res seg resource target op : String) (allow : Bool)
    (clear : has_code b':' seg ≡ false) where
  grants_print :
      grants_instance_for (print res seg ∷ []) resource target op allow
      ≡ token_grants (res, seg, true) resource target op
  unfolding grants_instance_for
  grants_print =
      let (split, plain) = split_token-print res seg clear in rw (plain, split) (ground arith)

token_grants-op :
    (res d resource target op : String)
    → is_op d ≡ true
    → token_grants (res, d, true) resource target op ≡ false
unfolding token_grants
token_grants-op res d resource target op known =
    let not_star : (d == "*") ≡ false = is_op-ne-star d known in ground (arith, known, not_star)

-- A token of an operation, such as `databases:read`, lets no instance be addressed, whatever the
-- direction that is asked for.
pub grants_op_token :
    (res d resource target op : String) (allow : Bool)
    → is_op d ≡ true
    → grants_instance_for (print res d ∷ []) resource target op allow ≡ false
grants_op_token res d resource target op allow known =
    grants_print res d resource target op allow (is_op-clear d known).0
    ∙ token_grants-op res d resource target op known

-- A text that names an instance: no colon, no direction by itself, no star, and not cut at its last
-- dot into an instance and a direction.
abbrev pub NoDirection : Option (String × String) → Type 0
NoDirection none = Unit {0}
NoDirection (some (inst, suffix)) = is_op suffix ≡ false

direction-plain :
    (cut : Option (String × String)) (seg target op : String)
    → NoDirection cut
    → direction cut seg target op ≡ (seg == target)
unfolding direction
direction-plain none seg target op h = refl
direction-plain (some (inst, suffix)) seg target op h = rw h refl

token_grants-instance :
    (res seg resource target op : String)
    → (seg == "*") ≡ false
    → is_op seg ≡ false
    → NoDirection (cut_last b'.' seg)
    → token_grants (res, seg, true) resource target op ≡ (res == resource && seg == target)
unfolding token_grants
token_grants-instance res seg resource target op star known plain =
    rw (direction-plain (cut_last b'.' seg) seg target op plain) (rw (star, known) (ground arith))

-- A token of an instance without a direction, such as `databases:blog`, lets exactly that instance
-- of that resource be addressed, in every direction.
pub grants_instance_token :
    (res seg resource target op : String) (allow : Bool)
    → has_code b':' seg ≡ false
    → (seg == "*") ≡ false
    → is_op seg ≡ false
    → NoDirection (cut_last b'.' seg)
    → grants_instance_for (print res seg ∷ []) resource target op allow
      ≡ (res == resource && seg == target)
grants_instance_token res seg resource target op allow clear star known plain =
    grants_print res seg resource target op allow clear
    ∙ token_grants-instance res seg resource target op star known plain

token_grants-direction :
    (res seg inst d resource target op : String)
    → (seg == "*") ≡ false
    → is_op seg ≡ false
    → cut_last b'.' seg ≡ some (inst, d)
    → is_op d ≡ true
    → (op == "") ≡ false
    → token_grants (res, seg, true) resource target op
      ≡ (res == resource && (inst == target && d == op))
unfolding token_grants
token_grants-direction res seg inst d resource target op star plain cut known asked =
    rw (star, plain, asked) (rw (cut, direction) (rw known (ground arith)))
