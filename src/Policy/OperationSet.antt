-- ===== src/Policy/OperationSet.antt =====
-- policy/set.go: the immutable table of operations.
pub mod Laws
use grpcapi.Base.{
  ℕ, String, Bool, false, not, Option, none, some, List, [], ◌∷◌, ◌==◌, if◌then◌else◌, is_some,
  length, is_empty, lookup, insert, Result, ◌>>=◌, sort_by, ok, err,
}
use grpcapi.Status.{World}
use grpcapi.Policy.Spec.{Operation}
use grpcapi.Policy.Vocabulary.{Vocabulary}
use grpcapi.Policy.Registry.{Registry}
use grpcapi.Policy.Kinds.{default_registry}
use grpcapi.Policy.Validate.{Violation, validate_policy}

pub record OperationSet (w : World) : Type 0 where
  pub ops : List (String × Operation)
  pub registry : Registry w
  pub vocab : Vocabulary

pub data SetError (w : World) : Type 0 where
  invalid_policy : String → List (Violation w) → SetError w
  empty_id : SetError w
  duplicate_operation : String → SetError w

abbrev pub values : List (String × Operation) → List Operation
values [] = []
values ((id, op) ∷ m) = op ∷ values m

unfoldable pub filter_ops : String → List (String × Operation) → List (String × Operation)
filter_ops api [] = []
filter_ops api ((id, op) ∷ m) =
    let rest = filter_ops api m in if op.api == api then (id, op) ∷ rest else rest

module _ {w : World} where
  add_all :
      List (String × Operation) → List Operation → Result (SetError w) (List (String × Operation))
  add_all m [] = ok m
  add_all m (op ∷ ops) =
      let rest = add_all (insert op.id op m) ops in
      if op.id == ""
      then err empty_id
      else if is_some (lookup op.id m)
      then err (duplicate_operation op.id)
      else rest

  abbrev set_of :
      Registry w → Vocabulary → List (String × Operation) → Result (SetError w) (OperationSet w)
  set_of reg vocab m = ok (record { ops = m; registry = reg; vocab = vocab })

  -- `newSet`, whose callers have replaced a nil registry by the default one.
  unfoldable pub new_set :
      Registry w → Vocabulary → List Operation → Result (SetError w) (OperationSet w)
  unfolding add_all
  new_set reg vocab ops = add_all [] ops >>= set_of reg vocab

  validate_all : Registry w → Vocabulary → List Operation → Result (SetError w) (Unit {0})
  validate_all reg vocab [] = ok tt
  validate_all reg vocab (op ∷ ops) =
      let rest = validate_all reg vocab ops in
      let found = validate_policy op.policy reg vocab in
      if is_empty found then rest else err (invalid_policy op.id found)

  unfoldable pub new_set_with_vocabulary :
      Registry w → Vocabulary → List Operation → Result (SetError w) (OperationSet w)
  unfolding validate_all new_set
  new_set_with_vocabulary reg vocab ops = do
    valid ← validate_all reg vocab ops
    new_set reg vocab ops

  unfoldable pub get : OperationSet w → String → Option Operation
  get s id = lookup id s.ops

  unfoldable pub is_anonymous : OperationSet w → String → Bool
  unfolding get
  is_anonymous s id = elim (get s id) [ none ↦ false | some op ↦ op.policy.anonymous ]

  -- The map's order is arbitrary, the result's is that of the IDs.
  unfoldable pub operations : OperationSet w → List Operation
  operations s = sort_by (λ (op : Operation). op.id) (values s.ops)

  unfoldable pub filter_api : OperationSet w → String → OperationSet w
  unfolding filter_ops
  filter_api s api = record s { ops = filter_ops api s.ops }

  merge_all :
      Registry w
      → Vocabulary
      → List (String × Operation)
      → List Operation
      → Result (SetError w) (List (String × Operation))
  merge_all reg vocab m [] = ok m
  merge_all reg vocab m (op ∷ ops) =
      let rest = merge_all reg vocab (insert op.id op m) ops in
      let found = validate_policy op.policy reg vocab in
      if not (is_empty found)
      then err (invalid_policy op.id found)
      else if op.id == ""
      then err empty_id
      else if is_some (lookup op.id m)
      then err (duplicate_operation op.id)
      else rest

  unfoldable pub with_operations :
      OperationSet w → List Operation → Result (SetError w) (OperationSet w)
  unfolding merge_all
  with_operations s ops = merge_all s.registry s.vocab s.ops ops >>= set_of s.registry s.vocab

  unfoldable pub len : OperationSet w → ℕ
  len s = length s.ops

module _ (w : World) where
  -- `NewSet`
  unfoldable pub default_set : List Operation → Result (SetError w) (OperationSet w)
  unfolding new_set_with_vocabulary
  default_set ops = new_set_with_vocabulary (default_registry w) [] ops
