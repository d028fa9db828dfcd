-- ===== src/Policy/OperationSet/Laws.antt =====
-- policy/set.go: what a table of operations holds.
use grpcapi.Base.{
  String, ◌≡◌, refl, ◌∙◌, ◌↔◌, inl, inr, true, false, Option, none, some, List, [], ◌∷◌, arith,
  ◌==◌, eq_iff, if◌then◌else◌, Bool-cases, Option-cases, is_empty, All, lookup, insert,
  lookup-insert, bind-eq-ok, ok,
}
use grpcapi.Policy.OperationSet.{
  validate_policy, with_operations, validate_all, merge_all, get, OperationSet, new_set, Vocabulary,
  Registry, values, add_all,
}
use grpcapi.Status.{World}
use grpcapi.Policy.Spec.{Operation}

-- The operation with an ID, in a list.
abbrev pub find_id : String → List Operation → Option Operation
find_id id [] = none
find_id id (op ∷ ops) = if op.id == id then some op else find_id id ops

-- The ID of each operation is not empty, and no earlier operation of the list or of the map has it.
abbrev pub HasFreshIds : List (String × Operation) → List Operation → Type 0
HasFreshIds m [] = Unit
HasFreshIds m (op ∷ ops) =
    ((op.id == "") ≡ false) × (lookup op.id m ≡ none) × HasFreshIds (insert op.id op m) ops

abbrev pub first : Option Operation → Option Operation → Option Operation
first none o = o
first (some op) o = some op

-- Every operation of the list is stored under its ID, and nothing else is added.
find_insert :
    (m : List (String × Operation)) (op : Operation) (ops : List Operation) (id : String)
    → lookup op.id m ≡ none
    → first (lookup id (insert op.id op m)) (find_id id ops)
      ≡ first (lookup id m) (find_id id (op ∷ ops))
find_insert m op ops id fresh = rw (lookup-insert op.id id op m) (elim (Bool-cases (op.id == id)) [
  | inl same ↦
      let e : lookup id m ≡ none = rw (← (eq_iff op.id id).0 same) fresh in rw (same, e) refl
  | inr other ↦ rw other refl
])

-- What holds of every operation of the map and of the list holds of every one that is stored.
All-insert :
    (P : Operation → Type 0) (m : List (String × Operation)) (k : String) (op : Operation)
    → All P (values m)
    → P op
    → All P (values (insert k op m))
All-insert P [] k op h p = (p, tt)
All-insert P ((j, old) ∷ m) k op (q, h) p = elim (Bool-cases (j == k)) [
  | inl same ↦ rw same (p, h)
  | inr other ↦ rw other (q, All-insert P m k op h p)
]

module _ {w : World} where
  add_all-ok :
      (m : List (String × Operation)) (ops : List Operation) (m' : List (String × Operation))
      → add_all {w = w} m ops ≡ ok m'
      → HasFreshIds m ops × ((id : String) → lookup id m' ≡ first (lookup id m) (find_id id ops))
  unfolding add_all
  add_all-ok m [] m' h = (tt, λ id. ground arith)
  add_all-ok m (op ∷ ops) m' h = elim (Bool-cases (op.id == "")) [
    | inl blank ↦ ground arith
    | inr named ↦ elim (Option-cases (lookup op.id m)) [
      | inr (old, dup) ↦ ground arith
      | inl fresh ↦
          let (ids, found) = add_all-ok (insert op.id op m) ops m' (rw (named, fresh) at h) in
          ((named, fresh, ids), λ id. found id ∙ find_insert m op ops id fresh)
    ]
  ]

  add_all-fresh :
      (m : List (String × Operation)) (ops : List Operation)
      → HasFreshIds m ops
      → (m' : List (String × Operation)) × (add_all {w = w} m ops ≡ ok m')
  unfolding add_all
  add_all-fresh m [] h = (m, refl)
  add_all-fresh m (op ∷ ops) (named, fresh, h) =
      let (m', e) = add_all-fresh (insert op.id op m) ops h in (m', rw (named, fresh) e)

  add_all-All :
      (P : Operation → Type 0) (m : List (String × Operation)) (ops : List Operation)
      (m' : List (String × Operation))
      → add_all {w = w} m ops ≡ ok m'
      → All P (values m)
      → All P ops
      → All P (values m')
  unfolding add_all
  add_all-All P m [] m' h pm po = let e : m ≡ m' = ground arith in rw (← e) pm
  add_all-All P m (op ∷ ops) m' h pm (p, po) = elim (Bool-cases (op.id == "")) [
    | inl blank ↦ ground arith
    | inr named ↦ elim (Option-cases (lookup op.id m)) [
      | inr (old, dup) ↦ ground arith
      | inl fresh ↦
          add_all-All P (insert op.id op m) ops m' (rw (named, fresh) at h)
            (All-insert P m op.id op pm p) po
    ]
  ]

module _ {w : World} (reg : Registry w) (vocab : Vocabulary) where
  -- A table is built exactly when the IDs are fresh: not empty and all different.
  pub new_set_iff :
      (ops : List Operation)
      → ((s : OperationSet w) × (new_set reg vocab ops ≡ ok s)) ↔ HasFreshIds [] ops
  unfolding new_set
  new_set_iff ops = (
    λ h. let (m, e, later) = bind-eq-ok (add_all [] ops) _ h.1 in (add_all-ok [] ops m e).0,
    λ h.
        let (m, e) = add_all-fresh {w = w} [] ops h in
        (record { ops = m; registry = reg; vocab = vocab }, rw e refl),
  )

  -- In the table that is built, an ID is looked up to the operation of the list that has it.
  pub get-new_set :
      (ops : List Operation) (s : OperationSet w) (id : String)
      → new_set reg vocab ops ≡ ok s
      → get s id ≡ find_id id ops
  unfolding new_set get
  get-new_set ops s id h =
      let (m, e, later) = bind-eq-ok (add_all [] ops) _ h in
      let same : record { ops = m; registry = reg; vocab = vocab } ≡ s = ground arith in
      rw (← same) ((add_all-ok [] ops m e).1 id)

  pub new_set-All :
      (P : Operation → Type 0) (ops : List Operation) (s : OperationSet w)
      → new_set reg vocab ops ≡ ok s
      → All P ops
      → All P (values s.ops) × (s.registry ≡ reg) × (s.vocab ≡ vocab)
  unfolding new_set
  new_set-All P ops s h p =
      let (m, e, later) = bind-eq-ok (add_all [] ops) _ h in
      let same : record { ops = m; registry = reg; vocab = vocab } ≡ s = ground arith in
      rw (← same) (add_all-All P [] ops m e tt p, refl, refl)

  validate_all-ok :
      (ops : List Operation)
      → validate_all reg vocab ops ≡ ok tt
      → All (λ op. validate_policy op.policy reg vocab ≡ []) ops
  unfolding validate_all
  validate_all-ok [] h = tt
  validate_all-ok (op ∷ ops) h =
      let empty : is_empty (validate_policy op.policy reg vocab) ≡ true = ground arith in
      (ground (arith, empty), validate_all-ok ops (rw empty at h))

module _ {w : World} where
  merge_all-ok :
      (reg : Registry w) (vocab : Vocabulary) (m : List (String × Operation)) (ops : List Operation)
      (m' : List (String × Operation))
      → merge_all reg vocab m ops ≡ ok m'
      → (add_all {w = w} m ops ≡ ok m') × All (λ op. validate_policy op.policy reg vocab ≡ []) ops
  unfolding merge_all add_all
  merge_all-ok reg vocab m [] m' h = (ground arith, tt)
  merge_all-ok reg vocab m (op ∷ ops) m' h =
      elim (Bool-cases (is_empty (validate_policy op.policy reg vocab))) [
        | inr bad ↦ ground arith
        | inl good ↦ elim (Bool-cases (op.id == "")) [
          | inl blank ↦ ground arith
          | inr named ↦ elim (Option-cases (lookup op.id m)) [
            | inr (old, dup) ↦ ground arith
            | inl fresh ↦
                let (same, valid) =
                  merge_all-ok reg vocab (insert op.id op m) ops m'
                    (rw (good, named, fresh) at h) in
                (rw (named, fresh) same, (ground (arith, good), valid))
          ]
        ]
      ]

  -- Adding operations to a table succeeds only if each is valid and none has the ID of another or
  -- of one in the table; then an old ID finds what it found, and a new one its operation.
  pub with_operations_lem :
      (s : OperationSet w) (ops : List Operation) (s' : OperationSet w)
      → with_operations s ops ≡ ok s'
      → All (λ op. validate_policy op.policy s.registry s.vocab ≡ []) ops
        × HasFreshIds s.ops ops
        × ((id : String) → get s' id ≡ first (get s id) (find_id id ops))
  unfolding with_operations get
  with_operations_lem s ops s' h =
      let (m, e, later) = bind-eq-ok (merge_all s.registry s.vocab s.ops ops) _ h in
      let (same, valid) = merge_all-ok s.registry s.vocab s.ops ops m e in
      let (ids, found) = add_all-ok s.ops ops m same in
      let eq : record { ops = m; registry = s.registry; vocab = s.vocab } ≡ s' = ground arith in
      (valid, ids, λ id. rw (← eq) (found id))
