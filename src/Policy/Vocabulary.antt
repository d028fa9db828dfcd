-- ===== src/Policy/Vocabulary.antt =====
-- policy/vocabulary.go: the values that a project allows for each domain. A `ValueSet` is the list
-- of its members, and a nil vocabulary is the empty one.
use grpcapi.Base.{
  String, ◌≡◌, refl, ◌↔◌, inl, inr, Bool, true, not, ◌||◌, Option, none, some, List, [], ◌∷◌, ◌++◌,
  arith, eq_iff, if◌then◌else◌, Option-cases, is_some, all, contains, contains-append, lookup,
  insert, lookup-insert,
}
use grpcapi.Policy.Spec.{Requirement}

abbrev pub Vocabulary : Type 0
Vocabulary = List (String × List String)

-- `set[v] = struct{}{}` for each value
value_set : List String → List String → List String
value_set set [] = set
value_set set (v ∷ values) = value_set (if contains set v then set else set ++ v ∷ []) values

-- `NewVocabulary`; the argument is a map too, so its keys are distinct.
pub new_vocabulary : List (String × List String) → Vocabulary
unfolding value_set
new_vocabulary [] = []
new_vocabulary ((domain, values) ∷ domains) =
    insert domain (value_set [] values) (new_vocabulary domains)

unfoldable pub has : Vocabulary → String → Bool
has v domain = is_some (lookup domain v)

unfoldable pub allows : Vocabulary → String → String → Bool
allows v domain value = elim (lookup domain v) [ none ↦ true | some set ↦ contains set value ]

-- The loop of `validateValues`: the first value that is not in the domain.
first_unknown : Vocabulary → String → List String → Option String
first_unknown v domain [] = none
first_unknown v domain (value ∷ values) =
    if not (allows v domain value) then some value else first_unknown v domain values

-- The error of `validateValues` is the value that it names.
unfoldable pub validate_values : Vocabulary → Requirement → String → Option String
unfolding first_unknown
validate_values v req domain =
    if not (has v domain) then none else first_unknown v domain req.values

contains-value_set :
    (set values : List String) (x : String)
    → contains (value_set set values) x ≡ (contains set x || contains values x)
unfolding value_set
contains-value_set set [] x = ground arith
contains-value_set set (v ∷ values) x = ground (
  arith,
  contains-value_set set values x,
  contains-value_set (set ++ v ∷ []) values x,
  contains-append set (v ∷ []) x,
  eq_iff v x,
)

-- A value is allowed in a new vocabulary exactly when its domain is not listed, or lists it.
pub allows-new_vocabulary :
    (domains : List (String × List String)) (domain value : String)
    → allows (new_vocabulary domains) domain value
      ≡ (elim (lookup domain domains) [ none ↦ true | some values ↦ contains values value ])
unfolding allows new_vocabulary
allows-new_vocabulary [] domain value = refl
allows-new_vocabulary ((d, values) ∷ domains) domain value = ground (
  arith,
  lookup-insert d domain (value_set [] values) (new_vocabulary domains),
  allows-new_vocabulary domains domain value,
  contains-value_set [] values value,
)

first_unknown-all :
    (v : Vocabulary) (domain : String) (values : List String)
    → (first_unknown v domain values ≡ none) ↔ (all (allows v domain) values ≡ true)
unfolding first_unknown
first_unknown-all v domain [] = ground arith
first_unknown-all v domain (value ∷ values) = ground (arith, first_unknown-all v domain values)

all-allows_free :
    (v : Vocabulary) (domain : String) (values : List String)
    → lookup domain v ≡ none
    → all (allows v domain) values ≡ true
unfolding allows
all-allows_free v domain [] free = refl
all-allows_free v domain (x ∷ values) free = ground (arith, all-allows_free v domain values free)

-- The values of a requirement pass exactly when the domain allows each of them, where a domain that
-- is not registered allows all.
pub validate_values_iff :
    (v : Vocabulary) (req : Requirement) (domain : String)
    → (validate_values v req domain ≡ none) ↔ (all (allows v domain) req.values ≡ true)
unfolding validate_values has
validate_values_iff v req domain = elim (Option-cases (lookup domain v)) [
  | inl free ↦ rw free (λ _. all-allows_free v domain req.values free, λ _. refl)
  | inr (set, found) ↦ rw found (first_unknown-all v domain req.values)
]
