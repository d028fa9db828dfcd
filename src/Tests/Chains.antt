-- ===== src/Tests/Chains.antt =====
-- A chain of two interceptors.
use grpcapi.Base.{ℕ, String, ◌≡◌, refl, ◌↔◌, none, some, List, [], ◌∷◌, ok, pos}
use grpcapi.Chain.{Stage, ChainOptions, assemble_with, unary_chain}
use grpcapi.Chain.Laws.{IsChain, assemble_with_iff}

abbrev stage : String → ℕ → Stage String String
stage n o = record { name = n; order = pos o; unary = some n; stream = none }

abbrev strict : ChainOptions
strict = record { first = "clientinfo"; last = "validate"; required = "validate" ∷ [] }

abbrev two : List (Stage String String)
two = stage "clientinfo" 20 ∷ stage "validate" 80 ∷ []

assemble_with_iff_example : (assemble_with strict two ≡ ok two) ↔ (IsChain strict two × (two ≡ two))
assemble_with_iff_example = assemble_with_iff strict two two

two_assembled : assemble_with strict two ≡ ok two
unfolding assemble_with
two_assembled = refl

two_unary : unary_chain two ≡ "clientinfo" ∷ "validate" ∷ []
unfolding unary_chain
two_unary = refl
