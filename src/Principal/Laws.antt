-- ===== src/Principal/Laws.antt =====
-- What the claim and kind tests of a principal decide.
use grpcapi.Base.{
  String, true, false, ℕ, ◌+◌, ◌≤◌, ◌<◌, none, some, List, [], ◌∷◌, ◌≡◌, refl, ◌≢◌, not, contains,
  length, is_empty, any, all, arith, eq_iff, Bool-cases, inl, inr,
}
use grpcapi.Status.{World}
use grpcapi.Principal.{
  Principal, count_matches, match_found, claim_values, match_claim, has_claim, has_all_claims,
  has_kind,
}

-- The early return makes the loop of the ANY test a search.
count_matches-any :
    (have values : List String) (n k : ℕ)
    → match_found false k (count_matches false have values n) ≡ any (contains have) values
unfolding count_matches match_found
count_matches-any have [] n k = refl
count_matches-any have (v ∷ values) n k = ground (arith, count_matches-any have values n k)

-- The loop of the ALL test runs to its end, and counts at most one for each value.
count_matches-some :
    (have values : List String) (n : ℕ)
    → (m : ℕ) × (count_matches true have values n ≡ some m) × (m ≤ n + length values)
unfolding count_matches
count_matches-some have [] n = (n, refl, omega arith)
count_matches-some have (v ∷ values) n = elim (Bool-cases (contains have v)) [
  | inl held ↦
      let (m, e, le) = count_matches-some have values (n + 1) in (m, rw held e, omega arith)
  | inr missing ↦
      let (m, e, le) = count_matches-some have values n in (m, rw missing e, omega arith)
]

-- It counts them all exactly when every value is held.
count_matches-all :
    (have values : List String) (n k : ℕ)
    → k ≡ n + length values
    → match_found true k (count_matches true have values n) ≡ all (contains have) values
unfolding count_matches match_found
count_matches-all have [] n k h = ground arith
count_matches-all have (v ∷ values) n k h = elim (Bool-cases (contains have v)) [
  | inl held ↦ rw held (count_matches-all have values (n + 1) k (omega arith))
  | inr missing ↦
      let (m, e, le) = count_matches-some have values n in
      let small : m < k = omega arith in rw (missing, e) (ground arith)
]

module _ {w : World} where
  -- A principal passes the ANY test of a claim exactly when it holds one of the wanted values, and
  -- with no wanted value when the claim is not empty; a nil principal never does.
  pub has_claim_iff :
      (p : Principal w) (name : String) (values : List String)
      → (has_claim {w = w} none name values ≡ false)
        × (has_claim (some p) name [] ≡ not (is_empty (claim_values p name)))
        × (values ≢ []
            → has_claim (some p) name values ≡ any (contains (claim_values p name)) values)
  unfolding has_claim match_claim
  has_claim_iff p name [] = (refl, refl, λ h. absurd (h refl))
  has_claim_iff p name (v ∷ values) = (
    refl,
    refl,
    λ h. count_matches-any (claim_values p name) (v ∷ values) 0 (length (v ∷ values)),
  )

  -- A principal passes the ALL test of a claim exactly when it holds every wanted value, and with no wanted value when
  -- the claim is not empty; a nil principal never does.
  pub has_all_claims_iff :
      (p : Principal w) (name : String) (values : List String)
      → (has_all_claims {w = w} none name values ≡ false)
        × (has_all_claims (some p) name [] ≡ not (is_empty (claim_values p name)))
        × (values ≢ []
            → has_all_claims (some p) name values ≡ all (contains (claim_values p name)) values)
  unfolding has_all_claims match_claim
  has_all_claims_iff p name [] = (refl, refl, λ h. absurd (h refl))
  has_all_claims_iff p name (v ∷ values) =
      (refl, refl, λ h. count_matches-all (claim_values p name) (v ∷ values) 0 _ (omega arith))

  -- The kind test is membership in the given kinds.
  pub has_kind_lem :
      (p : Principal w) (kinds : List String) → has_kind (some p) kinds ≡ contains kinds p.kind
  unfolding has_kind
  has_kind_lem p [] = refl
  has_kind_lem p (k ∷ kinds) =
      ground (arith, has_kind_lem p kinds, eq_iff p.kind k, eq_iff k p.kind)
