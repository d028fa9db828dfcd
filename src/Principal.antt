-- ===== src/Principal.antt =====
-- principal/principal.go: the identity of a request. A nil `*Principal` is `none`, and a missing
-- key of a map is `none` in `lookup`.
pub mod Laws
use grpcapi.Base.{
  String, Bool, true, false, ℕ, ◌+◌, Option, none, some, List, [], ◌∷◌, ◌==◌, ◌&&◌, not,
  if◌then◌else◌, lookup, contains, length, is_empty, nat_eq, or_else,
}
use grpcapi.Status.{World}

pub record Principal (w : World) : Type 0 where
  pub id : String
  pub kind : String
  pub claims : List (String × List String)
  pub attrs : List (String × String)
  pub raw : Option w.Raw

-- The loop of `matchClaim` over the wanted values: none when it returns true early, else the
-- number of values found.
count_matches : Bool → List String → List String → ℕ → Option ℕ
count_matches every have [] matched = some matched
count_matches every have (v ∷ values) matched =
    let more = count_matches every have values (matched + 1) in
    let same = count_matches every have values matched in
    if contains have v then (if not every then none else more) else same

match_found : Bool → ℕ → Option ℕ → Bool
match_found every n none = true
match_found every n (some matched) = every && nat_eq matched n

module _ {w : World} where
  -- `p.Claims[name]` on a principal that is not nil
  abbrev pub claim_values : Principal w → String → List String
  claim_values p name = or_else (lookup name p.claims) []

  unfoldable pub claim : Option (Principal w) → String → List String
  claim none name = []
  claim (some p) name = claim_values p name

  unfoldable pub match_claim : Option (Principal w) → String → Bool → List String → Bool
  unfolding count_matches match_found
  match_claim none name every values = false
  match_claim (some p) name every values =
      let have = claim_values p name in
      if is_empty values
      then not (is_empty have)
      else match_found every (length values) (count_matches every have values 0)

  unfoldable pub has_claim : Option (Principal w) → String → List String → Bool
  has_claim p name values = match_claim p name false values

  unfoldable pub has_all_claims : Option (Principal w) → String → List String → Bool
  has_all_claims p name values = match_claim p name true values

  unfoldable pub attribute : Option (Principal w) → String → String
  attribute none name = ""
  attribute (some p) name = or_else (lookup name p.attrs) ""

  unfoldable pub has_kind : Option (Principal w) → List String → Bool
  has_kind none kinds = false
  has_kind (some p) [] = false
  has_kind (some p) (k ∷ kinds) = if p.kind == k then true else has_kind (some p) kinds
