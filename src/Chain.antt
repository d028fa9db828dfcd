-- ===== src/Chain.antt =====
-- interceptor/chain.go: the assembly of the interceptors of a server into a chain, over the types of
-- unary and of stream interceptors.
pub mod Laws
use grpcapi.Base.{
  String, Bool, not, ◌&&◌, Option, none, some, List, [], ◌∷◌, ◌==◌, if◌then◌else◌, is_some,
  contains, Result, ◌>>=◌, ℤ, ltz, ok, err, negsuc,
}

pub record Stage (U S : Type 0) : Type 0 where
  pub name : String
  pub order : ℤ
  pub unary : Option U
  pub stream : Option S

pub record ChainOptions : Type 0 where
  pub first : String
  pub last : String
  pub required : List String

pub data ChainError : Type 0 where
  no_stages empty_name : ChainError
  duplicate_stage no_interceptor goes_backwards : String → ChainError
  wrong_first wrong_last missing_required : String → ChainError

abbrev pub last_or : {A : Type 0} → A → List A → A
last_or d [] = d
last_or d (x ∷ xs) = last_or x xs

unfoldable pub check_required : List String → List String → Result ChainError (Unit {0})
check_required seen [] = ok tt
check_required seen (name ∷ names) =
    let rest = check_required seen names in
    if contains seen name then rest else err (missing_required name)

abbrev pub wants : String → String → Bool
wants wanted name = not (wanted == "") && not (name == wanted)

module _ {U S : Type 0} where
  -- The loop over the stages, from the names seen and the order before; it returns the names.
  unfoldable pub check_stages : List String → ℤ → List (Stage U S) → Result ChainError (List String)
  check_stages seen prev [] = ok seen
  check_stages seen prev (st ∷ stages) =
      let rest = check_stages (st.name ∷ seen) st.order stages in
      if st.name == ""
      then err empty_name
      else if contains seen st.name
      then err (duplicate_stage st.name)
      else if not (is_some st.unary) && not (is_some st.stream)
      then err (no_interceptor st.name)
      else if ltz st.order prev
      then err (goes_backwards st.name)
      else rest

  -- The stages that the options name.
  unfoldable pub check_ends :
      ChainOptions → Stage U S → List (Stage U S) → List String → Result ChainError (Unit {0})
  unfolding check_required
  check_ends opts st stages seen =
      if wants opts.first st.name
      then err (wrong_first opts.first)
      else if wants opts.last (last_or st stages).name
      then err (wrong_last opts.last)
      else check_required seen opts.required

  -- `AssembleWith`
  unfoldable pub assemble_with :
      ChainOptions → List (Stage U S) → Result ChainError (List (Stage U S))
  unfolding check_stages check_ends
  assemble_with opts [] = err no_stages
  assemble_with opts (st ∷ stages) = do
    seen ← check_stages [] (negsuc 0) (st ∷ stages)
    checked ← check_ends opts st stages seen
    ok (st ∷ stages)

  -- `Unary`
  unfoldable pub unary_chain : List (Stage U S) → List U
  unary_chain [] = []
  unary_chain (st ∷ stages) =
      let rest = unary_chain stages in elim st.unary [ none ↦ rest | some u ↦ u ∷ rest ]

  -- `Stream`
  unfoldable pub stream_chain : List (Stage U S) → List S
  stream_chain [] = []
  stream_chain (st ∷ stages) =
      let rest = stream_chain stages in elim st.stream [ none ↦ rest | some s ↦ s ∷ rest ]
