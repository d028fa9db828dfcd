-- ===== src/Chain/Laws.antt =====
-- interceptor/chain.go: which lists of stages make a chain.
use grpcapi.Base.{
  String, ◌≡◌, refl, sym, ap, ◌∙◌, ◌↔◌, inl, inr, true, false, not, ◌&&◌, ◌||◌, List, [], ◌∷◌,
  arith, ◌==◌, Bool-cases, is_some, all, any, All, All-map, contains, ok_inj, bind-eq-ok, bind-ok,
  ℤ, ltz, ltz_trans, ok, negsuc,
}
use grpcapi.Chain.{
  check_ends, last_or, wants, check_required, assemble_with, ChainOptions, Stage, check_stages,
}

check_required_iff :
    (seen names : List String)
    → (check_required seen names ≡ ok tt) ↔ (all (contains seen) names ≡ true)
unfolding check_required
check_required_iff seen [] = (λ h. refl, λ h. refl)
check_required_iff seen (name ∷ names) =
    let (to, back) = check_required_iff seen names in
    elim (Bool-cases (contains seen name)) [
      | inl held ↦ (λ h. rw held (to (rw held at h)), λ h. rw held (back (rw held at h)))
      | inr missing ↦ (λ h. ground arith, λ h. ground arith)
    ]

module _ {U S : Type 0} where
  -- A stage that may stand in a chain: it has a name and an interceptor.
  abbrev pub IsStage : Stage U S → Type 0
  IsStage st =
      ((st.name == "") ≡ false) × ((not (is_some st.unary) && not (is_some st.stream)) ≡ false)

  -- A stage against one that comes later: another name, and no smaller order.
  abbrev pub Before : Stage U S → Stage U S → Type 0
  Before a b = ((a.name == b.name) ≡ false) × (ltz b.order a.order ≡ false)

  -- Every stage is one, and stands before all that come later.
  abbrev pub IsOrdered : List (Stage U S) → Type 0
  IsOrdered [] = Unit {0}
  IsOrdered (st ∷ stages) = IsStage st × All (Before st) stages × IsOrdered stages

  -- What the loop has seen: the name of none of the stages, and an order that none goes below.
  abbrev Follows : List String → ℤ → Stage U S → Type 0
  Follows seen prev st = (contains seen st.name ≡ false) × (ltz st.order prev ≡ false)

  Follows-Before :
      (seen : List String) (prev : ℤ) (a st : Stage U S)
      → Follows seen prev a
      → Follows (a.name ∷ seen) a.order st
      → Before a st × Follows seen prev st
  Follows-Before seen prev a st (fresh, up) (later, higher) =
      ((ground arith, higher), (ground arith, ltz_trans prev a.order st.order up higher))

  Before-Follows :
      (seen : List String) (prev : ℤ) (a st : Stage U S)
      → Before a st
      → Follows seen prev st
      → Follows (a.name ∷ seen) a.order st
  Before-Follows seen prev a st (other, higher) (fresh, up) = (ground arith, higher)

  All-both :
      (P Q : Stage U S → Type 0) (xs : List (Stage U S))
      → All (λ x. P x × Q x) xs
      → All P xs × All Q xs
  All-both P Q [] h = (tt, tt)
  All-both P Q (x ∷ xs) ((p, q), h) = let (hp, hq) = All-both P Q xs h in ((p, hp), (q, hq))

  All-join :
      (P Q R : Stage U S → Type 0) (xs : List (Stage U S))
      → ((x : Stage U S) → P x → Q x → R x)
      → All P xs
      → All Q xs
      → All R xs
  All-join P Q R [] f h k = tt
  All-join P Q R (x ∷ xs) f (p, h) (q, k) = (f x p q, All-join P Q R xs f h k)

  check_stages-ok :
      (seen : List String) (prev : ℤ) (stages : List (Stage U S)) (out : List String)
      → check_stages seen prev stages ≡ ok out
      → IsOrdered stages × All (Follows seen prev) stages
  unfolding check_stages
  check_stages-ok seen prev [] out h = (tt, tt)
  check_stages-ok seen prev (st ∷ stages) out h =
      let follows : Follows seen prev st = (ground arith, ground arith) in
      let is_stage : IsStage st = (ground arith, ground arith) in
      let later : check_stages (st.name ∷ seen) st.order stages ≡ ok out = ground arith in
      let (ordered, after) = check_stages-ok (st.name ∷ seen) st.order stages out later in
      let (before, rest) =
        All-both (Before st) (Follows seen prev) stages
          (All-map (λ x f. Follows-Before seen prev st x follows f) stages after) in
      ((is_stage, before, ordered), (follows, rest))

  names_after : List String → List (Stage U S) → List String
  names_after seen [] = seen
  names_after seen (st ∷ stages) = names_after (st.name ∷ seen) stages

  check_stages-Follows :
      (seen : List String) (prev : ℤ) (stages : List (Stage U S))
      → IsOrdered stages
      → All (Follows seen prev) stages
      → check_stages seen prev stages ≡ ok (names_after seen stages)
  unfolding check_stages names_after
  check_stages-Follows seen prev [] o f = refl
  check_stages-Follows seen prev (st ∷ stages) ((named, filled), before, o) ((fresh, up), f) =
      let rest = check_stages-Follows (st.name ∷ seen) st.order stages o (
        All-join (Before st) (Follows seen prev) (Follows (st.name ∷ seen) st.order) stages
          (λ x b g. Before-Follows seen prev st x b g) before f) in
      rw (named, fresh, filled, up) rest

  contains-names_after :
      (seen : List String) (stages : List (Stage U S)) (n : String)
      → contains (names_after seen stages) n
        ≡ (contains seen n || any (λ (st : Stage U S). st.name == n) stages)
  unfolding names_after
  contains-names_after seen [] n = ground arith
  contains-names_after seen (st ∷ stages) n =
      ground (arith, contains-names_after (st.name ∷ seen) stages n)

  all-names_after :
      (stages : List (Stage U S)) (names : List String)
      → all (contains (names_after [] stages)) names
        ≡ all (λ (n : String). any (λ (st : Stage U S). st.name == n) stages) names
  all-names_after stages [] = refl
  all-names_after stages (n ∷ names) =
      ground (arith, contains-names_after [] stages n, all-names_after stages names)

  -- What a chain is: it has stages, each with a name and an interceptor, of different names and of
  -- orders that never decrease nor begin below -1; and it has the first and the last stage that the
  -- options name, if they name one, and all that they require.
  abbrev pub IsChain : ChainOptions → List (Stage U S) → Type 0
  IsChain opts [] = ⊥
  IsChain opts (st ∷ stages) =
      IsOrdered (st ∷ stages)
      × All (λ (s : Stage U S). ltz s.order (negsuc 0) ≡ false) (st ∷ stages)
      × (wants opts.first st.name ≡ false)
      × (wants opts.last (last_or st stages).name ≡ false)
      × (all (λ (n : String). any (λ (s : Stage U S). s.name == n) (st ∷ stages)) opts.required
          ≡ true)

  check_ends_iff :
      (opts : ChainOptions) (st : Stage U S) (stages : List (Stage U S)) (seen : List String)
      → (check_ends opts st stages seen ≡ ok tt) ↔ (
          (wants opts.first st.name ≡ false)
          × (wants opts.last (last_or st stages).name ≡ false)
          × (all (contains seen) opts.required ≡ true))
  unfolding check_ends
  check_ends_iff opts st stages seen =
      let (to, back) = check_required_iff seen opts.required in
      elim (Bool-cases (wants opts.first st.name)) [
        | inl bad ↦ (λ h. ground arith, λ h. ground arith)
        | inr first_ok ↦ elim (Bool-cases (wants opts.last (last_or st stages).name)) [
          | inl bad ↦ (λ h. ground arith, λ h. ground arith)
          | inr last_ok ↦ (
            λ h. (first_ok, last_ok, to (rw (first_ok, last_ok, check_ends) at h)),
            λ h. rw (first_ok, last_ok, check_ends) (back h.2),
          )
        ]
      ]

  -- A list of stages is assembled exactly when it is a chain, and then the chain is that list.
  pub assemble_with_iff :
      (opts : ChainOptions) (stages out : List (Stage U S))
      → (assemble_with opts stages ≡ ok out) ↔ (IsChain opts stages × (out ≡ stages))
  unfolding assemble_with
  assemble_with_iff opts [] out = (λ h. cc, λ h. absurd h.0)
  assemble_with_iff opts (st ∷ stages) out = (
    λ h.
        let (seen, e, later) = bind-eq-ok (check_stages [] (negsuc 0) (st ∷ stages)) _ h in
        let (ordered, follows) = check_stages-ok [] (negsuc 0) (st ∷ stages) seen e in
        let same : names_after [] (st ∷ stages) ≡ seen =
          ok_inj _ seen
            (sym (check_stages-Follows [] (negsuc 0) (st ∷ stages) ordered follows) ∙ e) in
        let (checked, e2, end) = bind-eq-ok (check_ends opts st stages seen) _ later in
        let (f, l, r) = (check_ends_iff opts st stages seen).0 e2 in
        (
          (
            ordered,
            All-map (λ s g. g.1) (st ∷ stages) follows,
            f,
            l,
            sym (all-names_after (st ∷ stages) opts.required) ∙ rw same r,
          ),
          sym (ok_inj (st ∷ stages) out end),
        ),
    λ h.
        let ((ordered, low, f, l, r), same) = h in
        let seen = names_after [] (st ∷ stages) in
        let e =
          check_stages-Follows [] (negsuc 0) (st ∷ stages) ordered
            (All-map (λ s g. (refl, g)) (st ∷ stages) low) in
        let e2 =
          (check_ends_iff opts st stages seen).1
            (f, l, all-names_after (st ∷ stages) opts.required ∙ r) in
        bind-ok (check_stages [] (negsuc 0) (st ∷ stages)) _ seen e
        ∙ (bind-ok (check_ends opts st stages seen) _ tt e2 ∙ ap ok (sym same)),
  )
