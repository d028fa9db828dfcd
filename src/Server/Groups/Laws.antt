-- ===== src/Server/Groups/Laws.antt =====
-- server/server.go: the prefixes of the groups keep them apart.
use grpcapi.Base.{
  Char, String, ◌≡◌, refl, sym, ◌≢◌, ◌⊎◌, inl, inr, true, false, none, List, [], ◌∷◌, arith, ◌==◌,
  eq_iff, eq_refl, Bool-cases, Option-cases, str_append, any, All, All-map, All-zip, any-false,
  Pairs, All-Pairs, All-swap, contains, ok_inj, bind-eq-ok, has_prefix, ok,
}
use Prim.Native.String
use Prim.Native.String.append
use grpcapi.Surface.{Entry}
use grpcapi.Server.Groups.{
  Registration, ApiConfig, ApiGroup, add_apis, api_by_service, add_registrations, sorted_groups,
  check_prefixes, shadowed, build_groups,
}

-- The paths below a prefix.
abbrev pub below : String → String → String
below prefix path = String.◌++◌ prefix (String.◌∷◌ "/" path)

-- Two groups with different names have different prefixes, and unless one of these is the default no path lies
-- below both.
abbrev pub IsApart : ApiGroup → ApiGroup → Type 0
IsApart a b =
    a.name ≢ b.name
    → (a.prefix ≢ b.prefix)
      × (a.prefix ≢ "" → b.prefix ≢ "" → (x y : String) → below a.prefix x ≢ below b.prefix y)

slash_first :
    (d : Char) (q x y : String)
    → ◌≡◌ {A = String} (String.◌∷◌ "/" x) (String.◌∷◌ d (below q y))
    → String.◌∷◌ d q ≡ String.◌∷◌ "/" q
slash_first d q x y h = cc

-- Of two prefixes of one path the longer lies below the shorter.
below-cases :
    (p q x y : String)
    → below p x ≡ below q y
    → (p ≡ q) ⊎ (((z : String) × (q ≡ below p z)) ⊎ ((z : String) × (p ≡ below q z)))
below-cases String.[] String.[] x y h = inl refl
below-cases String.[] (String.◌∷◌ d q) x y h =
    let same = rw (append.nil (String.◌∷◌ "/" x), append.cons d q (String.◌∷◌ "/" y)) at h in
    inr (inl (q, rw (append.nil (String.◌∷◌ "/" q)) (slash_first d q x y same)))
below-cases (String.◌∷◌ c p) String.[] x y h =
    let same = rw (append.nil (String.◌∷◌ "/" y), append.cons c p (String.◌∷◌ "/" x)) at h in
    inr (inr (p, rw (append.nil (String.◌∷◌ "/" p)) (slash_first c p y x (sym same))))
below-cases (String.◌∷◌ c p) (String.◌∷◌ d q) x y h =
    let both = rw (append.cons c p (String.◌∷◌ "/" x), append.cons d q (String.◌∷◌ "/" y)) at h in
    let head : c ≡ d = cc in
    let tail : below p x ≡ below q y = cc in
    elim (below-cases p q x y tail) [
      | inl same ↦ inl (rw (head, same) refl)
      | inr (inl (z, longer)) ↦
          inr (inl (z, rw (append.cons c p (String.◌∷◌ "/" z), head, longer) refl))
      | inr (inr (z, longer)) ↦
          inr (inr (z, rw (append.cons d q (String.◌∷◌ "/" z), head, longer) refl))
    ]

has_prefix-below : (p z : String) → has_prefix (below p z) (str_append p "/") ≡ true
unfolding has_prefix
has_prefix-below String.[] z = rw (append.nil (String.◌∷◌ "/" z)) refl
has_prefix-below (String.◌∷◌ c p) z =
    rw (append.cons c p (String.◌∷◌ "/" z), append.cons c p "/")
      (ground (arith, has_prefix-below p z))

no_prefix_empty : (p : String) → has_prefix "" (str_append p "/") ≡ true → ⊥
unfolding has_prefix
no_prefix_empty String.[] h = cc
no_prefix_empty (String.◌∷◌ c p) h = let bad = rw (append.cons c p "/") at h in cc

-- A prefix below another is one that `buildGroups` refuses.
shadowed-below :
    (a b : ApiGroup) (z : String)
    → a.name ≢ b.name
    → b.prefix ≢ ""
    → a.prefix ≡ below b.prefix z
    → shadowed a b ≡ true
unfolding shadowed
shadowed-below a b z n full longer =
    let hit : has_prefix a.prefix (str_append b.prefix "/") ≡ true =
      rw longer (has_prefix-below b.prefix z) in
    let names : (a.name == b.name) ≡ false = elim (Bool-cases (a.name == b.name)) [
      | inl same ↦ absurd (n ((eq_iff a.name b.name).0 same))
      | inr apart ↦ apart
    ] in
    let set_b : (b.prefix == "") ≡ false = elim (Bool-cases (b.prefix == "")) [
      | inl same ↦ absurd (full ((eq_iff b.prefix "").0 same))
      | inr apart ↦ apart
    ] in
    let set_a : (a.prefix == "") ≡ false = elim (Bool-cases (a.prefix == "")) [
      | inl same ↦
          let empty = (eq_iff a.prefix "").0 same in
          let bad = rw empty at hit in absurd (no_prefix_empty b.prefix bad)
      | inr apart ↦ apart
    ] in
    rw (hit, names, set_a, set_b) refl

-- The prefixes that have been seen are not those of the groups to come.
check_prefixes-seen :
    (seen : List String) (gs : List ApiGroup)
    → check_prefixes seen gs ≡ none
    → (p : String) → contains seen p ≡ true
    → All (λ g. (p == g.prefix) ≡ false) gs
unfolding check_prefixes
check_prefixes-seen seen [] h p s = tt
check_prefixes-seen seen (g ∷ gs) h p s = elim (Bool-cases (contains seen g.prefix)) [
  | inl dup ↦ absurd (ground arith)
  | inr new ↦ (
    elim (Bool-cases (p == g.prefix)) [
      | inl same ↦ let s2 = rw ((eq_iff p g.prefix).0 same) at s in absurd (ground arith)
      | inr other ↦ other
    ],
    check_prefixes-seen (g.prefix ∷ seen) gs (rw (check_prefixes, new) at h) p (ground (arith, s)),
  )
]

abbrev Distinct : ApiGroup → ApiGroup → Type 0
Distinct a b = (a.name == b.name) ≡ false → (a.prefix == b.prefix) ≡ false

check_prefixes-Distinct :
    (seen : List String) (gs : List ApiGroup) → check_prefixes seen gs ≡ none → Pairs Distinct gs
unfolding check_prefixes
check_prefixes-Distinct seen [] h = tt
check_prefixes-Distinct seen (g ∷ gs) h = elim (Bool-cases (contains seen g.prefix)) [
  | inl dup ↦ absurd (ground arith)
  | inr new ↦
      let rest = rw (check_prefixes, new) at h in
      (
        All-map (λ b d n. d) gs
            (check_prefixes-seen (g.prefix ∷ seen) gs rest g.prefix
              (ground (arith, eq_refl g.prefix))),
        check_prefixes-Distinct (g.prefix ∷ seen) gs rest,
      )
]

check_prefixes_sound :
    (gs : List ApiGroup) → check_prefixes [] gs ≡ none → All (λ a. All (Distinct a) gs) gs
check_prefixes_sound gs h =
    All-Pairs Distinct (λ a n. let bad = rw (eq_refl a.name) at n in cc)
      (λ a b d n. ground (
        arith,
        eq_iff a.name b.name,
        eq_iff b.name a.name,
        eq_iff a.prefix b.prefix,
        eq_iff b.prefix a.prefix,
        d,
      ))
      gs (check_prefixes-Distinct [] gs h)

shadowed-IsApart :
    (a b : ApiGroup) → Distinct a b → shadowed a b ≡ false → shadowed b a ≡ false → IsApart a b
shadowed-IsApart a b distinct ab ba n =
    let other : a.prefix ≢ b.prefix = λ same. elim (Bool-cases (a.name == b.name)) [
      | inl named ↦ n ((eq_iff a.name b.name).0 named)
      | inr names ↦
          let no = distinct names in
          let yes_eq = (eq_iff a.prefix b.prefix).1 same in ground (arith, no, yes_eq)
    ] in
    (
      other,
      λ full_a full_b x y h. elim (below-cases a.prefix b.prefix x y h) [
        | inl same ↦ other same
        | inr (inl (z, longer)) ↦
            let hit = shadowed-below b a z (λ e. n (sym e)) full_a longer in ground (arith, hit, ba)
        | inr (inr (z, longer)) ↦
            let hit = shadowed-below a b z n full_b longer in ground (arith, hit, ab)
      ],
    )

groups-IsApart :
    (gs : List ApiGroup)
    → All (λ a. All (Distinct a) gs) gs
    → any (λ a. any (shadowed a) gs) gs ≡ false
    → All (λ a. All (IsApart a) gs) gs
groups-IsApart gs distinct clear =
    let one : All (λ a. All (λ b. shadowed a b ≡ false) gs) gs =
      All-map (λ a h. any-false (shadowed a) gs h) gs
        (any-false (λ a. any (shadowed a) gs) gs clear) in
    let two = All-swap (λ a b. shadowed a b ≡ false) gs gs one in
    All-map
      (λ a h.
        All-map (λ b k. shadowed-IsApart a b k.0 k.1.0 k.1.1) gs
          (All-zip (Distinct a) (λ b. (shadowed a b ≡ false) × (shadowed b a ≡ false)) gs h.0
            (All-zip (λ b. shadowed a b ≡ false) (λ b. shadowed b a ≡ false) gs h.1.0 h.1.1)))
      gs
      (All-zip (λ a. All (Distinct a) gs)
        (λ a. All (λ b. shadowed a b ≡ false) gs × All (λ b. shadowed b a ≡ false) gs) gs distinct
        (All-zip (λ a. All (λ b. shadowed a b ≡ false) gs) (λ a. All (λ b. shadowed b a ≡ false) gs)
          gs one two))

-- The groups that `buildGroups` accepts are kept apart by their prefixes: two with different names have different
-- prefixes, and no path lies below both unless one of them is the default.
pub build_groups-IsApart :
    (configs : List ApiConfig) (ops : List Entry) (regs : List Registration) (gs : List ApiGroup)
    → build_groups configs ops regs ≡ ok gs
    → All (λ a. All (IsApart a) gs) gs
unfolding build_groups
build_groups-IsApart configs ops regs gs h =
    let (groups, made, h2) = bind-eq-ok (add_apis [] configs) _ h in
    let (acc, added, h3) =
      bind-eq-ok
        (add_registrations (api_by_service [] ops)
          (record { groups = groups; needs_default = false; seen = [] }) regs)
        _ h2 in
    let sorted = sorted_groups acc in
    elim (Option-cases (check_prefixes [] sorted)) [
      | inr (e, bad) ↦ absurd (ground arith)
      | inl fine ↦ elim (Bool-cases (any (λ a. any (shadowed a) sorted) sorted)) [
        | inl below_one ↦ absurd (ground arith)
        | inr clear ↦
            let same : sorted ≡ gs = ok_inj sorted gs (rw (fine, clear) at h3) in
            rw (← same) (groups-IsApart sorted (check_prefixes_sound sorted fine) clear)
      ]
    ]
