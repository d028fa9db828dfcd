-- ===== src/Base/Text.antt =====
-- What Go's package strings does with the texts of headers, names and paths, which are ASCII: upper and
-- lower case and white space are those of ASCII.
use Prim.Native.Nat.{ℕ}
use Prim.Native.Char.{Char, code}
use Prim.Native.String
use Prim.Native.String.{String}
use Prim.Native.String.append
use mathlib.Core.Path.{◌≡◌, refl, ap, sym}
use mathlib.Core.Logic.{inl, inr}
use mathlib.Core.Bool.{Bool, true, false, ◌&&◌, ◌||◌}
use mathlib.Core.Option.{Option, none, some}
use mathlib.Core.List.{List, [], ◌∷◌, ◌++◌}
use native.Mathlib.Omega.{arith}
use text.Mathlib.Text.{◌==◌}
use text.Mathlib.TextEquality.{eq_iff, Char-path}
use package.grpcapi.Base.Tests.{if◌then◌else◌, leb, nat_eq, Bool-cases, Option-cases}

-- The character at the place of `c` in the first text, from the second.
translate : Char → String → String → Char
translate c (String.◌∷◌ u us) (String.◌∷◌ l ls) =
    let rest = translate c us ls in if nat_eq (code c) (code u) then l else rest
translate c us ls = c

abbrev uppers : String
uppers = "ABCDEFGHIJKLMNOPQRSTUVWXYZ"

abbrev lowers : String
lowers = "abcdefghijklmnopqrstuvwxyz"

-- strings.ToLower
unfoldable pub to_lower : String → String
unfolding translate
to_lower String.[] = ""
to_lower (String.◌∷◌ c s) = String.◌∷◌ (translate c uppers lowers) (to_lower s)

-- strings.ToUpper
unfoldable pub to_upper : String → String
unfolding translate
to_upper String.[] = ""
to_upper (String.◌∷◌ c s) = String.◌∷◌ (translate c lowers uppers) (to_upper s)

-- strings.EqualFold
unfoldable pub equal_fold : String → String → Bool
unfolding to_lower
equal_fold s t = to_lower s == to_lower t

abbrev pub is_space : ℕ → Bool
is_space c = nat_eq c b' ' || leb 9 c && leb c 13

module _ (p : ℕ → Bool) where
  -- strings.TrimLeftFunc
  unfoldable pub trim_start : String → String
  trim_start String.[] = ""
  trim_start (String.◌∷◌ c s) =
      let rest = trim_start s in if p (code c) then rest else String.◌∷◌ c s

  -- strings.TrimRightFunc
  unfoldable pub trim_end : String → String
  trim_end String.[] = ""
  trim_end (String.◌∷◌ c s) =
      let rest = trim_end s in if rest == "" && p (code c) then "" else String.◌∷◌ c rest

-- strings.TrimSpace
unfoldable pub trim_space : String → String
unfolding trim_start trim_end
trim_space s = trim_end is_space (trim_start is_space s)

-- strings.TrimRight of one character
unfoldable pub trim_right : ℕ → String → String
unfolding trim_end
trim_right sep s = trim_end (nat_eq sep) s

-- strings.Cut at the first place of a character: none if it is not there.
unfoldable pub cut : ℕ → String → Option (String × String)
cut sep String.[] = none
cut sep (String.◌∷◌ c s) =
    let rest = cut sep s in
    if nat_eq (code c) sep
    then some ("", s)
    else elim rest [ none ↦ none | some (before, after) ↦ some (String.◌∷◌ c before, after) ]

-- strings.HasPrefix
unfoldable pub has_prefix : String → String → Bool
has_prefix s String.[] = true
has_prefix String.[] (String.◌∷◌ p ps) = false
has_prefix (String.◌∷◌ c s) (String.◌∷◌ p ps) =
    let rest = has_prefix s ps in if nat_eq (code c) (code p) then rest else false

-- strings.HasSuffix
unfoldable pub has_suffix : String → String → Bool
has_suffix String.[] suffix = suffix == ""
has_suffix (String.◌∷◌ c s) suffix =
    let rest = has_suffix s suffix in if String.◌∷◌ c s == suffix then true else rest

-- strings.Contains
unfoldable pub contains_text : String → String → Bool
unfolding has_prefix
contains_text String.[] part = part == ""
contains_text (String.◌∷◌ c s) part =
    let rest = contains_text s part in if has_prefix (String.◌∷◌ c s) part then true else rest

abbrev push_front : Char → List String → List String
push_front c [] = String.◌∷◌ c "" ∷ []
push_front c (s ∷ parts) = String.◌∷◌ c s ∷ parts

-- strings.Split at a character
unfoldable pub split : ℕ → String → List String
split sep String.[] = "" ∷ []
split sep (String.◌∷◌ c s) =
    let rest = split sep s in if nat_eq (code c) sep then "" ∷ rest else push_front c rest

-- strings.Join
unfoldable pub join : String → List String → String
join sep [] = ""
join sep (s ∷ []) = s
join sep (s ∷ t ∷ rest) = String.◌++◌ s (String.◌++◌ sep (join sep (t ∷ rest)))

-- The character does not occur.
abbrev pub without : ℕ → String → Bool
without sep String.[] = true
without sep (String.◌∷◌ c s) = if nat_eq (code c) sep then false else without sep s

pub cons-eq_empty : (c : Char) (s : String) → (String.◌∷◌ c s == "") ≡ false
cons-eq_empty c s = elim (Bool-cases (String.◌∷◌ c s == "")) [
  | inl same ↦ let bad = (eq_iff (String.◌∷◌ c s) "").0 same in cc
  | inr apart ↦ apart
]

pub cut-append :
    (sep : ℕ) (s : String) (c : Char) (t : String)
    → without sep s ≡ true
    → nat_eq (code c) sep ≡ true
    → cut sep (String.◌++◌ s (String.◌∷◌ c t)) ≡ some (s, t)
unfolding cut
cut-append sep String.[] c t h e = rw (append.nil (String.◌∷◌ c t)) (ground arith)
cut-append sep (String.◌∷◌ d s) c t h e =
    rw (append.cons d s (String.◌∷◌ c t)) (ground (arith, cut-append sep s c t))

-- There is always a first part.
split-cons :
    (sep : ℕ) (s : String) → (first : String) × (rest : List String) × (split sep s ≡ first ∷ rest)
unfolding split
split-cons sep String.[] = ("", [], refl)
split-cons sep (String.◌∷◌ c s) = elim (Bool-cases (nat_eq (code c) sep)) [
  | inl here ↦ ("", split sep s, rw here refl)
  | inr later ↦
      let (first, rest, same) = split-cons sep s in
      (String.◌∷◌ c first, rest, rw (later, same) refl)
]

pub split-append :
    (sep : ℕ) (s : String) (c : Char) (t : String)
    → nat_eq (code c) sep ≡ true
    → split sep (String.◌++◌ s (String.◌∷◌ c t)) ≡ split sep s ++ split sep t
unfolding split
split-append sep String.[] c t e = rw (append.nil (String.◌∷◌ c t)) (ground arith)
split-append sep (String.◌∷◌ d s) c t e =
    rw (append.cons d s (String.◌∷◌ c t), split, split-append sep s c t e)
      (elim (Bool-cases (nat_eq (code d) sep)) [
        | inl here ↦ rw here refl
        | inr later ↦ let (first, rest, same) = split-cons sep s in rw (later, same) refl
      ])

pub cut_sound :
    (sep : ℕ) (s before after : String)
    → cut sep s ≡ some (before, after)
    → (c : Char) × (nat_eq (code c) sep ≡ true)
      × (without sep before ≡ true)
      × (s ≡ String.◌++◌ before (String.◌∷◌ c after))
unfolding cut
cut_sound sep String.[] before after h = cc
cut_sound sep (String.◌∷◌ d s) before after h = elim (Bool-cases (nat_eq (code d) sep)) [
  | inl here ↦
      let h' = rw (here, cut) at h in
      let same_b : String.[] ≡ before = ground arith in
      let same_a : s ≡ after = ground arith in
      (d, here, rw (← same_b) refl, rw (← same_b, ← same_a) (sym (append.nil (String.◌∷◌ d s))))
  | inr later ↦ elim (Option-cases (cut sep s)) [
    | inl none_there ↦ absurd (ground arith)
    | inr ((b, a), e) ↦
        let (c, is_sep, clear, parts) = cut_sound sep s b a e in
        let h' = rw (later, e, cut) at h in
        let same_b : String.◌∷◌ d b ≡ before = ground arith in
        let same_a : a ≡ after = ground arith in
        (
          c,
          is_sep,
          rw (← same_b) (ground arith),
          rw (← same_b, ← same_a)
              (rw (append.cons d b (String.◌∷◌ c a)) (ap (λ t. String.◌∷◌ d t) parts)),
        )
  ]
]

pub has_prefix-append : (s t : String) → has_prefix (String.◌++◌ s t) s ≡ true
unfolding has_prefix
has_prefix-append String.[] t = refl
has_prefix-append (String.◌∷◌ c s) t =
    rw (append.cons c s t) (ground (arith, has_prefix-append s t))

pub has_prefix_sound :
    (s p : String) → has_prefix s p ≡ true → (rest : String) × (s ≡ String.◌++◌ p rest)
unfolding has_prefix
has_prefix_sound s String.[] h = (s, sym (append.nil s))
has_prefix_sound String.[] (String.◌∷◌ p ps) h = cc
has_prefix_sound (String.◌∷◌ c s) (String.◌∷◌ p ps) h =
    elim (Bool-cases (nat_eq (code c) (code p))) [
      | inr apart ↦ absurd (ground arith)
      | inl same ↦
          let (rest, parts) = has_prefix_sound s ps (rw (has_prefix, same) at h) in
          let head : c ≡ p = Char-path c p (ground (arith, same)) in
          (rest, rw (append.cons p ps rest, ← parts, head) refl)
    ]

tests :
    (to_lower "X-Api-Key" ≡ "x-api-key")
    × (trim_space "  a b\t" ≡ "a b")
    × (split b',' "a,,b" ≡ "a" ∷ "" ∷ "b" ∷ [])
    × (trim_right b'/' "http://a//" ≡ "http://a")
    × (cut b'.' "a.b.c" ≡ some ("a", "b.c"))
unfolding to_lower trim_space split trim_right cut
tests = (refl, refl, refl, refl, refl)
