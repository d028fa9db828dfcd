-- ===== src/Surface/Path/Laws.antt =====
-- surface/surface.go: the loop of `NormalizePath` ends, and what the paths are that it leaves.
use grpcapi.Base.{
  ℕ, zero, suc, ◌≤◌, ◌<◌, Char, code, String, ◌≡◌, refl, sym, ◌∙◌, inl, inr, Bool, true, false,
  ◌&&◌, ◌||◌, arith, nat_eq, if◌then◌else◌, Bool-cases, has_prefix, contains_text,
}
use grpcapi.Surface.Path.{collapse, size, squeeze}

-- Two slashes in a row.
abbrev pub double : String → Bool
double s = contains_text s "//"

abbrev pub slashes : Char → Char → Bool
slashes c d = nat_eq (code c) b'/' && nat_eq (code d) b'/'

pub double-pair :
    (c d : Char) (s : String)
    → double (String.◌∷◌ c (String.◌∷◌ d s)) ≡ (slashes c d || double (String.◌∷◌ d s))
unfolding contains_text has_prefix
double-pair c d s = ground arith

collapse-pair :
    (c d : Char) (s : String)
    → size (collapse (String.◌∷◌ c (String.◌∷◌ d s)))
      ≡ suc (if slashes c d then size (collapse s) else size (collapse (String.◌∷◌ d s)))
unfolding collapse
collapse-pair c d s = elim (Bool-cases (slashes c d)) [
  | inl both ↦ rw (collapse, both) refl
  | inr apart ↦ rw (collapse, apart) refl
]

-- Each round of the loop makes the path shorter.
size-collapse :
    (s : String) → (size (collapse s) ≤ size s) × (double s ≡ true → size (collapse s) < size s)
unfolding collapse contains_text has_prefix
size-collapse String.[] = (omega arith, λ h. cc)
size-collapse (String.◌∷◌ c String.[]) = (omega arith, λ h. ground arith)
size-collapse (String.◌∷◌ c (String.◌∷◌ d s)) =
    let (a, a') = size-collapse s in
    let (b, b') = size-collapse (String.◌∷◌ d s) in
    (
      ground (arith, collapse-pair c d s, a, b),
      λ h. ground (arith, collapse-pair c d s, double-pair c d s, a, b, b'),
    )

pub squeeze-still : (n : ℕ) (s : String) → double s ≡ false → squeeze n s ≡ s
unfolding squeeze
squeeze-still zero s h = refl
squeeze-still (suc n) s h = rw (squeeze, h) refl

squeeze-round : (n : ℕ) (s : String) → double s ≡ true → squeeze (suc n) s ≡ squeeze n (collapse s)
unfolding squeeze
squeeze-round n s h = rw (squeeze, h) refl

short-single : (s : String) → size s ≤ 0 → double s ≡ false
short-single s h = elim (Bool-cases (double s)) [
  | inl twice ↦ absurd (omega (arith, h, (size-collapse s).1 twice))
  | inr single ↦ single
]

-- A path on which the loop ends.
squeeze-single :
    (n m : ℕ) (s : String)
    → double s ≡ false
    → (double (squeeze n s) ≡ false) × (squeeze n s ≡ squeeze m s)
squeeze-single n m s single = (
  rw (squeeze-still n s single) single,
  squeeze-still n s single ∙ sym (squeeze-still m s single),
)

squeeze-agree :
    (n m : ℕ) (s : String)
    → size s ≤ n
    → size s ≤ m
    → (double (squeeze n s) ≡ false) × (squeeze n s ≡ squeeze m s)
squeeze-agree zero m s hn hm = squeeze-single zero m s (short-single s hn)
squeeze-agree (suc n) zero s hn hm = squeeze-single (suc n) zero s (short-single s hm)
squeeze-agree (suc n) (suc m) s hn hm = elim (Bool-cases (double s)) [
  | inr single ↦ squeeze-single (suc n) (suc m) s single
  | inl twice ↦
      let less = (size-collapse s).1 twice in
      rw (squeeze-round n s twice, squeeze-round m s twice)
        (squeeze-agree n m (collapse s) (omega (arith, less, hn)) (omega (arith, less, hm)))
]

-- The loop of `NormalizePath` ends: with as much fuel as the path has characters its condition is false at the
-- end, and any more fuel gives the same path.
pub squeeze_lem :
    (n : ℕ) (s : String)
    → size s ≤ n
    → (contains_text (squeeze n s) "//" ≡ false) × (squeeze n s ≡ squeeze (size s) s)
squeeze_lem n s h = squeeze-agree n (size s) s h (omega arith)
