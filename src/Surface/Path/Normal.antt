-- ===== src/Surface/Path/Normal.antt =====
-- surface/surface.go: the paths that `NormalizePath` returns.
use grpcapi.Base.{
  ℕ, zero, suc, Char, code, String, ◌≡◌, refl, ap, ◌⊎◌, inl, inr, Bool, true, false, ◌&&◌, arith,
  ◌==◌, ltb, nat_eq, if◌then◌else◌, Bool-cases, trim_end, trim_right, has_prefix, contains_text,
  cons-eq_empty,
}
use Prim.Native.String.append
use text.Mathlib.TextEquality.{Char-path}
use grpcapi.Surface.Path.{collapse, size, squeeze, rooted, normalize_path}
use grpcapi.Surface.Path.Laws.{double, slashes, double-pair, squeeze-still, squeeze_lem}

trim-cons :
    (c : Char) (s : String)
    → trim_right b'/' (String.◌∷◌ c s) ≡ (
        if trim_right b'/' s == "" && nat_eq b'/' (code c)
        then ""
        else String.◌∷◌ c (trim_right b'/' s))
unfolding trim_right trim_end
trim-cons c s = refl

double-one : (c : Char) → double (String.◌∷◌ c "") ≡ false
unfolding contains_text has_prefix
double-one c = ground arith

double-short : (b : Bool) (c : Char) → double (if b then "" else String.◌∷◌ c "") ≡ false
unfolding contains_text
double-short true c = refl
double-short false c = double-one c

single-trim : (s : String) → double s ≡ false → double (trim_right b'/' s) ≡ false
unfolding trim_right trim_end contains_text
single-trim String.[] h = refl
single-trim (String.◌∷◌ c String.[]) h = double-short _ c
single-trim (String.◌∷◌ c (String.◌∷◌ d s)) h =
    let both = rw (double-pair c d s) at h in
    let tail : double (String.◌∷◌ d s) ≡ false = ground arith in
    let inner = rw (trim-cons d s) at (single-trim (String.◌∷◌ d s) tail) in
    rw (trim-cons c (String.◌∷◌ d s), trim-cons d s)
      (elim (Bool-cases (trim_right b'/' s == "" && nat_eq b'/' (code d))) [
        | inl bare ↦ rw bare (double-short _ c)
        | inr full ↦
            let same = rw full at inner in
            let all : double (String.◌∷◌ c (String.◌∷◌ d (trim_right b'/' s))) ≡ false =
              rw (double-pair c d (trim_right b'/' s)) (ground arith) in
            rw full (rw (cons-eq_empty d (trim_right b'/' s)) all)
      ])

trim-trim : (s : String) → trim_right b'/' (trim_right b'/' s) ≡ trim_right b'/' s
unfolding trim_right trim_end
trim-trim String.[] = refl
trim-trim (String.◌∷◌ c s) =
    rw (trim-cons c s) (elim (Bool-cases (trim_right b'/' s == "" && nat_eq b'/' (code c))) [
      | inl bare ↦ rw bare refl
      | inr full ↦ rw (full, trim-cons c (trim_right b'/' s), trim-trim s, full) refl
    ])

has_root-trim :
    (s : String)
    → (trim_right b'/' s == "") ≡ false
    → has_prefix s "/" ≡ true
    → has_prefix (trim_right b'/' s) "/" ≡ true
unfolding has_prefix
has_root-trim String.[] full h = cc
has_root-trim (String.◌∷◌ c s) full h =
    elim (Bool-cases (trim_right b'/' s == "" && nat_eq b'/' (code c))) [
      | inl bare ↦ let h2 = rw (trim-cons c s, bare) at full in cc
      | inr rest ↦ rw (trim-cons c s, rest) h
    ]

has_root-collapse : (s : String) → has_prefix s "/" ≡ true → has_prefix (collapse s) "/" ≡ true
unfolding has_prefix collapse
has_root-collapse String.[] h = h
has_root-collapse (String.◌∷◌ c String.[]) h = h
has_root-collapse (String.◌∷◌ c (String.◌∷◌ d s)) h = elim (Bool-cases (slashes c d)) [
  | inl both ↦ rw (collapse, both) refl
  | inr apart ↦ rw (collapse, apart) h
]

has_root-squeeze :
    (n : ℕ) (s : String) → has_prefix s "/" ≡ true → has_prefix (squeeze n s) "/" ≡ true
unfolding squeeze
has_root-squeeze zero s h = h
has_root-squeeze (suc n) s h = elim (Bool-cases (double s)) [
  | inl twice ↦ rw (squeeze, twice) (has_root-squeeze n (collapse s) (has_root-collapse s h))
  | inr single ↦ rw (squeeze, single) h
]

has_root-rooted : (s : String) → has_prefix (rooted s) "/" ≡ true
unfolding has_prefix
has_root-rooted s = elim (Bool-cases (has_prefix s "/")) [
  | inl h ↦ rw h h
  | inr h ↦ rw h (rw (append.cons "/" "" s) refl)
]

-- A path that starts with a slash, has no two in a row and does not end with one, or is just one.
pub record IsNormal (path : String) : Type 0 where
  pub root : has_prefix path "/" ≡ true
  pub single : contains_text path "//" ≡ false
  pub end : (path ≡ "/") ⊎ (trim_right b'/' path ≡ path)

trim_right-IsNormal :
    (flat : String)
    → has_prefix flat "/" ≡ true
    → double flat ≡ false
    → IsNormal (let bare = trim_right b'/' flat in if bare == "" then "/" else bare)
unfolding contains_text has_prefix
trim_right-IsNormal flat h s = elim (Bool-cases (trim_right b'/' flat == "")) [
  | inl bare ↦ rw bare (record { root = refl; single = refl; end = inl refl })
  | inr full ↦ rw full (record {
    root = has_root-trim flat full h;
    single = single-trim flat s;
    end = inr (trim-trim flat);
  })
]

short_root :
    (flat : String)
    → has_prefix flat "/" ≡ true
    → double flat ≡ false
    → ltb 1 (size flat) ≡ false
    → flat ≡ "/"
unfolding has_prefix
short_root String.[] h s short = cc
short_root (String.◌∷◌ c String.[]) h s short =
    ap (λ t. String.◌∷◌ t "") (Char-path c "/" (ground (arith, h)))
short_root (String.◌∷◌ c (String.◌∷◌ d t)) h s short = absurd (ground arith)

pub normalize_path-IsNormal : (path : String) → IsNormal (normalize_path path)
unfolding normalize_path contains_text has_prefix
normalize_path-IsNormal path =
    let flat = squeeze (size (rooted path)) (rooted path) in
    let h : has_prefix flat "/" ≡ true =
      has_root-squeeze (size (rooted path)) (rooted path) (has_root-rooted path) in
    let s : double flat ≡ false =
      (squeeze_lem (size (rooted path)) (rooted path) (omega arith)).0 in
    elim (Bool-cases (path == "")) [
      | inl bare ↦ rw (normalize_path, bare) (record { root = refl; single = refl; end = inl refl })
      | inr full ↦ elim (Bool-cases (ltb 1 (size flat))) [
        | inl long ↦ rw (normalize_path, full, long) (trim_right-IsNormal flat h s)
        | inr short ↦
            rw (normalize_path, full, short)
              (record { root = h; single = s; end = inl (short_root flat h s short) })
      ]
    ]

full-path : (path : String) → has_prefix path "/" ≡ true → (path == "") ≡ false
unfolding has_prefix
full-path String.[] h = cc
full-path (String.◌∷◌ c s) h = cons-eq_empty c s

normalize_path_idem : (path : String) → IsNormal path → normalize_path path ≡ path
unfolding normalize_path
normalize_path_idem path n =
    let same : rooted path ≡ path = rw n.root refl in
    let still : squeeze (size (rooted path)) (rooted path) ≡ path =
      rw same (squeeze-still (size path) path n.single) in
    rw (normalize_path, full-path path n.root, still)
      (elim n.end [
        | inl bare ↦ rw bare refl
        | inr kept ↦ rw (kept, full-path path n.root) (ground arith)
      ])

-- `NormalizePath` returns a path in normal form, one that starts with a slash, has no two in a row and does
-- not end with one unless it is the root, and it changes nothing in a path that is in normal form.
pub normalize_path_lem :
    (path : String) → IsNormal (normalize_path path) × (IsNormal path → normalize_path path ≡ path)
normalize_path_lem path = (normalize_path-IsNormal path, normalize_path_idem path)
