-- ===== src/Base/Order.antt =====
-- sort.Slice and sort.Strings: a stable insertion sort by a text key, in Go's order of strings.
use Prim.Native.String.{String, compare}
use mathlib.Core.Path.{◌≡◌, refl}
use mathlib.Core.Logic.{◌⊎◌, inl, inr}
use mathlib.Core.Bool.{Bool, false, ◌&&◌, ◌||◌}
use mathlib.Core.List.{List, [], ◌∷◌}
use native.Mathlib.Omega.{arith}
use text.Mathlib.Text.{is_lt}
use package.grpcapi.Base.Tests.{if◌then◌else◌, Bool-cases}
use package.grpcapi.Base.Lists.{is_empty, all, any, All, Any}

-- Go's `s < t`
abbrev pub str_lt : String → String → Bool
str_lt s t = is_lt (compare s t)

module _ {ℓ} {A : Type ℓ} (key : A → String) where
  abbrev pub insert_by : A → List A → List A
  insert_by x [] = x ∷ []
  insert_by x (y ∷ ys) = if str_lt (key y) (key x) then y ∷ insert_by x ys else x ∷ y ∷ ys

  abbrev pub sort_by : List A → List A
  sort_by [] = []
  sort_by (x ∷ xs) = insert_by x (sort_by xs)

  pub any-insert_by :
      (p : A → Bool) (x : A) (xs : List A) → any p (insert_by x xs) ≡ (p x || any p xs)
  any-insert_by p x [] = refl
  any-insert_by p x (y ∷ ys) = ground (arith, any-insert_by p x ys)

  -- Sorting keeps the elements.
  pub any-sort_by : (p : A → Bool) (xs : List A) → any p (sort_by xs) ≡ any p xs
  any-sort_by p [] = refl
  any-sort_by p (x ∷ xs) = ground (arith, any-insert_by p x (sort_by xs), any-sort_by p xs)

  all-insert_by : (p : A → Bool) (x : A) (xs : List A) → all p (insert_by x xs) ≡ (p x && all p xs)
  all-insert_by p x [] = refl
  all-insert_by p x (y ∷ ys) = ground (arith, all-insert_by p x ys)

  pub all-sort_by : (p : A → Bool) (xs : List A) → all p (sort_by xs) ≡ all p xs
  all-sort_by p [] = refl
  all-sort_by p (x ∷ xs) = ground (arith, all-insert_by p x (sort_by xs), all-sort_by p xs)

  is_empty-insert_by : (x : A) (xs : List A) → is_empty (insert_by x xs) ≡ false
  is_empty-insert_by x [] = refl
  is_empty-insert_by x (y ∷ ys) = ground arith

  pub is_empty-sort_by : (xs : List A) → is_empty (sort_by xs) ≡ is_empty xs
  is_empty-sort_by [] = refl
  is_empty-sort_by (x ∷ xs) = is_empty-insert_by x (sort_by xs)

  pub All-insert_by :
      (P : A → Type 0) (x : A) (xs : List A) → P x → All P xs → All P (insert_by x xs)
  All-insert_by P x [] p h = (p, tt)
  All-insert_by P x (y ∷ ys) p (q, h) = elim (Bool-cases (str_lt (key y) (key x))) [
    | inl after ↦ rw after (q, All-insert_by P x ys p h)
    | inr before ↦ rw before (p, (q, h))
  ]

  pub All-sort_by : (P : A → Type 0) (xs : List A) → All P xs → All P (sort_by xs)
  All-sort_by P [] h = tt
  All-sort_by P (x ∷ xs) (p, h) = All-insert_by P x (sort_by xs) p (All-sort_by P xs h)

  pub Any-insert_by :
      (P : A → Type 0) (x : A) (xs : List A) → P x ⊎ Any P xs → Any P (insert_by x xs)
  Any-insert_by P x [] (inl p) = inl p
  Any-insert_by P x [] (inr h) = absurd h
  Any-insert_by P x (y ∷ ys) h = elim (Bool-cases (str_lt (key y) (key x))) [
    | inl after ↦ rw after (elim h [
      | inl p ↦ inr (Any-insert_by P x ys (inl p))
      | inr (inl q) ↦ inl q
      | inr (inr later) ↦ inr (Any-insert_by P x ys (inr later))
    ])
    | inr before ↦ rw before h
  ]

  pub Any-sort_by : (P : A → Type 0) (xs : List A) → Any P xs → Any P (sort_by xs)
  Any-sort_by P [] h = h
  Any-sort_by P (x ∷ xs) (inl p) = Any-insert_by P x (sort_by xs) (inl p)
  Any-sort_by P (x ∷ xs) (inr h) = Any-insert_by P x (sort_by xs) (inr (Any-sort_by P xs h))
