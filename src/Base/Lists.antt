-- ===== src/Base/Lists.antt =====
-- Lists measured by native numbers, and tests and predicates on every element.
use Prim.Native.Nat.{ℕ, suc, ◌+◌}
use mathlib.Core.Path.{◌≡◌, refl}
use mathlib.Core.Bool.{Bool, true, false, ◌&&◌, ◌||◌}
use mathlib.Core.List.{List, [], ◌∷◌, ◌++◌, map}
use mathlib.Core.Logic.{◌⊎◌, inl, inr}
use package.grpcapi.Base.Tests.{Bool-cases}
use native.Mathlib.Omega.{arith}

module _ {ℓ} {A : Type ℓ} where
  abbrev pub length : List A → ℕ
  length [] = 0
  length (x ∷ xs) = suc (length xs)

  abbrev pub is_empty : List A → Bool
  is_empty [] = true
  is_empty (x ∷ xs) = false

  abbrev pub all : (A → Bool) → List A → Bool
  all p [] = true
  all p (x ∷ xs) = p x && all p xs

  abbrev pub any : (A → Bool) → List A → Bool
  any p [] = false
  any p (x ∷ xs) = p x || any p xs

  abbrev pub head_or : A → List A → A
  head_or d [] = d
  head_or d (x ∷ xs) = x

  pub length-append : (xs ys : List A) → length (xs ++ ys) ≡ length xs + length ys
  length-append [] ys = omega arith
  length-append (x ∷ xs) ys = omega (arith, length-append xs ys)

  pub all-append : (p : A → Bool) (xs ys : List A) → all p (xs ++ ys) ≡ (all p xs && all p ys)
  all-append p [] ys = refl
  all-append p (x ∷ xs) ys = ground (arith, all-append p xs ys)

  pub any-append : (p : A → Bool) (xs ys : List A) → any p (xs ++ ys) ≡ (any p xs || any p ys)
  any-append p [] ys = refl
  any-append p (x ∷ xs) ys = ground (arith, any-append p xs ys)

module _ {ℓ} {A : Type ℓ} where
  abbrev pub All : (A → Type 0) → List A → Type 0
  All P [] = Unit
  All P (x ∷ xs) = P x × All P xs

  abbrev pub Any : (A → Type 0) → List A → Type 0
  Any P [] = ⊥
  Any P (x ∷ xs) = P x ⊎ Any P xs

  pub All-append : (P : A → Type 0) (xs ys : List A) → All P xs → All P ys → All P (xs ++ ys)
  All-append P [] ys hx hy = hy
  All-append P (x ∷ xs) ys hx hy = (hx.0, All-append P xs ys hx.1 hy)

  pub append-eq-nil : (xs ys : List A) → xs ++ ys ≡ [] → (xs ≡ []) × (ys ≡ [])
  append-eq-nil [] ys h = (refl, h)
  append-eq-nil (x ∷ xs) ys h = cc

  -- A test that fails on every element.
  pub any-eq-false : (p : A → Bool) (xs : List A) → All (λ x. p x ≡ false) xs → any p xs ≡ false
  any-eq-false p [] h = refl
  any-eq-false p (x ∷ xs) (e, h) = rw e (any-eq-false p xs h)

  pub All-map : {P Q : A → Type 0} → ((x : A) → P x → Q x) → (xs : List A) → All P xs → All Q xs
  All-map f [] h = tt
  All-map f (x ∷ xs) (p, h) = (f x p, All-map f xs h)

  pub Any-map : {P Q : A → Type 0} → ((x : A) → P x → Q x) → (xs : List A) → Any P xs → Any Q xs
  Any-map f [] h = h
  Any-map f (x ∷ xs) (inl p) = inl (f x p)
  Any-map f (x ∷ xs) (inr h) = inr (Any-map f xs h)

  -- A test that holds of an element, against a predicate.
  pub any-Any :
      {P : A → Type 0} (p : A → Bool)
      → ((x : A) → p x ≡ true → P x)
      → (xs : List A) → any p xs ≡ true
      → Any P xs
  any-Any p f [] h = cc
  any-Any p f (x ∷ xs) h = elim (Bool-cases (p x)) [
    | inl holds ↦ inl (f x holds)
    | inr fails ↦ inr (any-Any p f xs (rw fails at h))
  ]

  pub Any-any :
      {P : A → Type 0} (p : A → Bool)
      → ((x : A) → P x → p x ≡ true)
      → (xs : List A) → Any P xs
      → any p xs ≡ true
  Any-any p f [] h = absurd h
  Any-any p f (x ∷ xs) (inl here) = rw (f x here) refl
  Any-any p f (x ∷ xs) (inr there) = ground (arith, Any-any p f xs there)

  pub Any-append : (P : A → Type 0) (xs ys : List A) → Any P xs ⊎ Any P ys → Any P (xs ++ ys)
  Any-append P [] ys (inl h) = absurd h
  Any-append P [] ys (inr h) = h
  Any-append P (x ∷ xs) ys (inl (inl p)) = inl p
  Any-append P (x ∷ xs) ys (inl (inr h)) = inr (Any-append P xs ys (inl h))
  Any-append P (x ∷ xs) ys (inr h) = inr (Any-append P xs ys (inr h))

  pub Any-is_empty : (P : A → Type 0) (xs : List A) → is_empty xs ≡ true → Any P xs → ⊥
  Any-is_empty P [] h found = found
  Any-is_empty P (x ∷ xs) h found = cc

  pub is_empty-append : (xs ys : List A) → is_empty (xs ++ ys) ≡ (is_empty xs && is_empty ys)
  is_empty-append [] ys = refl
  is_empty-append (x ∷ xs) ys = refl

  pub any-is_empty : (p : A → Bool) (xs : List A) → is_empty xs ≡ true → any p xs ≡ false
  any-is_empty p [] h = refl
  any-is_empty p (x ∷ xs) h = cc

  pub all-is_empty : (p : A → Bool) (xs : List A) → is_empty xs ≡ true → all p xs ≡ true
  all-is_empty p [] h = refl
  all-is_empty p (x ∷ xs) h = cc

  pub All-zip : (P Q : A → Type 0) (xs : List A) → All P xs → All Q xs → All (λ x. P x × Q x) xs
  All-zip P Q [] h k = tt
  All-zip P Q (x ∷ xs) (p, h) (q, k) = ((p, q), All-zip P Q xs h k)

  pub any-false : (p : A → Bool) (xs : List A) → any p xs ≡ false → All (λ x. p x ≡ false) xs
  any-false p [] h = tt
  any-false p (x ∷ xs) h = (ground (arith, h), any-false p xs (ground (arith, h)))

  -- A relation between each element and those after it.
  abbrev pub Pairs : (A → A → Type 0) → List A → Type 0
  Pairs R [] = Unit
  Pairs R (x ∷ xs) = All (R x) xs × Pairs R xs

  -- Between any two elements, if it is reflexive and symmetric.
  pub All-Pairs :
      (R : A → A → Type 0)
      → ((a : A) → R a a)
      → ((a b : A) → R a b → R b a)
      → (xs : List A) → Pairs R xs
      → All (λ a. All (R a) xs) xs
  All-Pairs R here turn [] h = tt
  All-Pairs R here turn (x ∷ xs) (first, rest) = (
    (here x, first),
    All-zip (λ a. R a x) (λ a. All (R a) xs) xs (All-map (λ a r. turn x a r) xs first)
        (All-Pairs R here turn xs rest),
  )

-- Tests of the images of a list's elements.
module _ {ℓ} {A B : Type ℓ} where
  pub is_empty-map : (f : A → B) (xs : List A) → is_empty (map f xs) ≡ is_empty xs
  is_empty-map f [] = refl
  is_empty-map f (x ∷ xs) = refl

  pub any-map :
      (p : A → Bool) (q : B → Bool) (f : A → B)
      → ((x : A) → q (f x) ≡ p x)
      → (xs : List A) → any q (map f xs) ≡ any p xs
  any-map p q f same [] = refl
  any-map p q f same (x ∷ xs) = rw (same x, any-map p q f same xs) refl

  pub all-map :
      (p : A → Bool) (q : B → Bool) (f : A → B)
      → ((x : A) → q (f x) ≡ p x)
      → (xs : List A) → all q (map f xs) ≡ all p xs
  all-map p q f same [] = refl
  all-map p q f same (x ∷ xs) = rw (same x, all-map p q f same xs) refl

-- A relation between the elements of two lists, seen from the other.
pub All-swap :
    {A B : Type 0} (R : A → B → Type 0) (xs : List A) (ys : List B)
    → All (λ x. All (R x) ys) xs
    → All (λ y. All (λ x. R x y) xs) ys
All-swap R xs [] h = tt
All-swap R xs (y ∷ ys) h = (All-map (λ x k. k.0) xs h, All-swap R xs ys (All-map (λ x k. k.1) xs h))
