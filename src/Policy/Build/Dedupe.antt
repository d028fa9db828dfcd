-- ===== src/Policy/Build/Dedupe.antt =====
-- policy/build.go: the files that `dedupeFiles` keeps.
use grpcapi.Base.{
  String, ◌≡◌, refl, sym, inl, inr, false, Option, none, some, List, [], ◌∷◌, Memᴰ, arith,
  Bool-cases, Any, contains, ne_false, First, Any-sort_by,
}
use grpcapi.Policy.Descriptors.{FileDescriptor}
use grpcapi.Policy.Build.{dedupe, dedupe_files}

abbrev pub path_of : FileDescriptor → String
path_of fd = fd.path

Any-dedupe :
    (seen : List String) (files : List (Option FileDescriptor)) (fd : FileDescriptor)
    → contains seen fd.path ≡ false
    → First path_of fd files
    → Any (λ x. fd ≡ x) (dedupe seen files)
unfolding dedupe
Any-dedupe seen [] fd new h = h
Any-dedupe seen (none ∷ files) fd new h = Any-dedupe seen files fd new h
Any-dedupe seen (some x ∷ files) fd new (inl same) =
    let fresh : contains seen x.path ≡ false = rw same new in rw fresh (inl (sym same))
Any-dedupe seen (some x ∷ files) fd new (inr (other, h)) =
    elim (Bool-cases (contains seen x.path)) [
      | inl dup ↦ rw dup (Any-dedupe seen files fd new h)
      | inr fresh ↦ rw fresh (
          inr (
            Any-dedupe (x.path ∷ seen) files fd (ground (arith, new, ne_false x.path fd.path other))
              h))
    ]

Any-Mem : (fd : FileDescriptor) (xs : List FileDescriptor) → Any (λ x. fd ≡ x) xs → Memᴰ fd xs
Any-Mem fd [] h = absurd h
Any-Mem fd (x ∷ xs) (inl e) = Memᴰ.head e
Any-Mem fd (x ∷ xs) (inr h) = Memᴰ.tail (Any-Mem fd xs h)

-- The first file of each path is kept.
pub dedupe_files-First :
    (files : List (Option FileDescriptor)) (fd : FileDescriptor)
    → First path_of fd files
    → Memᴰ fd (dedupe_files files)
unfolding dedupe_files
dedupe_files-First files fd h =
    Any-Mem fd (dedupe_files files)
      (Any-sort_by path_of (λ x. fd ≡ x) (dedupe [] files) (Any-dedupe [] files fd refl h))
