-- ===== src/Authn/Session/Laws.antt =====
-- authn/session/session.go: the signature of a session's ID and the sessions that a cookie stands for.
use grpcapi.Base.{
  Char, code, String, ◌≡◌, refl, ap, ◌∙◌, inl, inr, true, false, some, arith, ◌==◌, eq_iff, eq_refl,
  nat_eq, Option-cases, cut, without, cut-append, cut_sound,
}
use Prim.Native.String
use Prim.Native.String.append
use text.Mathlib.TextEquality.{Char-path}
use grpcapi.Authn.Session.{sign, verify}

module _ (mac : String → String) where
  sign-parts : (id : String) → sign mac id ≡ String.◌++◌ id (String.◌∷◌ "." (mac id))
  unfolding sign
  sign-parts id =
      ap (λ t. String.◌++◌ id t)
        (rw (append.cons "." "" (mac id)) (ap (λ t. String.◌∷◌ "." t) (append.nil (mac id))))

  -- An ID that can be signed: it has no dot, and it and its signature are not empty.
  pub record IsSignable (id : String) : Type 0 where
    pub clear : without b'.' id ≡ true
    pub id_full : (id == "") ≡ false
    pub signature_full : (mac id == "") ≡ false

  verify-signed :
      (id sig : String) (c : Char)
      → nat_eq (code c) b'.' ≡ true
      → sig ≡ mac id
      → String.◌++◌ id (String.◌∷◌ c sig) ≡ sign mac id
  verify-signed id sig c dot same = rw (sign-parts id, same, Char-path c "." (ground arith)) refl

  -- What `verify` accepts is a signable ID with its signature.
  pub verify_sound :
      (value id : String) → verify mac value ≡ some id → (value ≡ sign mac id) × IsSignable id
  unfolding verify
  verify_sound value id h = elim (Option-cases (cut b'.' value)) [
    | inl bare ↦ absurd (ground arith)
    | inr ((before, after), parts) ↦
        let h' = rw (parts, verify) at h in
        let (c, dot, clear, whole) = cut_sound b'.' value before after parts in
        let full : before == "" ≡ false = ground arith in
        let present : after == "" ≡ false = ground arith in
        let signed : after ≡ mac before = ground (arith, eq_iff after (mac before)) in
        let same : before ≡ id = ground (arith, eq_iff after (mac before)) in
        (
          whole ∙ verify-signed before after c dot signed ∙ ap (sign mac) same,
          rw (← same)
              (record { clear = clear; id_full = full; signature_full = rw (← signed) present }),
        )
  ]

  pub verify-sign : (id : String) → IsSignable id → verify mac (sign mac id) ≡ some id
  unfolding verify
  verify-sign id s =
      rw
        (
          sign-parts id,
          verify,
          cut-append b'.' id "." (mac id) s.clear refl,
          s.id_full,
          s.signature_full,
          eq_refl (mac id),
        )
        refl
