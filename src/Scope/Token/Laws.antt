-- ===== src/Scope/Token/Laws.antt =====
-- policy/scope/scope.go: the language of tokens, in both directions.
use grpcapi.Base.{
  ℕ, Char, code, String, ◌≡◌, refl, sym, ap, ◌∙◌, ◌⊎◌, inl, inr, true, false, ◌||◌, Option, none,
  some, arith, ◌==◌, eq_iff, Bool-cases, Option-cases, str_append, ok,
}
use grpcapi.Scope.Token.{
  Split, parse_split, split_dot, is_wildcard, split_token, parse, is_op, cut_last, has_code,
}
use Prim.Native.String.append

cut_last-none : (sep : ℕ) (s : String) → has_code sep s ≡ false → cut_last sep s ≡ none
unfolding cut_last
cut_last-none sep String.[] h = refl
cut_last-none sep (String.◌∷◌ c s) h =
    let rest = cut_last-none sep s (ground arith) in rw (rest, cut_last) (ground arith)

-- A text is cut at the separator after which it has none.
pub cut_last-append :
    (sep : ℕ) (s : String) (c : Char) (t : String)
    → code c ≡ sep
    → has_code sep t ≡ false
    → cut_last sep (str_append s (String.◌∷◌ c t)) ≡ some (s, t)
unfolding cut_last
cut_last-append sep String.[] c t e h =
    rw (append.nil (String.◌∷◌ c t)) (rw (cut_last-none sep t h, cut_last) (ground arith))
cut_last-append sep (String.◌∷◌ d s) c t e h =
    rw (append.cons d s (String.◌∷◌ c t)) (rw (cut_last-append sep s c t e h, cut_last) refl)

-- Where nothing is cut there is no separator.
has_code-false : (sep : ℕ) (s : String) → cut_last sep s ≡ none → has_code sep s ≡ false
unfolding cut_last
has_code-false sep String.[] h = refl
has_code-false sep (String.◌∷◌ c s) h = elim (Option-cases (cut_last sep s)) [
  | inl e ↦ let rest = has_code-false sep s e in let h' = rw (e, cut_last) at h in ground arith
  | inr (parts, e) ↦ let h' = rw (e, cut_last) at h in cc
]

-- What is cut is put together again, and its second part has no separator.
cut_last_sound :
    (sep : ℕ) (s before after : String)
    → cut_last sep s ≡ some (before, after)
    → (c : Char) × (code c ≡ sep)
      × (s ≡ str_append before (String.◌∷◌ c after))
      × (has_code sep after ≡ false)
unfolding cut_last
cut_last_sound sep String.[] before after h = cc
cut_last_sound sep (String.◌∷◌ c s) before after h = elim (Option-cases (cut_last sep s)) [
  | inr ((b, a), e) ↦
      let (d, is_sep, parts, clear) = cut_last_sound sep s b a e in
      let h' = rw (e, cut_last) at h in
      let same_b : String.◌∷◌ c b ≡ before = ground arith in
      let same_a : a ≡ after = ground arith in
      (
        d,
        is_sep,
        rw (← same_b, ← same_a)
            (rw (append.cons c b (String.◌∷◌ d a)) (ap (λ t. String.◌∷◌ c t) parts)),
        rw (← same_a) clear,
      )
  | inl e ↦
      let h' = rw (e, cut_last) at h in
      let is_sep : code c ≡ sep = ground arith in
      let same_b : String.[] ≡ before = ground arith in
      let same_a : s ≡ after = ground arith in
      (
        c,
        is_sep,
        rw (← same_b, ← same_a) (sym (append.nil (String.◌∷◌ c s))),
        rw (← same_a) (has_code-false sep s e),
      )
]

pub has_code-append :
    (k : ℕ) (s t : String) → has_code k (str_append s t) ≡ (has_code k s || has_code k t)
has_code-append k String.[] t = rw (append.nil t)
has_code-append k (String.◌∷◌ c s) t =
    rw (append.cons c s t) (ground (arith, has_code-append k s t))

-- A direction: read, write or admin.
pub is_op-cases :
    (op : String) → is_op op ≡ true → (op ≡ "read") ⊎ ((op ≡ "write") ⊎ (op ≡ "admin"))
unfolding is_op
is_op-cases op h = ground (arith, eq_iff op "read", eq_iff op "write", eq_iff op "admin")

pub is_op-clear :
    (op : String) → is_op op ≡ true → (has_code b':' op ≡ false) × (has_code b'*' op ≡ false)
is_op-clear op h = elim (is_op-cases op h) [
  | inl e ↦ rw e (refl, refl)
  | inr (inl e) ↦ rw e (refl, refl)
  | inr (inr e) ↦ rw e (refl, refl)
]

-- The canonical form `resource:op`.
abbrev pub print : String → String → String
print res op = str_append res (String.◌∷◌ ":" op)

-- A text with a colon is none of the reserved words.
colon-ne :
    (token word : String) {parts : String × String}
    → cut_last b':' token ≡ some parts
    → cut_last b':' word ≡ none
    → (token == word) ≡ false
colon-ne token word h k = elim (Bool-cases (token == word)) [
  | inr e ↦ e
  | inl e ↦ let same = (eq_iff token word).0 e in let h' = rw same at h in cc
]

-- What a policy or a key writes as `resource:op` is read back as it was written, if the resource is
-- not empty, no reserved word, and holds no star, and the direction is a known one.
pub parse-print :
    (res op : String)
    → (res == "") ≡ false
    → is_wildcard res ≡ false
    → has_code b'*' res ≡ false
    → is_op op ≡ true
    → parse (print res op) ≡ ok (res, op)
unfolding parse split_token
parse-print res op filled plain starless known =
    let (colonless, starless_op) = is_op-clear op known in
    let cut = cut_last-append b':' res ":" op refl colonless in
    let e1 = colon-ne (print res op) "" cut (cut_last-none b':' "" refl) in
    let e2 = colon-ne (print res op) "*" cut (cut_last-none b':' "*" refl) in
    let e3 = colon-ne (print res op) "all" cut (cut_last-none b':' "all" refl) in
    let no_star : has_code b'*' (print res op) ≡ false =
      has_code-append b'*' res (String.◌∷◌ ":" op) ∙ ground (arith, starless, starless_op) in
    rw (e1, e2, e3, no_star) (rw (cut, split_token) (ground (arith, filled, plain, known)))

split_dot_sound :
    (token : String) (o : Option (String × String)) (res op : String)
    → cut_last b'.' token ≡ o
    → split_dot token o ≡ (res, op, true)
    → (c : Char) × (code c ≡ b'.') × (token ≡ str_append res (String.◌∷◌ c op))
unfolding split_dot
split_dot_sound token none res op e h = absurd (ground arith)
split_dot_sound token (some (r, o)) res op e h =
    let (c, is_dot, parts, clear) = cut_last_sound b'.' token r o e in
    let same_r : r ≡ res = ground arith in
    let same_o : o ≡ op = ground arith in (c, is_dot, rw (← same_r, ← same_o) parts)

split_token_sound :
    (token res op : String)
    → split_token token ≡ (res, op, true)
    → (c : Char) × ((code c ≡ b':') ⊎ (code c ≡ b'.')) × (token ≡ str_append res (String.◌∷◌ c op))
unfolding split_token
split_token_sound token res op h = elim (Option-cases (cut_last b':' token)) [
  | inr ((r, o), e) ↦
      let h' = rw (e, split_token) at h in
      let (c, is_colon, parts, clear) = cut_last_sound b':' token r o e in
      let same_r : r ≡ res = ground arith in
      let same_o : o ≡ op = ground arith in (c, inl is_colon, rw (← same_r, ← same_o) parts)
  | inl e ↦
      let h' = rw (e, split_token) at h in
      let (c, is_dot, parts) = split_dot_sound token (cut_last b'.' token) res op refl h' in
      (c, inr is_dot, parts)
]

parse_split-op :
    (split : Split) (res op : String)
    → parse_split split ≡ ok (res, op)
    → (op == "") ≡ false
    → (split ≡ (res, op, true)) × (is_op op ≡ true) × ((res == "") ≡ false)
unfolding parse_split
parse_split-op (r, o, false) res op h filled = absurd (ground (arith, eq_iff op ""))
parse_split-op (r, o, true) res op h filled = (ground arith, ground arith, ground arith)

parse-parse_split :
    (token res op : String)
    → parse token ≡ ok (res, op)
    → (op == "") ≡ false
    → parse_split (split_token token) ≡ ok (res, op)
unfolding parse
parse-parse_split token res op h filled = ground (arith, eq_iff op "")

-- A resource and a direction that are read from a token are written in it, with a colon or a dot
-- between them; the resource is not empty and the direction is a known one.
pub parse_sound :
    (token res op : String)
    → parse token ≡ ok (res, op)
    → (op == "") ≡ false
    → (is_op op ≡ true)
      × ((res == "") ≡ false)
      × (c : Char) × ((code c ≡ b':') ⊎ (code c ≡ b'.'))
      × (token ≡ str_append res (String.◌∷◌ c op))
parse_sound token res op h filled =
    let (split, known, named) =
      parse_split-op (split_token token) res op (parse-parse_split token res op h filled) filled in
    let (c, sep, parts) = split_token_sound token res op split in (known, named, c, sep, parts)

-- A token with a colon is split there, and is no reserved word.
pub split_token-print :
    (res seg : String)
    → has_code b':' seg ≡ false
    → (split_token (print res seg) ≡ (res, seg, true)) × (is_wildcard (print res seg) ≡ false)
unfolding split_token
split_token-print res seg clear =
    let cut = cut_last-append b':' res ":" seg refl clear in
    let e1 = colon-ne (print res seg) "*" cut (cut_last-none b':' "*" refl) in
    let e2 = colon-ne (print res seg) "all" cut (cut_last-none b':' "all" refl) in
    (rw (cut, split_token) refl, rw (e1, e2) refl)
