-- ===== src/Surface/Path.antt =====
-- surface/surface.go: the normal form of a route's path.
pub mod Laws
pub mod Normal
use grpcapi.Base.{
  ℕ, zero, suc, code, String, true, false, not, ◌&&◌, [], ◌∷◌, ◌==◌, ltb, nat_eq, if◌then◌else◌,
  str_append, trim_right, has_prefix, contains_text,
}

-- strings.ReplaceAll(path, "//", "/")
unfoldable pub collapse : String → String
collapse String.[] = ""
collapse (String.◌∷◌ c String.[]) = String.◌∷◌ c ""
collapse (String.◌∷◌ c (String.◌∷◌ d s)) = elim (nat_eq (code c) b'/' && nat_eq (code d) b'/') [
  | true ↦ String.◌∷◌ "/" (collapse s)
  | false ↦ String.◌∷◌ c (collapse (String.◌∷◌ d s))
]

-- The number of characters.
abbrev pub size : String → ℕ
size String.[] = 0
size (String.◌∷◌ c s) = suc (size s)

-- The loop `for strings.Contains(path, "//")`, on fuel.
unfoldable pub squeeze : ℕ → String → String
unfolding collapse
squeeze zero s = s
squeeze (suc n) s = elim (contains_text s "//") [ true ↦ squeeze n (collapse s) | false ↦ s ]

abbrev pub rooted : String → String
rooted path = if not (has_prefix path "/") then str_append "/" path else path

-- `NormalizePath`; the loop removes a character in each round.
unfoldable pub normalize_path : String → String
unfolding squeeze
normalize_path path =
    if path == ""
    then "/"
    else (let flat = squeeze (size (rooted path)) (rooted path) in
        if ltb 1 (size flat)
        then (let bare = trim_right b'/' flat in if bare == "" then "/" else bare)
        else flat)
