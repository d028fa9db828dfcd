-- ===== src/Tests/Tokens.antt =====
-- Scope tokens on concrete texts.
use grpcapi.Base.{
  Char, code, String, ◌≡◌, refl, ◌⊎◌, true, false, ◌||◌, [], ◌∷◌, ◌==◌, str_append, ok,
}
use grpcapi.Scope.Token.{is_op, parse, cut_last}
use grpcapi.Scope.Token.Laws.{print, parse-print, parse_sound}
use grpcapi.Scope.Resource.{grants_instance_for}
use grpcapi.Scope.Resource.Laws.{grants_instance_for-append, grants_op_token}

parse-print_example : parse "databases:read" ≡ ok ("databases", "read")
unfolding is_op
parse-print_example = parse-print "databases" "read" refl refl refl refl

parse_sound_example :
    (is_op "read" ≡ true)
    × (("data.bases" == "") ≡ false)
    × (c : Char) × ((code c ≡ b':') ⊎ (code c ≡ b'.'))
    × ("data.bases.read" ≡ str_append "data.bases" (String.◌∷◌ c "read"))
unfolding parse grpcapi.Scope.Token.split_token cut_last is_op
parse_sound_example = parse_sound "data.bases.read" "data.bases" "read" refl refl

grants_op_token_example :
    grants_instance_for (print "databases" "read" ∷ []) "databases" "blog" "read" true ≡ false
unfolding is_op
grants_op_token_example = grants_op_token "databases" "read" "databases" "blog" "read" true refl

grants_instance_for-append_example :
    grants_instance_for ("databases:blog" ∷ "databases:shop" ∷ []) "databases" "shop" "read" false
    ≡ (grants_instance_for ("databases:blog" ∷ []) "databases" "shop" "read" false
        || grants_instance_for ("databases:shop" ∷ []) "databases" "shop" "read" false)
grants_instance_for-append_example =
    grants_instance_for-append ("databases:blog" ∷ []) ("databases:shop" ∷ []) "databases" "shop"
      "read" false

-- A token of one direction on an instance.
direction_granted :
    (grants_instance_for ("databases:blog.write" ∷ []) "databases" "blog" "write" false ≡ true)
    × (grants_instance_for ("databases:blog.write" ∷ []) "databases" "blog" "admin" false ≡ false)
unfolding grants_instance_for grpcapi.Scope.Token.split_token cut_last is_op
direction_granted = (refl, refl)
