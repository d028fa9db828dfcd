-- ===== src/Policy/Preset.antt =====
-- policy/preset.go: named policy macros, expanded when the policy table is built.
use grpcapi.Base.{
  ℕ, zero, suc, String, not, ◌&&◌, ◌||◌, Option, none, some, List, [], ◌∷◌, ◌++◌, ◌==◌,
  if◌then◌else◌, is_some, is_empty, contains, lookup, insert, Result, ◌>>=◌, ok, err,
}
use grpcapi.Status.{World}
use grpcapi.Policy.Spec.{Policy}
use grpcapi.Policy.Validate.{
  PresetError, depth_exceeded, cycle, unknown_preset, build_failed, anonymous_base,
  anonymous_inline,
}

-- A nil `Build` is none.
pub record Preset (w : World) : Type 0 where
  pub name : String
  pub build : Option (List (String × String) → Result w.Failure Policy)

abbrev pub PresetSet : World → Type 0
PresetSet w = List (String × (List (String × String) → Result w.Failure Policy))

abbrev pub max_preset_depth : ℕ
max_preset_depth = 8

unfoldable pub merge_policy :
    {w : World} → Policy → Policy → String → List (String × String) → Result (PresetError w) Policy
merge_policy base inline preset args =
    if base.anonymous
      && (inline.anonymous || not (is_empty inline.require) || not (is_empty inline.any_of))
    then err (anonymous_base preset)
    else if inline.anonymous && (not (is_empty base.require) || not (is_empty base.any_of))
    then err (anonymous_inline preset)
    else ok (record {
      preset = preset;
      preset_args = args;
      anonymous = base.anonymous || inline.anonymous;
      require = base.require ++ inline.require;
      any_of = base.any_of ++ inline.any_of;
      forbid = base.forbid ++ inline.forbid;
    })

module _ {w : World} where
  add_presets : PresetSet w → List (Preset w) → Result String (PresetSet w)
  add_presets out [] = ok out
  add_presets out (p ∷ presets) =
      let rest = λ (b : List (String × String) → Result w.Failure Policy).
        add_presets (insert p.name b out) presets in
      if p.name == "" then err "preset with empty name" else elim p.build [
        | none ↦ err "preset has nil Build"
        | some b ↦ (if is_some (lookup p.name out) then err "preset registered twice" else rest b)
      ]

  unfoldable pub new_preset_set : List (Preset w) → Result String (PresetSet w)
  unfolding add_presets
  new_preset_set presets = add_presets [] presets

  -- An error of `Build` is wrapped with the preset's name.
  built : String → Result w.Failure Policy → Result (PresetError w) Policy
  built name (ok p) = ok p
  built name (err e) = err (build_failed name e)

  -- The recursion of `expand`: the fuel is what is left of the depth, `max_preset_depth` less the
  -- length of the stack.
  expand_from : ℕ → PresetSet w → Policy → List String → Result (PresetError w) Policy
  expand_from zero ps p stack = if p.preset == "" then ok p else err (depth_exceeded stack p.preset)
  expand_from (suc depth) ps p stack =
      let deeper = λ (expanded : Policy). expand_from depth ps expanded (stack ++ p.preset ∷ []) in
      if p.preset == ""
      then ok p
      else if contains stack p.preset
      then err (cycle stack p.preset)
      else elim (lookup p.preset ps) [
        | none ↦ err (unknown_preset p.preset)
        | some build ↦ do
          base ← built p.preset (build p.preset_args)
          expanded ← deeper base
          merge_policy expanded p p.preset p.preset_args
      ]

  unfoldable pub expand : PresetSet w → Policy → Result (PresetError w) Policy
  unfolding expand_from built merge_policy
  expand ps p = expand_from max_preset_depth ps p []
