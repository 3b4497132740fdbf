-- ===== src/Actions/Recipe/Pointer.antt =====
-- packages/action-runtime/src/recipe.mjs: the references of a recipe.
use useful.Common.{
  drop, is_digit, is_lower, ℕ, Bool, true, false, not, ◌&&◌, ◌||◌, List, [], ◌∷◌, Option, none,
  some, Text, codes, length, all, text_eq, contains, leb, ◌==◌, if◌then◌else◌, Result, ok, err,
  ◌>>=◌, ◌>>◌, guard, require,
}
use useful.Js.Value.{Value, str}
use useful.ComputerUse.Address.V4.{split}

-- The codes of `ActionRecipeError`, without the prefix ACTION_RECIPE.
pub data RecipeCode : Type 0 where
  invalid version_unsupported too_large step_limit step_id_invalid action_invalid : RecipeCode
  unknown_action alias_forbidden action_not_allowed template_too_large : RecipeCode
  template_too_deep interpolation_forbidden forbidden_key reference_invalid : RecipeCode
  forward_reference reference_missing expansion_too_large intermediate_too_large : RecipeCode

-- `FORBIDDEN_KEYS.has(key)`.
unfoldable pub is_forbidden : Text → Bool
unfolding text_eq
is_forbidden key =
    text_eq key (codes "__proto__")
    || text_eq key (codes "prototype")
    || text_eq key (codes "constructor")

-- `text.replace(/~1/gu, "/")` for `digit` 1, and the same for 0 and `~`.
unfoldable pub replace_escape : ℕ → ℕ → Text → Text
replace_escape digit unit [] = []
replace_escape digit unit (c ∷ []) = c ∷ []
replace_escape digit unit (c ∷ d ∷ t) = elim (c == b'~' && d == digit) [
  | true ↦ unit ∷ replace_escape digit unit t
  | false ↦ c ∷ replace_escape digit unit (d ∷ t)
]

unfoldable pub decode_pointer_segment : Text → Result RecipeCode Text
unfolding replace_escape is_forbidden
decode_pointer_segment segment = do
  let decoded = replace_escape b'0' b'~' (replace_escape b'1' b'/' segment)
  guard (not (is_forbidden decoded)) forbidden_key
  ok decoded

-- `(?:[^~/]|~0|~1)*`, for a segment, which has no slash.
unfoldable pub is_segment : Text → Bool
is_segment [] = true
is_segment (c ∷ []) = not (c == b'~')
is_segment (c ∷ d ∷ t) = (not (c == b'~') || d == b'0' || d == b'1') && is_segment (d ∷ t)

-- `/^[a-z][a-z0-9_-]{0,31}$/u`.
unfoldable pub is_step_id : Text → Bool
is_step_id [] = false
is_step_id (c ∷ t) =
    is_lower c
    && leb (length t) 31
    && all (λ d. is_lower d || is_digit d || d == b'_' || d == b'-') t

-- What a reference begins with: the input, or the output of a step.
pub data Target : Type 0 where
  input_target : Target
  step_target : Text → Target

unfoldable pub match_step : List Text → Option (Target × List Text)
unfolding is_step_id is_segment text_eq
match_step (id ∷ output ∷ more) =
    if is_step_id id && (text_eq output (codes "output") && all is_segment more)
    then some (step_target id, more)
    else none
match_step _ = none

-- The match of `REFERENCE` on the segments of a pointer behind its first slash, with the rest of them.
unfoldable pub match_reference : List Text → Option (Target × List Text)
unfolding is_segment match_step text_eq
match_reference [] = none
match_reference (first ∷ rest) =
    if text_eq first (codes "input")
    then if all is_segment rest then some (input_target, rest) else none
    else if text_eq first (codes "steps")
    then match_step rest
    else none

-- `pointer.split("/").slice(1)`, if the pointer begins with a slash.
abbrev pub segments_of : Text → List Text
segments_of pointer = drop 1 (split b'/' pointer)

abbrev pub begins_with_slash : Text → Bool
begins_with_slash [] = false
begins_with_slash (c ∷ t) = c == b'/'

unfoldable pub decode_all : List Text → Result RecipeCode (List Text)
unfolding decode_pointer_segment
decode_all [] = ok []
decode_all (segment ∷ segments) = do
  decoded ← decode_pointer_segment segment
  rest ← decode_all segments
  ok (decoded ∷ rest)

-- A step that is referred to has been completed.
abbrev pub is_known : List Text → Target → Bool
is_known completed input_target = true
is_known completed (step_target id) = contains completed id

unfoldable pub validate_reference : Value → List Text → Result RecipeCode (Unit {0})
unfolding split match_reference decode_all contains
validate_reference (str pointer) completed = do
  guard (begins_with_slash pointer) reference_invalid
  found ← require (match_reference (segments_of pointer)) reference_invalid
  guard (is_known completed found.0) forward_reference
  decoded ← decode_all (segments_of pointer)
  ok tt
validate_reference _ completed = err reference_invalid
