-- ===== src/Actions/Recipe.antt =====
-- packages/action-runtime/src/recipe.mjs: the validation of a recipe.
pub mod Pointer
pub mod Run
pub mod Calls
pub mod Rounds
pub mod References
pub mod Found
pub mod Safe
pub mod Harmless
pub mod Ran
pub mod Tests
use useful.Common.{
  is_digit, is_lower, ℕ, ◌+◌, Bool, true, false, not, ◌&&◌, ◌||◌, List, [], ◌∷◌, Option, none, some,
  Text, length, any, all, text_eq, contains, ltb, leb, ◌==◌, if◌then◌else◌, Result, ok, ◌>>=◌, ◌>>◌,
  guard, require, String,
}
use useful.Js.Value.{
  Value, null, bool, number, str, arr, obj, Items, nil, cons, Fields, end, field, get, has_key,
  own_keys, as_text, as_items, is_text,
}
use text.Mathlib.Text.{◌==◌ as str_eq}
use useful.Js.Json.{is_finite, key_units}
use useful.Actions.Contract.{utf8_json_bytes}
use useful.Actions.Registry.{Descriptor, Mode, Entry, Registry, resolve, is_ui_only}
use Pointer.{
  RecipeCode, invalid, version_unsupported, too_large, step_limit, step_id_invalid, action_invalid,
  unknown_action, alias_forbidden, action_not_allowed, template_too_large, template_too_deep,
  interpolation_forbidden, forbidden_key, is_forbidden, is_step_id, validate_reference,
}

abbrev pub max_steps : ℕ
max_steps = 16

abbrev pub max_request_bytes : ℕ
max_request_bytes = 1048576

abbrev pub max_template_bytes : ℕ
max_template_bytes = 262144

abbrev pub max_template_depth : ℕ
max_template_depth = 32

abbrev pub max_template_nodes : ℕ
max_template_nodes = 4096

-- `isObject`: a plain object.
abbrev pub is_plain_object : Value → Bool
is_plain_object (obj fs) = true
is_plain_object _ = false

-- `exactObject(value, required, allowed)`.
unfoldable pub exact_object : Value → List String → List String → Result RecipeCode (Unit {0})
unfolding has_key is_forbidden key_units
exact_object value required allowed = do
  guard (is_plain_object value) invalid
  guard (all (λ key. has_key key (own_keys value)) required) invalid
  guard (all (λ key. has_key key allowed && not (is_forbidden (key_units key))) (own_keys value))
      invalid

unfoldable pub json_bytes : Value → Result RecipeCode ℕ
unfolding utf8_json_bytes
json_bytes value = require (utf8_json_bytes value) invalid

-- A `${` with a `}` somewhere behind it.
unfoldable pub has_interpolation : Text → Bool
has_interpolation [] = false
has_interpolation (c ∷ []) = false
has_interpolation (c ∷ d ∷ t) =
    if c == b'$' && d == b'{' then any (λ e. e == b'}') t else has_interpolation (d ∷ t)

-- `inspectTemplate` walks a template, which may refer to the steps that are `completed`, and
-- `inspectRecipeInput` walks the input.
pub data Inspection : Type 0 where
  in_template : List Text → Inspection
  in_input : Inspection

unfoldable pub inspect_text : Inspection → Text → Result RecipeCode (Unit {0})
unfolding has_interpolation
inspect_text (in_template completed) t = guard (not (has_interpolation t)) interpolation_forbidden
inspect_text in_input t = ok tt

-- `keys.length === 1 && Object.hasOwn(current, "$ref")`, in a template.
abbrev pub reference_of : Inspection → Fields → Option Value
reference_of (in_template completed) (field k v end) = if str_eq k "$ref" then some v else none
reference_of _ _ = none

abbrev pub completed_of : Inspection → List Text
completed_of (in_template completed) = completed
completed_of in_input = []

abbrev pub is_null_or_bool : Value → Bool
is_null_or_bool null = true
is_null_or_bool (bool b) = true
is_null_or_bool _ = false

-- A reference is checked, and any other object is walked, which gives `walked`.
unfoldable pub inspect_object :
    Inspection → Option Value → ℕ → Result RecipeCode ℕ → Result RecipeCode ℕ
unfolding validate_reference
inspect_object inspection none nodes walked = walked
inspect_object inspection (some reference) nodes walked =
    validate_reference reference (completed_of inspection) >> ok nodes

-- The limits that the walk tests at each node.
unfoldable pub enter : ℕ → ℕ → Result RecipeCode ℕ → Result RecipeCode ℕ
enter depth nodes rest =
    guard (leb (nodes + 1) max_template_nodes) template_too_large
    >> (guard (leb depth max_template_depth) template_too_deep >> rest)

-- The walk counts the nodes: `nodes` is the number before this one, and the result that after it. A
-- value is a tree here, so the test for a cycle never fires.
unfoldable mutual
  unfolding enter inspect_text is_finite is_forbidden inspect_object key_units

  pub inspect : Inspection → Value → ℕ → ℕ → Result RecipeCode ℕ
  inspect inspection (number t) depth nodes =
      enter depth nodes (guard (is_finite t) invalid >> ok (nodes + 1))
  inspect inspection (str t) depth nodes =
      enter depth nodes (inspect_text inspection t >> ok (nodes + 1))
  inspect inspection (arr vs) depth nodes =
      enter depth nodes (inspect_items inspection vs (depth + 1) (nodes + 1))
  inspect inspection (obj fs) depth nodes = enter depth nodes (
      inspect_object inspection (reference_of inspection fs) (nodes + 1)
        (inspect_fields inspection fs (depth + 1) (nodes + 1)))
  inspect inspection value depth nodes =
      enter depth nodes (guard (is_null_or_bool value) invalid >> ok (nodes + 1))

  pub inspect_items : Inspection → Items → ℕ → ℕ → Result RecipeCode ℕ
  inspect_items inspection nil depth nodes = ok nodes
  inspect_items inspection (cons v vs) depth nodes =
      inspect inspection v depth nodes >>= inspect_items inspection vs depth

  pub inspect_fields : Inspection → Fields → ℕ → ℕ → Result RecipeCode ℕ
  inspect_fields inspection end depth nodes = ok nodes
  inspect_fields inspection (field k v fs) depth nodes =
      guard (not (is_forbidden (key_units k))) forbidden_key
      >> (inspect inspection v depth nodes >>= inspect_fields inspection fs depth)

unfoldable pub inspect_template : Value → List Text → Result RecipeCode (Unit {0})
unfolding inspect json_bytes
inspect_template value completed = do
  nodes ← inspect (in_template completed) value 0 0
  bytes ← json_bytes value
  guard (leb bytes max_template_bytes) template_too_large

unfoldable pub eligible : Descriptor → Bool
eligible descriptor =
    not (is_ui_only descriptor.mode)
    && (descriptor.read_only
        && (not descriptor.destructive
            && (descriptor.idempotent
                && (not descriptor.open_world
                    && (not descriptor.requires_confirmation
                        && (ltb (length descriptor.side_effects) 1
                            && (ltb (length descriptor.required) 1
                                && ltb (length descriptor.capabilities) 1)))))))

-- `/^[a-z][a-z0-9_-]*(?:\.[a-z0-9][a-z0-9_-]*)+$/u`: `fresh` says that a part begins here, and `dotted` that
-- a dot stands in front.
abbrev pub is_word : ℕ → Bool
is_word c = is_lower c || is_digit c || c == b'_' || c == b'-'

unfoldable pub is_action_tail : Bool → Bool → Text → Bool
is_action_tail fresh dotted [] = dotted && not fresh
is_action_tail true dotted (c ∷ t) = (is_lower c || is_digit c) && is_action_tail false dotted t
is_action_tail false dotted (c ∷ t) =
    if c == b'.' then is_action_tail true true t else is_word c && is_action_tail false dotted t

unfoldable pub is_action_id : Text → Bool
unfolding is_action_tail
is_action_id [] = false
is_action_id (c ∷ t) = is_lower c && is_action_tail false false t

-- A step that has been validated, with its entry of the plan.
pub record Step : Type 0 where
  pub id : Text
  pub action_id : Text
  pub input : Value
  pub action_version : Text
  pub execution_mode : Mode

-- The identifier of a step and its action.
unfoldable pub read_step : Value → List Text → Result RecipeCode (Text × Text)
read_step step completed = do
  exact_object step ("id" ∷ "actionId" ∷ "input" ∷ []) ("id" ∷ "actionId" ∷ "input" ∷ [])
  id ← require (as_text (get "id" step)) step_id_invalid
  guard (is_step_id id && not (contains completed id)) step_id_invalid
  action_id ← require (as_text (get "actionId" step)) action_invalid
  guard (leb (length action_id) 200 && is_action_id action_id) action_invalid
  ok (id, action_id)

-- The steps of a recipe, once everything but the steps and the output has been checked.
unfoldable pub read_steps : Value → Result RecipeCode (List Value)
read_steps recipe = do
  exact_object recipe ("schemaVersion" ∷ "steps" ∷ "output" ∷ [])
      ("schemaVersion" ∷ "input" ∷ "steps" ∷ "output" ∷ [])
  guard (is_text "useful.action-recipe.v1" (get "schemaVersion" recipe)) version_unsupported
  bytes ← json_bytes recipe
  guard (leb bytes max_request_bytes) too_large
  nodes ←
      if has_key "input" (own_keys recipe) then inspect in_input (get "input" recipe) 0 0 else ok 0
  values ← require (as_items (get "steps" recipe)) step_limit
  guard (leb 1 (length values) && leb (length values) max_steps) step_limit
  ok values

module _ {H : Type 0} (registry : Registry H) where
  unfoldable pub resolve_action : Text → Result RecipeCode (Entry H)
  resolve_action action_id = do
    entry ← require (resolve registry action_id) unknown_action
    guard (text_eq entry.descriptor.action_id action_id) alias_forbidden
    guard (eligible entry.descriptor) action_not_allowed
    ok entry

  abbrev to_step : Text → Text → Value → Entry H → Step
  to_step id action_id input entry = record {
    id = id;
    action_id = action_id;
    input = input;
    action_version = entry.descriptor.version;
    execution_mode = entry.descriptor.mode;
  }

  unfoldable pub validate_step : Value → List Text → Result RecipeCode Step
  validate_step step completed = do
    names ← read_step step completed
    entry ← resolve_action names.1
    inspect_template (get "input" step) completed
    ok (to_step names.0 names.1 (get "input" step) entry)

  -- The loop over the steps. A new identifier is put in front of `completed`.
  unfoldable pub validate_steps : List Value → List Text → Result RecipeCode (List Step × List Text)
  validate_steps [] completed = ok ([], completed)
  validate_steps (value ∷ values) completed = do
    step ← validate_step value completed
    rest ← validate_steps values (step.id ∷ completed)
    ok (step ∷ rest.0, rest.1)

  unfoldable pub validate_recipe : Value → Result RecipeCode (List Step)
  validate_recipe recipe = do
    values ← read_steps recipe
    plan ← validate_steps values []
    inspect_template (get "output" recipe) plan.1
    ok plan.0
