-- ===== src/Actions/Descriptor.antt =====
-- packages/action-contract/src/index.mjs: `validateActionDescriptor`.
pub mod Validate
pub mod Sound
pub mod Tests
use useful.Common.{
  ℕ, ◌+◌, ◌-◌, Bool, true, false, not, ◌&&◌, ◌||◌, List, [], ◌∷◌, ◌++◌, Option, none, some, Text,
  codes, length, all, text_eq, contains, ltb, ◌==◌, if◌then◌else◌, String, is_digit, is_lower,
  is_upper,
}
use useful.Js.Value.{
  Value, undefined, null, bool, int, number, str, arr, obj, pos, items, get, has_key, is_object,
  own_keys, is_text,
}
use useful.Js.Json.{key_units}
use useful.Js.Show.{show_nat}
use useful.ComputerUse.Base.{is_sha256}
use useful.Actions.Contract.Shape.{Issues, issue_if, below, string_array, unknown_keys}
use useful.Actions.Recipe.Pointer.{is_segment, segments_of, begins_with_slash}
use useful.Actions.Recipe.{is_action_id}
use useful.Actions.Query.Words.{starts_with}

unfoldable pub reserved_names : List Text
reserved_names =
    codes "useful.actions.search"
    ∷ codes "useful.actions.describe"
    ∷ codes "useful.actions.suggest"
    ∷ codes "useful.actions.recipe"
    ∷ []

unfoldable pub is_reserved_action_name : Value → Bool
is_reserved_action_name (str t) = contains reserved_names t
is_reserved_action_name _ = false

-- The issues of a row of checks.
unfoldable pub join : List Issues → Issues
join [] = []
join (found ∷ rest) = found ++ join rest

unfoldable pub missing_from : List String → Value → Text → Issues
missing_from [] value path = []
missing_from (k ∷ ks) value path =
    issue_if (not (has_key k (own_keys value))) (below path (key_units k))
    ++ missing_from ks value path

-- `requireKeys`, and what is checked behind it if the value is an object.
unfoldable pub require_keys : Value → List String → List String → Text → Issues → Issues
require_keys value required allowed path behind =
    if is_object value
    then missing_from required value path ++ (unknown_keys allowed (own_keys value) path ++ behind)
    else path ∷ []

-- `/^[0-9]+\.[0-9]+\.[0-9]+(?:-[0-9A-Za-z.-]+)?$/`: the dots that are to come, and whether a digit stands in
-- front.
abbrev pub is_label : ℕ → Bool
is_label c = is_digit c || is_upper c || is_lower c || c == b'.' || c == b'-'

unfoldable pub is_version_tail : ℕ → Bool → Text → Bool
is_version_tail dots ready [] = ready && dots == 0
is_version_tail dots ready (c ∷ t) = elim (is_digit c) [
  | true ↦ is_version_tail dots true t
  | false ↦ elim (c == b'.' && ltb 0 dots) [
    | true ↦ ready && is_version_tail (dots - 1) false t
    | false ↦ ready && (dots == 0 && (c == b'-' && (ltb 0 (length t) && all is_label t)))
  ]
]

abbrev pub is_version : Text → Bool
is_version t = is_version_tail 2 false t

-- `/^(?:\/(?:[^~/]|~0|~1)*)*$/`.
unfoldable pub is_json_pointer : Text → Bool
is_json_pointer [] = true
is_json_pointer (c ∷ t) = begins_with_slash (c ∷ t) && all is_segment (segments_of (c ∷ t))

-- `typeof value === "string"`, and the test of the text.
abbrev pub is_text_with : (Text → Bool) → Value → Bool
is_text_with test (str t) = test t
is_text_with test _ = false

-- A text that is not empty.
abbrev pub is_filled : Value → Bool
is_filled (str (c ∷ t)) = true
is_filled _ = false

-- A value as a condition.
abbrev pub is_truthy : Value → Bool
is_truthy undefined = false
is_truthy null = false
is_truthy (bool b) = b
is_truthy (int (pos n)) = ltb 0 n
is_truthy (number t) = not (text_eq t (codes "NaN"))
is_truthy (str t) = ltb 0 (length t)
is_truthy _ = true

-- `value?.length` as a condition. A function here has no parameters.
abbrev pub has_length : Value → Bool
has_length (str t) = ltb 0 (length t)
has_length (arr vs) = ltb 0 (length (items vs))
has_length (obj fs) = is_truthy (get "length" (obj fs))
has_length _ = false

-- A test of each entry of an array, from `index`.
unfoldable pub flag_each : (Value → Bool) → Text → ℕ → List Value → Issues
flag_each test path index [] = []
flag_each test path index (v ∷ vs) =
    issue_if (test v) (below path (show_nat index)) ++ flag_each test path (index + 1) vs

-- The entries that `value.aliases?.forEach` goes over. It throws for what has no `forEach`.
abbrev pub alias_entries : Value → Option (List Value)
alias_entries undefined = some []
alias_entries null = some []
alias_entries (arr vs) = some (items vs)
alias_entries _ = none

unfoldable pub is_builtin_name : Value → Bool
is_builtin_name (str t) = starts_with t (codes "builtin.")
is_builtin_name _ = false

unfoldable pub identity_issues : Value → List Value → Issues
identity_issues value aliases = join (
    issue_if (not (is_text "1.0" (get "contractVersion" value))) (codes "/contractVersion")
    ∷ issue_if (not (is_text_with is_action_id (get "actionId" value))) (codes "/actionId")
    ∷ issue_if (is_reserved_action_name (get "actionId" value)) (codes "/actionId")
    ∷ issue_if (not (is_text_with is_version (get "version" value))) (codes "/version")
    ∷ issue_if (not (is_filled (get "title" value))) (codes "/title")
    ∷ issue_if (not (is_filled (get "description" value))) (codes "/description")
    ∷ string_array (get "keywords" value) (codes "/keywords") 64 false
    ∷ string_array (get "aliases" value) (codes "/aliases") 32 false
    ∷ flag_each is_reserved_action_name (codes "/aliases") 0 aliases
    ∷ [])

-- `!value.actionId.startsWith(`${value.source.toolId}.`)`, if both are texts.
unfoldable pub is_outside : Value → Value → Bool
is_outside (str action_id) (str tool_id) = not (starts_with action_id (tool_id ++ b'.' ∷ []))
is_outside _ _ = false

-- Only a builtin source may use the names below `builtin`, and a plugin has those below its tool.
unfoldable pub namespace_issues : Value → Value → List Value → Issues
namespace_issues action_id source aliases =
    if is_text "builtin" (get "kind" source)
    then join (
        issue_if (not (is_builtin_name action_id)) (codes "/actionId")
        ∷ issue_if (not (is_builtin_name (get "toolId" source))) (codes "/source/toolId")
        ∷ [])
    else join (
        issue_if (is_builtin_name action_id) (codes "/actionId")
        ∷ issue_if (is_builtin_name (get "toolId" source)) (codes "/source/toolId")
        ∷ flag_each is_builtin_name (codes "/aliases") 0 aliases
        ∷ issue_if
            (is_text "plugin" (get "kind" source) && is_outside action_id (get "toolId" source))
            (codes "/actionId")
        ∷ [])

abbrev pub is_source_kind : Value → Bool
is_source_kind v = is_text "builtin" v || is_text "plugin" v || is_text "local" v

unfoldable pub source_issues : Value → Value → List Value → Issues
source_issues action_id source aliases =
    require_keys source ("kind" ∷ "toolId" ∷ "publisher" ∷ "digest" ∷ [])
      ("kind" ∷ "toolId" ∷ "publisher" ∷ "digest" ∷ []) (codes "/source")
      (join (
        issue_if (not (is_source_kind (get "kind" source))) (codes "/source/kind")
        ∷ issue_if (not (is_filled (get "toolId" source))) (codes "/source/toolId")
        ∷ issue_if (not (is_text_with is_sha256 (get "digest" source))) (codes "/source/digest")
        ∷ require_keys (get "publisher" source) ("id" ∷ []) ("id" ∷ "name" ∷ [])
            (codes "/source/publisher")
            (issue_if (not (is_filled (get "id" (get "publisher" source))))
              (codes "/source/publisher/id"))
        ∷ namespace_issues action_id source aliases
        ∷ []))
