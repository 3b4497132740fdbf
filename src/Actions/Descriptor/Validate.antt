-- ===== src/Actions/Descriptor/Validate.antt =====
-- packages/action-contract/src/index.mjs: the parts of `validateActionDescriptor` behind the source.
use useful.Common.{
  ℕ, ◌+◌, Bool, true, false, not, ◌&&◌, ◌||◌, List, [], ◌∷◌, ◌++◌, Option, none, some, Text, codes,
  length, ltb, leb, if◌then◌else◌, String,
}
use useful.Js.Value.{
  Value, str, arr, items, get, has_key, is_object, own_keys, is_undefined, is_bool, is_true,
  is_text, nat_in,
}
use useful.Js.Json.{key_units}
use useful.Js.Show.{show_nat}
use useful.Actions.Contract.Shape.{Issues, issue_if, below, string_array, schema_shape}
use useful.Actions.Registry.{is_some}
use useful.Actions.Descriptor.{
  join, require_keys, is_json_pointer, is_text_with, is_filled, is_truthy, has_length, flag_each,
  alias_entries, identity_issues, source_issues,
}

-- Just one of the two expectations of a test vector.
abbrev pub has_one : Bool → Bool → Bool
has_one a b = (a && not b) || (b && not a)

unfoldable pub vector_issues : ℕ → List Value → Issues
vector_issues index [] = []
vector_issues index (vector ∷ vectors) =
    let path = below (codes "/testVectors") (show_nat index) in
    require_keys vector ("name" ∷ "input" ∷ [])
      ("name" ∷ "input" ∷ "expectedOutput" ∷ "expectedErrorCode" ∷ []) path
      (issue_if
        (not (
          has_one (has_key "expectedOutput" (own_keys vector))
            (has_key "expectedErrorCode" (own_keys vector))))
        path)
    ++ vector_issues (index + 1) vectors

abbrev pub is_array : Value → Bool
is_array (arr vs) = true
is_array _ = false

abbrev pub entries_of : Value → List Value
entries_of (arr vs) = items vs
entries_of _ = []

unfoldable pub test_issues : Value → Issues
test_issues value = join (
    issue_if (not (is_array (get "examples" value))) (codes "/examples")
    ∷ issue_if (ltb (length (entries_of (get "testVectors" value))) 1) (codes "/testVectors")
    ∷ vector_issues 0 (entries_of (get "testVectors" value))
    ∷ [])

abbrev pub is_execution_mode : Value → Bool
is_execution_mode v =
    is_text "pure" v || is_text "host" v || is_text "worker" v || is_text "ui-only" v

-- Whether a limit is an integer from 1 to its maximum.
abbrev pub is_limit : ℕ → Value → Bool
is_limit maximum v = is_some (nat_in 1 maximum v)

unfoldable pub execution_issues : Value → Issues
execution_issues execution =
    require_keys execution
      ("mode" ∷ "timeoutMs" ∷ "maxInputBytes" ∷ "maxOutputBytes" ∷ "supportsCancellation" ∷ [])
      ("mode" ∷ "handler" ∷ "timeoutMs" ∷ "maxInputBytes" ∷ "maxOutputBytes"
        ∷ "supportsCancellation" ∷ [])
      (codes "/execution")
      (let mode = get "mode" execution in
        let handler = get "handler" execution in
        join (
          issue_if (not (is_execution_mode mode)) (codes "/execution/mode")
          ∷ issue_if (is_text "ui-only" mode && not (is_undefined handler))
              (codes "/execution/handler")
          ∷ issue_if (not (is_text "ui-only" mode) && not (is_filled handler))
              (codes "/execution/handler")
          ∷ issue_if (not (is_limit 3600000 (get "timeoutMs" execution)))
              (codes "/execution/timeoutMs")
          ∷ issue_if (not (is_limit 16777216 (get "maxInputBytes" execution)))
              (codes "/execution/maxInputBytes")
          ∷ issue_if (not (is_limit 16777216 (get "maxOutputBytes" execution)))
              (codes "/execution/maxOutputBytes")
          ∷ issue_if (not (is_bool (get "supportsCancellation" execution)))
              (codes "/execution/supportsCancellation")
          ∷ []))

unfoldable pub bad_flags : List String → Value → Issues
bad_flags [] behavior = []
bad_flags (k ∷ ks) behavior =
    issue_if (not (is_bool (get k behavior))) (below (codes "/behavior") (key_units k))
    ++ bad_flags ks behavior

abbrev pub behavior_keys : List String
behavior_keys =
    "readOnly" ∷ "destructive" ∷ "idempotent" ∷ "openWorld" ∷ "sideEffects" ∷ "requiresConfirmation"
    ∷ []

-- `pure` says that the mode of execution is pure.
unfoldable pub behavior_issues : Bool → Value → Issues
behavior_issues pure behavior =
    require_keys behavior behavior_keys behavior_keys (codes "/behavior") (
      let destructive = get "destructive" behavior in
      let effects = get "sideEffects" behavior in
      join (
        bad_flags
          ("readOnly" ∷ "destructive" ∷ "idempotent" ∷ "openWorld" ∷ "requiresConfirmation" ∷ [])
          behavior
        ∷ string_array effects (codes "/behavior/sideEffects") 32 false
        ∷ issue_if (is_truthy destructive && not (is_truthy (get "requiresConfirmation" behavior)))
            (codes "/behavior/requiresConfirmation")
        ∷ issue_if
            (pure
              && (is_truthy (get "openWorld" behavior)
                  || is_truthy destructive
                  || has_length effects))
            (codes "/behavior")
        ∷ []))

unfoldable pub permission_issues : Bool → Value → Issues
permission_issues pure permissions =
    require_keys permissions ("required" ∷ "capabilities" ∷ []) ("required" ∷ "capabilities" ∷ [])
      (codes "/permissions")
      (let required = get "required" permissions in
        let capabilities = get "capabilities" permissions in
        join (
          string_array required (codes "/permissions/required") 128 false
          ∷ string_array capabilities (codes "/permissions/capabilities") 128 false
          ∷ issue_if (pure && (has_length required || has_length capabilities))
              (codes "/permissions")
          ∷ []))

-- A text that is no JSON pointer.
abbrev pub is_bad_pointer : Value → Bool
is_bad_pointer (str t) = not (is_json_pointer t)
is_bad_pointer _ = false

unfoldable pub pointer_issues : Value → Text → Issues
pointer_issues pointers path =
    string_array pointers path 64 true ++ flag_each is_bad_pointer path 0 (entries_of pointers)

unfoldable pub sensitive_issues : Value → Issues
sensitive_issues sensitive =
    require_keys sensitive ("input" ∷ "output" ∷ "redactLogs" ∷ [])
      ("input" ∷ "output" ∷ "redactLogs" ∷ []) (codes "/sensitive")
      (join (
        pointer_issues (get "input" sensitive) (codes "/sensitive/input")
        ∷ pointer_issues (get "output" sensitive) (codes "/sensitive/output")
        ∷ issue_if (not (is_true (get "redactLogs" sensitive))) (codes "/sensitive/redactLogs")
        ∷ []))

abbrev pub is_label_within : ℕ → Value → Bool
is_label_within maximum v =
    is_undefined v || is_text_with (λ t. leb 1 (length t) && leb (length t) maximum) v

unfoldable pub presentation_issues : Value → Issues
presentation_issues presentation =
    if is_undefined presentation
    then []
    else require_keys presentation [] ("route" ∷ "icon" ∷ "category" ∷ []) (codes "/presentation") (
        join (
          issue_if (not (is_label_within 512 (get "route" presentation)))
            (codes "/presentation/route")
          ∷ issue_if (not (is_label_within 128 (get "icon" presentation)))
              (codes "/presentation/icon")
          ∷ issue_if (not (is_label_within 128 (get "category" presentation)))
              (codes "/presentation/category")
          ∷ []))

abbrev pub required_keys : List String
required_keys =
    "contractVersion" ∷ "actionId" ∷ "version" ∷ "source" ∷ "title" ∷ "description" ∷ "keywords"
    ∷ "aliases" ∷ "inputSchema" ∷ "outputSchema" ∷ "examples" ∷ "testVectors" ∷ "execution"
    ∷ "behavior" ∷ "permissions" ∷ "sensitive" ∷ []

-- The checks of an object, once the entries of its aliases are there.
unfoldable pub descriptor_issues : Value → List Value → Issues
descriptor_issues value aliases =
    let pure = is_text "pure" (get "mode" (get "execution" value)) in
    require_keys value required_keys (required_keys ++ "presentation" ∷ []) [] (
      join (
        identity_issues value aliases
        ∷ source_issues (get "actionId" value) (get "source" value) aliases
        ∷ schema_shape (get "inputSchema" value) (codes "/inputSchema")
        ∷ schema_shape (get "outputSchema" value) (codes "/outputSchema")
        ∷ test_issues value
        ∷ execution_issues (get "execution" value)
        ∷ behavior_issues pure (get "behavior" value)
        ∷ permission_issues pure (get "permissions" value)
        ∷ sensitive_issues (get "sensitive" value)
        ∷ presentation_issues (get "presentation" value)
        ∷ []))

-- `none` stands for the TypeError of a value whose aliases are neither missing nor an array.
unfoldable pub validate_action_descriptor : Value → Option Issues
validate_action_descriptor value =
    if is_object value
    then elim (alias_entries (get "aliases" value)) [
      | none ↦ none
      | some aliases ↦ some (descriptor_issues value aliases)
    ]
    else some ([] ∷ [])
