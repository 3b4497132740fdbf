-- ===== src/Actions/Contract.antt =====
-- packages/action-contract/src/index.mjs: `validateValue`, the check of a value against a schema.
pub mod Shape
pub mod Schemas
pub mod Plain
pub mod Closed
use useful.Common.{
  ℕ, ◌+◌, Bool, true, false, not, ◌&&◌, ◌||◌, List, [], ◌∷◌, ◌++◌, map, Option, none, some, Text,
  codes, length, any, text_eq, ltb, if◌then◌else◌, all_distinct,
}
use useful.Js.Value.{
  pos, Value, undefined, null, bool, int, number, str, arr, obj, buffer, function, Items, nil, cons,
  Fields, end, field, items, get, has_key, own_keys, is_undefined, as_text, as_items,
}
use useful.Js.Json.{json, key_units}
use useful.Js.Show.{show_nat}
use useful.Office.Base.Utf8.{byte_length}
use useful.Actions.Contract.Shape.{
  Issues, issue_if, below, has_type, is_finite_number, schema_shape, types_of,
}

abbrev pub json_text : Value → Text
json_text v = elim (json v) [ none ↦ [] | some t ↦ t ]

-- `deepEqual`; the JSON of a value is never empty, so the empty text stands for `undefined`.
unfoldable pub deep_equal : Value → Value → Bool
unfolding json text_eq
deep_equal left right = text_eq (json_text left) (json_text right)

unfoldable pub actual_type : Value → Text
actual_type undefined = codes "undefined"
actual_type null = codes "null"
actual_type (bool b) = codes "boolean"
actual_type (int n) = codes "integer"
actual_type (number t) = codes "number"
actual_type (str t) = codes "string"
actual_type (arr vs) = codes "array"
actual_type (obj fs) = codes "object"
actual_type (buffer n) = codes "object"
actual_type (function t) = codes "function"

-- `limit !== undefined && size < limit`, and the same for `>`, for a limit that is a count.
abbrev pub under : ℕ → Value → Bool
under size (int (pos n)) = ltb size n
under size _ = false

abbrev pub over : ℕ → Value → Bool
over size (int (pos n)) = ltb n size
over size _ = false

abbrev pub is_number : Value → Bool
is_number (int n) = true
is_number (number t) = true
is_number _ = false

abbrev pub missing_keys : List Value → Value → Text → Issues
missing_keys [] value path = []
missing_keys (str t ∷ names) value path =
    issue_if (not (any (λ k. text_eq (key_units k) t) (own_keys value))) (below path t)
    ++ missing_keys names value path
missing_keys (_ ∷ names) value path = missing_keys names value path

abbrev pub array_or_nil : Value → List Value
array_or_nil (arr vs) = items vs
array_or_nil _ = []

abbrev pub is_truthy_bool : Value → Bool
is_truthy_bool (bool b) = b
is_truthy_bool _ = false

abbrev pub text_issues : Option Text → Value → Value → Text → Issues
text_issues none lo hi path = []
text_issues (some t) lo hi path =
    issue_if (under (length t) lo) path ++ issue_if (over (length t) hi) path

abbrev pub array_issues : Option (List Value) → Value → Value → Value → Text → Issues
array_issues none lo hi unique path = []
array_issues (some vs) lo hi unique path =
    issue_if (under (length vs) lo) path
    ++ (issue_if (over (length vs) hi) path
        ++ issue_if (is_truthy_bool unique && not (all_distinct (map json_text vs))) path)

-- Whether the types of a schema allow a value: an integer is a number too.
unfoldable pub is_compatible : Value → Value → Bool
unfolding has_type actual_type get text_eq
is_compatible schema current =
    has_type (actual_type current) (types_of schema)
    || (text_eq (actual_type current) (codes "integer")
        && has_type (codes "number") (types_of schema))

-- `less` is JavaScript's `<` on two numbers.
module _ (less : Value → Value → Bool) where
  -- What the walk of `validateValue` finds at a value whose type is allowed, before its parts.
  unfoldable pub value_issues : Value → Value → Text → Issues
  unfolding get deep_equal is_finite_number all_distinct
  value_issues schema current path =
      let constant = get "const" schema in
      let options = get "enum" schema in
      let minimum = get "minimum" schema in
      let maximum = get "maximum" schema in
      issue_if (not (is_undefined constant) && not (deep_equal current constant)) path
      ++ (issue_if
            (not (is_undefined options)
              && not (any (λ v. deep_equal v current) (array_or_nil options)))
            path
          ++ (text_issues (as_text current) (get "minLength" schema) (get "maxLength" schema) path
              ++ ((if is_number current
                    then issue_if (not (is_finite_number current)) path
                      ++ (issue_if (not (is_undefined minimum) && less current minimum) path
                          ++ issue_if (not (is_undefined maximum) && less maximum current) path)
                    else [])
                  ++ array_issues (as_items current) (get "minItems" schema) (get "maxItems" schema)
                      (get "uniqueItems" schema) path)))

  -- The walk of `validateValue` goes down the value, and takes the schema of each part from the schema.
  unfoldable mutual
    unfolding value_issues is_compatible get has_key below key_units show_nat

    pub walk : Value → Value → Text → Issues
    walk (arr vs) schema path =
        let inner = walk_items vs (get "items" schema) path 0 in
        if is_compatible schema (arr vs)
        then value_issues schema (arr vs) path ++ inner
        else path ∷ []
    walk (obj fs) schema path =
        let inner = walk_fields fs (get "properties" schema) path in
        if is_compatible schema (obj fs)
        then value_issues schema (obj fs) path
          ++ (missing_keys (array_or_nil (get "required" schema)) (obj fs) path ++ inner)
        else path ∷ []
    walk (buffer n) schema path =
        if is_compatible schema (buffer n)
        then value_issues schema (buffer n) path
          ++ missing_keys (array_or_nil (get "required" schema)) (buffer n) path
        else path ∷ []
    walk current schema path =
        if is_compatible schema current then value_issues schema current path else path ∷ []

    pub walk_items : Items → Value → Text → ℕ → Issues
    walk_items nil schema path index = []
    walk_items (cons v vs) schema path index =
        walk v schema (below path (show_nat index)) ++ walk_items vs schema path (index + 1)

    pub walk_fields : Fields → Value → Text → Issues
    walk_fields end properties path = []
    walk_fields (field k v fs) properties path =
        let here = walk v (get k properties) (below path (key_units k)) in
        (if has_key k (own_keys properties) then here else below path (key_units k) ∷ [])
        ++ walk_fields fs properties path

  unfoldable pub validate_value : Value → Value → Issues
  unfolding walk schema_shape
  validate_value schema value = elim (schema_shape schema []) [
    | [] ↦ walk value schema []
    | issue ∷ issues ↦ issue ∷ issues
  ]

-- The bytes of a value's JSON in UTF-8; a value without JSON has none.
unfoldable pub utf8_json_bytes : Value → Option ℕ
unfolding json byte_length
utf8_json_bytes value = elim (json value) [ none ↦ none | some t ↦ some (byte_length t) ]
