-- ===== src/Actions/Contract/Shape.antt =====
-- packages/action-contract/src/index.mjs: `validateSchemaShape`, the shape of a schema.
use useful.Common.{
  ℕ, ◌+◌, Bool, true, false, not, ◌&&◌, ◌||◌, List, [], ◌∷◌, ◌++◌, Text, codes, length, any,
  text_eq, contains, ltb, if◌then◌else◌, String,
}
use useful.Js.Value.{
  pos, Value, bool, int, number, str, arr, obj, buffer, cons, Fields, end, field, items, get,
  has_key, is_object, own_keys, is_undefined, is_bool, is_text,
}
use text.Mathlib.Text.{◌==◌ as str_eq}
use useful.Js.Json.{is_finite, key_units}
use useful.Js.Show.{show_nat}

-- An issue is the path that it names; its message is left out.
abbrev pub Issues : Type 0
Issues = List Text

abbrev pub issue_if : Bool → Text → Issues
issue_if true path = path ∷ []
issue_if false path = []

-- `${path}/${name}`.
unfoldable pub below : Text → Text → Text
below path name = path ++ b'/' ∷ name

unfoldable pub json_types : List Text
json_types =
    codes "object"
    ∷ codes "array"
    ∷ codes "string"
    ∷ codes "number"
    ∷ codes "integer"
    ∷ codes "boolean"
    ∷ codes "null"
    ∷ []

unfoldable pub schema_keys : List String
schema_keys =
    "$schema" ∷ "type" ∷ "title" ∷ "description" ∷ "properties" ∷ "required"
    ∷ "additionalProperties" ∷ "items" ∷ "enum" ∷ "const" ∷ "minLength" ∷ "maxLength" ∷ "minimum"
    ∷ "maximum" ∷ "minItems" ∷ "maxItems" ∷ "uniqueItems" ∷ []

-- `Array.isArray(schema.type) ? schema.type : [schema.type]`.
abbrev pub type_list : Value → List Value
type_list (arr vs) = items vs
type_list v = v ∷ []

unfoldable pub is_json_type : Value → Bool
is_json_type (str t) = contains json_types t
is_json_type _ = false

-- `types.includes(name)` for a list of types.
unfoldable pub has_type : Text → List Value → Bool
unfolding text_eq
has_type name [] = false
has_type name (str t ∷ types) = text_eq t name || has_type name types
has_type name (_ ∷ types) = has_type name types

abbrev pub is_nonempty_array : Value → Bool
is_nonempty_array (arr (cons v vs)) = true
is_nonempty_array _ = false

-- `Number.isInteger(value) && value >= 0`.
abbrev pub is_count : Value → Bool
is_count (int (pos n)) = true
is_count _ = false

-- `typeof value === "number" && Number.isFinite(value)`.
unfoldable pub is_finite_number : Value → Bool
unfolding is_finite
is_finite_number (int n) = true
is_finite_number (number t) = is_finite t
is_finite_number _ = false

abbrev pub is_false : Value → Bool
is_false (bool b) = not b
is_false _ = false

-- The entries of `stringArray`, from `index`; `seen` holds those in front.
unfoldable pub string_entries : Bool → Text → ℕ → List Value → List Value → Issues
unfolding below show_nat text_eq
string_entries allow_empty path index seen [] = []
string_entries allow_empty path index seen (str t ∷ entries) =
    issue_if ((ltb (length t) 1 && not allow_empty) || has_type t seen)
      (below path (show_nat index))
    ++ string_entries allow_empty path (index + 1) (str t ∷ seen) entries
string_entries allow_empty path index seen (entry ∷ entries) =
    below path (show_nat index) ∷ string_entries allow_empty path (index + 1) seen entries

unfoldable pub string_array : Value → Text → ℕ → Bool → Issues
unfolding string_entries
string_array (arr vs) path max_items allow_empty =
    issue_if (ltb max_items (length (items vs))) path
    ++ string_entries allow_empty path 0 [] (items vs)
string_array _ path max_items allow_empty = path ∷ []

unfoldable pub unknown_keys : List String → List String → Text → Issues
unfolding has_key below key_units
unknown_keys allowed [] path = []
unknown_keys allowed (k ∷ ks) path =
    issue_if (not (has_key k allowed)) (below path (key_units k)) ++ unknown_keys allowed ks path

unfoldable pub bad_counts : List String → Value → Text → Issues
unfolding get below
bad_counts [] schema path = []
bad_counts (k ∷ ks) schema path =
    issue_if (not (is_undefined (get k schema) || is_count (get k schema)))
      (below path (key_units k))
    ++ bad_counts ks schema path

unfoldable pub bad_bounds : List String → Value → Text → Issues
unfolding get below is_finite_number
bad_bounds [] schema path = []
bad_bounds (k ∷ ks) schema path =
    issue_if (not (is_undefined (get k schema) || is_finite_number (get k schema)))
      (below path (key_units k))
    ++ bad_bounds ks schema path

-- The types that a schema declares.
abbrev pub types_of : Value → List Value
types_of schema = type_list (get "type" schema)

unfoldable pub bad_types : Value → Bool
unfolding get is_json_type
bad_types schema =
    ltb (length (types_of schema)) 1 || any (λ t. not (is_json_type t)) (types_of schema)

-- The keywords behind `type`, up to `required`.
unfoldable pub keyword_issues : Value → Text → Issues
unfolding below get bad_counts bad_bounds string_array
keyword_issues schema path =
    let options = get "enum" schema in
    let unique = get "uniqueItems" schema in
    issue_if (not (is_undefined options || is_nonempty_array options)) (below path (codes "enum"))
    ++ (bad_counts ("minLength" ∷ "maxLength" ∷ "minItems" ∷ "maxItems" ∷ []) schema path
        ++ (bad_bounds ("minimum" ∷ "maximum" ∷ []) schema path
            ++ (issue_if (not (is_undefined unique || is_bool unique))
                  (below path (codes "uniqueItems"))
                ++ (if is_undefined (get "required" schema)
                    then []
                    else string_array (get "required" schema) (below path (codes "required")) 128
                        false))))

-- An object schema is closed.
unfoldable pub object_issues : Value → Text → Issues
unfolding below get has_type
object_issues schema path =
    if has_type (codes "object") (types_of schema)
    then issue_if (not (is_object (get "properties" schema))) (below path (codes "properties"))
      ++ issue_if (not (is_false (get "additionalProperties" schema)))
          (below path (codes "additionalProperties"))
    else []

-- What `validateSchemaShape` finds at an object itself, before the schemas of its parts.
unfoldable pub own_issues : Value → Text → Issues
unfolding unknown_keys below get bad_types keyword_issues object_issues schema_keys
own_issues schema path =
    let version = get "$schema" schema in
    unknown_keys schema_keys (own_keys schema) path
    ++ (issue_if
          (not (
            is_undefined version || is_text "https://json-schema.org/draft/2020-12/schema" version))
          (below path (codes "$schema"))
        ++ (issue_if (bad_types schema) (below path (codes "type"))
            ++ (keyword_issues schema path ++ object_issues schema path)))

unfoldable pub lacks_items : Value → Text → Issues
unfolding get has_type below
lacks_items schema path =
    issue_if (has_type (codes "array") (types_of schema) && not (is_object (get "items" schema)))
      (below path (codes "items"))

-- `validateSchemaShape`. The walk goes down the properties of the object itself, so that it ends: at
-- `properties` if the types have `object`, and at `items` if they have `array`.
unfoldable mutual
  unfolding own_issues below key_units has_type get lacks_items

  pub schema_shape : Value → Text → Issues
  schema_shape (obj fs) path =
      own_issues (obj fs) path
      ++ (properties_of (has_type (codes "object") (types_of (obj fs))) fs path
          ++ (lacks_items (obj fs) path
              ++ items_of (has_type (codes "array") (types_of (obj fs))) fs path))
  schema_shape (buffer n) path = own_issues (buffer n) path
  schema_shape _ path = path ∷ []

  pub properties_of : Bool → Fields → Text → Issues
  properties_of wanted end path = []
  properties_of wanted (field k v fs) path =
      let here = shape_each v (below path (codes "properties")) in
      let later = properties_of wanted fs path in
      if wanted && str_eq k "properties" then here else later

  pub items_of : Bool → Fields → Text → Issues
  items_of wanted end path = []
  items_of wanted (field k v fs) path =
      let here = if is_object v then schema_shape v (below path (codes "items")) else [] in
      let later = items_of wanted fs path in if wanted && str_eq k "items" then here else later

  -- The schemas of the properties, if they are an object.
  pub shape_each : Value → Text → Issues
  shape_each (obj fs) path = shape_fields fs path
  shape_each _ path = []

  pub shape_fields : Fields → Text → Issues
  shape_fields end path = []
  shape_fields (field k v fs) path =
      schema_shape v (below path (key_units k)) ++ shape_fields fs path
