-- ===== src/Actions/Contract/Closed.antt =====
-- The parts of an accepted schema, each of which is closed.
use useful.Common.{
  ◌≤◌, Bool, true, false, not, List, [], ◌∷◌, ◌++◌, Text, codes, length, any, All, contains, String,
  ◌≡◌, refl, arith,
}
use useful.Js.Value.{
  Value, undefined, null, bool, int, number, str, arr, obj, buffer, function, get, has_key,
  is_object, own_keys,
}
use useful.Actions.Contract.Shape.{
  issue_if, below, json_types, is_json_type, has_type, types_of, bad_types, unknown_keys,
  schema_keys, keyword_issues, object_issues, properties_of, is_false, own_issues, lacks_items,
  schema_shape,
}
use useful.Actions.Contract.Schemas.{
  IsGood, none_left, none_right, no_issue, IsGood-types, IsGood-properties, IsGood-items,
  lacks_items-none,
}

-- The schemas that stand in a schema: itself, those of the properties of an object schema, and that of the
-- elements of an array schema.
pub data Part (schema : Value) : Value → Type 0 where
  whole : Part schema schema
  property :
      {outer : Value} (k : String)
      → Part schema outer
      → has_type (codes "object") (types_of outer) ≡ true
      → has_key k (own_keys (get "properties" outer)) ≡ true
      → Part schema (get k (get "properties" outer))
  element :
      {outer : Value}
      → Part schema outer
      → has_type (codes "array") (types_of outer) ≡ true
      → Part schema (get "items" outer)

-- It has a type, each of its types is one of JSON's, an object schema lists its properties and admits no other,
-- and an array schema has a schema for its elements.
pub record IsClosed (schema : Value) : Type 0 where
  pub typed : 1 ≤ length (types_of schema)
  pub types :
      All
        (λ v. (name : Text) × (v ≡ str name) × (contains json_types name ≡ true))
        (types_of schema)
  pub closed :
      has_type (codes "object") (types_of schema) ≡ true
      → get "additionalProperties" schema ≡ bool false
  pub listed :
      has_type (codes "object") (types_of schema) ≡ true
      → is_object (get "properties" schema) ≡ true
  pub elements :
      has_type (codes "array") (types_of schema) ≡ true → is_object (get "items" schema) ≡ true

type_name :
    (v : Value)
    → is_json_type v ≡ true
    → (name : Text) × (v ≡ str name) × (contains json_types name ≡ true)
unfolding is_json_type
type_name (str t) h = (t, refl, h)
type_name _ h = cc

type_names :
    (vs : List Value)
    → any (λ v. not (is_json_type v)) vs ≡ false
    → All (λ v. (name : Text) × (v ≡ str name) × (contains json_types name ≡ true)) vs
type_names [] h = tt
type_names (v ∷ vs) h = (type_name v (ground arith), type_names vs (ground arith))

no_types :
    (v : Value)
    → types_of v ≡ undefined ∷ []
    → any (λ u. not (is_json_type u)) (types_of v) ≡ false
    → ⊥
unfolding is_json_type
no_types v e h = let h' = rw e at h in cc

is_false-false : (v : Value) → is_false v ≡ true → v ≡ bool false
is_false-false (bool false) h = refl
is_false-false (bool true) h = cc
is_false-false undefined h = cc
is_false-false null h = cc
is_false-false (int n) h = cc
is_false-false (number t) h = cc
is_false-false (str t) h = cc
is_false-false (arr vs) h = cc
is_false-false (obj fs) h = cc
is_false-false (buffer n) h = cc
is_false-false (function t) h = cc

must : (b : Bool) (path : Text) → issue_if (not b) path ≡ [] → b ≡ true
must true path h = refl
must false path h = cc

object_issues-closed :
    (schema : Value) (path : Text)
    → object_issues schema path ≡ []
    → has_type (codes "object") (types_of schema) ≡ true
    → (is_object (get "properties" schema) ≡ true)
      × (get "additionalProperties" schema ≡ bool false)
unfolding object_issues
object_issues-closed schema path h a =
    let h' = rw a at h in
    (
      must (is_object (get "properties" schema)) _ (none_left _ _ h'),
      is_false-false _ (must _ _ (none_right _ _ h')),
    )

own_issues-bad_types :
    (schema : Value) (path : Text) → own_issues schema path ≡ [] → bad_types schema ≡ false
unfolding own_issues
own_issues-bad_types schema path h = no_issue (bad_types schema) (below path (codes "type")) (
    none_left _ (keyword_issues schema path ++ object_issues schema path) (
      none_right _
        (issue_if (bad_types schema) (below path (codes "type"))
          ++ (keyword_issues schema path ++ object_issues schema path))
        (none_right (unknown_keys schema_keys (own_keys schema) path) _ h)))

own_issues-typed :
    (schema : Value) (path : Text) → own_issues schema path ≡ [] → 1 ≤ length (types_of schema)
unfolding bad_types
own_issues-typed schema path h = let few = own_issues-bad_types schema path h in ground arith

own_issues-object_issues :
    (schema : Value) (path : Text) → own_issues schema path ≡ [] → object_issues schema path ≡ []
unfolding own_issues
own_issues-object_issues schema path h =
    let behind = none_right (unknown_keys schema_keys (own_keys schema) path) _ h in
    none_right (keyword_issues schema path) _ (none_right _ _ (none_right _ _ behind))

shape-IsClosed :
    (schema : Value) (path : Text)
    → IsGood schema
    → own_issues schema path ≡ []
    → lacks_items schema path ≡ []
    → IsClosed schema
shape-IsClosed schema path good own lacking =
    let object = object_issues-closed schema path (own_issues-object_issues schema path own) in
    record {
      typed = own_issues-typed schema path own;
      types = type_names (types_of schema) (IsGood-types schema good);
      closed = λ a. (object a).1;
      listed = λ a. (object a).0;
      elements = λ a. lacks_items-none schema path a lacking;
    }

IsGood-IsClosed : (schema : Value) → IsGood schema → IsClosed schema
unfolding IsGood schema_shape
IsGood-IsClosed (obj fs) (path, h) =
    let behind = none_right (own_issues (obj fs) path) _ h in
    let last =
      none_right (properties_of (has_type (codes "object") (types_of (obj fs))) fs path) _ behind in
    shape-IsClosed (obj fs) path (path, h) (none_left (own_issues (obj fs) path) _ h)
      (none_left (lacks_items (obj fs) path) _ last)
IsGood-IsClosed (buffer n) (path, h) =
    absurd (no_types (buffer n) refl (IsGood-types (buffer n) (path, h)))
IsGood-IsClosed _ (path, h) = cc

Part-IsGood : (schema part : Value) → IsGood schema → Part schema part → IsGood part
Part-IsGood schema part good whole = good
Part-IsGood schema part good (property {outer} k inside object own) =
    IsGood-properties k outer (Part-IsGood schema outer good inside) object own
Part-IsGood schema part good (element {outer} inside array) =
    IsGood-items outer (Part-IsGood schema outer good inside) array

-- Every part of a schema in which no fault is found is closed.
pub Part-IsClosed :
    (schema : Value) → IsGood schema → (part : Value) → Part schema part → IsClosed part
Part-IsClosed schema good part inside = IsGood-IsClosed part (Part-IsGood schema part good inside)
