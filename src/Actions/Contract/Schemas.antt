-- ===== src/Actions/Contract/Schemas.antt =====
-- The parts of a schema in which `validateSchemaShape` finds nothing.
use useful.Common.{
  Bool, true, false, not, ◌&&◌, ◌||◌, List, [], ◌∷◌, ◌++◌, Text, codes, any, text_eq, text_eq_iff,
  contains, ◌≡◌, inl, inr, refl, sym, subst, arith, Bool-cases, and-split, or-split, String,
}
use text.Mathlib.Text.{◌==◌ as str_eq}
use useful.Js.Value.{
  Value, undefined, null, bool, int, number, str, arr, obj, buffer, function, Fields, end, field,
  keys, lookup, get, has_key, is_object, own_keys,
}
use useful.Js.Json.{key_units}
use useful.Actions.Contract.{actual_type, is_compatible}
use useful.Actions.Contract.Shape.{
  Issues, issue_if, below, json_types, is_json_type, has_type, own_issues, lacks_items,
  schema_shape, properties_of, items_of, bad_types, unknown_keys, schema_keys, shape_each,
  shape_fields, types_of,
}

pub none_left : (xs ys : Issues) → (xs ++ ys) ≡ [] → xs ≡ []
none_left [] ys h = refl
none_left (x ∷ xs) ys h = cc

pub none_right : (xs ys : Issues) → (xs ++ ys) ≡ [] → ys ≡ []
none_right [] ys h = h
none_right (x ∷ xs) ys h = cc

pub no_issue : (b : Bool) (path : Text) → issue_if b path ≡ [] → b ≡ false
no_issue true path h = cc
no_issue false path h = refl

declared-IsJson :
    (t : Text) (types : List Value)
    → any (λ v. not (is_json_type v)) types ≡ false
    → has_type t types ≡ true
    → contains json_types t ≡ true
unfolding has_type is_json_type
declared-IsJson t [] h k = cc
declared-IsJson t (str u ∷ types) h k = ground (arith, text_eq_iff u t, declared-IsJson t types)
declared-IsJson t (undefined ∷ types) h k = cc
declared-IsJson t (null ∷ types) h k = cc
declared-IsJson t (bool b ∷ types) h k = cc
declared-IsJson t (int n ∷ types) h k = cc
declared-IsJson t (number n ∷ types) h k = cc
declared-IsJson t (arr vs ∷ types) h k = cc
declared-IsJson t (obj fs ∷ types) h k = cc
declared-IsJson t (buffer n ∷ types) h k = cc
declared-IsJson t (function f ∷ types) h k = cc

-- A schema in which `validateSchemaShape` finds nothing, at some path.
unfoldable pub IsGood : Value → Type 0
IsGood schema = (path : Text) × (schema_shape schema path ≡ [])

or_false_right : (b c : Bool) → (b || c) ≡ false → c ≡ false
or_false_right true c h = cc
or_false_right false c h = h

pub own_issues-types :
    (schema : Value) (path : Text)
    → own_issues schema path ≡ []
    → any (λ v. not (is_json_type v)) (types_of schema) ≡ false
unfolding own_issues bad_types
own_issues-types schema path h =
    let behind_keys = none_right (unknown_keys schema_keys (own_keys schema) path) _ h in
    let behind_version = none_right _ _ behind_keys in
    or_false_right _ _
      (no_issue (bad_types schema) (below path (codes "type")) (none_left _ _ behind_version))

integer_IsJson : contains json_types (codes "integer") ≡ true
unfolding json_types contains text_eq
integer_IsJson = refl

-- What a good schema lets through has one of the types of JSON.
pub compatible-IsJson :
    (schema current : Value)
    → any (λ v. not (is_json_type v)) (types_of schema) ≡ false
    → is_compatible schema current ≡ true
    → contains json_types (actual_type current) ≡ true
unfolding is_compatible
compatible-IsJson schema current good h = elim (or-split _ _ h) [
  | inl own ↦ declared-IsJson (actual_type current) (types_of schema) good own
  | inr also ↦
      let same = (text_eq_iff (actual_type current) (codes "integer")).0 (and-split _ _ also).0 in
      subst (λ t. contains json_types t ≡ true) (sym same) integer_IsJson
]

no_key : (k : String) → has_key k [] ≡ true → ⊥
unfolding has_key
no_key k h = cc

-- A schema that `properties` declares for a name is good again.
shape_fields-lookup :
    (k : String) (fs : Fields) (path : Text)
    → shape_fields fs path ≡ []
    → has_key k (keys fs) ≡ true
    → IsGood (lookup k fs)
unfolding has_key lookup IsGood schema_shape
shape_fields-lookup k end path h own = cc
shape_fields-lookup k (field j v fs) path h own = elim (Bool-cases (str_eq j k)) [
  | inl e ↦ rw e (below path (key_units j), none_left _ _ h)
  | inr e ↦ rw e (
      shape_fields-lookup k fs path (none_right (schema_shape v (below path (key_units j))) _ h)
        (rw e at own))
]

properties_of-each :
    (fs : Fields) (path : Text)
    → properties_of true fs path ≡ []
    → shape_each (lookup "properties" fs) (below path (codes "properties")) ≡ []
unfolding lookup schema_shape
properties_of-each end path h = refl
properties_of-each (field k v fs) path h = elim (Bool-cases (str_eq k "properties")) [
  | inl e ↦ rw e (rw e at h)
  | inr e ↦ rw e (properties_of-each fs path (rw e at h))
]

shape_each-get :
    (k : String) (properties : Value) (path : Text)
    → shape_each properties path ≡ []
    → has_key k (own_keys properties) ≡ true
    → IsGood (get k properties)
unfolding get schema_shape
shape_each-get k (obj fs) path h own = shape_fields-lookup k fs path h own
shape_each-get k _ path h own = absurd (no_key k own)

items_of-items :
    (fs : Fields) (path : Text)
    → items_of true fs path ≡ []
    → is_object (lookup "items" fs) ≡ true
    → IsGood (lookup "items" fs)
unfolding lookup IsGood schema_shape
items_of-items end path h o = cc
items_of-items (field k v fs) path h o = elim (Bool-cases (str_eq k "items")) [
  | inl e ↦
      let o' : is_object v ≡ true = rw e at o in rw e (below path (codes "items"), rw (e, o') at h)
  | inr e ↦ rw e (items_of-items fs path (rw e at h) (rw e at o))
]

pub IsGood-types :
    (schema : Value) → IsGood schema → any (λ v. not (is_json_type v)) (types_of schema) ≡ false
unfolding IsGood schema_shape
IsGood-types (obj fs) (path, h) = own_issues-types (obj fs) path (none_left _ _ h)
IsGood-types (buffer n) (path, h) = own_issues-types (buffer n) path h
IsGood-types undefined (path, h) = cc
IsGood-types null (path, h) = cc
IsGood-types (bool b) (path, h) = cc
IsGood-types (int n) (path, h) = cc
IsGood-types (number t) (path, h) = cc
IsGood-types (str t) (path, h) = cc
IsGood-types (arr vs) (path, h) = cc
IsGood-types (function t) (path, h) = cc

pub differ : (b : Bool) → b ≡ false → b ≡ true → ⊥
differ b p q = cc

-- The types of a schema that lets a value through, when the value is no integer.
pub compatible-has_type :
    (schema current : Value)
    → text_eq (actual_type current) (codes "integer") ≡ false
    → is_compatible schema current ≡ true
    → has_type (actual_type current) (types_of schema) ≡ true
unfolding is_compatible
compatible-has_type schema current e h = elim (or-split _ _ h) [
  | inl own ↦ own
  | inr also ↦ absurd (differ _ e (and-split _ _ also).0)
]

untyped : (t : Text) → has_type t (undefined ∷ []) ≡ true → ⊥
unfolding has_type
untyped t h = cc

pub lacks_items-none :
    (schema : Value) (path : Text)
    → has_type (codes "array") (types_of schema) ≡ true
    → lacks_items schema path ≡ []
    → is_object (get "items" schema) ≡ true
unfolding lacks_items
lacks_items-none schema path a h = ground (
  arith,
  no_issue (has_type (codes "array") (types_of schema) && not (is_object (get "items" schema)))
      (below path (codes "items")),
)

pub IsGood-items :
    (schema : Value)
    → IsGood schema
    → has_type (codes "array") (types_of schema) ≡ true
    → IsGood (get "items" schema)
unfolding IsGood schema_shape get lacks_items
IsGood-items (obj fs) (path, h) a =
    let behind = none_right (own_issues (obj fs) path) _ h in
    let last =
      none_right (properties_of (has_type (codes "object") (types_of (obj fs))) fs path) _ behind in
    let there = none_left (lacks_items (obj fs) path) _ last in
    let rest = none_right (lacks_items (obj fs) path) _ last in
    items_of-items fs path (rw a at rest) (lacks_items-none (obj fs) path a there)
IsGood-items _ h a = absurd (untyped (codes "array") a)

pub IsGood-properties :
    (k : String) (schema : Value)
    → IsGood schema
    → has_type (codes "object") (types_of schema) ≡ true
    → has_key k (own_keys (get "properties" schema)) ≡ true
    → IsGood (get k (get "properties" schema))
unfolding IsGood schema_shape get
IsGood-properties k (obj fs) (path, h) a own =
    let behind = none_right (own_issues (obj fs) path) _ h in
    let first =
      none_left (properties_of (has_type (codes "object") (types_of (obj fs))) fs path) _ behind in
    shape_each-get k (lookup "properties" fs) (below path (codes "properties"))
      (properties_of-each fs path (rw a at first)) own
IsGood-properties k _ h a own = absurd (untyped (codes "object") a)
