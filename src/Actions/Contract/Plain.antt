-- ===== src/Actions/Contract/Plain.antt =====
-- What a value is that meets a schema.
use useful.Common.{
  ℕ, ◌+◌, Bool, true, false, not, [], ◌∷◌, Text, codes, text_eq, contains, if◌then◌else◌, ◌≡◌, refl,
}
use useful.Js.Value.{
  Value, undefined, null, bool, int, number, str, arr, obj, buffer, function, Items, nil, cons,
  Fields, end, field, get, has_key, own_keys,
}
use useful.Js.Json.{is_finite, key_units}
use useful.Js.Show.{show_nat}
use useful.Actions.Contract.{
  actual_type, value_issues, is_compatible, walk, walk_items, walk_fields, validate_value,
  missing_keys, array_or_nil,
}
use useful.Actions.Contract.Shape.{
  Issues, below, json_types, has_type, is_finite_number, schema_shape, types_of,
}
use useful.Actions.Contract.Schemas.{
  IsGood, none_left, none_right, no_issue, differ, IsGood-types, compatible-IsJson,
  compatible-has_type, IsGood-items, IsGood-properties,
}

-- Data that stands where a schema lets it: no `undefined`, no function and no number that is not finite; an array
-- or an object only where the schema has that type, with just properties that the schema lists; and a buffer (an
-- ArrayBuffer, say, which the code takes for an object without properties) only where an object may stand.
mutual
  pub IsPlain : Value → Value → Type 0
  IsPlain schema undefined = ⊥
  IsPlain schema null = Unit
  IsPlain schema (bool b) = Unit
  IsPlain schema (int n) = Unit
  IsPlain schema (number t) = is_finite t ≡ true
  IsPlain schema (str t) = Unit
  IsPlain schema (arr vs) =
      (has_type (codes "array") (types_of schema) ≡ true) × ArePlain (get "items" schema) vs
  IsPlain schema (obj fs) =
      (has_type (codes "object") (types_of schema) ≡ true) × HasPlain (get "properties" schema) fs
  IsPlain schema (buffer n) = has_type (codes "object") (types_of schema) ≡ true
  IsPlain schema (function t) = ⊥

  pub ArePlain : Value → Items → Type 0
  ArePlain schema nil = Unit
  ArePlain schema (cons v vs) = IsPlain schema v × ArePlain schema vs

  pub HasPlain : Value → Fields → Type 0
  HasPlain listed end = Unit
  HasPlain listed (field k v fs) =
      (has_key k (own_keys listed) ≡ true) × (IsPlain (get k listed) v × HasPlain listed fs)

-- A value whose type a good schema does not allow.
refused :
    (schema current : Value)
    → IsGood schema
    → contains json_types (actual_type current) ≡ false
    → is_compatible schema current ≡ true
    → ⊥
refused schema current good e h =
    differ _ e (compatible-IsJson schema current (IsGood-types schema good) h)

allowed :
    (b : Bool) (issues : Issues) (path : Text) → (if b then issues else path ∷ []) ≡ [] → b ≡ true
allowed true issues path h = refl
allowed false issues path h = cc

declared :
    (b : Bool) (issues : Issues) (path : Text)
    → (if b then issues else path ∷ []) ≡ []
    → (b ≡ true) × (issues ≡ [])
declared true issues path h = (refl, h)
declared false issues path h = cc

unknown_type :
    (contains json_types (codes "undefined") ≡ false)
    × (contains json_types (codes "function") ≡ false)
unfolding json_types contains text_eq
unknown_type = (refl, refl)

not_false : (b : Bool) → not b ≡ false → b ≡ true
not_false true h = refl
not_false false h = cc

other_type :
    (text_eq (codes "array") (codes "integer") ≡ false)
    × (text_eq (codes "object") (codes "integer") ≡ false)
unfolding text_eq
other_type = (refl, refl)

module _ (less : Value → Value → Bool) where
  value_issues-finite :
      (schema : Value) (t : Text) (path : Text)
      → value_issues less schema (number t) path ≡ []
      → is_finite t ≡ true
  unfolding value_issues is_finite_number
  value_issues-finite schema t path h = not_false _ (
      no_issue (not (is_finite t)) path
        (none_left _ _ (none_left _ _ (none_right _ _ (none_right _ _ h)))))

  mutual
    unfolding walk IsPlain actual_type

    walk-IsPlain :
        (v schema : Value) (path : Text)
        → IsGood schema
        → walk less v schema path ≡ []
        → IsPlain schema v
    walk-IsPlain undefined schema path good h =
        absurd (refused schema undefined good unknown_type.0 (allowed _ _ _ h))
    walk-IsPlain null schema path good h = tt
    walk-IsPlain (bool b) schema path good h = tt
    walk-IsPlain (int n) schema path good h = tt
    walk-IsPlain (number t) schema path good h =
        value_issues-finite schema t path (declared _ _ _ h).1
    walk-IsPlain (str t) schema path good h = tt
    walk-IsPlain (buffer n) schema path good h =
        compatible-has_type schema (buffer n) other_type.1
          (declared (is_compatible schema (buffer n)) _ _ h).0
    walk-IsPlain (function t) schema path good h =
        absurd (refused schema (function t) good unknown_type.1 (allowed _ _ _ h))
    walk-IsPlain (arr vs) schema path good h =
        let (c, clear) = declared (is_compatible schema (arr vs)) _ _ h in
        let array = compatible-has_type schema (arr vs) other_type.0 c in
        (
          array,
          walk_items-ArePlain vs (get "items" schema) path 0 (IsGood-items schema good array)
              (none_right (value_issues less schema (arr vs) path) _ clear),
        )
    walk-IsPlain (obj fs) schema path good h =
        let (c, clear) = declared (is_compatible schema (obj fs)) _ _ h in
        let object = compatible-has_type schema (obj fs) other_type.1 c in
        (
          object,
          walk_fields-HasPlain fs schema path good object (
              none_right (missing_keys (array_or_nil (get "required" schema)) (obj fs) path) _
                (none_right (value_issues less schema (obj fs) path) _ clear)),
        )

    walk_items-ArePlain :
        (vs : Items) (schema : Value) (path : Text) (index : ℕ)
        → IsGood schema
        → walk_items less vs schema path index ≡ []
        → ArePlain schema vs
    walk_items-ArePlain nil schema path index good h = tt
    walk_items-ArePlain (cons v vs) schema path index good h =
        let here = none_left (walk less v schema (below path (show_nat index))) _ h in
        let rest = none_right (walk less v schema (below path (show_nat index))) _ h in
        (
          walk-IsPlain v schema (below path (show_nat index)) good here,
          walk_items-ArePlain vs schema path (index + 1) good rest,
        )

    walk_fields-HasPlain :
        (fs : Fields) (schema : Value) (path : Text)
        → IsGood schema
        → has_type (codes "object") (types_of schema) ≡ true
        → walk_fields less fs (get "properties" schema) path ≡ []
        → HasPlain (get "properties" schema) fs
    walk_fields-HasPlain end schema path good a h = tt
    walk_fields-HasPlain (field k v fs) schema path good a h =
        let own = declared (has_key k (own_keys (get "properties" schema))) _ _ (none_left _ _ h) in
        let value =
          walk-IsPlain v (get k (get "properties" schema)) (below path (key_units k))
            (IsGood-properties k schema good a own.0) own.1 in
        (own.0, (value, walk_fields-HasPlain fs schema path good a (none_right _ _ h)))

  -- Whatever the schema is, a value in which `validateValue` finds nothing holds no `undefined`, no function and no
  -- number that is not finite, at any depth; each array and each object in it stands where the schema has that
  -- type, and has no property that the schema does not list. A buffer (an ArrayBuffer, say) may stand in it, where the schema has the type object.
  pub validate_value-IsPlain :
      (schema value : Value) → validate_value less schema value ≡ [] → IsPlain schema value
  unfolding validate_value IsGood
  validate_value-IsPlain schema value h = shaped (schema_shape schema []) refl h
    where
      shaped :
          (issues : Issues)
          → schema_shape schema [] ≡ issues
          → elim issues as (λ _. Issues) [
            | [] ↦ walk less value schema []
            | issue ∷ more ↦ issue ∷ more
          ]
            ≡ []
          → IsPlain schema value
      shaped [] e k = walk-IsPlain value schema [] ([], e) k
      shaped (issue ∷ more) e k = cc
