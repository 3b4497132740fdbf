-- ===== src/Js/Value.antt =====
-- The values that callers and providers hand to the packages, and the tests that the source makes
-- on them (`typeof`, `Number.isInteger`, `Array.isArray`, `Object.keys`, property reads).
use useful.Common.{
  ℕ, ◌≤◌, Bool, true, false, ◌&&◌, List, [], ◌∷◌, Option, none, some, String, Text, codes, text_eq,
  leb, if◌then◌else◌, ◌≡◌, refl, arith,
}
use text.Mathlib.Text.{◌==◌ as str_eq}

pub data ℤ : Type 0 where
  pos : ℕ → ℤ
  negsuc : ℕ → ℤ

-- `number t` is a number that is not an integer, or not finite, and prints as `t`; `function t` is a
-- function with source text `t`; `buffer n` is an ArrayBuffer, or a view of one, of `n` bytes.
mutual
  pub data Value : Type 0 where
    undefined : Value
    null : Value
    bool : Bool → Value
    int : ℤ → Value
    number : Text → Value
    str : Text → Value
    arr : Items → Value
    obj : Fields → Value
    buffer : ℕ → Value
    function : Text → Value

  pub data Items : Type 0 where
    nil : Items
    cons : Value → Items → Items

  pub data Fields : Type 0 where
    end : Fields
    field : String → Value → Fields → Fields

abbrev pub items : Items → List Value
items nil = []
items (cons v vs) = v ∷ items vs

abbrev pub keys : Fields → List String
keys end = []
keys (field k v fs) = k ∷ keys fs

abbrev pub values : Fields → List Value
values end = []
values (field k v fs) = v ∷ values fs

-- `value[key]` on an own property; a missing one reads as `undefined`.
unfoldable pub lookup : String → Fields → Value
lookup key end = undefined
lookup key (field k v fs) = if str_eq k key then v else lookup key fs

unfoldable pub get : String → Value → Value
unfolding lookup
get key (obj fs) = lookup key fs
get key _ = undefined

unfoldable pub has_key : String → List String → Bool
has_key key [] = false
has_key key (k ∷ ks) = if str_eq k key then true else has_key key ks

-- `typeof value === "object" && value !== null && !Array.isArray(value)`.
abbrev pub is_object : Value → Bool
is_object (obj fs) = true
is_object (buffer n) = true
is_object _ = false

-- `Object.keys(value)` of such a value.
abbrev pub own_keys : Value → List String
own_keys (obj fs) = keys fs
own_keys _ = []

-- `Object.values(value)` of such a value.
abbrev pub own_values : Value → List Value
own_values (obj fs) = values fs
own_values _ = []

abbrev pub is_undefined : Value → Bool
is_undefined undefined = true
is_undefined _ = false

abbrev pub is_bool : Value → Bool
is_bool (bool b) = true
is_bool _ = false

-- `value === true`.
abbrev pub is_true : Value → Bool
is_true (bool b) = b
is_true _ = false

-- `value ?? fallback`.
abbrev pub or_else : Value → Value → Value
or_else undefined d = d
or_else null d = d
or_else v d = v

-- A parameter with a default value: `options = fallback`.
abbrev pub default_to : Value → Value → Value
default_to undefined d = d
default_to v d = v

-- The number itself, if it is an integer in `lo..hi`, for bounds that are not negative.
unfoldable pub nat_in : ℕ → ℕ → Value → Option ℕ
nat_in lo hi (int (pos n)) = if leb lo n && leb n hi then some n else none
nat_in lo hi _ = none

-- `typeof value === "string"`.
abbrev pub as_text : Value → Option Text
as_text (str t) = some t
as_text _ = none

abbrev pub as_items : Value → Option (List Value)
as_items (arr vs) = some (items vs)
as_items _ = none

-- `value === "…"` for a literal.
abbrev pub is_text : String → Value → Bool
is_text s (str t) = text_eq t (codes s)
is_text s _ = false

abbrev pub to_items : List Value → Items
to_items [] = nil
to_items (v ∷ vs) = cons v (to_items vs)

pub items-to_items : (vs : List Value) → items (to_items vs) ≡ vs
items-to_items [] = refl
items-to_items (v ∷ vs) = ground (arith, items-to_items vs)

pub nat_in_bounds : (lo hi : ℕ) (v : Value) {n : ℕ} → nat_in lo hi v ≡ some n → (lo ≤ n) × (n ≤ hi)
unfolding nat_in
nat_in_bounds lo hi (int (pos n)) h = ground arith
nat_in_bounds lo hi _ h = cc
