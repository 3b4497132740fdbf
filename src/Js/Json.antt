-- ===== src/Js/Json.antt =====
-- `JSON.stringify(value)`.
use useful.Common.{
  ◌/◌, ◌%◌, ℕ, suc, ◌+◌, ◌-◌, Bool, true, false, not, ◌&&◌, ◌||◌, List, [], ◌∷◌, ◌++◌, Option, none,
  some, Text, codes, text_eq, ltb, leb, ◌==◌, if◌then◌else◌, String,
}
use Prim.Native.Char.{code}
use useful.Js.Value.{
  pos, negsuc, Value, undefined, null, bool, int, number, str, arr, obj, buffer, function, Items,
  nil, cons, Fields, end, field,
}
use useful.Js.Show.{show_nat}

-- The UTF-16 code units of a property's name.
unfoldable pub key_units : String → Text
key_units String.[] = []
key_units (String.◌∷◌ c s) =
    let rest = key_units s in
    if ltb (code c) 0x10000
    then code c ∷ rest
    else (0xd800 + (code c - 0x10000) / 0x400) ∷ (0xdc00 + (code c - 0x10000) % 0x400) ∷ rest

unfoldable pub hex_digit : ℕ → ℕ
hex_digit d = if ltb d 10 then b'0' + d else b'a' + (d - 10)

-- `\u` and four hexadecimal digits.
unfoldable pub unicode_escape : ℕ → Text
unfolding hex_digit
unicode_escape c =
    b'\\'
    ∷ b'u'
    ∷ hex_digit (c / 4096 % 16)
    ∷ hex_digit (c / 256 % 16)
    ∷ hex_digit (c / 16 % 16)
    ∷ hex_digit (c % 16)
    ∷ []

unfoldable pub escape_unit : ℕ → Text
unfolding unicode_escape
escape_unit c =
    if c == b'"'
    then codes "\\\""
    else if c == b'\\'
    then codes "\\\\"
    else if c == 8
    then codes "\\b"
    else if c == 9
    then codes "\\t"
    else if c == 10
    then codes "\\n"
    else if c == 12
    then codes "\\f"
    else if c == 13
    then codes "\\r"
    else if ltb c 0x20
    then unicode_escape c
    else c ∷ []

unfoldable pub starts_low : Text → Bool
starts_low [] = false
starts_low (c ∷ t) = leb 0xdc00 c && leb c 0xdfff

-- `paired` says that the unit is the second half of a surrogate pair; a lone surrogate is escaped.
unfoldable pub quote_from : Bool → Text → Text
unfolding escape_unit starts_low
quote_from paired [] = []
quote_from paired (c ∷ t) =
    let pair = leb 0xd800 c && leb c 0xdbff && starts_low t in
    (if paired || pair
      then c ∷ []
      else if leb 0xd800 c && leb c 0xdfff
      then unicode_escape c
      else escape_unit c)
    ++ quote_from pair t

unfoldable pub quote : Text → Text
unfolding quote_from
quote t = b'"' ∷ (quote_from false t ++ b'"' ∷ [])

-- A number that is not finite prints as one of these.
unfoldable pub is_finite : Text → Bool
unfolding text_eq
is_finite t =
    not (text_eq t (codes "NaN") || text_eq t (codes "Infinity") || text_eq t (codes "-Infinity"))

unfoldable pub or_null : Option Text → Text
or_null none = codes "null"
or_null (some t) = t

-- A property in front of the others, if its value has JSON.
unfoldable pub add_member : String → Option Text → List Text → List Text
unfolding quote key_units
add_member k none members = members
add_member k (some t) members = (quote (key_units k) ++ b':' ∷ t) ∷ members

unfoldable pub join_commas : List Text → Text
join_commas [] = []
join_commas (t ∷ []) = t
join_commas (t ∷ u ∷ ts) = t ++ b',' ∷ join_commas (u ∷ ts)

-- An ArrayBuffer has no properties of its own. `undefined` and functions have no JSON: they are left
-- out of an object, and stand as `null` in an array.
unfoldable mutual
  unfolding show_nat quote is_finite or_null add_member join_commas

  pub json : Value → Option Text
  json undefined = none
  json null = some (codes "null")
  json (bool true) = some (codes "true")
  json (bool false) = some (codes "false")
  json (int (pos n)) = some (show_nat n)
  json (int (negsuc n)) = some (b'-' ∷ show_nat (suc n))
  json (number t) = some (if is_finite t then t else codes "null")
  json (str t) = some (quote t)
  json (arr vs) = some (b'[' ∷ (join_commas (json_elements vs) ++ b']' ∷ []))
  json (obj fs) = some (b'{' ∷ (join_commas (json_members fs) ++ b'}' ∷ []))
  json (buffer n) = some (codes "{}")
  json (function t) = none

  pub json_elements : Items → List Text
  json_elements nil = []
  json_elements (cons v vs) = or_null (json v) ∷ json_elements vs

  pub json_members : Fields → List Text
  json_members end = []
  json_members (field k v fs) = add_member k (json v) (json_members fs)
