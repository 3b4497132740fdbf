-- ===== src/Office/Base.antt =====
-- packages/office-core/src/errors.mjs and limits.mjs, and the length of a text in UTF-8.
pub mod Utf8
pub mod Limits
use useful.Common.{
  Bool, true, false, List, [], ◌∷◌, String, all, Result, ok, err, ◌>>=◌, ◌>>◌, guard,
}
use useful.Js.Value.{Value, is_object, own_keys, has_key}

pub data Code : Type 0 where
  input_invalid input_too_large output_too_large : Code
  csv_too_many_columns csv_too_many_rows csv_invalid markdown_table_invalid : Code

-- `exactObject(value, allowed)`.
unfoldable pub exact_object : Value → List String → Result Code (Unit {0})
unfolding has_key
exact_object value allowed =
    guard (is_object value) input_invalid
    >> guard (all (λ key. has_key key allowed) (own_keys value)) input_invalid
