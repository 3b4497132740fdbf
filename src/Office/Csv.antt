-- ===== src/Office/Csv.antt =====
-- packages/office-core/src/csv.mjs. Text is a list of UTF-16 code units, as in the source, so that
-- `text.length`, `text[index]` and `field.length` are the model's `length` and positions.
pub mod Bounds
pub mod RoundTrip
pub mod Formulas
pub mod Writer
pub mod Tests
use useful.Common.{
  ℕ, ◌+◌, Bool, true, false, not, ◌&&◌, ◌||◌, List, [], ◌∷◌, ◌++◌, Option, none, some, Text,
  is_space, length, leb, ◌==◌, if◌then◌else◌, Result, ok, err, ◌>>=◌, ◌>>◌, guard,
}
use useful.Js.Value.{pos, int, Value, str, obj, end, get, nat_in, or_else, default_to}
use useful.Office.Base.{
  Code, input_invalid, input_too_large, csv_too_many_columns, csv_too_many_rows, csv_invalid,
  exact_object,
}
use useful.Office.Base.Limits
use useful.Office.Base.Utf8.{byte_length}

abbrev pub is_sign : ℕ → Bool
is_sign c = c == b'=' || c == b'+' || c == b'-' || c == b'@'

-- `/^\s*[=+\-@]/u.test(text)`, and the same test with `\u00a0` and `\ufeff` named in the class.
unfoldable pub is_formula : Text → Bool
is_formula [] = false
is_formula (c ∷ t) = is_sign c || (is_space c && is_formula t)

-- `value` is already a string here: `encode` has applied `String(value ?? "")`.
unfoldable pub escape_spreadsheet_formula : Text → Text
escape_spreadsheet_formula text = if is_formula text then b'\'' ∷ text else text

pub record Dialect : Type 0 where
  pub delimiter : ℕ
  pub max_rows : ℕ
  pub max_columns : ℕ

pub record Scan : Type 0 where
  pub rows : List (List Text)
  pub row : List Text
  pub field : Text
  pub quoted : Bool
  pub cells : ℕ

abbrev pub initial : Scan
initial = record { rows = []; row = []; field = []; quoted = false; cells = 0 }

unfoldable pub append : Scan → ℕ → Result Code Scan
append s c = do
  let field = s.field ++ c ∷ []
  guard (leb (length field) Limits.model_text_chars) input_too_large
  ok (record s { field = field })

unfoldable pub push_field : Dialect → Scan → Result Code Scan
push_field d s = do
  let row = s.row ++ s.field ∷ []
  guard (leb (length row) d.max_columns) csv_too_many_columns
  guard (leb (s.cells + 1) Limits.cells) input_too_large
  ok (record s { row = row; field = []; cells = s.cells + 1 })

unfoldable pub push_row : Dialect → Scan → Result Code Scan
push_row d s = do
  let rows = s.rows ++ s.row ∷ []
  guard (leb (length rows) d.max_rows) csv_too_many_rows
  ok (record s { rows = rows; row = [] })

abbrev pub is_char : ℕ → Option ℕ → Bool
is_char c none = false
is_char c (some d) = d == c

abbrev pub stay : Result Code Scan → Result Code (Scan × Bool)
stay r = r >>= λ t. ok (t, false)

-- One round of the loop at `character`, with `text[index + 1]`; the flag says that the round moved
-- the index past that character too.
unfoldable pub step_quoted : Scan → ℕ → Option ℕ → Result Code (Scan × Bool)
step_quoted s c next =
    if c == b'"'
    then if is_char b'"' next
      then (append s b'"' >>= λ t. ok (t, true))
      else ok (record s { quoted = false }, false)
    else stay (append s c)

abbrev pub is_empty {ℓ} : {A : Type ℓ} → List A → Bool
is_empty [] = true
is_empty (x ∷ xs) = false

unfoldable pub step_plain : Dialect → Scan → ℕ → Option ℕ → Result Code (Scan × Bool)
step_plain d s c next =
    if c == b'"' && is_empty s.field
    then ok (record s { quoted = true }, false)
    else if c == d.delimiter
    then stay (push_field d s)
    else if c == b'\r' || c == b'\n'
    then ((push_field d s >>= push_row d) >>= λ t. ok (t, c == b'\r' && is_char b'\n' next))
    else guard (not (c == b'"')) csv_invalid >> stay (append s c)

unfoldable pub step : Dialect → Scan → ℕ → Option ℕ → Result Code (Scan × Bool)
step d s c next = if s.quoted then step_quoted s c next else step_plain d s c next

abbrev pub next_char : Text → Option ℕ
next_char [] = none
next_char (c ∷ t) = some c

-- The loop over the text; `skip` says that the round before took this character too.
unfoldable pub scan : Dialect → Bool → Scan → Text → Result Code Scan
scan d skip s [] = ok s
scan d true s (c ∷ t) = scan d false s t
scan d false s (c ∷ t) = step d s c (next_char t) >>= λ r. scan d r.1 r.0 t

-- What follows the loop: `text` is asked only whether it is empty.
unfoldable pub flush : Dialect → Text → Scan → Result Code Scan
flush d text s =
    if not (is_empty s.field) || not (is_empty s.row) || (is_empty s.rows && not (is_empty text))
    then (push_field d s >>= push_row d)
    else ok s

unfoldable pub finish : Dialect → Text → Scan → Result Code (List (List Text))
finish d text s = do
  guard (not s.quoted) csv_invalid
  t ← flush d text s
  guard (leb (length t.rows) d.max_rows) csv_too_many_rows
  ok t.rows

unfoldable pub parse_text : Dialect → Text → Result Code (List (List Text))
parse_text d text = scan d false initial text >>= finish d text

-- The delimiter option: one code unit that is no quote, CR or LF.
unfoldable pub read_delimiter : Value → Result Code ℕ
read_delimiter (str (c ∷ [])) =
    guard (not (c == b'"' || c == b'\r' || c == b'\n')) input_invalid >> ok c
read_delimiter _ = err input_invalid

unfoldable pub read_limit : ℕ → Value → Result Code ℕ
read_limit hi v = elim (nat_in 1 hi v) [ none ↦ err input_invalid | some n ↦ ok n ]

abbrev pub comma : Value
comma = str (b',' ∷ [])

abbrev pub from_nat : ℕ → Value
from_nat n = int (pos n)

unfoldable pub read_dialect : Value → Result Code Dialect
read_dialect options = do
  delimiter ← read_delimiter (or_else (get "delimiter" options) comma)
  max_rows ← read_limit Limits.rows_per_sheet (or_else (get "maxRows" options) (from_nat 100000))
  max_columns ← read_limit Limits.csv_columns (or_else (get "maxColumns" options) (from_nat 1000))
  ok (record { delimiter = delimiter; max_rows = max_rows; max_columns = max_columns })

pub record Table : Type 0 where
  pub rows : List (List Text)
  pub delimiter : ℕ

abbrev pub read_text : Value → Result Code Text
read_text (str t) = ok t
read_text _ = err input_invalid

unfoldable pub parse_csv : Value → Value → Result Code Table
parse_csv text options = do
  let options = default_to options (obj end)
  exact_object options ("delimiter" ∷ "maxRows" ∷ "maxColumns" ∷ [])
  t ← read_text text
  guard (leb (byte_length t) Limits.csv_bytes) input_too_large
  d ← read_dialect options
  rows ← parse_text d t
  ok (record { rows = rows; delimiter = d.delimiter })
