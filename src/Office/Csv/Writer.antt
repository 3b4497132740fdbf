-- ===== src/Office/Csv/Writer.antt =====
-- `stringifyCsv` and `inspectCsv` of packages/office-core/src/csv.mjs.
use useful.Common.{
  ℕ, ◌+◌, Bool, true, not, ◌||◌, List, [], ◌∷◌, ◌++◌, none, some, Text, length, sum_over, max_over,
  any, text_eq, ltb, leb, ◌==◌, if◌then◌else◌, Result, ok, err, ◌>>=◌, ◌>>◌, guard,
}
use useful.Js.Value.{Value, bool, str, obj, end, get, or_else, default_to, as_text, as_items}
use useful.Js.Show.{to_text}
use useful.Office.Base.{Code, input_invalid, input_too_large, output_too_large, exact_object}
use useful.Office.Base.Limits
use useful.Office.Base.Utf8.{byte_length}
use useful.Office.Csv.{
  is_formula, is_empty, escape_spreadsheet_formula, Table, read_delimiter, comma, parse_csv,
}

-- `text.replaceAll('"', '""')`.
unfoldable pub double_quotes : Text → Text
double_quotes [] = []
double_quotes (c ∷ t) = if c == b'"' then b'"' ∷ b'"' ∷ double_quotes t else c ∷ double_quotes t

unfoldable pub has_char : ℕ → Text → Bool
has_char c t = any (λ d. d == c) t

-- `text.includes(delimiter) || /["\r\n]/.test(text)`.
unfoldable pub needs_quotes : ℕ → Text → Bool
needs_quotes delimiter t = any (λ c. c == delimiter || (c == b'"' || (c == b'\r' || c == b'\n'))) t

unfoldable pub quote_field : ℕ → Text → Text
quote_field delimiter t =
    let doubled = double_quotes t in
    if needs_quotes delimiter doubled then b'"' ∷ (doubled ++ b'"' ∷ []) else doubled

unfoldable pub escape : Bool → Text → Text
escape escape_formulas t = if escape_formulas then escape_spreadsheet_formula t else t

unfoldable pub encode : ℕ → Bool → Value → Result Code Text
encode delimiter escape_formulas value = do
  let text = to_text (or_else value (str []))
  guard (leb (length text) Limits.model_text_chars) input_too_large
  ok (quote_field delimiter (escape escape_formulas text))

-- `row.map(encode)`.
unfoldable pub encode_row : ℕ → Bool → List Value → Result Code (List Text)
encode_row delimiter escape_formulas [] = ok []
encode_row delimiter escape_formulas (v ∷ vs) = do
  t ← encode delimiter escape_formulas v
  ts ← encode_row delimiter escape_formulas vs
  ok (t ∷ ts)

-- `texts.join(separator)`.
unfoldable pub join : Text → List Text → Text
join separator [] = []
join separator (t ∷ []) = t
join separator (t ∷ u ∷ ts) = t ++ (separator ++ join separator (u ∷ ts))

-- `rows.map(…)`, with the count of the cells so far.
unfoldable pub encode_rows : ℕ → Bool → ℕ → List Value → Result Code (List Text)
encode_rows delimiter escape_formulas cells [] = ok []
encode_rows delimiter escape_formulas cells (v ∷ vs) = do
  row ← elim (as_items v) [ none ↦ err input_invalid | some row ↦ ok row ]
  guard (leb (length row) Limits.csv_columns) input_invalid
  guard (leb (cells + length row) Limits.cells) input_too_large
  texts ← encode_row delimiter escape_formulas row
  lines ← encode_rows delimiter escape_formulas (cells + length row) vs
  ok (join (delimiter ∷ []) texts ∷ lines)

unfoldable pub read_line_ending : Value → Result Code Text
read_line_ending (str t) =
    guard (text_eq t (b'\n' ∷ []) || text_eq t (b'\r' ∷ b'\n' ∷ [])) input_invalid >> ok t
read_line_ending _ = err input_invalid

-- `options.escapeFormulas !== false`.
abbrev pub not_false : Value → Bool
not_false (bool b) = b
not_false _ = true

unfoldable pub stringify_csv : Value → Value → Result Code Text
stringify_csv rows options = do
  let options = default_to options (obj end)
  exact_object options ("delimiter" ∷ "lineEnding" ∷ "escapeFormulas" ∷ [])
  vs ← elim (as_items rows) [ none ↦ err input_invalid | some vs ↦ ok vs ]
  guard (leb (length vs) Limits.rows_per_sheet) input_invalid
  delimiter ← read_delimiter (or_else (get "delimiter" options) comma)
  line_ending ← read_line_ending (or_else (get "lineEnding" options) (str (b'\r' ∷ b'\n' ∷ [])))
  lines ← encode_rows delimiter (not_false (get "escapeFormulas" options)) 0 vs
  let text = join line_ending lines
  guard (leb (byte_length text) Limits.csv_bytes) output_too_large
  ok text

pub record Inspection : Type 0 where
  pub bytes : ℕ
  pub delimiter : ℕ
  pub rows : ℕ
  pub columns : ℕ
  pub cells : ℕ
  pub non_empty_cells : ℕ
  pub formula_like_cells : ℕ
  pub uneven_rows : ℕ
  pub warned : Bool

unfoldable pub count_if {ℓ} : {A : Type ℓ} → (A → Bool) → List A → ℕ
count_if p [] = 0
count_if p (x ∷ xs) = (if p x then 1 else 0) + count_if p xs

-- The counters of the loop over the parsed rows; its pattern `^[\s\u00a0\ufeff]*[=+\-@]` is
-- `is_formula`, since `\s` holds both of the named characters.
unfoldable pub inspect_table : Text → Table → Inspection
inspect_table text t =
    let columns = max_over length t.rows in
    let formula_like = sum_over (count_if is_formula) t.rows in
    record {
      bytes = byte_length text;
      delimiter = t.delimiter;
      rows = length t.rows;
      columns = columns;
      cells = sum_over length t.rows;
      non_empty_cells = sum_over (count_if (λ c. not (is_empty c))) t.rows;
      formula_like_cells = formula_like;
      uneven_rows = count_if (λ row. not (length row == columns)) t.rows;
      warned = ltb 0 formula_like;
    }

unfoldable pub inspect_csv : Value → Value → Result Code Inspection
inspect_csv text options = do
  let options = default_to options (obj end)
  exact_object options ("delimiter" ∷ [])
  t ← parse_csv text options
  elim (as_text text) [ none ↦ err input_invalid | some s ↦ ok (inspect_table s t) ]
