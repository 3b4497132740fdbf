-- ===== src/Office/Markdown.antt =====
-- packages/office-core/src/table-markdown.mjs: the writer of Markdown tables, `rowsToMarkdownTable`.
pub mod Reader
pub mod Cells
pub mod Lines
pub mod Tables
pub mod RoundTrip
pub mod Bounds
mod Tests
use useful.Common.{
  replicate, max_over, ℕ, ◌+◌, ◌-◌, Bool, not, ◌&&◌, ◌||◌, List, [], ◌∷◌, ◌++◌, map, Text, codes,
  length, any, text_eq, leb, ◌==◌, if◌then◌else◌, Result, ok, err, ◌>>=◌, ◌>>◌, guard, require,
  require,
}
use useful.Js.Value.{
  Value, undefined, null, bool, int, number, str, obj, get, is_text, as_text, as_items,
}
use useful.Js.Show.{to_text}
use useful.Office.Base.{Code, input_invalid, input_too_large, output_too_large}
use useful.Office.Base.Limits
use useful.Office.Base.Utf8.{byte_length}

-- `Number.isFinite(value)`, by what the number prints as.
abbrev pub is_finite : Text → Bool
is_finite t =
    not (text_eq t (codes "NaN") || (text_eq t (codes "Infinity") || text_eq t (codes "-Infinity")))

-- `cellText`.
unfoldable pub cell_text : Value → Result Code Text
cell_text undefined = ok []
cell_text null = ok []
cell_text (int z) = ok (to_text (int z))
cell_text (number t) = guard (is_finite t) input_invalid >> ok t
cell_text (bool b) = ok (to_text (bool b))
cell_text (obj fs) =
    guard (is_text "formula" (get "kind" (obj fs))) input_invalid
    >> (require (as_text (get "formula" (obj fs))) input_invalid >>= λ formula. ok (b'=' ∷ formula))
cell_text (str t) = ok t
cell_text _ = err input_invalid

-- `/[\r\n\u0000-\u0008\u000b\u000c\u000e-\u001f]/u`.
abbrev pub is_control : ℕ → Bool
is_control c = leb c 0x08 || (c == 0x0a || (c == 0x0b || (c == 0x0c || (leb 0x0d c && leb c 0x1f))))

-- `text.replaceAll(target, by)`, for one character.
unfoldable pub replace_all : ℕ → Text → Text → Text
replace_all target by [] = []
replace_all target by (c ∷ t) = (if c == target then by else c ∷ []) ++ replace_all target by t

-- What `escapeCell` writes for a text.
unfoldable pub escape_markup : Text → Text
escape_markup t = replace_all b'>' (codes "&gt;") (
    replace_all b'<' (codes "&lt;")
      (replace_all b'|' (b'\\' ∷ b'|' ∷ []) (replace_all b'\\' (b'\\' ∷ b'\\' ∷ []) t)))

-- `escapeCell`.
unfoldable pub escape_cell : Value → Result Code Text
escape_cell value = do
  t ← cell_text value
  guard (leb (length t) Limits.model_text_chars) input_too_large
  guard (not (any is_control t)) input_invalid
  ok (escape_markup t)

-- `row.map(escapeCell)`.
unfoldable pub escape_cells : List Value → Result Code (List Text)
escape_cells [] = ok []
escape_cells (v ∷ vs) = do t ← escape_cell v; ts ← escape_cells vs; ok (t ∷ ts)

-- `rows.map(…)` of `normalizeRows`; `cells` counts the cells so far.
unfoldable pub normalize_from : ℕ → List Value → Result Code (List (List Text))
normalize_from cells [] = ok []
normalize_from cells (v ∷ vs) = do
  row ← require (as_items v) input_invalid
  guard (leb (length row) Limits.table_columns) input_too_large
  guard (leb (cells + length row) Limits.cells) input_too_large
  escaped ← escape_cells row
  rest ← normalize_from (cells + length row) vs
  ok (escaped ∷ rest)

-- `[...row, ...Array(columns - row.length).fill("")]`.
abbrev pub pad : ℕ → List Text → List Text
pad columns row = row ++ replicate (columns - length row) []

-- `normalizeRows`, with the number of columns.
unfoldable pub normalize_rows : Value → Result Code (List (List Text) × ℕ)
normalize_rows value = do
  rows ← require (as_items value) input_invalid
  guard (leb 1 (length rows) && leb (length rows) Limits.table_rows) input_invalid
  escaped ← normalize_from 0 rows
  guard (leb 1 (max_over length escaped)) input_invalid
  ok (map (pad (max_over length escaped)) escaped, max_over length escaped)

-- `row.join(" | ")`.
unfoldable pub join_cells : List Text → Text
join_cells [] = []
join_cells (t ∷ []) = t
join_cells (t ∷ u ∷ ts) = t ++ (b' ' ∷ b'|' ∷ b' ' ∷ join_cells (u ∷ ts))

-- `| ${row.join(" | ")} |`.
unfoldable pub write_line : List Text → Text
write_line row = b'|' ∷ b' ' ∷ (join_cells row ++ b' ' ∷ b'|' ∷ [])

unfoldable pub write_lines : List (List Text) → Text
write_lines [] = []
write_lines (row ∷ rows) = b'\n' ∷ (write_line row ++ write_lines rows)

-- The first line, the separator, and the other lines, each on a line of its own.
unfoldable pub write_table : ℕ → List (List Text) → Text
write_table columns [] = []
write_table columns (row ∷ rows) =
    write_line row
    ++ (b'\n' ∷ (write_line (replicate columns (codes "---")) ++ (write_lines rows ++ b'\n' ∷ [])))

-- `rowsToMarkdownTable`.
unfoldable pub rows_to_markdown_table : Value → Result Code Text
rows_to_markdown_table value = do
  normal ← normalize_rows value
  guard (leb (byte_length (write_table normal.1 normal.0)) Limits.csv_bytes) output_too_large
  ok (write_table normal.1 normal.0)
