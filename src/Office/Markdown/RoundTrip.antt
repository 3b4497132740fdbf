-- ===== src/Office/Markdown/RoundTrip.antt =====
-- `rowsToMarkdownTable` on a table of texts, and `parseMarkdownTable` on what it returns.
use useful.Common.{
  replicate, max_over, sum_over, length-map, length-append, length-replicate, All-append, ℕ, zero,
  suc, ◌+◌, ◌-◌, ◌≤◌, false, not, ◌&&◌, List, [], ◌∷◌, ◌++◌, map, Text, length, any, All, leb,
  leb→le, ok, Ensures, Ensures-ok, Ensures-guard, Ensures-bind, bind-eq-ok, then-eq-ok, ◌≡◌, refl,
  subst, ap, ◌∙◌, arith,
}
use useful.Js.Value.{str, items-to_items}
use useful.Office.Base.{input_invalid, input_too_large, output_too_large}
use useful.Office.Base.Limits
use useful.Office.Base.Utf8.{byte_length}
use useful.Office.Csv.RoundTrip.{row_value, table_value}
use useful.Office.Markdown.{
  cell_text, is_control, escape_cell, escape_cells, normalize_from, pad, normalize_rows,
  replace_all, escape_markup, write_table, rows_to_markdown_table,
}
use useful.Office.Markdown.Cells.{IsPlainCell}
use useful.Office.Markdown.Lines.{breaks, IsLineCell}
use useful.Office.Markdown.Reader.{parse_markdown_table}
use useful.Office.Markdown.Tables.{IsLine, parse_markdown_table-write_table}

breaks-control : (t : Text) → any is_control t ≡ false → breaks t ≡ false
breaks-control [] h = refl
breaks-control (c ∷ t) h = ground (arith, breaks-control t)

-- A row that was written: its cells are escaped, and none has a control character.
record IsWrittenRow (row escaped : List Text) : Type 0 where
  same : escaped ≡ map escape_markup row
  one_line : All (λ t. breaks t ≡ false) row

escape_cell-text :
    (t : Text) → Ensures (λ w. (w ≡ escape_markup t) × (breaks t ≡ false)) (escape_cell (str t))
unfolding escape_cell cell_text
escape_cell-text t =
    let P : Text → Type 0 = λ w. (w ≡ escape_markup t) × (breaks t ≡ false) in
    Ensures-guard P (leb (length t) Limits.model_text_chars) input_too_large _ λ short.
      Ensures-guard P (not (any is_control t)) input_invalid (ok (escape_markup t))
        λ plain. (refl, breaks-control t (ground arith))

escape_cells-texts : (row : List Text) → Ensures (IsWrittenRow row) (escape_cells (map str row))
unfolding escape_cells
escape_cells-texts [] = record { same = refl; one_line = tt }
escape_cells-texts (t ∷ row) =
    let P = IsWrittenRow (t ∷ row) in
    Ensures-bind (λ w. (w ≡ escape_markup t) × (breaks t ≡ false)) P (escape_cell (str t)) _
      (escape_cell-text t)
      λ w first.
        Ensures-bind (IsWrittenRow row) P (escape_cells (map str row)) _ (escape_cells-texts row)
          λ ws rest. record {
            same = rw (first.0, rest.same) refl;
            one_line = (first.1, rest.one_line);
          }

record IsWrittenTable (rows escaped : List (List Text)) : Type 0 where
  same : escaped ≡ map (map escape_markup) rows
  one_line : All (All (λ t. breaks t ≡ false)) rows
  few : All (λ row. length row ≤ Limits.table_columns) rows

normalize_from-rows :
    (cells : ℕ) (rows : List (List Text))
    → Ensures (IsWrittenTable rows) (normalize_from cells (map row_value rows))
unfolding normalize_from
normalize_from-rows cells [] = record { same = refl; one_line = tt; few = tt }
normalize_from-rows cells (row ∷ rows) = rw (items-to_items (map str row)) (
    let P = IsWrittenTable (row ∷ rows) in
    Ensures-guard P (leb (length (map str row)) Limits.table_columns) input_too_large _ λ few.
      Ensures-guard P (leb (cells + length (map str row)) Limits.cells) input_too_large _ λ counted.
        Ensures-bind (IsWrittenRow row) P (escape_cells (map str row)) _ (escape_cells-texts row)
          λ ws first.
            Ensures-bind (IsWrittenTable rows) P
              (normalize_from (cells + length (map str row)) (map row_value rows)) _
              (normalize_from-rows (cells + length (map str row)) rows)
              λ rest written. record {
                same = rw (first.same, written.same) refl;
                one_line = (first.one_line, written.one_line);
                few = (rw (← length-map str row) (leb→le _ _ few), written.few);
              })

max_over-map :
    (rows : List (List Text))
    → max_over length (map (map escape_markup) rows) ≡ max_over length rows
max_over-map [] = refl
max_over-map (row ∷ rows) = rw (length-map escape_markup row, max_over-map rows) refl

escape_markup-nil : escape_markup [] ≡ []
unfolding escape_markup replace_all
escape_markup-nil = refl

map-append_replicate :
    (row : List Text) (k : ℕ)
    → map escape_markup row ++ replicate k [] ≡ map escape_markup (row ++ replicate k [])
map-append_replicate [] zero = refl
map-append_replicate [] (suc k) =
    rw escape_markup-nil (ap (λ x. [] ∷ x) (map-append_replicate [] k))
map-append_replicate (t ∷ row) k = ap (λ x. escape_markup t ∷ x) (map-append_replicate row k)

map-pad :
    (w : ℕ) (rows : List (List Text))
    → map (pad w) (map (map escape_markup) rows) ≡ map (map escape_markup) (map (pad w) rows)
map-pad w [] = refl
map-pad w (row ∷ rows) =
    rw (length-map escape_markup row, map-append_replicate row (w - length row), map-pad w rows)
      refl

-- The table that the writer makes of the rows, each as long as the longest.
abbrev pub padded : List (List Text) → List (List Text)
padded rows = map (pad (max_over length rows)) rows

record IsNormal (rows : List (List Text)) (normal : List (List Text) × ℕ) : Type 0 where
  same : normal.0 ≡ map (map escape_markup) (padded rows)
  width : normal.1 ≡ max_over length rows
  some_column : 1 ≤ max_over length rows
  some_row : 1 ≤ length rows
  few_rows : length rows ≤ Limits.table_rows
  one_line : All (All (λ t. breaks t ≡ false)) rows
  few : All (λ row. length row ≤ Limits.table_columns) rows

normalize_rows-IsNormal :
    (rows : List (List Text)) → Ensures (IsNormal rows) (normalize_rows (table_value rows))
unfolding normalize_rows
normalize_rows-IsNormal rows = rw (items-to_items (map row_value rows)) (
    let P = IsNormal rows in
    Ensures-guard P
      (leb 1 (length (map row_value rows)) && leb (length (map row_value rows)) Limits.table_rows)
      input_invalid _
      λ count.
        Ensures-bind (IsWrittenTable rows) P (normalize_from 0 (map row_value rows)) _
          (normalize_from-rows 0 rows)
          λ escaped written.
            let width : max_over length escaped ≡ max_over length rows =
              ap (max_over length) written.same ∙ max_over-map rows in
            Ensures-guard P (leb 1 (max_over length escaped)) input_invalid
              (ok (map (pad (max_over length escaped)) escaped, max_over length escaped))
              λ some_column. record {
                same = rw (width, written.same) (map-pad (max_over length rows) rows);
                width = width;
                some_column = rw (← width) (leb→le _ _ some_column);
                some_row = rw (← length-map row_value rows) (ground (arith, count));
                few_rows = rw (← length-map row_value rows) (ground (arith, count));
                one_line = written.one_line;
                few = written.few;
              })

blank-IsLineCell : (k : ℕ) → All IsLineCell (replicate k [])
blank-IsLineCell zero = tt
blank-IsLineCell (suc k) = (
  record {
    plain = record { trimmed = refl; no_angle = refl; short = omega arith };
    one_line = refl;
  },
  blank-IsLineCell k,
)

row-IsLineCell :
    (row : List Text) → All IsPlainCell row → All (λ t. breaks t ≡ false) row → All IsLineCell row
row-IsLineCell [] h k = tt
row-IsLineCell (t ∷ row) (p, h) (b, k) =
    (record { plain = p; one_line = b }, row-IsLineCell row h k)

pad-IsLine : (w : ℕ) (row : List Text) → length row ≤ w → All IsLineCell row → IsLine w (pad w row)
pad-IsLine w row fits cells = record {
  wide = omega (
    arith,
    length-append row (replicate (w - length row) []),
    length-replicate {A = Text} (w - length row) [],
  );
  cells =
      All-append IsLineCell row (replicate (w - length row) []) cells
        (blank-IsLineCell (w - length row));
}

pads-IsLine :
    (w : ℕ) (rows : List (List Text))
    → max_over length rows ≤ w
    → All (All IsPlainCell) rows
    → All (All (λ t. breaks t ≡ false)) rows
    → All (IsLine w) (map (pad w) rows)
pads-IsLine w [] fits h k = tt
pads-IsLine w (row ∷ rows) fits (p, h) (b, k) =
    (pad-IsLine w row (omega arith) (row-IsLineCell row p b), pads-IsLine w rows (omega arith) h k)

max_over-few :
    (top : ℕ) (rows : List (List Text))
    → All (λ row. length row ≤ top) rows
    → max_over length rows ≤ top
max_over-few top [] h = omega arith
max_over-few top (row ∷ rows) (p, h) = omega (arith, max_over-few top rows h)

parse_markdown_table-full :
    (w : ℕ) (full : List (List Text))
    → 1 ≤ length full
    → 1 ≤ w
    → w ≤ Limits.table_columns
    → All (IsLine w) full
    → length full ≤ Limits.table_rows
    → sum_over length full ≤ Limits.cells
    → byte_length (write_table w (map (map escape_markup) full)) ≤ Limits.csv_bytes
    → parse_markdown_table (str (write_table w (map (map escape_markup) full)))
      ≡ ok (record { rows = full; columns = w })
parse_markdown_table-full w [] some_row some_column few lines short cells fits =
    absurd (omega arith)
parse_markdown_table-full w (row ∷ rows) some_row some_column few lines short cells fits =
    parse_markdown_table-write_table w row rows some_column few lines short cells fits

-- Reading back what `rowsToMarkdownTable` returned for a table of texts gives the table, its rows filled
-- up with empty cells to the longest: whenever each cell is trimmed and has no angle bracket, and the
-- filled table keeps the cell limit.
pub parse_markdown_table-rows_to_markdown_table :
    (rows : List (List Text)) {text : Text}
    → rows_to_markdown_table (table_value rows) ≡ ok text
    → All (All IsPlainCell) rows
    → sum_over length (padded rows) ≤ Limits.cells
    → parse_markdown_table (str text)
      ≡ ok (record { rows = padded rows; columns = max_over length rows })
unfolding rows_to_markdown_table
parse_markdown_table-rows_to_markdown_table rows {text} e plain cells =
    let (normal, made, e1) = bind-eq-ok (normalize_rows (table_value rows)) _ e in
    let n =
      Ensures-ok (IsNormal rows) (normalize_rows (table_value rows)) (normalize_rows-IsNormal rows)
        made in
    let (fits, e2) =
      then-eq-ok (leb (byte_length (write_table normal.1 normal.0)) Limits.csv_bytes)
        output_too_large _ e1 in
    let w = max_over length rows in
    let made_text : write_table normal.1 normal.0
        ≡ write_table w (map (map escape_markup) (padded rows)) =
      cc (n.same, n.width) in
    let same : write_table w (map (map escape_markup) (padded rows)) ≡ text = cc (made_text, e2) in
    let count : length (padded rows) ≡ length rows = length-map (pad w) rows in
    subst (λ x. parse_markdown_table (str x) ≡ ok (record { rows = padded rows; columns = w })) same
      (parse_markdown_table-full w (padded rows) (omega (arith, count, n.some_row)) n.some_column
        (max_over-few Limits.table_columns rows n.few)
        (pads-IsLine w rows (omega arith) plain n.one_line) (omega (arith, count, n.few_rows)) cells
        (subst (λ x. byte_length x ≤ Limits.csv_bytes) made_text (leb→le _ _ fits)))
