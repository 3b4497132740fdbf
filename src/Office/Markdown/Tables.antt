-- ===== src/Office/Markdown/Tables.antt =====
-- A whole table that the writer made, read back.
use useful.Common.{
  replicate, sum_over, length-replicate, length-map, ℕ, zero, suc, ◌+◌, ◌≤◌, true, false, List, [],
  ◌∷◌, ◌++◌, map, Text, codes, length, all, All, text_eq, le→leb, ◌==◌, ==_iff, ok, ◌≡◌, refl,
  subst, ap, ◌∙◌, arith,
}
use useful.Js.Value.{str}
use useful.Office.Base.Limits
use useful.Office.Base.Utf8.{byte_length}
use useful.Office.Markdown.{replace_all, escape_markup, write_line, write_table}
use useful.Office.Markdown.Cells.{IsPlainCell, parse_line-write_line}
use useful.Office.Markdown.Reader.{
  split_lines, drop_blank, is_dashes, is_separator, parse_line, parse_lines, parse_rows,
  parse_markdown_table,
}
use useful.Office.Markdown.Lines.{
  breaks, split_lines-line, IsLineCell, write_line-breaks, lines_of, split_lines-write_lines,
  is_blank_line-write_line, NoBlank, lines_of-NoBlank, drop_blank_end-NoBlank, any-NoBlank,
}

abbrev dashes : Text
dashes = codes "---"

map-replicate : (w : ℕ) → map escape_markup (replicate w dashes) ≡ replicate w dashes
unfolding escape_markup replace_all
map-replicate zero = refl
map-replicate (suc w) = ap (λ x. dashes ∷ x) (map-replicate w)

all-is_separator : (w : ℕ) → all is_separator (replicate w dashes) ≡ true
unfolding is_separator is_dashes text_eq
all-is_separator zero = refl
all-is_separator (suc w) = all-is_separator w

dashes-IsLineCell : (w : ℕ) → All IsLineCell (replicate w dashes)
dashes-IsLineCell zero = tt
dashes-IsLineCell (suc w) = (
  record {
    plain = record { trimmed = refl; no_angle = refl; short = omega arith };
    one_line = refl;
  },
  dashes-IsLineCell w,
)

separator-breaks : (w : ℕ) → breaks (write_line (replicate w dashes)) ≡ false
separator-breaks w =
    subst (λ row. breaks (write_line row) ≡ false) (map-replicate w)
      (write_line-breaks (replicate w dashes) (dashes-IsLineCell w))

plain-IsLineCell : (row : List Text) → All IsLineCell row → All IsPlainCell row
plain-IsLineCell [] h = tt
plain-IsLineCell (t ∷ row) (p, h) = (p.plain, plain-IsLineCell row h)

parse_line-separator :
    (w : ℕ)
    → 1 ≤ w
    → w ≤ Limits.table_columns
    → parse_line (write_line (replicate w dashes)) ≡ ok (replicate w dashes)
parse_line-separator w some_cell few =
    subst (λ row. parse_line (write_line row) ≡ ok (replicate w dashes)) (map-replicate w)
      (parse_line-write_line (replicate w dashes) (rw (length-replicate w dashes) some_cell)
        (rw (length-replicate w dashes) few)
        (plain-IsLineCell (replicate w dashes) (dashes-IsLineCell w)))

-- A row of the table, with a cell for each of the columns.
pub record IsLine (columns : ℕ) (row : List Text) : Type 0 where
  pub wide : length row ≡ columns
  pub cells : All IsLineCell row

module _ (columns : ℕ) (some_column : 1 ≤ columns) (few : columns ≤ Limits.table_columns) where
  parse_line-IsLine :
      (row : List Text)
      → IsLine columns row
      → parse_line (write_line (map escape_markup row)) ≡ ok row
  parse_line-IsLine row h =
      parse_line-write_line row (omega (arith, h.wide)) (omega (arith, h.wide))
        (plain-IsLineCell row h.cells)

  parse_lines-lines_of :
      (rows : List (List Text)) → All (IsLine columns) rows → parse_lines (lines_of rows) ≡ ok rows
  unfolding parse_lines
  parse_lines-lines_of [] h = refl
  parse_lines-lines_of (row ∷ rows) (p, h) =
      rw (parse_line-IsLine row p, parse_lines-lines_of rows h) refl

  all-wide :
      (rows : List (List Text))
      → All (IsLine columns) rows
      → all (λ row. length row == columns) rows ≡ true
  all-wide [] h = refl
  all-wide (row ∷ rows) (p, h) = rw ((==_iff _ _).1 p.wide, all-wide rows h) refl

  cells-IsLine : (rows : List (List Text)) → All (IsLine columns) rows → All (All IsLineCell) rows
  cells-IsLine [] h = tt
  cells-IsLine (row ∷ rows) (p, h) = (p.cells, cells-IsLine rows h)

  parse_rows-lines_of :
      (row : List Text) (rows : List (List Text))
      → All (IsLine columns) (row ∷ rows)
      → length (row ∷ rows) ≤ Limits.table_rows
      → sum_over length (row ∷ rows) ≤ Limits.cells
      → parse_rows (
          write_line (map escape_markup row)
          ∷ write_line (replicate columns dashes)
          ∷ lines_of rows)
        ≡ ok (record { rows = row ∷ rows; columns = columns })
  unfolding parse_rows
  parse_rows-lines_of row rows (p, h) short cells =
      rw
        (
          le→leb (length (lines_of rows) + 2) (Limits.table_rows + 1)
              (omega (arith, length-map (λ row. write_line (map escape_markup row)) rows)),
          is_blank_line-write_line (map escape_markup row),
          is_blank_line-write_line (replicate columns dashes),
          any-NoBlank (lines_of rows) (lines_of-NoBlank rows),
          parse_line-IsLine row p,
          parse_line-separator columns some_column few,
          parse_lines-lines_of rows h,
          length-replicate columns dashes,
          p.wide,
          (==_iff columns columns).1 refl,
          all-is_separator columns,
          all-wide rows h,
          le→leb (columns + sum_over length rows) Limits.cells (omega (arith, cells, p.wide)),
        )
        refl

  split_lines-write_table :
      (row : List Text) (rows : List (List Text))
      → All (IsLine columns) (row ∷ rows)
      → split_lines (write_table columns (map (map escape_markup) (row ∷ rows)))
        ≡ (write_line (map escape_markup row)
            ∷ write_line (replicate columns dashes)
            ∷ lines_of rows)
          ++ [] ∷ []
  unfolding write_table
  split_lines-write_table row rows (p, h) =
      split_lines-line (write_line (map escape_markup row)) _ (write_line-breaks row p.cells)
      ∙ ap (λ x. write_line (map escape_markup row) ∷ x)
          (split_lines-write_lines rows (write_line (replicate columns dashes))
            (separator-breaks columns) (cells-IsLine rows h))

-- Reading the text that the writer makes of a table gives the table back: its rows are of equal length,
-- at least one and at most `tableRows` of them, with at least one and at most `tableColumns` cells,
-- which are trimmed, on one line, without an angle bracket and within the text limit; and the table
-- and its text keep the cell and size limits.
pub parse_markdown_table-write_table :
    (columns : ℕ) (row : List Text) (rows : List (List Text))
    → 1 ≤ columns
    → columns ≤ Limits.table_columns
    → All (IsLine columns) (row ∷ rows)
    → length (row ∷ rows) ≤ Limits.table_rows
    → sum_over length (row ∷ rows) ≤ Limits.cells
    → byte_length (write_table columns (map (map escape_markup) (row ∷ rows))) ≤ Limits.csv_bytes
    → parse_markdown_table (str (write_table columns (map (map escape_markup) (row ∷ rows))))
      ≡ ok (record { rows = row ∷ rows; columns = columns })
unfolding parse_markdown_table drop_blank
parse_markdown_table-write_table columns row rows some_column few lines short cells fits =
    let lines_kept =
      write_line (map escape_markup row) ∷ write_line (replicate columns dashes) ∷ lines_of rows in
    let no_blank : NoBlank lines_kept = (
      is_blank_line-write_line (map escape_markup row),
      (is_blank_line-write_line (replicate columns dashes), lines_of-NoBlank rows),
    ) in
    rw
      (
        le→leb _ _ fits,
        split_lines-write_table columns some_column few row rows lines,
        is_blank_line-write_line (map escape_markup row),
        drop_blank_end-NoBlank lines_kept no_blank,
      )
      (parse_rows-lines_of columns some_column few row rows lines short cells)
