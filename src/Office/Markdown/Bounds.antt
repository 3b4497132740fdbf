-- ===== src/Office/Markdown/Bounds.antt =====
-- What `parseMarkdownTable` may return.
use useful.Common.{
  sum_over, ℕ, suc, ◌+◌, ◌≤◌, true, false, not, ◌&&◌, List, [], ◌∷◌, Text, length, any, all, All,
  leb, leb→le, ◌==◌, ==_iff, ok, Ensures, Ensures-ok, Ensures-guard, Ensures-any, Ensures-bind, ◌≡◌,
  refl, arith, and-split,
}
use useful.Js.Value.{Value, str}
use useful.Office.Base.{input_too_large, markdown_table_invalid}
use useful.Office.Base.Limits
use useful.Office.Base.Utf8.{byte_length}
use useful.Office.Markdown.Reader.{
  MarkdownTable, trim, starts_with_pipe, ends_with_pipe, inner, scan_cells, parse_line, parse_lines,
  parse_rows, parse_markdown_table, is_blank_line, is_separator, drop_blank, drop_blank_end,
  split_lines,
}

-- A table of equal rows within the limits.
pub record IsRectangular (t : MarkdownTable) : Type 0 where
  pub some_column : 1 ≤ t.columns
  pub columns : t.columns ≤ Limits.table_columns
  pub some_row : 1 ≤ length t.rows
  pub rows : length t.rows ≤ Limits.table_rows
  pub equal : All (λ row. length row ≡ t.columns) t.rows
  pub cells : sum_over length t.rows ≤ Limits.cells
  pub fields : All (All (λ cell. length cell ≤ Limits.model_text_chars)) t.rows

-- What a line gives.
abbrev LineFits : List Text → Type 0
LineFits row =
    (1 ≤ length row)
    × (length row ≤ Limits.table_columns)
    × All (λ cell. length cell ≤ Limits.model_text_chars) row

all-All_le :
    (limit : ℕ) (row : List Text)
    → all (λ t. leb (length t) limit) row ≡ true
    → All (λ t. length t ≤ limit) row
all-All_le limit [] h = tt
all-All_le limit (t ∷ row) h =
    let (first, rest) = and-split (leb (length t) limit) _ h in
    (leb→le _ _ first, all-All_le limit row rest)

all-All_equal :
    (width : ℕ) (rows : List (List Text))
    → all (λ row. length row == width) rows ≡ true
    → All (λ row. length row ≡ width) rows
all-All_equal width [] h = tt
all-All_equal width (row ∷ rows) h =
    let (first, rest) = and-split (length row == width) _ h in
    ((==_iff _ _).0 first, all-All_equal width rows rest)

parse_line-LineFits : (line : Text) → Ensures LineFits (parse_line line)
unfolding parse_line
parse_line-LineFits line =
    Ensures-guard LineFits (starts_with_pipe (trim line) && ends_with_pipe (trim line))
      markdown_table_invalid _
      λ pipes. Ensures-any LineFits (scan_cells [] false (inner (trim line))) _ λ cells scanned.
        Ensures-guard LineFits (leb 1 (length cells) && leb (length cells) Limits.table_columns)
          markdown_table_invalid _
          λ count.
            Ensures-guard LineFits (all (λ t. leb (length t) Limits.model_text_chars) cells)
              input_too_large (ok cells)
              λ each. (ground (arith, count), ground (arith, count), all-All_le _ cells each)

abbrev LinesFit : ℕ → List (List Text) → Type 0
LinesFit count rows =
    (length rows ≡ count) × All (All (λ cell. length cell ≤ Limits.model_text_chars)) rows

parse_lines-LinesFit : (lines : List Text) → Ensures (LinesFit (length lines)) (parse_lines lines)
unfolding parse_lines
parse_lines-LinesFit [] = (refl, tt)
parse_lines-LinesFit (line ∷ lines) =
    let Fits = LinesFit (suc (length lines)) in
    Ensures-bind LineFits Fits (parse_line line) _ (parse_line-LineFits line) λ row fits.
      Ensures-bind (LinesFit (length lines)) Fits (parse_lines lines) _ (parse_lines-LinesFit lines)
        λ rows rest. (omega (arith, rest.0), (fits.2, rest.1))

parse_rows-IsRectangular : (lines : List Text) → Ensures IsRectangular (parse_rows lines)
unfolding parse_rows
parse_rows-IsRectangular (first ∷ second ∷ lines) =
    Ensures-guard IsRectangular (leb (length lines + 2) (Limits.table_rows + 1))
      markdown_table_invalid _
      λ few.
        Ensures-guard IsRectangular (not (any is_blank_line (first ∷ second ∷ lines)))
          markdown_table_invalid _
          λ filled.
            Ensures-bind LineFits IsRectangular (parse_line first) _ (parse_line-LineFits first)
              λ header top. Ensures-any IsRectangular (parse_line second) _ λ separator read.
                Ensures-guard IsRectangular (length separator == length header)
                  markdown_table_invalid _
                  λ same.
                    Ensures-guard IsRectangular (all is_separator separator) markdown_table_invalid
                      _
                      λ dashes.
                        Ensures-bind (LinesFit (length lines)) IsRectangular (parse_lines lines) _
                          (parse_lines-LinesFit lines)
                          λ body fits.
                            Ensures-guard IsRectangular
                              (all (λ row. length row == length header) body) markdown_table_invalid
                              _
                              λ equal.
                                Ensures-guard IsRectangular
                                  (leb (sum_over length (header ∷ body)) Limits.cells)
                                  input_too_large
                                  (ok (record { rows = header ∷ body; columns = length header }))
                                  λ cells. record {
                                    some_column = top.0;
                                    columns = top.1;
                                    some_row = omega arith;
                                    rows = omega (arith, leb→le _ _ few, fits.0);
                                    equal = (refl, all-All_equal (length header) body equal);
                                    cells = leb→le _ _ cells;
                                    fields = (top.2, fits.1);
                                  }
parse_rows-IsRectangular [] = tt
parse_rows-IsRectangular (line ∷ []) = tt

-- Whatever `parseMarkdownTable` returns has at least one row and one column, rows of equal length, and
-- keeps within the row, column, cell and text limits.
pub parse_markdown_table-IsRectangular :
    (value : Value) {table : MarkdownTable}
    → parse_markdown_table value ≡ ok table
    → IsRectangular table
unfolding parse_markdown_table
parse_markdown_table-IsRectangular (str t) e =
    Ensures-ok IsRectangular (parse_markdown_table (str t))
      (Ensures-guard IsRectangular (leb (byte_length t) Limits.csv_bytes) input_too_large _
        λ fits. parse_rows-IsRectangular (drop_blank_end (drop_blank (split_lines t))))
      e
parse_markdown_table-IsRectangular _ e = cc
