-- ===== src/Office/Markdown/Tests.antt =====
-- Runs of the writer and the reader of Markdown tables, and the theorems at concrete inputs.
use useful.Common.{
  max_over, length, List, [], ◌∷◌, map, Text, codes, All, text_eq, ok, ◌≡◌, refl, arith, String,
}
use useful.Js.Value.{Value, str, arr, get, to_items}
use useful.Js.Show.{to_text}
use useful.Office.Base.Utf8.{byte_length}
use useful.Office.Markdown.{
  cell_text, replace_all, escape_markup, escape_cell, escape_cells, normalize_from, normalize_rows,
  join_cells, write_line, write_lines, write_table, rows_to_markdown_table,
}
use useful.Office.Markdown.Cells.{IsPlainCell, parse_line-write_line}
use useful.Office.Csv.RoundTrip.{table_value}
use useful.Office.Markdown.RoundTrip.{padded, parse_markdown_table-rows_to_markdown_table}
use useful.Office.Markdown.Bounds.{IsRectangular, parse_markdown_table-IsRectangular}
use useful.Office.Markdown.Reader.{
  MarkdownTable, trim_start, trim_end, trim, scan_cells, without_last, parse_line, split_lines,
  drop_blank, drop_blank_end, is_dashes, is_separator, parse_lines, parse_rows,
  parse_markdown_table,
}

-- All that a run computes with.
tables : Unit {0}
unfolding cell_text replace_all escape_markup escape_cell escape_cells normalize_from normalize_rows
    join_cells write_line write_lines write_table rows_to_markdown_table trim_start trim_end trim
    scan_cells without_last parse_line split_lines drop_blank drop_blank_end is_dashes is_separator
    parse_lines parse_rows parse_markdown_table text_eq byte_length to_text get
tables = tt

abbrev text : String → Value
text s = str (codes s)

writes :
    rows_to_markdown_table (
      arr (
        to_items
          (arr (to_items (text "a|b" ∷ text "<" ∷ [])) ∷ arr (to_items (text "c" ∷ [])) ∷ [])))
    ≡ ok (codes "| a\\|b | &lt; |\n| --- | --- |\n| c |  |\n")
unfolding tables
writes = refl

abbrev table : MarkdownTable
table = record {
  rows = (codes "a|b" ∷ codes "" ∷ []) ∷ (codes "c" ∷ codes "d" ∷ []) ∷ [];
  columns = 2;
}

abbrev source : Text
source = codes "\n| a\\|b |  |\r\n|:---|---:|\n| c |d|\n"

reads : parse_markdown_table (str source) ≡ ok table
unfolding tables
reads = refl

parse_markdown_table-IsRectangular_example : IsRectangular table
parse_markdown_table-IsRectangular_example = parse_markdown_table-IsRectangular (str source) reads

abbrev cells : List Text
cells = codes "a|b" ∷ codes "\\" ∷ []

cells-IsPlainCell : All IsPlainCell cells
cells-IsPlainCell = (
  record { trimmed = refl; no_angle = refl; short = omega arith },
  (record { trimmed = refl; no_angle = refl; short = omega arith }, tt),
)

parse_line-write_line_example : parse_line (write_line (map escape_markup cells)) ≡ ok cells
parse_line-write_line_example =
    parse_line-write_line cells (omega arith) (omega arith) cells-IsPlainCell

abbrev second : List Text
second = codes "c" ∷ codes "" ∷ []

abbrev given : List (List Text)
given = cells ∷ (codes "c" ∷ []) ∷ []

written :
    rows_to_markdown_table (table_value given)
    ≡ ok (codes "| a\\|b | \\\\ |\n| --- | --- |\n| c |  |\n")
unfolding tables
written = refl

given-IsPlainCell : All (All IsPlainCell) given
given-IsPlainCell =
    (cells-IsPlainCell, ((record { trimmed = refl; no_angle = refl; short = omega arith }, tt), tt))

parse_markdown_table-rows_to_markdown_table_example :
    parse_markdown_table (str (codes "| a\\|b | \\\\ |\n| --- | --- |\n| c |  |\n"))
    ≡ ok (record { rows = padded given; columns = max_over length given })
parse_markdown_table-rows_to_markdown_table_example =
    parse_markdown_table-rows_to_markdown_table given written given-IsPlainCell (omega arith)
