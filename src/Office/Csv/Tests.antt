-- ===== src/Office/Csv/Tests.antt =====
-- Runs of the parser and the writer, and the theorems at concrete inputs.
use useful.Common.{
  ◌≡◌, refl, [], ◌∷◌, String, codes, text_eq, ok, err, List, Text, map, true, false, length,
  sum_over, arith,
}
use useful.Js.Value.{
  nat_in, default_to, obj, end, get, lookup, has_key, Value, undefined, null, str, arr, to_items,
}
use useful.Office.Base.{exact_object, csv_invalid}
use useful.Js.Show.{to_text, show_nat, show_from}
use useful.Office.Csv.{
  is_formula, escape_spreadsheet_formula, read_delimiter, parse_text, Dialect, scan, finish, flush,
  step, step_quoted, step_plain, append, push_field, push_row,
}
use useful.Office.Csv.Writer.{
  stringify_csv, read_line_ending, encode_rows, encode_row, encode, quote_field, double_quotes,
  needs_quotes, escape, join,
}
use useful.Office.Csv.{parse_csv, read_dialect, read_limit}
use useful.Office.Csv.Bounds.{TableFits, parse_text-TableFits}
use useful.Office.Csv.RoundTrip.{table_value, delimiter_of, escapes, parse_csv-stringify_csv}
use useful.Office.Csv.RoundTrip.Tables.{HasFullLastRow}
use useful.Office.Csv.Formulas.{inspect_csv-stringify_csv}
use useful.Office.Csv.Writer.{Inspection, inspect_csv}
use useful.Office.Base.Utf8.{byte_length}

-- All that a run of the parser computes with.
parser : Unit {0}
unfolding parse_text scan finish flush step step_quoted step_plain append push_field push_row
parser = tt

-- All that a run of the writer computes with.
writer : Unit {0}
unfolding stringify_csv exact_object has_key get lookup read_delimiter read_line_ending encode_rows
    encode_row encode quote_field double_quotes needs_quotes escape escape_spreadsheet_formula
    is_formula join to_text show_nat show_from text_eq byte_length
writer = tt

abbrev text : String → Value
text s = str (codes s)

abbrev plain : Dialect
plain = record { delimiter = b','; max_rows = 10; max_columns = 10 }

parses :
    parse_text plain (codes "a,\"b\"\"c\"\r\n,x\n")
    ≡ ok ((codes "a" ∷ codes "b\"c" ∷ []) ∷ (codes "" ∷ codes "x" ∷ []) ∷ [])
unfolding parser
parses = refl

refuses : parse_text plain (codes "a\"b") ≡ err csv_invalid
unfolding parser
refuses = refl

writes :
    stringify_csv
      (arr (
        to_items (
          arr (to_items (text "=1" ∷ null ∷ text "a,b" ∷ []))
          ∷ arr (to_items (text "x\"" ∷ []))
          ∷ [])))
      undefined
    ≡ ok (codes "'=1,,\"a,b\"\r\n\"x\"\"\"")
unfolding writer
writes = refl

parse_text-TableFits_example :
    TableFits plain ((codes "a" ∷ codes "b\"c" ∷ []) ∷ (codes "" ∷ codes "x" ∷ []) ∷ [])
parse_text-TableFits_example = parse_text-TableFits plain (codes "a,\"b\"\"c\"\r\n,x\n") parses

-- A table with a formula, a delimiter and a quote.
abbrev table : List (List Text)
table = (codes "=1" ∷ codes "a,b" ∷ []) ∷ (codes "x\"" ∷ codes "" ∷ []) ∷ []

abbrev escaped : List (List Text)
escaped = (codes "'=1" ∷ codes "a,b" ∷ []) ∷ (codes "x\"" ∷ codes "" ∷ []) ∷ []

abbrev dialect : Dialect
dialect = record { delimiter = b','; max_rows = 100000; max_columns = 1000 }

written : stringify_csv (table_value table) undefined ≡ ok (codes "'=1,\"a,b\"\r\n\"x\"\"\",")
unfolding writer
written = refl

defaults : read_dialect (default_to undefined (obj end)) ≡ ok dialect
unfolding writer read_dialect read_limit nat_in
defaults = refl

comma_read : delimiter_of undefined ≡ ok b','
unfolding writer
comma_read = refl

no_keys :
    exact_object (default_to undefined (obj end)) ("delimiter" ∷ "maxRows" ∷ "maxColumns" ∷ [])
    ≡ ok tt
unfolding writer
no_keys = refl

escaped-fits : TableFits dialect (map (map (escape (escapes undefined))) table)
unfolding writer
escaped-fits = record {
  count = omega arith;
  each = (
    record {
      non_empty = omega arith;
      columns = omega arith;
      fields = (omega arith, (omega arith, tt));
    },
    (
      record {
        non_empty = omega arith;
        columns = omega arith;
        fields = (omega arith, (omega arith, tt));
      },
      tt,
    ),
  );
  cells = omega arith;
}

escaped-full : HasFullLastRow (map (map (escape (escapes undefined))) table)
unfolding writer
escaped-full = λ h. cc

parse_csv-stringify_csv_example :
    parse_csv (str (codes "'=1,\"a,b\"\r\n\"x\"\"\",")) undefined
    ≡ ok (record { rows = map (map (escape (escapes undefined))) table; delimiter = b',' })
parse_csv-stringify_csv_example =
    parse_csv-stringify_csv table undefined undefined dialect written no_keys defaults comma_read
      escaped-fits escaped-full

escapes_default : escapes undefined ≡ true
unfolding writer
escapes_default = refl

no_inspect_keys : exact_object (default_to undefined (obj end)) ("delimiter" ∷ []) ≡ ok tt
unfolding writer
no_inspect_keys = refl

inspect_csv-stringify_csv_example :
    (i : Inspection) × (inspect_csv (str (codes "'=1,\"a,b\"\r\n\"x\"\"\",")) undefined ≡ ok i)
    × (i.formula_like_cells ≡ 0)
    × (i.warned ≡ false)
    × (i.rows ≡ length table)
    × (i.cells ≡ sum_over length table)
unfolding get
inspect_csv-stringify_csv_example =
    inspect_csv-stringify_csv table undefined undefined dialect written escapes_default
      no_inspect_keys defaults comma_read escaped-fits escaped-full
