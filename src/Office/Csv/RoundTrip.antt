-- ===== src/Office/Csv/RoundTrip.antt =====
-- The parser on what the writer has written: the fields, the rows, and the whole of `stringifyCsv`.
pub mod Fields
pub mod Tables
use useful.Common.{
  ℕ, suc, ◌+◌, ◌≤◌, Bool, true, false, List, [], ◌∷◌, map, Text, length, sum_over, All, leb, leb→le,
  le→leb, if◌then◌else◌, Result, ok, err, ◌>>=◌, ◌>>◌, guard, Ensures, Ensures-bind, Ensures-guard,
  Ensures-ok, Ensures-intro, bind-eq-ok, then-eq-ok, ◌≡◌, ◌≢◌, refl, sym, ap, ◌∙◌, arith, ◌⊎◌, inl,
  inr, Option, none, some, text_eq, text_eq_iff,
}
use useful.Js.Value.{
  Value, undefined, null, str, arr, obj, end, get, items, to_items, items-to_items, as_items,
  or_else, default_to,
}
use useful.Js.Show.{to_text}
use useful.Office.Base.{Code, input_invalid, input_too_large, output_too_large, exact_object}
use useful.Office.Base.Limits
use useful.Office.Base.Utf8.{byte_length}
use useful.Office.Csv.{
  Dialect, initial, scan, finish, flush, parse_text, parse_csv, read_dialect, read_delimiter, comma,
}
use useful.Office.Csv.Bounds.{RowFits, TableFits}
use useful.Office.Csv.Writer.{
  join, quote_field, escape, encode, encode_row, encode_rows, read_line_ending, not_false,
  stringify_csv,
}
use Fields.{IsDelimiter}
use Tables.{written_row, written, IsEnding, HasFullLastRow, scan-written}

abbrev pub row_value : List Text → Value
row_value fs = arr (to_items (map str fs))

-- A table of texts, as the argument of `stringifyCsv`.
abbrev pub table_value : List (List Text) → Value
table_value rows = arr (to_items (map row_value rows))

module _ (delimiter : ℕ) (escape_formulas : Bool) where
  encode-quote_field :
      (t : Text)
      → Ensures
          (λ w. w ≡ quote_field delimiter (escape escape_formulas t))
          (encode delimiter escape_formulas (str t))
  unfolding encode to_text
  encode-quote_field t = ground arith

  abbrev IsRow : List Text → List Text → Type 0
  IsRow fs ws = ws ≡ map (quote_field delimiter) (map (escape escape_formulas) fs)

  encode_row-IsRow :
      (fs : List Text) → Ensures (IsRow fs) (encode_row delimiter escape_formulas (map str fs))
  unfolding encode_row
  encode_row-IsRow [] = refl
  encode_row-IsRow (t ∷ fs) =
      Ensures-bind (λ w. w ≡ quote_field delimiter (escape escape_formulas t)) (IsRow (t ∷ fs))
        (encode delimiter escape_formulas (str t)) _ (encode-quote_field t)
        λ w e.
          Ensures-bind (IsRow fs) (IsRow (t ∷ fs))
            (encode_row delimiter escape_formulas (map str fs)) _ (encode_row-IsRow fs) λ ws es. cc

  abbrev IsLines : List (List Text) → List Text → Type 0
  IsLines rows lines = lines ≡ map (written_row delimiter) (map (map (escape escape_formulas)) rows)

  encode_rows-IsLines :
      (rows : List (List Text)) (cells : ℕ) {lines : List Text}
      → encode_rows delimiter escape_formulas cells (map row_value rows) ≡ ok lines
      → IsLines rows lines
  unfolding encode_rows
  encode_rows-IsLines [] cells e = cc
  encode_rows-IsLines (row ∷ rows) cells e =
      let n = length (map str row) in
      let (_, e) =
        then-eq-ok (leb n Limits.csv_columns) input_invalid _
          (rw (items-to_items (map str row)) at e) in
      let (_, e) = then-eq-ok (leb (cells + n) Limits.cells) input_too_large _ e in
      let (ws, encoded, e) = bind-eq-ok (encode_row delimiter escape_formulas (map str row)) _ e in
      let (lines, later, e) =
        bind-eq-ok (encode_rows delimiter escape_formulas (cells + n) (map row_value rows)) _ e in
      let here = Ensures-ok (IsRow row) _ (encode_row-IsRow row) encoded in
      let rest = encode_rows-IsLines rows _ later in cc

read_delimiter-IsDelimiter : (v : Value) → Ensures IsDelimiter (read_delimiter v)
unfolding read_delimiter
read_delimiter-IsDelimiter (str (c ∷ [])) = ground arith
read_delimiter-IsDelimiter _ = tt

read_line_ending-IsEnding : (v : Value) → Ensures IsEnding (read_line_ending v)
unfolding read_line_ending
read_line_ending-IsEnding (str t) =
    ground (arith, text_eq_iff t (b'\n' ∷ []), text_eq_iff t (b'\r' ∷ b'\n' ∷ []))
read_line_ending-IsEnding _ = tt

-- The delimiter and the flag that the writer takes from its options.
abbrev pub delimiter_of : Value → Result Code ℕ
delimiter_of options =
    read_delimiter (or_else (get "delimiter" (default_to options (obj end))) comma)

abbrev pub escapes : Value → Bool
escapes options = not_false (get "escapeFormulas" (default_to options (obj end)))

record IsWritten (rows : List (List Text)) (options : Value) (text : Text) : Type 0 where
  delimiter : ℕ
  ending : Text
  read : delimiter_of options ≡ ok delimiter
  is_delimiter : IsDelimiter delimiter
  is_ending : IsEnding ending
  fits : byte_length text ≤ Limits.csv_bytes
  wrote : text ≡ written delimiter ending (map (map (escape (escapes options))) rows)

stringify_csv-IsWritten :
    (rows : List (List Text)) (options : Value) {text : Text}
    → stringify_csv (table_value rows) options ≡ ok text
    → IsWritten rows options text
unfolding stringify_csv
stringify_csv-IsWritten rows options {text} e =
    let o = default_to options (obj end) in
    let (_, _, e) =
      bind-eq-ok (exact_object o ("delimiter" ∷ "lineEnding" ∷ "escapeFormulas" ∷ [])) _ e in
    let (_, e) =
      then-eq-ok (leb (length (map row_value rows)) Limits.rows_per_sheet) input_invalid _
        (rw (items-to_items (map row_value rows)) at e) in
    let (delimiter, read, e) = bind-eq-ok (delimiter_of options) _ e in
    let (ending, read_ending, e) =
      bind-eq-ok (read_line_ending (or_else (get "lineEnding" o) (str (b'\r' ∷ b'\n' ∷ [])))) _ e in
    let (lines, encoded, e) =
      bind-eq-ok (encode_rows delimiter (escapes options) 0 (map row_value rows)) _ e in
    let (fits, e) =
      then-eq-ok (leb (byte_length (join ending lines)) Limits.csv_bytes) output_too_large _ e in
    let same : join ending lines ≡ text = cc in
    let wrote = encode_rows-IsLines delimiter (escapes options) rows 0 encoded in
    record {
      delimiter = delimiter;
      ending = ending;
      read = read;
      is_delimiter = Ensures-ok IsDelimiter _ (read_delimiter-IsDelimiter _) read;
      is_ending = Ensures-ok IsEnding _ (read_line_ending-IsEnding _) read_ending;
      fits = rw (← same) (leb→le _ _ fits);
      wrote = sym same ∙ ap (join ending) wrote;
    }

parse_text-written :
    (d : Dialect) (ending : Text) (rows : List (List Text))
    → IsDelimiter d.delimiter
    → IsEnding ending
    → TableFits d rows
    → HasFullLastRow rows
    → parse_text d (written d.delimiter ending rows) ≡ ok rows
unfolding parse_text
parse_text-written d ending [] del en fits full = unfold scan finish flush join in ground arith
parse_text-written d ending (row ∷ rows) del en fits full =
    scan-written d del row rows ending _ initial (record { unquoted = refl; no_field = refl }) refl
      en full fits.each (omega (arith, fits.count)) (omega (arith, fits.cells))

-- Reading back what `stringifyCsv` wrote gives the table that was written, with an apostrophe before
-- the formula-like cells if formulas were escaped: whenever the table of escaped cells keeps within
-- the reader's limits, its last row is not one empty cell, and the reader uses the same delimiter.
pub parse_csv-stringify_csv :
    (rows : List (List Text)) (options reading : Value) (d : Dialect) {text : Text}
    → stringify_csv (table_value rows) options ≡ ok text
    → exact_object (default_to reading (obj end)) ("delimiter" ∷ "maxRows" ∷ "maxColumns" ∷ [])
      ≡ ok tt
    → read_dialect (default_to reading (obj end)) ≡ ok d
    → delimiter_of options ≡ ok d.delimiter
    → TableFits d (map (map (escape (escapes options))) rows)
    → HasFullLastRow (map (map (escape (escapes options))) rows)
    → parse_csv (str text) reading
      ≡ ok (record { rows = map (map (escape (escapes options))) rows; delimiter = d.delimiter })
unfolding parse_csv
parse_csv-stringify_csv rows options reading d {text} wrote exact read same fits full =
    let w = stringify_csv-IsWritten rows options wrote in
    let agree : w.delimiter ≡ d.delimiter = cc (w.read) in
    let parsed : parse_text d text ≡ ok (map (map (escape (escapes options))) rows) =
      rw (w.wrote, agree)
        (parse_text-written d w.ending _ (rw agree at w.is_delimiter) w.is_ending fits full) in
    rw (exact, le→leb _ _ w.fits, read, parsed)
