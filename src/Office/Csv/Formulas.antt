-- ===== src/Office/Csv/Formulas.antt =====
-- Formula escaping: nothing that the writer escaped is read back as a formula.
use useful.Common.{
  Bool, true, false, List, [], ◌∷◌, map, Text, length, length-map, sum_over, all, ok, then-eq-ok,
  guard-eq-ok, ◌≡◌, refl, arith, inl, inr, String, Bool-cases,
}
use useful.Js.Value.{Value, undefined, str, obj, end, default_to, has_key, own_keys, is_object}
use useful.Office.Base.{input_invalid, exact_object}
use useful.Office.Csv.{
  Dialect, Table, parse_csv, read_dialect, is_formula, escape_spreadsheet_formula,
}
use useful.Office.Csv.Bounds.{TableFits}
use useful.Office.Csv.Writer.{
  count_if, escape, stringify_csv, Inspection, inspect_table, inspect_csv,
}
use useful.Office.Csv.RoundTrip.{table_value, delimiter_of, escapes, parse_csv-stringify_csv}
use useful.Office.Csv.RoundTrip.Tables.{HasFullLastRow}

-- An escaped text is no formula, whatever the text was; a text that is none is left alone.
escape-is_formula :
    (t : Text)
    → (is_formula (escape_spreadsheet_formula t) ≡ false)
      × (is_formula t ≡ false → escape_spreadsheet_formula t ≡ t)
unfolding escape_spreadsheet_formula
escape-is_formula t = elim (Bool-cases (is_formula t)) [
  | inl yes_formula ↦ rw yes_formula (unfold is_formula in (refl, λ h. absurd (cc)))
  | inr no_formula ↦ rw no_formula (no_formula, λ h. refl)
]

count_if-escape : (row : List Text) → count_if is_formula (map (escape true) row) ≡ 0
unfolding count_if escape
count_if-escape [] = refl
count_if-escape (t ∷ row) = rw ((escape-is_formula t).0, count_if-escape row)

no_formulas :
    (rows : List (List Text)) → sum_over (count_if is_formula) (map (map (escape true)) rows) ≡ 0
no_formulas [] = refl
no_formulas (row ∷ rows) = omega (arith, count_if-escape row, no_formulas rows)

all-weaken :
    (p q : String → Bool) (ks : List String)
    → ((k : String) → p k ≡ true → q k ≡ true)
    → all p ks ≡ true
    → all q ks ≡ true
all-weaken p q [] h e = refl
all-weaken p q (k ∷ ks) h e = ground (arith, h k, all-weaken p q ks h)

exact_object-weaken :
    (v : Value)
    → exact_object v ("delimiter" ∷ []) ≡ ok tt
    → exact_object v ("delimiter" ∷ "maxRows" ∷ "maxColumns" ∷ []) ≡ ok tt
unfolding exact_object has_key
exact_object-weaken v e =
    let keys_in = λ (ks : List String). all (λ key. has_key key ks) (own_keys v) in
    let (object, e) = then-eq-ok (is_object v) input_invalid _ e in
    let only = guard-eq-ok (keys_in ("delimiter" ∷ [])) input_invalid e in
    let known : keys_in ("delimiter" ∷ "maxRows" ∷ "maxColumns" ∷ []) ≡ true =
      all-weaken _ _ (own_keys v) (λ k h. ground arith) only in
    rw (object, known)

sum_over-map :
    (rows : List (List Text))
    → sum_over length (map (map (escape true)) rows) ≡ sum_over length rows
sum_over-map [] = refl
sum_over-map (row ∷ rows) = omega (arith, length-map (escape true) row, sum_over-map rows)

default_to_idem :
    (v : Value) → default_to (default_to v (obj end)) (obj end) ≡ default_to v (obj end)
default_to_idem undefined = refl
default_to_idem _ = refl

-- `inspectCsv` finds no formula-like cell in what `stringifyCsv` wrote with formulas escaped, and
-- counts its rows: under the conditions on which the text is read back as the table.
pub inspect_csv-stringify_csv :
    (rows : List (List Text)) (options reading : Value) (d : Dialect) {text : Text}
    → stringify_csv (table_value rows) options ≡ ok text
    → escapes options ≡ true
    → exact_object (default_to reading (obj end)) ("delimiter" ∷ []) ≡ ok tt
    → read_dialect (default_to reading (obj end)) ≡ ok d
    → delimiter_of options ≡ ok d.delimiter
    → TableFits d (map (map (escape true)) rows)
    → HasFullLastRow (map (map (escape true)) rows)
    → (i : Inspection) × (inspect_csv (str text) reading ≡ ok i)
      × (i.formula_like_cells ≡ 0)
      × (i.warned ≡ false)
      × (i.rows ≡ length rows)
      × (i.cells ≡ sum_over length rows)
unfolding inspect_csv inspect_table
inspect_csv-stringify_csv rows options reading d {text} wrote escaped exact read same fits full =
    let table : Table = record { rows = map (map (escape true)) rows; delimiter = d.delimiter } in
    let parsed : parse_csv (str text) (default_to reading (obj end)) ≡ ok table = rw escaped at (
      parse_csv-stringify_csv rows options (default_to reading (obj end)) d wrote
        (rw default_to_idem (exact_object-weaken _ exact)) (rw default_to_idem read) same
        (rw escaped fits) (rw escaped full)) in
    (
      inspect_table text table,
      rw (exact, parsed),
      no_formulas rows,
      rw no_formulas,
      length-map (map (escape true)) rows,
      sum_over-map rows,
    )
