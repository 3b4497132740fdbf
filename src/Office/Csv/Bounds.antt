-- ===== src/Office/Csv/Bounds.antt =====
-- The limits of `parseCsv` hold of whatever it returns.
use useful.Common.{
  ℕ, ◌+◌, ◌≤◌, Bool, true, false, not, ◌&&◌, List, [], ◌∷◌, Text, length, length-append, sum_over,
  sum_over-append, All, All-append, leb, ◌==◌, Result, ok, Ensures, Ensures-ok, Ensures-intro,
  Ensures-bind, Ensures-guard, ◌>>=◌, ◌≡◌, refl, arith, Option,
}
use useful.Office.Base.{Code, csv_invalid, csv_too_many_rows}
use useful.Office.Base.Limits
use useful.Office.Csv.{
  Dialect, Scan, initial, append, push_field, push_row, step_quoted, step_plain, step, scan, flush,
  finish, parse_text, next_char, is_char,
}

abbrev pub FieldFits : Text → Type 0
FieldFits f = length f ≤ Limits.model_text_chars

-- A row as the parser may return it.
pub record RowFits (d : Dialect) (row : List Text) : Type 0 where
  pub non_empty : 1 ≤ length row
  pub columns : length row ≤ d.max_columns
  pub fields : All FieldFits row

pub record TableFits (d : Dialect) (rows : List (List Text)) : Type 0 where
  pub count : length rows ≤ d.max_rows
  pub each : All (RowFits d) rows
  pub cells : sum_over length rows ≤ Limits.cells

record IsValid (d : Dialect) (s : Scan) : Type 0 where
  count : length s.rows ≤ d.max_rows
  each : All (RowFits d) s.rows
  columns : length s.row ≤ d.max_columns
  fields : All FieldFits s.row
  field : FieldFits s.field
  counted : s.cells ≡ sum_over length s.rows + length s.row
  cells : s.cells ≤ Limits.cells

module _ (d : Dialect) where
  append-IsValid : (s : Scan) (c : ℕ) → IsValid d s → Ensures (IsValid d) (append s c)
  unfolding append
  append-IsValid s c v = ground arith

  abbrev IsEnded : Scan → Type 0
  IsEnded t = IsValid d t × (1 ≤ length t.row)

  push_field-IsEnded : (s : Scan) → IsValid d s → Ensures IsEnded (push_field d s)
  unfolding push_field
  push_field-IsEnded s v =
      ground (arith, length-append s.row (s.field ∷ []), All-append FieldFits s.row (s.field ∷ []))

  push_row-IsValid : (s : Scan) → IsEnded s → Ensures (IsValid d) (push_row d s)
  unfolding push_row
  push_row-IsValid s v = ground (
    arith,
    length-append s.rows (s.row ∷ []),
    sum_over-append length s.rows (s.row ∷ []),
    All-append (RowFits d) s.rows (s.row ∷ []),
  )

  end_row-IsValid : (s : Scan) → IsValid d s → Ensures (IsValid d) (push_field d s >>= push_row d)
  end_row-IsValid s v =
      Ensures-bind IsEnded (IsValid d) (push_field d s) (push_row d) (push_field-IsEnded s v)
        push_row-IsValid

  abbrev Keeps : Scan × Bool → Type 0
  Keeps r = IsValid d r.0

  push_field-IsValid : (s : Scan) → IsValid d s → Ensures (IsValid d) (push_field d s)
  push_field-IsValid s v =
      Ensures-intro (IsValid d) (push_field d s)
        λ t e. (Ensures-ok IsEnded (push_field d s) (push_field-IsEnded s v) e).0

  flag-Keeps :
      (m : Result Code Scan) (f : Scan → Bool)
      → Ensures (IsValid d) m
      → Ensures Keeps (m >>= λ t. ok (t, f t))
  flag-Keeps m f h = Ensures-bind (IsValid d) Keeps m _ h (λ t v. v)

  step_quoted-Keeps :
      (s : Scan) (c : ℕ) (next : Option ℕ) → IsValid d s → Ensures Keeps (step_quoted s c next)
  unfolding step_quoted
  step_quoted-Keeps s c next v = ground (
    arith,
    flag-Keeps (append s b'"') (λ t. true) (append-IsValid s b'"' v),
    flag-Keeps (append s c) (λ t. false) (append-IsValid s c v),
  )

  step_plain-Keeps :
      (s : Scan) (c : ℕ) (next : Option ℕ) → IsValid d s → Ensures Keeps (step_plain d s c next)
  unfolding step_plain
  step_plain-Keeps s c next v = ground (
    arith,
    flag-Keeps (push_field d s) (λ t. false) (push_field-IsValid s v),
    flag-Keeps (push_field d s >>= push_row d) (λ t. c == b'\r' && is_char b'\n' next)
        (end_row-IsValid s v),
    flag-Keeps (append s c) (λ t. false) (append-IsValid s c v),
  )

  step-Keeps : (s : Scan) (c : ℕ) (next : Option ℕ) → IsValid d s → Ensures Keeps (step d s c next)
  unfolding step
  step-Keeps s c next v = ground (arith, step_quoted-Keeps s c next v, step_plain-Keeps s c next v)

  scan-IsValid :
      (t : Text) (skip : Bool) (s : Scan) → IsValid d s → Ensures (IsValid d) (scan d skip s t)
  unfolding scan
  scan-IsValid [] skip s v = v
  scan-IsValid (c ∷ t) true s v = scan-IsValid t false s v
  scan-IsValid (c ∷ t) false s v =
      Ensures-bind Keeps (IsValid d) (step d s c (next_char t)) _ (step-Keeps s c (next_char t) v)
        (λ r w. scan-IsValid t r.1 r.0 w)

  flush-IsValid : (text : Text) (s : Scan) → IsValid d s → Ensures (IsValid d) (flush d text s)
  unfolding flush
  flush-IsValid text s v = ground (arith, end_row-IsValid s v)

  finish-TableFits :
      (text : Text) (s : Scan) → IsValid d s → Ensures (TableFits d) (finish d text s)
  unfolding finish
  finish-TableFits text s v = Ensures-guard (TableFits d) (not s.quoted) csv_invalid _ λ _.
      Ensures-bind (IsValid d) (TableFits d) (flush d text s) _ (flush-IsValid text s v) λ t w.
        Ensures-guard (TableFits d) (leb (length t.rows) d.max_rows) csv_too_many_rows _
          λ h. record { count = w.count; each = w.each; cells = omega (arith, w.counted, w.cells) }

-- Whatever `parseCsv` returns keeps within the row, column, cell and field limits, and no row is
-- without a cell.
pub parse_text-TableFits :
    (d : Dialect) (text : Text) {rows : List (List Text)}
    → parse_text d text ≡ ok rows
    → TableFits d rows
unfolding parse_text
parse_text-TableFits d text e =
    Ensures-ok (TableFits d) (parse_text d text)
      (Ensures-bind (IsValid d) (TableFits d) (scan d false initial text) (finish d text)
        (scan-IsValid d text false initial (record {
          count = omega arith;
          each = tt;
          columns = omega arith;
          fields = tt;
          field = omega arith;
          counted = refl;
          cells = omega arith;
        }))
        (finish-TableFits d text))
      e
