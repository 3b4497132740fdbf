-- ===== src/Office/Csv/RoundTrip/Fields.antt =====
-- `scan` over one written field.
use useful.Common.{
  ℕ, ◌+◌, ◌≤◌, true, false, [], ◌∷◌, ◌++◌, append-nil, append_assoc, Text, length, length-append,
  ◌≡◌, ◌≢◌, refl, ap, ◌∙◌, arith, Bool-cases, inl, inr,
}
use useful.Office.Base.Limits
use useful.Office.Csv.{
  Dialect, Scan, append, step_quoted, step_plain, step, scan, next_char, is_char,
}
use useful.Office.Csv.Writer.{double_quotes, needs_quotes, quote_field}

-- What `read_delimiter` accepts.
pub record IsDelimiter (c : ℕ) : Type 0 where
  pub not_quote : c ≢ b'"'
  pub not_cr : c ≢ b'\r'
  pub not_lf : c ≢ b'\n'

abbrev pub NoQuoteNext : Text → Type 0
NoQuoteNext t = is_char b'"' (next_char t) ≡ false

double_quotes-needs :
    (delimiter : ℕ) (t : Text)
    → delimiter ≢ b'"'
    → needs_quotes delimiter (double_quotes t) ≡ needs_quotes delimiter t
unfolding double_quotes needs_quotes
double_quotes-needs delimiter [] h = refl
double_quotes-needs delimiter (c ∷ t) h = ground (arith, double_quotes-needs delimiter t h)

double_quotes_same :
    (delimiter : ℕ) (t : Text) → needs_quotes delimiter t ≡ false → double_quotes t ≡ t
unfolding double_quotes needs_quotes
double_quotes_same delimiter [] h = refl
double_quotes_same delimiter (c ∷ t) h = ground (arith, double_quotes_same delimiter t)

module _ (d : Dialect) where
  scan_plain :
      (v rest : Text) (s : Scan)
      → s.quoted ≡ false
      → needs_quotes d.delimiter v ≡ false
      → length s.field + length v ≤ Limits.model_text_chars
      → scan d false s (v ++ rest) ≡ scan d false (record s { field = s.field ++ v }) rest
  unfolding scan step step_plain append needs_quotes
  scan_plain [] rest s q n h = rw append-nil
  scan_plain (c ∷ v) rest s q n h = ground (
    arith,
    length-append s.field (c ∷ []),
    append_assoc s.field (c ∷ []) v,
    scan_plain v rest (record s { field = s.field ++ c ∷ [] }) q,
  )

  scan_quoted :
      (v rest : Text) (s : Scan)
      → s.quoted ≡ true
      → NoQuoteNext rest
      → length s.field + length v ≤ Limits.model_text_chars
      → scan d false s (double_quotes v ++ b'"' ∷ rest)
        ≡ scan d false (record s { field = s.field ++ v; quoted = false }) rest
  unfolding scan step step_quoted append double_quotes
  scan_quoted [] rest s q n h = rw append-nil (ground arith)
  scan_quoted (c ∷ v) rest s q n h = ground (
    arith,
    length-append s.field (c ∷ []),
    append_assoc s.field (c ∷ []) v,
    scan_quoted v rest (record s { field = s.field ++ c ∷ [] }) q n,
  )

  scan_open :
      (t : Text) (s : Scan)
      → s.quoted ≡ false
      → s.field ≡ []
      → scan d false s (b'"' ∷ t) ≡ scan d false (record s { quoted = true }) t
  unfolding scan step step_plain
  scan_open t s q e = ground arith

  -- The parser reads a written field back, up to the delimiter, line end or text end behind it.
  pub scan-quote_field :
      (v rest : Text) (s : Scan)
      → IsDelimiter d.delimiter
      → s.quoted ≡ false
      → s.field ≡ []
      → NoQuoteNext rest
      → length v ≤ Limits.model_text_chars
      → scan d false s (quote_field d.delimiter v ++ rest)
        ≡ scan d false (record s { field = v }) rest
  unfolding quote_field
  scan-quote_field v rest s del q e n h =
      let same = double_quotes-needs d.delimiter v del.not_quote in
      elim (Bool-cases (needs_quotes d.delimiter v)) [
        | inl needs ↦
            rw (same, needs, append_assoc)
              (scan_open _ s q e
                ∙ scan_quoted v rest (record s { quoted = true }) refl n (rw e (omega arith))
                ∙ ground arith)
        | inr plain ↦
            rw (same, plain)
              (ap (λ w. scan d false s (w ++ rest)) (double_quotes_same d.delimiter v plain)
                ∙ scan_plain v rest s q plain (rw e (omega arith))
                ∙ ground arith)
      ]
