-- ===== src/Office/Csv/RoundTrip/Tables.antt =====
-- `scan` over the fields of a row, over a line and over the whole text.
use useful.Common.{
  ℕ, ◌+◌, ◌≤◌, false, List, [], ◌∷◌, ◌++◌, append-nil, append_assoc, Text, length, map, sum_over,
  All, length-append, ok, ◌>>=◌, ◌≡◌, ◌≢◌, refl, sym, ap, ◌∙◌, arith, ◌⊎◌, inl, inr,
}
use useful.Office.Base.Limits
use useful.Office.Csv.{
  Dialect, Scan, push_field, push_row, step_plain, step, scan, flush, finish, is_empty,
}
use useful.Office.Csv.Bounds.{RowFits, FieldFits}
use useful.Office.Csv.Writer.{join, quote_field}
use useful.Office.Csv.RoundTrip.Fields.{IsDelimiter, NoQuoteNext, scan-quote_field}

-- A row as `row.map(encode).join(delimiter)` writes it.
abbrev pub written_row : ℕ → List Text → Text
written_row delimiter fs = join (delimiter ∷ []) (map (quote_field delimiter) fs)

-- The state with the last field of a row read, and not yet pushed.
abbrev typed : Scan → List Text → Scan
typed s [] = s
typed s (f ∷ []) = record s { field = f }
typed s (f ∷ g ∷ fs) =
    typed (record s { row = s.row ++ f ∷ []; field = []; cells = s.cells + 1 }) (g ∷ fs)

-- The state with the row ended.
abbrev ended : Scan → List Text → Scan
ended s fs = record s {
  rows = s.rows ++ (s.row ++ fs) ∷ [];
  row = [];
  field = [];
  cells = s.cells + length fs;
}

pub record IsClean (s : Scan) : Type 0 where
  pub unquoted : s.quoted ≡ false
  pub no_field : s.field ≡ []

abbrev pub IsEnding : Text → Type 0
IsEnding t = (t ≡ b'\n' ∷ []) ⊎ (t ≡ b'\r' ∷ b'\n' ∷ [])

NoQuoteNext-ending : (ending rest : Text) → IsEnding ending → NoQuoteNext (ending ++ rest)
NoQuoteNext-ending ending rest (inl e) = rw e
NoQuoteNext-ending ending rest (inr e) = rw e

is_empty-concat {ℓ} : {A : Type ℓ} (xs : List A) (x : A) → is_empty (xs ++ x ∷ []) ≡ false
is_empty-concat [] x = refl
is_empty-concat (y ∷ xs) x = refl

-- The whole text, as the writer joins its lines.
abbrev pub written : ℕ → Text → List (List Text) → Text
written delimiter ending rows = join ending (map (written_row delimiter) rows)

-- A text whose last row is one empty field ends as if that row were not there.
abbrev pub HasFullLastRow : List (List Text) → Type 0
HasFullLastRow [] = Unit
HasFullLastRow (row ∷ []) = row ≢ ([] ∷ [])
HasFullLastRow (row ∷ next ∷ rows) = HasFullLastRow (next ∷ rows)

module _ (d : Dialect) (del : IsDelimiter d.delimiter) where
  NoQuoteNext-delimiter : (t : Text) → NoQuoteNext (d.delimiter ∷ t)
  NoQuoteNext-delimiter t = ground (arith, del.not_quote)

  -- The delimiter behind a field pushes it.
  scan-delimiter :
      (t : Text) (s : Scan)
      → s.quoted ≡ false
      → length s.row + 1 ≤ d.max_columns
      → s.cells + 1 ≤ Limits.cells
      → scan d false s (d.delimiter ∷ t)
        ≡ scan d false (record s { row = s.row ++ s.field ∷ []; field = []; cells = s.cells + 1 }) t
  unfolding scan step step_plain push_field
  scan-delimiter t s q c n = ground (arith, length-append s.row (s.field ∷ []), del.not_quote)

  scan-written_row :
      (f : Text) (fs : List Text) (rest : Text) (s : Scan)
      → IsClean s
      → NoQuoteNext rest
      → All FieldFits (f ∷ fs)
      → length s.row + length (f ∷ fs) ≤ d.max_columns
      → s.cells + length (f ∷ fs) ≤ Limits.cells
      → scan d false s (written_row d.delimiter (f ∷ fs) ++ rest)
        ≡ scan d false (typed s (f ∷ fs)) rest
  unfolding join
  scan-written_row f [] rest s cl n (fit, _) c m =
      scan-quote_field d f rest s del cl.unquoted cl.no_field n fit
  scan-written_row f (g ∷ fs) rest s cl n (fit, fits) c m =
      let more = written_row d.delimiter (g ∷ fs) ++ rest in
      rw append_assoc (
        scan-quote_field d f (d.delimiter ∷ more) s del cl.unquoted cl.no_field
          (NoQuoteNext-delimiter more) fit
        ∙ scan-delimiter more (record s { field = f }) cl.unquoted (omega arith) (omega arith)
        ∙ scan-written_row g fs rest
            (record s { row = s.row ++ f ∷ []; field = []; cells = s.cells + 1 })
            (record { unquoted = cl.unquoted; no_field = refl }) n fits
            (omega (arith, length-append s.row (f ∷ []))) (omega arith))

  -- Ending the row that `typed` has open.
  end_row-typed :
      (f : Text) (fs : List Text) (s : Scan)
      → length s.row + length (f ∷ fs) ≤ d.max_columns
      → s.cells + length (f ∷ fs) ≤ Limits.cells
      → length s.rows + 1 ≤ d.max_rows
      → (push_field d (typed s (f ∷ fs)) >>= push_row d) ≡ ok (ended s (f ∷ fs))
  unfolding push_field push_row
  end_row-typed f [] s c m r =
      ground (arith, length-append s.row (f ∷ []), length-append s.rows ((s.row ++ f ∷ []) ∷ []))
  end_row-typed f (g ∷ fs) s c m r =
      end_row-typed g fs (record s { row = s.row ++ f ∷ []; field = []; cells = s.cells + 1 })
        (omega (arith, length-append s.row (f ∷ []))) (omega arith) r
      ∙ ap ok (ground (arith, append_assoc s.row (f ∷ []) (g ∷ fs)))

  typed-quoted : (fs : List Text) (s : Scan) → (typed s fs).quoted ≡ s.quoted
  typed-quoted [] s = refl
  typed-quoted (f ∷ []) s = refl
  typed-quoted (f ∷ g ∷ fs) s =
      typed-quoted (g ∷ fs) (record s { row = s.row ++ f ∷ []; field = []; cells = s.cells + 1 })

  scan-IsEnding :
      (ending rest : Text) (s : Scan)
      → IsEnding ending
      → s.quoted ≡ false
      → scan d false s (ending ++ rest)
        ≡ ((push_field d s >>= push_row d) >>= λ t. scan d false t rest)
  unfolding scan step step_plain
  scan-IsEnding ending rest s (inl e) q = rw e (ground (arith, del.not_lf))
  scan-IsEnding ending rest s (inr e) q = rw e (ground (arith, del.not_cr))

  scan_line :
      (f : Text) (fs : List Text) (ending rest : Text) (s : Scan)
      → IsClean s
      → IsEnding ending
      → All FieldFits (f ∷ fs)
      → length s.row + length (f ∷ fs) ≤ d.max_columns
      → s.cells + length (f ∷ fs) ≤ Limits.cells
      → length s.rows + 1 ≤ d.max_rows
      → scan d false s (written_row d.delimiter (f ∷ fs) ++ (ending ++ rest))
        ≡ scan d false (ended s (f ∷ fs)) rest
  scan_line f fs ending rest s cl en fits c m r =
      scan-written_row f fs (ending ++ rest) s cl (NoQuoteNext-ending ending rest en) fits c m
      ∙ scan-IsEnding ending rest (typed s (f ∷ fs)) en (typed-quoted (f ∷ fs) s ∙ cl.unquoted)
      ∙ ap (λ m. m >>= λ t. scan d false t rest) (end_row-typed f fs s c m r)

  is_empty-typed :
      (f : Text) (fs : List Text) (s : Scan)
      → is_empty s.row ≡ false
      → is_empty (typed s (f ∷ fs)).row ≡ false
  is_empty-typed f [] s h = h
  is_empty-typed f (g ∷ fs) s h =
      is_empty-typed g fs (record s { row = s.row ++ f ∷ []; field = []; cells = s.cells + 1 })
        (is_empty-concat s.row f)

  typed-NotEmpty :
      (f : Text) (fs : List Text) (s : Scan)
      → (f ∷ fs) ≢ ([] ∷ [])
      → (is_empty (typed s (f ∷ fs)).field ≡ false) ⊎ (is_empty (typed s (f ∷ fs)).row ≡ false)
  typed-NotEmpty [] [] s ne = absurd (ne refl)
  typed-NotEmpty (c ∷ f) [] s ne = inl refl
  typed-NotEmpty f (g ∷ fs) s ne = inr (is_empty-typed g fs _ (is_empty-concat s.row f))

  flush-NotEmpty :
      (text : Text) (s : Scan)
      → (is_empty s.field ≡ false) ⊎ (is_empty s.row ≡ false)
      → flush d text s ≡ (push_field d s >>= push_row d)
  unfolding flush
  flush-NotEmpty text s h = ground arith

  finish-flush :
      (text : Text) (s : Scan) {t : Scan}
      → s.quoted ≡ false
      → flush d text s ≡ ok t
      → length t.rows ≤ d.max_rows
      → (scan d false s [] >>= finish d text) ≡ ok t.rows
  unfolding scan finish
  finish-flush text s q e h = ground arith

  -- The last row has no line end behind it, and is pushed by what follows the loop.
  scan_last :
      (f : Text) (fs : List Text) (text : Text) (s : Scan)
      → IsClean s
      → (f ∷ fs) ≢ ([] ∷ [])
      → All FieldFits (f ∷ fs)
      → length s.row + length (f ∷ fs) ≤ d.max_columns
      → s.cells + length (f ∷ fs) ≤ Limits.cells
      → length s.rows + 1 ≤ d.max_rows
      → (scan d false s (written_row d.delimiter (f ∷ fs)) >>= finish d text)
        ≡ ok (s.rows ++ (s.row ++ f ∷ fs) ∷ [])
  scan_last f fs text s cl ne fits c m r =
      ap (λ w. scan d false s w >>= finish d text) (sym (append-nil _))
      ∙ ap (λ m. m >>= finish d text) (scan-written_row f fs [] s cl refl fits c m)
      ∙ finish-flush text (typed s (f ∷ fs)) (typed-quoted (f ∷ fs) s ∙ cl.unquoted)
          (flush-NotEmpty text _ (typed-NotEmpty f fs s ne) ∙ end_row-typed f fs s c m r)
          (omega (arith, length-append s.rows ((s.row ++ f ∷ fs) ∷ [])))

  pub scan-written :
      (row : List Text) (rows : List (List Text)) (ending text : Text) (s : Scan)
      → IsClean s
      → s.row ≡ []
      → IsEnding ending
      → HasFullLastRow (row ∷ rows)
      → All (RowFits d) (row ∷ rows)
      → length s.rows + length (row ∷ rows) ≤ d.max_rows
      → s.cells + sum_over length (row ∷ rows) ≤ Limits.cells
      → (scan d false s (written d.delimiter ending (row ∷ rows)) >>= finish d text)
        ≡ ok (s.rows ++ row ∷ rows)
  unfolding join
  scan-written [] rows ending text s cl e en full (fit, fits) c m =
      absurd (omega (arith, fit.non_empty))
  scan-written (f ∷ fs) [] ending text s cl e en full (fit, _) c m =
      scan_last f fs text s cl full fit.fields (rw e (omega (arith, fit.columns))) (omega arith)
        (omega arith)
      ∙ rw e
  scan-written (f ∷ fs) (next ∷ rows) ending text s cl e en full (fit, fits) c m =
      ap (λ m. m >>= finish d text)
        (scan_line f fs ending (written d.delimiter ending (next ∷ rows)) s cl en fit.fields
          (rw e (omega (arith, fit.columns))) (omega arith) (omega arith))
      ∙ scan-written next rows ending text (ended s (f ∷ fs))
          (record { unquoted = cl.unquoted; no_field = refl }) refl en full fits
          (omega (arith, length-append s.rows ((s.row ++ f ∷ fs) ∷ []))) (omega arith)
      ∙ rw (e, append_assoc)
