-- ===== src/Office/Markdown/Cells.antt =====
-- A line that the writer made, read back: `escapeCell` against the loop of `parseLine`.
use useful.Common.{
  is_space, is_trimmed, ends_in_space, ℕ, ◌≤◌, Bool, true, false, not, ◌||◌, List, [], ◌∷◌, ◌++◌,
  map, append-nil, append_assoc, Text, length, any, all, All, leb, le→leb, ◌==◌, ==_iff,
  if◌then◌else◌, ok, ◌≡◌, inl, inr, refl, sym, ap, ◌∙◌, arith, Bool-cases, and-split,
}
use useful.Office.Base.Limits
use useful.Office.Markdown.{replace_all, escape_markup, join_cells, write_line}
use useful.Office.Markdown.Reader.{
  trim_start, keep_before, trim_end, trim, scan_cells, without_last, ends_with_pipe, parse_line,
}

-- No angle bracket, which the writer turns into an entity that the reader leaves as it is.
abbrev pub has_no_angle : Text → Bool
has_no_angle t = not (any (λ c. c == b'<' || c == b'>') t)

abbrev pub escape_unit : ℕ → Text
escape_unit c =
    if c == b'\\' then b'\\' ∷ b'\\' ∷ [] else if c == b'|' then b'\\' ∷ b'|' ∷ [] else c ∷ []

pub escape_markup-cons :
    (c : ℕ) (t : Text)
    → (c == b'<' || c == b'>') ≡ false
    → escape_markup (c ∷ t) ≡ escape_unit c ++ escape_markup t
unfolding escape_markup replace_all
escape_markup-cons c t plain = elim (Bool-cases (c == b'\\')) [
  | inl slash ↦ rw ((==_iff c b'\\').0 slash) refl
  | inr no_slash ↦ elim (Bool-cases (c == b'|')) [
    | inl pipe ↦ rw ((==_iff c b'|').0 pipe) refl
    | inr no_pipe ↦
        let no_open : (c == b'<') ≡ false = ground arith in
        let no_close : (c == b'>') ≡ false = ground arith in
        rw (no_slash, no_pipe, no_open, no_close) refl
  ]
]

scan_cells-slash :
    (c : ℕ) (cell rest : Text)
    → scan_cells cell false (b'\\' ∷ c ∷ rest) ≡ scan_cells (cell ++ c ∷ []) false rest
unfolding scan_cells
scan_cells-slash c cell rest = refl

scan_cells-char :
    (c : ℕ) (cell rest : Text)
    → (c == b'\\') ≡ false
    → (c == b'|') ≡ false
    → scan_cells cell false (c ∷ rest) ≡ scan_cells (cell ++ c ∷ []) false rest
unfolding scan_cells
scan_cells-char c cell rest no_slash no_pipe = rw (no_slash, no_pipe) refl

scan_cells-escape_unit :
    (c : ℕ) (cell rest : Text)
    → scan_cells cell false (escape_unit c ++ rest) ≡ scan_cells (cell ++ c ∷ []) false rest
scan_cells-escape_unit c cell rest = elim (Bool-cases (c == b'\\')) [
  | inl slash ↦ rw ((==_iff c b'\\').0 slash) (scan_cells-slash b'\\' cell rest)
  | inr no_slash ↦ elim (Bool-cases (c == b'|')) [
    | inl pipe ↦ rw ((==_iff c b'|').0 pipe) (scan_cells-slash b'|' cell rest)
    | inr no_pipe ↦ rw (no_slash, no_pipe) (scan_cells-char c cell rest no_slash no_pipe)
  ]
]

scan_cells-escape_markup :
    (t cell rest : Text)
    → has_no_angle t ≡ true
    → scan_cells cell false (escape_markup t ++ rest) ≡ scan_cells (cell ++ t) false rest
scan_cells-escape_markup [] cell rest plain =
    unfold escape_markup replace_all in rw (append-nil cell) refl
scan_cells-escape_markup (c ∷ t) cell rest plain =
    let here : (c == b'<' || c == b'>') ≡ false = ground arith in
    let later : has_no_angle t ≡ true = ground arith in
    rw (escape_markup-cons c t here, append_assoc (escape_unit c) (escape_markup t) rest)
      (scan_cells-escape_unit c cell (escape_markup t ++ rest)
        ∙ scan_cells-escape_markup t (cell ++ c ∷ []) rest later
        ∙ ap (λ x. scan_cells x false rest) (append_assoc cell (c ∷ []) t))

not-false : (b : Bool) → not b ≡ true → b ≡ false
not-false b h = ground arith

trim_end-space : (t : Text) → trim_end (t ++ b' ' ∷ []) ≡ trim_end t
unfolding trim_end
trim_end-space [] = refl
trim_end-space (c ∷ t) = ap (keep_before c) (trim_end-space t)

trim_end-kept : (t : Text) → ends_in_space t ≡ false → trim_end t ≡ t
unfolding trim_end
trim_end-kept [] h = refl
trim_end-kept (c ∷ []) h = rw h refl
trim_end-kept (c ∷ d ∷ t) h = rw (trim_end-kept (d ∷ t) h) refl

trim-padded : (t : Text) → is_trimmed t ≡ true → trim (b' ' ∷ (t ++ b' ' ∷ [])) ≡ t
unfolding trim trim_start trim_end
trim-padded [] h = refl
trim-padded (c ∷ t) h =
    let starts : is_space c ≡ false = not-false _ (and-split (not (is_space c)) _ h).0 in
    let ends : ends_in_space (c ∷ t) ≡ false = not-false _ (and-split (not (is_space c)) _ h).1 in
    rw starts (trim_end-space (c ∷ t) ∙ trim_end-kept (c ∷ t) ends)

-- A cell that the reader gives back: trimmed, without an angle bracket, and within the text limit.
pub record IsPlainCell (t : Text) : Type 0 where
  pub trimmed : is_trimmed t ≡ true
  pub no_angle : has_no_angle t ≡ true
  pub short : length t ≤ Limits.model_text_chars

scan_cells-last :
    (cell : Text) → scan_cells cell false (b' ' ∷ []) ≡ ok (trim (cell ++ b' ' ∷ []) ∷ [])
unfolding scan_cells
scan_cells-last cell = refl

scan_cells-next :
    (cell rest : Text) {cells : List Text}
    → scan_cells [] false (b' ' ∷ rest) ≡ ok cells
    → scan_cells cell false (b' ' ∷ b'|' ∷ b' ' ∷ rest) ≡ ok (trim (cell ++ b' ' ∷ []) ∷ cells)
unfolding scan_cells
scan_cells-next cell rest h = rw h refl

scan_cells-space :
    (rest : Text) → scan_cells [] false (b' ' ∷ rest) ≡ scan_cells (b' ' ∷ []) false rest
unfolding scan_cells
scan_cells-space rest = refl

scan_cells-join_cells :
    (row : List Text)
    → 1 ≤ length row
    → All IsPlainCell row
    → scan_cells [] false (b' ' ∷ (join_cells (map escape_markup row) ++ b' ' ∷ [])) ≡ ok row
unfolding join_cells
scan_cells-join_cells [] some_cell plain = absurd (omega arith)
scan_cells-join_cells (t ∷ []) some_cell (p, plain) =
    scan_cells-space _
    ∙ scan_cells-escape_markup t (b' ' ∷ []) (b' ' ∷ []) p.no_angle
    ∙ scan_cells-last (b' ' ∷ t)
    ∙ ap (λ x. ok (x ∷ [])) (trim-padded t p.trimmed)
scan_cells-join_cells (t ∷ u ∷ row) some_cell (p, plain) =
    let rest = join_cells (map escape_markup (u ∷ row)) ++ b' ' ∷ [] in
    rw (append_assoc (escape_markup t) _ (b' ' ∷ [])) (
      scan_cells-space _
      ∙ scan_cells-escape_markup t (b' ' ∷ []) (b' ' ∷ b'|' ∷ b' ' ∷ rest) p.no_angle
      ∙ scan_cells-next (b' ' ∷ t) _ (scan_cells-join_cells (u ∷ row) (omega arith) plain)
      ∙ ap (λ x. ok (x ∷ u ∷ row)) (trim-padded t p.trimmed))

ends_in_space-append : (t : Text) (c : ℕ) → ends_in_space (t ++ c ∷ []) ≡ is_space c
ends_in_space-append [] c = refl
ends_in_space-append (d ∷ []) c = refl
ends_in_space-append (d ∷ e ∷ t) c = ends_in_space-append (e ∷ t) c

ends_with_pipe-append : (t : Text) → ends_with_pipe (t ++ b'|' ∷ []) ≡ true
ends_with_pipe-append [] = refl
ends_with_pipe-append (d ∷ []) = refl
ends_with_pipe-append (d ∷ e ∷ t) = ends_with_pipe-append (e ∷ t)

without_last-append : (t : Text) (c : ℕ) → without_last (t ++ c ∷ []) ≡ t
unfolding without_last
without_last-append [] c = refl
without_last-append (d ∷ []) c = refl
without_last-append (d ∷ e ∷ t) c = ap (λ x. d ∷ x) (without_last-append (e ∷ t) c)

-- A line between two pipes.
abbrev pub piped : Text → Text
piped t = b'|' ∷ (t ++ b'|' ∷ [])

pub trim-piped : (t : Text) → trim (piped t) ≡ piped t
unfolding trim trim_start
trim-piped t = trim_end-kept (piped t) (ends_in_space-append (b'|' ∷ t) b'|')

pub write_line-piped :
    (row : List Text) → write_line row ≡ piped (b' ' ∷ (join_cells row ++ b' ' ∷ []))
unfolding write_line
write_line-piped row =
    ap (λ x. b'|' ∷ b' ' ∷ x) (sym (append_assoc (join_cells row) (b' ' ∷ []) (b'|' ∷ [])))

all-IsPlainCell :
    (row : List Text)
    → All IsPlainCell row
    → all (λ t. leb (length t) Limits.model_text_chars) row ≡ true
all-IsPlainCell [] h = refl
all-IsPlainCell (t ∷ row) (p, h) = rw (le→leb _ _ p.short, all-IsPlainCell row h) refl

-- Reading a line that the writer made of a row gives the row back, when the row has at least one and
-- at most `tableColumns` cells and each cell is trimmed, has no angle bracket and keeps the text limit:
-- backslashes and pipes inside of a cell are no exception.
pub parse_line-write_line :
    (row : List Text)
    → 1 ≤ length row
    → length row ≤ Limits.table_columns
    → All IsPlainCell row
    → parse_line (write_line (map escape_markup row)) ≡ ok row
unfolding parse_line
parse_line-write_line row some_cell few plain =
    let line = b' ' ∷ (join_cells (map escape_markup row) ++ b' ' ∷ []) in
    rw
      (
        write_line-piped (map escape_markup row),
        trim-piped line,
        ends_with_pipe-append (b'|' ∷ line),
        without_last-append line b'|',
        scan_cells-join_cells row some_cell plain,
        le→leb 1 (length row) some_cell,
        le→leb (length row) Limits.table_columns few,
        all-IsPlainCell row plain,
      )
      refl
