-- ===== src/Office/Markdown/Lines.antt =====
-- The lines of a table: none has a line break or is blank.
use useful.Common.{
  Bool, true, false, ◌||◌, List, [], ◌∷◌, ◌++◌, map, append_assoc, Text, any, All, text_eq, ◌==◌,
  ◌≡◌, refl, ap, ◌∙◌, arith,
}
use useful.Office.Markdown.{replace_all, escape_markup, join_cells, write_line, write_lines}
use useful.Office.Markdown.Cells.{
  has_no_angle, escape_unit, escape_markup-cons, IsPlainCell, trim-piped, write_line-piped,
}
use useful.Office.Markdown.Reader.{
  trim_start, trim_end, trim, split_lines, is_blank_line, keep_line, drop_blank_end,
}

-- A character that ends a line.
abbrev pub breaks : Text → Bool
breaks t = any (λ c. c == b'\n' || c == b'\r') t

breaks-append : (s t : Text) → breaks s ≡ false → breaks t ≡ false → breaks (s ++ t) ≡ false
breaks-append [] t h k = k
breaks-append (c ∷ s) t h k = ground (arith, breaks-append s t)

pub split_lines-line :
    (line rest : Text)
    → breaks line ≡ false
    → split_lines (line ++ b'\n' ∷ rest) ≡ line ∷ split_lines rest
unfolding split_lines
split_lines-line [] rest h = refl
split_lines-line (c ∷ t) rest h =
    let here : (c == b'\n') ≡ false = ground arith in
    let feed : (c == b'\r') ≡ false = ground arith in
    let later : breaks t ≡ false = ground arith in
    rw (here, feed, split_lines-line t rest later) refl

escape_markup-breaks :
    (t : Text) → has_no_angle t ≡ true → breaks t ≡ false → breaks (escape_markup t) ≡ false
escape_markup-breaks [] plain h = unfold escape_markup replace_all in refl
escape_markup-breaks (c ∷ t) plain h =
    let here : (c == b'<' || c == b'>') ≡ false = ground arith in
    let later : has_no_angle t ≡ true = ground arith in
    let rest : breaks t ≡ false = ground arith in
    let unit : breaks (escape_unit c) ≡ false = ground arith in
    rw (escape_markup-cons c t here)
      (breaks-append (escape_unit c) (escape_markup t) unit (escape_markup-breaks t later rest))

-- A cell without a line break that the reader gives back.
pub record IsLineCell (t : Text) : Type 0 where
  pub plain : IsPlainCell t
  pub one_line : breaks t ≡ false

join_cells-breaks :
    (row : List Text) → All IsLineCell row → breaks (join_cells (map escape_markup row)) ≡ false
unfolding join_cells
join_cells-breaks [] h = refl
join_cells-breaks (t ∷ []) (p, h) = escape_markup-breaks t p.plain.no_angle p.one_line
join_cells-breaks (t ∷ u ∷ row) (p, h) =
    breaks-append (escape_markup t) _ (escape_markup-breaks t p.plain.no_angle p.one_line)
      (join_cells-breaks (u ∷ row) h)

pub write_line-breaks :
    (row : List Text) → All IsLineCell row → breaks (write_line (map escape_markup row)) ≡ false
unfolding write_line
write_line-breaks row h =
    breaks-append (join_cells (map escape_markup row)) (b' ' ∷ b'|' ∷ []) (join_cells-breaks row h)
      refl

-- The lines of a table as the writer makes them.
abbrev pub lines_of : List (List Text) → List Text
lines_of rows = map (λ row. write_line (map escape_markup row)) rows

pub split_lines-write_lines :
    (rows : List (List Text)) (line : Text)
    → breaks line ≡ false
    → All (All IsLineCell) rows
    → split_lines (line ++ (write_lines (map (map escape_markup) rows) ++ b'\n' ∷ []))
      ≡ line ∷ (lines_of rows ++ [] ∷ [])
unfolding write_lines
split_lines-write_lines [] line h cells =
    split_lines-line line [] h ∙ ap (λ x. line ∷ x) (unfold split_lines in refl)
split_lines-write_lines (row ∷ rows) line h (cells, rest) =
    split_lines-line line _ h
    ∙ ap (λ x. line ∷ x)
        (rw (append_assoc (write_line (map escape_markup row)) _ (b'\n' ∷ [])) (
          split_lines-write_lines rows (write_line (map escape_markup row))
            (write_line-breaks row cells) rest))

pub is_blank_line-write_line : (row : List Text) → is_blank_line (write_line row) ≡ false
unfolding text_eq
is_blank_line-write_line row =
    rw (write_line-piped row, trim-piped (b' ' ∷ (join_cells row ++ b' ' ∷ []))) refl

abbrev pub NoBlank : List Text → Type 0
NoBlank lines = All (λ line. is_blank_line line ≡ false) lines

pub lines_of-NoBlank : (rows : List (List Text)) → NoBlank (lines_of rows)
lines_of-NoBlank [] = tt
lines_of-NoBlank (row ∷ rows) =
    (is_blank_line-write_line (map escape_markup row), lines_of-NoBlank rows)

keep_line-kept :
    (line : Text) (lines : List Text)
    → is_blank_line line ≡ false
    → keep_line line lines ≡ line ∷ lines
keep_line-kept line [] h = rw h refl
keep_line-kept line (next ∷ lines) h = refl

pub drop_blank_end-NoBlank :
    (lines : List Text) → NoBlank lines → drop_blank_end (lines ++ [] ∷ []) ≡ lines
unfolding drop_blank_end
drop_blank_end-NoBlank [] h = unfold trim trim_start trim_end text_eq in refl
drop_blank_end-NoBlank (line ∷ lines) (p, h) =
    rw (drop_blank_end-NoBlank lines h) (keep_line-kept line lines p)

pub any-NoBlank : (lines : List Text) → NoBlank lines → any is_blank_line lines ≡ false
any-NoBlank [] h = refl
any-NoBlank (line ∷ lines) (p, h) = rw (p, any-NoBlank lines h) refl
