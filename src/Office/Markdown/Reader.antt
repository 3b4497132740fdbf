-- ===== src/Office/Markdown/Reader.antt =====
-- The reader of Markdown tables: `parseLine` and `parseMarkdownTable`.
use useful.Common.{
  sum_over, is_space, ℕ, ◌+◌, Bool, true, false, not, ◌&&◌, List, [], ◌∷◌, ◌++◌, Text, length, any,
  all, text_eq, leb, ◌==◌, if◌then◌else◌, Result, ok, err, ◌>>=◌, ◌>>◌, guard,
}
use useful.Js.Value.{Value, str}
use useful.Office.Base.{Code, input_invalid, input_too_large, markdown_table_invalid}
use useful.Office.Base.Limits
use useful.Office.Base.Utf8.{byte_length}

unfoldable pub trim_start : Text → Text
trim_start [] = []
trim_start (c ∷ t) = if is_space c then trim_start t else c ∷ t

-- A character in front of a text whose end is trimmed: a space goes if nothing follows it.
abbrev pub keep_before : ℕ → Text → Text
keep_before c [] = if is_space c then [] else c ∷ []
keep_before c (d ∷ t) = c ∷ d ∷ t

unfoldable pub trim_end : Text → Text
trim_end [] = []
trim_end (c ∷ t) = keep_before c (trim_end t)

-- `text.trim()`.
unfoldable pub trim : Text → Text
trim t = trim_end (trim_start t)

-- The loop of `parseLine` behind the first pipe, up to the last one: `cell` is the cell so far, and
-- `escaped` says that a backslash is in front.
unfoldable pub scan_cells : Text → Bool → Text → Result Code (List Text)
scan_cells cell escaped [] = guard (not escaped) markdown_table_invalid >> ok (trim cell ∷ [])
scan_cells cell true (c ∷ t) = scan_cells (cell ++ c ∷ []) false t
scan_cells cell false (c ∷ t) =
    let kept = scan_cells (cell ++ c ∷ []) false t in
    let skipped = scan_cells cell true t in
    let ended = scan_cells [] false t in
    if c == b'\\'
    then skipped
    else if c == b'|'
    then (ended >>= λ cells. ok (trim cell ∷ cells))
    else kept

-- `text.slice(1, -1)` of a text that ends with a pipe.
unfoldable pub without_last : Text → Text
without_last [] = []
without_last (c ∷ []) = []
without_last (c ∷ d ∷ t) = c ∷ without_last (d ∷ t)

abbrev pub ends_with_pipe : Text → Bool
ends_with_pipe [] = false
ends_with_pipe (c ∷ []) = c == b'|'
ends_with_pipe (c ∷ d ∷ t) = ends_with_pipe (d ∷ t)

abbrev pub starts_with_pipe : Text → Bool
starts_with_pipe [] = false
starts_with_pipe (c ∷ t) = c == b'|'

-- `trimmed.slice(1, -1)`; a text of one pipe gives the empty text.
abbrev pub inner : Text → Text
inner [] = []
inner (c ∷ t) = without_last t

-- `parseLine`.
unfoldable pub parse_line : Text → Result Code (List Text)
parse_line line = do
  guard (starts_with_pipe (trim line) && ends_with_pipe (trim line)) markdown_table_invalid
  cells ← scan_cells [] false (inner (trim line))
  guard (leb 1 (length cells) && leb (length cells) Limits.table_columns) markdown_table_invalid
  guard (all (λ t. leb (length t) Limits.model_text_chars) cells) input_too_large
  ok cells

-- `markdown.split(/\r?\n/u)`.
abbrev pub add_char : ℕ → List Text → List Text
add_char c [] = (c ∷ []) ∷ []
add_char c (line ∷ lines) = (c ∷ line) ∷ lines

abbrev pub starts_line_feed : Text → Bool
starts_line_feed [] = false
starts_line_feed (c ∷ t) = c == b'\n'

unfoldable pub split_lines : Text → List Text
split_lines [] = [] ∷ []
split_lines (c ∷ t) =
    let rest = split_lines t in
    if c == b'\n'
    then [] ∷ rest
    else if c == b'\r' && starts_line_feed t
    then rest
    else add_char c rest

abbrev pub is_blank_line : Text → Bool
is_blank_line line = text_eq (trim line) []

-- The two loops that take blank lines off.
unfoldable pub drop_blank : List Text → List Text
drop_blank [] = []
drop_blank (line ∷ lines) = if is_blank_line line then drop_blank lines else line ∷ lines

abbrev pub keep_line : Text → List Text → List Text
keep_line line [] = if is_blank_line line then [] else line ∷ []
keep_line line (next ∷ lines) = line ∷ next ∷ lines

unfoldable pub drop_blank_end : List Text → List Text
drop_blank_end [] = []
drop_blank_end (line ∷ lines) = keep_line line (drop_blank_end lines)

-- `/^:?-{3,}:?$/u`, behind the first colon: `dashes` counts the dashes so far.
unfoldable pub is_dashes : ℕ → Text → Bool
is_dashes dashes [] = leb 3 dashes
is_dashes dashes (c ∷ t) =
    let more = is_dashes (dashes + 1) t in
    if c == b'-' then more else c == b':' && (leb 3 dashes && text_eq t [])

unfoldable pub is_separator : Text → Bool
is_separator [] = false
is_separator (c ∷ t) = if c == b':' then is_dashes 0 t else is_dashes 0 (c ∷ t)

-- `lines.slice(2).map(parseLine)`.
unfoldable pub parse_lines : List Text → Result Code (List (List Text))
parse_lines [] = ok []
parse_lines (line ∷ lines) = do row ← parse_line line; rows ← parse_lines lines; ok (row ∷ rows)

pub record MarkdownTable : Type 0 where
  pub rows : List (List Text)
  pub columns : ℕ

-- The lines from the header on.
unfoldable pub parse_rows : List Text → Result Code MarkdownTable
parse_rows (first ∷ second ∷ lines) = do
  guard (leb (length lines + 2) (Limits.table_rows + 1)) markdown_table_invalid
  guard (not (any is_blank_line (first ∷ second ∷ lines))) markdown_table_invalid
  header ← parse_line first
  separator ← parse_line second
  guard (length separator == length header) markdown_table_invalid
  guard (all is_separator separator) markdown_table_invalid
  body ← parse_lines lines
  guard (all (λ row. length row == length header) body) markdown_table_invalid
  guard (leb (sum_over length (header ∷ body)) Limits.cells) input_too_large
  ok (record { rows = header ∷ body; columns = length header })
parse_rows _ = err markdown_table_invalid

-- `parseMarkdownTable`.
unfoldable pub parse_markdown_table : Value → Result Code MarkdownTable
parse_markdown_table (str t) = do
  guard (leb (byte_length t) Limits.csv_bytes) input_too_large
  parse_rows (drop_blank_end (drop_blank (split_lines t)))
parse_markdown_table _ = err input_invalid
