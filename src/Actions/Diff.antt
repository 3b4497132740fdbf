-- ===== src/Actions/Diff.antt =====
-- packages/action-runtime/src/utility-actions.mjs: the line differences of `textDiffHandler`.
pub mod Numbers
pub mod Cover
pub mod Hunks
pub mod Optimal
pub mod Replay
use useful.Common.{
  get_or, drop, ◌%◌, ◌^◌, ◌*◌, replicate, ℕ, ◌+◌, max, ◌≤◌, Bool, true, false, ◌&&◌, List, [], ◌∷◌,
  Text, length, text_eq, leb, if◌then◌else◌, Result, ok, ◌>>◌, guard, ◌≡◌, arith,
}
use useful.Actions.Base.{Code, input_invalid}
use useful.Actions.Lines.{split_lines}

unfoldable pub split_diff_lines : Text → List Text
unfolding split_lines
split_diff_lines [] = []
split_diff_lines (c ∷ t) = split_lines (c ∷ t)

-- A line of the record: `context` has both line numbers, `remove` the old one, `add` the new one.
pub data Record : Type 0 where
  context : Text → ℕ → ℕ → Record
  remove : Text → ℕ → Record
  add : Text → ℕ → Record

-- A cell of the `Uint16Array`.
unfoldable pub store_u16 : ℕ → ℕ
store_u16 n = n % 2 ^ 16

-- The row of `lcs` for a line of `before`, from the row below it; the inner loop goes from the last
-- column to the first.
unfoldable pub lcs_row : Text → List Text → List ℕ → List ℕ
unfolding store_u16
lcs_row line [] below = 0 ∷ []
lcs_row line (new ∷ news) below =
    let rest = lcs_row line news (drop 1 below) in
    (if text_eq line new
      then store_u16 (get_or below 1 0 + 1)
      else store_u16 (max (get_or below 0 0) (get_or rest 0 0)))
    ∷ rest

-- The whole table, one list for each row: `lcs[i * width + j]` is column `j` of row `i`.
unfoldable pub lcs_table : List Text → List Text → List (List ℕ)
unfolding lcs_row
lcs_table [] after = replicate (length after + 1) 0 ∷ []
lcs_table (line ∷ lines) after =
    let rest = lcs_table lines after in lcs_row line after (get_or rest 0 []) ∷ rest

-- The loop that collects the records. The lists are what is left of `before` and `after` from
-- `old_index` and `new_index`, and `rows` is the table from row `old_index`.
unfoldable pub walk : List Text → List Text → List (List ℕ) → ℕ → ℕ → List Record
walk [] [] rows old_index new_index = []
walk [] (new ∷ news) rows old_index new_index =
    add new (new_index + 1) ∷ walk [] news rows old_index (new_index + 1)
walk (old ∷ olds) [] rows old_index new_index =
    remove old (old_index + 1) ∷ walk olds [] (drop 1 rows) (old_index + 1) new_index
walk (old ∷ olds) (new ∷ news) rows old_index new_index = elim (text_eq old new) [
  | true ↦
      context old (old_index + 1) (new_index + 1)
      ∷ walk olds news (drop 1 rows) (old_index + 1) (new_index + 1)
  | false ↦
      elim (leb (get_or (get_or rows 0 []) (new_index + 1) 0)
        (get_or (get_or rows 1 []) new_index 0)) [
          | true ↦
              remove old (old_index + 1)
              ∷ walk olds (new ∷ news) (drop 1 rows) (old_index + 1) new_index
          | false ↦ add new (new_index + 1) ∷ walk (old ∷ olds) news rows old_index (new_index + 1)
        ]
]

abbrev pub max_diff_lines : ℕ
max_diff_lines = 2000

abbrev pub max_diff_cells : ℕ
max_diff_cells = 1000000

unfoldable pub build_diff_records : List Text → List Text → Result Code (List Record)
unfolding lcs_table walk
build_diff_records before after =
    let cells = (length before + 1) * (length after + 1) in
    guard
      (leb (length before) max_diff_lines
        && leb (length after) max_diff_lines
        && leb cells max_diff_cells)
      input_invalid
    >> ok (walk before after (lcs_table before after) 0 0)

unfoldable pub is_context : Record → Bool
is_context (context t i j) = true
is_context _ = false

-- `record.oldLine !== null`, and the same for `newLine`.
unfoldable pub has_old : Record → Bool
has_old (add t j) = false
has_old _ = true

unfoldable pub has_new : Record → Bool
has_new (remove t i) = false
has_new _ = true

-- The records that a call returns, and the bound that it has checked.
pub build_diff_records-walk :
    (before after : List Text) (records : List Record)
    → build_diff_records before after ≡ ok records
    → (length after ≤ max_diff_lines) × (walk before after (lcs_table before after) 0 0 ≡ records)
unfolding build_diff_records
build_diff_records-walk before after records h = ground arith
