-- ===== src/Actions/Diff/Hunks.antt =====
-- packages/action-runtime/src/utility-actions.mjs: `diffHunks` and `textDiffHandler`.
use useful.Common.{
  take, drop, min, ℕ, ◌+◌, ◌-◌, max, Bool, true, false, ◌&&◌, List, [], ◌∷◌, ◌++◌, map, Text, codes,
  length, leb, if◌then◌else◌, Result, ok, ◌>>=◌, ◌>>◌, guard, require,
}
use mathlib.Core.List.{reverse}
use useful.Js.Value.{Value, or_else, as_text, nat_in, get, int, pos}
use useful.Js.Show.{show_nat}
use useful.Actions.Base.{Code, input_invalid, assert_exact_object}
use useful.Actions.Diff.{
  Record, context, remove, add, is_context, has_old, has_new, split_diff_lines, build_diff_records,
}

-- The records from `start` up to `stop`, which is not among them.
pub record Range : Type 0 where
  pub start : ℕ
  pub stop : ℕ

-- A new range, or the last one made longer; the last range stands first.
unfoldable pub add_range : ℕ → ℕ → List Range → List Range
add_range start stop [] = record { start = start; stop = stop } ∷ []
add_range start stop (previous ∷ ranges) =
    if leb start previous.stop
    then record previous { stop = max previous.stop stop } ∷ ranges
    else record { start = start; stop = stop } ∷ previous ∷ ranges

-- The loop over the records, at `index`; `total` is the number of all records.
unfoldable pub find_ranges : ℕ → ℕ → List Record → ℕ → List Range → List Range
unfolding add_range is_context
find_ranges around total [] index ranges = ranges
find_ranges around total (line ∷ lines) index ranges = find_ranges around total lines (index + 1) (
    if is_context line
    then ranges
    else add_range (index - around) (min total (index + around + 1)) ranges)

pub record Hunk : Type 0 where
  pub old_start : ℕ
  pub old_count : ℕ
  pub new_start : ℕ
  pub new_count : ℕ
  pub lines : List Record

abbrev pub slice : Range → List Record → List Record
slice range records = take (range.stop - range.start) (drop range.start records)

abbrev pub count_if : (Record → Bool) → List Record → ℕ
count_if p [] = 0
count_if p (r ∷ rs) = (if p r then 1 else 0) + count_if p rs

unfoldable pub to_hunk : List Record → Range → Hunk
unfolding has_old has_new
to_hunk records range = record {
  old_start = count_if has_old (take range.start records) + 1;
  old_count = count_if has_old (slice range records);
  new_start = count_if has_new (take range.start records) + 1;
  new_count = count_if has_new (slice range records);
  lines = slice range records;
}

unfoldable pub diff_hunks : List Record → ℕ → List Hunk
unfolding find_ranges to_hunk
diff_hunks records around =
    map (to_hunk records) (reverse (find_ranges around (length records) records 0 []))

unfoldable pub show_line : Record → Text
show_line (context t i j) = b' ' ∷ t
show_line (remove t i) = b'-' ∷ t
show_line (add t j) = b'+' ∷ t

unfoldable pub show_hunk : Hunk → List Text
unfolding show_line show_nat
show_hunk hunk =
    (codes "@@ -"
      ++ show_nat hunk.old_start
      ++ codes ","
      ++ show_nat hunk.old_count
      ++ codes " +"
      ++ show_nat hunk.new_start
      ++ codes ","
      ++ show_nat hunk.new_count
      ++ codes " @@")
    ∷ map show_line hunk.lines

abbrev pub join_lines : List Text → Text
join_lines [] = []
join_lines (t ∷ []) = t
join_lines (t ∷ u ∷ ts) = t ++ 10 ∷ join_lines (u ∷ ts)

unfoldable pub show_hunks : List Hunk → List Text
unfolding show_hunk
show_hunks [] = []
show_hunks (hunk ∷ hunks) = show_hunk hunk ++ show_hunks hunks

pub record TextDiff : Type 0 where
  pub added : ℕ
  pub removed : ℕ
  pub unchanged : ℕ
  pub hunk_count : ℕ
  pub hunks : List Hunk
  pub text : Text

-- The tests for `line.type === "add"` and `line.type === "remove"`.
unfoldable pub is_add : Record → Bool
is_add (add t j) = true
is_add _ = false

unfoldable pub is_remove : Record → Bool
is_remove (remove t i) = true
is_remove _ = false

unfoldable pub to_text_diff : ℕ → List Record → TextDiff
unfolding diff_hunks show_hunks is_add is_remove is_context
to_text_diff around records =
    let hunks = diff_hunks records around in
    record {
      added = count_if is_add records;
      removed = count_if is_remove records;
      unchanged = count_if is_context records;
      hunk_count = length hunks;
      hunks = hunks;
      text = join_lines (show_hunks hunks);
    }

abbrev pub max_diff_text : ℕ
max_diff_text = 262144

unfoldable pub text_diff_handler : Value → Result Code TextDiff
unfolding assert_exact_object get nat_in split_diff_lines build_diff_records to_text_diff
text_diff_handler input = do
  assert_exact_object input ("before" ∷ "after" ∷ []) ("context" ∷ [])
  before ← require (as_text (get "before" input)) input_invalid
  after ← require (as_text (get "after" input)) input_invalid
  guard (leb (length before) max_diff_text && leb (length after) max_diff_text) input_invalid
  around ← require (nat_in 0 10 (or_else (get "context" input) (int (pos 3)))) input_invalid
  records ← build_diff_records (split_diff_lines before) (split_diff_lines after)
  ok (to_text_diff around records)
