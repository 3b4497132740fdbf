-- ===== src/Actions/Diff/Replay.antt =====
-- The records of a difference hold both texts, line by line.
use useful.Common.{drop, ℕ, ◌+◌, List, [], ◌∷◌, Text, text_eq_iff, ok, ◌≡◌, refl, arith}
use useful.Actions.Diff.{
  Record, context, remove, add, walk, build_diff_records, build_diff_records-walk, lcs_table,
}

-- The old lines that the records hold, each with its number; and the new lines.
abbrev pub old_lines : List Record → List (ℕ × Text)
old_lines [] = []
old_lines (context t i j ∷ rs) = (i, t) ∷ old_lines rs
old_lines (remove t i ∷ rs) = (i, t) ∷ old_lines rs
old_lines (add t j ∷ rs) = old_lines rs

abbrev pub new_lines : List Record → List (ℕ × Text)
new_lines [] = []
new_lines (context t i j ∷ rs) = (j, t) ∷ new_lines rs
new_lines (remove t i ∷ rs) = new_lines rs
new_lines (add t j ∷ rs) = (j, t) ∷ new_lines rs

-- Lines numbered in order, from the number after `i`.
abbrev pub number_after : ℕ → List Text → List (ℕ × Text)
number_after i [] = []
number_after i (t ∷ ts) = (i + 1, t) ∷ number_after (i + 1) ts

old_lines-walk :
    (olds news : List Text) (rows : List (List ℕ)) (i j : ℕ)
    → old_lines (walk olds news rows i j) ≡ number_after i olds
unfolding walk
old_lines-walk [] [] rows i j = refl
old_lines-walk [] (n ∷ ns) rows i j = old_lines-walk [] ns rows i (j + 1)
old_lines-walk (o ∷ os) [] rows i j = ground (arith, old_lines-walk os [] (drop 1 rows) (i + 1) j)
old_lines-walk (o ∷ os) (n ∷ ns) rows i j = ground (
  arith,
  old_lines-walk os ns (drop 1 rows) (i + 1) (j + 1),
  old_lines-walk os (n ∷ ns) (drop 1 rows) (i + 1) j,
  old_lines-walk (o ∷ os) ns rows i (j + 1),
)

new_lines-walk :
    (olds news : List Text) (rows : List (List ℕ)) (i j : ℕ)
    → new_lines (walk olds news rows i j) ≡ number_after j news
unfolding walk
new_lines-walk [] [] rows i j = refl
new_lines-walk [] (n ∷ ns) rows i j = ground (arith, new_lines-walk [] ns rows i (j + 1))
new_lines-walk (o ∷ os) [] rows i j = new_lines-walk os [] (drop 1 rows) (i + 1) j
new_lines-walk (o ∷ os) (n ∷ ns) rows i j = ground (
  arith,
  text_eq_iff o n,
  new_lines-walk os ns (drop 1 rows) (i + 1) (j + 1),
  new_lines-walk os (n ∷ ns) (drop 1 rows) (i + 1) j,
  new_lines-walk (o ∷ os) ns rows i (j + 1),
)

-- The records of a difference hold every line of `before` in order, numbered from 1, in those with an
-- old line number, and every line of `after` in the same way: the difference replays to both texts.
pub build_diff_records-lines :
    (before after : List Text) (records : List Record)
    → build_diff_records before after ≡ ok records
    → (old_lines records ≡ number_after 0 before) × (new_lines records ≡ number_after 0 after)
build_diff_records-lines before after records h =
    rw (← (build_diff_records-walk before after records h).1) (
      old_lines-walk before after (lcs_table before after) 0 0,
      new_lines-walk before after (lcs_table before after) 0 0,
    )
