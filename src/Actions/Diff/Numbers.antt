-- ===== src/Actions/Diff/Numbers.antt =====
-- The line numbers in the header of a hunk are those of its lines.
use useful.Common.{
  take, drop, cons_cong, ℕ, zero, suc, ◌+◌, ◌-◌, List, [], ◌∷◌, map, Text, length, All, ok, ◌≡◌,
  refl, arith,
}
use useful.Actions.Diff.{Record, context, remove, add, has_old, has_new, build_diff_records}
use useful.Actions.Diff.Replay.{old_lines, new_lines, number_after, build_diff_records-lines}
use useful.Actions.Diff.Hunks.{Range, Hunk, slice, count_if, to_hunk, diff_hunks, find_ranges}
use mathlib.Core.List.{reverse}

one_more : (n : ℕ) → 1 + n ≡ suc n
one_more n = omega arith

zero_more : (n : ℕ) → 0 + n ≡ n
zero_more n = omega arith

old_lines-drop :
    (s : ℕ) (rs : List Record)
    → old_lines (drop s rs) ≡ drop (count_if has_old (take s rs)) (old_lines rs)
unfolding has_old
old_lines-drop zero rs = refl
old_lines-drop (suc s) [] = refl
old_lines-drop (suc s) (context t i j ∷ rs) =
    rw (one_more (count_if has_old (take s rs))) (old_lines-drop s rs)
old_lines-drop (suc s) (remove t i ∷ rs) =
    rw (one_more (count_if has_old (take s rs))) (old_lines-drop s rs)
old_lines-drop (suc s) (add t j ∷ rs) =
    rw (zero_more (count_if has_old (take s rs))) (old_lines-drop s rs)

old_lines-take :
    (s : ℕ) (rs : List Record)
    → old_lines (take s rs) ≡ take (count_if has_old (take s rs)) (old_lines rs)
unfolding has_old
old_lines-take zero rs = refl
old_lines-take (suc s) [] = refl
old_lines-take (suc s) (context t i j ∷ rs) =
    rw (one_more (count_if has_old (take s rs))) (cons_cong refl (old_lines-take s rs))
old_lines-take (suc s) (remove t i ∷ rs) =
    rw (one_more (count_if has_old (take s rs))) (cons_cong refl (old_lines-take s rs))
old_lines-take (suc s) (add t j ∷ rs) =
    rw (zero_more (count_if has_old (take s rs))) (old_lines-take s rs)

new_lines-drop :
    (s : ℕ) (rs : List Record)
    → new_lines (drop s rs) ≡ drop (count_if has_new (take s rs)) (new_lines rs)
unfolding has_new
new_lines-drop zero rs = refl
new_lines-drop (suc s) [] = refl
new_lines-drop (suc s) (context t i j ∷ rs) =
    rw (one_more (count_if has_new (take s rs))) (new_lines-drop s rs)
new_lines-drop (suc s) (remove t i ∷ rs) =
    rw (zero_more (count_if has_new (take s rs))) (new_lines-drop s rs)
new_lines-drop (suc s) (add t j ∷ rs) =
    rw (one_more (count_if has_new (take s rs))) (new_lines-drop s rs)

new_lines-take :
    (s : ℕ) (rs : List Record)
    → new_lines (take s rs) ≡ take (count_if has_new (take s rs)) (new_lines rs)
unfolding has_new
new_lines-take zero rs = refl
new_lines-take (suc s) [] = refl
new_lines-take (suc s) (context t i j ∷ rs) =
    rw (one_more (count_if has_new (take s rs))) (cons_cong refl (new_lines-take s rs))
new_lines-take (suc s) (remove t i ∷ rs) =
    rw (zero_more (count_if has_new (take s rs))) (new_lines-take s rs)
new_lines-take (suc s) (add t j ∷ rs) =
    rw (one_more (count_if has_new (take s rs))) (cons_cong refl (new_lines-take s rs))

-- The numbered lines of a text that a hunk's header names, and those that the hunk holds.
abbrev pub Agrees : List Text → List Text → Hunk → Type 0
Agrees before after hunk =
    (old_lines hunk.lines ≡ take hunk.old_count (drop (hunk.old_start - 1) (number_after 0 before)))
    × (new_lines hunk.lines
        ≡ take hunk.new_count (drop (hunk.new_start - 1) (number_after 0 after)))

to_hunk-Agrees :
    (before after : List Text) (records : List Record) (range : Range)
    → old_lines records ≡ number_after 0 before
    → new_lines records ≡ number_after 0 after
    → Agrees before after (to_hunk records range)
unfolding to_hunk
to_hunk-Agrees before after records range p q = rw (← p) (rw (← q) (old, new))
  where
    less_one : (n : ℕ) → n + 1 - 1 ≡ n
    less_one n = omega arith

    old :
        old_lines (slice range records)
        ≡ take
            (count_if has_old (slice range records))
            (drop (count_if has_old (take range.start records) + 1 - 1) (old_lines records))
    old =
        rw
          (
            less_one (count_if has_old (take range.start records)),
            ← old_lines-drop range.start records,
          )
          (old_lines-take (range.stop - range.start) (drop range.start records))

    new :
        new_lines (slice range records)
        ≡ take
            (count_if has_new (slice range records))
            (drop (count_if has_new (take range.start records) + 1 - 1) (new_lines records))
    new =
        rw
          (
            less_one (count_if has_new (take range.start records)),
            ← new_lines-drop range.start records,
          )
          (new_lines-take (range.stop - range.start) (drop range.start records))

All-map :
    {A : Type 0} (P : Hunk → Type 0) (f : A → Hunk) (xs : List A)
    → ((x : A) → P (f x))
    → All P (map f xs)
All-map P f [] h = tt
All-map P f (x ∷ xs) h = (h x, All-map P f xs h)

-- Each hunk of a difference says rightly where it stands: the numbered lines of `before` that it
-- holds are the `oldLines` lines from line `oldStart`, and so are those of `after`.
pub diff_hunks-Agrees :
    (before after : List Text) (records : List Record) (around : ℕ)
    → build_diff_records before after ≡ ok records
    → All (Agrees before after) (diff_hunks records around)
unfolding diff_hunks
diff_hunks-Agrees before after records around h =
    let (p, q) = build_diff_records-lines before after records h in
    All-map (Agrees before after) (to_hunk records)
      (reverse (find_ranges around (length records) records 0 []))
      (λ range. to_hunk-Agrees before after records range p q)
