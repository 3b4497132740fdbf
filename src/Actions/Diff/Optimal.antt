-- ===== src/Actions/Diff/Optimal.antt =====
-- The records of a difference keep as many lines as two texts can have in common.
use useful.Common.{
  get_or, drop, text_eq_refl, replicate, ℕ, zero, suc, ◌+◌, max, ◌≤◌, false, List, [], ◌∷◌, Text,
  length, text_eq, text_eq_iff, leb, if◌then◌else◌, ok, ◌≡◌, ◌⊎◌, inl, inr, refl, sym, arith,
  Bool-cases,
}
use useful.Actions.Diff.{
  Record, context, remove, add, walk, build_diff_records, build_diff_records-walk, lcs_table,
  lcs_row, store_u16, max_diff_lines,
}

-- `zs` is left of `xs` when some of its lines are taken out.
pub data Sublines : List Text → List Text → Type 0 where
  end : Sublines [] []
  skip : {zs xs : List Text} (x : Text) → Sublines zs xs → Sublines zs (x ∷ xs)
  keep : {zs xs : List Text} (x : Text) → Sublines zs xs → Sublines (x ∷ zs) (x ∷ xs)

-- The length of a longest common part, by its recursion on both lists.
lcs : List Text → List Text → ℕ
lcs [] ys = 0
lcs (x ∷ xs) [] = 0
lcs (x ∷ xs) (y ∷ ys) =
    if text_eq x y then lcs xs ys + 1 else max (lcs xs (y ∷ ys)) (lcs (x ∷ xs) ys)

lcs-nil : (xs : List Text) → lcs xs [] ≡ 0
unfolding lcs
lcs-nil [] = refl
lcs-nil (x ∷ xs) = refl

lcs-le-length : (xs ys : List Text) → lcs xs ys ≤ length ys
unfolding lcs
lcs-le-length [] ys = omega arith
lcs-le-length (x ∷ xs) [] = omega arith
lcs-le-length (x ∷ xs) (y ∷ ys) =
    ground (arith, lcs-le-length xs ys, lcs-le-length xs (y ∷ ys), lcs-le-length (x ∷ xs) ys)

-- The row of the table for `xs`: the longest common parts with every rest of `ys`.
lcs_rests : List Text → List Text → List ℕ
lcs_rests xs [] = 0 ∷ []
lcs_rests xs (y ∷ ys) = lcs xs (y ∷ ys) ∷ lcs_rests xs ys

lcs_rests_first : (xs ys : List Text) → get_or (lcs_rests xs ys) 0 0 ≡ lcs xs ys
unfolding lcs_rests
lcs_rests_first xs [] = sym (lcs-nil xs)
lcs_rests_first xs (y ∷ ys) = refl

lcs_rests_second :
    (xs : List Text) (y : Text) (ys : List Text) → get_or (lcs_rests xs (y ∷ ys)) 1 0 ≡ lcs xs ys
unfolding lcs_rests
lcs_rests_second xs y ys = lcs_rests_first xs ys

lcs_row-lcs_rests :
    (x : Text) (xs ys : List Text)
    → length ys ≤ max_diff_lines
    → lcs_row x ys (lcs_rests xs ys) ≡ lcs_rests (x ∷ xs) ys
unfolding lcs_row lcs_rests lcs store_u16
lcs_row-lcs_rests x xs [] h = refl
lcs_row-lcs_rests x xs (y ∷ ys) h = ground (
  arith,
  lcs_row-lcs_rests x xs ys,
  lcs_rests_first xs ys,
  lcs_rests_first (x ∷ xs) ys,
  lcs-le-length xs ys,
  lcs-le-length xs (y ∷ ys),
  lcs-le-length (x ∷ xs) ys,
)

-- The rows for every rest of `before`.
lcs_rows : List Text → List Text → List (List ℕ)
lcs_rows [] after = lcs_rests [] after ∷ []
lcs_rows (x ∷ xs) after = lcs_rests (x ∷ xs) after ∷ lcs_rows xs after

lcs_rests-zeros : (ys : List Text) → lcs_rests [] ys ≡ replicate (length ys + 1) 0
unfolding lcs_rests lcs
lcs_rests-zeros [] = refl
lcs_rests-zeros (y ∷ ys) = ground (arith, lcs_rests-zeros ys)

lcs_rows_first : (xs ys : List Text) → get_or (lcs_rows xs ys) 0 [] ≡ lcs_rests xs ys
unfolding lcs_rows
lcs_rows_first [] ys = refl
lcs_rows_first (x ∷ xs) ys = refl

lcs_table-lcs_rows :
    (xs ys : List Text) → length ys ≤ max_diff_lines → lcs_table xs ys ≡ lcs_rows xs ys
unfolding lcs_table lcs_rows
lcs_table-lcs_rows [] ys h = ground (arith, lcs_rests-zeros ys)
lcs_table-lcs_rows (x ∷ xs) ys h =
    rw (lcs_table-lcs_rows xs ys h, lcs_rows_first xs ys, lcs_row-lcs_rests x xs ys h) refl

lcs_rests_at : (xs ys : List Text) (j : ℕ) → get_or (lcs_rests xs ys) j 0 ≡ lcs xs (drop j ys)
unfolding lcs_rests
lcs_rests_at xs [] zero = sym (lcs-nil xs)
lcs_rests_at xs [] (suc j) = sym (lcs-nil xs)
lcs_rests_at xs (y ∷ ys) zero = refl
lcs_rests_at xs (y ∷ ys) (suc j) = lcs_rests_at xs ys j

drop_next :
    (j : ℕ) (after : List Text) (y : Text) (ys : List Text)
    → drop j after ≡ (y ∷ ys)
    → drop (j + 1) after ≡ ys
drop_next zero [] y ys h = cc
drop_next zero (z ∷ zs) y ys h = cc
drop_next (suc j) [] y ys h = cc
drop_next (suc j) (z ∷ zs) y ys h = ground (arith, drop_next j zs y ys h)

-- The lines that the records keep.
abbrev pub kept : List Record → List Text
kept [] = []
kept (context t i j ∷ rs) = t ∷ kept rs
kept (remove t i ∷ rs) = kept rs
kept (add t j ∷ rs) = kept rs

module _ (after : List Text) where
  cell_right :
      (x : Text) (xs ys : List Text) (y : Text) (j : ℕ)
      → drop j after ≡ (y ∷ ys)
      → get_or (get_or (lcs_rows (x ∷ xs) after) 0 []) (j + 1) 0 ≡ lcs (x ∷ xs) ys
  cell_right x xs ys y j h =
      rw
        (
          lcs_rows_first (x ∷ xs) after,
          lcs_rests_at (x ∷ xs) after (j + 1),
          drop_next j after y ys h,
        )
        refl

  cell_below :
      (x : Text) (xs ys : List Text) (j : ℕ)
      → drop j after ≡ ys
      → get_or (get_or (lcs_rows (x ∷ xs) after) 1 []) j 0 ≡ lcs xs ys
  unfolding lcs_rows
  cell_below x xs ys j h = rw (lcs_rows_first xs after, lcs_rests_at xs after j, h) refl

  below : (x : Text) (xs : List Text) → drop 1 (lcs_rows (x ∷ xs) after) ≡ lcs_rows xs after
  unfolding lcs_rows
  below x [] = refl
  below x (z ∷ xs) = refl

  kept-walk :
      (xs ys : List Text) (i j : ℕ)
      → drop j after ≡ ys
      → length (kept (walk xs ys (lcs_rows xs after) i j)) ≡ lcs xs ys
  unfolding walk lcs
  kept-walk [] [] i j h = refl
  kept-walk [] (y ∷ ys) i j h = kept-walk [] ys i (j + 1) (drop_next j after y ys h)
  kept-walk (x ∷ xs) [] i j h = ground (arith, below x xs, kept-walk xs [] (i + 1) j h, lcs-nil xs)
  kept-walk (x ∷ xs) (y ∷ ys) i j h = ground (
    arith,
    below x xs,
    cell_right x xs ys y j h,
    cell_below x xs (y ∷ ys) j h,
    kept-walk xs ys (i + 1) (j + 1) (drop_next j after y ys h),
    kept-walk xs (y ∷ ys) (i + 1) j h,
    kept-walk (x ∷ xs) ys i (j + 1) (drop_next j after y ys h),
  )

Sublines-nil : (xs : List Text) → Sublines [] xs
Sublines-nil [] = end
Sublines-nil (x ∷ xs) = skip x (Sublines-nil xs)

kept-walk-Sublines :
    (xs ys : List Text) (rows : List (List ℕ)) (i j : ℕ)
    → Sublines (kept (walk xs ys rows i j)) xs × Sublines (kept (walk xs ys rows i j)) ys
unfolding walk
kept-walk-Sublines [] [] rows i j = (end, end)
kept-walk-Sublines [] (y ∷ ys) rows i j =
    let (p, q) = kept-walk-Sublines [] ys rows i (j + 1) in (p, skip y q)
kept-walk-Sublines (x ∷ xs) [] rows i j =
    let (p, q) = kept-walk-Sublines xs [] (drop 1 rows) (i + 1) j in (skip x p, q)
kept-walk-Sublines (x ∷ xs) (y ∷ ys) rows i j =
    let both = kept-walk-Sublines xs ys (drop 1 rows) (i + 1) (j + 1) in
    let (p, q) = kept-walk-Sublines xs (y ∷ ys) (drop 1 rows) (i + 1) j in
    let (p', q') = kept-walk-Sublines (x ∷ xs) ys rows i (j + 1) in
    elim (Bool-cases (text_eq x y)) [
      | inl same ↦ rw (same, kept) (keep x both.0, rw (← (text_eq_iff x y).0 same) (keep x both.1))
      | inr other ↦
          rw (other, kept)
            (elim (Bool-cases
              (leb (get_or (get_or rows 0 []) (j + 1) 0) (get_or (get_or rows 1 []) j 0))) [
                | inl e ↦ rw (e, kept) (skip x p, q)
                | inr e ↦ rw (e, kept) (p', skip y q')
              ])
    ]

Sublines-drop : {zs xs : List Text} → Sublines zs xs → Sublines (drop 1 zs) xs
Sublines-drop end = end
Sublines-drop (skip x p) = skip x (Sublines-drop p)
Sublines-drop (keep x p) = skip x p

Sublines-rest : (x : Text) {zs xs : List Text} → Sublines zs (x ∷ xs) → Sublines (drop 1 zs) xs
Sublines-rest x (skip _ p) = Sublines-drop p
Sublines-rest x (keep _ p) = p

-- A common part of lists that begin differently leaves out one of the first lines.
Sublines-apart :
    (x y : Text) {zs xs ys : List Text}
    → text_eq x y ≡ false
    → Sublines zs (x ∷ xs)
    → Sublines zs (y ∷ ys)
    → Sublines zs xs ⊎ Sublines zs ys
Sublines-apart x y h (skip _ p) q = inl p
Sublines-apart x y h (keep _ p) (skip _ q) = inr q
Sublines-apart x y h (keep _ p) (keep _ q) = absurd (ground (arith, text_eq_refl x))

length-drop : (zs : List Text) → length zs ≤ length (drop 1 zs) + 1
length-drop [] = omega arith
length-drop (z ∷ zs) = omega arith

-- No common part is longer.
lcs-IsLongest : (xs ys zs : List Text) → Sublines zs xs → Sublines zs ys → length zs ≤ lcs xs ys
unfolding lcs
lcs-IsLongest [] ys zs end q = omega arith
lcs-IsLongest (x ∷ xs) [] zs p end = omega arith
lcs-IsLongest (x ∷ xs) (y ∷ ys) zs p q =
    let both = lcs-IsLongest xs ys (drop 1 zs) (Sublines-rest x p) (Sublines-rest y q) in
    elim (Bool-cases (text_eq x y)) [
      | inl same ↦ rw same (omega (arith, both, length-drop zs))
      | inr other ↦ rw other (elim (Sublines-apart x y other p q) [
        | inl p' ↦ omega (arith, lcs-IsLongest xs (y ∷ ys) zs p' q)
        | inr q' ↦ omega (arith, lcs-IsLongest (x ∷ xs) ys zs p q')
      ])
    ]

-- The lines that a difference keeps are left of both texts when lines are taken out, and no other
-- list with this property is longer: no difference of the texts removes and adds fewer lines.
pub build_diff_records-kept :
    (before after : List Text) (records : List Record)
    → build_diff_records before after ≡ ok records
    → Sublines (kept records) before
      × Sublines (kept records) after
      × ((zs : List Text)
          → Sublines zs before
          → Sublines zs after
          → length zs ≤ length (kept records))
build_diff_records-kept before after records h =
    let (short, same) = build_diff_records-walk before after records h in
    let (p, q) = kept-walk-Sublines before after (lcs_table before after) 0 0 in
    let count : length (kept (walk before after (lcs_table before after) 0 0)) ≡ lcs before after =
      rw (lcs_table-lcs_rows before after short) (kept-walk after before after 0 0 refl) in
    rw (← same) (p, q, λ zs a b. rw count (lcs-IsLongest before after zs a b))
