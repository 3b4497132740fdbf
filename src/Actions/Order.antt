-- ===== src/Actions/Order.antt =====
-- packages/action-runtime/src/utility-actions.mjs: `compareCodePoints`.
use useful.Common.{
  ◌*◌, ℕ, ◌+◌, ◌-◌, Bool, true, false, ◌&&◌, List, [], ◌∷◌, Option, none, some, Text, ltb, leb,
  if◌then◌else◌,
}

-- `[...text]`: a surrogate pair is one code point, a lone surrogate stands for itself. `high` is the
-- high surrogate in front, if there is one.
unfoldable pub join_pairs : Option ℕ → Text → List ℕ
join_pairs none [] = []
join_pairs (some h) [] = h ∷ []
join_pairs none (c ∷ t) =
    let paired = join_pairs (some c) t in
    let alone = join_pairs none t in if leb 0xd800 c && leb c 0xdbff then paired else c ∷ alone
join_pairs (some h) (c ∷ t) =
    let pair = join_pairs none t in
    let again = join_pairs (some c) t in
    if leb 0xdc00 c && leb c 0xdfff
    then (0x10000 + (h - 0xd800) * 0x400 + (c - 0xdc00)) ∷ pair
    else if leb 0xd800 c && leb c 0xdbff
    then h ∷ again
    else h ∷ c ∷ pair

unfoldable pub code_points : Text → List ℕ
unfolding join_pairs
code_points t = join_pairs none t

-- The results -1, 0 and 1.
pub data Sign : Type 0 where
  less same more : Sign

-- `result *= -1`.
abbrev pub negate : Sign → Sign
negate less = more
negate same = same
negate more = less

unfoldable pub compare_lists : List ℕ → List ℕ → Sign
compare_lists [] [] = same
compare_lists [] (b ∷ bs) = less
compare_lists (a ∷ xs) [] = more
compare_lists (a ∷ xs) (b ∷ bs) =
    let rest = compare_lists xs bs in if ltb a b then less else if ltb b a then more else rest

unfoldable pub compare_code_points : Text → Text → Sign
unfolding compare_lists code_points
compare_code_points left right = compare_lists (code_points left) (code_points right)

-- `left` does not stand behind `right`.
abbrev pub at_most : Sign → Bool
at_most more = false
at_most _ = true

-- A stable sort by a comparison, as `array.sort` is.
module _ {A : Type 0} (compare_by : A → A → Sign) where
  unfoldable pub insert_by : A → List A → List A
  insert_by a [] = a ∷ []
  insert_by a (b ∷ bs) = if at_most (compare_by a b) then a ∷ b ∷ bs else b ∷ insert_by a bs

  unfoldable pub sort_by : List A → List A
  unfolding insert_by
  sort_by [] = []
  sort_by (a ∷ xs) = insert_by a (sort_by xs)
