-- ===== src/Common/Sorting.antt =====
-- The laws of `sort` on texts: the result is in order, and holds the same texts, as often.
use useful.Common.Lists.{length, any}
use useful.Common.Texts.{
  Text, text_eq, text_eq_iff, text_le, contains, all_distinct, insert_sorted, sort,
}
use Prim.Native.Nat.{suc}
use mathlib.Core.Path.{◌≡◌, refl, ap, ◌∙◌}
use mathlib.Core.Bool.{Bool, true, false, ◌||◌}
use mathlib.Core.List.{List, [], ◌∷◌}
use native.Mathlib.Omega.{arith}

-- Texts in order, each at most the next.
abbrev pub IsSorted : List Text → Type 0
IsSorted [] = Unit
IsSorted (t ∷ []) = Unit
IsSorted (t ∷ u ∷ us) = (text_le t u ≡ true) × IsSorted (u ∷ us)

text_le_total : (s t : Text) → text_le s t ≡ false → text_le t s ≡ true
unfolding text_le
text_le_total [] t h = cc
text_le_total (a ∷ s) [] h = refl
text_le_total (a ∷ s) (b ∷ t) h = ground (arith, text_le_total s t)

insert_sorted-IsSorted : (t : Text) (us : List Text) → IsSorted us → IsSorted (insert_sorted t us)
unfolding insert_sorted
insert_sorted-IsSorted t [] h = tt
insert_sorted-IsSorted t (u ∷ []) h = ground (arith, text_le_total t u)
insert_sorted-IsSorted t (u ∷ v ∷ us) h =
    ground (arith, text_le_total t u, text_le_total t v, insert_sorted-IsSorted t (v ∷ us))

pub sort-IsSorted : (ts : List Text) → IsSorted (sort ts)
unfolding sort
sort-IsSorted [] = tt
sort-IsSorted (t ∷ ts) = insert_sorted-IsSorted t (sort ts) (sort-IsSorted ts)

contains-insert_sorted :
    (t u : Text) (us : List Text) → contains (insert_sorted t us) u ≡ (text_eq t u || contains us u)
unfolding contains insert_sorted
contains-insert_sorted t u [] = refl
contains-insert_sorted t u (v ∷ us) = ground (arith, contains-insert_sorted t u us)

pub contains-sort : (u : Text) (ts : List Text) → contains (sort ts) u ≡ contains ts u
unfolding contains sort
contains-sort u [] = refl
contains-sort u (t ∷ ts) =
    contains-insert_sorted t u (sort ts) ∙ ap (λ b. text_eq t u || b) (contains-sort u ts)

pub text_eq_comm : (s t : Text) → text_eq s t ≡ text_eq t s
text_eq_comm s t = ground (arith, text_eq_iff s t, text_eq_iff t s)

all_distinct-insert_sorted :
    (t : Text) (us : List Text)
    → contains us t ≡ false
    → all_distinct us ≡ true
    → all_distinct (insert_sorted t us) ≡ true
unfolding all_distinct insert_sorted contains
all_distinct-insert_sorted t [] n h = refl
all_distinct-insert_sorted t (u ∷ us) n h =
    ground (arith, contains-insert_sorted t u us, text_eq_comm t u, all_distinct-insert_sorted t us)

pub all_distinct-sort : (ts : List Text) → all_distinct ts ≡ true → all_distinct (sort ts) ≡ true
unfolding all_distinct sort
all_distinct-sort [] h = refl
all_distinct-sort (t ∷ ts) h =
    ground (arith, all_distinct-insert_sorted t (sort ts), contains-sort t ts, all_distinct-sort ts)

any-insert_sorted :
    (p : Text → Bool) (t : Text) (us : List Text) → any p (insert_sorted t us) ≡ (p t || any p us)
unfolding insert_sorted
any-insert_sorted p t [] = refl
any-insert_sorted p t (u ∷ us) = ground (arith, any-insert_sorted p t us)

pub any-sort : (p : Text → Bool) (ts : List Text) → any p (sort ts) ≡ any p ts
unfolding sort
any-sort p [] = refl
any-sort p (t ∷ ts) = any-insert_sorted p t (sort ts) ∙ ap (λ b. p t || b) (any-sort p ts)

length-insert_sorted : (t : Text) (us : List Text) → length (insert_sorted t us) ≡ suc (length us)
unfolding insert_sorted
length-insert_sorted t [] = refl
length-insert_sorted t (u ∷ us) = ground (arith, length-insert_sorted t us)

pub length-sort : (ts : List Text) → length (sort ts) ≡ length ts
unfolding sort
length-sort [] = refl
length-sort (t ∷ ts) = length-insert_sorted t (sort ts) ∙ ap suc (length-sort ts)
