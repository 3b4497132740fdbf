-- ===== src/Actions/Diff/Cover.antt =====
-- The hunks of a difference hold every changed line once, in order, and say where it stands.
use useful.Common.{
  take_add, drop_add, take_all, take, drop, min, ℕ, ◌+◌, ◌-◌, max, ◌≤◌, ◌<◌, true, List, [], ◌∷◌,
  ◌++◌, map, append-nil, append_assoc, length, leb, leb→le, ◌≡◌, inl, inr, refl, sym, ap, ◌∙◌,
  arith, Bool-cases,
}
use mathlib.Core.List.{reverse, reverse-cons, map-append}
use useful.Actions.Diff.{Record, context, remove, add, is_context}
use useful.Actions.Diff.Hunks.{Range, add_range, find_ranges, Hunk, slice, to_hunk, diff_hunks}

-- The records that are no context.
abbrev pub changed : List Record → List Record
changed [] = []
changed (context t i j ∷ rs) = changed rs
changed (remove t i ∷ rs) = remove t i ∷ changed rs
changed (add t j ∷ rs) = add t j ∷ changed rs

abbrev pub hunks_changed : List Hunk → List Record
hunks_changed [] = []
hunks_changed (hunk ∷ hunks) = changed hunk.lines ++ hunks_changed hunks

changed-append : (xs ys : List Record) → changed (xs ++ ys) ≡ changed xs ++ changed ys
changed-append [] ys = refl
changed-append (context t i j ∷ xs) ys = changed-append xs ys
changed-append (remove t i ∷ xs) ys = ap (λ rs. remove t i ∷ rs) (changed-append xs ys)
changed-append (add t j ∷ xs) ys = ap (λ rs. add t j ∷ rs) (changed-append xs ys)

drop_next :
    (j : ℕ) (rs : List Record) (y : Record) (ys : List Record)
    → drop j rs ≡ (y ∷ ys)
    → drop (j + 1) rs ≡ ys
drop_next j rs y ys h = rw (drop_add j 1 rs, h) refl

nil_left : (xs ys : List Record) → (xs ++ ys) ≡ [] → xs ≡ []
nil_left [] ys h = refl
nil_left (x ∷ xs) ys h = cc

hunks_changed-append :
    (xs ys : List Hunk) → hunks_changed (xs ++ ys) ≡ hunks_changed xs ++ hunks_changed ys
hunks_changed-append [] ys = refl
hunks_changed-append (x ∷ xs) ys =
    ap (λ l. changed x.lines ++ l) (hunks_changed-append xs ys)
    ∙ sym (append_assoc (changed x.lines) (hunks_changed xs) (hunks_changed ys))

module _ (records : List Record) where
  -- The changed records from position `a` up to position `b`.
  between : ℕ → ℕ → List Record
  between a b = changed (take (b - a) (drop a records))

  between_split : (a b c : ℕ) → a ≤ b → b ≤ c → between a c ≡ between a b ++ between b c
  unfolding between
  between_split a b c p q =
      let e : c - a ≡ (b - a) + (c - b) = omega arith in
      let d : drop b records ≡ drop (b - a) (drop a records) =
        rw (← drop_add a (b - a) records) (ap (λ n. drop n records) (omega arith)) in
      rw (e, d, take_add (b - a) (c - b) (drop a records))
        (changed-append (take (b - a) (drop a records)) _)

  between_none : (a b : ℕ) → b ≤ a → between a b ≡ []
  unfolding between
  between_none a b h = let e : b - a ≡ 0 = omega arith in rw e refl

  abbrev Apart : ℕ → List Range → Type 0
  Apart start [] = Unit
  Apart start (r ∷ rs) = r.stop < start

  -- The ranges, the last one first, hold what has changed up to `bound`: nothing has changed behind the
  -- last range, between two of them or before the first, and no two of them touch.
  abbrev Complete : ℕ → List Range → Type 0
  Complete bound [] = between 0 bound ≡ []
  Complete bound (r ∷ rs) =
      (r.start ≤ r.stop)
      × (r.stop ≤ length records)
      × (between r.stop bound ≡ [])
      × Apart r.start rs
      × Complete r.start rs

  collected : List Range → List Record
  collected [] = []
  collected (r ∷ rs) = collected rs ++ between r.start r.stop

  between_context :
      (index : ℕ) (line : Record) (lines : List Record)
      → drop index records ≡ (line ∷ lines)
      → is_context line ≡ true
      → between index (index + 1) ≡ []
  unfolding between is_context
  between_context index (context t i j) lines d c =
      let e : (index + 1) - index ≡ 1 = omega arith in rw (e, d) refl
  between_context index (remove t i) lines d c = cc
  between_context index (add t j) lines d c = cc

  abbrev Within : ℕ → List Range → Type 0
  Within bound [] = Unit
  Within bound (r ∷ rs) = r.stop ≤ bound

  Apart-Within : (start : ℕ) (ranges : List Range) → Apart start ranges → Within start ranges
  Apart-Within start [] h = tt
  Apart-Within start (r ∷ rs) h = omega arith

  collected-between :
      (bound : ℕ) (ranges : List Range)
      → Complete bound ranges
      → Within bound ranges
      → collected ranges ≡ between 0 bound
  unfolding collected
  collected-between bound [] h w = sym h
  collected-between bound (r ∷ rs) (ordered, fits, none_behind, apart, rest) w =
      let before = collected-between r.start rs rest (Apart-Within r.start rs apart) in
      rw
        (
          between_split 0 r.stop bound (omega arith) w,
          none_behind,
          append-nil (between 0 r.stop),
          before,
        )
        (sym (between_split 0 r.start r.stop (omega arith) ordered))

  Complete-Within :
      (ranges : List Range) → Complete (length records) ranges → Within (length records) ranges
  Complete-Within [] h = tt
  Complete-Within (r ∷ rs) h = h.1

  between_all : between 0 (length records) ≡ changed records
  unfolding between
  between_all =
      let e : length records - 0 ≡ length records = omega arith in
      rw e (ap changed (take_all (length records) records (omega arith)))

  -- One more record: the ranges stay complete.
  Complete-context :
      (index : ℕ) (ranges : List Range)
      → between index (index + 1) ≡ []
      → Complete index ranges
      → Complete (index + 1) ranges
  Complete-context index [] none_here h =
      rw (between_split 0 index (index + 1) (omega arith) (omega arith), h, none_here) refl
  Complete-context index (r ∷ rs) none_here (ordered, fits, none_behind, apart, rest) =
      (ordered, fits, more, apart, rest)
    where
      more : between r.stop (index + 1) ≡ []
      more = elim (Bool-cases (leb r.stop index)) [
        | inl e ↦
            rw
              (
                between_split r.stop index (index + 1) (leb→le _ _ e) (omega arith),
                none_behind,
                none_here,
              )
              refl
        | inr e ↦ between_none r.stop (index + 1) (ground arith)
      ]

  Complete-add_range :
      (index start stop : ℕ) (ranges : List Range)
      → start ≤ index
      → index < stop
      → stop ≤ length records
      → Complete index ranges
      → Complete (index + 1) (add_range start stop ranges)
  unfolding add_range
  Complete-add_range index start stop [] p q fits h = (
    omega arith,
    fits,
    between_none stop (index + 1) (omega arith),
    tt,
    nil_left (between 0 start) _ none_yet,
  )
    where
      none_yet : (between 0 start ++ between start index) ≡ []
      none_yet = sym (between_split 0 start index (omega arith) p) ∙ h
  Complete-add_range index start stop (r ∷ rs) p q fits (ordered, fits', none_behind, apart, rest) =
      elim (Bool-cases (leb start r.stop)) [
        | inl e ↦ rw e (
          omega arith,
          omega arith,
          between_none (max r.stop stop) (index + 1) (omega arith),
          apart,
          rest,
        )
        | inr e ↦ rw e (
          omega arith,
          fits,
          between_none stop (index + 1) (omega arith),
          ground arith,
          (
            ordered,
            fits',
            nil_left (between r.stop start) _
                (sym (between_split r.stop start index (ground arith) p) ∙ none_behind),
            apart,
            rest,
          ),
        )
      ]

  -- The loop over the rest of the records, `lines`, from `index`.
  find_ranges-Complete :
      (around : ℕ) (lines : List Record) (index : ℕ) (ranges : List Range)
      → drop index records ≡ lines
      → index + length lines ≡ length records
      → Complete index ranges
      → Complete (length records) (find_ranges around (length records) lines index ranges)
  unfolding find_ranges
  find_ranges-Complete around [] index ranges d e h =
      let e' : index ≡ length records = omega arith in rw (← e') h
  find_ranges-Complete around (line ∷ lines) index ranges d e h =
      find_ranges-Complete around lines (index + 1) _ (drop_next index records line lines d)
        (omega arith)
        (elim (Bool-cases (is_context line)) [
          | inl c ↦ rw c (Complete-context index ranges (between_context index line lines d c) h)
          | inr c ↦ rw c (
              Complete-add_range index (index - around) (min (length records) (index + around + 1))
                ranges (omega arith) (omega arith) (omega arith) h)
        ])

  collected-hunks :
      (ranges : List Range)
      → hunks_changed (map (to_hunk records) (reverse ranges)) ≡ collected ranges
  unfolding collected between to_hunk
  collected-hunks [] = refl
  collected-hunks (r ∷ rs) =
      rw
        (
          reverse-cons r rs,
          map-append (to_hunk records) (reverse rs) (r ∷ []),
          hunks_changed-append (map (to_hunk records) (reverse rs)) (to_hunk records r ∷ []),
          collected-hunks rs,
          append-nil (changed (slice r records)),
        )
        refl

-- The changed lines of the hunks, one hunk behind the other, are the changed lines of the records:
-- none is left out, none stands in two hunks, and their order is kept, whatever the number of context
-- lines around them.
pub diff_hunks-changed :
    (records : List Record) (around : ℕ)
    → hunks_changed (diff_hunks records around) ≡ changed records
unfolding diff_hunks
diff_hunks-changed records around =
    let ranges : List Range = find_ranges around (length records) records 0 [] in
    let complete : Complete records (length records) ranges =
      find_ranges-Complete records around records 0 [] refl (omega arith)
        (between_none records 0 0 (omega arith)) in
    collected-hunks records ranges
    ∙ collected-between records (length records) ranges complete
        (Complete-Within records ranges complete)
    ∙ between_all records
