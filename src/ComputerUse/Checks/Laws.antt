-- ===== src/ComputerUse/Checks/Laws.antt =====
-- What validated safety checks guarantee.
use useful.Common.{
  suc, ◌≤◌, true, false, not, List, [], ◌∷◌, map, Text, length, All, contains, ok, bind-eq-ok,
  then-eq-ok, ◌≡◌, refl, ap, arith, Option-cases, Bool-cases, subst, inl, inr, all_distinct,
  text_eq_iff, text_eq_refl,
}
use useful.Js.Value.{Value, is_undefined, as_items}
use useful.ComputerUse.Base.{safety_check_invalid, is_safe_text}
use useful.ComputerUse.Checks.{
  Source, Check, read_check, read_checks, read_check_list, validate_safety_checks,
}

abbrev pub ids : List Check → List Text
ids checks = map Check.id checks

-- A check that the contract may show to the approver.
pub record CheckSound (source : Source) (c : Check) : Type 0 where
  pub safe : is_safe_text c.id ≡ true
  pub described : (1 ≤ length c.description) × (length c.description ≤ 1024)
  pub from : c.source ≡ source

pub record ChecksSound (source : Source) (checks : List Check) : Type 0 where
  pub few : length checks ≤ 64
  pub distinct : all_distinct (ids checks) ≡ true
  pub each : All (CheckSound source) checks

read_check-CheckSound :
    (source : Source) (v : Value) {c : Check} → read_check source v ≡ ok c → CheckSound source c
unfolding read_check
read_check-CheckSound source v e = ground arith

-- The parts of a successful run on a list that is not empty.
record Step (source : Source) (seen : List Text) (v : Value) (vs : List Value) (checks : List Check)
    : Type 0 where
  check : Check
  rest : List Check
  read : read_check source v ≡ ok check
  fresh : contains seen check.id ≡ false
  more : read_checks source (check.id ∷ seen) vs ≡ ok rest
  whole : checks ≡ check ∷ rest

read_checks-Step :
    (source : Source) (seen : List Text) (v : Value) (vs : List Value) {checks : List Check}
    → read_checks source seen (v ∷ vs) ≡ ok checks
    → Step source seen v vs checks
unfolding read_checks
read_checks-Step source seen v vs {checks} e =
    let (check, read, e) = bind-eq-ok (read_check source v) _ e in
    let (fresh, e) = then-eq-ok (not (contains seen check.id)) safety_check_invalid _ e in
    let (rest, more, e) = bind-eq-ok (read_checks source (check.id ∷ seen) vs) _ e in
    record {
      check = check;
      rest = rest;
      read = read;
      fresh = ground arith;
      more = more;
      whole = ground arith;
    }

-- No identifier among the checks is one that was seen before them.
read_checks-fresh :
    (source : Source) (seen : List Text) (vs : List Value) {checks : List Check} (t : Text)
    → read_checks source seen vs ≡ ok checks
    → contains seen t ≡ true
    → contains (ids checks) t ≡ false
unfolding read_checks contains
read_checks-fresh source seen [] t e h = ground arith
read_checks-fresh source seen (v ∷ vs) t e h =
    let s = read_checks-Step source seen v vs e in
    let later = read_checks-fresh source (s.check.id ∷ seen) vs t s.more (ground arith) in
    rw s.whole (ground (arith, s.fresh, later, text_eq_iff s.check.id t))

length-read_checks :
    (source : Source) (seen : List Text) (vs : List Value) {checks : List Check}
    → read_checks source seen vs ≡ ok checks
    → length checks ≡ length vs
unfolding read_checks
length-read_checks source seen [] e = ground arith
length-read_checks source seen (v ∷ vs) e =
    let s = read_checks-Step source seen v vs e in
    rw s.whole (ap suc (length-read_checks source (s.check.id ∷ seen) vs s.more))

read_checks-distinct :
    (source : Source) (seen : List Text) (vs : List Value) {checks : List Check}
    → read_checks source seen vs ≡ ok checks
    → all_distinct (ids checks) ≡ true
unfolding read_checks all_distinct contains
read_checks-distinct source seen [] e = ground arith
read_checks-distinct source seen (v ∷ vs) e =
    let s = read_checks-Step source seen v vs e in
    let apart =
      read_checks-fresh source (s.check.id ∷ seen) vs s.check.id s.more
        (ground (arith, text_eq_refl s.check.id)) in
    rw s.whole (ground (arith, apart, read_checks-distinct source (s.check.id ∷ seen) vs s.more))

read_checks-each :
    (source : Source) (seen : List Text) (vs : List Value) {checks : List Check}
    → read_checks source seen vs ≡ ok checks
    → All (CheckSound source) checks
unfolding read_checks
read_checks-each source seen [] e = ground arith
read_checks-each source seen (v ∷ vs) e =
    let s = read_checks-Step source seen v vs e in
    rw s.whole
      (read_check-CheckSound source v s.read, read_checks-each source (s.check.id ∷ seen) vs s.more)

read_check_list-ChecksSound :
    (source : Source) (v : Value) {checks : List Check}
    → read_check_list source v ≡ ok checks
    → ChecksSound source checks
unfolding read_check_list
read_check_list-ChecksSound source v {checks} e = elim (Option-cases (as_items v)) [
  | inl no_list ↦ ground (arith, no_list)
  | inr (vs, given) ↦
      let read : read_checks source [] vs ≡ ok checks = ground (arith, given) in
      let few : length vs ≤ 64 = ground (arith, given) in
      record {
        few = omega (arith, length-read_checks source [] vs read);
        distinct = read_checks-distinct source [] vs read;
        each = read_checks-each source [] vs read;
      }
]

no_checks-ChecksSound : (source : Source) → ChecksSound source []
unfolding all_distinct
no_checks-ChecksSound source = record { few = omega arith; distinct = refl; each = tt }

-- Validated checks are at most 64, have distinct safe identifiers and a description of 1 to 1024 code
-- units, and carry the source that they were read for.
pub validate_safety_checks-ChecksSound :
    (source : Source) (v : Value) {checks : List Check}
    → validate_safety_checks source v ≡ ok checks
    → ChecksSound source checks
unfolding validate_safety_checks
validate_safety_checks-ChecksSound source v {checks} e = elim (Bool-cases (is_undefined v)) [
  | inl absent ↦
      let same : [] ≡ checks = ground (arith, absent) in
      subst (ChecksSound source) same (no_checks-ChecksSound source)
  | inr present ↦ read_check_list-ChecksSound source v (ground (arith, present))
]
