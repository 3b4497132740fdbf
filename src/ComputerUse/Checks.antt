-- ===== src/ComputerUse/Checks.antt =====
-- `validateSafetyChecks`.
pub mod Laws
use useful.Common.{
  not, ◌&&◌, List, [], ◌∷◌, Option, none, some, Text, length, contains, leb, if◌then◌else◌, Result,
  ok, err, ◌>>=◌, ◌>>◌, guard,
}
use useful.Js.Value.{Value, is_undefined, get, is_text, as_text, as_items}
use useful.ComputerUse.Base.{Code, safety_check_invalid, assert_known_keys, is_safe_text}

pub data Severity : Type 0 where
  low medium high : Severity

pub data Source : Type 0 where
  model provider contract : Source

pub record Check : Type 0 where
  pub id : Text
  pub description : Text
  pub severity : Severity
  pub source : Source

unfoldable pub read_severity : Value → Option Severity
read_severity v =
    if is_text "low" v
    then some low
    else if is_text "medium" v
    then some medium
    else if is_text "high" v
    then some high
    else none

unfoldable pub read_check : Source → Value → Result Code Check
read_check source v = do
  assert_known_keys v ("id" ∷ "description" ∷ "severity" ∷ []) safety_check_invalid
  id ← elim (as_text (get "id" v)) [ none ↦ err safety_check_invalid | some t ↦ ok t ]
  guard (is_safe_text id) safety_check_invalid
  description ← elim (as_text (get "description" v)) [
    | none ↦ err safety_check_invalid
    | some t ↦ ok t
  ]
  guard (leb 1 (length description) && leb (length description) 1024) safety_check_invalid
  severity ← elim (read_severity (get "severity" v)) [
    | none ↦ err safety_check_invalid
    | some s ↦ ok s
  ]
  ok (record { id = id; description = description; severity = severity; source = source })

-- `checks.map(…)`, with the identifiers `seen` so far; all have the one source in front of them.
unfoldable pub read_checks : Source → List Text → List Value → Result Code (List Check)
read_checks source seen [] = ok []
read_checks source seen (v ∷ vs) = do
  check ← read_check source v
  guard (not (contains seen check.id)) safety_check_invalid
  checks ← read_checks source (check.id ∷ seen) vs
  ok (check ∷ checks)

-- The checks of a list that is given.
unfoldable pub read_check_list : Source → Value → Result Code (List Check)
read_check_list source v = do
  vs ← elim (as_items v) [ none ↦ err safety_check_invalid | some vs ↦ ok vs ]
  guard (leb (length vs) 64) safety_check_invalid
  read_checks source [] vs

unfoldable pub validate_safety_checks : Source → Value → Result Code (List Check)
validate_safety_checks source v = if is_undefined v then ok [] else read_check_list source v
