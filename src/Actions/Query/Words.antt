-- ===== src/Actions/Query/Words.antt =====
-- packages/action-runtime/src/registry.mjs: the relevance of an action for the words of a query.
use useful.Common.{
  is_space, ℕ, ◌+◌, Bool, true, false, ◌&&◌, ◌||◌, List, [], ◌∷◌, ◌++◌, map, Option, none, some,
  Text, codes, length, any, text_eq, contains, ltb, ◌==◌, if◌then◌else◌,
}
use useful.Actions.Registry.{Descriptor, Mode, pure, host, worker, ui_only}

-- `text.startsWith(part)` and `text.includes(part)`.
unfoldable pub starts_with : Text → Text → Bool
starts_with t [] = true
starts_with [] (c ∷ part) = false
starts_with (d ∷ t) (c ∷ part) = d == c && starts_with t part

unfoldable pub includes : Text → Text → Bool
unfolding starts_with
includes [] part = starts_with [] part
includes (c ∷ t) part = starts_with (c ∷ t) part || includes t part

-- `text.split(/\s+/u).filter(Boolean)`; `word` is the word so far.
unfoldable pub words_from : Text → Text → List Text
words_from word [] = if ltb (length word) 1 then [] else word ∷ []
words_from word (c ∷ t) =
    let rest = words_from (if is_space c then [] else word ++ c ∷ []) t in
    if is_space c && ltb 0 (length word) then word ∷ rest else rest

unfoldable pub words : Text → List Text
unfolding words_from
words t = words_from [] t

abbrev pub text_of_mode : Mode → Text
text_of_mode pure = codes "pure"
text_of_mode host = codes "host"
text_of_mode worker = codes "worker"
text_of_mode ui_only = codes "ui-only"

abbrev pub category_of : Descriptor → Text
category_of descriptor = elim descriptor.category [ none ↦ [] | some category ↦ category ]

-- `normalize` is `String(value).normalize("NFKC").toLowerCase()`. A token that is not found scores none,
-- which the source writes as -1.
unfoldable pub token_relevance : (Text → Text) → Descriptor → Text → Option ℕ
unfolding starts_with includes contains text_eq
token_relevance normalize descriptor query =
    let action_id = normalize descriptor.action_id in
    let aliases = map normalize descriptor.aliases in
    let title = normalize descriptor.title in
    let keywords = map normalize descriptor.keywords in
    let description = normalize descriptor.description in
    if text_eq action_id query
    then some 1000
    else if contains aliases query
    then some 900
    else if starts_with action_id query
    then some 800
    else if any (λ t. starts_with t query) aliases
    then some 700
    else if text_eq title query
    then some 650
    else if contains keywords query
    then some 600
    else if includes title query
    then some 500
    else if any (λ t. includes t query) keywords
    then some 450
    else if includes action_id query || any (λ t. includes t query) aliases
    then some 400
    else if includes description query
    then some 100
    else none

abbrev pub add_scores : List (Option ℕ) → Option ℕ
add_scores [] = some 0
add_scores (none ∷ scores) = none
add_scores (some n ∷ scores) = elim (add_scores scores) [ none ↦ none | some m ↦ some (n + m) ]

unfoldable pub relevance : (Text → Text) → Descriptor → Text → List Text → Option ℕ
unfolding token_relevance includes
relevance normalize descriptor query [] = some 0
relevance normalize descriptor query (token ∷ tokens) =
    let bonus =
      if includes (normalize descriptor.title) query
      then 75
      else if includes (normalize descriptor.description) query
      then 25
      else 0 in
    elim (add_scores (map (token_relevance normalize descriptor) (token ∷ tokens))) [
      | none ↦ none
      | some score ↦ some (score + bonus)
    ]
