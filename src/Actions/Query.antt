-- ===== src/Actions/Query.antt =====
-- packages/action-runtime/src/registry.mjs: `query` of `ActionRegistry`.
pub mod Words
pub mod Options
pub mod Pages
use useful.Common.{
  take, drop, sort, ℕ, ◌+◌, Bool, true, false, not, ◌&&◌, List, [], ◌∷◌, ◌++◌, map, Option, none,
  some, Text, codes, length, contains, ltb, leb, if◌then◌else◌, Result, ok, ◌>>=◌, ◌>>◌, guard,
}
use useful.Js.Value.{Value, get}
use useful.Js.Show.{show_nat}
use mathlib.Core.Option
use useful.Actions.Order.{Sign, less, same, more, negate, compare_code_points, sort_by}
use useful.Actions.Registry.{Descriptor, Registry, list}
use Words.{text_of_mode, category_of, relevance}
use Options.{
  read_search, read_cursor, Sort, Direction, Filters, Search, QueryError, query_invalid,
  by_relevance, by_action_id, by_title, by_category, ascending, descending,
}

abbrev pub passes : Option (List Text) → Text → Bool
passes none t = true
passes (some texts) t = contains texts t

abbrev pub agrees : Option Bool → Bool → Bool
agrees none b = true
agrees (some true) b = b
agrees (some false) b = not b

unfoldable pub passes_filters : Filters → Descriptor → Bool
unfolding contains
passes_filters filters descriptor =
    passes filters.source_kinds descriptor.source_kind
    && (passes filters.categories (category_of descriptor)
        && (passes filters.execution_modes (text_of_mode descriptor.mode)
            && (agrees filters.read_only descriptor.read_only
                && agrees filters.idempotent descriptor.idempotent)))

-- An action with its score.
abbrev pub Ranked : Type 0
Ranked = Descriptor × ℕ

-- The actions that are found and pass the filters.
unfoldable pub score_all : (Text → Text) → Search → List Descriptor → List Ranked
unfolding relevance passes_filters
score_all normalize search [] = []
score_all normalize search (descriptor ∷ descriptors) =
    let rest = score_all normalize search descriptors in
    elim (relevance normalize descriptor search.text search.tokens) [
      | none ↦ rest
      | some score ↦
          if passes_filters search.filters descriptor then (descriptor, score) ∷ rest else rest
    ]

abbrev pub compare_numbers : ℕ → ℕ → Sign
compare_numbers a b = if ltb a b then less else if ltb b a then more else same

abbrev pub compare_field : Sort → Ranked → Ranked → Sign
compare_field by_relevance (d, n) (e, m) = compare_numbers n m
compare_field by_action_id (d, n) (e, m) = compare_code_points d.action_id e.action_id
compare_field by_title (d, n) (e, m) = compare_code_points d.title e.title
compare_field by_category (d, n) (e, m) = compare_code_points (category_of d) (category_of e)

abbrev pub turn : Direction → Sign → Sign
turn ascending sign = sign
turn descending sign = negate sign

-- `result || fallback`.
abbrev pub or_then : Sign → Sign → Sign
or_then same fallback = fallback
or_then sign fallback = sign

unfoldable pub compare_ranked : Sort → Direction → Ranked → Ranked → Sign
unfolding compare_code_points
compare_ranked sort direction left right =
    or_then (turn direction (compare_field sort left right))
      (compare_code_points left.0.action_id right.0.action_id)

unfoldable pub rank : (Text → Text) → List Descriptor → Search → List Descriptor
unfolding score_all sort_by compare_ranked
rank normalize descriptors search =
    map (λ (r : Ranked). r.0)
      (sort_by (compare_ranked search.sort search.direction)
        (score_all normalize search descriptors))

pub record Page : Type 0 where
  pub actions : List Descriptor
  pub next_cursor : Option Text

unfoldable pub page_of : List Descriptor → ℕ → ℕ → Result QueryError Page
page_of ranked limit offset = do
  guard (leb offset (length ranked)) query_invalid
  let actions = take limit (drop offset ranked)
  let next_offset = offset + length actions
  ok (record {
    actions = actions;
    next_cursor =
        if ltb next_offset (length ranked)
        then some (codes "v1:" ++ show_nat next_offset)
        else none;
  })

unfoldable pub query : {H : Type 0} → (Text → Text) → Registry H → Value → Result QueryError Page
unfolding list rank page_of read_search read_cursor get
query normalize registry options = do
  search ← read_search normalize options
  offset ← read_cursor (get "cursor" options)
  page_of (rank normalize (list registry) search) search.limit offset
