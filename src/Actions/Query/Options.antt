-- ===== src/Actions/Query/Options.antt =====
-- packages/action-runtime/src/registry.mjs: the options of `query`.
use useful.Common.{
  drop, ◌^◌, is_digit, sort, ℕ, Bool, true, false, not, ◌&&◌, ◌||◌, List, [], ◌∷◌, Option, none,
  some, Text, codes, length, any, all, text_eq, contains, ltb, leb, ◌==◌, if◌then◌else◌, Result, ok,
  err, ◌>>=◌, ◌>>◌, guard, require, all_distinct,
}
use useful.Js.Value.{
  Value, undefined, bool, str, arr, obj, int, pos, items, get, has_key, is_object, own_keys, end,
  is_undefined, or_else, nat_in,
}
use mathlib.Core.Option
use useful.Office.Markdown.Reader.{trim}
use useful.ComputerUse.Address.V4.{number_from}
use useful.Actions.Query.Words.{starts_with, words}

-- The error `ACTION_QUERY_INVALID`.
pub data QueryError : Type 0 where
  query_invalid : QueryError

pub data Sort : Type 0 where
  by_relevance by_action_id by_title by_category : Sort

pub data Direction : Type 0 where
  ascending descending : Direction

abbrev pub read_sort : Value → Option Sort
read_sort (str t) =
    if text_eq t (codes "relevance")
    then some by_relevance
    else if text_eq t (codes "actionId")
    then some by_action_id
    else if text_eq t (codes "title")
    then some by_title
    else if text_eq t (codes "category")
    then some by_category
    else none
read_sort _ = none

abbrev pub read_direction : Value → Option Direction
read_direction (str t) =
    if text_eq t (codes "asc")
    then some ascending
    else if text_eq t (codes "desc")
    then some descending
    else none
read_direction _ = none

abbrev pub is_allowed : Option (List Text) → Text → Bool
is_allowed none t = true
is_allowed (some texts) t = contains texts t

-- The texts of a filter, all of them texts that are not empty, and among `allowed` if there is such a list.
unfoldable pub filter_texts : Option (List Text) → List Value → Option (List Text)
unfolding contains
filter_texts allowed [] = some []
filter_texts allowed (str t ∷ entries) =
    let rest = filter_texts allowed entries in
    if ltb 0 (length t) && is_allowed allowed t then Option.map (λ ts. t ∷ ts) rest else none
filter_texts allowed (_ ∷ entries) = none

unfoldable pub validate_string_filter :
    Value → Option (List Text) → ℕ → Result QueryError (Option (List Text))
unfolding filter_texts all_distinct
validate_string_filter undefined allowed max_items = ok none
validate_string_filter (arr vs) allowed max_items = do
  guard (leb (length (items vs)) max_items) query_invalid
  texts ← require (filter_texts allowed (items vs)) query_invalid
  guard (all_distinct texts) query_invalid
  ok (some texts)
validate_string_filter _ allowed max_items = err query_invalid

-- An absent flag or a Boolean.
abbrev pub read_flag : Value → Result QueryError (Option Bool)
read_flag undefined = ok none
read_flag (bool b) = ok (some b)
read_flag _ = err query_invalid

pub record Filters : Type 0 where
  pub source_kinds : Option (List Text)
  pub categories : Option (List Text)
  pub execution_modes : Option (List Text)
  pub read_only : Option Bool
  pub idempotent : Option Bool

unfoldable pub read_filters : Value → Result QueryError Filters
unfolding validate_string_filter has_key get
read_filters filters = do
  guard (is_object filters) query_invalid
  guard
      (all
        (λ key.
          has_key key
            ("sourceKinds" ∷ "categories" ∷ "executionModes" ∷ "readOnly" ∷ "idempotent" ∷ []))
        (own_keys filters))
      query_invalid
  source_kinds ←
      validate_string_filter (get "sourceKinds" filters)
        (some (codes "builtin" ∷ codes "plugin" ∷ codes "local" ∷ [])) 3
  categories ← validate_string_filter (get "categories" filters) none 32
  execution_modes ←
      validate_string_filter (get "executionModes" filters)
        (some (codes "pure" ∷ codes "host" ∷ codes "worker" ∷ codes "ui-only" ∷ [])) 4
  read_only ← read_flag (get "readOnly" filters)
  idempotent ← read_flag (get "idempotent" filters)
  ok (record {
    source_kinds = source_kinds;
    categories = categories;
    execution_modes = execution_modes;
    read_only = read_only;
    idempotent = idempotent;
  })

pub record Search : Type 0 where
  pub text : Text
  pub tokens : List Text
  pub sort : Sort
  pub direction : Direction
  pub limit : ℕ
  pub filters : Filters

-- The text that is searched for, before it is normalized.
abbrev pub read_search_text : Value → Option Text
read_search_text undefined = some []
read_search_text (str t) = some (trim t)
read_search_text _ = none

abbrev pub default_sort : Text → Value
default_sort [] = str (codes "actionId")
default_sort (c ∷ t) = str (codes "relevance")

abbrev pub default_direction : Sort → Value
default_direction by_relevance = str (codes "desc")
default_direction _ = str (codes "asc")

unfoldable pub read_search : (Text → Text) → Value → Result QueryError Search
unfolding has_key get words nat_in read_filters
read_search normalize options = do
  guard (is_object options) query_invalid
  guard
      (all
        (λ key. has_key key ("query" ∷ "filters" ∷ "sort" ∷ "direction" ∷ "limit" ∷ "cursor" ∷ []))
        (own_keys options))
      query_invalid
  raw ← require (read_search_text (get "query" options)) query_invalid
  let text = if is_undefined (get "query" options) then [] else normalize raw
  guard (leb (length text) 512 && not (any (λ c. c == 0) text)) query_invalid
  let tokens = words text
  guard (leb (length tokens) 32) query_invalid
  sort ← require (read_sort (or_else (get "sort" options) (default_sort text))) query_invalid
  direction ←
      require (read_direction (or_else (get "direction" options) (default_direction sort)))
        query_invalid
  limit ← require (nat_in 1 100 (or_else (get "limit" options) (int (pos 50)))) query_invalid
  filters ← read_filters (or_else (get "filters" options) (obj end))
  ok (record {
    text = text;
    tokens = tokens;
    sort = sort;
    direction = direction;
    limit = limit;
    filters = filters;
  })

-- `/^v1:(?:0|[1-9]\d*)$/`, and a safe integer.
unfoldable pub is_plain_number : Text → Bool
is_plain_number [] = false
is_plain_number (c ∷ t) =
    (c == b'0' && ltb (length t) 1) || (leb b'1' c && leb c b'9' && all is_digit t)

unfoldable pub read_offset : Text → Result QueryError ℕ
unfolding is_plain_number number_from
read_offset digits = do
  guard (is_plain_number digits) query_invalid
  guard (ltb (number_from 0 digits) (2 ^ 53)) query_invalid
  ok (number_from 0 digits)

unfoldable pub read_cursor : Value → Result QueryError ℕ
unfolding read_offset starts_with
read_cursor undefined = ok 0
read_cursor (str t) = guard (starts_with t (codes "v1:")) query_invalid >> read_offset (drop 3 t)
read_cursor _ = err query_invalid
