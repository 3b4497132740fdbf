-- ===== src/ComputerUse/Action.antt =====
-- `assertCoordinate` and `assertComputerUseAction`.
pub mod Ranges
pub mod Conforms
use useful.Common.{
  suc, Bool, true, false, not, ◌&&◌, ◌||◌, List, [], ◌∷◌, String, Option, none, some, Text, codes,
  length, any, all, text_eq, leb, if◌then◌else◌, Result, ok, err, ◌>>◌, guard,
}
use useful.Js.Value.{
  pos, negsuc, Value, int, str, get, is_object, is_undefined, is_text, own_values, nat_in, as_items,
  as_text,
}
use useful.ComputerUse.Base.{Code, action_invalid, assert_known_keys, is_safe_id}

pub data ActionType : Type 0 where
  screenshot click double_click drag move scroll type_text key wait : ActionType

-- `ACTION_TYPE_SET.has(action.type)`, with the type that it names.
unfoldable pub read_type : Text → Option ActionType
read_type t =
    if text_eq t (codes "screenshot")
    then some screenshot
    else if text_eq t (codes "click")
    then some click
    else if text_eq t (codes "double-click")
    then some double_click
    else if text_eq t (codes "drag")
    then some drag
    else if text_eq t (codes "move")
    then some move
    else if text_eq t (codes "scroll")
    then some scroll
    else if text_eq t (codes "type")
    then some type_text
    else if text_eq t (codes "key")
    then some key
    else if text_eq t (codes "wait")
    then some wait
    else none

unfoldable pub action_type : Value → Option ActionType
action_type action = elim (as_text (get "type" action)) [ none ↦ none | some t ↦ read_type t ]

-- `ACTION_FIELDS`.
unfoldable pub action_fields : ActionType → List String
action_fields screenshot = "type" ∷ []
action_fields click = "type" ∷ "x" ∷ "y" ∷ "button" ∷ []
action_fields double_click = "type" ∷ "x" ∷ "y" ∷ "button" ∷ []
action_fields drag = "type" ∷ "startX" ∷ "startY" ∷ "endX" ∷ "endY" ∷ "durationMs" ∷ []
action_fields move = "type" ∷ "x" ∷ "y" ∷ []
action_fields scroll = "type" ∷ "deltaX" ∷ "deltaY" ∷ "x" ∷ "y" ∷ []
action_fields type_text = "type" ∷ "text" ∷ []
action_fields key = "type" ∷ "keys" ∷ []
action_fields wait = "type" ∷ "durationMs" ∷ []

-- `HIGH_IMPACT_ACTIONS`.
unfoldable pub is_high_impact : ActionType → Bool
is_high_impact click = true
is_high_impact double_click = true
is_high_impact drag = true
is_high_impact type_text = true
is_high_impact key = true
is_high_impact _ = false

abbrev pub is_some {ℓ} : {A : Type ℓ} → Option A → Bool
is_some none = false
is_some (some a) = true

unfoldable pub is_coordinate : Value → Bool
is_coordinate v = is_some (nat_in 0 100000 v)

unfoldable pub is_duration : Value → Bool
is_duration v = is_some (nat_in 0 30000 v)

-- `Number.isInteger(value) && Math.abs(value) <= 100_000`.
unfoldable pub is_delta : Value → Bool
is_delta (int (pos n)) = leb n 100000
is_delta (int (negsuc n)) = leb (suc n) 100000
is_delta _ = false

unfoldable pub is_button : Value → Bool
is_button v = is_text "left" v || (is_text "middle" v || is_text "right" v)

unfoldable pub is_typed_text : Value → Bool
is_typed_text (str t) = leb 1 (length t) && leb (length t) 32768
is_typed_text _ = false

unfoldable pub is_key_list : Value → Bool
is_key_list v = elim (as_items v) [
  | none ↦ false
  | some keys ↦ leb 1 (length keys) && (leb (length keys) 16 && all is_safe_id keys)
]

-- A field that may be left out.
abbrev pub optional : (Value → Bool) → Value → Bool
optional test v = is_undefined v || test v

-- The `switch` on the type: every failure has the same code.
unfoldable pub fields_ok : ActionType → Value → Bool
fields_ok screenshot a = true
fields_ok click a =
    is_coordinate (get "x" a) && (is_coordinate (get "y" a) && optional is_button (get "button" a))
fields_ok double_click a =
    is_coordinate (get "x" a) && (is_coordinate (get "y" a) && optional is_button (get "button" a))
fields_ok drag a =
    is_coordinate (get "startX" a)
    && (is_coordinate (get "startY" a)
        && (is_coordinate (get "endX" a)
            && (is_coordinate (get "endY" a) && optional is_duration (get "durationMs" a))))
fields_ok move a = is_coordinate (get "x" a) && is_coordinate (get "y" a)
fields_ok scroll a =
    is_delta (get "deltaX" a)
    && (is_delta (get "deltaY" a)
        && (optional is_coordinate (get "x" a) && optional is_coordinate (get "y" a)))
fields_ok type_text a = is_typed_text (get "text" a)
fields_ok key a = is_key_list (get "keys" a)
fields_ok wait a = is_duration (get "durationMs" a)

-- The type of an accepted action.
unfoldable pub assert_action : Value → Result Code ActionType
assert_action action = elim (if is_object action then action_type action else none) [
  | none ↦ err action_invalid
  | some t ↦ do
    assert_known_keys action (action_fields t) action_invalid
    guard (not (any is_undefined (own_values action))) action_invalid
    guard (fields_ok t action) action_invalid
    ok t
]
