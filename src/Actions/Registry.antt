-- ===== src/Actions/Registry.antt =====
-- packages/action-runtime/src/registry.mjs: `ActionRegistry`.
pub mod Names
pub mod Refines
use useful.Common.{
  ℕ, Bool, true, false, not, ◌&&◌, ◌||◌, List, [], ◌∷◌, ◌++◌, map, Option, none, some, Text, any,
  text_eq, if◌then◌else◌, Result, ok, ◌>>=◌, ◌>>◌, guard, all_distinct,
}
use useful.Js.Value.{Value}
use useful.Actions.Order.{compare_code_points, sort_by}

pub data Mode : Type 0 where
  pure host worker ui_only : Mode

-- A descriptor that `assertActionDescriptor` has let through.
pub record Descriptor : Type 0 where
  pub action_id : Text
  pub aliases : List Text
  pub version : Text
  pub title : Text
  pub description : Text
  pub keywords : List Text
  pub category : Option Text
  pub contract_version : Text
  pub source_kind : Text
  pub tool_id : Text
  pub publisher_id : Text
  pub publisher_name : Value
  pub digest : Text
  pub mode : Mode
  pub timeout_ms : ℕ
  pub max_input_bytes : ℕ
  pub max_output_bytes : ℕ
  pub read_only : Bool
  pub destructive : Bool
  pub idempotent : Bool
  pub open_world : Bool
  pub requires_confirmation : Bool
  pub side_effects : List Text
  pub required : List Text
  pub capabilities : List Text
  pub input_schema : Value
  pub output_schema : Value

abbrev pub is_ui_only : Mode → Bool
is_ui_only ui_only = true
is_ui_only _ = false

pub data RegistryError : Type 0 where
  name_collision handler_missing handler_forbidden : RegistryError

abbrev pub names_of : Descriptor → List Text
names_of descriptor = descriptor.action_id ∷ descriptor.aliases

abbrev pub is_some {ℓ} : {A : Type ℓ} → Option A → Bool
is_some none = false
is_some (some a) = true

-- `array.filter(test)`.
abbrev pub keep : (Descriptor → Bool) → List Descriptor → List Descriptor
keep p [] = []
keep p (d ∷ ds) = if p d then d ∷ keep p ds else keep p ds

-- What is registered to be called is a parameter, `H`.
pub record Entry (H : Type 0) : Type 0 where
  pub descriptor : Descriptor
  pub handler : Option H

-- `entries` is in the order of registration; `names` has each name with its entry.
pub record Registry (H : Type 0) : Type 0 where
  pub entries : List (Entry H)
  pub names : List (Text × Entry H)
  pub by_registration : Bool

module _ {H : Type 0} where
  unfoldable pub find : Text → List (Text × Entry H) → Option (Entry H)
  unfolding text_eq
  find name [] = none
  find name ((known, entry) ∷ names) = if text_eq known name then some entry else find name names

  unfoldable pub add_names : List Text → Entry H → List (Text × Entry H) → List (Text × Entry H)
  add_names [] entry known = known
  add_names (name ∷ names) entry known = (name, entry) ∷ add_names names entry known

  unfoldable pub resolve : Registry H → Text → Option (Entry H)
  unfolding find
  resolve registry action_id = find action_id registry.names

  unfoldable pub describe : Registry H → Text → Option Descriptor
  unfolding resolve
  describe registry action_id = elim (resolve registry action_id) [
    | none ↦ none
    | some entry ↦ some entry.descriptor
  ]

  unfoldable pub register : Registry H → Entry H → Result RegistryError (Registry H)
  register registry entry = do
    let names = names_of entry.descriptor
    guard (all_distinct names) name_collision
    guard (not (any (λ name. is_some (find name registry.names)) names)) name_collision
    guard (is_ui_only entry.descriptor.mode || is_some entry.handler) handler_missing
    guard (not (is_ui_only entry.descriptor.mode && is_some entry.handler)) handler_forbidden
    ok (record registry {
      entries = registry.entries ++ entry ∷ [];
      names = add_names names entry registry.names;
    })

  -- The registrations of the constructor.
  unfoldable pub register_all : Registry H → List (Entry H) → Result RegistryError (Registry H)
  unfolding register
  register_all registry [] = ok registry
  register_all registry (entry ∷ entries) =
      register registry entry >>= λ registered. register_all registered entries

  unfoldable pub list : Registry H → List Descriptor
  unfolding sort_by compare_code_points
  list registry =
      let descriptors = map (λ (entry : Entry H). entry.descriptor) registry.entries in
      if registry.by_registration
      then descriptors
      else sort_by (λ left right. compare_code_points left.action_id right.action_id) descriptors

  unfoldable pub list_agent_eligible : Registry H → List Descriptor
  unfolding list
  list_agent_eligible registry =
      keep (λ descriptor. not (is_ui_only descriptor.mode)) (list registry)
