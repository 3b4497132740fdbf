-- ===== src/Actions/Descriptor/Sound.antt =====
-- What a descriptor is in which `validateActionDescriptor` finds nothing.
use useful.Common.{
  ℕ, ◌≤◌, Bool, true, false, not, ◌&&◌, List, [], ◌∷◌, some, Text, codes, All, String, ◌≡◌, refl,
  ap, arith, inl, inr, Bool-cases, Option-cases,
}
use useful.Js.Value.{
  Value, undefined, null, bool, int, number, str, arr, obj, buffer, function, pos, negsuc, nil,
  cons, get, is_object, own_keys, is_undefined, is_bool, is_text, nat_in,
}
use useful.Js.Json.{key_units}
use useful.Actions.Contract.Shape.{Issues, issue_if, below, string_array, unknown_keys}
use useful.Actions.Contract.Schemas.{IsGood, none_left, none_right, no_issue}
use useful.Actions.Contract.Closed.{Part, IsClosed, Part-IsClosed}
use useful.Actions.Recipe.{is_action_id}
use useful.Actions.Descriptor.{
  join, require_keys, missing_from, is_text_with, is_reserved_action_name, is_filled, is_truthy,
  has_length, alias_entries, identity_issues, source_issues, namespace_issues, is_builtin_name,
}
use useful.Actions.Descriptor.Validate.{
  bad_flags, is_limit, execution_issues, behavior_issues, permission_issues, descriptor_issues,
  validate_action_descriptor,
}

join-none : (found : List Issues) → join found ≡ [] → All (λ i. i ≡ []) found
unfolding join
join-none [] h = tt
join-none (issues ∷ rest) h =
    (none_left issues (join rest) h, join-none rest (none_right issues (join rest) h))

require_keys-none :
    (value : Value) (required allowed : List String) (path : Text) (behind : Issues)
    → require_keys value required allowed path behind ≡ []
    → behind ≡ []
unfolding require_keys
require_keys-none value required allowed path behind h = elim (Bool-cases (is_object value)) [
  | inl object ↦
      none_right (unknown_keys allowed (own_keys value) path) behind
        (none_right (missing_from required value path) _ (rw object at h))
  | inr other ↦ let h' = rw other at h in cc
]

checked :
    (value : Value) (required allowed : List String) (path : Text) (found : List Issues)
    → require_keys value required allowed path (join found) ≡ []
    → All (λ i. i ≡ []) found
checked value required allowed path found h =
    join-none found (require_keys-none value required allowed path (join found) h)

was_true : (b : Bool) (path : Text) → issue_if (not b) path ≡ [] → b ≡ true
was_true true path h = refl
was_true false path h = cc

flag_false : (v : Value) → is_bool v ≡ true → is_truthy v ≡ false → v ≡ bool false
flag_false (bool b) h k = ap bool k
flag_false undefined h k = cc
flag_false null h k = cc
flag_false (int n) h k = cc
flag_false (number t) h k = cc
flag_false (str t) h k = cc
flag_false (arr vs) h k = cc
flag_false (obj fs) h k = cc
flag_false (buffer n) h k = cc
flag_false (function f) h k = cc

flag_true : (v : Value) → is_bool v ≡ true → is_truthy v ≡ true → v ≡ bool true
flag_true (bool b) h k = ap bool k
flag_true undefined h k = cc
flag_true null h k = cc
flag_true (int n) h k = cc
flag_true (number t) h k = cc
flag_true (str t) h k = cc
flag_true (arr vs) h k = cc
flag_true (obj fs) h k = cc
flag_true (buffer n) h k = cc
flag_true (function f) h k = cc

empty_array :
    (v : Value) (path : Text) (maximum : ℕ)
    → string_array v path maximum false ≡ []
    → has_length v ≡ false
    → v ≡ arr nil
unfolding string_array
empty_array (arr nil) path maximum h k = refl
empty_array (arr (cons v vs)) path maximum h k = ground arith
empty_array undefined path maximum h k = cc
empty_array null path maximum h k = cc
empty_array (bool b) path maximum h k = cc
empty_array (int n) path maximum h k = cc
empty_array (number t) path maximum h k = cc
empty_array (str t) path maximum h k = cc
empty_array (obj fs) path maximum h k = cc
empty_array (buffer n) path maximum h k = cc
empty_array (function f) path maximum h k = cc

-- A limit of the execution.
abbrev pub IsLimit : ℕ → Value → Type 0
IsLimit maximum v = (n : ℕ) × (v ≡ int (pos n)) × (1 ≤ n) × (n ≤ maximum)

is_limit-IsLimit : (maximum : ℕ) (v : Value) → is_limit maximum v ≡ true → IsLimit maximum v
unfolding nat_in
is_limit-IsLimit maximum (int (pos n)) h = (n, refl, ground arith, ground arith)
is_limit-IsLimit maximum (int (negsuc n)) h = cc
is_limit-IsLimit maximum undefined h = cc
is_limit-IsLimit maximum null h = cc
is_limit-IsLimit maximum (bool b) h = cc
is_limit-IsLimit maximum (number t) h = cc
is_limit-IsLimit maximum (str t) h = cc
is_limit-IsLimit maximum (arr vs) h = cc
is_limit-IsLimit maximum (obj fs) h = cc
is_limit-IsLimit maximum (buffer n) h = cc
is_limit-IsLimit maximum (function f) h = cc

-- How an action is executed: its limits, and a handler just if it is not for the interface only.
pub record IsExecution (execution : Value) : Type 0 where
  pub timeout : IsLimit 3600000 (get "timeoutMs" execution)
  pub input_bytes : IsLimit 16777216 (get "maxInputBytes" execution)
  pub output_bytes : IsLimit 16777216 (get "maxOutputBytes" execution)
  pub handled : is_undefined (get "handler" execution) ≡ is_text "ui-only" (get "mode" execution)

handler_iff :
    (only : Bool) (handler : Value) (path : Text)
    → issue_if (only && not (is_undefined handler)) path ≡ []
    → issue_if (not only && not (is_filled handler)) path ≡ []
    → is_undefined handler ≡ only
handler_iff true undefined path h k = refl
handler_iff false undefined path h k = cc
handler_iff true (str t) path h k = cc
handler_iff false (str t) path h k = refl
handler_iff true v path h k = let same = no_issue (not (is_undefined v)) path h in ground arith
handler_iff false v path h k = ground arith

execution_issues-IsExecution :
    (execution : Value) → execution_issues execution ≡ [] → IsExecution execution
unfolding execution_issues
execution_issues-IsExecution execution h =
    let (mode, (only, (headless, (timeout, (input, (output, cancel)))))) =
      checked execution _ _ _ _ h in
    record {
      timeout = is_limit-IsLimit 3600000 _ (was_true _ _ timeout);
      input_bytes = is_limit-IsLimit 16777216 _ (was_true _ _ input);
      output_bytes = is_limit-IsLimit 16777216 _ (was_true _ _ output);
      handled = handler_iff _ _ _ only headless;
    }

-- What an action does, and what it asks for: a destructive one is confirmed, and a pure one (`pure`) has no
-- effects and asks for nothing.
pub record IsBehavior (pure : Bool) (behavior : Value) : Type 0 where
  pub confirmed :
      get "destructive" behavior ≡ bool true → get "requiresConfirmation" behavior ≡ bool true
  pub harmless : pure ≡ true → get "destructive" behavior ≡ bool false
  pub confined : pure ≡ true → get "openWorld" behavior ≡ bool false
  pub effectless : pure ≡ true → get "sideEffects" behavior ≡ arr nil

bad_flags-none :
    (behavior : Value) (ks : List String)
    → bad_flags ks behavior ≡ []
    → All (λ k. is_bool (get k behavior) ≡ true) ks
unfolding bad_flags
bad_flags-none behavior [] h = tt
bad_flags-none behavior (k ∷ ks) h = (
  was_true (is_bool (get k behavior)) (below (codes "/behavior") (key_units k))
      (none_left _ (bad_flags ks behavior) h),
  bad_flags-none behavior ks (
      none_right
        (issue_if (not (is_bool (get k behavior))) (below (codes "/behavior") (key_units k)))
        (bad_flags ks behavior) h),
)

behavior_issues-IsBehavior :
    (pure : Bool) (behavior : Value) → behavior_issues pure behavior ≡ [] → IsBehavior pure behavior
unfolding behavior_issues
behavior_issues-IsBehavior pure behavior h =
    let (flags, (effects, (destructive, (impure, last)))) = checked behavior _ _ _ _ h in
    let (reads, (is_destructive, (repeats, (is_open, (asks, none_else))))) =
      bad_flags-none behavior _ flags in
    let guarded = no_issue _ _ destructive in
    let mild = no_issue _ _ impure in
    record {
      confirmed = λ d. flag_true _ asks (let t = ap is_truthy d in ground arith);
      harmless = λ p. flag_false _ is_destructive (ground arith);
      confined = λ p. flag_false _ is_open (ground arith);
      effectless = λ p. empty_array _ _ _ effects (ground arith);
    }

-- What a pure action asks for.
pub record IsPermissions (pure : Bool) (permissions : Value) : Type 0 where
  pub required : pure ≡ true → get "required" permissions ≡ arr nil
  pub capabilities : pure ≡ true → get "capabilities" permissions ≡ arr nil

permission_issues-IsPermissions :
    (pure : Bool) (permissions : Value)
    → permission_issues pure permissions ≡ []
    → IsPermissions pure permissions
unfolding permission_issues
permission_issues-IsPermissions pure permissions h =
    let (required, (capabilities, (impure, last))) = checked permissions _ _ _ _ h in
    let mild = no_issue _ _ impure in
    record {
      required = λ p. empty_array _ _ _ required (ground arith);
      capabilities = λ p. empty_array _ _ _ capabilities (ground arith);
    }

-- The names below `builtin` are those of the builtin sources.
namespace_issues-builtin :
    (action_id source : Value) (aliases : List Value)
    → namespace_issues action_id source aliases ≡ []
    → is_builtin_name action_id ≡ is_text "builtin" (get "kind" source)
unfolding namespace_issues
namespace_issues-builtin action_id source aliases h =
    elim (Bool-cases (is_text "builtin" (get "kind" source))) [
      | inl builtin ↦
          let (own, (tool, last)) = join-none _ (rw builtin at h) in rw builtin (was_true _ _ own)
      | inr other ↦
          let (own, (tool, (others, (outside, last)))) = join-none _ (rw other at h) in
          rw other (no_issue _ _ own)
    ]

source_issues-builtin :
    (action_id source : Value) (aliases : List Value)
    → source_issues action_id source aliases ≡ []
    → is_builtin_name action_id ≡ is_text "builtin" (get "kind" source)
unfolding source_issues
source_issues-builtin action_id source aliases h =
    let (kind, (tool, (digest, (publisher, (names, last))))) = checked source _ _ _ _ h in
    namespace_issues-builtin action_id source aliases names

-- What an accepted descriptor promises.
pub record IsDescriptor (value : Value) : Type 0 where
  pub named : is_text_with is_action_id (get "actionId" value) ≡ true
  pub unreserved : is_reserved_action_name (get "actionId" value) ≡ false
  pub builtin :
      is_builtin_name (get "actionId" value) ≡ is_text "builtin" (get "kind" (get "source" value))
  pub input_schema : (part : Value) → Part (get "inputSchema" value) part → IsClosed part
  pub output_schema : (part : Value) → Part (get "outputSchema" value) part → IsClosed part
  pub execution : IsExecution (get "execution" value)
  pub behavior :
      IsBehavior (is_text "pure" (get "mode" (get "execution" value))) (get "behavior" value)
  pub permissions :
      IsPermissions (is_text "pure" (get "mode" (get "execution" value))) (get "permissions" value)

descriptor_issues-IsDescriptor :
    (value : Value) (aliases : List Value)
    → descriptor_issues value aliases ≡ []
    → IsDescriptor value
unfolding descriptor_issues identity_issues IsGood
descriptor_issues-IsDescriptor value aliases h =
    let (
      identity,
      (source, (input, (output, (vectors, (execution, (behavior, (permissions, last))))))),
    ) =
      checked value _ _ _ _ h in
    let (version, (named, (unreserved, rest))) = join-none _ identity in
    record {
      named = was_true _ _ named;
      unreserved = no_issue _ _ unreserved;
      builtin = source_issues-builtin (get "actionId" value) (get "source" value) aliases source;
      input_schema = Part-IsClosed _ (codes "/inputSchema", input);
      output_schema = Part-IsClosed _ (codes "/outputSchema", output);
      execution = execution_issues-IsExecution (get "execution" value) execution;
      behavior = behavior_issues-IsBehavior _ (get "behavior" value) behavior;
      permissions = permission_issues-IsPermissions _ (get "permissions" value) permissions;
    }

-- A descriptor in which no fault is found has an identifier of the right form, which is not reserved and is below
-- `builtin` just if the source is builtin; schemas each part of which, down to the last property and element, has
-- a type, names types of JSON only, and, where an object may stand, lists its properties and admits no other, and,
-- where an array may stand, has a schema for its elements; limits of execution within their
-- maxima; a handler just if it is not for the interface only; a confirmation if it is destructive; and, if it is
-- pure, no effects, no open world, and neither permissions nor capabilities.
pub validate_action_descriptor-IsDescriptor :
    (value : Value) → validate_action_descriptor value ≡ some [] → IsDescriptor value
unfolding validate_action_descriptor
validate_action_descriptor-IsDescriptor value h = elim (Bool-cases (is_object value)) [
  | inr other ↦ let h' = rw other at h in cc
  | inl object ↦ elim (Option-cases (alias_entries (get "aliases" value))) [
    | inl missing ↦ let h' = rw (object, missing) at h in cc
    | inr (aliases, found) ↦
        let h' = rw (object, found) at h in
        descriptor_issues-IsDescriptor value aliases
          (let same : descriptor_issues value aliases ≡ [] = cc in same)
  ]
]
