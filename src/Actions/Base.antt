-- ===== src/Actions/Base.antt =====
-- packages/action-runtime/src: the error codes of semantics.mjs, and the check of a handler's input
-- in utility-actions.mjs.
use useful.Common.{◌&&◌, List, ◌++◌, all, Result, ◌>>◌, guard, String}
use useful.Js.Value.{Value, is_object, own_keys, has_key}

-- The codes of `ERROR_CODES`.
pub data Code : Type 0 where
  unknown_action descriptor_invalid input_invalid output_invalid input_too_large : Code
  output_too_large not_headless permission_denied confirmation_required cancelled timeout : Code
  action_failed : Code

-- `assertExactObject(input, required, optional)`.
unfoldable pub assert_exact_object : Value → List String → List String → Result Code (Unit {0})
unfolding has_key
assert_exact_object input required optional =
    guard (is_object input) input_invalid
    >> guard
        (all (λ key. has_key key (own_keys input)) required
          && all (λ key. has_key key (required ++ optional)) (own_keys input))
        input_invalid
