-- ===== src/Actions/Descriptor/Tests.antt =====
-- The descriptor of a sample action.
use useful.Actions.Descriptor.Validate.{
  validate_action_descriptor, descriptor_issues, bad_flags, behavior_issues, execution_issues,
  permission_issues, pointer_issues, presentation_issues, sensitive_issues, test_issues,
  vector_issues,
}
use useful.Actions.Descriptor.{
  require_keys, missing_from, join, identity_issues, is_reserved_action_name, reserved_names,
  is_version_tail, flag_each, is_builtin_name, is_json_pointer, is_outside, namespace_issues,
  source_issues,
}
use useful.Actions.Contract.Shape.{
  unknown_keys, string_array, has_type, bad_bounds, bad_counts, bad_types, below, is_finite_number,
  is_json_type, json_types, keyword_issues, lacks_items, object_issues, own_issues, schema_keys,
  schema_shape, string_entries,
}
use useful.Actions.Recipe.{is_action_id, is_action_tail}
use useful.Actions.Query.Words.{starts_with}
use useful.Actions.Recipe.Pointer.{is_segment}
use useful.ComputerUse.Address.V4.{prepend, split}
use useful.ComputerUse.Base.{is_sha256}
use useful.Js.Json.{is_finite, key_units}
use useful.Js.Show.{show_from, show_nat}
use useful.Js.Value.{
  Value, int, pos, bool, str, arr, obj, nil, cons, end, field, lookup, get, has_key, nat_in,
}
use useful.Common.{true, false, [], none, some, codes, String, ◌≡◌, refl, contains, text_eq}
use useful.Actions.Samples.{text_schema, text_value}
use useful.Actions.Descriptor.Sound.{IsDescriptor, validate_action_descriptor-IsDescriptor}

abbrev text : String → Value
text s = str (codes s)

abbrev source : Value
source = obj (
    field "kind" (text "local") (
      field "toolId" (text "sample") (
        field "publisher" (obj (field "id" (text "me") end)) (
          field "digest" (text "0123456789abcdef0123456789abcdef0123456789abcdef0123456789abcdef")
            end))))

abbrev vector : Value
vector =
    obj
      (field "name" (text "hi") (field "input" text_value (field "expectedOutput" text_value end)))

abbrev execution : Value
execution = obj (
    field "mode" (text "pure") (
      field "handler" (text "echo") (
        field "timeoutMs" (int (pos 1000)) (
          field "maxInputBytes" (int (pos 1000)) (
            field "maxOutputBytes" (int (pos 1000))
              (field "supportsCancellation" (bool true) end))))))

abbrev behavior : Value
behavior = obj (
    field "readOnly" (bool true) (
      field "destructive" (bool false) (
        field "idempotent" (bool true) (
          field "openWorld" (bool false)
            (field "sideEffects" (arr nil) (field "requiresConfirmation" (bool false) end))))))

abbrev permissions : Value
permissions = obj (field "required" (arr nil) (field "capabilities" (arr nil) end))

abbrev sensitive : Value
sensitive = obj (
    field "input" (arr (cons (text "/text") nil))
      (field "output" (arr nil) (field "redactLogs" (bool true) end)))

abbrev descriptor : Value
descriptor = obj (
    field "contractVersion" (text "1.0") (
      field "actionId" (text "sample.echo") (
        field "version" (text "1.0.0-rc.1") (
          field "source" source (
            field "title" (text "Echo") (
              field "description" (text "Echoes") (
                field "keywords" (arr nil) (
                  field "aliases" (arr (cons (text "echo") nil)) (
                    field "inputSchema" text_schema (
                      field "outputSchema" text_schema (
                        field "examples" (arr nil) (
                          field "testVectors" (arr (cons vector nil)) (
                            field "execution" execution (
                              field "behavior" behavior (
                                field "permissions" permissions
                                  (field "sensitive" sensitive end))))))))))))))))

accepted : validate_action_descriptor descriptor ≡ some []
unfolding validate_action_descriptor descriptor_issues require_keys missing_from unknown_keys join
    identity_issues is_action_id is_reserved_action_name reserved_names is_version_tail string_array
    has_type flag_each bad_bounds bad_counts bad_types below is_finite_number is_json_type
    json_types keyword_issues lacks_items object_issues own_issues schema_keys schema_shape
    string_entries bad_flags behavior_issues execution_issues permission_issues pointer_issues
    presentation_issues sensitive_issues test_issues vector_issues is_builtin_name is_json_pointer
    is_outside namespace_issues source_issues starts_with is_segment is_action_tail prepend split
    is_sha256 is_finite key_units show_from show_nat lookup get has_key nat_in contains text_eq
accepted = refl

validate_action_descriptor-IsDescriptor_example : IsDescriptor descriptor
validate_action_descriptor-IsDescriptor_example =
    validate_action_descriptor-IsDescriptor descriptor accepted

-- Aliases that are one text have no `forEach`.
throws : validate_action_descriptor (obj (field "aliases" (text "echo") end)) ≡ none
unfolding validate_action_descriptor get lookup
throws = refl
