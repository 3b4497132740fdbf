-- ===== src/Actions/Samples.antt =====
-- A sample action, which takes a text, for the examples.
use useful.Common.{Bool, true, false, List, [], none, Text, codes}
use useful.Js.Value.{Value, undefined, bool, str, obj, end, field}
use useful.Actions.Registry.{Descriptor, pure}

-- `{ type: "object", properties: { text: { type: "string" } }, additionalProperties: false }`.
abbrev pub text_schema : Value
text_schema = obj (
    field "type" (str (codes "object")) (
      field "properties" (obj (field "text" (obj (field "type" (str (codes "string")) end)) end))
        (field "additionalProperties" (bool false) end)))

abbrev pub text_value : Value
text_value = obj (field "text" (str (codes "hi")) end)

abbrev pub no_less : Value → Value → Bool
no_less a b = false

abbrev pub action : Text → List Text → Descriptor
action action_id aliases = record {
  action_id = action_id;
  aliases = aliases;
  version = codes "1.0.0";
  title = action_id;
  description = action_id;
  keywords = [];
  category = none;
  contract_version = codes "1.0";
  source_kind = codes "local";
  tool_id = codes "sample";
  publisher_id = codes "me";
  publisher_name = undefined;
  digest = codes "0123456789abcdef0123456789abcdef0123456789abcdef0123456789abcdef";
  mode = pure;
  timeout_ms = 1000;
  max_input_bytes = 1000;
  max_output_bytes = 1000;
  read_only = true;
  destructive = false;
  idempotent = true;
  open_world = false;
  requires_confirmation = false;
  side_effects = [];
  required = [];
  capabilities = [];
  input_schema = text_schema;
  output_schema = text_schema;
}
