-- ===== src/Actions/Receipt.antt =====
-- packages/action-contract/src/receipt.mjs: `validateExecutionReceipt` on the receipts that the executor makes.
use useful.Common.{
  ℕ, Bool, true, false, not, ◌&&◌, ◌||◌, List, [], ◌∷◌, Option, none, some, Text, codes, length,
  all, text_eq, leb, ◌==◌, all_distinct, is_lower, is_upper,
}
use useful.Js.Value.{Value, undefined, str}
use useful.ComputerUse.Base.{is_sha256}
use useful.Actions.Base.{Code, cancelled}
use useful.Actions.Registry.{Descriptor}
use useful.Actions.Recipe.{is_action_id}
use useful.Actions.Descriptor.{is_version}

pub data Status : Type 0 where
  success error cancelled_status : Status

-- The times are the clock's, in the form and the order that the checks want, and left out. `publisher_name` is
-- `undefined` where the publisher has none.
pub record Receipt : Type 0 where
  pub action_id : Text
  pub action_version : Text
  pub contract_version : Text
  pub source_kind : Text
  pub tool_id : Text
  pub publisher_id : Text
  pub publisher_name : Value
  pub digest : Text
  pub required : List Text
  pub capabilities : List Text
  pub status : Status
  pub error_code : Option Code

-- `/^(?:\/|\\\\|[A-Za-z]:[\\/])/`.
unfoldable pub is_absolute : Text → Bool
is_absolute [] = false
is_absolute (c ∷ []) = c == b'/'
is_absolute (c ∷ d ∷ []) = c == b'/' || (c == b'\\' && d == b'\\')
is_absolute (c ∷ d ∷ e ∷ t) =
    c == b'/'
    || ((c == b'\\' && d == b'\\')
        || ((is_lower c || is_upper c) && (d == b':' && (e == b'\\' || e == b'/'))))

-- `boundedString` finds nothing in a text.
unfoldable pub is_bounded : ℕ → Text → Bool
is_bounded maximum t = leb 1 (length t) && (leb (length t) maximum && not (is_absolute t))

unfoldable pub is_publisher_name : Value → Bool
is_publisher_name undefined = true
is_publisher_name (str t) = is_bounded 256 t
is_publisher_name _ = false

unfoldable pub is_string_set : List Text → Bool
is_string_set texts = leb (length texts) 128 && (all (is_bounded 256) texts && all_distinct texts)

unfoldable pub is_source : Receipt → Bool
is_source r =
    (text_eq r.source_kind (codes "builtin")
      || (text_eq r.source_kind (codes "plugin") || text_eq r.source_kind (codes "local")))
    && (is_bounded 256 r.tool_id
        && (is_bounded 64 r.digest
            && (is_sha256 r.digest
                && (is_bounded 256 r.publisher_id && is_publisher_name r.publisher_name))))

-- The parts that come from the descriptor.
unfoldable pub has_valid_parts : Receipt → Bool
has_valid_parts r =
    is_bounded 200 r.action_id
    && (is_action_id r.action_id
        && (is_bounded 128 r.action_version
            && (is_version r.action_version
                && (is_bounded 32 r.contract_version
                    && (is_source r
                        && (is_string_set r.required && is_string_set r.capabilities))))))

abbrev pub is_cancelled : Code → Bool
is_cancelled cancelled = true
is_cancelled _ = false

-- The status and the error of a receipt of a call that has ended. The codes are those of `ERROR_CODES`, which
-- have the form of a code.
unfoldable pub status_fits : Status → Option Code → Bool
status_fits success none = true
status_fits success (some code) = false
status_fits error none = false
status_fits error (some code) = not (is_cancelled code)
status_fits cancelled_status none = false
status_fits cancelled_status (some code) = is_cancelled code

-- `validateExecutionReceipt` finds nothing.
unfoldable pub is_valid_receipt : Receipt → Bool
is_valid_receipt r = has_valid_parts r && status_fits r.status r.error_code

-- The receipt that `makeReceipt` puts together.
unfoldable pub receipt_of : Descriptor → Status → Option Code → Receipt
receipt_of descriptor status error_code = record {
  action_id = descriptor.action_id;
  action_version = descriptor.version;
  contract_version = descriptor.contract_version;
  source_kind = descriptor.source_kind;
  tool_id = descriptor.tool_id;
  publisher_id = descriptor.publisher_id;
  publisher_name = descriptor.publisher_name;
  digest = descriptor.digest;
  required = descriptor.required;
  capabilities = descriptor.capabilities;
  status = status;
  error_code = error_code;
}
