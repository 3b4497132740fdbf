-- ===== src/Actions/Executor/Tests.antt =====
-- Calls of a sample action.
use useful.Common.{◌++◌, replicate, false, [], ◌∷◌, none, some, codes, contains, ok, err, ◌≡◌, refl}
use useful.Js.Value.{lookup, has_key}
use useful.Js.Json.{is_finite}
use useful.Actions.Base.{timeout}
use useful.Actions.Samples.{action, text_value, no_less}
use useful.Actions.Contract.{utf8_json_bytes, validate_value}
use useful.Actions.Contract.Shape.{json_types}
use useful.Actions.Registry.{Descriptor}
use useful.ComputerUse.Base.{is_sha256}
use useful.Actions.Recipe.{is_action_id}
use useful.Actions.Descriptor.{is_version_tail}
use useful.Actions.Receipt.{
  success, error, receipt_of, is_valid_receipt, has_valid_parts, is_source, is_bounded, is_absolute,
  is_publisher_name, is_string_set, status_fits,
}
use useful.Actions.Executor.{
  Thrown, action_failure, receipt_invalid, returned, timer, make_receipt, Success, fail_with,
  Options, Handler, admit, check_input, execute_entry, call, check_value, finish_if_settled,
  guarded_call, finish, check_output, map_cause,
}
use useful.Actions.Executor.Guards.{IsSound, execute_entry-IsSound}
use useful.Actions.Executor.Failures.{IsReported, execute_entry-IsReported}

abbrev sample : Descriptor
sample = action (codes "a.x") []

abbrev echo : Handler
echo input = returned input ∷ timer ∷ []

abbrev slow : Handler
slow input = timer ∷ returned input ∷ []

abbrev options : Options
options = record {
  confirmed = false;
  granted_permissions = [];
  granted_capabilities = [];
  aborted = false;
}

abbrev done : Success
done = record { output = text_value; receipt = receipt_of sample success none }

returns :
    execute_entry no_less (record { descriptor = sample; handler = some echo }) text_value options
    ≡ some (ok done)
unfolding execute_entry validate_value json_types contains has_key lookup is_finite utf8_json_bytes
    call admit check_input check_value finish_if_settled guarded_call finish check_output
    make_receipt is_valid_receipt has_valid_parts is_bounded receipt_of is_absolute is_action_id
    is_version_tail is_source is_sha256 is_publisher_name is_string_set status_fits
returns = refl

execute_entry-IsSound_example : IsSound no_less sample text_value options done
execute_entry-IsSound_example =
    execute_entry-IsSound no_less (record { descriptor = sample; handler = some echo }) text_value
      options done returns

abbrev timed_out : Thrown
timed_out = action_failure (record {
  code = timeout;
  issues = [];
  receipt = some (receipt_of sample error (some timeout));
})

runs_out :
    execute_entry no_less (record { descriptor = sample; handler = some slow }) text_value options
    ≡ some (err timed_out)
unfolding execute_entry validate_value json_types contains has_key lookup is_finite utf8_json_bytes
    call admit check_input check_value finish_if_settled guarded_call finish map_cause fail_with
    make_receipt is_valid_receipt has_valid_parts is_bounded receipt_of is_absolute is_action_id
    is_version_tail is_source is_sha256 is_publisher_name is_string_set status_fits
runs_out = refl

execute_entry-IsReported_example : IsReported sample timed_out
execute_entry-IsReported_example =
    execute_entry-IsReported sample no_less (some slow) text_value options timed_out runs_out

-- An action whose identifier is longer than a receipt may hold: every call of it ends with the receipt's error.
abbrev long_sample : Descriptor
long_sample = action (codes "a." ++ replicate 200 b'x') []

unreported :
    execute_entry no_less
      (record { descriptor = long_sample; handler = some echo })
      text_value
      options
    ≡ some (err receipt_invalid)
unfolding execute_entry validate_value json_types contains has_key lookup is_finite utf8_json_bytes
    call admit check_input check_value finish_if_settled guarded_call finish check_output
    make_receipt is_valid_receipt has_valid_parts is_bounded receipt_of is_absolute is_action_id
    is_version_tail is_source is_sha256 is_publisher_name is_string_set status_fits
unreported = refl
