-- ===== src/Actions/Executor.antt =====
-- packages/action-runtime/src/executor.mjs: `guardedCall` and `execute` of `ActionExecutor`.
pub mod Guards
pub mod Failures
pub mod Tests
use useful.Common.{
  ℕ, Bool, true, false, not, ◌&&◌, List, [], ◌∷◌, Option, none, some, Text, any, contains, leb,
  if◌then◌else◌, Result, ok, err, ◌>>=◌, ◌>>◌, guard, require,
}
use useful.Js.Value.{Value}
use useful.Actions.Base.{
  Code, unknown_action, input_invalid, output_invalid, input_too_large, output_too_large,
  not_headless, permission_denied, confirmation_required, cancelled, timeout, action_failed,
}
use useful.Actions.Contract.Shape.{Issues}
use useful.Actions.Contract.{validate_value, utf8_json_bytes}
use useful.Actions.Receipt.{
  Receipt, Status, success, error, cancelled_status, receipt_of, is_valid_receipt,
}
use useful.Actions.Registry.{Descriptor, Entry, Registry, resolve, is_ui_only}

-- An error that a handler throws: the code of an `ActionExecutionError`, or the `actionCode` of another.
pub data Cause : Type 0 where
  execution_error : Code → Cause
  other_error : Option Code → Cause

-- What can settle a call: the handler's promise, the timer, and an abort by the caller's signal.
pub data Event : Type 0 where
  returned : Value → Event
  threw : Cause → Event
  timer : Event
  abort : Event

pub data Settled : Type 0 where
  resolved : Value → Settled
  rejected : Cause → Settled

-- `settle`: the first event settles the call, and the later ones find `settled` set.
unfoldable pub first_event : List Event → Option Settled
first_event [] = none
first_event (returned value ∷ events) = some (resolved value)
first_event (threw cause ∷ events) = some (rejected cause)
first_event (timer ∷ events) = some (rejected (execution_error timeout))
first_event (abort ∷ events) = some (rejected (execution_error cancelled))

-- `events` come in this order once the handler has its input; the signal is tested before that. `none`
-- is a call that has not settled yet.
unfoldable pub guarded_call : (Value → List Event) → Value → Bool → Option Settled
unfolding first_event
guarded_call handler input aborted =
    if aborted then some (rejected (execution_error cancelled)) else first_event (handler input)

-- An `ActionExecutionError`.
pub record Failure : Type 0 where
  pub code : Code
  pub issues : Issues
  pub receipt : Option Receipt

pub record Success : Type 0 where
  pub output : Value
  pub receipt : Receipt

-- What a call throws: an `ActionExecutionError`, or the `ExecutionReceiptError` of `makeReceipt`.
pub data Thrown : Type 0 where
  action_failure : Failure → Thrown
  receipt_invalid : Thrown

unfoldable pub make_receipt : Descriptor → Status → Option Code → Result Thrown Receipt
make_receipt descriptor status error_code =
    let receipt = receipt_of descriptor status error_code in
    guard (is_valid_receipt receipt) receipt_invalid >> ok receipt

abbrev pub failed_status : Code → Status
failed_status cancelled = cancelled_status
failed_status _ = error

-- What `fail` throws.
abbrev pub failure_with : Code → Issues → Result Thrown Receipt → Thrown
failure_with code issues (ok receipt) =
    action_failure (record { code = code; issues = issues; receipt = some receipt })
failure_with code issues (err thrown) = thrown

unfoldable pub fail_with : Descriptor → Code → Issues → Thrown
fail_with descriptor code issues =
    failure_with code issues (make_receipt descriptor (failed_status code) (some code))

-- The options of a call.
pub record Options : Type 0 where
  pub confirmed : Bool
  pub granted_permissions : List Text
  pub granted_capabilities : List Text
  pub aborted : Bool

abbrev pub lacks : List Text → List Text → Bool
lacks needed granted = any (λ name. not (contains granted name)) needed

-- The code for an error of the call.
unfoldable pub map_cause : Cause → Code
map_cause (execution_error timeout) = timeout
map_cause (execution_error cancelled) = cancelled
map_cause (execution_error _) = action_failed
map_cause (other_error (some input_invalid)) = input_invalid
map_cause (other_error (some input_too_large)) = input_too_large
map_cause (other_error (some output_invalid)) = output_invalid
map_cause (other_error (some output_too_large)) = output_too_large
map_cause (other_error _) = action_failed

abbrev pub is_empty : Issues → Bool
is_empty [] = true
is_empty (issue ∷ issues) = false

-- A handler is what happens once it has its input.
abbrev pub Handler : Type 0
Handler = Value → List Event

-- The part of the guards that looks at the action and the options.
unfoldable pub admit : Descriptor → Option Handler → Options → Result Thrown Handler
admit descriptor handler options = do
  guard (not (is_ui_only descriptor.mode)) (fail_with descriptor not_headless [])
  run ← require handler (fail_with descriptor not_headless [])
  guard (not (descriptor.requires_confirmation && not options.confirmed))
      (fail_with descriptor confirmation_required [])
  guard (not (lacks descriptor.required options.granted_permissions))
      (fail_with descriptor permission_denied [])
  guard (not (lacks descriptor.capabilities options.granted_capabilities))
      (fail_with descriptor permission_denied [])
  ok run

module _ (less : Value → Value → Bool) where
  -- The checks of a value, input or output: that it has JSON, of at most `maximum` bytes, and meets the
  -- schema; `invalid` and `too_large` are the codes for it.
  unfoldable pub check_value :
      Descriptor → Value → ℕ → Code → Code → Value → Result Thrown (Unit {0})
  check_value descriptor schema maximum invalid too_large value = do
    bytes ← require (utf8_json_bytes value) (fail_with descriptor invalid [])
    guard (leb bytes maximum) (fail_with descriptor too_large [])
    let issues = validate_value less schema value
    guard (is_empty issues) (fail_with descriptor invalid issues)

  unfoldable pub check_input : Descriptor → Value → Result Thrown (Unit {0})
  check_input descriptor input =
      check_value descriptor descriptor.input_schema descriptor.max_input_bytes input_invalid
        input_too_large input

  unfoldable pub check_output : Descriptor → Value → Result Thrown Success
  check_output descriptor output =
      check_value descriptor descriptor.output_schema descriptor.max_output_bytes output_invalid
        output_too_large output
      >> (make_receipt descriptor success none >>= λ receipt.
          ok (record { output = output; receipt = receipt }))

  -- What is done when the call has settled.
  unfoldable pub finish : Descriptor → Settled → Result Thrown Success
  finish descriptor (resolved output) = check_output descriptor output
  finish descriptor (rejected cause) = err (fail_with descriptor (map_cause cause) [])

  unfoldable pub finish_if_settled : Descriptor → Option Settled → Option (Result Thrown Success)
  finish_if_settled descriptor none = none
  finish_if_settled descriptor (some settled) = some (finish descriptor settled)

  -- The call itself, once the guards have let it through.
  unfoldable pub call :
      Descriptor → Value → Bool → Result Thrown Handler → Option (Result Thrown Success)
  call descriptor input aborted (err failure) = some (err failure)
  call descriptor input aborted (ok run) =
      finish_if_settled descriptor (guarded_call run input aborted)

  -- `none` is a call whose handler, timer and signal have done nothing yet.
  unfoldable pub execute_entry : Entry Handler → Value → Options → Option (Result Thrown Success)
  execute_entry entry input options = call entry.descriptor input options.aborted (
      admit entry.descriptor entry.handler options >>= λ run.
      check_input entry.descriptor input >> ok run)

  unfoldable pub execute :
      Registry Handler → Text → Value → Options → Option (Result Thrown Success)
  execute registry action_id input options = elim (resolve registry action_id) [
    | none ↦
        some (err (action_failure (record { code = unknown_action; issues = []; receipt = none })))
    | some entry ↦ execute_entry entry input options
  ]
