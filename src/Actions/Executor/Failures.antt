-- ===== src/Actions/Executor/Failures.antt =====
-- The failures of an action and their receipts.
use useful.Common.{
  Bool-cases, inl, inr, true, false, ℕ, Bool, true, false, not, ◌&&◌, List, [], Option, none, some,
  Text, leb, Result, ok, err, ◌>>=◌, ◌>>◌, guard, require, ◌≡◌, refl, subst,
}
use useful.Js.Value.{Value}
use useful.Actions.Base.{
  cancelled, Code, input_invalid, output_invalid, input_too_large, output_too_large, not_headless,
  permission_denied, confirmation_required,
}
use useful.Actions.Contract.{validate_value, utf8_json_bytes}
use useful.Actions.Registry.{Descriptor, is_ui_only}
use useful.Actions.Receipt.{
  success, receipt_of, is_valid_receipt, has_valid_parts, is_source, status_fits,
}
use useful.Actions.Executor.{
  Settled, resolved, rejected, make_receipt, Success, failed_status, fail_with, Options, lacks,
  map_cause, is_empty, Handler, admit, check_input, check_value, check_output, finish,
  finish_if_settled, call, execute_entry, guarded_call, Thrown, action_failure, receipt_invalid,
  make_receipt,
}

some_inj :
    {a b : Result Thrown Success}
    → ◌≡◌ {A = Option (Result Thrown Success)} (some a) (some b)
    → a ≡ b
some_inj h = cc

module _ (descriptor : Descriptor) where
  -- An action error has a valid receipt of the action, with the code of the failure, whose status is cancelled
  -- just for the code CANCELLED. The error of the receipt itself comes up only where the parts of a receipt
  -- that are the descriptor's do not pass its checks.
  abbrev pub IsReported : Thrown → Type 0
  IsReported (action_failure failure) =
      (failure.receipt
        ≡ some (receipt_of descriptor (failed_status failure.code) (some failure.code)))
      × (is_valid_receipt (receipt_of descriptor (failed_status failure.code) (some failure.code))
          ≡ true)
  IsReported receipt_invalid = has_valid_parts (receipt_of descriptor success none) ≡ false

  Reports : {A : Type 0} → Result Thrown A → Type 0
  Reports (ok a) = Unit
  Reports (err thrown) = IsReported thrown

  failed_status-fits : (code : Code) → status_fits (failed_status code) (some code) ≡ true
  unfolding status_fits
  failed_status-fits cancelled = refl
  failed_status-fits _ = refl

  failed-is_valid_receipt :
      (code : Code)
      → has_valid_parts (receipt_of descriptor success none) ≡ true
      → is_valid_receipt (receipt_of descriptor (failed_status code) (some code)) ≡ true
  unfolding is_valid_receipt receipt_of has_valid_parts is_source
  failed-is_valid_receipt code valid = rw (valid, failed_status-fits code) refl

  fail_with-IsReported :
      (code : Code) (issues : List Text) → IsReported (fail_with descriptor code issues)
  unfolding fail_with make_receipt is_valid_receipt receipt_of has_valid_parts is_source
  fail_with-IsReported code issues =
      elim (Bool-cases (has_valid_parts (receipt_of descriptor success none))) [
        | inl valid ↦ rw (valid, failed_status-fits code) (refl, failed-is_valid_receipt code valid)
        | inr bad ↦ rw bad bad
      ]

  Reports-bind :
      {A B : Type 0} (m : Result Thrown A) (f : A → Result Thrown B)
      → Reports m
      → ((a : A) → Reports (f a))
      → Reports (m >>= f)
  unfolding Reports
  Reports-bind (ok a) f h k = k a
  Reports-bind (err failure) f h k = h

  Reports-guard :
      (b : Bool) (code : Code) (issues : List Text)
      → Reports (guard b (fail_with descriptor code issues))
  unfolding Reports
  Reports-guard true code issues = tt
  Reports-guard false code issues = fail_with-IsReported code issues

  Reports-require :
      {A : Type 0} (o : Option A) (code : Code) → Reports (require o (fail_with descriptor code []))
  unfolding Reports
  Reports-require none code = fail_with-IsReported code []
  Reports-require (some a) code = tt

  Reports-ok : {A : Type 0} (a : A) → Reports (ok a)
  unfolding Reports
  Reports-ok a = tt

  rejected-Reports : (code : Code) → Reports {A = Success} (err (fail_with descriptor code []))
  unfolding Reports
  rejected-Reports code = fail_with-IsReported code []

  admit-Reports :
      (handler : Option Handler) (options : Options) → Reports (admit descriptor handler options)
  unfolding admit
  admit-Reports handler options =
      Reports-bind _ _ (Reports-guard (not (is_ui_only descriptor.mode)) not_headless []) λ _.
        Reports-bind _ _ (Reports-require handler not_headless) λ run.
          Reports-bind _ _
            (Reports-guard (not (descriptor.requires_confirmation && not options.confirmed))
              confirmation_required [])
            λ _.
              Reports-bind _ _
                (Reports-guard (not (lacks descriptor.required options.granted_permissions))
                  permission_denied [])
                λ _.
                  Reports-bind _ _
                    (Reports-guard
                      (not (lacks descriptor.capabilities options.granted_capabilities))
                      permission_denied [])
                    λ _. Reports-ok run

  module _ (less : Value → Value → Bool) where
    check_value-Reports :
        (schema : Value) (maximum : ℕ) (invalid too_large : Code) (value : Value)
        → Reports (check_value less descriptor schema maximum invalid too_large value)
    unfolding check_value
    check_value-Reports schema maximum invalid too_large value =
        let issues = validate_value less schema value in
        Reports-bind _ _ (Reports-require (utf8_json_bytes value) invalid) λ bytes.
          Reports-bind _ _ (Reports-guard (leb bytes maximum) too_large [])
            λ _. Reports-guard (is_empty issues) invalid issues

    make_receipt-Reports : Reports (make_receipt descriptor success none)
    unfolding make_receipt is_valid_receipt receipt_of has_valid_parts is_source Reports status_fits
    make_receipt-Reports =
        elim (Bool-cases (has_valid_parts (receipt_of descriptor success none))) [
          | inl valid ↦ rw valid tt
          | inr bad ↦ rw bad bad
        ]

    finish-Reports : (settled : Settled) → Reports (finish less descriptor settled)
    unfolding finish check_output
    finish-Reports (resolved output) =
        Reports-bind _ _
          (check_value-Reports descriptor.output_schema descriptor.max_output_bytes output_invalid
            output_too_large output)
          λ _.
            Reports-bind _ _ make_receipt-Reports
              λ receipt. Reports-ok (record { output = output; receipt = receipt })
    finish-Reports (rejected cause) = rejected-Reports (map_cause cause)

    failed-IsReported :
        (r : Result Thrown Success) (failure : Thrown)
        → Reports r
        → r ≡ err failure
        → IsReported failure
    unfolding Reports
    failed-IsReported (ok done) failure h e = cc
    failed-IsReported (err f) failure h e = subst IsReported (let same : f ≡ failure = cc in same) h

    settled-IsReported :
        (settled : Option Settled) (failure : Thrown)
        → finish_if_settled less descriptor settled ≡ some (err failure)
        → IsReported failure
    unfolding finish_if_settled
    settled-IsReported none failure h = cc
    settled-IsReported (some settled) failure h =
        failed-IsReported (finish less descriptor settled) failure (finish-Reports settled)
          (some_inj h)

    call-IsReported :
        (input : Value) (aborted : Bool) (r : Result Thrown Handler) (failure : Thrown)
        → Reports r
        → call less descriptor input aborted r ≡ some (err failure)
        → IsReported failure
    unfolding call Reports
    call-IsReported input aborted (err f) failure h e =
        subst IsReported (let same : f ≡ failure = cc in same) h
    call-IsReported input aborted (ok run) failure h e =
        settled-IsReported (guarded_call run input aborted) failure e

    -- Whatever a call of a registered action throws, an action error comes with a receipt of that action, which
    -- passes the receipt's own checks, has the error's code, and has the status cancelled for the code CANCELLED
    -- and error for every other; and the only other error, that of an invalid receipt, comes up only for an
    -- action whose identifier, version, source or permissions are beyond what a receipt may hold.
    pub execute_entry-IsReported :
        (handler : Option Handler) (input : Value) (options : Options) (failure : Thrown)
        → execute_entry less (record { descriptor = descriptor; handler = handler }) input options
          ≡ some (err failure)
        → IsReported failure
    unfolding execute_entry check_input
    execute_entry-IsReported handler input options failure h =
        call-IsReported input options.aborted
          (admit descriptor handler options >>= λ run. check_input less descriptor input >> ok run)
          failure
          (Reports-bind _ _ (admit-Reports handler options) λ run.
            Reports-bind _ _
              (check_value-Reports descriptor.input_schema descriptor.max_input_bytes input_invalid
                input_too_large input)
              λ _. Reports-ok run)
          h
