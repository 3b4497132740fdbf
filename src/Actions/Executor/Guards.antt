-- ===== src/Actions/Executor/Guards.antt =====
-- What a call of an action has passed before its handler runs, and before its output is returned.
use useful.Common.{
  ℕ, ◌≤◌, Bool, true, false, [], ◌∷◌, Option, none, some, leb, leb→le, Result, ok, err, ◌>>=◌, ◌>>◌,
  guard, require, guard-eq-ok, bind-eq-ok, then-eq-ok, ◌≡◌, sym, refl, subst, arith,
}
use useful.Js.Value.{Value}
use useful.Actions.Base.{Code, input_invalid, output_invalid, input_too_large, output_too_large}
use useful.Actions.Contract.Shape.{Issues}
use useful.Actions.Contract.{validate_value, utf8_json_bytes}
use useful.Actions.Contract.Plain.{IsPlain, validate_value-IsPlain}
use useful.Actions.Registry.{Descriptor, Entry, is_ui_only}
use useful.Actions.Receipt.{Receipt, success, receipt_of, is_valid_receipt}
use useful.Actions.Executor.{
  Settled, resolved, rejected, make_receipt, Success, fail_with, Options, lacks, is_empty, Handler,
  admit, check_input, check_value, check_output, finish, finish_if_settled, call, execute_entry,
  guarded_call, Thrown, receipt_invalid,
}

-- What the caller has granted, for an action.
pub record IsAdmitted (descriptor : Descriptor) (options : Options) : Type 0 where
  pub headless : is_ui_only descriptor.mode ≡ false
  pub confirmed : descriptor.requires_confirmation ≡ true → options.confirmed ≡ true
  pub permitted : lacks descriptor.required options.granted_permissions ≡ false
  pub capable : lacks descriptor.capabilities options.granted_capabilities ≡ false

admit-IsAdmitted :
    (descriptor : Descriptor) (handler : Option Handler) (options : Options) {run : Handler}
    → admit descriptor handler options ≡ ok run
    → IsAdmitted descriptor options
unfolding admit
admit-IsAdmitted descriptor none options h = ground arith
admit-IsAdmitted descriptor (some run) options h = record {
  headless = ground arith;
  confirmed = λ needed. ground arith;
  permitted = ground arith;
  capable = ground arith;
}

-- A value within the bytes and the schema of an action.
pub record IsChecked (less : Value → Value → Bool) (schema value : Value) (maximum : ℕ)
    : Type 0 where
  pub size : ℕ
  pub size_is : utf8_json_bytes value ≡ some size
  pub fits : size ≤ maximum
  pub valid : validate_value less schema value ≡ []
  pub plain : IsPlain schema value

require-eq-ok : {A : Type 0} (o : Option A) (e : Thrown) {a : A} → require o e ≡ ok a → o ≡ some a
require-eq-ok none e h = cc
require-eq-ok (some a) e h = cc

is_empty-nil : (issues : Issues) → is_empty issues ≡ true → issues ≡ []
is_empty-nil [] h = refl
is_empty-nil (issue ∷ issues) h = cc

module _ (less : Value → Value → Bool) where
  check_value-IsChecked :
      (descriptor : Descriptor) (schema : Value) (maximum : ℕ) (invalid too_large : Code)
      (value : Value)
      → check_value less descriptor schema maximum invalid too_large value ≡ ok tt
      → IsChecked less schema value maximum
  unfolding check_value
  check_value-IsChecked descriptor schema maximum invalid too_large value h =
      let rest : ℕ → Result Thrown (Unit {0}) = λ bytes.
        guard (leb bytes maximum) (fail_with descriptor too_large [])
        >> guard (is_empty (validate_value less schema value))
            (fail_with descriptor invalid (validate_value less schema value)) in
      let (size, found, passed) =
        bind-eq-ok (require (utf8_json_bytes value) (fail_with descriptor invalid [])) rest h in
      let (small, clear) = then-eq-ok (leb size maximum) _ _ passed in
      let valid = is_empty-nil (validate_value less schema value) (guard-eq-ok _ _ clear) in
      record {
        size = size;
        size_is = require-eq-ok (utf8_json_bytes value) _ found;
        fits = leb→le size maximum small;
        valid = valid;
        plain = validate_value-IsPlain less schema value valid;
      }

  made_receipt :
      (descriptor : Descriptor) (receipt : Receipt)
      → make_receipt descriptor success none ≡ ok receipt
      → (receipt ≡ receipt_of descriptor success none) × (is_valid_receipt receipt ≡ true)
  unfolding make_receipt
  made_receipt descriptor receipt h =
      let made = receipt_of descriptor success none in
      let (valid, same) = then-eq-ok (is_valid_receipt made) receipt_invalid (ok made) h in
      let equal : made ≡ receipt = cc in
      (sym equal, subst (λ r. is_valid_receipt r ≡ true) equal valid)

  -- What a returned output has passed, with its receipt.
  check_output-IsChecked :
      (descriptor : Descriptor) (output : Value) (done : Success)
      → check_output less descriptor output ≡ ok done
      → IsChecked less descriptor.output_schema done.output descriptor.max_output_bytes
        × (done.receipt ≡ receipt_of descriptor success none)
        × (is_valid_receipt done.receipt ≡ true)
  unfolding check_output
  check_output-IsChecked descriptor output done h =
      let finish_with : Receipt → Result Thrown Success =
        λ r. ok (record { output = output; receipt = r }) in
      let (unit, checked, rest) =
        bind-eq-ok
          (check_value less descriptor descriptor.output_schema descriptor.max_output_bytes
            output_invalid output_too_large output)
          (λ _. make_receipt descriptor success none >>= finish_with) h in
      let (receipt, receipted, same) =
        bind-eq-ok (make_receipt descriptor success none) finish_with rest in
      let returned : ◌≡◌ {A = Success} (record { output = output; receipt = receipt }) done = cc in
      subst
        (λ (s : Success).
          IsChecked less descriptor.output_schema s.output descriptor.max_output_bytes
          × (s.receipt ≡ receipt_of descriptor success none)
          × (is_valid_receipt s.receipt ≡ true))
        returned
        (let (equal, valid) = made_receipt descriptor receipt receipted in
          (
            check_value-IsChecked descriptor descriptor.output_schema descriptor.max_output_bytes
                output_invalid output_too_large output checked,
            equal,
            valid,
          ))

  -- What has held of a call that returned an output.
  pub record IsSound (descriptor : Descriptor) (input : Value) (options : Options) (done : Success)
      : Type 0 where
    pub admitted : IsAdmitted descriptor options
    pub running : options.aborted ≡ false
    pub input_checked : IsChecked less descriptor.input_schema input descriptor.max_input_bytes
    pub output_checked :
        IsChecked less descriptor.output_schema done.output descriptor.max_output_bytes
    pub receipt_is : done.receipt ≡ receipt_of descriptor success none
    pub receipt_valid : is_valid_receipt done.receipt ≡ true

  guards : Descriptor → Option Handler → Value → Options → Result Thrown Handler
  guards descriptor handler input options =
      admit descriptor handler options >>= λ run. check_input less descriptor input >> ok run

  guards-passed :
      (descriptor : Descriptor) (handler : Option Handler) (input : Value) (options : Options)
      {run : Handler}
      → guards descriptor handler input options ≡ ok run
      → IsAdmitted descriptor options
        × IsChecked less descriptor.input_schema input descriptor.max_input_bytes
  unfolding guards check_input
  guards-passed descriptor handler input options h =
      let (first, admitted, rest) =
        bind-eq-ok (admit descriptor handler options)
          (λ (r : Handler). check_input less descriptor input >> ok r) h in
      let (unit, checked, same) =
        bind-eq-ok (check_input less descriptor input) (λ _. ok first) rest in
      (
        admit-IsAdmitted descriptor handler options admitted,
        check_value-IsChecked descriptor descriptor.input_schema descriptor.max_input_bytes
            input_invalid input_too_large input checked,
      )

  settled-ok :
      (descriptor : Descriptor) (settled : Option Settled) {done : Success}
      → finish_if_settled less descriptor settled ≡ some (ok done)
      → (output : Value) × (settled ≡ some (resolved output))
        × (check_output less descriptor output ≡ ok done)
  unfolding finish_if_settled finish
  settled-ok descriptor none h = cc
  settled-ok descriptor (some (resolved output)) h = (output, refl, cc)
  settled-ok descriptor (some (rejected cause)) h = cc

  resolved-running :
      (run : Handler) (input : Value) (aborted : Bool) {output : Value}
      → guarded_call run input aborted ≡ some (resolved output)
      → aborted ≡ false
  unfolding guarded_call
  resolved-running run input true h = cc
  resolved-running run input false h = refl

  call-IsSound :
      (entry : Entry Handler) (input : Value) (options : Options) (done : Success)
      (r : Result Thrown Handler)
      → guards entry.descriptor entry.handler input options ≡ r
      → call less entry.descriptor input options.aborted r ≡ some (ok done)
      → IsSound entry.descriptor input options done
  unfolding call
  call-IsSound entry input options done (err failure) e k = cc
  call-IsSound entry input options done (ok run) e k =
      let descriptor = entry.descriptor in
      let (admitted, input_checked) = guards-passed descriptor entry.handler input options e in
      let (output, settled, checked) =
        settled-ok descriptor (guarded_call run input options.aborted) k in
      let (output_checked, receipt_is, receipt_valid) =
        check_output-IsChecked descriptor output done checked in
      record {
        admitted = admitted;
        running = resolved-running run input options.aborted settled;
        input_checked = input_checked;
        output_checked = output_checked;
        receipt_is = receipt_is;
        receipt_valid = receipt_valid;
      }

  -- Whenever a registered action returns an output, the caller has confirmed it if it needs that, and has
  -- granted every permission and capability that it requires; it is not for the interface only, and was not
  -- aborted before its handler ran; input and output have JSON of no more bytes than the action allows, meet the
  -- schemas of the action, and hold nothing that these do not list; and the receipt is that of the action with
  -- its success, and passes the check of receipts.
  pub execute_entry-IsSound :
      (entry : Entry Handler) (input : Value) (options : Options) (done : Success)
      → execute_entry less entry input options ≡ some (ok done)
      → IsSound entry.descriptor input options done
  unfolding execute_entry guards
  execute_entry-IsSound entry input options done h =
      call-IsSound entry input options done (guards entry.descriptor entry.handler input options)
        refl h
