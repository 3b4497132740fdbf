-- ===== src/Actions/Recipe/Tests.antt =====
-- A recipe of two steps, and its run.
use useful.Common.{
  ℕ, ◌≤◌, true, false, List, [], ◌∷◌, none, some, Text, codes, contains, Result, ok, err, ◌≡◌, refl,
}
use useful.Js.Value.{Value, obj, str, arr, nil, cons, end, field, get, lookup, has_key}
use useful.Js.Json.{is_finite, key_units}
use useful.ComputerUse.Address.V4.{split, prepend}
use useful.Actions.Samples.{action, text_value}
use useful.Actions.Contract.{utf8_json_bytes}
use useful.Actions.Registry.{Descriptor, Entry, Registry, pure, resolve, find}
use useful.Actions.Base.{unknown_action as not_registered}
use useful.Actions.Receipt.{success, receipt_of}
use useful.Actions.Executor.{Thrown, action_failure, Success}
use useful.Actions.Recipe.Pointer.{
  validate_reference, is_forbidden, match_reference, is_step_id, decode_pointer_segment,
}
use useful.Actions.Recipe.{
  Step, validate_recipe, json_bytes, exact_object, inspect_template, inspect, read_step, eligible,
  is_action_id, resolve_action, validate_step, validate_steps, read_steps,
}
use useful.Actions.Recipe.Run.{
  run_step, call_step, add_bytes, settle_call, finish_run, Turn, Progress, Output, start, run_steps,
  run_action_recipe, expand_template,
}
use useful.Actions.Recipe.References.{References}
use useful.Actions.Recipe.Found.{IsFound}
use useful.Actions.Recipe.Harmless.{AllSafe, IsBackward, validate_recipe-AllSafe}
use useful.Actions.Recipe.Rounds.{next_template, run_steps-IsFound}
use useful.Actions.Recipe.Calls.{
  AgreeOnAllowed, IsComplete, run_action_recipe-agree, run_action_recipe-IsComplete,
}

abbrev sample : Descriptor
sample = action (codes "a.x") []

abbrev entry : Entry ℕ
entry = record { descriptor = sample; handler = some 1 }

abbrev registry : Registry ℕ
registry = record {
  entries = entry ∷ [];
  names = (codes "a.x", entry) ∷ [];
  by_registration = true;
}

abbrev reference : Text → Value
reference pointer = obj (field "$ref" (str pointer) end)

abbrev first_input : Value
first_input = obj (field "text" (reference (codes "/input/text")) end)

abbrev step : Text → Value → Value
step id input =
    obj (field "id" (str id) (field "actionId" (str (codes "a.x")) (field "input" input end)))

abbrev recipe : Value
recipe = obj (
    field "schemaVersion" (str (codes "useful.action-recipe.v1")) (
      field "input" text_value (
        field "steps"
          (arr (
            cons (step (codes "one") first_input)
              (cons (step (codes "two") (reference (codes "/steps/one/output"))) nil)))
          (field "output" (reference (codes "/steps/two/output")) end))))

abbrev planned : Text → Value → Step
planned id input = record {
  id = id;
  action_id = codes "a.x";
  input = input;
  action_version = codes "1.0.0";
  execution_mode = pure;
}

abbrev first_step : Step
first_step = planned (codes "one") first_input

abbrev second_step : Step
second_step = planned (codes "two") (reference (codes "/steps/one/output"))

validated : validate_recipe registry recipe ≡ ok (first_step ∷ second_step ∷ [])
unfolding validate_recipe read_steps exact_object json_bytes utf8_json_bytes inspect validate_steps
    validate_step read_step is_step_id is_action_id contains resolve_action resolve find eligible
    inspect_template validate_reference is_forbidden match_reference split prepend
    decode_pointer_segment key_units has_key lookup is_finite get
validated = refl

validate_recipe-AllSafe_example :
    AllSafe registry [] (first_step ∷ second_step ∷ [])
    × (1 ≤ 2)
    × (2 ≤ 16)
    × References (IsBackward (codes "two" ∷ codes "one" ∷ [])) (get "output" recipe)
validate_recipe-AllSafe_example =
    validate_recipe-AllSafe registry recipe (first_step ∷ second_step ∷ []) validated

abbrev caller : ℕ → Text → Value → Result Thrown Success
caller round action_id input =
    ok (record { output = input; receipt = receipt_of sample success none })

-- An executor that answers only calls of registered actions.
abbrev other_caller : ℕ → Text → Value → Result Thrown Success
other_caller round action_id input = elim (resolve registry action_id) [
  | none ↦ err (action_failure (record { code = not_registered; issues = []; receipt = none }))
  | some found ↦ caller round action_id input
]

abbrev turn : ℕ → Turn
turn round = record { aborted = false; timed_out = false; timed_out_late = false }

abbrev output : Output
output = record {
  output = text_value;
  steps =
      record { step = first_step; receipt = receipt_of sample success none }
      ∷ record { step = second_step; receipt = receipt_of sample success none }
      ∷ [];
}

ran : run_action_recipe caller turn registry recipe ≡ ok output
unfolding run_action_recipe get run_steps run_step call_step expand_template split prepend add_bytes
    settle_call finish_run json_bytes
ran = rw validated refl

run_action_recipe-IsComplete_example :
    (plan : List Step) × (validate_recipe registry recipe ≡ ok plan)
    × IsComplete caller recipe plan output
run_action_recipe-IsComplete_example =
    run_action_recipe-IsComplete registry caller turn recipe output ran

abbrev halfway : Progress
halfway = record {
  root = record { input = text_value; outputs = (codes "one", text_value) ∷ [] };
  bytes = 26;
  receipts = receipt_of sample success none ∷ [];
}

halfway_reached : run_steps caller turn 0 (first_step ∷ []) (start recipe 0) ≡ ok halfway
unfolding run_steps run_step call_step expand_template split prepend get add_bytes settle_call
halfway_reached = refl

run_steps-IsFound_example :
    References (IsFound halfway.root) (next_template recipe (second_step ∷ []))
run_steps-IsFound_example =
    run_steps-IsFound registry caller turn recipe (first_step ∷ []) (second_step ∷ []) 0 halfway
      validated halfway_reached

same_on_allowed : AgreeOnAllowed registry turn caller other_caller
same_on_allowed round action_id input allowed = rw (allowed.registered, other_caller) refl

run_action_recipe-agree_example :
    run_action_recipe caller turn registry recipe
    ≡ run_action_recipe other_caller turn registry recipe
run_action_recipe-agree_example =
    run_action_recipe-agree registry turn caller other_caller same_on_allowed recipe
