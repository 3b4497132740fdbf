-- ===== src/Actions/Recipe/Run.antt =====
-- packages/action-runtime/src/recipe.mjs: the expansion of templates, and `runActionRecipe`.
use useful.Common.{
  ℕ, ◌+◌, Bool, true, false, not, List, [], ◌∷◌, ◌++◌, Option, none, some, Text, codes, text_eq,
  leb, if◌then◌else◌, Result, ok, err, ◌>>=◌, ◌>>◌, guard, require,
}
use useful.Js.Value.{
  Value, int, str, arr, obj, Items, nil, cons, Fields, end, field, pos, get, or_else,
}
use useful.Js.Json.{key_units}
use useful.Js.Show.{show_nat}
use useful.Actions.Base.{Code, cancelled, timeout}
use useful.Actions.Registry.{Registry}
use useful.Actions.Receipt.{Receipt}
use useful.Actions.Executor.{Thrown, action_failure, Success}
use useful.Actions.Recipe.Pointer.{
  RecipeCode, reference_invalid, reference_missing, expansion_too_large, intermediate_too_large,
  decode_pointer_segment, segments_of,
}
use useful.Actions.Recipe.{in_template, reference_of, json_bytes, Step, validate_recipe}

abbrev pub max_expanded_bytes : ℕ
max_expanded_bytes = 1048576

abbrev pub max_intermediate_bytes : ℕ
max_intermediate_bytes = 8388608

-- `Object.hasOwn(current, segment)`, and `current[segment]` if so.
unfoldable pub field_at : Text → Fields → Option Value
unfolding text_eq key_units
field_at segment end = none
field_at segment (field k v fs) =
    if text_eq (key_units k) segment then some v else field_at segment fs

unfoldable pub item_at : Text → ℕ → Items → Option Value
unfolding text_eq show_nat
item_at segment index nil =
    if text_eq segment (codes "length") then some (int (pos index)) else none
item_at segment index (cons v vs) =
    if text_eq (show_nat index) segment then some v else item_at segment (index + 1) vs

unfoldable pub own_value : Text → Value → Option Value
unfolding field_at item_at
own_value segment (obj fs) = field_at segment fs
own_value segment (arr vs) = item_at segment 0 vs
own_value segment _ = none

-- The loop of `pointerValue` inside of a document.
unfoldable pub value_at : Value → List Text → Result RecipeCode Value
unfolding decode_pointer_segment own_value
value_at current [] = ok current
value_at current (raw ∷ raws) = do
  segment ← decode_pointer_segment raw
  inner ← require (own_value segment current) reference_missing
  value_at inner raws

-- `root`: the input, and the output of each completed step, the last one first.
pub record Root : Type 0 where
  pub input : Value
  pub outputs : List (Text × Value)

unfoldable pub output_of : Text → List (Text × Value) → Option Value
unfolding text_eq
output_of id [] = none
output_of id ((known, output) ∷ outputs) =
    if text_eq known id then some output else output_of id outputs

unfoldable pub step_document :
    List (Text × Value) → List Text → Result RecipeCode (Value × List Text)
unfolding text_eq decode_pointer_segment output_of
step_document outputs (raw ∷ part ∷ rest) = do
  id ← decode_pointer_segment raw
  output ← require (output_of id outputs) reference_missing
  guard (text_eq part (codes "output")) reference_missing
  ok (output, rest)
step_document outputs _ = err reference_missing

-- The first rounds of the loop of `pointerValue`, from `root` into a document: the pointers that
-- `validateReference` accepts all name one.
unfoldable pub document_at : Root → List Text → Result RecipeCode (Value × List Text)
unfolding text_eq step_document
document_at root [] = err reference_missing
document_at root (first ∷ rest) =
    if text_eq first (codes "input")
    then ok (root.input, rest)
    else if text_eq first (codes "steps")
    then step_document root.outputs rest
    else err reference_missing

unfoldable pub pointer_value : Root → Value → Result RecipeCode Value
unfolding document_at value_at
pointer_value root (str pointer) = do
  found ← document_at root (segments_of pointer)
  value_at found.0 found.1
pointer_value root _ = err reference_invalid

abbrev pub or_expanded : Root → Option Value → Result RecipeCode Fields → Result RecipeCode Value
or_expanded root none fields = fields >>= λ fs. ok (obj fs)
or_expanded root (some reference) fields = pointer_value root reference

unfoldable mutual
  unfolding pointer_value

  pub expand : Root → Value → Result RecipeCode Value
  expand root (arr vs) = expand_items root vs >>= λ ws. ok (arr ws)
  expand root (obj fs) = or_expanded root (reference_of (in_template []) fs) (expand_fields root fs)
  expand root value = ok value

  pub expand_items : Root → Items → Result RecipeCode Items
  expand_items root nil = ok nil
  expand_items root (cons v vs) =
      expand root v >>= λ w. expand_items root vs >>= λ ws. ok (cons w ws)

  pub expand_fields : Root → Fields → Result RecipeCode Fields
  expand_fields root end = ok end
  expand_fields root (field k v fs) =
      expand root v >>= λ w. expand_fields root fs >>= λ gs. ok (field k w gs)

unfoldable pub expand_template : Root → Value → Result RecipeCode Value
unfolding expand json_bytes
expand_template root value = do
  expanded ← expand root value
  bytes ← json_bytes expanded
  guard (leb bytes max_expanded_bytes) expansion_too_large
  ok expanded

-- An `ActionRecipeError`, or an `ActionExecutionError`.
pub data RunError : Type 0 where
  recipe_error : RecipeCode → RunError
  action_error : Thrown → RunError

abbrev pub lift {ℓ} : {A : Type ℓ} → Result RecipeCode A → Result RunError A
lift (ok a) = ok a
lift (err code) = err (recipe_error code)

-- `intermediateBytes += bytes`, and the test behind it.
unfoldable pub add_bytes : ℕ → ℕ → Result RunError ℕ
add_bytes total bytes =
    guard (leb (total + bytes) max_intermediate_bytes) (recipe_error intermediate_too_large)
    >> ok (total + bytes)

-- What the abort controller says in a round: whether it was aborted before the step, and whether the recipe's
-- timer had fired by then, or by the time that the call of the executor failed.
pub record Turn : Type 0 where
  pub aborted : Bool
  pub timed_out : Bool
  pub timed_out_late : Bool

abbrev pub plain_failure : Code → RunError
plain_failure code =
    action_error (action_failure (record { code = code; issues = []; receipt = none }))

-- The errors of the executor, once the timer has fired.
unfoldable pub settle_call : Bool → Result Thrown Success → Result RunError Success
settle_call late (ok done) = ok done
settle_call true (err failure) = err (plain_failure timeout)
settle_call false (err failure) = err (action_error failure)

-- A step that is done, with its receipt.
pub record Done : Type 0 where
  pub step : Step
  pub receipt : Receipt

pub record Progress : Type 0 where
  pub root : Root
  pub bytes : ℕ
  pub receipts : List Receipt

pub record Output : Type 0 where
  pub output : Value
  pub steps : List Done

abbrev pub pair_up : List Step → List Receipt → List Done
pair_up [] receipts = []
pair_up (step ∷ steps) [] = []
pair_up (step ∷ steps) (receipt ∷ receipts) =
    record { step = step; receipt = receipt } ∷ pair_up steps receipts

-- What is kept of a call that has returned.
abbrev pub to_progress : Step → Progress → Success × ℕ → Progress
to_progress step progress (done, received) = record {
  root = record {
    input = progress.root.input;
    outputs = (step.id, done.output) ∷ progress.root.outputs;
  };
  bytes = received;
  receipts = progress.receipts ++ done.receipt ∷ [];
}

-- `recipe.input ?? Object.create(null)`, and what the run begins with.
abbrev pub input_of : Value → Value
input_of recipe = or_else (get "input" recipe) (obj end)

abbrev pub start : Value → ℕ → Progress
start recipe bytes = record {
  root = record { input = input_of recipe; outputs = [] };
  bytes = bytes;
  receipts = [];
}

-- The output, once every step has run.
unfoldable pub finish_run : Value → List Step → Progress → Result RunError Output
finish_run recipe plan progress = do
  output ← lift (expand_template progress.root (get "output" recipe))
  output_bytes ← lift (json_bytes output)
  total ← add_bytes progress.bytes output_bytes
  ok (record { output = output; steps = pair_up plan progress.receipts })

-- `call` is the caller's executor, in each round, once its promise has settled.
module _ (call : ℕ → Text → Value → Result Thrown Success) (turn : ℕ → Turn) where
  -- The call of a step, with the bytes that have been counted behind it.
  unfoldable pub call_step : ℕ → Step → Progress → Result RunError (Success × ℕ)
  call_step round step progress = do
    guard (not (turn round).aborted)
        (plain_failure (if (turn round).timed_out then timeout else cancelled))
    input ← lift (expand_template progress.root step.input)
    input_bytes ← lift (json_bytes input)
    sent ← add_bytes progress.bytes input_bytes
    done ← settle_call (turn round).timed_out_late (call round step.action_id input)
    output_bytes ← lift (json_bytes done.output)
    received ← add_bytes sent output_bytes
    ok (done, received)

  unfoldable pub run_step : ℕ → Step → Progress → Result RunError Progress
  run_step round step progress =
      call_step round step progress >>= λ called. ok (to_progress step progress called)

  unfoldable pub run_steps : ℕ → List Step → Progress → Result RunError Progress
  run_steps round [] progress = ok progress
  run_steps round (step ∷ steps) progress =
      run_step round step progress >>= run_steps (round + 1) steps

  unfoldable pub run_action_recipe : {H : Type 0} → Registry H → Value → Result RunError Output
  run_action_recipe registry recipe = do
    plan ← lift (validate_recipe registry recipe)
    bytes ← lift (json_bytes (input_of recipe))
    progress ← run_steps 0 plan (start recipe bytes)
    finish_run recipe plan progress
