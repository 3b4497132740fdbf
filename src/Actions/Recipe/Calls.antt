-- ===== src/Actions/Recipe/Calls.antt =====
-- What a recipe's run calls, and what it returns.
use useful.Common.{
  ℕ, ◌+◌, ◌≤◌, List, [], ◌∷◌, Option, none, some, Text, length, Result, ok, err, ◌>>=◌, require,
  bind-eq-ok, ◌≡◌, inl, inr, refl, sym, subst, ap, ◌∙◌, arith, Result-cases,
}
use mathlib.Core.Path.{fun_ext}
use useful.Js.Value.{Value, get}
use useful.Actions.Contract.{utf8_json_bytes}
use useful.Actions.Registry.{Registry}
use useful.Actions.Receipt.{Receipt}
use useful.Actions.Executor.{Thrown, Success}
use useful.Actions.Recipe.Pointer.{RecipeCode, invalid}
use useful.Actions.Recipe.{Step, validate_recipe, json_bytes}
use useful.Actions.Recipe.Run.{
  Root, Turn, Progress, Done, Output, RunError, lift, call_step, run_step, run_steps,
  run_action_recipe, expand_template, add_bytes, pair_up, start, input_of, finish_run,
  max_intermediate_bytes,
}
use useful.Actions.Recipe.Safe.{IsAllowed, Chain, validate_recipe-Chain}
use useful.Actions.Recipe.Ran.{Ran, HasRun, run_steps-HasRun}

module _ {H : Type 0} (registry : Registry H) (turn : ℕ → Turn)
    (call other : ℕ → Text → Value → Result Thrown Success) where
  -- Two executors that do the same for the actions that a recipe may run.
  abbrev pub AgreeOnAllowed : Type 0
  AgreeOnAllowed =
      (round : ℕ) (action_id : Text) (input : Value)
      → IsAllowed registry action_id
      → call round action_id input ≡ other round action_id input

  module _ (agree : AgreeOnAllowed) where
    run_step-agree :
        (round : ℕ) (step : Step) (progress : Progress)
        → IsAllowed registry step.action_id
        → run_step call turn round step progress ≡ run_step other turn round step progress
    unfolding run_step call_step
    run_step-agree round step progress allowed =
        let same : call round step.action_id ≡ other round step.action_id =
          fun_ext (λ input. agree round step.action_id input allowed) in
        rw same refl

    run_steps-agree :
        (round : ℕ) (completed : List Text) (steps : List Step) (progress : Progress)
        → Chain registry completed steps
        → run_steps call turn round steps progress ≡ run_steps other turn round steps progress
    unfolding run_steps
    run_steps-agree round completed [] progress chain = refl
    run_steps-agree round completed (step ∷ steps) progress (first, rest) =
        rw (run_step-agree round step progress first.action) (
          ap
            (λ (k : Progress → Result RunError Progress).
              run_step other turn round step progress >>= k)
            (fun_ext (λ p. run_steps-agree (round + 1) (step.id ∷ completed) steps p rest)))

    -- A recipe's run asks its executor only for actions that are registered under just the name in the
    -- recipe, and that only read, can be repeated, are confined, and need no confirmation, permission or
    -- capability: two executors that do the same for these give the same result, whatever they do for others.
    pub run_action_recipe-agree :
        (recipe : Value)
        → run_action_recipe call turn registry recipe ≡ run_action_recipe other turn registry recipe
    unfolding run_action_recipe
    run_action_recipe-agree recipe = elim (Result-cases (validate_recipe registry recipe)) [
      | inl (plan, valid) ↦
          let (chain, low, high) = validate_recipe-Chain registry recipe plan valid in
          rw valid (
            ap
              (λ (k : ℕ → Result RunError Progress).
                lift (json_bytes (input_of recipe)) >>= λ bytes. k bytes >>= finish_run recipe plan)
              (fun_ext (λ bytes. run_steps-agree 0 [] plan (start recipe bytes) chain)))
      | inr (code, refused) ↦ rw refused refl
    ]

abbrev pub steps_of : List Done → List Step
steps_of [] = []
steps_of (done ∷ dones) = done.step ∷ steps_of dones

steps_of-pair_up :
    (plan : List Step) (receipts : List Receipt)
    → length receipts ≡ length plan
    → steps_of (pair_up plan receipts) ≡ plan
steps_of-pair_up [] receipts h = refl
steps_of-pair_up (step ∷ plan) [] h = absurd (omega arith)
steps_of-pair_up (step ∷ plan) (receipt ∷ receipts) h =
    ap (λ l. step ∷ l) (steps_of-pair_up plan receipts (omega arith))

unlifted : (r : Result RecipeCode (List Step)) {plan : List Step} → lift r ≡ ok plan → r ≡ ok plan
unlifted (ok p) h = cc
unlifted (err code) h = cc

lifted_value : (r : Result RecipeCode Value) {v : Value} → lift r ≡ ok v → r ≡ ok v
lifted_value (ok w) h = cc
lifted_value (err code) h = cc

json_bytes-some : (v : Value) {n : ℕ} → lift (json_bytes v) ≡ ok n → utf8_json_bytes v ≡ some n
unfolding json_bytes
json_bytes-some v h = counted (utf8_json_bytes v) h
  where
    counted : (o : Option ℕ) {n : ℕ} → lift (require o invalid) ≡ ok n → o ≡ some n
    counted none k = cc
    counted (some m) k = cc

add_bytes-bound :
    (total bytes : ℕ) {n : ℕ}
    → add_bytes total bytes ≡ ok n
    → total + bytes ≤ max_intermediate_bytes
unfolding add_bytes
add_bytes-bound total bytes h = ground arith

-- What a run returns: the output, of no more than the bytes that a run may handle, and the steps of the plan.
-- The steps have run, from a root of just the input to a last root, and the output is the recipe's output
-- expanded there.
pub record IsComplete (call : ℕ → Text → Value → Result Thrown Success) (recipe : Value)
    (plan : List Step) (out : Output) : Type 0 where
  pub size : ℕ
  pub size_is : utf8_json_bytes out.output ≡ some size
  pub fits : size ≤ max_intermediate_bytes
  pub all_steps : steps_of out.steps ≡ plan
  pub last : Root
  pub ran : Ran call 0 (start recipe 0).root out.steps last
  pub output_is : expand_template last (get "output" recipe) ≡ ok out.output

finish_run-IsComplete :
    (call : ℕ → Text → Value → Result Thrown Success) (recipe : Value) (plan : List Step)
    (progress : Progress) (out : Output)
    → length progress.receipts ≡ length plan
    → Ran call 0 (start recipe 0).root (pair_up plan progress.receipts) progress.root
    → finish_run recipe plan progress ≡ ok out
    → IsComplete call recipe plan out
unfolding finish_run
finish_run-IsComplete call recipe plan progress out count steps h =
    let made : Value → Output =
      λ v. record { output = v; steps = pair_up plan progress.receipts } in
    let add : Value → ℕ → Result RunError Output =
      λ v n. add_bytes progress.bytes n >>= λ _. ok (made v) in
    let (output, expanded, rest) =
      bind-eq-ok (lift (expand_template progress.root (get "output" recipe)))
        (λ v. lift (json_bytes v) >>= add v) h in
    let (size, counted, rest') = bind-eq-ok (lift (json_bytes output)) (add output) rest in
    let (total, added, returned) =
      bind-eq-ok (add_bytes progress.bytes size) (λ _. ok (made output)) rest' in
    let bound = add_bytes-bound progress.bytes size added in
    let same : made output ≡ out = cc in
    subst (IsComplete call recipe plan) same (record {
      size = size;
      size_is = json_bytes-some output counted;
      fits = omega arith;
      all_steps = steps_of-pair_up plan progress.receipts count;
      last = progress.root;
      ran = steps;
      output_is = lifted_value (expand_template progress.root (get "output" recipe)) expanded;
    })

-- A run that returns has run every step of the recipe's plan, once and in order, one in each round: the step's
-- template, expanded with the input and the outputs of the steps before it, is what the executor was called with
-- for the step's action; that call returned; and its receipt stands with the step. The output is the recipe's
-- output, expanded with the outputs of all steps; it has JSON, of at most the bytes that a run may handle.
pub run_action_recipe-IsComplete :
    {H : Type 0} (registry : Registry H) (call : ℕ → Text → Value → Result Thrown Success)
    (turn : ℕ → Turn) (recipe : Value) (out : Output)
    → run_action_recipe call turn registry recipe ≡ ok out
    → (plan : List Step) × (validate_recipe registry recipe ≡ ok plan)
      × IsComplete call recipe plan out
unfolding run_action_recipe HasRun
run_action_recipe-IsComplete registry call turn recipe out h =
    let go : List Step → ℕ → Result RunError Output =
      λ plan bytes. run_steps call turn 0 plan (start recipe bytes) >>= finish_run recipe plan in
    let (plan, valid, rest) =
      bind-eq-ok (lift (validate_recipe registry recipe))
        (λ p. lift (json_bytes (input_of recipe)) >>= go p) h in
    let (bytes, counted, rest') = bind-eq-ok (lift (json_bytes (input_of recipe))) (go plan) rest in
    let (progress, ran, finished) =
      bind-eq-ok (run_steps call turn 0 plan (start recipe bytes)) (finish_run recipe plan) rest' in
    let (receipts, collected, count, steps) =
      run_steps-HasRun call turn 0 plan (start recipe bytes) progress ran in
    (
      plan,
      unlifted (validate_recipe registry recipe) valid,
      finish_run-IsComplete call recipe plan progress out (ap length collected ∙ count)
          (subst (λ rs. Ran call 0 (start recipe 0).root (pair_up plan rs) progress.root)
            (sym collected) steps)
          finished,
    )
