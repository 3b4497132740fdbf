-- ===== src/Actions/Recipe/Ran.antt =====
-- What the steps of a recipe do in a run, one after the other.
use useful.Common.{
  ℕ, ◌+◌, Bool, true, false, List, [], ◌∷◌, ◌++◌, append-nil, append_assoc, suc, Text, length,
  Result, ok, err, guard, bind-eq-ok, not, ◌≡◌, refl, sym, subst, ap, ◌∙◌,
}
use useful.Js.Value.{Value}
use useful.Actions.Receipt.{Receipt}
use useful.Actions.Executor.{Thrown, Success}
use useful.Actions.Recipe.Pointer.{RecipeCode}
use useful.Actions.Recipe.{Step, json_bytes}
use useful.Actions.Recipe.Run.{
  Root, Turn, Progress, Done, RunError, lift, call_step, settle_call, to_progress, run_step,
  run_steps, expand_template, add_bytes, pair_up,
}

-- The root behind a step that has returned `done`.
abbrev pub root_after : Root → Step → Success → Root
root_after root step done = record {
  input = root.input;
  outputs = (step.id, done.output) ∷ root.outputs;
}

module _ (call : ℕ → Text → Value → Result Thrown Success) where
  -- The steps have run from `round` on, one in each round, and led from one root to another: each expanded its
  -- template in the root that the steps before it left, the executor was called with just this input and
  -- returned, the step has the receipt of that call, and its output stands in the root behind it.
  abbrev pub Ran : ℕ → Root → List Done → Root → Type 0
  Ran round root [] last = root ≡ last
  Ran round root (now ∷ later) last =
      (input : Value) × (done : Success) × (expand_template root now.step.input ≡ ok input)
      × (call round now.step.action_id input ≡ ok done)
      × (now.receipt ≡ done.receipt)
      × Ran (round + 1) (root_after root now.step done) later last

  module _ (turn : ℕ → Turn) where
    -- What a step did that got through.
    unfoldable Called : ℕ → Step → Progress → Progress → Type 0
    Called round step before after =
        (input : Value) × (done : Success) × (received : ℕ) × (expand_template before.root
            step.input
          ≡ ok input)
        × (call round step.action_id input ≡ ok done)
        × (after ≡ to_progress step before (done, received))

    settled :
        (late : Bool) (r : Result Thrown Success) {done : Success}
        → settle_call late r ≡ ok done
        → r ≡ ok done
    unfolding settle_call
    settled late (ok d) h = cc
    settled true (err e) h = cc
    settled false (err e) h = cc

    lifted : {A : Type 0} (r : Result RecipeCode A) {a : A} → lift r ≡ ok a → r ≡ ok a
    lifted (ok b) h = cc
    lifted (err e) h = cc

    run_step-Called :
        (round : ℕ) (step : Step) (before after : Progress)
        → run_step call turn round step before ≡ ok after
        → Called round step before after
    unfolding run_step call_step Called
    run_step-Called round step before after h =
        let (called, ran, made) =
          bind-eq-ok (call_step call turn round step before) (λ c. ok (to_progress step before c))
            h in
        let (_, _, rest) = bind-eq-ok (guard (not (turn round).aborted) _) _ ran in
        let (input, expanded, rest) =
          bind-eq-ok (lift (expand_template before.root step.input)) _ rest in
        let (sent_bytes, counted, rest) = bind-eq-ok (lift (json_bytes input)) _ rest in
        let (sent, added, rest) = bind-eq-ok (add_bytes before.bytes sent_bytes) _ rest in
        let (done, settle, rest) =
          bind-eq-ok (settle_call (turn round).timed_out_late (call round step.action_id input)) _
            rest in
        let (bytes, measured, rest) = bind-eq-ok (lift (json_bytes done.output)) _ rest in
        let (received, more, rest) = bind-eq-ok (add_bytes sent bytes) _ rest in
        (
          input,
          done,
          received,
          lifted (expand_template before.root step.input) expanded,
          settled _ (call round step.action_id input) settle,
          cc,
        )

    -- What the run of these steps adds.
    unfoldable pub HasRun : ℕ → List Step → Progress → Progress → Type 0
    HasRun round steps before after =
        (receipts : List Receipt) × (after.receipts ≡ before.receipts ++ receipts)
        × (length receipts ≡ length steps)
        × Ran round before.root (pair_up steps receipts) after.root

    progress_eq : {p q : Progress} → ◌≡◌ {A = Result RunError Progress} (ok p) (ok q) → p ≡ q
    progress_eq h = cc

    pub run_steps-HasRun :
        (round : ℕ) (steps : List Step) (before after : Progress)
        → run_steps call turn round steps before ≡ ok after
        → HasRun round steps before after
    unfolding run_steps HasRun Called
    run_steps-HasRun round [] before after h =
        let same = progress_eq h in
        (
          [],
          ap (λ (p : Progress). p.receipts) (sym same) ∙ sym (append-nil before.receipts),
          refl,
          ap (λ (p : Progress). p.root) same,
        )
    run_steps-HasRun round (step ∷ steps) before after h =
        let (middle, first, rest) =
          bind-eq-ok (run_step call turn round step before) (run_steps call turn (round + 1) steps)
            h in
        let (input, done, received, expanded, called, made) =
          run_step-Called round step before middle first in
        let (receipts, collected, count, later) =
          run_steps-HasRun (round + 1) steps (to_progress step before (done, received)) after
            (subst (λ p. run_steps call turn (round + 1) steps p ≡ ok after) made rest) in
        (
          done.receipt ∷ receipts,
          collected ∙ append_assoc before.receipts (done.receipt ∷ []) receipts,
          ap suc count,
          (input, done, expanded, called, refl, later),
        )
