-- ===== src/Actions/Recipe/Rounds.antt =====
-- What holds in every round of a recipe's run.
use useful.Common.{
  ℕ, ◌+◌, true, List, [], ◌∷◌, ◌++◌, append-nil, some, Text, text_eq, contains, Result, ok,
  bind-eq-ok, ◌≡◌, inl, inr, refl, sym, subst, ap, ◌∙◌, Bool-cases,
}
use useful.Js.Value.{Value, get}
use useful.Actions.Registry.{Registry}
use useful.Actions.Executor.{Thrown, Success}
use useful.Actions.Recipe.{Step, validate_recipe}
use useful.Actions.Recipe.References.{References, inspect_template-References}
use useful.Actions.Recipe.Found.{IsFound, Covers, References-IsFound}
use useful.Actions.Recipe.Run.{
  output_of, Root, Turn, Progress, RunError, call_step, to_progress, run_step, run_steps, start,
}
use useful.Actions.Recipe.Safe.{Chain, completed_by, validate_recipe_parts, validate_steps-Chain}

progress_eq : {p q : Progress} → ◌≡◌ {A = Result RunError Progress} (ok p) (ok q) → p ≡ q
progress_eq h = cc

none_yet :
    (root : Root) (id : Text)
    → contains [] id ≡ true
    → (output : Value) × (output_of id root.outputs ≡ some output)
unfolding contains
none_yet root id h = cc

Covers-more :
    (step : Step) (progress : Progress) (called : Success × ℕ) (completed : List Text)
    → Covers progress.root completed
    → Covers (to_progress step progress called).root (step.id ∷ completed)
unfolding contains output_of
Covers-more step progress called completed c id known = elim (Bool-cases (text_eq step.id id)) [
  | inl e ↦ (called.0.output, rw e refl)
  | inr e ↦ let (output, there) = c id (rw e at known) in (output, rw e there)
]

-- What the run turns to next: the template of a step, or that of the output.
abbrev pub next_template : Value → List Step → Value
next_template recipe [] = get "output" recipe
next_template recipe (step ∷ steps) = step.input

module _ {H : Type 0} (registry : Registry H) (call : ℕ → Text → Value → Result Thrown Success)
    (turn : ℕ → Turn) where
  run_step-to_progress :
      (round : ℕ) (step : Step) (progress after : Progress)
      → run_step call turn round step progress ≡ ok after
      → (called : Success × ℕ) × (after ≡ to_progress step progress called)
  unfolding run_step
  run_step-to_progress round step progress after h =
      let (called, ran, made) =
        bind-eq-ok (call_step call turn round step progress) (λ c. ok (to_progress step progress c))
          h in
      (called, cc)

  run_steps-Covers :
      (round : ℕ) (steps : List Step) (completed : List Text) (before after : Progress)
      → run_steps call turn round steps before ≡ ok after
      → Covers before.root completed
      → Covers after.root (completed_by completed steps)
  unfolding run_steps
  run_steps-Covers round [] completed before after h c =
      subst (λ (p : Progress). Covers p.root completed) (progress_eq h) c
  run_steps-Covers round (step ∷ steps) completed before after h c =
      let (middle, ran, rest) =
        bind-eq-ok (run_step call turn round step before) (run_steps call turn (round + 1) steps)
          h in
      let (called, made) = run_step-to_progress round step before middle ran in
      run_steps-Covers (round + 1) steps (step.id ∷ completed) middle after rest (
        subst (λ (p : Progress). Covers p.root (step.id ∷ completed)) (sym made)
          (Covers-more step before called completed c))

  Chain-behind :
      (completed : List Text) (front back : List Step)
      → Chain registry completed (front ++ back)
      → Chain registry (completed_by completed front) back
  Chain-behind completed [] back h = h
  Chain-behind completed (step ∷ front) back (first, rest) =
      Chain-behind (step.id ∷ completed) front back rest

  -- In whatever round a run of a validated recipe is, every reference of the template that comes next, of a
  -- step or of the output, names the input or the output of a step that has run: a run never asks for the
  -- output of a step that has none.
  pub run_steps-IsFound :
      (recipe : Value) (front back : List Step) (bytes : ℕ) (progress : Progress)
      → validate_recipe registry recipe ≡ ok (front ++ back)
      → run_steps call turn 0 front (start recipe bytes) ≡ ok progress
      → References (IsFound progress.root) (next_template recipe back)
  run_steps-IsFound recipe front [] bytes progress valid ran =
      let (values, completed, read, steps, output) =
        validate_recipe_parts registry recipe (front ++ []) valid in
      let (chain, count, behind) =
        validate_steps-Chain registry values [] (front ++ [], completed) steps in
      let all_run : completed ≡ completed_by [] front =
        behind ∙ ap (completed_by []) (append-nil front) in
      References-IsFound progress.root completed (get "output" recipe)
        (subst (Covers progress.root) (sym all_run) (
          run_steps-Covers 0 front [] (start recipe bytes) progress ran
            (none_yet (start recipe bytes).root)))
        (inspect_template-References (get "output" recipe) completed output)
  run_steps-IsFound recipe front (step ∷ back) bytes progress valid ran =
      let (values, completed, read, steps, output) =
        validate_recipe_parts registry recipe (front ++ step ∷ back) valid in
      let (chain, count, behind) =
        validate_steps-Chain registry values [] (front ++ step ∷ back, completed) steps in
      let (next, later) = Chain-behind [] front (step ∷ back) chain in
      References-IsFound progress.root (completed_by [] front) step.input
        (run_steps-Covers 0 front [] (start recipe bytes) progress ran
          (none_yet (start recipe bytes).root))
        next.backward
