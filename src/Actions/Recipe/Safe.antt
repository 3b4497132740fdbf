-- ===== src/Actions/Recipe/Safe.antt =====
-- What a validated recipe may do.
use useful.Common.{
  suc, ◌≤◌, true, false, List, [], ◌∷◌, some, Text, length, text_eq_iff, contains, Result, ok,
  ◌>>=◌, ◌>>◌, bind-eq-ok, ◌≡◌, inl, inr, refl, subst, ap, ◌∙◌, arith, Option-cases,
}
use useful.Js.Value.{Value, get}
use useful.Actions.Registry.{Entry, Registry, resolve}
use useful.Actions.Recipe.Pointer.{RecipeCode, is_step_id}
use useful.Actions.Recipe.{
  inspect_template, eligible, read_step, to_step, read_steps, max_steps, Step, resolve_action,
  validate_step, validate_steps, validate_recipe,
}
use useful.Actions.Recipe.References.{References, IsReference, inspect_template-References}

-- The identifiers behind these steps, the last one first.
abbrev pub completed_by : List Text → List Step → List Text
completed_by completed [] = completed
completed_by completed (step ∷ steps) = completed_by (step.id ∷ completed) steps

pair_eq :
    {p q : List Step × List Text}
    → ◌≡◌ {A = Result RecipeCode (List Step × List Text)} (ok p) (ok q)
    → p ≡ q
pair_eq h = cc

read_steps-length :
    (recipe : Value) (values : List Value)
    → read_steps recipe ≡ ok values
    → (1 ≤ length values) × (length values ≤ max_steps)
unfolding read_steps
read_steps-length recipe values h = ground arith

module _ {H : Type 0} (registry : Registry H) where
  -- The action is registered under just this name, and a recipe may run it: it only reads, can be repeated,
  -- reaches no open world, and asks for no confirmation, permission or capability.
  pub record IsAllowed (action_id : Text) : Type 0 where
    pub entry : Entry H
    pub registered : resolve registry action_id ≡ some entry
    pub canonical : entry.descriptor.action_id ≡ action_id
    pub allowed : eligible entry.descriptor ≡ true

  resolve_action-IsAllowed :
      (action_id : Text) {entry : Entry H}
      → resolve_action registry action_id ≡ ok entry
      → IsAllowed action_id
  unfolding resolve_action
  resolve_action-IsAllowed action_id h = elim (Option-cases (resolve registry action_id)) [
    | inl e ↦ let h' = rw e at h in cc
    | inr (found, e) ↦
        let h' = rw e at h in
        record {
          entry = found;
          registered = e;
          canonical = ground (arith, text_eq_iff found.descriptor.action_id action_id);
          allowed = ground arith;
        }
  ]

  read_step-new :
      (value : Value) (completed : List Text) (names : Text × Text)
      → read_step value completed ≡ ok names
      → (is_step_id names.0 ≡ true) × (contains completed names.0 ≡ false)
  unfolding read_step
  read_step-new value completed names h = ground arith

  -- What is known of a validated step.
  pub record IsStep (completed : List Text) (step : Step) : Type 0 where
    pub named : is_step_id step.id ≡ true
    pub new : contains completed step.id ≡ false
    pub action : IsAllowed step.action_id
    pub backward : References (IsReference completed) step.input

  validate_step-IsStep :
      (value : Value) (completed : List Text) (step : Step)
      → validate_step registry value completed ≡ ok step
      → IsStep completed step
  unfolding validate_step
  validate_step-IsStep value completed step h =
      let input = get "input" value in
      let (names, read, rest) =
        bind-eq-ok (read_step value completed)
          (λ (n : Text × Text). resolve_action registry n.1 >>= λ entry.
            inspect_template input completed >> ok (to_step registry n.0 n.1 input entry))
          h in
      let (entry, resolved, rest') =
        bind-eq-ok (resolve_action registry names.1)
          (λ entry.
            inspect_template input completed >> ok (to_step registry names.0 names.1 input entry))
          rest in
      let (unit, inspected, made) =
        bind-eq-ok (inspect_template input completed)
          (λ _. ok (to_step registry names.0 names.1 input entry)) rest' in
      let same : to_step registry names.0 names.1 input entry ≡ step = cc in
      let (named, new) = read_step-new value completed names read in
      subst (IsStep completed) same (record {
        named = named;
        new = new;
        action = resolve_action-IsAllowed names.1 resolved;
        backward = inspect_template-References input completed inspected;
      })

  -- Each step is valid after the steps before it.
  abbrev pub Chain : List Text → List Step → Type 0
  Chain completed [] = Unit
  Chain completed (step ∷ steps) = IsStep completed step × Chain (step.id ∷ completed) steps

  pub validate_steps-Chain :
      (values : List Value) (completed : List Text) (plan : List Step × List Text)
      → validate_steps registry values completed ≡ ok plan
      → Chain completed plan.0
        × (length plan.0 ≡ length values)
        × (plan.1 ≡ completed_by completed plan.0)
  unfolding validate_steps
  validate_steps-Chain [] completed plan h =
      subst
        (λ (p : List Step × List Text).
          Chain completed p.0 × (length p.0 ≡ 0) × (p.1 ≡ completed_by completed p.0))
        (pair_eq h) (tt, refl, refl)
  validate_steps-Chain (value ∷ values) completed plan h =
      let more : Step → Result RecipeCode (List Step × List Text) = λ step.
        validate_steps registry values (step.id ∷ completed) >>= λ rest.
        ok (step ∷ rest.0, rest.1) in
      let (step, valid, rest) = bind-eq-ok (validate_step registry value completed) more h in
      let (tail, valid', made) =
        bind-eq-ok (validate_steps registry values (step.id ∷ completed))
          (λ (r : List Step × List Text). ok (step ∷ r.0, r.1)) rest in
      let (chain, count, behind) = validate_steps-Chain values (step.id ∷ completed) tail valid' in
      subst
        (λ (p : List Step × List Text).
          Chain completed p.0
          × (length p.0 ≡ suc (length values))
          × (p.1 ≡ completed_by completed p.0))
        (pair_eq made)
        ((validate_step-IsStep value completed step valid, chain), ap suc count, behind)

  pub validate_recipe_parts :
      (recipe : Value) (plan : List Step)
      → validate_recipe registry recipe ≡ ok plan
      → (values : List Value) × (completed : List Text) × (read_steps recipe ≡ ok values)
        × (validate_steps registry values [] ≡ ok (plan, completed))
        × (inspect_template (get "output" recipe) completed ≡ ok tt)
  unfolding validate_recipe
  validate_recipe_parts recipe plan h =
      let last : List Step × List Text → Result RecipeCode (List Step) =
        λ p. inspect_template (get "output" recipe) p.1 >> ok p.0 in
      let (values, read, rest) =
        bind-eq-ok (read_steps recipe) (λ vs. validate_steps registry vs [] >>= last) h in
      let (found, steps, rest') = bind-eq-ok (validate_steps registry values []) last rest in
      let (unit, output, made) =
        bind-eq-ok (inspect_template (get "output" recipe) found.1) (λ _. ok found.0) rest' in
      let same : found.0 ≡ plan = cc in
      (values, found.1, read, steps ∙ ap (λ p. ok (p, found.1)) same, output)

  -- A validated recipe has 1 to 16 steps with identifiers of their own. Each runs an action that is registered
  -- under just the name that the step gives, and that only reads, can be repeated, is confined, and needs no
  -- confirmation, permission or capability; and each refers only to the input and to steps before it.
  pub validate_recipe-Chain :
      (recipe : Value) (plan : List Step)
      → validate_recipe registry recipe ≡ ok plan
      → Chain [] plan × (1 ≤ length plan) × (length plan ≤ max_steps)
  validate_recipe-Chain recipe plan h =
      let (values, completed, read, steps, output) = validate_recipe_parts recipe plan h in
      let (chain, count, behind) = validate_steps-Chain values [] (plan, completed) steps in
      let (low, high) = read_steps-length recipe values read in (chain, omega arith, omega arith)
