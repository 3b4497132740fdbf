-- ===== src/Actions/Recipe/Harmless.antt =====
-- What a validated recipe may do, described apart from the checks.
use useful.Common.{
  ◌≤◌, true, false, List, [], ◌∷◌, some, Text, codes, length, text_eq, text_eq_iff, contains,
  Result, ok, ◌>>=◌, ◌>>◌, guard, require, bind-eq-ok, then-eq-ok, ◌≡◌, ◌≢◌, inl, inr, refl, subst,
  arith, Bool-cases,
}
use useful.Js.Value.{Value, str, get}
use useful.Actions.Registry.{
  Descriptor, Mode, ui_only, pure, host, worker, Entry, Registry, resolve, is_ui_only,
}
use useful.Actions.Recipe.Pointer.{
  RecipeCode, Target, step_target, is_known, match_step, match_reference, segments_of, decode_all,
  validate_reference, is_step_id, begins_with_slash, reference_invalid, forward_reference,
}
use useful.Actions.Recipe.{Step, eligible, validate_recipe}
use useful.Actions.Recipe.References.{
  References, References-weaken, IsReference, inspect_template-References,
}
use useful.Actions.Recipe.Found.{require-some}
use useful.Actions.Recipe.Safe.{
  IsStep, Chain, completed_by, validate_recipe_parts, validate_steps-Chain, validate_recipe-Chain,
}

-- The parts of a pointer into the input, or into the output of a step that has been completed.
pub data LeadsBack (completed : List Text) : List Text → Type 0 where
  to_input : (rest : List Text) → LeadsBack completed (codes "input" ∷ rest)
  to_output :
      (id : Text) (rest : List Text)
      → contains completed id ≡ true
      → LeadsBack completed (codes "steps" ∷ id ∷ codes "output" ∷ rest)

abbrev pub IsBackward : List Text → Value → Type 0
IsBackward completed reference =
    (pointer : Text) × (reference ≡ str pointer) × LeadsBack completed (segments_of pointer)

-- Running the action only reads and can be repeated, reaches no open world and has no side effects, and asks for
-- no confirmation, permission or capability.
pub record IsHarmless (descriptor : Descriptor) : Type 0 where
  pub headless : descriptor.mode ≢ ui_only
  pub reads : descriptor.read_only ≡ true
  pub mild : descriptor.destructive ≡ false
  pub repeatable : descriptor.idempotent ≡ true
  pub confined : descriptor.open_world ≡ false
  pub unasked : descriptor.requires_confirmation ≡ false
  pub effectless : descriptor.side_effects ≡ []
  pub permitted : descriptor.required ≡ []
  pub incapable : descriptor.capabilities ≡ []

no_texts : (ts : List Text) → length ts ≤ 0 → ts ≡ []
no_texts [] h = refl
no_texts (t ∷ ts) h = absurd (omega arith)

not_ui_only : (mode : Mode) → is_ui_only mode ≡ false → mode ≢ ui_only
not_ui_only pure h e = cc
not_ui_only host h e = cc
not_ui_only worker h e = cc
not_ui_only ui_only h e = cc

eligible-IsHarmless : (descriptor : Descriptor) → eligible descriptor ≡ true → IsHarmless descriptor
unfolding eligible
eligible-IsHarmless descriptor h = record {
  headless = not_ui_only descriptor.mode (ground arith);
  reads = ground arith;
  mild = ground arith;
  repeatable = ground arith;
  confined = ground arith;
  unasked = ground arith;
  effectless = no_texts descriptor.side_effects (ground arith);
  permitted = no_texts descriptor.required (ground arith);
  incapable = no_texts descriptor.capabilities (ground arith);
}

is_step_id-length : (id : Text) → is_step_id id ≡ true → (1 ≤ length id) × (length id ≤ 32)
unfolding is_step_id
is_step_id-length [] h = cc
is_step_id-length (c ∷ t) h = ground arith

matched_part :
    (id part : Text) (rest : List Text) {found : Target × List Text}
    → match_step (id ∷ part ∷ rest) ≡ some found
    → (part ≡ codes "output") × (found.0 ≡ step_target id)
unfolding match_step
matched_part id part rest h = ground (arith, text_eq_iff part (codes "output"))

match_step-LeadsBack :
    (completed : List Text) (segments : List Text) {found : Target × List Text}
    → match_step segments ≡ some found
    → is_known completed found.0 ≡ true
    → LeadsBack completed (codes "steps" ∷ segments)
unfolding match_step
match_step-LeadsBack completed [] m k = cc
match_step-LeadsBack completed (id ∷ []) m k = cc
match_step-LeadsBack completed (id ∷ part ∷ rest) {found} m k =
    let (output, target) = matched_part id part rest m in
    let known : contains completed id ≡ true = rw target at k in rw output (to_output id rest known)

match_reference-LeadsBack :
    (completed : List Text) (segments : List Text) {found : Target × List Text}
    → match_reference segments ≡ some found
    → is_known completed found.0 ≡ true
    → LeadsBack completed segments
unfolding match_reference
match_reference-LeadsBack completed [] m k = cc
match_reference-LeadsBack completed (first ∷ rest) m k =
    elim (Bool-cases (text_eq first (codes "input"))) [
      | inl e ↦ rw ((text_eq_iff first (codes "input")).0 e) (to_input rest)
      | inr e ↦ elim (Bool-cases (text_eq first (codes "steps"))) [
        | inl s ↦
            let m' : match_step rest ≡ some _ = rw (e, s) at m in
            rw ((text_eq_iff first (codes "steps")).0 s) (match_step-LeadsBack completed rest m' k)
        | inr s ↦ let m' = rw (e, s) at m in cc
      ]
    ]

validate_reference-IsBackward :
    (completed : List Text) (reference : Value)
    → IsReference completed reference
    → IsBackward completed reference
unfolding validate_reference
validate_reference-IsBackward completed (str pointer) h =
    let segments = segments_of pointer in
    let decode : Result RecipeCode (Unit {0}) = decode_all segments >>= λ _. ok tt in
    let after : Target × List Text → Result RecipeCode (Unit {0}) =
      λ f. guard (is_known completed f.0) forward_reference >> decode in
    let (found, match, rest) =
      bind-eq-ok (require (match_reference segments) reference_invalid) after
        (then-eq-ok (begins_with_slash pointer) reference_invalid
          (require (match_reference segments) reference_invalid >>= after) h).1 in
    let (known, decoding) = then-eq-ok (is_known completed found.0) forward_reference decode rest in
    (
      pointer,
      refl,
      match_reference-LeadsBack completed segments
          (require-some (match_reference segments) reference_invalid match) known,
    )
validate_reference-IsBackward completed _ h = cc

all-IsBackward :
    (completed : List Text) (v : Value)
    → References (IsReference completed) v
    → References (IsBackward completed) v
all-IsBackward completed v h =
    References-weaken (IsReference completed) (IsBackward completed)
      (validate_reference-IsBackward completed) v h

module _ {H : Type 0} (registry : Registry H) where
  -- A step behind the steps `completed`: a name of its own, a harmless action that is registered under just the
  -- name that the step gives, and references that lead back.
  pub record IsSafe (completed : List Text) (step : Step) : Type 0 where
    pub named : (1 ≤ length step.id) × (length step.id ≤ 32)
    pub new : contains completed step.id ≡ false
    pub entry : Entry H
    pub registered : resolve registry step.action_id ≡ some entry
    pub canonical : entry.descriptor.action_id ≡ step.action_id
    pub harmless : IsHarmless entry.descriptor
    pub backward : References (IsBackward completed) step.input

  abbrev pub AllSafe : List Text → List Step → Type 0
  AllSafe completed [] = Unit
  AllSafe completed (step ∷ steps) = IsSafe completed step × AllSafe (step.id ∷ completed) steps

  IsStep-IsSafe :
      (completed : List Text) (step : Step) → IsStep registry completed step → IsSafe completed step
  IsStep-IsSafe completed step h = record {
    named = is_step_id-length step.id h.named;
    new = h.new;
    entry = h.action.entry;
    registered = h.action.registered;
    canonical = h.action.canonical;
    harmless = eligible-IsHarmless h.action.entry.descriptor h.action.allowed;
    backward = all-IsBackward completed step.input h.backward;
  }

  Chain-AllSafe :
      (completed : List Text) (steps : List Step)
      → Chain registry completed steps
      → AllSafe completed steps
  Chain-AllSafe completed [] h = tt
  Chain-AllSafe completed (step ∷ steps) (first, rest) =
      (IsStep-IsSafe completed step first, Chain-AllSafe (step.id ∷ completed) steps rest)

  -- A validated recipe has 1 to 16 steps, each with a name of 1 to 32 units that no step before it has. Each runs
  -- an action that is registered under just the name in the recipe and that is not for the interface only, only
  -- reads, destroys nothing, can be repeated, reaches no open world, has no side effects, and needs no
  -- confirmation, permission or capability. Each reference of a step is a pointer into the input or into the
  -- output of a step before it, and each of the recipe's output is one into the input or the output of a step.
  pub validate_recipe-AllSafe :
      (recipe : Value) (plan : List Step)
      → validate_recipe registry recipe ≡ ok plan
      → AllSafe [] plan
        × (1 ≤ length plan)
        × (length plan ≤ 16)
        × References (IsBackward (completed_by [] plan)) (get "output" recipe)
  validate_recipe-AllSafe recipe plan h =
      let (chain, low, high) = validate_recipe-Chain registry recipe plan h in
      let (values, completed, read, steps, output) = validate_recipe_parts registry recipe plan h in
      let (same, count, behind) = validate_steps-Chain registry values [] (plan, completed) steps in
      let checked = inspect_template-References (get "output" recipe) completed output in
      let last : References (IsBackward (completed_by [] plan)) (get "output" recipe) =
        all-IsBackward (completed_by [] plan) (get "output" recipe)
          (subst (λ c. References (IsReference c) (get "output" recipe)) behind checked) in
      (Chain-AllSafe [] plan chain, low, high, last)
