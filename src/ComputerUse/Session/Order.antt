-- ===== src/ComputerUse/Session/Order.antt =====
-- The steps of the commits: `nextStep`, `usedSteps` and the `finally` that advances them.
pub mod Moves
pub mod Runs
use useful.Common.{ℕ, ◌+◌, ◌≤◌, List, [], ◌∷◌, ◌++◌, Option, none, some, ◌≡◌, refl, ap, arith}
use useful.ComputerUse.Session.{
  Work, committing, reporting, Operation, step_of, advance, Call, provider_commit, Outcome,
}

-- The steps of the commits among the calls.
unfoldable pub commit_steps : List Call → List ℕ
commit_steps [] = []
commit_steps (provider_commit r ready given ∷ calls) = r.step ∷ commit_steps calls
commit_steps (_ ∷ calls) = commit_steps calls

-- From `low` on, each step is larger than the one in front of it, none is above `top`, and `high` is
-- above all.
unfoldable pub Ascending : ℕ → ℕ → List ℕ → ℕ → Type 0
Ascending top low [] high = low ≤ high
Ascending top low (k ∷ ks) high = (low ≤ k) × (k ≤ top) × Ascending top (k + 1) ks high

pub Ascending-append :
    (top : ℕ) (low mid high : ℕ) (ks js : List ℕ)
    → Ascending top low ks mid
    → Ascending top mid js high
    → Ascending top low (ks ++ js) high
unfolding Ascending
Ascending-append top low mid high [] [] h g = omega arith
Ascending-append top low mid high [] (j ∷ js) h g = ground arith
Ascending-append top low mid high (k ∷ ks) js h g =
    (h.0, h.1, Ascending-append top (k + 1) mid high ks js h.2 g)

pub commit_steps-append :
    (calls more : List Call)
    → commit_steps (calls ++ more) ≡ commit_steps calls ++ commit_steps more
unfolding commit_steps
commit_steps-append [] more = refl
commit_steps-append (provider_commit r ready given ∷ calls) more =
    ap (λ ks. r.step ∷ ks) (commit_steps-append calls more)
commit_steps-append (_ ∷ calls) more = commit_steps-append calls more

-- What the running operation leaves to be committed next, at the least.
unfoldable pub least_of : Work → ℕ → ℕ
least_of (committing r ready given) next = next + 1
least_of (reporting r ready given code) next = next + 1
least_of _ next = next

unfoldable pub least : Option Operation → ℕ → ℕ
least none next = next
least (some o) next = least_of o.work next

unfoldable pub StepFits : ℕ → ℕ → Option ℕ → Type 0
StepFits top next none = Unit
StepFits top next (some k) = (k ≡ next) × (k ≤ top)

-- The running operation executes the next step, which the limit admits.
unfoldable pub Fits : ℕ → ℕ → Option Operation → Type 0
Fits top next none = Unit
Fits top next (some o) = StepFits top next (step_of o.work)

unfoldable pub Moves : ℕ → ℕ → Option Operation → ℕ → List Call → Type 0
Moves top low running next calls =
    Fits top next running × Ascending top low (commit_steps calls) (least running next)

unfoldable pub Advances : ℕ → ℕ → Outcome → Type 0
Advances top low t = Moves top low t.session.operation t.session.next_step t.calls

pub advance-least :
    (top : ℕ) (work : Work) (next : ℕ)
    → StepFits top next (step_of work)
    → least_of work next ≤ advance work next
unfolding StepFits step_of least_of advance
advance-least top (committing r ready given) next fits = ground arith
advance-least top (reporting r ready given code) next fits = ground arith
advance-least top _ next fits = ground arith
