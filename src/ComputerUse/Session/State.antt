-- ===== src/ComputerUse/Session/State.antt =====
-- The state of a session and of the operation that it runs: what `createSession` makes, and the await at
-- which `observe` or `execute` stands.
use useful.Common.{ℕ, ◌+◌, Bool, false, List, [], Option, none, Text}
use useful.Js.Value.{Value}
use useful.ComputerUse.Base.{Code}
use useful.ComputerUse.Action.{ActionType}
use useful.ComputerUse.Checks.{Source, Check}
use useful.ComputerUse.Policy.{Policy}

-- An admitted request of `execute`: `safeRequest`, with the checks that the model asked for.
pub record Request : Type 0 where
  pub step : ℕ
  pub observation_digest : Text
  pub action : Value
  pub action_type : ActionType
  pub model_checks : List Check

-- What the provider prepared, with all checks that are to be approved.
pub record Prepared : Type 0 where
  pub action_digest : Text
  pub action_id : Text
  pub checks : List Check

pub record Approval : Type 0 where
  pub safety_check_id : Text
  pub source : Source
  pub approval_id : Text
  pub prepared_action_id : Text
  pub step : ℕ
  pub observation_digest : Text
  pub action_digest : Text

-- The await at which an operation stands. `deferred` is that of `runBounded`, which puts off an `observe` to a
-- promise's job.
pub data Work : Type 0 where
  deferred : Work
  observing : Work
  recording : Text → Work
  digesting : Request → Work
  preparing : Request → Text → Work
  approving : Request → Prepared → List Approval → Check → List Check → Work
  authorizing : Request → Prepared → List Approval → Work
  committing : Request → Prepared → List Approval → Work
  reporting : Request → Prepared → List Approval → Text → Work

-- `aborted` is the code with which `runBounded` rejects once its signal is aborted.
pub record Operation : Type 0 where
  pub work : Work
  pub generation : ℕ
  pub timeout_code : Code
  pub aborted : Option Code

-- An error by its code, if it is one of the contract's.
pub data PoisonReason : Type 0 where
  coded : Code → PoisonReason
  commit_outcome_unknown provider_close_failed : PoisonReason

-- `operation` is `operationPromise` with its controller and kind, `close_pending` is `closePromise`, and
-- `late_audits` and `late_commits` count the operations that were given up while their audit of an
-- observation, or their commit, was still running.
pub record Session : Type 0 where
  pub expires_at : ℕ
  pub next_step : ℕ
  pub latest_digest : Option Text
  pub latest_domain : Option Text
  pub used_steps : List ℕ
  pub operation : Option Operation
  pub generation : ℕ
  pub poisoned : Bool
  pub poison_reason : Option PoisonReason
  pub commit_started : Bool
  pub commit_completed : Bool
  pub close_pending : Bool
  pub closing : Bool
  pub closed : Bool
  pub late_audits : ℕ
  pub late_commits : ℕ

-- The state that `createSession` makes.
unfoldable pub created : Policy → ℕ → Session
created p now = record {
  expires_at = now + p.total_deadline_ms;
  next_step = 1;
  latest_digest = none;
  latest_domain = none;
  used_steps = [];
  operation = none;
  generation = 1;
  poisoned = false;
  poison_reason = none;
  commit_started = false;
  commit_completed = false;
  close_pending = false;
  closing = false;
  closed = false;
  late_audits = 0;
  late_commits = 0;
}
