-- ===== src/ComputerUse/Session.antt =====
-- One session of `createComputerUseController`: its state, and the parts of the controller that start,
-- end and admit operations. A promise that the source awaits is an event of Session/Step.antt, and the
-- code between two awaits is one transition.
pub mod Observe
pub mod Execute
pub mod Step
mod Starts
pub mod Shut
pub mod Order
pub mod Approved
pub mod Settled
mod Tests
mod State
unfoldable pub use State.*
use useful.Common.{
  ℕ, suc, ◌+◌, ◌-◌, max, Bool, true, false, not, ◌&&◌, ◌||◌, List, [], ◌∷◌, Option, none, some,
  Text, leb, ltb, ◌==◌, if◌then◌else◌, Result, ok, err, ◌>>=◌, ◌>>◌, guard,
}
use useful.Js.Value.{Value}
use useful.ComputerUse.Base.{
  Code, session_closed, session_poisoned, session_expired, concurrent_action, cancelled,
  step_deadline_exceeded, total_deadline_exceeded,
}
use useful.ComputerUse.Action.{ActionType}
use useful.ComputerUse.Checks.{Source, Check}
use useful.ComputerUse.Policy.{Policy}

-- `getSession`, on a session that the controller has.
unfoldable pub admit : Session → ℕ → Result Code (Unit {0})
admit s now = do
  guard (not (s.closed || s.closing)) session_closed
  guard (not s.poisoned) session_poisoned
  guard (ltb now s.expires_at) session_expired

-- `assertCurrent`: `aborted` is the state of the signal.
unfoldable pub assert_current : Session → Operation → Result Code (Unit {0})
assert_current s o = elim o.aborted [
  | some code ↦ err code
  | none ↦
      if not (s.generation == o.generation) || (s.closed || s.closing)
      then err session_closed
      else guard (not s.poisoned) session_poisoned
]

-- `boundedOptions`: the time that an operation gets, and the code with which it is timed out.
pub record Bound : Type 0 where
  pub timeout_ms : ℕ
  pub timeout_code : Code

unfoldable pub bounded_options : Policy → Session → ℕ → Result Code Bound
bounded_options p s now =
    let total = s.expires_at - now in
    if leb s.expires_at now
    then err session_expired
    else if leb total p.step_deadline_ms
    then ok (record { timeout_ms = total; timeout_code = total_deadline_exceeded })
    else ok (record { timeout_ms = p.step_deadline_ms; timeout_code = step_deadline_exceeded })

-- One operation at a time.
unfoldable pub check_free : Option Operation → Result Code (Unit {0})
check_free none = ok tt
check_free (some running) = err concurrent_action

unfoldable pub occupied : Session → Work → Bound → Session
occupied s work bound = record s {
  operation = some (record {
    work = work;
    generation = s.generation;
    timeout_code = bound.timeout_code;
    aborted = none;
  });
}

-- `startOperation`; `aborted` is the caller's signal.
unfoldable pub start_operation : Policy → Session → Work → ℕ → Bool → Result Code Session
start_operation p s work now aborted = do
  check_free s.operation
  guard (not aborted) cancelled
  bound ← bounded_options p s now
  ok (occupied s work bound)

-- `onFinally` of `execute`, which `observe` does not have.
unfoldable pub step_of : Work → Option ℕ
step_of deferred = none
step_of observing = none
step_of (recording digest) = none
step_of (digesting r) = some r.step
step_of (preparing r ad) = some r.step
step_of (approving r p given c cs) = some r.step
step_of (authorizing r p given) = some r.step
step_of (committing r p given) = some r.step
step_of (reporting r p given code) = some r.step

unfoldable pub advance : Work → ℕ → ℕ
advance work next = elim (step_of work) [ none ↦ next | some step ↦ max next (step + 1) ]

-- The `finally` of `startOperation`.
unfoldable pub end_operation : Session → Operation → Session
end_operation s o = record s { operation = none; next_step = advance o.work s.next_step }

-- The signal of an operation is aborted; the first abort counts.
unfoldable pub abort_operation : (Operation → Code) → Option Operation → Option Operation
abort_operation code_of none = none
abort_operation code_of (some o) =
    some (record o { aborted = elim o.aborted [ none ↦ some (code_of o) | some c ↦ some c ] })

-- The part of `close` before its first await. A close that is already under way is shared.
unfoldable pub start_close : Session → Session
start_close s = if s.close_pending || s.closed then s else record s {
  closing = true;
  generation = s.generation + 1;
  operation = abort_operation (λ o. cancelled) s.operation;
  close_pending = true;
}

abbrev pub is_execute : Work → Bool
is_execute work = elim (step_of work) [ none ↦ false | some step ↦ true ]

-- The race of `runBounded`: an operation that was aborted has failed with the code of its abort.
unfoldable pub failure_of : Operation → PoisonReason → PoisonReason
failure_of o reason = elim o.aborted [ none ↦ reason | some code ↦ coded code ]

-- An operation that fails with a reason: `finally`, and then the `catch` of `execute`, which poisons
-- and closes a session whose commit had started.
unfoldable pub fail_operation : Session → Operation → PoisonReason → Session
fail_operation s o reason =
    let ended = end_operation s o in
    if is_execute o.work && s.commit_started
    then start_close (record ended { poisoned = true; poison_reason = some (failure_of o reason) })
    else ended

-- What an event asks of the outside, and how it settles the promise of an operation.
pub data Call : Type 0 where
  provider_observe : Call
  digest_action : Value → Call
  provider_prepare : Request → Call
  approval : Request → Prepared → Check → Call
  audit_observation : Text → Call
  audit_authorization : Request → Prepared → List Approval → Call
  provider_commit : Request → Prepared → List Approval → Call
  audit_action : Request → Prepared → List Approval → Text → Call

pub data Reply : Type 0 where
  observed : Text → Reply
  executed : ℕ → Text → Reply
  failed : PoisonReason → Reply

pub record Outcome : Type 0 where
  pub session : Session
  pub calls : List Call
  pub reply : Option Reply

-- The operation goes on to its next await.
unfoldable pub go_on : Session → Operation → Work → Call → Outcome
go_on s o work call = record {
  session = record s { operation = some (record o { work = work }) };
  calls = call ∷ [];
  reply = none;
}

unfoldable pub fail_with : Session → Operation → PoisonReason → Outcome
fail_with s o reason = record {
  session = fail_operation s o reason;
  calls = [];
  reply = some (failed (failure_of o reason));
}

-- A check that throws its code inside an operation.
unfoldable pub or_fail {ℓ} :
    {A : Type ℓ} → Session → Operation → Result Code A → (A → Outcome) → Outcome
or_fail s o (ok a) k = k a
or_fail s o (err code) k = fail_with s o (coded code)

-- The method returns its promise: what `start_operation` gives is under way, or the method throws.
unfoldable pub begin : Session → List Call → Result Code Session → Outcome
begin s calls (ok t) = record { session = t; calls = calls; reply = none }
begin s calls (err code) = record { session = s; calls = []; reply = some (failed (coded code)) }
