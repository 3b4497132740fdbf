-- ===== src/ComputerUse/Session/Step.antt =====
-- The events of one session and what each does: a call of the controller's methods, the end of an
-- await, an abort, and the promises that go on after their operation was given up.
use useful.Common.{
  ℕ, zero, suc, ◌+◌, Bool, true, false, not, ◌&&◌, List, [], ◌∷◌, ◌++◌, Option, none, some, Text,
  if◌then◌else◌,
}
use useful.Js.Value.{Value}
use useful.ComputerUse.Base.{Code, audit_failed, cancelled}
use useful.ComputerUse.Policy.{Policy, Url}
use useful.ComputerUse.Session.{
  deferred, observing, recording, digesting, preparing, approving, authorizing, committing,
  reporting, Work, Operation, PoisonReason, coded, Session, abort_operation, start_close, fail_with,
  Call, Outcome,
}
use useful.ComputerUse.Session.Observe.{start_observe, on_job, on_observation, on_recorded}
use useful.ComputerUse.Session.Execute.{
  start_execute, on_digest, on_prepared, on_decision, on_authorized, on_committed, on_reported,
}

-- How an await ends: with a value of the provider or of the approval callback, without a value that
-- is read (an audit, the digest of an action, the job of an `observe`), or with an error.
pub data Answer : Type 0 where
  returned : Value → Answer
  done : Answer
  threw : PoisonReason → Answer

pub data Event : Type 0 where
  observe : ℕ → Bool → Event
  execute : ℕ → ℕ → Bool → Value → Event
  answer : Answer → Event
  cancel time_out settle : Event
  late_audit_failed late_audit_done late_commit_done : Event
  close : Event
  provider_closed : Option PoisonReason → Event
  creation_audit_failed : Event

unfoldable pub stay : Session → Outcome
stay s = record { session = s; calls = []; reply = none }

-- The signal of the running operation is aborted.
unfoldable pub abort_with : Session → (Operation → Code) → Session
abort_with s code_of = record s { operation = abort_operation code_of s.operation }

-- An operation that is given up leaves the promise behind that it awaits.
unfoldable pub leave_behind : Session → Work → Session
leave_behind s (recording digest) = record s { late_audits = s.late_audits + 1 }
leave_behind s (committing r ready given) = record s { late_commits = s.late_commits + 1 }
leave_behind s _ = s

-- `runBounded` rejects an operation with the code of its abort, if there is one, without waiting for
-- its promise.
unfoldable pub reject : Session → Operation → Option Code → Outcome
reject s o none = stay s
reject s o (some code) = fail_with (leave_behind s o.work) o (coded code)

unfoldable pub give_up : Session → Option Operation → Outcome
give_up s none = stay s
give_up s (some o) = reject s o o.aborted

-- The audit of an observation that was given up has ended. Its failure takes the latest observation back.
unfoldable pub end_late_audit : Session → Bool → Session
end_late_audit s is_failed = elim s.late_audits [
  | zero ↦ s
  | suc n ↦
      if is_failed
      then record s { late_audits = n; latest_digest = none; latest_domain = none }
      else record s { late_audits = n }
]

-- A commit that was given up has returned.
unfoldable pub end_late_commit : Session → Session
end_late_commit s = elim s.late_commits [
  | zero ↦ s
  | suc n ↦ record s { late_commits = n; commit_completed = true }
]

-- `close` behind its await of the provider, which it reaches when no operation runs.
unfoldable pub end_close : Session → Option PoisonReason → Session
end_close s result = elim s.operation [
  | some o ↦ s
  | none ↦
      if s.close_pending && not s.closed
      then elim result [
        | none ↦ record s { closed = true; closing = false }
        | some reason ↦ record s {
          closing = false;
          poisoned = true;
          poison_reason = some reason;
          close_pending = false;
        }
      ]
      else s
]

-- The `catch` of `createSession`.
unfoldable pub fail_creation : Session → Session
fail_creation s =
    start_close (record s { poisoned = true; poison_reason = some (coded audit_failed) })

-- `url` is the platform's URL parser, `digest` is `digestAction`, and `asks` says that the controller
-- has an approval callback.
module _ (url : Text → Option Url) (digest : Value → Text) (p : Policy) (asks : Bool) where
  -- The operation's code from one await to the next.
  unfoldable pub resume : Session → Operation → Work → Answer → Outcome
  resume s o deferred done = on_job s o
  resume s o deferred (returned value) = stay s
  resume s o deferred (threw reason) = stay s
  resume s o observing (returned value) = on_observation url p s o value
  resume s o observing done = stay s
  resume s o observing (threw reason) = fail_with s o reason
  resume s o (recording seen) (returned value) = stay s
  resume s o (recording seen) done = on_recorded s o seen none
  resume s o (recording seen) (threw reason) = on_recorded s o seen (some reason)
  resume s o (digesting r) (returned value) = stay s
  resume s o (digesting r) done = on_digest s o r (digest r.action)
  resume s o (digesting r) (threw reason) = fail_with s o reason
  resume s o (preparing r ad) (returned value) = on_prepared asks s o r ad value
  resume s o (preparing r ad) done = stay s
  resume s o (preparing r ad) (threw reason) = fail_with s o reason
  resume s o (approving r ready given c cs) (returned value) =
      on_decision s o r ready given c cs value
  resume s o (approving r ready given c cs) done = stay s
  resume s o (approving r ready given c cs) (threw reason) = fail_with s o reason
  resume s o (authorizing r ready given) (returned value) = stay s
  resume s o (authorizing r ready given) done = on_authorized s o r ready given
  resume s o (authorizing r ready given) (threw reason) = fail_with s o reason
  resume s o (committing r ready given) (returned value) =
      on_committed url p s o r ready given value
  resume s o (committing r ready given) done = stay s
  resume s o (committing r ready given) (threw reason) = fail_with s o reason
  resume s o (reporting r ready given code) (returned value) = stay s
  resume s o (reporting r ready given code) done = on_reported s o r code
  resume s o (reporting r ready given code) (threw reason) = fail_with s o reason

  unfoldable pub resume_running : Session → Option Operation → Answer → Outcome
  resume_running s none a = stay s
  resume_running s (some o) a = resume s o o.work a

  unfoldable pub step : Session → Event → Outcome
  step s (observe now aborted) = start_observe p s now aborted
  step s (execute now later aborted request) = start_execute p s now later aborted request
  step s (answer a) = resume_running s s.operation a
  step s cancel = stay (abort_with s λ o. cancelled)
  step s time_out = stay (abort_with s λ o. o.timeout_code)
  step s settle = give_up s s.operation
  step s late_audit_failed = stay (end_late_audit s true)
  step s late_audit_done = stay (end_late_audit s false)
  step s late_commit_done = stay (end_late_commit s)
  step s close = stay (start_close s)
  step s (provider_closed result) = stay (end_close s result)
  step s creation_audit_failed = stay (fail_creation s)

  -- The session after a sequence of events, and all calls that they made, the earliest in front.
  unfoldable pub run : Session → List Event → Session × List Call
  run s [] = (s, [])
  run s (e ∷ es) =
      let next = step s e in let rest = run next.session es in (rest.0, next.calls ++ rest.1)
