-- ===== src/ComputerUse/Session/Order/Runs.antt =====
-- Every sequence of events keeps the order of the steps.
use useful.Common.{
  ℕ, ◌≤◌, Bool, true, false, List, [], ◌∷◌, Option, none, some, Text, Result, ok, err, Ensures,
  Ensures-any, ◌≡◌, refl, sym, subst, arith,
}
use useful.Js.Value.{Value}
use useful.ComputerUse.Base.{Code}
use useful.ComputerUse.Policy.{Policy, Url}
use useful.ComputerUse.Session.{
  Request, Work, deferred, recording, digesting, committing, Operation, PoisonReason, coded,
  Session, created, admit, step_of, digest_action,
}
use useful.ComputerUse.Session.Observe.{start_observe}
use useful.ComputerUse.Session.Execute.{check_idle, take_step, begin_request, start_execute}
use useful.ComputerUse.Session.Step.{
  Answer, Event, observe, execute, answer, cancel, time_out, settle, late_audit_failed,
  late_audit_done, late_commit_done, close, provider_closed, creation_audit_failed, stay,
  abort_with, leave_behind, reject, give_up, end_late_audit, end_late_commit, end_close,
  fail_creation, resume_running, step, run,
}
use useful.ComputerUse.Session.Order.{
  commit_steps, Ascending, Ascending-append, commit_steps-append, least_of, least, StepFits, Fits,
  Moves, Advances,
}
use useful.ComputerUse.Session.Order.Moves.{
  abort_operation-Moves, start_close-Moves, fail_with-Advances, begin-Advances, read_request-next,
  resume-Advances,
}

module _ (url : Text → Option Url) (digest : Value → Text) (p : Policy) (asks : Bool)
    (low : ℕ) where
  begin_request-Advances :
      (s : Session) (later : ℕ) (aborted : Bool) (m : Result Code Request)
      → Ensures (λ r. (r.step ≡ s.next_step) × (r.step ≤ p.max_steps)) m
      → Moves p.max_steps low s.operation s.next_step []
      → Advances p.max_steps low (begin_request p s later aborted m)
  unfolding begin_request Advances take_step commit_steps StepFits step_of least_of
  begin_request-Advances s later aborted (err code) next idle = idle
  begin_request-Advances s later aborted (ok r) next idle =
      begin-Advances p.max_steps low p (take_step s r) (digesting r) (digest_action r.action ∷ [])
        later aborted (ok tt) idle refl next refl

  start_execute-Advances :
      (s : Session) (now later : ℕ) (aborted : Bool) (request : Value)
      → Moves p.max_steps low s.operation s.next_step []
      → Advances p.max_steps low (start_execute p s now later aborted request)
  unfolding start_execute
  start_execute-Advances s now later aborted request idle =
      let Next : Request → Type 0 = λ r. (r.step ≡ s.next_step) × (r.step ≤ p.max_steps) in
      begin_request-Advances s later aborted _
        (Ensures-any Next (admit s now) _ λ _ open_session.
          Ensures-any Next (check_idle s aborted) _ λ _ free. read_request-next p s request)
        idle

  leave_behind-kept : (s : Session) (work : Work) → ((leave_behind s work).next_step ≡ s.next_step)
  unfolding leave_behind
  leave_behind-kept s (recording seen) = refl
  leave_behind-kept s (committing r ready given) = refl
  leave_behind-kept s _ = refl

  reject-Advances :
      (s : Session) (o : Operation) (aborted : Option Code)
      → Moves p.max_steps low (some o) s.next_step []
      → Moves p.max_steps low s.operation s.next_step []
      → Advances p.max_steps low (reject s o aborted)
  unfolding reject stay Advances Moves Fits least Ascending commit_steps
  reject-Advances s o none h idle = idle
  reject-Advances s o (some code) h idle =
      fail_with-Advances p.max_steps low (leave_behind s o.work) o (coded code)
        (rw (leave_behind-kept s o.work) h.0) (rw (leave_behind-kept s o.work) h.1)

  give_up-Advances :
      (s : Session) (running : Option Operation)
      → Moves p.max_steps low running s.next_step []
      → Moves p.max_steps low s.operation s.next_step []
      → Advances p.max_steps low (give_up s running)
  unfolding give_up stay Advances
  give_up-Advances s none h idle = idle
  give_up-Advances s (some o) h idle = reject-Advances s o o.aborted h idle

  resume_running-Advances :
      (s : Session) (running : Option Operation) (a : Answer)
      → Moves p.max_steps low running s.next_step []
      → Moves p.max_steps low s.operation s.next_step []
      → Advances p.max_steps low (resume_running url digest p asks s running a)
  unfolding resume_running stay Advances Moves Fits least Ascending commit_steps
  resume_running-Advances s none a h idle = idle
  resume_running-Advances s (some o) a h idle =
      resume-Advances url digest p asks low s o o.work a refl h.0 h.1 idle

  end_late_audit-Moves :
      (s : Session) (b : Bool)
      → Moves p.max_steps low s.operation s.next_step []
      → Moves p.max_steps low (end_late_audit s b).operation (end_late_audit s b).next_step []
  unfolding end_late_audit
  end_late_audit-Moves s b idle = ground arith

  end_late_commit-Moves :
      (s : Session)
      → Moves p.max_steps low s.operation s.next_step []
      → Moves p.max_steps low (end_late_commit s).operation (end_late_commit s).next_step []
  unfolding end_late_commit
  end_late_commit-Moves s idle = ground arith

  end_close-Moves :
      (s : Session) (result : Option PoisonReason)
      → Moves p.max_steps low s.operation s.next_step []
      → Moves p.max_steps low (end_close s result).operation (end_close s result).next_step []
  unfolding end_close
  end_close-Moves s result idle = ground arith

  step-Advances :
      (s : Session) (e : Event)
      → Moves p.max_steps low s.operation s.next_step []
      → Advances p.max_steps low (step url digest p asks s e)
  unfolding step start_observe stay abort_with fail_creation Advances StepFits step_of commit_steps
      least_of
  step-Advances s (observe now aborted) idle =
      begin-Advances p.max_steps low p s deferred [] now aborted (admit s now) idle refl tt refl
  step-Advances s (execute now later aborted request) idle =
      start_execute-Advances s now later aborted request idle
  step-Advances s (answer a) idle = resume_running-Advances s s.operation a idle idle
  step-Advances s cancel idle = abort_operation-Moves p.max_steps low _ s.operation _ idle
  step-Advances s time_out idle = abort_operation-Moves p.max_steps low _ s.operation _ idle
  step-Advances s settle idle = give_up-Advances s s.operation idle idle
  step-Advances s late_audit_failed idle = end_late_audit-Moves s true idle
  step-Advances s late_audit_done idle = end_late_audit-Moves s false idle
  step-Advances s late_commit_done idle = end_late_commit-Moves s idle
  step-Advances s close idle = start_close-Moves p.max_steps low s idle
  step-Advances s (provider_closed result) idle = end_close-Moves s result idle
  step-Advances s creation_audit_failed idle = start_close-Moves p.max_steps low _ idle

module _ (url : Text → Option Url) (digest : Value → Text) (p : Policy) (asks : Bool) where
  run-Ascending :
      (es : List Event) (s : Session) (low : ℕ)
      → Moves p.max_steps low s.operation s.next_step []
      → (high : ℕ) × Ascending p.max_steps low (commit_steps (run url digest p asks s es).1) high
  unfolding run Advances Moves Ascending commit_steps
  run-Ascending [] s low h = (_, h.1)
  run-Ascending (e ∷ es) s low h =
      let next = step url digest p asks s e in
      let (fits, first) = step-Advances url digest p asks low s e h in
      let (high, rest) = run-Ascending es next.session _ (fits, omega arith) in
      (
        high,
        subst (λ ks. Ascending p.max_steps low ks high)
            (sym (commit_steps-append next.calls (run url digest p asks next.session es).1))
            (Ascending-append p.max_steps low _ high (commit_steps next.calls) _ first rest),
      )

  -- Whatever a session is asked for and however its awaits end, the steps of the actions that the
  -- provider is told to commit rise strictly, each is at least 1, and none is above the policy's
  -- `maxSteps`: no step is ever committed twice.
  pub run-commit_steps :
      (now : ℕ) (es : List Event)
      → (high : ℕ) × Ascending p.max_steps 1
          (commit_steps (run url digest p asks (created p now) es).1)
          high
  unfolding created Moves Fits Ascending commit_steps least
  run-commit_steps now es = run-Ascending es (created p now) 1 (tt, omega arith)
