-- ===== src/ComputerUse/Session/Settled/Runs.antt =====
-- Every sequence of events settles what a commit has started.
use useful.Common.{
  ℕ, Bool, true, false, not, ◌||◌, List, [], ◌∷◌, Option, none, some, Text, Result, ok, err,
  Ensures, Ensures-intro, Ensures-any, bind-eq-ok, ◌≡◌, refl, ap, arith,
}
use useful.Js.Value.{Value}
use useful.ComputerUse.Base.{Code}
use useful.ComputerUse.Policy.{Policy, Url}
use useful.ComputerUse.Session.{
  Request, Work, deferred, recording, digesting, committing, Operation, PoisonReason, coded,
  Session, created, admit, check_free, start_operation, digest_action, begin,
}
use useful.ComputerUse.Session.Shut.{start_close-poisoned}
use useful.ComputerUse.Session.Starts.{check_free-none}
use useful.ComputerUse.Session.Observe.{start_observe}
use useful.ComputerUse.Session.Execute.{
  read_request, check_idle, take_step, begin_request, start_execute,
}
use useful.ComputerUse.Session.Step.{
  Answer, Event, observe, execute, answer, cancel, time_out, settle, late_audit_failed,
  late_audit_done, late_commit_done, close, provider_closed, creation_audit_failed, stay,
  abort_with, leave_behind, reject, give_up, end_late_audit, end_late_commit, end_close,
  fail_creation, resume_running, step, run,
}
use useful.ComputerUse.Session.Settled.{
  is_committing, is_committed, is_accounted, is_held, Settles, is_committed-abort_operation,
  is_committed-start_close, commit_started-start_close, is_held-start_close, is_accounted-is_shut,
  fail_with-Settles, begin-Settles, is_committed-none, resume-Settles,
}

module _ (url : Text → Option Url) (digest : Value → Text) (p : Policy) (asks : Bool) where
  take_step-Settles :
      (s : Session) (later : ℕ) (aborted : Bool) (r : Request)
      → s.operation ≡ none
      → Settles (is_committed s.operation) (
          begin
            (take_step s r)
            (digest_action r.action ∷ [])
            (start_operation p (take_step s r) (digesting r) later aborted))
  unfolding take_step is_held is_committing
  take_step-Settles s later aborted r free =
      begin-Settles p (take_step s r) (digesting r) (digest_action r.action ∷ []) later aborted
        (ok tt) refl (rw (is_committed-none s.operation free) refl)

  begin_request-Settles :
      (s : Session) (later : ℕ) (aborted : Bool) (m : Result Code Request)
      → Ensures (λ r. s.operation ≡ none) m
      → is_held s.operation s.commit_started ≡ true
      → Settles (is_committed s.operation) (begin_request p s later aborted m)
  unfolding begin_request Settles is_accounted
  begin_request-Settles s later aborted (err code) free h = (h, λ w. ground arith)
  begin_request-Settles s later aborted (ok r) free h = take_step-Settles s later aborted r free

  start_execute-Settles :
      (s : Session) (now later : ℕ) (aborted : Bool) (request : Value)
      → is_held s.operation s.commit_started ≡ true
      → Settles (is_committed s.operation) (start_execute p s now later aborted request)
  unfolding start_execute check_idle
  start_execute-Settles s now later aborted request h =
      let Free : Request → Type 0 = λ r. s.operation ≡ none in
      begin_request-Settles s later aborted _
        (Ensures-any Free (admit s now) _ λ _ open_session.
          Ensures-any Free (check_idle s aborted) _ λ _ idle.
            let (_, free, _) = bind-eq-ok (check_free s.operation) _ idle in
            Ensures-intro Free (read_request p s request) λ r _. check_free-none s.operation free)
        h

  commit_started-leave_behind :
      (s : Session) (work : Work) → (leave_behind s work).commit_started ≡ s.commit_started
  unfolding leave_behind
  commit_started-leave_behind s (recording seen) = refl
  commit_started-leave_behind s (committing r ready given) = refl
  commit_started-leave_behind s _ = refl

  reject-Settles :
      (s : Session) (o : Operation) (aborted : Option Code)
      → (not (is_committing o.work) || s.commit_started) ≡ true
      → Settles (is_committing o.work) (stay s)
      → Settles (is_committing o.work) (reject s o aborted)
  unfolding reject
  reject-Settles s o none h idle = idle
  reject-Settles s o (some code) h idle =
      fail_with-Settles (leave_behind s o.work) o (coded code)
        (rw (commit_started-leave_behind s o.work) h)

  give_up-Settles :
      (s : Session) (running : Option Operation)
      → is_held running s.commit_started ≡ true
      → Settles (is_committed running) (stay s)
      → Settles (is_committed running) (give_up s running)
  unfolding give_up is_held is_committed
  give_up-Settles s none h idle = idle
  give_up-Settles s (some o) h idle = reject-Settles s o o.aborted h idle

  resume_running-Settles :
      (s : Session) (running : Option Operation) (a : Answer)
      → is_held running s.commit_started ≡ true
      → Settles (is_committed running) (stay s)
      → Settles (is_committed running) (resume_running url digest p asks s running a)
  unfolding resume_running is_held is_committed
  resume_running-Settles s none a h idle = idle
  resume_running-Settles s (some o) a h idle =
      resume-Settles url digest p asks s o o.work a refl h idle

  same-Settles :
      (s t : Session)
      → is_committed t.operation ≡ is_committed s.operation
      → t.commit_started ≡ s.commit_started
      → is_held s.operation s.commit_started ≡ true
      → Settles (is_committed s.operation) (stay t)
  unfolding stay Settles is_held is_accounted
  same-Settles s t same started h = (rw (same, started) h, λ w. ground (arith, same))

  end_close-kept :
      (s : Session) (result : Option PoisonReason)
      → ((end_close s result).operation ≡ s.operation)
        × ((end_close s result).commit_started ≡ s.commit_started)
  unfolding end_close
  end_close-kept s result = ground arith

  end_late_audit-kept :
      (s : Session) (b : Bool)
      → ((end_late_audit s b).operation ≡ s.operation)
        × ((end_late_audit s b).commit_started ≡ s.commit_started)
  unfolding end_late_audit
  end_late_audit-kept s b = ground arith

  end_late_commit-kept :
      (s : Session)
      → ((end_late_commit s).operation ≡ s.operation)
        × ((end_late_commit s).commit_started ≡ s.commit_started)
  unfolding end_late_commit
  end_late_commit-kept s = ground arith

  fail_creation-Settles :
      (s : Session)
      → is_held s.operation s.commit_started ≡ true
      → Settles (is_committed s.operation) (stay (fail_creation s))
  unfolding fail_creation stay Settles
  fail_creation-Settles s h =
      (is_held-start_close _ h, λ w. is_accounted-is_shut _ (start_close-poisoned _ refl))

  kept-Settles :
      (s t : Session)
      → (t.operation ≡ s.operation) × (t.commit_started ≡ s.commit_started)
      → is_held s.operation s.commit_started ≡ true
      → Settles (is_committed s.operation) (stay t)
  kept-Settles s t (same, started) h = same-Settles s t (ap is_committed same) started h

  step-Settles :
      (s : Session) (e : Event)
      → is_held s.operation s.commit_started ≡ true
      → Settles (is_committed s.operation) (step url digest p asks s e)
  unfolding step start_observe abort_with is_committing
  step-Settles s (observe now aborted) h =
      begin-Settles p s deferred [] now aborted (admit s now) refl h
  step-Settles s (execute now later aborted request) h =
      start_execute-Settles s now later aborted request h
  step-Settles s (answer a) h =
      resume_running-Settles s s.operation a h (same-Settles s s refl refl h)
  step-Settles s cancel h = same-Settles s _ (is_committed-abort_operation _ s.operation) refl h
  step-Settles s time_out h = same-Settles s _ (is_committed-abort_operation _ s.operation) refl h
  step-Settles s settle h = give_up-Settles s s.operation h (same-Settles s s refl refl h)
  step-Settles s late_audit_failed h = kept-Settles s _ (end_late_audit-kept s true) h
  step-Settles s late_audit_done h = kept-Settles s _ (end_late_audit-kept s false) h
  step-Settles s late_commit_done h = kept-Settles s _ (end_late_commit-kept s) h
  step-Settles s close h =
      same-Settles s _ (is_committed-start_close s) (commit_started-start_close s) h
  step-Settles s (provider_closed result) h = kept-Settles s _ (end_close-kept s result) h
  step-Settles s creation_audit_failed h = fail_creation-Settles s h

  run-is_held :
      (es : List Event) (s : Session)
      → is_held s.operation s.commit_started ≡ true
      → is_held
          (run url digest p asks s es).0.operation
          (run url digest p asks s es).0.commit_started
        ≡ true
  unfolding run Settles
  run-is_held [] s h = h
  run-is_held (e ∷ es) s h = run-is_held es _ (step-Settles s e h).0

  -- After any events, while an operation waits for its commit or for the record of it, the next event
  -- leaves the operation there, or reports the action as executed, or shuts the session: a commit whose
  -- outcome is unknown never leaves a session that would go on.
  pub run-is_accounted :
      (now : ℕ) (es : List Event) (e : Event)
      → is_committed (run url digest p asks (created p now) es).0.operation ≡ true
      → is_accounted (step url digest p asks (run url digest p asks (created p now) es).0 e) ≡ true
  unfolding Settles created is_held is_committed
  run-is_accounted now es e h =
      (step-Settles (run url digest p asks (created p now) es).0 e
          (run-is_held es (created p now) refl)).1
        h
