-- ===== src/ComputerUse/Session/Order/Moves.antt =====
-- The transitions of `execute` and `observe` keep the order of the steps.
use useful.Common.{
  ℕ, ◌≤◌, Bool, not, ◌&&◌, ◌||◌, List, [], ◌∷◌, Option, none, some, Text, any, ltb, leb→le, ◌==◌,
  ==_iff, Result, ok, err, ◌>>◌, Ensures, Ensures-any, guard-eq-ok, then-eq-ok, ◌≡◌, inl, inr, refl,
  sym, subst, arith, Bool-cases, Result-cases,
}
use useful.Js.Value.{Value, get, as_text}
use useful.ComputerUse.Base.{
  Code, cancelled, step_replayed, step_invalid, step_limit_exceeded, approval_required,
  assert_known_keys,
}
use useful.ComputerUse.Action.{assert_action}
use useful.ComputerUse.Checks.{model, Check, validate_safety_checks}
use useful.ComputerUse.Policy.{Policy, Url}
use useful.ComputerUse.Session.{
  Request, Prepared, Approval, Work, deferred, observing, recording, digesting, preparing,
  approving, authorizing, committing, reporting, Operation, PoisonReason, coded, Session, Bound,
  occupied, start_operation, abort_operation, step_of, advance, end_operation, start_close,
  is_execute, fail_operation, Call, Outcome, go_on, fail_with, or_fail, begin,
}
use useful.ComputerUse.Session.Observe.{on_job, on_observation, on_recorded}
use useful.ComputerUse.Session.Execute.{
  read_step, check_step, check_observation, read_request, on_digest, authorize, ask_next, ask_first,
  on_prepared, on_decision, on_authorized, on_committed, on_reported,
}
use useful.ComputerUse.Session.Step.{Answer, returned, done, threw, stay, resume}
use useful.ComputerUse.Session.Order.{
  commit_steps, Ascending, least_of, least, StepFits, Fits, Moves, Advances, advance-least,
}
use useful.ComputerUse.Session.Starts.{start_operation-occupied}

check_step-next :
    (p : Policy) (s : Session) (k : ℕ)
    → check_step p s k ≡ ok tt
    → (k ≡ s.next_step) × (k ≤ p.max_steps)
unfolding check_step
check_step-next p s k e =
    let (fresh, e1) =
      then-eq-ok (not (any (λ used. used == k) s.used_steps || ltb k s.next_step)) step_replayed _
        e in
    let (next, e2) = then-eq-ok (k == s.next_step) step_invalid _ e1 in
    ((==_iff k s.next_step).0 next, leb→le k p.max_steps (guard-eq-ok _ step_limit_exceeded e2))

pub read_request-next :
    (p : Policy) (s : Session) (request : Value)
    → Ensures (λ r. (r.step ≡ s.next_step) × (r.step ≤ p.max_steps)) (read_request p s request)
unfolding read_request
read_request-next p s request =
    let Next : Request → Type 0 = λ r. (r.step ≡ s.next_step) × (r.step ≤ p.max_steps) in
    Ensures-any Next (assert_known_keys request _ _) _ λ _ known.
      Ensures-any Next (read_step (get "step" request)) _ λ k read.
        Ensures-any Next (check_step p s k) _ λ _ next.
          Ensures-any Next
            (check_observation s.latest_digest (as_text (get "observationDigest" request))) _
            λ given seen. Ensures-any Next (assert_action (get "action" request)) _ λ type accepted.
              Ensures-any Next (validate_safety_checks model (get "safetyChecks" request)) _
                λ checks read_checks. check_step-next p s k next

module _ (top low : ℕ) where
  Moves-idle : (next : ℕ) → low ≤ next → Moves top low none next []
  unfolding Moves Fits Ascending commit_steps least
  Moves-idle next h = (tt, h)

  pub abort_operation-Moves :
      (code_of : Operation → Code) (running : Option Operation) (next : ℕ)
      → Moves top low running next []
      → Moves top low (abort_operation code_of running) next []
  unfolding abort_operation Moves Fits least
  abort_operation-Moves code_of none next h = h
  abort_operation-Moves code_of (some o) next h = h

  pub start_close-Moves :
      (s : Session)
      → Moves top low s.operation s.next_step []
      → Moves top low (start_close s).operation (start_close s).next_step []
  unfolding start_close
  start_close-Moves s h = elim (Bool-cases (s.close_pending || s.closed)) [
    | inl e ↦ rw e h
    | inr e ↦ rw e (abort_operation-Moves (λ o. cancelled) s.operation s.next_step h)
  ]

  -- An operation ends: the step that it executed is behind it.
  fail_operation-Moves :
      (s : Session) (o : Operation) (reason : PoisonReason)
      → StepFits top s.next_step (step_of o.work)
      → low ≤ least_of o.work s.next_step
      → Moves top low (fail_operation s o reason).operation (fail_operation s o reason).next_step []
  unfolding fail_operation end_operation
  fail_operation-Moves s o reason fits h =
      let bound = advance-least top o.work s.next_step fits in
      let idle = Moves-idle (advance o.work s.next_step) (omega arith) in
      elim (Bool-cases (is_execute o.work && s.commit_started)) [
        | inl e ↦ rw e (start_close-Moves _ idle)
        | inr e ↦ rw e idle
      ]

  pub fail_with-Advances :
      (s : Session) (o : Operation) (reason : PoisonReason)
      → StepFits top s.next_step (step_of o.work)
      → low ≤ least_of o.work s.next_step
      → Advances top low (fail_with s o reason)
  unfolding fail_with Advances
  fail_with-Advances s o reason fits h = fail_operation-Moves s o _ fits h

  or_fail-Advances :
      {A : Type 0} (s : Session) (o : Operation) (m : Result Code A) (k : A → Outcome)
      → StepFits top s.next_step (step_of o.work)
      → low ≤ least_of o.work s.next_step
      → ((a : A) → m ≡ ok a → Advances top low (k a))
      → Advances top low (or_fail s o m k)
  unfolding or_fail
  or_fail-Advances s o (ok a) k fits h next = next a refl
  or_fail-Advances s o (err code) k fits h next = fail_with-Advances s o _ fits h

  occupied-Moves :
      (s : Session) (work : Work) (bound : Bound) (calls : List Call) (running : Option Operation)
      → running ≡ none
      → Moves top low running s.next_step []
      → commit_steps calls ≡ []
      → StepFits top s.next_step (step_of work)
      → least_of work s.next_step ≡ s.next_step
      → Moves top low (occupied s work bound).operation (occupied s work bound).next_step calls
  unfolding occupied Moves Ascending commit_steps Fits least
  occupied-Moves s work bound calls none free h quiet fits early = (fits, rw (quiet, early) h.1)
  occupied-Moves s work bound calls (some o) free h quiet fits early = cc

  pub begin-Advances :
      (p : Policy) (s : Session) (work : Work) (calls : List Call) (now : ℕ) (aborted : Bool)
      (m : Result Code (Unit {0}))
      → Moves top low s.operation s.next_step []
      → commit_steps calls ≡ []
      → StepFits top s.next_step (step_of work)
      → least_of work s.next_step ≡ s.next_step
      → Advances top low (begin s calls (m >> start_operation p s work now aborted))
  unfolding begin Advances
  begin-Advances p s work calls now aborted (ok _) h quiet fits early =
      elim (Result-cases (start_operation p s work now aborted)) [
        | inr (code, e) ↦ rw e h
        | inl (t, e) ↦
            let (free, (bound, same)) = start_operation-occupied p s work now aborted e in
            rw same (occupied-Moves s work bound calls s.operation free h quiet fits early)
      ]
  begin-Advances p s work calls now aborted (err code) h quiet fits early = h

module _ (url : Text → Option Url) (digest : Value → Text) (p : Policy) (asks : Bool)
    (low : ℕ) where
  ask_next-Advances :
      (s : Session) (o : Operation) (r : Request) (ready : Prepared) (given : List Approval)
      (checks : List Check)
      → StepFits p.max_steps s.next_step (some r.step)
      → low ≤ s.next_step
      → Advances p.max_steps low (ask_next s o r ready given checks)
  unfolding ask_next authorize go_on Advances Moves Fits Ascending commit_steps least least_of
      step_of
  ask_next-Advances s o r ready given [] fits h = (fits, h)
  ask_next-Advances s o r ready given (c ∷ cs) fits h = (fits, h)

  module _ (s : Session) (o : Operation) (work : Work) (is_work : o.work ≡ work) where
    failing :
        (reason : PoisonReason)
        → StepFits p.max_steps s.next_step (step_of work)
        → low ≤ least_of work s.next_step
        → Advances p.max_steps low (fail_with s o reason)
    failing reason fits h =
        fail_with-Advances p.max_steps low s o reason
          (subst (λ w. StepFits p.max_steps s.next_step (step_of w)) (sym is_work) fits)
          (subst (λ w. low ≤ least_of w s.next_step) (sym is_work) h)

    checked :
        {A : Type 0} (m : Result Code A) (k : A → Outcome)
        → StepFits p.max_steps s.next_step (step_of work)
        → low ≤ least_of work s.next_step
        → ((a : A) → Advances p.max_steps low (k a))
        → Advances p.max_steps low (or_fail s o m k)
    checked m k fits h next =
        or_fail-Advances p.max_steps low s o m k
          (subst (λ w. StepFits p.max_steps s.next_step (step_of w)) (sym is_work) fits)
          (subst (λ w. low ≤ least_of w s.next_step) (sym is_work) h) λ a e. next a

    ending :
        StepFits p.max_steps s.next_step (step_of work)
        → low ≤ least_of work s.next_step
        → low ≤ advance o.work s.next_step
    ending fits h =
        let bound = advance-least p.max_steps work s.next_step fits in
        subst (λ w. low ≤ advance w s.next_step) (sym is_work) (omega arith)

    ask_first-Advances :
        (r : Request) (ready : Prepared) (checks : List Check)
        → StepFits p.max_steps s.next_step (some r.step)
        → low ≤ s.next_step
        → step_of work ≡ some r.step
        → least_of work s.next_step ≡ s.next_step
        → Advances p.max_steps low (ask_first asks s o r ready checks)
    unfolding ask_first ask_next
    ask_first-Advances r ready [] fits h is_step early = ask_next-Advances s o r ready [] [] fits h
    ask_first-Advances r ready (c ∷ cs) fits h is_step early = elim (Bool-cases asks) [
      | inl e ↦ rw e (ask_next-Advances s o r ready [] (c ∷ cs) fits h)
      | inr e ↦ rw e (failing (coded approval_required) (rw is_step fits) (rw early h))
    ]

  pub resume-Advances :
      (s : Session) (o : Operation) (work : Work) (a : Answer)
      → o.work ≡ work
      → StepFits p.max_steps s.next_step (step_of work)
      → low ≤ least_of work s.next_step
      → Moves p.max_steps low s.operation s.next_step []
      → Advances p.max_steps low (resume url digest p asks s o work a)
  unfolding resume on_job on_observation on_recorded on_digest on_prepared on_decision on_authorized
      on_committed on_reported go_on end_operation stay Advances Moves Fits StepFits Ascending
      commit_steps least least_of step_of
  resume-Advances s o deferred done w fits h idle = (fits, h)
  resume-Advances s o deferred (threw reason) w fits h idle = idle
  resume-Advances s o observing (returned value) w fits h idle =
      checked s o _ w _ _ fits h λ r. (tt, h)
  resume-Advances s o (recording seen) done w fits h idle =
      checked s o _ w _ _ fits h λ r. (tt, ending s o _ w fits h)
  resume-Advances s o (recording seen) (threw reason) w fits h idle = failing _ o _ w _ fits h
  resume-Advances s o (digesting r) done w fits h idle = checked s o _ w _ _ fits h λ a. (fits, h)
  resume-Advances s o (preparing r ad) (returned value) w fits h idle =
      checked s o _ w _ _ fits h
        λ ready. ask_first-Advances s o _ w r ready ready.checks fits h refl refl
  resume-Advances s o (approving r ready given c cs) (returned value) w fits h idle =
      checked s o _ w _ _ fits h λ id. ask_next-Advances s o r ready _ cs fits h
  resume-Advances s o (authorizing r ready given) done w fits h idle =
      checked s o _ w _ _ fits h λ a. (fits, (omega arith, omega arith, omega arith))
  resume-Advances s o (committing r ready given) (returned value) w fits h idle =
      checked _ o _ w _ _ fits h λ code. (fits, h)
  resume-Advances s o (reporting r ready given code) done w fits h idle =
      checked s o _ w _ _ fits h λ a. (tt, ending s o _ w fits h)
  resume-Advances s o _ (threw reason) w fits h idle = failing s o _ w reason fits h
  resume-Advances s o _ _ w fits h idle = idle
