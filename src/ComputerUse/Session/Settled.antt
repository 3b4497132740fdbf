-- ===== src/ComputerUse/Session/Settled.antt =====
-- How an operation ends whose commit has started: `commitStarted` and the `catch` of `execute`.
pub mod Runs
use useful.Common.{
  ℕ, Bool, true, false, not, ◌&&◌, ◌||◌, List, [], ◌∷◌, Option, none, some, Text, Result, ok, err,
  ◌>>◌, ◌≡◌, inl, inr, refl, sym, subst, ap, arith, Bool-cases, Result-cases,
}
use useful.Js.Value.{Value}
use useful.ComputerUse.Base.{Code, approval_required}
use useful.ComputerUse.Checks.{Check}
use useful.ComputerUse.Policy.{Policy, Url}
use useful.ComputerUse.Session.{
  Request, Prepared, Approval, Work, deferred, observing, recording, digesting, preparing,
  approving, authorizing, committing, reporting, Operation, PoisonReason, coded, Session, Bound,
  occupied, start_operation, abort_operation, step_of, end_operation, start_close, is_execute,
  fail_operation, Call, Reply, executed, Outcome, go_on, fail_with, or_fail, begin,
}
use useful.ComputerUse.Session.Shut.{is_shut, start_close-poisoned}
use useful.ComputerUse.Session.Starts.{start_operation-occupied}
use useful.ComputerUse.Session.Observe.{on_job, on_observation, on_recorded}
use useful.ComputerUse.Session.Execute.{
  on_digest, authorize, ask_next, ask_first, on_prepared, on_decision, on_authorized, on_committed,
  on_reported,
}
use useful.ComputerUse.Session.Step.{Answer, returned, done, threw, stay, resume, step}

unfoldable pub is_committing : Work → Bool
is_committing (committing r ready given) = true
is_committing (reporting r ready given code) = true
is_committing _ = false

-- The running operation has asked the provider for its commit.
unfoldable pub is_committed : Option Operation → Bool
is_committed none = false
is_committed (some o) = is_committing o.work

unfoldable pub is_executed : Option Reply → Bool
is_executed (some (executed step code)) = true
is_executed _ = false

-- The operation goes on, the session is shut, or the action is reported as executed.
unfoldable pub is_accounted : Outcome → Bool
is_accounted t = is_committed t.session.operation || (is_shut t.session || is_executed t.reply)

-- `commitStarted` is set while the operation is at its commit or behind it.
unfoldable pub is_held : Option Operation → Bool → Bool
is_held running started = not (is_committed running) || started

unfoldable pub Settles : Bool → Outcome → Type 0
Settles committed t =
    (is_held t.session.operation t.session.commit_started ≡ true)
    × (committed ≡ true → is_accounted t ≡ true)

pub is_committing-is_execute : (work : Work) → is_committing work ≡ true → is_execute work ≡ true
unfolding is_committing step_of
is_committing-is_execute (committing r ready given) h = refl
is_committing-is_execute (reporting r ready given code) h = refl
is_committing-is_execute _ h = cc

pub is_committed-abort_operation :
    (code_of : Operation → Code) (running : Option Operation)
    → is_committed (abort_operation code_of running) ≡ is_committed running
unfolding is_committed abort_operation
is_committed-abort_operation code_of none = refl
is_committed-abort_operation code_of (some o) = refl

pub is_committed-start_close :
    (s : Session) → is_committed (start_close s).operation ≡ is_committed s.operation
unfolding start_close
is_committed-start_close s = elim (Bool-cases (s.close_pending || s.closed)) [
  | inl e ↦ rw e refl
  | inr e ↦ rw e (is_committed-abort_operation _ s.operation)
]

pub commit_started-start_close : (s : Session) → (start_close s).commit_started ≡ s.commit_started
unfolding start_close
commit_started-start_close s = ground arith

pub is_held-start_close :
    (s : Session)
    → is_held s.operation s.commit_started ≡ true
    → is_held (start_close s).operation (start_close s).commit_started ≡ true
unfolding is_held
is_held-start_close s h = rw (is_committed-start_close s, commit_started-start_close s) h

pub is_accounted-is_shut : (t : Outcome) → is_shut t.session ≡ true → is_accounted t ≡ true
unfolding is_accounted
is_accounted-is_shut t h = ground arith

is_held-start_close_idle :
    (s : Session)
    → s.operation ≡ none
    → is_held (start_close s).operation (start_close s).commit_started ≡ true
unfolding is_held is_committed
is_held-start_close_idle s h = is_held-start_close s (rw h refl)

pub fail_with-Settles :
    (s : Session) (o : Operation) (reason : PoisonReason)
    → (not (is_committing o.work) || s.commit_started) ≡ true
    → Settles (is_committing o.work) (fail_with s o reason)
unfolding fail_with fail_operation end_operation Settles is_held is_committed
fail_with-Settles s o reason h = elim (Bool-cases (is_execute o.work && s.commit_started)) [
  | inl e ↦
      rw e
        (is_held-start_close_idle _ refl, λ w. is_accounted-is_shut _ (start_close-poisoned _ refl))
  | inr e ↦ rw e (
    refl,
    λ w. let executes = is_committing-is_execute o.work w in absurd (ground (arith, executes)),
  )
]

stay-Settles :
    (s : Session) (running : Option Operation)
    → s.operation ≡ running
    → is_held running s.commit_started ≡ true
    → Settles (is_committed running) (stay s)
unfolding stay Settles is_accounted
stay-Settles s running same h = (
  subst (λ r. is_held r s.commit_started ≡ true) (sym same) h,
  λ w. ground (arith, ap is_committed same),
)

or_fail-Settles :
    {A : Type 0} (s : Session) (o : Operation) (m : Result Code A) (k : A → Outcome)
    → (not (is_committing o.work) || s.commit_started) ≡ true
    → ((a : A) → Settles (is_committing o.work) (k a))
    → Settles (is_committing o.work) (or_fail s o m k)
unfolding or_fail
or_fail-Settles s o (ok a) k h next = next a
or_fail-Settles s o (err code) k h next = fail_with-Settles s o (coded code) h

-- An outcome in front of the commit.
early-Settles :
    (work : Work) (t : Outcome)
    → is_committing work ≡ false
    → is_held t.session.operation t.session.commit_started ≡ true
    → Settles (is_committing work) t
unfolding Settles
early-Settles work t early h = (h, λ w. absurd (cc))

is_held-occupied :
    (s : Session) (work : Work) (bound : Bound)
    → is_committing work ≡ false
    → is_held (occupied s work bound).operation (occupied s work bound).commit_started ≡ true
unfolding occupied is_held is_committed
is_held-occupied s work bound early = rw early refl

pub is_committed-none : (running : Option Operation) → running ≡ none → is_committed running ≡ false
unfolding is_committed
is_committed-none none h = refl
is_committed-none (some o) h = cc

pub begin-Settles :
    (p : Policy) (s : Session) (work : Work) (calls : List Call) (now : ℕ) (aborted : Bool)
    (m : Result Code (Unit {0}))
    → is_committing work ≡ false
    → is_held s.operation s.commit_started ≡ true
    → Settles (is_committed s.operation) (begin s calls (m >> start_operation p s work now aborted))
unfolding begin Settles is_accounted
begin-Settles p s work calls now aborted (err code) early h = (h, λ w. ground arith)
begin-Settles p s work calls now aborted (ok _) early h =
    elim (Result-cases (start_operation p s work now aborted)) [
      | inr (code, e) ↦ rw e (h, λ w. ground arith)
      | inl (t, e) ↦
          let (free, (bound, same)) = start_operation-occupied p s work now aborted e in
          rw same (
            is_held-occupied s work bound early,
            λ w. let idle = is_committed-none s.operation free in absurd (ground (arith, idle)),
          )
    ]

module _ (url : Text → Option Url) (digest : Value → Text) (p : Policy) (asks : Bool) where
  module _ (s : Session) (o : Operation) (work : Work) (is_work : o.work ≡ work) where
    failing :
        (reason : PoisonReason)
        → (not (is_committing work) || s.commit_started) ≡ true
        → Settles (is_committing work) (fail_with s o reason)
    failing reason h =
        subst (λ w. Settles (is_committing w) (fail_with s o reason)) is_work
          (fail_with-Settles s o reason
            (subst (λ w. (not (is_committing w) || s.commit_started) ≡ true) (sym is_work) h))

    checked :
        {A : Type 0} (m : Result Code A) (k : A → Outcome)
        → (not (is_committing work) || s.commit_started) ≡ true
        → ((a : A) → Settles (is_committing work) (k a))
        → Settles (is_committing work) (or_fail s o m k)
    checked m k h next =
        subst (λ w. Settles (is_committing w) (or_fail s o m k)) is_work
          (or_fail-Settles s o m k
            (subst (λ w. (not (is_committing w) || s.commit_started) ≡ true) (sym is_work) h)
            λ a. subst (λ w. Settles (is_committing w) (k a)) (sym is_work) (next a))

  ask_next-Settles :
      (s : Session) (o : Operation) (r : Request) (ready : Prepared) (given : List Approval)
      (checks : List Check)
      → Settles false (ask_next s o r ready given checks)
  unfolding ask_next authorize go_on Settles is_held is_committed is_committing
  ask_next-Settles s o r ready given [] = (refl, λ w. absurd (cc))
  ask_next-Settles s o r ready given (c ∷ cs) = (refl, λ w. absurd (cc))

  ask_first-Settles :
      (s : Session) (o : Operation) (work : Work)
      → o.work ≡ work
      → is_committing work ≡ false
      → (r : Request) (ready : Prepared) (checks : List Check)
      → Settles false (ask_first asks s o r ready checks)
  unfolding ask_first ask_next
  ask_first-Settles s o work is_work early r ready [] = ask_next-Settles s o r ready [] []
  ask_first-Settles s o work is_work early r ready (c ∷ cs) = elim (Bool-cases asks) [
    | inl e ↦ rw e (ask_next-Settles s o r ready [] (c ∷ cs))
    | inr e ↦ rw e (
        subst (λ b. Settles b (fail_with s o (coded approval_required))) early
          (failing s o work is_work (coded approval_required) (rw early refl)))
  ]

  pub resume-Settles :
      (s : Session) (o : Operation) (work : Work) (a : Answer)
      → o.work ≡ work
      → (not (is_committing work) || s.commit_started) ≡ true
      → Settles (is_committing work) (stay s)
      → Settles (is_committing work) (resume url digest p asks s o work a)
  unfolding resume on_job on_observation on_recorded on_digest on_prepared on_decision on_authorized
      on_committed on_reported go_on end_operation Settles is_held is_committed is_committing
      is_accounted is_executed
  resume-Settles s o deferred done w h idle = (refl, λ w. absurd (cc))
  resume-Settles s o deferred (threw reason) w h idle = idle
  resume-Settles s o observing (returned value) w h idle =
      checked s o _ w _ _ h λ r. (refl, λ w. absurd (cc))
  resume-Settles s o (recording seen) done w h idle =
      checked s o _ w _ _ h λ r. (refl, λ w. absurd (cc))
  resume-Settles s o (recording seen) (threw reason) w h idle = failing _ o _ w _ h
  resume-Settles s o (digesting r) done w h idle =
      checked s o _ w _ _ h λ r. (refl, λ w. absurd (cc))
  resume-Settles s o (preparing r ad) (returned value) w h idle =
      checked s o _ w _ _ h λ ready. ask_first-Settles s o _ w refl r ready ready.checks
  resume-Settles s o (approving r ready given c cs) (returned value) w h idle =
      checked s o _ w _ _ h λ id. ask_next-Settles s o r ready _ cs
  resume-Settles s o (authorizing r ready given) done w h idle =
      checked s o _ w _ _ h λ r. (refl, λ w. absurd (cc))
  resume-Settles s o (committing r ready given) (returned value) w h idle =
      checked _ o _ w _ _ h λ code. (h, λ w. refl)
  resume-Settles s o (reporting r ready given code) done w h idle =
      checked s o _ w _ _ h λ a. (refl, λ w. ground arith)
  resume-Settles s o work (threw reason) w h idle = failing s o work w reason h
  resume-Settles s o work _ w h idle = idle
