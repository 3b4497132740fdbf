-- ===== src/ComputerUse/Session/Shut.antt =====
-- A session that is closing, closed or poisoned (`admit` and `assert_current`).
use useful.Common.{
  All, All-append, length, length-append, ◌+◌, ◌≤◌, ℕ, Bool, true, false, not, ◌&&◌, ◌||◌, List, [],
  ◌∷◌, Option, none, some, Text, ◌==◌, if◌then◌else◌, Result, err, ◌>>◌, guard, ◌≡◌, inl, inr, refl,
  sym, subst, arith, Bool-cases, Option-cases,
}
use useful.Js.Value.{Value}
use useful.ComputerUse.Base.{Code, audit_failed, session_closed, session_poisoned}
use useful.ComputerUse.Policy.{Policy, Url}
use useful.ComputerUse.Session.{
  Work, deferred, observing, recording, digesting, preparing, approving, authorizing, committing,
  reporting, Operation, PoisonReason, coded, Session, admit, assert_current, end_operation,
  start_close, is_execute, fail_operation, abort_operation, provider_observe, go_on, Outcome,
  fail_with, or_fail, begin,
}
use useful.ComputerUse.Session.Observe.{start_observe, on_job, on_observation, on_recorded}
use useful.ComputerUse.Session.Execute.{
  begin_request, start_execute, on_digest, on_prepared, on_decision, on_authorized, on_committed,
  on_reported,
}
use useful.ComputerUse.Session.Step.{
  Answer, returned, done, threw, Event, observe, execute, answer, cancel, time_out, settle,
  late_audit_failed, late_audit_done, late_commit_done, close, provider_closed,
  creation_audit_failed, stay, abort_with, leave_behind, reject, give_up, end_late_audit,
  end_late_commit, end_close, fail_creation, reject, resume, resume_running, step, run,
}

unfoldable pub is_shut : Session → Bool
is_shut s = (s.closed || s.closing) || s.poisoned

-- The observations that are still to be asked for: that of an `observe` whose job has not run.
abbrev pub pending_of : Work → ℕ
pending_of deferred = 1
pending_of _ = 0

abbrev pub pending_in : Option Operation → ℕ
pending_in none = 0
pending_in (some o) = pending_of o.work

unfoldable pub pending : Session → ℕ
pending s = pending_in s.operation

-- Of the outside, only observations are asked, `allowed` at the most together with those still pending; and
-- the session stays shut.
unfoldable pub Silent : ℕ → Outcome → Type 0
Silent allowed t =
    All (λ call. call ≡ provider_observe) t.calls
    × (length t.calls + pending t.session ≤ allowed)
    × (is_shut t.session ≡ true)

abbrev IsErr : {A : Type 0} → Result Code A → Type 0
IsErr m = (c : Code) × (m ≡ err c)

guards-IsErr :
    {A : Type 0} (a b : Bool) (k : Result Code A)
    → (a || b) ≡ true
    → IsErr (guard (not a) session_closed >> (guard (not b) session_poisoned >> k))
guards-IsErr true b k h = (session_closed, refl)
guards-IsErr false true k h = (session_poisoned, refl)
guards-IsErr false false k h = cc

current-IsErr :
    (other a b : Bool)
    → (a || b) ≡ true
    → IsErr (if other || a then err session_closed else guard (not b) session_poisoned)
current-IsErr true a b h = (session_closed, refl)
current-IsErr false true b h = (session_closed, refl)
current-IsErr false false true h = (session_poisoned, refl)
current-IsErr false false false h = cc

admit-shut : (s : Session) (now : ℕ) → is_shut s ≡ true → IsErr (admit s now)
unfolding is_shut admit
admit-shut s now shut = guards-IsErr (s.closed || s.closing) s.poisoned _ shut

assert_current-shut : (s : Session) (o : Operation) → is_shut s ≡ true → IsErr (assert_current s o)
unfolding is_shut assert_current
assert_current-shut s o shut = elim (Option-cases o.aborted) [
  | inr (code, e) ↦ (code, rw e refl)
  | inl e ↦
      rw e
        (current-IsErr (not (s.generation == o.generation)) (s.closed || s.closing) s.poisoned shut)
]

start_close-shut : (s : Session) → is_shut s ≡ true → is_shut (start_close s) ≡ true
unfolding is_shut start_close
start_close-shut s shut = ground arith

end_operation-shut :
    (s : Session) (o : Operation) → is_shut s ≡ true → is_shut (end_operation s o) ≡ true
unfolding is_shut end_operation
end_operation-shut s o shut = shut

pub start_close-poisoned : (s : Session) → s.poisoned ≡ true → is_shut (start_close s) ≡ true
unfolding is_shut start_close
start_close-poisoned s h = ground arith

fail_operation-shut :
    (s : Session) (o : Operation) (reason : PoisonReason)
    → is_shut s ≡ true
    → is_shut (fail_operation s o reason) ≡ true
unfolding fail_operation
fail_operation-shut s o reason shut = elim (Bool-cases (is_execute o.work && s.commit_started)) [
  | inl e ↦ rw e (start_close-poisoned _ refl)
  | inr e ↦ rw e (end_operation-shut s o shut)
]

pending-abort_operation :
    (code_of : Operation → Code) (running : Option Operation)
    → pending_in (abort_operation code_of running) ≡ pending_in running
unfolding abort_operation
pending-abort_operation code_of none = refl
pending-abort_operation code_of (some o) = refl

pending-start_close : (s : Session) → pending (start_close s) ≡ pending s
unfolding start_close pending
pending-start_close s = elim (Bool-cases (s.close_pending || s.closed)) [
  | inl e ↦ rw e refl
  | inr e ↦ rw e (pending-abort_operation _ s.operation)
]

pending-fail_operation :
    (s : Session) (o : Operation) (reason : PoisonReason) → pending (fail_operation s o reason) ≡ 0
unfolding fail_operation end_operation pending
pending-fail_operation s o reason = elim (Bool-cases (is_execute o.work && s.commit_started)) [
  | inl e ↦ rw e (pending-start_close _)
  | inr e ↦ rw e refl
]

fail_with-Silent :
    (n : ℕ) (s : Session) (o : Operation) (reason : PoisonReason)
    → is_shut s ≡ true
    → Silent n (fail_with s o reason)
unfolding fail_with Silent
fail_with-Silent n s o reason shut =
    let over = pending-fail_operation s o reason in
    let few : 0 + pending (fail_operation s o reason) ≤ n = omega arith in
    (tt, few, fail_operation-shut s o _ shut)

stay-Silent : (n : ℕ) (s : Session) → pending s ≤ n → is_shut s ≡ true → Silent n (stay s)
unfolding stay Silent
stay-Silent n s few shut = let all : 0 + pending s ≤ n = omega arith in (tt, all, shut)

-- The guard in front of every continuation.
checked-Silent :
    {A : Type 0} (n : ℕ) (s : Session) (o : Operation) (m : Result Code A) (k : A → Outcome)
    → is_shut s ≡ true
    → Silent n (or_fail s o (assert_current s o >> m) k)
unfolding or_fail
checked-Silent n s o m k shut =
    let (c, e) = assert_current-shut s o shut in
    subst (λ r. Silent n (or_fail s o (r >> m) k)) (sym e) (fail_with-Silent n s o (coded c) shut)

current-Silent :
    (n : ℕ) (s : Session) (o : Operation) (k : Unit {0} → Outcome)
    → is_shut s ≡ true
    → Silent n (or_fail s o (assert_current s o) k)
unfolding or_fail
current-Silent n s o k shut =
    let (c, e) = assert_current-shut s o shut in
    subst (λ r. Silent n (or_fail s o r k)) (sym e) (fail_with-Silent n s o (coded c) shut)

module _ (url : Text → Option Url) (digest : Value → Text) (p : Policy) (asks : Bool) where
  resume-Silent :
      (n : ℕ) (s : Session) (o : Operation) (work : Work) (a : Answer)
      → pending_of work ≤ n
      → pending s ≤ n
      → is_shut s ≡ true
      → Silent n (resume url digest p asks s o work a)
  unfolding resume on_job go_on on_observation on_recorded on_digest on_prepared on_decision
      on_authorized on_committed on_reported is_shut pending Silent
  resume-Silent n s o deferred done few all shut = ((refl, tt), few, shut)
  resume-Silent n s o deferred (threw reason) few all shut = stay-Silent n s all shut
  resume-Silent n s o observing (returned value) few all shut = checked-Silent n s o _ _ shut
  resume-Silent n s o (recording seen) done few all shut = current-Silent n s o _ shut
  resume-Silent n s o (recording seen) (threw reason) few all shut =
      fail_with-Silent n _ o reason shut
  resume-Silent n s o (digesting r) done few all shut = current-Silent n s o _ shut
  resume-Silent n s o (preparing r ad) (returned value) few all shut = checked-Silent n s o _ _ shut
  resume-Silent n s o (approving r ready given c cs) (returned value) few all shut =
      checked-Silent n s o _ _ shut
  resume-Silent n s o (authorizing r ready given) done few all shut = current-Silent n s o _ shut
  resume-Silent n s o (committing r ready given) (returned value) few all shut =
      checked-Silent n _ o _ _ shut
  resume-Silent n s o (reporting r ready given code) done few all shut = current-Silent n s o _ shut
  resume-Silent n s o _ (threw reason) few all shut = fail_with-Silent n s o reason shut
  resume-Silent n s o _ _ few all shut = stay-Silent n s all shut

  start_observe-Silent :
      (s : Session) (now : ℕ) (aborted : Bool)
      → is_shut s ≡ true
      → Silent (pending s) (start_observe p s now aborted)
  unfolding start_observe begin Silent
  start_observe-Silent s now aborted shut =
      let (c, e) = admit-shut s now shut in rw (e, start_observe) (tt, omega arith, shut)

  start_execute-Silent :
      (s : Session) (now later : ℕ) (aborted : Bool) (request : Value)
      → is_shut s ≡ true
      → Silent (pending s) (start_execute p s now later aborted request)
  unfolding start_execute begin_request Silent
  start_execute-Silent s now later aborted request shut =
      let (c, e) = admit-shut s now shut in rw (e, start_execute) (tt, omega arith, shut)

  abort_with-shut :
      (s : Session) (f : Operation → Code) → is_shut s ≡ true → is_shut (abort_with s f) ≡ true
  unfolding abort_with is_shut
  abort_with-shut s f shut = shut

  leave_behind-shut :
      (s : Session) (work : Work) → is_shut s ≡ true → is_shut (leave_behind s work) ≡ true
  unfolding leave_behind is_shut
  leave_behind-shut s (recording seen) shut = shut
  leave_behind-shut s (committing r ready given) shut = shut
  leave_behind-shut s _ shut = shut

  reject-Silent :
      (s : Session) (o : Operation) (aborted : Option Code)
      → is_shut s ≡ true
      → Silent (pending s) (reject s o aborted)
  unfolding reject
  reject-Silent s o none shut = stay-Silent (pending s) s (omega arith) shut
  reject-Silent s o (some code) shut =
      fail_with-Silent (pending s) _ o _ (leave_behind-shut s o.work shut)

  give_up-Silent :
      (s : Session) (running : Option Operation)
      → is_shut s ≡ true
      → Silent (pending s) (give_up s running)
  unfolding give_up
  give_up-Silent s none shut = stay-Silent (pending s) s (omega arith) shut
  give_up-Silent s (some o) shut = reject-Silent s o o.aborted shut

  resume_running-Silent :
      (s : Session) (running : Option Operation) (a : Answer)
      → pending_in running ≤ pending s
      → is_shut s ≡ true
      → Silent (pending s) (resume_running url digest p asks s running a)
  unfolding resume_running
  resume_running-Silent s none a few shut = stay-Silent (pending s) s (omega arith) shut
  resume_running-Silent s (some o) a few shut =
      resume-Silent (pending s) s o o.work a few (omega arith) shut

  end_late_audit-shut :
      (s : Session) (b : Bool) → is_shut s ≡ true → is_shut (end_late_audit s b) ≡ true
  unfolding end_late_audit is_shut
  end_late_audit-shut s b shut = ground arith

  end_late_commit-shut : (s : Session) → is_shut s ≡ true → is_shut (end_late_commit s) ≡ true
  unfolding end_late_commit is_shut
  end_late_commit-shut s shut = ground arith

  end_close-shut :
      (s : Session) (result : Option PoisonReason)
      → is_shut s ≡ true
      → is_shut (end_close s result) ≡ true
  unfolding end_close is_shut
  end_close-shut s result shut = ground arith

  fail_creation-shut : (s : Session) → is_shut (fail_creation s) ≡ true
  unfolding fail_creation
  fail_creation-shut s = start_close-poisoned _ refl

  pending-abort_with : (s : Session) (f : Operation → Code) → pending (abort_with s f) ≡ pending s
  unfolding abort_with pending
  pending-abort_with s f = pending-abort_operation f s.operation

  pending-running : (s : Session) → pending_in s.operation ≤ pending s
  unfolding pending
  pending-running s = omega arith

  pending-fail_creation : (s : Session) → pending (fail_creation s) ≡ pending s
  unfolding fail_creation pending
  pending-fail_creation s =
      pending-start_close (record s { poisoned = true; poison_reason = some (coded audit_failed) })

  pending-end_late_audit : (s : Session) (b : Bool) → pending (end_late_audit s b) ≡ pending s
  unfolding end_late_audit pending
  pending-end_late_audit s b = ground arith

  pending-end_late_commit : (s : Session) → pending (end_late_commit s) ≡ pending s
  unfolding end_late_commit pending
  pending-end_late_commit s = ground arith

  pending-end_close :
      (s : Session) (result : Option PoisonReason) → pending (end_close s result) ≡ pending s
  unfolding end_close pending
  pending-end_close s result = elim (Option-cases s.operation) [
    | inr (o, e) ↦ rw e refl
    | inl e ↦ ground (arith, e)
  ]

  -- A step that asks for nothing, and leaves the pending observation alone.
  same-Silent :
      (s t : Session) → pending t ≡ pending s → is_shut t ≡ true → Silent (pending s) (stay t)
  same-Silent s t same shut = stay-Silent (pending s) t (omega arith) shut

  step-Silent :
      (s : Session) (e : Event) → is_shut s ≡ true → Silent (pending s) (step url digest p asks s e)
  unfolding step
  step-Silent s (observe now aborted) shut = start_observe-Silent s now aborted shut
  step-Silent s (execute now later aborted request) shut =
      start_execute-Silent s now later aborted request shut
  step-Silent s (answer a) shut = resume_running-Silent s s.operation a (pending-running s) shut
  step-Silent s cancel shut = same-Silent s _ (pending-abort_with s _) (abort_with-shut s _ shut)
  step-Silent s time_out shut = same-Silent s _ (pending-abort_with s _) (abort_with-shut s _ shut)
  step-Silent s settle shut = give_up-Silent s s.operation shut
  step-Silent s late_audit_failed shut =
      same-Silent s _ (pending-end_late_audit s true) (end_late_audit-shut s true shut)
  step-Silent s late_audit_done shut =
      same-Silent s _ (pending-end_late_audit s false) (end_late_audit-shut s false shut)
  step-Silent s late_commit_done shut =
      same-Silent s _ (pending-end_late_commit s) (end_late_commit-shut s shut)
  step-Silent s close shut = same-Silent s _ (pending-start_close s) (start_close-shut s shut)
  step-Silent s (provider_closed result) shut =
      same-Silent s _ (pending-end_close s result) (end_close-shut s result shut)
  step-Silent s creation_audit_failed shut =
      same-Silent s _ (pending-fail_creation s) (fail_creation-shut s)

  -- A session that is closing, closed or poisoned asks the provider for no further preparation or commit, asks
  -- for no approval, and records no further observation, authorization or action, whatever events follow; it
  -- asks for one more observation at the most, and for none unless an `observe` had been started whose job has
  -- not run; and it never opens again.
  pub run-Silent :
      (es : List Event) (s : Session)
      → is_shut s ≡ true
      → All (λ call. call ≡ provider_observe) (run url digest p asks s es).1
        × (length (run url digest p asks s es).1 ≤ pending s)
        × (is_shut (run url digest p asks s es).0 ≡ true)
  unfolding run Silent
  run-Silent [] s shut = (tt, omega arith, shut)
  run-Silent (e ∷ es) s shut =
      let next = step url digest p asks s e in
      let (first, few, still) = step-Silent s e shut in
      let (later, rest, last) = run-Silent es next.session still in
      let count = length-append next.calls (run url digest p asks next.session es).1 in
      (All-append (λ call. call ≡ provider_observe) next.calls _ first later, omega arith, last)
