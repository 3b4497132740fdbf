-- ===== src/ComputerUse/Session/Approved.antt =====
-- What a commit is backed by: the checks of the prepare response and the approvals of `approveChecks`.
pub mod Runs
use useful.Common.{
  Bool, true, false, ◌&&◌, ◌||◌, List, [], ◌∷◌, ◌++◌, map, append-nil, Option, none, some, Text,
  All, Result, ok, err, ◌>>◌, require, Ensures, Ensures-intro, Ensures-guard, require, Ensures-any,
  ◌≡◌, inl, inr, refl, sym, subst, ◌∙◌, Bool-cases, all_distinct, if◌then◌else◌, and-split,
}
use useful.Js.Value.{Value, str, get, is_object, is_undefined, is_bool, is_text, is_true, as_text}
use useful.ComputerUse.Base.{
  Code, approval_denied, provider_protocol_error, safety_check_invalid, is_safe_text,
}
use useful.ComputerUse.Action.{is_high_impact}
use useful.ComputerUse.Checks.{Check, provider, validate_safety_checks}
use useful.ComputerUse.Session.{
  Request, Prepared, Approval, Work, preparing, approving, authorizing, Operation, PoisonReason,
  Session, assert_current, abort_operation, end_operation, start_close, is_execute, fail_operation,
  Call, provider_commit, Outcome, go_on, fail_with, or_fail,
}
use useful.ComputerUse.Session.Execute.{
  check_key, high_impact_check, all_checks, read_prepared, authorize, ask_next, ask_first,
  read_decision, grant,
}
use useful.ComputerUse.Session.Step.{stay}

-- One approval for each check, in order, bound to the request and to the prepared action.
unfoldable pub Granted : Request → Prepared → List Check → List Approval → Type 0
Granted r ready [] [] = Unit
Granted r ready [] (a ∷ given) = ⊥
Granted r ready (c ∷ cs) [] = ⊥
Granted r ready (c ∷ cs) (a ∷ given) =
    ((id : Text) × (is_safe_text id ≡ true) × (a ≡ grant r ready c id)) × Granted r ready cs given

-- The checks that a prepare response asks for: those of the model, those that it lists itself, and that of the
-- contract, for a type of high impact or where it says so.
abbrev pub asked_by : Request → List Check → Value → List Check
asked_by r listed value =
    r.model_checks
    ++ (listed
        ++ (if is_high_impact r.action_type || is_true (get "highImpact" value)
            then high_impact_check r.action_type ∷ []
            else []))

-- `digest` is `digestAction`, and `Answered` says which values have been answered.
module _ (digest : Value → Text) (Answered : Value → Type 0) where
  -- What was prepared is the requested action, with the identifier and the checks of a response that has
  -- been answered, without a duplicate.
  unfoldable pub Complete : Request → Prepared → Type 0
  Complete r ready =
      (ready.action_digest ≡ digest r.action)
      × (all_distinct (map check_key ready.checks) ≡ true)
      × ((value : Value) × (listed : List Check) × Answered value
          × (is_text "prepared" (get "status" value) ≡ true)
          × (get "preparedActionId" value ≡ str ready.action_id)
          × (validate_safety_checks provider (get "safetyChecks" value) ≡ ok listed)
          × (ready.checks ≡ asked_by r listed value))

  unfoldable pub CommitSound : Call → Type 0
  CommitSound (provider_commit r ready given) =
      Complete r ready × Granted r ready ready.checks given
  CommitSound _ = Unit

  unfoldable pub WorkSound : Work → Type 0
  WorkSound (preparing r ad) = ad ≡ digest r.action
  WorkSound (approving r ready given c cs) =
      Complete r ready
      × ((asked : List Check) × (ready.checks ≡ asked ++ c ∷ cs) × Granted r ready asked given)
  WorkSound (authorizing r ready given) = Complete r ready × Granted r ready ready.checks given
  WorkSound _ = Unit

  unfoldable pub RunningSound : Option Operation → Type 0
  RunningSound none = Unit
  RunningSound (some o) = WorkSound o.work

  unfoldable pub Sound : Outcome → Type 0
  Sound t = RunningSound t.session.operation × All CommitSound t.calls

pub Granted-snoc :
    (r : Request) (ready : Prepared) (asked : List Check) (given : List Approval) (c : Check)
    (id : Text)
    → Granted r ready asked given
    → is_safe_text id ≡ true
    → Granted r ready (asked ++ c ∷ []) (given ++ grant r ready c id ∷ [])
unfolding Granted
Granted-snoc r ready [] [] c id h safe = ((id, safe, refl), tt)
Granted-snoc r ready [] (a ∷ given) c id h safe = absurd h
Granted-snoc r ready (d ∷ asked) [] c id h safe = absurd h
Granted-snoc r ready (d ∷ asked) (a ∷ given) c id h safe =
    (h.0, Granted-snoc r ready asked given c id h.1 safe)

as_text-str : (v : Value) (e : Code) {id : Text} → require (as_text v) e ≡ ok id → v ≡ str id
as_text-str (str t) e h = let same : ◌≡◌ {A = Result Code Text} (ok t) (ok _) = h in cc
as_text-str v e h = cc

-- What is read of an answered prepare response.
pub read_prepared-Complete :
    (digest : Value → Text) (Answered : Value → Type 0) (r : Request) (value : Value)
    → Answered value
    → Ensures (Complete digest Answered r) (read_prepared r (digest r.action) value)
unfolding read_prepared all_checks Complete
read_prepared-Complete digest Answered r value answered =
    let P = Complete digest Answered r in
    Ensures-guard P (is_object value && is_text "prepared" (get "status" value))
      provider_protocol_error _
      λ prepared.
        Ensures-any P (require (as_text (get "preparedActionId" value)) provider_protocol_error) _
          λ id named. Ensures-guard P (is_safe_text id) provider_protocol_error _ λ safe.
            Ensures-guard P
              (is_undefined (get "highImpact" value) || is_bool (get "highImpact" value))
              provider_protocol_error _
              λ high.
                Ensures-any P (validate_safety_checks provider (get "safetyChecks" value)) _
                  λ listed read.
                    let every = asked_by r listed value in
                    Ensures-guard P (all_distinct (map check_key every)) safety_check_invalid
                      (ok (record {
                        action_digest = digest r.action;
                        action_id = id;
                        checks = every;
                      }))
                      λ distinct. (
                        refl,
                        distinct,
                        (
                          value,
                          listed,
                          answered,
                          (and-split _ _ prepared).1,
                          as_text-str (get "preparedActionId" value) provider_protocol_error named,
                          read,
                          refl,
                        ),
                      )

pub read_decision-safe :
    (value : Value) → Ensures (λ id. is_safe_text id ≡ true) (read_decision value)
unfolding read_decision
read_decision-safe value =
    let P : Text → Type 0 = λ id. is_safe_text id ≡ true in
    Ensures-guard P (is_object value && is_true (get "approved" value)) approval_denied _
      λ approved.
        Ensures-any P (require (as_text (get "approvalId" value)) approval_denied) _
          λ id named. Ensures-guard P (is_safe_text id) approval_denied (ok id) λ safe. safe

module _ (digest : Value → Text) (Answered : Value → Type 0) where
  pub abort_operation-RunningSound :
      (code_of : Operation → Code) (running : Option Operation)
      → RunningSound digest Answered running
      → RunningSound digest Answered (abort_operation code_of running)
  unfolding abort_operation RunningSound
  abort_operation-RunningSound code_of none h = h
  abort_operation-RunningSound code_of (some o) h = h

  pub start_close-RunningSound :
      (s : Session)
      → RunningSound digest Answered s.operation
      → RunningSound digest Answered (start_close s).operation
  unfolding start_close
  start_close-RunningSound s h = elim (Bool-cases (s.close_pending || s.closed)) [
    | inl e ↦ rw e h
    | inr e ↦ rw e (abort_operation-RunningSound _ s.operation h)
  ]

  pub fail_with-Sound :
      (s : Session) (o : Operation) (reason : PoisonReason)
      → Sound digest Answered (fail_with s o reason)
  unfolding fail_with fail_operation end_operation Sound RunningSound
  fail_with-Sound s o reason = elim (Bool-cases (is_execute o.work && s.commit_started)) [
    | inl e ↦ rw e (start_close-RunningSound _ tt, tt)
    | inr e ↦ rw e (tt, tt)
  ]

  pub stay-Sound :
      (s : Session) → RunningSound digest Answered s.operation → Sound digest Answered (stay s)
  unfolding stay Sound
  stay-Sound s h = (h, tt)

  or_fail-Sound :
      {A : Type 0} (P : A → Type 0) (s : Session) (o : Operation) (m : Result Code A)
      (k : A → Outcome)
      → Ensures P m
      → ((a : A) → P a → Sound digest Answered (k a))
      → Sound digest Answered (or_fail s o m k)
  unfolding or_fail
  or_fail-Sound P s o (ok a) k h next = next a h
  or_fail-Sound P s o (err code) k h next = fail_with-Sound s o _

  -- A continuation behind `assert_current`.
  pub checked-Sound :
      {A : Type 0} (P : A → Type 0) (s : Session) (o : Operation) (m : Result Code A)
      (k : A → Outcome)
      → Ensures P m
      → ((a : A) → P a → Sound digest Answered (k a))
      → Sound digest Answered (or_fail s o (assert_current s o >> m) k)
  checked-Sound P s o m k h next =
      or_fail-Sound P s o _ k (Ensures-any P (assert_current s o) _ λ _ current. h) next

  pub current-Sound :
      (s : Session) (o : Operation) (k : Unit {0} → Outcome)
      → ((a : Unit {0}) → Sound digest Answered (k a))
      → Sound digest Answered (or_fail s o (assert_current s o) k)
  current-Sound s o k next =
      or_fail-Sound (λ _. Unit) s o (assert_current s o) k
        (Ensures-intro (λ _. Unit) (assert_current s o) λ _ current. tt) λ a _. next a

  pub ask_next-Sound :
      (s : Session) (o : Operation) (r : Request) (ready : Prepared) (given : List Approval)
      (asked checks : List Check)
      → Complete digest Answered r ready
      → ready.checks ≡ asked ++ checks
      → Granted r ready asked given
      → Sound digest Answered (ask_next s o r ready given checks)
  unfolding ask_next authorize go_on Sound RunningSound WorkSound CommitSound
  ask_next-Sound s o r ready given asked [] whole split granted = (
    (whole, subst (λ cs. Granted r ready cs given) (sym (split ∙ append-nil asked)) granted),
    (tt, tt),
  )
  ask_next-Sound s o r ready given asked (c ∷ cs) whole split granted =
      ((whole, (asked, split, granted)), (tt, tt))

  pub ask_first-Sound :
      (asks : Bool) (s : Session) (o : Operation) (r : Request) (ready : Prepared)
      (checks : List Check)
      → Complete digest Answered r ready
      → ready.checks ≡ checks
      → Sound digest Answered (ask_first asks s o r ready checks)
  unfolding ask_first ask_next Granted
  ask_first-Sound asks s o r ready [] whole same = ask_next-Sound s o r ready [] [] [] whole same tt
  ask_first-Sound true s o r ready (c ∷ cs) whole same =
      ask_next-Sound s o r ready [] [] (c ∷ cs) whole same tt
  ask_first-Sound false s o r ready (c ∷ cs) whole same = fail_with-Sound s o _
