-- ===== src/ComputerUse/Session/Execute.antt =====
-- `execute` and `approveChecks`: the admission of a request, and what follows each of its awaits.
use useful.Common.{
  ℕ, suc, Bool, true, false, not, ◌&&◌, ◌||◌, List, [], ◌∷◌, ◌++◌, map, String, Option, none, some,
  Text, codes, any, all_distinct, text_eq, leb, ltb, ◌==◌, if◌then◌else◌, Result, ok, err, ◌>>=◌,
  ◌>>◌, guard, require,
}
use useful.Js.Value.{
  pos, Value, int, get, is_object, is_true, is_undefined, is_bool, is_text, as_text,
}
use useful.ComputerUse.Base.{
  Code, provider_protocol_error, safety_check_invalid, action_invalid, step_invalid, step_replayed,
  step_limit_exceeded, observation_required, observation_stale, approval_required, approval_denied,
  cancelled, assert_known_keys, is_safe_text,
}
use useful.ComputerUse.Action.{
  ActionType, screenshot, click, double_click, drag, move, scroll, type_text, key, wait,
  is_high_impact, assert_action,
}
use useful.ComputerUse.Checks.{high, model, provider, contract, Check, validate_safety_checks}
use useful.ComputerUse.Network.{validate_network_evidence}
use useful.ComputerUse.Policy.{Policy, Url}
use useful.ComputerUse.Session.{
  Request, Prepared, Approval, digesting, preparing, approving, authorizing, committing, reporting,
  Operation, coded, Session, admit, check_free, assert_current, start_operation, end_operation,
  digest_action, provider_prepare, approval, audit_authorization, provider_commit, audit_action,
  executed, failed, Outcome, go_on, fail_with, or_fail, begin,
}

-- `Number.isInteger(request.step) && request.step >= 1`.
unfoldable pub read_step : Value → Result Code ℕ
read_step (int (pos (suc n))) = ok (suc n)
read_step _ = err step_invalid

-- The step of a request is the next one, and within the limit.
unfoldable pub check_step : Policy → Session → ℕ → Result Code (Unit {0})
check_step p s step = do
  guard (not (any (λ used. used == step) s.used_steps || ltb step s.next_step)) step_replayed
  guard (step == s.next_step) step_invalid
  guard (leb step p.max_steps) step_limit_exceeded

-- The request names the latest observation.
unfoldable pub check_observation : Option Text → Option Text → Result Code Text
check_observation none given = err observation_required
check_observation (some latest) none = err observation_stale
check_observation (some latest) (some given) =
    if text_eq given latest then ok given else err observation_stale

-- The guards of `execute` in front of the first change of the state.
unfoldable pub read_request : Policy → Session → Value → Result Code Request
read_request p s request = do
  assert_known_keys request ("step" ∷ "observationDigest" ∷ "action" ∷ "safetyChecks" ∷ [])
      action_invalid
  step ← read_step (get "step" request)
  check_step p s step
  digest ← check_observation s.latest_digest (as_text (get "observationDigest" request))
  action_type ← assert_action (get "action" request)
  checks ← validate_safety_checks model (get "safetyChecks" request)
  ok (record {
    step = step;
    observation_digest = digest;
    action = get "action" request;
    action_type = action_type;
    model_checks = checks;
  })

-- A session without an operation, and a signal that is not aborted: tested in front of the request.
unfoldable pub check_idle : Session → Bool → Result Code (Unit {0})
check_idle s aborted = check_free s.operation >> guard (not aborted) cancelled

-- The state after an accepted request: its step is used up, and so is the observation.
unfoldable pub take_step : Session → Request → Session
take_step s r = record s {
  used_steps = r.step ∷ s.used_steps;
  latest_digest = none;
  commit_started = false;
  commit_completed = false;
}

-- An accepted request. Where `startOperation` throws, the step stays used up.
unfoldable pub begin_request : Policy → Session → ℕ → Bool → Result Code Request → Outcome
begin_request p s later aborted (err code) = record {
  session = s;
  calls = [];
  reply = some (failed (coded code));
}
begin_request p s later aborted (ok r) =
    begin (take_step s r) (digest_action r.action ∷ [])
      (start_operation p (take_step s r) (digesting r) later aborted)

-- `execute` up to its first await. The clock is read twice, `now` by `getSession` and `later` by
-- `boundedOptions`.
unfoldable pub start_execute : Policy → Session → ℕ → ℕ → Bool → Value → Outcome
start_execute p s now later aborted request =
    begin_request p s later aborted
      (admit s now >> (check_idle s aborted >> read_request p s request))

-- The digest of the action is there.
unfoldable pub on_digest : Session → Operation → Request → Text → Outcome
on_digest s o r digest =
    or_fail s o (assert_current s o) λ _. go_on s o (preparing r digest) (provider_prepare r)

unfoldable pub type_name : ActionType → String
type_name screenshot = "screenshot"
type_name click = "click"
type_name double_click = "double-click"
type_name drag = "drag"
type_name move = "move"
type_name scroll = "scroll"
type_name type_text = "type"
type_name key = "key"
type_name wait = "wait"

-- The confirmation that the contract itself asks for.
unfoldable pub high_impact_check : ActionType → Check
high_impact_check t = record {
  id = codes "useful.high-impact." ++ codes (type_name t);
  description = codes "Confirm high-impact " ++ (codes (type_name t) ++ codes " action");
  severity = high;
  source = contract;
}

-- `${check.source}:${check.id}`.
unfoldable pub check_key : Check → Text
check_key c = elim c.source [
  | model ↦ codes "model:" ++ c.id
  | provider ↦ codes "provider:" ++ c.id
  | contract ↦ codes "contract:" ++ c.id
]

unfoldable pub all_checks : Request → List Check → Bool → List Check
all_checks r provider_checks high_impact =
    r.model_checks
    ++ (provider_checks
        ++ (if is_high_impact r.action_type || high_impact
            then high_impact_check r.action_type ∷ []
            else []))

-- The checks of a prepare response.
unfoldable pub read_prepared : Request → Text → Value → Result Code Prepared
read_prepared r digest value = do
  guard (is_object value && is_text "prepared" (get "status" value)) provider_protocol_error
  id ← require (as_text (get "preparedActionId" value)) provider_protocol_error
  guard (is_safe_text id) provider_protocol_error
  guard (is_undefined (get "highImpact" value) || is_bool (get "highImpact" value))
      provider_protocol_error
  checks ← validate_safety_checks provider (get "safetyChecks" value)
  let every = all_checks r checks (is_true (get "highImpact" value))
  guard (all_distinct (map check_key every)) safety_check_invalid
  ok (record { action_digest = digest; action_id = id; checks = every })

-- What follows the last approval: the authorization is put on record.
unfoldable pub authorize : Session → Operation → Request → Prepared → List Approval → Outcome
authorize s o r ready given =
    go_on s o (authorizing r ready given) (audit_authorization r ready given)

-- The next check is asked for, in order.
unfoldable pub ask_next :
    Session → Operation → Request → Prepared → List Approval → List Check → Outcome
ask_next s o r ready given [] = authorize s o r ready given
ask_next s o r ready given (c ∷ cs) = go_on s o (approving r ready given c cs) (approval r ready c)

-- `approveChecks`; `asks` says that the controller has an approval callback.
unfoldable pub ask_first : Bool → Session → Operation → Request → Prepared → List Check → Outcome
ask_first asks s o r ready [] = authorize s o r ready []
ask_first asks s o r ready (c ∷ cs) =
    if asks then ask_next s o r ready [] (c ∷ cs) else fail_with s o (coded approval_required)

-- The prepare response is there.
unfoldable pub on_prepared : Bool → Session → Operation → Request → Text → Value → Outcome
on_prepared asks s o r digest value =
    or_fail s o (assert_current s o >> read_prepared r digest value)
      λ ready. ask_first asks s o r ready ready.checks

unfoldable pub read_decision : Value → Result Code Text
read_decision value = do
  guard (is_object value && is_true (get "approved" value)) approval_denied
  id ← require (as_text (get "approvalId" value)) approval_denied
  guard (is_safe_text id) approval_denied
  ok id

unfoldable pub grant : Request → Prepared → Check → Text → Approval
grant r ready c id = record {
  safety_check_id = c.id;
  source = c.source;
  approval_id = id;
  prepared_action_id = ready.action_id;
  step = r.step;
  observation_digest = r.observation_digest;
  action_digest = ready.action_digest;
}

-- The decision on the check `c` is there; the checks behind it are asked for in order.
unfoldable pub on_decision :
    Session → Operation → Request → Prepared → List Approval → Check → List Check → Value → Outcome
on_decision s o r ready given c rest value =
    or_fail s o (assert_current s o >> read_decision value)
      λ id. ask_next s o r ready (given ++ grant r ready c id ∷ []) rest

-- The authorization is on record: the commit starts.
unfoldable pub on_authorized : Session → Operation → Request → Prepared → List Approval → Outcome
on_authorized s o r ready given = or_fail s o (assert_current s o) λ _.
    go_on (record s { commit_started = true }) o (committing r ready given)
      (provider_commit r ready given)

-- The result code of a commit response.
unfoldable pub read_committed : (Text → Option Url) → Policy → Value → Result Code Text
read_committed url p value = do
  guard (is_object value && is_text "executed" (get "status" value)) provider_protocol_error
  code ← require (as_text (get "resultCode" value)) provider_protocol_error
  guard (is_safe_text code) provider_protocol_error
  found ← validate_network_evidence url p value
  ok code

unfoldable pub on_committed :
    (Text → Option Url)
    → Policy
    → Session
    → Operation
    → Request
    → Prepared
    → List Approval
    → Value
    → Outcome
on_committed url p s o r ready given value =
    let done = record s { commit_completed = true } in
    or_fail done o (assert_current done o >> read_committed url p value)
      λ code. go_on done o (reporting r ready given code) (audit_action r ready given code)

-- The action is on record: the operation ends well.
unfoldable pub on_reported : Session → Operation → Request → Text → Outcome
on_reported s o r code = or_fail s o (assert_current s o) λ _. record {
  session = end_operation (record s { commit_started = false; commit_completed = false }) o;
  calls = [];
  reply = some (executed r.step code);
}
