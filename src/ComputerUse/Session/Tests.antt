-- ===== src/ComputerUse/Session/Tests.antt =====
-- A session that observes, executes one action with an approval, and closes; and the theorems on it.
use useful.Common.{
  ℕ, true, false, List, [], ◌∷◌, Option, none, Text, codes, All, length, ◌≤◌, text_eq, contains,
  ◌≡◌, refl, all_distinct, String,
}
use useful.Js.Value.{pos, Value, bool, int, str, obj, end, field, get, lookup, has_key}
use useful.ComputerUse.Base.{is_safe_text, is_sha256, assert_known_keys}
use useful.ComputerUse.Action.{
  assert_action, action_type, read_type, action_fields, fields_ok, is_typed_text, is_high_impact,
}
use useful.ComputerUse.Checks.{validate_safety_checks}
use useful.ComputerUse.Network.{validate_network_evidence}
use useful.ComputerUse.Policy.{isolated_browser, Policy, Url}
use useful.ComputerUse.Session.{
  created, commit_outcome_unknown, admit, assert_current, bounded_options, check_free, occupied,
  start_operation, abort_operation, step_of, advance, end_operation, start_close, go_on, or_fail,
  begin, Session, provider_observe,
}
use useful.ComputerUse.Session.Shut.{is_shut, pending, run-Silent}
use useful.ComputerUse.Session.Order.{Ascending, commit_steps}
use useful.ComputerUse.Session.Order.Runs.{run-commit_steps}
use useful.ComputerUse.Session.Settled.{is_committed, is_committing, is_accounted}
use useful.ComputerUse.Session.Settled.Runs.{run-is_accounted}
use useful.ComputerUse.Session.Observe.{
  screenshot_length, start_observe, on_job, on_observation, on_recorded, read_observation,
}
use useful.ComputerUse.Session.Execute.{
  read_step, check_step, check_observation, read_request, check_idle, take_step, begin_request,
  start_execute, on_digest, type_name, high_impact_check, check_key, all_checks, read_prepared,
  authorize, ask_next, ask_first, on_prepared, read_decision, grant, on_decision, on_authorized,
  read_committed, on_committed, on_reported,
}
use useful.ComputerUse.Session.Step.{
  returned, done, threw, Event, observe, execute, answer, stay, resume, resume_running, step, run,
}

abbrev text : String → Value
text s = str (codes s)

-- A policy without networking.
abbrev offline : Policy
offline = record {
  environment = isolated_browser;
  max_steps = 3;
  step_deadline_ms = 1000;
  total_deadline_ms = 9000;
  max_screenshot_bytes = 4096;
  allow_domains = [];
  max_redirects = 0;
  development_mode = false;
  allow_private_domains = false;
}

abbrev no_url : Text → Option Url
no_url t = none

abbrev digest : Value → Text
digest v = codes "d1"

abbrev seen : Text
seen = codes "0123456789abcdef0123456789abcdef0123456789abcdef0123456789abcdef"

abbrev observation : Value
observation = obj (field "observationDigest" (str seen) end)

abbrev action : Value
action = obj (field "type" (text "type") (field "text" (text "hi") end))

abbrev request : Value
request =
    obj (
      field "step" (int (pos 1)) (field "observationDigest" (str seen) (field "action" action end)))

abbrev prepared : Value
prepared = obj (field "status" (text "prepared") (field "preparedActionId" (text "p1") end))

abbrev decision : Value
decision = obj (field "approved" (bool true) (field "approvalId" (text "a1") end))

abbrev committed : Value
committed = obj (field "status" (text "executed") (field "resultCode" (text "OK") end))

abbrev events : List Event
events =
    observe 0 false
    ∷ answer done
    ∷ answer (returned observation)
    ∷ answer done
    ∷ execute 1 1 false request
    ∷ answer done
    ∷ answer (returned prepared)
    ∷ answer (returned decision)
    ∷ answer done
    ∷ answer (returned committed)
    ∷ answer done
    ∷ []

-- All that a run computes with.
session : Unit {0}
unfolding run step created start_observe begin admit start_operation check_free bounded_options
    occupied resume_running resume on_job on_observation or_fail assert_current read_observation
    screenshot_length is_sha256 validate_network_evidence get lookup has_key on_recorded
    end_operation advance step_of start_execute begin_request check_idle read_request read_step
    check_step check_observation assert_known_keys assert_action action_type read_type action_fields
    fields_ok is_typed_text validate_safety_checks text_eq take_step on_digest go_on on_prepared
    read_prepared is_safe_text all_checks is_high_impact high_impact_check type_name check_key
    all_distinct contains ask_first ask_next on_decision read_decision grant authorize on_authorized
    on_committed read_committed on_reported commit_steps stay start_close abort_operation is_shut
session = tt

commits_once : commit_steps (run no_url digest offline true (created offline 0) events).1 ≡ 1 ∷ []
unfolding session
commits_once = refl

run-commit_steps_example :
    (high : ℕ) × Ascending 3 1
      (commit_steps (run no_url digest offline true (created offline 0) events).1)
      high
run-commit_steps_example = run-commit_steps no_url digest offline true 0 events

-- An `observe` whose job has not run when the session is closed.
abbrev closing : Session
closing =
    start_close (step no_url digest offline true (created offline 0) (observe 0 false)).session

closing_is_shut : is_shut closing ≡ true
unfolding session
closing_is_shut = refl

run-Silent_example :
    All
      (λ call. call ≡ provider_observe)
      (run no_url digest offline true closing (answer done ∷ events)).1
    × (length (run no_url digest offline true closing (answer done ∷ events)).1 ≤ pending closing)
    × (is_shut (run no_url digest offline true closing (answer done ∷ events)).0 ≡ true)
run-Silent_example =
    run-Silent no_url digest offline true (answer done ∷ events) closing closing_is_shut

-- The job of that `observe` still asks the provider.
asks_while_closing :
    (run no_url digest offline true closing (answer done ∷ [])).1 ≡ provider_observe ∷ []
unfolding session
asks_while_closing = refl

-- Up to the call of the commit.
abbrev to_commit : List Event
to_commit =
    observe 0 false
    ∷ answer done
    ∷ answer (returned observation)
    ∷ answer done
    ∷ execute 1 1 false request
    ∷ answer done
    ∷ answer (returned prepared)
    ∷ answer (returned decision)
    ∷ answer done
    ∷ []

waits :
    is_committed (run no_url digest offline true (created offline 0) to_commit).0.operation ≡ true
unfolding session is_committed is_committing
waits = refl

run-is_accounted_example :
    is_accounted (
      step no_url digest offline true
        (run no_url digest offline true (created offline 0) to_commit).0
        (answer (threw commit_outcome_unknown)))
    ≡ true
run-is_accounted_example =
    run-is_accounted no_url digest offline true 0 to_commit (answer (threw commit_outcome_unknown))
      waits
