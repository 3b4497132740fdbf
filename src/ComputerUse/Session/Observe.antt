-- ===== src/ComputerUse/Session/Observe.antt =====
-- `observe`: what follows the provider's observation, and its audit.
use useful.Common.{
  ℕ, Bool, [], ◌∷◌, Option, none, some, Text, leb, Result, ok, err, ◌>>=◌, ◌>>◌, guard, require,
}
use useful.Js.Value.{Value, undefined, buffer, get, is_object, as_text}
use useful.ComputerUse.Base.{Code, provider_protocol_error, screenshot_too_large, is_sha256}
use useful.ComputerUse.Network.{Evidence, validate_network_evidence}
use useful.ComputerUse.Policy.{Policy, Url}
use useful.ComputerUse.Session.{
  Session, Operation, PoisonReason, deferred, go_on, observing, recording, admit, assert_current,
  start_operation, end_operation, Outcome, observed, audit_observation, provider_observe, or_fail,
  fail_with, begin,
}

-- `screenshotLength`.
unfoldable pub screenshot_length : Value → Result Code ℕ
screenshot_length undefined = ok 0
screenshot_length (buffer n) = ok n
screenshot_length _ = err provider_protocol_error

-- `observe` up to the job of its operation, which asks the provider for the observation: the job looks at
-- neither the signal nor the session before it does.
unfoldable pub start_observe : Policy → Session → ℕ → Bool → Outcome
start_observe p s now aborted = begin s [] (admit s now >> start_operation p s deferred now aborted)

unfoldable pub on_job : Session → Operation → Outcome
on_job s o = go_on s o observing provider_observe

module _ (url : Text → Option Url) (p : Policy) where
  -- The digest and the domain of an observation that the provider returned.
  unfoldable pub read_observation : Value → Result Code (Text × Option Evidence)
  read_observation value = do
    guard (is_object value) provider_protocol_error
    digest ← require (as_text (get "observationDigest" value)) provider_protocol_error
    guard (is_sha256 digest) provider_protocol_error
    bytes ← screenshot_length (get "screenshot" value)
    guard (leb bytes p.max_screenshot_bytes) screenshot_too_large
    network ← validate_network_evidence url p value
    ok (digest, network)

  abbrev pub domain_of : Option Evidence → Option Text
  domain_of none = none
  domain_of (some e) = some e.domain

  -- The provider has answered: the digest is stored, and its audit is awaited.
  unfoldable pub on_observation : Session → Operation → Value → Outcome
  on_observation s o value = or_fail s o (assert_current s o >> read_observation value) λ r.
      record {
        session = record s {
          latest_digest = some r.0;
          latest_domain = domain_of r.1;
          operation = some (record o { work = recording r.0 });
        };
        calls = audit_observation r.0 ∷ [];
        reply = none;
      }

-- The audit of an observation has ended. Its failure takes the observation back.
unfoldable pub on_recorded : Session → Operation → Text → Option PoisonReason → Outcome
on_recorded s o digest (some reason) =
    fail_with (record s { latest_digest = none; latest_domain = none }) o reason
on_recorded s o digest none =
    or_fail s o (assert_current s o)
      λ _. record { session = end_operation s o; calls = []; reply = some (observed digest) }
