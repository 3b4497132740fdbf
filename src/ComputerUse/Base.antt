-- ===== src/ComputerUse/Base.antt =====
-- The error codes and the small checks that the parts of the contract share.
use useful.Common.{
  ℕ, Bool, false, ◌&&◌, ◌||◌, List, [], ◌∷◌, String, none, some, Text, length, is_digit, is_lower,
  is_upper, is_lower_hex, leb, ◌==◌, all, Result, ok, err, ◌>>◌, guard,
}
use useful.Js.Value.{Value, str, is_object, own_keys, has_key, nat_in}

-- `COMPUTER_USE_ERROR_CODES`.
pub data Code : Type 0 where
  disabled policy_invalid host_desktop_rejected provider_invalid provider_protocol_error : Code
  session_not_found session_closed session_poisoned session_expired : Code
  observation_required observation_stale step_invalid step_replayed step_limit_exceeded : Code
  concurrent_action action_invalid screenshot_too_large domain_not_allowed : Code
  private_domain_rejected network_evidence_required network_address_rejected : Code
  redirect_limit_exceeded approval_required approval_denied safety_check_invalid cancelled : Code
  step_deadline_exceeded total_deadline_exceeded audit_failed : Code

-- `assertKnownKeys`.
unfoldable pub assert_known_keys : Value → List String → Code → Result Code (Unit {0})
assert_known_keys value allowed code =
    guard (is_object value) code >> guard (all (λ key. has_key key allowed) (own_keys value)) code

-- `assertInteger`, for bounds that are not negative, with the number.
unfoldable pub assert_integer : Value → ℕ → ℕ → Code → Result Code ℕ
assert_integer value lo hi code = elim (nat_in lo hi value) [ none ↦ err code | some n ↦ ok n ]

abbrev pub is_alphanumeric : ℕ → Bool
is_alphanumeric c = is_upper c || (is_lower c || is_digit c)

abbrev pub is_id_char : ℕ → Bool
is_id_char c = is_alphanumeric c || (c == b'.' || (c == b'_' || (c == b':' || c == b'-')))

-- `SAFE_ID`: `/^[A-Za-z0-9][A-Za-z0-9._:-]{0,127}$/`.
unfoldable pub is_safe_text : Text → Bool
is_safe_text [] = false
is_safe_text (c ∷ t) = is_alphanumeric c && (leb (length t) 127 && all is_id_char t)

-- `isSafeId`.
unfoldable pub is_safe_id : Value → Bool
is_safe_id (str t) = is_safe_text t
is_safe_id _ = false

-- `SHA256.test(value)` on a string: `/^[a-f0-9]{64}$/`.
unfoldable pub is_sha256 : Text → Bool
is_sha256 t = length t == 64 && all is_lower_hex t
