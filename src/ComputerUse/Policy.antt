-- ===== src/ComputerUse/Policy.antt =====
-- `canonicalHostname` and `normalizeComputerUsePolicy`.
pub mod Laws
use useful.Common.{
  ℕ, ◌*◌, Bool, true, false, not, ◌&&◌, ◌||◌, List, [], ◌∷◌, ◌++◌, String, Option, none, some, Text,
  codes, length, any, text_eq, all_distinct, is_trimmed, sort, leb, ◌==◌, if◌then◌else◌, Result, ok,
  err, ◌>>=◌, ◌>>◌, guard,
}
use useful.Js.Value.{
  pos, Value, bool, int, str, arr, nil, obj, end, get, default_to, own_keys, has_key, is_text,
  as_items,
}
use useful.ComputerUse.Base.{
  Code, policy_invalid, host_desktop_rejected, private_domain_rejected, assert_known_keys,
  assert_integer,
}
use useful.ComputerUse.Address.{is_private_or_local_host}
use useful.ComputerUse.Address.V6.{lower, has_char}

pub data Environment : Type 0 where
  isolated_browser isolated_vm : Environment

pub record Policy : Type 0 where
  pub environment : Environment
  pub max_steps : ℕ
  pub step_deadline_ms : ℕ
  pub total_deadline_ms : ℕ
  pub max_screenshot_bytes : ℕ
  pub allow_domains : List Text
  pub max_redirects : ℕ
  pub development_mode : Bool
  pub allow_private_domains : Bool

-- `text.replace(/\.$/u, "")`.
unfoldable pub strip_dot : Text → Text
strip_dot [] = []
strip_dot (c ∷ []) = if c == b'.' then [] else c ∷ []
strip_dot (c ∷ d ∷ t) = c ∷ strip_dot (d ∷ t)

unfoldable pub starts_scheme : Text → Bool
starts_scheme (a ∷ b ∷ c ∷ t) = a == b':' && (b == b'/' && c == b'/')
starts_scheme _ = false

-- `text.includes("://")`.
unfoldable pub has_scheme : Text → Bool
has_scheme [] = false
has_scheme (c ∷ t) = starts_scheme (c ∷ t) || has_scheme t

-- `/[/?#@]/u.test(text)`.
unfoldable pub has_url_char : Text → Bool
has_url_char t = any (λ c. c == b'/' || (c == b'?' || (c == b'#' || c == b'@'))) t

-- What the platform's `URL` says of a text: the parts that the source reads, or that it throws.
pub record Url : Type 0 where
  pub protocol : Text
  pub username : Text
  pub password : Text
  pub hostname : Text

abbrev pub is_blank : Text → Bool
is_blank [] = true
is_blank (c ∷ t) = false

-- `{ ...DEFAULT_POLICY_VALUE, ...policy }`, read at one key: a key that is present overrides the default.
unfoldable pub setting : String → Value → Value → Value
setting key default policy = if has_key key (own_keys policy) then get key policy else default

unfoldable pub read_environment : Value → Result Code Environment
read_environment v =
    if is_text "host-desktop" v
    then err host_desktop_rejected
    else if is_text "isolated-browser" v
    then ok isolated_browser
    else if is_text "isolated-vm" v
    then ok isolated_vm
    else err policy_invalid

unfoldable pub read_bool : Value → Result Code Bool
read_bool (bool b) = ok b
read_bool _ = err policy_invalid

abbrev pub from_nat : ℕ → Value
from_nat n = int (pos n)

abbrev pub schema : String
schema = "useful.computer-use.v1"

abbrev pub policy_keys : List String
policy_keys =
    "schemaVersion" ∷ "environment" ∷ "maxSteps" ∷ "stepDeadlineMs" ∷ "totalDeadlineMs"
    ∷ "maxScreenshotBytes" ∷ "allowDomains" ∷ "maxRedirects" ∷ "developmentMode"
    ∷ "allowPrivateDomains" ∷ []

-- `url text` is `new URL(text)`, of the platform.
module _ (url : Text → Option Url) where
  unfoldable pub canonical_hostname : Value → Result Code Text
  canonical_hostname (str value) = do
    guard (leb 1 (length value) && (leb (length value) 253 && is_trimmed value)) policy_invalid
    guard (not (has_scheme value || has_url_char value)) policy_invalid
    parsed ← elim (url (codes "https://" ++ value)) [ none ↦ err policy_invalid | some u ↦ ok u ]
    let hostname = strip_dot (lower parsed.hostname)
    let source = strip_dot (lower value)
    guard (not (is_blank hostname || (not (text_eq hostname source) && not (has_char b'[' source))))
        policy_invalid
    ok hostname
  canonical_hostname _ = err policy_invalid

  -- `normalized.allowDomains.map(canonicalHostname)`.
  unfoldable pub canonical_hostnames : List Value → Result Code (List Text)
  canonical_hostnames [] = ok []
  canonical_hostnames (v ∷ vs) = do
    h ← canonical_hostname v
    hs ← canonical_hostnames vs
    ok (h ∷ hs)

  -- The checks of `allowDomains`; `private` says that private hosts are allowed.
  unfoldable pub read_domains : Bool → Value → Result Code (List Text)
  read_domains private v = do
    entries ← elim (as_items v) [ none ↦ err policy_invalid | some vs ↦ ok vs ]
    guard (leb (length entries) 256) policy_invalid
    domains ← canonical_hostnames entries
    guard (all_distinct domains) policy_invalid
    guard (private || not (any is_private_or_local_host domains)) private_domain_rejected
    ok (sort domains)

  unfoldable pub normalize_policy : Value → Result Code Policy
  normalize_policy given = do
    let policy = default_to given (obj end)
    assert_known_keys policy policy_keys policy_invalid
    environment ← read_environment (setting "environment" (str (codes "isolated-browser")) policy)
    guard (is_text schema (setting "schemaVersion" (str (codes schema)) policy)) policy_invalid
    max_steps ← assert_integer (setting "maxSteps" (from_nat 25) policy) 1 10000 policy_invalid
    step ←
        assert_integer (setting "stepDeadlineMs" (from_nat 30000) policy) 1 3600000 policy_invalid
    total ←
        assert_integer (setting "totalDeadlineMs" (from_nat 300000) policy) 1 86400000
          policy_invalid
    guard (leb step total) policy_invalid
    screenshot ←
        assert_integer (setting "maxScreenshotBytes" (from_nat (10 * 1024 * 1024)) policy) 1
          (64 * 1024 * 1024) policy_invalid
    redirects ← assert_integer (setting "maxRedirects" (from_nat 0) policy) 0 20 policy_invalid
    development ← read_bool (setting "developmentMode" (bool false) policy)
    private ← read_bool (setting "allowPrivateDomains" (bool false) policy)
    guard (not (private && not development)) policy_invalid
    domains ← read_domains (development && private) (setting "allowDomains" (arr nil) policy)
    ok (record {
      environment = environment;
      max_steps = max_steps;
      step_deadline_ms = step;
      total_deadline_ms = total;
      max_screenshot_bytes = screenshot;
      allow_domains = domains;
      max_redirects = redirects;
      development_mode = development;
      allow_private_domains = private;
    })
