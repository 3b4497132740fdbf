-- ===== src/ComputerUse/Tests.antt =====
-- Addresses, actions, checks, policies and network evidence, and the theorems at concrete inputs.
use useful.Common.{
  ℕ, ◌<◌, true, false, List, [], ◌∷◌, Option, none, some, Text, codes, any, All, text_eq, contains,
  if◌then◌else◌, ok, err, ◌≡◌, refl, arith, all_distinct, sort, insert_sorted, ◌↔◌, String,
}
use useful.Js.Value.{
  pos, Value, bool, int, str, arr, obj, nil, cons, end, field, get, lookup, has_key, nat_in,
  default_to, is_text,
}
use useful.Js.Show.{to_text}
use useful.ComputerUse.Base.{
  host_desktop_rejected, policy_invalid, is_safe_text, assert_known_keys, assert_integer,
}
use useful.ComputerUse.Address.{is_private_or_local_host, ends_with}
use useful.ComputerUse.Address.V4.{
  parse_ipv4, is_rejected_ipv4, split, prepend, is_octet, is_short_number, number_from,
}
use useful.ComputerUse.Address.V4.Blocks as V4Blocks
use useful.ComputerUse.Address.V4.Blocks.{in_block}
use useful.ComputerUse.Address.V4.Literal.{
  IsAddress, parse_ipv4-IsAddress, show_ipv4, parse_ipv4-show_ipv4,
}
use useful.ComputerUse.Address.V6.{
  parse_ipv6, is_rejected_ipv6, lower, lower_unit, strip_brackets, strip_close, strip_open,
  split_from, split_double, embedded_ipv4, expand_embedded, groups_of, is_group, hex_value,
  hex_from, to_bytes, assemble, parse_groups, has_char,
}
use useful.ComputerUse.Address.V6.Blocks as V6Blocks
use useful.ComputerUse.Address.V6.Bytes.{IsBytes, parse_ipv6-IsBytes}
use useful.ComputerUse.Action.{
  wait, assert_action, action_type, read_type, action_fields, fields_ok, is_duration,
}
use useful.ComputerUse.Action.Conforms.{IsAction, assert_action_iff}
use useful.ComputerUse.Checks.{
  high, model, Check, validate_safety_checks, read_check_list, read_checks, read_check,
  read_severity,
}
use useful.ComputerUse.Checks.Laws.{ChecksSound, validate_safety_checks-ChecksSound}
use useful.ComputerUse.Policy.{
  isolated_browser, Policy, Url, normalize_policy, setting, read_environment, read_bool,
  read_domains, canonical_hostnames, canonical_hostname, strip_dot, has_scheme, has_url_char,
  starts_scheme, policy_keys,
}
use useful.ComputerUse.Policy.Laws.{
  IsSound, normalize_policy-IsSound, normalize_policy-host_desktop,
}
use useful.ComputerUse.Network.{
  Evidence, validate_network_evidence, read_evidence, inspect_evidence, inspect_hops, inspect_hop,
  inspect_allowed_url, assert_reported_ips, assert_reported_ip,
}
use useful.ComputerUse.Network.Laws.{EvidenceSound, validate_network_evidence-EvidenceSound}

abbrev text : String → Value
text s = str (codes s)

-- All that the address parsers compute with.
addresses : Unit {0}
unfolding parse_ipv4 split prepend is_octet is_short_number number_from is_rejected_ipv4 show_ipv4
    parse_ipv6 lower lower_unit strip_brackets strip_close strip_open split_double split_from
    embedded_ipv4 expand_embedded groups_of is_group hex_value hex_from to_bytes assemble
    parse_groups has_char is_rejected_ipv6 is_private_or_local_host ends_with text_eq
addresses = tt

four : parse_ipv4 (codes "10.0.0.1") ≡ some (10 ∷ 0 ∷ 0 ∷ 1 ∷ [])
unfolding addresses
four = refl

is_rejected_ipv4-blocks_example :
    is_rejected_ipv4 (10 ∷ 0 ∷ 0 ∷ 1 ∷ [])
    ≡ any (in_block (10 ∷ 0 ∷ 0 ∷ 1 ∷ [])) V4Blocks.rejected_blocks
is_rejected_ipv4-blocks_example =
    V4Blocks.is_rejected_ipv4-blocks 10 0 0 1 (omega arith) (omega arith)

parse_ipv4-IsAddress_example : IsAddress (10 ∷ 0 ∷ 0 ∷ 1 ∷ []) (codes "10.0.0.1")
parse_ipv4-IsAddress_example = parse_ipv4-IsAddress (codes "10.0.0.1") four

parse_ipv4-show_ipv4_example : parse_ipv4 (show_ipv4 10 0 0 1) ≡ some (10 ∷ 0 ∷ 0 ∷ 1 ∷ [])
parse_ipv4-show_ipv4_example =
    parse_ipv4-show_ipv4 10 0 0 1 (omega arith) (omega arith) (omega arith) (omega arith)

abbrev loopback : List ℕ
loopback = 0 ∷ 0 ∷ 0 ∷ 0 ∷ 0 ∷ 0 ∷ 0 ∷ 0 ∷ 0 ∷ 0 ∷ 0 ∷ 0 ∷ 0 ∷ 0 ∷ 0 ∷ 1 ∷ []

six : parse_ipv6 (codes "::1") ≡ some loopback
unfolding addresses
six = refl

parse_ipv6-IsBytes_example : IsBytes loopback
parse_ipv6-IsBytes_example = parse_ipv6-IsBytes (codes "::1") six

bytes : All (λ n. n < 256) loopback
bytes = (
  omega arith,
  (
    omega arith,
    (
      omega arith,
      (
        omega arith,
        (
          omega arith,
          (
            omega arith,
            (
              omega arith,
              (
                omega arith,
                (
                  omega arith,
                  (
                    omega arith,
                    (
                      omega arith,
                      (omega arith, (omega arith, (omega arith, (omega arith, (omega arith, tt))))),
                    ),
                  ),
                ),
              ),
            ),
          ),
        ),
      ),
    ),
  ),
)

is_rejected_ipv6-blocks_example :
    is_rejected_ipv6 loopback ≡ any (in_block loopback) V6Blocks.rejected_blocks
is_rejected_ipv6-blocks_example =
    V6Blocks.is_rejected_ipv6-blocks loopback (record { sixteen = refl; each = bytes })

-- All that the readers of actions and checks compute with.
readers : Unit {0}
unfolding assert_action action_type read_type action_fields fields_ok is_duration text_eq get lookup
    has_key assert_known_keys validate_safety_checks read_check_list read_checks read_check
    read_severity is_safe_text contains nat_in
readers = tt

abbrev wait_action : Value
wait_action = obj (field "type" (text "wait") (field "durationMs" (int (pos 5)) end))

accepts : assert_action wait_action ≡ ok wait
unfolding readers
accepts = refl

assert_action_iff_example : (assert_action wait_action ≡ ok wait) ↔ IsAction wait wait_action
assert_action_iff_example = assert_action_iff wait_action wait

abbrev given_checks : Value
given_checks = arr (
    cons
      (obj (
        field "id" (text "c1")
          (field "description" (text "d") (field "severity" (text "high") end))))
      nil)

abbrev one_check : Check
one_check = record { id = codes "c1"; description = codes "d"; severity = high; source = model }

checks : validate_safety_checks model given_checks ≡ ok (one_check ∷ [])
unfolding readers
checks = refl

validate_safety_checks-ChecksSound_example : ChecksSound model (one_check ∷ [])
validate_safety_checks-ChecksSound_example =
    validate_safety_checks-ChecksSound model given_checks checks

-- A URL parser that knows one site.
unfoldable site : Text → Option Url
site t =
    if text_eq (lower t) (codes "https://example.com")
    then some (record {
      protocol = codes "https:";
      username = [];
      password = [];
      hostname = codes "example.com";
    })
    else none

-- All that a policy and evidence compute with.
policies : Unit {0}
unfolding addresses readers normalize_policy setting read_environment read_bool read_domains
    canonical_hostnames canonical_hostname strip_dot has_scheme has_url_char starts_scheme
    assert_integer all_distinct sort insert_sorted site validate_network_evidence read_evidence
    inspect_evidence inspect_hops inspect_hop inspect_allowed_url assert_reported_ips
    assert_reported_ip to_text
policies = tt

abbrev given_policy : Value
given_policy = obj (field "allowDomains" (arr (cons (text "Example.com") nil)) end)

abbrev online : Policy
online = record {
  environment = isolated_browser;
  max_steps = 25;
  step_deadline_ms = 30000;
  total_deadline_ms = 300000;
  max_screenshot_bytes = 10485760;
  allow_domains = codes "example.com" ∷ [];
  max_redirects = 0;
  development_mode = false;
  allow_private_domains = false;
}

normalizes : normalize_policy site given_policy ≡ ok online
unfolding policies
normalizes = refl

normalize_policy-IsSound_example : IsSound online
normalize_policy-IsSound_example = normalize_policy-IsSound site given_policy normalizes

abbrev desktop : Value
desktop = obj (field "environment" (text "host-desktop") end)

desktop_keys : assert_known_keys (default_to desktop (obj end)) policy_keys policy_invalid ≡ ok tt
unfolding policies
desktop_keys = refl

desktop_asked :
    is_text "host-desktop"
      (setting "environment" (str (codes "isolated-browser")) (default_to desktop (obj end)))
    ≡ true
unfolding policies
desktop_asked = refl

desktop_refused : normalize_policy site desktop ≡ err host_desktop_rejected
desktop_refused = normalize_policy-host_desktop site desktop desktop_keys desktop_asked

abbrev response : Value
response = obj (
    field "networkEvidence"
      (obj (
        field "complete" (bool true) (
          field "hops"
            (arr (
              cons
                (obj (
                  field "url" (text "https://example.com")
                    (field "resolvedIps" (arr (cons (text "93.184.216.34") nil)) end)))
                nil))
            end)))
      end)

abbrev found : Evidence
found = record { domain = codes "example.com"; url = text "https://example.com" }

finds : validate_network_evidence site online response ≡ ok (some found)
unfolding policies
finds = refl

validate_network_evidence-EvidenceSound_example : EvidenceSound site online response (some found)
validate_network_evidence-EvidenceSound_example =
    validate_network_evidence-EvidenceSound site online response finds
