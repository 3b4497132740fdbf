-- ===== src/ComputerUse/Network.antt =====
-- `inspectAllowedUrl`, `assertReportedIp` and `validateNetworkEvidence`.
mod Addresses
pub mod Laws
use useful.Common.{
  Bool, not, ◌&&◌, ◌||◌, List, [], ◌∷◌, Option, none, some, Text, codes, length, text_eq, contains,
  is_trimmed, leb, ◌==◌, if◌then◌else◌, Result, ok, err, ◌>>=◌, ◌>>◌, guard,
}
use useful.Js.Value.{Value, str, get, is_object, is_undefined, is_true, as_items}
use useful.Js.Show.{to_text}
use useful.ComputerUse.Base.{
  Code, provider_protocol_error, domain_not_allowed, private_domain_rejected,
  network_evidence_required, network_address_rejected, redirect_limit_exceeded, assert_known_keys,
}
use useful.ComputerUse.Address.{is_private_or_local_host}
use useful.ComputerUse.Address.V4.{parse_ipv4, is_rejected_ipv4}
use useful.ComputerUse.Address.V6.{parse_ipv6, is_rejected_ipv6, lower}
use useful.ComputerUse.Policy.{Policy, Url, strip_dot, is_blank}

-- Both flags that let private destinations through.
abbrev pub allows_private : Policy → Bool
allows_private p = p.development_mode && p.allow_private_domains

-- `assertReportedIp`.
unfoldable pub assert_reported_ip : Policy → Value → Result Code (Unit {0})
assert_reported_ip p (str value) = do
  guard (leb 2 (length value) && (leb (length value) 64 && is_trimmed value))
      provider_protocol_error
  elim (parse_ipv4 value) [
    | some parts ↦ guard (allows_private p || not (is_rejected_ipv4 parts)) network_address_rejected
    | none ↦ elim (parse_ipv6 value) [
      | some bytes ↦
          guard (allows_private p || not (is_rejected_ipv6 bytes)) network_address_rejected
      | none ↦ err provider_protocol_error
    ]
  ]
assert_reported_ip p _ = err provider_protocol_error

unfoldable pub assert_reported_ips : Policy → List Value → Result Code (Unit {0})
assert_reported_ips p [] = ok tt
assert_reported_ips p (v ∷ vs) = assert_reported_ip p v >> assert_reported_ips p vs

pub record Evidence : Type 0 where
  pub domain : Text
  pub url : Value

-- No part of the value speaks of the network.
abbrev pub is_silent : Value → Bool
is_silent value =
    is_undefined (get "networkEvidence" value)
    && (is_undefined (get "url" value)
        && (is_undefined (get "redirects" value) && is_undefined (get "finalUrl" value)))

-- `url text` is `new URL(text)`, of the platform, which reads its argument as `String(value)`.
module _ (url : Text → Option Url) where
  unfoldable pub inspect_allowed_url : Policy → Value → Result Code Text
  inspect_allowed_url p raw = do
    parsed ← elim (url (to_text raw)) [ none ↦ err domain_not_allowed | some u ↦ ok u ]
    guard
        ((text_eq parsed.protocol (codes "http:") || text_eq parsed.protocol (codes "https:"))
          && (is_blank parsed.username && is_blank parsed.password))
        domain_not_allowed
    let domain = strip_dot (lower parsed.hostname)
    guard (not (is_private_or_local_host domain) || allows_private p) private_domain_rejected
    guard (contains p.allow_domains domain) domain_not_allowed
    ok domain

  -- One round of the loop over the hops.
  unfoldable pub inspect_hop : Policy → Value → Result Code Text
  inspect_hop p hop = do
    assert_known_keys hop ("url" ∷ "resolvedIps" ∷ []) provider_protocol_error
    domain ← inspect_allowed_url p (get "url" hop)
    ips ← elim (as_items (get "resolvedIps" hop)) [
      | none ↦ err network_evidence_required
      | some vs ↦ ok vs
    ]
    guard (leb 1 (length ips) && leb (length ips) 16) network_evidence_required
    assert_reported_ips p ips
    ok domain

  -- The loop, which keeps the domain and the URL of the last hop.
  unfoldable pub inspect_hops : Policy → Value → List Value → Result Code Evidence
  inspect_hops p hop [] = do
    domain ← inspect_hop p hop
    ok (record { domain = domain; url = get "url" hop })
  inspect_hops p hop (next ∷ hops) = inspect_hop p hop >>= λ _. inspect_hops p next hops

  -- The checks behind those of the shape of the evidence.
  unfoldable pub inspect_evidence : Policy → Value → List Value → Result Code (Option Evidence)
  inspect_evidence p evidence [] = err network_evidence_required
  inspect_evidence p evidence (hop ∷ hops) = do
    assert_known_keys evidence ("complete" ∷ "hops" ∷ []) provider_protocol_error
    guard (leb (length hops) p.max_redirects) redirect_limit_exceeded
    found ← inspect_hops p hop hops
    ok (some found)

  unfoldable pub read_evidence : Policy → Value → Result Code (Option Evidence)
  read_evidence p evidence = do
    guard (is_object evidence && is_true (get "complete" evidence)) network_evidence_required
    hops ← elim (as_items (get "hops" evidence)) [
      | none ↦ err network_evidence_required
      | some vs ↦ ok vs
    ]
    inspect_evidence p evidence hops

  -- `none` is the source's `undefined`: networking is off.
  unfoldable pub validate_network_evidence : Policy → Value → Result Code (Option Evidence)
  validate_network_evidence p value =
      if length p.allow_domains == 0
      then (guard (is_silent value) domain_not_allowed >> ok none)
      else read_evidence p (get "networkEvidence" value)
