-- ===== src/ComputerUse/Network/Laws.antt =====
-- What accepted network evidence guarantees of every hop.
use useful.ComputerUse.Network.Addresses.{IpSound, assert_reported_ips-IpSound}
use useful.Common.{
  ◌≤◌, true, false, ◌&&◌, List, [], ◌∷◌, Option, none, some, Text, codes, length, All, text_eq_iff,
  contains, leb, leb→le, ◌==◌, ==_iff, ok, bind-eq-ok, then-eq-ok, ◌≡◌, ◌⊎◌, inl, inr, subst, arith,
  Bool-cases, and-split, Option-cases,
}
use useful.Js.Value.{Value, get, is_object, is_true, as_items}
use useful.Js.Show.{to_text}
use useful.ComputerUse.Base.{
  provider_protocol_error, domain_not_allowed, network_evidence_required, redirect_limit_exceeded,
  assert_known_keys,
}
use useful.ComputerUse.Address.{is_private_or_local_host}
use useful.ComputerUse.Address.V6.{lower}
use useful.ComputerUse.Policy.{Policy, Url, strip_dot, is_blank}
use useful.ComputerUse.Network.{
  allows_private, Evidence, inspect_allowed_url, inspect_hop, inspect_hops, inspect_evidence,
  read_evidence, is_silent, validate_network_evidence,
}

module _ (url : Text → Option Url) (p : Policy) where
  -- A credential-free web address of an allowed host, which is public unless the policy allows private
  -- destinations.
  pub record UrlSound (raw : Value) (domain : Text) : Type 0 where
    pub parsed : Url
    pub parses : url (to_text raw) ≡ some parsed
    pub is_domain : domain ≡ strip_dot (lower parsed.hostname)
    pub plain : (is_blank parsed.username ≡ true) × (is_blank parsed.password ≡ true)
    pub web : (parsed.protocol ≡ codes "http:") ⊎ (parsed.protocol ≡ codes "https:")
    pub listed : contains p.allow_domains domain ≡ true
    pub public : (is_private_or_local_host domain ≡ false) ⊎ (allows_private p ≡ true)

  -- A hop to the host `domain`, with one to sixteen sound addresses.
  pub record HopSound (hop : Value) (domain : Text) : Type 0 where
    pub destination : UrlSound (get "url" hop) domain
    pub ips : List Value
    pub ips_are : as_items (get "resolvedIps" hop) ≡ some ips
    pub counted : (1 ≤ length ips) × (length ips ≤ 16)
    pub each : All (IpSound p) ips

  inspect_allowed_url-UrlSound :
      (raw : Value) {domain : Text}
      → inspect_allowed_url url p raw ≡ ok domain
      → UrlSound raw domain
  unfolding inspect_allowed_url
  inspect_allowed_url-UrlSound raw e = elim (Option-cases (url (to_text raw))) [
    | inl bad ↦ ground (arith, bad)
    | inr (u, parsed) ↦ record {
      parsed = u;
      parses = parsed;
      is_domain = ground (arith, parsed);
      plain = ground (arith, parsed);
      web = ground (
        arith,
        parsed,
        text_eq_iff u.protocol (codes "http:"),
        text_eq_iff u.protocol (codes "https:"),
      );
      listed = ground (arith, parsed);
      public = ground (arith, parsed);
    }
  ]

  inspect_hop-HopSound :
      (hop : Value) {domain : Text} → inspect_hop url p hop ≡ ok domain → HopSound hop domain
  unfolding inspect_hop
  inspect_hop-HopSound hop {domain} e =
      let (_, _, e) =
        bind-eq-ok (assert_known_keys hop ("url" ∷ "resolvedIps" ∷ []) provider_protocol_error) _
          e in
      let (found, inspected, e) = bind-eq-ok (inspect_allowed_url url p (get "url" hop)) _ e in
      let u = inspect_allowed_url-UrlSound (get "url" hop) inspected in
      elim (Option-cases (as_items (get "resolvedIps" hop))) [
        | inl none_given ↦ ground (arith, none_given)
        | inr (vs, given) ↦ record {
          destination = let same : found ≡ domain = ground (arith, given) in rw (← same) u;
          ips = vs;
          ips_are = given;
          counted = ground (arith, given);
          each = assert_reported_ips-IpSound p vs (ground (arith, given));
        }
      ]

  -- Each hop is sound, and `last` is the domain of the last one.
  pub data HopsSound (last : Text) : Value → List Value → Type 0 where
    end : {hop : Value} → HopSound hop last → HopsSound last hop []
    hop_to :
        {hop next : Value} {hops : List Value} {domain : Text}
        → HopSound hop domain
        → HopsSound last next hops
        → HopsSound last hop (next ∷ hops)

  inspect_hops-HopsSound :
      (hop : Value) (hops : List Value) {found : Evidence}
      → inspect_hops url p hop hops ≡ ok found
      → HopsSound found.domain hop hops
  unfolding inspect_hops
  inspect_hops-HopsSound hop [] {found} e =
      let (domain, inspected, e) = bind-eq-ok (inspect_hop url p hop) _ e in
      let sound = inspect_hop-HopSound hop inspected in
      let same : domain ≡ found.domain = ground arith in end (rw same at sound)
  inspect_hops-HopsSound hop (next ∷ hops) e =
      let (domain, inspected, e) = bind-eq-ok (inspect_hop url p hop) _ e in
      hop_to (inspect_hop-HopSound hop inspected) (inspect_hops-HopsSound next hops e)

  -- What the evidence of a value says, once it is accepted: nothing at all while no host is allowed,
  -- and otherwise a chain of sound hops within the redirect limit.
  pub data EvidenceSound (value : Value) : Option Evidence → Type 0 where
    silent : length p.allow_domains ≡ 0 → is_silent value ≡ true → EvidenceSound value none
    chain :
        {found : Evidence} (hop : Value) (hops : List Value)
        → as_items (get "hops" (get "networkEvidence" value)) ≡ some (hop ∷ hops)
        → is_true (get "complete" (get "networkEvidence" value)) ≡ true
        → length hops ≤ p.max_redirects
        → HopsSound found.domain hop hops
        → EvidenceSound value (some found)

inspect_evidence-EvidenceSound :
    (url : Text → Option Url) (p : Policy) (value : Value) (hops : List Value)
    {found : Option Evidence}
    → as_items (get "hops" (get "networkEvidence" value)) ≡ some hops
    → is_true (get "complete" (get "networkEvidence" value)) ≡ true
    → inspect_evidence url p (get "networkEvidence" value) hops ≡ ok found
    → EvidenceSound url p value found
unfolding inspect_evidence
inspect_evidence-EvidenceSound url p value [] given complete e = cc
inspect_evidence-EvidenceSound url p value (hop ∷ hops) {found} given complete e =
    let evidence = get "networkEvidence" value in
    let (_, _, e) =
      bind-eq-ok (assert_known_keys evidence ("complete" ∷ "hops" ∷ []) provider_protocol_error) _
        e in
    let (few, e) = then-eq-ok (leb (length hops) p.max_redirects) redirect_limit_exceeded _ e in
    let (last, walked, e) = bind-eq-ok (inspect_hops url p hop hops) _ e in
    let same : some last ≡ found = ground arith in
    subst (EvidenceSound url p value) same (
      chain hop hops given complete (leb→le _ _ few) (inspect_hops-HopsSound url p hop hops walked))

read_evidence-EvidenceSound :
    (url : Text → Option Url) (p : Policy) (value : Value) {found : Option Evidence}
    → read_evidence url p (get "networkEvidence" value) ≡ ok found
    → EvidenceSound url p value found
unfolding read_evidence
read_evidence-EvidenceSound url p value {found} e =
    let evidence = get "networkEvidence" value in
    let (shape, e) =
      then-eq-ok (is_object evidence && is_true (get "complete" evidence)) network_evidence_required
        _ e in
    let (_, complete) = and-split (is_object evidence) (is_true (get "complete" evidence)) shape in
    elim (Option-cases (as_items (get "hops" evidence))) [
      | inl missing ↦ ground (arith, missing)
      | inr (hops, given) ↦
          inspect_evidence-EvidenceSound url p value hops given complete (ground (arith, given))
    ]

-- Accepted network evidence is sound: with no allowed host there is none, and otherwise it is complete,
-- keeps the redirect limit, and every hop goes to an allowed host by addresses outside the rejected
-- blocks, unless the policy allows private destinations.
pub validate_network_evidence-EvidenceSound :
    (url : Text → Option Url) (p : Policy) (value : Value) {found : Option Evidence}
    → validate_network_evidence url p value ≡ ok found
    → EvidenceSound url p value found
unfolding validate_network_evidence
validate_network_evidence-EvidenceSound url p value {found} e =
    elim (Bool-cases (length p.allow_domains == 0)) [
      | inl closed ↦
          let (quiet, nothing) =
            then-eq-ok (is_silent value) domain_not_allowed _ (rw closed at e) in
          let same : none ≡ found = ground arith in
          subst (EvidenceSound url p value) same (silent ((==_iff _ 0).0 closed) quiet)
      | inr reached ↦ read_evidence-EvidenceSound url p value (rw reached at e)
    ]
