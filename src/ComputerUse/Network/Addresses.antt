-- ===== src/ComputerUse/Network/Addresses.antt =====
-- What an accepted address of network evidence guarantees.
use useful.Common.{
  ℕ, Bool, true, false, not, ◌||◌, List, [], ◌∷◌, some, Text, any, All, ok, ◌≡◌, ◌⊎◌, inl, inr,
  refl, sym, ◌∙◌, arith, Option-cases,
}
use useful.Js.Value.{Value, str}
use useful.ComputerUse.Address.V4.{parse_ipv4, is_rejected_ipv4}
use useful.ComputerUse.Address.V4.Blocks as V4Blocks
use useful.ComputerUse.Address.V4.Blocks.{in_block}
use useful.ComputerUse.Address.V4.Literal.{parse_ipv4-IsAddress}
use useful.ComputerUse.Address.V6.{parse_ipv6, is_rejected_ipv6}
use useful.ComputerUse.Address.V6.Blocks as V6Blocks
use useful.ComputerUse.Address.V6.Bytes.{parse_ipv6-IsBytes}
use useful.ComputerUse.Policy.{Policy}
use useful.ComputerUse.Network.{allows_private, assert_reported_ip, assert_reported_ips}

-- A text that spells an address outside every rejected block.
abbrev pub IsPublicAddress : Text → Type 0
IsPublicAddress t =
    ((octets : List ℕ) × (parse_ipv4 t ≡ some octets)
      × (any (in_block octets) V4Blocks.rejected_blocks ≡ false))
    ⊎ ((bytes : List ℕ) × (parse_ipv6 t ≡ some bytes)
        × (any (in_block bytes) V6Blocks.rejected_blocks ≡ false))

-- A text that spells an address.
abbrev pub IsLiteral : Text → Type 0
IsLiteral t =
    ((octets : List ℕ) × (parse_ipv4 t ≡ some octets))
    ⊎ ((bytes : List ℕ) × (parse_ipv6 t ≡ some bytes))

-- A reported address, which has to be public unless the policy allows private destinations.
pub record IpSound (p : Policy) (v : Value) : Type 0 where
  pub text : Text
  pub text_is : v ≡ str text
  pub literal : IsLiteral text
  pub public : (allows_private p ≡ true) ⊎ IsPublicAddress text

rejected-blocks_v4 :
    (t : Text) (octets : List ℕ)
    → parse_ipv4 t ≡ some octets
    → is_rejected_ipv4 octets ≡ any (in_block octets) V4Blocks.rejected_blocks
rejected-blocks_v4 t octets e =
    let w = parse_ipv4-IsAddress t e in
    rw w.numbers_are (V4Blocks.is_rejected_ipv4-blocks w.a w.b w.c w.d w.a_byte w.b_byte)

rejected-blocks_v6 :
    (t : Text) (bytes : List ℕ)
    → parse_ipv6 t ≡ some bytes
    → is_rejected_ipv6 bytes ≡ any (in_block bytes) V6Blocks.rejected_blocks
rejected-blocks_v6 t bytes e = V6Blocks.is_rejected_ipv6-blocks bytes (parse_ipv6-IsBytes t e)

public-cases : (a r : Bool) → (a || not r) ≡ true → (a ≡ true) ⊎ (r ≡ false)
public-cases a r h = ground arith

assert_reported_ip-IpSound : (p : Policy) (v : Value) → assert_reported_ip p v ≡ ok tt → IpSound p v
unfolding assert_reported_ip
assert_reported_ip-IpSound p (str t) e = elim (Option-cases (parse_ipv4 t)) [
  | inr (octets, v4) ↦
      let open_or_public =
        public-cases (allows_private p) (is_rejected_ipv4 octets) (ground (arith, v4)) in
      record {
        text = t;
        text_is = refl;
        literal = inl (octets, v4);
        public = elim open_or_public [
          | inl private ↦ inl private
          | inr kept ↦ inr (inl (octets, v4, sym (rejected-blocks_v4 t octets v4) ∙ kept))
        ];
      }
  | inl not_v4 ↦ elim (Option-cases (parse_ipv6 t)) [
    | inr (bytes, v6) ↦
        let open_or_public =
          public-cases (allows_private p) (is_rejected_ipv6 bytes) (ground (arith, not_v4, v6)) in
        record {
          text = t;
          text_is = refl;
          literal = inr (bytes, v6);
          public = elim open_or_public [
            | inl private ↦ inl private
            | inr kept ↦ inr (inr (bytes, v6, sym (rejected-blocks_v6 t bytes v6) ∙ kept))
          ];
        }
    | inl not_v6 ↦ ground (arith, not_v4, not_v6)
  ]
]
assert_reported_ip-IpSound p _ e = cc

pub assert_reported_ips-IpSound :
    (p : Policy) (vs : List Value) → assert_reported_ips p vs ≡ ok tt → All (IpSound p) vs
unfolding assert_reported_ips
assert_reported_ips-IpSound p [] e = tt
assert_reported_ips-IpSound p (v ∷ vs) e =
    ground (arith, assert_reported_ip-IpSound p v, assert_reported_ips-IpSound p vs)
