-- ===== src/ComputerUse/Address/V6/Blocks.antt =====
-- The address blocks that `isRejectedIpv6` stands for.
use useful.Common.{
  if◌then◌else◌, ℕ, zero, suc, ◌-◌, ◌*◌, ◌/◌, ◌<◌, ◌≤◌, Bool, true, false, not, ◌&&◌, List, [], ◌∷◌,
  ◌++◌, map, any, all, ◌==◌, length, replicate, take, drop, get_or, ◌≡◌, refl, arith, ap, ◌∙◌,
  cons_cong, any_true, any_true-map,
}
use Prim.Native.Nat.{bit_and}
use useful.ComputerUse.Address.V4.Blocks.{in_prefix, Block, in_block}
use useful.ComputerUse.Address.V6.{is_zero, is_rejected_ipv6}
use useful.ComputerUse.Address.V6.Bytes.{IsBytes}

abbrev zeros : ℕ → List ℕ
zeros n = replicate n 0

abbrev block : List ℕ → ℕ → Block
block network bits = record { network = network; bits = bits }

-- Unspecified, loopback, unique local, link-local, site-local, multicast, documentation, and the
-- IPv4-mapped and IPv4-compatible addresses.
abbrev pub rejected_blocks : List Block
rejected_blocks =
    block (zeros 16) 128
    ∷ block (zeros 15 ++ 1 ∷ []) 128
    ∷ block (0xfc ∷ []) 7
    ∷ block (0xfe ∷ 0x80 ∷ []) 10
    ∷ block (0xfe ∷ 0xc0 ∷ []) 10
    ∷ block (0xff ∷ []) 8
    ∷ block (0x20 ∷ 0x01 ∷ 0x0d ∷ 0xb8 ∷ []) 32
    ∷ block (zeros 10 ++ (0xff ∷ 0xff ∷ [])) 96
    ∷ block (zeros 12) 96
    ∷ []

is_same : Bool → Bool → Bool
is_same true b = b
is_same false b = not b

is_same_sound : (a b : Bool) → is_same a b ≡ true → a ≡ b
unfolding is_same
is_same_sound true b h = ground arith
is_same_sound false b h = ground arith

-- Two tests of a byte, compared on every byte under a limit.
agrees_to : (ℕ → Bool) → (ℕ → Bool) → ℕ → Bool
agrees_to f g zero = true
agrees_to f g (suc limit) = if is_same (f limit) (g limit) then agrees_to f g limit else false

agrees_to_lem : (f g : ℕ → Bool) (limit b : ℕ) → b < limit → agrees_to f g limit ≡ true → f b ≡ g b
unfolding agrees_to
agrees_to_lem f g zero b lt same = absurd (omega arith)
agrees_to_lem f g (suc limit) b lt same =
    ground (arith, agrees_to_lem f g limit b, is_same_sound (f limit) (g limit))

-- The masks of the source, read as prefixes of a byte.
seven_bits : (b : ℕ) → b < 256 → (bit_and b 0xfe == 0xfc) ≡ (126 == b / 2)
unfolding agrees_to is_same
seven_bits b h = agrees_to_lem (λ b. bit_and b 0xfe == 0xfc) (λ b. 126 == b / 2) 256 b h refl

two_bits_link : (b : ℕ) → b < 256 → (bit_and b 0xc0 == 0x80) ≡ (2 == b / 64)
unfolding agrees_to is_same
two_bits_link b h = agrees_to_lem (λ b. bit_and b 0xc0 == 0x80) (λ b. 2 == b / 64) 256 b h refl

two_bits_site : (b : ℕ) → b < 256 → (bit_and b 0xc0 == 0xc0) ≡ (3 == b / 64)
unfolding agrees_to is_same
two_bits_site b h = agrees_to_lem (λ b. bit_and b 0xc0 == 0xc0) (λ b. 3 == b / 64) 256 b h refl

-- `==` does not mind the order of its sides.
==_comm : (a b : ℕ) → (a == b) ≡ (b == a)
==_comm a b = ground arith

-- A prefix that begins with zero bytes.
in_prefix-zeros :
    (n bits : ℕ) (tail bytes : List ℕ)
    → 8 * n ≤ bits
    → n ≤ length bytes
    → in_prefix bits (zeros n ++ tail) bytes
      ≡ (all is_zero (take n bytes) && in_prefix (bits - 8 * n) tail (drop n bytes))
in_prefix-zeros zero bits tail bytes h k = ap (λ m. in_prefix m tail bytes) (omega arith)
in_prefix-zeros (suc n) bits tail [] h k = absurd (omega arith)
in_prefix-zeros (suc n) bits tail (b ∷ bytes) h k =
    ground (arith, in_prefix-zeros n (bits - 8) tail bytes)

-- The tests of the source, in its order.
abbrev tests : List ℕ → List Bool
tests bytes =
    let at = λ (i : ℕ). get_or bytes i 0 in
    all is_zero bytes
    ∷ (all is_zero (take 15 bytes) && at 15 == 1)
    ∷ (bit_and (at 0) 0xfe == 0xfc)
    ∷ (at 0 == 0xfe && bit_and (at 1) 0xc0 == 0x80)
    ∷ (at 0 == 0xfe && bit_and (at 1) 0xc0 == 0xc0)
    ∷ (at 0 == 0xff)
    ∷ (at 0 == 0x20 && (at 1 == 0x01 && (at 2 == 0x0d && at 3 == 0xb8)))
    ∷ (all is_zero (take 10 bytes) && (at 10 == 0xff && at 11 == 0xff))
    ∷ all is_zero (take 12 bytes)
    ∷ []

is_rejected_ipv6-tests : (bytes : List ℕ) → is_rejected_ipv6 bytes ≡ any_true (tests bytes)
unfolding is_rejected_ipv6 any_true
is_rejected_ipv6-tests bytes = refl

module _ (b0 b1 b2 b3 b4 b5 b6 b7 b8 b9 b10 b11 b12 b13 b14 b15 : ℕ) where
  abbrev pub address : List ℕ
  address = b0 ∷ b1 ∷ b2 ∷ b3 ∷ b4 ∷ b5 ∷ b6 ∷ b7 ∷ b8 ∷ b9 ∷ b10 ∷ b11 ∷ b12 ∷ b13 ∷ b14 ∷ b15 ∷ []

  tests-blocks : b0 < 256 → b1 < 256 → tests address ≡ map (in_block address) rejected_blocks
  tests-blocks h0 h1 = cons_cong (ground (arith, in_prefix-zeros 16 128 [] address)) (
      cons_cong (ground (arith, in_prefix-zeros 15 128 (1 ∷ []) address)) (
        cons_cong (seven_bits b0 h0) (
          cons_cong (rw (two_bits_link b1 h1) (ground arith)) (
            cons_cong (rw (two_bits_site b1 h1) (ground arith)) (
              cons_cong (ground arith) (
                cons_cong (ground arith) (
                  cons_cong (ground (arith, in_prefix-zeros 10 96 (0xff ∷ 0xff ∷ []) address))
                    (cons_cong (ground (arith, in_prefix-zeros 12 96 [] address)) refl))))))))

-- Sixteen bytes are rejected exactly if the address lies in one of the blocks.
pub is_rejected_ipv6-blocks :
    (bytes : List ℕ) → IsBytes bytes → is_rejected_ipv6 bytes ≡ any (in_block bytes) rejected_blocks
is_rejected_ipv6-blocks
      (b0 ∷ b1 ∷ b2 ∷ b3 ∷ b4 ∷ b5 ∷ b6 ∷ b7 ∷ b8 ∷ b9 ∷ b10 ∷ b11 ∷ b12 ∷ b13 ∷ b14 ∷ b15 ∷ []) h =
    let bytes = address b0 b1 b2 b3 b4 b5 b6 b7 b8 b9 b10 b11 b12 b13 b14 b15 in
    is_rejected_ipv6-tests bytes
    ∙ ap any_true
        (tests-blocks b0 b1 b2 b3 b4 b5 b6 b7 b8 b9 b10 b11 b12 b13 b14 b15 h.each.0 h.each.1.0)
    ∙ any_true-map (in_block bytes) rejected_blocks
is_rejected_ipv6-blocks _ h = absurd (omega (arith, h.sixteen))
