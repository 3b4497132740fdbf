-- ===== src/ComputerUse/Address/V4/Blocks.antt =====
-- The address blocks that `isRejectedIpv4` stands for.
use useful.Common.{
  ℕ, ◌-◌, ◌/◌, ◌^◌, ◌<◌, Bool, true, false, ◌&&◌, ◌||◌, List, [], ◌∷◌, any, leb, ◌==◌,
  if◌then◌else◌, ◌≡◌, refl, arith, ap, ◌∙◌, map, cons_cong, any_true, any_true-map,
}
use useful.ComputerUse.Address.V4.{is_rejected_ipv4}

-- The first `bits` bits of two addresses agree, for addresses as lists of bytes.
abbrev pub in_prefix : ℕ → List ℕ → List ℕ → Bool
in_prefix bits [] address = true
in_prefix bits (n ∷ net) [] = false
in_prefix bits (n ∷ net) (b ∷ address) =
    if bits == 0
    then true
    else if leb 8 bits
    then n == b && in_prefix (bits - 8) net address
    else n / 2 ^ (8 - bits) == b / 2 ^ (8 - bits)

pub record Block : Type 0 where
  pub network : List ℕ
  pub bits : ℕ

abbrev pub in_block : List ℕ → Block → Bool
in_block address block = in_prefix block.bits block.network address

abbrev block : ℕ → ℕ → ℕ → ℕ → ℕ → Block
block a b c d bits = record { network = a ∷ b ∷ c ∷ d ∷ []; bits = bits }

-- "This network", private, loopback, shared, link-local, protocol assignments, documentation, 6to4
-- relay, benchmarking, and all of multicast and reserved space.
abbrev pub rejected_blocks : List Block
rejected_blocks =
    block 0 0 0 0 8
    ∷ block 10 0 0 0 8
    ∷ block 127 0 0 0 8
    ∷ block 100 64 0 0 10
    ∷ block 169 254 0 0 16
    ∷ block 172 16 0 0 12
    ∷ block 192 0 0 0 24
    ∷ block 192 0 2 0 24
    ∷ block 192 88 99 0 24
    ∷ block 192 168 0 0 16
    ∷ block 198 18 0 0 15
    ∷ block 198 51 100 0 24
    ∷ block 203 0 113 0 24
    ∷ block 224 0 0 0 3
    ∷ []

-- The tests of the source, in its order.
abbrev tests : ℕ → ℕ → ℕ → List Bool
tests a b c =
    (a == 0)
    ∷ (a == 10)
    ∷ (a == 127)
    ∷ (a == 100 && (leb 64 b && leb b 127))
    ∷ (a == 169 && b == 254)
    ∷ (a == 172 && (leb 16 b && leb b 31))
    ∷ (a == 192 && (b == 0 && c == 0))
    ∷ (a == 192 && (b == 0 && c == 2))
    ∷ (a == 192 && (b == 88 && c == 99))
    ∷ (a == 192 && b == 168)
    ∷ (a == 198 && (b == 18 || b == 19))
    ∷ (a == 198 && (b == 51 && c == 100))
    ∷ (a == 203 && (b == 0 && c == 113))
    ∷ leb 224 a
    ∷ []

tests-blocks :
    (a b c d : ℕ)
    → a < 256
    → b < 256
    → tests a b c ≡ map (in_block (a ∷ b ∷ c ∷ d ∷ [])) rejected_blocks
tests-blocks a b c d ha hb =
    (cons_cong (ground arith) (
      cons_cong (ground arith) (
        cons_cong (ground arith) (
          cons_cong (ground arith) (
            cons_cong (ground arith) (
              cons_cong (ground arith) (
                cons_cong (ground arith) (
                  cons_cong (ground arith) (
                    cons_cong (ground arith) (
                      cons_cong (ground arith) (
                        cons_cong (ground arith) (
                          cons_cong (ground arith)
                            (cons_cong (ground arith) (cons_cong (ground arith) refl))))))))))))))

is_rejected_ipv4-tests :
    (a b c d : ℕ) → is_rejected_ipv4 (a ∷ b ∷ c ∷ d ∷ []) ≡ any_true (tests a b c)
unfolding is_rejected_ipv4 any_true
is_rejected_ipv4-tests a b c d = refl

-- Four octets, the first two of them below 256, are rejected exactly if the address lies in one of the
-- blocks.
pub is_rejected_ipv4-blocks :
    (a b c d : ℕ)
    → a < 256
    → b < 256
    → is_rejected_ipv4 (a ∷ b ∷ c ∷ d ∷ []) ≡ any (in_block (a ∷ b ∷ c ∷ d ∷ [])) rejected_blocks
is_rejected_ipv4-blocks a b c d ha hb =
    is_rejected_ipv4-tests a b c d
    ∙ ap any_true (tests-blocks a b c d ha hb)
    ∙ any_true-map (in_block (a ∷ b ∷ c ∷ d ∷ [])) rejected_blocks
