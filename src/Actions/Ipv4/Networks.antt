-- ===== src/Actions/Ipv4/Networks.antt =====
-- What it means that a network contains an address.
use useful.Common.{
  ◌/◌, ◌^◌, ◌↔◌, ◌*◌, ℕ, zero, suc, ◌+◌, ◌-◌, ◌≤◌, ◌<◌, Bool, true, not, List, [], ◌∷◌, Text,
  Result, ok, ◌>>=◌, ◌>>◌, guard, bind-eq-ok, then-eq-ok, ◌≡◌, refl, sym, subst, arith,
}
use native.Mathlib.Nat.{le-div_iff_mul-le, div-lt_iff_lt-mul, div-mul-le_self, lt-div-mul-add}
use useful.ComputerUse.Address.V4.{split, number_from}
use useful.Actions.Base.{Code, input_invalid}
use useful.Actions.Ipv4.{
  Address, Cidr, parse_address, is_prefix, to_cidr, read_cidr, parse_cidr, check_contains,
}

pow_pos : (k : ℕ) → 0 < 2 ^ k
pow_pos zero = omega arith
pow_pos (suc k) = grind (arith, pow_pos k)

is_prefix-bound : (t : Text) → is_prefix t ≡ true → number_from 0 t ≤ 32
unfolding is_prefix number_from
is_prefix-bound [] h = omega arith
is_prefix-bound (a ∷ []) h = ground arith
is_prefix-bound (a ∷ b ∷ []) h = ground arith
is_prefix-bound (a ∷ b ∷ c ∷ t) h = cc

-- An accepted network is made of an accepted address and a prefix length.
read_cidr-to_cidr :
    (require_prefix : Bool) (parts : List Text) (cidr : Cidr)
    → read_cidr require_prefix parts ≡ ok cidr
    → (address : Address) × (p : ℕ) × (p ≤ 32) × (cidr ≡ to_cidr address p)
unfolding read_cidr
read_cidr-to_cidr require_prefix [] cidr h = cc
read_cidr-to_cidr require_prefix (first ∷ []) cidr h =
    let make : Address → Result Code Cidr = λ a. ok (to_cidr a 32) in
    let good = then-eq-ok (not require_prefix) input_invalid (parse_address first >>= make) h in
    let (address, parsed, made) = bind-eq-ok (parse_address first) make good.1 in
    (address, 32, omega arith, cc)
read_cidr-to_cidr require_prefix (first ∷ prefix ∷ []) cidr h =
    let make : Address → Result Code Cidr = λ a. ok (to_cidr a (number_from 0 prefix)) in
    let (address, parsed, rest) =
      bind-eq-ok (parse_address first) (λ a. guard (is_prefix prefix) input_invalid >> make a) h in
    let (good, made) = then-eq-ok (is_prefix prefix) input_invalid (make address) rest in
    (address, number_from 0 prefix, is_prefix-bound prefix good, cc)
read_cidr-to_cidr require_prefix (first ∷ prefix ∷ more ∷ parts) cidr h = cc

block_forth :
    (size v w : ℕ)
    → 0 < size
    → w / size * size ≤ v
    → v ≤ w / size * size + size - 1
    → v / size ≡ w / size
block_forth size v w pos low high =
    let up : w / size ≤ v / size = (le-div_iff_mul-le pos).1 low in
    let down : v / size < w / size + 1 = (div-lt_iff_lt-mul pos).1 (grind arith) in omega arith

block_back :
    (size v w : ℕ)
    → 0 < size
    → v / size ≡ w / size
    → (w / size * size ≤ v) × (v ≤ w / size * size + size - 1)
block_back size v w pos same =
    let low = div-mul-le_self v size in
    let high = lt-div-mul-add {a = v} pos in rw (← same) (low, omega arith)

Meaning : Cidr → Address → Type 0
Meaning cidr address =
    (cidr.size ≡ 2 ^ (32 - cidr.prefix_length))
    × (cidr.prefix_length ≤ 32)
    × (((check_contains cidr address).contains ≡ true)
        ↔ (address.value / cidr.size ≡ cidr.address.value / cidr.size))

to_cidr-Meaning :
    (own : Address) (p : ℕ) (address : Address) → p ≤ 32 → Meaning (to_cidr own p) address
unfolding check_contains Meaning
to_cidr-Meaning own p address h =
    let size : ℕ = 2 ^ (32 - p) in
    let pos : 0 < 2 ^ (32 - p) = pow_pos (32 - p) in
    (
      refl,
      h,
      (
        λ c. block_forth (2 ^ (32 - p)) address.value own.value pos (ground arith) (ground arith),
        λ e. ground (arith, block_back (2 ^ (32 - p)) address.value own.value pos e),
      ),
    )

-- What `contains` means for an accepted network: the address and the network agree on the bits that
-- the prefix length counts, which is at most 32.
pub parse_cidr-contains :
    (require_prefix : Bool) (text : Text) (cidr : Cidr) (address : Address)
    → parse_cidr require_prefix text ≡ ok cidr
    → (cidr.size ≡ 2 ^ (32 - cidr.prefix_length))
      × (cidr.prefix_length ≤ 32)
      × (((check_contains cidr address).contains ≡ true)
          ↔ (address.value / cidr.size ≡ cidr.address.value / cidr.size))
unfolding parse_cidr Meaning
parse_cidr-contains require_prefix text cidr address h =
    let (own, p, bound, made) = read_cidr-to_cidr require_prefix (split b'/' text) cidr h in
    subst (λ c. Meaning c address) (sym made) (to_cidr-Meaning own p address bound)
