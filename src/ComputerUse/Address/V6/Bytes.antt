-- ===== src/ComputerUse/Address/V6/Bytes.antt =====
-- What `parseIpv6` returns is sixteen bytes.
use useful.Common.{
  ℕ, zero, suc, ◌+◌, ◌-◌, ◌*◌, ◌≤◌, ◌<◌, Bool, true, false, not, ◌||◌, List, [], ◌∷◌, ◌++◌, map,
  some, Text, length, replicate, any, all, get_or, All, is_lower_hex, ltb, ◌≡◌, refl, arith, inl,
  inr, Option-cases, and-split,
}
use useful.ComputerUse.Address.V6.{
  is_group, hex_from, hex_value, to_bytes, assemble, parse_groups, parse_ipv6, expand_embedded,
  split_double, groups_of, lower, strip_brackets,
}

length-to_bytes : (groups : List ℕ) → length (to_bytes groups) ≡ 2 * length groups
unfolding to_bytes
length-to_bytes [] = refl
length-to_bytes (g ∷ groups) = omega (arith, length-to_bytes groups)

abbrev IsByte : ℕ → Type 0
IsByte n = n < 256

abbrev IsGroup : ℕ → Type 0
IsGroup n = n < 65536

to_bytes-IsByte : (groups : List ℕ) → All IsGroup groups → All IsByte (to_bytes groups)
unfolding to_bytes
to_bytes-IsByte [] h = tt
to_bytes-IsByte (g ∷ groups) (p, h) = (omega arith, (omega arith, to_bytes-IsByte groups h))

hex_value-lt : (c : ℕ) → is_lower_hex c ≡ true → hex_value c < 16
unfolding hex_value
hex_value-lt c h = ground arith

-- `scale` stands for 16 ^ length t.
scale : Text → ℕ
scale [] = 1
scale (c ∷ t) = 16 * scale t

hex_from-lt :
    (t : Text) (acc : ℕ) → all is_lower_hex t ≡ true → hex_from acc t < (acc + 1) * scale t
unfolding hex_from scale
hex_from-lt [] acc h = omega arith
hex_from-lt (c ∷ t) acc h =
    let (digit, digits) = and-split (is_lower_hex c) (all is_lower_hex t) h in
    let next = hex_from-lt t (acc * 16 + hex_value c) digits in
    let small = hex_value-lt c digit in grind arith

scale-le : (t : Text) → length t ≤ 4 → scale t ≤ 65536
unfolding scale
scale-le [] h = omega arith
scale-le (a ∷ []) h = omega arith
scale-le (a ∷ b ∷ []) h = omega arith
scale-le (a ∷ b ∷ c ∷ []) h = omega arith
scale-le (a ∷ b ∷ c ∷ d ∷ []) h = omega arith
scale-le (a ∷ b ∷ c ∷ d ∷ e ∷ t) h = absurd (omega arith)

hex_from-IsGroup : (t : Text) → is_group t ≡ true → hex_from 0 t < 65536
unfolding is_group
hex_from-IsGroup t h = ground (arith, hex_from-lt t 0, scale-le t)

hex_from-All :
    (ts : List Text)
    → any (λ part. not (is_group part)) ts ≡ false
    → All IsGroup (map (hex_from 0) ts)
hex_from-All [] h = tt
hex_from-All (t ∷ ts) h = ground (arith, hex_from-IsGroup t, hex_from-All ts)

hex_from-replicate : (n : ℕ) → any (λ part. not (is_group part)) (replicate n (b'0' ∷ [])) ≡ false
unfolding is_group
hex_from-replicate zero = refl
hex_from-replicate (suc n) = hex_from-replicate n

any-append :
    {A : Type 0} (p : A → Bool) (xs ys : List A) → any p (xs ++ ys) ≡ (any p xs || any p ys)
any-append p [] ys = refl
any-append p (x ∷ xs) ys = ground (arith, any-append p xs ys)

pub record IsBytes (bytes : List ℕ) : Type 0 where
  pub sixteen : length bytes ≡ 16
  pub each : All IsByte bytes

assemble-IsBytes :
    (compressed : Bool) (left right : List Text) {bytes : List ℕ}
    → assemble compressed left right ≡ some bytes
    → IsBytes bytes
unfolding assemble
assemble-IsBytes compressed left right {bytes} h =
    let bad = λ (part : Text). not (is_group part) in
    let zeros : List Text = replicate (8 - length left - length right) (b'0' ∷ []) in
    let parts = left ++ (zeros ++ right) in
    let groups = map (hex_from 0) parts in
    let good : any bad (left ++ right) ≡ false = ground arith in
    let all_good : any bad parts ≡ false = ground (
      arith,
      any-append bad left right,
      any-append bad left (zeros ++ right),
      any-append bad zeros right,
      hex_from-replicate (8 - length left - length right),
    ) in
    let eight : length groups ≡ 8 = ground arith in
    let same : to_bytes groups ≡ bytes = ground arith in
    rw (← same) (record {
      sixteen = omega (arith, length-to_bytes groups);
      each = to_bytes-IsByte groups (hex_from-All parts all_good);
    })

-- An accepted literal gives sixteen bytes.
pub parse_ipv6-IsBytes :
    (text : Text) {bytes : List ℕ} → parse_ipv6 text ≡ some bytes → IsBytes bytes
unfolding parse_ipv6 parse_groups
parse_ipv6-IsBytes text h = elim (Option-cases (expand_embedded (strip_brackets (lower text)))) [
  | inl refused ↦ ground (arith, refused)
  | inr (expanded, e) ↦
      let pieces = split_double expanded in
      assemble-IsBytes (ltb 1 (length pieces)) (groups_of (get_or pieces 0 []))
        (groups_of (get_or pieces 1 [])) (ground (arith, e))
]
