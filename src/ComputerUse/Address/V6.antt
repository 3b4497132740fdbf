-- ===== src/ComputerUse/Address/V6.antt =====
-- `parseIpv6` and `isRejectedIpv6`.
pub mod Blocks
pub mod Bytes
use useful.Common.{
  ℕ, ◌+◌, ◌-◌, ◌*◌, ◌/◌, ◌%◌, Bool, true, false, not, ◌&&◌, ◌||◌, List, [], ◌∷◌, ◌++◌, map, Option,
  none, some, Text, length, take, get_or, replicate, any, all, is_digit, is_upper, is_lower_hex,
  leb, ltb, ◌==◌, if◌then◌else◌,
}
use Prim.Native.Nat.{bit_and}
use useful.ComputerUse.Address.V4.{prepend, split, is_short_number, parse_ipv4}

-- `text.toLowerCase()`, as far as it gives ASCII: the ASCII letters, the Kelvin sign, and the dotted
-- capital I, which becomes two code units. Other letters stay, and are not ASCII before or after.
unfoldable pub lower_unit : ℕ → Text
lower_unit c =
    if is_upper c
    then (c + 32) ∷ []
    else if c == 0x212a
    then b'k' ∷ []
    else if c == 0x130
    then b'i' ∷ 0x307 ∷ []
    else c ∷ []

unfoldable pub lower : Text → Text
lower [] = []
lower (c ∷ t) = lower_unit c ++ lower t

unfoldable pub strip_close : Text → Text
strip_close [] = []
strip_close (c ∷ []) = if c == b']' then [] else c ∷ []
strip_close (c ∷ d ∷ t) = c ∷ strip_close (d ∷ t)

unfoldable pub strip_open : Text → Text
strip_open [] = []
strip_open (c ∷ t) = if c == b'[' then t else c ∷ t

-- `text.replace(/^\[|\]$/gu, "")`.
unfoldable pub strip_brackets : Text → Text
strip_brackets t = strip_close (strip_open t)

unfoldable pub has_char : ℕ → Text → Bool
has_char c t = any (λ d. d == c) t

abbrev pub starts_with_colon : Text → Bool
starts_with_colon [] = false
starts_with_colon (c ∷ t) = c == b':'

-- `text.split("::")`; `skip` says that this code unit is the second of a separator.
unfoldable pub split_from : Bool → Text → List Text
split_from skip [] = [] ∷ []
split_from true (c ∷ t) = split_from false t
split_from false (c ∷ t) =
    let separator = c == b':' && starts_with_colon t in
    let rest = split_from separator t in if separator then [] ∷ rest else prepend c rest

unfoldable pub split_double : Text → List Text
split_double t = split_from false t

abbrev pub last_of : List Text → Text
last_of [] = []
last_of (t ∷ []) = t
last_of (t ∷ u ∷ ts) = last_of (u ∷ ts)

-- `/(?:^|:)(\d{1,3}(?:\.\d{1,3}){3})$/`: the group holds no colon, so it is all that follows the last one.
unfoldable pub embedded_ipv4 : Text → Option Text
embedded_ipv4 input =
    let last = last_of (split b':' input) in
    let parts = split b'.' last in
    if length parts == 4 && all is_short_number parts then some last else none

abbrev pub hex_digit : ℕ → ℕ
hex_digit n = if ltb n 10 then b'0' + n else b'a' + (n - 10)

-- `number.toString(16)` below 2 ^ 16.
unfoldable pub show_hex : ℕ → Text
show_hex n =
    if ltb n 16
    then hex_digit n ∷ []
    else if ltb n 256
    then hex_digit (n / 16) ∷ hex_digit (n % 16) ∷ []
    else if ltb n 4096
    then hex_digit (n / 256) ∷ hex_digit (n / 16 % 16) ∷ hex_digit (n % 16) ∷ []
    else hex_digit (n / 4096)
      ∷ hex_digit (n / 256 % 16)
      ∷ hex_digit (n / 16 % 16)
      ∷ hex_digit (n % 16)
      ∷ []

-- The input with an embedded IPv4 address written as two groups; `none` where that address is refused.
unfoldable pub expand_embedded : Text → Option Text
expand_embedded input = elim (embedded_ipv4 input) [
  | none ↦ some input
  | some embedded ↦ elim (parse_ipv4 embedded) [
    | none ↦ none
    | some ipv4 ↦ some (
        take (length input - length embedded) input
        ++ (show_hex (get_or ipv4 0 0 * 256 + get_or ipv4 1 0)
            ++ (b':' ∷ show_hex (get_or ipv4 2 0 * 256 + get_or ipv4 3 0))))
  ]
]

-- `text ? text.split(":") : []`.
unfoldable pub groups_of : Text → List Text
groups_of [] = []
groups_of (c ∷ t) = split b':' (c ∷ t)

-- `/^[a-f0-9]{1,4}$/`.
unfoldable pub is_group : Text → Bool
is_group t = leb 1 (length t) && (leb (length t) 4 && all is_lower_hex t)

unfoldable pub hex_value : ℕ → ℕ
hex_value c = if is_digit c then c - b'0' else c - b'a' + 10

-- `Number.parseInt(part, 16)`.
unfoldable pub hex_from : ℕ → Text → ℕ
hex_from acc [] = acc
hex_from acc (c ∷ t) = hex_from (acc * 16 + hex_value c) t

unfoldable pub to_bytes : List ℕ → List ℕ
to_bytes [] = []
to_bytes (g ∷ groups) = (g / 256) ∷ (g % 256) ∷ to_bytes groups

-- The groups on both sides of `::`, if there is one, and the bytes that they stand for.
unfoldable pub assemble : Bool → List Text → List Text → Option (List ℕ)
assemble compressed left right =
    let missing = 8 - length left - length right in
    if any (λ part. not (is_group part)) (left ++ right)
    then none
    else if (compressed && missing == 0)
        || (not compressed && not (length left + length right == 8))
    then none
    else let groups = map (hex_from 0) (left ++ (replicate missing (b'0' ∷ []) ++ right)) in
      if length groups == 8 then some (to_bytes groups) else none

-- The part of `parseIpv6` behind the embedded address.
unfoldable pub parse_groups : Text → Option (List ℕ)
parse_groups input =
    let pieces = split_double input in
    assemble (ltb 1 (length pieces)) (groups_of (get_or pieces 0 []))
      (groups_of (get_or pieces 1 []))

unfoldable pub parse_ipv6 : Text → Option (List ℕ)
parse_ipv6 value =
    let input = strip_brackets (lower value) in
    if not (has_char b':' input) || has_char b'%' input || ltb 2 (length (split_double input))
    then none
    else elim (expand_embedded input) [ none ↦ none | some expanded ↦ parse_groups expanded ]

abbrev pub is_zero : ℕ → Bool
is_zero byte = byte == 0

-- `bytes` has sixteen entries, so the default of a read is not met.
unfoldable pub is_rejected_ipv6 : List ℕ → Bool
is_rejected_ipv6 bytes =
    let at = λ (i : ℕ). get_or bytes i 0 in
    all is_zero bytes
    || ((all is_zero (take 15 bytes) && at 15 == 1)
        || ((bit_and (at 0) 0xfe == 0xfc)
            || ((at 0 == 0xfe && bit_and (at 1) 0xc0 == 0x80)
                || ((at 0 == 0xfe && bit_and (at 1) 0xc0 == 0xc0)
                    || ((at 0 == 0xff)
                        || ((at 0 == 0x20 && (at 1 == 0x01 && (at 2 == 0x0d && at 3 == 0xb8)))
                            || ((all is_zero (take 10 bytes) && (at 10 == 0xff && at 11 == 0xff))
                                || all is_zero (take 12 bytes))))))))
