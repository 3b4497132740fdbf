-- ===== src/ComputerUse/Address/V4.antt =====
-- `parseIpv4` and `isRejectedIpv4`.
pub mod Blocks
pub mod Literal
use useful.Common.{
  ℕ, ◌+◌, ◌-◌, ◌*◌, Bool, false, not, ◌&&◌, ◌||◌, List, [], ◌∷◌, map, Option, none, some, Text,
  length, any, all, is_digit, leb, ltb, ◌==◌, if◌then◌else◌,
}

-- `first` before the head of a list of texts.
unfoldable pub prepend : ℕ → List Text → List Text
prepend c [] = (c ∷ []) ∷ []
prepend c (t ∷ ts) = (c ∷ t) ∷ ts

-- `text.split(separator)` for one code unit.
unfoldable pub split : ℕ → Text → List Text
split separator [] = [] ∷ []
split separator (c ∷ t) =
    let rest = split separator t in if c == separator then [] ∷ rest else prepend c rest

-- `Number(part)` of decimal digits.
unfoldable pub number_from : ℕ → Text → ℕ
number_from acc [] = acc
number_from acc (c ∷ t) = number_from (acc * 10 + (c - b'0')) t

abbrev pub starts_with_zero : Text → Bool
starts_with_zero [] = false
starts_with_zero (c ∷ t) = c == b'0'

-- `/^\d{1,3}$/`.
unfoldable pub is_short_number : Text → Bool
is_short_number t = leb 1 (length t) && (leb (length t) 3 && all is_digit t)

unfoldable pub is_octet : Text → Bool
is_octet part = is_short_number part && not (ltb 1 (length part) && starts_with_zero part)

unfoldable pub parse_ipv4 : Text → Option (List ℕ)
parse_ipv4 hostname =
    let parts = split b'.' hostname in
    if not (length parts == 4) || any (λ part. not (is_octet part)) parts
    then none
    else let numbers = map (number_from 0) parts in
      if any (λ part. ltb 255 part) numbers then none else some numbers

unfoldable pub is_rejected_ipv4 : List ℕ → Bool
is_rejected_ipv4 (a ∷ b ∷ c ∷ rest) =
    a == 0
    || (a == 10
        || (a == 127
            || ((a == 100 && (leb 64 b && leb b 127))
                || ((a == 169 && b == 254)
                    || ((a == 172 && (leb 16 b && leb b 31))
                        || ((a == 192 && (b == 0 && c == 0))
                            || ((a == 192 && (b == 0 && c == 2))
                                || ((a == 192 && (b == 88 && c == 99))
                                    || ((a == 192 && b == 168)
                                        || ((a == 198 && (b == 18 || b == 19))
                                            || ((a == 198 && (b == 51 && c == 100))
                                                || ((a == 203 && (b == 0 && c == 113))
                                                    || leb 224 a))))))))))))
is_rejected_ipv4 _ = false
