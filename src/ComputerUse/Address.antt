-- ===== src/ComputerUse/Address.antt =====
-- Reading IP literals and host names, and which of them are rejected: `parseIpv4`, `isRejectedIpv4`,
-- `parseIpv6`, `isRejectedIpv6` and `isPrivateOrLocalHost`.
pub mod V4
pub mod V6
use useful.Common.{
  ℕ, Bool, true, false, not, ◌&&◌, ◌||◌, [], ◌∷◌, ◌++◌, Option, none, some, Text, codes, text_eq,
  ◌==◌, if◌then◌else◌,
}
use V4.{parse_ipv4, is_rejected_ipv4}
use V6.{parse_ipv6, is_rejected_ipv6, lower, strip_brackets, has_char}

-- `text.endsWith(suffix)`.
unfoldable pub ends_with : Text → Text → Bool
ends_with [] suffix = text_eq [] suffix
ends_with (c ∷ t) suffix = text_eq (c ∷ t) suffix || ends_with t suffix

unfoldable pub is_private_or_local_host : Text → Bool
is_private_or_local_host hostname =
    let host = strip_brackets (lower hostname) in
    if text_eq host (codes "localhost")
      || ends_with host (codes ".localhost")
      || ends_with host (codes ".local")
    then true
    else elim (parse_ipv6 host) [
      | some bytes ↦ is_rejected_ipv6 bytes
      | none ↦ elim (parse_ipv4 host) [
        | some parts ↦ is_rejected_ipv4 parts
        | none ↦ not (has_char b'.' host)
      ]
    ]
