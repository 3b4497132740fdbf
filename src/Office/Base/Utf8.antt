-- ===== src/Office/Base/Utf8.antt =====
-- `new TextEncoder().encode(text).byteLength` on UTF-16 code units.
use useful.Common.{ℕ, ◌+◌, Bool, false, ◌&&◌, [], ◌∷◌, Text, leb, ltb, if◌then◌else◌}

abbrev pub is_high_surrogate : ℕ → Bool
is_high_surrogate c = leb 0xd800 c && leb c 0xdbff

abbrev pub is_low_surrogate : ℕ → Bool
is_low_surrogate c = leb 0xdc00 c && leb c 0xdfff

-- The bytes of a code unit that is not the second half of a pair. A lone surrogate is encoded as
-- U+FFFD, in three bytes.
abbrev pub unit_bytes : ℕ → ℕ
unit_bytes c = if ltb c 0x80 then 1 else if ltb c 0x800 then 2 else 3

-- `open` says that the unit before was a high surrogate, counted with three bytes; a low surrogate
-- behind it brings the pair to four.
unfoldable pub byte_length_from : Bool → Text → ℕ
byte_length_from after [] = 0
byte_length_from after (c ∷ t) =
    (if after && is_low_surrogate c then 1 else unit_bytes c)
    + byte_length_from (if after && is_low_surrogate c then false else is_high_surrogate c) t

unfoldable pub byte_length : Text → ℕ
unfolding byte_length_from
byte_length t = byte_length_from false t
