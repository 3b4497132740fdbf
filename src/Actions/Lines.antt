-- ===== src/Actions/Lines.antt =====
-- Splitting a text into lines, as the handlers of packages/action-runtime/src/utility-actions.mjs do.
use useful.Common.{ℕ, Bool, false, ◌&&◌, ◌||◌, List, [], ◌∷◌, Text, ◌==◌, if◌then◌else◌}

-- A code unit in front of the first line.
unfoldable pub push_first : ℕ → List Text → List Text
push_first c [] = (c ∷ []) ∷ []
push_first c (line ∷ lines) = (c ∷ line) ∷ lines

-- `after_cr` says that the unit before was a carriage return, which has ended its line already: a
-- line feed behind it belongs to the same line end.
unfoldable pub split_from : Bool → Text → List Text
unfolding push_first
split_from after_cr [] = [] ∷ []
split_from after_cr (c ∷ t) =
    let rest = split_from (c == 13) t in
    if after_cr && c == 10
    then rest
    else if c == 13 || c == 10
    then [] ∷ rest
    else push_first c rest

-- `text.split(/\r\n|\r|\n/)`.
unfoldable pub split_lines : Text → List Text
unfolding split_from
split_lines t = split_from false t
