-- ===== src/Js/Show.antt =====
-- `String(value)`.
use useful.Common.{
  ℕ, zero, suc, ◌+◌, ◌/◌, ◌%◌, ltb, if◌then◌else◌, true, false, [], ◌∷◌, ◌++◌, Text, codes,
}
use useful.Js.Value.{
  pos, negsuc, Value, undefined, null, bool, int, number, str, arr, obj, buffer, function, Items,
  nil, cons,
}

-- The decimal digits of a number, the last one first in `acc`; each round takes one digit off, so as
-- many rounds as the number's value are enough.
unfoldable pub show_from : ℕ → ℕ → Text → Text
show_from zero n acc = acc
show_from (suc f) n acc =
    let more = show_from f (n / 10) ((b'0' + n % 10) ∷ acc) in
    if ltb n 10 then (b'0' + n) ∷ acc else more

unfoldable pub show_nat : ℕ → Text
unfolding show_from
show_nat n = show_from (suc n) n []

-- What an array's `join` makes of its elements: `undefined` and `null` print as nothing.
unfoldable mutual
  unfolding show_nat

  pub to_text : Value → Text
  to_text undefined = codes "undefined"
  to_text null = codes "null"
  to_text (bool true) = codes "true"
  to_text (bool false) = codes "false"
  to_text (int (pos n)) = show_nat n
  to_text (int (negsuc n)) = b'-' ∷ show_nat (suc n)
  to_text (number t) = t
  to_text (str t) = t
  to_text (arr vs) = join_items vs
  to_text (obj fs) = codes "[object Object]"
  to_text (buffer n) = codes "[object ArrayBuffer]"
  to_text (function t) = t

  pub join_items : Items → Text
  join_items nil = []
  join_items (cons v vs) = join_item v ++ join_rest vs

  pub join_rest : Items → Text
  join_rest nil = []
  join_rest (cons v vs) = b',' ∷ (join_item v ++ join_rest vs)

  pub join_item : Value → Text
  join_item undefined = []
  join_item null = []
  join_item (bool true) = codes "true"
  join_item (bool false) = codes "false"
  join_item (int (pos n)) = show_nat n
  join_item (int (negsuc n)) = b'-' ∷ show_nat (suc n)
  join_item (number t) = t
  join_item (str t) = t
  join_item (arr vs) = join_items vs
  join_item (obj fs) = codes "[object Object]"
  join_item (buffer n) = codes "[object ArrayBuffer]"
  join_item (function t) = t
