-- ===== src/Actions/Query/Pages.antt =====
-- Following the cursors of a query visits every action that it has found, once.
use useful.Common.{
  drop_add, take_all, take-drop_append, length-take, length-drop, take, drop, min, ◌/◌, ◌%◌, ◌^◌,
  lt→ltb, is_digit, ℕ, zero, suc, ◌+◌, ◌-◌, ◌≤◌, ◌<◌, true, List, [], ◌∷◌, ◌++◌, Option, none, some,
  Text, codes, length, all, ltb, le→leb, Result, ok, err, ◌>>=◌, ◌≡◌, inl, inr, refl, arith,
  Bool-cases,
}
use useful.Js.Value.{Value, undefined, str}
use mathlib.Core.Option
use useful.Js.Show.{show_nat, show_from}
use useful.ComputerUse.Address.V4.{number_from}
use useful.Actions.Registry.{Descriptor}
use useful.Actions.Query.{Page, page_of}
use useful.Actions.Query.Words.{starts_with}
use useful.Actions.Query.Options.{QueryError, is_plain_number, read_offset, read_cursor}

number_from-show_from :
    (f n : ℕ) (acc : Text) → n < f → number_from 0 (show_from f n acc) ≡ number_from n acc
unfolding number_from show_from
number_from-show_from zero n acc h = absurd (omega arith)
number_from-show_from (suc f) n acc h =
    ground (arith, number_from-show_from f (n / 10) ((b'0' + n % 10) ∷ acc))

is_plain_number-show_from :
    (f n : ℕ) (acc : Text)
    → n < f
    → 0 < n
    → all is_digit acc ≡ true
    → is_plain_number (show_from f n acc) ≡ true
unfolding is_plain_number show_from
is_plain_number-show_from zero n acc h p d = absurd (omega arith)
is_plain_number-show_from (suc f) n acc h p d =
    ground (arith, is_plain_number-show_from f (n / 10) ((b'0' + n % 10) ∷ acc))

is_plain_number-show_nat : (n : ℕ) → is_plain_number (show_nat n) ≡ true
unfolding show_nat is_plain_number
is_plain_number-show_nat zero = refl
is_plain_number-show_nat (suc n) =
    is_plain_number-show_from (suc (suc n)) (suc n) [] (omega arith) (omega arith) refl

number_from-show_nat : (n : ℕ) → number_from 0 (show_nat n) ≡ n
unfolding show_nat number_from
number_from-show_nat n = number_from-show_from (suc n) n [] (omega arith)

-- The cursor of a page is read back as the offset that it was made of.
read_cursor-offset : (n : ℕ) → n < 2 ^ 53 → read_cursor (str (codes "v1:" ++ show_nat n)) ≡ ok n
unfolding read_cursor read_offset starts_with
read_cursor-offset n h =
    rw (is_plain_number-show_nat n, number_from-show_nat n, lt→ltb n (2 ^ 53) h) refl

-- What a client does with a page: it goes on from the cursor, if there is one.
continue :
    (Value → Option (List Descriptor)) → List Descriptor → Option Text → Option (List Descriptor)
continue go actions none = some actions
continue go actions (some cursor) = Option.map (λ rest. actions ++ rest) (go (str cursor))

with_page : (Value → Option (List Descriptor)) → Result QueryError Page → Option (List Descriptor)
with_page go (err e) = none
with_page go (ok page) = continue go page.actions page.next_cursor

-- A client that asks for page after page; `none` if a request is refused or the rounds run out.
pub follow : List Descriptor → ℕ → ℕ → Value → Option (List Descriptor)
follow ranked limit zero cursor = none
follow ranked limit (suc rounds) cursor =
    with_page (follow ranked limit rounds)
      (read_cursor cursor >>= λ offset. page_of ranked limit offset)

module _ (ranked : List Descriptor) (limit : ℕ) (positive : 1 ≤ limit)
    (short : length ranked < 2 ^ 53) where
  sizes :
      (offset : ℕ) → length (take limit (drop offset ranked)) ≡ min limit (length ranked - offset)
  sizes offset = omega (arith, length-take limit (drop offset ranked), length-drop offset ranked)

  follow-drop :
      (rounds offset : ℕ) (cursor : Value)
      → read_cursor cursor ≡ ok offset
      → offset ≤ length ranked
      → length ranked - offset < rounds
      → follow ranked limit rounds cursor ≡ some (drop offset ranked)
  unfolding follow with_page continue page_of
  follow-drop zero offset cursor e le lt = absurd (omega arith)
  follow-drop (suc rounds) offset cursor e le lt =
      rw (e, le→leb offset (length ranked) le)
        (elim (Bool-cases
          (ltb (offset + length (take limit (drop offset ranked))) (length ranked))) [
            | inl more ↦
                let count = sizes offset in
                let next : ℕ = offset + length (take limit (drop offset ranked)) in
                let full : next ≡ offset + limit = ground arith in
                let rest =
                  follow-drop rounds next (str (codes "v1:" ++ show_nat next))
                    (read_cursor-offset next (ground arith)) (ground arith) (ground arith) in
                rw
                  (
                    more,
                    rest,
                    full,
                    drop_add offset limit ranked,
                    take-drop_append limit (drop offset ranked),
                  )
                  refl
            | inr last ↦
                let count = sizes offset in
                let enough : length (drop offset ranked) ≤ limit =
                  ground (arith, length-drop offset ranked) in
                rw (last, take_all limit (drop offset ranked) enough) refl
          ])

  -- Whatever a query has found, asking for it page by page from the start returns all of it, in order and
  -- each action once, after at most one request more than there are actions: the limit is at least 1, and
  -- the number of the actions is a safe integer.
  pub follow-all : follow ranked limit (length ranked + 1) undefined ≡ some ranked
  unfolding read_cursor
  follow-all = follow-drop (length ranked + 1) 0 undefined refl (omega arith) (omega arith)
