-- ===== src/Actions/Ipv4/Spelling.antt =====
-- `formatIpv4` writes what `parseIpv4` reads, and nothing else is read.
use useful.Common.{
  ◌/◌, ◌%◌, ◌^◌, length-append, ◌*◌, ℕ, zero, suc, ◌+◌, ◌≤◌, ◌<◌, Bool, true, false, ◌&&◌, List, [],
  ◌∷◌, Text, length, text_eq, text_eq_iff, leb, le→leb, ◌==◌, Result, ok, then-eq-ok, ◌≡◌, refl,
  sym, subst, ap, ◌∙◌, arith,
}
use useful.ComputerUse.Address.V4.{split, number_from}
use useful.ComputerUse.Address.V4.{is_octet, is_short_number}
use useful.ComputerUse.Address.V4.Literal.{
  join_dots, NoDot, show_octet, show_octet-number_from, is_octet-show_octet, split-NoDot, split-dot,
  join_dots-split, NoDot-show_octet,
}
use useful.Js.Show.{show_nat}
use useful.Actions.Base.{Code, input_invalid}
use useful.Actions.Ipv4.{parse_parts, Address, is_part, combine, parse_address, format_ipv4}

all_below : ℕ → (ℕ → Bool) → Bool
all_below zero p = true
all_below (suc n) p = p n && all_below n p

all_below-true : (n : ℕ) (p : ℕ → Bool) (x : ℕ) → all_below n p ≡ true → x < n → p x ≡ true
unfolding all_below
all_below-true zero p x h lt = absurd (omega arith)
all_below-true (suc n) p x h lt = ground (arith, all_below-true n p x)

show_table : all_below 256 (λ n. text_eq (show_nat n) (show_octet n)) ≡ true
unfolding all_below show_nat show_octet text_eq
show_table = refl

show_nat-show_octet : (n : ℕ) → n < 256 → show_nat n ≡ show_octet n
show_nat-show_octet n h = (text_eq_iff _ _).0 (all_below-true 256 _ n show_table h)

is_part-is_octet : (t : Text) → is_part t ≡ is_octet t
unfolding is_part is_octet is_short_number
is_part-is_octet [] = refl
is_part-is_octet (a ∷ []) = ground arith
is_part-is_octet (a ∷ b ∷ []) = ground arith
is_part-is_octet (a ∷ b ∷ c ∷ []) = ground arith
is_part-is_octet (a ∷ b ∷ c ∷ d ∷ t) = ground arith

-- The value of four octets.
value_of : ℕ → ℕ → ℕ → ℕ → ℕ
value_of a b c d = ((a * 256 + b) * 256 + c) * 256 + d

octets_of :
    (a b c d : ℕ)
    → a < 256
    → b < 256
    → c < 256
    → d < 256
    → (value_of a b c d / 2 ^ 24 % 256 ≡ a)
      × (value_of a b c d / 2 ^ 16 % 256 ≡ b)
      × (value_of a b c d / 2 ^ 8 % 256 ≡ c)
      × (value_of a b c d / 2 ^ 0 % 256 ≡ d)
unfolding value_of
octets_of a b c d ha hb hc hd = omega arith

value_of-octets :
    (v : ℕ)
    → v < 2 ^ 32
    → value_of (v / 2 ^ 24 % 256) (v / 2 ^ 16 % 256) (v / 2 ^ 8 % 256) (v / 2 ^ 0 % 256) ≡ v
unfolding value_of
value_of-octets v h = omega arith

-- An accepted part is the spelling of its number.
show_nat-number_from :
    (t : Text) → is_part t ≡ true → number_from 0 t ≤ 255 → show_nat (number_from 0 t) ≡ t
show_nat-number_from t h le =
    show_nat-show_octet (number_from 0 t) (omega arith)
    ∙ show_octet-number_from t (sym (is_part-is_octet t) ∙ h) le

is_part-show_nat :
    (n : ℕ)
    → n < 256
    → (is_part (show_nat n) ≡ true) × (number_from 0 (show_nat n) ≡ n) × NoDot (show_nat n)
is_part-show_nat n h =
    let (good, back) = is_octet-show_octet n h in
    rw (show_nat-show_octet n h)
      (is_part-is_octet (show_octet n) ∙ good, back, NoDot-show_octet n h)

-- A part that the reader accepts.
IsOctet : Text → Type 0
IsOctet t = (is_part t ≡ true) × (number_from 0 t ≤ 255)

IsOctet-NoDot : (t : Text) → is_part t ≡ true → NoDot t
unfolding is_part
IsOctet-NoDot [] h = tt
IsOctet-NoDot (a ∷ []) h = ground arith
IsOctet-NoDot (a ∷ b ∷ []) h = ground arith
IsOctet-NoDot (a ∷ b ∷ c ∷ []) h = ground arith
IsOctet-NoDot (a ∷ b ∷ c ∷ d ∷ t) h = ground arith

is_part-length : (t : Text) → is_part t ≡ true → length t ≤ 3
unfolding is_part
is_part-length [] h = omega arith
is_part-length (a ∷ t) h = ground arith

module _ (t u v w : Text) (ht : IsOctet t) (hu : IsOctet u) (hv : IsOctet v) (hw : IsOctet w) where
  parse_parts-four :
      parse_parts (t ∷ u ∷ v ∷ w ∷ [])
      ≡ ok (record {
        text = join_dots (t ∷ u ∷ v ∷ w ∷ []);
        value = value_of (number_from 0 t) (number_from 0 u) (number_from 0 v) (number_from 0 w);
      })
  unfolding parse_parts IsOctet value_of combine
  parse_parts-four =
      let e = show_nat-number_from t ht.0 ht.1 in
      let f = show_nat-number_from u hu.0 hu.1 in
      let g = show_nat-number_from v hv.0 hv.1 in
      let h = show_nat-number_from w hw.0 hw.1 in ground arith

  split-four : split b'.' (join_dots (t ∷ u ∷ v ∷ w ∷ [])) ≡ t ∷ u ∷ v ∷ w ∷ []
  unfolding join_dots IsOctet
  split-four =
      rw
        (
          split-dot t _ (IsOctet-NoDot t ht.0),
          split-dot u _ (IsOctet-NoDot u hu.0),
          split-dot v _ (IsOctet-NoDot v hv.0),
          split-NoDot w (IsOctet-NoDot w hw.0),
        )
        refl

  length-four : length (join_dots (t ∷ u ∷ v ∷ w ∷ [])) ≤ 15
  unfolding join_dots IsOctet
  length-four = omega (
    arith,
    length-append t (b'.' ∷ join_dots (u ∷ v ∷ w ∷ [])),
    length-append u (b'.' ∷ join_dots (v ∷ w ∷ [])),
    length-append v (b'.' ∷ w),
    is_part-length t ht.0,
    is_part-length u hu.0,
    is_part-length v hv.0,
    is_part-length w hw.0,
  )

  parse_address-four :
      parse_address (join_dots (t ∷ u ∷ v ∷ w ∷ []))
      ≡ ok (record {
        text = join_dots (t ∷ u ∷ v ∷ w ∷ []);
        value = value_of (number_from 0 t) (number_from 0 u) (number_from 0 v) (number_from 0 w);
      })
  unfolding parse_address
  parse_address-four =
      rw (le→leb (length (join_dots (t ∷ u ∷ v ∷ w ∷ []))) 15 length-four, split-four)
        parse_parts-four

  format-four :
      format_ipv4 (value_of (number_from 0 t) (number_from 0 u) (number_from 0 v) (number_from 0 w))
      ≡ join_dots (t ∷ u ∷ v ∷ w ∷ [])
  unfolding format_ipv4 IsOctet
  format-four =
      let (a, b, c, d) =
        octets_of (number_from 0 t) (number_from 0 u) (number_from 0 v) (number_from 0 w)
          (omega (arith, ht.1)) (omega (arith, hu.1)) (omega (arith, hv.1)) (omega (arith, hw.1)) in
      rw
        (
          a,
          b,
          c,
          d,
          show_nat-number_from t ht.0 ht.1,
          show_nat-number_from u hu.0 hu.1,
          show_nat-number_from v hv.0 hv.1,
          show_nat-number_from w hw.0 hw.1,
        )
        refl

IsOctet-show_nat : (n : ℕ) → n < 256 → IsOctet (show_nat n)
unfolding IsOctet
IsOctet-show_nat n h = let (good, back, dots) = is_part-show_nat n h in (good, omega (arith, back))

value_shown :
    (a b c d : ℕ)
    → a < 256
    → b < 256
    → c < 256
    → d < 256
    → value_of
        (number_from 0 (show_nat a))
        (number_from 0 (show_nat b))
        (number_from 0 (show_nat c))
        (number_from 0 (show_nat d))
      ≡ value_of a b c d
value_shown a b c d ha hb hc hd =
    rw
      (
        (is_part-show_nat a ha).1,
        (is_part-show_nat b hb).1,
        (is_part-show_nat c hc).1,
        (is_part-show_nat d hd).1,
      )
      refl

value_of-bound : (a b c d : ℕ) → a ≤ 255 → b ≤ 255 → c ≤ 255 → d ≤ 255 → value_of a b c d < 2 ^ 32
unfolding value_of
value_of-bound a b c d ha hb hc hd = omega arith

four-IsSound :
    (t u v w : Text) (address : Address)
    → parse_parts (t ∷ u ∷ v ∷ w ∷ []) ≡ ok address
    → IsOctet t × IsOctet u × IsOctet v × IsOctet w
unfolding parse_parts IsOctet
four-IsSound t u v w address h = ground arith

IsSound : Text → Address → Type 0
IsSound text address =
    (address.text ≡ text) × (format_ipv4 address.value ≡ text) × (address.value < 2 ^ 32)

ok_inj : (a b : Address) → ◌≡◌ {A = Result Code Address} (ok a) (ok b) → a ≡ b
ok_inj a b h = cc

too_few :
    (parts : List Text) (address : Address)
    → (length parts == 4) ≡ false
    → parse_parts parts ≡ ok address
    → ⊥
unfolding parse_parts
too_few parts address e h = let h' = rw e at h in cc

parts-IsSound :
    (parts : List Text) (address : Address)
    → parse_parts parts ≡ ok address
    → IsSound (join_dots parts) address
unfolding IsSound IsOctet
parts-IsSound (t ∷ u ∷ v ∷ w ∷ []) address h =
    let (ht, hu, hv, hw) = four-IsSound t u v w address h in
    let made = ok_inj _ _ (sym (parse_parts-four t u v w ht hu hv hw) ∙ h) in
    subst (IsSound (join_dots (t ∷ u ∷ v ∷ w ∷ []))) made
      (refl, format-four t u v w ht hu hv hw, value_of-bound _ _ _ _ ht.1 hu.1 hv.1 hw.1)
parts-IsSound [] address h = absurd (too_few [] address refl h)
parts-IsSound (t ∷ []) address h = absurd (too_few (t ∷ []) address refl h)
parts-IsSound (t ∷ u ∷ []) address h = absurd (too_few (t ∷ u ∷ []) address refl h)
parts-IsSound (t ∷ u ∷ v ∷ []) address h = absurd (too_few (t ∷ u ∷ v ∷ []) address refl h)
parts-IsSound (t ∷ u ∷ v ∷ w ∷ x ∷ parts) address h =
    absurd (too_few (t ∷ u ∷ v ∷ w ∷ x ∷ parts) address (ground arith) h)

abbrev as_read : Text → Text → Text → Text → ℕ → Result Code Address
as_read t u v w n = ok (record { text = join_dots (t ∷ u ∷ v ∷ w ∷ []); value = n })

-- Every 32-bit value has a spelling, `formatIpv4`, that `parseIpv4` reads back.
pub parse_address-format_ipv4 :
    (value : ℕ)
    → value < 2 ^ 32
    → parse_address (format_ipv4 value) ≡ ok (record { text = format_ipv4 value; value = value })
unfolding format_ipv4
parse_address-format_ipv4 value h =
    let a : ℕ = value / 2 ^ 24 % 256 in
    let b : ℕ = value / 2 ^ 16 % 256 in
    let c : ℕ = value / 2 ^ 8 % 256 in
    let d : ℕ = value / 2 ^ 0 % 256 in
    parse_address-four (show_nat a) (show_nat b) (show_nat c) (show_nat d)
      (IsOctet-show_nat a (omega arith)) (IsOctet-show_nat b (omega arith))
      (IsOctet-show_nat c (omega arith)) (IsOctet-show_nat d (omega arith))
    ∙ ap (λ (n : ℕ). as_read (show_nat a) (show_nat b) (show_nat c) (show_nat d) n)
        (value_shown a b c d (omega arith) (omega arith) (omega arith) (omega arith)
          ∙ value_of-octets value h)

-- An accepted address is one of 32 bits, and its text is the only spelling of it that `formatIpv4`
-- gives: the result holds the text as it was read.
pub parse_address-format :
    (text : Text) (address : Address)
    → parse_address text ≡ ok address
    → (address.text ≡ text) × (format_ipv4 address.value ≡ text) × (address.value < 2 ^ 32)
unfolding parse_address IsSound
parse_address-format text address h =
    subst (λ t. IsSound t address) (join_dots-split text)
      (parts-IsSound (split b'.' text) address
        (then-eq-ok (leb (length text) 15) input_invalid (parse_parts (split b'.' text)) h).1)
