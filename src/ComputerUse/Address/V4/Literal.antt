-- ===== src/ComputerUse/Address/V4/Literal.antt =====
-- `parseIpv4` accepts one spelling of each address: dotted decimals with no leading zero.
use useful.Common.{
  ℕ, ◌+◌, ◌/◌, ◌%◌, ◌≤◌, ◌<◌, Bool, true, false, not, List, [], ◌∷◌, ◌++◌, map, some, Text, any,
  all, is_digit, ltb, ◌==◌, if◌then◌else◌, ◌≡◌, ◌≢◌, refl, sym, ap, ◌∙◌, arith, Bool-cases, inl,
  inr,
}
use useful.ComputerUse.Address.V4.{
  prepend, split, number_from, is_short_number, is_octet, parse_ipv4,
}

-- The decimal spelling of an octet.
unfoldable pub show_octet : ℕ → Text
show_octet n =
    if ltb n 10
    then (b'0' + n) ∷ []
    else if ltb n 100
    then (b'0' + n / 10) ∷ (b'0' + n % 10) ∷ []
    else (b'0' + n / 100) ∷ (b'0' + n / 10 % 10) ∷ (b'0' + n % 10) ∷ []

-- An accepted octet in range is the spelling of its number.
pub show_octet-number_from :
    (t : Text) → is_octet t ≡ true → number_from 0 t ≤ 255 → show_octet (number_from 0 t) ≡ t
unfolding is_octet is_short_number number_from show_octet
show_octet-number_from [] h le = ground arith
show_octet-number_from (a ∷ []) h le = ground arith
show_octet-number_from (a ∷ b ∷ []) h le = ground arith
show_octet-number_from (a ∷ b ∷ c ∷ []) h le = ground arith
show_octet-number_from (a ∷ b ∷ c ∷ d ∷ t) h le = ground arith

pub is_octet-show_octet :
    (n : ℕ) → n < 256 → (is_octet (show_octet n) ≡ true) × (number_from 0 (show_octet n) ≡ n)
unfolding is_octet is_short_number number_from show_octet
is_octet-show_octet n h = ground arith

unfoldable pub show_ipv4 : ℕ → ℕ → ℕ → ℕ → Text
show_ipv4 a b c d =
    show_octet a ++ (b'.' ∷ (show_octet b ++ (b'.' ∷ (show_octet c ++ (b'.' ∷ show_octet d)))))

abbrev pub NoDot : Text → Type 0
NoDot [] = Unit
NoDot (c ∷ t) = (c ≢ b'.') × NoDot t

NoDot-is_octet : (t : Text) → all is_digit t ≡ true → NoDot t
NoDot-is_octet [] h = tt
NoDot-is_octet (c ∷ t) h = ground (arith, NoDot-is_octet t)

pub split-NoDot : (t : Text) → NoDot t → split b'.' t ≡ t ∷ []
unfolding split prepend
split-NoDot [] h = refl
split-NoDot (c ∷ t) (n, h) = rw (split-NoDot t h) (ground arith)

pub split-dot : (t rest : Text) → NoDot t → split b'.' (t ++ b'.' ∷ rest) ≡ t ∷ split b'.' rest
unfolding split prepend
split-dot [] rest h = refl
split-dot (c ∷ t) rest (n, h) = rw (split-dot t rest h) (ground arith)

-- The parts, put together again, are the text.
unfoldable pub join_dots : List Text → Text
join_dots [] = []
join_dots (t ∷ []) = t
join_dots (t ∷ u ∷ ts) = t ++ b'.' ∷ join_dots (u ∷ ts)

join_dots-prepend : (c : ℕ) (ts : List Text) → join_dots (prepend c ts) ≡ c ∷ join_dots ts
unfolding join_dots prepend
join_dots-prepend c [] = refl
join_dots-prepend c (t ∷ []) = refl
join_dots-prepend c (t ∷ u ∷ ts) = refl

split-cons : (t : Text) → (u : Text) × (us : List Text) × (split b'.' t ≡ u ∷ us)
unfolding split prepend
split-cons [] = ([], [], refl)
split-cons (c ∷ t) =
    let (u, us, e) = split-cons t in
    elim (Bool-cases (c == b'.')) [
      | inl dot ↦ ([], u ∷ us, rw (e, dot))
      | inr other ↦ (c ∷ u, us, rw (e, other))
    ]

pub join_dots-split : (t : Text) → join_dots (split b'.' t) ≡ t
unfolding join_dots split
join_dots-split [] = refl
join_dots-split (c ∷ t) =
    let (u, us, e) = split-cons t in
    elim (Bool-cases (c == b'.')) [
      | inl dot ↦ rw dot (ground (arith, e, join_dots-split t))
      | inr other ↦ rw (other, join_dots-prepend, join_dots-split t)
    ]

pub any-not-all :
    {A : Type 0} (p : A → Bool) (xs : List A) → any (λ x. not (p x)) xs ≡ false → all p xs ≡ true
any-not-all p [] h = refl
any-not-all p (x ∷ xs) h = ground (arith, any-not-all p xs)

-- The octets of four accepted parts.
parts_shown :
    (t u v w : Text)
    → all is_octet (t ∷ u ∷ v ∷ w ∷ []) ≡ true
    → any (λ part. ltb 255 part) (map (number_from 0) (t ∷ u ∷ v ∷ w ∷ [])) ≡ false
    → show_ipv4 (number_from 0 t) (number_from 0 u) (number_from 0 v) (number_from 0 w)
      ≡ join_dots (t ∷ u ∷ v ∷ w ∷ [])
unfolding show_ipv4 join_dots
parts_shown t u v w h k = rw (
  show_octet-number_from t (ground arith) (ground arith),
  show_octet-number_from u (ground arith) (ground arith),
  show_octet-number_from v (ground arith) (ground arith),
  show_octet-number_from w (ground arith) (ground arith),
)

pub record IsAddress (numbers : List ℕ) (text : Text) : Type 0 where
  pub a : ℕ
  pub b : ℕ
  pub c : ℕ
  pub d : ℕ
  pub numbers_are : numbers ≡ a ∷ b ∷ c ∷ d ∷ []
  pub a_byte : a < 256
  pub b_byte : b < 256
  pub c_byte : c < 256
  pub d_byte : d < 256
  pub spelled : text ≡ show_ipv4 a b c d

parse_parts-IsAddress :
    (parts : List Text) (numbers : List ℕ) (text : Text)
    → split b'.' text ≡ parts
    → parse_ipv4 text ≡ some numbers
    → IsAddress numbers text
unfolding parse_ipv4
parse_parts-IsAddress (t ∷ u ∷ v ∷ w ∷ []) numbers text e h =
    let parts = t ∷ u ∷ v ∷ w ∷ [] in
    let h' = rw e at h in
    let good : any (λ part. not (is_octet part)) parts ≡ false = ground arith in
    let small : any (λ part. ltb 255 part) (map (number_from 0) parts) ≡ false = ground arith in
    let spelled = parts_shown t u v w (any-not-all is_octet parts good) small in
    record {
      a = number_from 0 t;
      b = number_from 0 u;
      c = number_from 0 v;
      d = number_from 0 w;
      numbers_are = ground arith;
      a_byte = ground arith;
      b_byte = ground arith;
      c_byte = ground arith;
      d_byte = ground arith;
      spelled = sym (spelled ∙ ap join_dots (sym e) ∙ join_dots-split text);
    }
parse_parts-IsAddress parts numbers text e h = ground arith

-- Whatever is accepted is the plain spelling of four bytes, which are the result: no octal or short
-- form and no leading zero names an address.
pub parse_ipv4-IsAddress :
    (text : Text) {numbers : List ℕ} → parse_ipv4 text ≡ some numbers → IsAddress numbers text
parse_ipv4-IsAddress text h = parse_parts-IsAddress (split b'.' text) _ text refl h

pub NoDot-show_octet : (n : ℕ) → n < 256 → NoDot (show_octet n)
unfolding show_octet
NoDot-show_octet n h = ground arith

split-show_ipv4 :
    (a b c d : ℕ)
    → a < 256
    → b < 256
    → c < 256
    → d < 256
    → split b'.' (show_ipv4 a b c d)
      ≡ show_octet a ∷ show_octet b ∷ show_octet c ∷ show_octet d ∷ []
unfolding show_ipv4
split-show_ipv4 a b c d ha hb hc hd = rw (
  split-dot (show_octet a) _ (NoDot-show_octet a ha),
  split-dot (show_octet b) _ (NoDot-show_octet b hb),
  split-dot (show_octet c) _ (NoDot-show_octet c hc),
  split-NoDot (show_octet d) (NoDot-show_octet d hd),
)

-- Every address of four bytes has a spelling that is read back.
pub parse_ipv4-show_ipv4 :
    (a b c d : ℕ)
    → a < 256
    → b < 256
    → c < 256
    → d < 256
    → parse_ipv4 (show_ipv4 a b c d) ≡ some (a ∷ b ∷ c ∷ d ∷ [])
unfolding parse_ipv4
parse_ipv4-show_ipv4 a b c d ha hb hc hd = rw (split-show_ipv4 a b c d ha hb hc hd) (
    ground (
      arith,
      is_octet-show_octet a,
      is_octet-show_octet b,
      is_octet-show_octet c,
      is_octet-show_octet d,
    ))
