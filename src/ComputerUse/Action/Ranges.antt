-- ===== src/ComputerUse/Action/Ranges.antt =====
-- What the fields of an action hold, described apart from the checks.
use useful.Common.{
  ℕ, suc, ◌≤◌, [], ◌∷◌, All, Bool, true, false, ◌&&◌, ◌||◌, List, String, some, Text, codes, length,
  all, text_eq_iff, ◌≡◌, ◌⊎◌, inl, inr, ◌↔◌, subst, refl, arith,
}
use useful.Js.Value.{
  pos, negsuc, Value, undefined, int, str, arr, items, get, is_undefined, is_text, nat_in, as_items,
}
use useful.ComputerUse.Base.{is_alphanumeric, is_id_char, is_safe_text, is_safe_id}
use useful.ComputerUse.Action.{
  ActionType, screenshot, click, double_click, drag, move, scroll, type_text, key, wait, is_some,
  is_coordinate, is_duration, is_delta, is_button, is_typed_text, is_key_list, optional, fields_ok,
}

abbrev pub IsNatural : ℕ → Value → Type 0
IsNatural hi v = (n : ℕ) × (v ≡ int (pos n)) × (n ≤ hi)

abbrev pub IsDelta : Value → Type 0
IsDelta v = IsNatural 100000 v ⊎ ((n : ℕ) × (v ≡ int (negsuc n)) × (suc n ≤ 100000))

abbrev pub IsButton : Value → Type 0
IsButton v = (v ≡ str (codes "left")) ⊎ ((v ≡ str (codes "middle")) ⊎ (v ≡ str (codes "right")))

abbrev pub IsTypedText : Value → Type 0
IsTypedText v = (t : Text) × (v ≡ str t) × (1 ≤ length t) × (length t ≤ 32768)

-- A letter or a digit, and at most 127 letters, digits and marks of `._:-` behind it.
abbrev pub IsSafeName : Value → Type 0
IsSafeName v =
    (c : ℕ) × (t : Text) × (v ≡ str (c ∷ t))
    × (is_alphanumeric c ≡ true)
    × (length t ≤ 127)
    × All (λ d. is_id_char d ≡ true) t

abbrev pub IsKeyList : Value → Type 0
IsKeyList v =
    (ks : List Value) × (as_items v ≡ some ks)
    × (1 ≤ length ks)
    × (length ks ≤ 16)
    × All IsSafeName ks

abbrev pub Optional : (Value → Type 0) → Value → Type 0
Optional P v = (v ≡ undefined) ⊎ P v

abbrev pub IsCoordinate : Value → Type 0
IsCoordinate v = IsNatural 100000 v

abbrev pub IsDuration : Value → Type 0
IsDuration v = IsNatural 30000 v

-- What the fields of an action hold, for each type.
abbrev pub Fields : ActionType → Value → Type 0
Fields screenshot a = Unit
Fields click a =
    IsCoordinate (get "x" a) × (IsCoordinate (get "y" a) × Optional IsButton (get "button" a))
Fields double_click a =
    IsCoordinate (get "x" a) × (IsCoordinate (get "y" a) × Optional IsButton (get "button" a))
Fields drag a =
    IsCoordinate (get "startX" a)
    × (IsCoordinate (get "startY" a)
        × (IsCoordinate (get "endX" a)
            × (IsCoordinate (get "endY" a) × Optional IsDuration (get "durationMs" a))))
Fields move a = IsCoordinate (get "x" a) × IsCoordinate (get "y" a)
Fields scroll a =
    IsDelta (get "deltaX" a)
    × (IsDelta (get "deltaY" a)
        × (Optional IsCoordinate (get "x" a) × Optional IsCoordinate (get "y" a)))
Fields type_text a = IsTypedText (get "text" a)
Fields key a = IsKeyList (get "keys" a)
Fields wait a = IsDuration (get "durationMs" a)

IsNatural-iff : (hi : ℕ) (v : Value) → (is_some (nat_in 0 hi v) ≡ true) ↔ IsNatural hi v
unfolding nat_in
IsNatural-iff hi (int (pos n)) = (λ h. (n, refl, ground arith), λ h. ground arith)
IsNatural-iff hi _ = (λ h. cc, λ h. ground arith)

IsDelta-iff : (v : Value) → (is_delta v ≡ true) ↔ IsDelta v
unfolding is_delta
IsDelta-iff (int (pos n)) = (λ h. inl (n, refl, ground arith), λ h. ground arith)
IsDelta-iff (int (negsuc n)) = (λ h. inr (n, refl, ground arith), λ h. ground arith)
IsDelta-iff _ = (λ h. cc, λ h. ground arith)

str_of_eq : (s : String) (v : Value) → (is_text s v ≡ true) ↔ (v ≡ str (codes s))
str_of_eq s (str t) = ground (arith, text_eq_iff t (codes s))
str_of_eq s _ = (λ h. cc, λ h. cc)

either_iff :
    {a b : Bool} {P Q : Type 0} → (a ≡ true) ↔ P → (b ≡ true) ↔ Q → ((a || b) ≡ true) ↔ (P ⊎ Q)
either_iff {a = true} p q = (λ h. inl (p.0 h), λ h. refl)
either_iff {a = false} p q =
    (λ h. inr (q.0 h), λ h. elim h [ inl x ↦ absurd (cc (p.1 x)) | inr y ↦ q.1 y ])

both_iff :
    {a b : Bool} {P Q : Type 0} → (a ≡ true) ↔ P → (b ≡ true) ↔ Q → ((a && b) ≡ true) ↔ (P × Q)
both_iff {a = true} p q = (λ h. (p.0 refl, q.0 h), λ h. q.1 h.1)
both_iff {a = false} p q = (λ h. cc, λ h. p.1 h.0)

undefined_iff : (v : Value) → (is_undefined v ≡ true) ↔ (v ≡ undefined)
undefined_iff undefined = (λ h. refl, λ h. refl)
undefined_iff _ = (λ h. cc, λ h. cc)

IsButton-iff : (v : Value) → (is_button v ≡ true) ↔ IsButton v
unfolding is_button
IsButton-iff v =
    either_iff (str_of_eq "left" v) (either_iff (str_of_eq "middle" v) (str_of_eq "right" v))

IsTypedText-iff : (v : Value) → (is_typed_text v ≡ true) ↔ IsTypedText v
unfolding is_typed_text
IsTypedText-iff (str t) = (λ h. (t, refl, ground arith, ground arith), λ h. ground arith)
IsTypedText-iff _ = (λ h. cc, λ h. ground arith)

pub all_iff :
    {A : Type 0} (test : A → Bool) (P : A → Type 0) (xs : List A)
    → ((a : A) → (test a ≡ true) ↔ P a)
    → (all test xs ≡ true) ↔ All P xs
all_iff test P [] h = (λ k. tt, λ k. refl)
all_iff test P (a ∷ xs) h = both_iff (h a) (all_iff test P xs h)

IsSafeName-iff : (v : Value) → (is_safe_id v ≡ true) ↔ IsSafeName v
unfolding is_safe_id is_safe_text
IsSafeName-iff (str (c ∷ t)) =
    let chars = all_iff is_id_char (λ d. is_id_char d ≡ true) t (λ d. (λ h. h, λ h. h)) in
    (
      λ h. (c, t, refl, ground arith, ground arith, chars.0 (ground arith)),
      λ (d, u, e, first, few, rest).
          let same : d ≡ c = cc in
          let tail : u ≡ t = cc in
          let chars' = chars.1 (subst (λ w. All (λ x. is_id_char x ≡ true) w) tail rest) in
          ground arith,
    )
IsSafeName-iff _ = (λ h. cc, λ h. cc)

IsKeyList-iff : (v : Value) → (is_key_list v ≡ true) ↔ IsKeyList v
unfolding is_key_list
IsKeyList-iff (arr ks) =
    let names = all_iff is_safe_id IsSafeName (items ks) IsSafeName-iff in
    (
      λ h. (items ks, refl, ground arith, ground arith, names.0 (ground arith)),
      λ (vs, e, low, high, safe).
          let same : vs ≡ items ks = cc in
          let safe' = names.1 (subst (All IsSafeName) same safe) in ground arith,
    )
IsKeyList-iff _ = (λ h. cc, λ h. cc)

optional_iff :
    (test : Value → Bool) (P : Value → Type 0) (v : Value)
    → ((test v ≡ true) ↔ P v)
    → (optional test v ≡ true) ↔ Optional P v
optional_iff test P v h = either_iff (undefined_iff v) h

pub fields_iff : (t : ActionType) (a : Value) → (fields_ok t a ≡ true) ↔ Fields t a
unfolding fields_ok is_coordinate is_duration
fields_iff screenshot a = (λ h. tt, λ h. refl)
fields_iff click a = both_iff (IsNatural-iff 100000 (get "x" a)) (
    both_iff (IsNatural-iff 100000 (get "y" a))
      (optional_iff is_button IsButton (get "button" a) (IsButton-iff (get "button" a))))
fields_iff double_click a = both_iff (IsNatural-iff 100000 (get "x" a)) (
    both_iff (IsNatural-iff 100000 (get "y" a))
      (optional_iff is_button IsButton (get "button" a) (IsButton-iff (get "button" a))))
fields_iff drag a = both_iff (IsNatural-iff 100000 (get "startX" a)) (
    both_iff (IsNatural-iff 100000 (get "startY" a)) (
      both_iff (IsNatural-iff 100000 (get "endX" a)) (
        both_iff (IsNatural-iff 100000 (get "endY" a)) (
          optional_iff is_duration IsDuration (get "durationMs" a)
            (IsNatural-iff 30000 (get "durationMs" a))))))
fields_iff move a = both_iff (IsNatural-iff 100000 (get "x" a)) (IsNatural-iff 100000 (get "y" a))
fields_iff scroll a = both_iff (IsDelta-iff (get "deltaX" a)) (
    both_iff (IsDelta-iff (get "deltaY" a)) (
      both_iff
        (optional_iff is_coordinate IsCoordinate (get "x" a) (IsNatural-iff 100000 (get "x" a)))
        (optional_iff is_coordinate IsCoordinate (get "y" a) (IsNatural-iff 100000 (get "y" a)))))
fields_iff type_text a = IsTypedText-iff (get "text" a)
fields_iff key a = IsKeyList-iff (get "keys" a)
fields_iff wait a = IsNatural-iff 30000 (get "durationMs" a)
