-- ===== src/ComputerUse/Action/Conforms.antt =====
-- The actions of the contract, described apart from the checks, and that the checks accept just these.
use useful.Common.{
  [], ◌∷◌, Option, text_eq, All, ◌≢◌, ap, ◌∙◌, Bool-cases, true, false, not, List, String, none,
  some, Text, codes, any, all, text_eq_iff, if◌then◌else◌, ok, ◌≡◌, inl, inr, ◌↔◌, bind-eq-ok,
  then-eq-ok, subst, refl, arith, Option-cases,
}
use useful.Js.Value.{
  Value, undefined, str, get, is_object, is_undefined, own_values, own_keys, has_key, as_text,
}
use useful.ComputerUse.Base.{action_invalid, assert_known_keys}
use useful.ComputerUse.Action.{
  ActionType, screenshot, click, double_click, drag, move, scroll, type_text, key, wait, read_type,
  action_type, action_fields, fields_ok, assert_action,
}
use useful.ComputerUse.Action.Ranges.{Fields, all_iff, fields_iff}

-- The name of each type, and the fields that it may have.
abbrev pub name_of : ActionType → String
name_of screenshot = "screenshot"
name_of click = "click"
name_of double_click = "double-click"
name_of drag = "drag"
name_of move = "move"
name_of scroll = "scroll"
name_of type_text = "type"
name_of key = "key"
name_of wait = "wait"

abbrev pub field_names : ActionType → List String
field_names screenshot = "type" ∷ []
field_names click = "type" ∷ "x" ∷ "y" ∷ "button" ∷ []
field_names double_click = "type" ∷ "x" ∷ "y" ∷ "button" ∷ []
field_names drag = "type" ∷ "startX" ∷ "startY" ∷ "endX" ∷ "endY" ∷ "durationMs" ∷ []
field_names move = "type" ∷ "x" ∷ "y" ∷ []
field_names scroll = "type" ∷ "deltaX" ∷ "deltaY" ∷ "x" ∷ "y" ∷ []
field_names type_text = "type" ∷ "text" ∷ []
field_names key = "type" ∷ "keys" ∷ []
field_names wait = "type" ∷ "durationMs" ∷ []

-- A text that is read as this type names it.
IsNamed : Text → Option ActionType → Type 0
IsNamed x read = (t : ActionType) → read ≡ some t → x ≡ codes (name_of t)

IsNamed-if :
    (x : Text) (u : ActionType) (behind : Option ActionType)
    → IsNamed x behind
    → IsNamed x (if text_eq x (codes (name_of u)) then some u else behind)
unfolding IsNamed
IsNamed-if x u behind named t h = elim (Bool-cases (text_eq x (codes (name_of u)))) [
  | inl e ↦
      let h' = rw e at h in
      let same : u ≡ t = cc in
      (text_eq_iff x (codes (name_of u))).0 e ∙ ap (λ v. codes (name_of v)) same
  | inr e ↦ named t (rw e at h)
]

IsNamed-none : (x : Text) → IsNamed x none
unfolding IsNamed
IsNamed-none x t h = cc

read_type-IsNamed : (x : Text) → IsNamed x (read_type x)
unfolding read_type
read_type-IsNamed x = IsNamed-if x screenshot _ (
    IsNamed-if x click _ (
      IsNamed-if x double_click _ (
        IsNamed-if x drag _ (
          IsNamed-if x move _ (
            IsNamed-if x scroll _ (
              IsNamed-if x type_text _
                (IsNamed-if x key _ (IsNamed-if x wait _ (IsNamed-none x)))))))))

read_type-name_of : (t : ActionType) → read_type (codes (name_of t)) ≡ some t
unfolding read_type text_eq
read_type-name_of screenshot = refl
read_type-name_of click = refl
read_type-name_of double_click = refl
read_type-name_of drag = refl
read_type-name_of move = refl
read_type-name_of scroll = refl
read_type-name_of type_text = refl
read_type-name_of key = refl
read_type-name_of wait = refl

action_fields-field_names : (t : ActionType) → action_fields t ≡ field_names t
unfolding action_fields
action_fields-field_names screenshot = refl
action_fields-field_names click = refl
action_fields-field_names double_click = refl
action_fields-field_names drag = refl
action_fields-field_names move = refl
action_fields-field_names scroll = refl
action_fields-field_names type_text = refl
action_fields-field_names key = refl
action_fields-field_names wait = refl

-- `action_type` on the value of the field `type`.
type_iff :
    (v : Value) (t : ActionType)
    → (elim (as_text v) [ none ↦ none | some x ↦ read_type x ] ≡ some t)
      ↔ (v ≡ str (codes (name_of t)))
unfolding IsNamed
type_iff (str x) t = (
  λ h. ap str (read_type-IsNamed x t h),
  λ h. let same : x ≡ codes (name_of t) = cc in rw same (read_type-name_of t),
)
type_iff _ t = (λ h. cc, λ h. cc)

action_type_iff :
    (a : Value) (t : ActionType)
    → (action_type a ≡ some t) ↔ (get "type" a ≡ str (codes (name_of t)))
unfolding action_type
action_type_iff a t = type_iff (get "type" a) t

all_defined_iff : (vs : List Value) → (any is_undefined vs ≡ false) ↔ All (λ v. v ≢ undefined) vs
all_defined_iff [] = (λ h. tt, λ h. refl)
all_defined_iff (undefined ∷ vs) = (λ h. cc, λ h. absurd (h.0 refl))
all_defined_iff (v ∷ vs) =
    (λ h. ((λ e. cc), (all_defined_iff vs).0 h), λ h. (all_defined_iff vs).1 h.1)

-- An action of type `t`: an object of that type with no other fields than the type's, none of them
-- `undefined`, and each in its range.
pub record IsAction (t : ActionType) (a : Value) : Type 0 where
  pub object : is_object a ≡ true
  pub typed : get "type" a ≡ str (codes (name_of t))
  pub known : All (λ k. has_key k (field_names t) ≡ true) (own_keys a)
  pub defined : All (λ v. v ≢ undefined) (own_values a)
  pub fields : Fields t a

own_known :
    (t : ActionType) (a : Value)
    → (all (λ k. has_key k (field_names t)) (own_keys a) ≡ true)
      ↔ All (λ k. has_key k (field_names t) ≡ true) (own_keys a)
own_known t a = all_iff (λ k. has_key k (field_names t)) _ (own_keys a) (λ k. (λ h. h, λ h. h))

known_keys :
    (a : Value) (t : ActionType)
    → assert_known_keys a (action_fields t) action_invalid ≡ ok tt
    → All (λ k. has_key k (field_names t) ≡ true) (own_keys a)
unfolding assert_known_keys
known_keys a t h =
    let behind = (then-eq-ok (is_object a) action_invalid _ h).1 in
    let all_known : all (λ k. has_key k (action_fields t)) (own_keys a) ≡ true = ground arith in
    (own_known t a).0 (rw (action_fields-field_names t) at all_known)

keys_known :
    (a : Value) (t : ActionType)
    → is_object a ≡ true
    → All (λ k. has_key k (field_names t) ≡ true) (own_keys a)
    → assert_known_keys a (action_fields t) action_invalid ≡ ok tt
unfolding assert_known_keys
keys_known a t object h =
    let all_known = (own_known t a).1 h in rw (action_fields-field_names t, object, all_known) refl

assert_action-IsAction : (a : Value) (t : ActionType) → assert_action a ≡ ok t → IsAction t a
unfolding assert_action
assert_action-IsAction a t e = elim (Option-cases (if is_object a then action_type a else none)) [
  | inl unread ↦ ground (arith, unread)
  | inr (u, read) ↦
      let e = rw (read, assert_action) at e in
      let (_, known, e) = bind-eq-ok (assert_known_keys a (action_fields u) action_invalid) _ e in
      let (defined, e) = then-eq-ok (not (any is_undefined (own_values a))) action_invalid _ e in
      let (fields, e) = then-eq-ok (fields_ok u a) action_invalid _ e in
      let same : u ≡ t = ground arith in
      let is_typed : action_type a ≡ some u = ground (arith, read) in
      subst (λ t. IsAction t a) same
        (record {
          object = ground (arith, read);
          typed = (action_type_iff a u).0 is_typed;
          known = known_keys a u known;
          defined = (all_defined_iff (own_values a)).0 (ground arith);
          fields = (fields_iff u a).0 fields;
        })
]

-- `assertComputerUseAction` accepts just the objects whose field `type` is the name of an action's type, whose
-- fields are all among those of that type (given here by a list of their own), hold no `undefined`, and are each
-- in the range that the type asks for; and it gives that type.
pub assert_action_iff : (a : Value) (t : ActionType) → (assert_action a ≡ ok t) ↔ IsAction t a
unfolding assert_action
assert_action_iff a t = (
  assert_action-IsAction a t,
  λ h.
      let typed = (action_type_iff a t).1 h.typed in
      let known = keys_known a t h.object h.known in
      let defined = (all_defined_iff (own_values a)).1 h.defined in
      ground (arith, h.object, typed, known, defined, (fields_iff t a).1 h.fields),
)
