-- ===== src/Actions/Recipe/References.antt =====
-- The references of a template that `inspectTemplate` lets through.
use useful.Common.{
  ℕ, ◌+◌, not, List, [], Option, none, some, Text, leb, Result, ok, ◌>>=◌, guard, bind-eq-ok,
  then-eq-ok, ◌≡◌, refl, subst, arith,
}
use useful.Js.Value.{
  Value, undefined, null, bool, int, number, str, arr, obj, buffer, function, Items, nil, cons,
  Fields, end, field,
}
use useful.Js.Json.{key_units}
use useful.Actions.Recipe.Pointer.{
  RecipeCode, is_forbidden, validate_reference, forbidden_key, template_too_large,
}
use useful.Actions.Recipe.{
  in_template, reference_of, inspect, inspect_items, inspect_fields, inspect_object,
  inspect_template, json_bytes, enter, max_template_bytes,
}

-- A property of every reference of a template. An object whose only property is `$ref` is a reference.
module _ (P : Value → Type 0) where
  IfReference : Option Value → Type 0 → Type 0
  IfReference none inside = inside
  IfReference (some reference) inside = P reference

  mutual
    unfolding IfReference

    pub References : Value → Type 0
    References undefined = Unit
    References null = Unit
    References (bool b) = Unit
    References (int n) = Unit
    References (number t) = Unit
    References (str t) = Unit
    References (buffer n) = Unit
    References (function t) = Unit
    References (arr vs) = ReferencesInItems vs
    References (obj fs) = IfReference (reference_of (in_template []) fs) (ReferencesInFields fs)

    pub ReferencesInItems : Items → Type 0
    ReferencesInItems nil = Unit
    ReferencesInItems (cons v vs) = References v × ReferencesInItems vs

    pub ReferencesInFields : Fields → Type 0
    ReferencesInFields end = Unit
    ReferencesInFields (field k v fs) = References v × ReferencesInFields fs

-- What `inspectTemplate` has let through.
abbrev pub IsReference : List Text → Value → Type 0
IsReference completed reference = validate_reference reference completed ≡ ok tt

reference_of_any :
    (completed : List Text) (fs : Fields)
    → reference_of (in_template completed) fs ≡ reference_of (in_template []) fs
reference_of_any completed end = refl
reference_of_any completed (field k v end) = refl
reference_of_any completed (field k v (field j w fs)) = refl

enter-ok :
    (depth nodes : ℕ) (rest : Result RecipeCode ℕ) {n : ℕ}
    → enter depth nodes rest ≡ ok n
    → rest ≡ ok n
unfolding enter
enter-ok depth nodes rest h = ground arith

module _ (completed : List Text) where
  object-References :
      (fs : Fields) (reference : Option Value) (nodes : ℕ) (walked : Result RecipeCode ℕ)
      (inside : Type 0) {n : ℕ}
      → inspect_object (in_template completed) reference nodes walked ≡ ok n
      → ((m : ℕ) → walked ≡ ok m → inside)
      → IfReference (IsReference completed) reference inside
  unfolding inspect_object IfReference
  object-References fs none nodes walked inside h k = k _ h
  object-References fs (some reference) nodes walked inside h k =
      let (unit, valid, made) =
        bind-eq-ok (validate_reference reference completed) (λ _. ok nodes) h in
      valid

  mutual
    unfolding inspect References

    inspect-References :
        (v : Value) (depth nodes : ℕ) (n : ℕ)
        → inspect (in_template completed) v depth nodes ≡ ok n
        → References (IsReference completed) v
    inspect-References undefined depth nodes n h = tt
    inspect-References null depth nodes n h = tt
    inspect-References (bool b) depth nodes n h = tt
    inspect-References (int i) depth nodes n h = tt
    inspect-References (number t) depth nodes n h = tt
    inspect-References (str t) depth nodes n h = tt
    inspect-References (buffer m) depth nodes n h = tt
    inspect-References (function t) depth nodes n h = tt
    inspect-References (arr vs) depth nodes n h =
        inspect_items-References vs (depth + 1) (nodes + 1) n (
          enter-ok depth nodes (inspect_items (in_template completed) vs (depth + 1) (nodes + 1)) h)
    inspect-References (obj fs) depth nodes n h =
        let walked = inspect_fields (in_template completed) fs (depth + 1) (nodes + 1) in
        subst
          (λ r.
            IfReference (IsReference completed) r (ReferencesInFields (IsReference completed) fs))
          (reference_of_any completed fs)
          (object-References fs (reference_of (in_template completed) fs) (nodes + 1) walked _
            (enter-ok depth nodes
              (inspect_object (in_template completed) (reference_of (in_template completed) fs)
                (nodes + 1) walked)
              h)
            (λ m e. inspect_fields-References fs (depth + 1) (nodes + 1) m e))

    inspect_items-References :
        (vs : Items) (depth nodes : ℕ) (n : ℕ)
        → inspect_items (in_template completed) vs depth nodes ≡ ok n
        → ReferencesInItems (IsReference completed) vs
    inspect_items-References nil depth nodes n h = tt
    inspect_items-References (cons v vs) depth nodes n h =
        let (m, here, rest) =
          bind-eq-ok (inspect (in_template completed) v depth nodes)
            (inspect_items (in_template completed) vs depth) h in
        (inspect-References v depth nodes m here, inspect_items-References vs depth m n rest)

    inspect_fields-References :
        (fs : Fields) (depth nodes : ℕ) (n : ℕ)
        → inspect_fields (in_template completed) fs depth nodes ≡ ok n
        → ReferencesInFields (IsReference completed) fs
    inspect_fields-References end depth nodes n h = tt
    inspect_fields-References (field k v fs) depth nodes n h =
        let (m, here, rest) =
          bind-eq-ok (inspect (in_template completed) v depth nodes)
            (inspect_fields (in_template completed) fs depth)
            (then-eq-ok (not (is_forbidden (key_units k))) forbidden_key
              (inspect (in_template completed) v depth nodes
                >>= inspect_fields (in_template completed) fs depth)
              h).1 in
        (inspect-References v depth nodes m here, inspect_fields-References fs depth m n rest)

-- What `inspectTemplate` lets through refers only to the input and to completed steps.
pub inspect_template-References :
    (v : Value) (completed : List Text)
    → inspect_template v completed ≡ ok tt
    → References (IsReference completed) v
unfolding inspect_template
inspect_template-References v completed h =
    let (n, walked, rest) =
      bind-eq-ok (inspect (in_template completed) v 0 0)
        (λ _. json_bytes v >>= λ bytes. guard (leb bytes max_template_bytes) template_too_large)
        h in
    inspect-References completed v 0 0 n walked

module _ (P Q : Value → Type 0) (weaker : (r : Value) → P r → Q r) where
  if-weaken :
      (o : Option Value) (inside inside' : Type 0)
      → (inside → inside')
      → IfReference P o inside
      → IfReference Q o inside'
  unfolding IfReference
  if-weaken none inside inside' f h = f h
  if-weaken (some r) inside inside' f h = weaker r h

  mutual
    unfolding References

    pub References-weaken : (v : Value) → References P v → References Q v
    References-weaken undefined h = tt
    References-weaken null h = tt
    References-weaken (bool b) h = tt
    References-weaken (int i) h = tt
    References-weaken (number t) h = tt
    References-weaken (str t) h = tt
    References-weaken (buffer m) h = tt
    References-weaken (function t) h = tt
    References-weaken (arr vs) h = weaken_items vs h
    References-weaken (obj fs) h =
        if-weaken (reference_of (in_template []) fs) (ReferencesInFields P fs)
          (ReferencesInFields Q fs) (weaken_fields fs) h

    weaken_items : (vs : Items) → ReferencesInItems P vs → ReferencesInItems Q vs
    weaken_items nil h = tt
    weaken_items (cons v vs) (h, k) = (References-weaken v h, weaken_items vs k)

    weaken_fields : (fs : Fields) → ReferencesInFields P fs → ReferencesInFields Q fs
    weaken_fields end h = tt
    weaken_fields (field k v fs) (h, j) = (References-weaken v h, weaken_fields fs j)
