-- ===== src/Actions/Registry/Names.antt =====
-- The names of a registry: each belongs to the action that declares it, and to no other.
use useful.Common.{
  All-append, Bool, true, false, List, [], ◌∷◌, ◌++◌, Option, none, some, Text, any, All,
  text_eq_iff, contains, if◌then◌else◌, ok, bind-eq-ok, ◌≡◌, ◌⊎◌, inl, inr, refl, sym, subst, ◌∙◌,
  arith, Bool-cases,
}
use useful.Actions.Registry.{
  Entry, Registry, names_of, is_some, find, add_names, resolve, register, register_all,
}

module _ {H : Type 0} where
  clash : {o : Option (Entry H)} {e : Entry H} → o ≡ none → o ≡ some e → ⊥
  clash p q = cc

  same_entry : {d e : Entry H} → ◌≡◌ {A = Option (Entry H)} (some d) (some e) → d ≡ e
  same_entry p = cc

  pub find-add_names :
      (name : Text) (names : List Text) (entry : Entry H) (known : List (Text × Entry H))
      → find name (add_names names entry known)
        ≡ (if contains names name then some entry else find name known)
  unfolding find add_names contains
  find-add_names name [] entry known = refl
  find-add_names name (n ∷ names) entry known =
      ground (arith, find-add_names name names entry known)

  register_parts :
      (entry : Entry H) (before after : Registry H)
      → register before entry ≡ ok after
      → (any (λ name. is_some (find name before.names)) (names_of entry.descriptor) ≡ false)
        × (after.names ≡ add_names (names_of entry.descriptor) entry before.names)
        × (after.entries ≡ before.entries ++ entry ∷ [])
  unfolding register
  register_parts entry before after h = ground arith

  -- A registration adds the names of its action, and leaves every other name alone.
  resolve-register :
      (name : Text) (entry : Entry H) (before after : Registry H)
      → register before entry ≡ ok after
      → resolve after name
        ≡ (if contains (names_of entry.descriptor) name then some entry else resolve before name)
  unfolding resolve
  resolve-register name entry before after h =
      rw (register_parts entry before after h).1
        (find-add_names name (names_of entry.descriptor) entry before.names)

  none_known :
      (name : Text) (names : List Text) (known : List (Text × Entry H))
      → any (λ n. is_some (find n known)) names ≡ false
      → contains names name ≡ true
      → find name known ≡ none
  unfolding contains
  none_known name [] known h c = cc
  none_known name (n ∷ names) known h c =
      ground (arith, text_eq_iff n name, none_known name names known)

  -- None of the names of a registered action was known before.
  register-new :
      (name : Text) (entry : Entry H) (before after : Registry H)
      → register before entry ≡ ok after
      → contains (names_of entry.descriptor) name ≡ true
      → resolve before name ≡ none
  unfolding resolve
  register-new name entry before after h c =
      none_known name (names_of entry.descriptor) before.names
        (register_parts entry before after h).0 c

  abbrev pub Among : Entry H → List (Entry H) → Type 0
  Among entry [] = ⊥
  Among entry (e ∷ es) = (entry ≡ e) ⊎ Among entry es

  -- Every name of the action resolves to it.
  abbrev pub Owns : Registry H → Entry H → Type 0
  Owns registry entry =
      (name : Text)
      → contains (names_of entry.descriptor) name ≡ true
      → resolve registry name ≡ some entry

  -- Each registered action owns its names, and whatever a name resolves to is registered under it.
  pub record IsConsistent (registry : Registry H) : Type 0 where
    pub own : All (Owns registry) registry.entries
    pub back :
        (name : Text) (entry : Entry H)
        → resolve registry name ≡ some entry
        → (contains (names_of entry.descriptor) name ≡ true) × Among entry registry.entries

  Among-left : (entry : Entry H) (xs ys : List (Entry H)) → Among entry xs → Among entry (xs ++ ys)
  Among-left entry (x ∷ xs) ys (inl e) = inl e
  Among-left entry (x ∷ xs) ys (inr m) = inr (Among-left entry xs ys m)
  Among-left entry [] ys m = absurd m

  Among-last : (entry : Entry H) (xs : List (Entry H)) → Among entry (xs ++ entry ∷ [])
  Among-last entry [] = inl refl
  Among-last entry (x ∷ xs) = inr (Among-last entry xs)

  All-weaken :
      (P Q : Entry H → Type 0) (xs : List (Entry H))
      → ((x : Entry H) → P x → Q x)
      → All P xs
      → All Q xs
  All-weaken P Q [] f h = tt
  All-weaken P Q (x ∷ xs) f (p, h) = (f x p, All-weaken P Q xs f h)

  module _ (entry : Entry H) (before after : Registry H)
      (done : register before entry ≡ ok after) where
    register-Owns : (old : Entry H) → Owns before old → Owns after old
    register-Owns old owns name c = elim (Bool-cases (contains (names_of entry.descriptor) name)) [
      | inl taken ↦ absurd (clash (register-new name entry before after done taken) (owns name c))
      | inr free ↦ resolve-register name entry before after done ∙ rw free (owns name c)
    ]

    register-IsConsistent : IsConsistent before → IsConsistent after
    register-IsConsistent h = record {
      own = subst (All (Owns after)) (sym (register_parts entry before after done).2) (
          All-append (Owns after) before.entries (entry ∷ [])
            (All-weaken (Owns before) (Owns after) before.entries register-Owns h.own)
            (λ name c. resolve-register name entry before after done ∙ rw c refl, tt));
      back = λ name e r.
          let (c, m) = came_from name e r in
          (c, subst (Among e) (sym (register_parts entry before after done).2) m);
    }
      where
        came_from :
            (name : Text) (e : Entry H)
            → resolve after name ≡ some e
            → (contains (names_of e.descriptor) name ≡ true)
              × Among e (before.entries ++ entry ∷ [])
        came_from name e r = elim (Bool-cases (contains (names_of entry.descriptor) name)) [
          | inl taken ↦
              let found = rw taken at (sym (resolve-register name entry before after done)) in
              subst
                (λ (x : Entry H).
                  (contains (names_of x.descriptor) name ≡ true)
                  × Among x (before.entries ++ entry ∷ []))
                (same_entry (found ∙ r)) (taken, Among-last entry before.entries)
          | inr free ↦
              let old =
                h.back name e
                  ((rw free at (sym (resolve-register name entry before after done))) ∙ r) in
              (old.0, Among-left e before.entries (entry ∷ []) old.1)
        ]

  register_all-IsConsistent :
      (entries : List (Entry H)) (before after : Registry H)
      → register_all before entries ≡ ok after
      → IsConsistent before
      → IsConsistent after
  unfolding register_all
  register_all-IsConsistent [] before after h c = subst IsConsistent (cc) c
  register_all-IsConsistent (entry ∷ entries) before after h c =
      let (middle, done, rest) =
        bind-eq-ok (register before entry) (λ r. register_all r entries) h in
      register_all-IsConsistent entries middle after rest
        (register-IsConsistent entry before middle done c)

  empty-IsConsistent :
      (by_registration : Bool)
      → IsConsistent (record { entries = []; names = []; by_registration = by_registration })
  unfolding resolve find
  empty-IsConsistent by_registration = record { own = tt; back = λ name entry r. cc }

  -- After any registrations that the constructor accepts, in whatever order, every name and alias of a
  -- registered action resolves to that action, and a name resolves only to a registered action that
  -- declares it: no registration takes a name from another.
  pub register_all-empty_IsConsistent :
      (by_registration : Bool) (entries : List (Entry H)) (registry : Registry H)
      → register_all
          (record { entries = []; names = []; by_registration = by_registration })
          entries
        ≡ ok registry
      → IsConsistent registry
  register_all-empty_IsConsistent by_registration entries registry h =
      register_all-IsConsistent entries _ registry h (empty-IsConsistent by_registration)
