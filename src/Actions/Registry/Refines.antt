-- ===== src/Actions/Registry/Refines.antt =====
-- The registry against its abstract specification: a partial map from names to entries.
use useful.Common.{
  Bool, true, false, not, ◌&&◌, ◌||◌, List, [], ◌∷◌, ◌++◌, Option, none, some, Text, any,
  all_distinct, contains, if◌then◌else◌, Result, ok, err, ◌>>=◌, ◌>>◌, guard, ◌≡◌, refl, ap, ◌∙◌,
}
use mathlib.Core.Path.{fun_ext}
use useful.Actions.Registry.{
  Entry, Registry, RegistryError, name_collision, handler_missing, handler_forbidden, names_of,
  is_some, is_ui_only, add_names, resolve, register, register_all,
}
use useful.Actions.Registry.Names.{find-add_names}

-- What a name leads to.
abbrev pub NameMap : Type 0 → Type 0
NameMap H = Text → Option (Entry H)

module _ {H : Type 0} where
  -- A handler is there just if the action runs headless.
  abbrev pub has_right_handler : Entry H → Bool
  has_right_handler entry =
      if is_ui_only entry.descriptor.mode
      then not (is_some entry.handler)
      else is_some entry.handler

  -- An entry may be put into a map if its names are distinct and free and its handler is right; each of its names
  -- then leads to it.
  abbrev pub insert : NameMap H → Entry H → Option (NameMap H)
  insert known entry =
      let names = names_of entry.descriptor in
      if all_distinct names
        && (not (any (λ name. is_some (known name)) names) && has_right_handler entry)
      then some (λ name. if contains names name then some entry else known name)
      else none

  abbrev pub insert_all : Option (NameMap H) → List (Entry H) → Option (NameMap H)
  insert_all none entries = none
  insert_all (some known) [] = some known
  insert_all (some known) (entry ∷ entries) = insert_all (insert known entry) entries

  -- The map that a registry stands for. It forgets the order of the entries and which error there was.
  abbrev pub to_map : Result RegistryError (Registry H) → Option (NameMap H)
  to_map (ok registry) = some (resolve registry)
  to_map (err e) = none

  resolve-add_names :
      (registry : Registry H) (entry : Entry H) (entries : List (Entry H))
      → resolve (record registry {
        entries = entries;
        names = add_names (names_of entry.descriptor) entry registry.names;
      })
        ≡ (λ name.
            if contains (names_of entry.descriptor) name then some entry else resolve registry name)
  unfolding resolve
  resolve-add_names registry entry entries =
      fun_ext (λ name. find-add_names name (names_of entry.descriptor) entry registry.names)

  -- What the guards of `register` come to.
  to_map-guards :
      (distinct taken only given : Bool) (after : Registry H) (known : NameMap H)
      → resolve after ≡ known
      → to_map (
          guard distinct name_collision
          >> (guard (not taken) name_collision
              >> (guard (only || given) handler_missing
                  >> (guard (not (only && given)) handler_forbidden >> ok after))))
        ≡ (if distinct && (not taken && (if only then not given else given))
            then some known
            else none)
  to_map-guards false taken only given after known h = refl
  to_map-guards true true only given after known h = refl
  to_map-guards true false true true after known h = refl
  to_map-guards true false true false after known h = ap some h
  to_map-guards true false false true after known h = ap some h
  to_map-guards true false false false after known h = refl

  register-insert :
      (registry : Registry H) (entry : Entry H)
      → to_map (register registry entry) ≡ insert (resolve registry) entry
  unfolding register resolve
  register-insert registry entry =
      to_map-guards (all_distinct (names_of entry.descriptor))
        (any (λ name. is_some (resolve registry name)) (names_of entry.descriptor))
        (is_ui_only entry.descriptor.mode) (is_some entry.handler) _ _
        (resolve-add_names registry entry (registry.entries ++ entry ∷ []))

  to_map-next :
      (r : Result RegistryError (Registry H)) (entries : List (Entry H))
      → ((registry : Registry H)
          → to_map (register_all registry entries) ≡ insert_all (some (resolve registry)) entries)
      → to_map (r >>= λ registry. register_all registry entries) ≡ insert_all (to_map r) entries
  to_map-next (ok registry) entries h = h registry
  to_map-next (err e) entries h = refl

  -- The registrations of the constructor do what the specification says: seen as a map from names to entries, the
  -- registry that comes out is the one in which each entry in turn is put under its names, and there is an error
  -- just when the specification refuses an entry, whose names are not distinct or not free or whose handler does
  -- not fit its mode.
  pub register_all-insert_all :
      (entries : List (Entry H)) (registry : Registry H)
      → to_map (register_all registry entries) ≡ insert_all (some (resolve registry)) entries
  unfolding register_all
  register_all-insert_all [] registry = refl
  register_all-insert_all (entry ∷ entries) registry =
      to_map-next (register registry entry) entries (register_all-insert_all entries)
      ∙ ap (λ known. insert_all known entries) (register-insert registry entry)
