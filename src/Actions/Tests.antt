-- ===== src/Actions/Tests.antt =====
-- The handlers and the registry of packages/action-runtime/src on concrete inputs.
use useful.Common.{
  ◌/◌, ◌^◌, ◌↔◌, ℕ, ◌-◌, ◌≤◌, ◌<◌, true, List, [], ◌∷◌, some, Text, codes, length, All, text_eq,
  contains, ok, err, ◌≡◌, refl, arith, all_distinct,
}
use useful.Js.Value.{undefined, lookup, has_key}
use useful.Js.Json.{is_finite}
use useful.Js.Show.{show_nat}
use useful.ComputerUse.Address.V4.{prepend}
use useful.Actions.Base.{Code}
use useful.Actions.Diff.{Record, context, remove, add, build_diff_records}
use useful.Actions.Diff.Hunks.{diff_hunks}
use useful.Actions.Diff.Replay.{old_lines, new_lines, number_after, build_diff_records-lines}
use useful.Actions.Diff.Optimal.{Sublines, kept, build_diff_records-kept}
use useful.Actions.Diff.Cover.{changed, hunks_changed, diff_hunks-changed}
use useful.Actions.Diff.Numbers.{Agrees, diff_hunks-Agrees}
use useful.Actions.Ipv4.{Address, Cidr, parse_address, parse_cidr, check_contains, format_ipv4}
use useful.ComputerUse.Address.V4.Literal.{join_dots}
use useful.Actions.Ipv4.Networks.{parse_cidr-contains}
use useful.Actions.Ipv4.Spelling.{parse_address-format_ipv4, parse_address-format}
use useful.Actions.Contract.{validate_value}
use useful.Actions.Contract.Shape.{json_types}
use useful.Actions.Contract.Plain.{IsPlain, validate_value-IsPlain}
use useful.Actions.Registry.{resolve, Entry, Registry, register_all, add_names, find}
use useful.Actions.Registry.Refines.{to_map, insert_all, register_all-insert_all}
use useful.Actions.Registry.Names.{IsConsistent, register_all-empty_IsConsistent}
use useful.Actions.Samples.{text_schema, text_value, no_less, action}
use useful.Actions.Query.Pages.{follow, follow-all}

abbrev old_text : List Text
old_text = codes "a" ∷ codes "b" ∷ codes "c" ∷ []

abbrev new_text : List Text
new_text = codes "a" ∷ codes "c" ∷ codes "d" ∷ []

abbrev sample : List Record
sample =
    context (codes "a") 1 1
    ∷ remove (codes "b") 2
    ∷ context (codes "c") 3 2
    ∷ add (codes "d") 3
    ∷ []

diff_runs : build_diff_records old_text new_text ≡ ok sample
unfolding build_diff_records text_eq
diff_runs = refl

build_diff_records-lines_example :
    (old_lines sample ≡ number_after 0 old_text) × (new_lines sample ≡ number_after 0 new_text)
build_diff_records-lines_example = build_diff_records-lines old_text new_text sample diff_runs

build_diff_records-kept_example :
    Sublines (kept sample) old_text
    × Sublines (kept sample) new_text
    × ((zs : List Text)
        → Sublines zs old_text
        → Sublines zs new_text
        → length zs ≤ length (kept sample))
build_diff_records-kept_example = build_diff_records-kept old_text new_text sample diff_runs

diff_hunks-changed_example : hunks_changed (diff_hunks sample 0) ≡ changed sample
diff_hunks-changed_example = diff_hunks-changed sample 0

diff_hunks-Agrees_example : All (Agrees old_text new_text) (diff_hunks sample 1)
diff_hunks-Agrees_example = diff_hunks-Agrees old_text new_text sample 1 diff_runs

two_hunks : length (diff_hunks sample 0) ≡ 2
unfolding diff_hunks
two_hunks = refl

abbrev network : Cidr
network = record {
  address = record { text = codes "10.1.2.3"; value = 167838211 };
  prefix_length = 8;
  size = 16777216;
  network_value = 167772160;
  broadcast_value = 184549375;
}

abbrev outside : Address
outside = record { text = codes "11.0.0.0"; value = 184549376 }

network_read : parse_cidr true (codes "10.1.2.3/8") ≡ ok network
unfolding parse_cidr parse_address join_dots show_nat prepend
network_read = refl

parse_cidr-contains_example :
    (network.size ≡ 2 ^ (32 - network.prefix_length))
    × (network.prefix_length ≤ 32)
    × (((check_contains network outside).contains ≡ true)
        ↔ (outside.value / network.size ≡ network.address.value / network.size))
parse_cidr-contains_example =
    parse_cidr-contains true (codes "10.1.2.3/8") network outside network_read

parse_address-format_ipv4_example :
    parse_address (format_ipv4 3232235777)
    ≡ ok (record { text = format_ipv4 3232235777; value = 3232235777 })
parse_address-format_ipv4_example = parse_address-format_ipv4 3232235777 (omega arith)

address_read : parse_address (codes "11.0.0.0") ≡ ok outside
unfolding parse_address join_dots show_nat prepend
address_read = refl

parse_address-format_example :
    (outside.text ≡ codes "11.0.0.0")
    × (format_ipv4 outside.value ≡ codes "11.0.0.0")
    × (outside.value < 2 ^ 32)
parse_address-format_example = parse_address-format (codes "11.0.0.0") outside address_read

leading_zero : parse_address (codes "192.168.001.1") ≡ err Code.input_invalid
unfolding parse_address prepend
leading_zero = refl

value_valid : validate_value no_less text_schema text_value ≡ []
unfolding validate_value json_types contains has_key lookup is_finite
value_valid = refl

validate_value-IsPlain_example : IsPlain text_schema text_value
validate_value-IsPlain_example = validate_value-IsPlain no_less text_schema text_value value_valid

abbrev first_action : Entry ℕ
first_action = record { descriptor = action (codes "a.x") (codes "x" ∷ []); handler = some 1 }

abbrev second_action : Entry ℕ
second_action = record { descriptor = action (codes "a.y") []; handler = some 2 }

abbrev both_actions : Registry ℕ
both_actions = record {
  entries = first_action ∷ second_action ∷ [];
  names =
      (codes "a.y", second_action) ∷ (codes "a.x", first_action) ∷ (codes "x", first_action) ∷ [];
  by_registration = true;
}

registered :
    register_all
      (record { entries = []; names = []; by_registration = true })
      (first_action ∷ second_action ∷ [])
    ≡ ok both_actions
unfolding register_all all_distinct contains text_eq add_names find
registered = refl

register_all-empty_IsConsistent_example : IsConsistent both_actions
register_all-empty_IsConsistent_example =
    register_all-empty_IsConsistent true (first_action ∷ second_action ∷ []) both_actions registered

register_all-insert_all_example :
    to_map (
      register_all
        (record { entries = []; names = []; by_registration = true })
        (first_action ∷ first_action ∷ []))
    ≡ insert_all
        (some (resolve (record { entries = []; names = []; by_registration = true })))
        (first_action ∷ first_action ∷ [])
register_all-insert_all_example =
    register_all-insert_all (first_action ∷ first_action ∷ [])
      (record { entries = []; names = []; by_registration = true })

follow-all_example :
    follow (first_action.descriptor ∷ second_action.descriptor ∷ []) 1 3 undefined
    ≡ some (first_action.descriptor ∷ second_action.descriptor ∷ [])
follow-all_example =
    follow-all (first_action.descriptor ∷ second_action.descriptor ∷ []) 1 (omega arith)
      (omega arith)
