-- ===== src/Actions/Ipv4.antt =====
-- packages/action-runtime/src/utility-actions.mjs: `ipv4Handler`, the reader of addresses and networks.
pub mod Networks
pub mod Spelling
use useful.Common.{
  ◌/◌, ◌%◌, ◌^◌, is_digit, ◌*◌, ℕ, ◌+◌, ◌-◌, Bool, true, false, not, ◌&&◌, ◌||◌, List, [], ◌∷◌,
  ◌++◌, map, Text, length, all, ltb, leb, ◌==◌, if◌then◌else◌, Result, ok, err, ◌>>=◌, ◌>>◌, guard,
  require,
}
use useful.Js.Value.{Value, as_text, get, is_text}
use useful.Js.Show.{show_nat}
use useful.ComputerUse.Address.V4.{split, number_from}
use useful.ComputerUse.Address.V4.Literal.{join_dots}
use useful.Actions.Base.{Code, input_invalid, assert_exact_object}

-- `/^(?:0|[1-9]\d{0,2})$/`.
unfoldable pub is_part : Text → Bool
is_part [] = false
is_part (c ∷ t) =
    (c == b'0' && ltb (length t) 1)
    || (leb b'1' c && leb c b'9' && leb (length t) 2 && all is_digit t)

pub record Address : Type 0 where
  pub text : Text
  pub value : ℕ

-- `octets.reduce((result, octet) => result * 256 + octet, 0)`.
unfoldable pub combine : ℕ → List ℕ → ℕ
combine result [] = result
combine result (octet ∷ octets) = combine (result * 256 + octet) octets

unfoldable pub parse_parts : List Text → Result Code Address
unfolding number_from is_part combine
parse_parts parts = do
  guard (length parts == 4 && all (λ part. is_part part && leb (number_from 0 part) 255) parts)
      input_invalid
  let octets = map (number_from 0) parts
  ok (record { text = join_dots (map show_nat octets); value = combine 0 octets })

unfoldable pub parse_address : Text → Result Code Address
unfolding split parse_parts
parse_address value = guard (leb (length value) 15) input_invalid >> parse_parts (split b'.' value)

-- `/^(?:[0-9]|[12]\d|3[0-2])$/`.
unfoldable pub is_prefix : Text → Bool
is_prefix (a ∷ []) = is_digit a
is_prefix (a ∷ b ∷ []) =
    ((a == b'1' || a == b'2') && is_digit b) || (a == b'3' && leb b'0' b && leb b b'2')
is_prefix _ = false

pub record Cidr : Type 0 where
  pub address : Address
  pub prefix_length : ℕ
  pub size : ℕ
  pub network_value : ℕ
  pub broadcast_value : ℕ

abbrev to_cidr : Address → ℕ → Cidr
to_cidr address prefix_length =
    let size = 2 ^ (32 - prefix_length) in
    let network_value = address.value / size * size in
    record {
      address = address;
      prefix_length = prefix_length;
      size = size;
      network_value = network_value;
      broadcast_value = network_value + size - 1;
    }

-- The parts of the text at its slash: an address alone has the prefix length 32.
unfoldable pub read_cidr : Bool → List Text → Result Code Cidr
unfolding parse_address is_prefix number_from
read_cidr require_prefix (first ∷ []) = do
  guard (not require_prefix) input_invalid
  address ← parse_address first
  ok (to_cidr address 32)
read_cidr require_prefix (first ∷ prefix ∷ []) = do
  address ← parse_address first
  guard (is_prefix prefix) input_invalid
  ok (to_cidr address (number_from 0 prefix))
read_cidr require_prefix _ = err input_invalid

unfoldable pub parse_cidr : Bool → Text → Result Code Cidr
unfolding read_cidr split
parse_cidr require_prefix value = read_cidr require_prefix (split b'/' value)

unfoldable pub format_ipv4 : ℕ → Text
unfolding join_dots
format_ipv4 value =
    join_dots (map (λ shift. show_nat (value / 2 ^ shift % 256)) (24 ∷ 16 ∷ 8 ∷ 0 ∷ []))

pub record Inspection : Type 0 where
  pub input : Text
  pub address : Text
  pub prefix_length : ℕ
  pub network : Text
  pub broadcast : Text
  pub total_addresses : ℕ
  pub is_private : Bool
  pub is_loopback : Bool
  pub is_multicast : Bool

pub record Containment : Type 0 where
  pub cidr : Text
  pub address : Text
  pub contains : Bool

-- `firstAddress` and `lastAddress` are `network` and `broadcast` again.
pub data Answer : Type 0 where
  inspected : Inspection → Answer
  contained : Containment → Answer

unfoldable pub inspect : Text → Cidr → Inspection
unfolding format_ipv4
inspect input parsed =
    let value = parsed.address.value in
    record {
      input = input;
      address = parsed.address.text;
      prefix_length = parsed.prefix_length;
      network = format_ipv4 parsed.network_value;
      broadcast = format_ipv4 parsed.broadcast_value;
      total_addresses = parsed.size;
      is_private = value / 2 ^ 24 == 10 || value / 2 ^ 20 == 0xac1 || value / 2 ^ 16 == 0xc0a8;
      is_loopback = value / 2 ^ 24 == 127;
      is_multicast = value / 2 ^ 28 == 14;
    }

unfoldable pub check_contains : Cidr → Address → Containment
unfolding format_ipv4 show_nat
check_contains cidr address = record {
  cidr = format_ipv4 cidr.network_value ++ b'/' ∷ show_nat cidr.prefix_length;
  address = address.text;
  contains = leb cidr.network_value address.value && leb address.value cidr.broadcast_value;
}

unfoldable pub inspect_request : Value → Result Code Answer
unfolding assert_exact_object get parse_cidr inspect
inspect_request input = do
  assert_exact_object input ("operation" ∷ "value" ∷ []) []
  value ← require (as_text (get "value" input)) input_invalid
  parsed ← parse_cidr false value
  ok (inspected (inspect value parsed))

unfoldable pub contains_request : Value → Result Code Answer
unfolding assert_exact_object get parse_cidr parse_address check_contains
contains_request input = do
  assert_exact_object input ("operation" ∷ "cidr" ∷ "address" ∷ []) []
  network ← require (as_text (get "cidr" input)) input_invalid
  cidr ← parse_cidr true network
  text ← require (as_text (get "address" input)) input_invalid
  address ← parse_address text
  ok (contained (check_contains cidr address))

unfoldable pub ipv4_handler : Value → Result Code Answer
unfolding inspect_request contains_request get
ipv4_handler input =
    if is_text "inspect" (get "operation" input)
    then inspect_request input
    else if is_text "contains" (get "operation" input)
    then contains_request input
    else err input_invalid
