-- ===== src/Util/Json/Access.antt =====
-- src/util/json.c: the handles into a document, and the walks along the children of a container. A
-- handle without a document is `none`; a walk is given one round more than there are nodes.
use molto.Base.{
  ◌-◌, ◌*◌, ◌^◌, leb, ℕ, zero, suc, ◌+◌, Bytes, Bool, true, false, ◌&&◌, ◌||◌, Option, none, some,
  List, [], ◌∷◌, ◌==◌, ltb, if◌then◌else◌, length, drop, bytes_eq,
}
use molto.Util.Json.Strings.{is_digit}
use molto.Util.Json.{
  peek, json_type_number, JsonType, Node, JsonDocument, Outcome, done, refused, unfinished, ◌>>=◌,
  node_at, json_type_invalid, json_type_bool, json_type_number, json_type_string, json_type_array,
  json_type_object,
}
pub mod Ends

abbrev pub JsonValue : Type 0
JsonValue = Option (JsonDocument × ℕ)

unfoldable pub node_of : JsonValue → Option Node
node_of none = none
node_of (some (doc, index)) =
    if ltb index (length doc.nodes) then some (node_at doc index) else none

unfoldable pub json_root : JsonDocument → JsonValue
json_root doc = if length doc.nodes == 0 then none else some (doc, 0)

abbrev type_of_node : Option Node → JsonType
type_of_node none = json_type_invalid
type_of_node (some node) = node.kind

unfoldable pub json_type_of : JsonValue → JsonType
json_type_of value = type_of_node (node_of value)

abbrev pub is_array : JsonType → Bool
is_array json_type_array = true
is_array _ = false

abbrev pub is_object : JsonType → Bool
is_object json_type_object = true
is_object _ = false

abbrev pub is_string : JsonType → Bool
is_string json_type_string = true
is_string _ = false

abbrev pub is_bool : JsonType → Bool
is_bool json_type_bool = true
is_bool _ = false

-- The C string at the start of some bytes.
unfoldable pub c_string : Bytes → Bytes
c_string [] = []
c_string (c ∷ s) = let rest = c_string s in if c == 0 then [] else c ∷ rest

abbrev pub text_at : JsonDocument → ℕ → Bytes
text_at doc offset = c_string (drop offset doc.text)

-- The loop along the siblings, `stop` the test on a position and a node's index.
unfoldable pub walk : ℕ → JsonDocument → (ℕ → ℕ → Bool) → ℕ → Option ℕ → Outcome (Option ℕ)
walk zero doc stop position next = unfinished
walk (suc n) doc stop position none = done none
walk (suc n) doc stop position (some i) = elim (stop position i) [
  | true ↦ done (some i)
  | false ↦ walk n doc stop (position + 1) ((node_at doc i).next_sibling)
]

abbrev pub walk_children : JsonDocument → (ℕ → ℕ → Bool) → Node → Outcome (Option ℕ)
walk_children doc stop node = walk (suc (length doc.nodes)) doc stop 0 node.first_child

-- The child of a container of a kind at which the test stops.
unfoldable pub find_child :
    (JsonType → Bool) → (JsonDocument → ℕ → ℕ → Bool) → JsonValue → Outcome (Option ℕ)
find_child kind stop none = done none
find_child kind stop (some (doc, index)) = elim (node_of (some (doc, index))) [
  | none ↦ done none
  | some node ↦ if kind node.kind then walk_children doc (stop doc) node else done none
]

-- `value_at` in the document of a handle.
abbrev pub value_at : JsonValue → Option ℕ → JsonValue
value_at (some (doc, _)) (some i) = some (doc, i)
value_at _ _ = none

unfoldable pub has_key : Bytes → JsonDocument → Option ℕ → Bool
has_key key doc none = false
has_key key doc (some offset) = bytes_eq (text_at doc offset) key

unfoldable pub json_get : JsonValue → Bytes → Outcome JsonValue
json_get object key =
    find_child is_object (λ doc position i. has_key key doc ((node_at doc i).key)) object
    >>= λ found. done (value_at object found)

unfoldable pub json_at : JsonValue → ℕ → Outcome JsonValue
json_at array index = find_child is_array (λ doc position i. position == index) array >>= λ found.
    done (value_at array found)

unfoldable pub member_index : JsonValue → ℕ → Outcome (Option ℕ)
member_index object index = find_child is_object (λ doc position i. position == index) object

unfoldable pub key_of : JsonValue → Option ℕ → Option Bytes
key_of (some (doc, _)) (some i) = elim ((node_at doc i).key) [
  | none ↦ none
  | some offset ↦ some (text_at doc offset)
]
key_of _ _ = none

unfoldable pub json_key_at : JsonValue → ℕ → Outcome (Option Bytes)
json_key_at object index = member_index object index >>= λ found. done (key_of object found)

unfoldable pub json_member_at : JsonValue → ℕ → Outcome JsonValue
json_member_at object index = member_index object index >>= λ found. done (value_at object found)

abbrev count_of : Option Node → ℕ
count_of none = 0
count_of (some node) = if is_array node.kind || is_object node.kind then node.child_count else 0

unfoldable pub json_count : JsonValue → ℕ
json_count value = count_of (node_of value)

abbrev string_of : JsonDocument → Option Node → Option Bytes
string_of doc none = none
string_of doc (some node) = elim node.text [
  | none ↦ none
  | some offset ↦ if is_string node.kind then some (text_at doc offset) else none
]

unfoldable pub json_string : JsonValue → Option Bytes
json_string none = none
json_string (some (doc, index)) = string_of doc (node_of (some (doc, index)))

abbrev bool_of : Option Node → Option Bool
bool_of none = none
bool_of (some node) = if is_bool node.kind then some node.boolean else none

unfoldable pub json_bool : JsonValue → Option Bool
json_bool value = bool_of (node_of value)

-- strtoll(3) on digits that end the text, most significant first; a character that is no digit
-- leaves the rest unread, which is refused.
unfoldable pub decimal_from : ℕ → Bytes → Option ℕ
decimal_from value [] = some value
decimal_from value (c ∷ s) =
    let rest = decimal_from (value * 10 + (c - b'0')) s in if is_digit c then rest else none

abbrev pub in_range : Bool → ℕ → Bool
in_range true magnitude = leb magnitude (2 ^ 63)
in_range false magnitude = ltb magnitude (2 ^ 63)

-- Whether there is a minus sign, and the digits' value where a `long long` has it.
unfoldable pub to_long : Bytes → Option (Bool × ℕ)
to_long text =
    let negative = peek text == b'-' in
    let digits = if negative then drop 1 text else text in
    if length digits == 0 then none else elim (decimal_from 0 digits) [
      | none ↦ none
      | some magnitude ↦ if in_range negative magnitude then some (negative, magnitude) else none
    ]

abbrev is_number : JsonType → Bool
is_number json_type_number = true
is_number _ = false

abbrev number_of : JsonDocument → Option Node → Option (Bool × ℕ)
number_of doc none = none
number_of doc (some node) = elim node.text [
  | none ↦ none
  | some offset ↦ if is_number node.kind then to_long (text_at doc offset) else none
]

unfoldable pub json_number : JsonValue → Option (Bool × ℕ)
json_number none = none
json_number (some (doc, index)) = number_of doc (node_of (some (doc, index)))
