-- ===== src/Util/Json/Values.antt =====
-- src/util/json.c: numbers, words, arrays, objects and whole documents. The levels of nesting still
-- open to a value stand in place of the depth, `JSON_MAX_DEPTH` less it.
use molto.Base.{
  ℕ, zero, suc, ◌-◌, Bytes, Bool, true, false, ◌||◌, Option, none, some, [], ◌∷◌, ◌++◌, ◌==◌,
  if◌then◌else◌, length, take, drop, codes,
}
use molto.Util.Json.{
  JsonType, JsonDocument, Parser, Outcome, done, refused, unfinished, ◌>>=◌, peek, advance,
  add_node, modify, append_child, json_type_null, json_type_bool, json_type_number,
  json_type_string, json_type_array, json_type_object,
}
use molto.Util.Json.Strings.{is_digit, quote, parse_string}

abbrev pub json_max_depth : ℕ
json_max_depth = 64

unfoldable pub skip_blanks : Bytes → Bytes
skip_blanks [] = []
skip_blanks (c ∷ s) =
    let rest = skip_blanks s in if c == b' ' || c == 9 || c == 10 || c == 13 then rest else c ∷ s

unfoldable pub skip_whitespace : Parser → Parser
skip_whitespace state = record state { cursor = skip_blanks state.cursor }

unfoldable pub skip_digits : Bytes → Bytes
skip_digits [] = []
skip_digits (c ∷ s) = let rest = skip_digits s in if is_digit c then rest else c ∷ s

-- One digit or more.
unfoldable pub some_digits : Bytes → Option Bytes
some_digits s = if is_digit (peek s) then some (skip_digits s) else none

-- An optional character.
unfoldable pub skip_one : Bool → Bytes → Bytes
skip_one here s = if here then drop 1 s else s

unfoldable pub skip_integer : Bytes → Option Bytes
skip_integer s = if peek s == b'0' then some (drop 1 s) else some_digits s

unfoldable pub skip_fraction : Bytes → Option Bytes
skip_fraction s = if peek s == b'.' then some_digits (drop 1 s) else some s

unfoldable pub skip_exponent : Bytes → Option Bytes
skip_exponent s =
    if peek s == b'e' || peek s == b'E'
    then some_digits (skip_one (peek (drop 1 s) == b'+' || peek (drop 1 s) == b'-') (drop 1 s))
    else some s

-- The text after the number at the start of a text.
unfoldable pub number_end : Bytes → Option Bytes
number_end s = elim (skip_integer (skip_one (peek s == b'-') s)) [
  | none ↦ none
  | some integer ↦ elim (skip_fraction integer) [
    | none ↦ none
    | some fraction ↦ skip_exponent fraction
  ]
]

unfoldable pub parse_number : Parser → Outcome (ℕ × Parser)
parse_number state =
    let start = state.cursor in
    elim (number_end start) [
      | none ↦ refused
      | some end ↦ done (
        length state.doc.text,
        record {
          cursor = end;
          doc = record state.doc {
            text = state.doc.text ++ take (length start - length end) start ++ (0 ∷ []);
          };
        },
      )
    ]

-- `strncmp`, and the text after the word.
unfoldable pub after_word : Bytes → Bytes → Option Bytes
after_word [] s = some s
after_word (w ∷ word) [] = none
after_word (w ∷ word) (c ∷ s) = let rest = after_word word s in if w == c then rest else none

unfoldable pub match_literal : Bytes → Parser → Outcome Parser
match_literal word state = elim (after_word word state.cursor) [
  | none ↦ refused
  | some rest ↦ done (record state { cursor = rest })
]

unfoldable pub add_leaf : JsonType → Option ℕ → Parser → ℕ × Parser
add_leaf kind text state =
    let (node, doc) = add_node state.doc kind in
    (
      node,
      record state {
        doc = record doc { nodes = modify doc.nodes node λ n. record n { text = text } };
      },
    )

unfoldable pub add_bool : Bool → Parser → ℕ × Parser
add_bool value state =
    let (node, doc) = add_node state.doc json_type_bool in
    (
      node,
      record state {
        doc = record doc { nodes = modify doc.nodes node λ n. record n { boolean = value } };
      },
    )

-- What reads the value at the cursor.
abbrev pub Reader : Type 0
Reader = Parser → Outcome (ℕ × Parser)

abbrev pub with_child : ℕ → ℕ → Parser → Parser
with_child parent child state = record state { doc = append_child state.doc parent child }

unfoldable pub array_elements : Reader → ℕ → ℕ → Reader
array_elements read zero array state = unfinished
array_elements read (suc n) array state = read state >>= λ (element, after).
    let next = skip_whitespace (with_child array element after) in
    elim (peek next.cursor == b',') [
      | true ↦ array_elements read n array (advance 1 next)
      | false ↦ if peek next.cursor == b']' then done (array, advance 1 next) else refused
    ]

unfoldable pub parse_array : Reader → ℕ → Reader
parse_array read rounds state =
    let (array, doc) = add_node state.doc json_type_array in
    let inside = skip_whitespace (advance 1 (record state { doc = doc })) in
    if peek inside.cursor == b']'
    then done (array, advance 1 inside)
    else array_elements read rounds array inside

abbrev pub with_key : ℕ → ℕ → Parser → Parser
with_key child key state = record state {
  doc = record state.doc { nodes = modify state.doc.nodes child λ n. record n { key = some key } };
}

unfoldable pub parse_member : Reader → ℕ → Parser → Outcome Parser
parse_member read object state = parse_string (skip_whitespace state) >>= λ (key, named).
    let colon = skip_whitespace named in
    if peek colon.cursor == b':'
    then (read (advance 1 colon) >>= λ (value, after).
        done (with_child object value (with_key value key after)))
    else refused

unfoldable pub object_members : Reader → ℕ → ℕ → Reader
object_members read zero object state = unfinished
object_members read (suc n) object state = parse_member read object state >>= λ after.
    let next = skip_whitespace after in
    elim (peek next.cursor == b',') [
      | true ↦ object_members read n object (advance 1 next)
      | false ↦ if peek next.cursor == b'}' then done (object, advance 1 next) else refused
    ]

unfoldable pub parse_object : Reader → ℕ → Reader
parse_object read rounds state =
    let (object, doc) = add_node state.doc json_type_object in
    let inside = skip_whitespace (advance 1 (record state { doc = doc })) in
    if peek inside.cursor == b'}'
    then done (object, advance 1 inside)
    else object_members read rounds object inside

-- The switch on the character at the cursor.
unfoldable pub value_by_char : Reader → ℕ → ℕ → Reader
value_by_char read rounds c state =
    if c == b'{'
    then parse_object read rounds state
    else if c == b'['
    then parse_array read rounds state
    else if c == quote
    then (parse_string state >>= λ (text, after).
        done (add_leaf json_type_string (some text) after))
    else if c == b't'
    then (match_literal (codes "true") state >>= λ after. done (add_bool true after))
    else if c == b'f'
    then (match_literal (codes "false") state >>= λ after. done (add_bool false after))
    else if c == b'n'
    then (match_literal (codes "null") state >>= λ after. done (add_leaf json_type_null none after))
    else (parse_number state >>= λ (text, after).
        done (add_leaf json_type_number (some text) after))

unfoldable pub parse_value : ℕ → ℕ → Reader
parse_value zero rounds state = refused
parse_value (suc room) rounds state =
    let here = skip_whitespace state in
    value_by_char (parse_value room rounds) rounds (peek here.cursor) here

-- Each round of a list reads a character at least, so one more than the text's length is enough.
unfoldable pub json_parse : Bytes → Outcome JsonDocument
json_parse text =
    parse_value json_max_depth (suc (length text))
      (record { cursor = text; doc = record { nodes = []; text = [] } })
    >>= λ (root, state).
        if peek (skip_whitespace state).cursor == 0 then done state.doc else refused
