-- ===== src/Util/Json/Strings.antt =====
-- src/util/json.c: the escapes of a string, and a string read into the text pool.
use molto.Base.{
  ℕ, zero, suc, ◌+◌, ◌-◌, ◌*◌, ◌/◌, ◌%◌, Bytes, Bool, ◌&&◌, Option, none, some, [], ◌∷◌, ◌==◌, ltb,
  leb, if◌then◌else◌, length, get_or,
}
use molto.Util.Json.{Parser, Outcome, done, refused, unfinished, ◌>>=◌, peek, advance, push_byte}

abbrev pub quote : ℕ
quote = b'"'

abbrev pub backslash : ℕ
backslash = 92

unfoldable pub is_digit : ℕ → Bool
is_digit c = leb b'0' c && leb c b'9'

-- The value of one hex digit.
unfoldable pub hex_digit : ℕ → Option ℕ
hex_digit c =
    if is_digit c
    then some (c - b'0')
    else if leb b'a' c && leb c b'f'
    then some (c - b'a' + 10)
    else if leb b'A' c && leb c b'F'
    then some (c - b'A' + 10)
    else none

-- The digits at the cursor, most significant first: each has the value before it times 16 added.
unfoldable pub hex_digits : ℕ → ℕ → Bytes → Option ℕ
hex_digits zero value s = some value
hex_digits (suc n) value [] = none
hex_digits (suc n) value (c ∷ s) = elim (hex_digit c) [
  | none ↦ none
  | some digit ↦ hex_digits n (value * 16 + digit) s
]

unfoldable pub read_hex4 : Parser → Outcome (ℕ × Parser)
read_hex4 state = elim (hex_digits 4 0 state.cursor) [
  | none ↦ refused
  | some code ↦ done (code, advance 4 state)
]

-- The ranges of bits a sequence is made of do not overlap: `|` on them is `+`.
unfoldable pub push_utf8 : Parser → ℕ → Parser
push_utf8 state code =
    if ltb code 0x80
    then push_byte state code
    else if ltb code 0x800
    then push_byte (push_byte state (0xC0 + code / 0x40)) (0x80 + code % 0x40)
    else if ltb code 0x10000
    then push_byte (push_byte (push_byte state (0xE0 + code / 0x1000)) (0x80 + code / 0x40 % 0x40))
        (0x80 + code % 0x40)
    else push_byte
        (push_byte
          (push_byte (push_byte state (0xF0 + code / 0x40000)) (0x80 + code / 0x1000 % 0x40))
          (0x80 + code / 0x40 % 0x40))
        (0x80 + code % 0x40)

-- The low half after a high one, or the high one alone and the cursor put back after it.
unfoldable pub surrogate : ℕ → Parser → Outcome (ℕ × Parser) → ℕ × Parser
surrogate code rewind (done (low, state)) =
    if leb 0xDC00 low && leb low 0xDFFF
    then (0x10000 + (code - 0xD800) * 0x400 + (low - 0xDC00), state)
    else (code, rewind)
surrogate code rewind _ = (code, rewind)

-- The code point a first escape stands for, with the low surrogate that may follow it.
unfoldable pub join_surrogates : ℕ → Parser → ℕ × Parser
join_surrogates code after =
    let paired =
      leb 0xD800 code
      && leb code 0xDBFF
      && peek after.cursor == backslash
      && get_or after.cursor 1 0 == b'u' in
    if paired then surrogate code after (read_hex4 (advance 2 after)) else (code, after)

abbrev pub push_code : ℕ × Parser → Parser
push_code (code, state) = push_utf8 state code

unfoldable pub parse_unicode_escape : Parser → Outcome Parser
parse_unicode_escape state =
    read_hex4 state >>= λ (code, after). done (push_code (join_surrogates code after))

-- The character after the backslash has been read: the escape it selects.
unfoldable pub escape_char : ℕ → Parser → Outcome Parser
escape_char escape state =
    if escape == quote
    then done (push_byte state quote)
    else if escape == backslash
    then done (push_byte state backslash)
    else if escape == b'/'
    then done (push_byte state b'/')
    else if escape == b'b'
    then done (push_byte state 8)
    else if escape == b'f'
    then done (push_byte state 12)
    else if escape == b'n'
    then done (push_byte state 10)
    else if escape == b'r'
    then done (push_byte state 13)
    else if escape == b't'
    then done (push_byte state 9)
    else if escape == b'u'
    then parse_unicode_escape state
    else refused

unfoldable pub parse_escape : Parser → Outcome Parser
parse_escape state = escape_char (peek state.cursor) (advance 1 state)

-- The rounds of the loop over a string's characters, up to its closing quote.
unfoldable pub string_chars : ℕ → Parser → Outcome Parser
string_chars zero state = unfinished
string_chars (suc n) state =
    let c = peek state.cursor in
    let one =
      if c == backslash
      then parse_escape (advance 1 state)
      else done (advance 1 (push_byte state c)) in
    let rest = one >>= string_chars n in
    if c == quote then done state else if ltb c 0x20 then refused else rest

-- The offset in the pool, and the state after the closing quote.
unfoldable pub parse_string : Parser → Outcome (ℕ × Parser)
parse_string state =
    if peek state.cursor == quote
    then (string_chars (length state.cursor) (advance 1 state) >>= λ end.
        done (length state.doc.text, push_byte (advance 1 end) 0))
    else refused
