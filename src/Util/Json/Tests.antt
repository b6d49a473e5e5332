-- ===== src/Util/Json/Tests.antt =====
-- Small documents of src/util/json.c.
use molto.Base.{
  true, false, ◌≢◌, ◌++◌, ◌-◌, Bytes, [], ◌∷◌, some, none, arith, replicate, take, leb, List, ℕ,
  ◌≡◌, refl, length, codes,
}
use molto.Util.Json.Outcomes.{Ensures}
use molto.Util.Json.Reads.Whole.{IsReadable, json_parse-IsReadable}
use molto.Util.Json.Access.{to_long, decimal_from, json_get, json_at, json_key_at, json_member_at}
use molto.Util.Json.Access.Ends.{json_lookups-IsFinished}
use molto.Util.Json.Nesting.{json_parse-nested}
use molto.Util.Json.Write.{
  string_to_sink, put_chars, sink_puts, sink_putc, written_char, hex_char, stream_sink, Call,
  json_object_open, field, json_object_close, finish, run_calls, json_writer_init,
  json_writer_init_buffer,
}
use molto.Util.Json.Write.Chars.{at_text}
use molto.Util.Json.Write.RoundTrip.{parse_string-string_to_sink}
use molto.Util.Json.Write.Mirrors.{run_calls-buffer}
use molto.Util.Json.{JsonDocument, Outcome, done, refused, unfinished}
use molto.Util.Json.Strings.{parse_string, string_chars, parse_escape, escape_char, is_digit}
use molto.Util.Json.{add_node, append_child, push_byte}
use molto.Util.Json.Values.{
  json_parse, parse_value, value_by_char, parse_object, parse_array, object_members, array_elements,
  parse_member, parse_number, number_end, skip_integer, skip_fraction, skip_exponent, skip_one,
  some_digits, skip_digits, match_literal, after_word, add_leaf, add_bool, skip_whitespace,
  skip_blanks,
}

abbrev tally : Outcome JsonDocument → Outcome (ℕ × ℕ)
tally (done doc) = done (length doc.nodes, length doc.text)
tally refused = refused
tally unfinished = unfinished

json_parse_nested :
    tally (json_parse (codes "{\"a\": [1, true, \"x\\n\"], \"b\": {}}")) ≡ done (6, 9)
unfolding json_parse parse_value value_by_char parse_object parse_array object_members
    array_elements parse_member parse_string string_chars parse_escape escape_char parse_number
    number_end skip_integer skip_fraction skip_exponent skip_one some_digits skip_digits is_digit
    match_literal after_word add_leaf add_bool add_node append_child skip_whitespace skip_blanks
    push_byte
json_parse_nested = refl

json_parse_trailing : tally (json_parse (codes "[] ]")) ≡ refused
unfolding json_parse parse_value value_by_char parse_object parse_array object_members
    array_elements parse_member parse_string string_chars parse_escape escape_char parse_number
    number_end skip_integer skip_fraction skip_exponent skip_one some_digits skip_digits is_digit
    match_literal after_word add_leaf add_bool add_node append_child skip_whitespace skip_blanks
    push_byte
json_parse_trailing = refl

-- The document `[1, {"k": null}]`.
abbrev listed : Bytes
listed = codes "[1, {\"k\": null}]"

abbrev listed_doc : JsonDocument
listed_doc = elim (json_parse listed) [ done doc ↦ doc | _ ↦ record { nodes = []; text = [] } ]

listed_doc_lem : json_parse listed ≡ done listed_doc
unfolding json_parse parse_value value_by_char parse_object parse_array object_members
    array_elements parse_member parse_string string_chars parse_escape escape_char parse_number
    number_end skip_integer skip_fraction skip_exponent skip_one some_digits skip_digits is_digit
    match_literal after_word add_leaf add_bool add_node append_child skip_whitespace skip_blanks
    push_byte
listed_doc_lem = refl

json_parse-IsReadable_example : Ensures IsReadable (json_parse listed)
json_parse-IsReadable_example = json_parse-IsReadable listed

json_lookups-IsFinished_example :
    (json_get (some (listed_doc, 2)) (codes "k") ≢ unfinished)
    × (json_at (some (listed_doc, 2)) 0 ≢ unfinished)
    × (json_key_at (some (listed_doc, 2)) 0 ≢ unfinished)
    × (json_member_at (some (listed_doc, 2)) 0 ≢ unfinished)
json_lookups-IsFinished_example =
    json_lookups-IsFinished listed listed_doc 2 0 (codes "k") listed_doc_lem

json_parse-nested_example : json_parse (replicate 65 b'[' ++ codes "1]") ≡ refused
json_parse-nested_example = json_parse-nested 65 (codes "1]") (omega arith)

-- A quote, a line feed and a control character.
abbrev odd_text : Bytes
odd_text = b'a' ∷ b'"' ∷ 10 ∷ 1 ∷ []

odd_text_written : (string_to_sink stream_sink odd_text).written ≡ codes "\"a\\\"\\n\\u0001\""
unfolding string_to_sink put_chars sink_puts sink_putc written_char hex_char
odd_text_written = refl

parse_string-string_to_sink_example :
    parse_string (
      at_text
        ((string_to_sink stream_sink odd_text).written ++ codes ", 1")
        (record { nodes = []; text = codes "k" }))
    ≡ done (
      length (codes "k"),
      at_text (codes ", 1") (record { nodes = []; text = codes "k" ++ odd_text ++ (0 ∷ []) }),
    )
parse_string-string_to_sink_example =
    parse_string-string_to_sink odd_text (codes ", 1") (record { nodes = []; text = codes "k" })

-- `{"k": "v"}` over three lines.
abbrev one_field : List Call
one_field =
    json_object_open none ∷ field (some (codes "k")) (codes "v") ∷ json_object_close ∷ finish ∷ []

run_calls-buffer_example :
    ((run_calls (json_writer_init_buffer 9) one_field).sink.written
      ≡ take (9 - 1) (run_calls json_writer_init one_field).sink.written)
    × ((run_calls (json_writer_init_buffer 9) one_field).sink.overflow
        ≡ leb 9 (length (run_calls json_writer_init one_field).sink.written))
run_calls-buffer_example = run_calls-buffer 9 one_field

-- The largest `long long`, the next number, and a fraction.
to_long_limits :
    (to_long (codes "9223372036854775807") ≡ some (false, 9223372036854775807))
    × (to_long (codes "9223372036854775808") ≡ none)
    × (to_long (codes "-9223372036854775808") ≡ some (true, 9223372036854775808))
    × (to_long (codes "1.5") ≡ none)
unfolding to_long decimal_from is_digit
to_long_limits = (refl, refl, refl, refl)
