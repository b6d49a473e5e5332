-- ===== src/Util/Json/Write/RoundTrip.antt =====
-- src/util/json_write.c and src/util/json.c: a text that is written as a JSON string is read back.
use molto.Base.{
  ℕ, zero, suc, ◌≤◌, ◌<◌, ◌≡◌, sym, ap, ◌∙◌, Bytes, [], ◌∷◌, ◌++◌, append_assoc, append-nil, arith,
  length, length-append,
}
use molto.Util.Json.{JsonDocument, Parser, done, ◌>>=◌, advance, push_byte}
use molto.Util.Json.Strings.{quote, string_chars, parse_string}
use molto.Util.Json.Write.{
  JsonSink, sink_putc, sink_puts, written_char, put_chars, string_to_sink, stream_sink,
}
use molto.Util.Json.Write.Chars.{at_text, written_char-ReadsBack}

written_text : Bytes → Bytes
written_text [] = []
written_text (c ∷ s) = written_char c ++ written_text s

string_chars-written_text :
    (s : Bytes) (n : ℕ) (rest : Bytes) (doc : JsonDocument)
    → length s < n
    → string_chars n (at_text (written_text s ++ quote ∷ rest) doc)
      ≡ done (at_text (quote ∷ rest) (record doc { text = doc.text ++ s }))
unfolding string_chars written_text
string_chars-written_text s zero rest doc h = absurd (omega arith)
string_chars-written_text [] (suc n) rest doc h =
    ap (λ t. done (at_text (quote ∷ rest) (record doc { text = t }))) (sym (append-nil doc.text))
string_chars-written_text (c ∷ s) (suc n) rest doc h =
    let longer : JsonDocument = record doc { text = doc.text ++ (c ∷ []) } in
    ap (λ t. string_chars (suc n) (at_text t doc))
      (append_assoc (written_char c) (written_text s) (quote ∷ rest))
    ∙ written_char-ReadsBack c n (written_text s ++ quote ∷ rest) doc
    ∙ string_chars-written_text s n rest longer (omega arith)
    ∙ ap (λ t. done (at_text (quote ∷ rest) (record doc { text = t })))
        (append_assoc doc.text (c ∷ []) s)

-- A stream is given the bytes it is given.
puts_stream :
    (text written : Bytes)
    → sink_puts (record stream_sink { written = written }) text
      ≡ record stream_sink { written = written ++ text }
unfolding sink_puts sink_putc
puts_stream [] written = ap (λ w. record stream_sink { written = w }) (sym (append-nil written))
puts_stream (c ∷ text) written =
    puts_stream text (written ++ (c ∷ []))
    ∙ ap (λ w. record stream_sink { written = w }) (append_assoc written (c ∷ []) text)

put_chars_stream :
    (text written : Bytes)
    → put_chars (record stream_sink { written = written }) text
      ≡ record stream_sink { written = written ++ written_text text }
unfolding put_chars written_text
put_chars_stream [] written =
    ap (λ w. record stream_sink { written = w }) (sym (append-nil written))
put_chars_stream (c ∷ text) written =
    ap (λ sink. put_chars sink text) (puts_stream (written_char c) written)
    ∙ put_chars_stream text (written ++ written_char c)
    ∙ ap (λ w. record stream_sink { written = w })
        (append_assoc written (written_char c) (written_text text))

written_string :
    (s : Bytes) → (string_to_sink stream_sink s).written ≡ (quote ∷ written_text s) ++ (quote ∷ [])
unfolding string_to_sink sink_putc
written_string s =
    ap (λ (sink : JsonSink). (sink_putc sink quote).written) (put_chars_stream s (quote ∷ []))

length-written_char_pos : (c : ℕ) → 0 < length (written_char c)
unfolding written_char
length-written_char_pos c = ground arith

length-le-written_text : (s : Bytes) → length s ≤ length (written_text s)
unfolding written_text
length-le-written_text [] = omega arith
length-le-written_text (c ∷ s) = omega (
  arith,
  length-append (written_char c) (written_text s),
  length-written_char_pos c,
  length-le-written_text s,
)

-- A text that is written as a JSON string, with any text after it, is read back: the reader stops
-- right after the closing quote, and the pool has the text's own bytes and a terminator added, at
-- the offset that is handed back.
pub parse_string-string_to_sink :
    (s rest : Bytes) (doc : JsonDocument)
    → parse_string (at_text ((string_to_sink stream_sink s).written ++ rest) doc)
      ≡ done (length doc.text, at_text rest (record doc { text = doc.text ++ s ++ (0 ∷ []) }))
unfolding parse_string push_byte
parse_string-string_to_sink s rest doc =
    let body = written_text s ++ quote ∷ rest in
    let whole : (string_to_sink stream_sink s).written ++ rest ≡ quote ∷ body =
      ap (λ w. w ++ rest) (written_string s)
      ∙ ap (◌∷◌ quote) (append_assoc (written_text s) (quote ∷ []) rest) in
    let fits : length s < length (quote ∷ body) =
      omega (arith, length-append (written_text s) (quote ∷ rest), length-le-written_text s) in
    ap (λ t. parse_string (at_text t doc)) whole
    ∙ ap (λ m. m >>= λ (end : Parser). done (length doc.text, push_byte (advance 1 end) 0))
        (string_chars-written_text s (length (quote ∷ body)) rest doc fits)
