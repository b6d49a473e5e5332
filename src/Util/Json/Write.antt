-- ===== src/Util/Json/Write.antt =====
-- src/util/json_write.c: the sink, a stream or a buffer of a size, and the writer that keeps the
-- brackets, the commas and the indentation of a document.
use molto.Base.{
  ℕ, zero, suc, ◌+◌, ◌-◌, ◌*◌, ◌/◌, ◌%◌, Bytes, Bool, true, false, ◌&&◌, Option, none, some, List,
  [], ◌∷◌, ◌++◌, ◌==◌, ltb, leb, if◌then◌else◌, length, get_or, set, replicate, codes,
}
use molto.Util.Json.Strings.{quote, backslash}
pub mod Chars
pub mod RoundTrip
pub mod Buffered
pub mod Mirrors

abbrev pub json_write_max_depth : ℕ
json_write_max_depth = 64

abbrev pub indent_width : ℕ
indent_width = 2

-- What was written, to a stream or into a buffer of `size` bytes, its terminator left out.
pub record JsonSink : Type 0 where
  pub streaming : Bool
  pub size : ℕ
  pub written : Bytes
  pub overflow : Bool

pub record JsonWriter : Type 0 where
  pub sink : JsonSink
  pub depth : ℕ
  pub pending_comma : Bool
  pub empty : List Bool

unfoldable pub sink_putc : JsonSink → ℕ → JsonSink
sink_putc sink c =
    if sink.streaming
    then record sink { written = sink.written ++ (c ∷ []) }
    else if leb sink.size (length sink.written + 1)
    then record sink { overflow = true }
    else record sink { written = sink.written ++ (c ∷ []) }

unfoldable pub sink_puts : JsonSink → Bytes → JsonSink
sink_puts sink [] = sink
sink_puts sink (c ∷ text) = sink_puts (sink_putc sink c) text

-- The digits of `%04x`.
unfoldable pub hex_char : ℕ → ℕ
hex_char digit = if ltb digit 10 then b'0' + digit else b'a' + (digit - 10)

abbrev pub escape_code : ℕ → Bytes
escape_code value =
    backslash
    ∷ b'u'
    ∷ hex_char (value / 0x1000 % 16)
    ∷ hex_char (value / 0x100 % 16)
    ∷ hex_char (value / 0x10 % 16)
    ∷ hex_char (value % 16)
    ∷ []

-- What one character of a text is written as.
unfoldable pub written_char : ℕ → Bytes
written_char c =
    if c == quote
    then backslash ∷ quote ∷ []
    else if c == backslash
    then backslash ∷ backslash ∷ []
    else if c == 10
    then backslash ∷ b'n' ∷ []
    else if c == 13
    then backslash ∷ b'r' ∷ []
    else if c == 9
    then backslash ∷ b't' ∷ []
    else if ltb c 0x20
    then escape_code c
    else c ∷ []

unfoldable pub put_chars : JsonSink → Bytes → JsonSink
put_chars sink [] = sink
put_chars sink (c ∷ text) = put_chars (sink_puts sink (written_char c)) text

unfoldable pub string_to_sink : JsonSink → Bytes → JsonSink
string_to_sink sink text = sink_putc (put_chars (sink_putc sink quote) text) quote

abbrev pub stream_sink : JsonSink
stream_sink = record { streaming = true; size = 0; written = []; overflow = false }

abbrev buffer_sink : ℕ → JsonSink
buffer_sink size = record { streaming = false; size = size; written = []; overflow = size == 0 }

-- `empty` has a place for each level; only the first is set.
abbrev new_writer : JsonSink → JsonWriter
new_writer sink = record {
  sink = sink;
  depth = 0;
  pending_comma = false;
  empty = replicate json_write_max_depth true;
}

unfoldable pub json_writer_init : JsonWriter
json_writer_init = new_writer stream_sink

unfoldable pub json_writer_init_buffer : ℕ → JsonWriter
json_writer_init_buffer size = new_writer (buffer_sink size)

unfoldable pub json_writer_overflowed : JsonWriter → Bool
json_writer_overflowed writer = writer.sink.overflow

abbrev pub with_sink : JsonWriter → JsonSink → JsonWriter
with_sink writer sink = record writer { sink = sink }

unfoldable pub json_writer_finish : JsonWriter → JsonWriter
json_writer_finish writer = with_sink writer (sink_putc writer.sink 10)

unfoldable pub current_is_empty : JsonWriter → Bool
current_is_empty writer =
    if ltb writer.depth json_write_max_depth then get_or writer.empty writer.depth false else false

unfoldable pub mark_current_used : JsonWriter → JsonWriter
mark_current_used writer =
    if ltb 0 writer.depth && ltb writer.depth json_write_max_depth
    then record writer { empty = set writer.empty writer.depth false }
    else writer

unfoldable pub write_indent : JsonWriter → JsonWriter
write_indent writer =
    with_sink writer
      (sink_puts (sink_putc writer.sink 10) (replicate (writer.depth * indent_width) b' '))

abbrev pub put_key : JsonWriter → Option Bytes → JsonWriter
put_key writer none = writer
put_key writer (some key) =
    with_sink writer (sink_puts (string_to_sink writer.sink key) (codes ": "))

unfoldable pub begin_value : JsonWriter → Option Bytes → JsonWriter
begin_value writer key =
    let separated =
      if writer.pending_comma then with_sink writer (sink_putc writer.sink b',') else writer in
    let placed = if ltb 0 separated.depth then write_indent separated else separated in
    put_key (mark_current_used placed) key

unfoldable pub open_container : JsonWriter → Option Bytes → ℕ → JsonWriter
open_container writer key bracket =
    let begun = begin_value writer key in
    let depth = begun.depth + 1 in
    record {
      sink = sink_putc begun.sink bracket;
      depth = depth;
      pending_comma = false;
      empty = if ltb depth json_write_max_depth then set begun.empty depth true else begun.empty;
    }

unfoldable pub close_container : JsonWriter → ℕ → JsonWriter
close_container writer bracket =
    let was_empty = current_is_empty writer in
    let shallower =
      if ltb 0 writer.depth then record writer { depth = writer.depth - 1 } else writer in
    let placed = if was_empty then shallower else write_indent shallower in
    record placed { sink = sink_putc placed.sink bracket; pending_comma = true }

unfoldable pub json_write_field : JsonWriter → Option Bytes → Bytes → JsonWriter
json_write_field writer key value =
    let begun = begin_value writer key in
    record begun { sink = string_to_sink begun.sink value; pending_comma = true }

unfoldable pub json_write_raw : JsonWriter → Option Bytes → Bytes → JsonWriter
json_write_raw writer key literal =
    let begun = begin_value writer key in
    record begun { sink = sink_puts begun.sink literal; pending_comma = true }

-- The calls a caller makes, in order. An element is a field without a key.
pub data Call : Type 0 where
  json_object_open json_array_open : Option Bytes → Call
  json_object_close json_array_close finish : Call
  field : Option Bytes → Bytes → Call
  raw : Option Bytes → Bytes → Call

unfoldable pub call : JsonWriter → Call → JsonWriter
call writer (json_object_open key) = open_container writer key b'{'
call writer (json_array_open key) = open_container writer key b'['
call writer json_object_close = close_container writer b'}'
call writer json_array_close = close_container writer b']'
call writer finish = json_writer_finish writer
call writer (field key value) = json_write_field writer key value
call writer (raw key literal) = json_write_raw writer key literal

unfoldable pub run_calls : JsonWriter → List Call → JsonWriter
run_calls writer [] = writer
run_calls writer (c ∷ calls) = run_calls (call writer c) calls
