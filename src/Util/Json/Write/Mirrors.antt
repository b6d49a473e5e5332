-- ===== src/Util/Json/Write/Mirrors.antt =====
-- src/util/json_write.c: the calls of a writer into a buffer and of one into a stream.
use molto.Base.{
  ℕ, zero, suc, ◌+◌, ◌-◌, ◌≡◌, refl, sym, subst, Bytes, Bool, true, false, ◌&&◌, Option, none, some,
  List, [], ◌∷◌, ltb, leb, if◌then◌else◌, arith, length, set, take,
}
use molto.Util.Json.Write.{
  JsonSink, JsonWriter, sink_putc, sink_puts, open_container, close_container, write_indent,
  put_key, mark_current_used, current_is_empty, begin_value, json_write_field, json_write_raw,
  json_writer_finish, Call, call, json_object_open, json_array_open, json_object_close,
  json_array_close, finish, field, raw, run_calls, json_writer_init, json_writer_init_buffer,
  json_write_max_depth, string_to_sink, with_sink,
}
use molto.Util.Json.Write.Buffered.{
  Follows, Follows-sink_putc, Follows-sink_puts, Follows-string_to_sink,
}

-- Two writers at the same place of a document, which differ in their sinks alone.
abbrev Mirrors : ℕ → JsonWriter → JsonWriter → Type 0
Mirrors size v w = Follows size v.sink w.sink × (w ≡ with_sink v w.sink)

-- What a step of the writer does with any buffer's sink in place of its stream's.
abbrev IsStep : ℕ → (JsonWriter → JsonWriter) → Type 0
IsStep size f =
    (v : JsonWriter) (b : JsonSink) → Follows size v.sink b → Mirrors size (f v) (f (with_sink v b))

IsStep-apply :
    (size : ℕ) (f : JsonWriter → JsonWriter)
    → IsStep size f
    → (v w : JsonWriter) → Mirrors size v w
    → Mirrors size (f v) (f w)
IsStep-apply size f step v w (h, e) =
    subst (λ x. Mirrors size (f v) (f x)) (sym e) (step v w.sink h)

-- One step after another.
IsStep-then :
    (size : ℕ) (f g : JsonWriter → JsonWriter)
    → IsStep size f
    → IsStep size g
    → IsStep size (λ w. g (f w))
IsStep-then size f g hf hg v b h = IsStep-apply size g hg (f v) (f (with_sink v b)) (hf v b h)

mark_current_used-IsStep : (size : ℕ) → IsStep size mark_current_used
unfolding mark_current_used
mark_current_used-IsStep size v b h =
    elim (ltb 0 v.depth && ltb v.depth json_write_max_depth)
      as (λ t. Mirrors size (if t then record v { empty = set v.empty v.depth false } else v) (
        if t
        then record (with_sink v b) { empty = set v.empty v.depth false }
        else with_sink v b)) [ true ↦ (h, refl) | false ↦ (h, refl) ]

write_indent-IsStep : (size : ℕ) → IsStep size write_indent
unfolding write_indent
write_indent-IsStep size v b h =
    (Follows-sink_puts size _ _ _ (Follows-sink_putc size 10 v.sink b h), refl)

put_key-IsStep : (size : ℕ) (key : Option Bytes) → IsStep size (λ w. put_key w key)
put_key-IsStep size none v b h = (h, refl)
put_key-IsStep size (some key) v b h =
    (Follows-sink_puts size _ _ _ (Follows-string_to_sink size key v.sink b h), refl)

-- A step that is taken or not, by a test that does not look at the sink.
IsStep-if :
    (size : ℕ) (test : JsonWriter → Bool) (f : JsonWriter → JsonWriter)
    → ((v : JsonWriter) (b : JsonSink) → test (with_sink v b) ≡ test v)
    → IsStep size f
    → IsStep size (λ w. if test w then f w else w)
IsStep-if size test f same step v b h =
    subst
      (λ t.
        Mirrors size (if test v then f v else v) (if t then f (with_sink v b) else with_sink v b))
      (sym (same v b)) (taken (test v))
  where
    taken :
        (t : Bool)
        → Mirrors size (if t then f v else v) (if t then f (with_sink v b) else with_sink v b)
    taken true = step v b h
    taken false = (h, refl)

begin_value-IsStep : (size : ℕ) (key : Option Bytes) → IsStep size (λ w. begin_value w key)
unfolding begin_value
begin_value-IsStep size key =
    let separate : JsonWriter → JsonWriter =
      λ w. if w.pending_comma then with_sink w (sink_putc w.sink b',') else w in
    let indent : JsonWriter → JsonWriter = λ w. if ltb 0 w.depth then write_indent w else w in
    let separated : IsStep size separate =
      IsStep-if size (λ w. w.pending_comma) (λ w. with_sink w (sink_putc w.sink b',')) (λ v b. refl)
        λ v b h. (Follows-sink_putc size b',' v.sink b h, refl) in
    let indented : IsStep size indent =
      IsStep-if size (λ w. ltb 0 w.depth) write_indent (λ v b. refl) (write_indent-IsStep size) in
    IsStep-then size (λ w. mark_current_used (indent (separate w))) (λ w. put_key w key)
      (IsStep-then size (λ w. indent (separate w)) mark_current_used
        (IsStep-then size separate indent separated indented) (mark_current_used-IsStep size))
      (put_key-IsStep size key)

open_container-IsStep :
    (size : ℕ) (key : Option Bytes) (bracket : ℕ) → IsStep size (λ w. open_container w key bracket)
unfolding open_container
open_container-IsStep size key bracket =
    let enter : JsonWriter → JsonWriter = λ w. record {
      sink = sink_putc w.sink bracket;
      depth = w.depth + 1;
      pending_comma = false;
      empty =
          if ltb (w.depth + 1) json_write_max_depth
          then set w.empty (w.depth + 1) true
          else w.empty;
    } in
    IsStep-then size (λ w. begin_value w key) enter (begin_value-IsStep size key)
      λ v b h. (Follows-sink_putc size bracket v.sink b h, refl)

close_container-IsStep : (size bracket : ℕ) → IsStep size (λ w. close_container w bracket)
unfolding close_container current_is_empty
close_container-IsStep size bracket v b h =
    let leave : JsonWriter → JsonWriter =
      λ w. if ltb 0 w.depth then record w { depth = w.depth - 1 } else w in
    let place : Bool → JsonWriter → JsonWriter = λ t w. if t then w else write_indent w in
    let finish : JsonWriter → JsonWriter =
      λ w. record w { sink = sink_putc w.sink bracket; pending_comma = true } in
    let left : IsStep size leave =
      IsStep-if size (λ w. ltb 0 w.depth) (λ w. record w { depth = w.depth - 1 }) (λ v b. refl)
        λ v b h. (h, refl) in
    IsStep-then size (λ w. place (current_is_empty v) (leave w)) finish
      (IsStep-then size leave (place (current_is_empty v)) left (placed (current_is_empty v)))
      (λ v b h. (Follows-sink_putc size bracket v.sink b h, refl)) v b h
  where
    placed : (t : Bool) → IsStep size (λ w. if t then w else write_indent w)
    placed true v b h = (h, refl)
    placed false v b h = write_indent-IsStep size v b h

call-IsStep : (size : ℕ) (c : Call) → IsStep size (λ w. call w c)
unfolding call json_write_field json_write_raw json_writer_finish
call-IsStep size (json_object_open key) = open_container-IsStep size key b'{'
call-IsStep size (json_array_open key) = open_container-IsStep size key b'['
call-IsStep size json_object_close = close_container-IsStep size b'}'
call-IsStep size json_array_close = close_container-IsStep size b']'
call-IsStep size finish = λ v b h. (Follows-sink_putc size 10 v.sink b h, refl)
call-IsStep size (field key value) =
    IsStep-then size (λ w. begin_value w key)
      (λ w. record w { sink = string_to_sink w.sink value; pending_comma = true })
      (begin_value-IsStep size key) λ v b h. (Follows-string_to_sink size value v.sink b h, refl)
call-IsStep size (raw key literal) =
    IsStep-then size (λ w. begin_value w key)
      (λ w. record w { sink = sink_puts w.sink literal; pending_comma = true })
      (begin_value-IsStep size key) λ v b h. (Follows-sink_puts size literal v.sink b h, refl)

run_calls-Mirrors :
    (size : ℕ) (calls : List Call) (v w : JsonWriter)
    → Mirrors size v w
    → Mirrors size (run_calls v calls) (run_calls w calls)
unfolding run_calls
run_calls-Mirrors size [] v w h = h
run_calls-Mirrors size (c ∷ calls) v w h =
    run_calls-Mirrors size calls (call v c) (call w c)
      (IsStep-apply size (λ w. call w c) (call-IsStep size c) v w h)

-- After any calls, the buffer of `size` bytes holds the first `size - 1` of the bytes that a stream
-- is given by the same calls, and it is marked as overflowed just when those bytes and a terminator
-- do not fit in it.
pub run_calls-buffer :
    (size : ℕ) (calls : List Call)
    → let stream = (run_calls json_writer_init calls).sink in
      let buffer = (run_calls (json_writer_init_buffer size) calls).sink in
      (buffer.written ≡ take (size - 1) stream.written)
      × (buffer.overflow ≡ leb size (length stream.written))
unfolding json_writer_init json_writer_init_buffer
run_calls-buffer size calls =
    let start : Follows size json_writer_init.sink (json_writer_init_buffer size).sink = record {
      streaming = refl;
      buffered = refl;
      sized = refl;
      prefix = sym (take_nil (size - 1));
      flagged = ground arith;
    } in
    let (h, e) =
      run_calls-Mirrors size calls json_writer_init (json_writer_init_buffer size) (start, refl) in
    (h.prefix, h.flagged)
  where
    take_nil : (n : ℕ) → take {A = ℕ} n [] ≡ []
    take_nil zero = refl
    take_nil (suc n) = refl
