-- ===== src/Util/Json/Write/Buffered.antt =====
-- src/util/json_write.c: a buffer holds the start of what a stream of the same calls is given.
use molto.Base.{
  ℕ, zero, suc, ◌+◌, ◌-◌, ◌≤◌, ◌<◌, ◌≡◌, refl, sym, ap, Bytes, true, false, [], ◌∷◌, ◌++◌, leb,
  arith, length, length-append, take, le-cases, le→leb, lt→not-leb, length-take, min, ◌∙◌, inl, inr,
  take-append_le,
}
use molto.Util.Json.Write.{
  JsonSink, sink_putc, sink_puts, written_char, put_chars, string_to_sink, quote,
}

-- The sinks of a stream and of a buffer that were given the same characters.
pub record Follows (size : ℕ) (stream buffer : JsonSink) : Type 0 where
  pub streaming : stream.streaming ≡ true
  pub buffered : buffer.streaming ≡ false
  pub sized : buffer.size ≡ size
  pub prefix : buffer.written ≡ take (size - 1) stream.written
  pub flagged : buffer.overflow ≡ leb size (length stream.written)

take_whole : (n : ℕ) (xs : Bytes) → length xs ≤ n → take n xs ≡ xs
take_whole zero [] h = refl
take_whole zero (x ∷ xs) h = absurd (omega arith)
take_whole (suc n) [] h = refl
take_whole (suc n) (x ∷ xs) h = ap (◌∷◌ x) (take_whole n xs (omega arith))

putc_stream :
    (s : JsonSink) (c : ℕ)
    → s.streaming ≡ true
    → sink_putc s c ≡ record s { written = s.written ++ (c ∷ []) }
unfolding sink_putc
putc_stream s c h = rw h

putc_full :
    (b : JsonSink) (c : ℕ)
    → b.streaming ≡ false
    → b.size ≤ length b.written + 1
    → sink_putc b c ≡ record b { overflow = true }
unfolding sink_putc
putc_full b c h l = rw (h, le→leb b.size (length b.written + 1) l)

putc_room :
    (b : JsonSink) (c : ℕ)
    → b.streaming ≡ false
    → length b.written + 1 < b.size
    → sink_putc b c ≡ record b { written = b.written ++ (c ∷ []) }
unfolding sink_putc
putc_room b c h l = rw (h, lt→not-leb b.size (length b.written + 1) l)

pub Follows-sink_putc :
    (size c : ℕ) (s b : JsonSink) → Follows size s b → Follows size (sink_putc s c) (sink_putc b c)
Follows-sink_putc size c s b h =
    let held : length b.written ≡ min (size - 1) (length s.written) =
      ap (length {A = ℕ}) h.prefix ∙ length-take (size - 1) s.written in
    let sized = h.sized in
    let more = length-append s.written (c ∷ []) in
    elim (le-cases (size - 1) (length s.written)) [
      | inl full ↦
          rw (putc_stream s c h.streaming, putc_full b c h.buffered (omega arith))
            (record {
              streaming = h.streaming;
              buffered = h.buffered;
              sized = h.sized;
              prefix = h.prefix ∙ sym (take-append_le (size - 1) s.written (c ∷ []) full);
              flagged = sym (le→leb size _ (omega arith));
            })
      | inr room ↦
          let whole : b.written ≡ s.written =
            h.prefix ∙ take_whole (size - 1) s.written (omega arith) in
          rw (putc_stream s c h.streaming, putc_room b c h.buffered (omega arith))
            (record {
              streaming = h.streaming;
              buffered = h.buffered;
              sized = h.sized;
              prefix =
                  ap (λ w. w ++ (c ∷ [])) whole
                  ∙ sym (take_whole (size - 1) (s.written ++ (c ∷ [])) (omega arith));
              flagged =
                  h.flagged
                  ∙ lt→not-leb size (length s.written) (omega arith)
                  ∙ sym (lt→not-leb size _ (omega arith));
            })
    ]

pub Follows-sink_puts :
    (size : ℕ) (text : Bytes) (s b : JsonSink)
    → Follows size s b
    → Follows size (sink_puts s text) (sink_puts b text)
unfolding sink_puts
Follows-sink_puts size [] s b h = h
Follows-sink_puts size (c ∷ text) s b h =
    Follows-sink_puts size text (sink_putc s c) (sink_putc b c) (Follows-sink_putc size c s b h)

Follows-put_chars :
    (size : ℕ) (text : Bytes) (s b : JsonSink)
    → Follows size s b
    → Follows size (put_chars s text) (put_chars b text)
unfolding put_chars
Follows-put_chars size [] s b h = h
Follows-put_chars size (c ∷ text) s b h =
    Follows-put_chars size text _ _ (Follows-sink_puts size (written_char c) s b h)

pub Follows-string_to_sink :
    (size : ℕ) (text : Bytes) (s b : JsonSink)
    → Follows size s b
    → Follows size (string_to_sink s text) (string_to_sink b text)
unfolding string_to_sink
Follows-string_to_sink size text s b h =
    Follows-sink_putc size quote _ _
      (Follows-put_chars size text _ _ (Follows-sink_putc size quote s b h))
