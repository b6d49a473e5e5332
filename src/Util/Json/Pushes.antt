-- ===== src/Util/Json/Pushes.antt =====
-- src/util/json.c's strings: what reading one does to the cursor, the nodes and the text pool.
use molto.Base.{
  ℕ, zero, suc, ◌≤◌, ◌<◌, ◌≡◌, ◌≢◌, refl, Bytes, ◌&&◌, none, some, [], ◌∷◌, ◌++◌, ◌==◌, ltb, leb,
  if◌then◌else◌, arith, length, drop, get_or, length-append, length-drop, if_elim,
}
use molto.Util.Json.{Parser, Outcome, done, refused, unfinished, ◌>>=◌, peek, advance, push_byte}
use molto.Util.Json.Strings.{
  quote, backslash, hex_digits, read_hex4, push_utf8, surrogate, join_surrogates,
  parse_unicode_escape, escape_char, parse_escape, string_chars, parse_string,
}
use molto.Util.Json.Outcomes.{Ensures, Ensures-bind, Ensures-if, Ensures-map}

-- Bytes were read and pushed, and no node was touched.
pub record Pushes (start end : Parser) : Type 0 where
  pub shorter : length end.cursor ≤ length start.cursor
  pub same : end.doc.nodes ≡ start.doc.nodes
  pub longer : length start.doc.text ≤ length end.doc.text

pub Pushes-trans : (a b c : Parser) → Pushes a b → Pushes b c → Pushes a c
Pushes-trans a b c h k =
    let p = h.shorter in
    let q = k.shorter in
    let r = h.longer in
    let s = k.longer in
    record { shorter = omega arith; same = cc (h.same, k.same); longer = omega arith }

pub Pushes-advance : (n : ℕ) (s : Parser) → Pushes s (advance n s)
Pushes-advance n s = record {
  shorter = omega (arith, length-drop n s.cursor);
  same = refl;
  longer = omega arith;
}

pub Pushes-push_byte : (s : Parser) (c : ℕ) → Pushes s (push_byte s c)
unfolding push_byte
Pushes-push_byte s c = record {
  shorter = omega arith;
  same = refl;
  longer = omega (arith, length-append s.doc.text (c ∷ []));
}

pub Pushes-refl : (s : Parser) → Pushes s s
Pushes-refl s = record { shorter = omega arith; same = refl; longer = omega arith }

-- One byte more.
pub Pushes-then : (a b : Parser) (c : ℕ) → Pushes a b → Pushes a (push_byte b c)
Pushes-then a b c h = Pushes-trans a b (push_byte b c) h (Pushes-push_byte b c)

Pushes-push_utf8 : (s : Parser) (code : ℕ) → Pushes s (push_utf8 s code)
unfolding push_utf8
Pushes-push_utf8 s code = if_elim (Pushes s) (ltb code 0x80) _ _ (Pushes-push_byte s _) (
    if_elim (Pushes s) (ltb code 0x800) _ _ (Pushes-then s _ _ (Pushes-push_byte s _)) (
      if_elim (Pushes s) (ltb code 0x10000) _ _
        (Pushes-then s _ _ (Pushes-then s _ _ (Pushes-push_byte s _)))
        (Pushes-then s _ _ (Pushes-then s _ _ (Pushes-then s _ _ (Pushes-push_byte s _))))))

read_hex4-Pushes : (s : Parser) → Ensures (λ r. Pushes s (r.1)) (read_hex4 s)
unfolding read_hex4
read_hex4-Pushes s =
    elim (hex_digits 4 0 s.cursor)
      as (λ o.
        Ensures (λ (r : ℕ × Parser). Pushes s (r.1))
          (elim o [ none ↦ refused | some code ↦ done (code, advance 4 s) ])) [
            | none ↦ tt
            | some code ↦ Pushes-advance 4 s
          ]

surrogate-Pushes :
    (s rewind : Parser) (code : ℕ) (m : Outcome (ℕ × Parser))
    → Pushes s rewind
    → Ensures (λ r. Pushes s (r.1)) m
    → Pushes s ((surrogate code rewind m).1)
unfolding surrogate
surrogate-Pushes s rewind code (done (low, state)) h k =
    if_elim (λ (r : ℕ × Parser). Pushes s (r.1)) (leb 0xDC00 low && leb low 0xDFFF) _ _ k h
surrogate-Pushes s rewind code refused h k = h
surrogate-Pushes s rewind code unfinished h k = h

join_surrogates-Pushes :
    (s after : Parser) (code : ℕ) → Pushes s after → Pushes s ((join_surrogates code after).1)
unfolding join_surrogates
join_surrogates-Pushes s after code h =
    let low : Ensures (λ r. Pushes s (r.1)) (read_hex4 (advance 2 after)) =
      Ensures-map (λ r. Pushes (advance 2 after) (r.1)) (λ r. Pushes s (r.1)) _
        (read_hex4-Pushes (advance 2 after))
        λ r k.
          Pushes-trans s after _ h
            (Pushes-trans after (advance 2 after) _ (Pushes-advance 2 after) k) in
    if_elim (λ (r : ℕ × Parser). Pushes s (r.1)) _ _ _ (surrogate-Pushes s after code _ h low) h

parse_unicode_escape-Pushes : (s : Parser) → Ensures (Pushes s) (parse_unicode_escape s)
unfolding parse_unicode_escape
parse_unicode_escape-Pushes s =
    Ensures-bind (λ r. Pushes s (r.1)) (Pushes s) (read_hex4 s) _ (read_hex4-Pushes s)
      λ (code, after) h.
        Pushes-trans s _ _ (join_surrogates-Pushes s after code h) (Pushes-push_utf8 _ _)

escape_char-Pushes : (c : ℕ) (s : Parser) → Ensures (Pushes s) (escape_char c s)
unfolding escape_char
escape_char-Pushes c s = if_elim (Ensures (Pushes s)) (c == quote) _ _ (Pushes-push_byte s _) (
    if_elim (Ensures (Pushes s)) (c == backslash) _ _ (Pushes-push_byte s _) (
      if_elim (Ensures (Pushes s)) (c == b'/') _ _ (Pushes-push_byte s _) (
        if_elim (Ensures (Pushes s)) (c == b'b') _ _ (Pushes-push_byte s _) (
          if_elim (Ensures (Pushes s)) (c == b'f') _ _ (Pushes-push_byte s _) (
            if_elim (Ensures (Pushes s)) (c == b'n') _ _ (Pushes-push_byte s _) (
              if_elim (Ensures (Pushes s)) (c == b'r') _ _ (Pushes-push_byte s _) (
                if_elim (Ensures (Pushes s)) (c == b't') _ _ (Pushes-push_byte s _) (
                  if_elim (Ensures (Pushes s)) (c == b'u') _ _ (parse_unicode_escape-Pushes s)
                    tt))))))))

-- A round of the loop: one character, read and pushed.
one_char-Pushes :
    (s : Parser)
    → Ensures (Pushes (advance 1 s)) (
        if peek s.cursor == backslash
        then parse_escape (advance 1 s)
        else done (advance 1 (push_byte s (peek s.cursor))))
unfolding parse_escape push_byte
one_char-Pushes s =
    let pushed : Pushes (advance 1 s) (advance 1 (push_byte s (peek s.cursor))) = record {
      shorter = omega arith;
      same = refl;
      longer = omega (arith, length-append s.doc.text (peek s.cursor ∷ []));
    } in
    if_elim (Ensures (Pushes (advance 1 s))) (peek s.cursor == backslash) _
      (done (advance 1 (push_byte s (peek s.cursor))))
      (Ensures-map _ _ (parse_escape (advance 1 s)) (escape_char-Pushes _ (advance 1 (advance 1 s)))
        λ r h. Pushes-trans _ _ r (Pushes-advance 1 (advance 1 s)) h)
      pushed

-- A character below a limit that the terminator is not below is there to be read.
pub length-drop_one : (s : Bytes) → peek s ≢ 0 → length (drop 1 s) < length s
length-drop_one [] h = absurd (h refl)
length-drop_one (c ∷ s) h = omega arith

-- With more rounds than characters the loop ends, at a quote.
string_chars-Pushes :
    (n : ℕ) (s : Parser) → length s.cursor < n → Ensures (Pushes s) (string_chars n s)
unfolding string_chars
string_chars-Pushes zero s h = absurd (omega arith)
string_chars-Pushes (suc n) s h =
    Ensures-if (Pushes s) (peek s.cursor == quote) (done s) _ (λ _. Pushes-refl s)
      λ _.
        Ensures-if (Pushes s) (ltb (peek s.cursor) 0x20) refused _ (λ _. tt)
          λ printable.
            Ensures-bind (Pushes (advance 1 s)) (Pushes s) _ (string_chars n) (one_char-Pushes s)
              λ r k.
                let shorter = k.shorter in
                let fewer = length-drop_one s.cursor (λ e. absurd (ground (arith, e, printable))) in
                Ensures-map (Pushes r) (Pushes s) _ (string_chars-Pushes n r (omega arith)) λ end m.
                  Pushes-trans s (advance 1 s) end (Pushes-advance 1 s)
                    (Pushes-trans (advance 1 s) r end k m)

-- A pool that has bytes ends with a terminator.
abbrev pub IsTerminated : Bytes → Type 0
IsTerminated text = (n : ℕ) → length text ≡ suc n → get_or text n 1 ≡ 0

get_or-append_last : (xs : Bytes) (c d : ℕ) → get_or (xs ++ (c ∷ [])) (length xs) d ≡ c
get_or-append_last [] c d = refl
get_or-append_last (x ∷ xs) c d = get_or-append_last xs c d

pub IsTerminated-append : (xs : Bytes) → IsTerminated (xs ++ (0 ∷ []))
IsTerminated-append xs n e =
    let at : n ≡ length xs = omega (arith, length-append xs (0 ∷ [])) in
    rw at (get_or-append_last xs 0 1)

-- A text was read into the pool: at the offset there are bytes, and the pool ends with its end.
pub record TextRead (start : Parser) (offset : ℕ) (end : Parser) : Type 0 where
  pub shorter : length end.cursor ≤ length start.cursor
  pub same : end.doc.nodes ≡ start.doc.nodes
  pub longer : length start.doc.text ≤ length end.doc.text
  pub inside : offset < length end.doc.text
  pub terminated : IsTerminated end.doc.text

pub parse_string-TextRead :
    (s : Parser) → Ensures (λ (r : ℕ × Parser). TextRead s (r.0) (r.1)) (parse_string s)
unfolding parse_string push_byte
parse_string-TextRead s =
    Ensures-if (λ (r : ℕ × Parser). TextRead s (r.0) (r.1)) (peek s.cursor == quote)
      (string_chars (length s.cursor) (advance 1 s) >>= λ end.
        done (length s.doc.text, push_byte (advance 1 end) 0))
      refused
      (λ quoted.
        let fewer = length-drop_one s.cursor (λ e. absurd (ground (arith, e, quoted))) in
        Ensures-bind (Pushes (advance 1 s)) (λ (r : ℕ × Parser). TextRead s (r.0) (r.1)) _ _
          (string_chars-Pushes (length s.cursor) (advance 1 s) fewer)
          λ end h.
            let shorter = h.shorter in
            let longer = h.longer in
            record {
              shorter = omega (arith, length-drop 1 end.cursor);
              same = h.same;
              longer = omega (arith, length-append end.doc.text (0 ∷ []));
              inside = omega (arith, length-append end.doc.text (0 ∷ []));
              terminated = IsTerminated-append end.doc.text;
            })
      λ _. tt
