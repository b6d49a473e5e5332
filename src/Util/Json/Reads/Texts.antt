-- ===== src/Util/Json/Reads/Texts.antt =====
-- src/util/json.c's numbers and words: what reading one does to the cursor and the text pool.
use molto.Base.{
  ℕ, ◌+◌, ◌-◌, ◌≤◌, ◌≡◌, refl, Bytes, Bool, true, false, ◌||◌, Option, none, some, [], ◌∷◌, ◌++◌,
  ◌==◌, if_elim, arith, length, take, drop, length-append, length-drop,
}
use molto.Util.Json.{Parser, done, refused, peek}
use molto.Util.Json.Outcomes.{Ensures}
use molto.Util.Json.Pushes.{IsTerminated-append, TextRead}
use molto.Util.Json.Strings.{is_digit}
use molto.Util.Json.Values.{
  skip_digits, some_digits, skip_one, skip_integer, skip_fraction, skip_exponent, number_end,
  parse_number, after_word, match_literal,
}

-- A text read from an option is no longer than the one it was read from.
abbrev NoLonger : Bytes → Option Bytes → Type 0
NoLonger s none = Unit
NoLonger s (some end) = length end ≤ length s

NoLonger-mono : (s t : Bytes) (o : Option Bytes) → length t ≤ length s → NoLonger t o → NoLonger s o
NoLonger-mono s t none h k = tt
NoLonger-mono s t (some end) h k = omega arith

length-skip_digits : (s : Bytes) → length (skip_digits s) ≤ length s
unfolding skip_digits
length-skip_digits [] = omega arith
length-skip_digits (c ∷ s) = ground (arith, length-skip_digits s)

some_digits-NoLonger : (s : Bytes) → NoLonger s (some_digits s)
unfolding some_digits
some_digits-NoLonger s =
    if_elim (NoLonger s) (is_digit (peek s)) (some (skip_digits s)) none (length-skip_digits s) tt

length-skip_one : (b : Bool) (s : Bytes) → length (skip_one b s) ≤ length s
unfolding skip_one
length-skip_one true s = omega (arith, length-drop 1 s)
length-skip_one false s = omega arith

skip_integer-NoLonger : (s : Bytes) → NoLonger s (skip_integer s)
unfolding skip_integer
skip_integer-NoLonger s =
    if_elim (NoLonger s) (peek s == b'0') (some (drop 1 s)) (some_digits s)
      (omega (arith, length-drop 1 s)) (some_digits-NoLonger s)

skip_fraction-NoLonger : (s : Bytes) → NoLonger s (skip_fraction s)
unfolding skip_fraction
skip_fraction-NoLonger s =
    if_elim (NoLonger s) (peek s == b'.') (some_digits (drop 1 s)) (some s)
      (NoLonger-mono s (drop 1 s) _ (omega (arith, length-drop 1 s))
        (some_digits-NoLonger (drop 1 s)))
      (omega arith)

skip_exponent-NoLonger : (s : Bytes) → NoLonger s (skip_exponent s)
unfolding skip_exponent
skip_exponent-NoLonger s =
    let rest = skip_one (peek (drop 1 s) == b'+' || peek (drop 1 s) == b'-') (drop 1 s) in
    if_elim (NoLonger s) (peek s == b'e' || peek s == b'E') (some_digits rest) (some s)
      (NoLonger-mono s rest _
        (omega (
          arith,
          length-drop 1 s,
          length-skip_one (peek (drop 1 s) == b'+' || peek (drop 1 s) == b'-') (drop 1 s),
        ))
        (some_digits-NoLonger rest))
      (omega arith)

-- One step of a number after another.
NoLonger-step :
    (s : Bytes) (o : Option Bytes) (f : Bytes → Option Bytes)
    → NoLonger s o
    → ((t : Bytes) → NoLonger t (f t))
    → NoLonger s (elim o [ none ↦ none | some t ↦ f t ])
NoLonger-step s none f h k = tt
NoLonger-step s (some t) f h k = NoLonger-mono s t (f t) h (k t)

number_end-NoLonger : (s : Bytes) → NoLonger s (number_end s)
unfolding number_end
number_end-NoLonger s =
    let unsigned = skip_one (peek s == b'-') s in
    NoLonger-mono s unsigned _ (length-skip_one (peek s == b'-') s) (
      NoLonger-step unsigned (skip_integer unsigned) _ (skip_integer-NoLonger unsigned) λ t.
        NoLonger-step t (skip_fraction t) skip_exponent (skip_fraction-NoLonger t)
          skip_exponent-NoLonger)

pub parse_number-TextRead :
    (s : Parser) → Ensures (λ (r : ℕ × Parser). TextRead s (r.0) (r.1)) (parse_number s)
unfolding parse_number
parse_number-TextRead s = copied (number_end s.cursor) (number_end-NoLonger s.cursor)
  where
    copied :
        (o : Option Bytes)
        → NoLonger s.cursor o
        → Ensures
            (λ (r : ℕ × Parser). TextRead s (r.0) (r.1))
            (elim o [
              | none ↦ refused
              | some end ↦ done (
                length s.doc.text,
                record {
                  cursor = end;
                  doc = record s.doc {
                    text = s.doc.text ++ take (length s.cursor - length end) s.cursor ++ (0 ∷ []);
                  };
                },
              )
            ])
    copied none h = tt
    copied (some end) h =
        let number = take (length s.cursor - length end) s.cursor in
        let size : length (s.doc.text ++ number ++ (0 ∷ []))
            ≡ length s.doc.text + length number + 1 =
          omega (
            arith,
            length-append s.doc.text number,
            length-append (s.doc.text ++ number) (0 ∷ []),
          ) in
        record {
          shorter = h;
          same = refl;
          longer = omega arith;
          inside = omega arith;
          terminated = IsTerminated-append (s.doc.text ++ number);
        }

length-after_word : (word s : Bytes) → NoLonger s (after_word word s)
unfolding after_word
length-after_word [] s = omega arith
length-after_word (w ∷ word) [] = tt
length-after_word (w ∷ word) (c ∷ s) =
    if_elim (NoLonger (c ∷ s)) (w == c) (after_word word s) none
      (NoLonger-mono (c ∷ s) s (after_word word s) (omega arith) (length-after_word word s)) tt

-- A word was passed, and nothing was added.
abbrev pub WordRead : Parser → Parser → Type 0
WordRead s end = (length end.cursor ≤ length s.cursor) × (end.doc ≡ s.doc)

pub match_literal-WordRead :
    (word : Bytes) (s : Parser) → Ensures (WordRead s) (match_literal word s)
unfolding match_literal
match_literal-WordRead word s = passed (after_word word s.cursor) (length-after_word word s.cursor)
  where
    passed :
        (o : Option Bytes)
        → NoLonger s.cursor o
        → Ensures
            (WordRead s)
            (elim o [ none ↦ refused | some rest ↦ done (record s { cursor = rest }) ])
    passed none h = tt
    passed (some rest) h = (h, refl)
