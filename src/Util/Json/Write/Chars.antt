-- ===== src/Util/Json/Write/Chars.antt =====
-- src/util/json_write.c and src/util/json.c: what one character of a string is written as is read
-- back as it.
use molto.Base.{
  ℕ, suc, ◌+◌, ◌*◌, ◌/◌, ◌%◌, ◌≤◌, ◌<◌, ◌≡◌, ◌≢◌, refl, sym, subst, ap, ◌∙◌, Bytes, some, [], ◌∷◌,
  ◌++◌, arith, inl, inr, eq-cases, le-cases, lt→ltb, lt→not-leb,
}
use molto.Util.Json.{JsonDocument, Parser, done, ◌>>=◌, push_byte}
use molto.Util.Json.Strings.{
  quote, backslash, is_digit, hex_digit, hex_digits, read_hex4, push_utf8, push_code,
  join_surrogates, parse_unicode_escape, escape_char, parse_escape, string_chars,
}
use molto.Util.Json.Write.{hex_char, escape_code, written_char}

hex_digit-hex_char : (d : ℕ) → d < 16 → hex_digit (hex_char d) ≡ some d
unfolding hex_digit hex_char is_digit
hex_digit-hex_char d h = ground arith

-- One digit, read.
hex_digits-hex_char :
    (n value d : ℕ) (rest : Bytes)
    → d < 16
    → hex_digits (suc n) value (hex_char d ∷ rest) ≡ hex_digits n (value * 16 + d) rest
unfolding hex_digits
hex_digits-hex_char n value d rest h = rw (hex_digits, hex_digit-hex_char d h) refl

hex_digits_end : (v w : ℕ) (s : Bytes) → v ≡ w → hex_digits 0 v s ≡ some w
unfolding hex_digits
hex_digits_end v w s e = ap some e

-- The four digits of a byte below 0x20 are read as the byte.
hex_digits-escape_code :
    (c : ℕ) (rest : Bytes)
    → c < 0x20
    → hex_digits 4 0 (
        hex_char (c / 0x1000 % 16)
        ∷ hex_char (c / 0x100 % 16)
        ∷ hex_char (c / 0x10 % 16)
        ∷ hex_char (c % 16)
        ∷ rest)
      ≡ some c
hex_digits-escape_code c rest h =
    hex_digits-hex_char 3 0 (c / 0x1000 % 16) _ (omega arith)
    ∙ hex_digits-hex_char 2 _ (c / 0x100 % 16) _ (omega arith)
    ∙ hex_digits-hex_char 1 _ (c / 0x10 % 16) _ (omega arith)
    ∙ hex_digits-hex_char 0 _ (c % 16) rest (omega arith)
    ∙ hex_digits_end _ c rest (omega arith)

-- The state with a byte more in the pool, and the cursor on a text.
abbrev pub pushed : Bytes → JsonDocument → ℕ → Parser
pushed cursor doc c = record { cursor = cursor; doc = record doc { text = doc.text ++ (c ∷ []) } }

push_low_code : (c : ℕ) (s : Parser) → c < 0x20 → push_code (join_surrogates c s) ≡ push_byte s c
unfolding join_surrogates push_utf8
push_low_code c s h =
    rw (join_surrogates, lt→not-leb 0xD800 c (omega arith))
      (rw (push_utf8, lt→ltb c 0x80 (omega arith)) refl)

parse_unicode_escape-escape_code :
    (c : ℕ) (rest : Bytes) (doc : JsonDocument)
    → c < 0x20
    → parse_unicode_escape (record {
      cursor =
          hex_char (c / 0x1000 % 16)
          ∷ hex_char (c / 0x100 % 16)
          ∷ hex_char (c / 0x10 % 16)
          ∷ hex_char (c % 16)
          ∷ rest;
      doc = doc;
    })
      ≡ done (pushed rest doc c)
unfolding parse_unicode_escape read_hex4 push_byte
parse_unicode_escape-escape_code c rest doc h =
    rw (read_hex4, hex_digits-escape_code c rest h)
      (ap done (push_low_code c (record { cursor = rest; doc = doc }) h))

abbrev pub at_text : Bytes → JsonDocument → Parser
at_text cursor doc = record { cursor = cursor; doc = doc }

abbrev pub ReadsBack : ℕ → Bytes → Type 0
ReadsBack c written =
    (n : ℕ) (rest : Bytes) (doc : JsonDocument)
    → string_chars (suc n) (at_text (written ++ rest) doc) ≡ string_chars n (pushed rest doc c)

quote-ReadsBack : ReadsBack quote (written_char quote)
unfolding string_chars parse_escape escape_char written_char push_byte
quote-ReadsBack n rest doc = refl

backslash-ReadsBack : ReadsBack backslash (written_char backslash)
unfolding string_chars parse_escape escape_char written_char push_byte
backslash-ReadsBack n rest doc = refl

newline-ReadsBack : ReadsBack 10 (written_char 10)
unfolding string_chars parse_escape escape_char written_char push_byte
newline-ReadsBack n rest doc = refl

return-ReadsBack : ReadsBack 13 (written_char 13)
unfolding string_chars parse_escape escape_char written_char push_byte
return-ReadsBack n rest doc = refl

tab-ReadsBack : ReadsBack 9 (written_char 9)
unfolding string_chars parse_escape escape_char written_char push_byte
tab-ReadsBack n rest doc = refl

escape-ReadsBack : (c : ℕ) → c < 0x20 → ReadsBack c (escape_code c)
unfolding string_chars parse_escape escape_char
escape-ReadsBack c h n rest doc =
    ap (λ m. m >>= string_chars n) (parse_unicode_escape-escape_code c rest doc h)

plain-ReadsBack : (c : ℕ) → c ≢ quote → c ≢ backslash → 0x20 ≤ c → ReadsBack c (c ∷ [])
unfolding string_chars push_byte
plain-ReadsBack c q b l n rest doc = ground arith

written_char-escape : (c : ℕ) → c < 0x20 → c ≢ 10 → c ≢ 13 → c ≢ 9 → written_char c ≡ escape_code c
unfolding written_char
written_char-escape c h l r t = ground arith

written_char-plain : (c : ℕ) → c ≢ quote → c ≢ backslash → 0x20 ≤ c → written_char c ≡ c ∷ []
unfolding written_char
written_char-plain c q b l = ground arith

-- What one character is written as is read back as it.
pub written_char-ReadsBack : (c : ℕ) → ReadsBack c (written_char c)
written_char-ReadsBack c = same quote quote-ReadsBack λ q. same backslash backslash-ReadsBack λ b.
    elim (le-cases 0x20 c) [
      | inl l ↦ subst (ReadsBack c) (sym (written_char-plain c q b l)) (plain-ReadsBack c q b l)
      | inr h ↦ same 10 newline-ReadsBack λ l. same 13 return-ReadsBack λ r.
          same 9 tab-ReadsBack
            λ t. subst (ReadsBack c) (sym (written_char-escape c h l r t)) (escape-ReadsBack c h)
    ]
  where
    same :
        (k : ℕ)
        → ReadsBack k (written_char k)
        → (c ≢ k → ReadsBack c (written_char c))
        → ReadsBack c (written_char c)
    same k here other = elim (eq-cases c k) [
      | inl e ↦ subst (λ j. ReadsBack j (written_char j)) (sym e) here
      | inr ne ↦ other ne
    ]
