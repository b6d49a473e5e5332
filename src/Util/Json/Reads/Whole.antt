-- ===== src/Util/Json/Reads/Whole.antt =====
-- src/util/json.c's whole documents: every text is read or refused, and what was read is linked.
use molto.Base.{
  ℕ, zero, suc, ◌<◌, Bytes, true, false, none, some, [], ◌==◌, if_elim, arith, length, codes,
}
use molto.Util.Json.{
  JsonType, JsonDocument, Parser, Outcome, done, refused, ◌>>=◌, peek, json_type_null,
  json_type_number, json_type_string,
}
use molto.Util.Json.Outcomes.{Ensures, Ensures-bind, Ensures-map}
use molto.Util.Json.Pushes.{TextRead, parse_string-TextRead}
use molto.Util.Json.Linked.{IsLinked}
use molto.Util.Json.Strings.{quote, parse_string}
use molto.Util.Json.Values.{
  Reader, skip_whitespace, match_literal, add_leaf, add_bool, value_by_char, parse_array,
  parse_object, parse_value, json_max_depth, json_parse,
}
use molto.Util.Json.Reads.{ReadsFrom, IsReader, length-skip_blanks}
use molto.Util.Json.Reads.Lists.{parse_array-IsReader, parse_object-IsReader}
use molto.Util.Json.Reads.Texts.{WordRead, parse_number-TextRead, match_literal-WordRead}
use molto.Util.Json.Reads.Leaves.{text_leaf-ValueRead, null_leaf-ValueRead, bool_leaf-ValueRead}

-- A text, and the leaf it becomes.
text-ReadsFrom :
    (s : Parser) (kind : JsonType) (m : Outcome (ℕ × Parser))
    → IsLinked s.doc
    → Ensures (λ (r : ℕ × Parser). TextRead s (r.0) (r.1)) m
    → Ensures (ReadsFrom s) (m >>= λ (text, after). done (add_leaf kind (some text) after))
text-ReadsFrom s kind m h k =
    Ensures-bind (λ (r : ℕ × Parser). TextRead s (r.0) (r.1)) (ReadsFrom s) m _ k
      λ r t. text_leaf-ValueRead s kind r h t

word-ReadsFrom :
    (s : Parser) (word : Bytes) (add : Parser → ℕ × Parser)
    → ((after : Parser) → WordRead s after → ReadsFrom s (add after))
    → Ensures (ReadsFrom s) (match_literal word s >>= λ after. done (add after))
word-ReadsFrom s word add h =
    Ensures-bind (WordRead s) (ReadsFrom s) (match_literal word s) _ (match_literal-WordRead word s)
      h

value_by_char-IsReader :
    (rounds c : ℕ) (read : Reader)
    → IsReader rounds read
    → IsReader rounds (value_by_char read rounds c)
unfolding value_by_char
value_by_char-IsReader rounds c read reads s l h =
    let P = Ensures (ReadsFrom s) in
    if_elim P (c == b'{') (parse_object read rounds s) _
      (parse_object-IsReader rounds read reads s l h)
      (if_elim P (c == b'[') (parse_array read rounds s) _
        (parse_array-IsReader rounds read reads s l h)
        (if_elim P (c == quote)
          (parse_string s >>= λ (text, after). done (add_leaf json_type_string (some text) after)) _
          (text-ReadsFrom s json_type_string _ h (parse_string-TextRead s))
          (if_elim P (c == b't')
            (match_literal (codes "true") s >>= λ after. done (add_bool true after)) _
            (word-ReadsFrom s (codes "true") (add_bool true)
              λ after w. bool_leaf-ValueRead true s after h w)
            (if_elim P (c == b'f')
              (match_literal (codes "false") s >>= λ after. done (add_bool false after)) _
              (word-ReadsFrom s (codes "false") (add_bool false)
                λ after w. bool_leaf-ValueRead false s after h w)
              (if_elim P (c == b'n')
                (match_literal (codes "null") s >>= λ after.
                  done (add_leaf json_type_null none after))
                _
                (word-ReadsFrom s (codes "null") (add_leaf json_type_null none)
                  λ after w. null_leaf-ValueRead s after h w)
                (text-ReadsFrom s json_type_number _ h (parse_number-TextRead s)))))))

parse_value-IsReader : (room rounds : ℕ) → IsReader rounds (parse_value room rounds)
unfolding parse_value skip_whitespace
parse_value-IsReader zero rounds s l h = tt
parse_value-IsReader (suc room) rounds s l h =
    let here = skip_whitespace s in
    let blanks = length-skip_blanks s.cursor in
    Ensures-map (ReadsFrom here) (ReadsFrom s)
      (value_by_char (parse_value room rounds) rounds (peek here.cursor) here)
      (value_by_char-IsReader rounds (peek here.cursor) (parse_value room rounds)
        (parse_value-IsReader room rounds) here (omega arith) h)
      λ (i, end) v.
        let shorter = v.shorter in
        record {
          shorter = omega arith;
          index = v.index;
          present = v.present;
          grown = v.grown;
          linked = v.linked;
        }

-- A document with a root, all of whose links and offsets stay inside it.
abbrev pub IsReadable : JsonDocument → Type 0
IsReadable doc = IsLinked doc × (0 < length doc.nodes)

-- On every text the parser ends, in the rounds its loops are given: it refuses, or hands back a
-- document that has a root, in which every link of a node leads to a later node, a node has a first
-- child just when it has a last one, every offset lies in the text pool, and the pool ends with a
-- terminator.
pub json_parse-IsReadable : (text : Bytes) → Ensures IsReadable (json_parse text)
unfolding json_parse
json_parse-IsReadable text =
    let start : Parser = record { cursor = text; doc = record { nodes = []; text = [] } } in
    Ensures-bind (ReadsFrom start) IsReadable (parse_value json_max_depth (suc (length text)) start)
      _
      (parse_value-IsReader json_max_depth (suc (length text)) start (omega arith)
        (record { placed = λ j l. absurd (omega arith); terminated = λ n e. absurd (omega arith) }))
      λ (root, state) v.
        let present = v.present in
        let index = v.index in
        if_elim (Ensures IsReadable) _ (done state.doc) refused (v.linked, omega arith) tt
