-- ===== src/Util/Json/Reads/Lists.antt =====
-- src/util/json.c's arrays and objects: reading one is reading a value.
use molto.Base.{
  ℕ, zero, suc, ◌≤◌, ◌<◌, sym, subst, ap, some, ◌==◌, arith, length, get_or, length-drop,
}
use molto.Util.Json.{
  Node, Parser, done, refused, ◌>>=◌, peek, advance, leaf, json_type_invalid, json_type_array,
  json_type_object,
}
use molto.Util.Json.Outcomes.{Ensures, Ensures-bind, Ensures-if}
use molto.Util.Json.Pushes.{TextRead, parse_string-TextRead}
use molto.Util.Json.Linked.{IsPlaced, ArePlaced, IsLinked, length-modify, IsPlaced-mono}
use molto.Util.Json.Steps.{Extends, Extends-trans, Extends-below, Extends-modify, IsLinked-modify}
use molto.Util.Json.Strings.{parse_string}
use molto.Util.Json.Values.{
  Reader, skip_whitespace, array_elements, parse_array, with_child, with_key, parse_member,
  object_members, parse_object,
}
use molto.Util.Json.Reads.{
  ReadsFrom, ValueRead, IsReader, ListRead, round-ListRead, container-ValueRead,
  with_child-Extends-IsLinked, length-skip_blanks,
}

pub array_elements-ListRead :
    (limit : ℕ) (read : Reader)
    → IsReader limit read
    → (n array : ℕ) (s : Parser) → length s.cursor < n
    → length s.cursor < limit
    → array < length s.doc.nodes
    → IsLinked s.doc
    → Ensures (λ (r : ℕ × Parser). ListRead s array (r.0) (r.1)) (array_elements read n array s)
unfolding array_elements skip_whitespace
array_elements-ListRead limit read reads zero array s h m a l = absurd (omega arith)
array_elements-ListRead limit read reads (suc n) array s h m a l =
    Ensures-bind (ReadsFrom s) (λ (r : ℕ × Parser). ListRead s array (r.0) (r.1)) (read s) _
      (reads s m l)
      λ (element, after) v.
        let (grown, linked) =
          with_child-Extends-IsLinked s.doc after.doc array element a v.index v.present v.grown l
            v.linked in
        let shorter = v.shorter in
        round-ListRead array b']' s (with_child array element after) (array_elements read n array)
          v.shorter a grown linked
          λ t k b sound.
            array_elements-ListRead limit read reads n array t (omega arith) (omega arith) b sound

pub parse_array-IsReader :
    (rounds : ℕ) (read : Reader) → IsReader rounds read → IsReader rounds (parse_array read rounds)
unfolding parse_array
parse_array-IsReader rounds read reads s l h =
    container-ValueRead json_type_array b']' rounds (array_elements read rounds)
      (λ c t m b k. array_elements-ListRead rounds read reads rounds c t m m b k) s l h

-- A text put in the pool leaves a document linked.
pub TextRead-Extends-IsLinked :
    (s : Parser) (offset : ℕ) (end : Parser)
    → TextRead s offset end
    → IsLinked s.doc
    → Extends (length s.doc.nodes) s.doc end.doc × IsLinked end.doc
TextRead-Extends-IsLinked s offset end t h =
    let longer = t.longer in
    (
      record {
        nodes = omega (arith, ap (length {A = Node}) t.same);
        pool = t.longer;
        kept = λ j l. ap (λ nodes. get_or nodes j (leaf json_type_invalid)) t.same;
      },
      record {
        placed =
            subst (λ nodes. ArePlaced (length nodes) (length end.doc.text) nodes) (sym t.same)
              (λ j l. IsPlaced-mono _ _ _ _ j _ (omega arith) longer (h.placed j l));
        terminated = t.terminated;
      },
    )

-- A member was read and appended: the object grew by it.
record MemberRead (start : Parser) (object : ℕ) (end : Parser) : Type 0 where
  shorter : length end.cursor ≤ length start.cursor
  grown : Extends object start.doc end.doc
  linked : IsLinked end.doc

key-IsPlaced :
    (count pool j key : ℕ) (n : Node)
    → key < pool
    → IsPlaced count pool j n
    → IsPlaced count pool j (record n { key = some key })
key-IsPlaced count pool j key n h p = record {
  first = p.first;
  last = p.last;
  next = p.next;
  text = p.text;
  key = h;
  ends = p.ends;
}

-- The value of a member, given its name and appended to the object.
member_appended :
    (s start after : Parser) (object value key : ℕ)
    → length start.cursor ≤ length s.cursor
    → object < length s.doc.nodes
    → key < length start.doc.text
    → Extends (length s.doc.nodes) s.doc start.doc
    → IsLinked start.doc
    → ValueRead start value after
    → MemberRead s object (with_child object value (with_key value key after))
member_appended s start after object value key l o inside grown linked v =
    let shorter = v.shorter in
    let index = v.index in
    let present = v.present in
    let nodes = grown.nodes in
    let pool = v.grown.pool in
    let keyed = with_key value key after in
    let count = length-modify after.doc.nodes value λ n. record n { key = some key } in
    let keyed_linked : IsLinked keyed.doc =
      IsLinked-modify after.doc value _ (λ n p. key-IsPlaced _ _ value key n (omega arith) p)
        v.linked in
    let keyed_grown : Extends (length start.doc.nodes) start.doc keyed.doc =
      Extends-trans _ start.doc after.doc keyed.doc v.grown
        (Extends-modify _ after.doc value _ (omega arith)) in
    let (more, sound) =
      with_child-Extends-IsLinked start.doc keyed.doc object value (omega arith) index (omega arith)
        keyed_grown linked keyed_linked in
    record {
      shorter = omega arith;
      grown =
          Extends-trans object s.doc start.doc _
            (Extends-below object _ s.doc start.doc (omega arith) grown) more;
      linked = sound;
    }

parse_member-MemberRead :
    (limit : ℕ) (read : Reader)
    → IsReader limit read
    → (object : ℕ) (s : Parser) → length s.cursor < limit
    → object < length s.doc.nodes
    → IsLinked s.doc
    → Ensures (MemberRead s object) (parse_member read object s)
unfolding parse_member skip_whitespace
parse_member-MemberRead limit read reads object s m o h =
    let start = skip_whitespace s in
    let blanks = length-skip_blanks s.cursor in
    Ensures-bind (λ (r : ℕ × Parser). TextRead start (r.0) (r.1)) (MemberRead s object)
      (parse_string start) _ (parse_string-TextRead start)
      λ (key, named) t.
        let colon = skip_whitespace named in
        let more_blanks = length-skip_blanks named.cursor in
        let dropped = length-drop 1 colon.cursor in
        let shorter = t.shorter in
        let (named_grown, named_linked) = TextRead-Extends-IsLinked start key named t h in
        let nodes = named_grown.nodes in
        Ensures-if (MemberRead s object) (peek colon.cursor == b':')
          (read (advance 1 colon) >>= λ (value, after).
            done (with_child object value (with_key value key after)))
          refused
          (λ _.
            Ensures-bind (ReadsFrom (advance 1 colon)) (MemberRead s object)
              (read (advance 1 colon)) _ (reads (advance 1 colon) (omega arith) named_linked)
              λ (value, after) v.
                member_appended s (advance 1 colon) after object value key (omega arith) o t.inside
                  named_grown named_linked v)
          λ _. tt

object_members-ListRead :
    (limit : ℕ) (read : Reader)
    → IsReader limit read
    → (n object : ℕ) (s : Parser) → length s.cursor < n
    → length s.cursor < limit
    → object < length s.doc.nodes
    → IsLinked s.doc
    → Ensures (λ (r : ℕ × Parser). ListRead s object (r.0) (r.1)) (object_members read n object s)
unfolding object_members
object_members-ListRead limit read reads zero object s h m o l = absurd (omega arith)
object_members-ListRead limit read reads (suc n) object s h m o l =
    Ensures-bind (MemberRead s object) (λ (r : ℕ × Parser). ListRead s object (r.0) (r.1))
      (parse_member read object s) _ (parse_member-MemberRead limit read reads object s m o l)
      λ after k.
        round-ListRead object b'}' s after (object_members read n object) k.shorter o k.grown
          k.linked
          λ t fewer b sound.
            object_members-ListRead limit read reads n object t (omega arith) (omega arith) b sound

pub parse_object-IsReader :
    (rounds : ℕ) (read : Reader) → IsReader rounds read → IsReader rounds (parse_object read rounds)
unfolding parse_object
parse_object-IsReader rounds read reads s l h =
    container-ValueRead json_type_object b'}' rounds (object_members read rounds)
      (λ c t m b k. object_members-ListRead rounds read reads rounds c t m m b k) s l h
