-- ===== src/Util/Json/Reads/Leaves.antt =====
-- src/util/json.c's leaves: numbers, words and strings, read as values.
use molto.Base.{ℕ, ◌≤◌, ◌≡◌, refl, sym, subst, ap, Bool, none, some, arith, length}
use molto.Util.Json.{
  Node, JsonType, JsonDocument, Parser, modify, add_node, json_type_null, json_type_bool,
}
use molto.Util.Json.Pushes.{TextRead}
use molto.Util.Json.Linked.{IsPlaced, IsLinked, length-modify}
use molto.Util.Json.Steps.{Extends, Extends-trans, Extends-below, Extends-modify, IsLinked-modify}
use molto.Util.Json.Values.{add_leaf, add_bool}
use molto.Util.Json.Reads.{ReadsFrom, ValueRead, open-Extends-IsLinked}
use molto.Util.Json.Reads.Lists.{TextRead-Extends-IsLinked}
use molto.Util.Json.Reads.Texts.{WordRead}

-- A leaf was added after its text.
leaf_added :
    (s after : Parser) (kind : JsonType) (f : Node → Node)
    → length after.cursor ≤ length s.cursor
    → length after.doc.nodes ≡ length s.doc.nodes
    → Extends (length s.doc.nodes) s.doc after.doc
    → IsLinked after.doc
    → let (node, doc) = add_node after.doc kind in
      ((n : Node)
        → IsPlaced (length doc.nodes) (length doc.text) node n
        → IsPlaced (length doc.nodes) (length doc.text) node (f n))
      → ValueRead s node (record after { doc = record doc { nodes = modify doc.nodes node f } })
unfolding add_node
leaf_added s after kind f l e grown linked keep =
    let doc = (add_node after.doc kind).1 in
    let (opened, sound, count) = open-Extends-IsLinked after.doc kind linked in
    let set = length-modify doc.nodes (length after.doc.nodes) f in
    record {
      shorter = l;
      index = e;
      present = omega arith;
      grown = Extends-trans (length s.doc.nodes) s.doc after.doc _ grown (
          Extends-trans (length s.doc.nodes) after.doc doc _
            (Extends-below _ _ after.doc doc (omega arith) opened)
            (Extends-modify _ doc (length after.doc.nodes) f (omega arith)));
      linked = IsLinked-modify doc (length after.doc.nodes) f keep sound;
    }

pub text_leaf-ValueRead :
    (s : Parser) (kind : JsonType) (r : ℕ × Parser)
    → IsLinked s.doc
    → TextRead s (r.0) (r.1)
    → ReadsFrom s (add_leaf kind (some (r.0)) (r.1))
unfolding add_leaf add_node
text_leaf-ValueRead s kind (text, after) h t =
    let (grown, linked) = TextRead-Extends-IsLinked s text after t h in
    leaf_added s after kind (λ n. record n { text = some text }) t.shorter
      (ap (length {A = Node}) t.same) grown linked
      λ n p. record {
        first = p.first;
        last = p.last;
        next = p.next;
        text = t.inside;
        key = p.key;
        ends = p.ends;
      }

word-Extends-IsLinked :
    (s after : Parser)
    → WordRead s after
    → IsLinked s.doc
    → Extends (length s.doc.nodes) s.doc after.doc × IsLinked after.doc
word-Extends-IsLinked s after (l, e) h =
    subst (λ doc. Extends (length s.doc.nodes) s.doc doc × IsLinked doc) (sym e)
      (record { nodes = omega arith; pool = omega arith; kept = λ j k. refl }, h)

pub null_leaf-ValueRead :
    (s after : Parser)
    → IsLinked s.doc
    → WordRead s after
    → ReadsFrom s (add_leaf json_type_null none after)
unfolding add_leaf add_node
null_leaf-ValueRead s after h w =
    let (grown, linked) = word-Extends-IsLinked s after w h in
    leaf_added s after json_type_null (λ n. record n { text = none }) (w.0)
      (ap (λ (d : JsonDocument). length d.nodes) (w.1)) grown linked
      λ n p. record {
        first = p.first;
        last = p.last;
        next = p.next;
        text = tt;
        key = p.key;
        ends = p.ends;
      }

pub bool_leaf-ValueRead :
    (b : Bool) (s after : Parser)
    → IsLinked s.doc
    → WordRead s after
    → ReadsFrom s (add_bool b after)
unfolding add_bool add_node
bool_leaf-ValueRead b s after h w =
    let (grown, linked) = word-Extends-IsLinked s after w h in
    leaf_added s after json_type_bool (λ n. record n { boolean = b }) (w.0)
      (ap (λ (d : JsonDocument). length d.nodes) (w.1)) grown linked
      λ n p. record {
        first = p.first;
        last = p.last;
        next = p.next;
        text = p.text;
        key = p.key;
        ends = p.ends;
      }
