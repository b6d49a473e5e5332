-- ===== src/Util/Json/Reads.antt =====
-- src/util/json.c's readers of values: each ends, reads no further than the text, and adds its
-- nodes to a document that stays linked.
pub mod Lists
pub mod Texts
pub mod Leaves
pub mod Whole
use molto.Base.{
  ℕ, zero, suc, ◌+◌, ◌-◌, ◌≤◌, ◌<◌, ◌≡◌, ◌≢◌, refl, sym, subst, ap, ◌∙◌, Bytes, Bool, true, false,
  Option, none, some, List, [], ◌∷◌, ◌++◌, ◌==◌, if◌then◌else◌, arith, length, take, drop, get_or,
  length-append, length-drop, is_some,
}
use molto.Util.Json.{
  Node, JsonType, JsonDocument, Parser, Outcome, done, refused, unfinished, ◌>>=◌, peek, advance,
  leaf, modify, node_at, append_child, add_node, json_type_invalid, json_type_array,
  json_type_object,
}
use molto.Util.Json.Outcomes.{Ensures, Ensures-bind, Ensures-if, Ensures-map, Ensures-round}
use molto.Util.Json.Pushes.{IsTerminated, TextRead, parse_string-TextRead, length-drop_one}
use molto.Util.Json.Linked.{
  IsPlaced, ArePlaced, IsLinked, After, Inside, length-modify, get_or-append_left, IsPlaced-mono,
  ArePlaced-snoc,
}
use molto.Util.Json.Steps.{
  Extends, Extends-trans, Extends-below, Extends-modify, IsLinked-modify, Before,
  append_child-Extends-IsLinked,
}
use molto.Util.Json.Values.{
  Reader, skip_blanks, skip_whitespace, array_elements, parse_array, with_child,
}

-- A value was read: its node is the first of those added.
pub record ValueRead (start : Parser) (i : ℕ) (end : Parser) : Type 0 where
  pub shorter : length end.cursor ≤ length start.cursor
  pub index : i ≡ length start.doc.nodes
  pub present : i < length end.doc.nodes
  pub grown : Extends (length start.doc.nodes) start.doc end.doc
  pub linked : IsLinked end.doc

abbrev pub ReadsFrom : Parser → ℕ × Parser → Type 0
ReadsFrom start (i, end) = ValueRead start i end

-- What a reader of the values inside does with the texts shorter than a limit.
abbrev pub IsReader : ℕ → Reader → Type 0
IsReader limit read =
    (s : Parser) → length s.cursor < limit → IsLinked s.doc → Ensures (ReadsFrom s) (read s)

pub length-skip_blanks : (s : Bytes) → length (skip_blanks s) ≤ length s
unfolding skip_blanks
length-skip_blanks [] = omega arith
length-skip_blanks (c ∷ s) = ground (arith, length-skip_blanks s)

-- The rest of a list, read: the container is the node it was, and grew.
pub record ListRead (start : Parser) (container i : ℕ) (end : Parser) : Type 0 where
  pub shorter : length end.cursor ≤ length start.cursor
  pub index : i ≡ container
  pub grown : Extends container start.doc end.doc
  pub linked : IsLinked end.doc

Before-last :
    (doc : JsonDocument) (parent : ℕ) (o : Option ℕ)
    → After (length doc.nodes) parent o
    → Before (length doc.nodes) o
Before-last doc parent none h = tt
Before-last doc parent (some last) h = h.1

-- A value that was read is appended to a container that was there before.
pub with_child-Extends-IsLinked :
    (start after : JsonDocument) (parent child : ℕ)
    → parent < length start.nodes
    → child ≡ length start.nodes
    → child < length after.nodes
    → Extends (length start.nodes) start after
    → IsLinked start
    → IsLinked after
    → Extends parent start (append_child after parent child)
      × IsLinked (append_child after parent child)
with_child-Extends-IsLinked start after parent child p e l grown hs ha =
    let before : Before child ((node_at after parent).last_child) =
      subst (λ n. Before child (n.last_child)) (sym (grown.kept parent p))
        (subst (λ c. Before c ((node_at start parent).last_child)) (sym e)
          (Before-last start parent _ ((hs.placed parent p).last))) in
    let (more, linked) =
      append_child-Extends-IsLinked after parent child (omega arith) l before ha in
    (
      Extends-trans parent start after _ (Extends-below parent _ start after (omega arith) grown)
          more,
      linked,
    )

-- A round of a list's loop, after its value: the list goes on, ends or is refused.
pub round-ListRead :
    (container close : ℕ) (s after : Parser) (again : Reader)
    → length after.cursor ≤ length s.cursor
    → container < length s.doc.nodes
    → Extends container s.doc after.doc
    → IsLinked after.doc
    → ((t : Parser)
        → length t.cursor < length s.cursor
        → container < length t.doc.nodes
        → IsLinked t.doc
        → Ensures (λ (r : ℕ × Parser). ListRead t container (r.0) (r.1)) (again t))
    → let next = skip_whitespace after in
      Ensures
        (λ (r : ℕ × Parser). ListRead s container (r.0) (r.1))
        (elim (peek next.cursor == b',') [
          | true ↦ again (advance 1 next)
          | false ↦ if peek next.cursor == close then done (container, advance 1 next) else refused
        ])
unfolding skip_whitespace
round-ListRead container close s after again sh c grown linked rec =
    let next = skip_whitespace after in
    let blanks = length-skip_blanks after.cursor in
    let dropped = length-drop 1 next.cursor in
    let nodes = grown.nodes in
    Ensures-round (λ (r : ℕ × Parser). ListRead s container (r.0) (r.1)) (peek next.cursor == b',')
      (peek next.cursor == close) (again (advance 1 next)) (container, advance 1 next)
      (λ comma.
        let fewer = length-drop_one next.cursor (λ e. absurd (ground (arith, e, comma))) in
        Ensures-map (λ (r : ℕ × Parser). ListRead (advance 1 next) container (r.0) (r.1))
          (λ (r : ℕ × Parser). ListRead s container (r.0) (r.1)) (again (advance 1 next))
          (rec (advance 1 next) (omega arith) (omega arith) linked)
          λ (i, end) k.
            let shorter = k.shorter in
            record {
              shorter = omega arith;
              index = k.index;
              grown = Extends-trans container s.doc after.doc _ grown k.grown;
              linked = k.linked;
            })
      (record { shorter = omega arith; index = refl; grown = grown; linked = linked })

-- A container's node is added, and the values inside are read after it.
pub open-Extends-IsLinked :
    (doc : JsonDocument) (kind : JsonType)
    → IsLinked doc
    → let opened = (add_node doc kind).1 in
      Extends (length doc.nodes) doc opened
      × IsLinked opened
      × (length opened.nodes ≡ suc (length doc.nodes))
unfolding add_node
open-Extends-IsLinked doc kind h =
    let count : length (doc.nodes ++ (leaf kind ∷ [])) ≡ suc (length doc.nodes) =
      omega (arith, length-append doc.nodes (leaf kind ∷ [])) in
    (
      record {
        nodes = omega arith;
        pool = omega arith;
        kept = λ j l. get_or-append_left doc.nodes (leaf kind ∷ []) j _ l;
      },
      record {
        placed =
            subst (λ c. ArePlaced c (length doc.text) (doc.nodes ++ (leaf kind ∷ []))) (sym count)
              (ArePlaced-snoc _ _ doc.nodes (leaf kind) h.placed
                (record { first = tt; last = tt; next = tt; text = tt; key = tt; ends = refl }));
        terminated = h.terminated;
      },
      count,
    )

-- A container that was read is a value.
ListRead-ValueRead :
    (start opened : Parser) (i : ℕ) (end : Parser)
    → length opened.cursor ≤ length start.cursor
    → Extends (length start.doc.nodes) start.doc opened.doc
    → length start.doc.nodes < length opened.doc.nodes
    → ListRead opened (length start.doc.nodes) i end
    → ValueRead start i end
ListRead-ValueRead start opened i end h grown l k =
    let shorter = k.shorter in
    let nodes = k.grown.nodes in
    let index = k.index in
    record {
      shorter = omega arith;
      index = k.index;
      present = omega arith;
      grown = Extends-trans _ start.doc opened.doc end.doc grown k.grown;
      linked = k.linked;
    }

-- The values of a container, read after its node is added and its bracket passed.
pub container-ValueRead :
    (kind : JsonType) (close rounds : ℕ) (again : ℕ → Reader)
    → ((c : ℕ) (t : Parser)
        → length t.cursor < rounds
        → c < length t.doc.nodes
        → IsLinked t.doc
        → Ensures (λ (r : ℕ × Parser). ListRead t c (r.0) (r.1)) (again c t))
    → (s : Parser) → length s.cursor < rounds
    → IsLinked s.doc
    → let (c, doc) = add_node s.doc kind in
      let inside = skip_whitespace (advance 1 (record s { doc = doc })) in
      Ensures
        (ReadsFrom s)
        (if peek inside.cursor == close then done (c, advance 1 inside) else again c inside)
unfolding add_node skip_whitespace
container-ValueRead kind close rounds again rec s l h =
    let (grown, linked, count) = open-Extends-IsLinked s.doc kind h in
    let inside = skip_whitespace (advance 1 (record s { doc = (add_node s.doc kind).1 })) in
    let c = length s.doc.nodes in
    let dropped = length-drop 1 s.cursor in
    let blanks = length-skip_blanks (drop 1 s.cursor) in
    let closed = length-drop 1 inside.cursor in
    Ensures-if (ReadsFrom s) (peek inside.cursor == close) (done (c, advance 1 inside))
      (again c inside)
      (λ _. record {
        shorter = omega arith;
        index = refl;
        present = omega arith;
        grown = grown;
        linked = linked;
      })
      λ _.
        Ensures-map (λ (r : ℕ × Parser). ListRead inside c (r.0) (r.1)) (ReadsFrom s)
          (again c inside) (rec c inside (omega arith) (omega arith) linked)
          λ (i, end) k. ListRead-ValueRead s inside i end (omega arith) grown (omega arith) k
