-- ===== src/Util/Json/Access/Ends.antt =====
-- src/util/json.c: the walks along siblings end on a document that was read.
use molto.Base.{
  subst, ℕ, zero, suc, ◌+◌, ◌<◌, ◌≡◌, ◌≢◌, Bytes, Bool, true, false, Option, none, some, if_elim,
  ltb, ltb→lt, Bool-cases, inl, inr, arith, length,
}
use molto.Util.Json.{JsonType, JsonDocument, Outcome, done, refused, unfinished, ◌>>=◌, node_at}
use molto.Util.Json.Outcomes.{Ensures}
use molto.Util.Json.Linked.{IsLinked, After}
use molto.Util.Json.Values.{json_parse}
use molto.Util.Json.Reads.Whole.{IsReadable, json_parse-IsReadable}
use molto.Util.Json.Access.{
  JsonValue, node_of, is_array, is_object, walk, walk_children, find_child, value_at, json_get,
  json_at, member_index, key_of, json_key_at, json_member_at,
}

abbrev Ends {ℓ} : {A : Type ℓ} → Outcome A → Type 0
Ends m = Ensures (λ _. Unit) m

-- A walk that starts at a node further on than another has fewer nodes to pass.
walk-Ends :
    (doc : JsonDocument) (stop : ℕ → ℕ → Bool)
    → IsLinked doc
    → (n position j : ℕ) (next : Option ℕ) → length doc.nodes < n + j + 1
    → After (length doc.nodes) j next
    → Ends (walk (suc n) doc stop position next)
unfolding walk
walk-Ends doc stop h n position j none l a = tt
walk-Ends doc stop h zero position j (some i) l a = absurd (omega (arith, a.0, a.1))
walk-Ends doc stop h (suc n) position j (some i) l a =
    elim (stop position i)
      as (λ b. Ends (elim b [
        | true ↦ done (some i)
        | false ↦ walk (suc n) doc stop (position + 1) ((node_at doc i).next_sibling)
      ])) [
        | true ↦ tt
        | false ↦
            walk-Ends doc stop h n (position + 1) i ((node_at doc i).next_sibling)
              (omega (arith, a.0)) ((h.placed i (a.1)).next)
      ]

find_child-Ends :
    (doc : JsonDocument) (kind : JsonType → Bool) (stop : JsonDocument → ℕ → ℕ → Bool) (index : ℕ)
    → IsLinked doc
    → Ends (find_child kind stop (some (doc, index)))
unfolding find_child node_of
find_child-Ends doc kind stop index h = elim (Bool-cases (ltb index (length doc.nodes))) [
  | inr out ↦ rw (find_child, node_of, out) tt
  | inl inside ↦
      let node = node_at doc index in
      rw (find_child, node_of, inside)
        (if_elim Ends (kind node.kind) (walk_children doc (stop doc) node) (done none)
          (walk-Ends doc (stop doc) h (length doc.nodes) 0 index node.first_child (omega arith)
            ((h.placed index (ltb→lt index (length doc.nodes) inside)).first))
          tt)
]

Ends-then {ℓ κ} :
    {A : Type ℓ} {B : Type κ} (m : Outcome A) (f : A → B)
    → Ends m
    → (m >>= λ a. done (f a)) ≢ unfinished
Ends-then (done a) f h e = absurd (cc e)
Ends-then refused f h e = absurd (cc e)
Ends-then unfinished f h e = h

-- On a document that was read, looking a member up by its name, an element up by its index, and a
-- member's name and value up by its index each end, whichever node they start from.
pub json_lookups-IsFinished :
    (text : Bytes) (doc : JsonDocument) (node index : ℕ) (key : Bytes)
    → json_parse text ≡ done doc
    → (json_get (some (doc, node)) key ≢ unfinished)
      × (json_at (some (doc, node)) index ≢ unfinished)
      × (json_key_at (some (doc, node)) index ≢ unfinished)
      × (json_member_at (some (doc, node)) index ≢ unfinished)
unfolding json_get json_at json_key_at json_member_at member_index
json_lookups-IsFinished text doc node index key e =
    let linked = (subst (Ensures IsReadable) e (json_parse-IsReadable text)).0 in
    let handle : JsonValue = some (doc, node) in
    (
      Ends-then _ (value_at handle) (find_child-Ends doc is_object _ node linked),
      Ends-then _ (value_at handle) (find_child-Ends doc is_array _ node linked),
      Ends-then _ (key_of handle) (find_child-Ends doc is_object _ node linked),
      Ends-then _ (value_at handle) (find_child-Ends doc is_object _ node linked),
    )
