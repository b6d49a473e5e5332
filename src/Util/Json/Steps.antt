-- ===== src/Util/Json/Steps.antt =====
-- src/util/json.c's writes to the node array: each keeps the document linked and leaves the nodes
-- before a base alone.
use molto.Base.{
  ℕ, ◌≤◌, ◌<◌, ◌≡◌, refl, sym, subst, ◌∙◌, true, Option, none, some, arith, length, is_some,
}
use molto.Util.Json.{Node, JsonDocument, modify, node_at, link, or_first, append_child}
use molto.Util.Json.Linked.{
  IsPlaced, ArePlaced, IsLinked, After, length-modify, get_or-modify_ne, ArePlaced-modify,
}

-- The document grew, and its nodes before the base are as they were.
pub record Extends (base : ℕ) (a b : JsonDocument) : Type 0 where
  pub nodes : length a.nodes ≤ length b.nodes
  pub pool : length a.text ≤ length b.text
  pub kept : (j : ℕ) → j < base → node_at b j ≡ node_at a j

pub Extends-trans :
    (base : ℕ) (a b c : JsonDocument) → Extends base a b → Extends base b c → Extends base a c
Extends-trans base a b c h k =
    let n = h.nodes in
    let m = k.nodes in
    let p = h.pool in
    let q = k.pool in
    record { nodes = omega arith; pool = omega arith; kept = λ j l. k.kept j l ∙ h.kept j l }

pub Extends-below :
    (low high : ℕ) (a b : JsonDocument) → low ≤ high → Extends high a b → Extends low a b
Extends-below low high a b h k = record {
  nodes = k.nodes;
  pool = k.pool;
  kept = λ j l. k.kept j (omega arith);
}

pub Extends-modify :
    (base : ℕ) (doc : JsonDocument) (i : ℕ) (f : Node → Node)
    → base ≤ i
    → Extends base doc (record doc { nodes = modify doc.nodes i f })
Extends-modify base doc i f h = record {
  nodes = omega (arith, length-modify doc.nodes i f);
  pool = omega arith;
  kept = λ j l. get_or-modify_ne doc.nodes i j f _ (λ e. omega arith);
}

pub IsLinked-modify :
    (doc : JsonDocument) (i : ℕ) (f : Node → Node)
    → ((n : Node)
        → IsPlaced (length doc.nodes) (length doc.text) i n
        → IsPlaced (length doc.nodes) (length doc.text) i (f n))
    → IsLinked doc
    → IsLinked (record doc { nodes = modify doc.nodes i f })
IsLinked-modify doc i f keep h = record {
  placed =
      subst (λ count. ArePlaced count (length doc.text) (modify doc.nodes i f))
        (sym (length-modify doc.nodes i f)) (ArePlaced-modify _ _ doc.nodes i f keep h.placed);
  terminated = h.terminated;
}

or_first-After :
    (count parent child : ℕ) (o : Option ℕ)
    → parent < child
    → child < count
    → After count parent o
    → After count parent (or_first o child)
or_first-After count parent child none h l k = (h, l)
or_first-After count parent child (some first) h l k = k

or_first-is_some : (o : Option ℕ) (child : ℕ) → is_some (or_first o child) ≡ true
or_first-is_some none child = refl
or_first-is_some (some first) child = refl

-- A last child that comes before the new one.
abbrev pub Before : ℕ → Option ℕ → Type 0
Before child none = Unit
Before child (some last) = last < child

-- What a write to the array keeps, with the base that it stays above.
abbrev Keeps : ℕ → JsonDocument → JsonDocument → Type 0
Keeps base a b = Extends base a b × IsLinked b × (length b.nodes ≡ length a.nodes)

link-Keeps :
    (doc : JsonDocument) (base child : ℕ) (first last : Option ℕ)
    → child < length doc.nodes
    → Before child last
    → After (length doc.nodes) base last
    → IsLinked doc
    → Keeps base doc (record doc { nodes = link first last child doc.nodes })
link-Keeps doc base child (some first) (some last) l b a h = (
  Extends-modify base doc last _ (omega arith),
  IsLinked-modify doc last _
      (λ n p. record {
        first = p.first;
        last = p.last;
        next = (b, l);
        text = p.text;
        key = p.key;
        ends = p.ends;
      })
      h,
  length-modify doc.nodes last _,
)
link-Keeps doc base child none last l b a h = (Extends_refl, h, refl)
  where
    Extends_refl : Extends base doc doc
    Extends_refl = record { nodes = omega arith; pool = omega arith; kept = λ j k. refl }
link-Keeps doc base child (some first) none l b a h = (Extends_refl, h, refl)
  where
    Extends_refl : Extends base doc doc
    Extends_refl = record { nodes = omega arith; pool = omega arith; kept = λ j k. refl }

pub append_child-Extends-IsLinked :
    (doc : JsonDocument) (parent child : ℕ)
    → parent < child
    → child < length doc.nodes
    → Before child ((node_at doc parent).last_child)
    → IsLinked doc
    → Extends parent doc (append_child doc parent child) × IsLinked (append_child doc parent child)
unfolding append_child
append_child-Extends-IsLinked doc parent child p l b h =
    let owner = node_at doc parent in
    let linked = record doc { nodes = link owner.first_child owner.last_child child doc.nodes } in
    let (grown, sound, same) =
      link-Keeps doc parent child owner.first_child owner.last_child l b
        ((h.placed parent (omega arith)).last) h in
    (
      Extends-trans parent doc linked _ grown (Extends-modify parent linked parent _ (omega arith)),
      IsLinked-modify linked parent _
          (λ n k. record {
            first = or_first-After _ parent child n.first_child p (omega arith) k.first;
            last = (p, omega arith);
            next = k.next;
            text = k.text;
            key = k.key;
            ends = or_first-is_some n.first_child child;
          })
          sound,
    )
