-- ===== src/Util/Json/Linked.antt =====
-- src/util/json.c's node array: the links and offsets of its nodes stay inside the document.
use molto.Base.{
  ℕ, zero, suc, ◌≤◌, ◌<◌, ◌≡◌, ◌≢◌, refl, Option, none, some, List, [], ◌∷◌, ◌++◌, arith, length,
  get_or, length-append, is_some, subst, sym, eq-cases, inl, inr,
}
use molto.Util.Json.{Node, JsonDocument, leaf, modify, json_type_invalid}
use molto.Util.Json.Pushes.{IsTerminated}

-- A link leads to a node further on.
abbrev pub After : ℕ → ℕ → Option ℕ → Type 0
After count j none = Unit
After count j (some i) = (j < i) × (i < count)

abbrev pub Inside : ℕ → Option ℕ → Type 0
Inside pool none = Unit
Inside pool (some offset) = offset < pool

-- A node at an index, of a document of so many nodes and so many bytes of text.
pub record IsPlaced (count pool j : ℕ) (n : Node) : Type 0 where
  pub first : After count j n.first_child
  pub last : After count j n.last_child
  pub next : After count j n.next_sibling
  pub text : Inside pool n.text
  pub key : Inside pool n.key
  pub ends : is_some n.first_child ≡ is_some n.last_child

abbrev pub ArePlaced : ℕ → ℕ → List Node → Type 0
ArePlaced count pool nodes =
    (j : ℕ) → j < length nodes → IsPlaced count pool j (get_or nodes j (leaf json_type_invalid))

pub record IsLinked (doc : JsonDocument) : Type 0 where
  pub placed : ArePlaced (length doc.nodes) (length doc.text) doc.nodes
  pub terminated : IsTerminated doc.text

pub length-modify : (xs : List Node) (i : ℕ) (f : Node → Node) → length (modify xs i f) ≡ length xs
length-modify [] i f = refl
length-modify (x ∷ xs) zero f = refl
length-modify (x ∷ xs) (suc i) f = omega (arith, length-modify xs i f)

pub get_or-modify_ne :
    (xs : List Node) (i j : ℕ) (f : Node → Node) (d : Node)
    → j ≢ i
    → get_or (modify xs i f) j d ≡ get_or xs j d
get_or-modify_ne [] i j f d h = refl
get_or-modify_ne (x ∷ xs) zero zero f d h = absurd (h refl)
get_or-modify_ne (x ∷ xs) zero (suc j) f d h = refl
get_or-modify_ne (x ∷ xs) (suc i) zero f d h = refl
get_or-modify_ne (x ∷ xs) (suc i) (suc j) f d h = get_or-modify_ne xs i j f d (λ e. h (omega arith))

pub get_or-modify_self :
    (xs : List Node) (i : ℕ) (f : Node → Node) (d : Node)
    → i < length xs
    → get_or (modify xs i f) i d ≡ f (get_or xs i d)
get_or-modify_self [] i f d h = absurd (omega arith)
get_or-modify_self (x ∷ xs) zero f d h = refl
get_or-modify_self (x ∷ xs) (suc i) f d h = get_or-modify_self xs i f d (omega arith)

pub get_or-append_left :
    (xs ys : List Node) (j : ℕ) (d : Node) → j < length xs → get_or (xs ++ ys) j d ≡ get_or xs j d
get_or-append_left [] ys j d h = absurd (omega arith)
get_or-append_left (x ∷ xs) ys zero d h = refl
get_or-append_left (x ∷ xs) ys (suc j) d h = get_or-append_left xs ys j d (omega arith)

pub get_or-append_node : (xs : List Node) (n d : Node) → get_or (xs ++ (n ∷ [])) (length xs) d ≡ n
get_or-append_node [] n d = refl
get_or-append_node (x ∷ xs) n d = get_or-append_node xs n d

After-mono :
    (count count' j : ℕ) (o : Option ℕ) → count ≤ count' → After count j o → After count' j o
After-mono count count' j none h k = tt
After-mono count count' j (some i) h (k, l) = (k, omega arith)

Inside-mono : (pool pool' : ℕ) (o : Option ℕ) → pool ≤ pool' → Inside pool o → Inside pool' o
Inside-mono pool pool' none h k = tt
Inside-mono pool pool' (some i) h k = omega arith

-- A document that grows keeps its nodes placed.
pub IsPlaced-mono :
    (count count' pool pool' j : ℕ) (n : Node)
    → count ≤ count'
    → pool ≤ pool'
    → IsPlaced count pool j n
    → IsPlaced count' pool' j n
IsPlaced-mono count count' pool pool' j n h k p = record {
  first = After-mono count count' j n.first_child h p.first;
  last = After-mono count count' j n.last_child h p.last;
  next = After-mono count count' j n.next_sibling h p.next;
  text = Inside-mono pool pool' n.text k p.text;
  key = Inside-mono pool pool' n.key k p.key;
  ends = p.ends;
}

pub ArePlaced-modify :
    (count pool : ℕ) (nodes : List Node) (i : ℕ) (f : Node → Node)
    → ((n : Node) → IsPlaced count pool i n → IsPlaced count pool i (f n))
    → ArePlaced count pool nodes
    → ArePlaced count pool (modify nodes i f)
ArePlaced-modify count pool nodes i f keep h j l =
    let inside : j < length nodes = omega (arith, length-modify nodes i f) in
    elim (eq-cases j i) [
      | inl same ↦
          subst (λ k. IsPlaced count pool k (get_or (modify nodes i f) k (leaf json_type_invalid)))
            (sym same)
            (subst (IsPlaced count pool i) (sym (get_or-modify_self nodes i f _ (omega arith)))
              (keep _ (h i (omega arith))))
      | inr other ↦
          subst (IsPlaced count pool j) (sym (get_or-modify_ne nodes i j f _ other)) (h j inside)
    ]

pub ArePlaced-snoc :
    (count pool : ℕ) (nodes : List Node) (n : Node)
    → ArePlaced count pool nodes
    → IsPlaced (suc count) pool (length nodes) n
    → ArePlaced (suc count) pool (nodes ++ (n ∷ []))
ArePlaced-snoc count pool nodes n h k j l = elim (eq-cases j (length nodes)) [
  | inl same ↦
      subst
        (λ k. IsPlaced (suc count) pool k (get_or (nodes ++ (n ∷ [])) k (leaf json_type_invalid)))
        (sym same)
        (subst (IsPlaced (suc count) pool (length nodes)) (sym (get_or-append_node nodes n _)) k)
  | inr other ↦
      let inside : j < length nodes = omega (arith, length-append nodes (n ∷ [])) in
      subst (IsPlaced (suc count) pool j) (sym (get_or-append_left nodes (n ∷ []) j _ inside))
        (IsPlaced-mono count (suc count) pool pool j _ (omega arith) (omega arith) (h j inside))
]
