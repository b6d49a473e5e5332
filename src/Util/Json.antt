-- ===== src/Util/Json.antt =====
-- src/util/json.c: the document, its node array and its text pool, and the parser's state. A
-- `size_t` that may be `NO_INDEX` is an option. An allocation is taken to succeed.
use molto.Base.{
  ℕ, zero, suc, ◌+◌, Bytes, Bool, false, Option, none, some, List, [], ◌∷◌, ◌++◌, length, drop,
  get_or,
}
pub mod Strings
pub mod Values
pub mod Outcomes
pub mod Pushes
pub mod Linked
pub mod Steps
pub mod Reads
pub mod Access
pub mod Write
pub mod Nesting
mod Tests

pub data JsonType : Type 0 where
  json_type_invalid json_type_null json_type_bool json_type_number : JsonType
  json_type_string json_type_array json_type_object : JsonType

pub record Node : Type 0 where
  pub kind : JsonType
  pub text : Option ℕ
  pub key : Option ℕ
  pub boolean : Bool
  pub first_child : Option ℕ
  pub last_child : Option ℕ
  pub next_sibling : Option ℕ
  pub child_count : ℕ

pub record JsonDocument : Type 0 where
  pub nodes : List Node
  pub text : Bytes

-- The place in the text, and the document read so far. The text ends where its terminator stands.
pub record Parser : Type 0 where
  pub cursor : Bytes
  pub doc : JsonDocument

-- What a reading function comes to: a value and the state after it, a refusal, or a loop that was
-- given too few rounds, which the program has no counterpart of.
pub data Outcome {ℓ} (A : Type ℓ) : Type ℓ where
  done : A → Outcome A
  refused unfinished : Outcome A

infixl 5 ◌>>=◌
abbrev pub ◌>>=◌ {ℓ κ} : {A : Type ℓ} {B : Type κ} → Outcome A → (A → Outcome B) → Outcome B
done a >>= f = f a
refused >>= f = refused
unfinished >>= f = unfinished

-- `*cursor`
abbrev pub peek : Bytes → ℕ
peek s = get_or s 0 0

-- `cursor += n`
abbrev pub advance : ℕ → Parser → Parser
advance n state = record state { cursor = drop n state.cursor }

abbrev pub leaf : JsonType → Node
leaf kind = record {
  kind = kind;
  text = none;
  key = none;
  boolean = false;
  first_child = none;
  last_child = none;
  next_sibling = none;
  child_count = 0;
}

unfoldable pub add_node : JsonDocument → JsonType → ℕ × JsonDocument
add_node doc kind = (length doc.nodes, record doc { nodes = doc.nodes ++ (leaf kind ∷ []) })

unfoldable pub push_byte : Parser → ℕ → Parser
push_byte state byte = record state {
  doc = record state.doc { text = state.doc.text ++ (byte ∷ []) };
}

-- A write through `nodes[i]`.
abbrev pub modify : List Node → ℕ → (Node → Node) → List Node
modify [] i f = []
modify (x ∷ xs) zero f = f x ∷ xs
modify (x ∷ xs) (suc i) f = x ∷ modify xs i f

abbrev pub node_at : JsonDocument → ℕ → Node
node_at doc i = get_or doc.nodes i (leaf json_type_invalid)

-- The link to a new child, from the last of the children there are.
abbrev pub link : Option ℕ → Option ℕ → ℕ → List Node → List Node
link (some first) (some last) child nodes =
    modify nodes last λ n. record n { next_sibling = some child }
link _ _ child nodes = nodes

abbrev pub or_first : Option ℕ → ℕ → Option ℕ
or_first none child = some child
or_first (some first) child = some first

unfoldable pub append_child : JsonDocument → ℕ → ℕ → JsonDocument
append_child doc parent child =
    let owner = node_at doc parent in
    let linked = link owner.first_child owner.last_child child doc.nodes in
    record doc {
      nodes = modify linked parent λ n. record n {
        first_child = or_first n.first_child child;
        last_child = some child;
        child_count = n.child_count + 1;
      };
    }
