-- ===== src/Util/Json/Nesting.antt =====
-- src/util/json.c: a document nested deeper than the limit is refused.
use molto.Base.{
  ℕ, zero, suc, ◌≤◌, ◌<◌, ◌≡◌, refl, ap, Bytes, [], ◌∷◌, ◌++◌, arith, length, replicate,
}
use molto.Util.Json.{JsonDocument, Outcome, refused, ◌>>=◌, add_node, json_type_array}
use molto.Util.Json.Values.{
  Reader, skip_blanks, skip_whitespace, parse_array, array_elements, value_by_char, parse_value,
  json_max_depth, json_parse,
}

refused_then {ℓ κ} :
    {A : Type ℓ} {B : Type κ} (m : Outcome A) (f : A → Outcome B)
    → m ≡ refused
    → (m >>= f) ≡ refused
refused_then m f e = ap (λ k. k >>= f) e

-- A list whose first value is refused is refused.
parse_array-refused :
    (read : Reader) (rounds : ℕ) (rest : Bytes) (doc : JsonDocument)
    → ((d : JsonDocument) → read (record { cursor = b'[' ∷ rest; doc = d }) ≡ refused)
    → parse_array read (suc rounds) (record { cursor = b'[' ∷ b'[' ∷ rest; doc = doc }) ≡ refused
unfolding parse_array skip_whitespace skip_blanks array_elements
parse_array-refused read rounds rest doc h =
    refused_then (read (record { cursor = b'[' ∷ rest; doc = (add_node doc json_type_array).1 })) _
      (h ((add_node doc json_type_array).1))

parse_value-nested :
    (room rounds k : ℕ) (rest : Bytes) (doc : JsonDocument)
    → room ≤ k
    → parse_value room (suc rounds) (record { cursor = replicate (suc k) b'[' ++ rest; doc = doc })
      ≡ refused
unfolding parse_value value_by_char skip_whitespace skip_blanks
parse_value-nested zero rounds k rest doc h = refl
parse_value-nested (suc room) rounds zero rest doc h = absurd (omega arith)
parse_value-nested (suc room) rounds (suc k) rest doc h =
    parse_array-refused (parse_value room (suc rounds)) rounds (replicate k b'[' ++ rest) doc
      λ d. parse_value-nested room rounds k rest d (omega arith)

-- A text that opens more lists than the limit of nesting is refused, whatever follows.
pub json_parse-nested :
    (n : ℕ) (rest : Bytes) → json_max_depth < n → json_parse (replicate n b'[' ++ rest) ≡ refused
unfolding json_parse
json_parse-nested zero rest h = absurd (omega arith)
json_parse-nested (suc k) rest h =
    let text = replicate (suc k) b'[' ++ rest in
    refused_then
      (parse_value json_max_depth (suc (length text))
        (record { cursor = text; doc = record { nodes = []; text = [] } }))
      _ (parse_value-nested json_max_depth (length text) k rest _ (omega arith))
