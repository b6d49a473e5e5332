-- ===== src/Base/Concat.antt =====
-- Lists joined end to end, and filtered by a Boolean test.
use mathlib.Core.Bool.{Bool}
use mathlib.Core.List.{List, [], ◌∷◌, ◌++◌}
use molto.Base.Tests.{if◌then◌else◌}

module _ {ℓ κ} {A : Type ℓ} {B : Type κ} where
  -- What `f` gives for each element, joined in order.
  abbrev pub concat_map : (A → List B) → List A → List B
  concat_map f [] = []
  concat_map f (x ∷ xs) = f x ++ concat_map f xs

module _ {ℓ} {A : Type ℓ} where
  abbrev pub filter : (A → Bool) → List A → List A
  filter f [] = []
  filter f (x ∷ xs) = if f x then x ∷ filter f xs else filter f xs
