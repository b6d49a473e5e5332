-- ===== src/Util/Json/Outcomes.antt =====
-- Postconditions on the outcomes of src/util/json.c's readers: no loop ran out of rounds, and what
-- was read satisfies a predicate.
use molto.Base.{Bool, true, false, ◌≡◌, refl, if◌then◌else◌}
use molto.Util.Json.{Outcome, done, refused, unfinished, ◌>>=◌}

abbrev pub Ensures {ℓ} : {A : Type ℓ} → (A → Type 0) → Outcome A → Type 0
Ensures P (done a) = P a
Ensures P refused = Unit
Ensures P unfinished = ⊥

module _ {ℓ κ} {A : Type ℓ} {B : Type κ} where
  pub Ensures-bind :
      (P : A → Type 0) (Q : B → Type 0) (m : Outcome A) (f : A → Outcome B)
      → Ensures P m
      → ((a : A) → P a → Ensures Q (f a))
      → Ensures Q (m >>= f)
  Ensures-bind P Q (done a) f h k = k a h
  Ensures-bind P Q refused f h k = tt
  Ensures-bind P Q unfinished f h k = h

module _ {ℓ} {A : Type ℓ} where
  pub Ensures-if :
      (P : A → Type 0) (b : Bool) (x y : Outcome A)
      → (b ≡ true → Ensures P x)
      → (b ≡ false → Ensures P y)
      → Ensures P (if b then x else y)
  Ensures-if P true x y hx hy = hx refl
  Ensures-if P false x y hx hy = hy refl

  pub Ensures-map :
      (P Q : A → Type 0) (m : Outcome A) → Ensures P m → ((a : A) → P a → Q a) → Ensures Q m
  Ensures-map P Q (done a) h k = k a h
  Ensures-map P Q refused h k = tt
  Ensures-map P Q unfinished h k = h

  -- A list loop's end: another round, the closing bracket, or neither.
  pub Ensures-round :
      (P : A → Type 0) (more closed : Bool) (next : Outcome A) (a : A)
      → (more ≡ true → Ensures P next)
      → P a
      → Ensures P (elim more [ true ↦ next | false ↦ if closed then done a else refused ])
  Ensures-round P true closed next a h k = h refl
  Ensures-round P false true next a h k = k
  Ensures-round P false false next a h k = tt
