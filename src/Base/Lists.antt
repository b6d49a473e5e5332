-- ===== src/Base/Lists.antt =====
-- Lists measured and indexed by native numbers, under the library's names.
use Prim.Native.Nat.{ℕ, zero, suc, ◌+◌, ◌-◌, ◌<◌, ◌≤◌, min}
use Prim.Native.Nat.add
use mathlib.Core.Path.{◌≡◌, refl, ap, subst}
use mathlib.Core.Logic.{◌≢◌, ◌⊎◌, inl, inr}
use mathlib.Core.List.{List, [], ◌∷◌, ◌++◌}
use mathlib.Core.Option.{Option, none, some}
use native.Mathlib.Omega.{arith}

module _ {ℓ} {A : Type ℓ} where
  abbrev pub length : List A → ℕ
  length [] = 0
  length (x ∷ xs) = suc (length xs)

  abbrev pub get_elem? : List A → ℕ → Option A
  get_elem? [] i = none
  get_elem? (x ∷ xs) zero = some x
  get_elem? (x ∷ xs) (suc i) = get_elem? xs i

  abbrev pub get_or : List A → ℕ → A → A
  get_or [] i d = d
  get_or (x ∷ xs) zero d = x
  get_or (x ∷ xs) (suc i) d = get_or xs i d

  -- A write out of bounds changes nothing.
  abbrev pub set : List A → ℕ → A → List A
  set [] i v = []
  set (x ∷ xs) zero v = v ∷ xs
  set (x ∷ xs) (suc i) v = x ∷ set xs i v

  abbrev pub take : ℕ → List A → List A
  take zero xs = []
  take (suc n) [] = []
  take (suc n) (x ∷ xs) = x ∷ take n xs

  abbrev pub drop : ℕ → List A → List A
  drop zero xs = xs
  drop (suc n) [] = []
  drop (suc n) (x ∷ xs) = drop n xs

  abbrev pub replicate : ℕ → A → List A
  replicate zero a = []
  replicate (suc n) a = a ∷ replicate n a

module _ {ℓ} {A : Type ℓ} where
  pub length-append : (xs ys : List A) → length (xs ++ ys) ≡ length xs + length ys
  length-append [] ys = omega arith
  length-append (x ∷ xs) ys = omega (arith, length-append xs ys)

  pub length-set : (xs : List A) (i : ℕ) (v : A) → length (set xs i v) ≡ length xs
  length-set [] i v = refl
  length-set (x ∷ xs) zero v = refl
  length-set (x ∷ xs) (suc i) v = ap suc (length-set xs i v)

  pub take-append-drop : (n : ℕ) (xs : List A) → take n xs ++ drop n xs ≡ xs
  take-append-drop zero xs = refl
  take-append-drop (suc n) [] = refl
  take-append-drop (suc n) (x ∷ xs) = ap (◌∷◌ x) (take-append-drop n xs)

  pub length-take : (n : ℕ) (xs : List A) → length (take n xs) ≡ min n (length xs)
  length-take zero xs = omega arith
  length-take (suc n) [] = omega arith
  length-take (suc n) (x ∷ xs) = omega (arith, length-take n xs)

  pub length-drop : (n : ℕ) (xs : List A) → length (drop n xs) ≡ length xs - n
  length-drop zero xs = omega arith
  length-drop (suc n) [] = omega arith
  length-drop (suc n) (x ∷ xs) = omega (arith, length-drop n xs)

  pub length-replicate : (n : ℕ) (a : A) → length (replicate n a) ≡ n
  length-replicate zero a = refl
  length-replicate (suc n) a = ap suc (length-replicate n a)

  pub take-append_le : (n : ℕ) (xs ys : List A) → n ≤ length xs → take n (xs ++ ys) ≡ take n xs
  take-append_le zero xs ys h = refl
  take-append_le (suc n) [] ys h = absurd (omega arith)
  take-append_le (suc n) (x ∷ xs) ys h = ap (◌∷◌ x) (take-append_le n xs ys (omega arith))

  pub drop-append_le :
      (n : ℕ) (xs ys : List A) → n ≤ length xs → drop n (xs ++ ys) ≡ drop n xs ++ ys
  drop-append_le zero xs ys h = refl
  drop-append_le (suc n) [] ys h = absurd (omega arith)
  drop-append_le (suc n) (x ∷ xs) ys h = drop-append_le n xs ys (omega arith)

  -- A write just behind the first `n` elements lengthens that prefix by the value.
  pub take-set :
      (n : ℕ) (xs : List A) (v : A)
      → n < length xs
      → take (suc n) (set xs n v) ≡ take n xs ++ v ∷ []
  take-set zero [] v h = absurd (omega arith)
  take-set zero (x ∷ xs) v h = refl
  take-set (suc n) [] v h = absurd (omega arith)
  take-set (suc n) (x ∷ xs) v h = ap (◌∷◌ x) (take-set n xs v (omega arith))

  pub take-suc :
      (n : ℕ) (xs : List A) (d : A)
      → n < length xs
      → take (suc n) xs ≡ take n xs ++ get_or xs n d ∷ []
  take-suc zero [] d h = absurd (omega arith)
  take-suc zero (x ∷ xs) d h = refl
  take-suc (suc n) [] d h = absurd (omega arith)
  take-suc (suc n) (x ∷ xs) d h = ap (◌∷◌ x) (take-suc n xs d (omega arith))

  pub drop-get_or :
      (n : ℕ) (xs : List A) (d : A) → n < length xs → drop n xs ≡ get_or xs n d ∷ drop (suc n) xs
  drop-get_or zero [] d h = absurd (omega arith)
  drop-get_or zero (x ∷ xs) d h = refl
  drop-get_or (suc n) [] d h = absurd (omega arith)
  drop-get_or (suc n) (x ∷ xs) d h = drop-get_or n xs d (omega arith)

  pub drop-set : (n k : ℕ) (xs : List A) (v : A) → drop n (set xs (n + k) v) ≡ set (drop n xs) k v
  drop-set zero k xs v = rw add.zero
  drop-set (suc n) k [] v = refl
  drop-set (suc n) k (x ∷ xs) v = rw add.suc (drop-set n k xs v)

  pub get_or-drop : (n k : ℕ) (xs : List A) (d : A) → get_or (drop n xs) k d ≡ get_or xs (n + k) d
  get_or-drop zero k xs d = rw add.zero
  get_or-drop (suc n) k [] d = refl
  get_or-drop (suc n) k (x ∷ xs) d = rw add.suc (get_or-drop n k xs d)

module _ {ℓ} {A : Type ℓ} where
  abbrev pub All {κ} : (A → Type κ) → List A → Type κ
  All P [] = Unit
  All P (x ∷ xs) = P x × All P xs

  -- The list without the element at an index.
  abbrev pub erase_at : List A → ℕ → List A
  erase_at [] i = []
  erase_at (x ∷ xs) zero = xs
  erase_at (x ∷ xs) (suc i) = x ∷ erase_at xs i

module _ {ℓ} {A : Type ℓ} where
  pub All-append {κ} : (P : A → Type κ) (xs ys : List A) → All P xs → All P ys → All P (xs ++ ys)
  All-append P [] ys hx hy = hy
  All-append P (x ∷ xs) ys hx hy = (hx.0, All-append P xs ys hx.1 hy)

  pub All-set {κ} :
      (P : A → Type κ) (xs : List A) (i : ℕ) (v : A) → All P xs → P v → All P (set xs i v)
  All-set P [] i v h k = h
  All-set P (x ∷ xs) zero v h k = (k, h.1)
  All-set P (x ∷ xs) (suc i) v h k = (h.0, All-set P xs i v h.1 k)

  pub All-get_or {κ} :
      (P : A → Type κ) (xs : List A) (i : ℕ) (d : A) → All P xs → i < length xs → P (get_or xs i d)
  All-get_or P [] i d h k = absurd (omega arith)
  All-get_or P (x ∷ xs) zero d h k = h.0
  All-get_or P (x ∷ xs) (suc i) d h k = All-get_or P xs i d h.1 (omega arith)

  pub get_or-set_ne :
      (xs : List A) (i j : ℕ) (v d : A) → i ≢ j → get_or (set xs i v) j d ≡ get_or xs j d
  get_or-set_ne [] i j v d h = refl
  get_or-set_ne (x ∷ xs) zero zero v d h = absurd (h refl)
  get_or-set_ne (x ∷ xs) zero (suc j) v d h = refl
  get_or-set_ne (x ∷ xs) (suc i) zero v d h = refl
  get_or-set_ne (x ∷ xs) (suc i) (suc j) v d h = get_or-set_ne xs i j v d (λ e. h (ap suc e))

  pub get_or-set_self :
      (xs : List A) (i : ℕ) (v d : A) → i < length xs → get_or (set xs i v) i d ≡ v
  get_or-set_self [] i v d h = absurd (omega arith)
  get_or-set_self (x ∷ xs) zero v d h = refl
  get_or-set_self (x ∷ xs) (suc i) v d h = get_or-set_self xs i v d (omega arith)

module _ {ℓ} {A : Type ℓ} where
  pub drop-drop : (a b : ℕ) (xs : List A) → drop a (drop b xs) ≡ drop (b + a) xs
  drop-drop a zero xs = rw add.zero
  drop-drop zero (suc b) [] = rw add.suc
  drop-drop (suc a) (suc b) [] = rw add.suc
  drop-drop a (suc b) (x ∷ xs) = rw add.suc (drop-drop a b xs)

  pub drop-length : (xs : List A) (n : ℕ) → length xs ≤ n → drop n xs ≡ []
  drop-length [] zero h = refl
  drop-length [] (suc n) h = refl
  drop-length (x ∷ xs) zero h = absurd (omega arith)
  drop-length (x ∷ xs) (suc n) h = drop-length xs n (omega arith)

  pub take-add : (a b : ℕ) (xs : List A) → take (a + b) xs ≡ take a xs ++ take b (drop a xs)
  take-add zero b xs = rw add.zero
  take-add (suc a) zero [] = rw add.suc
  take-add (suc a) (suc b) [] = rw add.suc
  take-add (suc a) b (x ∷ xs) = rw add.suc (ap (◌∷◌ x) (take-add a b xs))

-- The predicate holds of an element at least.
abbrev pub Some : {A : Type 0} → (A → Type 0) → List A → Type 0
Some P [] = ⊥
Some P (x ∷ xs) = P x ⊎ Some P xs

pub Some-append :
    {A : Type 0} (P : A → Type 0) (xs ys : List A) → Some P xs ⊎ Some P ys → Some P (xs ++ ys)
Some-append P [] ys (inl h) = absurd h
Some-append P [] ys (inr h) = h
Some-append P (x ∷ xs) ys (inl (inl h)) = inl h
Some-append P (x ∷ xs) ys (inl (inr h)) = inr (Some-append P xs ys (inl h))
Some-append P (x ∷ xs) ys (inr h) = inr (Some-append P xs ys (inr h))

module _ {ℓ} {A : Type ℓ} where
  pub All-get {κ} :
      (P : A → Type κ) (xs : List A) (k : ℕ) {x : A} → All P xs → get_elem? xs k ≡ some x → P x
  All-get P [] k h e = absurd (cc e)
  All-get P (x ∷ xs) zero h e = subst P (cc e) h.0
  All-get P (x ∷ xs) (suc k) h e = All-get P xs k h.1 e

  pub All-tabulate {κ} :
      (P : A → Type κ) (xs : List A) → ((k : ℕ) (x : A) → get_elem? xs k ≡ some x → P x) → All P xs
  All-tabulate P [] f = tt
  All-tabulate P (x ∷ xs) f = (f 0 x refl, All-tabulate P xs (λ k y e. f (suc k) y e))

  pub All-map {κ} : (P Q : A → Type κ) → ((x : A) → P x → Q x) → (xs : List A) → All P xs → All Q xs
  All-map P Q f [] h = tt
  All-map P Q f (x ∷ xs) h = (f x h.0, All-map P Q f xs h.1)
