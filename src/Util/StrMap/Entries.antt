-- ===== src/Util/StrMap/Entries.antt =====
-- src/util/str_map.c's entries: what they hold, and what a write, a push and a swap make of it.
use molto.Base.{
  ℕ, zero, suc, ◌<◌, ◌≡◌, ◌≢◌, refl, ap, Bytes, Option, some, some_eq, List, [], ◌∷◌, ◌++◌, arith,
  length, get_elem?, set, take,
}
use molto.Util.StrMap.{key_at, with_value}

module _ {V : Type 0} where
  abbrev pub At : List (Bytes × V) → ℕ → Bytes → V → Type 0
  At entries i key value = get_elem? entries i ≡ some (key, value)

  -- An entry with the key and the value.
  abbrev pub Holds : List (Bytes × V) → Bytes → V → Type 0
  Holds entries key value = (i : ℕ) × At entries i key value

  -- No two entries have one key.
  abbrev pub AreDistinct : List (Bytes × V) → Type 0
  AreDistinct entries =
      (i j : ℕ) (key : Bytes) (v w : V) → At entries i key v → At entries j key w → i ≡ j

  -- The entries are the graph of a partial function on keys.
  abbrev pub Models : List (Bytes × V) → (Bytes → Option V) → Type 0
  Models entries f =
      (key : Bytes) (value : V)
      → (Holds entries key value → f key ≡ some value)
        × (f key ≡ some value → Holds entries key value)

  pub At-lt :
      (entries : List (Bytes × V)) (i : ℕ) (key : Bytes) (v : V)
      → At entries i key v
      → i < length entries
  At-lt [] i key v h = absurd (cc h)
  At-lt (e ∷ entries) zero key v h = omega arith
  At-lt (e ∷ entries) (suc i) key v h = omega (arith, At-lt entries i key v h)

  pub At-key_at :
      (entries : List (Bytes × V)) (i : ℕ) (key : Bytes) (v : V)
      → At entries i key v
      → key_at entries i ≡ key
  At-key_at [] i key v h = absurd (cc h)
  At-key_at ((k, w) ∷ entries) zero key v h = ap (λ (e : Bytes × V). e.0) (some_eq h)
  At-key_at (e ∷ entries) (suc i) key v h = At-key_at entries i key v h

  pub At-of_lt :
      (entries : List (Bytes × V)) (i : ℕ)
      → i < length entries
      → (v : V) × At entries i (key_at entries i) v
  At-of_lt [] i h = absurd (omega arith)
  At-of_lt ((k, w) ∷ entries) zero h = (w, refl)
  At-of_lt (e ∷ entries) (suc i) h = At-of_lt entries i (omega arith)

  pub length-with_value :
      (entries : List (Bytes × V)) (i : ℕ) (v : V)
      → length (with_value entries i v) ≡ length entries
  length-with_value [] i v = refl
  length-with_value ((k, w) ∷ entries) zero v = refl
  length-with_value (e ∷ entries) (suc i) v = omega (arith, length-with_value entries i v)

  pub key_at-with_value :
      (entries : List (Bytes × V)) (i j : ℕ) (v : V)
      → key_at (with_value entries i v) j ≡ key_at entries j
  key_at-with_value [] i j v = refl
  key_at-with_value ((k, w) ∷ entries) zero zero v = refl
  key_at-with_value ((k, w) ∷ entries) zero (suc j) v = refl
  key_at-with_value ((k, w) ∷ entries) (suc i) zero v = refl
  key_at-with_value (e ∷ entries) (suc i) (suc j) v = key_at-with_value entries i j v

  pub get-with_value_self :
      (entries : List (Bytes × V)) (i : ℕ) (v : V)
      → i < length entries
      → At (with_value entries i v) i (key_at entries i) v
  get-with_value_self [] i v h = absurd (omega arith)
  get-with_value_self ((k, w) ∷ entries) zero v h = refl
  get-with_value_self (e ∷ entries) (suc i) v h = get-with_value_self entries i v (omega arith)

  pub get-with_value_ne :
      (entries : List (Bytes × V)) (i j : ℕ) (v : V)
      → i ≢ j
      → get_elem? (with_value entries i v) j ≡ get_elem? entries j
  get-with_value_ne [] i j v h = refl
  get-with_value_ne ((k, w) ∷ entries) zero zero v h = absurd (h refl)
  get-with_value_ne ((k, w) ∷ entries) zero (suc j) v h = refl
  get-with_value_ne ((k, w) ∷ entries) (suc i) zero v h = refl
  get-with_value_ne (e ∷ entries) (suc i) (suc j) v h =
      get-with_value_ne entries i j v (λ q. h (ap suc q))

  pub get-append_left :
      (xs ys : List (Bytes × V)) (i : ℕ) → i < length xs → get_elem? (xs ++ ys) i ≡ get_elem? xs i
  get-append_left [] ys i h = absurd (omega arith)
  get-append_left (x ∷ xs) ys zero h = refl
  get-append_left (x ∷ xs) ys (suc i) h = get-append_left xs ys i (omega arith)

  pub get-append_last :
      (xs : List (Bytes × V)) (key : Bytes) (v : V) → At (xs ++ ((key, v) ∷ [])) (length xs) key v
  get-append_last [] key v = refl
  get-append_last (x ∷ xs) key v = get-append_last xs key v

  pub get_take :
      (n : ℕ) (xs : List (Bytes × V)) (i : ℕ) → i < n → get_elem? (take n xs) i ≡ get_elem? xs i
  get_take zero xs i h = absurd (omega arith)
  get_take (suc n) [] i h = refl
  get_take (suc n) (x ∷ xs) zero h = refl
  get_take (suc n) (x ∷ xs) (suc i) h = get_take n xs i (omega arith)

  pub get_set_self :
      (xs : List (Bytes × V)) (i : ℕ) (e : Bytes × V)
      → i < length xs
      → get_elem? (set xs i e) i ≡ some e
  get_set_self [] i e h = absurd (omega arith)
  get_set_self (x ∷ xs) zero e h = refl
  get_set_self (x ∷ xs) (suc i) e h = get_set_self xs i e (omega arith)

  pub get_set_ne :
      (xs : List (Bytes × V)) (i j : ℕ) (e : Bytes × V)
      → i ≢ j
      → get_elem? (set xs i e) j ≡ get_elem? xs j
  get_set_ne [] i j e h = refl
  get_set_ne (x ∷ xs) zero zero e h = absurd (h refl)
  get_set_ne (x ∷ xs) zero (suc j) e h = refl
  get_set_ne (x ∷ xs) (suc i) zero e h = refl
  get_set_ne (x ∷ xs) (suc i) (suc j) e h = get_set_ne xs i j e (λ q. h (ap suc q))
