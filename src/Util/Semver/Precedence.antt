-- ===== src/Util/Semver/Precedence.antt =====
-- The order of versions of src/util/semver.c is a total preorder.
use Prim.Native.Nat.{compare, Ordering}
use Prim.Native.Nat.compare
use molto.Base.{
  ℕ, zero, suc, ◌≤◌, ◌≡◌, refl, sym, ap, ap₂, ◌∙◌, false, List, [], ◌∷◌, length, take, min, ◌==◌,
  if◌then◌else◌, Bytes, Bool-cases, inl, inr, arith,
}
use molto.Util.Semver.{
  Semver, or_else, next_identifier, all_digits, memcmp, compare_identifier, compare_from,
  compare_prerelease, semver_compare,
}
use molto.Util.Semver.Lawful.{
  IsLawful, compare-IsLawful, IsLawful-on, IsLawful-or_else, lex, lex-IsLawful, or_else_assoc,
  Ordering-cases, IsLawful-same,
}

memcmp-lex :
    (a b : Bytes)
    → or_else
        (memcmp (take (min (length a) (length b)) a) (take (min (length a) (length b)) b))
        (compare (length a) (length b))
      ≡ lex compare a b
unfolding memcmp
memcmp-lex [] [] = refl
memcmp-lex [] (y ∷ b) =
    let m : min 0 (suc (length b)) ≡ 0 = omega arith in
    let k : compare 0 (suc (length b)) ≡ Ordering.lt = ground arith in rw (m, k) refl
memcmp-lex (x ∷ a) [] =
    let m : min (suc (length a)) 0 ≡ 0 = omega arith in
    let k : compare (suc (length a)) 0 ≡ Ordering.gt = ground arith in rw (m, k) refl
memcmp-lex (x ∷ a) (y ∷ b) =
    let m : min (suc (length a)) (suc (length b)) ≡ suc (min (length a) (length b)) = omega arith in
    let k : compare (suc (length a)) (suc (length b)) ≡ compare (length a) (length b) =
      compare.suc-suc (length a) (length b) in
    rw (m, k)
      (or_else_assoc (compare x y)
          (memcmp (take (min (length a) (length b)) a) (take (min (length a) (length b)) b))
          (compare (length a) (length b))
        ∙ ap (or_else (compare x y)) (memcmp-lex a b))

-- Runs of digits come first, the shorter one of two first.
abbrev rank : Bytes → ℕ
rank a = if all_digits a then 0 else 1

abbrev digit_count : Bytes → ℕ
digit_count a = if all_digits a then length a else 0

abbrev by_identifier : Bytes → Bytes → Ordering
by_identifier a b =
    or_else (compare (rank a) (rank b))
      (or_else (compare (digit_count a) (digit_count b)) (lex compare a b))

or_else_decided :
    (m n : ℕ) (next : Ordering) → (m == n) ≡ false → compare m n ≡ or_else (compare m n) next
or_else_decided m n next h = elim (Ordering-cases (compare m n)) [
  | inl e ↦ rw e refl
  | inr (inl e) ↦ absurd (ground arith)
  | inr (inr e) ↦ rw e refl
]

compare_identifier_lem : (a b : Bytes) → compare_identifier a b ≡ by_identifier a b
unfolding compare_identifier
compare_identifier_lem a b = elim (Bool-cases (all_digits a)) [
  | inl da ↦ elim (Bool-cases (all_digits b)) [
    | inl db ↦ elim (Bool-cases (length a == length b)) [
      | inl same ↦
          let level : compare (length a) (length b) ≡ Ordering.eq = ground arith in
          rw (da, db, same, memcmp-lex a b, level) refl
      | inr other ↦
          rw (da, db, other) (or_else_decided (length a) (length b) (lex compare a b) other)
    ]
    | inr db ↦ rw (da, db) refl
  ]
  | inr da ↦ elim (Bool-cases (all_digits b)) [
    | inl db ↦ rw (da, db) refl
    | inr db ↦ rw (da, db) (memcmp-lex a b)
  ]
]

by_identifier-IsLawful : IsLawful by_identifier
by_identifier-IsLawful =
    IsLawful-or_else (λ a b. compare (rank a) (rank b))
      (λ a b. or_else (compare (digit_count a) (digit_count b)) (lex compare a b))
      (IsLawful-on compare rank compare-IsLawful)
      (IsLawful-or_else (λ a b. compare (digit_count a) (digit_count b)) (lex compare)
        (IsLawful-on compare digit_count compare-IsLawful) (lex-IsLawful compare compare-IsLawful))

-- The identifiers of a pre-release.
abbrev with_head : ℕ → List Bytes → List Bytes
with_head c [] = (c ∷ []) ∷ []
with_head c (w ∷ ws) = (c ∷ w) ∷ ws

identifiers : Bytes → List Bytes
identifiers [] = []
identifiers (c ∷ s) = let more = identifiers s in if c == b'.' then [] ∷ more else with_head c more

identifiers-next :
    (c : ℕ) (s : Bytes)
    → identifiers (c ∷ s) ≡ (next_identifier (c ∷ s)).0 ∷ identifiers (next_identifier (c ∷ s)).1
unfolding identifiers next_identifier
identifiers-next c [] = elim (Bool-cases (c == b'.')) [
  | inl dot ↦ rw dot refl
  | inr other ↦ rw other refl
]
identifiers-next c (d ∷ s) = elim (Bool-cases (c == b'.')) [
  | inl dot ↦ rw dot refl
  | inr other ↦ rw (identifiers, next_identifier, other) (ap (with_head c) (identifiers-next d s))
]

next_identifier-length : (c : ℕ) (s : Bytes) → length (next_identifier (c ∷ s)).1 ≤ length s
unfolding next_identifier
next_identifier-length c [] = elim (Bool-cases (c == b'.')) [
  | inl dot ↦ rw dot (omega arith)
  | inr other ↦ rw other (omega arith)
]
next_identifier-length c (d ∷ s) = elim (Bool-cases (c == b'.')) [
  | inl dot ↦ rw dot (omega arith)
  | inr other ↦ rw (next_identifier, other) (omega (arith, next_identifier-length d s))
]

-- With a round for each byte the loop compares the lists of identifiers.
compare_from_lem :
    (fuel : ℕ) (a b : Bytes)
    → length a ≤ fuel
    → compare_from fuel a b ≡ lex by_identifier (identifiers a) (identifiers b)
unfolding compare_from identifiers
compare_from_lem zero [] [] h = refl
compare_from_lem zero [] (y ∷ b) h = rw (identifiers-next y b) refl
compare_from_lem zero (x ∷ a) b h = absurd (omega arith)
compare_from_lem (suc fuel) [] [] h = refl
compare_from_lem (suc fuel) [] (y ∷ b) h = rw (identifiers-next y b) refl
compare_from_lem (suc fuel) (x ∷ a) [] h = rw (identifiers-next x a) refl
compare_from_lem (suc fuel) (x ∷ a) (y ∷ b) h =
    let (a_word, a_next) = next_identifier (x ∷ a) in
    let (b_word, b_next) = next_identifier (y ∷ b) in
    let shorter = next_identifier-length x a in
    rw (identifiers-next x a, identifiers-next y b)
      (ap₂ or_else (compare_identifier_lem a_word b_word)
        (compare_from_lem fuel a_next b_next (omega (arith, h, shorter))))

-- A pre-release that is missing comes last.
abbrev missing : Bytes → ℕ
missing [] = 1
missing (_ ∷ _) = 0

abbrev by_prerelease : Bytes → Bytes → Ordering
by_prerelease a b =
    or_else (compare (missing a) (missing b)) (lex by_identifier (identifiers a) (identifiers b))

compare_prerelease_lem : (a b : Bytes) → compare_prerelease a b ≡ by_prerelease a b
unfolding compare_prerelease identifiers
compare_prerelease_lem [] [] = refl
compare_prerelease_lem [] (y ∷ b) = refl
compare_prerelease_lem (x ∷ a) [] = refl
compare_prerelease_lem (x ∷ a) (y ∷ b) =
    compare_from_lem (length (x ∷ a)) (x ∷ a) (y ∷ b) (omega arith)

by_prerelease-IsLawful : IsLawful by_prerelease
by_prerelease-IsLawful =
    IsLawful-or_else (λ a b. compare (missing a) (missing b))
      (λ a b. lex by_identifier (identifiers a) (identifiers b))
      (IsLawful-on compare missing compare-IsLawful)
      (IsLawful-on (lex by_identifier) identifiers
        (lex-IsLawful by_identifier by_identifier-IsLawful))

compare_prerelease-IsLawful : IsLawful compare_prerelease
compare_prerelease-IsLawful =
    IsLawful-same by_prerelease compare_prerelease (λ a b. sym (compare_prerelease_lem a b))
      by_prerelease-IsLawful

-- Precedence is a total preorder of versions: exchanging two of them turns the answer round, it is
-- transitive, and two that compare equal compare alike with any third.
pub semver_compare-IsLawful : IsLawful semver_compare
unfolding semver_compare
semver_compare-IsLawful =
    IsLawful-or_else (λ a b. compare a.major b.major)
      (λ a b.
        or_else (compare a.minor b.minor)
          (or_else (compare a.patch b.patch) (compare_prerelease a.prerelease b.prerelease)))
      (IsLawful-on compare Semver.major compare-IsLawful)
      (IsLawful-or_else (λ a b. compare a.minor b.minor)
        (λ a b. or_else (compare a.patch b.patch) (compare_prerelease a.prerelease b.prerelease))
        (IsLawful-on compare Semver.minor compare-IsLawful)
        (IsLawful-or_else (λ a b. compare a.patch b.patch)
          (λ a b. compare_prerelease a.prerelease b.prerelease)
          (IsLawful-on compare Semver.patch compare-IsLawful)
          (IsLawful-on compare_prerelease Semver.prerelease compare_prerelease-IsLawful)))
