-- ===== src/Util/Semver.antt =====
-- src/util/semver.c: versions. A cursor into the text is the bytes from there on; the answers -1, 0
-- and 1 of a comparison are `lt`, `eq` and `gt`.
pub mod Lawful
pub mod Precedence
pub mod Highest
pub mod Sorted
mod Tests
use Prim.Native.Nat.{compare, Ordering}
use molto.Base.{
  ℕ, zero, suc, ◌+◌, ◌-◌, ◌*◌, ◌/◌, ◌^◌, Bool, true, false, not, ◌&&◌, ◌||◌, Option, none, some,
  List, [], ◌∷◌, length, take, min, leb, ltb, ◌==◌, if◌then◌else◌, Bytes, ◌>>=◌,
}

unfoldable pub is_digit : ℕ → Bool
is_digit c = leb b'0' c && leb c b'9'

unfoldable pub is_identifier_char : ℕ → Bool
unfolding is_digit
is_identifier_char c =
    is_digit c || (leb b'a' c && leb c b'z') || (leb b'A' c && leb c b'Z') || c == b'-'

-- The largest `unsigned long`.
abbrev pub ulong_max : ℕ
ulong_max = 2 ^ 64 - 1

-- The loop of `read_number`.
unfoldable pub read_digits : ℕ → Bytes → Option (ℕ × Bytes)
unfolding is_digit
read_digits value [] = some (value, [])
read_digits value (c ∷ s) =
    let digit = c - b'0' in
    let more = read_digits (value * 10 + digit) s in
    if is_digit c
    then (if ltb ((ulong_max - digit) / 10) value then none else more)
    else some (value, c ∷ s)

abbrev pub starts_with_digit : Bytes → Bool
starts_with_digit [] = false
starts_with_digit (c ∷ s) = is_digit c

unfoldable pub read_number : Bytes → Option (ℕ × Bytes)
unfolding read_digits
read_number [] = none
read_number (c ∷ s) =
    if not (is_digit c)
    then none
    else if c == b'0' && starts_with_digit s
    then none
    else read_digits 0 (c ∷ s)

abbrev pub longer_tag : ℕ → Option (Bytes × Bytes) → Option (Bytes × Bytes)
longer_tag c none = none
longer_tag c (some (tag, rest)) = some (c ∷ tag, rest)

-- The loop of `read_tag`; `identifier` counts the bytes of the identifier it is in.
unfoldable pub tag_from : ℕ → Bytes → Option (Bytes × Bytes)
unfolding is_identifier_char
tag_from identifier [] = if identifier == 0 then none else some ([], [])
tag_from identifier (c ∷ s) =
    let inside = longer_tag c (tag_from (identifier + 1) s) in
    let next = longer_tag c (tag_from 0 s) in
    if is_identifier_char c
    then inside
    else if identifier == 0
    then none
    else if c == b'.'
    then next
    else some ([], c ∷ s)

-- SEMVER_PRERELEASE_MAX and SEMVER_BUILD_MAX
abbrev pub semver_tag_max : ℕ
semver_tag_max = 64

unfoldable pub read_tag : Bytes → Option (Bytes × Bytes)
unfolding tag_from
read_tag s = tag_from 0 s >>= λ (tag, rest).
    if leb semver_tag_max (length tag) then none else some (tag, rest)

pub record Semver : Type 0 where
  pub major : ℕ
  pub minor : ℕ
  pub patch : ℕ
  pub prerelease : Bytes
  pub build : Bytes

-- A byte that must stand next.
abbrev pub expect : ℕ → Bytes → Option Bytes
expect x [] = none
expect x (c ∷ s) = if c == x then some s else none

-- A tag behind its mark, where the mark stands next; else no tag.
unfoldable pub optional_tag : ℕ → Bytes → Option (Bytes × Bytes)
unfolding read_tag
optional_tag mark [] = some ([], [])
optional_tag mark (c ∷ s) = let tag = read_tag s in if c == mark then tag else some ([], c ∷ s)

abbrev pub at_end : Bytes → Semver → Option Semver
at_end [] v = some v
at_end (_ ∷ _) v = none

unfoldable pub semver_parse : Bytes → Option Semver
unfolding read_number optional_tag
semver_parse text = do
  (major, rest1) ← read_number text
  rest2 ← expect b'.' rest1
  (minor, rest3) ← read_number rest2
  rest4 ← expect b'.' rest3
  (patch, rest5) ← read_number rest4
  (prerelease, rest6) ← optional_tag b'-' rest5
  (build, rest7) ← optional_tag b'+' rest6
  at_end rest7 (record {
    major = major;
    minor = minor;
    patch = patch;
    prerelease = prerelease;
    build = build;
  })

-- The first answer, and the second where the first is `eq`.
abbrev pub or_else : Ordering → Ordering → Ordering
or_else Ordering.lt _ = Ordering.lt
or_else Ordering.gt _ = Ordering.gt
or_else Ordering.eq next = next

-- `next_identifier`: the bytes up to a dot, and what follows the dot.
unfoldable pub next_identifier : Bytes → Bytes × Bytes
next_identifier [] = ([], [])
next_identifier (c ∷ s) =
    let (word, rest) = next_identifier s in if c == b'.' then ([], s) else (c ∷ word, rest)

abbrev pub are_digits : Bytes → Bool
are_digits [] = true
are_digits (c ∷ s) = is_digit c && are_digits s

unfoldable pub all_digits : Bytes → Bool
all_digits s = are_digits s && ltb 0 (length s)

-- `memcmp` on two runs of one length.
unfoldable pub memcmp : Bytes → Bytes → Ordering
memcmp (x ∷ a) (y ∷ b) = or_else (compare x y) (memcmp a b)
memcmp _ _ = Ordering.eq

unfoldable pub compare_identifier : Bytes → Bytes → Ordering
unfolding all_digits memcmp
compare_identifier a b =
    let shared = min (length a) (length b) in
    let text = or_else (memcmp (take shared a) (take shared b)) (compare (length a) (length b)) in
    if all_digits a
    then (if all_digits b
        then (if length a == length b then text else compare (length a) (length b))
        else Ordering.lt)
    else if all_digits b
    then Ordering.gt
    else text

-- The end of `compare_prerelease`: more identifiers win a tie.
abbrev pub compare_ends : Bytes → Bytes → Ordering
compare_ends [] [] = Ordering.eq
compare_ends [] (_ ∷ _) = Ordering.lt
compare_ends (_ ∷ _) [] = Ordering.gt
compare_ends (_ ∷ _) (_ ∷ _) = Ordering.eq

-- The loop of `compare_prerelease`; `fuel` bounds its rounds, each of which reads a byte at least.
unfoldable pub compare_from : ℕ → Bytes → Bytes → Ordering
unfolding next_identifier compare_identifier
compare_from zero a b = compare_ends a b
compare_from (suc fuel) [] b = compare_ends [] b
compare_from (suc fuel) (x ∷ a) [] = compare_ends (x ∷ a) []
compare_from (suc fuel) (x ∷ a) (y ∷ b) =
    let (a_word, a_next) = next_identifier (x ∷ a) in
    let (b_word, b_next) = next_identifier (y ∷ b) in
    or_else (compare_identifier a_word b_word) (compare_from fuel a_next b_next)

unfoldable pub compare_prerelease : Bytes → Bytes → Ordering
unfolding compare_from
compare_prerelease [] [] = Ordering.eq
compare_prerelease [] (_ ∷ _) = Ordering.gt
compare_prerelease (_ ∷ _) [] = Ordering.lt
compare_prerelease (x ∷ a) (y ∷ b) = compare_from (length (x ∷ a)) (x ∷ a) (y ∷ b)

unfoldable pub semver_compare : Semver → Semver → Ordering
unfolding compare_prerelease
semver_compare a b = or_else (compare a.major b.major) (
    or_else (compare a.minor b.minor)
      (or_else (compare a.patch b.patch) (compare_prerelease a.prerelease b.prerelease)))

-- The later of the best version so far and a candidate; `none` is a text that is no version.
abbrev pub better : Option (Bytes × Semver) → Bytes → Option Semver → Option (Bytes × Semver)
better best text none = best
better none text (some candidate) = some (text, candidate)
better (some (best_text, best)) text (some candidate) = elim (semver_compare candidate best) [
  | Ordering.gt ↦ some (text, candidate)
  | _ ↦ some (best_text, best)
]

-- The loop of `semver_highest`.
unfoldable pub best_from : Option (Bytes × Semver) → List Bytes → Option (Bytes × Semver)
best_from best [] = best
best_from best (text ∷ texts) = best_from (better best text (semver_parse text)) texts

-- `none` where no text is a version, or the best one does not fit in `out_size` bytes.
unfoldable pub semver_highest : List Bytes → ℕ → Option Bytes
unfolding best_from
semver_highest versions out_size = do
  (best_text, best) ← best_from none versions
  if ltb 0 (length best_text) && ltb (length best_text) out_size then some best_text else none

-- `compare_newest_first` on what the two texts parse to.
abbrev pub newest_first : Option Semver → Option Semver → Ordering
newest_first none none = Ordering.eq
newest_first none (some _) = Ordering.gt
newest_first (some _) none = Ordering.lt
newest_first (some a) (some b) = semver_compare b a

unfoldable pub compare_newest_first : Bytes → Bytes → Ordering
compare_newest_first a b = newest_first (semver_parse a) (semver_parse b)

-- The loop that counts the versions in front.
unfoldable pub leading_versions : List Bytes → ℕ
leading_versions [] = 0
leading_versions (text ∷ texts) =
    let more = suc (leading_versions texts) in elim (semver_parse text) [ none ↦ 0 | some _ ↦ more ]

module _ (qsort : (Bytes → Bytes → Ordering) → List Bytes → List Bytes) where
  -- The list in its order, and the count that is answered. `qsort` is the function of the C library.
  unfoldable pub semver_sort_desc : List Bytes → List Bytes × ℕ
  unfolding leading_versions
  semver_sort_desc list =
      let sorted = if ltb 1 (length list) then qsort compare_newest_first list else list in
      (sorted, leading_versions sorted)
