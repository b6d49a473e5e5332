-- ===== src/Util/Semver/Tests.antt =====
-- Runs of src/util/semver.c, and the theorem on the highest version at concrete inputs.
use Prim.Native.Nat.{Ordering}
use molto.Base.{◌≡◌, refl, none, some, List, [], ◌∷◌, All, Some, Bytes, codes, arith, take, drop}
use molto.Util.Semver.{
  Semver, is_digit, semver_parse, semver_compare, compare_prerelease, best_from, semver_highest,
  compare_newest_first, semver_sort_desc,
}
use molto.Util.Semver.Sorted.{InOrder, IsVersion, semver_sort_desc_lem}
use molto.Util.Semver.Highest.{NotAfter, semver_highest_lem, semver_highest-none}

abbrev release : Semver
release = record { major = 1; minor = 10; patch = 0; prerelease = []; build = codes "x86" }

parses : semver_parse (codes "1.10.0+x86") ≡ some release
unfolding semver_parse
parses = refl

strict :
    (semver_parse (codes "1.01.0") ≡ none)
    × (semver_parse (codes "v1.0.0") ≡ none)
    × (semver_parse (codes "1.0") ≡ none)
    × (semver_parse (codes "1.0.0-a..b") ≡ none)
    × (semver_parse (codes "18446744073709551616.0.0") ≡ none)
unfolding semver_parse
strict = (refl, refl, refl, refl, refl)

pre_releases :
    (compare_prerelease (codes "rc.2") (codes "rc.10") ≡ Ordering.lt)
    × (compare_prerelease (codes "1") (codes "alpha") ≡ Ordering.lt)
    × (compare_prerelease (codes "rc") [] ≡ Ordering.lt)
    × (compare_prerelease (codes "rc") (codes "rc.1") ≡ Ordering.lt)
unfolding compare_prerelease is_digit
pre_releases = (refl, refl, refl, refl)

-- A numeric identifier may have leading zeroes, and then sorts by its length.
leading_zeroes : compare_prerelease (codes "002") (codes "10") ≡ Ordering.gt
unfolding compare_prerelease is_digit
leading_zeroes = refl

abbrev texts : List Bytes
texts = codes "1.9.0" ∷ codes "gcc-13" ∷ codes "1.10.0+x86" ∷ codes "1.10.0-rc.1" ∷ []

highest : semver_highest texts 32 ≡ some (codes "1.10.0+x86")
unfolding semver_highest best_from semver_parse semver_compare
highest = refl

semver_highest_lem_example :
    (v : Semver) × (semver_parse (codes "1.10.0+x86") ≡ some v)
    × Some (λ u. u ≡ codes "1.10.0+x86") texts
    × All (NotAfter v) texts
semver_highest_lem_example = semver_highest_lem texts 32 highest

none_highest : semver_highest (codes "gcc-13" ∷ codes "latest" ∷ []) 32 ≡ none
unfolding semver_highest best_from semver_parse
none_highest = refl

semver_highest-none_example :
    All (λ text. semver_parse text ≡ none) (codes "gcc-13" ∷ codes "latest" ∷ [])
semver_highest-none_example =
    semver_highest-none (codes "gcc-13" ∷ codes "latest" ∷ []) 32
      ((omega arith), ((omega arith), tt)) none_highest

-- An insertion sort in the place of `qsort`.
abbrev insert : (Bytes → Bytes → Ordering) → Bytes → List Bytes → List Bytes
insert cmp x [] = x ∷ []
insert cmp x (y ∷ ys) = elim (cmp x y) [ Ordering.gt ↦ y ∷ insert cmp x ys | _ ↦ x ∷ y ∷ ys ]

abbrev insertion_sort : (Bytes → Bytes → Ordering) → List Bytes → List Bytes
insertion_sort cmp [] = []
insertion_sort cmp (x ∷ xs) = insert cmp x (insertion_sort cmp xs)

abbrev few : List Bytes
few = codes "gcc" ∷ codes "1.9.0" ∷ codes "1.10.0" ∷ []

sorts : semver_sort_desc insertion_sort few ≡ (codes "1.10.0" ∷ codes "1.9.0" ∷ codes "gcc" ∷ [], 2)
unfolding semver_sort_desc compare_newest_first semver_parse semver_compare
sorts = refl

sorted_InOrder : InOrder compare_newest_first (insertion_sort compare_newest_first few)
unfolding compare_newest_first semver_parse semver_compare
sorted_InOrder = (((λ e. cc e), ((λ e. cc e), tt)), (((λ e. cc e), tt), (tt, tt)))

semver_sort_desc_lem_example :
    InOrder compare_newest_first (semver_sort_desc insertion_sort few).0
    × All IsVersion
        (take (semver_sort_desc insertion_sort few).1 (semver_sort_desc insertion_sort few).0)
    × All
        (λ text. semver_parse text ≡ none)
        (drop (semver_sort_desc insertion_sort few).1 (semver_sort_desc insertion_sort few).0)
semver_sort_desc_lem_example = semver_sort_desc_lem insertion_sort few sorted_InOrder
