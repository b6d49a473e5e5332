-- ===== src/Util/Semver/Sorted.antt =====
-- What `semver_sort_desc` of src/util/semver.c counts.
use Prim.Native.Nat.{Ordering}
use molto.Base.{
  ◌≡◌, ◌≢◌, refl, ap, true, false, none, List, [], ◌∷◌, length, take, drop, ltb, Bytes, is_some,
  All, All-map, Bool-cases, Option-cases, inl, inr, arith,
}
use molto.Util.Semver.{semver_parse, compare_newest_first, leading_versions, semver_sort_desc}

-- No element comes after a later one.
abbrev pub InOrder : (Bytes → Bytes → Ordering) → List Bytes → Type 0
InOrder cmp [] = Unit
InOrder cmp (x ∷ xs) = All (λ y. cmp x y ≢ Ordering.gt) xs × InOrder cmp xs

abbrev pub IsVersion : Bytes → Type 0
IsVersion text = is_some (semver_parse text) ≡ true

-- Behind a text that is no version there is none.
after_other :
    (text : Bytes) (texts : List Bytes)
    → semver_parse text ≡ none
    → All (λ y. compare_newest_first text y ≢ Ordering.gt) texts
    → All (λ y. semver_parse y ≡ none) texts
unfolding compare_newest_first
after_other text texts e h =
    All-map (λ y. compare_newest_first text y ≢ Ordering.gt) (λ y. semver_parse y ≡ none)
      (λ y n. elim (Option-cases (semver_parse y)) [
        | inl f ↦ f
        | inr (v, f) ↦ absurd (n (rw (compare_newest_first, e, f) refl))
      ])
      texts h

leading_versions_lem :
    (texts : List Bytes)
    → InOrder compare_newest_first texts
    → All IsVersion (take (leading_versions texts) texts)
      × All (λ text. semver_parse text ≡ none) (drop (leading_versions texts) texts)
unfolding leading_versions
leading_versions_lem [] h = (tt, tt)
leading_versions_lem (text ∷ texts) (first, rest) = elim (Option-cases (semver_parse text)) [
  | inl e ↦ rw (leading_versions, e) (tt, (e, after_other text texts e first))
  | inr (v, e) ↦
      let (versions, others) = leading_versions_lem texts rest in
      rw (leading_versions, e) ((ap is_some e, versions), others)
]

short_InOrder :
    (cmp : Bytes → Bytes → Ordering) (list : List Bytes)
    → ltb 1 (length list) ≡ false
    → InOrder cmp list
short_InOrder cmp [] h = tt
short_InOrder cmp (x ∷ []) h = (tt, tt)
short_InOrder cmp (x ∷ y ∷ xs) h = absurd (ground arith)

-- Where `qsort` puts this list in the order that it is given, the list that `semver_sort_desc`
-- leaves is newest first, as many texts in front as it answers are versions, and no text behind
-- them is one.
pub semver_sort_desc_lem :
    (qsort : (Bytes → Bytes → Ordering) → List Bytes → List Bytes) (list : List Bytes)
    → InOrder compare_newest_first (qsort compare_newest_first list)
    → InOrder compare_newest_first (semver_sort_desc qsort list).0
      × All IsVersion (take (semver_sort_desc qsort list).1 (semver_sort_desc qsort list).0)
      × All
          (λ text. semver_parse text ≡ none)
          (drop (semver_sort_desc qsort list).1 (semver_sort_desc qsort list).0)
unfolding semver_sort_desc
semver_sort_desc_lem qsort list h = elim (Bool-cases (ltb 1 (length list))) [
  | inl long ↦
      let (versions, others) = leading_versions_lem (qsort compare_newest_first list) h in
      rw long (h, versions, others)
  | inr short ↦
      let o = short_InOrder compare_newest_first list short in
      let (versions, others) = leading_versions_lem list o in rw short (o, versions, others)
]
