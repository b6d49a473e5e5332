-- ===== src/Build/Diff/Hunks/Patch.antt =====
-- What a reader of the hunks of src/build/diff.c does with them: `patch` applies them to the old
-- file's lines by the numbers and the bodies that they print, and refuses any that do not fit.
use mathlib.Core.Option
use molto.Base.{
  ℕ, ◌+◌, ◌-◌, ◌≤◌, ◌<◌, ◌≡◌, refl, ap, Bool, true, false, ◌&&◌, Option, none, some, List, [], ◌∷◌,
  ◌++◌, length, take, drop, ltb, leb, ◌==◌, if◌then◌else◌, Bytes, Bool-cases, inl, inr, arith,
  ltb→lt, length-append,
}
use molto.Build.Diff.{DiffOp, lines_equal}
use molto.Build.Diff.Sides.{old_side, new_side, lines_equal_self}
use molto.Build.Diff.Hunks.{Hunk, old_lines, new_lines}

-- How many lines lie between line `at`, counted from 0, and line `start`, counted from 1.
unfoldable pub gap_to : ℕ → ℕ → Option ℕ
gap_to start at = if ltb at start then some (start - 1 - at) else none

-- A hunk without lines of the old file is found by its place in the new one.
unfoldable pub hunk_gap : ℕ → ℕ → Hunk → Option ℕ
unfolding gap_to
hunk_gap old_at new_at h =
    if ltb 0 h.old_count then gap_to h.old_start old_at else gap_to h.new_start new_at

-- What follows the given lines, if the text begins with them.
unfoldable pub strip_lines : List Bytes → List Bytes → Option (List Bytes)
unfolding lines_equal
strip_lines [] rest = some rest
strip_lines (x ∷ xs) [] = none
strip_lines (x ∷ xs) (y ∷ ys) = if lines_equal x y then strip_lines xs ys else none

abbrev pub counts_fit : Hunk → Bool
counts_fit h = h.old_count == length (old_side h.ops) && h.new_count == length (new_side h.ops)

-- The new file's lines from the old file's, at a line of each, counted from 0.
unfoldable pub patch : ℕ → ℕ → List Hunk → List Bytes → Option (List Bytes)
patch old_at new_at [] rest = some rest
patch old_at new_at (h ∷ hs) rest = elim (hunk_gap old_at new_at h) [
  | none ↦ none
  | some gap ↦ elim (leb gap (length rest) && counts_fit h) [
    | false ↦ none
    | true ↦ elim (strip_lines (old_side h.ops) (drop gap rest)) [
      | none ↦ none
      | some left ↦
          Option.map (λ new. take gap rest ++ (new_side h.ops ++ new))
            (patch (old_at + gap + h.old_count) (new_at + gap + h.new_count) hs left)
    ]
  ]
]

strip_lines-append : (xs ys : List Bytes) → strip_lines xs (xs ++ ys) ≡ some ys
unfolding strip_lines
strip_lines-append [] ys = refl
strip_lines-append (x ∷ xs) ys = rw (lines_equal_self x) (strip_lines-append xs ys)

take-prefix : (xs ys : List Bytes) → take (length xs) (xs ++ ys) ≡ xs
take-prefix [] ys = refl
take-prefix (x ∷ xs) ys = ap (◌∷◌ x) (take-prefix xs ys)

drop-prefix : (xs ys : List Bytes) → drop (length xs) (xs ++ ys) ≡ ys
drop-prefix [] ys = refl
drop-prefix (x ∷ xs) ys = drop-prefix xs ys

-- A hunk that fits behind the lines `before` replaces its old side there by its new one.
pub patch-hunk :
    (old_at new_at : ℕ) (h : Hunk) (hs : List Hunk) (before rest new : List Bytes)
    → hunk_gap old_at new_at h ≡ some (length before)
    → counts_fit h ≡ true
    → patch (old_at + length before + h.old_count) (new_at + length before + h.new_count) hs rest
      ≡ some new
    → patch old_at new_at (h ∷ hs) (before ++ (old_side h.ops ++ rest))
      ≡ some (before ++ (new_side h.ops ++ new))
unfolding patch
patch-hunk old_at new_at h hs before rest new g c p =
    let tail = old_side h.ops ++ rest in
    let room : leb (length before) (length (before ++ tail)) ≡ true =
      ground (arith, length-append before tail) in
    rw (
      patch,
      g,
      room,
      c,
      drop-prefix before tail,
      strip_lines-append (old_side h.ops) rest,
      p,
      take-prefix before tail,
    )

pub old_side-length : (ops : List DiffOp) → length (old_side ops) ≡ old_lines ops
old_side-length [] = refl
old_side-length (op ∷ ops) = ground (arith, old_side-length ops)

pub new_side-length : (ops : List DiffOp) → length (new_side ops) ≡ new_lines ops
new_side-length [] = refl
new_side-length (op ∷ ops) = ground (arith, new_side-length ops)

pub length-le-lines : (ops : List DiffOp) → length ops ≤ old_lines ops + new_lines ops
length-le-lines [] = omega arith
length-le-lines (op ∷ ops) = ground (arith, length-le-lines ops)

gap_to_lem : (start at gap : ℕ) → start ≡ at + gap + 1 → gap_to start at ≡ some gap
unfolding gap_to
gap_to_lem start at gap e = ground arith

-- The gap to a hunk whose numbers are right.
pub hunk_gap_lem :
    (old_at new_at gap : ℕ) (h : Hunk)
    → 0 < h.old_count + h.new_count
    → (0 < h.old_count → h.old_start ≡ old_at + gap + 1)
    → (0 < h.new_count → h.new_start ≡ new_at + gap + 1)
    → hunk_gap old_at new_at h ≡ some gap
unfolding hunk_gap
hunk_gap_lem old_at new_at gap h some_line old new = elim (Bool-cases (ltb 0 h.old_count)) [
  | inl t ↦ rw t (gap_to_lem h.old_start old_at gap (old (ltb→lt _ _ t)))
  | inr t ↦ rw t (gap_to_lem h.new_start new_at gap (new (ground arith)))
]
