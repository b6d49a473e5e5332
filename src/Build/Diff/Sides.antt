-- ===== src/Build/Diff/Sides.antt =====
-- The operations of src/build/diff.c replay both files.
use molto.Base.{
  ℕ, zero, suc, ◌+◌, ◌-◌, ◌≤◌, ◌≡◌, refl, sym, ap, ap₂, ◌∙◌, Bool, true, false, ◌&&◌, ◌||◌, List,
  [], ◌∷◌, ◌++◌, append-nil, length, get_or, take, drop, ltb, leb, if◌then◌else◌, Bytes,
  bytes_eq_iff, Bool-cases, inl, inr, take-append-drop, drop-get_or, arith, ltb→lt, drop-drop,
  drop-length,
}
use molto.Build.Diff.{
  op_keep, op_delete, op_add, DiffOp, lines_equal, push_range, lcs_walk, lcs_ops, wholesale_ops,
  common_prefix, common_suffix, build_ops, diff_max_lines, cell, lcs_table,
}

-- The lines that an operation takes from the old file, and those that it gives to the new one.
abbrev pub old_side : List DiffOp → List Bytes
old_side [] = []
old_side (op ∷ ops) = elim op.kind [ op_add ↦ old_side ops | _ ↦ op.text ∷ old_side ops ]

abbrev pub new_side : List DiffOp → List Bytes
new_side [] = []
new_side (op ∷ ops) = elim op.kind [ op_delete ↦ new_side ops | _ ↦ op.text ∷ new_side ops ]

pub lines_equal-eq : (a b : Bytes) → lines_equal a b ≡ true → a ≡ b
unfolding lines_equal
lines_equal-eq a b h = ground (arith, bytes_eq_iff a b)

pub old_side-append : (xs ys : List DiffOp) → old_side (xs ++ ys) ≡ old_side xs ++ old_side ys
old_side-append [] ys = refl
old_side-append (x ∷ xs) ys = ground (arith, old_side-append xs ys)

pub new_side-append : (xs ys : List DiffOp) → new_side (xs ++ ys) ≡ new_side xs ++ new_side ys
new_side-append [] ys = refl
new_side-append (x ∷ xs) ys = ground (arith, new_side-append xs ys)

-- The sides of a range of one kind.
keeps :
    (xs : List Bytes)
    → (old_side (push_range op_keep xs) ≡ xs) × (new_side (push_range op_keep xs) ≡ xs)
unfolding push_range
keeps [] = (refl, refl)
keeps (x ∷ xs) = (ap (◌∷◌ x) (keeps xs).0, ap (◌∷◌ x) (keeps xs).1)

deletes :
    (xs : List Bytes)
    → (old_side (push_range op_delete xs) ≡ xs) × (new_side (push_range op_delete xs) ≡ [])
unfolding push_range
deletes [] = (refl, refl)
deletes (x ∷ xs) = (ap (◌∷◌ x) (deletes xs).0, (deletes xs).1)

adds :
    (xs : List Bytes)
    → (old_side (push_range op_add xs) ≡ []) × (new_side (push_range op_add xs) ≡ xs)
unfolding push_range
adds [] = (refl, refl)
adds (x ∷ xs) = ((adds xs).0, ap (◌∷◌ x) (adds xs).1)

pub both_true : (a b c : Bool) → a && b && c ≡ true → (a ≡ true) × (b ≡ true) × (c ≡ true)
both_true a b c h = ground arith

wholesale :
    (olds news : List Bytes)
    → (old_side (wholesale_ops olds news) ≡ olds) × (new_side (wholesale_ops olds news) ≡ news)
unfolding wholesale_ops
wholesale olds news = (
  simp (old_side-append, (deletes olds).0, (adds news).0, append-nil),
  simp (new_side-append, (deletes olds).1, (adds news).1),
)

walk_sides :
    (table : List (List ℕ)) (i j : ℕ) (olds news : List Bytes)
    → (old_side (lcs_walk table i j olds news) ≡ olds)
      × (new_side (lcs_walk table i j olds news) ≡ news)
unfolding lcs_walk wholesale_ops
walk_sides table i j [] news = wholesale [] news
walk_sides table i j (o ∷ olds) [] = wholesale (o ∷ olds) []
walk_sides table i j (o ∷ olds) (n ∷ news) =
    let both = walk_sides table (i + 1) (j + 1) olds news in
    let skip_old = walk_sides table (i + 1) j olds (n ∷ news) in
    let skip_new = walk_sides table i (j + 1) (o ∷ olds) news in
    elim (Bool-cases (lines_equal o n)) [
      | inl same ↦
          rw same
            (ap (◌∷◌ o) both.0, ap (◌∷◌ o) both.1 ∙ ap (λ l. l ∷ news) (lines_equal-eq o n same))
      | inr differ ↦
          rw differ (elim (Bool-cases (leb (cell table i (j + 1)) (cell table (i + 1) j))) [
            | inl first ↦ rw first (ap (◌∷◌ o) skip_old.0, skip_old.1)
            | inr second ↦ rw second (skip_new.0, ap (◌∷◌ n) skip_new.1)
          ])
    ]

lcs_sides :
    (olds news : List Bytes)
    → (old_side (lcs_ops olds news) ≡ olds) × (new_side (lcs_ops olds news) ≡ news)
unfolding lcs_ops
lcs_sides olds news = walk_sides (lcs_table olds news) 0 0 olds news

prefix_lem :
    (olds news : List Bytes)
    → (take (common_prefix olds news) olds ≡ take (common_prefix olds news) news)
      × (common_prefix olds news ≤ length olds)
      × (common_prefix olds news ≤ length news)
unfolding common_prefix
prefix_lem [] news = (refl, omega arith, omega arith)
prefix_lem (o ∷ olds) [] = (refl, omega arith, omega arith)
prefix_lem (o ∷ olds) (n ∷ news) =
    let (same, a, b) = prefix_lem olds news in
    elim (Bool-cases (lines_equal o n)) [
      | inl e ↦ rw e (ap₂ ◌∷◌ (lines_equal-eq o n e) same, omega arith, omega arith)
      | inr e ↦ rw e (refl, omega arith, omega arith)
    ]

-- What the suffix loop has found: `suffix` lines at the end of both files are the same, and they
-- reach back into no line of the common prefix.
record SuffixInv (olds news : List Bytes) (prefix suffix : ℕ) : Type 0 where
  ends : drop (length olds - suffix) olds ≡ drop (length news - suffix) news
  old_room : suffix + prefix ≤ length olds
  new_room : suffix + prefix ≤ length news

suffix_lem :
    (fuel : ℕ) (olds news : List Bytes) (prefix suffix : ℕ)
    → SuffixInv olds news prefix suffix
    → SuffixInv olds news prefix (common_suffix fuel olds news prefix suffix)
unfolding common_suffix
suffix_lem zero olds news prefix suffix i = i
suffix_lem (suc fuel) olds news prefix suffix i =
    let o = length olds - 1 - suffix in
    let n = length news - 1 - suffix in
    let in_old = ltb suffix (length olds - prefix) in
    let in_new = ltb suffix (length news - prefix) in
    let equal = lines_equal (get_or olds o []) (get_or news n []) in
    elim (Bool-cases (in_old && in_new && equal)) [
      | inr stop ↦ rw stop i
      | inl go ↦
          let (x, y, z) = both_true in_old in_new equal go in
          let step : SuffixInv olds news prefix (suffix + 1) = record {
            ends =
                let eo : length olds - (suffix + 1) ≡ o = omega arith in
                let en : length news - (suffix + 1) ≡ n = omega arith in
                let fo : suc o ≡ length olds - suffix = omega (arith, ltb→lt _ _ x) in
                let fn : suc n ≡ length news - suffix = omega (arith, ltb→lt _ _ y) in
                rw
                  (
                    eo,
                    en,
                    drop-get_or o olds [] (omega (arith, ltb→lt _ _ x)),
                    drop-get_or n news [] (omega (arith, ltb→lt _ _ y)),
                  )
                  (ap₂ ◌∷◌ (lines_equal-eq _ _ z) (rw (fo, fn) i.ends));
            old_room = omega (arith, ltb→lt _ _ x);
            new_room = omega (arith, ltb→lt _ _ y);
          } in
          rw go (suffix_lem fuel olds news prefix (suffix + 1) step)
    ]

-- A list cut into a prefix, a middle and the last `s` elements.
three_parts :
    (xs : List Bytes) (p s : ℕ)
    → s + p ≤ length xs
    → take p xs ++ (take (length xs - p - s) (drop p xs) ++ drop (length xs - s) xs) ≡ xs
three_parts xs p s h =
    let m = length xs - p - s in
    let e : p + m ≡ length xs - s = omega arith in
    rw (← e, ← drop-drop m p xs, take-append-drop m (drop p xs)) (take-append-drop p xs)

middle_sides :
    (large : Bool) (olds news : List Bytes)
    → (old_side (if large then wholesale_ops olds news else lcs_ops olds news) ≡ olds)
      × (new_side (if large then wholesale_ops olds news else lcs_ops olds news) ≡ news)
middle_sides true olds news = wholesale olds news
middle_sides false olds news = lcs_sides olds news

framed_sides :
    (before after : List Bytes) (middle : List DiffOp)
    → (old_side (push_range op_keep before ++ (middle ++ push_range op_keep after))
        ≡ before ++ (old_side middle ++ after))
      × (new_side (push_range op_keep before ++ (middle ++ push_range op_keep after))
          ≡ before ++ (new_side middle ++ after))
framed_sides before after middle = (
  simp (old_side-append, (keeps before).0, (keeps after).0),
  simp (new_side-append, (keeps before).1, (keeps after).1),
)

-- For any two files, the operations of `build_ops` without the additions are the old file's lines,
-- and without the deletions the new file's, in order.
pub build_ops-sides :
    (olds news : List Bytes)
    → (old_side (build_ops olds news) ≡ olds) × (new_side (build_ops olds news) ≡ news)
unfolding build_ops
build_ops-sides olds news =
    let p = common_prefix olds news in
    let s = common_suffix (length olds) olds news p 0 in
    let (same, po, pn) = prefix_lem olds news in
    let start : SuffixInv olds news p 0 = record {
      ends = drop-length olds _ (omega arith) ∙ sym (drop-length news _ (omega arith));
      old_room = omega arith;
      new_room = omega arith;
    } in
    let i = suffix_lem (length olds) olds news p 0 start in
    let mo = length olds - p - s in
    let mn = length news - p - s in
    let large = ltb diff_max_lines mo || ltb diff_max_lines mn in
    let (f, g) = framed_sides (take p olds) (drop (length olds - s) olds) _ in
    let (u, v) = middle_sides large (take mo (drop p olds)) (take mn (drop p news)) in
    (
      f ∙ rw u (three_parts olds p s i.old_room),
      g ∙ rw (v, same, i.ends) (three_parts news p s i.new_room),
    )

pub lines_equal_self : (a : Bytes) → lines_equal a a ≡ true
unfolding lines_equal
lines_equal_self a = ground (arith, bytes_eq_iff a a)
