-- ===== src/Build/Diff/Longest.antt =====
-- `lcs_ops` of src/build/diff.c keeps a longest common subsequence.
use molto.Base.{
  ℕ, zero, suc, ◌+◌, ◌≤◌, ◌≡◌, refl, sym, ap, ◌∙◌, ◌⊎◌, true, false, List, [], ◌∷◌, ◌++◌, length,
  get_or, drop, replicate, ltb, leb, if◌then◌else◌, Bytes, Bool-cases, inl, inr, arith, max, subst,
  ap₂, drop-drop,
}
use molto.Build.Diff.{
  op_keep, op_delete, op_add, DiffOp, lines_equal, push_range, lcs_row, lcs_table, cell, lcs_walk,
  lcs_ops,
}
use molto.Build.Diff.Sides.{lines_equal-eq, lines_equal_self}

-- `Subsequence xs ys`: `xs` is `ys` with some lines left out.
pub data Subsequence : List Bytes → List Bytes → Type 0 where
  end : Subsequence [] []
  skip : {y : Bytes} {xs ys : List Bytes} → Subsequence xs ys → Subsequence xs (y ∷ ys)
  keep : {y : Bytes} {xs ys : List Bytes} → Subsequence xs ys → Subsequence (y ∷ xs) (y ∷ ys)

abbrev pub kept : List DiffOp → List Bytes
kept [] = []
kept (op ∷ ops) = elim op.kind [ op_keep ↦ op.text ∷ kept ops | _ ↦ kept ops ]

-- The length by the recursion that the table stands for.
lcs_length : List Bytes → List Bytes → ℕ
lcs_length [] news = 0
lcs_length (o ∷ olds) [] = 0
lcs_length (o ∷ olds) (n ∷ news) =
    let both = lcs_length olds news + 1 in
    let either = max (lcs_length olds (n ∷ news)) (lcs_length (o ∷ olds) news) in
    if lines_equal o n then both else either

nothing : (ys : List Bytes) → Subsequence [] ys
nothing [] = end
nothing (y ∷ ys) = skip (nothing ys)

Subsequence-inv :
    {y : Bytes} {xs ys : List Bytes}
    → Subsequence xs (y ∷ ys)
    → Subsequence xs ys ⊎ ((zs : List Bytes) × (xs ≡ y ∷ zs) × Subsequence zs ys)
Subsequence-inv (skip s) = inl s
Subsequence-inv (keep {xs} s) = inr (xs, refl, s)

drop_first : {xs ys : List Bytes} → Subsequence xs ys → Subsequence (drop 1 xs) ys
drop_first end = end
drop_first (skip s) = skip (drop_first s)
drop_first (keep s) = skip s

drop_both : {y : Bytes} {xs ys : List Bytes} → Subsequence xs (y ∷ ys) → Subsequence (drop 1 xs) ys
drop_both (skip s) = drop_first s
drop_both (keep s) = s

Subsequence-nil : {xs : List Bytes} → Subsequence xs [] → xs ≡ []
Subsequence-nil end = refl

length-drop_one : (xs : List Bytes) → length xs ≤ length (drop 1 xs) + 1
length-drop_one [] = omega arith
length-drop_one (x ∷ xs) = omega arith

lcs_length_bound :
    (olds news zs : List Bytes)
    → Subsequence zs olds
    → Subsequence zs news
    → length zs ≤ lcs_length olds news
unfolding lcs_length
lcs_length_bound [] news zs s t = rw (Subsequence-nil s) (omega arith)
lcs_length_bound (o ∷ olds) [] zs s t = rw (Subsequence-nil t) (omega arith)
lcs_length_bound (o ∷ olds) (n ∷ news) zs s t =
    let both = lcs_length_bound olds news (drop 1 zs) (drop_both s) (drop_both t) in
    let left = lcs_length_bound olds (n ∷ news) zs in
    let right = lcs_length_bound (o ∷ olds) news zs in
    elim (Bool-cases (lines_equal o n)) [
      | inl same ↦ rw same (omega (arith, length-drop_one zs, both))
      | inr differ ↦ rw differ (elim (Subsequence-inv s) [
        | inl s' ↦ omega (arith, left s' t)
        | inr (us, eu, _) ↦ elim (Subsequence-inv t) [
          | inl t' ↦ omega (arith, right s t')
          | inr (vs, ev, _) ↦
              let e : o ≡ n = cc in let f : lines_equal o n ≡ true = rw e (lines_equal_self n) in cc
        ]
      ])
    ]

get_or-tail : (xs : List ℕ) (j : ℕ) → get_or (drop 1 xs) j 0 ≡ get_or xs (suc j) 0
get_or-tail [] j = refl
get_or-tail (x ∷ xs) j = refl

get_or-zeros : (n j : ℕ) → get_or {A = ℕ} (replicate n 0) j 0 ≡ 0
get_or-zeros zero j = refl
get_or-zeros (suc n) zero = refl
get_or-zeros (suc n) (suc j) = get_or-zeros n j

larger : (a b : ℕ) → (if ltb a b then b else a) ≡ max b a
larger a b = ground arith

lcs_row_lem :
    (o : Bytes) (olds news : List Bytes) (below : List ℕ)
    → ((j : ℕ) → get_or below j 0 ≡ lcs_length olds (drop j news))
    → (j : ℕ) → get_or (lcs_row o news below) j 0 ≡ lcs_length (o ∷ olds) (drop j news)
unfolding lcs_row lcs_length
lcs_row_lem o olds [] below h zero = refl
lcs_row_lem o olds [] below h (suc j) = refl
lcs_row_lem o olds (n ∷ news) below h (suc j) =
    lcs_row_lem o olds news (drop 1 below) (λ k. get_or-tail below k ∙ h (suc k)) j
lcs_row_lem o olds (n ∷ news) below h zero =
    let r = lcs_row_lem o olds news (drop 1 below) (λ k. get_or-tail below k ∙ h (suc k)) 0 in
    let d = h 0 in
    let b = h 1 in
    elim (Bool-cases (lines_equal o n)) [
      | inl same ↦ rw (same, b)
      | inr differ ↦
          rw (differ, d, r) (larger (lcs_length (o ∷ olds) news) (lcs_length olds (n ∷ news)))
    ]

lcs_table_lem :
    (olds news : List Bytes) (i j : ℕ)
    → cell (lcs_table olds news) i j ≡ lcs_length (drop i olds) (drop j news)
unfolding lcs_table lcs_length
lcs_table_lem [] news zero j = get_or-zeros (length news + 1) j
lcs_table_lem [] news (suc i) j = refl
lcs_table_lem (o ∷ olds) news zero j = lcs_row_lem o olds news _ (lcs_table_lem olds news zero) j
lcs_table_lem (o ∷ olds) news (suc i) j = lcs_table_lem olds news i j

drop-next :
    (xs : List Bytes) (i : ℕ) {y : Bytes} {ys : List Bytes}
    → drop i xs ≡ y ∷ ys
    → drop (i + 1) xs ≡ ys
drop-next xs i e = sym (drop-drop 1 i xs) ∙ ap (drop 1) e

kept-append : (xs ys : List DiffOp) → kept (xs ++ ys) ≡ kept xs ++ kept ys
kept-append [] ys = refl
kept-append (x ∷ xs) ys = ground (arith, kept-append xs ys)

kept_none :
    (xs : List Bytes) → (kept (push_range op_delete xs) ≡ []) × (kept (push_range op_add xs) ≡ [])
unfolding push_range
kept_none [] = (refl, refl)
kept_none (x ∷ xs) = kept_none xs

tail_kept :
    (olds news : List Bytes) → kept (push_range op_delete olds ++ push_range op_add news) ≡ []
tail_kept olds news = simp (kept-append, (kept_none olds).0, (kept_none news).1)

-- The kept lines of a walk are common to both files, whatever the table says.
walk-Subsequence :
    (table : List (List ℕ)) (i j : ℕ) (olds news : List Bytes)
    → Subsequence (kept (lcs_walk table i j olds news)) olds
      × Subsequence (kept (lcs_walk table i j olds news)) news
unfolding lcs_walk
walk-Subsequence table i j [] news = rw tail_kept (end, nothing news)
walk-Subsequence table i j (o ∷ olds) [] = rw tail_kept (nothing (o ∷ olds), end)
walk-Subsequence table i j (o ∷ olds) (n ∷ news) =
    let both = walk-Subsequence table (i + 1) (j + 1) olds news in
    let skip_old = walk-Subsequence table (i + 1) j olds (n ∷ news) in
    let skip_new = walk-Subsequence table i (j + 1) (o ∷ olds) news in
    elim (Bool-cases (lines_equal o n)) [
      | inl same ↦ rw same (
        keep both.0,
        subst (λ y. Subsequence (o ∷ kept (lcs_walk table (i + 1) (j + 1) olds news)) (y ∷ news))
            (lines_equal-eq o n same) (keep both.1),
      )
      | inr differ ↦
          rw differ (elim (Bool-cases (leb (cell table i (j + 1)) (cell table (i + 1) j))) [
            | inl first ↦ rw first (skip skip_old.0, skip_old.1)
            | inr second ↦ rw second (skip_new.0, skip skip_new.1)
          ])
    ]

old_wins : (a b : ℕ) {r d : ℕ} → r ≡ b → d ≡ a → leb r d ≡ true → a ≡ max a b
old_wins a b e f h = ground arith

new_wins : (a b : ℕ) {r d : ℕ} → r ≡ b → d ≡ a → leb r d ≡ false → b ≡ max a b
new_wins a b e f h = ground arith

module _ (all_old all_new : List Bytes) where
  -- With the table of the two files, a walk keeps as many lines as the recursion counts.
  walk_length :
      (i j : ℕ) (olds news : List Bytes)
      → drop i all_old ≡ olds
      → drop j all_new ≡ news
      → length (kept (lcs_walk (lcs_table all_old all_new) i j olds news)) ≡ lcs_length olds news
  unfolding lcs_walk lcs_length
  walk_length i j [] news eo en = rw tail_kept
  walk_length i j (o ∷ olds) [] eo en = rw tail_kept
  walk_length i j (o ∷ olds) (n ∷ news) eo en =
      let eo' = drop-next all_old i eo in
      let en' = drop-next all_new j en in
      let both = walk_length (i + 1) (j + 1) olds news eo' en' in
      let skip_old = walk_length (i + 1) j olds (n ∷ news) eo' en in
      let skip_new = walk_length i (j + 1) (o ∷ olds) news eo en' in
      let table = lcs_table all_old all_new in
      let right : cell table i (j + 1) ≡ lcs_length (o ∷ olds) news =
        lcs_table_lem all_old all_new i (j + 1) ∙ ap₂ lcs_length eo en' in
      let down : cell table (i + 1) j ≡ lcs_length olds (n ∷ news) =
        lcs_table_lem all_old all_new (i + 1) j ∙ ap₂ lcs_length eo' en in
      elim (Bool-cases (lines_equal o n)) [
        | inl same ↦ rw same (omega (arith, both))
        | inr differ ↦
            rw differ (elim (Bool-cases (leb (cell table i (j + 1)) (cell table (i + 1) j))) [
              | inl first ↦ rw first (skip_old ∙ old_wins _ _ right down first)
              | inr second ↦ rw second (skip_new ∙ new_wins _ _ right down second)
            ])
      ]

-- The lines that `lcs_ops` keeps are a subsequence of both files, and no common subsequence of the
-- two is longer: the edit that is shown is a shortest one.
pub lcs_ops-longest :
    (olds news zs : List Bytes)
    → Subsequence zs olds
    → Subsequence zs news
    → Subsequence (kept (lcs_ops olds news)) olds
      × Subsequence (kept (lcs_ops olds news)) news
      × (length zs ≤ length (kept (lcs_ops olds news)))
unfolding lcs_ops
lcs_ops-longest olds news zs s t =
    let (a, b) = walk-Subsequence (lcs_table olds news) 0 0 olds news in
    (
      a,
      b,
      omega
          (arith, walk_length olds news 0 0 olds news refl refl, lcs_length_bound olds news zs s t),
    )
