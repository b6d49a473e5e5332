-- ===== src/Build/Diff/Hunks/Patched.antt =====
-- Patching the old file by the hunks of src/build/diff.c gives the new one.
use molto.Base.{
  ℕ, zero, suc, ◌+◌, ◌-◌, ◌≤◌, ◌<◌, ◌≡◌, refl, sym, ap, ap₂, ◌∙◌, true, some, List, [], ◌∷◌, ◌++◌,
  length, get_or, take, drop, ltb, Bool-cases, inl, inr, arith, drop-drop, take-append-drop,
  take-suc, ltb→lt, lt→ltb, length-drop, length-take,
}
use molto.Build.Diff.{DiffOp}
use molto.Build.Diff.Sides.{old_side, new_side, old_side-append, new_side-append}
use molto.Build.Diff.Hunks.{
  Hunk, old_lines, new_lines, slice, write_hunk, no_op, changes_at, walk_back, last_change, walk_on,
  hunks_from, write_hunks,
}
use molto.Build.Diff.Hunks.Context.{
  old_lines-append, new_lines-append, keep_lem, last_change_bounds, walk_on_bounds, slice_rest,
  take_back,
}
use molto.Build.Diff.Hunks.Apart.{
  Quiet, Quiet-suc, walk_back-Walked, Edge, Edge-walk_back, hunk-Edge, Quiet-Same,
}
use molto.Build.Diff.Hunks.Patch.{
  hunk_gap, patch, counts_fit, patch-hunk, old_side-length, new_side-length, length-le-lines,
  hunk_gap_lem,
}

take-all : (xs : List DiffOp) → take (length xs) xs ≡ xs
take-all [] = refl
take-all (x ∷ xs) = ap (◌∷◌ x) (take-all xs)

length-slice :
    (ops : List DiffOp) (first last : ℕ)
    → first ≤ last
    → last < length ops
    → 0 < length (slice first last ops)
length-slice ops first last h l =
    omega (arith, length-take (last + 1 - first) (drop first ops), length-drop first ops)

-- What is left of both files from operation `floor` on, and where it begins.
abbrev pub Patches : List DiffOp → ℕ → List Hunk → Type 0
Patches ops floor hs =
    patch (old_lines (take floor ops)) (new_lines (take floor ops)) hs (old_side (drop floor ops))
    ≡ some (new_side (drop floor ops))

Patches-end :
    (ops : List DiffOp) (floor at : ℕ)
    → floor ≤ at
    → length ops ≤ at
    → floor ≤ length ops
    → Quiet ops floor at
    → Patches ops floor []
unfolding patch
Patches-end ops floor at h l f q =
    let s =
      Quiet-Same (length ops - floor) floor ops (omega arith) (λ p a b. q p a (omega arith)) in
    let all : take (length ops - floor) (drop floor ops) ≡ drop floor ops =
      rw (← length-drop floor ops) (take-all (drop floor ops)) in
    ap some (ap old_side (sym all) ∙ s.sides ∙ ap new_side all)

-- A hunk from `first` to `last`, with only equal lines between `floor` and `first`.
Patches-hunk :
    (ops : List DiffOp) (floor first last o n : ℕ) (hs : List Hunk)
    → floor ≤ first
    → first ≤ last
    → last < length ops
    → Quiet ops floor first
    → o ≡ old_lines (take first ops) + 1
    → n ≡ new_lines (take first ops) + 1
    → Patches ops (last + 1) hs
    → Patches ops floor (write_hunk ops first last o n ∷ hs)
unfolding write_hunk
Patches-hunk ops floor first last o n hs lo hi inside q eo en p =
    let gap = first - floor in
    let e : floor + gap ≡ first = omega arith in
    let mid = take gap (drop floor ops) in
    let body = slice first last ops in
    let s = Quiet-Same gap floor ops (omega arith) (rw e q) in
    let cut : drop floor ops ≡ mid ++ (body ++ drop (last + 1) ops) =
      sym (take-append-drop gap (drop floor ops))
      ∙ ap (λ t. mid ++ t)
          (drop-drop gap floor ops
            ∙ ap (λ (k : ℕ). drop k ops) e
            ∙ sym (slice_rest ops first last (omega arith))) in
    let before = old_side mid in
    let size : length before ≡ gap = old_side-length mid ∙ s.old_same in
    let head = take_back ops floor first lo in
    let upto = take_back ops first (last + 1) (omega arith) in
    let old_head = ap old_lines head ∙ old_lines-append (take floor ops) mid in
    let new_head = ap new_lines head ∙ new_lines-append (take floor ops) mid in
    let old_end = ap old_lines upto ∙ old_lines-append (take first ops) body in
    let new_end = ap new_lines upto ∙ new_lines-append (take first ops) body in
    let h = write_hunk ops first last o n in
    let found : hunk_gap (old_lines (take floor ops)) (new_lines (take floor ops)) h
        ≡ some (length before) =
      hunk_gap_lem (old_lines (take floor ops)) (new_lines (take floor ops)) (length before) h
        (omega (arith, length-le-lines body, length-slice ops first last hi inside))
        (λ t. rw (lt→ltb _ _ t) (omega (arith, old_head, s.old_same)))
        (λ t. rw (lt→ltb _ _ t) (omega (arith, new_head, s.new_same))) in
    let fit : counts_fit h ≡ true = ground (arith, old_side-length body, new_side-length body) in
    let eo2 : old_lines (take floor ops) + length before + old_lines body
        ≡ old_lines (take (last + 1) ops) =
      omega (arith, old_end, old_head, s.old_same) in
    let en2 : new_lines (take floor ops) + length before + new_lines body
        ≡ new_lines (take (last + 1) ops) =
      omega (arith, new_end, new_head, s.new_same) in
    let tail = drop (last + 1) ops in
    let r =
      patch-hunk (old_lines (take floor ops)) (new_lines (take floor ops)) h hs before
        (old_side tail) (new_side tail) found fit (rw (eo2, en2) p) in
    let olds =
      ap old_side cut
      ∙ old_side-append mid (body ++ tail)
      ∙ ap (λ t. before ++ t) (old_side-append body tail) in
    let news =
      ap new_side cut
      ∙ new_side-append mid (body ++ tail)
      ∙ ap₂ ◌++◌ (sym s.sides) (new_side-append body tail) in
    rw (olds, news) r

-- The outer loop at `at`, with everything before `floor` in hunks already written.
hunks_from-Patches :
    (fuel : ℕ) (ops : List DiffOp) (context floor at o n : ℕ)
    → length ops ≤ fuel + at
    → floor ≤ at
    → floor ≤ length ops
    → Quiet ops floor at
    → Edge ops context floor
    → o ≡ old_lines (take at ops) + 1
    → n ≡ new_lines (take at ops) + 1
    → Patches ops floor (hunks_from fuel ops context at o n)
unfolding hunks_from
hunks_from-Patches zero ops context floor at o n h l f q edge eo en =
    Patches-end ops floor at l (omega arith) f q
hunks_from-Patches (suc fuel) ops context floor at o n h l f q edge eo en =
    let first = walk_back context ops at in
    let reached = last_change context (drop at ops) at at 0 in
    let last = walk_on context ops reached in
    let body = slice at last ops in
    let op = get_or ops at no_op in
    let e : at + 1 ≡ suc at = omega arith in
    elim (Bool-cases (ltb at (length ops))) [
      | inr past ↦ rw past (Patches-end ops floor at l (ground arith) f q)
      | inl inside ↦
          let lt : at < length ops = ltb→lt at (length ops) inside in
          let grown : take (at + 1) ops ≡ take at ops ++ op ∷ [] =
            ap (λ (k : ℕ). take k ops) e ∙ take-suc at ops no_op lt in
          elim (Bool-cases (changes_at ops at)) [
            | inr same ↦
                let (ko, kn, _) = keep_lem op [] same in
                rw (inside, same)
                  (hunks_from-Patches fuel ops context floor (at + 1) (o + 1) (n + 1) (omega arith)
                    (omega arith) f (Quiet-suc ops floor at q same) edge
                    (omega
                      (arith, ap old_lines grown, old_lines-append (take at ops) (op ∷ []), ko))
                    (omega
                      (arith, ap new_lines grown, new_lines-append (take at ops) (op ∷ []), kn)))
            | inl change ↦
                let (low, high) =
                  last_change_bounds context (drop at ops) at at 0 at (length ops) (omega arith)
                    (omega arith) lt (omega (arith, length-drop at ops)) in
                let (on, in_range) = walk_on_bounds context ops reached high in
                let tk = take_back ops at (last + 1) (omega arith) in
                let w = walk_back-Walked context ops at at (λ p a b. absurd (omega arith)) in
                let above = Edge-walk_back ops context floor at l change edge in
                let back = w.back in
                let back_take = take_back ops first at back in
                let s =
                  Quiet-Same (at - first) first ops (omega arith)
                    (λ p a b. w.quiet p a (omega arith)) in
                let mid = take (at - first) (drop first ops) in
                rw (inside, change)
                  (Patches-hunk ops floor first last (o - (at - first)) (n - (at - first)) _ above
                    (omega arith) in_range (λ p a b. q p a (omega arith))
                    (omega (
                      arith,
                      ap old_lines back_take,
                      old_lines-append (take first ops) mid,
                      s.old_same,
                    ))
                    (omega (
                      arith,
                      ap new_lines back_take,
                      new_lines-append (take first ops) mid,
                      s.new_same,
                    ))
                    (hunks_from-Patches fuel ops context (last + 1) (last + 1) (o + old_lines body)
                      (n + new_lines body) (omega arith) (omega arith) (omega arith)
                      (λ p a b. absurd (omega arith)) (hunk-Edge ops context at)
                      (omega (arith, ap old_lines tk, old_lines-append (take at ops) body))
                      (omega (arith, ap new_lines tk, new_lines-append (take at ops) body))))
          ]
    ]

pub patch-write_hunks :
    (ops : List DiffOp) (context : ℕ)
    → patch 0 0 (write_hunks ops context) (old_side ops) ≡ some (new_side ops)
unfolding write_hunks
patch-write_hunks ops context =
    hunks_from-Patches (length ops) ops context 0 0 1 1 (omega arith) (omega arith) (omega arith)
      (λ p a b. absurd (omega arith)) (inl refl) refl refl
