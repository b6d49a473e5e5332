-- ===== src/Build/Diff/Hunks/Cover.antt =====
-- The hunks of src/build/diff.c show every change once, and their headers are right.
use molto.Base.{
  ℕ, zero, suc, ◌+◌, ◌-◌, ◌≤◌, ◌<◌, ◌≡◌, refl, sym, ap, ap₂, ◌∙◌, false, List, [], ◌∷◌, ◌++◌,
  length, get_or, take, drop, ltb, if◌then◌else◌, All, Bool-cases, inl, inr, arith, drop-get_or,
  length-drop, take-suc, drop-length, ltb→lt,
}
use molto.Build.Diff.{DiffOp}
use molto.Build.Diff.Hunks.{
  Hunk, old_lines, new_lines, slice, write_hunk, no_op, changes_at, walk_back, last_change, walk_on,
  hunks_from, write_hunks,
}
use molto.Build.Diff.Hunks.Context.{
  changes, changes-append, old_lines-append, new_lines-append, keep_lem, Back, walk_back-Back,
  Back-here, last_change_bounds, walk_on_bounds, slice_rest, slice_splits, slice_back, take_back,
}

abbrev pub shown : List Hunk → List DiffOp
shown [] = []
shown (h ∷ hs) = changes h.ops ++ shown hs

-- What a hunk says is so: `before` are the operations in front of it, and its numbers count lines.
pub record IsPlaced (ops : List DiffOp) (h : Hunk) : Type 0 where
  pub before : List DiffOp
  pub after : List DiffOp
  pub splits : ops ≡ before ++ (h.ops ++ after)
  pub old_count : h.old_count ≡ old_lines h.ops
  pub new_count : h.new_count ≡ new_lines h.ops
  pub old_start : h.old_start ≡ (if ltb 0 h.old_count then old_lines before + 1 else 0)
  pub new_start : h.new_start ≡ (if ltb 0 h.new_count then new_lines before + 1 else 0)

record Covers (ops : List DiffOp) (at : ℕ) (hs : List Hunk) : Type 0 where
  all_shown : shown hs ≡ changes (drop at ops)
  placed : All (IsPlaced ops) hs

Covers-end : (ops : List DiffOp) (at : ℕ) → length ops ≤ at → Covers ops at []
Covers-end ops at h = record { all_shown = ap changes (sym (drop-length ops at h)); placed = tt }

Covers-keep :
    (ops : List DiffOp) (at : ℕ) (hs : List Hunk)
    → at < length ops
    → changes_at ops at ≡ false
    → Covers ops (at + 1) hs
    → Covers ops at hs
Covers-keep ops at hs h k c =
    let e : at + 1 ≡ suc at = omega arith in
    let (_, _, same) = keep_lem (get_or ops at no_op) (drop (suc at) ops) k in
    record {
      all_shown =
          c.all_shown
          ∙ ap (λ (n : ℕ). changes (drop n ops)) e
          ∙ sym same
          ∙ ap changes (sym (drop-get_or at ops no_op h));
      placed = c.placed;
    }

Covers-hunk :
    (ops : List DiffOp) (first at last o n : ℕ) (hs : List Hunk)
    → Back ops first at
    → at ≤ last
    → o ≡ old_lines (take at ops) + 1
    → n ≡ new_lines (take at ops) + 1
    → Covers ops (last + 1) hs
    → Covers ops at (write_hunk ops first last (o - (at - first)) (n - (at - first)) ∷ hs)
unfolding write_hunk
Covers-hunk ops first at last o n hs b g eo en c =
    let mid = take (at - first) (drop first ops) in
    let le = b.before in
    let u = b.unchanged in
    let back = take_back ops first at le in
    let so : o - (at - first) ≡ old_lines (take first ops) + 1 =
      omega (arith, ap old_lines back, old_lines-append (take first ops) mid, u.old_same) in
    let sn : n - (at - first) ≡ new_lines (take first ops) + 1 =
      omega (arith, ap new_lines back, new_lines-append (take first ops) mid, u.new_same) in
    let body = slice_back ops first at last le g in
    let rest = slice_rest ops at last (omega arith) in
    record {
      all_shown =
          ap₂ ◌++◌
            (ap changes body
              ∙ changes-append mid (slice at last ops)
              ∙ ap (λ (t : List DiffOp). t ++ changes (slice at last ops)) u.no_change)
            c.all_shown
          ∙ sym (changes-append (slice at last ops) (drop (last + 1) ops))
          ∙ ap changes rest;
      placed = (
        record {
          before = take first ops;
          after = drop (last + 1) ops;
          splits = slice_splits ops first last (omega arith);
          old_count = refl;
          new_count = refl;
          old_start = rw so;
          new_start = rw sn;
        },
        c.placed,
      );
    }

hunks_from-Covers :
    (fuel : ℕ) (ops : List DiffOp) (context at o n : ℕ)
    → length ops ≤ fuel + at
    → o ≡ old_lines (take at ops) + 1
    → n ≡ new_lines (take at ops) + 1
    → Covers ops at (hunks_from fuel ops context at o n)
unfolding hunks_from
hunks_from-Covers zero ops context at o n h eo en = Covers-end ops at (omega arith)
hunks_from-Covers (suc fuel) ops context at o n h eo en =
    let first = walk_back context ops at in
    let reached = last_change context (drop at ops) at at 0 in
    let last = walk_on context ops reached in
    let body = slice at last ops in
    let op = get_or ops at no_op in
    let e : at + 1 ≡ suc at = omega arith in
    elim (Bool-cases (ltb at (length ops))) [
      | inr past ↦ rw past (Covers-end ops at (ground arith))
      | inl inside ↦
          let lt : at < length ops = ltb→lt at (length ops) inside in
          let grown : take (at + 1) ops ≡ take at ops ++ op ∷ [] =
            ap (λ (k : ℕ). take k ops) e ∙ take-suc at ops no_op lt in
          elim (Bool-cases (changes_at ops at)) [
            | inr same ↦
                let (ko, kn, _) = keep_lem op [] same in
                rw (inside, same)
                  (Covers-keep ops at _ lt same (
                    hunks_from-Covers fuel ops context (at + 1) (o + 1) (n + 1) (omega arith)
                      (omega
                        (arith, ap old_lines grown, old_lines-append (take at ops) (op ∷ []), ko))
                      (omega
                        (arith, ap new_lines grown, new_lines-append (take at ops) (op ∷ []), kn))))
            | inl change ↦
                let (low, high) =
                  last_change_bounds context (drop at ops) at at 0 at (length ops) (omega arith)
                    (omega arith) lt (omega (arith, length-drop at ops)) in
                let (on, in_range) = walk_on_bounds context ops reached high in
                let tk = take_back ops at (last + 1) (omega arith) in
                rw (inside, change)
                  (Covers-hunk ops first at last o n _
                    (walk_back-Back context ops at at (omega arith) (Back-here ops at))
                    (omega arith) eo en
                    (hunks_from-Covers fuel ops context (last + 1) (o + old_lines body)
                      (n + new_lines body) (omega arith)
                      (omega (arith, ap old_lines tk, old_lines-append (take at ops) body))
                      (omega (arith, ap new_lines tk, new_lines-append (take at ops) body))))
          ]
    ]

-- For every list of operations and every context, each changed line is shown by the hunks once and
-- in order, and each hunk stands in the operations with the numbers that its header names: the line
-- counts of its body on each side, and the first line there, counted from 1, or 0 where the side has
-- no line.
pub write_hunks_lem :
    (ops : List DiffOp) (context : ℕ)
    → (shown (write_hunks ops context) ≡ changes ops) × All (IsPlaced ops) (write_hunks ops context)
unfolding write_hunks
write_hunks_lem ops context =
    let c = hunks_from-Covers (length ops) ops context 0 1 1 (omega arith) refl refl in
    (c.all_shown, c.placed)
