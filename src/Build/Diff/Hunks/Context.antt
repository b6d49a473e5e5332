-- ===== src/Build/Diff/Hunks/Context.antt =====
-- The lines of context around a change of src/build/diff.c, and the slices that hunks are cut from.
use molto.Base.{
  ℕ, zero, suc, ◌+◌, ◌-◌, ◌≤◌, ◌<◌, ◌≡◌, refl, sym, ap, ◌∙◌, true, false, List, [], ◌∷◌, ◌++◌,
  length, get_or, take, drop, ltb, Bool-cases, inl, inr, arith, drop-drop, take-append-drop,
  drop-get_or, lt→ltb, take-add,
}
use molto.Build.Diff.{op_keep, DiffOp}
use molto.Build.Diff.Hunks.{
  is_change, old_lines, new_lines, slice, no_op, changes_at, walk_back, last_change, walk_on,
}

abbrev pub changes : List DiffOp → List DiffOp
changes [] = []
changes (op ∷ ops) = elim op.kind [ op_keep ↦ changes ops | _ ↦ op ∷ changes ops ]

pub changes-append : (xs ys : List DiffOp) → changes (xs ++ ys) ≡ changes xs ++ changes ys
changes-append [] ys = refl
changes-append (x ∷ xs) ys = ground (arith, changes-append xs ys)

pub old_lines-append : (xs ys : List DiffOp) → old_lines (xs ++ ys) ≡ old_lines xs + old_lines ys
old_lines-append [] ys = omega arith
old_lines-append (x ∷ xs) ys = ground (arith, old_lines-append xs ys)

pub new_lines-append : (xs ys : List DiffOp) → new_lines (xs ++ ys) ≡ new_lines xs + new_lines ys
new_lines-append [] ys = omega arith
new_lines-append (x ∷ xs) ys = ground (arith, new_lines-append xs ys)

-- A keep operation is a line of both files and no change.
pub keep_lem :
    (op : DiffOp) (ops : List DiffOp)
    → is_change op.kind ≡ false
    → (old_lines (op ∷ ops) ≡ suc (old_lines ops))
      × (new_lines (op ∷ ops) ≡ suc (new_lines ops))
      × (changes (op ∷ ops) ≡ changes ops)
unfolding is_change
keep_lem op ops h = ground arith

-- What lies between the end of the walk back and its start: `n` unchanged lines.
pub record Unchanged (n : ℕ) (mid : List DiffOp) : Type 0 where
  pub old_same : old_lines mid ≡ n
  pub new_same : new_lines mid ≡ n
  pub no_change : changes mid ≡ []

-- The walk back ends at `first`, and the operations from there to `at` are unchanged lines.
pub record Back (ops : List DiffOp) (first at : ℕ) : Type 0 where
  pub before : first ≤ at
  pub unchanged : Unchanged (at - first) (take (at - first) (drop first ops))

Back_step :
    (ops : List DiffOp) (f at : ℕ)
    → at ≤ length ops
    → Back ops (suc f) at
    → changes_at ops f ≡ false
    → Back ops f at
Back_step ops f at h b k =
    let le = b.before in
    let n = at - suc f in
    let mid = take n (drop (suc f) ops) in
    let u = b.unchanged in
    let (o, w, c) = keep_lem (get_or ops f no_op) mid k in
    let e : at - f ≡ suc n = omega arith in
    record {
      before = omega arith;
      unchanged =
          rw (e, drop-get_or f ops no_op (omega arith))
            (record {
              old_same = o ∙ ap suc u.old_same;
              new_same = w ∙ ap suc u.new_same;
              no_change = c ∙ u.no_change;
            });
    }

pub walk_back-Back :
    (left : ℕ) (ops : List DiffOp) (first at : ℕ)
    → at ≤ length ops
    → Back ops first at
    → Back ops (walk_back left ops first) at
unfolding walk_back
walk_back-Back zero ops first at h b = b
walk_back-Back (suc left) ops zero at h b = b
walk_back-Back (suc left) ops (suc f) at h b =
    let e : suc f - 1 ≡ f = omega arith in
    let t : ltb 0 (suc f) ≡ true = lt→ltb 0 (suc f) (omega arith) in
    elim (Bool-cases (changes_at ops f)) [
      | inl k ↦ rw (e, t, k) b
      | inr k ↦ rw (e, t, k) (walk_back-Back left ops f at h (Back_step ops f at h b k))
    ]

pub Back-here : (ops : List DiffOp) (at : ℕ) → Back ops at at
Back-here ops at =
    let e : at - at ≡ 0 = omega arith in
    record {
      before = omega arith;
      unchanged = rw e (record { old_same = refl; new_same = refl; no_change = refl });
    }

pub last_change_bounds :
    (context : ℕ) (rest : List DiffOp) (i last gap low high : ℕ)
    → low ≤ last
    → low ≤ i
    → last < high
    → i + length rest ≤ high
    → (low ≤ last_change context rest i last gap) × (last_change context rest i last gap < high)
unfolding last_change
last_change_bounds context [] i last gap low high a b c d = (a, c)
last_change_bounds context (op ∷ rest) i last gap low high a b c d = ground (
  arith,
  last_change_bounds context rest (i + 1) i 0 low high,
  last_change_bounds context rest (i + 1) last (gap + 1) low high,
)

pub walk_on_bounds :
    (left : ℕ) (ops : List DiffOp) (last : ℕ)
    → last < length ops
    → (last ≤ walk_on left ops last) × (walk_on left ops last < length ops)
unfolding walk_on
walk_on_bounds zero ops last h = (omega arith, h)
walk_on_bounds (suc left) ops last h = ground (arith, walk_on_bounds left ops (last + 1))

pub slice_rest :
    (ops : List DiffOp) (a b : ℕ) → a ≤ b + 1 → slice a b ops ++ drop (b + 1) ops ≡ drop a ops
slice_rest ops a b h =
    let n = b + 1 - a in
    let e : a + n ≡ b + 1 = omega arith in
    let rest = take n (drop a ops) in
    ap (λ (k : ℕ). rest ++ drop k ops) (sym e)
    ∙ ap (λ (t : List DiffOp). rest ++ t) (sym (drop-drop n a ops))
    ∙ take-append-drop n (drop a ops)

pub slice_splits :
    (ops : List DiffOp) (a b : ℕ)
    → a ≤ b + 1
    → ops ≡ take a ops ++ (slice a b ops ++ drop (b + 1) ops)
slice_splits ops a b h =
    sym (ap (λ (t : List DiffOp). take a ops ++ t) (slice_rest ops a b h) ∙ take-append-drop a ops)

-- A slice from `first` is the unchanged lines up to `at`, and the slice from there.
pub slice_back :
    (ops : List DiffOp) (first at last : ℕ)
    → first ≤ at
    → at ≤ last
    → slice first last ops ≡ take (at - first) (drop first ops) ++ slice at last ops
slice_back ops first at last h g =
    let a = at - first in
    let b = last + 1 - at in
    let e : last + 1 - first ≡ a + b = omega arith in
    let f : first + a ≡ at = omega arith in
    rw e (
      take-add a b (drop first ops)
      ∙ ap (λ (t : List DiffOp). take a (drop first ops) ++ take b t)
          (drop-drop a first ops ∙ ap (λ (k : ℕ). drop k ops) f))

pub take_back :
    (ops : List DiffOp) (first at : ℕ)
    → first ≤ at
    → take at ops ≡ take first ops ++ take (at - first) (drop first ops)
take_back ops first at h =
    let e : first + (at - first) ≡ at = omega arith in
    ap (λ (k : ℕ). take k ops) (sym e) ∙ take-add first (at - first) ops
