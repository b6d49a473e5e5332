-- ===== src/Build/Diff/Hunks/Apart.antt =====
-- The hunks that the outer loop of src/build/diff.c's `write_hunks` cuts stand apart: the walk back
-- from a change stays behind the hunk before it.
use molto.Base.{
  ℕ, zero, suc, ◌+◌, ◌*◌, ◌-◌, ◌≤◌, ◌<◌, ◌≡◌, refl, sym, ap, ◌∙◌, true, false, List, [], ◌∷◌,
  length, get_or, take, drop, ltb, Bool-cases, inl, inr, ◌⊎◌, arith, drop-get_or, ltb→lt, lt→ltb,
  length-drop,
}
use molto.Build.Diff.{DiffOp}
use molto.Build.Diff.Sides.{old_side, new_side}
use molto.Build.Diff.Hunks.{
  is_change, old_lines, new_lines, no_op, changes_at, walk_back, last_change, walk_on,
}
use molto.Build.Diff.Hunks.Context.{keep_lem}

-- The operations from `a` on and before `b` are no changes.
abbrev pub Quiet : List DiffOp → ℕ → ℕ → Type 0
Quiet ops a b = (p : ℕ) → a ≤ p → p < b → changes_at ops p ≡ false

pub Quiet-suc :
    (ops : List DiffOp) (a b : ℕ) → Quiet ops a b → changes_at ops b ≡ false → Quiet ops a (b + 1)
Quiet-suc ops a b q k p h g = elim (Bool-cases (ltb p b)) [
  | inl lt ↦ q p h (ltb→lt p b lt)
  | inr ge ↦ let e : p ≡ b = ground arith in rw e k
]

changes_past : (ops : List DiffOp) (p : ℕ) → length ops ≤ p → changes_at ops p ≡ false
unfolding is_change
changes_past [] p h = refl
changes_past (op ∷ ops) zero h = absurd (omega arith)
changes_past (op ∷ ops) (suc p) h = changes_past ops p (omega arith)

Quiet-past : (ops : List DiffOp) (a b c : ℕ) → Quiet ops a b → length ops ≤ b → Quiet ops a c
Quiet-past ops a b c q l p h g = elim (Bool-cases (ltb p b)) [
  | inl lt ↦ q p h (ltb→lt p b lt)
  | inr ge ↦ changes_past ops p (ground arith)
]

-- Behind the last change of a hunk there are `2 * context` operations that are none.
pub last_change-Quiet :
    (context : ℕ) (ops rest : List DiffOp) (i last gap : ℕ)
    → rest ≡ drop i ops
    → last + gap ≤ i
    → Quiet ops (last + 1) i
    → Quiet ops
        (last_change context rest i last gap + 1)
        (last_change context rest i last gap + 1 + 2 * context)
unfolding last_change
last_change-Quiet context ops [] i last gap e h q =
    Quiet-past ops (last + 1) i _ q (omega (arith, ap length e, length-drop i ops))
last_change-Quiet context ops (op ∷ rest) i last gap e h q =
    let inside : i < length ops = omega (arith, ap length e, length-drop i ops) in
    let parts = e ∙ drop-get_or i ops no_op inside in
    let here : op ≡ get_or ops i no_op = cc in
    let next : rest ≡ drop (i + 1) ops = let s : i + 1 ≡ suc i = omega arith in rw s (cc) in
    elim (Bool-cases (is_change op.kind)) [
      | inl change ↦ rw change (
          last_change-Quiet context ops rest (i + 1) i 0 next (omega arith)
            (λ p a b. absurd (omega arith)))
      | inr same ↦
          let quiet =
            Quiet-suc ops (last + 1) i q
              (ap (λ (o : DiffOp). is_change o.kind) (sym here) ∙ same) in
          elim (Bool-cases (ltb (2 * context) (gap + 1))) [
            | inl stop ↦ rw (same, stop) (λ p a b. quiet p a (omega (arith, ltb→lt _ _ stop)))
            | inr go ↦
                rw (same, go)
                  (last_change-Quiet context ops rest (i + 1) last (gap + 1) next (omega arith)
                    quiet)
          ]
    ]

le-walk_on : (left : ℕ) (ops : List DiffOp) (last : ℕ) → last ≤ walk_on left ops last
unfolding walk_on
le-walk_on zero ops last = omega arith
le-walk_on (suc left) ops last = ground (arith, le-walk_on left ops (last + 1))

pub walk_on-le : (left : ℕ) (ops : List DiffOp) (last : ℕ) → walk_on left ops last ≤ last + left
unfolding walk_on
walk_on-le zero ops last = omega arith
walk_on-le (suc left) ops last = ground (arith, walk_on-le left ops (last + 1))

-- The walk back from `at`, which has come to `first`, passes no change and at most `left` lines.
pub record Walked (ops : List DiffOp) (left first at to : ℕ) : Type 0 where
  pub quiet : Quiet ops to at
  pub back : to ≤ first
  pub near : first ≤ to + left

pub walk_back-Walked :
    (left : ℕ) (ops : List DiffOp) (first at : ℕ)
    → Quiet ops first at
    → Walked ops left first at (walk_back left ops first)
unfolding walk_back
walk_back-Walked zero ops first at q = record { quiet = q; back = omega arith; near = omega arith }
walk_back-Walked (suc left) ops zero at q = record {
  quiet = q;
  back = omega arith;
  near = omega arith;
}
walk_back-Walked (suc left) ops (suc f) at q =
    let e : suc f - 1 ≡ f = omega arith in
    let t : ltb 0 (suc f) ≡ true = lt→ltb 0 (suc f) (omega arith) in
    elim (Bool-cases (changes_at ops f)) [
      | inl k ↦ rw (e, t, k) (record { quiet = q; back = omega arith; near = omega arith })
      | inr k ↦
          let more : Quiet ops f at = λ p a b. elim (Bool-cases (ltb f p)) [
            | inl lt ↦ q p (omega (arith, ltb→lt f p lt)) b
            | inr ge ↦ let s : p ≡ f = ground arith in rw s k
          ] in
          let w = walk_back-Walked left ops f at more in
          rw (e, t, k)
            (record { quiet = w.quiet; back = omega (arith, w.back); near = omega (arith, w.near) })
    ]

-- Where a hunk ends, or the file begins.
abbrev pub Edge : List DiffOp → ℕ → ℕ → Type 0
Edge ops context floor = (floor ≡ 0) ⊎ Quiet ops floor (floor + context)

-- The walk back from the first change behind such a place does not pass it.
pub Edge-walk_back :
    (ops : List DiffOp) (context floor at : ℕ)
    → floor ≤ at
    → changes_at ops at ≡ true
    → Edge ops context floor
    → floor ≤ walk_back context ops at
Edge-walk_back ops context floor at h k (inl e) = omega arith
Edge-walk_back ops context floor at h k (inr q) =
    let w = walk_back-Walked context ops at at (λ p a b. absurd (omega arith)) in
    elim (Bool-cases (ltb at (floor + context))) [
      | inl near ↦ let f = q at h (ltb→lt _ _ near) in cc
      | inr far ↦ ground (arith, w.near)
    ]

-- The place behind a hunk is such a place.
pub hunk-Edge :
    (ops : List DiffOp) (context at : ℕ)
    → let last = walk_on context ops (last_change context (drop at ops) at at 0) in
      Edge ops context (last + 1)
hunk-Edge ops context at =
    let reached = last_change context (drop at ops) at at 0 in
    let q =
      last_change-Quiet context ops (drop at ops) at at 0 refl (omega arith)
        (λ p a b. absurd (omega arith)) in
    inr (λ p a b.
      q p (omega (arith, le-walk_on context ops reached))
        (omega (arith, walk_on-le context ops reached)))

-- Operations that are no changes: `n` lines of both files.
pub record Same (n : ℕ) (mid : List DiffOp) : Type 0 where
  pub sides : old_side mid ≡ new_side mid
  pub old_same : old_lines mid ≡ n
  pub new_same : new_lines mid ≡ n

keep_side :
    (op : DiffOp) (ops : List DiffOp)
    → is_change op.kind ≡ false
    → (old_side (op ∷ ops) ≡ op.text ∷ old_side ops)
      × (new_side (op ∷ ops) ≡ op.text ∷ new_side ops)
unfolding is_change
keep_side op ops h = ground arith

pub Quiet-Same :
    (n from : ℕ) (ops : List DiffOp)
    → from + n ≤ length ops
    → Quiet ops from (from + n)
    → Same n (take n (drop from ops))
Quiet-Same zero from ops h q = record { sides = refl; old_same = refl; new_same = refl }
Quiet-Same (suc n) from ops h q =
    let s = Quiet-Same n (suc from) ops (omega arith) (λ p a b. q p (omega arith) (omega arith)) in
    let op = get_or ops from no_op in
    let mid = take n (drop (suc from) ops) in
    let k = q from (omega arith) (omega arith) in
    let (o, w) = keep_side op mid k in
    let (lo, lw, _) = keep_lem op mid k in
    rw (drop-get_or from ops no_op (omega arith)) (record {
      sides = o ∙ ap (λ l. op.text ∷ l) s.sides ∙ sym w;
      old_same = lo ∙ ap suc s.old_same;
      new_same = lw ∙ ap suc s.new_same;
    })
