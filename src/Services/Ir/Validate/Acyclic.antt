-- ===== src/Services/Ir/Validate/Acyclic.antt =====
-- The depth-first search of src/services/ir_validate.c accepts no graph that has a cycle.
use molto.Base.{
  ℕ, zero, suc, ◌+◌, ◌≤◌, ◌<◌, ◌≡◌, ◌≢◌, ◌⊎◌, refl, sym, ap, ◌∙◌, subst, true, Option, some, List,
  [], ◌∷◌, length, length-set, length-replicate, All-get, set, get_or, get_or-set_ne,
  get_or-set_self, replicate, ◌==◌, ==_iff, Bytes, >>=-eq-some, some_eq, is_some, All, Bool-cases,
  Option-cases, inl, inr, arith, and_right,
}
use molto.Services.Ir.{Target, opt_eq}
use molto.Services.Ir.Validate.Chains.{Grounded, grounded, Chain, Grounded-no_cycle}
use molto.Services.Ir.Validate.Graph.{
  find_target, names_are_unique, Mark, mark_none, mark_open, mark_done, depends, acyclic_all,
  acyclic_from, acyclic_each, graph_is_sound,
}

abbrev pub mark_at : List Mark → ℕ → Mark
mark_at marks i = get_or marks i mark_none

abbrev AllGrounded : List Target → List Mark → Type 0
AllGrounded targets marks = (i : ℕ) → mark_at marks i ≡ mark_done → Grounded targets i

-- A later state of the marks: what was done still is.
abbrev Later : List Mark → List Mark → Type 0
Later marks marks' =
    (length marks' ≡ length marks)
    × ((i : ℕ) → mark_at marks i ≡ mark_done → mark_at marks' i ≡ mark_done)

pub find_target_lt :
    (targets : List Target) (name : Bytes) {j : ℕ}
    → find_target targets name ≡ some j
    → j < length targets
unfolding find_target
find_target_lt [] name e = absurd (cc e)
find_target_lt (target ∷ targets) name {j} e = elim (Bool-cases (opt_eq target.name name)) [
  | inl hit ↦ subst (λ j. j < length (target ∷ targets)) (some_eq (rw hit at e)) (omega arith)
  | inr miss ↦
      let (k, f, g) = >>=-eq-some (find_target targets name) (λ i. some (suc i)) (rw miss at e) in
      let less = find_target_lt targets name f in
      subst (λ j. j < length (target ∷ targets)) (some_eq g) (omega (arith, less))
]

pub Mark-cases : (m : Mark) → (m ≡ mark_none) ⊎ (m ≡ mark_open) ⊎ (m ≡ mark_done)
Mark-cases mark_none = inl refl
Mark-cases mark_open = inr (inl refl)
Mark-cases mark_done = inr (inr refl)

-- What a call that succeeds does.
abbrev Visits : List Target → ℕ → List Mark → List Mark → Type 0
Visits targets i marks marks' =
    AllGrounded targets marks' × Later marks marks' × (mark_at marks' i ≡ mark_done)

abbrev IsVisit : List Target → (ℕ → List Mark → Option (List Mark)) → Type 0
IsVisit targets visit =
    (i : ℕ) (marks marks' : List Mark)
    → i < length targets
    → length marks ≡ length targets
    → AllGrounded targets marks
    → visit i marks ≡ some marks'
    → Visits targets i marks marks'

abbrev Found : List Target → List Mark → Bytes → Type 0
Found targets marks name =
    (j : ℕ) × (find_target targets name ≡ some j) × (mark_at marks j ≡ mark_done)

acyclic_all_sound :
    (visit : ℕ → List Mark → Option (List Mark)) (targets : List Target) (names : List Bytes)
    (marks : List Mark) {marks' : List Mark}
    → IsVisit targets visit
    → length marks ≡ length targets
    → AllGrounded targets marks
    → acyclic_all visit targets names marks ≡ some marks'
    → AllGrounded targets marks' × Later marks marks' × All (Found targets marks') names
unfolding acyclic_all
acyclic_all_sound visit targets [] marks {marks'} v l g e =
    let same : marks ≡ marks' = some_eq e in
    subst (λ m. AllGrounded targets m × Later marks m × Unit) same (g, (refl, λ i h. h), tt)
acyclic_all_sound visit targets (name ∷ names) marks v l g e =
    let (next, f, e1) = >>=-eq-some (find_target targets name) _ e in
    let (marks1, c, e2) = >>=-eq-some (visit next marks) _ e1 in
    let (g1, (l1, k1), d1) = v next marks marks1 (find_target_lt targets name f) l g c in
    let (g2, (l2, k2), all) = acyclic_all_sound visit targets names marks1 v (l1 ∙ l) g1 e2 in
    (g2, (l2 ∙ l1, λ i h. k2 i (k1 i h)), ((next, f, k2 next d1), all))

All-declared :
    (targets : List Target) (marks : List Mark) (names : List Bytes)
    → All (Found targets marks) names
    → All (λ name. (j : ℕ) × (find_target targets name ≡ some j)) names
All-declared targets marks [] h = tt
All-declared targets marks (name ∷ names) ((j, f, d), h) =
    ((j, f), All-declared targets marks names h)

ground_one :
    (targets : List Target) (i : ℕ) (marks : List Mark)
    → AllGrounded targets marks
    → All (Found targets marks) (depends targets i)
    → Grounded targets i
ground_one targets i marks g found =
    grounded i (All-declared targets marks (depends targets i) found) (λ j (k, name, at, f).
      let (j', f', d) = All-get (Found targets marks) (depends targets i) k found at in
      subst (Grounded targets) (some_eq (sym f' ∙ f)) (g j' d))

set-AllGrounded :
    (targets : List Target) (i : ℕ) (marks : List Mark) (m : Mark)
    → i < length marks
    → (m ≡ mark_done → Grounded targets i)
    → AllGrounded targets marks
    → AllGrounded targets (set marks i m)
set-AllGrounded targets i marks m l h g j e = elim (Bool-cases (i == j)) [
  | inl same ↦
      let eq = (==_iff i j).0 same in
      subst (Grounded targets) eq (
        h (
          sym (get_or-set_self marks i m mark_none l)
          ∙ subst (λ k. mark_at (set marks i m) k ≡ mark_done) (sym eq) e))
  | inr other ↦
      let ne : i ≢ j = λ eq. cc (other, (==_iff i j).1 eq) in
      g j (sym (get_or-set_ne marks i j m mark_none ne) ∙ e)
]

-- A mark that was not `mark_done` may change.
set-Later :
    (i : ℕ) (marks : List Mark) (m : Mark)
    → i < length marks
    → (mark_at marks i ≡ mark_done → m ≡ mark_done)
    → Later marks (set marks i m)
set-Later i marks m l h = (
  length-set marks i m,
  λ j e. elim (Bool-cases (i == j)) [
    | inl same ↦
        let eq = (==_iff i j).0 same in
        subst (λ k. mark_at (set marks i m) k ≡ mark_done) eq
          (get_or-set_self marks i m mark_none l
            ∙ h (subst (λ k. mark_at marks k ≡ mark_done) (sym eq) e))
    | inr other ↦
        let ne : i ≢ j = λ eq. cc (other, (==_iff i j).1 eq) in
        get_or-set_ne marks i j m mark_none ne ∙ e
  ],
)

acyclic_from_sound :
    (fuel : ℕ) (targets : List Target) → IsVisit targets (acyclic_from fuel targets)
unfolding acyclic_from
acyclic_from_sound zero targets i marks marks' h l g e = absurd (cc e)
acyclic_from_sound (suc fuel) targets i marks marks' h l g e = elim (Mark-cases (mark_at marks i)) [
  | inr (inr done) ↦
      subst (Visits targets i marks) (some_eq (rw (acyclic_from, done) at e))
        (g, (refl, λ j d. d), done)
  | inr (inl is_open) ↦ absurd (cc (rw (acyclic_from, is_open) at e))
  | inl fresh ↦
      let opened = set marks i mark_open in
      let (marks1, c, e1) =
        >>=-eq-some (acyclic_all (acyclic_from fuel targets) targets (depends targets i) opened)
          (λ m. some (set m i mark_done)) (rw (acyclic_from, fresh) at e) in
      let lt : i < length marks = omega (arith, h, l) in
      let (l0, k0) = set-Later i marks mark_open lt (λ d. absurd (cc (fresh, d))) in
      let g0 = set-AllGrounded targets i marks mark_open lt (λ d. absurd (cc d)) g in
      let (g1, (l1, k1), found) =
        acyclic_all_sound (acyclic_from fuel targets) targets (depends targets i) opened
          (acyclic_from_sound fuel targets) (l0 ∙ l) g0 c in
      let lt1 : i < length marks1 = omega (arith, h, l, l0, l1) in
      let (l2, k2) = set-Later i marks1 mark_done lt1 (λ d. refl) in
      subst (Visits targets i marks) (some_eq e1) (
        set-AllGrounded targets i marks1 mark_done lt1 (λ d. ground_one targets i marks1 g1 found)
            g1,
        (l2 ∙ l1 ∙ l0, λ j d. k2 j (k1 j (k0 j d))),
        get_or-set_self marks1 i mark_done mark_none lt1,
      )
]

acyclic_each_sound :
    (targets : List Target) (i count : ℕ) (marks : List Mark) {marks' : List Mark}
    → i + count ≤ length targets
    → length marks ≡ length targets
    → AllGrounded targets marks
    → acyclic_each targets i count marks ≡ some marks'
    → AllGrounded targets marks'
      × Later marks marks'
      × ((j : ℕ) → i ≤ j → j < i + count → mark_at marks' j ≡ mark_done)
unfolding acyclic_each
acyclic_each_sound targets i zero marks {marks'} h l g e =
    subst
      (λ m.
        AllGrounded targets m
        × Later marks m
        × ((j : ℕ) → i ≤ j → j < i + 0 → mark_at m j ≡ mark_done))
      (some_eq e) (g, (refl, λ j d. d), λ j a b. absurd (omega arith))
acyclic_each_sound targets i (suc count) marks {marks'} h l g e =
    let (marks1, c, e1) = >>=-eq-some (acyclic_from (suc (length targets)) targets i marks) _ e in
    let (g1, (l1, k1), d1) =
      acyclic_from_sound (suc (length targets)) targets i marks marks1 (omega arith) l g c in
    let (g2, (l2, k2), d2) =
      acyclic_each_sound targets (suc i) count marks1 (omega arith) (l1 ∙ l) g1 e1 in
    (
      g2,
      (l2 ∙ l1, λ j d. k2 j (k1 j d)),
      λ j a b. elim (Bool-cases (i == j)) [
        | inl same ↦ k2 j (subst (λ k. mark_at marks1 k ≡ mark_done) ((==_iff i j).0 same) d1)
        | inr other ↦
            let ne : i ≢ j = λ eq. cc (other, (==_iff i j).1 eq) in
            d2 j (omega (arith, ne)) (omega arith)
      ],
    )

pub fresh_marks : (n i : ℕ) → mark_at (replicate n mark_none) i ≡ mark_none
fresh_marks zero i = refl
fresh_marks (suc n) zero = refl
fresh_marks (suc n) (suc i) = fresh_marks n i

-- In a graph that is found sound every target is grounded: the names below it are declared, and
-- every chain of dependencies that starts at it ends.
pub graph_is_sound-Grounded :
    (targets : List Target) (i : ℕ)
    → graph_is_sound targets ≡ true
    → i < length targets
    → Grounded targets i
unfolding graph_is_sound
graph_is_sound-Grounded targets i e h =
    let n = length targets in
    let marks = replicate n mark_none in
    elim (Option-cases (acyclic_each targets 0 n marks)) [
      | inl failed ↦
          let visited =
            and_right (names_are_unique targets) (is_some (acyclic_each targets 0 n marks)) e in
          absurd (cc (visited, ap is_some failed))
      | inr (marks', f) ↦
          let (g, _, d) =
            acyclic_each_sound targets 0 n marks (omega arith) (length-replicate n mark_none)
              (λ j x. absurd (cc (fresh_marks n j, x))) f in
          g i (d i (omega arith) (omega arith))
    ]

-- No target of a sound graph depends on itself, directly or through others.
pub graph_is_sound-no_cycle :
    (targets : List Target) (i : ℕ)
    → graph_is_sound targets ≡ true
    → i < length targets
    → ¬ Chain targets i i
graph_is_sound-no_cycle targets i e h =
    Grounded-no_cycle targets i (graph_is_sound-Grounded targets i e h)
