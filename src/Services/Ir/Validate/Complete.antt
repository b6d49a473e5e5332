-- ===== src/Services/Ir/Validate/Complete.antt =====
-- The depth-first search of src/services/ir_validate.c has fuel enough, and finds sound every graph
-- that is.
use molto.Base.{
  ℕ, zero, suc, ◌+◌, ◌≤◌, ◌<◌, ◌≡◌, ◌≢◌, ◌↔◌, refl, sym, ap, ◌∙◌, subst, true, Option, some, List,
  [], ◌∷◌, length, length-set, length-replicate, All-get, All-tabulate, All-map, set, get_or-set_ne,
  get_or-set_self, replicate, ◌==◌, ==_iff, Bytes, is_some, All, Bool-cases, inl, inr, arith,
  and_both, and_intro,
}
use molto.Services.Ir.{Target}
use molto.Services.Ir.Validate.Chains.{
  DependsOn, Grounded, grounded, Chain, one, Chain-snoc, Grounded-no_cycle,
}
use molto.Services.Ir.Validate.Graph.{
  find_target, names_are_unique, Mark, mark_none, mark_open, mark_done, depends, acyclic_all,
  acyclic_from, acyclic_each, graph_is_sound,
}
use molto.Services.Ir.Validate.UniqueNames.{HaveOwnNames, names_are_unique_iff}
use molto.Services.Ir.Validate.Acyclic.{
  mark_at, Mark-cases, fresh_marks, find_target_lt, graph_is_sound-Grounded,
}

-- The targets that no call has opened.
count_fresh : List Mark → ℕ
count_fresh [] = 0
count_fresh (mark_none ∷ marks) = suc (count_fresh marks)
count_fresh (mark_open ∷ marks) = count_fresh marks
count_fresh (mark_done ∷ marks) = count_fresh marks

count_fresh_le : (marks : List Mark) → count_fresh marks ≤ length marks
unfolding count_fresh
count_fresh_le [] = omega arith
count_fresh_le (mark_none ∷ marks) = omega (arith, count_fresh_le marks)
count_fresh_le (mark_open ∷ marks) = omega (arith, count_fresh_le marks)
count_fresh_le (mark_done ∷ marks) = omega (arith, count_fresh_le marks)

count_fresh-open :
    (marks : List Mark) (i : ℕ)
    → i < length marks
    → mark_at marks i ≡ mark_none
    → suc (count_fresh (set marks i mark_open)) ≡ count_fresh marks
unfolding count_fresh
count_fresh-open [] i l e = absurd (omega arith)
count_fresh-open (mark_none ∷ marks) zero l e = refl
count_fresh-open (mark_open ∷ marks) zero l e = absurd (cc e)
count_fresh-open (mark_done ∷ marks) zero l e = absurd (cc e)
count_fresh-open (mark_none ∷ marks) (suc i) l e = ap suc (count_fresh-open marks i (omega arith) e)
count_fresh-open (mark_open ∷ marks) (suc i) l e = count_fresh-open marks i (omega arith) e
count_fresh-open (mark_done ∷ marks) (suc i) l e = count_fresh-open marks i (omega arith) e

count_fresh-done :
    (marks : List Mark) (i : ℕ) → count_fresh (set marks i mark_done) ≤ count_fresh marks
unfolding count_fresh
count_fresh-done [] i = omega arith
count_fresh-done (mark_none ∷ marks) zero = omega arith
count_fresh-done (mark_open ∷ marks) zero = omega arith
count_fresh-done (mark_done ∷ marks) zero = omega arith
count_fresh-done (mark_none ∷ marks) (suc i) = omega (arith, count_fresh-done marks i)
count_fresh-done (mark_open ∷ marks) (suc i) = count_fresh-done marks i
count_fresh-done (mark_done ∷ marks) (suc i) = count_fresh-done marks i

-- A call for `i` is below every target that is open.
abbrev LeadTo : List Target → List Mark → ℕ → Type 0
LeadTo targets marks i = (k : ℕ) → mark_at marks k ≡ mark_open → Chain targets k i

abbrev StillOpen : List Mark → List Mark → Type 0
StillOpen marks marks' = (k : ℕ) → mark_at marks' k ≡ mark_open → mark_at marks k ≡ mark_open

abbrev Succeeds : Option (List Mark) → List Mark → Type 0
Succeeds result marks =
    (marks' : List Mark) × (result ≡ some marks')
    × (length marks' ≡ length marks)
    × (count_fresh marks' ≤ count_fresh marks)
    × StillOpen marks marks'

-- Every call succeeds that a grounded target makes while fewer than `bound` targets are fresh.
abbrev IsTotal : List Target → ℕ → (ℕ → List Mark → Option (List Mark)) → Type 0
IsTotal targets bound visit =
    (i : ℕ) (marks : List Mark)
    → i < length targets
    → length marks ≡ length targets
    → Grounded targets i
    → LeadTo targets marks i
    → count_fresh marks < bound
    → Succeeds (visit i marks) marks

abbrev IsReady : List Target → List Mark → Bytes → Type 0
IsReady targets marks name =
    (j : ℕ) × (find_target targets name ≡ some j) × Grounded targets j × LeadTo targets marks j

acyclic_all_total :
    (visit : ℕ → List Mark → Option (List Mark)) (targets : List Target) (bound : ℕ)
    (names : List Bytes) (marks : List Mark)
    → IsTotal targets bound visit
    → length marks ≡ length targets
    → count_fresh marks < bound
    → All (IsReady targets marks) names
    → Succeeds (acyclic_all visit targets names marks) marks
unfolding acyclic_all
acyclic_all_total visit targets bound [] marks v l c h =
    (marks, refl, refl, (omega arith), λ k e. e)
acyclic_all_total visit targets bound (name ∷ names) marks v l c ((j, f, g, lead), h) =
    let (marks1, e1, l1, c1, s1) = v j marks (find_target_lt targets name f) l g lead c in
    let later =
      All-map (IsReady targets marks) (IsReady targets marks1)
        (λ n (j', f', g', lead'). (j', f', g', λ k e. lead' k (s1 k e))) names h in
    let (marks2, e2, l2, c2, s2) =
      acyclic_all_total visit targets bound names marks1 v (l1 ∙ l) (omega (arith, c, c1)) later in
    (marks2, rw (f, e1) e2, l2 ∙ l1, (omega (arith, c1, c2)), λ k e. s1 k (s2 k e))

-- While `i` is open as well, every open target leads to what it depends on.
LeadTo-below :
    (targets : List Target) (i : ℕ) (marks : List Mark) (j : ℕ)
    → DependsOn targets i j
    → LeadTo targets marks i
    → LeadTo targets (set marks i mark_open) j
LeadTo-below targets i marks j d lead k e = elim (Bool-cases (i == k)) [
  | inl same ↦ subst (λ k. Chain targets k j) ((==_iff i k).0 same) (one i j d)
  | inr other ↦
      let ne : i ≢ k = λ eq. cc (other, (==_iff i k).1 eq) in
      Chain-snoc targets k i j (lead k (sym (get_or-set_ne marks i k mark_open mark_none ne) ∙ e)) d
]

StillOpen-visit :
    (i : ℕ) (marks marks1 : List Mark)
    → i < length marks1
    → StillOpen (set marks i mark_open) marks1
    → StillOpen marks (set marks1 i mark_done)
StillOpen-visit i marks marks1 l s k e = elim (Bool-cases (i == k)) [
  | inl same ↦
      let at : mark_at (set marks1 i mark_done) i ≡ mark_open =
        subst (λ k. mark_at (set marks1 i mark_done) k ≡ mark_open) (sym ((==_iff i k).0 same)) e in
      absurd (cc (at, get_or-set_self marks1 i mark_done mark_none l))
  | inr other ↦
      let ne : i ≢ k = λ eq. cc (other, (==_iff i k).1 eq) in
      sym (get_or-set_ne marks i k mark_open mark_none ne)
      ∙ s k (sym (get_or-set_ne marks1 i k mark_done mark_none ne) ∙ e)
]

acyclic_from-IsTotal :
    (fuel : ℕ) (targets : List Target) → IsTotal targets fuel (acyclic_from fuel targets)
unfolding acyclic_from
acyclic_from-IsTotal zero targets i marks h l g lead c = absurd (omega (arith, c))
acyclic_from-IsTotal (suc fuel) targets i marks h l (grounded _ dec below) lead c =
    elim (Mark-cases (mark_at marks i)) [
      | inr (inr done) ↦ (marks, rw (acyclic_from, done) refl, refl, (omega arith), λ k e. e)
      | inr (inl is_open) ↦
          absurd (Grounded-no_cycle targets i (grounded i dec below) (lead i is_open))
      | inl fresh ↦
          let opened = set marks i mark_open in
          let l0 = length-set marks i mark_open in
          let lt : i < length marks = omega (arith, h, l) in
          let c0 = count_fresh-open marks i lt fresh in
          let ready = All-tabulate (IsReady targets opened) (depends targets i) (λ k name at.
            let (j, f) =
              All-get (λ name. (j : ℕ) × (find_target targets name ≡ some j)) (depends targets i) k
                dec at in
            let d : DependsOn targets i j = (k, name, at, f) in
            (j, f, below j d, LeadTo-below targets i marks j d lead)) in
          let (marks1, e1, l1, c1, s1) =
            acyclic_all_total (acyclic_from fuel targets) targets fuel (depends targets i) opened
              (acyclic_from-IsTotal fuel targets) (l0 ∙ l) (omega (arith, c, c0)) ready in
          let lt1 : i < length marks1 = omega (arith, lt, l0, l1) in
          (
            set marks1 i mark_done,
            rw (acyclic_from, fresh, e1) refl,
            length-set marks1 i mark_done ∙ l1 ∙ l0,
            (omega (arith, c0, c1, count_fresh-done marks1 i)),
            StillOpen-visit i marks marks1 lt1 s1,
          )
    ]

acyclic_each_total :
    (targets : List Target) (i count : ℕ) (marks : List Mark)
    → ((j : ℕ) → j < length targets → Grounded targets j)
    → i + count ≤ length targets
    → length marks ≡ length targets
    → ((k : ℕ) → mark_at marks k ≢ mark_open)
    → is_some (acyclic_each targets i count marks) ≡ true
unfolding acyclic_each
acyclic_each_total targets i zero marks g h l n = refl
acyclic_each_total targets i (suc count) marks g h l n =
    let lt : i < length targets = omega (arith, h) in
    let (marks1, e1, l1, _, s1) =
      acyclic_from-IsTotal (suc (length targets)) targets i marks lt l (g i lt)
        (λ k e. absurd (n k e)) (omega (arith, l, count_fresh_le marks)) in
    rw e1 (
      acyclic_each_total targets (suc i) count marks1 g (omega (arith, h)) (l1 ∙ l)
        (λ k e. n k (s1 k e)))

-- A graph is found sound just when no two of its targets have one name and each target is grounded: the names below it are declared and no chain of dependencies from it goes on for ever.
-- The fuel that the search is given is always enough.
pub graph_is_sound_iff :
    (targets : List Target)
    → (graph_is_sound targets ≡ true)
      ↔ (HaveOwnNames targets × ((i : ℕ) → i < length targets → Grounded targets i))
unfolding graph_is_sound
graph_is_sound_iff targets =
    let n = length targets in
    let marks = replicate n mark_none in
    (
      (λ e. (
        (names_are_unique_iff targets).0
            (and_both (names_are_unique targets) (is_some (acyclic_each targets 0 n marks)) e).0,
        λ i h. graph_is_sound-Grounded targets i e h,
      )),
      (λ (u, g).
          and_intro (names_are_unique targets) (is_some (acyclic_each targets 0 n marks))
            ((names_are_unique_iff targets).1 u)
            (acyclic_each_total targets 0 n marks g (omega arith) (length-replicate n mark_none)
              (λ k e. cc (fresh_marks n k, e)))),
    )
