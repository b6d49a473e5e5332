-- ===== src/Services/Ir/Fold/Separated.antt =====
-- Which dependencies `ir_transform_fold_dependencies` of src/services/ir_transform.c keeps away from
-- a target.
use molto.Base.{
  ◌≡◌, ◌≢◌, refl, sym, ap, ◌∙◌, Bool, true, false, none, some, List, [], ◌∷◌, >>=-eq-some, some_eq,
  Bool-cases, Option-cases, ◌⊎◌, inl, inr,
}
use molto.Base.Concat.{filter}
use molto.Services.Ir.{Target, TargetKind, test_binary, Dependency, DepScope, runtime, dev}
use molto.Services.Ir.Fold.{copy_options, copy_includes, fold_one, is_test, reaches, fold_onto}

abbrev pub is_runtime : Dependency → Bool
is_runtime dep = elim dep.scope [ runtime ↦ true | dev ↦ false ]

DepScope-cases : (scope : DepScope) → (scope ≡ runtime) ⊎ (scope ≡ dev)
DepScope-cases runtime = inl refl
DepScope-cases dev = inr refl

is_test_ne : (kind : TargetKind) → kind ≢ test_binary → is_test kind ≡ false
is_test_ne test_binary h = absurd (h refl)
is_test_ne _ h = refl

reaches-dev : (target : Target) → target.kind ≢ test_binary → reaches dev target ≡ false
unfolding reaches
reaches-dev target h = elim (Option-cases target.of_package) [
  | inl e ↦ rw e (is_test_ne target.kind h)
  | inr (p, e) ↦ rw e refl
]

reaches-package :
    (scope : DepScope) (target : Target) → target.of_package ≢ none → reaches scope target ≡ false
unfolding reaches
reaches-package scope target h = elim (Option-cases target.of_package) [
  | inl e ↦ absurd (h e)
  | inr (p, e) ↦ rw e refl
]

fold_one-kind :
    (target : Target) (dep : Dependency) {target' : Target}
    → fold_one target dep ≡ some target'
    → target'.kind ≡ target.kind
unfolding fold_one
fold_one-kind target dep e =
    let (options, _, e1) = >>=-eq-some (copy_options target.options dep.options) _ e in
    let (includes, _, e2) = >>=-eq-some (copy_includes target.includes dep.includes) _ e1 in
    let (links, _, e3) = >>=-eq-some (copy_options target.links dep.links) _ e2 in
    ap Target.kind (sym (some_eq e3))

fold_onto-runtime :
    (deps : List Dependency) (target : Target)
    → target.kind ≢ test_binary
    → fold_onto deps target ≡ fold_onto (filter is_runtime deps) target
unfolding fold_onto
fold_onto-runtime [] target h = refl
fold_onto-runtime (dep ∷ deps) target h = elim (DepScope-cases dep.scope) [
  | inr e ↦ rw (e, reaches-dev target h) (fold_onto-runtime deps target h)
  | inl e ↦ elim (Bool-cases (reaches runtime target)) [
    | inr miss ↦ rw (e, miss) (fold_onto-runtime deps target h)
    | inl hit ↦ elim (Option-cases (fold_one target dep)) [
      | inl failed ↦ rw (e, hit, failed) refl
      | inr (target', folded) ↦
          rw (e, hit, folded)
            (fold_onto-runtime deps target' (λ t. h (sym (fold_one-kind target dep folded) ∙ t)))
    ]
  ]
]

fold_onto-package :
    (deps : List Dependency) (target : Target)
    → target.of_package ≢ none
    → fold_onto deps target ≡ some target
unfolding fold_onto
fold_onto-package [] target h = refl
fold_onto-package (dep ∷ deps) target h =
    rw (reaches-package dep.scope target h) (fold_onto-package deps target h)

-- A development dependency changes nothing for a target that is not a test, and no dependency does
-- for a target that belongs to a package.
pub fold_onto-separated :
    (deps : List Dependency) (target : Target)
    → (target.kind ≢ test_binary
        → fold_onto deps target ≡ fold_onto (filter is_runtime deps) target)
      × (target.of_package ≢ none → fold_onto deps target ≡ some target)
fold_onto-separated deps target = (fold_onto-runtime deps target, fold_onto-package deps target)
