-- ===== src/Services/Ir/Fold/Received.antt =====
-- What `ir_transform_fold_dependencies` of src/services/ir_transform.c gives each target.
use molto.Base.{
  ◌≡◌, ◌≢◌, refl, sym, ap, ◌∙◌, none, some, List, [], ◌∷◌, ◌++◌, map, append-nil, append_assoc,
  ◌>>=◌, All, Bool-cases, Option-cases, inl, inr,
}
use molto.Base.Concat.{concat_map, filter}
use molto.Services.Ir.{Opt, Include, Target, Dependency, Document, ir_add_option, ir_add_include}
use molto.Services.Ir.Fold.{
  copy_options, copy_includes, fold_one, reaches, fold_onto, fold_targets,
  ir_transform_fold_dependencies,
}

-- Every option and include of a dependency says something.
abbrev pub IsStated : Dependency → Type 0
IsStated dep =
    All (λ (o : Opt). o.value ≢ none) dep.options
    × All (λ (i : Include). i.value ≢ none) dep.includes
    × All (λ (o : Opt). o.value ≢ none) dep.links

-- A target with the interface of packages behind what it carried.
abbrev pub with_interfaces : Target → List Dependency → Target
with_interfaces target deps = record target {
  options = target.options ++ concat_map Dependency.options deps;
  includes = target.includes ++ concat_map Dependency.includes deps;
  links = target.links ++ concat_map Dependency.links deps;
}

-- The dependencies that reach a target: on none that belongs to a package, and development ones on
-- tests only.
abbrev pub reaching : List Dependency → Target → List Dependency
reaching deps target = filter (λ (d : Dependency). reaches d.scope target) deps

ir_add_option_lem :
    (array : List Opt) (x : Opt)
    → x.value ≢ none
    → ir_add_option array x.value x.scope ≡ some (array ++ x ∷ [])
unfolding ir_add_option
ir_add_option_lem array x h = elim (Option-cases x.value) [
  | inl e ↦ absurd (h e)
  | inr (v, e) ↦
      ap (λ o. ir_add_option array o x.scope) e
      ∙ ap (λ o. some (array ++ record { value = o; scope = x.scope } ∷ [])) (sym e)
]

ir_add_include_lem :
    (array : List Include) (x : Include)
    → x.value ≢ none
    → ir_add_include array x.value x.scope x.system ≡ some (array ++ x ∷ [])
unfolding ir_add_include
ir_add_include_lem array x h = elim (Option-cases x.value) [
  | inl e ↦ absurd (h e)
  | inr (v, e) ↦
      ap (λ o. ir_add_include array o x.scope x.system) e
      ∙ ap (λ o. some (array ++ record { value = o; scope = x.scope; system = x.system } ∷ []))
          (sym e)
]

copy_options_lem :
    (array from : List Opt)
    → All (λ (o : Opt). o.value ≢ none) from
    → copy_options array from ≡ some (array ++ from)
unfolding copy_options
copy_options_lem array [] h = ap some (sym (append-nil array))
copy_options_lem array (x ∷ from) h =
    ap (λ o. o >>= λ a. copy_options a from) (ir_add_option_lem array x h.0)
    ∙ copy_options_lem (array ++ x ∷ []) from h.1
    ∙ ap some (append_assoc array (x ∷ []) from)

copy_includes_lem :
    (array from : List Include)
    → All (λ (i : Include). i.value ≢ none) from
    → copy_includes array from ≡ some (array ++ from)
unfolding copy_includes
copy_includes_lem array [] h = ap some (sym (append-nil array))
copy_includes_lem array (x ∷ from) h =
    ap (λ o. o >>= λ a. copy_includes a from) (ir_add_include_lem array x h.0)
    ∙ copy_includes_lem (array ++ x ∷ []) from h.1
    ∙ ap some (append_assoc array (x ∷ []) from)

abbrev with_one : Target → Dependency → Target
with_one target dep = record target {
  options = target.options ++ dep.options;
  includes = target.includes ++ dep.includes;
  links = target.links ++ dep.links;
}

fold_one_lem :
    (target : Target) (dep : Dependency)
    → IsStated dep
    → fold_one target dep ≡ some (with_one target dep)
unfolding fold_one
fold_one_lem target dep (o, i, l) =
    rw
      (
        copy_options_lem target.options dep.options o,
        copy_includes_lem target.includes dep.includes i,
        copy_options_lem target.links dep.links l,
      )
      refl

with_one-with_interfaces :
    (target : Target) (dep : Dependency) (deps : List Dependency)
    → with_interfaces (with_one target dep) deps ≡ with_interfaces target (dep ∷ deps)
with_one-with_interfaces target dep deps =
    rw
      (
        append_assoc target.options dep.options (concat_map Dependency.options deps),
        append_assoc target.includes dep.includes (concat_map Dependency.includes deps),
        append_assoc target.links dep.links (concat_map Dependency.links deps),
      )
      refl

fold_onto_lem :
    (deps : List Dependency) (target : Target)
    → All IsStated deps
    → fold_onto deps target ≡ some (with_interfaces target (reaching deps target))
unfolding fold_onto reaches
fold_onto_lem [] target h =
    rw (append-nil target.options, append-nil target.includes, append-nil target.links) refl
fold_onto_lem (dep ∷ deps) target h = elim (Bool-cases (reaches dep.scope target)) [
  | inl hit ↦ rw hit (
      ap (λ t. t >>= fold_onto deps) (fold_one_lem target dep h.0)
      ∙ fold_onto_lem deps (with_one target dep) h.1
      ∙ ap some (with_one-with_interfaces target dep (reaching deps target)))
  | inr miss ↦ rw miss (fold_onto_lem deps target h.1)
]

fold_targets_lem :
    (deps : List Dependency) (targets : List Target)
    → All IsStated deps
    → fold_targets deps targets ≡ some (map (λ t. with_interfaces t (reaching deps t)) targets)
unfolding fold_targets
fold_targets_lem deps [] h = refl
fold_targets_lem deps (target ∷ targets) h =
    rw (fold_onto_lem deps target h, fold_targets_lem deps targets h) refl

-- Where every option and include of the dependencies has a value, the fold succeeds. Each target
-- has, behind its own options, includes and links, those of the dependencies that reach it, in the
-- order of the document, and nothing else in the document changes.
pub ir_transform_fold_dependencies_lem :
    (doc : Document)
    → All IsStated doc.dependencies
    → ir_transform_fold_dependencies doc
      ≡ some (record doc {
        targets = map (λ t. with_interfaces t (reaching doc.dependencies t)) doc.targets;
      })
unfolding ir_transform_fold_dependencies
ir_transform_fold_dependencies_lem doc h = rw (fold_targets_lem doc.dependencies doc.targets h) refl
