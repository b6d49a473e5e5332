-- ===== src/Services/Ir/Fold.antt =====
-- `ir_transform_fold_dependencies` of src/services/ir_transform.c: what the packages export, onto
-- the targets that compile against them.
pub mod Received
pub mod Separated
use molto.Base.{Bool, true, false, Option, none, some, List, [], ◌∷◌, if◌then◌else◌, ◌>>=◌}
use molto.Services.Ir.{
  Opt, Include, Target, TargetKind, test_binary, Dependency, DepScope, runtime, dev, Document,
  ir_add_option, ir_add_include,
}

unfoldable pub copy_options : List Opt → List Opt → Option (List Opt)
unfolding ir_add_option
copy_options array [] = some array
copy_options array (x ∷ from) = do
  array' ← ir_add_option array x.value x.scope
  copy_options array' from

unfoldable pub copy_includes : List Include → List Include → Option (List Include)
unfolding ir_add_include
copy_includes array [] = some array
copy_includes array (x ∷ from) = do
  array' ← ir_add_include array x.value x.scope x.system
  copy_includes array' from

unfoldable pub fold_one : Target → Dependency → Option Target
unfolding copy_options copy_includes
fold_one target dep = do
  options ← copy_options target.options dep.options
  includes ← copy_includes target.includes dep.includes
  links ← copy_options target.links dep.links
  some (record target { options = options; includes = includes; links = links })

abbrev pub is_test : TargetKind → Bool
is_test test_binary = true
is_test _ = false

unfoldable pub reaches : DepScope → Target → Bool
reaches scope target = elim target.of_package [
  | some _ ↦ false
  | none ↦ elim scope [ runtime ↦ true | dev ↦ is_test target.kind ]
]

-- The loop over the dependencies, on one target.
unfoldable pub fold_onto : List Dependency → Target → Option Target
unfolding reaches fold_one
fold_onto [] target = some target
fold_onto (dep ∷ deps) target =
    let folded = fold_one target dep >>= fold_onto deps in
    let skipped = fold_onto deps target in if reaches dep.scope target then folded else skipped

unfoldable pub fold_targets : List Dependency → List Target → Option (List Target)
unfolding fold_onto
fold_targets deps [] = some []
fold_targets deps (target ∷ targets) = do
  target' ← fold_onto deps target
  targets' ← fold_targets deps targets
  some (target' ∷ targets')

unfoldable pub ir_transform_fold_dependencies : Document → Option Document
unfolding fold_targets
ir_transform_fold_dependencies doc = do
  targets ← fold_targets doc.dependencies doc.targets
  some (record doc { targets = targets })
