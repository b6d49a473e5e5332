-- ===== src/Services/Ir/Validate/Nodes.antt =====
-- The checks of src/services/ir_validate.c on each node of a document, and `ir_validate`.
use molto.Base.{
  ◌==◌, Bool, true, false, not, ◌&&◌, ◌||◌, Option, none, some, List, [], ◌∷◌, if◌then◌else◌, Bytes,
  is_some,
}
use molto.Services.Ir.{
  Include, Source, Artifact, Target, Dependency, Document, ir_schema, ir_is_from_plugin, opt_eq,
}
use molto.Services.Ir.Paths.{inside, anchor}
use molto.Services.Ir.Validate.{Bounds, BoundsState, bounds_prepare, path_allowed, options_allowed}
use molto.Services.Ir.Validate.Graph.{graph_is_sound}

unfoldable pub find_dependency : List Dependency → Bytes → Option Dependency
find_dependency [] name = none
find_dependency (dep ∷ deps) name =
    if opt_eq dep.name name then some dep else find_dependency deps name

unfoldable pub package_of : Document → Target → Option Dependency
unfolding find_dependency
package_of doc target = elim target.of_package [
  | none ↦ none
  | some name ↦ find_dependency doc.dependencies name
]

-- The root that the paths of a target start at; `none` where its package is not described.
unfoldable pub base_of : Document → Target → Option (Option Bytes)
unfolding package_of
base_of doc target = elim (package_of doc target) [
  | some dep ↦ some dep.root
  | none ↦ if is_some target.of_package then none else some doc.root
]

-- An artifact resolves to the build directory or to something below it.
unfoldable pub artifact_allowed : BoundsState → Option Artifact → Bool
artifact_allowed bounds none = true
artifact_allowed bounds (some artifact) = elim (anchor artifact.path (some bounds.build_dir.path)) [
  | none ↦ false
  | some resolved ↦ inside resolved bounds.build_dir.path
]

module _ (realpath : Bytes → Option Bytes) where
  unfoldable pub sources_allowed : List Source → Option Bytes → BoundsState → Bool → Bool
  unfolding path_allowed options_allowed
  sources_allowed [] base bounds from_plugin = true
  sources_allowed (source ∷ sources) base bounds from_plugin =
      path_allowed realpath source.path base bounds
      && (not from_plugin || options_allowed source.options)
      && sources_allowed sources base bounds from_plugin

  unfoldable pub includes_allowed : List Include → Option Bytes → BoundsState → Bool
  unfolding path_allowed
  includes_allowed [] base bounds = true
  includes_allowed (i ∷ includes) base bounds =
      path_allowed realpath i.value base bounds && includes_allowed includes base bounds

  unfoldable pub target_is_anchored : Target → Option Bytes → BoundsState → Bool → Bool
  unfolding sources_allowed includes_allowed artifact_allowed options_allowed
  target_is_anchored target base bounds from_plugin =
      sources_allowed target.sources base bounds from_plugin
      && includes_allowed target.includes base bounds
      && artifact_allowed bounds target.artifact
      && (not from_plugin || options_allowed target.options && options_allowed target.links)

  unfoldable pub target_is_allowed : Document → Target → BoundsState → Bool → Bool
  unfolding base_of target_is_anchored
  target_is_allowed doc target bounds from_plugin = elim (base_of doc target) [
    | none ↦ false
    | some base ↦ target_is_anchored target base bounds from_plugin
  ]

  unfoldable pub dependency_is_allowed : Dependency → BoundsState → Bool → Bool
  unfolding path_allowed includes_allowed options_allowed
  dependency_is_allowed dep bounds from_plugin =
      path_allowed realpath dep.root none bounds
      && includes_allowed dep.includes dep.root bounds
      && (not from_plugin || options_allowed dep.options && options_allowed dep.links)

  unfoldable pub targets_allowed : Document → List Target → BoundsState → Bool → Bool
  unfolding target_is_allowed
  targets_allowed doc [] bounds from_plugin = true
  targets_allowed doc (target ∷ targets) bounds from_plugin =
      target_is_allowed doc target bounds from_plugin
      && targets_allowed doc targets bounds from_plugin

  unfoldable pub dependencies_allowed : List Dependency → BoundsState → Bool → Bool
  unfolding dependency_is_allowed
  dependencies_allowed [] bounds from_plugin = true
  dependencies_allowed (dep ∷ deps) bounds from_plugin =
      dependency_is_allowed dep bounds from_plugin && dependencies_allowed deps bounds from_plugin

  -- What `ir_validate` checks once the bounds are prepared.
  unfoldable pub document_allowed : Document → BoundsState → Bool
  unfolding path_allowed graph_is_sound targets_allowed dependencies_allowed ir_is_from_plugin
  document_allowed doc bounds =
      path_allowed realpath doc.root none bounds
      && graph_is_sound doc.targets
      && targets_allowed doc doc.targets bounds (ir_is_from_plugin doc)
      && dependencies_allowed doc.dependencies bounds (ir_is_from_plugin doc)

  unfoldable pub ir_validate : Document → Bounds → Bool
  unfolding bounds_prepare document_allowed
  ir_validate doc bounds =
      doc.schema == ir_schema
      && is_some doc.name
      && is_some doc.root
      && is_some doc.origin
      && elim (bounds_prepare realpath bounds) [
        | none ↦ false
        | some state ↦ document_allowed doc state
      ]
