-- ===== src/Services/Ir/Validate/Accepts.antt =====
-- `ir_validate` of src/services/ir_validate.c refuses no document that keeps the rules.
use molto.Base.{
  ℕ, ◌<◌, ◌≡◌, refl, Bool, true, not, ◌&&◌, ◌||◌, Option, none, some, List, [], ◌∷◌, length, ◌==◌,
  Bytes, is_some, All, and_intro, ==_iff,
}
use molto.Services.Ir.{Target, Dependency, Document, ir_schema, ir_is_from_plugin}
use molto.Services.Ir.Validate.{Bounds, BoundsState, bounds_prepare, path_allowed, options_allowed}
use molto.Services.Ir.Validate.Graph.{graph_is_sound}
use molto.Services.Ir.Validate.Nodes.{
  artifact_allowed, sources_allowed, includes_allowed, target_is_anchored, target_is_allowed,
  dependency_is_allowed, targets_allowed, dependencies_allowed, document_allowed, ir_validate,
}
use molto.Services.Ir.Validate.Chains.{Grounded}
use molto.Services.Ir.Validate.Complete.{graph_is_sound_iff}
use molto.Services.Ir.Validate.Accepted.{TargetIsSound, DependencyIsSound, IsSound}
use molto.Services.Ir.Validate.Allows.{
  and_of_three, and_of_four, both_allowed, IsInBuild-artifact_allowed, IsInside-path_allowed,
  All-includes_allowed, All-sources_allowed,
}

module _ (realpath : Bytes → Option Bytes) where
  Sound-target_is_allowed :
      (doc : Document) (target : Target) (bounds : BoundsState) (from_plugin : Bool)
      → TargetIsSound realpath doc bounds from_plugin target
      → target_is_allowed realpath doc target bounds from_plugin ≡ true
  unfolding target_is_allowed
  Sound-target_is_allowed doc target bounds from_plugin t =
      let anchored : target_is_anchored realpath target t.base bounds from_plugin ≡ true =
        unfold target_is_anchored in
        and_of_four (sources_allowed realpath target.sources t.base bounds from_plugin)
          (includes_allowed realpath target.includes t.base bounds)
          (artifact_allowed bounds target.artifact)
          (not from_plugin || options_allowed target.options && options_allowed target.links)
          (All-sources_allowed realpath target.sources t.base bounds from_plugin t.sources)
          (All-includes_allowed realpath target.includes t.base bounds t.includes)
          (IsInBuild-artifact_allowed bounds target.artifact t.artifact)
          (both_allowed from_plugin target.options target.links t.options) in
      rw (target_is_allowed, t.is_base) anchored

  All-targets_allowed :
      (doc : Document) (targets : List Target) (bounds : BoundsState) (from_plugin : Bool)
      → All (TargetIsSound realpath doc bounds from_plugin) targets
      → targets_allowed realpath doc targets bounds from_plugin ≡ true
  unfolding targets_allowed
  All-targets_allowed doc [] bounds from_plugin h = refl
  All-targets_allowed doc (target ∷ targets) bounds from_plugin (t, ts) =
      (and_intro (target_is_allowed realpath doc target bounds from_plugin)
        (targets_allowed realpath doc targets bounds from_plugin)
        (Sound-target_is_allowed doc target bounds from_plugin t)
        (All-targets_allowed doc targets bounds from_plugin ts))

  Sound-dependency_is_allowed :
      (dep : Dependency) (bounds : BoundsState) (from_plugin : Bool)
      → DependencyIsSound realpath bounds from_plugin dep
      → dependency_is_allowed realpath dep bounds from_plugin ≡ true
  unfolding dependency_is_allowed
  Sound-dependency_is_allowed dep bounds from_plugin d =
      (and_of_three (path_allowed realpath dep.root none bounds)
        (includes_allowed realpath dep.includes dep.root bounds)
        (not from_plugin || options_allowed dep.options && options_allowed dep.links)
        (IsInside-path_allowed realpath dep.root none bounds d.root)
        (All-includes_allowed realpath dep.includes dep.root bounds d.includes)
        (both_allowed from_plugin dep.options dep.links d.options))

  All-dependencies_allowed :
      (deps : List Dependency) (bounds : BoundsState) (from_plugin : Bool)
      → All (DependencyIsSound realpath bounds from_plugin) deps
      → dependencies_allowed realpath deps bounds from_plugin ≡ true
  unfolding dependencies_allowed
  All-dependencies_allowed [] bounds from_plugin h = refl
  All-dependencies_allowed (dep ∷ deps) bounds from_plugin (d, ds) =
      (and_intro (dependency_is_allowed realpath dep bounds from_plugin)
        (dependencies_allowed realpath deps bounds from_plugin)
        (Sound-dependency_is_allowed dep bounds from_plugin d)
        (All-dependencies_allowed deps bounds from_plugin ds))

  IsSound-document_allowed :
      (doc : Document) (bounds : BoundsState)
      → IsSound realpath doc bounds
      → ((i : ℕ) → i < length doc.targets → Grounded doc.targets i)
      → document_allowed realpath doc bounds ≡ true
  unfolding document_allowed
  IsSound-document_allowed doc bounds s g =
      let plugin = ir_is_from_plugin doc in
      (and_of_four (path_allowed realpath doc.root none bounds) (graph_is_sound doc.targets)
        (targets_allowed realpath doc doc.targets bounds plugin)
        (dependencies_allowed realpath doc.dependencies bounds plugin)
        (IsInside-path_allowed realpath doc.root none bounds s.root)
        ((graph_is_sound_iff doc.targets).1 (s.names, g))
        (All-targets_allowed doc doc.targets bounds plugin s.targets)
        (All-dependencies_allowed doc.dependencies bounds plugin s.dependencies))

-- A document that speaks this schema and says its name, root and origin is accepted if the bounds
-- resolve and against them it is sound, and each target is grounded: the names below it are declared
-- and no chain of dependencies from it goes on for ever.
pub IsSound-ir_validate :
    (realpath : Bytes → Option Bytes) (doc : Document) (bounds : Bounds) (state : BoundsState)
    → doc.schema ≡ ir_schema
    → is_some doc.name ≡ true
    → is_some doc.root ≡ true
    → is_some doc.origin ≡ true
    → bounds_prepare realpath bounds ≡ some state
    → IsSound realpath doc state
    → ((i : ℕ) → i < length doc.targets → Grounded doc.targets i)
    → ir_validate realpath doc bounds ≡ true
unfolding ir_validate
IsSound-ir_validate realpath doc bounds state schema name root origin e s g =
    let stated : (doc.schema == ir_schema
          && is_some doc.name
          && is_some doc.root
          && is_some doc.origin)
        ≡ true =
      and_of_four (doc.schema == ir_schema) (is_some doc.name) (is_some doc.root)
        (is_some doc.origin) ((==_iff doc.schema ir_schema).1 schema) name root origin in
    rw (ir_validate, e)
      (and_intro _ (document_allowed realpath doc state) stated
        (IsSound-document_allowed realpath doc state s g))
