-- ===== src/Services/Ir/Validate/Accepted.antt =====
-- What holds of a document that `ir_validate` of src/services/ir_validate.c accepts.
use molto.Base.{
  ℕ, ◌<◌, ◌≡◌, refl, Bool, true, false, not, ◌&&◌, ◌||◌, Option, none, some, List, [], ◌∷◌, length,
  ◌==◌, Bytes, is_some, All, Option-cases, inl, inr, and_both, and_three, and_four, ==_iff,
}
use molto.Services.Ir.{Include, Source, Target, Dependency, Document, ir_schema, ir_is_from_plugin}
use molto.Services.Ir.Validate.{Bounds, BoundsState, bounds_prepare, path_allowed, options_allowed}
use molto.Services.Ir.Validate.Graph.{graph_is_sound}
use molto.Services.Ir.Validate.Nodes.{
  artifact_allowed, sources_allowed, includes_allowed, target_is_anchored, base_of,
  target_is_allowed, dependency_is_allowed, targets_allowed, dependencies_allowed, document_allowed,
  ir_validate,
}
use molto.Services.Ir.Validate.Inside.{
  IsInBuild, artifact_allowed-IsInBuild, IsInside, path_allowed-IsInside, includes_allowed-All,
}
use molto.Services.Ir.Validate.Options.{AreHarmless, harmless_if, both_harmless_if}
use molto.Services.Ir.Validate.UniqueNames.{HaveOwnNames, names_are_unique-HaveOwnNames, names_hold}
use molto.Services.Ir.Validate.Chains.{Chain}
use molto.Services.Ir.Validate.Acyclic.{graph_is_sound-no_cycle}

prepared_state :
    (prepared : Option BoundsState) (check : BoundsState → Bool)
    → elim prepared [ none ↦ false | some state ↦ check state ] ≡ true
    → (state : BoundsState) × (prepared ≡ some state) × (check state ≡ true)
prepared_state none check h = absurd (cc h)
prepared_state (some state) check h = (state, refl, h)

module _ (realpath : Bytes → Option Bytes) where
  -- A source and its options.
  abbrev pub SourceIsSound : BoundsState → Bool → Option Bytes → Source → Type 0
  SourceIsSound bounds from_plugin base source =
      IsInside realpath bounds base source.path × (from_plugin ≡ true → AreHarmless source.options)

  -- What holds of a target: `base` is the root of its package, or that of the project where it
  -- names none.
  pub record TargetIsSound (doc : Document) (bounds : BoundsState) (from_plugin : Bool)
      (target : Target) : Type 0 where
    pub base : Option Bytes
    pub is_base : base_of doc target ≡ some base
    pub sources : All (SourceIsSound bounds from_plugin base) target.sources
    pub includes : All (λ (i : Include). IsInside realpath bounds base i.value) target.includes
    pub artifact : IsInBuild bounds target.artifact
    pub options : from_plugin ≡ true → AreHarmless target.options × AreHarmless target.links

  pub record DependencyIsSound (bounds : BoundsState) (from_plugin : Bool) (dep : Dependency)
      : Type 0 where
    pub root : IsInside realpath bounds none dep.root
    pub includes : All (λ (i : Include). IsInside realpath bounds dep.root i.value) dep.includes
    pub options : from_plugin ≡ true → AreHarmless dep.options × AreHarmless dep.links

  pub record IsSound (doc : Document) (bounds : BoundsState) : Type 0 where
    pub root : IsInside realpath bounds none doc.root
    pub names : HaveOwnNames doc.targets
    pub no_cycle : (i : ℕ) → i < length doc.targets → ¬ Chain doc.targets i i
    pub targets : All (TargetIsSound doc bounds (ir_is_from_plugin doc)) doc.targets
    pub dependencies : All (DependencyIsSound bounds (ir_is_from_plugin doc)) doc.dependencies

  sources_allowed-All :
      (sources : List Source) (base : Option Bytes) (bounds : BoundsState) (from_plugin : Bool)
      → sources_allowed realpath sources base bounds from_plugin ≡ true
      → All (SourceIsSound bounds from_plugin base) sources
  unfolding sources_allowed
  sources_allowed-All [] base bounds from_plugin h = tt
  sources_allowed-All (source ∷ sources) base bounds from_plugin h =
      let a = path_allowed realpath source.path base bounds in
      let b = not from_plugin || options_allowed source.options in
      let c = sources_allowed realpath sources base bounds from_plugin in
      let (ha, hb, hc) = and_three a b c h in
      (
        (
          path_allowed-IsInside realpath source.path base bounds ha,
          harmless_if from_plugin source.options hb,
        ),
        sources_allowed-All sources base bounds from_plugin hc,
      )

  target_is_allowed-Sound :
      (doc : Document) (target : Target) (bounds : BoundsState) (from_plugin : Bool)
      → target_is_allowed realpath doc target bounds from_plugin ≡ true
      → TargetIsSound doc bounds from_plugin target
  unfolding target_is_allowed target_is_anchored
  target_is_allowed-Sound doc target bounds from_plugin h =
      elim (Option-cases (base_of doc target)) [
        | inl failed ↦ absurd (cc (rw (target_is_allowed, failed) at h))
        | inr (base, e) ↦
            let a = sources_allowed realpath target.sources base bounds from_plugin in
            let b = includes_allowed realpath target.includes base bounds in
            let c = artifact_allowed bounds target.artifact in
            let d =
              not from_plugin || options_allowed target.options && options_allowed target.links in
            let (ha, hb, hc, hd) = and_four a b c d (rw (target_is_allowed, e) at h) in
            record {
              base = base;
              is_base = e;
              sources = sources_allowed-All target.sources base bounds from_plugin ha;
              includes = includes_allowed-All realpath target.includes base bounds hb;
              artifact = artifact_allowed-IsInBuild bounds target.artifact hc;
              options = both_harmless_if from_plugin target.options target.links hd;
            }
      ]

  targets_allowed-All :
      (doc : Document) (targets : List Target) (bounds : BoundsState) (from_plugin : Bool)
      → targets_allowed realpath doc targets bounds from_plugin ≡ true
      → All (TargetIsSound doc bounds from_plugin) targets
  unfolding targets_allowed
  targets_allowed-All doc [] bounds from_plugin h = tt
  targets_allowed-All doc (target ∷ targets) bounds from_plugin h =
      let a = target_is_allowed realpath doc target bounds from_plugin in
      let b = targets_allowed realpath doc targets bounds from_plugin in
      let (ha, hb) = and_both a b h in
      (
        target_is_allowed-Sound doc target bounds from_plugin ha,
        targets_allowed-All doc targets bounds from_plugin hb,
      )

  dependencies_allowed-All :
      (deps : List Dependency) (bounds : BoundsState) (from_plugin : Bool)
      → dependencies_allowed realpath deps bounds from_plugin ≡ true
      → All (DependencyIsSound bounds from_plugin) deps
  unfolding dependencies_allowed dependency_is_allowed
  dependencies_allowed-All [] bounds from_plugin h = tt
  dependencies_allowed-All (dep ∷ deps) bounds from_plugin h =
      let a = path_allowed realpath dep.root none bounds in
      let b = includes_allowed realpath dep.includes dep.root bounds in
      let c = not from_plugin || options_allowed dep.options && options_allowed dep.links in
      let (habc, hs) =
        and_both (a && b && c) (dependencies_allowed realpath deps bounds from_plugin) h in
      let (ha, hb, hc) = and_three a b c habc in
      (
        record {
          root = path_allowed-IsInside realpath dep.root none bounds ha;
          includes = includes_allowed-All realpath dep.includes dep.root bounds hb;
          options = both_harmless_if from_plugin dep.options dep.links hc;
        },
        dependencies_allowed-All deps bounds from_plugin hs,
      )

  document_allowed-IsSound :
      (doc : Document) (bounds : BoundsState)
      → document_allowed realpath doc bounds ≡ true
      → IsSound doc bounds
  unfolding document_allowed
  document_allowed-IsSound doc bounds h =
      let plugin = ir_is_from_plugin doc in
      let a = path_allowed realpath doc.root none bounds in
      let b = graph_is_sound doc.targets in
      let c = targets_allowed realpath doc doc.targets bounds plugin in
      let d = dependencies_allowed realpath doc.dependencies bounds plugin in
      let (ha, hb, hc, hd) = and_four a b c d h in
      record {
        root = path_allowed-IsInside realpath doc.root none bounds ha;
        names = names_are_unique-HaveOwnNames doc.targets (names_hold doc.targets hb);
        no_cycle = λ i l. graph_is_sound-no_cycle doc.targets i hb l;
        targets = targets_allowed-All doc doc.targets bounds plugin hc;
        dependencies = dependencies_allowed-All doc.dependencies bounds plugin hd;
      }

-- A document that `ir_validate` accepts speaks this schema and says its name, root and origin, and
-- the bounds resolve. Against them the root, and every source, include path and dependency root,
-- resolves to an authorised directory or below one, as text and with each link followed; artifacts
-- are below the build directory; no two targets share a name and none depends on itself, directly
-- or through others; each target's package is described; and the document of a plugin has no
-- forbidden option.
pub ir_validate-IsSound :
    (realpath : Bytes → Option Bytes) (doc : Document) (bounds : Bounds)
    → ir_validate realpath doc bounds ≡ true
    → (doc.schema ≡ ir_schema)
      × (is_some doc.name ≡ true)
      × (is_some doc.root ≡ true)
      × (is_some doc.origin ≡ true)
      × (state : BoundsState) × (bounds_prepare realpath bounds ≡ some state)
      × IsSound realpath doc state
unfolding ir_validate
ir_validate-IsSound realpath doc bounds h =
    let prepared = bounds_prepare realpath bounds in
    let rest : Bool = elim prepared [
      | none ↦ false
      | some state ↦ document_allowed realpath doc state
    ] in
    let named =
      doc.schema == ir_schema && is_some doc.name && is_some doc.root && is_some doc.origin in
    let (hd, h4) = and_both named rest h in
    let (hs, hn, hr, ho) =
      and_four (doc.schema == ir_schema) (is_some doc.name) (is_some doc.root) (is_some doc.origin)
        hd in
    let (state, e, k) = prepared_state prepared (document_allowed realpath doc) h4 in
    (
      (==_iff doc.schema ir_schema).0 hs,
      hn,
      hr,
      ho,
      state,
      e,
      document_allowed-IsSound realpath doc state k,
    )
