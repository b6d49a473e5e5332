-- ===== src/Services/Ir/Validate/Allows.antt =====
-- The checks of src/services/ir_validate.c on paths, options and artifacts refuse none that keeps
-- the rules.
use molto.Base.{
  ◌≡◌, refl, Bool, true, false, not, ◌&&◌, ◌||◌, ◌⊎◌, Option, none, some, List, [], ◌∷◌, ◌++◌,
  Bytes, All, Some, Option-cases, inl, inr, and_intro, arith,
}
use molto.Services.Ir.{Opt, Include, Source, Artifact}
use molto.Services.Ir.Paths.{ir_path_max, inside}
use molto.Services.Ir.Validate.{
  BoundsState, BoundRoot, fixed_roots, inside_any, really_inside_any, within_bounds,
  within_bounds_through_links, fs_real_path, path_allowed, options_allowed,
}
use molto.Services.Ir.Validate.Nodes.{artifact_allowed, sources_allowed, includes_allowed}
use molto.Services.Ir.Validate.Inside.{all_roots, IsInBuild, IsInside}
use molto.Services.Ir.Validate.Options.{AreHarmless, options_allowed_iff}
use molto.Services.Ir.Validate.Accepted.{SourceIsSound}

Some-inside_any :
    (resolved : Bytes) (xs ys : List BoundRoot)
    → Some
        (λ (r : BoundRoot). (inside resolved r.path ≡ true) ⊎ (inside resolved r.real ≡ true))
        (xs ++ ys)
    → (inside_any resolved xs || inside_any resolved ys) ≡ true
unfolding inside_any
Some-inside_any resolved [] [] s = absurd s
Some-inside_any resolved [] (y ∷ ys) (inl (inl h)) = ground (arith, h)
Some-inside_any resolved [] (y ∷ ys) (inl (inr h)) = ground (arith, h)
Some-inside_any resolved [] (y ∷ ys) (inr s) = ground (arith, Some-inside_any resolved [] ys s)
Some-inside_any resolved (x ∷ xs) ys (inl (inl h)) = ground (arith, h)
Some-inside_any resolved (x ∷ xs) ys (inl (inr h)) = ground (arith, h)
Some-inside_any resolved (x ∷ xs) ys (inr s) = ground (arith, Some-inside_any resolved xs ys s)

Some-really_inside_any :
    (real : Bytes) (xs ys : List BoundRoot)
    → Some (λ (r : BoundRoot). inside real r.real ≡ true) (xs ++ ys)
    → (really_inside_any real xs || really_inside_any real ys) ≡ true
unfolding really_inside_any
Some-really_inside_any real [] [] s = absurd s
Some-really_inside_any real [] (y ∷ ys) (inl h) = ground (arith, h)
Some-really_inside_any real [] (y ∷ ys) (inr s) =
    ground (arith, Some-really_inside_any real [] ys s)
Some-really_inside_any real (x ∷ xs) ys (inl h) = ground (arith, h)
Some-really_inside_any real (x ∷ xs) ys (inr s) =
    ground (arith, Some-really_inside_any real xs ys s)

pub and_of_three : (a b c : Bool) → a ≡ true → b ≡ true → c ≡ true → (a && b && c) ≡ true
and_of_three a b c h k l = and_intro (a && b) c (and_intro a b h k) l

pub and_of_four :
    (a b c d : Bool) → a ≡ true → b ≡ true → c ≡ true → d ≡ true → (a && b && c && d) ≡ true
and_of_four a b c d h k l m = and_intro (a && b && c) d (and_of_three a b c h k l) m

AreHarmless-options_allowed :
    (from_plugin : Bool) (options : List Opt)
    → (from_plugin ≡ true → AreHarmless options)
    → (not from_plugin || options_allowed options) ≡ true
AreHarmless-options_allowed true options h = (options_allowed_iff options).1 (h refl)
AreHarmless-options_allowed false options h = refl

pub both_allowed :
    (from_plugin : Bool) (options links : List Opt)
    → (from_plugin ≡ true → AreHarmless options × AreHarmless links)
    → (not from_plugin || options_allowed options && options_allowed links) ≡ true
both_allowed true options links h =
    and_intro (options_allowed options) (options_allowed links)
      ((options_allowed_iff options).1 (h refl).0) ((options_allowed_iff links).1 (h refl).1)
both_allowed false options links h = refl

pub IsInBuild-artifact_allowed :
    (bounds : BoundsState) (artifact : Option Artifact)
    → IsInBuild bounds artifact
    → artifact_allowed bounds artifact ≡ true
unfolding artifact_allowed
IsInBuild-artifact_allowed bounds none h = refl
IsInBuild-artifact_allowed bounds (some artifact) (resolved, e, h) = rw (artifact_allowed, e) h

module _ (realpath : Bytes → Option Bytes) where
  through_links_allowed :
      (resolved : Bytes) (bounds : BoundsState)
      → ((real : Bytes)
          → fs_real_path realpath ir_path_max resolved ≡ some real
          → Some (λ (r : BoundRoot). inside real r.real ≡ true) (all_roots bounds))
      → within_bounds_through_links realpath resolved bounds ≡ true
  unfolding within_bounds_through_links
  through_links_allowed resolved bounds h =
      elim (Option-cases (fs_real_path realpath ir_path_max resolved)) [
        | inl failed ↦ rw (within_bounds_through_links, failed) refl
        | inr (real, e) ↦
            rw (within_bounds_through_links, e)
              (Some-really_inside_any real (fixed_roots bounds) bounds.roots (h real e))
      ]

  pub IsInside-path_allowed :
      (path base : Option Bytes) (bounds : BoundsState)
      → IsInside realpath bounds base path
      → path_allowed realpath path base bounds ≡ true
  unfolding path_allowed within_bounds
  IsInside-path_allowed path base bounds (resolved, e, lexical, linked) =
      rw (path_allowed, e)
        (and_intro (within_bounds resolved bounds)
          (within_bounds_through_links realpath resolved bounds)
          (Some-inside_any resolved (fixed_roots bounds) bounds.roots lexical)
          (through_links_allowed resolved bounds linked))

  pub All-includes_allowed :
      (includes : List Include) (base : Option Bytes) (bounds : BoundsState)
      → All (λ (i : Include). IsInside realpath bounds base i.value) includes
      → includes_allowed realpath includes base bounds ≡ true
  unfolding includes_allowed
  All-includes_allowed [] base bounds h = refl
  All-includes_allowed (i ∷ includes) base bounds (h, hs) =
      (and_intro (path_allowed realpath i.value base bounds)
        (includes_allowed realpath includes base bounds)
        (IsInside-path_allowed i.value base bounds h)
        (All-includes_allowed includes base bounds hs))

  pub All-sources_allowed :
      (sources : List Source) (base : Option Bytes) (bounds : BoundsState) (from_plugin : Bool)
      → All (SourceIsSound realpath bounds from_plugin base) sources
      → sources_allowed realpath sources base bounds from_plugin ≡ true
  unfolding sources_allowed
  All-sources_allowed [] base bounds from_plugin h = refl
  All-sources_allowed (source ∷ sources) base bounds from_plugin ((p, o), hs) =
      (and_of_three (path_allowed realpath source.path base bounds)
        (not from_plugin || options_allowed source.options)
        (sources_allowed realpath sources base bounds from_plugin)
        (IsInside-path_allowed source.path base bounds p)
        (AreHarmless-options_allowed from_plugin source.options o)
        (All-sources_allowed sources base bounds from_plugin hs))
