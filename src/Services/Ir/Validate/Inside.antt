-- ===== src/Services/Ir/Validate/Inside.antt =====
-- What the path rule of src/services/ir_validate.c accepts.
use molto.Base.{
  none, ◌≡◌, ◌⊎◌, refl, Bool, true, false, ◌&&◌, ◌||◌, Option, some, List, [], ◌∷◌, ◌++◌, Bytes,
  All, Some, Some-append, Bool-cases, Option-cases, inl, inr, and_left, and_right,
}
use molto.Services.Ir.{Include, Artifact}
use molto.Services.Ir.Paths.{ir_path_max, inside, anchor}
use molto.Services.Ir.Validate.{
  BoundRoot, BoundsState, fixed_roots, inside_any, really_inside_any, within_bounds,
  within_bounds_through_links, fs_real_path, path_allowed,
}
use molto.Services.Ir.Validate.Nodes.{includes_allowed, artifact_allowed}

-- Every directory that a document may name.
abbrev pub all_roots : BoundsState → List BoundRoot
all_roots bounds = fixed_roots bounds ++ bounds.roots

inside_any-Some :
    (resolved : Bytes) (roots : List BoundRoot)
    → inside_any resolved roots ≡ true
    → Some
        (λ (r : BoundRoot). (inside resolved r.path ≡ true) ⊎ (inside resolved r.real ≡ true))
        roots
unfolding inside_any
inside_any-Some resolved [] h = absurd (cc h)
inside_any-Some resolved (r ∷ roots) h = elim (Bool-cases (inside resolved r.path)) [
  | inl a ↦ inl (inl a)
  | inr a ↦ elim (Bool-cases (inside resolved r.real)) [
    | inl b ↦ inl (inr b)
    | inr b ↦ inr (inside_any-Some resolved roots (rw (a, b) at h))
  ]
]

really_inside_any-Some :
    (real : Bytes) (roots : List BoundRoot)
    → really_inside_any real roots ≡ true
    → Some (λ (r : BoundRoot). inside real r.real ≡ true) roots
unfolding really_inside_any
really_inside_any-Some real [] h = absurd (cc h)
really_inside_any-Some real (r ∷ roots) h = elim (Bool-cases (inside real r.real)) [
  | inl b ↦ inl b
  | inr b ↦ inr (really_inside_any-Some real roots (rw b at h))
]

or_cases : (a b : Bool) → (a || b) ≡ true → (a ≡ true) ⊎ (b ≡ true)
or_cases true b h = inl refl
or_cases false b h = inr h

within_bounds-Some :
    (resolved : Bytes) (bounds : BoundsState)
    → within_bounds resolved bounds ≡ true
    → Some
        (λ (r : BoundRoot). (inside resolved r.path ≡ true) ⊎ (inside resolved r.real ≡ true))
        (all_roots bounds)
unfolding within_bounds
within_bounds-Some resolved bounds h =
    Some-append
      (λ (r : BoundRoot). (inside resolved r.path ≡ true) ⊎ (inside resolved r.real ≡ true))
      (fixed_roots bounds) bounds.roots
      (elim (or_cases (inside_any resolved (fixed_roots bounds)) (inside_any resolved bounds.roots)
        h) [
          | inl a ↦ inl (inside_any-Some resolved (fixed_roots bounds) a)
          | inr b ↦ inr (inside_any-Some resolved bounds.roots b)
        ])

module _ (realpath : Bytes → Option Bytes) where
  -- The path resolves, against the base, to one that is inside an authorised directory, as text and
  -- with every link followed.
  abbrev pub IsInside : BoundsState → Option Bytes → Option Bytes → Type 0
  IsInside bounds base path =
      (resolved : Bytes) × (anchor path base ≡ some resolved)
      × Some (λ (r : BoundRoot). (inside resolved r.path ≡ true) ⊎ (inside resolved r.real ≡ true))
          (all_roots bounds)
      × ((real : Bytes)
          → fs_real_path realpath ir_path_max resolved ≡ some real
          → Some (λ (r : BoundRoot). inside real r.real ≡ true) (all_roots bounds))

  through_links :
      (resolved : Bytes) (bounds : BoundsState) (real : Bytes)
      → within_bounds_through_links realpath resolved bounds ≡ true
      → fs_real_path realpath ir_path_max resolved ≡ some real
      → Some (λ (r : BoundRoot). inside real r.real ≡ true) (all_roots bounds)
  unfolding within_bounds_through_links
  through_links resolved bounds real h e =
      Some-append (λ (r : BoundRoot). inside real r.real ≡ true) (fixed_roots bounds) bounds.roots
        (elim (or_cases (really_inside_any real (fixed_roots bounds))
          (really_inside_any real bounds.roots) (rw (within_bounds_through_links, e) at h)) [
            | inl a ↦ inl (really_inside_any-Some real (fixed_roots bounds) a)
            | inr b ↦ inr (really_inside_any-Some real bounds.roots b)
          ])

  pub path_allowed-IsInside :
      (path base : Option Bytes) (bounds : BoundsState)
      → path_allowed realpath path base bounds ≡ true
      → IsInside bounds base path
  unfolding path_allowed
  path_allowed-IsInside path base bounds h = elim (Option-cases (anchor path base)) [
    | inl failed ↦ absurd (cc (rw (path_allowed, failed) at h))
    | inr (resolved, e) ↦
        let both : (within_bounds resolved bounds
              && within_bounds_through_links realpath resolved bounds)
            ≡ true =
          rw (path_allowed, e) at h in
        let lexical =
          and_left (within_bounds resolved bounds)
            (within_bounds_through_links realpath resolved bounds) both in
        let linked =
          and_right (within_bounds resolved bounds)
            (within_bounds_through_links realpath resolved bounds) both in
        (
          resolved,
          e,
          within_bounds-Some resolved bounds lexical,
          λ real f. through_links resolved bounds real linked f,
        )
  ]

  pub includes_allowed-All :
      (includes : List Include) (base : Option Bytes) (bounds : BoundsState)
      → includes_allowed realpath includes base bounds ≡ true
      → All (λ (i : Include). IsInside bounds base i.value) includes
  unfolding includes_allowed
  includes_allowed-All [] base bounds h = tt
  includes_allowed-All (i ∷ includes) base bounds h =
      let a = path_allowed realpath i.value base bounds in
      let b = includes_allowed realpath includes base bounds in
      (
        path_allowed-IsInside i.value base bounds (and_left a b h),
        includes_allowed-All includes base bounds (and_right a b h),
      )

-- The artifact is in the build directory.
abbrev pub IsInBuild : BoundsState → Option Artifact → Type 0
IsInBuild bounds none = Unit
IsInBuild bounds (some artifact) =
    (resolved : Bytes) × (anchor artifact.path (some bounds.build_dir.path) ≡ some resolved)
    × (inside resolved bounds.build_dir.path ≡ true)

pub artifact_allowed-IsInBuild :
    (bounds : BoundsState) (artifact : Option Artifact)
    → artifact_allowed bounds artifact ≡ true
    → IsInBuild bounds artifact
unfolding artifact_allowed
artifact_allowed-IsInBuild bounds none h = tt
artifact_allowed-IsInBuild bounds (some artifact) h =
    elim (Option-cases (anchor artifact.path (some bounds.build_dir.path))) [
      | inl failed ↦ absurd (cc (rw (artifact_allowed, failed) at h))
      | inr (resolved, e) ↦ (resolved, e, rw (artifact_allowed, e) at h)
    ]
