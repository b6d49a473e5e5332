-- ===== src/Services/Ir/Objects/Shipped.antt =====
-- Which targets `ir_transform_dependency_targets` of src/services/ir_transform.c adds.
use molto.Base.{
  ◌≡◌, refl, sym, ap, ◌∙◌, subst, Bool, not, Option, some, List, [], ◌∷◌, ◌++◌, map, append-nil,
  append_assoc, length, ◌==◌, Bytes, >>=-eq-some, some_eq, Bool-cases, inl, inr,
}
use molto.Base.Concat.{filter}
use molto.Services.Ir.{Target, Document}
use molto.Services.Ir.Transform.{PreparedUnit}
use molto.Services.Ir.Objects.{
  describe_target, describe_unit_targets, describe_targets, ir_transform_dependency_targets,
}
use molto.Services.Ir.Objects.Roots.{describe_target-files}

abbrev pub ships : PreparedUnit → Bool
ships unit = not (length unit.sources == 0)

-- The names of the packages that ship sources, as targets name them.
abbrev pub shipped : List PreparedUnit → List (Option Bytes)
shipped units = map (λ (u : PreparedUnit). some u.name) (filter ships units)

abbrev pub packages : Document → List (Option Bytes)
packages doc = map Target.of_package doc.targets

map-append :
    (xs ys : List Target)
    → map Target.of_package (xs ++ ys) ≡ map Target.of_package xs ++ map Target.of_package ys
map-append [] ys = refl
map-append (x ∷ xs) ys = ap (◌∷◌ x.of_package) (map-append xs ys)

-- What a pass adds to the packages of the targets, and that it leaves the targets that were there.
abbrev Adds : Document → List (Option Bytes) → Document → Type 0
Adds doc names doc' =
    (added : List Target) × (doc'.targets ≡ doc.targets ++ added)
    × (map Target.of_package added ≡ names)
    × (doc'.dependencies ≡ doc.dependencies)

describe_unit_targets-Adds :
    (doc : Document) (units : List PreparedUnit) (std cpp_std : Option Bytes) {doc' : Document}
    → describe_unit_targets doc units std cpp_std ≡ some doc'
    → Adds doc (shipped units) doc'
unfolding describe_unit_targets
describe_unit_targets-Adds doc [] std cpp_std {doc'} e =
    subst (Adds doc []) (some_eq e) ([], sym (append-nil doc.targets), refl, refl)
describe_unit_targets-Adds doc (unit ∷ units) std cpp_std {doc'} e =
    elim (Bool-cases (length unit.sources == 0)) [
      | inl bare ↦
          rw bare (
            describe_unit_targets-Adds doc units std cpp_std
              (rw (describe_unit_targets, bare) at e))
      | inr full ↦
          let (target, f, g) =
            >>=-eq-some (describe_target unit std cpp_std)
              (λ target.
                describe_unit_targets (record doc { targets = doc.targets ++ target ∷ [] }) units
                  std cpp_std)
              (rw (describe_unit_targets, full) at e) in
          let (added, t, p, d) =
            describe_unit_targets-Adds (record doc { targets = doc.targets ++ target ∷ [] }) units
              std cpp_std g in
          let (own, _, _) = describe_target-files unit std cpp_std f in
          rw full (
            target ∷ added,
            t ∙ append_assoc doc.targets (target ∷ []) added,
            ap (λ o. o ∷ map Target.of_package added) own ∙ ap (◌∷◌ (some unit.name)) p,
            d,
          )
    ]

-- A pass that succeeds leaves the dependencies and the targets that were there, and adds one target
-- for each package that ships sources: those that ship first, then those that only tests use, each
-- set in its order.
pub ir_transform_dependency_targets_lem :
    (doc : Document) (deps dev_deps : List PreparedUnit) (std cpp_std : Option Bytes)
    {doc' : Document}
    → ir_transform_dependency_targets doc (some deps) (some dev_deps) std cpp_std ≡ some doc'
    → (added : List Target) × (doc'.targets ≡ doc.targets ++ added)
      × (map Target.of_package added ≡ shipped deps ++ shipped dev_deps)
      × (doc'.dependencies ≡ doc.dependencies)
unfolding ir_transform_dependency_targets describe_targets
ir_transform_dependency_targets_lem doc deps dev_deps std cpp_std e =
    let (doc1, f, g) =
      >>=-eq-some (describe_unit_targets doc deps std cpp_std)
        (λ d. describe_unit_targets d dev_deps std cpp_std) e in
    let (a, t, p, d) = describe_unit_targets-Adds doc deps std cpp_std f in
    let (a2, t2, p2, d2) = describe_unit_targets-Adds doc1 dev_deps std cpp_std g in
    (
      a ++ a2,
      t2 ∙ ap (λ ts. ts ++ a2) t ∙ append_assoc doc.targets a a2,
      map-append a a2 ∙ ap (λ x. x ++ map Target.of_package a2) p ∙ ap (◌++◌ (shipped deps)) p2,
      d2 ∙ d,
    )
