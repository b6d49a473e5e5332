-- ===== src/Services/Ir/Objects/Roots.antt =====
-- What `describe_target` of src/services/ir_transform.c says of a package's sources.
use molto.Base.{
  ℕ, suc, ◌+◌, ◌≡◌, sym, ap, ap₂, ◌∙◌, false, Option, none, some, List, [], ◌∷◌, ◌++◌, map, ◌==◌,
  Bytes, codes, ◌>>=◌, >>=-eq-some, some_eq, Bool-cases, inl, inr, arith,
}
use molto.Services.Ir.{
  Source, Target, ir_add_source, ir_add_target, ir_set_target_package, object_files,
}
use molto.Services.Ir.Paths.{slash, strip_prefix, strip_prefix-splits}
use molto.Services.Ir.Transform.{printed, PreparedUnit, push_defines, push_options, push_includes}
use molto.Services.Ir.Objects.{
  behind_slash, relative_to, describe_source, describe_sources, describe_target, dep_name_max,
  source_options,
}

behind_slash_lem : (o : Option Bytes) {r : Bytes} → behind_slash o ≡ some r → o ≡ some (slash ∷ r)
behind_slash_lem none e = absurd (cc e)
behind_slash_lem (some []) e = absurd (cc e)
behind_slash_lem (some (c ∷ rest)) e = elim (Bool-cases (c == slash)) [
  | inl same ↦ ap some (ap₂ ◌∷◌ (ground arith) (some_eq (rw same at e)))
  | inr other ↦ absurd (cc (rw other at e))
]

relative_to-joins :
    (path root : Bytes) {relative : Bytes}
    → relative_to path root ≡ some relative
    → path ≡ root ++ (slash ∷ relative)
unfolding relative_to
relative_to-joins path [] e = absurd (cc e)
relative_to-joins path (x ∷ root) e =
    strip_prefix-splits (x ∷ root) path (behind_slash_lem (strip_prefix (x ∷ root) path) e)

-- The file that a source names, below the root of its package.
abbrev pub file_of : Bytes → Source → Option Bytes
file_of root source = source.path >>= λ path. some (root ++ (slash ∷ path))

describe_source-file :
    (unit : PreparedUnit) (std cpp_std : Option Bytes) (i : ℕ) (absolute : Bytes) {source : Source}
    → describe_source unit std cpp_std i absolute ≡ some source
    → file_of unit.root source ≡ some absolute
unfolding describe_source ir_add_source
describe_source-file unit std cpp_std i absolute e =
    let (relative, f, e1) = >>=-eq-some (relative_to absolute unit.root) _ e in
    let (options, _, e2) = >>=-eq-some (source_options unit std cpp_std i relative) _ e1 in
    ap (file_of unit.root) (sym (some_eq e2))
    ∙ ap some (sym (relative_to-joins absolute unit.root f))

describe_sources-files :
    (unit : PreparedUnit) (std cpp_std : Option Bytes) (i : ℕ) (files : List Bytes)
    {sources : List Source}
    → describe_sources unit std cpp_std i files ≡ some sources
    → map (file_of unit.root) sources ≡ map some files
unfolding describe_sources
describe_sources-files unit std cpp_std i [] e = ap (map (file_of unit.root)) (sym (some_eq e))
describe_sources-files unit std cpp_std i (absolute ∷ files) e =
    let (source, f, e1) = >>=-eq-some (describe_source unit std cpp_std i absolute) _ e in
    let (more, g, e2) = >>=-eq-some (describe_sources unit std cpp_std (suc i) files) _ e1 in
    ap (map (file_of unit.root)) (sym (some_eq e2))
    ∙ ap₂ ◌∷◌ (describe_source-file unit std cpp_std i absolute f)
        (describe_sources-files unit std cpp_std (suc i) files g)

-- A package's target, where it is made, is an object target of that package, and the files that
-- its sources name below the package's root are the package's sources, in their order.
pub describe_target-files :
    (unit : PreparedUnit) (std cpp_std : Option Bytes) {target : Target}
    → describe_target unit std cpp_std ≡ some target
    → (target.of_package ≡ some unit.name)
      × (target.kind ≡ object_files)
      × (map (file_of unit.root) target.sources ≡ map some unit.sources)
unfolding describe_target ir_add_target ir_set_target_package
describe_target-files unit std cpp_std {target} e =
    let (name, _, e1) =
      >>=-eq-some (printed (dep_name_max + 16) (unit.name ++ codes ":objects")) _ e in
    let (defines, _, e2) = >>=-eq-some (push_defines [] unit.defines) _ e1 in
    let (options, _, e3) = >>=-eq-some (push_options defines unit.flags) _ e2 in
    let (includes, _, e4) = >>=-eq-some (push_includes [] unit.includes false) _ e3 in
    let (sources, f, e5) = >>=-eq-some (describe_sources unit std cpp_std 0 unit.sources) _ e4 in
    (
      ap Target.of_package (sym (some_eq e5)),
      ap Target.kind (sym (some_eq e5)),
      ap (λ (t : Target). map (file_of unit.root) t.sources) (sym (some_eq e5))
          ∙ describe_sources-files unit std cpp_std 0 unit.sources f,
    )
