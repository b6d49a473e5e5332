-- ===== src/Services/Ir/Exports.antt =====
-- `ir_transform_dependencies` of src/services/ir_transform.c: what the packages export, as nodes of
-- the document.
pub mod Nodes
use molto.Base.{
  ℕ, ◌+◌, ◌≡◌, refl, sym, ap, ◌∙◌, Bool, true, false, Option, none, some, List, [], ◌∷◌, ◌++◌, map,
  append-nil, append_assoc, length, leb, if◌then◌else◌, Bytes, codes, ◌>>=◌, All, >>=-eq-some,
  some_eq, Bool-cases, inl, inr,
}
use molto.Services.Ir.{
  Scope, scope_target, Opt, Include, Document, Dependency, DepOrigin, from_registry, from_path,
  from_git, from_archive, DepScope, runtime, dev, ir_add_dependency, ir_add_option, ir_add_include,
}
use molto.Services.Ir.Transform.{
  printed, project_opt_len, push_options, push_defines, project_link_flag, push_links,
  push_includes, DepSource, version_source, git_source, path_source, archive_source,
  PreparedInterface, PreparedUnit,
}

unfoldable pub origin_of : DepSource → DepOrigin
origin_of git_source = from_git
origin_of path_source = from_path
origin_of archive_source = from_archive
origin_of version_source = from_registry

-- A text that is empty stands for one that is not there.
abbrev pub or_null : Bytes → Option Bytes
or_null [] = none
or_null (c ∷ s) = some (c ∷ s)

-- The body of the loop of `describe_all`.
unfoldable pub describe : PreparedUnit → DepScope → Option Dependency
unfolding ir_add_dependency push_options push_defines push_links push_includes origin_of
describe unit scope =
    let dep =
      ir_add_dependency unit.name (or_null unit.version) (origin_of unit.origin) scope
        (some unit.root) in
    do
      includes ← push_includes dep.includes unit.exports.includes unit.system
      defines ← push_defines dep.options unit.exports.defines
      options ← push_options defines unit.exports.flags
      flags ← push_options dep.links unit.exports.flags
      libraries ← push_links flags unit.exports.links
      links ← push_options libraries unit.exports.link_flags
      some (record dep { includes = includes; options = options; links = links })

unfoldable pub describe_units : Document → List PreparedUnit → DepScope → Option Document
unfolding describe
describe_units doc [] scope = some doc
describe_units doc (unit ∷ units) scope = do
  dep ← describe unit scope
  describe_units (record doc { dependencies = doc.dependencies ++ dep ∷ [] }) units scope

-- `none` for the set of packages is NULL.
unfoldable pub describe_all : Document → Option (List PreparedUnit) → DepScope → Option Document
unfolding describe_units
describe_all doc none scope = some doc
describe_all doc (some units) scope = describe_units doc units scope

unfoldable pub ir_transform_dependencies :
    Document → Option (List PreparedUnit) → Option (List PreparedUnit) → Option Document
unfolding describe_all
ir_transform_dependencies doc deps dev_deps = do
  doc' ← describe_all doc deps runtime
  describe_all doc' dev_deps dev
