-- ===== src/Services/Ir/Exports/Nodes.antt =====
-- What `ir_transform_dependencies` of src/services/ir_transform.c writes, and that it succeeds for
-- whatever a manifest can hold.
use molto.Base.{
  ℕ, ◌+◌, ◌<◌, ◌≡◌, refl, sym, ap, ◌∙◌, Bool, some, List, [], ◌∷◌, ◌++◌, map, append-nil,
  append_assoc, length, length-take, take, drop, ◌-◌, ◌&&◌, ltb, bytes_eq, if◌then◌else◌, Bytes,
  codes, All, Bool-cases, inl, inr, arith,
}
use molto.Services.Ir.{
  scope_target, Opt, Include, Document, Dependency, DepScope, runtime, dev, ir_add_dependency,
  ir_add_option, ir_add_include,
}
use molto.Services.Ir.Transform.{
  printed, project_opt_len, framework, push_options, push_defines, project_link_flag, push_links,
  push_includes, PreparedUnit,
}
use molto.Services.Ir.Exports.{
  origin_of, or_null, describe, describe_units, describe_all, ir_transform_dependencies,
}

-- A value as short as PROJECT_OPT_LEN lets a manifest hold it.
abbrev pub IsShort : Bytes → Type 0
IsShort s = length s < project_opt_len

abbrev option_for : Bytes → Opt
option_for value = record { value = some value; scope = scope_target }

abbrev include_for : Bool → Bytes → Include
include_for system value = record { value = some value; scope = scope_target; system = system }

-- A library as the linker takes it: a name ending in `.framework`, with something in front, is a
-- framework.
abbrev pub link_text : Bytes → Bytes
link_text name =
    let stem = length name - length framework in
    if ltb (length framework) (length name) && bytes_eq (drop stem name) framework
    then codes "-Wl,-framework," ++ take stem name
    else codes "-l" ++ name

printed_lem : (size : ℕ) (text : Bytes) → length text < size → printed size text ≡ some text
printed_lem size text h = ground arith

push_options_lem :
    (array : List Opt) (values : List Bytes)
    → push_options array values ≡ some (array ++ map option_for values)
unfolding push_options ir_add_option
push_options_lem array [] = ap some (sym (append-nil array))
push_options_lem array (value ∷ values) =
    push_options_lem (array ++ option_for value ∷ []) values
    ∙ ap some (append_assoc array (option_for value ∷ []) (map option_for values))

push_includes_lem :
    (array : List Include) (values : List Bytes) (system : Bool)
    → push_includes array values system ≡ some (array ++ map (include_for system) values)
unfolding push_includes ir_add_include
push_includes_lem array [] system = ap some (sym (append-nil array))
push_includes_lem array (value ∷ values) system =
    push_includes_lem (array ++ include_for system value ∷ []) values system
    ∙ ap some (append_assoc array (include_for system value ∷ []) (map (include_for system) values))

abbrev define_for : Bytes → Opt
define_for value = option_for (codes "-D" ++ value)

push_defines_lem :
    (array : List Opt) (values : List Bytes)
    → All IsShort values
    → push_defines array values ≡ some (array ++ map define_for values)
unfolding push_defines ir_add_option
push_defines_lem array [] h = ap some (sym (append-nil array))
push_defines_lem array (value ∷ values) h =
    rw (printed_lem (project_opt_len + 4) (codes "-D" ++ value) (omega (arith, h.0))) (
      push_defines_lem (array ++ define_for value ∷ []) values h.1
      ∙ ap some (append_assoc array (define_for value ∷ []) (map define_for values)))

project_link_flag_lem :
    (name : Bytes)
    → IsShort name
    → project_link_flag name (project_opt_len + 16) ≡ some (link_text name)
unfolding project_link_flag
project_link_flag_lem name h =
    let stem = length name - length framework in
    elim (Bool-cases
      (ltb (length framework) (length name) && bytes_eq (drop stem name) framework)) [
        | inl e ↦ rw e (
            printed_lem (project_opt_len + 16) (codes "-Wl,-framework," ++ take stem name)
              (omega (arith, h, length-take stem name)))
        | inr e ↦ rw e (printed_lem (project_opt_len + 16) (codes "-l" ++ name) (omega (arith, h)))
      ]

abbrev link_for : Bytes → Opt
link_for name = option_for (link_text name)

push_links_lem :
    (array : List Opt) (values : List Bytes)
    → All IsShort values
    → push_links array values ≡ some (array ++ map link_for values)
unfolding push_links ir_add_option
push_links_lem array [] h = ap some (sym (append-nil array))
push_links_lem array (value ∷ values) h = rw (project_link_flag_lem value h.0) (
    push_links_lem (array ++ link_for value ∷ []) values h.1
    ∙ ap some (append_assoc array (link_for value ∷ []) (map link_for values)))

-- The node of a package: its defines and then its flags on the compile line, its flags, its
-- libraries and then its link flags on the link line.
abbrev pub node : DepScope → PreparedUnit → Dependency
node scope unit = record {
  name = some unit.name;
  version = or_null unit.version;
  origin = origin_of unit.origin;
  scope = scope;
  root = some unit.root;
  includes = map (include_for unit.system) unit.exports.includes;
  options = map define_for unit.exports.defines ++ map option_for unit.exports.flags;
  links =
      (map option_for unit.exports.flags ++ map link_for unit.exports.links)
      ++ map option_for unit.exports.link_flags;
}

abbrev pub FromManifest : PreparedUnit → Type 0
FromManifest unit = All IsShort unit.exports.defines × All IsShort unit.exports.links

describe_lem :
    (unit : PreparedUnit) (scope : DepScope)
    → FromManifest unit
    → describe unit scope ≡ some (node scope unit)
unfolding describe ir_add_dependency
describe_lem unit scope (d, l) =
    rw
      (
        push_includes_lem [] unit.exports.includes unit.system,
        push_defines_lem [] unit.exports.defines d,
        push_options_lem (map define_for unit.exports.defines) unit.exports.flags,
        push_options_lem [] unit.exports.flags,
        push_links_lem (map option_for unit.exports.flags) unit.exports.links l,
        push_options_lem (map option_for unit.exports.flags ++ map link_for unit.exports.links)
            unit.exports.link_flags,
      )
      refl

-- A document with nodes behind those it has.
abbrev pub with_nodes : Document → List Dependency → Document
with_nodes doc nodes = record doc { dependencies = doc.dependencies ++ nodes }

describe_units_lem :
    (doc : Document) (units : List PreparedUnit) (scope : DepScope)
    → All FromManifest units
    → describe_units doc units scope ≡ some (with_nodes doc (map (node scope) units))
unfolding describe_units
describe_units_lem doc [] scope h = rw (append-nil doc.dependencies) refl
describe_units_lem doc (unit ∷ units) scope h = rw (describe_lem unit scope h.0) (
    describe_units_lem (with_nodes doc (node scope unit ∷ [])) units scope h.1
    ∙ ap (λ nodes. some (record doc { dependencies = nodes }))
        (append_assoc doc.dependencies (node scope unit ∷ []) (map (node scope) units)))

-- Where every exported define and library is as short as a manifest holds them, the pass succeeds,
-- and it adds one node for each package and nothing else: those that ship first, then those that
-- only tests use, each set in its order.
pub ir_transform_dependencies_lem :
    (doc : Document) (deps dev_deps : List PreparedUnit)
    → All FromManifest deps
    → All FromManifest dev_deps
    → ir_transform_dependencies doc (some deps) (some dev_deps)
      ≡ some (with_nodes doc (map (node runtime) deps ++ map (node dev) dev_deps))
unfolding ir_transform_dependencies describe_all
ir_transform_dependencies_lem doc deps dev_deps h k = rw (describe_units_lem doc deps runtime h) (
    describe_units_lem (with_nodes doc (map (node runtime) deps)) dev_deps dev k
    ∙ ap (λ nodes. some (record doc { dependencies = nodes }))
        (append_assoc doc.dependencies (map (node runtime) deps) (map (node dev) dev_deps)))
