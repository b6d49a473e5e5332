-- ===== src/Services/Ir/Tests.antt =====
-- Runs of the document's passes and of its validation, and the theorems at concrete inputs.
use molto.Base.{
  List, ℕ, ◌≡◌, ◌≢◌, ◌↔◌, ◌<◌, refl, true, false, Option, none, some, [], ◌∷◌, ◌++◌, map, length,
  All, Bytes, bytes_eq, codes, is_some, arith,
}
use molto.Base.Concat.{filter}
use molto.Services.Ir.{
  scope_target, scope_unit, Opt, Target, Dependency, Document, runtime, dev, ir_document_init,
  ir_add_target, ir_add_source, ir_add_dependency, ir_set_target_package, ir_schema, executable,
  test_binary, static_library, object_files, language_c, language_cpp, from_path, from_registry,
}
use molto.Services.Ir.Paths.{fs_path_is_absolute, normalise, inside, anchor_text}
use molto.Services.Ir.Paths.Contains.{Leads, inside-Leads}
use molto.Services.Ir.Paths.Segments.{IsSegment, rendered, Canonical, normalise-Canonical}
use molto.Services.Ir.Transform.{PreparedUnit, version_source}
use molto.Services.Ir.Fold.{fold_onto, ir_transform_fold_dependencies}
use molto.Services.Ir.Fold.Received.{
  IsStated, with_interfaces, reaching, ir_transform_fold_dependencies_lem,
}
use molto.Services.Ir.Fold.Separated.{is_runtime, fold_onto-separated}
use molto.Services.Ir.Exports.{ir_transform_dependencies}
use molto.Services.Ir.Exports.Nodes.{FromManifest, node, with_nodes, ir_transform_dependencies_lem}
use molto.Services.Ir.Objects.{describe_target, ir_transform_dependency_targets}
use molto.Services.Ir.Objects.Shipped.{shipped, ir_transform_dependency_targets_lem}
use molto.Services.Ir.Objects.Roots.{file_of, describe_target-files}
use molto.Services.Ir.Validate.{Bounds, BoundsState, bounds_prepare, forbidden, options_allowed}
use molto.Services.Ir.Validate.Options.{IsHarmless, options_allowed_iff}
use molto.Services.Ir.Validate.Graph.{graph_is_sound}
use molto.Services.Ir.Validate.Chains.{Grounded}
use molto.Services.Ir.Validate.UniqueNames.{HaveOwnNames}
use molto.Services.Ir.Validate.Complete.{graph_is_sound_iff}
use molto.Services.Ir.Validate.Nodes.{ir_validate}
use molto.Services.Ir.Validate.Accepts.{IsSound-ir_validate}
use molto.Services.Ir.Validate.Accepted.{IsSound, ir_validate-IsSound}

shortens : normalise 64 (codes "/a/./b//../../../c/") ≡ some (codes "/c")
unfolding normalise bytes_eq
shortens = refl

climbs : normalise 64 (codes "a/../../b") ≡ some (codes "../b")
unfolding normalise bytes_eq
climbs = refl

evil_twin : inside (codes "/home/u/proj-evil") (codes "/home/u/proj") ≡ false
unfolding inside
evil_twin = refl

is_absolute : fs_path_is_absolute (codes "/a/./b//../../../c/") ≡ true
unfolding fs_path_is_absolute
is_absolute = refl

normalise-Canonical_example :
    Canonical (fs_path_is_absolute (codes "/a/./b//../../../c/")) (codes "/c")
normalise-Canonical_example = normalise-Canonical 64 (codes "/a/./b//../../../c/") shortens

abbrev says : Bytes → Opt
says value = record { value = some value; scope = scope_target }

abbrev says_here : Bytes → Opt
says_here value = record { value = some value; scope = scope_unit }

abbrev app : Target
app = record (ir_add_target (codes "app") executable) {
  sources = ir_add_source (codes "src/main.c") language_c ∷ [];
  depends_on = codes "lib" ∷ [];
  options = says (codes "-O2") ∷ [];
}

abbrev lib : Target
lib = ir_add_target (codes "lib") static_library

abbrev objects : Target
objects = ir_set_target_package (ir_add_target (codes "z:objects") object_files) (some (codes "z"))

abbrev unit_tests : Target
unit_tests = ir_add_target (codes "unit") test_binary

abbrev zlib : Dependency
zlib = record (ir_add_dependency (codes "z") none from_registry runtime (some (codes "/cache/z"))) {
  options = says (codes "-DZ") ∷ [];
}

abbrev check_lib : Dependency
check_lib =
    record (ir_add_dependency (codes "check") none from_path dev (some (codes "/ws/check"))) {
      links = says (codes "-lcheck") ∷ [];
    }

abbrev document : Document
document = record ir_document_init {
  name = some (codes "app");
  root = some (codes "/ws");
  origin = some (codes "plugin");
  targets = app ∷ lib ∷ objects ∷ unit_tests ∷ [];
  dependencies = zlib ∷ check_lib ∷ [];
}

document-IsStated : All IsStated document.dependencies
unfolding ir_add_dependency
document-IsStated = ((((λ e. cc e), tt), tt, tt), ((tt, tt, ((λ e. cc e), tt)), tt))

ir_transform_fold_dependencies_lem_example :
    ir_transform_fold_dependencies document
    ≡ some (record document {
      targets = map (λ t. with_interfaces t (reaching document.dependencies t)) document.targets;
    })
ir_transform_fold_dependencies_lem_example =
    ir_transform_fold_dependencies_lem document document-IsStated

fold_onto-separated_example :
    (app.kind ≢ test_binary
      → fold_onto (zlib ∷ check_lib ∷ []) app
        ≡ fold_onto (filter is_runtime (zlib ∷ check_lib ∷ [])) app)
    × (app.of_package ≢ none → fold_onto (zlib ∷ check_lib ∷ []) app ≡ some app)
fold_onto-separated_example = fold_onto-separated (zlib ∷ check_lib ∷ []) app

abbrev png : PreparedUnit
png = record {
  name = codes "png";
  version = codes "1.6";
  origin = version_source;
  root = codes "/cache/png";
  sources = codes "/cache/png/a.c" ∷ codes "/cache/png/b.cc" ∷ [];
  source_args = none;
  includes = [];
  defines = codes "P=1" ∷ [];
  flags = [];
  std = codes "c11";
  cpp_std = [];
  exports = record {
    includes = codes "/cache/png/include" ∷ [];
    defines = codes "PNG" ∷ [];
    flags = codes "-pthread" ∷ [];
    links = codes "m" ∷ codes "Metal.framework" ∷ [];
    link_flags = [];
  };
  system = false;
}

png-FromManifest : All FromManifest (png ∷ [])
png-FromManifest = ((((omega arith), tt), ((omega arith), ((omega arith), tt))), tt)

ir_transform_dependencies_lem_example :
    ir_transform_dependencies document (some (png ∷ [])) (some [])
    ≡ some (with_nodes document (map (node runtime) (png ∷ []) ++ map (node dev) []))
ir_transform_dependencies_lem_example =
    ir_transform_dependencies_lem document (png ∷ []) [] png-FromManifest tt

abbrev described : Target
described =
    record (ir_set_target_package (ir_add_target (codes "png:objects") object_files)
      (some (codes "png"))) {
        options = says (codes "-DP=1") ∷ [];
        sources =
            record (ir_add_source (codes "a.c") language_c) {
              options = says_here (codes "-std=c11") ∷ [];
            }
            ∷ record (ir_add_source (codes "b.cc") language_cpp) {
              options = says_here (codes "-std=c++20") ∷ [];
            }
            ∷ [];
      }

describes : describe_target png (some (codes "c17")) (some (codes "c++20")) ≡ some described
unfolding describe_target ir_add_target ir_set_target_package ir_add_source bytes_eq
describes = refl

describe_target-files_example :
    (described.of_package ≡ some png.name)
    × (described.kind ≡ object_files)
    × (map (file_of png.root) described.sources ≡ map some png.sources)
describe_target-files_example =
    describe_target-files png (some (codes "c17")) (some (codes "c++20")) describes

options_allowed_iff_example :
    (options_allowed (says (codes "-O2") ∷ says (codes "-Wl,-load") ∷ []) ≡ true)
    ↔ All
        (λ (o : Opt). IsHarmless forbidden o.value)
        (says (codes "-O2") ∷ says (codes "-Wl,-load") ∷ [])
options_allowed_iff_example =
    options_allowed_iff (says (codes "-O2") ∷ says (codes "-Wl,-load") ∷ [])

refuses_load : options_allowed (says (codes "-O2") ∷ says (codes "-Wl,-load") ∷ []) ≡ false
unfolding options_allowed bytes_eq
refuses_load = refl

sound_graph : graph_is_sound document.targets ≡ true
unfolding graph_is_sound ir_add_target ir_set_target_package bytes_eq
sound_graph = refl

graph_is_sound_iff_example : (graph_is_sound document.targets ≡ true) ↔ (
    HaveOwnNames document.targets
    × ((i : ℕ) → i < length document.targets → Grounded document.targets i))
graph_is_sound_iff_example = graph_is_sound_iff document.targets

-- The system's answer where every path exists and none has a link.
abbrev real_path_of : Bytes → Option Bytes
real_path_of path = some path

abbrev bounds : Bounds
bounds = record {
  workspace = some (codes "/ws");
  build_dir = some (codes "/ws/build");
  cache = some (codes "/cache");
  roots = [];
}

accepts : ir_validate real_path_of document bounds ≡ true
unfolding ir_validate ir_document_init ir_add_target ir_add_source ir_add_dependency
    ir_set_target_package bytes_eq anchor_text
accepts = refl

ir_validate-IsSound_example :
    (document.schema ≡ ir_schema)
    × (is_some document.name ≡ true)
    × (is_some document.root ≡ true)
    × (is_some document.origin ≡ true)
    × (state : BoundsState) × (bounds_prepare real_path_of bounds ≡ some state)
    × IsSound real_path_of document state
ir_validate-IsSound_example = ir_validate-IsSound real_path_of document bounds accepts

abbrev accepted :
    (state : BoundsState) × (bounds_prepare real_path_of bounds ≡ some state)
    × IsSound real_path_of document state
accepted =
    let sound = ir_validate-IsSound real_path_of document bounds accepts in
    (sound.4, sound.5, sound.6)

IsSound-ir_validate_example : ir_validate real_path_of document bounds ≡ true
unfolding ir_document_init
IsSound-ir_validate_example =
    IsSound-ir_validate real_path_of document bounds accepted.0 refl refl refl refl accepted.1
      accepted.2 ((graph_is_sound_iff document.targets).0 sound_graph).1

a-IsSegment : IsSegment (codes "a")
a-IsSegment = ((λ e. cc e), ((omega arith), tt))

b-IsSegment : IsSegment (codes "b")
b-IsSegment = ((λ e. cc e), ((omega arith), tt))

inside-Leads_example :
    (inside (rendered true (codes "a" ∷ codes "b" ∷ [])) (rendered true (codes "a" ∷ [])) ≡ true)
    ↔ Leads (codes "a" ∷ []) (codes "a" ∷ codes "b" ∷ [])
inside-Leads_example =
    inside-Leads (codes "a" ∷ codes "b" ∷ []) (codes "a" ∷ []) (a-IsSegment, (b-IsSegment, tt))
      (a-IsSegment, tt)

abbrev with_png : Document
with_png = record document { targets = document.targets ++ described ∷ [] }

adds_png :
    ir_transform_dependency_targets document
      (some (png ∷ []))
      (some [])
      (some (codes "c17"))
      (some (codes "c++20"))
    ≡ some with_png
unfolding ir_transform_dependency_targets describe_target ir_add_target ir_set_target_package
    ir_add_source ir_document_init ir_add_dependency bytes_eq
adds_png = refl

ir_transform_dependency_targets_lem_example :
    (added : List Target) × (with_png.targets ≡ document.targets ++ added)
    × (map Target.of_package added ≡ shipped (png ∷ []) ++ shipped [])
    × (with_png.dependencies ≡ document.dependencies)
ir_transform_dependency_targets_lem_example =
    ir_transform_dependency_targets_lem document (png ∷ []) [] (some (codes "c17"))
      (some (codes "c++20")) adds_png
