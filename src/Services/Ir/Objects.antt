-- ===== src/Services/Ir/Objects.antt =====
-- `ir_transform_dependency_targets` of src/services/ir_transform.c: the sources that the packages
-- ship, as targets.
pub mod Roots
pub mod Shipped
use molto.Base.{
  ℕ, zero, suc, ◌+◌, ◌-◌, Bool, true, false, ◌||◌, Option, none, some, List, [], ◌∷◌, ◌++◌, length,
  drop, get_or, leb, ltb, ◌==◌, if◌then◌else◌, Bytes, bytes_eq, codes, ◌>>=◌,
}
use molto.Services.Ir.{
  Scope, scope_unit, Opt, Source, Target, Document, Language, language_c, language_cpp,
  language_asm, object_files, ir_add_target, ir_set_target_package, ir_add_source, ir_add_option,
}
use molto.Services.Ir.Paths.{slash, strip_prefix}
use molto.Services.Ir.Transform.{printed, push_options, push_defines, push_includes, PreparedUnit}

-- `has_suffix` of src/services/source_discovery.c, and the tests that use it.
unfoldable pub has_suffix : Bytes → Bytes → Bool
has_suffix text suffix =
    let tail = drop (length text - length suffix) text in
    if ltb (length text) (length suffix) then false else bytes_eq tail suffix

unfoldable pub source_is_cpp : Bytes → Bool
unfolding has_suffix
source_is_cpp path = has_suffix path (codes ".cpp") || has_suffix path (codes ".cc")

unfoldable pub source_is_nasm : Bytes → Bool
unfolding has_suffix
source_is_nasm path = has_suffix path (codes ".asm")

unfoldable pub source_is_asm : Bytes → Bool
unfolding source_is_nasm
source_is_asm path =
    has_suffix path (codes ".S") || has_suffix path (codes ".s") || source_is_nasm path

-- What follows the separator behind the root.
abbrev pub behind_slash : Option Bytes → Option Bytes
behind_slash none = none
behind_slash (some []) = none
behind_slash (some (c ∷ rest)) = if c == slash then some rest else none

unfoldable pub relative_to : Bytes → Bytes → Option Bytes
unfolding strip_prefix
relative_to path [] = none
relative_to path (x ∷ root) = behind_slash (strip_prefix (x ∷ root) path)

-- The package's own standard, or else the consumer's, where there is one.
abbrev pub own_or : Bytes → Option Bytes → Bytes
own_or (c ∷ own) fallback = c ∷ own
own_or [] none = []
own_or [] (some fallback) = fallback

unfoldable pub std_for : PreparedUnit → Bool → Option Bytes → Option Bytes → Bytes
std_for unit is_cpp std cpp_std =
    if is_cpp then own_or unit.cpp_std cpp_std else own_or unit.std std

-- RECIPE_STD_MAX and DEP_NAME_MAX
abbrev pub recipe_std_max : ℕ
recipe_std_max = 16

abbrev pub dep_name_max : ℕ
dep_name_max = 64

unfoldable pub push_std : List Opt → Bytes → Option (List Opt)
unfolding ir_add_option
push_std array [] = some array
push_std array (c ∷ value) = do
  flag ← printed (recipe_std_max + 8) (codes "-std=" ++ c ∷ value)
  ir_add_option array (some flag) scope_unit

unfoldable pub push_unit_options : List Opt → List Bytes → Option (List Opt)
unfolding ir_add_option
push_unit_options array [] = some array
push_unit_options array (value ∷ values) = do
  array' ← ir_add_option array (some value) scope_unit
  push_unit_options array' values

unfoldable pub language_of : Bytes → Language
unfolding source_is_cpp source_is_asm
language_of relative =
    if source_is_asm relative
    then language_asm
    else if source_is_cpp relative
    then language_cpp
    else language_c

-- The options of the source at index `i`: upstream's arguments, or else the standard.
unfoldable pub source_options :
    PreparedUnit → Option Bytes → Option Bytes → ℕ → Bytes → Option (List Opt)
unfolding std_for push_std push_unit_options source_is_cpp
source_options unit std cpp_std i relative =
    let own_std = std_for unit (source_is_cpp relative) std cpp_std in
    elim unit.source_args [
      | some args ↦ push_unit_options [] (get_or args i [])
      | none ↦ push_std [] own_std
    ]

-- The body of the loop of `describe_target`, on the source at index `i`.
unfoldable pub describe_source :
    PreparedUnit → Option Bytes → Option Bytes → ℕ → Bytes → Option Source
unfolding relative_to language_of source_options ir_add_source
describe_source unit std cpp_std i absolute = do
  relative ← relative_to absolute unit.root
  options ← source_options unit std cpp_std i relative
  some (record (ir_add_source relative (language_of relative)) { options = options })

unfoldable pub describe_sources :
    PreparedUnit → Option Bytes → Option Bytes → ℕ → List Bytes → Option (List Source)
unfolding describe_source
describe_sources unit std cpp_std i [] = some []
describe_sources unit std cpp_std i (absolute ∷ sources) = do
  source ← describe_source unit std cpp_std i absolute
  more ← describe_sources unit std cpp_std (suc i) sources
  some (source ∷ more)

unfoldable pub describe_target : PreparedUnit → Option Bytes → Option Bytes → Option Target
unfolding describe_sources ir_add_target ir_set_target_package push_options push_defines
    push_includes
describe_target unit std cpp_std = do
  name ← printed (dep_name_max + 16) (unit.name ++ codes ":objects")
  let target = ir_set_target_package (ir_add_target name object_files) (some unit.name)
  defines ← push_defines target.options unit.defines
  options ← push_options defines unit.flags
  includes ← push_includes target.includes unit.includes false
  sources ← describe_sources unit std cpp_std 0 unit.sources
  some (record target { options = options; includes = includes; sources = sources })

unfoldable pub describe_unit_targets :
    Document → List PreparedUnit → Option Bytes → Option Bytes → Option Document
unfolding describe_target
describe_unit_targets doc [] std cpp_std = some doc
describe_unit_targets doc (unit ∷ units) std cpp_std =
    let skipped = describe_unit_targets doc units std cpp_std in
    let described = describe_target unit std cpp_std >>= λ target.
    describe_unit_targets (record doc { targets = doc.targets ++ target ∷ [] }) units std cpp_std in
    if length unit.sources == 0 then skipped else described

unfoldable pub describe_targets :
    Document → Option (List PreparedUnit) → Option Bytes → Option Bytes → Option Document
unfolding describe_unit_targets
describe_targets doc none std cpp_std = some doc
describe_targets doc (some units) std cpp_std = describe_unit_targets doc units std cpp_std

unfoldable pub ir_transform_dependency_targets :
    Document
    → Option (List PreparedUnit)
    → Option (List PreparedUnit)
    → Option Bytes
    → Option Bytes
    → Option Document
unfolding describe_targets
ir_transform_dependency_targets doc deps dev_deps std cpp_std = do
  doc' ← describe_targets doc deps std cpp_std
  describe_targets doc' dev_deps std cpp_std
