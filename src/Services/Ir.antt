-- ===== src/Services/Ir.antt =====
-- src/services/ir_service.c and include/molto/services/ir_service.h: the build document. A pointer
-- that may be NULL is an `Option`; memory is taken to suffice.
pub mod Words
pub mod Paths
pub mod Validate
pub mod Transform
pub mod Exports
pub mod Fold
pub mod Objects
mod Tests
use molto.Base.{
  ℕ, ◌≡◌, Bool, true, false, not, Option, none, some, List, [], ◌∷◌, ◌++◌, Bytes, bytes_eq, codes,
}

pub data Scope : Type 0 where
  scope_target scope_profile scope_unit : Scope

pub data Language : Type 0 where
  language_c language_cpp language_asm : Language

pub data TargetKind : Type 0 where
  executable static_library shared_library object_files test_binary : TargetKind

pub data DepOrigin : Type 0 where
  from_registry from_path from_git from_archive : DepOrigin

pub data DepScope : Type 0 where
  runtime dev : DepScope

-- `ir_option`
pub record Opt : Type 0 where
  pub value : Option Bytes
  pub scope : Scope

pub record Include : Type 0 where
  pub value : Option Bytes
  pub scope : Scope
  pub system : Bool

pub record Source : Type 0 where
  pub path : Option Bytes
  pub language : Language
  pub options : List Opt

pub record Artifact : Type 0 where
  pub kind : TargetKind
  pub path : Option Bytes
  pub install : Option Bytes

pub record Target : Type 0 where
  pub name : Option Bytes
  pub of_package : Option Bytes
  pub kind : TargetKind
  pub sources : List Source
  pub options : List Opt
  pub includes : List Include
  pub links : List Opt
  pub depends_on : List Bytes
  pub artifact : Option Artifact

pub record Dependency : Type 0 where
  pub name : Option Bytes
  pub version : Option Bytes
  pub origin : DepOrigin
  pub scope : DepScope
  pub root : Option Bytes
  pub includes : List Include
  pub options : List Opt
  pub links : List Opt

pub record Document : Type 0 where
  pub schema : ℕ
  pub name : Option Bytes
  pub version : Option Bytes
  pub root : Option Bytes
  pub origin : Option Bytes
  pub targets : List Target
  pub dependencies : List Dependency
  pub files_read : List Bytes

-- IR_SCHEMA and IR_ORIGIN_NATIVE
abbrev pub ir_schema : ℕ
ir_schema = 3

abbrev pub origin_native : Bytes
origin_native = codes "native"

unfoldable pub ir_document_init : Document
ir_document_init = record {
  schema = ir_schema;
  name = none;
  version = none;
  root = none;
  origin = none;
  targets = [];
  dependencies = [];
  files_read = [];
}

abbrev pub opt_eq : Option Bytes → Bytes → Bool
opt_eq none s = false
opt_eq (some t) s = bytes_eq t s

unfoldable pub ir_is_from_plugin : Document → Bool
ir_is_from_plugin doc = elim doc.origin [
  | none ↦ false
  | some origin ↦ not (bytes_eq origin origin_native)
]

-- `ir_add_option`: nothing is added for a value that is NULL.
unfoldable pub ir_add_option : List Opt → Option Bytes → Scope → Option (List Opt)
ir_add_option array none scope = none
ir_add_option array (some value) scope =
    some (array ++ record { value = some value; scope = scope } ∷ [])

unfoldable pub ir_add_include : List Include → Option Bytes → Scope → Bool → Option (List Include)
ir_add_include array none scope system = none
ir_add_include array (some value) scope system =
    some (array ++ record { value = some value; scope = scope; system = system } ∷ [])

-- The node that `ir_add_target` appends, before the caller fills it.
unfoldable pub ir_add_target : Bytes → TargetKind → Target
ir_add_target name kind = record {
  name = some name;
  of_package = none;
  kind = kind;
  sources = [];
  options = [];
  includes = [];
  links = [];
  depends_on = [];
  artifact = none;
}

unfoldable pub ir_set_target_package : Target → Option Bytes → Target
ir_set_target_package target name = record target { of_package = name }

unfoldable pub ir_add_source : Bytes → Language → Source
ir_add_source path language = record { path = some path; language = language; options = [] }

unfoldable pub ir_add_dependency :
    Bytes → Option Bytes → DepOrigin → DepScope → Option Bytes → Dependency
ir_add_dependency name version origin scope root = record {
  name = some name;
  version = version;
  origin = origin;
  scope = scope;
  root = root;
  includes = [];
  options = [];
  links = [];
}
