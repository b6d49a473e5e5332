-- ===== src/Services/Ir/Transform.antt =====
-- src/services/ir_transform.c: the passes that put the resolved packages into a document. A pass
-- that returns false is `none`; the text it writes to `err` is left out, and so is what it leaves
-- of a document that its caller then drops.
use molto.Base.{
  ℕ, ◌+◌, ◌-◌, Bool, ◌&&◌, Option, none, some, List, [], ◌∷◌, ◌++◌, length, take, drop, ltb, leb,
  if◌then◌else◌, Bytes, bytes_eq, codes, ◌>>=◌,
}
use molto.Services.Ir.{scope_target, Opt, Include, ir_add_option, ir_add_include}

-- `snprintf` into a buffer of `size` bytes, refused where the text does not fit.
abbrev pub printed : ℕ → Bytes → Option Bytes
printed size text = if leb size (length text) then none else some text

-- PROJECT_OPT_LEN
abbrev pub project_opt_len : ℕ
project_opt_len = 96

unfoldable pub push_options : List Opt → List Bytes → Option (List Opt)
unfolding ir_add_option
push_options array [] = some array
push_options array (value ∷ values) = do
  array' ← ir_add_option array (some value) scope_target
  push_options array' values

unfoldable pub push_defines : List Opt → List Bytes → Option (List Opt)
unfolding ir_add_option
push_defines array [] = some array
push_defines array (value ∷ values) = do
  flag ← printed (project_opt_len + 4) (codes "-D" ++ value)
  array' ← ir_add_option array (some flag) scope_target
  push_defines array' values

abbrev pub framework : Bytes
framework = codes ".framework"

-- `project_link_flag` of src/project/project_ctx.c.
unfoldable pub project_link_flag : Bytes → ℕ → Option Bytes
project_link_flag name size =
    let stem = length name - length framework in
    if ltb (length framework) (length name) && bytes_eq (drop stem name) framework
    then printed size (codes "-Wl,-framework," ++ take stem name)
    else printed size (codes "-l" ++ name)

unfoldable pub push_links : List Opt → List Bytes → Option (List Opt)
unfolding ir_add_option project_link_flag
push_links array [] = some array
push_links array (value ∷ values) = do
  flag ← project_link_flag value (project_opt_len + 16)
  array' ← ir_add_option array (some flag) scope_target
  push_links array' values

unfoldable pub push_includes : List Include → List Bytes → Bool → Option (List Include)
unfolding ir_add_include
push_includes array [] system = some array
push_includes array (value ∷ values) system = do
  array' ← ir_add_include array (some value) scope_target system
  push_includes array' values system

-- `dep_source` of include/molto/project/project_deps.h.
pub data DepSource : Type 0 where
  version_source git_source path_source archive_source : DepSource

-- `prepared_interface`
pub record PreparedInterface : Type 0 where
  pub includes : List Bytes
  pub defines : List Bytes
  pub flags : List Bytes
  pub links : List Bytes
  pub link_flags : List Bytes

-- `prepared_unit` of include/molto/services/deps_service.h, the fields that the passes read.
pub record PreparedUnit : Type 0 where
  pub name : Bytes
  pub version : Bytes
  pub origin : DepSource
  pub root : Bytes
  pub sources : List Bytes
  pub source_args : Option (List (List Bytes))
  pub includes : List Bytes
  pub defines : List Bytes
  pub flags : List Bytes
  pub std : Bytes
  pub cpp_std : Bytes
  pub exports : PreparedInterface
  pub system : Bool
