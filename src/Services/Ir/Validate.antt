-- ===== src/Services/Ir/Validate.antt =====
-- src/services/ir_validate.c: what a document may say. The messages are left out, and memory is
-- taken to suffice. `realpath` stands for the system's realpath(3), which follows symbolic links;
-- `none` is a path that does not resolve.
pub mod Graph
pub mod Chains
pub mod Acyclic
pub mod Complete
pub mod Nodes
pub mod Options
pub mod Inside
pub mod UniqueNames
pub mod Accepted
pub mod Allows
pub mod Accepts
use molto.Base.{
  ℕ, zero, suc, ◌==◌, Bool, true, false, not, ◌&&◌, ◌||◌, Option, none, some, List, [], ◌∷◌, length,
  leb, if◌then◌else◌, Bytes, bytes_eq, codes, ◌>>=◌, is_some,
}
use molto.Services.Ir.{
  Opt, Include, Source, Artifact, Target, Dependency, Document, ir_schema, ir_is_from_plugin,
  opt_eq,
}
use molto.Services.Ir.Paths.{ir_path_max, strip_prefix, normalise, inside, anchor}

-- `match_kind`
pub data MatchKind : Type 0 where
  match_exact match_prefix match_contains : MatchKind

pub record ForbiddenOption : Type 0 where
  pub text : Bytes
  pub kind : MatchKind

abbrev pub rule : Bytes → MatchKind → ForbiddenOption
rule text kind = record { text = text; kind = kind }

-- FORBIDDEN, without the reasons it gives.
abbrev pub forbidden : List ForbiddenOption
forbidden =
    rule (codes "-fplugin") match_prefix
    ∷ rule (codes "-load") match_contains
    ∷ rule (codes "-Xclang") match_prefix
    ∷ rule (codes "-B") match_prefix
    ∷ rule (codes "--sysroot") match_prefix
    ∷ rule (codes "-isysroot") match_prefix
    ∷ rule (codes "-fuse-ld") match_prefix
    ∷ rule (codes "-o") match_exact
    ∷ rule (codes "--output") match_prefix
    ∷ []

unfoldable pub starts_with : Bytes → Bytes → Bool
unfolding strip_prefix
starts_with text value = is_some (strip_prefix text value)

-- `strstr(value, text) != NULL`
unfoldable pub contains : Bytes → Bytes → Bool
unfolding starts_with
contains text [] = starts_with text []
contains text (c ∷ value) = starts_with text (c ∷ value) || contains text value

unfoldable pub matches : ForbiddenOption → Bytes → Bool
unfolding contains starts_with
matches r value = elim r.kind [
  | match_exact ↦ bytes_eq value r.text
  | match_prefix ↦ starts_with r.text value
  | match_contains ↦ contains r.text value
]

unfoldable pub none_match : List ForbiddenOption → Option Bytes → Bool
unfolding matches
none_match rules none = true
none_match [] (some value) = true
none_match (r ∷ rules) (some value) = not (matches r value) && none_match rules (some value)

unfoldable pub options_allowed : List Opt → Bool
unfolding none_match
options_allowed [] = true
options_allowed (o ∷ options) = none_match forbidden o.value && options_allowed options

-- `ir_bounds` of include/molto/services/ir_service.h.
pub record Bounds : Type 0 where
  pub workspace : Option Bytes
  pub build_dir : Option Bytes
  pub cache : Option Bytes
  pub roots : List (Option Bytes)

-- `bound_root`: a directory as it is written and with every link resolved.
pub record BoundRoot : Type 0 where
  pub path : Bytes
  pub real : Bytes

-- `bounds_state`; `none` for the cache is `has_cache` false.
pub record BoundsState : Type 0 where
  pub workspace : BoundRoot
  pub build_dir : BoundRoot
  pub cache : Option BoundRoot
  pub roots : List BoundRoot

-- A text that is NULL or empty is no text.
abbrev pub filled : Option Bytes → Option Bytes
filled none = none
filled (some []) = none
filled (some (c ∷ s)) = some (c ∷ s)

abbrev pub cache_list : Option BoundRoot → List BoundRoot
cache_list none = []
cache_list (some root) = root ∷ []

unfoldable pub inside_any : Bytes → List BoundRoot → Bool
unfolding inside
inside_any resolved [] = false
inside_any resolved (root ∷ roots) =
    inside resolved root.path || inside resolved root.real || inside_any resolved roots

unfoldable pub really_inside_any : Bytes → List BoundRoot → Bool
unfolding inside
really_inside_any real [] = false
really_inside_any real (root ∷ roots) = inside real root.real || really_inside_any real roots

-- The bounds that do not depend on what was resolved.
abbrev pub fixed_roots : BoundsState → List BoundRoot
fixed_roots bounds = bounds.workspace ∷ bounds.build_dir ∷ cache_list bounds.cache

-- The code asks the fixed bounds as text first and then resolved; no test changes anything, so here
-- each bound is asked in both forms.
unfoldable pub within_bounds : Bytes → BoundsState → Bool
unfolding inside_any
within_bounds resolved bounds =
    inside_any resolved (fixed_roots bounds) || inside_any resolved bounds.roots

module _ (realpath : Bytes → Option Bytes) where
  -- `fs_real_path` of src/services/fs_service.c, on POSIX.
  unfoldable pub fs_real_path : ℕ → Bytes → Option Bytes
  fs_real_path size path =
      realpath path >>= λ resolved. if leb size (length resolved) then none else some resolved

  -- `resolve_links`, on a path that fits the buffer.
  unfoldable pub resolve_links : Bytes → Bytes
  unfolding fs_real_path
  resolve_links path = elim (fs_real_path ir_path_max path) [ some real ↦ real | none ↦ path ]

  unfoldable pub bound_of : Option Bytes → Option BoundRoot
  unfolding normalise resolve_links
  bound_of none = none
  bound_of (some written) = do
    path ← normalise ir_path_max written
    some (record { path = path; real = resolve_links path })

  unfoldable pub prepare_roots : List (Option Bytes) → Option (List BoundRoot)
  unfolding bound_of
  prepare_roots [] = some []
  prepare_roots (written ∷ more) = do
    root ← bound_of (filled written)
    roots ← prepare_roots more
    some (root ∷ roots)

  -- The cache, where there is one.
  unfoldable pub prepare_cache : Option Bytes → Option (Option BoundRoot)
  unfolding bound_of
  prepare_cache none = some none
  prepare_cache (some cache) = bound_of (some cache) >>= λ root. some (some root)

  unfoldable pub bounds_prepare : Bounds → Option BoundsState
  unfolding prepare_roots prepare_cache
  bounds_prepare bounds = do
    workspace ← bound_of bounds.workspace
    build_dir ← bound_of bounds.build_dir
    cache ← prepare_cache (filled bounds.cache)
    roots ← prepare_roots bounds.roots
    some (record { workspace = workspace; build_dir = build_dir; cache = cache; roots = roots })

  unfoldable pub within_bounds_through_links : Bytes → BoundsState → Bool
  unfolding really_inside_any fs_real_path
  within_bounds_through_links resolved bounds = elim (fs_real_path ir_path_max resolved) [
    | none ↦ true
    | some real ↦ really_inside_any real (fixed_roots bounds) || really_inside_any real bounds.roots
  ]

  unfoldable pub path_allowed : Option Bytes → Option Bytes → BoundsState → Bool
  unfolding within_bounds within_bounds_through_links
  path_allowed path base bounds = elim (anchor path base) [
    | none ↦ false
    | some resolved ↦ within_bounds resolved bounds && within_bounds_through_links resolved bounds
  ]
