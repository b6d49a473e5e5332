-- ===== src/Services/Ir/Paths.antt =====
-- The path half of src/services/ir_validate.c, on POSIX: `normalise` collapses `.` and `..` without
-- the file system, and `inside` compares what it returns.
pub mod Segments
pub mod Contains
use molto.Base.{
  sym, ap₂, ==_iff, Bool-cases, some_eq, inl, inr, ◌≡◌, ℕ, zero, suc, ◌+◌, ◌≤◌, Bool, true, false,
  not, ◌&&◌, ◌||◌, Option, none, some, List, [], ◌∷◌, ◌++◌, length, leb, ltb, ◌==◌, if◌then◌else◌,
  Bytes, bytes_eq, ◌>>=◌,
}

abbrev pub slash : ℕ
slash = b'/'

-- IR_PATH_MAX and IR_MAX_SEGMENTS
abbrev pub ir_path_max : ℕ
ir_path_max = 4096

abbrev pub ir_max_segments : ℕ
ir_max_segments = 512

-- `fs_path_is_absolute` where `_WIN32` is not defined.
unfoldable pub fs_path_is_absolute : Bytes → Bool
fs_path_is_absolute [] = false
fs_path_is_absolute (c ∷ _) = c == slash

unfoldable pub last_is : ℕ → Bytes → Bool
last_is x [] = false
last_is x (c ∷ []) = c == x
last_is x (c ∷ d ∷ s) = last_is x (d ∷ s)

-- Bytes behind the text in `out`, if with the terminator they fit in `size`.
unfoldable pub append_within : ℕ → Bytes → Bytes → Option Bytes
append_within size out text =
    if leb size (length out + length text) then none else some (out ++ text)

-- `put_segment`: the separator first, where one is needed.
unfoldable pub put_segment : ℕ → Bytes → Bytes → Option Bytes
unfolding append_within last_is
put_segment size out text =
    let joined = out ++ slash ∷ [] in
    if not (length out == 0) && not (last_is slash out)
    then (if leb size (length out + 1) then none else append_within size joined text)
    else append_within size out text

unfoldable pub put_segments : ℕ → Bytes → List Bytes → Option Bytes
unfolding put_segment
put_segments size out [] = some out
put_segments size out (text ∷ more) = do
  out' ← put_segment size out text
  put_segments size out' more

unfoldable pub skip_slashes : Bytes → Bytes
skip_slashes [] = []
skip_slashes (c ∷ s) = if c == slash then skip_slashes s else c ∷ s

-- The `strcspn(cursor, "/")` bytes of the next segment, and what follows them.
unfoldable pub take_segment : Bytes → Bytes × Bytes
take_segment [] = ([], [])
take_segment (c ∷ s) =
    let (segment, rest) = take_segment s in if c == slash then ([], c ∷ s) else (c ∷ segment, rest)

abbrev pub dot : Bytes
dot = b'.' ∷ []

abbrev pub dot_dot : Bytes
dot_dot = b'.' ∷ b'.' ∷ []

-- The segments kept so far, the last one first, and the `..` that could not be cancelled.
pub record Walked : Type 0 where
  pub kept : List Bytes
  pub climbs : ℕ

-- `..` drops the last segment kept; with none to drop it is counted on a relative path.
abbrev pub climb : Bool → List Bytes → ℕ → Walked
climb absolute (_ ∷ kept) climbs = record { kept = kept; climbs = climbs }
climb true [] climbs = record { kept = []; climbs = climbs }
climb false [] climbs = record { kept = []; climbs = climbs + 1 }

-- What one segment does; `none` is one segment too many.
unfoldable pub step_segment : Bool → Walked → Bytes → Option Walked
step_segment absolute w segment =
    if bytes_eq segment dot
    then some w
    else if bytes_eq segment dot_dot
    then some (climb absolute w.kept w.climbs)
    else if leb ir_max_segments (length w.kept)
    then none
    else some (record w { kept = segment ∷ w.kept })

-- The loop of `normalise`; `fuel` bounds the rounds, each of which reads a byte at least.
unfoldable pub walk_segments : ℕ → Bool → Bytes → Walked → Option Walked
unfolding skip_slashes take_segment step_segment
walk_segments zero absolute cursor w = some w
walk_segments (suc fuel) absolute cursor w =
    let (segment, rest) = take_segment (skip_slashes cursor) in
    let stepped = step_segment absolute w segment >>= walk_segments fuel absolute rest in
    if length segment == 0 then some w else stepped

unfoldable pub repeat_dot_dot : ℕ → List Bytes
repeat_dot_dot zero = []
repeat_dot_dot (suc n) = dot_dot ∷ repeat_dot_dot n

unfoldable pub reversed_onto : List Bytes → List Bytes → List Bytes
reversed_onto out [] = out
reversed_onto out (x ∷ xs) = reversed_onto (x ∷ out) xs

abbrev pub or_here : Bytes → Bytes
or_here [] = dot
or_here (c ∷ out) = c ∷ out

-- The last part of `normalise`: the text of what was walked.
unfoldable pub write_walked : ℕ → Bool → Walked → Option Bytes
unfolding put_segments repeat_dot_dot reversed_onto
write_walked size absolute w =
    let segments = repeat_dot_dot w.climbs ++ reversed_onto [] w.kept in
    do out ← put_segments size (if absolute then slash ∷ [] else []) segments; some (or_here out)

abbrev pub no_segments : Walked
no_segments = record { kept = []; climbs = 0 }

unfoldable pub normalise : ℕ → Bytes → Option Bytes
unfolding walk_segments write_walked fs_path_is_absolute
normalise size path =
    let absolute = fs_path_is_absolute path in
    let text =
      walk_segments (length path) absolute path no_segments >>= write_walked size absolute in
    if length path == 0 || ltb size 2 then none else text

-- What is left of a text behind a prefix, the `strncmp` of `inside`.
unfoldable pub strip_prefix : Bytes → Bytes → Option Bytes
strip_prefix [] s = some s
strip_prefix (x ∷ p) [] = none
strip_prefix (x ∷ p) (c ∷ s) = if x == c then strip_prefix p s else none

pub strip_prefix-splits :
    (p s : Bytes) {rest : Bytes} → strip_prefix p s ≡ some rest → s ≡ p ++ rest
unfolding strip_prefix
strip_prefix-splits [] s e = some_eq e
strip_prefix-splits (x ∷ p) [] e = absurd (cc e)
strip_prefix-splits (x ∷ p) (c ∷ s) e = elim (Bool-cases (x == c)) [
  | inl same ↦ ap₂ ◌∷◌ (sym ((==_iff x c).0 same)) (strip_prefix-splits p s (rw same at e))
  | inr other ↦ absurd (cc (rw other at e))
]

-- Whether what is left of the path begins a new segment; a root of "/" ends in its separator.
abbrev pub ends_segment : Bool → Option Bytes → Bool
ends_segment root_slash none = false
ends_segment root_slash (some []) = true
ends_segment root_slash (some (c ∷ _)) = c == slash || root_slash

unfoldable pub inside : Bytes → Bytes → Bool
unfolding strip_prefix last_is
inside path [] = false
inside path (x ∷ root) = ends_segment (last_is slash (x ∷ root)) (strip_prefix (x ∷ root) path)

abbrev or_dot : Option Bytes → Bytes
or_dot none = dot
or_dot (some base) = base

-- `anchor`; `none` for the base is NULL.
unfoldable pub anchor_text : Bytes → Option Bytes → Option Bytes
unfolding normalise
anchor_text path base =
    let joined = or_dot base ++ (slash ∷ path) in
    let text = normalise ir_path_max joined in
    if length path == 0
    then none
    else if fs_path_is_absolute path
    then normalise ir_path_max path
    else if leb ir_path_max (length joined)
    then none
    else text

abbrev pub anchor : Option Bytes → Option Bytes → Option Bytes
anchor none base = none
anchor (some path) base = anchor_text path base
