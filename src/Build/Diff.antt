-- ===== src/Build/Diff.antt =====
-- src/build/diff.c: the line diff that `molto fmt --diff` shows. A line is its bytes without the
-- newline. Memory is taken to suffice, so each function that pushes onto a list returns the list.
pub mod Split
pub mod Sides
pub mod Longest
pub mod Hunks
pub mod Whole
mod Tests
use molto.Base.{
  ℕ, zero, suc, ◌+◌, ◌-◌, ◌≤◌, Bool, true, false, not, ◌&&◌, ◌||◌, List, [], ◌∷◌, ◌++◌, map, length,
  get_or, take, drop, replicate, ltb, leb, ◌==◌, if◌then◌else◌, Bytes, bytes_eq,
}

-- DIFF_MAX_LINES
abbrev pub diff_max_lines : ℕ
diff_max_lines = 5000

pub data OpKind : Type 0 where
  op_keep op_delete op_add : OpKind

pub record DiffOp : Type 0 where
  pub kind : OpKind
  pub text : Bytes

-- The bytes of a line and what follows its newline; the flag is `end != NULL`.
unfoldable pub cut_line : Bytes → Bytes × Bool × Bytes
cut_line [] = ([], false, [])
cut_line (c ∷ s) =
    let (item, found, rest) = cut_line s in
    if c == b'\n' then ([], true, s) else (c ∷ item, found, rest)

-- The loop of `split_lines`; `fuel` bounds the rounds, each of which leaves a shorter text.
unfoldable pub split_from : ℕ → Bytes → List Bytes
unfolding cut_line
split_from zero s = []
split_from (suc fuel) [] = []
split_from (suc fuel) (c ∷ s) =
    let (item, found, rest) = cut_line (c ∷ s) in
    let more = split_from fuel rest in if found then item ∷ more else item ∷ []

unfoldable pub split_lines : Bytes → List Bytes
unfolding split_from
split_lines text = split_from (length text) text

unfoldable pub lines_equal : Bytes → Bytes → Bool
unfolding bytes_eq
lines_equal left right = length left == length right && bytes_eq left right

unfoldable pub push_range : OpKind → List Bytes → List DiffOp
push_range kind items = map (λ text. record { kind = kind; text = text }) items

-- Row `i` of the table of `lcs_ops`, from row `i + 1`; the last column keeps the zero of `calloc`.
unfoldable pub lcs_row : Bytes → List Bytes → List ℕ → List ℕ
unfolding lines_equal
lcs_row old [] below = 0 ∷ []
lcs_row old (new ∷ news) below =
    let right = lcs_row old news (drop 1 below) in
    let down = get_or below 0 0 in
    let here =
      if lines_equal old new
      then get_or below 1 0 + 1
      else if ltb (get_or right 0 0) down
      then down
      else get_or right 0 0 in
    here ∷ right

unfoldable pub lcs_table : List Bytes → List Bytes → List (List ℕ)
unfolding lcs_row
lcs_table [] news = replicate (length news + 1) 0 ∷ []
lcs_table (old ∷ olds) news =
    let below = lcs_table olds news in lcs_row old news (get_or below 0 []) ∷ below

abbrev pub cell : List (List ℕ) → ℕ → ℕ → ℕ
cell table i j = get_or (get_or table i []) j 0

-- The `while` loop of `lcs_ops` and the two ranges behind it, at old line `i` and new line `j`.
unfoldable pub lcs_walk : List (List ℕ) → ℕ → ℕ → List Bytes → List Bytes → List DiffOp
unfolding lines_equal push_range
lcs_walk table i j [] news = push_range op_delete [] ++ push_range op_add news
lcs_walk table i j (old ∷ olds) [] = push_range op_delete (old ∷ olds) ++ push_range op_add []
lcs_walk table i j (old ∷ olds) (new ∷ news) =
    let both = record { kind = op_keep; text = old } ∷ lcs_walk table (i + 1) (j + 1) olds news in
    let skip_old =
      record { kind = op_delete; text = old } ∷ lcs_walk table (i + 1) j olds (new ∷ news) in
    let skip_new =
      record { kind = op_add; text = new } ∷ lcs_walk table i (j + 1) (old ∷ olds) news in
    if lines_equal old new
    then both
    else if leb (cell table i (j + 1)) (cell table (i + 1) j)
    then skip_old
    else skip_new

unfoldable pub lcs_ops : List Bytes → List Bytes → List DiffOp
unfolding lcs_table lcs_walk
lcs_ops olds news = lcs_walk (lcs_table olds news) 0 0 olds news

unfoldable pub wholesale_ops : List Bytes → List Bytes → List DiffOp
unfolding push_range
wholesale_ops olds news = push_range op_delete olds ++ push_range op_add news

unfoldable pub common_prefix : List Bytes → List Bytes → ℕ
unfolding lines_equal
common_prefix (old ∷ olds) (new ∷ news) =
    if lines_equal old new then suc (common_prefix olds news) else 0
common_prefix _ _ = 0

-- The second loop of `build_ops`; `fuel` is at least the rounds that the first bound allows.
unfoldable pub common_suffix : ℕ → List Bytes → List Bytes → ℕ → ℕ → ℕ
unfolding lines_equal
common_suffix zero olds news prefix suffix = suffix
common_suffix (suc fuel) olds news prefix suffix =
    let more = common_suffix fuel olds news prefix (suffix + 1) in
    if ltb suffix (length olds - prefix)
      && ltb suffix (length news - prefix)
      && lines_equal (get_or olds (length olds - 1 - suffix) [])
          (get_or news (length news - 1 - suffix) [])
    then more
    else suffix

unfoldable pub build_ops : List Bytes → List Bytes → List DiffOp
unfolding common_prefix common_suffix push_range wholesale_ops lcs_ops
build_ops olds news =
    let prefix = common_prefix olds news in
    let suffix = common_suffix (length olds) olds news prefix 0 in
    let old_middle = length olds - prefix - suffix in
    let new_middle = length news - prefix - suffix in
    let old_part = take old_middle (drop prefix olds) in
    let new_part = take new_middle (drop prefix news) in
    let middle =
      if ltb diff_max_lines old_middle || ltb diff_max_lines new_middle
      then wholesale_ops old_part new_part
      else lcs_ops old_part new_part in
    push_range op_keep (take prefix olds)
    ++ (middle ++ push_range op_keep (drop (length olds - suffix) olds))
