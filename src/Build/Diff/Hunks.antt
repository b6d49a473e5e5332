-- ===== src/Build/Diff/Hunks.antt =====
-- `write_hunk` and `write_hunks` of src/build/diff.c. What is printed is a list of hunks; the text
-- of one is its `@@` line, and its operations with their markers.
pub mod Context
pub mod Cover
pub mod Apart
pub mod Patch
pub mod Patched
use molto.Base.{
  ℕ, zero, suc, ◌+◌, ◌-◌, ◌*◌, Bool, true, false, not, ◌&&◌, List, [], ◌∷◌, length, get_or, take,
  drop, ltb, if◌then◌else◌, Bytes, bytes_eq,
}
use molto.Build.Diff.{OpKind, op_keep, op_delete, op_add, DiffOp, build_ops, split_lines}

unfoldable pub is_change : OpKind → Bool
is_change op_keep = false
is_change op_delete = true
is_change op_add = true

unfoldable pub op_marker : OpKind → ℕ
op_marker op_delete = b'-'
op_marker op_add = b'+'
op_marker op_keep = b' '

pub record Hunk : Type 0 where
  pub old_start : ℕ
  pub old_count : ℕ
  pub new_start : ℕ
  pub new_count : ℕ
  pub ops : List DiffOp

-- How many of the operations are not of a kind: the two counters of `write_hunk`, and what the
-- last loop of `write_hunks` adds to the line numbers.
abbrev pub old_lines : List DiffOp → ℕ
old_lines [] = 0
old_lines (op ∷ ops) = elim op.kind [ op_add ↦ old_lines ops | _ ↦ suc (old_lines ops) ]

abbrev pub new_lines : List DiffOp → ℕ
new_lines [] = 0
new_lines (op ∷ ops) = elim op.kind [ op_delete ↦ new_lines ops | _ ↦ suc (new_lines ops) ]

-- The operations from `first` to `last` inclusive.
abbrev pub slice : ℕ → ℕ → List DiffOp → List DiffOp
slice first last ops = take (last + 1 - first) (drop first ops)

unfoldable pub write_hunk : List DiffOp → ℕ → ℕ → ℕ → ℕ → Hunk
write_hunk ops first last old_start new_start =
    let body = slice first last ops in
    let old_count = old_lines body in
    let new_count = new_lines body in
    record {
      old_start = if ltb 0 old_count then old_start else 0;
      old_count = old_count;
      new_start = if ltb 0 new_count then new_start else 0;
      new_count = new_count;
      ops = body;
    }

abbrev pub no_op : DiffOp
no_op = record { kind = op_keep; text = [] }

abbrev pub changes_at : List DiffOp → ℕ → Bool
changes_at ops i = is_change (get_or ops i no_op).kind

-- The walk back over the leading context: where it ends. `left` is `context - back`.
unfoldable pub walk_back : ℕ → List DiffOp → ℕ → ℕ
unfolding is_change
walk_back zero ops first = first
walk_back (suc left) ops first =
    let more = walk_back left ops (first - 1) in
    if ltb 0 first && not (changes_at ops (first - 1)) then more else first

-- The walk forward to the last change, from index `i`, where `rest` begins.
unfoldable pub last_change : ℕ → List DiffOp → ℕ → ℕ → ℕ → ℕ
unfolding is_change
last_change context [] i last gap = last
last_change context (op ∷ rest) i last gap =
    let absorbed = last_change context rest (i + 1) i 0 in
    let passed = last_change context rest (i + 1) last (gap + 1) in
    if is_change op.kind then absorbed else if ltb (2 * context) (gap + 1) then last else passed

-- The walk over the trailing context. `left` is `context - trailing`.
unfoldable pub walk_on : ℕ → List DiffOp → ℕ → ℕ
unfolding is_change
walk_on zero ops last = last
walk_on (suc left) ops last =
    let more = walk_on left ops (last + 1) in
    if ltb (last + 1) (length ops) && not (changes_at ops (last + 1)) then more else last

-- The outer loop; `fuel` bounds its rounds, each of which moves `at` on.
unfoldable pub hunks_from : ℕ → List DiffOp → ℕ → ℕ → ℕ → ℕ → List Hunk
unfolding walk_back last_change walk_on write_hunk
hunks_from zero ops context at old_number new_number = []
hunks_from (suc fuel) ops context at old_number new_number =
    let first = walk_back context ops at in
    let back = at - first in
    let last = walk_on context ops (last_change context (drop at ops) at at 0) in
    let body = slice at last ops in
    let kept_on = hunks_from fuel ops context (at + 1) (old_number + 1) (new_number + 1) in
    let after =
      hunks_from fuel ops context (last + 1) (old_number + old_lines body)
        (new_number + new_lines body) in
    let hunk = write_hunk ops first last (old_number - back) (new_number - back) in
    let done : List Hunk = [] in
    if ltb at (length ops)
    then (if not (changes_at ops at) then kept_on else hunk ∷ after)
    else done

unfoldable pub write_hunks : List DiffOp → ℕ → List Hunk
unfolding hunks_from
write_hunks ops context = hunks_from (length ops) ops context 0 1 1

pub record Unified : Type 0 where
  pub changed : Bool
  pub header : Bool
  pub hunks : List Hunk

-- `diff_unified`: the flag `*changed`, whether the two file lines are printed, and the hunks.
unfoldable pub diff_unified : Bytes → Bytes → ℕ → Unified
diff_unified original formatted context =
    if bytes_eq original formatted
    then record { changed = false; header = false; hunks = [] }
    else record {
      changed = true;
      header = true;
      hunks = write_hunks (build_ops (split_lines original) (split_lines formatted)) context;
    }
