-- ===== src/Build/Diff/Tests.antt =====
-- Runs of src/build/diff.c, and the theorems at concrete inputs.
use molto.Base.{ℕ, ◌≡◌, ◌≤◌, refl, true, none, List, [], ◌∷◌, length, All, Bytes, codes, map}
use molto.Build.Diff.{op_keep, op_delete, op_add, split_lines, build_ops, lcs_ops}
use molto.Build.Diff.Split.{joined, completed, HasNoNewline, joined-split_lines}
use molto.Build.Diff.Sides.{old_side, new_side, build_ops-sides}
use molto.Build.Diff.Longest.{Subsequence, end, skip, keep, kept, lcs_ops-longest}
use molto.Build.Diff.Hunks.{Hunk, write_hunks, diff_unified}
use molto.Build.Diff.Hunks.Context.{changes}
use molto.Build.Diff.Hunks.Cover.{shown, IsPlaced, write_hunks_lem}
use molto.Build.Diff.Hunks.Patch.{hunk_gap, strip_lines, patch}

abbrev old_text : Bytes
old_text = codes "a\nb\nc\nd\ne"

abbrev new_text : Bytes
new_text = codes "a\nx\nc\nd\ne\n"

abbrev olds : List Bytes
olds = codes "a" ∷ codes "b" ∷ codes "c" ∷ []

abbrev news : List Bytes
news = codes "b" ∷ codes "c" ∷ codes "a" ∷ []

splits : split_lines new_text ≡ codes "a" ∷ codes "x" ∷ codes "c" ∷ codes "d" ∷ codes "e" ∷ []
unfolding split_lines
splits = refl

edits :
    build_ops olds news
    ≡ record { kind = op_delete; text = codes "a" }
      ∷ record { kind = op_keep; text = codes "b" }
      ∷ record { kind = op_keep; text = codes "c" }
      ∷ record { kind = op_add; text = codes "a" }
      ∷ []
unfolding build_ops
edits = refl

abbrev numbers : Hunk → List ℕ
numbers h = h.old_start ∷ h.old_count ∷ h.new_start ∷ h.new_count ∷ length h.ops ∷ []

one_hunk : map numbers (diff_unified old_text new_text 1).hunks ≡ (1 ∷ 3 ∷ 1 ∷ 3 ∷ 4 ∷ []) ∷ []
unfolding diff_unified build_ops split_lines write_hunks
one_hunk = refl

-- Two texts that differ in the last newline: "changed", with no hunk.
only_newline :
    diff_unified (codes "a") (codes "a\n") 3 ≡ record { changed = true; header = true; hunks = [] }
unfolding diff_unified build_ops split_lines write_hunks
only_newline = refl

joined-split_lines_example :
    (joined (split_lines old_text) ≡ completed old_text) × All HasNoNewline (split_lines old_text)
joined-split_lines_example = joined-split_lines old_text

build_ops-sides_example :
    (old_side (build_ops olds news) ≡ olds) × (new_side (build_ops olds news) ≡ news)
build_ops-sides_example = build_ops-sides olds news

lcs_ops-longest_example :
    Subsequence (kept (lcs_ops olds news)) olds
    × Subsequence (kept (lcs_ops olds news)) news
    × (length (codes "c" ∷ []) ≤ length (kept (lcs_ops olds news)))
lcs_ops-longest_example =
    lcs_ops-longest olds news (codes "c" ∷ []) (skip (skip (keep end))) (skip (keep (skip end)))

write_hunks_lem_example :
    (shown (write_hunks (build_ops olds news) 3) ≡ changes (build_ops olds news))
    × All (IsPlaced (build_ops olds news)) (write_hunks (build_ops olds news) 3)
write_hunks_lem_example = write_hunks_lem (build_ops olds news) 3

-- A patch that needs a line which the text does not have is refused.
no_fit : patch 0 0 (diff_unified old_text new_text 1).hunks news ≡ none
unfolding diff_unified build_ops split_lines write_hunks patch hunk_gap strip_lines
no_fit = refl
