-- ===== src/Build/Diff/Whole.antt =====
-- `diff_unified` of src/build/diff.c as a whole.
