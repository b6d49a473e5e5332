-- ===== src/Build.antt =====
-- src/build: what a build reads and writes.
pub mod Diff
pub mod Depfile
