-- ===== src/Util.antt =====
-- src/util: the leaf modules of the tool.
pub mod Semver
pub mod Text
pub mod TaskPool
pub mod Glob
pub mod Json
pub mod Sha256
pub mod StrMap
pub mod StrList
