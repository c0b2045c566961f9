-- ===== src/Tests.antt =====
-- Tests by evaluation, and the theorems at concrete inputs.
mod Sample
mod Util
mod Pe
mod Ring
mod Sync
mod Perf
mod Timer
pub mod Win32
mod Loader
mod Load
pub mod Files
mod Workspace
mod Compat
mod Db
mod Com
mod Analysis
mod Locale
mod ShaderCache
mod Shell
mod Prefix
