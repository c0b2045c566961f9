-- ===== src/Compat.antt =====
-- src/compat.
pub mod Profile
pub mod Categories
pub mod Analysis
