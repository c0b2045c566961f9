-- ===== src/Com.antt =====
-- src/com/com.c and include/cellar/com.h.
pub mod Guid
pub mod Objects
pub mod Runtime
