-- ===== src/Win32.antt =====
-- src/win32/: the modules of exports that stand in for the system DLLs.
pub mod Registry
