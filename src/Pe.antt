-- ===== src/Pe.antt =====
-- include/cellar/pe.h, include/cellar/loader.h and src/loader/pe.c: the on-disk structures, the
-- parsed image, the header parser and the RVA translation.
--
-- A packed structure is the list of its bytes, as in memory, and a field of it a little-endian
-- read at its offset: the host is little-endian, as the casts of the source take it to be. Null
-- `data` and `img` arguments are left out; `len` is the length of `data`.
pub mod Layout
pub mod Image
pub mod Headers
pub mod Rva
pub mod Bounds
