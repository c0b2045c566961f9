-- ===== src/Loader.antt =====
-- src/loader/loader.c: from the bytes of a file to the loaded image. Each stage of
-- `cellar_image_load_buffer` has a module, with its proofs in modules below it.
--
-- A pointer that the C code forms may lie outside its object; the model faults where it is used.
pub mod Sections
pub mod Relocs
pub mod Imports
pub mod Exports
pub mod Load
