-- ===== src/Lib.antt =====
-- The verification library of Cellar, a Windows compatibility layer in C.
--
-- Cellar loads a PE file: `cellar_parse_headers` (src/loader/pe.c) checks the headers and reads the
-- section table, `map_sections`, `parse_imports` and `parse_relocs` (src/loader/loader.c) lay the
-- sections out in a fresh image and walk the image's tables by relative address, and imports are
-- bound by name through the registry of Windows modules (src/win32/api.c). The helpers all of them
-- use are in src/loader/cellar_util.c. Around the loader, applications are kept in workspaces
-- (src/workspace/workspace.c), profiles (src/compat/profile.c) and a database (src/db/db.c), all of
-- them files of text, src/prefix/prefix.c keeps the bottles they run in, and src/com/com.c gives them
-- COM objects.
--
-- Memory models a C object as its list of bytes. Code that may fail returns an `Outcome`: a value, a
-- status, `fault` for an access outside an object, or `pending` when a loop has used up its fuel.
-- `memcpy` is `slice` and `splice`, which fault outside the object; the allocations that may fail
-- are numbered by `AllocSite`, and a parameter says which of them succeed. A pointer into an object
-- is an offset. Widths of integers are written out where the source can wrap.
--
-- Status: `cellar_status_t` and `cellar_status_string`.
-- Util: src/loader/cellar_util.c (`cellar_le16`, `cellar_le32`, `cellar_le64`, `cellar_hash_str`,
--   `cellar_strlcpy`, `cellar_strlcat`, `cellar_path_join`).
-- Pe: include/cellar/pe.h (Pe.Layout, one module for each structure) and src/loader/pe.c (Pe.Headers
--   for `cellar_parse_headers`, Pe.Rva for `section_for_rva`, `cellar_image_rva`,
--   `cellar_image_rva_raw` and `cellar_image_read`); Pe.Image is `cellar_image_t`.
-- Loader: src/loader/loader.c (Loader.Sections for `map_sections`, Loader.Imports for `read_thunk`
--   and `parse_imports`, Loader.Exports for `parse_exports`, Loader.Relocs for `parse_relocs`,
--   Loader.Load for `cellar_image_load_buffer`).
-- Win32: src/win32/api.c (Win32.Registry).
-- Ring: src/shmem/shmem.c; an operation on a ring is one step.
-- Sync: src/sync/sync.c; a schedule is a list of moves of threads (Sync.Mutex, Sync.Spinlock,
--   Sync.Semaphore, Sync.Event), each one atomic operation or the start or end of a futex call; in the
--   last two a wake names the thread that the kernel chooses (Sync.Futex).
-- Perf: the ring of trace samples of src/perf/perf.c. Timer: the frame history of src/timer/timer.c.
--   Both are arrays written in a circle (Prelude.Recent).
-- Text: C strings, and the numbers that the C library prints and reads (Text.Decimal, Text.Number).
-- Conf: the files of lines `key=value` (`find_field`, `field_int`, `field_u64`); Conf.Lookup and
--   Conf.Back say what is read of a file that was written, Conf.Read what is read of any file.
-- Files: the file system as an interface, with `cellar_mkdir_p`.
-- Workspace: src/workspace/workspace.c (Workspace.Config for `cellar_workspace_load` and
--   `cellar_workspace_save`, Workspace.Edit for `cellar_workspace_set` and the other setters;
--   Workspace.Edit.Keys describes its keys apart from the code).
-- Compat: src/compat/profile.c (Compat.Profile) and src/compat/compat.c (Compat.Categories for
--   `classify`, Compat.Analysis for `cellar_compat_analyze`); the imports of an image are given with
--   the texts that their pointers stand for.
-- Db: src/db/db.c (Db.Lines for `fgets`, Db.Open for `cellar_db_open` and `cellar_db_save`).
-- Prefix: src/prefix/prefix.c (Prefix.Config for `prefix.conf` and the making of a bottle,
--   Prefix.Settings for `cellar_prefix_get_setting` and `cellar_prefix_set_setting`, Prefix.Archive
--   for `cellar_prefix_backup` and `cellar_prefix_restore`); what the walk over a bottle finds is a
--   tree. Shell: src/shell/shell.c, the folders and variables of a bottle.
-- ShaderCache: src/gfx/shadercache.c, over the bytes of its file and the buffer of its stream.
-- Locale: src/locale/locale.c (Locale.Pages for the code pages).
-- Com: src/com/com.c (Com.Guid for identifiers, Com.Objects for references, Com.Runtime for
--   apartments, classes, creation and marshalling).
-- A `char` array of a structure is the text that it holds. The file system is a parameter with one
-- law: a file that was written is read back as it was written. `getenv` and the success of `realloc`
-- are parameters, too. Null structures and null destinations, which the operations on workspaces,
-- profiles, databases and objects refuse, are left out.
-- Tests: runs on small inputs, and instances of the theorems.
--
-- Fuel: the loop over relocation blocks takes one round for each eight bytes of its directory, the
-- two import loops at most one for each four bytes of the image; the theorems on each loop say how
-- much is enough. The loop that rounds a ring's capacity up is given one round for each bit of a
-- word. The restoration of an archive and the lookup of a shader have one round more than there are
-- bytes, and each round takes some. Loops over a list or a counter are structural and take none.
--
-- Not modelled: directory listings and removal, logging and formatted output, performance counters
-- and prefaulting, the futex calls and signals of the kernel, floating point, the graphics and audio
-- back ends, freeing of memory, and the other components of src/.
pub mod Com
pub mod Compat
pub mod Conf
pub mod Db
pub mod Files
pub mod Loader
pub mod Locale
pub mod Memory
pub mod Pe
pub mod Perf
pub mod Prefix
pub mod Prelude
pub mod Ring
pub mod ShaderCache
pub mod Shell
pub mod Status
pub mod Sync
pub mod Tests
pub mod Text
pub mod Timer
pub mod Util
pub mod Win32
pub mod Workspace
