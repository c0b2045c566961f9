-- ===== src/Loader/Load.antt =====
-- `cellar_image_load_buffer` of src/loader/loader.c, without the performance counters that it bumps.
-- A stage that fails frees the image and gives its status.
pub mod Stages
use Prim.Native.Nat.{bit_and}
use fantastic_octo_meme.Prelude.{ℕ, Bool, not, length, ◌==◌, some, if◌then◌else◌}
use fantastic_octo_meme.Loader.Exports.{parse_exports}
use fantastic_octo_meme.Loader.Imports.{parse_imports}
use fantastic_octo_meme.Loader.Relocs.{parse_relocs}
use fantastic_octo_meme.Loader.Sections.{map_sections}
use fantastic_octo_meme.Memory.{Bytes, Outcome, done, ◌>>=◌, ◌>>◌, guard}
use fantastic_octo_meme.Pe.Headers.{parse_headers}
use fantastic_octo_meme.Pe.Image.{Image, AllocSite}
use fantastic_octo_meme.Status.{err_out_of_memory}
use fantastic_octo_meme.Win32.Registry.{Registry}

-- `enum cellar_load_flags`, and the test of one of them.
abbrev pub load_map_sections : ℕ
load_map_sections = 1

abbrev pub load_parse_imports : ℕ
load_parse_imports = 2

abbrev pub load_parse_exports : ℕ
load_parse_exports = 4

abbrev pub load_parse_relocs : ℕ
load_parse_relocs = 8

abbrev pub wants : ℕ → ℕ → Bool
wants flags flag = not (bit_and flags flag == 0)

-- The image with its own copy of the file.
abbrev pub owned : Image → Bytes → Image
owned img file = record img { raw = some file; raw_size = length file }

unfoldable pub load_buffer : ℕ → (AllocSite → Bool) → Registry → Bytes → ℕ → Outcome Image
load_buffer fuel alloc registry file flags = do
  img ← parse_headers alloc file
  guard (alloc AllocSite.raw) err_out_of_memory
  mapped ←
      if wants flags load_map_sections
      then map_sections alloc file (owned img file)
      else done (owned img file)
  imported ←
      if wants flags load_parse_imports
      then parse_imports fuel alloc registry mapped
      else done mapped
  exported ← if wants flags load_parse_exports then parse_exports alloc imported else done imported
  if wants flags load_parse_relocs then parse_relocs fuel exported else done exported
