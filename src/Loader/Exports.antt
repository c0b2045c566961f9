-- ===== src/Loader/Exports.antt =====
-- `parse_exports` of src/loader/loader.c. A name is stored as its own object, with its zero.
pub mod Names
use fantastic_octo_meme.Prelude.{
  ℕ, zero, suc, ◌+◌, ◌*◌, Bool, true, not, ◌&&◌, ◌||◌, List, [], ◌∷◌, ◌++◌, length, take, leb, ltb,
  ◌==◌, Option, some, none, if◌then◌else◌,
}
use fantastic_octo_meme.Loader.Imports.{mapped_from}
use fantastic_octo_meme.Memory.{Bytes, Outcome, done, fail, fault, ◌>>=◌, ◌>>◌, guard}
use fantastic_octo_meme.Pe.Image.{Image, AllocSite}
use fantastic_octo_meme.Pe.Layout.{dir_export}
use fantastic_octo_meme.Pe.Layout.ExportDirectory
use fantastic_octo_meme.Pe.Layout.Fields.{field32}
use fantastic_octo_meme.Pe.Layout.OptionalHeader
use fantastic_octo_meme.Pe.Rva.{image_rva, image_read}
use fantastic_octo_meme.Status.{err_pe_bad_exports, err_out_of_memory}
use fantastic_octo_meme.Util.{c_str}

-- `memchr(p, 0, 4096)` and the length taken from it: the text before the zero, or the 4096 bytes
-- that have none; it faults if the object ends before either.
unfoldable pub name_text : Bytes → Outcome Bytes
name_text object =
    let text = c_str (take 4096 object) in
    if ltb (length text) (length object) || length text == 4096 then done text else fault

-- One round of the loop over the names.
unfoldable pub export_name : (AllocSite → Bool) → Image → ℕ → ℕ → Outcome (Option Bytes)
export_name alloc img i rva = elim (image_rva img rva) [
  | none ↦ done none
  | some p ↦ name_text (mapped_from img p) >>= λ text.
      done (if alloc (AllocSite.export_name i) then some (text ++ 0 ∷ []) else none)
]

-- `n` rounds from `i` on, over the array of addresses.
unfoldable pub export_loop :
    ℕ → ℕ → (AllocSite → Bool) → Image → Bytes → Outcome (List (Option Bytes))
export_loop zero i alloc img names = done []
export_loop (suc n) i alloc img names = do
  name ← export_name alloc img i (field32 names (4 * i))
  rest ← export_loop n (i + 1) alloc img names
  done (name ∷ rest)

-- The function from the directory on.
unfoldable pub export_table : (AllocSite → Bool) → Image → Bytes → Outcome Image
export_table alloc img exp =
    let count = ExportDirectory.number_of_names exp in
    if count == 0 then done (record img { export_name_count = 0 }) else (do
      guard (leb count 0x100000) err_pe_bad_exports
      guard (alloc AllocSite.export_names) err_out_of_memory
      guard (alloc AllocSite.name_rvas) err_out_of_memory
      read ← image_read img (ExportDirectory.address_of_names exp) (count * 4)
      elim read [
        | none ↦ fail err_pe_bad_exports
        | some names ↦ do
          list ← export_loop count 0 alloc img names
          done (record img {
            export_names = some list;
            export_name_count = count;
            exports_parsed = true;
          })
      ])

unfoldable pub parse_exports : (AllocSite → Bool) → Image → Outcome Image
parse_exports alloc img =
    let address = OptionalHeader.directory_address img.opt dir_export in
    if address == 0 || OptionalHeader.directory_size img.opt dir_export == 0
    then done img
    else (image_read img address ExportDirectory.size >>= λ read. elim read [
      | none ↦ fail err_pe_bad_exports
      | some exp ↦ export_table alloc img exp
    ])
