-- ===== src/Loader/Imports.antt =====
-- `read_thunk` and `parse_imports` of src/loader/loader.c. Addresses are 32-bit and wrap. The two
-- loops run on fuel. A name is read as text up to its zero when it is resolved, and faults if the
-- image ends before.
pub mod Resolved
pub mod Ends
use Prim.Native.Nat.{bit_and}
use fantastic_octo_meme.Prelude.{
  ℕ, zero, suc, ◌+◌, ◌*◌, ◌%◌, ◌^◌, Bool, true, false, not, ◌&&◌, ◌||◌, List, [], ◌∷◌, ◌++◌, length,
  drop, ltb, ◌==◌, Option, some, none, if◌then◌else◌,
}
use fantastic_octo_meme.Loader.Relocs.{add32}
use fantastic_octo_meme.Memory.{Bytes, Outcome, done, fail, fault, pending, ◌>>=◌, ◌>>◌, guard}
use fantastic_octo_meme.Pe.Image.{Import, Image, AllocSite}
use fantastic_octo_meme.Pe.Layout.{dir_import, magic_pe32}
use fantastic_octo_meme.Pe.Layout.ImportDescriptor
use fantastic_octo_meme.Pe.Layout.OptionalHeader
use fantastic_octo_meme.Pe.Rva.{image_rva, image_read}
use fantastic_octo_meme.Status.{err_pe_bad_imports, err_out_of_memory}
use fantastic_octo_meme.Util.{le32, le64, text_of}
use fantastic_octo_meme.Win32.Registry.{Registry, resolve}

-- The mapped image from an offset on.
abbrev pub mapped_from : Image → ℕ → Bytes
mapped_from img p = elim img.mapped [ none ↦ [] | some m ↦ drop p m ]

abbrev pub is_pe32 : Image → Bool
is_pe32 img = OptionalHeader.magic img.opt == magic_pe32

abbrev pub thunk_size : Image → ℕ
thunk_size img = if is_pe32 img then 4 else 8

-- A thunk's value, and whether its high bit is set. Nothing compares the pointer with the end of
-- the image.
unfoldable pub read_thunk : Image → ℕ → Outcome (Option (ℕ × Bool))
read_thunk img rva = elim (image_rva img rva) [
  | none ↦ done none
  | some p ↦
      if is_pe32 img
      then (le32 (mapped_from img p) >>= λ v.
          done (some (bit_and v 0x7FFFFFFF, not (bit_and v 0x80000000 == 0))))
      else (le64 (mapped_from img p) >>= λ v.
          done (some (bit_and v 0x7FFFFFFFFFFFFFFF, not (bit_and v 0x8000000000000000 == 0))))
]

-- `img->imports` with its first `n` entries filled, and the capacity of the array.
pub record Table : Type 0 where
  pub imports : List Import
  pub cap : ℕ

-- `realloc` of a full array.
unfoldable pub grow : (AllocSite → Bool) → Table → Outcome Table
grow alloc t =
    let ncap = if t.cap == 0 then 16 else t.cap * 2 in
    if length t.imports == t.cap
    then (guard (alloc (AllocSite.imports ncap)) err_out_of_memory
        >> done (record t { cap = ncap }))
    else done t

-- The address that the registry gives for the names at two pointers.
unfoldable pub resolve_at : Registry → Image → ℕ → Option ℕ → ℕ → Outcome ℕ
resolve_at registry img module_name none ordinal = done (resolve registry none none ordinal)
resolve_at registry img module_name (some fn) ordinal = do
  m ← text_of (some (mapped_from img module_name))
  f ← text_of (some (mapped_from img fn))
  done (resolve registry (some m) (some f) ordinal)

abbrev pub new_import : ℕ → Option ℕ → ℕ → ℕ → Import
new_import module_name fn ordinal resolved = record {
  module_name = module_name;
  name = fn;
  ordinal = ordinal;
  resolved = resolved;
}

-- The write of entry `n`, which would be past the array if it were full.
unfoldable pub store_import : Table → Import → Outcome Table
store_import t entry =
    if ltb (length t.imports) t.cap
    then done (record t { imports = t.imports ++ entry ∷ [] })
    else fault

unfoldable pub add_import :
    (AllocSite → Bool) → Registry → Image → Table → ℕ → Option ℕ → ℕ → Outcome Table
add_import alloc registry img t module_name fn ordinal = do
  t' ← grow alloc t
  resolved ← resolve_at registry img module_name fn ordinal
  store_import t' (new_import module_name fn ordinal resolved)

-- The pointer to an imported name, behind its two-byte hint; an import by ordinal has none.
unfoldable pub import_name : Image → ℕ → Bool → Outcome (Option ℕ)
import_name img val true = done none
import_name img val false = elim (image_rva img (val % 2 ^ 32)) [
  | none ↦ fail err_pe_bad_imports
  | some p ↦ done (some (p + 2))
]

-- The inner loop, over the thunks of one module.
unfoldable pub thunk_loop :
    ℕ → (AllocSite → Bool) → Registry → Image → ℕ → ℕ → ℕ → Table → Outcome Table
thunk_loop zero alloc registry img module_name iat_rva idx t = pending
thunk_loop (suc fuel) alloc registry img module_name iat_rva idx t =
    read_thunk img (add32 iat_rva (idx * thunk_size img)) >>= λ thunk. elim thunk [
      | none ↦ done t
      | some (val, ordinal) ↦
          if not ordinal && val == 0
          then done t
          else (import_name img val ordinal >>= λ fn.
              add_import alloc registry img t module_name fn (if ordinal then val % 2 ^ 16 else 0)
              >>= λ t'. thunk_loop fuel alloc registry img module_name iat_rva (idx + 1) t')
    ]

-- The all-zero test that ends the table, and the array of thunks that a descriptor names.
abbrev pub is_last : Bytes → Bool
is_last desc =
    ImportDescriptor.characteristics desc == 0
    && (ImportDescriptor.first_thunk desc == 0 && ImportDescriptor.name_rva desc == 0)

abbrev pub iat_of : Bytes → ℕ
iat_of desc =
    if ImportDescriptor.first_thunk desc == 0
    then ImportDescriptor.characteristics desc
    else ImportDescriptor.first_thunk desc

-- The outer loop, over the import descriptors from `rva` on; `inner` is the fuel of the other.
unfoldable pub descriptor_loop :
    ℕ → ℕ → (AllocSite → Bool) → Registry → Image → ℕ → Table → Outcome Table
descriptor_loop zero inner alloc registry img rva t = pending
descriptor_loop (suc fuel) inner alloc registry img rva t =
    image_read img rva ImportDescriptor.size >>= λ r. elim r [
      | none ↦ done t
      | some desc ↦
          let next = λ (t' : Table).
            descriptor_loop fuel inner alloc registry img (add32 rva ImportDescriptor.size) t' in
          let skipped = next t in
          if is_last desc
          then done t
          else if iat_of desc == 0
          then skipped
          else elim (image_rva img (ImportDescriptor.name_rva desc)) [
            | none ↦ fail err_pe_bad_imports
            | some p ↦ thunk_loop inner alloc registry img p (iat_of desc) 0 t >>= next
          ]
    ]

abbrev pub no_imports : Table
no_imports = record { imports = []; cap = 0 }

unfoldable pub parse_imports : ℕ → (AllocSite → Bool) → Registry → Image → Outcome Image
parse_imports fuel alloc registry img =
    let address = OptionalHeader.directory_address img.opt dir_import in
    if address == 0 || OptionalHeader.directory_size img.opt dir_import == 0 then done img else do
      t ← descriptor_loop fuel fuel alloc registry img address no_imports
      done (record img {
        imports = t.imports;
        import_count = length t.imports;
        imports_parsed = true;
      })
