-- ===== src/Pe/Headers.antt =====
-- `cellar_parse_headers` of src/loader/pe.c. Offsets are 64-bit in the source and sums of values
-- below 2^33 here, so they do not wrap.
use Prim.Native.Nat.{bit_and}
use fantastic_octo_meme.Prelude.{
  ℕ, zero, suc, ◌+◌, ◌-◌, ◌*◌, Bool, not, ◌||◌, List, [], ◌∷◌, length, drop, min, leb, ltb, ◌==◌,
  some, none,
}
use fantastic_octo_meme.Memory.{Bytes, Outcome, done, ◌>>=◌, ◌>>◌, guard, slice, splice, zeros}
use fantastic_octo_meme.Pe.Image.{SectionView, Image, zeroed, AllocSite, sections}
use fantastic_octo_meme.Pe.Layout.{dos_signature, nt_signature, magic_pe32, magic_pe32_plus, f_dll}
use fantastic_octo_meme.Pe.Layout.DosHeader
use fantastic_octo_meme.Pe.Layout.CoffHeader
use fantastic_octo_meme.Pe.Layout.OptionalHeader
use fantastic_octo_meme.Pe.Layout.SectionHeader
use fantastic_octo_meme.Status.{
  err_pe_truncated, err_pe_not_pe, err_pe_bad_magic, err_out_of_memory,
}
use fantastic_octo_meme.Util.{le32}

-- One round of the loop over the section table.
abbrev pub section_view : Bytes → SectionView
section_view sec = record {
  name = SectionHeader.name sec;
  virtual_address = SectionHeader.virtual_address sec;
  virtual_size = SectionHeader.virtual_size sec;
  raw_offset = SectionHeader.pointer_to_raw_data sec;
  raw_size = SectionHeader.size_of_raw_data sec;
  characteristics = SectionHeader.characteristics sec;
  mapped = none;
}

-- The section headers at `off`, `n` of them.
unfoldable pub read_sections : ℕ → ℕ → Bytes → Outcome (List SectionView)
read_sections zero off file = done []
read_sections (suc n) off file = do
  sec ← slice file off SectionHeader.size
  rest ← read_sections n (off + SectionHeader.size) file
  done (section_view sec ∷ rest)

-- The DOS header and the offset that it gives.
unfoldable pub read_dos : Bytes → Outcome Bytes
read_dos file = do
  guard (leb DosHeader.size (length file)) err_pe_truncated
  dos ← slice file 0 DosHeader.size
  guard (DosHeader.e_magic dos == dos_signature) err_pe_not_pe
  done dos

-- The signature and the COFF header at `nt_off`.
unfoldable pub read_coff : Bytes → ℕ → Outcome Bytes
read_coff file nt_off = do
  guard (leb nt_off (length file - 4 - CoffHeader.size)) err_pe_truncated
  signature ← le32 (drop nt_off file)
  guard (signature == nt_signature) err_pe_not_pe
  slice file (nt_off + 4) CoffHeader.size

-- The optional header at `opt_off`, `size` bytes of it, in a structure cleared before.
unfoldable pub read_optional : Bytes → ℕ → ℕ → Outcome Bytes
read_optional file opt_off size = do
  guard (not (ltb (length file) (opt_off + size) || ltb size 2)) err_pe_truncated
  piece ← slice file opt_off (min size OptionalHeader.size)
  opt ← splice (zeros OptionalHeader.size) 0 piece
  guard (OptionalHeader.magic opt == magic_pe32 || OptionalHeader.magic opt == magic_pe32_plus)
      err_pe_bad_magic
  done opt

-- The section table at `sec_off`.
unfoldable pub read_table : (AllocSite → Bool) → Bytes → ℕ → ℕ → Outcome (List SectionView)
read_table alloc file sec_off count = do
  guard (leb (sec_off + count * SectionHeader.size) (length file)) err_pe_truncated
  guard (count == 0 || alloc sections) err_out_of_memory
  read_sections count sec_off file

-- Where the optional header stands.
abbrev pub opt_offset : Bytes → ℕ
opt_offset dos = DosHeader.e_lfanew dos + 4 + CoffHeader.size

-- What the parser stores in the image that it cleared first.
abbrev pub headers_image : Bytes → Bytes → Bytes → Bytes → List SectionView → Image
headers_image file dos coff opt table = record zeroed {
  raw = some file;
  raw_size = length file;
  dos = dos;
  coff = coff;
  opt = opt;
  sections = table;
  section_count = CoffHeader.number_of_sections coff;
  is_dll = not (bit_and (CoffHeader.characteristics coff) f_dll == 0);
}

unfoldable pub parse_headers : (AllocSite → Bool) → Bytes → Outcome Image
parse_headers alloc file = do
  dos ← read_dos file
  coff ← read_coff file (DosHeader.e_lfanew dos)
  opt ← read_optional file (opt_offset dos) (CoffHeader.size_of_optional_header coff)
  table ←
      read_table alloc file (opt_offset dos + CoffHeader.size_of_optional_header coff)
        (CoffHeader.number_of_sections coff)
  done (headers_image file dos coff opt table)
