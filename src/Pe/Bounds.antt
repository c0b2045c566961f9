-- ===== src/Pe/Bounds.antt =====
-- `cellar_parse_headers` reads nothing outside the file, and what a success says of the file.
use fantastic_octo_meme.Prelude.{
  false, ap, subst, none, length-take, take, List, ◌++◌, drop, length-drop, ℕ, zero, suc, ◌+◌, ◌*◌,
  ◌≤◌, Bool, [], ◌∷◌, length, min, ◌≡◌, refl, arith, ◌⊎◌, some,
}
use fantastic_octo_meme.Memory.{◌>>=◌, zeros, slice, splice, Bytes, Outcome, done, IsSafe}
use fantastic_octo_meme.Memory.Laws.{
  >>=-elim, done-injective, slice-done, >>=-eq-done, slice-eq-done, splice-eq-done, length-zeros,
  >>=-IsSafe, splice-length,
}
use fantastic_octo_meme.Pe.Headers.{
  opt_offset, headers_image, section_view, read_sections, read_dos, read_coff, read_optional,
  read_table, parse_headers,
}
use fantastic_octo_meme.Pe.Image.{SectionView, Image, AllocSite}
use fantastic_octo_meme.Util.Endian.{le32-IsSafe}
use fantastic_octo_meme.Util.{le32}
use fantastic_octo_meme.Pe.Layout.{dos_signature, nt_signature, magic_pe32, magic_pe32_plus}
use fantastic_octo_meme.Pe.Layout.DosHeader
use fantastic_octo_meme.Pe.Layout.CoffHeader
use fantastic_octo_meme.Pe.Layout.OptionalHeader
use fantastic_octo_meme.Pe.Layout.SectionHeader

-- `slice` and `splice` are safe within bounds.
slice-IsSafe : (b : Bytes) (off len : ℕ) → off + len ≤ length b → IsSafe (slice b off len)
slice-IsSafe b off len h = rw (slice-eq-done b off len h) tt

splice-IsSafe :
    (b : Bytes) (off : ℕ) (new : Bytes) → off + length new ≤ length b → IsSafe (splice b off new)
splice-IsSafe b off new h = rw (splice-eq-done b off new h) tt

-- What each part of the parser says when it succeeds.
pub read_dos-done :
    (file dos : Bytes)
    → read_dos file ≡ done dos
    → (64 ≤ length file)
      × (dos ≡ take DosHeader.size file)
      × (DosHeader.e_magic dos ≡ dos_signature)
unfolding read_dos slice
read_dos-done file dos h = ground arith

pub read_coff-done :
    (file : Bytes) (nt : ℕ) (coff : Bytes)
    → read_coff file nt ≡ done coff
    → 64 ≤ length file
    → (nt + 24 ≤ length file)
      × (le32 (drop nt file) ≡ done nt_signature)
      × (coff ≡ take CoffHeader.size (drop (nt + 4) file))
unfolding read_coff
read_coff-done file nt coff h long = ground (arith, slice-done file (nt + 4) 20 coff)

read_dos-IsSafe : (file : Bytes) → IsSafe (read_dos file)
unfolding read_dos
read_dos-IsSafe file = ground (arith, slice-IsSafe file 0 64)

read_coff-IsSafe : (file : Bytes) (nt : ℕ) → 64 ≤ length file → IsSafe (read_coff file nt)
unfolding read_coff
read_coff-IsSafe file nt h =
    ground (arith, slice-IsSafe file (nt + 4) 20, le32-IsSafe (drop nt file), length-drop nt file)

read_optional-IsSafe : (file : Bytes) (off size : ℕ) → IsSafe (read_optional file off size)
unfolding read_optional
read_optional-IsSafe file off size =
    let piece = take (min size 244) (drop off file) in
    ground (
      arith,
      slice-eq-done file off (min size 244),
      splice-IsSafe (zeros 244) 0 piece,
      length-take (min size 244) (drop off file),
      length-zeros 244,
    )

read_sections-IsSafe :
    (n off : ℕ) (file : Bytes)
    → off + n * SectionHeader.size ≤ length file
    → IsSafe (read_sections n off file)
unfolding read_sections
read_sections-IsSafe zero off file h = tt
read_sections-IsSafe (suc n) off file h =
    ground (arith, slice-eq-done file off 40, read_sections-IsSafe n (off + 40) file)

read_table-IsSafe :
    (alloc : AllocSite → Bool) (file : Bytes) (off n : ℕ) → IsSafe (read_table alloc file off n)
unfolding read_table
read_table-IsSafe alloc file off n = ground (arith, read_sections-IsSafe n off file)

-- The parser never reads outside the file and always ends, whatever the file holds and whichever
-- allocation fails.
pub parse_headers-IsSafe :
    (alloc : AllocSite → Bool) (file : Bytes) → IsSafe (parse_headers alloc file)
unfolding parse_headers
parse_headers-IsSafe alloc file = >>=-IsSafe _ _ (read_dos-IsSafe file) λ dos d.
    >>=-IsSafe _ _ (read_coff-IsSafe file _ (read_dos-done file dos d).0) λ coff _.
      >>=-IsSafe _ _ (read_optional-IsSafe file _ _)
        λ opt _. >>=-IsSafe _ _ (read_table-IsSafe alloc file _ _) (λ _ _. tt)

-- The bytes of the optional header, as many as there are and fit, and zeros behind them.
abbrev pub optional_bytes : Bytes → ℕ → ℕ → Bytes
optional_bytes file off size =
    let piece = take (min size OptionalHeader.size) (drop off file) in
    piece ++ drop (length piece) (zeros OptionalHeader.size)

pub read_optional-done :
    (file : Bytes) (off size : ℕ) (opt : Bytes)
    → read_optional file off size ≡ done opt
    → (off + size ≤ length file)
      × (2 ≤ size)
      × (length opt ≡ OptionalHeader.size)
      × (opt ≡ optional_bytes file off size)
      × ((OptionalHeader.magic opt ≡ magic_pe32) ⊎ (OptionalHeader.magic opt ≡ magic_pe32_plus))
unfolding read_optional
read_optional-done file off size opt h =
    let piece = take (min size 244) (drop off file) in
    ground (
      arith,
      slice-eq-done file off (min size 244),
      splice-length (zeros 244) 0 piece opt,
      splice-eq-done (zeros 244) 0 piece,
      length-take (min size 244) (drop off file),
      length-drop off file,
      length-zeros 244,
    )

-- The section headers stand one behind the other from `off` on, each inside the file.
abbrev pub TableAt : Bytes → ℕ → List SectionView → Type 0
TableAt file off [] = Unit {0}
TableAt file off (s ∷ ss) =
    (off + SectionHeader.size ≤ length file)
    × (s ≡ section_view (take SectionHeader.size (drop off file)))
    × TableAt file (off + SectionHeader.size) ss

read_sections-TableAt :
    (n off : ℕ) (file : Bytes) (ss : List SectionView)
    → read_sections n off file ≡ done ss
    → TableAt file off ss × (length ss ≡ n)
unfolding read_sections
read_sections-TableAt zero off file ss h = ground arith
read_sections-TableAt (suc n) off file ss h =
    let tail : Bytes → Outcome (List SectionView) =
      λ sec. read_sections n (off + 40) file >>= λ rest. done (section_view sec ∷ rest) in
    let (sec, read, h1) = >>=-eq-done (slice file off 40) tail h in
    let (rest, later, h2) =
      >>=-eq-done (read_sections n (off + 40) file) (λ rest. done (section_view sec ∷ rest)) h1 in
    let (inside, at) = slice-done file off 40 sec read in
    let (table, count) = read_sections-TableAt n (off + 40) file rest later in
    subst (λ l. TableAt file off l × (length l ≡ suc n)) (done-injective h2)
      ((inside, ap section_view at, table), ap suc count)

-- What the parsed headers say of the file that they were read from. The DOS header is its first
-- bytes, the signature of the NT headers stands where the DOS header says, and the COFF header, the
-- optional header and the section table stand behind it.
pub record Parsed (file : Bytes) (img : Image) : Type 0 where
  pub raw_is : img.raw ≡ some file
  pub raw_size_is : img.raw_size ≡ length file
  pub dos_is : img.dos ≡ take DosHeader.size file
  pub dos_magic : DosHeader.e_magic img.dos ≡ dos_signature
  pub headers_inside : DosHeader.e_lfanew img.dos + 24 ≤ length file
  pub signature : le32 (drop (DosHeader.e_lfanew img.dos) file) ≡ done nt_signature
  pub coff_is : img.coff ≡ take CoffHeader.size (drop (DosHeader.e_lfanew img.dos + 4) file)
  pub opt_is :
      img.opt
      ≡ optional_bytes file (opt_offset img.dos) (CoffHeader.size_of_optional_header img.coff)
  pub opt_size : length img.opt ≡ OptionalHeader.size
  pub opt_magic :
      (OptionalHeader.magic img.opt ≡ magic_pe32) ⊎ (OptionalHeader.magic img.opt ≡ magic_pe32_plus)
  pub count_is : img.section_count ≡ CoffHeader.number_of_sections img.coff
  pub sections_are : length img.sections ≡ img.section_count
  pub table_at :
      TableAt file (opt_offset img.dos + CoffHeader.size_of_optional_header img.coff) img.sections
  pub unmapped : img.mapped ≡ none
  pub fresh : img.sections_mapped ≡ false

read_table-done :
    (alloc : AllocSite → Bool) (file : Bytes) (off n : ℕ) (ss : List SectionView)
    → read_table alloc file off n ≡ done ss
    → read_sections n off file ≡ done ss
unfolding read_table
read_table-done alloc file off n ss h = ground arith

-- The image that the parser puts together from the parts.
assembled :
    (alloc : AllocSite → Bool) (file dos coff opt : Bytes) (ss : List SectionView)
    → read_dos file ≡ done dos
    → read_coff file (DosHeader.e_lfanew dos) ≡ done coff
    → read_optional file (opt_offset dos) (CoffHeader.size_of_optional_header coff) ≡ done opt
    → read_table alloc file
        (opt_offset dos + CoffHeader.size_of_optional_header coff)
        (CoffHeader.number_of_sections coff)
      ≡ done ss
    → Parsed file (headers_image file dos coff opt ss)
assembled alloc file dos coff opt ss d c o t =
    let first = read_dos-done file dos d in
    let second = read_coff-done file (DosHeader.e_lfanew dos) coff c first.0 in
    let inner = read_optional-done file _ _ opt o in
    let table = read_sections-TableAt _ _ file ss (read_table-done alloc file _ _ ss t) in
    record {
      raw_is = refl;
      raw_size_is = refl;
      dos_is = first.1;
      dos_magic = first.2;
      headers_inside = second.0;
      signature = second.1;
      coff_is = second.2;
      opt_is = inner.3;
      opt_size = inner.2;
      opt_magic = inner.4;
      count_is = refl;
      sections_are = table.1;
      table_at = table.0;
      unmapped = refl;
      fresh = refl;
    }

-- A successful parse has the DOS signature, the NT signature where the DOS header says, and a known
-- magic number. The DOS, COFF and optional headers are the bytes of the file at their places, with
-- zeros behind a short optional header. There are as many sections as the COFF header announces,
-- and each section view is read from its header, which lies inside the file; nothing is mapped yet.
pub parse_headers-Parsed :
    (alloc : AllocSite → Bool) (file : Bytes) (img : Image)
    → parse_headers alloc file ≡ done img
    → Parsed file img
unfolding parse_headers
parse_headers-Parsed alloc file img h = >>=-elim (read_dos file) _ h λ dos d h1.
    >>=-elim (read_coff file _) _ h1 λ coff c h2. >>=-elim (read_optional file _ _) _ h2 λ opt o h3.
      >>=-elim (read_table alloc file _ _) _ h3 λ ss t h4.
        subst (Parsed file) (done-injective h4) (assembled alloc file dos coff opt ss d c o t)
