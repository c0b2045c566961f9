-- ===== src/Loader/Load/Stages.antt =====
-- What each stage of loading leaves as it was, and what a loaded image is.
use fantastic_octo_meme.Prelude.{
  ℕ, ◌*◌, ◌≡◌, ◌∙◌, Bool, true, false, ◌||◌, leb, ◌==◌, Option, some, none, if◌then◌else◌, refl,
  Bool-cases, inl, inr, subst,
}
use fantastic_octo_meme.Loader.Exports.{export_loop, export_table, parse_exports}
use fantastic_octo_meme.Loader.Imports.{no_imports, descriptor_loop, parse_imports}
use fantastic_octo_meme.Loader.Load.{
  wants, load_map_sections, load_parse_imports, load_parse_exports, owned, load_buffer,
}
use fantastic_octo_meme.Loader.Relocs.{add32, reloc_loop, parse_relocs}
use fantastic_octo_meme.Loader.Sections.{map_headers, map_loop, map_sections}
use fantastic_octo_meme.Memory.{Bytes, Outcome, done, guard}
use fantastic_octo_meme.Memory.Laws.{>>=-elim, done-injective, fail-ne-done}
use fantastic_octo_meme.Pe.Bounds.{parse_headers-Parsed}
use fantastic_octo_meme.Pe.Headers.{parse_headers}
use fantastic_octo_meme.Pe.Image.{Image, AllocSite}
use fantastic_octo_meme.Pe.Layout.{dir_export, dir_import, dir_basereloc}
use fantastic_octo_meme.Pe.Layout.ExportDirectory
use fantastic_octo_meme.Pe.Layout.OptionalHeader
use fantastic_octo_meme.Pe.Rva.{image_read}
use fantastic_octo_meme.Win32.Registry.{Registry}

-- The file and the headers of an image.
abbrev pub Identity : Type 0
Identity = Option Bytes × ℕ × Bytes × Bytes × Bytes × ℕ × Bool

abbrev pub identity : Image → Identity
identity img = (img.raw, img.raw_size, img.dos, img.coff, img.opt, img.section_count, img.is_dll)

-- A later stage keeps the file, the headers and the mapped bytes.
abbrev Later : Image → Image → Type 0
Later img out =
    (identity out ≡ identity img)
    × (out.mapped ≡ img.mapped)
    × (out.sections_mapped ≡ img.sections_mapped)

map_sections-identity :
    (alloc : AllocSite → Bool) (raw : Bytes) (img out : Image)
    → map_sections alloc raw img ≡ done out
    → (identity out ≡ identity img) × (out.sections_mapped ≡ true)
unfolding map_sections
map_sections-identity alloc raw img out h =
    let size = OptionalHeader.size_of_image img.opt in
    elim (Bool-cases (size == 0)) [
      | inl empty ↦ absurd (fail-ne-done (rw (empty, map_sections) at h))
      | inr some_size ↦
          >>=-elim (guard (alloc AllocSite.mapped) _) _ (rw (some_size, map_sections) at h)
            λ _ _ h1.
              >>=-elim (map_headers raw img.raw_size (OptionalHeader.size_of_headers img.opt) size)
                _ h1
                λ m0 _ h2. >>=-elim (map_loop raw img.raw_size size m0 img.sections) _ h2 λ r _ h3.
                  subst (λ (o : Image). (identity o ≡ identity img) × (o.sections_mapped ≡ true))
                    (done-injective h3) (refl, refl)
    ]

parse_imports-Later :
    (fuel : ℕ) (alloc : AllocSite → Bool) (registry : Registry) (img out : Image)
    → parse_imports fuel alloc registry img ≡ done out
    → Later img out
unfolding parse_imports
parse_imports-Later fuel alloc registry img out h =
    let address = OptionalHeader.directory_address img.opt dir_import in
    elim (Bool-cases (address == 0 || OptionalHeader.directory_size img.opt dir_import == 0)) [
      | inl empty ↦
          subst (Later img) (done-injective (rw (empty, parse_imports) at h)) (refl, refl, refl)
      | inr present ↦
          >>=-elim (descriptor_loop fuel fuel alloc registry img address no_imports) _
            (rw (present, parse_imports) at h)
            λ t _ h1. subst (Later img) (done-injective h1) (refl, refl, refl)
    ]

export_table-Later :
    (alloc : AllocSite → Bool) (img out : Image) (exp : Bytes)
    → export_table alloc img exp ≡ done out
    → Later img out
unfolding export_table
export_table-Later alloc img out exp h =
    let count = ExportDirectory.number_of_names exp in
    elim (Bool-cases (count == 0)) [
      | inl empty ↦
          subst (Later img) (done-injective (rw (empty, export_table) at h)) (refl, refl, refl)
      | inr present ↦
          >>=-elim (guard (leb count 0x100000) _) _ (rw (present, export_table) at h) λ _ _ h1.
            >>=-elim (guard (alloc AllocSite.export_names) _) _ h1 λ _ _ h2.
              >>=-elim (guard (alloc AllocSite.name_rvas) _) _ h2 λ _ _ h3.
                >>=-elim (image_read img (ExportDirectory.address_of_names exp) (count * 4)) _ h3
                  (elim [
                    | none ↦ λ _ h4. absurd (fail-ne-done h4)
                    | some names ↦ λ _ h4.
                        >>=-elim (export_loop count 0 alloc img names) _ h4
                          λ _ _ h5. subst (Later img) (done-injective h5) (refl, refl, refl)
                  ])
    ]

parse_exports-Later :
    (alloc : AllocSite → Bool) (img out : Image)
    → parse_exports alloc img ≡ done out
    → Later img out
unfolding parse_exports
parse_exports-Later alloc img out h =
    let address = OptionalHeader.directory_address img.opt dir_export in
    elim (Bool-cases (address == 0 || OptionalHeader.directory_size img.opt dir_export == 0)) [
      | inl empty ↦
          subst (Later img) (done-injective (rw (empty, parse_exports) at h)) (refl, refl, refl)
      | inr present ↦
          >>=-elim (image_read img address ExportDirectory.size) _
            (rw (present, parse_exports) at h)
            (elim [
              | none ↦ λ _ h1. absurd (fail-ne-done h1)
              | some exp ↦ λ _ h1. export_table-Later alloc img out exp h1
            ])
    ]

parse_relocs-Later : (fuel : ℕ) (img out : Image) → parse_relocs fuel img ≡ done out → Later img out
unfolding parse_relocs
parse_relocs-Later fuel img out h =
    let address = OptionalHeader.directory_address img.opt dir_basereloc in
    let size = OptionalHeader.directory_size img.opt dir_basereloc in
    elim (Bool-cases (address == 0 || size == 0)) [
      | inl empty ↦
          subst (Later img) (done-injective (rw (empty, parse_relocs) at h)) (refl, refl, refl)
      | inr present ↦
          >>=-elim (reloc_loop fuel img address (add32 address size)) _
            (rw (present, parse_relocs) at h)
            λ _ _ h1. subst (Later img) (done-injective h1) (refl, refl, refl)
    ]

optional-Later :
    (b : Bool) (m : Outcome Image) (img out : Image)
    → (if b then m else done img) ≡ done out
    → (m ≡ done out → Later img out)
    → Later img out
optional-Later true m img out h stage = stage h
optional-Later false m img out h stage = subst (Later img) (done-injective h) (refl, refl, refl)

Later-trans : (a b c : Image) → Later a b → Later b c → Later a c
Later-trans a b c (h, m, s) (h', m', s') = (h' ∙ h, m' ∙ m, s' ∙ s)

-- What the first stage does with the parsed headers, by its flag.
optional-mapped :
    (b : Bool) (alloc : AllocSite → Bool) (file : Bytes) (img out : Image)
    → img.sections_mapped ≡ false
    → (if b then map_sections alloc file img else done img) ≡ done out
    → (identity out ≡ identity img) × (out.sections_mapped ≡ b)
optional-mapped true alloc file img out fresh h = map_sections-identity alloc file img out h
optional-mapped false alloc file img out fresh h =
    subst (λ (o : Image). (identity o ≡ identity img) × (o.sections_mapped ≡ false))
      (done-injective h) (refl, fresh)

-- A buffer that is loaded has headers that parse, and the image has these headers, a copy of the
-- buffer with its length, and mapped sections if and only if the flags ask for them, whichever of
-- the other stages ran.
pub load_buffer_lem :
    (fuel : ℕ) (alloc : AllocSite → Bool) (registry : Registry) (file : Bytes) (flags : ℕ)
    (out : Image)
    → load_buffer fuel alloc registry file flags ≡ done out
    → (img : Image) × (parse_headers alloc file ≡ done img)
      × (identity out ≡ identity (owned img file))
      × (out.sections_mapped ≡ wants flags load_map_sections)
unfolding load_buffer
load_buffer_lem fuel alloc registry file flags out h =
    >>=-elim (parse_headers alloc file) _ h λ img parsed h1.
      >>=-elim (guard (alloc AllocSite.raw) _) _ h1 λ _ _ h2.
        >>=-elim
          (if wants flags load_map_sections
            then map_sections alloc file (owned img file)
            else done (owned img file))
          _ h2
          λ a e_a h3.
            >>=-elim
              (if wants flags load_parse_imports
                then parse_imports fuel alloc registry a
                else done a)
              _ h3
              λ b e_b h4.
                >>=-elim (if wants flags load_parse_exports then parse_exports alloc b else done b)
                  _ h4
                  λ c e_c h5.
                    let mapped =
                      optional-mapped _ alloc file (owned img file) a
                        (parse_headers-Parsed alloc file img parsed).fresh e_a in
                    let to_b =
                      optional-Later _ (parse_imports fuel alloc registry a) a b e_b
                        (parse_imports-Later fuel alloc registry a b) in
                    let to_c =
                      optional-Later _ (parse_exports alloc b) b c e_c
                        (parse_exports-Later alloc b c) in
                    let to_out =
                      optional-Later _ (parse_relocs fuel c) c out h5
                        (parse_relocs-Later fuel c out) in
                    let later = Later-trans a b out to_b (Later-trans b c out to_c to_out) in
                    (img, parsed, later.0 ∙ mapped.0, later.2 ∙ mapped.1)
