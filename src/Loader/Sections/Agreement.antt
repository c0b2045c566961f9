-- ===== src/Loader/Sections/Agreement.antt =====
-- The two translations of an address agree: the byte that `cellar_image_rva` points at in the
-- mapped image is the one that `cellar_image_rva_raw` points at in the file.
use fantastic_octo_meme.Prelude.{
  subst, ℕ, ◌+◌, ◌-◌, ◌≤◌, ◌<◌, Bool, true, false, List, [], ◌∷◌, length, get_or, ◌≡◌, refl, sym,
  ◌∙◌, ap, arith, some, Bool-cases, inl, inr,
}
use fantastic_octo_meme.Memory.{Bytes, done}
use fantastic_octo_meme.Loader.Sections.{is_copied, map_sections}
use fantastic_octo_meme.Loader.Sections.Contents.{layer, layers, map_sections_contents}
use fantastic_octo_meme.Pe.Image.{SectionView, Image, AllocSite}
use fantastic_octo_meme.Pe.Layout.OptionalHeader
use fantastic_octo_meme.Pe.Rva.{covers, section_for_rva, image_rva_raw}

-- No section holds the address.
abbrev pub Uncovered : ℕ → List SectionView → Type 0
Uncovered i [] = Unit {0}
Uncovered i (s ∷ ss) = (covers s i ≡ false) × Uncovered i ss

-- At most one section holds the address.
abbrev pub CoveredOnce : ℕ → List SectionView → Type 0
CoveredOnce i [] = Unit {0}
CoveredOnce i (s ∷ ss) = (covers s i ≡ true → Uncovered i ss) × CoveredOnce i ss

some-eq : {s t : SectionView} → some s ≡ some t → s ≡ t
some-eq h = cc

module _ (raw : Bytes) (mapped_size i : ℕ) where
  layer-Uncovered :
      (base : ℕ) (s : SectionView) → covers s i ≡ false → layer raw mapped_size i base s ≡ base
  layer-Uncovered base s h = ground arith

  layer_hit :
      (base : ℕ) (s : SectionView)
      → covers s i ≡ true
      → is_copied (length raw) mapped_size s ≡ true
      → i - s.virtual_address < s.raw_size
      → layer raw mapped_size i base s ≡ get_or raw (s.raw_offset + (i - s.virtual_address)) 0
  layer_hit base s on copied inside = ground arith

  layers-Uncovered :
      (base : ℕ) (ss : List SectionView) → Uncovered i ss → layers raw mapped_size i base ss ≡ base
  layers-Uncovered base [] h = refl
  layers-Uncovered base (s ∷ ss) (h, hs) =
      rw (layer-Uncovered base s h) (layers-Uncovered base ss hs)

  layers-section_for_rva :
      (base : ℕ) (ss : List SectionView) (s : SectionView)
      → CoveredOnce i ss
      → section_for_rva ss i ≡ some s
      → is_copied (length raw) mapped_size s ≡ true
      → i - s.virtual_address < s.raw_size
      → layers raw mapped_size i base ss ≡ get_or raw (s.raw_offset + (i - s.virtual_address)) 0
  unfolding section_for_rva
  layers-section_for_rva base [] s once found copied inside = cc
  layers-section_for_rva base (t ∷ ss) s (first, later) found copied inside =
      elim (Bool-cases (covers t i)) [
        | inl hit ↦
            layers-Uncovered (layer raw mapped_size i base t) ss (first hit)
            ∙ subst
                (λ u.
                  covers u i ≡ true
                  → layer raw mapped_size i base u
                    ≡ get_or raw (s.raw_offset + (i - s.virtual_address)) 0)
                (sym (some-eq (rw hit at found))) (λ on. layer_hit base s on copied inside) hit
        | inr miss ↦
            rw (layer-Uncovered base t miss)
              (layers-section_for_rva base ss s later (ground arith) copied inside)
      ]

-- Where at most one section holds an address behind the headers, and that section is copied, the
-- byte of the mapped image there is the byte of the file at the offset that
-- `cellar_image_rva_raw` gives.
pub image_rva_raw-agrees :
    (alloc : AllocSite → Bool) (raw : Bytes) (img out : Image) (s : SectionView) (i p : ℕ)
    → img.raw_size ≡ length raw
    → map_sections alloc raw img ≡ done out
    → CoveredOnce i img.sections
    → OptionalHeader.size_of_headers img.opt ≤ i
    → i < OptionalHeader.size_of_image img.opt
    → section_for_rva img.sections i ≡ some s
    → is_copied (length raw) (OptionalHeader.size_of_image img.opt) s ≡ true
    → image_rva_raw img i ≡ some p
    → (m : Bytes) × (out.mapped ≡ some m) × (get_or m i 0 ≡ get_or raw p 0)
unfolding image_rva_raw
image_rva_raw-agrees alloc raw img out s i p size mapping once behind inside found copied at =
    let (m, is_m, _, _, byte) = map_sections_contents alloc raw img out size mapping in
    let delta : (i - s.virtual_address < s.raw_size)
        × (s.raw_offset + (i - s.virtual_address) ≡ p) =
      ground arith in
    (
      m,
      is_m,
      byte i inside
          ∙ layers-section_for_rva raw (OptionalHeader.size_of_image img.opt) i _ img.sections s
              once found copied delta.0
          ∙ ap (λ k. get_or raw k 0) delta.1,
    )
