-- ===== src/Loader/Sections/Contents.antt =====
-- What each byte of the mapped image is.
use fantastic_octo_meme.Prelude.{
  ℕ, ◌+◌, ◌-◌, ◌<◌, Bool, ◌&&◌, List, [], ◌∷◌, length, get_or, take, drop, min, leb, ltb, ◌==◌, ◌≡◌,
  sym, ◌∙◌, ap, Bool-cases, inl, inr, arith, some, if◌then◌else◌, length-take, length-drop,
  get_or-take, get_or-drop,
}
use fantastic_octo_meme.Memory.{guard, Bytes, done, slice, zeros}
use fantastic_octo_meme.Memory.Laws.{
  fail-ne-done, get_or-zeros, get_or-splice, >>=-elim, done-injective,
}
use fantastic_octo_meme.Loader.Sections.{
  is_copied, map_section, map_loop, map_headers, map_sections,
}
use fantastic_octo_meme.Loader.Sections.{mapped_image}
use fantastic_octo_meme.Loader.Sections.Overread.{map_section-length, map_headers-done}
use fantastic_octo_meme.Status.{err_out_of_memory}
use fantastic_octo_meme.Pe.Image.{SectionView, Image, AllocSite}
use fantastic_octo_meme.Pe.Layout.OptionalHeader

-- The byte at offset `i` after a section is laid over a byte `base`.
abbrev pub layer : Bytes → ℕ → ℕ → ℕ → SectionView → ℕ
layer raw mapped_size i base s =
    if is_copied (length raw) mapped_size s
      && (leb s.virtual_address i && ltb i (s.virtual_address + s.raw_size))
    then get_or raw (s.raw_offset + (i - s.virtual_address)) 0
    else base

-- After all sections, in the order of the table.
abbrev pub layers : Bytes → ℕ → ℕ → ℕ → List SectionView → ℕ
layers raw mapped_size i base [] = base
layers raw mapped_size i base (s ∷ ss) =
    layers raw mapped_size i (layer raw mapped_size i base s) ss

-- The header bytes, and zeros behind them.
abbrev pub header_byte : Bytes → ℕ → ℕ → ℕ
header_byte raw size_of_headers i =
    if ltb i (min size_of_headers (length raw)) then get_or raw i 0 else 0

module _ (raw : Bytes) (mapped_size : ℕ) where
  map_section-layer :
      (m m' : Bytes) (s s' : SectionView) (i : ℕ)
      → map_section raw (length raw) mapped_size m s ≡ done (m', s')
      → get_or m' i 0 ≡ layer raw mapped_size i (get_or m i 0) s
  unfolding map_section slice
  map_section-layer m m' s s' i h =
      let piece = take s.raw_size (drop s.raw_offset raw) in
      ground (
        arith,
        get_or-splice m s.virtual_address piece m' i,
        length-take s.raw_size (drop s.raw_offset raw),
        length-drop s.raw_offset raw,
        get_or-take s.raw_size (drop s.raw_offset raw) (i - s.virtual_address) 0,
        get_or-drop s.raw_offset raw (i - s.virtual_address) 0,
      )

  map_loop-layers :
      (m m' : Bytes) (ss ss' : List SectionView) (i : ℕ)
      → map_loop raw (length raw) mapped_size m ss ≡ done (m', ss')
      → get_or m' i 0 ≡ layers raw mapped_size i (get_or m i 0) ss
  unfolding map_loop
  map_loop-layers m m' [] ss' i h = ground arith
  map_loop-layers m m' (s ∷ ss) ss' i h =
      >>=-elim (map_section raw (length raw) mapped_size m s) _ h λ r e h1.
        >>=-elim (map_loop raw (length raw) mapped_size r.0 ss) _ h1 λ q e' h2.
          rw (← map_section-layer m r.0 s r.1 i e)
            (rw (ap (λ p. p.0) (done-injective h2)) at (map_loop-layers r.0 q.0 ss q.1 i e'))

  minus_zero : (i : ℕ) → get_or (drop 0 raw) (i - 0) 0 ≡ get_or raw i 0
  minus_zero i = ap (λ k. get_or raw k 0) (omega arith)

  map_headers-byte :
      (size_of_headers : ℕ) (m : Bytes) (i : ℕ)
      → map_headers raw (length raw) size_of_headers mapped_size ≡ done m
      → i < mapped_size
      → get_or m i 0 ≡ header_byte raw size_of_headers i
  unfolding map_headers slice
  map_headers-byte h m i e lt =
      let n = min (min h mapped_size) (length raw) in
      ground (
        arith,
        get_or-splice (zeros mapped_size) 0 (take n (drop 0 raw)) m i,
        get_or-zeros mapped_size i,
        length-take n (drop 0 raw),
        get_or-take n (drop 0 raw) i 0,
        minus_zero i,
      )

  map_loop-length :
      (m m' : Bytes) (ss ss' : List SectionView)
      → map_loop raw (length raw) mapped_size m ss ≡ done (m', ss')
      → length m' ≡ length m
  unfolding map_loop
  map_loop-length m m' [] ss' h = ground arith
  map_loop-length m m' (s ∷ ss) ss' h =
      >>=-elim (map_section raw (length raw) mapped_size m s) _ h λ r e h1.
        >>=-elim (map_loop raw (length raw) mapped_size r.0 ss) _ h1 λ q e' h2.
          ap (λ p. length p.0) (sym (done-injective h2))
          ∙ map_loop-length r.0 q.0 ss q.1 e'
          ∙ map_section-length raw mapped_size m r.0 s r.1 e

-- The steps of a mapping that succeeds.
map_sections-steps {ℓ} :
    {P : Type ℓ} (alloc : AllocSite → Bool) (raw : Bytes) (img out : Image)
    → map_sections alloc raw img ≡ done out
    → ((m0 m : Bytes) (ss : List SectionView)
        → map_headers raw img.raw_size
            (OptionalHeader.size_of_headers img.opt)
            (OptionalHeader.size_of_image img.opt)
          ≡ done m0
        → map_loop raw img.raw_size (OptionalHeader.size_of_image img.opt) m0 img.sections
          ≡ done (m, ss)
        → mapped_image img m ss ≡ out
        → P)
    → P
unfolding map_sections
map_sections-steps alloc raw img out h k =
    elim (Bool-cases (OptionalHeader.size_of_image img.opt == 0)) [
      | inl empty ↦ absurd (fail-ne-done (rw empty at h))
      | inr some_size ↦
          >>=-elim (guard (alloc AllocSite.mapped) err_out_of_memory) _ (rw some_size at h)
            λ u g h1. >>=-elim (map_headers raw img.raw_size _ _) _ h1 λ m0 e h2.
              >>=-elim (map_loop raw img.raw_size _ m0 img.sections) _ h2
                λ r e' h3. k m0 r.0 r.1 e e' (done-injective h3)
    ]

-- Every byte of the mapped image is the one of the last section copied over it, at the same
-- distance from the start of its raw data; where there is none, it is the header byte, or zero.
-- The image has the size that the optional header gives.
pub map_sections_contents :
    (alloc : AllocSite → Bool) (raw : Bytes) (img out : Image)
    → img.raw_size ≡ length raw
    → map_sections alloc raw img ≡ done out
    → let size = OptionalHeader.size_of_image img.opt in
      (m : Bytes) × (out.mapped ≡ some m)
      × (out.mapped_size ≡ size)
      × (length m ≡ size)
      × ((i : ℕ)
          → i < size
          → get_or m i 0
            ≡ layers raw size i
                (header_byte raw (OptionalHeader.size_of_headers img.opt) i)
                img.sections)
map_sections_contents alloc raw img out size h =
    map_sections-steps alloc raw img out h λ m0 m ss headers loop same.
      let total = OptionalHeader.size_of_image img.opt in
      let headers' = rw size at headers in
      let loop' = rw size at loop in
      let (m0', again, len) = map_headers-done raw (OptionalHeader.size_of_headers img.opt) total in
      let len0 = ap length (done-injective (sym headers' ∙ again)) ∙ len in
      (
        m,
        ap (λ (r : Image). r.mapped) (sym same),
        ap (λ (r : Image). r.mapped_size) (sym same),
        map_loop-length raw total m0 m img.sections ss loop' ∙ len0,
        λ i lt.
            map_loop-layers raw total m0 m img.sections ss i loop'
            ∙ ap (λ b. layers raw total i b img.sections)
                (map_headers-byte raw total (OptionalHeader.size_of_headers img.opt) m0 i headers'
                  lt),
      )
