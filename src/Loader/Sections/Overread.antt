-- ===== src/Loader/Sections/Overread.antt =====
-- When `map_sections` stays inside the file, and when it does not.
use fantastic_octo_meme.Prelude.{
  length-take, length-drop, take, drop, ℕ, ◌+◌, ◌≤◌, Bool, true, false, List, [], ◌∷◌, length, min,
  ◌==◌, ◌≡◌, ◌≢◌, ◌↔◌, arith, ◌∙◌, inl, inr,
}
use fantastic_octo_meme.Memory.{Bytes, done, IsSafe, slice, splice, zeros}
use fantastic_octo_meme.Memory.Laws.{
  slice-eq-done, splice-eq-done, splice-length, length-zeros, >>=-IsSafe, Outcome-cases, IsSafe->>=,
  IsSafe-after,
}
use fantastic_octo_meme.Loader.Sections.{
  is_copied, map_section, map_loop, map_headers, map_sections,
}
use fantastic_octo_meme.Pe.Image.{SectionView, Image, AllocSite}
use fantastic_octo_meme.Pe.Layout.OptionalHeader

-- Each section that the loop copies ends inside the file.
abbrev pub EndInFile : ℕ → ℕ → List SectionView → Type 0
EndInFile raw_size mapped_size [] = Unit {0}
EndInFile raw_size mapped_size (s ∷ ss) =
    (is_copied raw_size mapped_size s ≡ true → s.raw_offset + s.raw_size ≤ raw_size)
    × EndInFile raw_size mapped_size ss

module _ (raw : Bytes) (mapped_size : ℕ) where
  pub map_section-length :
      (m m' : Bytes) (s s' : SectionView)
      → map_section raw (length raw) mapped_size m s ≡ done (m', s')
      → length m' ≡ length m
  unfolding map_section slice
  map_section-length m m' s s' h =
      ground (arith, splice-length m s.virtual_address (take s.raw_size (drop s.raw_offset raw)) m')

  map_section-IsSafe :
      (m : Bytes) (s : SectionView)
      → length m ≡ mapped_size
      → (is_copied (length raw) mapped_size s ≡ true → s.raw_offset + s.raw_size ≤ length raw)
      → IsSafe (map_section raw (length raw) mapped_size m s)
  unfolding map_section slice
  map_section-IsSafe m s len h =
      let piece = take s.raw_size (drop s.raw_offset raw) in
      ground (
        arith,
        splice-eq-done m s.virtual_address piece,
        length-take s.raw_size (drop s.raw_offset raw),
        length-drop s.raw_offset raw,
      )

  map_section-fits :
      (m : Bytes) (s : SectionView)
      → IsSafe (map_section raw (length raw) mapped_size m s)
      → is_copied (length raw) mapped_size s ≡ true
      → s.raw_offset + s.raw_size ≤ length raw
  unfolding map_section slice
  map_section-fits m s safe copied = ground arith

  map_section-done :
      (m : Bytes) (s : SectionView)
      → IsSafe (map_section raw (length raw) mapped_size m s)
      → (r : Bytes × SectionView) × (map_section raw (length raw) mapped_size m s ≡ done r)
  unfolding map_section slice splice
  map_section-done m s safe =
      elim (Outcome-cases (map_section raw (length raw) mapped_size m s) safe) [
        | inl (r, e) ↦ (r, e)
        | inr (st, e) ↦ absurd (ground arith)
      ]

  pub map_loop-IsSafe :
      (m : Bytes) (ss : List SectionView)
      → length m ≡ mapped_size
      → EndInFile (length raw) mapped_size ss
      → IsSafe (map_loop raw (length raw) mapped_size m ss)
  unfolding map_loop
  map_loop-IsSafe m [] len h = tt
  map_loop-IsSafe m (s ∷ ss) len (h, hs) = >>=-IsSafe _ _ (map_section-IsSafe m s len h) λ r e.
      >>=-IsSafe _ _ (map_loop-IsSafe r.0 ss (omega (arith, map_section-length m r.0 s r.1 e)) hs)
        (λ _ _. tt)

  -- A safe loop copies nothing from behind the end of the file.
  pub map_loop-EndInFile :
      (m : Bytes) (ss : List SectionView)
      → IsSafe (map_loop raw (length raw) mapped_size m ss)
      → EndInFile (length raw) mapped_size ss
  unfolding map_loop
  map_loop-EndInFile m [] safe = tt
  map_loop-EndInFile m (s ∷ ss) safe =
      let first = IsSafe->>= _ _ safe in
      let (r, e) = map_section-done m s first in
      let rest = IsSafe->>= _ _ (IsSafe-after _ _ safe r e) in
      (map_section-fits m s first, map_loop-EndInFile r.0 ss rest)

-- The headers always fit.
pub map_headers-done :
    (raw : Bytes) (size_of_headers mapped_size : ℕ)
    → (m : Bytes) × (map_headers raw (length raw) size_of_headers mapped_size ≡ done m)
      × (length m ≡ mapped_size)
unfolding map_headers
map_headers-done raw h size =
    let n = min (min h size) (length raw) in
    let piece = take n (drop 0 raw) in
    let fits : 0 + length piece ≤ length (zeros size) =
      omega (arith, length-take n (drop 0 raw), length-zeros size) in
    let written = splice-eq-done (zeros size) 0 piece fits in
    (
      _,
      rw (slice-eq-done raw 0 n (omega arith)) written,
      splice-length (zeros size) 0 piece _ written ∙ length-zeros size,
    )

-- With memory for the image, mapping the sections stays inside the file exactly when each section
-- that is copied ends inside the file. The code compares only where its raw data begins.
pub map_sections-IsSafe_iff :
    (alloc : AllocSite → Bool) (raw : Bytes) (img : Image)
    → img.raw_size ≡ length raw
    → OptionalHeader.size_of_image img.opt ≢ 0
    → alloc AllocSite.mapped ≡ true
    → IsSafe (map_sections alloc raw img)
      ↔ EndInFile (length raw) (OptionalHeader.size_of_image img.opt) img.sections
unfolding map_sections
map_sections-IsSafe_iff alloc raw img size nonzero memory =
    let total = OptionalHeader.size_of_image img.opt in
    let test : (total == 0) ≡ false = ground arith in
    let (m0, headers, len) = map_headers-done raw (OptionalHeader.size_of_headers img.opt) total in
    (
      λ safe.
          map_loop-EndInFile raw total m0 img.sections
            (IsSafe->>= _ _ (rw (test, memory, size, headers) at safe)),
      λ inside.
          rw (test, memory, size, headers)
            (>>=-IsSafe _ _ (map_loop-IsSafe raw total m0 img.sections len inside) (λ _ _. tt)),
    )
