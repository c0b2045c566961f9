-- ===== src/Loader/Imports/Resolved.antt =====
-- Every import of the table is bound as the registry binds its names.
use fantastic_octo_meme.Prelude.{
  ℕ, zero, suc, ◌+◌, ◌*◌, ◌≤◌, Bool, true, false, not, ◌&&◌, ◌||◌, List, [], ◌∷◌, ◌++◌, length, ltb,
  ◌==◌, ◌≡◌, ◌≢◌, refl, arith, Option, some, none, length-append, subst, Bool-cases, ltb→lt, inl,
  inr, Option-cases,
}
use fantastic_octo_meme.Loader.Imports.{
  Table, no_imports, is_last, iat_of, thunk_size, read_thunk, grow, resolve_at, new_import,
  store_import, add_import, import_name, thunk_loop, descriptor_loop, parse_imports,
}
use fantastic_octo_meme.Loader.Relocs.{add32}
use fantastic_octo_meme.Memory.{done}
use fantastic_octo_meme.Memory.Laws.{
  >>=-elim, done-injective, fail-ne-done, fault-ne-done, pending-ne-done,
}
use fantastic_octo_meme.Pe.Image.{Import, Image, AllocSite}
use fantastic_octo_meme.Pe.Layout.{dir_import}
use fantastic_octo_meme.Pe.Layout.ImportDescriptor
use fantastic_octo_meme.Pe.Layout.OptionalHeader
use fantastic_octo_meme.Pe.Rva.{image_rva, image_read}
use fantastic_octo_meme.Win32.Registry.{Registry}

module _ (alloc : AllocSite → Bool) (registry : Registry) (img : Image) where
  -- The stub of each import is what the registry gives for its names.
  abbrev pub AllBound : List Import → Type 0
  AllBound [] = Unit {0}
  AllBound (i ∷ is') =
      (resolve_at registry img i.module_name i.name i.ordinal ≡ done i.resolved) × AllBound is'

  AllBound-concat :
      (l : List Import) (i : Import)
      → AllBound l
      → resolve_at registry img i.module_name i.name i.ordinal ≡ done i.resolved
      → AllBound (l ++ i ∷ [])
  AllBound-concat [] i h b = (b, tt)
  AllBound-concat (x ∷ l) i (h, hs) b = (h, AllBound-concat l i hs b)

  -- The table is bound, and fits its array.
  abbrev IsGood : Table → Type 0
  IsGood t = AllBound t.imports × (length t.imports ≤ t.cap)

  grow-IsGood : (t t' : Table) → IsGood t → grow alloc t ≡ done t' → IsGood t'
  unfolding grow
  grow-IsGood t t' (b, room) h =
      let same : t.imports ≡ t'.imports = ground arith in
      let fits : length t.imports ≤ t'.cap = ground arith in
      (subst AllBound same b, subst (λ (l : List Import). length l ≤ t'.cap) same fits)

  store_import-IsGood :
      (t t' : Table) (i : Import)
      → IsGood t
      → resolve_at registry img i.module_name i.name i.ordinal ≡ done i.resolved
      → store_import t i ≡ done t'
      → IsGood t'
  unfolding store_import
  store_import-IsGood t t' i (b, room) bound h = elim (Bool-cases (ltb (length t.imports) t.cap)) [
    | inl free ↦ subst IsGood (done-injective (rw free at h)) (
      AllBound-concat t.imports i b bound,
      omega (arith, ltb→lt _ _ free, length-append t.imports (i ∷ [])),
    )
    | inr full ↦ absurd (fault-ne-done (rw full at h))
  ]

  add_import-IsGood :
      (t t' : Table) (module_name : ℕ) (fn : Option ℕ) (ordinal : ℕ)
      → IsGood t
      → add_import alloc registry img t module_name fn ordinal ≡ done t'
      → IsGood t'
  unfolding add_import
  add_import-IsGood t t' module_name fn ordinal g h = >>=-elim (grow alloc t) _ h λ t1 e h1.
      >>=-elim (resolve_at registry img module_name fn ordinal) _ h1 λ addr b h2.
        store_import-IsGood t1 t' (new_import module_name fn ordinal addr) (grow-IsGood t t1 g e) b
          h2

  thunk_loop-IsGood :
      (fuel module_name iat_rva idx : ℕ) (t t' : Table)
      → IsGood t
      → thunk_loop fuel alloc registry img module_name iat_rva idx t ≡ done t'
      → IsGood t'
  unfolding thunk_loop
  thunk_loop-IsGood zero module_name iat_rva idx t t' g h = absurd (pending-ne-done h)
  thunk_loop-IsGood (suc fuel) module_name iat_rva idx t t' g h =
      >>=-elim (read_thunk img (add32 iat_rva (idx * thunk_size img))) _ h (elim [
        | none ↦ λ e h1. subst IsGood (done-injective h1) g
        | some v ↦ λ e h1. elim (Bool-cases (not v.1 && v.0 == 0)) [
          | inl stop ↦ subst IsGood (done-injective (rw stop at h1)) g
          | inr more ↦ >>=-elim (import_name img v.0 v.1) _ (rw more at h1) λ fn f h2.
              >>=-elim (add_import alloc registry img t module_name fn _) _ h2 λ t1 a h3.
                thunk_loop-IsGood fuel module_name iat_rva (idx + 1) t1 t'
                  (add_import-IsGood t t1 module_name fn _ g a) h3
        ]
      ])

  descriptor_loop-IsGood :
      (fuel inner rva : ℕ) (t t' : Table)
      → IsGood t
      → descriptor_loop fuel inner alloc registry img rva t ≡ done t'
      → IsGood t'
  unfolding descriptor_loop
  descriptor_loop-IsGood zero inner rva t t' g h = absurd (pending-ne-done h)
  descriptor_loop-IsGood (suc fuel) inner rva t t' g h =
      >>=-elim (image_read img rva ImportDescriptor.size) _ h (elim [
        | none ↦ λ e h1. subst IsGood (done-injective h1) g
        | some desc ↦ λ e h1. elim (Bool-cases (is_last desc)) [
          | inl last ↦ subst IsGood (done-injective (rw last at h1)) g
          | inr more ↦ elim (Bool-cases (iat_of desc == 0)) [
            | inl skip ↦
                descriptor_loop-IsGood fuel inner (add32 rva ImportDescriptor.size) t t' g
                  (rw (more, skip) at h1)
            | inr walk ↦ elim (Option-cases (image_rva img (ImportDescriptor.name_rva desc))) [
              | inl null ↦ absurd (fail-ne-done (rw (more, walk, null) at h1))
              | inr (p, found) ↦
                  >>=-elim (thunk_loop inner alloc registry img p (iat_of desc) 0 t) _
                    (rw (more, walk, found) at h1)
                    λ t1 e1 h2.
                      descriptor_loop-IsGood fuel inner (add32 rva ImportDescriptor.size) t1 t'
                        (thunk_loop-IsGood inner p (iat_of desc) 0 t t1 g e1) h2
            ]
          ]
        ]
      ])

  -- Where the image has an import directory and parsing it succeeds, each import has the address
  -- that the registry gives for the names it points at, and the count is that of the entries.
  pub parse_imports_bound :
      (fuel : ℕ) (out : Image)
      → OptionalHeader.directory_address img.opt dir_import ≢ 0
      → OptionalHeader.directory_size img.opt dir_import ≢ 0
      → parse_imports fuel alloc registry img ≡ done out
      → AllBound out.imports
        × (out.import_count ≡ length out.imports)
        × (out.imports_parsed ≡ true)
        × (out.mapped ≡ img.mapped)
  unfolding parse_imports
  parse_imports_bound fuel out address size h =
      let present : (OptionalHeader.directory_address img.opt dir_import == 0
            || OptionalHeader.directory_size img.opt dir_import == 0)
          ≡ false =
        ground arith in
      >>=-elim (descriptor_loop fuel fuel alloc registry img _ no_imports) _ (rw present at h)
        λ t e h1.
          subst
            (λ (o : Image).
              AllBound o.imports
              × (o.import_count ≡ length o.imports)
              × (o.imports_parsed ≡ true)
              × (o.mapped ≡ img.mapped))
            (done-injective h1)
            (
              (descriptor_loop-IsGood fuel fuel _ no_imports t (tt, omega arith) e).0,
              refl,
              refl,
              refl,
            )
