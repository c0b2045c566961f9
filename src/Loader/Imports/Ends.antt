-- ===== src/Loader/Imports/Ends.antt =====
-- The two loops over the import tables end.
use fantastic_octo_meme.Prelude.{
  ℕ, zero, suc, ◌+◌, ◌*◌, ◌^◌, ◌≤◌, ◌<◌, Bool, true, false, not, ◌&&◌, ◌||◌, length, take, drop,
  ◌==◌, ◌≡◌, ◌≢◌, arith, Option, some, none, length-drop, Bool-cases, inl, inr, Option-cases,
}
use fantastic_octo_meme.Loader.Imports.{
  mapped_from, Table, no_imports, is_last, iat_of, is_pe32, thunk_size, read_thunk, grow,
  resolve_at, new_import, store_import, add_import, import_name, thunk_loop, descriptor_loop,
  parse_imports,
}
use fantastic_octo_meme.Loader.Relocs.{add32}
use fantastic_octo_meme.Memory.{Bytes, AllBytes, done, Ends}
use fantastic_octo_meme.Memory.Laws.{>>=-elim, >>=-Ends, AllBytes-take, AllBytes-drop}
use fantastic_octo_meme.Pe.Image.{Import, Image, AllocSite}
use fantastic_octo_meme.Pe.Layout.{dir_import}
use fantastic_octo_meme.Pe.Layout.Fields.{field32-lt}
use fantastic_octo_meme.Pe.Layout.ImportDescriptor
use fantastic_octo_meme.Pe.Layout.OptionalHeader
use fantastic_octo_meme.Pe.Rva.{image_rva}
use fantastic_octo_meme.Pe.Rva.Reads.{image_rva_cases, image_read_lem}
use fantastic_octo_meme.Util.{le32, le64, text_of}
use fantastic_octo_meme.Util.Endian.{le32-Reads, le64-Reads}
use fantastic_octo_meme.Win32.Registry.{Registry}

none-ne-some : {v : ℕ × Bool} → done none ≢ done (some v)
none-ne-some h = cc

text_of-Ends : (o : Option Bytes) → Ends (text_of o)
unfolding text_of
text_of-Ends none = tt
text_of-Ends (some s) = ground arith

resolve_at-Ends :
    (registry : Registry) (img : Image) (p : ℕ) (fn : Option ℕ) (ordinal : ℕ)
    → Ends (resolve_at registry img p fn ordinal)
unfolding resolve_at
resolve_at-Ends registry img p none ordinal = tt
resolve_at-Ends registry img p (some fn) ordinal =
    >>=-Ends _ _ (text_of-Ends _) λ _ _. >>=-Ends _ _ (text_of-Ends _) (λ _ _. tt)

grow-Ends : (alloc : AllocSite → Bool) (t : Table) → Ends (grow alloc t)
unfolding grow
grow-Ends alloc t = ground arith

store_import-Ends : (t : Table) (i : Import) → Ends (store_import t i)
unfolding store_import
store_import-Ends t i = ground arith

add_import-Ends :
    (alloc : AllocSite → Bool) (registry : Registry) (img : Image) (t : Table) (p : ℕ)
    (fn : Option ℕ) (ordinal : ℕ)
    → Ends (add_import alloc registry img t p fn ordinal)
unfolding add_import
add_import-Ends alloc registry img t p fn ordinal =
    >>=-Ends (grow alloc t) _ (grow-Ends alloc t) λ t' _.
      >>=-Ends (resolve_at registry img p fn ordinal) _ (resolve_at-Ends registry img p fn ordinal)
        λ addr _. store_import-Ends t' (new_import p fn ordinal addr)

import_name-Ends : (img : Image) (val : ℕ) (ordinal : Bool) → Ends (import_name img val ordinal)
unfolding import_name
import_name-Ends img val true = tt
import_name-Ends img val false = ground arith

module _ (img : Image) (m : Bytes) (is_m : img.mapped ≡ some m) where
  read_thunk-Ends : (rva : ℕ) → Ends (read_thunk img rva)
  unfolding read_thunk
  read_thunk-Ends rva = elim (image_rva_cases img rva) [
    | inl null ↦ rw (null, Ends) tt
    | inr at ↦
        rw (at, Ends)
          (elim (Bool-cases (is_pe32 img)) [
            | inl narrow ↦
                rw (narrow, Ends)
                  (>>=-Ends (le32 (mapped_from img rva)) _ (le32-Reads _).0 (λ _ _. tt))
            | inr wide ↦
                rw (wide, Ends)
                  (>>=-Ends (le64 (mapped_from img rva)) _ (le64-Reads _).0 (λ _ _. tt))
          ])
  ]

  -- A thunk that is read has four bytes of the image.
  read_thunk-le : (rva : ℕ) (v : ℕ × Bool) → read_thunk img rva ≡ done (some v) → rva + 4 ≤ length m
  unfolding read_thunk
  read_thunk-le rva v h = elim (image_rva_cases img rva) [
    | inl null ↦ absurd (none-ne-some (rw (null, read_thunk) at h))
    | inr at ↦ elim (Bool-cases (is_pe32 img)) [
      | inl narrow ↦
          >>=-elim (le32 (drop rva m)) _ (rw (at, read_thunk, narrow, is_m) at h)
            λ w e _. omega (arith, (le32-Reads (drop rva m)).1 w e, length-drop rva m)
      | inr wide ↦
          >>=-elim (le64 (drop rva m)) _ (rw (at, read_thunk, wide, is_m) at h)
            λ w e _. omega (arith, (le64-Reads (drop rva m)).1 w e, length-drop rva m)
    ]
  ]

  thunk_size-bounds : (4 ≤ thunk_size img) × (thunk_size img ≤ 8)
  thunk_size-bounds = ground arith

  module _ (alloc : AllocSite → Bool) (registry : Registry) (small : length m + 20 < 2 ^ 32) where
    -- One round: what is left runs only behind a thunk inside the image.
    thunk_step-Ends :
        (fuel module_name iat_rva idx : ℕ) (t : Table)
        → iat_rva + idx * thunk_size img < 2 ^ 32
        → (iat_rva + idx * thunk_size img + 4 ≤ length m
            → (t' : Table)
            → Ends (thunk_loop fuel alloc registry img module_name iat_rva (idx + 1) t'))
        → Ends (thunk_loop (suc fuel) alloc registry img module_name iat_rva idx t)
    unfolding thunk_loop
    thunk_step-Ends fuel module_name iat_rva idx t low next =
        let at = iat_rva + idx * thunk_size img in
        let same : add32 iat_rva (idx * thunk_size img) ≡ at = omega arith in
        >>=-Ends (read_thunk img (add32 iat_rva (idx * thunk_size img))) _ (read_thunk-Ends _)
          (elim [
            | none ↦ λ e. tt
            | some v ↦ λ e.
                let inside : at + 4 ≤ length m = omega (arith, read_thunk-le _ v e, same) in
                elim (Bool-cases (not v.1 && v.0 == 0)) [
                  | inl stop ↦ rw (stop, Ends) tt
                  | inr more ↦
                      rw (more, Ends)
                        (>>=-Ends (import_name img v.0 v.1) _ (import_name-Ends img v.0 v.1) λ fn _.
                          >>=-Ends (add_import alloc registry img t module_name fn _) _
                            (add_import-Ends alloc registry img t module_name fn _)
                            λ t' _. next inside t')
                ]
          ])

    thunk_loop-Ends :
        (k module_name iat_rva idx : ℕ) (t : Table)
        → iat_rva + idx * thunk_size img < 2 ^ 32
        → length m < iat_rva + idx * thunk_size img + k * 4
        → Ends (thunk_loop (suc k) alloc registry img module_name iat_rva idx t)
    thunk_loop-Ends zero module_name iat_rva idx t low enough =
        thunk_step-Ends zero module_name iat_rva idx t low (λ inside t'. absurd (omega arith))
    thunk_loop-Ends (suc k) module_name iat_rva idx t low enough =
        thunk_step-Ends (suc k) module_name iat_rva idx t low λ inside t'.
          thunk_loop-Ends k module_name iat_rva (idx + 1) t' (omega (arith, thunk_size-bounds))
            (omega (arith, thunk_size-bounds))

    module _ (bytes : AllBytes m) (whole : length m ≡ img.mapped_size) (k : ℕ)
        (enough : length m < k * 4) where
      iat_of-lt : (desc : Bytes) → AllBytes desc → iat_of desc < 2 ^ 32
      iat_of-lt desc h = ground (arith, field32-lt desc 0 h, field32-lt desc 16 h)

      -- One round: what is left runs only behind a descriptor inside the image.
      descriptor_step-Ends :
          (fuel rva : ℕ) (t : Table)
          → (rva + ImportDescriptor.size ≤ length m
              → (t' : Table)
              → Ends (
                  descriptor_loop fuel
                    (suc k)
                    alloc
                    registry
                    img
                    (add32 rva ImportDescriptor.size)
                    t'))
          → Ends (descriptor_loop (suc fuel) (suc k) alloc registry img rva t)
      unfolding descriptor_loop
      descriptor_step-Ends fuel rva t next =
          elim (image_read_lem img m rva ImportDescriptor.size is_m whole) [
            | inl stop ↦ rw (stop, Ends) tt
            | inr (inside, read) ↦
                let desc = take ImportDescriptor.size (drop rva m) in
                let desc_bytes =
                  AllBytes-take ImportDescriptor.size (drop rva m) (AllBytes-drop rva m bytes) in
                let later = next (omega arith) in
                rw (read, Ends)
                  (elim (Bool-cases (is_last desc)) [
                    | inl last ↦ rw (last, Ends) tt
                    | inr more ↦ elim (Bool-cases (iat_of desc == 0)) [
                      | inl skip ↦ rw (more, skip, Ends) (later t)
                      | inr walk ↦
                          elim (Option-cases (image_rva img (ImportDescriptor.name_rva desc))) [
                            | inl null ↦ rw (more, walk, null, Ends) tt
                            | inr (p, found) ↦
                                rw (more, walk, found, Ends)
                                  (>>=-Ends
                                    (thunk_loop (suc k) alloc registry img p (iat_of desc) 0 t) _
                                    (thunk_loop-Ends k p (iat_of desc) 0 t
                                      (omega (arith, iat_of-lt desc desc_bytes)) (omega arith))
                                    λ t' _. later t')
                          ]
                    ]
                  ])
          ]

      descriptor_loop-Ends :
          (j rva : ℕ) (t : Table)
          → length m < rva + j * 4
          → Ends (descriptor_loop (suc j) (suc k) alloc registry img rva t)
      descriptor_loop-Ends zero rva t h =
          descriptor_step-Ends zero rva t (λ inside t'. absurd (omega arith))
      descriptor_loop-Ends (suc j) rva t h =
          descriptor_step-Ends (suc j) rva t
            λ inside t'. descriptor_loop-Ends j (add32 rva ImportDescriptor.size) t' (omega arith)

-- On a whole image that leaves 20 bytes below 2^32, with a quarter of its size as fuel, the walk
-- over the import tables ends. It may fault, since a thunk and a name are read with no bound.
pub parse_imports-Ends :
    (alloc : AllocSite → Bool) (registry : Registry) (img : Image) (m : Bytes) (k : ℕ)
    → img.mapped ≡ some m
    → length m ≡ img.mapped_size
    → AllBytes m
    → length m + 20 < 2 ^ 32
    → length m < k * 4
    → Ends (parse_imports (suc k) alloc registry img)
unfolding parse_imports
parse_imports-Ends alloc registry img m k is_m whole bytes small enough =
    let address = OptionalHeader.directory_address img.opt dir_import in
    elim (Bool-cases (address == 0 || OptionalHeader.directory_size img.opt dir_import == 0)) [
      | inl empty ↦ rw (empty, Ends) tt
      | inr present ↦
          rw (present, Ends)
            (>>=-Ends (descriptor_loop (suc k) (suc k) alloc registry img address no_imports) _
              (descriptor_loop-Ends img m is_m alloc registry small bytes whole k enough k address
                no_imports (omega arith))
              (λ _ _. tt))
    ]
