-- ===== src/Loader/Exports/Names.antt =====
-- The names that the export index holds.
use fantastic_octo_meme.Prelude.{
  ℕ, zero, suc, ◌+◌, ◌*◌, ◌≤◌, ◌≡◌, ◌≢◌, Bool, true, false, List, [], ◌∷◌, ◌++◌, length, take, leb,
  ◌==◌, Option, some, none, refl, ap, arith, Bool-cases, Option-cases, inl, inr, subst, leb→le,
}
use fantastic_octo_meme.Loader.Exports.{name_text, export_name, export_loop, export_table}
use fantastic_octo_meme.Loader.Imports.{mapped_from}
use fantastic_octo_meme.Memory.{Bytes, done, guard}
use fantastic_octo_meme.Memory.Laws.{>>=-elim, done-injective, guard-eq-done, fail-ne-done}
use fantastic_octo_meme.Pe.Image.{Image, AllocSite}
use fantastic_octo_meme.Pe.Layout.ExportDirectory
use fantastic_octo_meme.Pe.Layout.Fields.{field32}
use fantastic_octo_meme.Pe.Rva.{image_rva, image_read}
use fantastic_octo_meme.Util.{c_str}

-- An entry is null, or the text of an image from an offset, at most 4096 bytes, with its zero.
abbrev pub IsName : Image → Option Bytes → Type 0
IsName img none = Unit {0}
IsName img (some s) = (p : ℕ) × (s ≡ c_str (take 4096 (mapped_from img p)) ++ 0 ∷ [])

abbrev pub AllNames : Image → List (Option Bytes) → Type 0
AllNames img [] = Unit {0}
AllNames img (s ∷ ss) = IsName img s × AllNames img ss

name_text-done :
    (object text : Bytes) → name_text object ≡ done text → text ≡ c_str (take 4096 object)
unfolding name_text
name_text-done object text h = ground arith

export_name-IsName :
    (alloc : AllocSite → Bool) (img : Image) (i rva : ℕ) (s : Option Bytes)
    → export_name alloc img i rva ≡ done s
    → IsName img s
unfolding export_name
export_name-IsName alloc img i rva s h = elim (Option-cases (image_rva img rva)) [
  | inl null ↦ subst (IsName img) (done-injective (rw (null, export_name) at h)) tt
  | inr (p, at) ↦
      >>=-elim (name_text (mapped_from img p)) _ (rw (at, export_name) at h) λ text e h1.
        elim (Bool-cases (alloc (AllocSite.export_name i))) [
          | inl room ↦
              subst (IsName img) (done-injective (rw room at h1))
                (p, ap (λ t. t ++ 0 ∷ []) (name_text-done (mapped_from img p) text e))
          | inr full ↦ subst (IsName img) (done-injective (rw full at h1)) tt
        ]
]

export_loop-AllNames :
    (n i : ℕ) (alloc : AllocSite → Bool) (img : Image) (names : Bytes) (list : List (Option Bytes))
    → export_loop n i alloc img names ≡ done list
    → AllNames img list × (length list ≡ n)
unfolding export_loop
export_loop-AllNames zero i alloc img names list h =
    subst (λ l. AllNames img l × (length l ≡ 0)) (done-injective h) (tt, refl)
export_loop-AllNames (suc n) i alloc img names list h =
    >>=-elim (export_name alloc img i (field32 names (4 * i))) _ h λ name e h1.
      >>=-elim (export_loop n (i + 1) alloc img names) _ h1 λ rest e1 h2.
        let (all, len) = export_loop-AllNames n (i + 1) alloc img names rest e1 in
        subst (λ l. AllNames img l × (length l ≡ suc n)) (done-injective h2)
          ((export_name-IsName alloc img i _ name e, all), ap suc len)

-- Where an export directory is read and its index is built, the index has one entry for each name
-- that the directory counts, at most 2^20, and each entry is null or a text of the image.
pub export_table_lem :
    (alloc : AllocSite → Bool) (img out : Image) (exp : Bytes)
    → ExportDirectory.number_of_names exp ≢ 0
    → export_table alloc img exp ≡ done out
    → (list : List (Option Bytes)) × (out.export_names ≡ some list)
      × (length list ≡ out.export_name_count)
      × (out.export_name_count ≡ ExportDirectory.number_of_names exp)
      × (out.export_name_count ≤ 0x100000)
      × (out.exports_parsed ≡ true)
      × AllNames img list
unfolding export_table
export_table_lem alloc img out exp some_names h =
    let count = ExportDirectory.number_of_names exp in
    let present : (count == 0) ≡ false = ground arith in
    >>=-elim (guard (leb count 0x100000) _) _ (rw (present, export_table) at h) λ _ few h1.
      >>=-elim (guard (alloc AllocSite.export_names) _) _ h1 λ _ _ h2.
        >>=-elim (guard (alloc AllocSite.name_rvas) _) _ h2 λ _ _ h3.
          >>=-elim (image_read img (ExportDirectory.address_of_names exp) (count * 4)) _ h3 (elim [
            | none ↦ λ e h4. absurd (fail-ne-done h4)
            | some names ↦ λ e h4.
                >>=-elim (export_loop count 0 alloc img names) _ h4 λ list ran h5.
                  let (all, len) = export_loop-AllNames count 0 alloc img names list ran in
                  subst
                    (λ (o : Image).
                      (list' : List (Option Bytes)) × (o.export_names ≡ some list')
                      × (length list' ≡ o.export_name_count)
                      × (o.export_name_count ≡ count)
                      × (o.export_name_count ≤ 0x100000)
                      × (o.exports_parsed ≡ true)
                      × AllNames img list')
                    (done-injective h5)
                    (
                      list,
                      refl,
                      len,
                      refl,
                      leb→le count 0x100000 (guard-eq-done _ _ few),
                      refl,
                      all,
                    )
          ])
