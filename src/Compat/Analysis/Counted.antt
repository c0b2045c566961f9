-- ===== src/Compat/Analysis/Counted.antt =====
-- What the counters of the analysis count.
use fantastic_octo_meme.Prelude.{
  replicate, ℕ, suc, ◌+◌, ◌^◌, ◌<◌, ◌≡◌, ◌∙◌, Bool, true, false, ◌&&◌, List, [], ◌∷◌, length,
  get_or, leb, ◌==◌, refl, ap, sym, arith, Bool-cases, inl, inr, Option, none, some, if◌then◌else◌,
}
use fantastic_octo_meme.Memory.{Bytes}
use fantastic_octo_meme.Memory.Laws.{get_or-replicate}
use fantastic_octo_meme.Text.{clip}
use fantastic_octo_meme.Conf.{or_empty}
use fantastic_octo_meme.Win32.Registry.{Registry}
use fantastic_octo_meme.Compat.Categories.{
  prefix_match, is_thread_api, is_file_api, classify, gfx_dlls, audio_dlls, input_dlls, net_dlls,
  fs_thread_dlls, sys_dlls,
}
use fantastic_octo_meme.Compat.Analysis.{
  Imported, Tally, is_supported, tally_scored, tally_one, tally_all, nothing_tallied, scored,
}
use fantastic_octo_meme.Compat.Analysis.Tallied.{
  IsTally, get_or-bump, tally_one-IsTally, nothing-IsTally,
}

-- The lists of libraries in the order in which they are asked, each with the category of its
-- functions, or with `none` for the kernel's, where the function decides.
abbrev pub families : List (List Bytes × Option ℕ)
families =
    (gfx_dlls, some 0)
    ∷ (audio_dlls, some 1)
    ∷ (input_dlls, some 2)
    ∷ (net_dlls, some 3)
    ∷ (fs_thread_dlls, none)
    ∷ (sys_dlls, some 6)
    ∷ []

-- Functions of threads are 5, of files 4, and the others of the kernel's 6.
abbrev pub of_kernel : Option Bytes → ℕ
of_kernel none = 6
of_kernel (some fn) = if is_thread_api fn then 5 else if is_file_api fn then 4 else 6

-- The category of a library's function by the first list with the library; 7 is none.
abbrev pub listed : List (List Bytes × Option ℕ) → Bytes → Option Bytes → ℕ
listed [] dll fn = 7
listed ((dlls, none) ∷ fs) dll fn = if prefix_match dll dlls then of_kernel fn else listed fs dll fn
listed ((dlls, some cat) ∷ fs) dll fn = if prefix_match dll dlls then cat else listed fs dll fn

pub classify-listed : (dll : Bytes) (fn : Option Bytes) → classify dll fn ≡ listed families dll fn
unfolding classify
classify-listed dll none = refl
classify-listed dll (some fn) = refl

-- Whether an import is of a category.
abbrev pub is_of : ℕ → Imported → Bool
is_of cat im = listed families im.module_name im.name == cat

-- How many of the imports are of a category, and how many of those are supported.
abbrev pub imports_of : ℕ → List Imported → ℕ
imports_of cat [] = 0
imports_of cat (im ∷ ims) = if is_of cat im then 1 + imports_of cat ims else imports_of cat ims

abbrev pub supported_of : Registry → ℕ → List Imported → ℕ
supported_of r cat [] = 0
supported_of r cat (im ∷ ims) =
    if is_of cat im && is_supported r im then 1 + supported_of r cat ims else supported_of r cat ims

scored_one :
    (n : ℕ) (called_by : Bytes) (t : Tally) (im : Imported) (c cat : ℕ) (has : Bool)
    → c < 7
    → suc n < 2 ^ 32
    → IsTally n t
    → (get_or (tally_scored called_by t im c has).totals cat 0
        ≡ (if c == cat then get_or t.totals cat 0 + 1 else get_or t.totals cat 0))
      × (get_or (tally_scored called_by t im c has).supported cat 0
          ≡ (if (c == cat) && has then get_or t.supported cat 0 + 1 else get_or t.supported cat 0))
scored_one n called_by t im c cat true seven small v = (
  get_or-bump t.totals c cat (omega (arith, v.totals_seven)) (omega (arith, v.few)),
  get_or-bump t.supported c cat (omega (arith, v.supported_seven)) (omega (arith, v.few, v.sums))
      ∙ ground arith,
)
scored_one n called_by t im c cat false seven small v = (
  get_or-bump t.totals c cat (omega (arith, v.totals_seven)) (omega (arith, v.few)),
  ground arith,
)

unscored : (c k cat : ℕ) → c ≡ k → leb 7 c ≡ true → cat < 7 → (k == cat) ≡ false
unscored c k cat same high seven = ground arith

below_seven : (c : ℕ) → leb 7 c ≡ false → c < 7
below_seven c h = ground arith

-- One import more.
totals_one :
    (r : Registry) (n : ℕ) (called_by : Bytes) (t : Tally) (im : Imported) (cat : ℕ)
    → cat < 7
    → suc n < 2 ^ 32
    → IsTally n t
    → (get_or (tally_one r called_by t im).totals cat 0
        ≡ (if is_of cat im then get_or t.totals cat 0 + 1 else get_or t.totals cat 0))
      × (get_or (tally_one r called_by t im).supported cat 0 ≡ (
          if is_of cat im && is_supported r im
          then get_or t.supported cat 0 + 1
          else get_or t.supported cat 0))
unfolding tally_one
totals_one r n called_by t im cat seven small v =
    let c = classify im.module_name im.name in
    let same : c ≡ listed families im.module_name im.name =
      classify-listed im.module_name im.name in
    elim (Bool-cases (leb 7 c)) [
      | inl skipped ↦
          let other : is_of cat im ≡ false =
            unscored c (listed families im.module_name im.name) cat same skipped seven in
          rw (skipped, tally_one, other) (refl, refl)
      | inr kept ↦
          let here = below_seven c kept in
          let at : is_of cat im ≡ (c == cat) = ap (λ k. k == cat) (sym same) in
          rw (kept, tally_one, at)
            (scored_one n called_by t im c cat (is_supported r im) here small v)
    ]

-- All imports.
tallied_all :
    (r : Registry) (n : ℕ) (called_by : Bytes) (t : Tally) (cat : ℕ) (ims : List Imported)
    → cat < 7
    → n + length ims < 2 ^ 32
    → IsTally n t
    → (get_or (tally_all r called_by t ims).totals cat 0
        ≡ get_or t.totals cat 0 + imports_of cat ims)
      × (get_or (tally_all r called_by t ims).supported cat 0
          ≡ get_or t.supported cat 0 + supported_of r cat ims)
tallied_all r n called_by t cat [] seven small v = (omega arith, omega arith)
tallied_all r n called_by t cat (im ∷ ims) seven small v =
    let (total, of_it) = totals_one r n called_by t im cat seven (omega arith) v in
    let (totals, of_them) =
      tallied_all r (suc n) called_by (tally_one r called_by t im) cat ims seven (omega arith)
        (tally_one-IsTally r n called_by t im (omega arith) v) in
    (totals ∙ ground (arith, total), of_them ∙ ground (arith, of_it))

-- The counters of a category are the numbers of its imports and of those that are supported.
pub scored-counts :
    (r : Registry) (called_by : Option Bytes) (ims : List Imported) (cat : ℕ)
    → cat < 7
    → length ims < 2 ^ 32
    → (get_or (scored r called_by ims).totals cat 0 ≡ imports_of cat ims)
      × (get_or (scored r called_by ims).supported cat 0 ≡ supported_of r cat ims)
unfolding scored
scored-counts r called_by ims cat seven small =
    let name = clip 256 (or_empty called_by) in
    let (totals, of_them) =
      tallied_all r 0 name nothing_tallied cat ims seven (omega arith) nothing-IsTally in
    let zeros : get_or (replicate 7 0) cat 0 ≡ 0 = get_or-replicate 7 cat in
    (totals ∙ omega (arith, zeros), of_them ∙ omega (arith, zeros))
