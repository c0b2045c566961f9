-- ===== src/Compat/Analysis/Verdict.antt =====
-- What the percentages of the analysis mean.
use native.Mathlib.Nat.{div-lt_iff_lt-mul, mul-div_cancel_left}
use fantastic_octo_meme.Prelude.{
  subst, ℕ, ◌-◌, ◌*◌, ◌/◌, ◌%◌, ◌^◌, ◌≤◌, ◌<◌, ◌≡◌, ◌∙◌, ◌↔◌, true, false, List, ◌++◌, length, min,
  ltb, ◌==◌, refl, ap, sym, arith, Bool-cases, inl, inr, Option, some,
}
use fantastic_octo_meme.Memory.{Bytes}
use fantastic_octo_meme.Text.{codes}
use fantastic_octo_meme.Text.Number.{ℤ, pos, negsuc, as_int}
use fantastic_octo_meme.Win32.Registry.{Registry}
use fantastic_octo_meme.Compat.Categories.{
  prefix_match, has_part, is_thread_api, is_file_api, classify, cat_threading, gfx_dlls, audio_dlls,
  input_dlls, net_dlls, fs_thread_dlls,
}
use fantastic_octo_meme.Compat.Analysis.{Imported, sum, scored, overall_percent, percent_or}
use fantastic_octo_meme.Compat.Analysis.Tallied.{scored-IsTally}

-- The number that stands for a percentage.
abbrev value : ℤ → ℕ
value (pos n) = n
value (negsuc n) = 0

-- A part of a whole that is not empty, in percent.
part : ℕ → ℕ → ℕ
part total supported = supported * 100 % 2 ^ 32 / total

-- The product does not wrap.
part-plain :
    (total supported : ℕ)
    → supported ≤ total
    → total * 100 < 2 ^ 32
    → part total supported ≡ supported * 100 / total
unfolding part
part-plain total supported h small =
    let plain : supported * 100 % 2 ^ 32 ≡ supported * 100 = omega arith in
    ap (λ n. n / total) plain

part-full : (total : ℕ) → 0 < total → total * 100 < 2 ^ 32 → part total total ≡ 100
part-full total given small =
    part-plain total total (omega arith) small ∙ mul-div_cancel_left 100 given

part-partial :
    (total supported : ℕ) → supported < total → total * 100 < 2 ^ 32 → part total supported < 100
part-partial total supported h small =
    let below : supported * 100 / total < 100 =
      (div-lt_iff_lt-mul {k = total} {x = supported * 100} {y = 100} (omega arith)).1
        (omega arith) in
    subst (λ n. n < 100) (sym (part-plain total supported (omega arith) small)) below

part-le :
    (total supported : ℕ)
    → 0 < total
    → supported ≤ total
    → total * 100 < 2 ^ 32
    → part total supported ≤ 100
part-le total supported given h small = elim (Bool-cases (ltb supported total)) [
  | inl less ↦ omega (arith, part-partial total supported (ground arith) small)
  | inr all ↦
      let same : supported ≡ total = ground arith in
      rw same (omega (arith, part-full total given small))
]

as_int-small : (n : ℕ) → n ≤ 100 → as_int n ≡ pos n
as_int-small n h = ground arith

-- A percentage of a whole that is not empty.
percent_part :
    (without : ℤ) (total supported : ℕ)
    → 0 < total
    → supported ≤ total
    → total * 100 < 2 ^ 32
    → percent_or without total supported ≡ pos (part total supported)
unfolding part
percent_part without total supported given h small =
    let some_there : (total == 0) ≡ false = ground arith in
    rw some_there (as_int-small (part total supported) (part-le total supported given h small))

overall_iff :
    (total supported missing : ℕ)
    → supported ≤ total
    → total * 100 < 2 ^ 32
    → missing ≡ min 64 (total - supported)
    → (percent_or (pos 100) (total % 2 ^ 32) (supported % 2 ^ 32) ≡ pos 100) ↔ (missing ≡ 0)
overall_iff total supported missing h small reported =
    let t_same : total % 2 ^ 32 ≡ total = omega arith in
    let s_same : supported % 2 ^ 32 ≡ supported = omega arith in
    rw (t_same, s_same)
      (elim (Bool-cases (total == 0)) [
        | inl none_there ↦
            let empty : total ≡ 0 = ground arith in rw none_there ((λ e. omega arith), (λ e. refl))
        | inr some_there ↦
            let given : 0 < total = ground arith in
            let is_part = percent_part (pos 100) total supported given h small in
            (
              (λ e.
                  let full : part total supported ≡ 100 = ap value (sym is_part ∙ e) in
                  elim (Bool-cases (ltb supported total)) [
                    | inl less ↦
                        absurd (omega (arith, part-partial total supported (ground arith) small))
                    | inr all ↦ let same : supported ≡ total = ground arith in omega arith
                  ]),
              (λ e.
                  let same : supported ≡ total = omega arith in
                  is_part ∙ ap pos (ap (part total) same ∙ part-full total given small)),
            )
      ])

-- For fewer than 2^32 / 100 imports, the overall percentage is 100 exactly if no missing function
-- is reported.
pub overall_percent_iff :
    (r : Registry) (called_by : Option Bytes) (ims : List Imported)
    → length ims * 100 < 2 ^ 32
    → (overall_percent (scored r called_by ims) ≡ pos 100)
      ↔ (length (scored r called_by ims).missing ≡ 0)
overall_percent_iff r called_by ims small =
    let t = scored r called_by ims in
    let v = scored-IsTally r called_by ims (omega arith) in
    overall_iff (sum t.totals) (sum t.supported) (length t.missing) v.sums (omega (arith, v.few))
      v.reported

begins_file :
    (rest : Bytes)
    → has_part (codes "GetCurrentDirectory" ++ rest) (codes "GetCurrentDirectory") ≡ true
unfolding has_part
begins_file rest = refl

begins_thread :
    (rest : Bytes) → has_part (codes "GetCurrentDirectory" ++ rest) (codes "GetCurrent") ≡ true
unfolding has_part
begins_thread rest = refl

is_file_api_directory : (rest : Bytes) → is_file_api (codes "GetCurrentDirectory" ++ rest) ≡ true
unfolding is_file_api
is_file_api_directory rest = ground (arith, begins_file rest)

is_thread_api_directory :
    (rest : Bytes) → is_thread_api (codes "GetCurrentDirectory" ++ rest) ≡ true
unfolding is_thread_api
is_thread_api_directory rest = ground (arith, begins_thread rest)

-- A function whose name begins with "GetCurrentDirectory" is one of the file functions that the
-- analyser lists, but in the kernel's libraries it is counted as a threading function.
pub classify_directory :
    (dll rest : Bytes)
    → prefix_match dll gfx_dlls ≡ false
    → prefix_match dll audio_dlls ≡ false
    → prefix_match dll input_dlls ≡ false
    → prefix_match dll net_dlls ≡ false
    → prefix_match dll fs_thread_dlls ≡ true
    → (is_file_api (codes "GetCurrentDirectory" ++ rest) ≡ true)
      × (classify dll (some (codes "GetCurrentDirectory" ++ rest)) ≡ cat_threading)
unfolding classify
classify_directory dll rest gfx audio input net kernel = (
  is_file_api_directory rest,
  rw (gfx, audio, input, net, kernel, is_thread_api_directory rest) refl,
)
