-- ===== src/Compat/Analysis/Issues.antt =====
-- The issues and recommendations of `cellar_compat_analyze`, and the whole of it.
use fantastic_octo_meme.Prelude.{
  ℕ, ◌+◌, ◌%◌, ◌^◌, Bool, true, false, not, ◌&&◌, ◌||◌, List, [], ◌∷◌, ◌++◌, length, get_or, take,
  leb, ltb, ◌==◌, Option, none, some, if◌then◌else◌,
}
use fantastic_octo_meme.Memory.{Bytes}
use fantastic_octo_meme.Text.{codes, clip, same_text}
use fantastic_octo_meme.Text.Decimal.{decimal}
use fantastic_octo_meme.Text.Number.{ℤ, pos, negsuc, print_int}
use fantastic_octo_meme.Conf.{or_empty}
use fantastic_octo_meme.Win32.Registry.{Registry}
use fantastic_octo_meme.Workspace.{starts_ci}
use fantastic_octo_meme.Compat.Categories.{has_part, is_thread_api, cat_graphics, cat_audio}
use fantastic_octo_meme.Compat.Analysis.{Imported, Tally, scored, category_percent, overall_percent}

-- `cellar_issue_level_t`.
pub data Level : Type 0 where
  info warn error : Level

abbrev pub Issue : Type 0
Issue = Level × Bytes

-- `add_issue`: 16 entries at most.
abbrev pub add_issue : List Issue → Level → Bytes → List Issue
add_issue is level text = if leb 16 (length is) then is else is ++ (level, clip 128 text) ∷ []

-- `add_issue` under a condition.
abbrev pub add_if : Bool → List Issue → Level → Bytes → List Issue
add_if true is level text = add_issue is level text
add_if false is level text = is

-- `percent < 100`.
abbrev pub is_partial : ℤ → Bool
is_partial (pos n) = ltb n 100
is_partial (negsuc n) = true

-- The bytes of an em dash.
abbrev pub dash : Bytes
dash = 226 ∷ 128 ∷ 148 ∷ []

abbrev pub graphics_issues : Tally → List Issue
graphics_issues t =
    let tech = t.detected.graphics in
    let percent = category_percent t cat_graphics in
    let named : Bytes = if length tech == 0 then codes "Graphics" else tech in
    let one =
      add_if (is_partial percent) [] warn
        (named ++ (codes " graphics coverage is partial (" ++ (print_int percent ++ codes "%)"))) in
    let two = add_if (has_part tech (codes "12")) one warn (
      codes "D3D12 feature-level requirement " ++ (dash ++ codes " Vulkan fallback recommended")) in
    add_if (has_part tech (codes "11")) two info (codes "D3D11 feature-level requirement")

abbrev pub is_timer : Bytes → Bool
is_timer fn =
    same_text fn (codes "QueryPerformanceCounter")
    || same_text fn (codes "QueryPerformanceFrequency")
    || same_text fn (codes "timeGetTime")
    || same_text fn (codes "GetSystemTimePreciseAsFileTime")

-- The loop over the imports by name, which stops at the first timer.
abbrev pub timer_issue : List Issue → List Imported → List Issue
timer_issue is [] = is
timer_issue is (im ∷ ims) =
    let rest = timer_issue is ims in
    elim im.name [
      | none ↦ rest
      | some fn ↦
          if is_timer fn
          then add_issue is warn
              (codes "High-resolution timer usage (" ++ (take 40 fn ++ codes ")"))
          else rest
    ]

abbrev pub thread_imports : List Imported → ℕ
thread_imports [] = 0
thread_imports (im ∷ ims) =
    let rest = thread_imports ims in
    elim im.name [ none ↦ rest | some fn ↦ if is_thread_api fn then (rest + 1) % 2 ^ 32 else rest ]

-- The first import by ordinal.
abbrev pub ordinal_issue : List Issue → List Imported → List Issue
ordinal_issue is [] = is
ordinal_issue is (im ∷ ims) =
    let rest = ordinal_issue is ims in
    elim im.name [
      | some fn ↦ rest
      | none ↦ add_issue is info (
          codes "Ordinal import ("
          ++ (im.module_name
              ++ (codes "!#" ++ (decimal im.ordinal ++ codes ") needs ordinal binding"))))
    ]

unfoldable pub issues_of : Tally → List Imported → List Issue
issues_of t ims =
    let has_graphics = not (get_or t.totals cat_graphics 0 == 0) in
    let one : List Issue = if has_graphics then graphics_issues t else [] in
    let two = timer_issue one ims in
    let threads = thread_imports ims in
    let three = add_if (ltb 4 threads) two warn (
      codes "Advanced synchronization usage ("
      ++ (decimal threads ++ codes " thread/threadpool APIs)")) in
    let four =
      add_if (not (length t.missing == 0)) three error
        (decimal (length t.missing) ++ codes " required API(s) not implemented by Cellar") in
    ordinal_issue four ims

-- `cellar_analysis_t`.
pub record Analysis : Type 0 where
  pub called_by : Bytes
  pub is_64bit : Bool
  pub valid_pe : Bool
  pub tally : Tally
  pub issues : List Issue
  pub gfx_recommendation : Bytes
  pub audio_recommendation : Bytes
  pub input_recommendation : Bytes
  pub shader_cache_enabled : Bool
  pub overall : ℤ

-- `cellar_compat_analyze` of an image with a magic number and imports; the scores are those of the
-- tally.
unfoldable pub analyze : Registry → ℕ → List Imported → Option Bytes → Analysis
unfolding issues_of
analyze r magic ims called_by =
    let t = scored r called_by ims in
    let has_graphics = not (get_or t.totals cat_graphics 0 == 0) in
    let partial_audio =
      not (get_or t.totals cat_audio 0 == 0) && is_partial (category_percent t cat_audio) in
    let direct = starts_ci t.detected.graphics (codes "Direct3D") in
    record {
      called_by = clip 256 (or_empty called_by);
      is_64bit = magic == 0x20b;
      valid_pe = true;
      tally = t;
      issues = issues_of t ims;
      gfx_recommendation =
          if has_graphics
          then (if direct then codes "Vulkan" else codes "OpenGL")
          else codes "Software";
      audio_recommendation = if partial_audio then codes "PipeWire" else codes "ALSA";
      input_recommendation = codes "XInput backend";
      shader_cache_enabled = has_graphics;
      overall = overall_percent t;
    }
