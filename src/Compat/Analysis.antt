-- ===== src/Compat/Analysis.antt =====
-- `cellar_compat_analyze` of src/compat/compat.c: how well the imports of an image are supported.
pub mod Tallied
pub mod Counted
pub mod Verdict
pub mod Issues
use Prim.Native.String.{String}
use fantastic_octo_meme.Prelude.{
  ℕ, zero, suc, ◌+◌, ◌-◌, ◌*◌, ◌/◌, ◌%◌, ◌^◌, Bool, true, false, not, ◌&&◌, ◌||◌, List, [], ◌∷◌,
  ◌++◌, length, get_or, set, take, replicate, leb, ltb, ◌==◌, Option, none, some, if◌then◌else◌,
}
use fantastic_octo_meme.Memory.{Bytes}
use fantastic_octo_meme.Text.{codes, clip, same_text}
use fantastic_octo_meme.Text.Decimal.{decimal}
use fantastic_octo_meme.Text.Number.{ℤ, pos, negsuc, as_int, print_int}
use fantastic_octo_meme.Conf.{or_empty}
use fantastic_octo_meme.Win32.Registry.{Registry, export_exists}
use fantastic_octo_meme.Workspace.{starts_ci}
use fantastic_octo_meme.Compat.Categories.{cat_count, classify}

-- What the pointers of a `cellar_import_t` stand for.
pub record Imported : Type 0 where
  pub module_name : Bytes
  pub name : Option Bytes
  pub ordinal : ℕ

-- `cellar_missing_api_t`.
pub record Missing : Type 0 where
  pub module_name : Bytes
  pub function : Bytes
  pub called_by : Bytes
  pub recommendation : Bytes

-- The technologies that were detected.
pub record Detected : Type 0 where
  pub graphics : Bytes
  pub audio : Bytes
  pub input : Bytes
  pub networking : Bytes

abbrev pub detect_graphics : Bytes → Bytes → Bytes
detect_graphics now dll =
    if starts_ci dll (codes "d3d12")
    then codes "Direct3D 12"
    else if starts_ci dll (codes "d3d11")
    then codes "Direct3D 11"
    else if starts_ci dll (codes "d3d9")
    then codes "Direct3D 9"
    else if starts_ci dll (codes "opengl32")
    then codes "OpenGL"
    else if starts_ci dll (codes "vulkan")
    then codes "Vulkan"
    else now

abbrev pub detect_audio : Bytes → Bytes → Bytes
detect_audio now dll =
    if starts_ci dll (codes "xaudio2") || starts_ci dll (codes "dsound")
    then codes "XAudio2 / DirectSound"
    else if starts_ci dll (codes "mmdevapi")
    then codes "WASAPI"
    else if starts_ci dll (codes "winmm") && length now == 0
    then codes "WINMM"
    else now

abbrev pub detect_input : Bytes → Bytes → Bytes
detect_input now dll =
    if starts_ci dll (codes "xinput")
    then codes "XInput"
    else if starts_ci dll (codes "dinput8")
    then codes "DirectInput"
    else now

abbrev pub detect_networking : Bytes → Bytes → Bytes
detect_networking now dll =
    if starts_ci dll (codes "ws2_32")
    then codes "Winsock"
    else if starts_ci dll (codes "wininet")
    then codes "WinINet"
    else if starts_ci dll (codes "winhttp")
    then codes "WinHTTP"
    else now

abbrev pub detect_tech : Detected → Bytes → Detected
detect_tech d dll = record {
  graphics = detect_graphics d.graphics dll;
  audio = detect_audio d.audio dll;
  input = detect_input d.input dll;
  networking = detect_networking d.networking dll;
}

-- `add_missing`: 64 entries at most.
abbrev pub missing_api : Imported → Bytes → Missing
missing_api im called_by =
    let fname : Bytes =
      clip 128 (elim im.name [ some fn ↦ fn | none ↦ b'#' ∷ decimal im.ordinal ]) in
    record {
      module_name = clip 64 im.module_name;
      function = fname;
      called_by = clip 256 called_by;
      recommendation = clip 192 (
          codes "implement "
          ++ (im.module_name
              ++ b'!' ∷ (fname ++ codes " (register via cellar_win32_register_module)")));
    }

abbrev pub add_missing : List Missing → Imported → Bytes → List Missing
add_missing ms im called_by = if leb 64 (length ms) then ms else ms ++ missing_api im called_by ∷ []

-- The counters of the loop over the imports, and what it collects.
pub record Tally : Type 0 where
  pub totals : List ℕ
  pub supported : List ℕ
  pub missing : List Missing
  pub detected : Detected

abbrev pub bump : List ℕ → ℕ → List ℕ
bump counts cat = set counts cat ((get_or counts cat 0 + 1) % 2 ^ 32)

abbrev pub is_supported : Registry → Imported → Bool
is_supported r im = elim im.name [
  | none ↦ false
  | some fn ↦ export_exists r (some im.module_name) (some fn)
]

-- An import of a category, which is supported or not.
abbrev pub tally_scored : Bytes → Tally → Imported → ℕ → Bool → Tally
tally_scored called_by t im cat has = record {
  totals = bump t.totals cat;
  supported = if has then bump t.supported cat else t.supported;
  missing = if has then t.missing else add_missing t.missing im called_by;
  detected = detect_tech t.detected im.module_name;
}

-- The body of the loop.
unfoldable pub tally_one : Registry → Bytes → Tally → Imported → Tally
unfolding classify
tally_one r called_by t im =
    let cat = classify im.module_name im.name in
    if leb cat_count cat then t else tally_scored called_by t im cat (is_supported r im)

abbrev pub tally_all : Registry → Bytes → Tally → List Imported → Tally
tally_all r called_by t [] = t
tally_all r called_by t (im ∷ ims) = tally_all r called_by (tally_one r called_by t im) ims

abbrev pub nothing_tallied : Tally
nothing_tallied = record {
  totals = replicate 7 0;
  supported = replicate 7 0;
  missing = [];
  detected = record { graphics = []; audio = []; input = []; networking = [] };
}

-- `totals[i] ? (int)(supported[i] * 100u / totals[i]) : none`.
abbrev pub percent_or : ℤ → ℕ → ℕ → ℤ
percent_or without total supported =
    if total == 0 then without else as_int (supported * 100 % 2 ^ 32 / total)

abbrev pub sum : List ℕ → ℕ
sum [] = 0
sum (n ∷ ns) = n + sum ns

-- `overall_percent`; the sums are taken in 32 bits.
abbrev pub overall_percent : Tally → ℤ
overall_percent t = percent_or (pos 100) (sum t.totals % 2 ^ 32) (sum t.supported % 2 ^ 32)

-- `scores[i].percent`.
abbrev pub category_percent : Tally → ℕ → ℤ
category_percent t cat = percent_or (negsuc 0) (get_or t.totals cat 0) (get_or t.supported cat 0)

-- The first part of `cellar_compat_analyze`, up to the scores.
unfoldable pub scored : Registry → Option Bytes → List Imported → Tally
unfolding tally_one
scored r called_by ims = tally_all r (clip 256 (or_empty called_by)) nothing_tallied ims
