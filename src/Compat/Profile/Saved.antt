-- ===== src/Compat/Profile/Saved.antt =====
-- A profile that was saved is the profile that is loaded.
use fantastic_octo_meme.Prelude.{
  ℕ, ◌+◌, ◌<◌, ◌≡◌, ◌∙◌, true, ◌∷◌, ◌++◌, length, length-append, ◌==◌, Bool-cases, inl, inr, refl,
  ap, arith, some,
}
use fantastic_octo_meme.Memory.{Bytes}
use fantastic_octo_meme.Status.{Status}
use fantastic_octo_meme.Text.{codes, clip, same_text}
use fantastic_octo_meme.Text.Number.{ℤ, pos, print_int, IsInt}
use fantastic_octo_meme.Conf.{document, buffered}
use fantastic_octo_meme.Conf.Lookup.{append_assoc}
use fantastic_octo_meme.Conf.Back.{
  fits, total, AllFit, ◌&◌, fits-length, fits-wider, clip-fits, print_int-fits, length-print_int,
  text_back, atoi_back, take-all,
}
use fantastic_octo_meme.Files.{FileSystem, stored-ok}
use fantastic_octo_meme.Compat.Profile.{
  AppProfile, comment, fields, from_text, save_dir, save_path, load_path, save, load,
  mark_last_good,
}

-- The texts stand on one line and fit into their arrays, and the numbers are of the type `int`.
pub record IsValid (p : AppProfile) : Type 0 where
  pub name : fits 128 p.app_name ≡ true
  pub gfx : fits 32 p.gfx_backend ≡ true
  pub audio : fits 32 p.audio_backend ≡ true
  pub dlls : fits 512 p.dll_overrides ≡ true
  pub mode : IsInt p.version_mode
  pub sync : IsInt p.low_latency_sync
  pub shaders : IsInt p.shader_cache_enabled
  pub good : IsInt p.last_good

fields-AllFit : (p : AppProfile) → IsValid p → AllFit 512 (fields p)
fields-AllFit p v =
    let wide = λ (cap : ℕ) (s : Bytes). fits-wider cap 512 s in
    let number = λ (z : ℤ). fits-wider 64 512 (print_int z) (omega arith) (print_int-fits z) in
    number p.version_mode
    & wide 32 p.gfx_backend (omega arith) v.gfx
    & wide 32 p.audio_backend (omega arith) v.audio
    & v.dlls
    & number p.low_latency_sync
    & number p.shader_cache_enabled
    & number p.last_good
    & tt

comment-fits : (p : AppProfile) → IsValid p → fits 512 (comment p) ≡ true
comment-fits p v = ground (arith, v.name)

-- What the loader makes of the text that was written.
from_text-document :
    (p : AppProfile)
    → IsValid p
    → from_text p.app_name (buffered 8192 (document (comment p) (fields p))) ≡ p
unfolding from_text same_text
from_text-document p v =
    let c = comment p in
    let one = comment-fits p v in
    let fit = fields-AllFit p v in
    let short : length c + total (fields p) + 2 < 8192 = omega (
      arith,
      fits-length 128 p.app_name v.name,
      fits-length 32 p.gfx_backend v.gfx,
      fits-length 32 p.audio_backend v.audio,
      fits-length 512 p.dll_overrides v.dlls,
      length-print_int p.version_mode,
      length-print_int p.low_latency_sync,
      length-print_int p.shader_cache_enabled,
      length-print_int p.last_good,
    ) in
    λ i. record {
      app_name = clip-fits 128 p.app_name v.name i;
      version_mode =
          atoi_back 8192 512 c (fields p) one refl fit short (codes "version_mode") p.version_mode
            (pos 2) refl refl v.mode i;
      gfx_backend =
          text_back 8192 512 c (fields p) one refl fit short (codes "gfx_backend") p.gfx_backend 32
            refl refl v.gfx i;
      audio_backend =
          text_back 8192 512 c (fields p) one refl fit short (codes "audio_backend") p.audio_backend
            32 refl refl v.audio i;
      dll_overrides =
          text_back 8192 512 c (fields p) one refl fit short (codes "dll_overrides") p.dll_overrides
            512 refl refl v.dlls i;
      low_latency_sync =
          atoi_back 8192 512 c (fields p) one refl fit short (codes "low_latency_sync")
            p.low_latency_sync (pos 0) refl refl v.sync i;
      shader_cache_enabled =
          atoi_back 8192 512 c (fields p) one refl fit short (codes "shader_cache_enabled")
            p.shader_cache_enabled (pos 0) refl refl v.shaders i;
      last_good =
          atoi_back 8192 512 c (fields p) one refl fit short (codes "last_good") p.last_good (pos 0)
            refl refl v.good i;
    }

same_path :
    (prefix_dir name : Bytes)
    → length prefix_dir + 1 + length name < 1024
    → save_path prefix_dir name ≡ load_path prefix_dir name
same_path prefix_dir name short = ap (clip 1152) (
    ap (λ d. d ++ codes "/profile.conf")
      (take-all 1023 (prefix_dir ++ b'/' ∷ name)
        (omega (arith, length-append prefix_dir (b'/' ∷ name))))
    ∙ append_assoc prefix_dir (b'/' ∷ name) (codes "/profile.conf"))

-- What `save` did if it returned `CELLAR_OK`.
saved :
    {F : Type 0}
    → (os : FileSystem F) (fs g : F) (prefix_dir : Bytes) (p : AppProfile)
    → save os fs (some prefix_dir) (some p) ≡ (Status.ok, g)
    → {C : Type 0}
    → ((before : F)
        → os.write before (save_path prefix_dir p.app_name) (document (comment p) (fields p))
          ≡ some g
        → C)
    → C
unfolding save
saved os fs g prefix_dir p e k =
    let one = (os.mkdir fs prefix_dir).0 in
    let two = (os.mkdir one (save_dir prefix_dir p.app_name)).0 in
    elim (Bool-cases (length p.app_name == 0)) [
      | inl empty ↦ absurd (ground arith)
      | inr named ↦ k two (
          stored-ok two g
            (os.write two (save_path prefix_dir p.app_name) (document (comment p) (fields p)))
            (ground arith))
    ]

-- A valid profile that `cellar_profile_save` stored with `CELLAR_OK` is what `cellar_profile_load`
-- then returns for the same directory and application, if their path fits into the array.
pub load-save_profile :
    {F : Type 0}
    → (os : FileSystem F) (fs g : F) (prefix_dir : Bytes) (p : AppProfile) → IsValid p
    → length prefix_dir + 1 + length p.app_name < 1024
    → save os fs (some prefix_dir) (some p) ≡ (Status.ok, g)
    → load os g (some prefix_dir) (some p.app_name) ≡ (Status.ok, some p)
unfolding load
load-save_profile os fs g prefix_dir p v short e = saved os fs g prefix_dir p e λ before written.
    let content = document (comment p) (fields p) in
    let back = os.read-write before g (save_path prefix_dir p.app_name) content written in
    let back' = rw (same_path prefix_dir p.app_name short) at back in
    rw (back', load, from_text-document p v) refl

-- A configuration that was marked as good is loaded as it is, with the mark.
pub load-mark_last_good :
    {F : Type 0}
    → (os : FileSystem F) (fs g : F) (prefix_dir : Bytes) (p : AppProfile) → IsValid p
    → length prefix_dir + 1 + length p.app_name < 1024
    → mark_last_good os fs (some prefix_dir) (some p) ≡ (Status.ok, g)
    → load os g (some prefix_dir) (some p.app_name)
      ≡ (Status.ok, some (record p { last_good = pos 1 }))
unfolding mark_last_good
load-mark_last_good os fs g prefix_dir p v short e =
    let marked : IsValid (record p { last_good = pos 1 }) = record {
      name = v.name;
      gfx = v.gfx;
      audio = v.audio;
      dlls = v.dlls;
      mode = v.mode;
      sync = v.sync;
      shaders = v.shaders;
      good = omega arith;
    } in
    load-save_profile os fs g prefix_dir (record p { last_good = pos 1 }) marked short e
