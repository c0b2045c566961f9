-- ===== src/Prefix/Config/Created.antt =====
-- What `cellar_prefix_info` says of a bottle that was made.
use fantastic_octo_meme.Prelude.{
  ◌≡◌, ◌∙◌, ap, sym, refl, Bool, true, false, Bool-cases, inl, inr, Option, none, some,
  if◌then◌else◌, ◌⊎◌,
}
use fantastic_octo_meme.Memory.{Bytes}
use fantastic_octo_meme.Status.{Status, is_ok}
use fantastic_octo_meme.Text.{codes}
use fantastic_octo_meme.Text.Decimal.{decimal, digits_from}
use fantastic_octo_meme.Text.Number.{pos, atoi, read_digits}
use fantastic_octo_meme.Conf.{render, line_of, buffered}
use fantastic_octo_meme.Files.{FileSystem, stored-ok, mkdir_p}
use fantastic_octo_meme.Shell.{Shell, shell_init, ensure_dirs}
use fantastic_octo_meme.Workspace.{valid_name}
use fantastic_octo_meme.Prefix.{PrefixInfo, prefix_path, conf_path}
use fantastic_octo_meme.Prefix.Config.{
  conf_fields, conf_from, chosen_arch, write_conf_full, read_conf, finished, with_shell,
  create_arch, named, prefix_info,
}

-- What a new bottle is configured as.
abbrev pub as_made : Option Bytes → PrefixInfo → PrefixInfo
as_made arch out = record out {
  version_mode = pos 2;
  gfx = codes "Vulkan";
  audio = codes "ALSA";
  arch = chosen_arch arch;
  runner = codes "stable";
}

abbrev new_conf : Bytes → Bytes
new_conf arch = render (
    conf_fields (pos 2) (some (codes "Vulkan")) (some (codes "ALSA")) (some arch)
      (some (codes "stable")))

one_of : (b : Bool) (x y : Bytes) → ((if b then x else y) ≡ x) ⊎ ((if b then x else y) ≡ y)
one_of true x y = inl refl
one_of false x y = inr refl

chosen_arch-cases :
    (arch : Option Bytes) → (chosen_arch arch ≡ codes "win32") ⊎ (chosen_arch arch ≡ codes "win64")
chosen_arch-cases none = inr refl
chosen_arch-cases (some arch) = one_of _ (codes "win32") (codes "win64")

conf_from-win32 :
    (out : PrefixInfo)
    → conf_from out (buffered 1024 (new_conf (codes "win32")))
      ≡ record (as_made none out) { arch = codes "win32" }
unfolding conf_from line_of decimal digits_from atoi read_digits
conf_from-win32 out = refl

conf_from-win64 :
    (out : PrefixInfo)
    → conf_from out (buffered 1024 (new_conf (codes "win64")))
      ≡ record (as_made none out) { arch = codes "win64" }
unfolding conf_from line_of decimal digits_from atoi read_digits
conf_from-win64 out = refl

conf_from-new :
    (arch : Option Bytes) (out : PrefixInfo)
    → conf_from out (buffered 1024 (new_conf (chosen_arch arch))) ≡ as_made arch out
conf_from-new arch out =
    let with = λ (a : Bytes). record (as_made none out) { arch = a } in
    elim (chosen_arch-cases arch) [
      | inl e ↦
          ap (λ a. conf_from out (buffered 1024 (new_conf a))) e
          ∙ conf_from-win32 out
          ∙ sym (ap with e)
      | inr e ↦
          ap (λ a. conf_from out (buffered 1024 (new_conf a))) e
          ∙ conf_from-win64 out
          ∙ sym (ap with e)
    ]

module _ {F : Type 0} (os : FileSystem F) where
  -- What is read of a bottle whose making ended well.
  finished-read :
      (fs g : F) (bottle : Bytes) (arch : Option Bytes) (out : PrefixInfo)
      → finished os fs bottle arch ≡ (Status.ok, g)
      → read_conf os g bottle out ≡ as_made arch out
  unfolding write_conf_full read_conf
  finished-read fs g bottle arch out e =
      let written = stored-ok _ g _ e in
      let there = os.read-write _ g (conf_path bottle) (new_conf (chosen_arch arch)) written in
      rw (there, read_conf) (conf_from-new arch out)

  with_shell-read :
      (fs g : F) (sh sh' : Shell) (bottle : Bytes) (arch : Option Bytes) (out : PrefixInfo)
      → with_shell os fs sh bottle arch ≡ ((Status.ok, g), sh')
      → read_conf os g bottle out ≡ as_made arch out
  with_shell-read fs g sh sh' bottle arch out e =
      let shell = shell_init sh (some bottle) in
      let dirs = ensure_dirs os fs shell.1 in
      elim (Bool-cases (is_ok shell.0)) [
        | inl bound ↦ elim (Bool-cases (is_ok dirs.0)) [
          | inl made ↦
              finished-read dirs.1 g bottle arch out
                (ap (λ t. t.0) (let e' = rw (bound, made) at e in e'))
          | inr failed ↦ let e' = rw (bound, failed) at e in absurd (cc)
        ]
        | inr failed ↦ let e' = rw failed at e in absurd (cc)
      ]

  module _ (is_dir : F → Bytes → Bool) where
    -- After `cellar_prefix_create_arch` returned `CELLAR_OK`, `cellar_prefix_info` of a folder that
    -- is there gives the Windows version 10, Vulkan, ALSA, the stable runner and the architecture
    -- that was chosen: "win32" for a text that begins so, up to case, and else "win64".
    pub info-create :
        (fs g : F) (sh sh' : Shell) (root name : Bytes) (arch : Option Bytes)
        → create_arch os fs sh (some root) (some name) arch ≡ ((Status.ok, g), sh')
        → is_dir g (prefix_path 640 (some root) (some name)) ≡ true
        → prefix_info os is_dir g (some root) (some name)
          ≡ (Status.ok, some (as_made arch (named os is_dir g root name)))
    unfolding create_arch prefix_info
    info-create fs g sh sh' root name arch e there =
        let bottle = prefix_path 640 (some root) (some name) in
        let made = mkdir_p os (mkdir_p os fs root).0 bottle in
        elim (Bool-cases (valid_name (some name))) [
          | inl valid ↦ elim (Bool-cases made.1) [
            | inl dir ↦
                let e' = rw (valid, dir) at e in
                let out = named os is_dir g root name in
                let back = with_shell-read made.0 g sh sh' bottle arch out e' in
                rw (valid, there) (ap (λ i. (Status.ok, some i)) (rw (sym there) back))
            | inr failed ↦ let e' = rw (valid, failed) at e in absurd (cc)
          ]
          | inr wrong ↦ let e' = rw wrong at e in absurd (cc)
        ]
