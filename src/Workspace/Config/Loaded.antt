-- ===== src/Workspace/Config/Loaded.antt =====
-- What `cellar_workspace_load` returns is well-formed, whatever the file holds.
use fantastic_octo_meme.Prelude.{
  subst, ℕ, ◌<◌, ◌≡◌, Bool, true, ◌&&◌, ◌∷◌, take, Bool-cases, Option-cases, inl, inr, ap, sym,
  arith, Option, none, some,
}
use fantastic_octo_meme.Memory.{Bytes}
use fantastic_octo_meme.Status.{Status}
use fantastic_octo_meme.Util.{joined}
use fantastic_octo_meme.Text.{codes, lacks, newline}
use fantastic_octo_meme.Text.Number.{pos}
use fantastic_octo_meme.Conf.{buffered, field_int}
use fantastic_octo_meme.Conf.Back.{lacks-append}
use fantastic_octo_meme.Conf.Read.{
  lacks-take, field_text-fits, field_int-IsInt, field_u64-small, clip-fits_one_line, low_word-small,
}
use fantastic_octo_meme.Files.{FileSystem}
use fantastic_octo_meme.Workspace.{Workspace, valid_name, ws_dir}
use fantastic_octo_meme.Workspace.Config.{from_text, app_conf, load}
use fantastic_octo_meme.Workspace.Config.Saved.{IsValid}

-- A text that names a file in one line.
abbrev pub one_line : Bytes → Bool
one_line s = lacks newline s && lacks 0 s

from_text-IsValid :
    (name ws bytes : Bytes)
    → one_line name ≡ true
    → one_line ws ≡ true
    → IsValid (from_text name ws (buffered 16384 bytes))
unfolding from_text
from_text-IsValid name ws bytes named at =
    let buf = buffered 16384 bytes in
    let text = λ (key : Bytes) (cap : ℕ) (h : 0 < cap). field_text-fits cap 16384 key bytes h in
    record {
      name_fits = clip-fits_one_line 64 name (omega arith) (ground arith) (ground arith);
      path_fits = clip-fits_one_line 640 ws (omega arith) (ground arith) (ground arith);
      id_fits = text (codes "id") 32 (omega arith);
      setup_label_fits = text (codes "setup_label") 24 (omega arith);
      source_fits = text (codes "source") 512 (omega arith);
      executable_fits = text (codes "executable") 512 (omega arith);
      architecture_fits = text (codes "architecture") 16 (omega arith);
      runner_fits = text (codes "runner") 64 (omega arith);
      gfx_backend_fits = text (codes "gfx_backend") 32 (omega arith);
      audio_backend_fits = text (codes "audio_backend") 32 (omega arith);
      dll_overrides_fits = text (codes "dll_overrides") 512 (omega arith);
      dependencies_fits = text (codes "dependencies") 256 (omega arith);
      tags_fits = text (codes "tags") 256 (omega arith);
      installed_at_fits = text (codes "installed_at") 40 (omega arith);
      last_launch_fits = text (codes "last_launch") 40 (omega arith);
      exe_hash_fits = text (codes "exe_hash") 40 (omega arith);
      compat_rating_fits = text (codes "compat_rating") 16 (omega arith);
      controls_fits = text (codes "controls") 128 (omega arith);
      setup_is = field_int-IsInt buf (codes "setup") (pos 0) (omega arith);
      windows_version_is = field_int-IsInt buf (codes "windows_version") (pos 2) (omega arith);
      favorite_is = field_int-IsInt buf (codes "favorite") (pos 0) (omega arith);
      has_shortcut_is = field_int-IsInt buf (codes "has_shortcut") (pos 0) (omega arith);
      perf_mode_is = field_int-IsInt buf (codes "perf_mode") (pos 0) (omega arith);
      virtual_desktop_is = field_int-IsInt buf (codes "virtual_desktop") (pos 0) (omega arith);
      sandbox_enabled_is = field_int-IsInt buf (codes "sandbox_enabled") (pos 1) (omega arith);
      resolution_width_is = low_word-small (field_int buf (codes "resolution_width") (pos 1280));
      resolution_height_is = low_word-small (field_int buf (codes "resolution_height") (pos 720));
      dpi_is = low_word-small (field_int buf (codes "dpi") (pos 96));
      permissions_is = omega arith;
      install_size_is = field_u64-small buf (codes "install_size") 0 (omega arith);
    }

joined-one_line :
    (a b : Bytes) → one_line a ≡ true → one_line b ≡ true → one_line (joined a b) ≡ true
unfolding joined
joined-one_line a b h g = ground (
  arith,
  lacks-append newline a b,
  lacks-append 0 a b,
  lacks-append newline a (b'/' ∷ b),
  lacks-append 0 a (b'/' ∷ b),
)

one_line-take : (n : ℕ) (s : Bytes) → one_line s ≡ true → one_line (take n s) ≡ true
one_line-take n s h = ground (arith, lacks-take newline n s, lacks-take 0 n s)

ws_dir-one_line :
    (root name : Bytes)
    → one_line root ≡ true
    → one_line name ≡ true
    → one_line (ws_dir (some root) (some name)) ≡ true
ws_dir-one_line root name r n = one_line-take 639 (joined root name) (joined-one_line root name r n)

abbrev value_or : {A : Type 0} → A → Option A → A
value_or a none = a
value_or a (some b) = b

module _ {F : Type 0} (os : FileSystem F) where
  -- What `load` read if it returned a workspace.
  pub load_from :
      (fs : F) (root name : Bytes) (w : Workspace)
      → load os fs (some root) (some name) ≡ (Status.ok, some w)
      → {C : Type 0}
      → ((bytes : Bytes)
          → valid_name (some name) ≡ true
          → w ≡ from_text name (ws_dir (some root) (some name)) (buffered 16384 bytes)
          → C)
      → C
  unfolding load
  load_from fs root name w e k = elim (Bool-cases (valid_name (some name))) [
    | inl valid ↦ elim (Option-cases (os.read fs (app_conf (ws_dir (some root) (some name))))) [
      | inl missing ↦ let e' = rw (valid, missing) at e in absurd (cc)
      | inr (bytes, there) ↦
          let e' = rw (valid, there) at e in k bytes valid (sym (ap (λ t. value_or w t.1) e'))
    ]
    | inr wrong ↦ let e' = rw wrong at e in absurd (cc)
  ]

  -- Whatever its file holds, a workspace that is loaded for a root and a name on one line has
  -- texts on one line that fit into their arrays, and numbers of their types.
  pub load-IsValid :
      (fs : F) (root name : Bytes) (w : Workspace)
      → one_line root ≡ true
      → one_line name ≡ true
      → load os fs (some root) (some name) ≡ (Status.ok, some w)
      → IsValid w
  load-IsValid fs root name w r n e = load_from fs root name w e λ bytes valid is.
      subst IsValid (sym is) (
        from_text-IsValid name (ws_dir (some root) (some name)) bytes n
          (ws_dir-one_line root name r n))
