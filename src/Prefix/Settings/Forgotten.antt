-- ===== src/Prefix/Settings/Forgotten.antt =====
-- What `cellar_prefix_set_config` leaves of the settings.
use fantastic_octo_meme.Prelude.{
  ℕ, ◌-◌, ◌<◌, ◌≡◌, ◌∙◌, Bool, true, false, ◌||◌, [], ◌∷◌, ◌++◌, length, Option, none, some, refl,
  ap, arith, Bool-cases, Option-cases, inl, inr,
}
use fantastic_octo_meme.Memory.{Bytes}
use fantastic_octo_meme.Status.{Status}
use fantastic_octo_meme.Text.{codes, newline, clip, lacks, Lacks, same_text}
use fantastic_octo_meme.Text.Number.{ℤ, print_int}
use fantastic_octo_meme.Conf.{buffered, or_empty, line, line_of, render, Fields}
use fantastic_octo_meme.Conf.Lookup.{is_key, value_of, lacks→Lacks, Lacks-append, line-append}
use fantastic_octo_meme.Conf.Back.{
  ◌&◌, fits, take-all, keys_ok, AllFit, length-render, lacks-render, print_int-fits,
  length-print_int, fits-wider, fits-length,
}
use fantastic_octo_meme.Conf.Read.{lacks-c_str, lacks-line_of, zero-line_of, clip-fits_one_line}
use fantastic_octo_meme.Files.{FileSystem, stored-ok}
use fantastic_octo_meme.Prefix.{PrefixInfo, prefix_path, conf_path}
use fantastic_octo_meme.Prefix.Config.{
  prefix_info, found, set_config, write_conf, write_conf_full, read_conf, conf_from, conf_fields,
  find_behind, behind, kept_line, given_or,
}
use fantastic_octo_meme.Prefix.Settings.{lines_of, setting, get_setting}
use fantastic_octo_meme.Prefix.Settings.Lines.{lines_of-line, field_at-new}
use fantastic_octo_meme.Prefix.Settings.Kept.{buffered-short, get_setting-read}

key-parts : (k : Bytes) → is_key k ≡ true → (lacks b'=' k ≡ true) × (lacks newline k ≡ true)
key-parts [] h = absurd (cc)
key-parts (c ∷ k) h = (ground arith, ground arith)

-- A line-by-line file, under a key.
setting-render :
    (size : ℕ) (key : Bytes) (fs : Fields)
    → lacks b'=' key ≡ true
    → keys_ok fs ≡ true
    → AllFit size fs
    → setting key (lines_of (render fs)) ≡ value_of key fs
unfolding setting lines_of
setting-render size key [] h ok fit = refl
setting-render size key ((k, v) ∷ fs) h ok (f, fit) =
    let l = k ++ b'=' ∷ v in
    let is : is_key k ≡ true = ground arith in
    let no_sign : lacks b'=' k ≡ true = (key-parts k is).0 in
    let one : Lacks newline l =
      Lacks-append newline k (b'=' ∷ v) (lacks→Lacks newline k (key-parts k is).1)
        ((λ x. absurd (omega arith)), lacks→Lacks newline v (ground arith)) in
    let shape : line k v ++ render fs ≡ l ++ newline ∷ render fs = line-append k v (render fs) in
    let ih = setting-render size key fs h (ground arith) fit in
    rw (shape, lines_of-line l (render fs) one) (ground (arith, field_at-new key k v h no_sign, ih))

lacks-behind : (key s t : Bytes) → lacks 0 s ≡ true → behind key s ≡ some t → lacks 0 t ≡ true
lacks-behind [] s t h e = ground (arith, h)
lacks-behind (k ∷ key) [] t h e = absurd (cc)
lacks-behind (k ∷ key) (c ∷ s) t h e = ground (arith, lacks-behind key s t)

lacks-find_behind :
    (key s t : Bytes) → lacks 0 s ≡ true → find_behind key s ≡ some t → lacks 0 t ≡ true
unfolding find_behind
lacks-find_behind key [] t h e = lacks-behind key [] t h e
lacks-find_behind key (c ∷ s) t h e = elim (Option-cases (behind key (c ∷ s))) [
  | inl later ↦ lacks-find_behind key s t (ground arith) (ground (arith, later, e))
  | inr (u, here) ↦ lacks-behind key (c ∷ s) t h (ground (arith, here, e))
]

-- A field that `read_conf` reads stands on one line.
kept_line-fits :
    (default key buf : Bytes) (n : ℕ)
    → 0 < n
    → lacks 0 buf ≡ true
    → fits n default ≡ true
    → fits n (kept_line default n (find_behind key buf)) ≡ true
kept_line-fits default key buf n pos h d = elim (Option-cases (find_behind key buf)) [
  | inl e ↦ rw e d
  | inr (t, e) ↦ rw e (
      clip-fits_one_line n (line_of t) pos (lacks-line_of t)
        (zero-line_of t (lacks-find_behind key buf t h e)))
]

-- A text that is given, or the default, on one line of less than 512 bytes.
abbrev pub short_text : Option Bytes → Bool
short_text none = true
short_text (some s) = fits 512 s

given_or-fits :
    (default : Bytes) (o : Option Bytes)
    → fits 512 default ≡ true
    → short_text o ≡ true
    → fits 512 (given_or default o) ≡ true
given_or-fits default none d h = d
given_or-fits default (some s) d h = h

-- The keys of `prefix.conf` that `cellar_prefix_set_config` writes.
abbrev pub is_own : Bytes → Bool
is_own key =
    same_text key (codes "version_mode")
    || same_text key (codes "gfx")
    || same_text key (codes "audio")
    || same_text key (codes "arch")
    || same_text key (codes "runner")

module _ (mode : ℤ) (gfx audio : Option Bytes) (arch runner : Bytes) (g : short_text gfx ≡ true)
    (a : short_text audio ≡ true) (ar : fits 8 arch ≡ true) (r : fits 32 runner ≡ true) where
  abbrev fs : Fields
  fs = conf_fields mode gfx audio (some arch) (some runner)

  fs-AllFit : AllFit 512 fs
  fs-AllFit =
      fits-wider 64 512 (print_int mode) (omega arith) (print_int-fits mode)
      & given_or-fits (codes "Vulkan") gfx refl g
      & given_or-fits (codes "ALSA") audio refl a
      & fits-wider 8 512 arch (omega arith) ar
      & fits-wider 32 512 runner (omega arith) r
      & tt

  fs-short : length (render fs) < 2048
  fs-short = omega (
    arith,
    length-render fs,
    length-print_int mode,
    fits-length 512 (given_or (codes "Vulkan") gfx) (given_or-fits (codes "Vulkan") gfx refl g),
    fits-length 512 (given_or (codes "ALSA") audio) (given_or-fits (codes "ALSA") audio refl a),
    fits-length 8 arch ar,
    fits-length 32 runner r,
  )

  not_own : (key : Bytes) → is_own key ≡ false → value_of key fs ≡ none
  not_own key h = ground arith

  nothing_else :
      (key : Bytes)
      → lacks b'=' key ≡ true
      → is_own key ≡ false
      → setting key (lines_of (buffered 2048 (render fs))) ≡ none
  nothing_else key h own =
      rw (buffered-short 2048 (render fs) (lacks-render 512 fs refl fs-AllFit) fs-short)
        (setting-render 512 key fs h refl fs-AllFit ∙ not_own key own)

module _ {F : Type 0} (os : FileSystem F) (is_dir : F → Bytes → Bool) where
  -- `cellar_prefix_set_config` writes the file anew, with its own five keys: once it returned
  -- `CELLAR_OK`, every other setting is empty, whatever the file held before. The key has no equals
  -- sign, and the two texts stand on one line of less than 512 bytes.
  pub config_forgets :
      (junk : PrefixInfo) (fs g : F) (root name gfx audio : Option Bytes) (mode : ℤ)
      (key bytes : Bytes) (size : ℕ)
      → set_config os is_dir junk fs root name mode gfx audio ≡ (Status.ok, g)
      → found (prefix_info os is_dir g root name) ≡ true
      → os.read fs (conf_path (prefix_path 640 root name)) ≡ some bytes
      → 0 < size
      → short_text gfx ≡ true
      → short_text audio ≡ true
      → lacks b'=' key ≡ true
      → is_own key ≡ false
      → get_setting os is_dir g root name (some key) size ≡ (Status.ok, some [])
  unfolding set_config write_conf write_conf_full read_conf conf_from
  config_forgets junk fs g root name gfx audio mode key bytes size e there read pos gf au k own =
      let bottle = prefix_path 640 root name in
      elim (Bool-cases (found (prefix_info os is_dir fs root name))) [
        | inr refused ↦ let e' = rw refused at e in absurd (cc)
        | inl asked ↦
            let e' = rw (asked, read) at e in
            let buf = buffered 1024 bytes in
            let clean : lacks 0 buf ≡ true = lacks-c_str (clip 1024 bytes) in
            let arch = kept_line (codes "win64") 8 (find_behind (codes "arch=") buf) in
            let runner = kept_line (codes "stable") 32 (find_behind (codes "runner=") buf) in
            let arch_fits =
              kept_line-fits (codes "win64") (codes "arch=") buf 8 (omega arith) clean refl in
            let runner_fits =
              kept_line-fits (codes "stable") (codes "runner=") buf 32 (omega arith) clean refl in
            let after = render (conf_fields mode gfx audio (some arch) (some runner)) in
            let back =
              os.read-write fs g (conf_path bottle) after
                (stored-ok fs g (os.write fs (conf_path bottle) after) e') in
            get_setting-read os is_dir g root name key after size pos there back
            ∙ ap (λ v. (Status.ok, some (clip size (or_empty v))))
                (nothing_else mode gfx audio arch runner gf au arch_fits runner_fits key k own)
            ∙ ap (λ t. (Status.ok, some t)) (take-all (size - 1) [] (omega arith))
      ]
