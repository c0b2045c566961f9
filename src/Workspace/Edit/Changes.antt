-- ===== src/Workspace/Edit/Changes.antt =====
-- A change to a workspace is what the next load shows.
use fantastic_octo_meme.Prelude.{
  ◌||◌, ℕ, ◌^◌, ◌<◌, ◌≡◌, ◌∙◌, true, false, length, ◌==◌, Bool-cases, inl, inr, refl, ap, sym,
  Option, none, some,
}
use fantastic_octo_meme.Memory.{Bytes}
use fantastic_octo_meme.Status.{Status, err_invalid_argument, is_ok, is_ok-true}
use fantastic_octo_meme.Text.{codes, clip, same_text}
use fantastic_octo_meme.Text.Number.{ℤ}
use fantastic_octo_meme.Files.{FileSystem}
use fantastic_octo_meme.Workspace.{Workspace, valid_name, ws_dir, set_field}
use fantastic_octo_meme.Workspace.Config.{label, from_text, load}
use fantastic_octo_meme.Workspace.Config.Saved.{IsValid}
use fantastic_octo_meme.Workspace.Config.RoundTrip.{reloaded, load-save, ws_dir-clip}
use fantastic_octo_meme.Workspace.Config.Loaded.{one_line, load_from, load-IsValid}
use fantastic_octo_meme.Conf.{or_empty}
use fantastic_octo_meme.Workspace.Edit.Keys.{
  relabelled, Key, spelled, shown, meant, without, all_keys, one_of, edit-unknown, spelled-other,
  length-spelled, edit-Key,
}
use fantastic_octo_meme.Workspace.Edit.Valid.{edit-IsValid, resized-IsValid}
use fantastic_octo_meme.Workspace.Edit.Kept.{edit-named}
use fantastic_octo_meme.Workspace.Edit.{
  resized, edit, save_if, then_save, update, set, set_resolution,
}

module _ {F : Type 0} (os : FileSystem F) (getenv : Bytes → Option Bytes) (root name : Bytes) where
  -- The name and the path of a workspace that was loaded.
  load-path :
      (fs : F) (w : Workspace)
      → load os fs (some root) (some name) ≡ (Status.ok, some w)
      → (valid_name (some name) ≡ true)
        × (w.name ≡ clip 64 name)
        × (w.path ≡ ws_dir (some root) (some name))
  unfolding from_text
  load-path fs w e =
      load_from os fs root name w e
        λ bytes valid is. (valid, ap (λ v. v.name) is, ap (λ v. v.path) is ∙ ws_dir-clip root name)

  -- After a change that was saved with `CELLAR_OK`, the workspace is loaded as the change left it.
  load-update :
      (fs g : F) (change : Workspace → Option Workspace) (w v : Workspace)
      → load os fs (some root) (some name) ≡ (Status.ok, some w)
      → change w ≡ some v
      → IsValid v
      → v.path ≡ w.path
      → update os getenv fs (some root) (some name) change ≡ (Status.ok, g)
      → load os g (some root) (some name) ≡ (Status.ok, some (reloaded v name))
  unfolding update
  load-update fs g change w v e c valid same u =
      let (named, at_name, at_dir) = load-path fs w e in
      load-save os getenv root name named fs g v valid (same ∙ at_dir)
        (sym (ap (save_if os getenv fs) c) ∙ ap (then_save os getenv fs change) (sym e) ∙ u)

  -- The same for a change that keeps the name.
  load-update_kept :
      (fs g : F) (change : Workspace → Option Workspace) (w v : Workspace)
      → load os fs (some root) (some name) ≡ (Status.ok, some w)
      → change w ≡ some v
      → IsValid v
      → v.path ≡ w.path
      → v.name ≡ w.name
      → update os getenv fs (some root) (some name) change ≡ (Status.ok, g)
      → load os g (some root) (some name) ≡ (Status.ok, some (relabelled v))
  load-update_kept fs g change w v e c valid same kept u =
      let (named, at_name, at_dir) = load-path fs w e in
      load-update fs g change w v e c valid same u ∙ λ i.
      (Status.ok, some (record v { name = (sym at_name ∙ sym kept) i; setup_label = label v }))

  -- If `cellar_workspace_set_resolution` returns `CELLAR_OK` for a workspace that could be loaded,
  -- the next load returns that workspace with the new numbers, 1 for a virtual desktop that is not
  -- 0, and the name of the kind for a label that is empty. The root and the name stand on one line,
  -- and the numbers have 32 bits; the file may hold anything.
  pub load-set_resolution :
      (fs g : F) (w : Workspace) (width height dpi : ℕ) (virtual_desktop : ℤ)
      → one_line root ≡ true
      → one_line name ≡ true
      → width < 2 ^ 32
      → height < 2 ^ 32
      → dpi < 2 ^ 32
      → load os fs (some root) (some name) ≡ (Status.ok, some w)
      → set_resolution os getenv fs (some root) (some name) width height dpi virtual_desktop
        ≡ (Status.ok, g)
      → load os g (some root) (some name)
        ≡ (Status.ok, some (relabelled (resized w width height dpi virtual_desktop)))
  unfolding set_resolution
  load-set_resolution fs g w width height dpi vd r n small_w small_h small_d e u =
      let v = resized w width height dpi vd in
      let valid =
        resized-IsValid w width height dpi vd (load-IsValid os fs root name w r n e) small_w small_h
          small_d in
      elim (Bool-cases (width == 0 || height == 0 || dpi == 0)) [
        | inl none_given ↦ let u' = rw none_given at u in absurd (cc)
        | inr given ↦
            let u' = rw given at u in
            load-update_kept fs g (λ w. some (resized w width height dpi vd)) w v e refl valid refl
              refl u'
      ]

  -- If `cellar_workspace_set` returns `CELLAR_OK` for a workspace that could be loaded and one of
  -- the sixteen keys other than "name", the next load returns a workspace whose field of that key,
  -- as `shown` names it, is what the value means: a text clipped to its array, a Windows version, or
  -- the flag of a number. In all else it is the workspace of before, with the name of the kind for a
  -- label that is empty. The root, the name and the value stand on one line; the file may hold
  -- anything.
  pub load-set :
      (fs g : F) (w : Workspace) (k : Key) (value : Option Bytes)
      → one_line root ≡ true
      → one_line name ≡ true
      → one_line (or_empty value) ≡ true
      → load os fs (some root) (some name) ≡ (Status.ok, some w)
      → set os getenv fs (some root) (some name) (some (spelled k)) value ≡ (Status.ok, g)
      → (u : Workspace) × (load os g (some root) (some name) ≡ (Status.ok, some u))
        × (shown k u ≡ meant k value)
        × (without k u ≡ without k (relabelled w))
  unfolding set
  load-set fs g w k value r n one e u =
      let key = spelled k in
      let (v, c, is, others) = edit-Key k w value in
      let (named, placed) = edit-named w v key value (spelled-other k) c in
      let valid = edit-IsValid w v key value (load-IsValid os fs root name w r n e) one c in
      let given : (length key == 0) ≡ false = length-spelled k in
      let u' = rw given at u in
      (
        relabelled v,
        load-update_kept fs g (λ w. edit w key value) w v e c valid placed named u',
        is,
        others,
      )

  -- A new name for a workspace is not seen by the next load, which takes the name from its caller:
  -- if `cellar_workspace_set` stores one with `CELLAR_OK`, the next load returns the workspace with
  -- its old name. The root, the name and the new name stand on one line.
  pub load-set_name :
      (fs g : F) (w : Workspace) (value : Option Bytes)
      → one_line root ≡ true
      → one_line name ≡ true
      → one_line (or_empty value) ≡ true
      → load os fs (some root) (some name) ≡ (Status.ok, some w)
      → set os getenv fs (some root) (some name) (some (codes "name")) value ≡ (Status.ok, g)
      → load os g (some root) (some name) ≡ (Status.ok, some (relabelled w))
  unfolding set edit same_text
  load-set_name fs g w value r n one e u =
      let (named, at_name, at_dir) = load-path fs w e in
      let before = load-IsValid os fs root name w r n e in
      let valid =
        edit-IsValid w (record w { name = set_field 64 value }) (codes "name") value before one
          refl in
      load-update fs g (λ w. edit w (codes "name") value) w (record w { name = set_field 64 value })
        e refl valid refl u
      ∙ λ i. (Status.ok, some (record w { name = sym at_name i; setup_label = label w }))

  update_refused :
      (fs : F) (change : Workspace → Option Workspace)
      → ((w : Workspace)
          → load os fs (some root) (some name) ≡ (Status.ok, some w)
          → change w ≡ none)
      → update os getenv fs (some root) (some name) change ≡ (err_invalid_argument, fs)
  unfolding update
  update_refused fs change h = then_save_refused (load os fs (some root) (some name)) h
    where
      then_save_refused :
          (r : Status × Option Workspace)
          → ((w : Workspace) → r ≡ (Status.ok, some w) → change w ≡ none)
          → then_save os getenv fs change r ≡ (err_invalid_argument, fs)
      then_save_refused (st, none) k = refl
      then_save_refused (st, some w) k = elim (Bool-cases (is_ok st)) [
        | inl fine ↦ rw (fine, k w (λ i. (is_ok-true st fine i, some w))) refl
        | inr wrong ↦ rw wrong refl
      ]

  -- For a key that is none of the seventeen that it knows, an empty one or none, and without a
  -- workspace that can be loaded, `cellar_workspace_set` returns an error and changes no file.
  pub set_refused :
      (fs : F) (key value : Option Bytes)
      → ((w : Workspace) (k : Bytes)
          → load os fs (some root) (some name) ≡ (Status.ok, some w)
          → key ≡ some k
          → one_of k all_keys ≡ false)
      → set os getenv fs (some root) (some name) key value ≡ (err_invalid_argument, fs)
  unfolding set
  set_refused fs none value h = refl
  set_refused fs (some key) value h = elim (Bool-cases (length key == 0)) [
    | inl empty ↦ rw (empty, set) refl
    | inr given ↦
        rw (given, set)
          (update_refused fs (λ w. edit w key value)
            (λ w e. edit-unknown w key value (h w key e refl)))
  ]
