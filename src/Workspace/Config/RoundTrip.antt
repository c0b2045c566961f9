-- ===== src/Workspace/Config/RoundTrip.antt =====
-- `cellar_workspace_load` after `cellar_workspace_save`.
use fantastic_octo_meme.Prelude.{
  ◌<◌, ◌≡◌, ◌∙◌, true, false, length, length-take, ◌==◌, Bool-cases, inl, inr, refl, ap, sym, arith,
  Option, some,
}
use fantastic_octo_meme.Memory.{Bytes}
use fantastic_octo_meme.Status.{Status}
use fantastic_octo_meme.Util.{joined}
use fantastic_octo_meme.Util.Paths.{length-joined}
use fantastic_octo_meme.Text.{clip}
use fantastic_octo_meme.Conf.{buffered}
use fantastic_octo_meme.Conf.Back.{take-all}
use fantastic_octo_meme.Files.{FileSystem, stored-ok, mkdir_p}
use fantastic_octo_meme.Workspace.{Workspace, valid_name, ws_dir}
use fantastic_octo_meme.Workspace.Config.{label, content, from_text, app_conf, load, save}
use fantastic_octo_meme.Workspace.Config.Saved.{IsValid, renamed, from_text-document}

-- The directory of a workspace is not the empty path, and stays as it is in its array.
ws_dir-HasName :
    (root name : Bytes)
    → valid_name (some name) ≡ true
    → 0 < length (ws_dir (some root) (some name))
ws_dir-HasName root name h =
    let named : 0 < length name = ground arith in
    omega (arith, length-take 639 (joined root name), length-joined root name)

pub ws_dir-clip :
    (root name : Bytes) → clip 640 (ws_dir (some root) (some name)) ≡ ws_dir (some root) (some name)
ws_dir-clip root name =
    take-all 639 (ws_dir (some root) (some name))
      (omega (arith, length-take 639 (joined root name)))

-- What is loaded after a workspace was saved under a name.
abbrev pub reloaded : Workspace → Bytes → Workspace
reloaded w name = record w { name = clip 64 name; setup_label = label w }

module _ {F : Type 0} (os : FileSystem F) (getenv : Bytes → Option Bytes) (root name : Bytes)
    (valid : valid_name (some name) ≡ true) where
  -- What `save` did if it returned `CELLAR_OK`.
  saved :
      (fs g : F) (w : Workspace)
      → 0 < length w.path
      → (save os getenv fs w).0 ≡ (Status.ok, g)
      → {C : Type 0} → ((before : F) → os.write before (app_conf w.path) (content w) ≡ some g → C)
      → C
  unfolding save
  saved fs g w placed e k =
      let at_path : (length w.path == 0) ≡ false = ground arith in
      let before = (mkdir_p os fs w.path).0 in
      let e' = rw (at_path) at e in
      elim (Bool-cases (length w.name == 0)) [
        | inl empty ↦ let e'' = rw (empty) at e' in absurd (cc)
        | inr named ↦
            let e'' = rw (named) at e' in
            k before (stored-ok before g (os.write before (app_conf w.path) (content w)) e'')
      ]

  load_found :
      (g : F) (bytes : Bytes)
      → os.read g (app_conf (ws_dir (some root) (some name))) ≡ some bytes
      → load os g (some root) (some name)
        ≡ (Status.ok, some (from_text name (ws_dir (some root) (some name)) (buffered 16384 bytes)))
  unfolding load
  load_found g bytes e = rw (valid, e, load) refl

  -- A valid workspace in the directory of a name that `cellar_workspace_save` stored with
  -- `CELLAR_OK` is what `cellar_workspace_load` then returns for the name, up to what the file
  -- does not keep: its name is the name of the call, and an empty label is the name of the kind.
  pub load-save :
      (fs g : F) (w : Workspace)
      → IsValid w
      → w.path ≡ ws_dir (some root) (some name)
      → (save os getenv fs w).0 ≡ (Status.ok, g)
      → load os g (some root) (some name) ≡ (Status.ok, some (reloaded w name))
  unfolding load
  load-save fs g w v at_dir e =
      let placed : 0 < length w.path = rw at_dir (ws_dir-HasName root name valid) in
      let same : renamed w name (ws_dir (some root) (some name)) ≡ reloaded w name = λ i. record w {
        name = clip 64 name;
        path = (ws_dir-clip root name ∙ sym at_dir) i;
        setup_label = label w;
      } in
      saved fs g w placed e λ before written.
        let back =
          ap (λ p. os.read g (app_conf p)) (sym at_dir)
          ∙ os.read-write before g (app_conf w.path) (content w) written in
        load_found g (content w) back
        ∙ ap (λ x. (Status.ok, some x))
            (from_text-document w name (ws_dir (some root) (some name)) v ∙ same)
