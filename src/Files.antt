-- ===== src/Files.antt =====
-- The file system, as the sources use it through the C library, and `cellar_mkdir_p` of
-- src/loader/cellar_util.c.
use fantastic_octo_meme.Prelude.{
  ◌≡◌, ap, Bool, true, false, [], ◌∷◌, ◌++◌, ◌==◌, Option, none, some, if◌then◌else◌,
}
use fantastic_octo_meme.Memory.{Bytes}
use fantastic_octo_meme.Status.{Status, err_invalid_argument}
use fantastic_octo_meme.Text.{clip}

-- The calls on a path, over the states `F` of the file system: the bytes that `fopen(path, "rb")`
-- and `fread` give, the state after `fopen(path, "w")`, the writes and `fclose`, both `none` where
-- the file cannot be opened, and `mkdir` with whether it returned 0 or found the name taken. A
-- file that was written is read back.
pub record FileSystem (F : Type 0) : Type 0 where
  pub read : F → Bytes → Option Bytes
  pub write : F → Bytes → Bytes → Option F
  pub mkdir : F → Bytes → F × Bool
  pub read-write :
      (f g : F) (path content : Bytes) → write f path content ≡ some g → read g path ≡ some content

-- What follows `fopen` for writing: `CELLAR_ERR_INVALID_ARGUMENT` if it failed.
abbrev pub stored : {F : Type 0} → F → Option F → Status × F
stored fs none = (err_invalid_argument, fs)
stored fs (some g) = (Status.ok, g)

-- If the status is `CELLAR_OK`, the file was written.
pub stored-ok : {F : Type 0} → (fs g : F) (o : Option F) → stored fs o ≡ (Status.ok, g) → o ≡ some g
stored-ok fs g none e = absurd (cc)
stored-ok fs g (some h) e = ap some (ap (λ t. t.1) e)

-- The slashes at the end are cut off.
abbrev pub trim_slashes : Bytes → Bytes
trim_slashes [] = []
trim_slashes (c ∷ s) =
    let rest = trim_slashes s in
    elim rest [ [] ↦ if c == b'/' then [] else c ∷ [] | d ∷ t ↦ c ∷ d ∷ t ]

module _ {F : Type 0} (os : FileSystem F) where
  open os use {mkdir}

  -- The loop, with what stands before the index, and the last `mkdir`.
  unfoldable pub mkdirs_from : F → Bytes → Bytes → F × Bool
  mkdirs_from fs before [] = mkdir fs before
  mkdirs_from fs before (c ∷ s) =
      let made = if c == b'/' then mkdir fs before else (fs, true) in
      let rest = mkdirs_from made.0 (before ++ c ∷ []) s in if made.1 then rest else (made.0, false)

  -- `cellar_mkdir_p`, and whether it returns 0.
  unfoldable pub mkdir_p : F → Bytes → F × Bool
  unfolding mkdirs_from
  mkdir_p fs [] = (fs, false)
  mkdir_p fs path = elim (trim_slashes (clip 1024 path)) [
    | [] ↦ mkdir fs []
    | c ∷ s ↦ mkdirs_from fs (c ∷ []) s
  ]
