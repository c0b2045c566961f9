-- ===== src/Workspace/Edit/Keys.antt =====
-- The keys of `cellar_workspace_set`, each with the field that it is for, apart from the code.
use fantastic_octo_meme.Prelude.{
  zero, suc, ◌≡◌, Bool, false, ◌||◌, List, [], ◌∷◌, Option, none, some, refl, length, ◌==◌, arith,
  if◌then◌else◌,
}
use fantastic_octo_meme.Memory.{Bytes}
use fantastic_octo_meme.Text.{codes, clip, same_text}
use fantastic_octo_meme.Text.Number.{ℤ, pos, negsuc, atoi}
use fantastic_octo_meme.Conf.{or_empty}
use fantastic_octo_meme.Workspace.{Workspace, win_mode_from_name}
use fantastic_octo_meme.Workspace.Config.{label}
use fantastic_octo_meme.Workspace.Edit.{flag, edit}

-- The keys but for "name", two of which are another word for a third.
pub data Key : Type 0 where
  tags runner gfx gfx_backend audio audio_backend dll_overrides dependencies executable launch
        source architecture windows_version favorite sandbox shortcut :
      Key

abbrev pub spelled : Key → Bytes
spelled tags = codes "tags"
spelled runner = codes "runner"
spelled gfx = codes "gfx"
spelled gfx_backend = codes "gfx_backend"
spelled audio = codes "audio"
spelled audio_backend = codes "audio_backend"
spelled dll_overrides = codes "dll_overrides"
spelled dependencies = codes "dependencies"
spelled executable = codes "executable"
spelled launch = codes "launch"
spelled source = codes "source"
spelled architecture = codes "architecture"
spelled windows_version = codes "windows_version"
spelled favorite = codes "favorite"
spelled sandbox = codes "sandbox"
spelled shortcut = codes "shortcut"

-- A text or a number of a workspace.
pub data Shown : Type 0 where
  text : Bytes → Shown
  number : ℤ → Shown

-- The field of a key.
abbrev pub shown : Key → Workspace → Shown
shown tags w = text w.tags
shown runner w = text w.runner
shown gfx w = text w.gfx_backend
shown gfx_backend w = text w.gfx_backend
shown audio w = text w.audio_backend
shown audio_backend w = text w.audio_backend
shown dll_overrides w = text w.dll_overrides
shown dependencies w = text w.dependencies
shown executable w = text w.executable
shown launch w = text w.executable
shown source w = text w.source
shown architecture w = text w.architecture
shown windows_version w = number w.windows_version
shown favorite w = number w.favorite
shown sandbox w = number w.sandbox_enabled
shown shortcut w = number w.has_shortcut

-- A flag is 0 without a value and for the number 0, and 1 for any other number.
abbrev flagged : ℤ → Shown
flagged (pos zero) = number (pos 0)
flagged _ = number (pos 1)

abbrev flag_of : Option Bytes → Shown
flag_of none = number (pos 0)
flag_of (some s) = flagged (atoi s)

-- What a value is for a key: as much of a text as the field holds with a zero byte behind it, the
-- version that it names, or its flag.
abbrev pub meant : Key → Option Bytes → Shown
meant tags value = text (clip 256 (or_empty value))
meant runner value = text (clip 64 (or_empty value))
meant gfx value = text (clip 32 (or_empty value))
meant gfx_backend value = text (clip 32 (or_empty value))
meant audio value = text (clip 32 (or_empty value))
meant audio_backend value = text (clip 32 (or_empty value))
meant dll_overrides value = text (clip 512 (or_empty value))
meant dependencies value = text (clip 256 (or_empty value))
meant executable value = text (clip 512 (or_empty value))
meant launch value = text (clip 512 (or_empty value))
meant source value = text (clip 512 (or_empty value))
meant architecture value = text (clip 16 (or_empty value))
meant windows_version value = number (win_mode_from_name value)
meant favorite value = flag_of value
meant sandbox value = flag_of value
meant shortcut value = flag_of value

-- A workspace without the field of a key: two that agree in this differ at most in that field.
abbrev pub without : Key → Workspace → Workspace
without tags w = record w { tags = [] }
without runner w = record w { runner = [] }
without gfx w = record w { gfx_backend = [] }
without gfx_backend w = record w { gfx_backend = [] }
without audio w = record w { audio_backend = [] }
without audio_backend w = record w { audio_backend = [] }
without dll_overrides w = record w { dll_overrides = [] }
without dependencies w = record w { dependencies = [] }
without executable w = record w { executable = [] }
without launch w = record w { executable = [] }
without source w = record w { source = [] }
without architecture w = record w { architecture = [] }
without windows_version w = record w { windows_version = pos 0 }
without favorite w = record w { favorite = pos 0 }
without sandbox w = record w { sandbox_enabled = pos 0 }
without shortcut w = record w { has_shortcut = pos 0 }

abbrev pub all_keys : List Bytes
all_keys =
    codes "name"
    ∷ codes "tags"
    ∷ codes "runner"
    ∷ codes "gfx"
    ∷ codes "gfx_backend"
    ∷ codes "audio"
    ∷ codes "audio_backend"
    ∷ codes "dll_overrides"
    ∷ codes "dependencies"
    ∷ codes "executable"
    ∷ codes "launch"
    ∷ codes "source"
    ∷ codes "architecture"
    ∷ codes "windows_version"
    ∷ codes "favorite"
    ∷ codes "sandbox"
    ∷ codes "shortcut"
    ∷ []

abbrev pub one_of : Bytes → List Bytes → Bool
one_of key [] = false
one_of key (k ∷ ks) = same_text key k || one_of key ks

-- An empty label has become the name of the kind.
abbrev pub relabelled : Workspace → Workspace
relabelled w = record w { setup_label = label w }

-- No key but those is known.
pub edit-unknown :
    (w : Workspace) (key : Bytes) (value : Option Bytes)
    → one_of key all_keys ≡ false
    → edit w key value ≡ none
unfolding edit
edit-unknown w key value h = ground arith

pub spelled-other : (k : Key) → same_text (spelled k) (codes "name") ≡ false
unfolding same_text
spelled-other tags = refl
spelled-other runner = refl
spelled-other gfx = refl
spelled-other gfx_backend = refl
spelled-other audio = refl
spelled-other audio_backend = refl
spelled-other dll_overrides = refl
spelled-other dependencies = refl
spelled-other executable = refl
spelled-other launch = refl
spelled-other source = refl
spelled-other architecture = refl
spelled-other windows_version = refl
spelled-other favorite = refl
spelled-other sandbox = refl
spelled-other shortcut = refl

flag-flag_of : (value : Option Bytes) → number (flag value) ≡ flag_of value
flag-flag_of none = refl
flag-flag_of (some s) = of_number (atoi s)
  where
    of_number :
        (z : ℤ)
        → number (elim z [ pos n ↦ if n == 0 then pos 0 else pos 1 | negsuc n ↦ pos 1 ]) ≡ flagged z
    of_number (pos zero) = refl
    of_number (pos (suc n)) = ground arith
    of_number (negsuc n) = refl

-- A key changes its own field and no other.
pub edit-Key :
    (k : Key) (w : Workspace) (value : Option Bytes)
    → (v : Workspace) × (edit w (spelled k) value ≡ some v)
      × (shown k (relabelled v) ≡ meant k value)
      × (without k (relabelled v) ≡ without k (relabelled w))
unfolding edit same_text
edit-Key tags w value = (_, refl, refl, refl)
edit-Key runner w value = (_, refl, refl, refl)
edit-Key gfx w value = (_, refl, refl, refl)
edit-Key gfx_backend w value = (_, refl, refl, refl)
edit-Key audio w value = (_, refl, refl, refl)
edit-Key audio_backend w value = (_, refl, refl, refl)
edit-Key dll_overrides w value = (_, refl, refl, refl)
edit-Key dependencies w value = (_, refl, refl, refl)
edit-Key executable w value = (_, refl, refl, refl)
edit-Key launch w value = (_, refl, refl, refl)
edit-Key source w value = (_, refl, refl, refl)
edit-Key architecture w value = (_, refl, refl, refl)
edit-Key windows_version w value = (_, refl, refl, refl)
edit-Key favorite w value = (_, refl, flag-flag_of value, refl)
edit-Key sandbox w value = (_, refl, flag-flag_of value, refl)
edit-Key shortcut w value = (_, refl, flag-flag_of value, refl)

pub length-spelled : (k : Key) → (length (spelled k) == 0) ≡ false
length-spelled tags = refl
length-spelled runner = refl
length-spelled gfx = refl
length-spelled gfx_backend = refl
length-spelled audio = refl
length-spelled audio_backend = refl
length-spelled dll_overrides = refl
length-spelled dependencies = refl
length-spelled executable = refl
length-spelled launch = refl
length-spelled source = refl
length-spelled architecture = refl
length-spelled windows_version = refl
length-spelled favorite = refl
length-spelled sandbox = refl
length-spelled shortcut = refl
