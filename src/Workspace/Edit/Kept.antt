-- ===== src/Workspace/Edit/Kept.antt =====
-- All changes but that of the name keep the name of a workspace, and its path.
use fantastic_octo_meme.Prelude.{◌≡◌, Bool, true, false, if◌then◌else◌, Option, none, some}
use fantastic_octo_meme.Memory.{Bytes}
use fantastic_octo_meme.Text.{codes, same_text}
use fantastic_octo_meme.Workspace.{Workspace}
use fantastic_octo_meme.Workspace.Edit.{edit}

-- A change keeps the name and the path.
unfoldable Kept : Workspace → Option Workspace → Type 0
Kept w none = Unit {0}
Kept w (some v) = (v.name ≡ w.name) × (v.path ≡ w.path)

Kept-none : (w : Workspace) → Kept w none
unfolding Kept
Kept-none w = tt

Kept-some : (w v : Workspace) → v.name ≡ w.name → v.path ≡ w.path → Kept w (some v)
unfolding Kept
Kept-some w v h g = (h, g)

Kept-either :
    (w : Workspace) (b : Bool) (o p : Option Workspace)
    → Kept w o
    → Kept w p
    → Kept w (if b then o else p)
Kept-either w true o p h g = h
Kept-either w false o p h g = g

Kept-other :
    (w : Workspace) (b : Bool) (o p : Option Workspace)
    → b ≡ false
    → Kept w p
    → Kept w (if b then o else p)
Kept-other w true o p h k = absurd (cc)
Kept-other w false o p h k = k

edit-Kept :
    (w : Workspace) (key : Bytes) (value : Option Bytes)
    → same_text key (codes "name") ≡ false
    → Kept w (edit w key value)
unfolding edit
edit-Kept w key value other =
    Kept-other w _ _ _ other (search (Kept-either, Kept-some, Kept-none) depth 20)

-- Every key but the name keeps the name and the path.
pub edit-named :
    (w v : Workspace) (key : Bytes) (value : Option Bytes)
    → same_text key (codes "name") ≡ false
    → edit w key value ≡ some v
    → (v.name ≡ w.name) × (v.path ≡ w.path)
unfolding Kept
edit-named w v key value other c =
    let kept : Kept w (some v) = rw c at (edit-Kept w key value other) in kept
