-- ===== src/Tests/Shell.antt =====
-- src/shell/shell.c in one bottle.
use fantastic_octo_meme.Prelude.{◌≡◌, refl, arith, ◌∷◌, ◌++◌, some}
use fantastic_octo_meme.Status.{Status}
use fantastic_octo_meme.Util.{joined}
use fantastic_octo_meme.Text.{codes, clip, same_folded}
use fantastic_octo_meme.Shell.{
  Shell, uninit, shell_init, lookup_var, expand, variable_at, to_percent,
}
use fantastic_octo_meme.Shell.Expand.{expanded, expand_lem}

abbrev bound : Shell
unfolding shell_init joined
bound = (shell_init uninit (some (codes "/b"))).1

temp_expanded :
    expand bound (some (codes "in %temp%\\x")) 60
    ≡ (Status.ok, some (codes "in /b/drive_c/users/user/AppData/Local/Temp\\x"))
unfolding expand shell_init joined variable_at to_percent lookup_var same_folded
temp_expanded = refl

windir_found : lookup_var bound.paths (codes "WinDir") ≡ some (codes "/b/drive_c/windows")
unfolding shell_init joined lookup_var same_folded
windir_found = refl

expand_lem_example :
    expand bound (some (codes "a " ++ b'%' ∷ (codes "WinDir" ++ b'%' ∷ codes "/%x%"))) 20 ≡ (
      Status.ok,
      some (
          clip 20
            (codes "a " ++ (codes "/b/drive_c/windows" ++ expanded bound.paths 0 (codes "/%x%")))),
    )
unfolding shell_init bound
expand_lem_example =
    expand_lem bound (codes "a ") (codes "WinDir") (codes "/%x%") (codes "/b/drive_c/windows") 20
      refl (omega arith) (omega arith) (omega arith) (omega arith) windir_found
