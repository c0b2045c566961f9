-- ===== src/Tests/Db.antt =====
-- src/db/db.c on a small database.
use fantastic_octo_meme.Prelude.{
  ℕ, ◌≡◌, refl, arith, Bool, true, false, if◌then◌else◌, [], ◌∷◌, some,
}
use fantastic_octo_meme.Status.{Status}
use fantastic_octo_meme.Text.{codes, same_folded}
use fantastic_octo_meme.Text.Number.{pos}
use fantastic_octo_meme.Files.{mkdir_p, mkdirs_from}
use fantastic_octo_meme.Db.{Entry, Db, replaced, put, find, find_entry}
use fantastic_octo_meme.Db.Open.{read_line, blank, flush, Reading, content, db_open, db_save}
use fantastic_octo_meme.Db.Saved.{IsValid}
use fantastic_octo_meme.Db.Saved.RoundTrip.{known, db_open-db_save}
use fantastic_octo_meme.Db.Find.{find-put}
use fantastic_octo_meme.Tests.Files.{Written, disk}

abbrev granted : ℕ → Bool
granted n = true

abbrev editor : Entry
editor = record {
  application = codes "Editor.exe";
  architecture = codes "x64";
  graphics = codes "Vulkan";
  audio = [];
  input = codes "XInput";
  needs_dotnet = pos 0;
  needs_vcruntime = pos 1;
  rating = pos 2;
  issues = codes "no tablet" ∷ codes "slow = start" ∷ [];
}

abbrev game : Entry
game = record editor { application = codes "game.exe"; issues = [] }

abbrev two_apps : Db
two_apps = record { entries = editor ∷ game ∷ []; cap = 8; path = codes "/d/compat.db" }

editor-IsValid : IsValid editor
editor-IsValid = record {
  application_fits = refl;
  application_given = omega arith;
  application_plain = refl;
  architecture_fits = refl;
  graphics_fits = refl;
  audio_fits = refl;
  input_fits = refl;
  needs_dotnet_is = omega arith;
  needs_vcruntime_is = omega arith;
  rating_is = omega arith;
  issues_fit = (refl, (refl, tt));
  issues_few = omega arith;
}

game-IsValid : IsValid game
game-IsValid = record {
  application_fits = refl;
  application_given = omega arith;
  application_plain = refl;
  architecture_fits = refl;
  graphics_fits = refl;
  audio_fits = refl;
  input_fits = refl;
  needs_dotnet_is = omega arith;
  needs_vcruntime_is = omega arith;
  rating_is = omega arith;
  issues_fit = tt;
  issues_few = omega arith;
}

abbrev files : Written
files = (codes "/d/compat.db", content two_apps.entries) ∷ []

two_apps_saved : db_save disk [] two_apps ≡ (Status.ok, files)
unfolding db_save mkdir_p mkdirs_from
two_apps_saved = refl

distinct : known (editor ∷ []) (codes "game.exe") ≡ false
unfolding same_folded
distinct = refl

db_open-db_save_example :
    (after : Db) × (db_open disk granted files (some (codes "/d/compat.db"))
      ≡ (Status.ok, some after))
    × (after.entries ≡ editor ∷ game ∷ [])
db_open-db_save_example =
    db_open-db_save disk [] files two_apps granted (λ n. refl) (editor-IsValid, (game-IsValid, tt))
      (refl, (distinct, tt)) two_apps_saved

abbrev better : Entry
better = record game { application = codes "GAME.EXE"; rating = pos 3 }

better-put :
    put granted two_apps better ≡ (Status.ok, record two_apps { entries = editor ∷ better ∷ [] })
unfolding put replaced same_folded
better-put = refl

find-put_example : find (record two_apps { entries = editor ∷ better ∷ [] }) (codes "Game.exe") ≡ (
    if same_folded (codes "GAME.EXE") (codes "Game.exe")
    then some better
    else find two_apps (codes "Game.exe"))
find-put_example =
    find-put granted two_apps (record two_apps { entries = editor ∷ better ∷ [] }) better
      (codes "Game.exe") better-put

find_runs : find two_apps (codes "EDITOR.EXE") ≡ some editor
unfolding find_entry same_folded
find_runs = refl

-- The name of an application with a bracket is cut when the database is read again.
bracket_runs :
    (r : Reading)
    → read_line granted r (codes "[game[1].exe]") ≡ (flush granted r, some (blank (codes "game[1")))
unfolding read_line
bracket_runs r = refl
