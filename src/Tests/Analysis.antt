-- ===== src/Tests/Analysis.antt =====
-- src/compat/compat.c on a few imports.
use fantastic_octo_meme.Prelude.{
  ◌≡◌, ◌↔◌, refl, arith, true, false, List, length, [], ◌∷◌, some, none,
}
use fantastic_octo_meme.Text.{codes}
use fantastic_octo_meme.Text.Number.{pos}
use fantastic_octo_meme.Win32.Registry.{Registry, find_module, export_exists}
use fantastic_octo_meme.Compat.Categories.{
  classify, prefix_match, gfx_dlls, audio_dlls, input_dlls, net_dlls, fs_thread_dlls, cat_graphics,
}
use fantastic_octo_meme.Compat.Analysis.{
  Imported, scored, tally_one, overall_percent, category_percent,
}
use fantastic_octo_meme.Compat.Analysis.Verdict.{overall_percent_iff}

-- No module is registered.
abbrev bare : Registry
bare = record { modules = []; cap = 0 }

abbrev two_imports : List Imported
two_imports =
    record { module_name = codes "D3D11.dll"; name = some (codes "D3D11CreateDevice"); ordinal = 0 }
    ∷ record { module_name = codes "game_core.dll"; name = none; ordinal = 7 }
    ∷ []

overall_percent_iff_example :
    (overall_percent (scored bare none two_imports) ≡ pos 100)
    ↔ (length (scored bare none two_imports).missing ≡ 0)
overall_percent_iff_example = overall_percent_iff bare none two_imports (omega arith)

not_gfx : prefix_match (codes "KERNEL32.dll") gfx_dlls ≡ false
unfolding prefix_match
not_gfx = refl

not_audio : prefix_match (codes "KERNEL32.dll") audio_dlls ≡ false
unfolding prefix_match
not_audio = refl

not_input : prefix_match (codes "KERNEL32.dll") input_dlls ≡ false
unfolding prefix_match
not_input = refl

not_net : prefix_match (codes "KERNEL32.dll") net_dlls ≡ false
unfolding prefix_match
not_net = refl

of_kernel : prefix_match (codes "KERNEL32.dll") fs_thread_dlls ≡ true
unfolding prefix_match
of_kernel = refl

scored_runs :
    (overall_percent (scored bare none two_imports) ≡ pos 0)
    × (category_percent (scored bare none two_imports) cat_graphics ≡ pos 0)
    × (length (scored bare none two_imports).missing ≡ 1)
unfolding scored tally_one classify prefix_match export_exists find_module
scored_runs = (refl, refl, refl)
