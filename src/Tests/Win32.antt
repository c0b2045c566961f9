-- ===== src/Tests/Win32.antt =====
-- src/win32/api.c on a registry with one module.
use fantastic_octo_meme.Prelude.{ℕ, Bool, true, List, [], ◌∷◌, ◌≡◌, some, refl}
use fantastic_octo_meme.Memory.{Bytes}
use fantastic_octo_meme.Win32.Registry.{
  Export, Module, Registry, empty, register_module, to_lower, stem, equal_folded, module_name_eq,
  find_module,
}
use fantastic_octo_meme.Win32.Registry.Lookup.{find_module-register}

abbrev a_dll : Bytes
a_dll = b'a' ∷ b'.' ∷ b'd' ∷ b'l' ∷ b'l' ∷ []

abbrev f_name : Bytes
f_name = b'f' ∷ []

abbrev a_exports : List Export
a_exports = record { name = f_name; fn = 77 } ∷ []

abbrev a_module : Module
a_module = record { name = some a_dll; exports = some a_exports }

abbrev always : ℕ → Bool
always _ = true

abbrev pub one : Registry
one = record { modules = (a_dll, a_exports) ∷ []; cap = 8 }

registered : register_module always empty (some a_module) ≡ one
unfolding register_module
registered = refl

find_module-register_example :
    find_module
      (register_module always one (some (record { name = some (b'b' ∷ []); exports = some [] })))
      (some (b'B' ∷ []))
    ≡ some (b'b' ∷ [], [])
unfolding find_module module_name_eq equal_folded stem to_lower
find_module-register_example =
    find_module-register always one (b'b' ∷ []) [] (b'B' ∷ []) (λ n. refl)
