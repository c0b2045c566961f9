-- ===== src/Win32/Registry/Lookup.antt =====
-- Registration and lookup: which module and which function an import is bound to.
use fantastic_octo_meme.Prelude.{
  ℕ, ◌+◌, ◌*◌, ◌≤◌, Bool, true, List, [], ◌∷◌, ◌++◌, length, ◌==◌, ◌≡◌, ◌≢◌, ◌↔◌, refl, arith,
  Option, some, none, if◌then◌else◌, length-append,
}
use fantastic_octo_meme.Memory.{Bytes}
use fantastic_octo_meme.Win32.Registry.{
  Export, Module, Registry, module_count, grown, append_module, register_parts, register_module,
  module_name_eq, find_in, find_module, exists_in, lookup_in, export_exists, lookup, resolve,
}
use fantastic_octo_meme.Win32.Registry.Names.{key, module_name_eq_iff}

-- The array has room for its entries.
abbrev pub HasRoom : Registry → Type 0
HasRoom r = module_count r ≤ r.cap

append_module-HasRoom :
    (alloc : ℕ → Bool) (r : Registry) (name : Bytes) (exports : List Export)
    → HasRoom r
    → HasRoom (append_module alloc r name exports)
unfolding append_module grown
append_module-HasRoom alloc r name exports h =
    let longer : module_count r + 1 ≡ length (r.modules ++ (name, exports) ∷ []) =
      omega (arith, length-append r.modules ((name, exports) ∷ [])) in
    ground arith

register_parts-HasRoom :
    (alloc : ℕ → Bool) (r : Registry) (name : Option Bytes) (exports : Option (List Export))
    → HasRoom r
    → HasRoom (register_parts alloc r name exports)
unfolding register_parts
register_parts-HasRoom alloc r none exports h = h
register_parts-HasRoom alloc r (some name) none h = h
register_parts-HasRoom alloc r (some name) (some exports) h =
    append_module-HasRoom alloc r name exports h

-- The array never holds more entries than it has room for, also where growing it fails.
pub register_module-HasRoom :
    (alloc : ℕ → Bool) (r : Registry) (m : Option Module)
    → HasRoom r
    → HasRoom (register_module alloc r m)
unfolding register_module
register_module-HasRoom alloc r none h = h
register_module-HasRoom alloc r (some m) h = register_parts-HasRoom alloc r m.name m.exports h

find_in-append :
    (ms : List (Bytes × List Export)) (m : Bytes × List Export) (q : Bytes)
    → find_in (ms ++ m ∷ []) q ≡ elim (find_in ms q) [
      | some x ↦ some x
      | none ↦ if module_name_eq m.0 q then some m else none
    ]
unfolding find_in
find_in-append [] m q = refl
find_in-append (x ∷ ms) m q = ground (arith, find_in-append ms m q)

-- Names that match give the same module, whatever is registered.
find_in-key :
    (ms : List (Bytes × List Export)) (a b : Bytes) → key a ≡ key b → find_in ms a ≡ find_in ms b
unfolding find_in
find_in-key [] a b h = refl
find_in-key (m ∷ ms) a b h =
    ground (arith, find_in-key ms a b h, module_name_eq_iff m.0 a, module_name_eq_iff m.0 b)

-- An import binds alike whichever case, and whichever last extension, its module is named with.
pub resolve-key :
    (r : Registry) (a b f : Bytes) (ordinal : ℕ)
    → key a ≡ key b
    → resolve r (some a) (some f) ordinal ≡ resolve r (some b) (some f) ordinal
unfolding resolve lookup find_module
resolve-key r a b f ordinal h = ground (arith, find_in-key r.modules a b h)

-- No export of a null function.
abbrev pub NonNull : List Export → Type 0
NonNull [] = Unit {0}
NonNull (e ∷ es) = (e.fn ≢ 0) × NonNull es

exists_in-lookup :
    (es : List Export) (f : Bytes) → NonNull es → (exists_in es f ≡ true) ↔ (lookup_in es f ≢ 0)
unfolding exists_in lookup_in
exists_in-lookup [] f h = ground arith
exists_in-lookup (e ∷ es) f (h, hs) = ground (arith, exists_in-lookup es f hs)

-- A module with a name and exports, registered while memory lasts, is found under every name that
-- matches its own, unless an earlier module matches too: that one stays. All other names find
-- what they found before.
pub find_module-register :
    (alloc : ℕ → Bool) (r : Registry) (name : Bytes) (exports : List Export) (q : Bytes)
    → ((n : ℕ) → alloc n ≡ true)
    → find_module
        (register_module alloc r (some (record { name = some name; exports = some exports })))
        (some q)
      ≡ elim (find_module r (some q)) [
        | some x ↦ some x
        | none ↦ if module_name_eq name q then some (name, exports) else none
      ]
unfolding find_module register_module
find_module-register alloc r name exports q memory = ground (
  arith,
  find_in-append r.modules (name, exports) q,
  memory (if r.cap == 0 then 8 else r.cap * 2),
)

-- In a module with no null function, `cellar_win32_export_exists` says whether an import by name
-- is bound.
pub export_exists-resolve :
    (r : Registry) (name f : Bytes) (ordinal : ℕ) (m : Bytes × List Export)
    → find_module r (some name) ≡ some m
    → NonNull m.1
    → (export_exists r (some name) (some f) ≡ true) ↔ (resolve r (some name) (some f) ordinal ≢ 0)
unfolding export_exists resolve lookup
export_exists-resolve r name f ordinal m found h = ground (arith, exists_in-lookup m.1 f h)
