-- ===== src/Com/Objects.antt =====
-- `cellar_iunknown_t` of include/cellar/com.h with the table of functions that
-- `cellar_iunknown_vtbl` of src/com/com.c returns, and `null_factory`.
use fantastic_octo_meme.Prelude.{
  ℕ, ◌+◌, ◌-◌, ◌%◌, ◌^◌, Bool, true, false, List, [], ◌∷◌, ◌++◌, set, get_or, ◌==◌, Option, none,
  some, if◌then◌else◌,
}
use fantastic_octo_meme.Com.Guid.{Guid, guid_eq}

-- The objects by their addresses: how many references each has, and `none` when it is freed.
abbrev pub Heap : Type 0
Heap = List (Option ℕ)

abbrev pub refs_of : Heap → ℕ → Option ℕ
refs_of heap a = get_or heap a none

abbrev pub iid_iunknown : Guid
iid_iunknown = record {
  data1 = 0;
  data2 = 0;
  data3 = 0;
  data4 = 192 ∷ 0 ∷ 0 ∷ 0 ∷ 0 ∷ 0 ∷ 0 ∷ 70 ∷ [];
}

-- `iu_addref`: what it returns, and the objects after; `none` stands for the use of an object that
-- was freed.
unfoldable pub add_ref : Heap → ℕ → Option (ℕ × Heap)
add_ref heap a = elim (refs_of heap a) [
  | none ↦ none
  | some r ↦ some ((r + 1) % 2 ^ 32, set heap a (some ((r + 1) % 2 ^ 32)))
]

-- `iu_release`.
unfoldable pub release : Heap → ℕ → Option (ℕ × Heap)
release heap a = elim (refs_of heap a) [
  | none ↦ none
  | some r ↦
      if r == 0
      then some (0, heap)
      else if r == 1
      then some (0, set heap a none)
      else some (r - 1, set heap a (some (r - 1)))
]

-- `iu_qi`: whether it returns 0, which stores the object itself, and the objects after.
unfoldable pub query_interface : Heap → ℕ → Option Guid → Option (Bool × Heap)
unfolding add_ref
query_interface heap a iid =
    let added : Option (Bool × Heap) = elim (add_ref heap a) [
      | none ↦ none
      | some t ↦ some (true, t.1)
    ] in
    if guid_eq iid (some iid_iunknown) then added else some (false, heap)

-- `null_factory` puts a new object behind those that are there, with one reference.
abbrev pub null_object : Heap → Heap
null_object heap = heap ++ some 1 ∷ []
