-- ===== src/Com/Runtime.antt =====
-- The apartment of a thread and the table of classes of src/com/com.c.
pub mod Classes
pub mod Created
use Prim.Native.String.{String}
use fantastic_octo_meme.Prelude.{
  ℕ, zero, suc, ◌+◌, ◌-◌, ◌*◌, ◌/◌, ◌%◌, ◌^◌, Bool, true, false, not, ◌&&◌, List, [], ◌∷◌, ◌++◌,
  length, take, drop, replicate, ltb, ◌==◌, Option, none, some, if◌then◌else◌,
}
use fantastic_octo_meme.Memory.{Bytes}
use fantastic_octo_meme.Status.{
  Status, err_invalid_argument, err_out_of_memory, err_not_implemented, is_ok,
}
use fantastic_octo_meme.Text.{codes, clip, same_text}
use fantastic_octo_meme.Conf.{or_empty}
use fantastic_octo_meme.Com.Guid.{Guid, guid_eq}
use fantastic_octo_meme.Com.Objects.{Heap, add_ref, release, query_interface}

-- `g_inited` and `g_apt`, which each thread has of its own.
pub record Thread : Type 0 where
  pub inited : Bool
  pub apt : ℕ

-- `cellar_com_init` and `cellar_com_uninit`.
unfoldable pub com_init : Thread → ℕ → Status × Thread
com_init t apt =
    if t.inited
    then (if t.apt == apt then (Status.ok, t) else (err_invalid_argument, t))
    else (Status.ok, record { inited = true; apt = apt })

unfoldable pub com_uninit : Thread → Thread
com_uninit t = record t { inited = false }

-- The bytes of an address, as `memcpy` stores them.
abbrev pub address_bytes : ℕ → ℕ → Bytes
address_bytes zero p = []
address_bytes (suc n) p = p % 2 ^ 8 ∷ address_bytes n (p / 2 ^ 8)

abbrev pub address_of : Bytes → ℕ
address_of [] = 0
address_of (b ∷ bs) = b + 2 ^ 8 * address_of bs

-- `cellar_com_marshal` into an array of `cap` bytes, on a machine that stores the low byte of an
-- address first: the bytes that are written, and the objects after.
unfoldable pub marshal : Heap → Option ℕ → ℕ → Option ((Status × Bytes) × Heap)
unfolding add_ref
marshal heap none cap = some ((err_invalid_argument, []), heap)
marshal heap (some p) cap =
    let written = codes "COM1" ++ address_bytes 8 p in
    let done : Option ((Status × Bytes) × Heap) = elim (add_ref heap p) [
      | none ↦ none
      | some t ↦ some ((Status.ok, written), t.1)
    ] in
    if ltb cap 12 then some ((err_invalid_argument, []), heap) else done

-- `cellar_com_unmarshal`.
unfoldable pub unmarshal : Bytes → Status × Option ℕ
unmarshal buf =
    if not (ltb (length buf) 12) && same_text (take 4 buf) (codes "COM1")
    then (Status.ok, some (address_of (take 8 (drop 4 buf))))
    else (err_invalid_argument, none)

-- `class_ent_t`; an entry that is not used is `none`.
pub record Class (Factory : Type 0) : Type 0 where
  pub clsid : Guid
  pub progid : Bytes
  pub factory : Factory

-- What `cellar_com_create` does with an object that a factory made: the status, what it stores,
-- and the objects after.
abbrev pub hand_out : Heap → ℕ → Option Guid → Option ((Status × Option ℕ) × Heap)
hand_out heap obj none = some ((Status.ok, some obj), heap)
hand_out heap obj (some iid) = elim (query_interface heap obj (some iid)) [
  | none ↦ none
  | some (true, after) ↦ some ((Status.ok, some obj), after)
  | some (false, after) ↦ elim (release after obj) [
    | none ↦ none
    | some (r, freed) ↦ some ((err_not_implemented, none), freed)
  ]
]

abbrev pub made : Option Guid → (Status × Option ℕ) × Heap → Option ((Status × Option ℕ) × Heap)
made iid ((st, none), heap) = some ((st, none), heap)
made iid ((st, some obj), heap) =
    if is_ok st then hand_out heap obj iid else some ((st, none), heap)

abbrev pub ClassTable : Type 0 → Type 0
ClassTable Factory = List (Option (Class Factory))

-- `CELLAR_CLSID_NULL`.
abbrev pub clsid_null : Guid
clsid_null = record {
  data1 = 0x43454c4c;
  data2 = 0x4152;
  data3 = 1;
  data4 = 0 ∷ 0 ∷ 0 ∷ 0 ∷ 0 ∷ 0 ∷ 0 ∷ 1 ∷ [];
}

module _ {Factory : Type 0} where
  -- The first loop of `cellar_com_register_class`: the entry of the class takes the factory, and
  -- the name, if there is one.
  unfoldable pub re_registered :
      Guid → Option Bytes → Factory → ClassTable Factory → Option (ClassTable Factory)
  re_registered clsid progid fac [] = none
  re_registered clsid progid fac (none ∷ cs) = elim (re_registered clsid progid fac cs) [
    | none ↦ none
    | some ds ↦ some (none ∷ ds)
  ]
  re_registered clsid progid fac (some c ∷ cs) =
      let rest = re_registered clsid progid fac cs in
      let name : Bytes = elim progid [ none ↦ c.progid | some p ↦ clip 64 p ] in
      if guid_eq (some c.clsid) (some clsid)
      then some (some (record { clsid = c.clsid; progid = name; factory = fac }) ∷ cs)
      else elim rest [ none ↦ none | some ds ↦ some (some c ∷ ds) ]

  -- The second loop: the first entry that is not used.
  unfoldable pub registered : Class Factory → ClassTable Factory → Option (ClassTable Factory)
  registered c [] = none
  registered c (none ∷ cs) = some (some c ∷ cs)
  registered c (some d ∷ cs) = elim (registered c cs) [ none ↦ none | some ds ↦ some (some d ∷ ds) ]

  abbrev pub either_loop :
      ClassTable Factory
      → Option (ClassTable Factory)
      → Option (ClassTable Factory)
      → Status × ClassTable Factory
  either_loop cs (some ds) o = (Status.ok, ds)
  either_loop cs none (some ds) = (Status.ok, ds)
  either_loop cs none none = (err_out_of_memory, cs)

  -- `cellar_com_register_class`, with null pointers as `none`.
  unfoldable pub register_class :
      ClassTable Factory → Option Guid → Option Bytes → Option Factory → Status × ClassTable Factory
  unfolding re_registered registered
  register_class cs none progid fac = (err_invalid_argument, cs)
  register_class cs (some clsid) progid none = (err_invalid_argument, cs)
  register_class cs (some clsid) progid (some fac) =
      either_loop cs (re_registered clsid progid fac cs) (
        registered (record { clsid = clsid; progid = clip 64 (or_empty progid); factory = fac }) cs)

  -- The factory of the first entry of a class.
  unfoldable pub factory_of : ClassTable Factory → Guid → Option Factory
  factory_of [] clsid = none
  factory_of (none ∷ cs) clsid = factory_of cs clsid
  factory_of (some c ∷ cs) clsid =
      let rest = factory_of cs clsid in
      if guid_eq (some c.clsid) (some clsid) then some c.factory else rest

  -- `cellar_com_create`, with null pointers as `none`. `call` runs a factory: its status, the
  -- object it stores, and the objects after; the objects have the table of
  -- `cellar_iunknown_vtbl`.
  unfoldable pub com_create :
      (Factory → Heap → (Status × Option ℕ) × Heap)
      → Thread
      → ClassTable Factory
      → Heap
      → Option Guid
      → Option Guid
      → Option ((Status × Option ℕ) × Heap)
  unfolding factory_of
  com_create call t cs heap none iid = some ((err_invalid_argument, none), heap)
  com_create call t cs heap (some clsid) iid =
      let found : Option ((Status × Option ℕ) × Heap) = elim (factory_of cs clsid) [
        | none ↦ some ((err_not_implemented, none), heap)
        | some fac ↦ made iid (call fac heap)
      ] in
      if t.inited then found else some ((err_invalid_argument, none), heap)

  -- `cellar_com_register_builtins`, with `null_factory`.
  abbrev pub register_builtins : Factory → ClassTable Factory → Status × ClassTable Factory
  register_builtins null_factory cs =
      register_class cs (some clsid_null) (some (codes "Cellar.Null")) (some null_factory)
