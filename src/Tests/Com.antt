-- ===== src/Tests/Com.antt =====
-- src/com/com.c on small inputs.
use fantastic_octo_meme.Prelude.{
  ℕ, ◌++◌, length, ◌≡◌, refl, arith, true, replicate, [], ◌∷◌, Option, some, none,
}
use fantastic_octo_meme.Memory.{Bytes}
use fantastic_octo_meme.Status.{Status, err_invalid_argument}
use fantastic_octo_meme.Text.{codes, same_text}
use fantastic_octo_meme.Com.Guid.{
  Guid, same_guid, guid_parse, guid_format, guid_text, hex, hex_digit,
}
use fantastic_octo_meme.Com.Guid.RoundTrip.{IsValid, guid_parse-guid_format}
use fantastic_octo_meme.Com.Objects.{Heap, refs_of, add_ref, release, null_object, iid_iunknown}
use fantastic_octo_meme.Com.Runtime.{
  ClassTable, com_init, register_class, re_registered, registered, factory_of, com_create, marshal,
}
use fantastic_octo_meme.Com.Runtime.Created.{release-com_create}

abbrev null_class : Guid
null_class = record {
  data1 = 0x43454c4c;
  data2 = 0x4152;
  data3 = 1;
  data4 = 0 ∷ 0 ∷ 0 ∷ 0 ∷ 0 ∷ 0 ∷ 0 ∷ 1 ∷ [];
}

null_class-IsValid : IsValid null_class
null_class-IsValid = record {
  data1_is = omega arith;
  data2_is = omega arith;
  data3_is = omega arith;
  data4_eight = refl;
  data4_are = omega arith;
}

guid_parse-guid_format_example : guid_parse (guid_format null_class 64) ≡ null_class
guid_parse-guid_format_example =
    guid_parse-guid_format null_class 64 null_class-IsValid (omega arith)

guid_format_runs : guid_format null_class 64 ≡ codes "{43454C4C-4152-0001-0000-000000000001}"
unfolding guid_text hex hex_digit
guid_format_runs = refl

-- Factories by number; all of them make null objects.
abbrev call : ℕ → Heap → (Status × Option ℕ) × Heap
call fac heap = ((Status.ok, some (length heap)), null_object heap)

abbrev no_classes : ClassTable ℕ
no_classes = replicate 32 none

abbrev one_class : ClassTable ℕ
one_class = (register_class no_classes (some null_class) (some (codes "Cellar.Null")) (some 7)).1

class_registered :
    register_class no_classes (some null_class) (some (codes "Cellar.Null")) (some 7)
    ≡ (Status.ok, one_class)
unfolding register_class re_registered registered
class_registered = refl

class_found : factory_of one_class null_class ≡ some 7
unfolding factory_of register_class re_registered registered same_guid same_text
class_found = refl

release-com_create_example :
    (after : Heap) × (com_create call
        (record { inited = true; apt = 0 })
        one_class
        (some 1 ∷ [])
        (some null_class)
        (some iid_iunknown)
      ≡ some ((Status.ok, some 1), after))
    × (freed : Heap) × (release after 1 ≡ some (1, freed))
    × (refs_of freed 1 ≡ some 1)
release-com_create_example =
    release-com_create call (record { inited = true; apt = 0 }) one_class (some 1 ∷ []) null_class 7
      refl class_found refl

abbrev marshalled : Bytes
marshalled = codes "COM1" ++ (1 ∷ 0 ∷ 0 ∷ 0 ∷ 0 ∷ 0 ∷ 0 ∷ 0 ∷ [])

marshal_runs :
    marshal (none ∷ some 3 ∷ []) (some 1) 12 ≡ some ((Status.ok, marshalled), none ∷ some 4 ∷ [])
unfolding marshal add_ref
marshal_runs = refl

-- Another apartment is refused, the same one is not.
com_init_runs :
    (com_init (record { inited = true; apt = 1 }) 0
      ≡ (err_invalid_argument, record { inited = true; apt = 1 }))
    × (com_init (record { inited = true; apt = 1 }) 1
        ≡ (Status.ok, record { inited = true; apt = 1 }))
unfolding com_init
com_init_runs = (refl, refl)
