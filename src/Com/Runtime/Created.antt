-- ===== src/Com/Runtime/Created.antt =====
-- The objects that are created, their references and their addresses.
use native.Mathlib.Nat.{pow-suc}
use fantastic_octo_meme.Prelude.{
  subst, ℕ, zero, suc, ◌-◌, ◌/◌, ◌^◌, ◌<◌, ◌≡◌, ◌∙◌, true, [], ◌∷◌, ◌++◌, length, set, get_or,
  get_or-set_self, get_or-append_right, length-append, length-set, ltb, refl, ap, arith, Bool-cases,
  Option-cases, inl, inr, Option, none, some,
}
use fantastic_octo_meme.Memory.{Bytes}
use fantastic_octo_meme.Status.{Status}
use fantastic_octo_meme.Text.{codes, same_text}
use fantastic_octo_meme.Com.Guid.{Guid, same_guid}
use fantastic_octo_meme.Com.Objects.{
  Heap, refs_of, add_ref, release, query_interface, iid_iunknown, null_object,
}
use fantastic_octo_meme.Com.Runtime.{
  Thread, ClassTable, factory_of, hand_out, made, com_create, marshal, unmarshal, address_bytes,
  address_of,
}

-- A new object has one reference.
null_refs : (heap : Heap) → refs_of (null_object heap) (length heap) ≡ some 1
null_refs heap =
    let first : length heap - length heap ≡ 0 = omega arith in
    get_or-append_right heap (some 1 ∷ []) (length heap) none (omega arith)
    ∙ ap (λ k. get_or (some 1 ∷ []) k none) first

-- `QueryInterface` for IUnknown gives a second reference, and a release takes one of two away.
ask_one :
    (heap : Heap) (a : ℕ)
    → refs_of heap a ≡ some 1
    → query_interface heap a (some iid_iunknown) ≡ some (true, set heap a (some 2))
unfolding query_interface same_guid same_text
ask_one heap a e =
    let added : add_ref heap a ≡ some (2, set heap a (some 2)) = rw (add_ref, e) refl in
    rw (query_interface, added) refl

release_two :
    (heap : Heap) (a : ℕ) → refs_of heap a ≡ some 2 → release heap a ≡ some (1, set heap a (some 1))
unfolding release
release_two heap a e = rw (release, e) refl

module _ {Factory : Type 0} (call : Factory → Heap → (Status × Option ℕ) × Heap) where
  -- An object of a class that makes objects as `null_factory` does, created for IUnknown, is handed
  -- out with two references: its only owner has released it once, and it still has one and is not
  -- freed.
  pub release-com_create :
      (t : Thread) (cs : ClassTable Factory) (heap : Heap) (clsid : Guid) (fac : Factory)
      → t.inited ≡ true
      → factory_of cs clsid ≡ some fac
      → call fac heap ≡ ((Status.ok, some (length heap)), null_object heap)
      → (after : Heap) × (com_create call t cs heap (some clsid) (some iid_iunknown)
          ≡ some ((Status.ok, some (length heap)), after))
        × (freed : Heap) × (release after (length heap) ≡ some (1, freed))
        × (refs_of freed (length heap) ≡ some 1)
  unfolding com_create
  release-com_create t cs heap clsid fac ready found made_it =
      let obj = length heap in
      let one = null_object heap in
      let two = set one obj (some 2) in
      let last = set two obj (some 1) in
      let inside : obj < length one = omega (arith, length-append heap (some 1 ∷ [])) in
      let has_two : refs_of two obj ≡ some 2 = get_or-set_self one obj (some 2) none inside in
      let asked = ask_one one obj (null_refs heap) in
      let handed : made (some iid_iunknown) ((Status.ok, some obj), one)
          ≡ some ((Status.ok, some obj), two) =
        rw (made, hand_out, asked) refl in
      (
        two,
        rw (ready, found, made_it) handed,
        last,
        release_two two obj has_two,
        get_or-set_self two obj (some 1) none (omega (arith, length-set one obj (some 2))),
      )

-- What was written, if anything was.
abbrev written_of : Bytes → Option ((Status × Bytes) × Heap) → Bytes
written_of buf none = buf
written_of buf (some ((st, written), heap)) = written

address_of-address_bytes : (n p : ℕ) → p < 256 ^ n → address_of (address_bytes n p) ≡ p
address_of-address_bytes zero p h = omega arith
address_of-address_bytes (suc n) p h =
    let rest = address_of-address_bytes n (p / 2 ^ 8) (omega (arith, pow-suc 256 n)) in
    rw rest (omega arith)

-- What `cellar_com_marshal` writes for an object, `cellar_com_unmarshal` reads back as the same
-- object, if its address has 64 bits.
pub unmarshal-marshal :
    (heap after : Heap) (p cap : ℕ) (buf : Bytes)
    → p < 2 ^ 64
    → marshal heap (some p) cap ≡ some ((Status.ok, buf), after)
    → unmarshal buf ≡ (Status.ok, some p)
unfolding marshal unmarshal same_text
unmarshal-marshal heap after p cap buf small h =
    let written = codes "COM1" ++ address_bytes 8 p in
    let back : unmarshal written ≡ (Status.ok, some p) =
      ap (λ a. (Status.ok, some a)) (address_of-address_bytes 8 p small) in
    elim (Bool-cases (ltb cap 12)) [
      | inl narrow ↦ let h' = rw narrow at h in absurd (cc)
      | inr wide ↦ elim (Option-cases (add_ref heap p)) [
        | inl gone ↦ let h' = rw (wide, gone) at h in absurd (cc)
        | inr (t, there) ↦
            let h' = rw (wide, there) at h in
            subst (λ b. unmarshal b ≡ (Status.ok, some p)) (ap (written_of written) h') back
      ]
    ]
