-- ===== src/Com/Runtime/Classes.antt =====
-- The table of classes, the objects that it makes and their addresses.
use fantastic_octo_meme.Prelude.{
  subst, ◌≡◌, true, false, [], ◌∷◌, refl, ap, arith, Bool-cases, Option-cases, inl, inr, Option,
  none, some, if◌then◌else◌,
}
use fantastic_octo_meme.Memory.{Bytes}
use fantastic_octo_meme.Status.{Status}
use fantastic_octo_meme.Text.{clip, same_text}
use fantastic_octo_meme.Text.Same.{same_text-itself}
use fantastic_octo_meme.Conf.{or_empty}
use fantastic_octo_meme.Com.Guid.{Guid, same_guid}
use fantastic_octo_meme.Com.Runtime.{
  Class, ClassTable, re_registered, registered, register_class, factory_of,
}

same_text_trans : (a b c : Bytes) → same_text a b ≡ true → same_text a c ≡ same_text b c
unfolding same_text
same_text_trans [] [] c h = refl
same_text_trans [] (y ∷ b) c h = absurd (cc)
same_text_trans (x ∷ a) [] c h = absurd (cc)
same_text_trans (x ∷ a) (y ∷ b) [] h = refl
same_text_trans (x ∷ a) (y ∷ b) (z ∷ c) h = ground (arith, same_text_trans a b c)

same_guid_refl : (a : Guid) → same_guid a a ≡ true
unfolding same_guid
same_guid_refl a = ground (arith, same_text-itself a.data4)

same_guid_trans : (a b c : Guid) → same_guid a b ≡ true → same_guid a c ≡ same_guid b c
unfolding same_guid
same_guid_trans a b c h = ground (arith, same_text_trans a.data4 b.data4 c.data4)

module _ {Factory : Type 0} (clsid : Guid) (progid : Option Bytes) (fac : Factory) where
  -- What is found for a class after the registration.
  abbrev expected : ClassTable Factory → Guid → Option Factory
  expected cs id = if same_guid clsid id then some fac else factory_of cs id

  -- An entry of another class stands in front.
  either_first :
      (c : Class Factory) (cs ds : ClassTable Factory) (id : Guid)
      → same_guid c.clsid clsid ≡ false
      → factory_of ds id ≡ expected cs id
      → factory_of (some c ∷ ds) id ≡ expected (some c ∷ cs) id
  unfolding factory_of
  either_first c cs ds id other rest = ground (
    arith,
    same_guid_trans c.clsid id clsid,
    same_guid_trans clsid id clsid,
    same_guid_refl clsid,
  )

  re_registered-factory_of :
      (cs ds : ClassTable Factory) (id : Guid)
      → re_registered clsid progid fac cs ≡ some ds
      → factory_of ds id ≡ expected cs id
  unfolding re_registered factory_of
  re_registered-factory_of [] ds id h = absurd (cc)
  re_registered-factory_of (none ∷ cs) ds id h =
      elim (Option-cases (re_registered clsid progid fac cs)) [
        | inl missing ↦ absurd (ground arith)
        | inr (rest, there) ↦
            let later : none ∷ rest ≡ ds = ground arith in
            subst (λ ds. factory_of ds id ≡ expected cs id) later
              (re_registered-factory_of cs rest id there)
      ]
  re_registered-factory_of (some c ∷ cs) ds id h = elim (Bool-cases (same_guid c.clsid clsid)) [
    | inl is ↦
        let name : Bytes = elim progid [ none ↦ c.progid | some p ↦ clip 64 p ] in
        let first : some (record { clsid = c.clsid; progid = name; factory = fac }) ∷ cs ≡ ds =
          ground arith in
        subst (λ ds. factory_of ds id ≡ expected (some c ∷ cs) id) first
          (ground (arith, same_guid_trans c.clsid clsid id))
    | inr other ↦ elim (Option-cases (re_registered clsid progid fac cs)) [
      | inl missing ↦ absurd (ground arith)
      | inr (rest, there) ↦
          let later : some c ∷ rest ≡ ds = ground arith in
          subst (λ ds. factory_of ds id ≡ expected (some c ∷ cs) id) later
            (either_first c cs rest id other (re_registered-factory_of cs rest id there))
    ]
  ]

  registered-factory_of :
      (cs ds : ClassTable Factory) (id : Guid) (name : Bytes)
      → re_registered clsid progid fac cs ≡ none
      → registered (record { clsid = clsid; progid = name; factory = fac }) cs ≡ some ds
      → factory_of ds id ≡ expected cs id
  unfolding re_registered registered factory_of
  registered-factory_of [] ds id name g h = absurd (cc)
  registered-factory_of (none ∷ cs) ds id name g h =
      let new : Class Factory = record { clsid = clsid; progid = name; factory = fac } in
      let first : some new ∷ cs ≡ ds = ground arith in
      subst (λ ds. factory_of ds id ≡ expected cs id) first refl
  registered-factory_of (some c ∷ cs) ds id name g h =
      let new : Class Factory = record { clsid = clsid; progid = name; factory = fac } in
      let other : same_guid c.clsid clsid ≡ false = ground arith in
      elim (Option-cases (registered new cs)) [
        | inl full ↦ absurd (ground arith)
        | inr (rest, there) ↦
            let later : some c ∷ rest ≡ ds = ground arith in
            subst (λ ds. factory_of ds id ≡ expected (some c ∷ cs) id) later
              (either_first c cs rest id other
                (registered-factory_of cs rest id name (ground arith) there))
      ]

  -- After `cellar_com_register_class` returned `CELLAR_OK`, the factory that is found for the class
  -- is the one that was registered, and every other class has the factory that it had, if any.
  pub factory_of-register_class :
      (cs ds : ClassTable Factory) (id : Guid)
      → register_class cs (some clsid) progid (some fac) ≡ (Status.ok, ds)
      → factory_of ds id ≡ (if same_guid clsid id then some fac else factory_of cs id)
  unfolding register_class
  factory_of-register_class cs ds id h =
      let new : Class Factory = record {
        clsid = clsid;
        progid = clip 64 (or_empty progid);
        factory = fac;
      } in
      elim (Option-cases (re_registered clsid progid fac cs)) [
        | inr (es, there) ↦
            let h' = rw there at h in
            subst (λ ds. factory_of ds id ≡ expected cs id) (ap (λ t. t.1) h')
              (re_registered-factory_of cs es id there)
        | inl fresh ↦ elim (Option-cases (registered new cs)) [
          | inr (es, there) ↦
              let h' = rw (fresh, there) at h in
              subst (λ ds. factory_of ds id ≡ expected cs id) (ap (λ t. t.1) h')
                (registered-factory_of cs es id new.progid fresh there)
          | inl full ↦ let h' = rw (fresh, full) at h in absurd (cc)
        ]
      ]
