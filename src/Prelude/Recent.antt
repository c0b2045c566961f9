-- ===== src/Prelude/Recent.antt =====
-- An array of `cap` entries that is written in a circle: `pos` is the next entry to write, and
-- `count` says how many were written, up to the capacity.
use native.Mathlib.Nat.{mod-eq_of_lt, mod-eq-sub-mod}
use Prim.Native.Nat.{ℕ, zero, suc, ◌+◌, ◌-◌, ◌*◌, ◌%◌, ◌≤◌, ◌<◌, min}
use mathlib.Core.Path.{◌≡◌, refl, sym, ap, ◌∙◌}
use mathlib.Core.Logic.{◌⊎◌, inl, inr, ◌≢◌}
use mathlib.Core.List.{List, [], ◌∷◌, ◌++◌}
use native.Mathlib.Omega.{arith}
use fantastic_octo_meme.Prelude.Tests.{ltb, if◌then◌else◌, Bool-cases}
use fantastic_octo_meme.Prelude.Lists.{
  length, set, get_or, drop, length-set, length-append, length-drop, get_or-set_self, get_or-set_ne,
  get_or-append_left, get_or-append_right, get_or-drop, eq_of_get_or,
}

module _ {ℓ} {A : Type ℓ} where
  -- `n` entries by their numbers from `i` on.
  abbrev pub tabulate : (ℕ → A) → ℕ → ℕ → List A
  tabulate f i zero = []
  tabulate f i (suc n) = f i ∷ tabulate f (i + 1) n

  pub length-tabulate : (f : ℕ → A) (i n : ℕ) → length (tabulate f i n) ≡ n
  length-tabulate f i zero = refl
  length-tabulate f i (suc n) = ap suc (length-tabulate f (i + 1) n)

  pub get_or-tabulate :
      (f : ℕ → A) (i n j : ℕ) (d : A) → j < n → get_or (tabulate f i n) j d ≡ f (i + j)
  get_or-tabulate f i zero j d h = elim h [ ]
  get_or-tabulate f i (suc n) zero d h = ap f (omega arith)
  get_or-tabulate f i (suc n) (suc j) d h =
      get_or-tabulate f (i + 1) n j d (omega arith) ∙ ap f (omega arith)

  module _ (cap : ℕ) (d : A) where
    -- The index of the entry `i` places behind the oldest one.
    abbrev pub place : ℕ → ℕ → ℕ → ℕ
    place pos count i = (pos + cap - count + i) % cap

    -- The entries present, the oldest first.
    unfoldable pub recent : List A → ℕ → ℕ → List A
    recent slots pos count = tabulate (λ i. get_or slots (place pos count i) d) 0 count

    pub length-recent : (slots : List A) (pos count : ℕ) → length (recent slots pos count) ≡ count
    unfolding recent
    length-recent slots pos count = length-tabulate _ 0 count

    pub get_or-recent :
        (slots : List A) (pos count i : ℕ)
        → i < count
        → get_or (recent slots pos count) i d ≡ get_or slots (place pos count i) d
    unfolding recent
    get_or-recent slots pos count i h =
        get_or-tabulate _ 0 count i d h ∙ ap (λ k. get_or slots (place pos count k) d) (omega arith)

    circle : (x : ℕ) → x < 2 * cap → x % cap ≡ (if ltb x cap then x else x - cap)
    circle x h = elim (Bool-cases (ltb x cap)) [
      | inl low ↦ rw low (mod-eq_of_lt (ground arith))
      | inr high ↦ rw high (mod-eq-sub-mod (ground arith) ∙ mod-eq_of_lt (ground arith))
    ]

    -- After a write at `pos` with `g` of the oldest entries given up, the others keep their places.
    module _ (pos count g : ℕ) (inside : pos < cap) (full : count ≤ cap)
        (gives : ((g ≡ 0) × (count < cap)) ⊎ ((g ≡ 1) × (count ≡ cap))) where
      abbrev next : ℕ
      next = (pos + 1) % cap

      place-kept : (i : ℕ) → i + g < count → place next (count + 1 - g) i ≡ place pos count (i + g)
      place-kept i h = ground (
        arith,
        circle (pos + 1),
        circle (pos + 1 + cap - (count + 1 - g) + i),
        circle (0 + cap - (count + 1 - g) + i),
        circle (pos + cap - count + (i + g)),
      )

      place-new : place next (count + 1 - g) (count - g) ≡ pos
      place-new = ground (
        arith,
        circle (pos + 1),
        circle (pos + 1 + cap - (count + 1 - g) + (count - g)),
        circle (0 + cap - (count + 1 - g) + (count - g)),
      )

      place-ne : (i : ℕ) → i + g < count → pos ≢ place pos count (i + g)
      place-ne i h = ground (arith, circle (pos + cap - count + (i + g)))

      module _ (slots : List A) (x : A) (whole : length slots ≡ cap) where
        recent_after :
            recent (set slots pos x) next (count + 1 - g)
            ≡ drop g (recent slots pos count) ++ (x ∷ [])
        recent_after =
            let old = recent slots pos count in
            let l = length-recent slots pos count in
            let l' = length-recent (set slots pos x) next (count + 1 - g) in
            eq_of_get_or (recent (set slots pos x) next (count + 1 - g)) (drop g old ++ (x ∷ [])) d
              (omega (arith, l, l', length-append (drop g old) (x ∷ []), length-drop g old))
              λ i lt.
                get_or-recent (set slots pos x) next (count + 1 - g) i (omega (arith, l'))
                ∙ elim (Bool-cases (ltb (i + g) count)) [
                  | inl kept ↦
                      let before : i + g < count = ground arith in
                      let shift : i + g ≡ g + i = omega arith in
                      ap (λ k. get_or (set slots pos x) k d) (place-kept i before)
                      ∙ get_or-set_ne slots pos (place pos count (i + g)) x d (place-ne i before)
                      ∙ sym (get_or-recent slots pos count (i + g) before)
                      ∙ ap (λ k. get_or old k d) shift
                      ∙ sym (get_or-drop g old i d)
                      ∙ sym (
                          get_or-append_left (drop g old) (x ∷ []) i d
                            (omega (arith, l, length-drop g old)))
                  | inr last ↦
                      let is_last : i ≡ count - g = ground (arith, l') in
                      let first : i - length (drop g old) ≡ 0 =
                        omega (arith, l, length-drop g old) in
                      rw is_last (
                        ap (λ k. get_or (set slots pos x) k d) place-new
                        ∙ get_or-set_self slots pos x d (omega arith))
                      ∙ sym (ap (λ k. get_or (x ∷ []) k d) first)
                      ∙ sym (
                          get_or-append_right (drop g old) (x ∷ []) i d
                            (omega (arith, l, length-drop g old)))
                ]

    -- A write at `pos` gives up the oldest entry if all are in use, and adds the new one.
    pub recent-push :
        (slots : List A) (pos count : ℕ) (x : A)
        → length slots ≡ cap
        → pos < cap
        → count ≤ cap
        → let old = recent slots pos count in
          recent (set slots pos x) ((pos + 1) % cap) (if ltb count cap then count + 1 else count)
          ≡ (if ltb count cap then old else drop 1 old) ++ (x ∷ [])
    recent-push slots pos count x whole inside full = elim (Bool-cases (ltb count cap)) [
      | inl room ↦
          let same : count + 1 - 0 ≡ count + 1 = omega arith in
          rw room (
            ap (λ n. recent (set slots pos x) ((pos + 1) % cap) n) (sym same)
            ∙ recent_after pos count 0 inside full (inl (refl, ground arith)) slots x whole)
      | inr all ↦
          let same : count + 1 - 1 ≡ count = omega arith in
          rw all (
            ap (λ n. recent (set slots pos x) ((pos + 1) % cap) n) (sym same)
            ∙ recent_after pos count 1 inside full (inr (refl, ground arith)) slots x whole)
    ]

    drop-nil : (m : ℕ) → drop {A = A} m [] ≡ []
    drop-nil zero = refl
    drop-nil (suc m) = refl

    drop-drop : (m n : ℕ) (xs : List A) → drop m (drop n xs) ≡ drop (n + m) xs
    drop-drop m zero xs = ap (λ k. drop k xs) (let same : m ≡ 0 + m = omega arith in same)
    drop-drop m (suc n) [] = drop-nil m ∙ sym (drop-nil (suc n + m))
    drop-drop m (suc n) (x ∷ xs) =
        let same : suc n + m ≡ suc (n + m) = omega arith in rw same (drop-drop m n xs)

    drop-append : (n : ℕ) (xs ys : List A) → n ≤ length xs → drop n (xs ++ ys) ≡ drop n xs ++ ys
    drop-append zero xs ys h = refl
    drop-append (suc n) [] ys h = absurd (omega arith)
    drop-append (suc n) (x ∷ xs) ys h = drop-append n xs ys (omega arith)

    -- The array holds the last `cap` of the entries `ys` that were written, in their order.
    abbrev pub Keeps : List A → ℕ → ℕ → List A → Type ℓ
    Keeps slots pos count ys =
        (length slots ≡ cap)
        × (pos < cap)
        × (count ≡ min (length ys) cap)
        × (recent slots pos count ≡ drop (length ys - cap) ys)

    pub push-Keeps :
        (slots : List A) (pos count : ℕ) (ys : List A) (x : A)
        → Keeps slots pos count ys
        → Keeps
            (set slots pos x)
            ((pos + 1) % cap)
            (if ltb count cap then count + 1 else count)
            (ys ++ x ∷ [])
    push-Keeps slots pos count ys x (whole, inside, many, holds) =
        let l = length-append ys (x ∷ []) in
        (
          length-set slots pos x ∙ whole,
          omega arith,
          ground (arith, l),
          recent-push slots pos count x whole inside (omega arith)
              ∙ elim (Bool-cases (ltb count cap)) [
                | inl room ↦
                    let none_before : length ys - cap ≡ 0 = ground arith in
                    let none_after : length (ys ++ x ∷ []) - cap ≡ 0 = ground (arith, l) in
                    rw (room, none_after) (ap (λ t. t ++ x ∷ []) (rw none_before at holds))
                | inr all ↦
                    let one_more : length (ys ++ x ∷ []) - cap ≡ length ys - cap + 1 =
                      ground (arith, l) in
                    rw (all, one_more, holds)
                      (ap (λ t. t ++ x ∷ []) (drop-drop 1 (length ys - cap) ys)
                        ∙ sym (drop-append (length ys - cap + 1) ys (x ∷ []) (ground arith)))
              ],
        )
