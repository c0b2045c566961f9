-- ===== src/Ring/Slots.antt =====
-- Where the bytes of a ring stand: the masked counter, and a circular list read from it.
use Prim.Native.Nat.{◌∣◌}
use native.Mathlib.Nat.{
  mod-mod_of_dvd, dvd_refl, dvd-mul_right_of_dvd, pow-suc, mod-lt, mod-add-mod, mod-eq_of_lt,
  mod-eq-sub-mod,
}
use fantastic_octo_meme.Prelude.{
  ℕ, zero, suc, ◌+◌, ◌-◌, ◌*◌, ◌%◌, ◌^◌, ◌≤◌, ◌<◌, ◌≡◌, refl, sym, ap, ◌∙◌, arith, [], ◌∷◌, length,
  get_or, subst, ltb, if◌then◌else◌, Bool-cases, inl, inr,
}
use fantastic_octo_meme.Memory.{Bytes}

pow-dvd : (e d : ℕ) → 2 ^ e ∣ 2 ^ (d + e)
pow-dvd e zero = subst (λ k. 2 ^ e ∣ 2 ^ k) (omega arith) (dvd_refl (2 ^ e))
pow-dvd e (suc d) =
    let shift : suc (d + e) ≡ suc d + e = omega arith in
    let step : 2 ^ (suc d + e) ≡ 2 ^ (d + e) * 2 =
      ap (λ k. 2 ^ k) (sym shift) ∙ pow-suc 2 (d + e) in
    subst (λ k. 2 ^ e ∣ k) (sym step) (dvd-mul_right_of_dvd (2 ^ e) (pow-dvd e d) 2)

-- A counter of 64 bits gives the slot that the unbounded one would.
pub wrap-slot : (e x : ℕ) → e ≤ 64 → x % 2 ^ 64 % 2 ^ e ≡ x % 2 ^ e
wrap-slot e x h = mod-mod_of_dvd (2 ^ e) x (
    let whole : 64 - e + e ≡ 64 = omega arith in
    subst (λ k. 2 ^ e ∣ 2 ^ k) whole (pow-dvd e (64 - e)))

-- The slot `i` places behind another one.
pub next-slot :
    (c x i : ℕ)
    → 0 < c
    → i ≤ c
    → (x + i) % c ≡ (if ltb (x % c + i) c then x % c + i else x % c + i - c)
next-slot c x i pos h =
    let low : x % c < c = mod-lt x pos in
    sym (mod-add-mod x c i) ∙ elim (Bool-cases (ltb (x % c + i) c)) [
      | inl t ↦ rw t (mod-eq_of_lt (ground arith))
      | inr f ↦ rw f (mod-eq-sub-mod (ground arith) ∙ mod-eq_of_lt (ground arith))
    ]

-- `n` bytes by their numbers from `i` on.
abbrev pub cells : (ℕ → ℕ) → ℕ → ℕ → Bytes
cells f i zero = []
cells f i (suc n) = f i ∷ cells f (i + 1) n

pub length-cells : (f : ℕ → ℕ) (i n : ℕ) → length (cells f i n) ≡ n
length-cells f i zero = refl
length-cells f i (suc n) = ap suc (length-cells f (i + 1) n)

pub get_or-cells : (f : ℕ → ℕ) (i n j : ℕ) → j < n → get_or (cells f i n) j 0 ≡ f (i + j)
get_or-cells f i zero j h = elim h [ ]
get_or-cells f i (suc n) zero h = ap f (omega arith)
get_or-cells f i (suc n) (suc j) h = get_or-cells f (i + 1) n j (omega arith) ∙ ap f (omega arith)
