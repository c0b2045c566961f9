-- ===== src/Ring/Create.antt =====
-- The capacity of a new ring, and its state.
use fantastic_octo_meme.Prelude.{
  ℕ, zero, suc, ◌+◌, ◌-◌, ◌*◌, ◌%◌, ◌^◌, ◌≤◌, ◌<◌, ◌≡◌, ◌≢◌, refl, ◌∙◌, arith, [], length, ltb,
  ◌==◌, Bool-cases, inl, inr, some, Option, subst, true, false,
}
use native.Mathlib.Nat.{pow-suc, pow-le-pow_right}
use fantastic_octo_meme.Memory.{Bytes, done, pending}
use fantastic_octo_meme.Ring.{Ring, round_from, round_up_pow2, create}
use fantastic_octo_meme.Ring.Queue.{IsRing, contents}

round_stop : (fuel n v : ℕ) → n ≤ v → round_from (suc fuel) n v ≡ done v
unfolding round_from
round_stop fuel n v h = ground arith

round_double :
    (fuel n e : ℕ)
    → 2 ^ e < n
    → e < 63
    → round_from (suc fuel) n (2 ^ e) ≡ round_from fuel n (2 ^ suc e)
unfolding round_from
round_double fuel n e h small =
    let more : ltb (2 ^ e) n ≡ true = ground arith in
    let low : 2 ^ suc e ≤ 2 ^ 63 = pow-le-pow_right (omega arith) small in
    let next : 2 ^ e * 2 % 2 ^ 64 ≡ 2 ^ suc e = omega (arith, pow-suc 2 e, low) in rw (more, next)

-- The loop from `2^e` on takes at most `k` doublings to get to `2^(e + k)`.
round_from_lem :
    (k e n : ℕ)
    → n ≤ 2 ^ (e + k)
    → e + k ≤ 63
    → (e ≢ 0 → 2 ^ e < 2 * n)
    → (d : ℕ) × (round_from (suc k) n (2 ^ e) ≡ done (2 ^ d))
      × (d ≤ e + k)
      × (n ≤ 2 ^ d)
      × (d ≢ 0 → 2 ^ d < 2 * n)
round_from_lem zero e n big small above =
    let fits : n ≤ 2 ^ e =
      subst (λ x. n ≤ 2 ^ x) (let whole : e + 0 ≡ e = omega arith in whole) big in
    (e, round_stop 0 n (2 ^ e) fits, omega arith, fits, above)
round_from_lem (suc k) e n big small above = elim (Bool-cases (ltb (2 ^ e) n)) [
  | inl more ↦
      let less : 2 ^ e < n = ground arith in
      let shift : e + suc k ≡ suc e + k = omega arith in
      let (d, ran, low, fits, tight) =
        round_from_lem k (suc e) n (subst (λ x. n ≤ 2 ^ x) shift big) (omega arith)
          (λ _. omega (arith, pow-suc 2 e)) in
      (d, round_double (suc k) n e less (omega arith) ∙ ran, omega arith, fits, tight)
  | inr stop ↦
      let fits : n ≤ 2 ^ e = ground arith in
      (e, round_stop (suc k) n (2 ^ e) fits, omega arith, fits, above)
]

-- For every size up to 2^63 the loop ends within 64 rounds, with a power of two that is at least
-- the size and, unless it is 1, less than twice the size.
pub round_up_pow2_lem :
    (n : ℕ)
    → n ≤ 2 ^ 63
    → (d : ℕ) × (round_up_pow2 64 n ≡ done (2 ^ d))
      × (d ≤ 63)
      × (n ≤ 2 ^ d)
      × (d ≢ 0 → 2 ^ d < 2 * n)
unfolding round_up_pow2
round_up_pow2_lem n h = round_from_lem 63 0 n h (omega arith) (λ e. absurd (e refl))

round_zero : (fuel n : ℕ) → 2 ^ 63 < n → round_from fuel n 0 ≡ pending
unfolding round_from
round_zero zero n h = refl
round_zero (suc fuel) n h =
    let more : ltb 0 n ≡ true = ground arith in rw more (round_zero fuel n h)

round_last : (fuel n : ℕ) → 2 ^ 63 < n → round_from (suc fuel) n (2 ^ 63) ≡ pending
unfolding round_from
round_last fuel n h =
    let more : ltb (2 ^ 63) n ≡ true = ground arith in rw more (round_zero fuel n h)

round_none : (n v : ℕ) → round_from 0 n v ≡ pending
unfolding round_from
round_none n v = refl

round_climb : (fuel k e n : ℕ) → 2 ^ 63 < n → e + k ≡ 63 → round_from fuel n (2 ^ e) ≡ pending
round_climb zero k e n h whole = round_none n (2 ^ e)
round_climb (suc fuel) zero e n h whole =
    let last : e ≡ 63 = omega arith in rw last (round_last fuel n h)
round_climb (suc fuel) (suc k) e n h whole =
    let near : e ≤ 63 = omega arith in
    let low : 2 ^ e ≤ 2 ^ 63 = pow-le-pow_right (omega arith) near in
    round_double fuel n e (omega arith) (omega arith) ∙ round_climb fuel k (suc e) n h (omega arith)

-- For a size above 2^63 the loop never ends: the doubled value becomes 0 before it is large enough.
pub round_up_pow2_hangs : (fuel n : ℕ) → 2 ^ 63 < n → round_up_pow2 fuel n ≡ pending
unfolding round_up_pow2
round_up_pow2_hangs fuel n h = round_climb fuel 63 0 n h refl

exponent-le : (d n : ℕ) → n ≤ 2 ^ 32 → (d ≢ 0 → 2 ^ d < 2 * n) → d ≤ 32
exponent-le d n low tight = elim (Bool-cases (ltb 32 d)) [
  | inl high ↦
      let above : 33 ≤ d = ground arith in
      let pow : 2 ^ 33 ≤ 2 ^ d = pow-le-pow_right (omega arith) above in
      absurd (omega (arith, tight (λ e. absurd (omega arith))))
  | inr fine ↦ ground arith
]

-- For a capacity from 1 to 2^32, where `malloc` gives an object of the size asked for, the new ring
-- is valid and empty, and has room for the capacity asked for.
pub create_lem :
    (malloc : ℕ → Option Bytes) (n : ℕ)
    → 0 < n
    → n ≤ 2 ^ 32
    → ((size : ℕ) → (object : Bytes) × (malloc size ≡ some object) × (length object ≡ size))
    → (r : Ring) × (create 64 malloc n ≡ done r) × IsRing r × (contents r ≡ []) × (n ≤ r.capacity)
unfolding create contents
create_lem malloc n pos low given =
    let (d, ran, _, fits, tight) = round_up_pow2_lem n (omega arith) in
    let (object, gave, len) = given (2 ^ d) in
    let small = exponent-le d n low tight in
    let bound : 2 ^ d ≤ 2 ^ 32 = pow-le-pow_right (omega arith) small in
    let some_size : (n == 0) ≡ false = ground arith in
    let r : Ring = record {
      buf = object;
      capacity = 2 ^ d;
      mask = (2 ^ d - 1) % 2 ^ 32;
      head = 0;
      tail = 0;
    } in
    (
      r,
      rw (some_size, ran, gave) refl,
      (d, small, refl, omega arith, len, omega arith, omega arith, omega arith),
      refl,
      fits,
    )
