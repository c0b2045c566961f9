-- ===== src/Prelude/Bits.antt =====
-- `|` of disjoint fields and `&` with a mask of low ones, as arithmetic, at every width.
-- The native operations mean a recursion on binary digits, to which the proofs go back.
use Prim.Native.Nat.{
  ℕ, zero, suc, ◌+◌, ◌-◌, ◌*◌, ◌/◌, ◌%◌, ◌^◌, ◌≤◌, ◌<◌, min, max, digits, bit_and, bit_or,
  bit_and-bitwise, bit_or-bitwise,
}
use mathlib.Core.Path.{◌≡◌, ap, ◌∙◌}
use native.Mathlib.Nat.{pow-suc, one-le-pow}
use native.Mathlib.Omega.{arith}

-- A product with the next power of two, in the form that `omega` reads.
pub mul-pow_suc : (b k : ℕ) → b * 2 ^ suc k ≡ 2 * (b * 2 ^ k)
mul-pow_suc b k = omega (arith, ap (λ (t : ℕ). b * t) (pow-suc 2 k))

digits-or : (n k a b : ℕ) → a ≤ n → a < 2 ^ k → digits (λ x. x) max n a (b * 2 ^ k) ≡ a + b * 2 ^ k
digits-or zero k zero b h lt = omega arith
digits-or zero k (suc a) b h lt = absurd (omega arith)
digits-or (suc n) k zero b h lt = omega arith
digits-or (suc n) zero (suc a) b h lt = absurd (omega arith)
digits-or (suc n) (suc k) (suc a) b h lt =
    let half : b * 2 ^ suc k / 2 ≡ b * 2 ^ k = omega (arith, mul-pow_suc b k) in
    let even : b * 2 ^ suc k % 2 ≡ 0 = omega (arith, mul-pow_suc b k) in
    rw (half, even)
      (omega (
        arith,
        mul-pow_suc b k,
        digits-or n k (suc a / 2) b (omega arith) (omega (arith, pow-suc 2 k)),
      ))

-- `a | (b << k)` is the sum when `a` fits `k` bits.
pub bit_or_disjoint : (k a b : ℕ) → a < 2 ^ k → bit_or a (b * 2 ^ k) ≡ a + b * 2 ^ k
bit_or_disjoint k a b h = bit_or-bitwise a (b * 2 ^ k) ∙ digits-or a k a b (omega arith) h

digits-and :
    (n k q r a : ℕ)
    → a ≤ n
    → a ≡ q * 2 ^ k + r
    → r < 2 ^ k
    → digits (λ x. 0) min n a (2 ^ k - 1) ≡ r
digits-and zero k q r zero h e lt = omega arith
digits-and zero k q r (suc a) h e lt = absurd (omega arith)
digits-and (suc n) k q r zero h e lt = omega arith
digits-and (suc n) zero q r (suc a) h e lt =
    omega
      (arith, digits-and n zero (suc a / 2) 0 (suc a / 2) (omega arith) (omega arith) (omega arith))
digits-and (suc n) (suc k) q r (suc a) h e lt =
    let half : (2 ^ suc k - 1) / 2 ≡ 2 ^ k - 1 = omega (arith, pow-suc 2 k, one-le-pow k 2) in
    let odd : (2 ^ suc k - 1) % 2 ≡ 1 = omega (arith, pow-suc 2 k, one-le-pow k 2) in
    rw (half, odd)
      (omega (
        arith,
        mul-pow_suc q k,
        digits-and n k q (r / 2) (suc a / 2) (omega arith) (omega (arith, mul-pow_suc q k))
            (omega (arith, pow-suc 2 k)),
      ))

-- `a & (2^k - 1)` is the remainder by `2^k`.
pub bit_and_mask : (k a : ℕ) → bit_and a (2 ^ k - 1) ≡ a % 2 ^ k
bit_and_mask k a =
    bit_and-bitwise a (2 ^ k - 1)
    ∙ digits-and a k (a / 2 ^ k) (a % 2 ^ k) a (omega arith) (grind (arith, one-le-pow k 2))
        (grind (arith, one-le-pow k 2))

pub pow-pos : (k : ℕ) → 0 < 2 ^ k
pow-pos k = omega (arith, one-le-pow k 2)
